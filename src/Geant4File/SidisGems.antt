-- ===== src/Geant4File/SidisGems.antt =====
-- ReadNextEvent of src/TSBSGeant4File.cxx for the SIDIS GEMs (detector type 2). The geometry is read with
-- `module`, which stays 0, while the module that the position gives is in `sector`; energy and times
-- are of type int.
use libsolgem.Base.{
  ◌>>=◌, ℕ, ◌+◌, ℤ, pos, false, ◌&&◌, Option, some, List, [], ◌∷◌, ◌++◌, ◌==◌, length, leb, get_or,
  set, if◌then◌else◌, >>=-eq-some, ◌≡◌, refl, inl, inr, Bool-cases, All, All-append,
}
use libsolgem.Base.Int.{◌+ℤ◌, ◌-ℤ◌, eqb_ℤ}
use mathlib.Core.Option.{some-injective}
use libsolgem.Database.{Manager}
use libsolgem.Database.Access.{
  get_module_id_from_pos, get_xoffset, get_d0, get_dx, get_dy, get_sig_pid,
}
use libsolgem.Double.{Double, ◌⊗◌, ◌≺◌, ◌≼◌, of_ℤ, of_ℕ, trunc}
use libsolgem.SimEvent.{Vec3}
use libsolgem.Geant4File.{
  SimRecord, Geant4File, new_record, new_gen_record, set_data, is_filled, all_below,
}
use libsolgem.Geant4File.BbGems.{TreeHit, fill_record, tracker_entries, to_mm, hit_momentum}
use libsolgem.Geant4File.ReadEvent.{TreeEntry}

-- The entries of gen_data_temp that are written.
pub record GenTemp (D : Type 0) : Type 0 where
  pub trid : D
  pub pid : D
  pub mom : Vec3 D
  pub vtx : Vec3 D
  pub weight : D

-- The local variables of the loop.
pub record SidisLoop (D : Type 0) : Type 0 where
  pub hit_data : List (SimRecord D)
  pub gen_data : List (SimRecord D)
  pub trid_hits : List ℤ
  pub pmax : D
  pub gen_data_temp : GenTemp D
  pub gen_data_temp_max : GenTemp D

module _ {D : Type 0} ⦃d : Double D⦄ where
  unfoldable pub IsUnfilled : SimRecord D → Type 0
  IsUnfilled h = is_filled h ≡ false

module _ {D : Type 0} ⦃d : Double D⦄ (square : D → D) (unset : D) (fManager : Manager D) where
  -- An entry that went through an int.
  abbrev pub whole_at : ℕ → List D → List D
  whole_at k xs = set xs k (of_ℤ (trunc (get_or xs k unset)))

  -- The record of a hit, of the size of the GEM bank, 23.
  unfoldable pub sidis_record : ℤ → TreeHit D → Option (SimRecord D)
  sidis_record source h =
      let plane = h.plane -ℤ pos 1 in
      let sector = get_module_id_from_pos fManager plane h.tx in
      let type = h.mid +ℤ source +ℤ pos 1 in
      get_xoffset fManager plane (pos 0) >>= λ xoffset. get_d0 fManager plane (pos 0) >>= λ d0.
      get_dx fManager plane sector >>= λ dx. get_dy fManager plane sector >>= λ dy. some (
        fill_record
          (whole_at 12 (
            whole_at 8
              (whole_at 1 (tracker_entries square unset fManager xoffset d0 dx dy type sector h))))
          0 (new_record unset (pos 2) 23))

  -- Nine of the fifteen entries of a generated particle.
  unfoldable pub short_record : GenTemp D → SimRecord D
  short_record t =
      fill_record
        (t.trid ∷ t.pid ∷ t.mom.x ∷ t.mom.y ∷ t.mom.z ∷ t.vtx.x ∷ t.vtx.y ∷ t.vtx.z ∷ t.weight ∷ [])
        0 (new_gen_record unset 13)

  unfoldable pub gen_temp : D → TreeHit D → GenTemp D
  gen_temp weight h = record {
    trid = of_ℤ h.trid;
    pid = of_ℤ h.pid;
    mom = hit_momentum square unset fManager h;
    vtx = record { x = to_mm h.vtx.x; y = to_mm h.vtx.y; z = to_mm h.vtx.z };
    weight = weight;
  }

  -- The end of the loop's body, for the record `r` of the hit.
  unfoldable pub note_sidis_hit : ℤ → D → TreeHit D → SimRecord D → SidisLoop D → SidisLoop D
  note_sidis_hit source weight h r s =
      let temp = gen_temp weight h in
      let most = s.pmax ≺ h.p && eqb_ℤ h.pid (get_sig_pid fManager 0) in
      let primary = eqb_ℤ (h.mid +ℤ source +ℤ pos 1) (pos 1) in
      let stored = eqb_ℤ source (pos 0) && length s.gen_data == 0 && primary in
      record {
        hit_data = s.hit_data ++ r ∷ [];
        gen_data = if stored then s.gen_data ++ short_record temp ∷ [] else s.gen_data;
        trid_hits = s.trid_hits ++ h.trid ∷ [];
        pmax = if most then h.p else s.pmax;
        gen_data_temp = temp;
        gen_data_temp_max = if most then temp else s.gen_data_temp_max;
      }

  unfoldable pub sidis_hits : ℤ → D → List (TreeHit D) → SidisLoop D → Option (SidisLoop D)
  sidis_hits source weight [] s = some s
  sidis_hits source weight (h ∷ rest) s = sidis_record source h >>= λ r.
      sidis_hits source weight rest (note_sidis_hit source weight h r s)

  -- n_hits_max
  unfoldable pub count_track : D → List ℤ → ℕ
  count_track trid [] = 0
  count_track trid (t ∷ rest) =
      if trid ≼ of_ℤ t && of_ℤ t ≼ trid then count_track trid rest + 1 else count_track trid rest

  -- The generated particle is rescued from the last hit.
  unfoldable pub rescue : ℤ → SidisLoop D → List (SimRecord D)
  rescue source s =
      let none_yet = eqb_ℤ source (pos 0) && length s.gen_data == 0 in
      if none_yet
        && leb 3 (length s.hit_data)
        && leb 3 (count_track s.gen_data_temp_max.trid s.trid_hits)
      then s.gen_data ++ short_record s.gen_data_temp ∷ []
      else s.gen_data

  abbrev pub no_temp : GenTemp D
  no_temp =
      let nothing : Vec3 D = record { x = unset; y = unset; z = unset } in
      record { trid = unset; pid = unset; mom = nothing; vtx = nothing; weight = unset }

  unfoldable pub sidis_event : TreeEntry D → Geant4File D → Option (Geant4File D × ℕ)
  sidis_event entry f =
      sidis_hits f.source (entry.solang ⊗ entry.sigma) entry.hits (record {
        hit_data = [];
        gen_data = [];
        trid_hits = [];
        pmax = of_ℕ 0;
        gen_data_temp = no_temp;
        gen_data_temp_max = no_temp;
      })
      >>= λ s. some (record f { hit_data = s.hit_data; gen_data = rescue f.source s }, 1)

  short_record-IsUnfilled : (t : GenTemp D) → IsUnfilled (short_record t)
  unfolding IsUnfilled short_record is_filled all_below fill_record set_data new_gen_record
      new_record
  short_record-IsUnfilled t = refl

  note_sidis_hit-IsUnfilled :
      (source : ℤ) (weight : D) (h : TreeHit D) (r : SimRecord D) (s : SidisLoop D)
      → All IsUnfilled s.gen_data
      → All IsUnfilled (note_sidis_hit source weight h r s).gen_data
  unfolding note_sidis_hit
  note_sidis_hit-IsUnfilled source weight h r s all =
      let primary = eqb_ℤ (h.mid +ℤ source +ℤ pos 1) (pos 1) in
      let stored = eqb_ℤ source (pos 0) && length s.gen_data == 0 && primary in
      let temp = gen_temp weight h in
      elim (Bool-cases stored) [
        | inl yes_ ↦
            rw yes_ (All-append IsUnfilled s.gen_data _ all (short_record-IsUnfilled temp, tt))
        | inr no_ ↦ rw no_ all
      ]

  sidis_hits-IsUnfilled :
      (source : ℤ) (weight : D) (hs : List (TreeHit D)) (s t : SidisLoop D)
      → All IsUnfilled s.gen_data
      → sidis_hits source weight hs s ≡ some t
      → All IsUnfilled t.gen_data
  unfolding sidis_hits
  sidis_hits-IsUnfilled source weight [] s t all e = rw (← some-injective s t e) all
  sidis_hits-IsUnfilled source weight (h ∷ hs) s t all e =
      let (r, _, e1) = >>=-eq-some (sidis_record source h) _ e in
      sidis_hits-IsUnfilled source weight hs (note_sidis_hit source weight h r s) t
        (note_sidis_hit-IsUnfilled source weight h r s all) e1

  rescue-IsUnfilled :
      (source : ℤ) (s : SidisLoop D) → All IsUnfilled s.gen_data → All IsUnfilled (rescue source s)
  unfolding rescue
  rescue-IsUnfilled source s all =
      let none_yet = eqb_ℤ source (pos 0) && length s.gen_data == 0 in
      let taken =
        none_yet
        && leb 3 (length s.hit_data)
        && leb 3 (count_track s.gen_data_temp_max.trid s.trid_hits) in
      elim (Bool-cases taken) [
        | inl rescued ↦
            rw rescued
              (All-append IsUnfilled s.gen_data _ all (short_record-IsUnfilled s.gen_data_temp, tt))
        | inr kept ↦ rw kept all
      ]

  -- No generated particle that reading a SIDIS event gives counts as filled, where no getter throws.
  pub sidis_event-IsUnfilled :
      (entry : TreeEntry D) (f : Geant4File D) (g : Geant4File D × ℕ)
      → sidis_event entry f ≡ some g
      → All IsUnfilled g.0.gen_data
  unfolding sidis_event
  sidis_event-IsUnfilled entry f g e =
      let (s, at_s, e1) =
        >>=-eq-some (sidis_hits f.source (entry.solang ⊗ entry.sigma) entry.hits _) _ e in
      rw (← some-injective _ g e1) (
        rescue-IsUnfilled f.source s
          (sidis_hits-IsUnfilled f.source (entry.solang ⊗ entry.sigma) entry.hits _ s tt at_s))
