-- ===== src/Geant4File/TrackerGems.antt =====
-- ReadNextEvent of src/TSBSGeant4File.cxx for the forward tracker (detector type 3) and the focal plane
-- polarimeter (types 4 and 5). Unlike for the BigBite GEMs, a hit in no module is kept, with -1 as its module, and the
-- size of the first module of the plane limits the exit position in every module, as `sector` stays 0.
use libsolgem.Base.{
  ◌>>=◌, ℕ, suc, ℤ, pos, ◌&&◌, Option, none, some, List, [], ◌∷◌, length, if◌then◌else◌,
  >>=-eq-some, ◌≡◌, refl, sym, ap, inl, inr, Bool-cases, get_elem?,
}
use libsolgem.Base.Int.{◌+ℤ◌, ◌-ℤ◌, eqb_ℤ}
use mathlib.Core.Option.{some-injective}
use libsolgem.Database.{Manager}
use libsolgem.Database.Access.{get_module_id_from_pos, get_xoffset, get_d0, get_dx, get_dy}
use libsolgem.Double.{Double, ◌⊗◌, ◌≺◌, ◌≼◌, of_ℤ, of_ℕ}
use libsolgem.SimEvent.{Vec3}
use libsolgem.Geant4File.{
  SimRecord, Geant4File, new_record, new_gen_record, set_data, get_data, has_energy,
}
use libsolgem.Geant4File.BbGems.{
  TreeHit, TreeTrack, fill_record, hit_entries, tracker_entries, gen_entries, bb_gen,
}
use libsolgem.Geant4File.Packing.{hits_of}
use libsolgem.Geant4File.ReadEvent.{TreeEntry}

module _ {D : Type 0} ⦃d : Double D⦄ (square : D → D) (unset : D) (fManager : Manager D) where
  -- The record of a hit, of the type that the detector gives it.
  unfoldable pub tracker_record : (det_id : ℕ) → (type : ℤ) → TreeHit D → Option (SimRecord D)
  tracker_record det_id type h =
      let plane = h.plane -ℤ pos 1 in
      let module_ = get_module_id_from_pos fManager plane h.tx in
      get_xoffset fManager plane module_ >>= λ xoffset. get_d0 fManager plane module_ >>= λ d0.
      get_dx fManager plane (pos 0) >>= λ dx. get_dy fManager plane (pos 0) >>= λ dy. some (
        fill_record (tracker_entries square unset fManager xoffset d0 dx dy type module_ h) 0
          (new_record unset (pos det_id) 24))

  -- The loop over hits.
  unfoldable pub tracker_hits : ℕ → (TreeHit D → ℤ) → List (TreeHit D) → Option (List (SimRecord D))
  tracker_hits det_id type_of [] = some []
  tracker_hits det_id type_of (h ∷ rest) = tracker_record det_id (type_of h) h >>= λ r.
      tracker_hits det_id type_of rest >>= λ rs. some (r ∷ rs)

  -- `type` of the forward tracker.
  abbrev pub ft_type : ℤ → TreeHit D → ℤ
  ft_type source h = h.mid +ℤ source +ℤ pos 1

  unfoldable pub ft_event : TreeEntry D → Geant4File D → Option (Geant4File D × ℕ)
  ft_event entry f = tracker_hits 3 (ft_type f.source) entry.hits >>= λ hit_data. some (
    record f {
      hit_data = hit_data;
      gen_data =
          bb_gen square unset fManager f.source (entry.solang ⊗ entry.sigma) entry.vertex
            entry.nucleon entry.tracks;
    },
    1,
  )

  -- The first track of signal data, if it is a proton.
  unfoldable pub fpp_track : ℤ → List (TreeTrack D) → Option (TreeTrack D)
  fpp_track source [] = none
  fpp_track source (t ∷ rest) =
      if eqb_ℤ source (pos 0) && eqb_ℤ t.pid (pos 2212) then some t else none

  -- gen_data_temp[0], which is not set where there is no such track.
  unfoldable pub fpp_number : Option (TreeTrack D) → D
  fpp_number none = unset
  fpp_number (some t) = of_ℤ t.tid

  -- `MID`
  unfoldable pub fpp_mid : Option (TreeTrack D) → ℤ
  fpp_mid none = pos 0
  fpp_mid (some t) = t.mid

  -- `type` of the polarimeter: a hit of the generated particle is a primary one.
  unfoldable pub fpp_type : ℤ → ℤ → Option (TreeTrack D) → TreeHit D → ℤ
  unfolding fpp_number
  fpp_type source mid_ track h =
      let same = of_ℤ h.trid ≼ fpp_number track && fpp_number track ≼ of_ℤ h.trid in
      if eqb_ℤ h.mid mid_ && same then source +ℤ pos 1 else ft_type source h

  unfoldable pub fpp_gen :
      D → (vertex momentum : Vec3 D) → Option (TreeTrack D) → List (SimRecord D)
  fpp_gen weight vertex momentum none = []
  fpp_gen weight vertex momentum (some t) =
      fill_record (gen_entries square unset fManager weight vertex momentum t) 0
        (new_gen_record unset 13)
      ∷ []

  -- The polarimeter's hits and generated particle, for a mother number and a track.
  unfoldable pub polarimeter_event :
      ℤ → Option (TreeTrack D) → TreeEntry D → Geant4File D → Option (Geant4File D × ℕ)
  polarimeter_event mid_ track entry f =
      tracker_hits 4 (fpp_type f.source mid_ track) entry.hits >>= λ hit_data. some (
        record f {
          hit_data = hit_data;
          gen_data = fpp_gen (entry.solang ⊗ entry.sigma) entry.vertex entry.nucleon track;
        },
        1,
      )

  -- Type 4, the first part of the polarimeter.
  unfoldable pub fpp_event : TreeEntry D → Geant4File D → Option (Geant4File D × ℕ)
  fpp_event entry f =
      let track = fpp_track f.source entry.tracks in polarimeter_event (fpp_mid track) track entry f

  -- Type 5, the second part; `MID` is read from the tracks of the first part, of which there may be none.
  unfoldable pub fpp2_mid : List ℤ → Option (TreeTrack D) → Option ℤ
  fpp2_mid fpp1_mids none = some (pos 0)
  fpp2_mid fpp1_mids (some t) = get_elem? fpp1_mids 0

  unfoldable pub fpp2_event : List ℤ → TreeEntry D → Geant4File D → Option (Geant4File D × ℕ)
  fpp2_event fpp1_mids entry f =
      let track = fpp_track f.source entry.tracks in
      fpp2_mid fpp1_mids track >>= λ mid_. polarimeter_event mid_ track entry f

  -- The number of hits that deposit energy.
  unfoldable n_energetic : List (TreeHit D) → ℕ
  n_energetic [] = 0
  n_energetic (h ∷ hs) =
      if of_ℕ 0 ≺ h.edep ⊗ of_ℕ 1000 then suc (n_energetic hs) else n_energetic hs

  tracker_record-has_energy :
      (det_id : ℕ) (type : ℤ) (h : TreeHit D) (r : SimRecord D)
      → tracker_record det_id type h ≡ some r
      → has_energy r ≡ (of_ℕ 0 ≺ h.edep ⊗ of_ℕ 1000)
  unfolding tracker_record tracker_entries hit_entries fill_record set_data get_data new_record
  tracker_record-has_energy det_id type h r e =
      let plane = h.plane -ℤ pos 1 in
      let m = get_module_id_from_pos fManager plane h.tx in
      let (xoffset, _, e1) = >>=-eq-some (get_xoffset fManager plane m) _ e in
      let (d0, _, e2) = >>=-eq-some (get_d0 fManager plane m) _ e1 in
      let (dx, _, e3) = >>=-eq-some (get_dx fManager plane (pos 0)) _ e2 in
      let (dy, _, e4) = >>=-eq-some (get_dy fManager plane (pos 0)) _ e3 in
      ap (λ (x : SimRecord D). has_energy x) (sym (some-injective _ _ e4))

  -- GetGEMData packs every hit of the forward tracker or the polarimeter that deposits energy, in a module or
  -- not.
  tracker_hits-n_energetic :
      (det_id : ℕ) (type_of : TreeHit D → ℤ) (hs : List (TreeHit D)) (rs : List (SimRecord D))
      → tracker_hits det_id type_of hs ≡ some rs
      → length (hits_of fManager rs) ≡ n_energetic hs
  unfolding tracker_hits n_energetic hits_of
  tracker_hits-n_energetic det_id type_of [] rs e = rw (← some-injective _ _ e) refl
  tracker_hits-n_energetic det_id type_of (h ∷ hs) rs e =
      let (r, at_r, e1) = >>=-eq-some (tracker_record det_id (type_of h) h) _ e in
      let (rest, at_rest, e2) = >>=-eq-some (tracker_hits det_id type_of hs) _ e1 in
      let made_of : r ∷ rest ≡ rs = some-injective _ _ e2 in
      let energy = tracker_record-has_energy det_id (type_of h) h r at_r in
      let later = tracker_hits-n_energetic det_id type_of hs rest at_rest in
      elim (Bool-cases (of_ℕ 0 ≺ h.edep ⊗ of_ℕ 1000)) [
        | inl fired ↦ rw (← made_of, energy, fired) (ap (λ n. suc n) later)
        | inr quiet ↦ rw (← made_of, energy, quiet) later
      ]
