-- ===== src/Geant4File/BbGems.antt =====
-- ReadNextEvent of src/TSBSGeant4File.cxx for the BigBite GEMs (detector type 1): the hits of the tree
-- become records, and the first track a generated particle. The arrays of the tree, which ROOT's
-- generated reader holds, are lists of hits and tracks; `none` is the exception that a getter of the
-- database manager throws. `square` is pow(x, 2) of <cmath>.
use libsolgem.Base.{◌>>=◌, ℕ, ◌+◌, ℤ, pos, negsuc, ◌&&◌, Option, some, List, [], ◌∷◌, if◌then◌else◌}
use libsolgem.Base.Int.{◌+ℤ◌, ◌-ℤ◌, eqb_ℤ}
use libsolgem.Database.{Manager}
use libsolgem.Database.Access.{get_module_id_from_pos, get_xoffset, get_d0, get_dx, get_dy}
use libsolgem.Double.{Double, ◌⊕◌, ◌⊖◌, ◌⊗◌, ◌⊘◌, ◌≼◌, of_ℤ, of_ℕ, decimal}
use libsolgem.SimEvent.{Vec3}
use libsolgem.Geant4File.{SimRecord, new_record, new_gen_record, set_data}

-- Entry i of the arrays Earm_BBGEM_hit_*.
pub record TreeHit (D : Type 0) : Type 0 where
  pub pid : ℤ
  pub trid : ℤ
  pub mid : ℤ
  pub plane : ℤ
  pub edep : D
  pub tmin : D
  pub tmax : D
  pub p : D
  pub tx : D
  pub txp : D
  pub typ : D
  pub x_in : Vec3 D
  pub x_out : Vec3 D
  pub vtx : Vec3 D

-- Entry i of the arrays Earm_BBGEM_Track_*.
pub record TreeTrack (D : Type 0) : Type 0 where
  pub tid : ℤ
  pub pid : ℤ
  pub mid : ℤ
  pub x : D
  pub y : D
  pub p : D
  pub xp : D
  pub yp : D

module _ {D : Type 0} ⦃d : Double D⦄ where
  -- The loop that copies the temporary array, from entry `j`.
  unfoldable pub fill_record : List D → ℕ → SimRecord D → SimRecord D
  fill_record [] j h = h
  fill_record (x ∷ xs) j h = fill_record xs (j + 1) (set_data j x h)

  -- The entries of hit_data_temp.
  unfoldable pub hit_entries :
      (plane type trid pid module_ sector : ℤ) (edep tmin tmax : D)
      (x_ro x_in x_out vtx mom : Vec3 D)
      → List D
  hit_entries plane type trid pid module_ sector edep tmin tmax x_ro x_in x_out vtx mom =
      of_ℤ plane
      ∷ edep
      ∷ x_ro.x
      ∷ x_ro.y
      ∷ x_ro.z
      ∷ x_in.x
      ∷ x_in.y
      ∷ x_in.z
      ∷ tmin
      ∷ x_out.x
      ∷ x_out.y
      ∷ x_out.z
      ∷ tmax
      ∷ of_ℤ type
      ∷ vtx.x
      ∷ vtx.y
      ∷ vtx.z
      ∷ of_ℤ trid
      ∷ of_ℤ pid
      ∷ of_ℤ module_
      ∷ mom.x
      ∷ mom.y
      ∷ mom.z
      ∷ of_ℤ sector
      ∷ []

  -- A position that is at the limit or beyond it is put at the limit.
  unfoldable pub limit : D → D → D
  limit most x = if most ≼ d.abs x then x ⊗ (most ⊘ d.abs x) else x

  -- The readout position follows where the exit position is moved.
  unfoldable pub follow : D → D → D → D
  unfolding limit
  follow most x_out x_ro = if most ≼ d.abs x_out then limit most x_out else x_ro

  abbrev pub to_mm : D → D
  to_mm x = x ⊗ of_ℕ 1000

  module _ (square : D → D) (unset : D) (fManager : Manager D) where
    -- The momentum of a hit in MeV.
    unfoldable pub hit_momentum : TreeHit D → Vec3 D
    hit_momentum h =
        let pz = d.sqrt (square h.p ⊘ (square h.txp ⊕ square h.typ ⊕ of_ℕ 1)) in
        record { x = h.txp ⊗ pz ⊗ of_ℕ 1000; y = h.typ ⊗ pz ⊗ of_ℕ 1000; z = pz ⊗ of_ℕ 1000 }

    -- A position of the tree in the frame of a module.
    unfoldable pub module_frame : D → D → Vec3 D → Vec3 D
    module_frame xoffset d0 v = record {
      x = to_mm (v.x ⊖ xoffset);
      y = to_mm v.y;
      z = to_mm (v.z ⊕ fManager.g4sbs_z_spec_offset ⊖ d0);
    }

    -- The entries of a hit in a module at these places.
    unfoldable pub tracker_entries : (xoffset d0 dx dy : D) (type module_ : ℤ) → TreeHit D → List D
    unfolding hit_momentum module_frame
    tracker_entries xoffset d0 dx dy type module_ h =
        let x_in = module_frame xoffset d0 h.x_in in
        let x_out = module_frame xoffset d0 h.x_out in
        let x_ro = x_in.x ⊕ (h.x_out.x ⊖ h.x_in.x) ⊗ decimal (pos 9185) 3 ⊘ of_ℕ 3 in
        let y_ro = x_in.y ⊕ (h.x_out.y ⊖ h.x_in.y) ⊗ decimal (pos 9185) 3 ⊘ of_ℕ 3 in
        let most_x = dx ⊗ of_ℕ 500 in
        let most_y = dy ⊗ of_ℕ 500 in
        hit_entries (h.plane -ℤ pos 1) type h.trid h.pid module_ (pos 0) (h.edep ⊗ of_ℕ 1000) h.tmin
          h.tmax
          (record {
            x = follow most_x x_out.x x_ro;
            y = follow most_y x_out.y y_ro;
            z = decimal (pos 7685) 3;
          })
          x_in (record x_out { x = limit most_x x_out.x; y = limit most_y x_out.y })
          (record { x = to_mm h.vtx.x; y = to_mm h.vtx.y; z = to_mm h.vtx.z }) (hit_momentum h)

    -- The record of a hit in module `module_`.
    unfoldable pub bb_record : ℤ → TreeHit D → Option (SimRecord D)
    unfolding tracker_entries
    bb_record module_ h =
        let plane = h.plane -ℤ pos 1 in
        get_xoffset fManager plane module_ >>= λ xoffset. get_d0 fManager plane module_ >>= λ d0.
        get_dx fManager plane module_ >>= λ dx. get_dy fManager plane module_ >>= λ dy. some (
          fill_record (tracker_entries xoffset d0 dx dy (h.mid +ℤ pos 1) module_ h) 0
            (new_record unset (pos 1) 24))

    -- The loop over hits; a hit that is in no module is left out.
    unfoldable pub bb_hits : List (TreeHit D) → Option (List (SimRecord D))
    bb_hits [] = some []
    bb_hits (h ∷ rest) =
        let module_ = get_module_id_from_pos fManager (h.plane -ℤ pos 1) h.tx in
        if eqb_ℤ module_ (negsuc 0)
        then bb_hits rest
        else bb_record module_ h >>= λ r. bb_hits rest >>= λ rs. some (r ∷ rs)

    -- The entries of gen_data_temp; `vertex` and `momentum` are those of the event.
    unfoldable pub gen_entries : D → (vertex momentum : Vec3 D) → TreeTrack D → List D
    gen_entries weight vertex momentum t =
        let pz = t.p ⊘ d.sqrt (of_ℕ 1 ⊕ square t.xp ⊕ square t.yp) in
        of_ℤ t.tid
        ∷ of_ℤ t.pid
        ∷ pz ⊗ t.xp
        ∷ pz ⊗ t.yp
        ∷ pz
        ∷ to_mm t.x
        ∷ to_mm t.y
        ∷ of_ℕ 0
        ∷ weight
        ∷ momentum.x
        ∷ momentum.y
        ∷ momentum.z
        ∷ vertex.x
        ∷ vertex.y
        ∷ vertex.z
        ∷ []

    -- The generated particle of signal data, where the first track is a primary one.
    unfoldable pub bb_gen :
        ℤ → D → (vertex momentum : Vec3 D) → List (TreeTrack D) → List (SimRecord D)
    unfolding gen_entries
    bb_gen source weight vertex momentum [] = []
    bb_gen source weight vertex momentum (t ∷ rest) =
        if eqb_ℤ source (pos 0) && eqb_ℤ t.mid (pos 0)
        then fill_record (gen_entries weight vertex momentum t) 0 (new_gen_record unset 13) ∷ []
        else []
