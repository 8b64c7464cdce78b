-- ===== src/Decoder/Calorimeter.antt =====
-- The calorimeter part of DoLoadEvent in src/TSBSSimDecoder.cxx: for each cluster, the place that the
-- trackers should see the particle at goes into the slot arrays. `load_hit slots address x y` is
-- crateslot[idx(crate,slot)]->loadData("adc",chan,x,y); `none` is the return with HED_ERR.
pub mod Accepting
use libsolgem.Base.{◌>>=◌, ℕ, ℤ, pos, Bool, ◌&&◌, Option, some, List, [], ◌∷◌, ◌++◌, if◌then◌else◌}
use libsolgem.Base.Int.{eqb_ℤ}
use libsolgem.Database.{Manager}
use libsolgem.Double.{Double, ◌⊕◌, ◌⊖◌, ◌⊗◌, ◌⊘◌, ◌≼◌, decimal}
use libsolgem.Readout.{Address}
use libsolgem.SimEvent.{EcalCluster, ScintCluster}
use libsolgem.Decoder.Shower.{
  Library, Profiles, FitPoint, FitTrack, cell_size, calc_shower_coordinates, find_vertex_bin,
  fit_3d_track,
}
use libsolgem.Decoder.Kinematics.{
  FocalPlane, z_earm, scint_points, vertex_point, ecal_point, focal_plane,
}

-- The variables of the loop over the clusters. The points of the fit are those of all clusters so far.
pub record CaloLoop (C D : Type 0) : Type 0 where
  pub slots : C
  pub final_points : List (FitPoint D)
  pub final_track : FitTrack D

module _ {D : Type 0} ⦃d : Double D⦄ (lib : Library D) (unset : D) (fManager : Manager D) where
  -- `flag==12 && E>=fManager->GetCaloThreshold()`
  unfoldable pub is_electron : EcalCluster D → Bool
  is_electron e = eqb_ℤ e.det_flag (pos 12) && fManager.calo_thr ≼ e.energy

  module _ (C : Type 0) (load_hit : C → Address → ℤ → ℤ → Option C) where
    -- loadData of two places, as bit patterns of Float_t.
    unfoldable pub load_place : (crate slot chan : ℕ) → D → D → C → Option C
    load_place crate slot chan x y slots =
        load_hit slots (record { crate = crate; slot = slot; chan = chan }) (lib.float_bits x)
          (lib.float_bits y)

    unfoldable pub load_focal_plane : FocalPlane D → C → Option C
    load_focal_plane f slots =
        let x2 = f.x ⊕ decimal (pos 48191) 5 ⊗ f.xp in
        let y2 = f.y ⊕ decimal (pos 48191) 5 ⊗ f.yp in
        load_place 4 0 0 f.x f.y slots
        >>= load_place 4 0 1 f.x f.y
        >>= load_place 4 0 2 x2 y2
        >>= load_place 4 0 3 x2 y2

    unfoldable pub load_bigbite : EcalCluster D → CaloLoop C D → Option (CaloLoop C D)
    load_bigbite e s =
        load_place 2 0 0 e.x_pos e.y_pos s.slots >>= load_place 2 1 0 e.x_pos e.y_pos >>= λ slots.
        some (record s { slots = slots })

    module _ (profx profy : Profiles D) (vertex_z : D) (scints : List (ScintCluster D)) where
      unfoldable pub load_gep : EcalCluster D → CaloLoop C D → Option (CaloLoop C D)
      load_gep e s =
          let xmom = (e.x_pos ⊖ e.x_max) ⊘ cell_size lib unset in
          let ymom = (e.y_pos ⊖ e.y_max) ⊘ cell_size lib unset in
          let place =
            calc_shower_coordinates lib unset profx profy xmom ymom e.x_max e.y_max e.energy
              (z_earm lib unset fManager 0) in
          let vz = find_vertex_bin lib unset vertex_z in
          scint_points lib unset fManager scints
            (s.final_points ++ vertex_point lib unset fManager vz ∷ [])
          >>= λ found.
              let points = found ++ ecal_point lib unset fManager place ∷ [] in
              let track = fit_3d_track lib unset points s.final_track in
              load_focal_plane (focal_plane lib unset fManager vz track) s.slots >>= λ slots.
              some (record { slots = slots; final_points = points; final_track = track })

      -- One cluster: those of flag 10 are of BigBite, those of flag 12 of GEp.
      unfoldable pub load_calo_cluster : EcalCluster D → CaloLoop C D → Option (CaloLoop C D)
      load_calo_cluster e s =
          (if eqb_ℤ e.det_flag (pos 10) && fManager.calo_thr ≼ e.energy
            then load_bigbite e s
            else some s)
          >>= λ t. if is_electron e then load_gep e t else some t

      unfoldable pub load_calorimeter : List (EcalCluster D) → CaloLoop C D → Option (CaloLoop C D)
      load_calorimeter [] s = some s
      load_calorimeter (e ∷ rest) s = load_calo_cluster e s >>= load_calorimeter rest
