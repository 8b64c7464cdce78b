-- ===== src/Geant4File/Calorimeter/Event.antt =====
-- ReadNextEvent of src/TSBSGeant4File.cxx with the calorimeters: where the manager says so, the switch
-- goes on to the calorimeter's function for the detector types 1, 3 and 5.
use libsolgem.Base.{◌>>=◌, ℕ, ℤ, pos, Option, some, List, if◌then◌else◌}
use libsolgem.Base.Int.{eqb_ℤ}
use libsolgem.Database.{Manager}
use libsolgem.Digitization.{Root}
use libsolgem.Double.{Double}
use libsolgem.Geant4File.{Geant4File}
use libsolgem.Geant4File.ReadEvent.{TreeEntry, bb_event}
use libsolgem.Geant4File.TrackerGems.{ft_event, fpp2_event}
use libsolgem.Geant4File.Calorimeter.{CaloHit, CdetHit, get_gep_ecal_cluster, get_hcal_cluster}
use libsolgem.Geant4File.Calorimeter.BigBite.{get_bb_ecal_cluster}

module _ {D : Type 0} ⦃d : Double D⦄ {R : Type 0} (root : Root D R) (power : D → ℤ → D) (unset : D)
    (fManager : Manager D) where
  abbrev square : D → D
  square x = power x (pos 2)

  -- `if(fManager->DoCalo())` behind the hits of the trackers.
  unfoldable pub with_calorimeter :
      (Geant4File D → R → Option (Geant4File D × R))
      → Option (Geant4File D × ℕ)
      → R
      → Option (Geant4File D × ℕ × R)
  with_calorimeter calo event rnd = event >>= λ g.
      if eqb_ℤ fManager.do_calo (pos 0)
      then some (g.0, g.1, rnd)
      else calo g.0 rnd >>= λ h. some (h.0, g.1, h.1)

  unfoldable pub bb_calo_event :
      (ps sh : List (CaloHit D)) → TreeEntry D → Geant4File D → R → Option (Geant4File D × ℕ × R)
  unfolding with_calorimeter
  bb_calo_event ps sh entry f rnd =
      with_calorimeter (λ g r. some (get_bb_ecal_cluster root fManager ps sh g r))
        (bb_event square unset fManager entry f) rnd

  unfoldable pub ft_calo_event :
      List (CaloHit D)
      → List (CdetHit D)
      → TreeEntry D
      → Geant4File D
      → R
      → Option (Geant4File D × ℕ × R)
  unfolding with_calorimeter
  ft_calo_event ecal cdet entry f rnd =
      with_calorimeter (get_gep_ecal_cluster root power fManager ecal cdet)
        (ft_event square unset fManager entry f) rnd

  unfoldable pub fpp2_calo_event :
      List (CaloHit D) → List ℤ → TreeEntry D → Geant4File D → R → Option (Geant4File D × ℕ × R)
  unfolding with_calorimeter
  fpp2_calo_event hcal fpp1_mids entry f rnd =
      with_calorimeter (get_hcal_cluster root power fManager hcal)
        (fpp2_event square unset fManager fpp1_mids entry f) rnd
