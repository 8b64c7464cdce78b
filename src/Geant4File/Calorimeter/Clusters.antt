-- ===== src/Geant4File/Calorimeter/Clusters.antt =====
-- GetGEpECalCluster and GetHCalCluster return, with the clusters that the while loops grow.
use libsolgem.Base.{ℤ, pos, ◌≡◌, List}
use libsolgem.Database.{Manager}
use libsolgem.Digitization.{Root}
use libsolgem.Double.{Double, ◌⊗◌, of_ℕ, decimal}
use libsolgem.SimEvent.{ScintCluster}
use libsolgem.Geant4File.{Geant4File}
use libsolgem.Geant4File.Calorimeter.{Block, Seeding, near}
use libsolgem.Geant4File.Calorimeter.Means.{IsMean, IsGrown}

module _ {D : Type 0} ⦃d : Double D⦄ where
  module _ {R : Type 0} (root : Root D R) (power : D → ℤ → D) (fManager : Manager D) where
    -- The cluster of a plane of the coordinate detector, of the blocks that the plane's seed reaches
    -- by steps of less than 1.1 bar sizes.
    pub IsPlaneOf : ℤ → Seeding D → ScintCluster D → Type 0
    IsPlaneOf plane s c =
        (clus : List (Block D)) × (c.plane ≡ plane)
        × IsMean (λ b. b.x) (λ b. b.y) clus (pos 31) c.ecal
        × (c.ecal.x_max ≡ of_ℕ 0)
        × (c.ecal.y_max ≡ of_ℕ 0)
        × IsGrown (near root power fManager (decimal (pos 5) 3 ⊗ decimal (pos 11) 1)) s clus
