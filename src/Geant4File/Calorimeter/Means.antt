-- ===== src/Geant4File/Calorimeter/Means.antt =====
-- What GetGEpECalCluster and GetHCalCluster make of the blocks of a cluster: the sum of the energies
-- and the mean place.
use libsolgem.Base.{ℤ, ◌≡◌, refl, ◌↔◌, ◌⊎◌, Bool, List, [], ◌∷◌, ◌++◌}
use mathlib.Core.List.{Memᴰ, Permᴰ}
use libsolgem.Double.{Double, ◌⊕◌, ◌⊗◌, ◌⊘◌, of_ℕ}
use libsolgem.SimEvent.{EcalCluster}
use libsolgem.Geant4File.Grow.Reached.{Reach}
use libsolgem.Geant4File.Calorimeter.{Block, Seeding, sum_of, total_energy, calo_cluster}

module _ {D : Type 0} ⦃d : Double D⦄ where
  -- `acc += weight` for each of the blocks, in their order.
  unfoldable pub added : (Block D → D) → D → List (Block D) → D
  added weight acc [] = acc
  added weight acc (b ∷ rest) = added weight (acc ⊕ weight b) rest

  sum_of-added :
      (weight : Block D → D) (acc : D) (clus : List (Block D))
      → sum_of weight acc clus ≡ added weight acc clus
  unfolding sum_of added
  sum_of-added weight acc [] = refl
  sum_of-added weight acc (b ∷ rest) = sum_of-added weight (acc ⊕ weight b) rest

  -- A cluster with the energy of its blocks and their mean place by energy, no time and the
  -- detector's flag.
  pub record IsMean (xs ys : Block D → D) (clus : List (Block D)) (flag : ℤ) (c : EcalCluster D)
      : Type 0 where
    pub energy : c.energy ≡ added (λ b. b.energy) (of_ℕ 0) clus
    pub x_pos : c.x_pos ≡ added (λ b. xs b ⊗ b.energy) (of_ℕ 0) clus ⊘ c.energy
    pub y_pos : c.y_pos ≡ added (λ b. ys b ⊗ b.energy) (of_ℕ 0) clus ⊘ c.energy
    pub time : c.time ≡ of_ℕ 0
    pub det_flag : c.det_flag ≡ flag

  pub calo_cluster-IsMean :
      (xs ys : Block D → D) (clus : List (Block D)) (x_max y_max : D) (flag : ℤ)
      → let e = total_energy clus in
        IsMean xs ys clus flag (
          calo_cluster e
            (sum_of (λ b. xs b ⊗ b.energy) (of_ℕ 0) clus ⊘ e)
            (sum_of (λ b. ys b ⊗ b.energy) (of_ℕ 0) clus ⊘ e)
            x_max
            y_max
            flag)
  unfolding calo_cluster
  calo_cluster-IsMean xs ys clus x_max y_max flag = record {
    energy = sum_of-added (λ b. b.energy) (of_ℕ 0) clus;
    x_pos = rw (sum_of-added (λ b. xs b ⊗ b.energy) (of_ℕ 0) clus) refl;
    y_pos = rw (sum_of-added (λ b. ys b ⊗ b.energy) (of_ℕ 0) clus) refl;
    time = refl;
    det_flag = refl;
  }

  -- X_max and Y_max are the place of the seed, and 0 where there is none.
  abbrev pub IsMaxOf : List (Block D) → EcalCluster D → Type 0
  IsMaxOf seed c =
      (seed ≡ []) × (c.x_max ≡ of_ℕ 0) × (c.y_max ≡ of_ℕ 0)
      ⊎ (b : Block D) × (rest : List (Block D)) × (seed ≡ b ∷ rest)
        × (c.x_max ≡ b.x)
        × (c.y_max ≡ b.y)

  -- The blocks of a cluster: each is one of the hits' blocks or the seed and in it once, and they are
  -- the ones that the seed reaches by steps between blocks that are near.
  abbrev pub IsGrown : (Block D → Block D → Bool) → Seeding D → List (Block D) → Type 0
  IsGrown close s clus =
      ((left : List (Block D)) × Permᴰ (left ++ clus) (s.blocks ++ s.clus))
      × ((x : Block D) → Memᴰ x clus ↔ Reach close s.blocks s.clus x)
