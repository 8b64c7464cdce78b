-- ===== src/Examples/Clusters.antt =====
-- Blocks of a calorimeter on a grid of whole numbers, and their clusters.
use libsolgem.Base.{
  ℕ, ◌+◌, ℤ, pos, ◌≡◌, refl, ◌↔◌, inl, Bool, ◌&&◌, some, List, [], ◌∷◌, ◌++◌, leb, arith,
}
use libsolgem.Base.Int.{◌*ℤ◌, pos_part}
use mathlib.Core.List.{Memᴰ, Permᴰ}
use libsolgem.Double.{whole_double, of_ℕ}
use libsolgem.Database.{Manager}
use libsolgem.Digitization.{Root}
use libsolgem.Geant4File.{Geant4File}
use libsolgem.Geant4File.Grow.{
  Scan, erase, transfer, resume, compare_blocks, visit, inner, pass, grow, grow_cluster,
}
use libsolgem.Geant4File.Grow.Reached.{Reach, grow_cluster-Reach}
use libsolgem.Geant4File.Calorimeter.{
  Block, CaloHit, CdetHit, new_seeding, near, seed_hits, grow_nested,
}
use libsolgem.Geant4File.Calorimeter.Seeds.{OrderLaws, SeedsOf, blocks_of, seed_hits-IsSeeded}
use libsolgem.Geant4File.Calorimeter.Ends.{Agrees, grow_nested-grow_cluster}
use libsolgem.Examples.Data.{manager, modules}
use libsolgem.Examples.Digitized.{root}

-- Neighbours on a line.
abbrev beside : ℕ → ℕ → Bool
beside a b = leb a (b + 1) && leb b (a + 1)

line :
    grow_cluster beside (5 ∷ 2 ∷ 1 ∷ []) (0 ∷ [])
    ≡ some (record { blocks = 5 ∷ []; clus = 0 ∷ 1 ∷ 2 ∷ []; i = 0; i_ = 3; added = 0 })
unfolding erase transfer resume compare_blocks visit inner pass grow grow_cluster
line = refl

grow_cluster-Reach_example :
    (t : Scan ℕ) × (grow_cluster beside (5 ∷ 2 ∷ 1 ∷ []) (0 ∷ []) ≡ some t)
    × Permᴰ (t.blocks ++ t.clus) ((5 ∷ 2 ∷ 1 ∷ []) ++ 0 ∷ [])
    × ((x : ℕ) → Memᴰ x t.clus ↔ Reach beside (5 ∷ 2 ∷ 1 ∷ []) (0 ∷ []) x)
grow_cluster-Reach_example = grow_cluster-Reach beside (5 ∷ 2 ∷ 1 ∷ []) (0 ∷ [])

-- A generator whose Poisson numbers are the means.
abbrev counting : Root ℤ ℕ
counting = record root { poisson = λ m r. (pos_part m, r + 1) }

abbrev square_of : ℤ → ℤ → ℤ
square_of x n = x *ℤ x

abbrev det : Manager ℤ
det = manager modules

abbrev block : ℕ → ℕ → ℕ → Block ℤ
block e x y = record { energy = pos e; x = pos x; y = pos y }

abbrev scan : Scan (Block ℤ)
scan = record {
  blocks = block 1 3 3 ∷ block 2 1 1 ∷ block 4 0 1 ∷ [];
  clus = block 7 0 0 ∷ [];
  i = 0;
  i_ = 0;
  added = 0;
}

grow_nested-grow_cluster_example :
    (u t : Scan (Block ℤ)) × (grow_nested counting square_of det (pos 2) 3 scan ≡ some u)
    × (grow_cluster (near counting square_of det (pos 2)) scan.blocks scan.clus ≡ some t)
    × Agrees counting square_of det (pos 2) u t
grow_nested-grow_cluster_example =
    grow_nested-grow_cluster counting square_of det (pos 2) 3 scan refl

abbrev hit : ℕ → ℕ → ℕ → CaloHit ℤ
hit e x y = record { sumedep = pos e; xcell = pos x; ycell = pos y }

abbrev hits : List (CaloHit ℤ)
hits = hit 4 0 1 ∷ hit 9 0 0 ∷ hit 3 5 5 ∷ []

abbrev cdet : List (CdetHit ℤ)
cdet = record { hit = hit 4 0 0; col = pos 1; plane = pos 1 } ∷ []

abbrev file : Geant4File ℤ
file = record {
  source = pos 0;
  ev_num = 0;
  hit_data = [];
  gen_data = [];
  ecal_clusters = [];
  scint_clusters = [];
}

order : OrderLaws ℤ
unfolding whole_double
order = record { asym = λ a b h. ground arith; trans = λ a b c h k. ground arith }

seed_hits-IsSeeded_example :
    SeedsOf new_seeding
      (blocks_of counting (of_ℕ 5000) hits 0)
      (seed_hits counting square_of det (of_ℕ 5000) hits (new_seeding, of_ℕ 0) 0).0.0
seed_hits-IsSeeded_example =
    seed_hits-IsSeeded order counting square_of det (of_ℕ 5000) hits (new_seeding, of_ℕ 0) 0
      (record { none_above = tt; seed = inl (refl, refl) })
