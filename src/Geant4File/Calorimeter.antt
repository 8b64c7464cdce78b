-- ===== src/Geant4File/Calorimeter.antt =====
-- The calorimeter clusters of src/TSBSGeant4File.cxx: what GetBBECalCluster, GetGEpECalCluster and
-- GetHCalCluster share, and the last two. The hits of the tree are lists; TRandom3 is a function of its
-- state, as in ROOT's record of the digitization; `power` is pow of <cmath> with a whole exponent.
pub mod Seeds
pub mod Ends
pub mod Means
pub mod Clusters
pub mod BigBite
pub mod Event
use libsolgem.Base.{
  ◌>>=◌, ℕ, zero, suc, ◌+◌, ℤ, pos, negsuc, Bool, true, false, Option, none, some, List, [], ◌∷◌,
  ◌++◌, length, ltb, leb, ◌==◌, if◌then◌else◌,
}
use libsolgem.Base.Int.{◌-ℤ◌, eqb_ℤ}
use libsolgem.Database.{Manager}
use libsolgem.Digitization.{Root}
use libsolgem.Double.{Double, ◌⊕◌, ◌⊖◌, ◌⊗◌, ◌⊘◌, ◌≺◌, of_ℤ, of_ℕ, decimal}
use libsolgem.SimEvent.{EcalCluster, ScintCluster}
use libsolgem.Geant4File.{Geant4File, add_cluster, add_sci_cluster}
use libsolgem.Geant4File.Grow.{Scan, grow_cluster}

pub record Block (D : Type 0) : Type 0 where
  pub energy : D
  pub x : D
  pub y : D

-- Entry i of the arrays Earm_ECalTF1_hit_* or Harm_HCalScint_hit_*.
pub record CaloHit (D : Type 0) : Type 0 where
  pub sumedep : D
  pub xcell : D
  pub ycell : D

-- Entry i of the arrays Earm_CDET_Scint_hit_*.
pub record CdetHit (D : Type 0) : Type 0 where
  pub hit : CaloHit D
  pub col : ℤ
  pub plane : ℤ

-- The blocks and the one with most energy, E_eprim_clus.
pub record Seeding (D : Type 0) : Type 0 where
  pub edep_max : D
  pub blocks : List (Block D)
  pub clus : List (Block D)

module _ {D : Type 0} ⦃d : Double D⦄ where
  abbrev pub new_seeding : Seeding D
  new_seeding = record { edep_max = of_ℕ 0; blocks = []; clus = [] }

  -- The block that was the cluster so far goes back.
  unfoldable pub give_back : List (Block D) → List (Block D) → List (Block D)
  give_back [] blocks = blocks
  give_back (c ∷ rest) blocks = blocks ++ c ∷ []

  unfoldable pub seed_block : Block D → Seeding D → Seeding D
  unfolding give_back
  seed_block b s =
      if s.edep_max ≺ b.energy
      then record { edep_max = b.energy; blocks = give_back s.clus s.blocks; clus = b ∷ [] }
      else record s { blocks = s.blocks ++ b ∷ [] }

  -- The sums over the cluster.
  unfoldable pub sum_of : (Block D → D) → D → List (Block D) → D
  sum_of weight acc [] = acc
  sum_of weight acc (b ∷ rest) = sum_of weight (acc ⊕ weight b) rest

  abbrev pub total_energy : List (Block D) → D
  total_energy = sum_of (λ b. b.energy) (of_ℕ 0)

  -- Entries with no time and, for the others, the detector's flag.
  unfoldable pub calo_cluster : (energy x y x_max y_max : D) → ℤ → EcalCluster D
  calo_cluster energy x y x_max y_max flag = record {
    energy = energy;
    x_pos = x;
    y_pos = y;
    x_max = x_max;
    y_max = y_max;
    time = of_ℕ 0;
    det_flag = flag;
  }

  -- `X_max` or `Y_max`, of the block with most energy.
  unfoldable pub max_place : (Block D → D) → List (Block D) → D
  max_place place [] = of_ℕ 0
  max_place place (c ∷ rest) = place c

  module _ {R : Type 0} (root : Root D R) (power : D → ℤ → D) (fManager : Manager D) where
    -- The test of the distance of two blocks, closer than `size`.
    unfoldable pub near : D → Block D → Block D → Bool
    near size b c = d.sqrt (power (b.x ⊖ c.x) (pos 2) ⊕ power (b.y ⊖ c.y) (pos 2)) ≺ size

    -- The energy that the photoelectrons stand for; below three the hit is left out.
    unfoldable pub photo_energy : D → D → R → Option D × R
    photo_energy npe_edep edep rnd =
        let (npe, rnd') = root.poisson (npe_edep ⊗ edep) rnd in
        (if ltb npe 3 then none else some (of_ℕ npe ⊘ npe_edep), rnd')

    -- The loop over the hits of a calorimeter, with the sum of the energies.
    unfoldable pub seed_energy : Option D → CaloHit D → Seeding D × D → Seeding D × D
    seed_energy none h (s, tot) = (s, tot)
    seed_energy (some e) h (s, tot) =
        (seed_block (record { energy = e; x = h.xcell; y = h.ycell }) s, tot ⊕ e)

    unfoldable pub seed_hits : D → List (CaloHit D) → Seeding D × D → R → (Seeding D × D) × R
    unfolding seed_energy photo_energy
    seed_hits npe_edep [] acc rnd = (acc, rnd)
    seed_hits npe_edep (h ∷ rest) acc rnd =
        let (e, rnd') = photo_energy npe_edep h.sumedep rnd in
        seed_hits npe_edep rest (seed_energy e h acc) rnd'

    -- The calorimeter's cluster, where it has more than the threshold.
    unfoldable pub add_ecal : Seeding D → List (Block D) → Geant4File D → Geant4File D
    add_ecal s clus f =
        let e_rec = total_energy clus in
        let x_rec = sum_of (λ b. b.x ⊗ b.energy) (of_ℕ 0) clus ⊘ e_rec in
        let y_rec = sum_of (λ b. b.y ⊗ b.energy) (of_ℕ 0) clus ⊘ e_rec in
        let x_max = max_place (λ b. b.x) s.clus in
        let y_max = max_place (λ b. b.y) s.clus in
        if fManager.calo_thr ≺ e_rec
        then add_cluster (calo_cluster e_rec x_rec y_rec x_max y_max (pos 12)) f
        else f

    -- The loop over the hits of the coordinate detector.
    unfoldable pub cdet_block : D → CdetHit D → Block D
    cdet_block e h = record {
      energy = e;
      x = h.hit.xcell ⊕ decimal (pos 255) 3 ⊗ power (of_ℤ (negsuc 0)) (h.col -ℤ pos 1);
      y = h.hit.ycell;
    }

    unfoldable pub seed_plane : Option D → CdetHit D → Seeding D × Seeding D → Seeding D × Seeding D
    seed_plane none h (s1, s2) = (s1, s2)
    seed_plane (some e) h (s1, s2) = (
      if eqb_ℤ h.plane (pos 1) then seed_block (cdet_block e h) s1 else s1,
      if eqb_ℤ h.plane (pos 2) then seed_block (cdet_block e h) s2 else s2,
    )

    unfoldable pub seed_planes :
        List (CdetHit D) → Seeding D × Seeding D → R → (Seeding D × Seeding D) × R
    unfolding seed_plane photo_energy
    seed_planes [] acc rnd = (acc, rnd)
    seed_planes (h ∷ rest) acc rnd =
        let (e, rnd') = photo_energy (of_ℕ 5634) h.hit.sumedep rnd in
        seed_planes rest (seed_plane e h acc) rnd'

    unfoldable pub scint_cluster : ℤ → List (Block D) → ScintCluster D
    scint_cluster plane clus =
        let e_rec = total_energy clus in
        let x_rec = sum_of (λ b. b.x ⊗ b.energy) (of_ℕ 0) clus ⊘ e_rec in
        let y_rec = sum_of (λ b. b.y ⊗ b.energy) (of_ℕ 0) clus ⊘ e_rec in
        record { ecal = calo_cluster e_rec x_rec y_rec (of_ℕ 0) (of_ℕ 0) (pos 31); plane = plane }

    -- A plane's cluster is added also where the plane has no hit.
    unfoldable pub add_scint : ℤ → Seeding D → Geant4File D → Option (Geant4File D)
    add_scint plane s f =
        grow_cluster (near (decimal (pos 5) 3 ⊗ decimal (pos 11) 1)) s.blocks s.clus >>= λ t.
        some (add_sci_cluster (scint_cluster plane t.clus) f)

    unfoldable pub get_gep_cdet : List (CdetHit D) → Geant4File D → R → Option (Geant4File D × R)
    get_gep_cdet hits f rnd =
        let ((s1, s2), rnd') = seed_planes hits (new_seeding, new_seeding) rnd in
        add_scint (pos 1) s1 f >>= λ f1. add_scint (pos 2) s2 f1 >>= λ f2. some (f2, rnd')

    -- Below the threshold the function returns before the coordinate detector.
    unfoldable pub get_gep_ecal_cluster :
        List (CaloHit D) → List (CdetHit D) → Geant4File D → R → Option (Geant4File D × R)
    get_gep_ecal_cluster hits cdet f rnd =
        let ((s, tot), rnd') = seed_hits (of_ℕ 538) hits (new_seeding, of_ℕ 0) rnd in
        let grown =
          grow_cluster (near (decimal (pos 42) 3 ⊗ decimal (pos 11) 1)) s.blocks s.clus >>= λ t.
          get_gep_cdet cdet (add_ecal s t.clus f) rnd' in
        if tot ≺ fManager.calo_thr then some (f, rnd') else grown

    -- The loops around the while loop in GetHCalCluster: over the cluster, from `i_`, and over the blocks.
    unfoldable pub grow_again : D → ℕ → ℕ → Scan (Block D) → Option (Scan (Block D))
    grow_again size zero i_ s = none
    grow_again size (suc fuel) i_ s =
        let later =
          grow_cluster (near size) s.blocks s.clus >>= λ t. grow_again size fuel (i_ + 1) t in
        if leb (length s.clus) i_ then some s else later

    unfoldable pub grow_nested : D → ℕ → Scan (Block D) → Option (Scan (Block D))
    grow_nested size zero s = some s
    grow_nested size (suc n) s =
        grow_again size (length s.blocks + length s.clus + 1) 0 s >>= λ t. grow_nested size n t

    unfoldable pub add_hcal : List (Block D) → Geant4File D → Geant4File D
    add_hcal clus f =
        let e_rec = total_energy clus in
        let x_rec = sum_of (λ b. of_ℤ (negsuc 0) ⊗ b.y ⊗ b.energy) (of_ℕ 0) clus ⊘ e_rec in
        let y_rec = sum_of (λ b. b.x ⊗ b.energy) (of_ℕ 0) clus ⊘ e_rec in
        add_cluster (calo_cluster e_rec x_rec y_rec (of_ℕ 0) (of_ℕ 0) (pos 0)) f

    unfoldable pub get_hcal_cluster :
        List (CaloHit D) → Geant4File D → R → Option (Geant4File D × R)
    get_hcal_cluster hits f rnd =
        let ((s, tot), rnd') = seed_hits (of_ℕ 5000) hits (new_seeding, of_ℕ 0) rnd in
        let first : Scan (Block D) = record {
          blocks = s.blocks;
          clus = s.clus;
          i = 0;
          i_ = 0;
          added = 0;
        } in
        let grown =
          grow_nested (decimal (pos 152) 3 ⊗ decimal (pos 15) 1) (length s.blocks) first >>= λ t.
          some (add_hcal t.clus f, rnd') in
        if decimal (pos 1) 2 ≺ tot then grown else some (f, rnd')
