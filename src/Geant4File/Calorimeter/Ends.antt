-- ===== src/Geant4File/Calorimeter/Ends.antt =====
-- The loops of the calorimeters end, and those around the while loop in GetHCalCluster.
use libsolgem.Base.{
  ℕ, zero, suc, ◌+◌, ◌≤◌, ◌<◌, ℤ, ◌≡◌, refl, sym, ap, ◌∙◌, Bool, true, false, inl, inr, Bool-cases,
  some, List, [], ◌∷◌, ◌++◌, length, length-append, get_elem?, arith, leb,
}
use mathlib.Core.Bool.{true≢false}
use libsolgem.Database.{Manager}
use libsolgem.Digitization.{Root}
use libsolgem.Double.{Double}
use libsolgem.Geant4File.Grow.{Scan, erase, grow_cluster}
use libsolgem.Geant4File.Grow.Steps.{length-erase, get_elem?-some}
use libsolgem.Geant4File.Grow.Passes.{grow-Ends}
use libsolgem.Geant4File.Calorimeter.{Block, near, grow_again, grow_nested}

module _ {A : Type 0} (near : A → A → Bool) where
  -- Blocks of which none is near one of the cluster.
  abbrev pub IsClosed : List A → List A → Type 0
  IsClosed blocks clus =
      (b c : A) (i j : ℕ)
      → get_elem? blocks i ≡ some b
      → get_elem? clus j ≡ some c
      → near b c ≡ false

  pub grow_cluster-IsClosed :
      (blocks clus : List A)
      → (t : Scan A) × (grow_cluster near blocks clus ≡ some t)
        × (length t.blocks + length t.clus ≡ length blocks + length clus)
        × IsClosed t.blocks t.clus
  unfolding grow_cluster
  grow_cluster-IsClosed blocks clus =
      let s : Scan A = record { blocks = blocks; clus = clus; i = 0; i_ = 0; added = 1 } in
      grow-Ends near Counted keep (length blocks + 1) s (omega arith) refl
    where
      Counted : List A → List A → Type 0
      Counted left c = length left + length c ≡ length blocks + length clus

      keep :
          (left c : List A) (i j : ℕ) (x y : A)
          → get_elem? left i ≡ some x
          → get_elem? c j ≡ some y
          → near x y ≡ true
          → Counted left c
          → Counted (erase left i) (c ++ x ∷ [])
      keep left c i j x y ex ey close e =
          omega (arith, length-erase left i (get_elem?-some left i ex), length-append c (x ∷ []))

  -- To grow such a cluster changes nothing.
  pub grow_cluster_closed :
      (blocks clus : List A)
      → IsClosed blocks clus
      → (t : Scan A) × (grow_cluster near blocks clus ≡ some t)
        × (t.blocks ≡ blocks)
        × (t.clus ≡ clus)
  unfolding grow_cluster
  grow_cluster_closed blocks clus closed =
      let s : Scan A = record { blocks = blocks; clus = clus; i = 0; i_ = 0; added = 1 } in
      let (t, ends, (e, f), _) =
        grow-Ends near Same keep (length blocks + 1) s (omega arith) (refl, refl) in
      (t, ends, e, f)
    where
      Same : List A → List A → Type 0
      Same left c = (left ≡ blocks) × (c ≡ clus)

      keep :
          (left c : List A) (i j : ℕ) (x y : A)
          → get_elem? left i ≡ some x
          → get_elem? c j ≡ some y
          → near x y ≡ true
          → Same left c
          → Same (erase left i) (c ++ x ∷ [])
      keep left c i j x y ex ey close (e, f) =
          absurd (true≢false (sym close ∙ closed x y i j (rw (← e) ex) (rw (← f) ey)))

module _ {D : Type 0} ⦃d : Double D⦄ {R : Type 0} (root : Root D R) (power : D → ℤ → D)
    (fManager : Manager D) (size : D) where
  abbrev is_near : Block D → Block D → Bool
  is_near = near root power fManager size

  -- `u` holds the blocks and the cluster of `t`.
  abbrev pub Agrees : Scan (Block D) → Scan (Block D) → Type 0
  Agrees u t = (u.blocks ≡ t.blocks) × (u.clus ≡ t.clus)

  grow_again_closed :
      (fuel i_ : ℕ) (s : Scan (Block D))
      → 1 ≤ fuel
      → length s.clus < fuel + i_
      → IsClosed is_near s.blocks s.clus
      → (u : Scan (Block D)) × (grow_again root power fManager size fuel i_ s ≡ some u) × Agrees u s
  unfolding grow_again
  grow_again_closed zero i_ s some_fuel enough closed = absurd (omega arith)
  grow_again_closed (suc fuel) i_ s some_fuel enough closed =
      elim (Bool-cases (leb (length s.clus) i_)) [
        | inl all ↦ (s, rw all refl, (refl, refl))
        | inr more ↦
            let (t, ends, e, f) = grow_cluster_closed is_near s.blocks s.clus closed in
            let (u, last, (g, h)) =
              grow_again_closed fuel (i_ + 1) t (ground arith)
                (omega (arith, ap (λ (l : List (Block D)). length l) f)) (rw (e, f) closed) in
            (u, rw (more, ends) last, (g ∙ e, h ∙ f))
      ]

  grow_nested_closed :
      (n : ℕ) (s : Scan (Block D))
      → IsClosed is_near s.blocks s.clus
      → (u : Scan (Block D)) × (grow_nested root power fManager size n s ≡ some u) × Agrees u s
  unfolding grow_nested
  grow_nested_closed zero s closed = (s, refl, (refl, refl))
  grow_nested_closed (suc n) s closed =
      let (t, ends, (e, f)) =
        grow_again_closed (length s.blocks + length s.clus + 1) 0 s (omega arith) (omega arith)
          closed in
      let (u, last, (g, h)) = grow_nested_closed n t (rw (e, f) closed) in
      (u, rw ends last, (g ∙ e, h ∙ f))

  -- The first round of the loop over the cluster does all.
  grow_again_first :
      (fuel : ℕ) (s : Scan (Block D))
      → length s.blocks + length s.clus < fuel
      → leb (length s.clus) 0 ≡ false
      → (u t : Scan (Block D)) × (grow_again root power fManager size fuel 0 s ≡ some u)
        × (grow_cluster is_near s.blocks s.clus ≡ some t)
        × Agrees u t
        × IsClosed is_near t.blocks t.clus
  unfolding grow_again
  grow_again_first zero s enough seeded = absurd (omega arith)
  grow_again_first (suc fuel) s enough seeded =
      let (t, ends, counted, closed) = grow_cluster-IsClosed is_near s.blocks s.clus in
      let (u, last, same) =
        grow_again_closed fuel (0 + 1) t (ground arith) (omega (arith, counted)) closed in
      (u, t, rw (seeded, ends) last, ends, same, closed)

  nothing_to_grow :
      (n : ℕ) (s : Scan (Block D))
      → IsClosed is_near s.blocks s.clus
      → (u t : Scan (Block D)) × (grow_nested root power fManager size n s ≡ some u)
        × (grow_cluster is_near s.blocks s.clus ≡ some t)
        × Agrees u t
  nothing_to_grow n s closed =
      let (u, last, (e, f)) = grow_nested_closed n s closed in
      let (t, ends, g, h) = grow_cluster_closed is_near s.blocks s.clus closed in
      (u, t, last, ends, (e ∙ sym g, f ∙ sym h))

  -- The loops around the while loop of GetHCalCluster end, and leave the blocks and the cluster that the
  -- while loop alone does.
  pub grow_nested-grow_cluster :
      (n : ℕ) (s : Scan (Block D))
      → length s.blocks ≡ n
      → (u t : Scan (Block D)) × (grow_nested root power fManager size n s ≡ some u)
        × (grow_cluster is_near s.blocks s.clus ≡ some t)
        × Agrees u t
  unfolding grow_nested
  grow_nested-grow_cluster zero s e =
      nothing_to_grow zero s (λ b c i j eb ec. absurd (omega (arith, get_elem?-some s.blocks i eb)))
  grow_nested-grow_cluster (suc n) s e = elim (Bool-cases (leb (length s.clus) 0)) [
    | inl empty ↦
        nothing_to_grow (suc n) s
          (λ b c i j eb ec. absurd (ground (arith, get_elem?-some s.clus j ec)))
    | inr seeded ↦
        let (u, t, ends, grown, (g, h), closed) =
          grow_again_first (length s.blocks + length s.clus + 1) s (omega arith) seeded in
        let (v, last, (k, l)) = grow_nested_closed n u (rw (g, h) closed) in
        (v, t, rw ends last, grown, (k ∙ g, l ∙ h))
  ]
