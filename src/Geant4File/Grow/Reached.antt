-- ===== src/Geant4File/Grow/Reached.antt =====
-- The cluster that the loops grow, against the blocks that can be reached from its first one.
use libsolgem.Base.{
  ℕ, zero, suc, ◌+◌, ◌≡◌, refl, sym, ap, ◌∙◌, Bool, true, false, inl, inr, ◌↔◌, ◌⊎◌, some, List, [],
  ◌∷◌, ◌++◌, length, get_elem?, arith,
}
use mathlib.Core.Path.{subst}
use mathlib.Core.Bool.{true≢false}
use mathlib.Core.List.{Memᴰ, Permᴰ, append_assoc}
use mathlib.Core.List.Memᴰ
use mathlib.Core.List.Permᴰ
use libsolgem.Geant4File.Grow.{Scan, erase, grow_cluster}
use libsolgem.Geant4File.Grow.Passes.{grow-Ends}

module _ {A : Type 0} where
  get_elem?-Memᴰ : (xs : List A) (i : ℕ) {x : A} → get_elem? xs i ≡ some x → Memᴰ x xs
  get_elem?-Memᴰ [] i e = cc
  get_elem?-Memᴰ (y ∷ xs) zero e = Memᴰ.head (cc)
  get_elem?-Memᴰ (y ∷ xs) (suc i) e = Memᴰ.tail (get_elem?-Memᴰ xs i e)

  position_of : {x : A} (xs : List A) → Memᴰ x xs → (i : ℕ) × (get_elem? xs i ≡ some x)
  position_of [] m = absurd (Memᴰ.not-nil m)
  position_of (y ∷ xs) (Memᴰ.head e) = (0, ap (λ (z : A). some z) (sym e))
  position_of (y ∷ xs) (Memᴰ.tail m) = let (i, e) = position_of xs m in (suc i, e)

  Permᴰ-Memᴰ : {x : A} {xs ys : List A} → Permᴰ xs ys → Memᴰ x xs → Memᴰ x ys
  Permᴰ-Memᴰ Permᴰ.nil m = m
  Permᴰ-Memᴰ (Permᴰ.cons e p) (Memᴰ.head h) = Memᴰ.head (h ∙ e)
  Permᴰ-Memᴰ (Permᴰ.cons e p) (Memᴰ.tail m) = Memᴰ.tail (Permᴰ-Memᴰ p m)
  Permᴰ-Memᴰ (Permᴰ.swap e f) (Memᴰ.head h) = Memᴰ.tail (Memᴰ.head (h ∙ e))
  Permᴰ-Memᴰ (Permᴰ.swap e f) (Memᴰ.tail (Memᴰ.head h)) = Memᴰ.head (h ∙ f)
  Permᴰ-Memᴰ (Permᴰ.swap e f) (Memᴰ.tail (Memᴰ.tail m)) = Memᴰ.tail (Memᴰ.tail m)
  Permᴰ-Memᴰ (Permᴰ.trans p q) m = Permᴰ-Memᴰ q (Permᴰ-Memᴰ p m)

  erase-Permᴰ : (xs : List A) (i : ℕ) (x : A) → get_elem? xs i ≡ some x → Permᴰ (x ∷ erase xs i) xs
  unfolding erase
  erase-Permᴰ [] i x e = cc
  erase-Permᴰ (y ∷ xs) zero x e = Permᴰ.cons (cc) (Permᴰ.refl xs)
  erase-Permᴰ (y ∷ xs) (suc i) x e =
      Permᴰ.trans (Permᴰ.swap refl refl) (Permᴰ.cons refl (erase-Permᴰ xs i x e))

  transfer-Permᴰ :
      (blocks clus : List A) (i : ℕ) (b : A)
      → get_elem? blocks i ≡ some b
      → Permᴰ (erase blocks i ++ (clus ++ b ∷ [])) (blocks ++ clus)
  transfer-Permᴰ blocks clus i b e =
      let back = Permᴰ.append_comm (erase blocks i ++ clus) (b ∷ []) in
      let moved = Permᴰ.append_right clus (erase-Permᴰ blocks i b e) in
      rw (← append_assoc (erase blocks i) clus (b ∷ [])) (Permᴰ.trans back moved)

  module _ (near : A → A → Bool) (blocks seed : List A) where
    -- A block that is in the seed, or near a block that is reached.
    pub data Reach : A → Type 0 where
      start : {x : A} → Memᴰ x seed → Reach x
      step : {b c : A} → Memᴰ b blocks → near b c ≡ true → Reach c → Reach b

    record Kept (left clus : List A) : Type 0 where
      perm : Permᴰ (left ++ clus) (blocks ++ seed)
      reached : (x : A) → Memᴰ x clus → Reach x
      seeded : (x : A) → Memᴰ x seed → Memᴰ x clus

    Reach-block : (b c : A) → Memᴰ b (blocks ++ seed) → near b c ≡ true → Reach c → Reach b
    Reach-block b c m close r = elim (Memᴰ.append_cases blocks m) [
      | inl block ↦ step block close r
      | inr first ↦ start first
    ]

    Kept-transfer :
        (left clus : List A) (i j : ℕ) (b c : A)
        → get_elem? left i ≡ some b
        → get_elem? clus j ≡ some c
        → near b c ≡ true
        → Kept left clus
        → Kept (erase left i) (clus ++ b ∷ [])
    Kept-transfer left clus i j b c eb ec close k = record {
      perm = Permᴰ.trans (transfer-Permᴰ left clus i b eb) k.perm;
      reached = λ x m. each x (Memᴰ.append_cases clus m);
      seeded = λ x m. Memᴰ.append_left (b ∷ []) (k.seeded x m);
    }
      where
        moved : Memᴰ b (blocks ++ seed)
        moved = Permᴰ-Memᴰ k.perm (Memᴰ.append_left clus (get_elem?-Memᴰ left i eb))

        each : (x : A) → Memᴰ x clus ⊎ Memᴰ x (b ∷ []) → Reach x
        each x (inl old) = k.reached x old
        each x (inr new) =
            subst Reach (sym (Memᴰ.eq_of_singleton new))
              (Reach-block b c moved close (k.reached c (get_elem?-Memᴰ clus j ec)))

    -- The loops end and read nothing out of range; what is left and the cluster together are the blocks
    -- and the seed, each once, and the cluster has exactly those that can be reached from the seed by
    -- steps between blocks that are near.
    pub grow_cluster-Reach :
        (t : Scan A) × (grow_cluster near blocks seed ≡ some t)
        × Permᴰ (t.blocks ++ t.clus) (blocks ++ seed)
        × ((x : A) → Memᴰ x t.clus ↔ Reach x)
    unfolding grow_cluster
    grow_cluster-Reach =
        let first : Kept blocks seed = record {
          perm = Permᴰ.refl (blocks ++ seed);
          reached = λ x m. start m;
          seeded = λ x m. m;
        } in
        let s : Scan A = record { blocks = blocks; clus = seed; i = 0; i_ = 0; added = 1 } in
        let (t, ends, kept, far) =
          grow-Ends near Kept Kept-transfer (length blocks + 1) s (omega arith) first in
        (t, ends, kept.perm, λ x. (kept.reached x, complete t kept far))
      where
        complete :
            (t : Scan A)
            → Kept t.blocks t.clus
            → ((b c : A) (i j : ℕ)
                → get_elem? t.blocks i ≡ some b
                → get_elem? t.clus j ≡ some c
                → near b c ≡ false)
            → {x : A} → Reach x
            → Memᴰ x t.clus
        complete t kept far (start m) = kept.seeded _ m
        complete t kept far (step {b} {c} block close r) =
            let inside = complete t kept far r in
            let there =
              Memᴰ.append_cases t.blocks
                (Permᴰ-Memᴰ (Permᴰ.symm kept.perm) (Memᴰ.append_left seed block)) in
            elim there [
              | inl left ↦
                  let (i, ei) = position_of t.blocks left in
                  let (j, ej) = position_of t.clus inside in
                  absurd (true≢false (sym close ∙ far b c i j ei ej))
              | inr done ↦ done
            ]
