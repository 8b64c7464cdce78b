-- ===== src/Geant4File/Grow/Steps.antt =====
-- One round of the loop over the cluster, and the whole of it.
use libsolgem.Base.{
  ℕ, zero, suc, ◌+◌, ◌≤◌, ◌<◌, ◌≡◌, refl, Bool, false, inl, inr, Bool-cases, none, some, List, [],
  ◌∷◌, length, get_elem?, arith, leb,
}
use libsolgem.Geant4File.Grow.{Scan, erase, advance}

module _ {A : Type 0} where
  pub get_elem?-lt : (xs : List A) (i : ℕ) → i < length xs → (x : A) × (get_elem? xs i ≡ some x)
  get_elem?-lt [] i h = absurd (omega arith)
  get_elem?-lt (x ∷ xs) zero h = (x, refl)
  get_elem?-lt (x ∷ xs) (suc i) h = get_elem?-lt xs i (omega arith)

  pub get_elem?-some : (xs : List A) (i : ℕ) {x : A} → get_elem? xs i ≡ some x → i < length xs
  get_elem?-some [] i e = cc
  get_elem?-some (y ∷ xs) zero e = omega arith
  get_elem?-some (y ∷ xs) (suc i) e = omega (arith, get_elem?-some xs i e)

  pub length-erase : (xs : List A) (i : ℕ) → i < length xs → length (erase xs i) + 1 ≡ length xs
  unfolding erase
  length-erase [] i h = absurd (omega arith)
  length-erase (x ∷ xs) zero h = omega arith
  length-erase (x ∷ xs) (suc i) h = omega (arith, length-erase xs i (omega arith))

  -- From state `s` the loop came to `t`; where it moved no block, it compared the block with all of the
  -- cluster from `i_` on.
  pub record Ran (near : A → A → Bool) (s t : Scan A) : Type 0 where
    pub in_range : t.i ≤ s.i
    pub within : t.i ≤ length t.blocks
    pub counted : length t.blocks + t.added ≡ length s.blocks + s.added
    pub kept : length t.blocks + length t.clus ≡ length s.blocks + length s.clus
    pub grown : s.added ≤ t.added
    pub same_blocks : t.added ≡ s.added → t.blocks ≡ s.blocks
    pub same_clus : t.added ≡ s.added → t.clus ≡ s.clus
    pub same_i : t.added ≡ s.added → t.i ≡ s.i
    pub all_far :
        t.added ≡ s.added
        → (b c : A) (j : ℕ) → get_elem? s.blocks s.i ≡ some b
        → get_elem? s.clus j ≡ some c
        → s.i_ ≤ j
        → near b c ≡ false

  get_elem?-ge : (xs : List A) (i : ℕ) → length xs ≤ i → get_elem? xs i ≡ none
  get_elem?-ge [] i h = refl
  get_elem?-ge (x ∷ xs) zero h = absurd (omega arith)
  get_elem?-ge (x ∷ xs) (suc i) h = get_elem?-ge xs i (omega arith)

  module _ (near : A → A → Bool) where
    pub Ran-leave : (s : Scan A) → s.i < length s.blocks → length s.clus ≤ s.i_ → Ran near s s
    Ran-leave s lt done = record {
      in_range = omega arith;
      within = omega arith;
      counted = refl;
      kept = refl;
      grown = omega arith;
      same_blocks = λ e. refl;
      same_clus = λ e. refl;
      same_i = λ e. refl;
      all_far = λ e b c j eb ec le. absurd (past c j ec le);
    }
      where
        past : (c : A) (j : ℕ) → get_elem? s.clus j ≡ some c → s.i_ ≤ j → ⊥
        past c j ec le = cc (get_elem?-ge s.clus j (omega arith))

    pub Ran-far :
        (s t : Scan A) (b c : A)
        → get_elem? s.blocks s.i ≡ some b
        → get_elem? s.clus s.i_ ≡ some c
        → near b c ≡ false
        → Ran near (advance s) t
        → Ran near s t
    Ran-far s t b c eb ec far r = record {
      in_range = r.in_range;
      within = r.within;
      counted = r.counted;
      kept = r.kept;
      grown = r.grown;
      same_blocks = r.same_blocks;
      same_clus = r.same_clus;
      same_i = r.same_i;
      all_far = λ e b' c' j eb' ec' le. each e b' c' j eb' ec' le;
    }
      where
        each :
            t.added ≡ s.added
            → (b' c' : A) (j : ℕ) → get_elem? s.blocks s.i ≡ some b'
            → get_elem? s.clus j ≡ some c'
            → s.i_ ≤ j
            → near b' c' ≡ false
        each e b' c' j eb' ec' le = elim (Bool-cases (leb j s.i_)) [
          | inl at ↦
              let same : j ≡ s.i_ = ground arith in
              let eb2 : b' ≡ b = cc in let ec2 : c' ≡ c = cc in rw (eb2, ec2) far
          | inr behind ↦ r.all_far e b' c' j eb' ec' (ground arith)
        ]

    pub Ran-moved :
        (s s' t : Scan A)
        → s'.i ≤ s.i
        → s'.added ≡ s.added + 1
        → length s'.blocks + 1 ≡ length s.blocks
        → length s'.clus ≡ length s.clus + 1
        → Ran near s' t
        → Ran near s t
    Ran-moved s s' t le more less longer r = record {
      in_range = omega (arith, r.in_range);
      within = r.within;
      counted = omega (arith, r.counted);
      kept = omega (arith, r.kept);
      grown = omega (arith, r.grown);
      same_blocks = λ e. absurd (omega (arith, r.grown));
      same_clus = λ e. absurd (omega (arith, r.grown));
      same_i = λ e. absurd (omega (arith, r.grown));
      all_far = λ e b c j eb ec h. absurd (omega (arith, r.grown));
    }

    -- The last block is moved.
    pub Ran-last :
        (s t : Scan A)
        → t.i ≤ s.i
        → t.i ≤ length t.blocks
        → t.added ≡ s.added + 1
        → length t.blocks + 1 ≡ length s.blocks
        → length t.clus ≡ length s.clus + 1
        → Ran near s t
    Ran-last s t le room more less longer = record {
      in_range = le;
      within = room;
      counted = omega arith;
      kept = omega arith;
      grown = omega arith;
      same_blocks = λ e. absurd (omega arith);
      same_clus = λ e. absurd (omega arith);
      same_i = λ e. absurd (omega arith);
      all_far = λ e b c j eb ec h. absurd (omega arith);
    }
