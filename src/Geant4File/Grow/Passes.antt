-- ===== src/Geant4File/Grow/Passes.antt =====
-- The loops end, read no element out of range, and keep what a transfer keeps.
use libsolgem.Base.{
  ℕ, zero, suc, ◌+◌, ◌-◌, ◌≤◌, ◌<◌, ◌≡◌, refl, ◌∙◌, Bool, true, false, inl, inr, Bool-cases, some,
  List, [], ◌∷◌, ◌++◌, length, length-append, get_elem?, arith, leb, ltb, ◌==◌, ==_iff,
}
use libsolgem.Geant4File.Grow.{
  Scan, erase, advance, transfer, resume, compare_blocks, visit, inner, pass, grow,
}
use libsolgem.Geant4File.Grow.Steps.{
  Ran, Ran-leave, Ran-far, Ran-moved, Ran-last, get_elem?-lt, get_elem?-some, length-erase,
}

module _ {A : Type 0} (near : A → A → Bool) (P : List A → List A → Type 0)
    (keep : (blocks clus : List A) (i j : ℕ) (b c : A)
      → get_elem? blocks i ≡ some b
      → get_elem? clus j ≡ some c
      → near b c ≡ true
      → P blocks clus
      → P (erase blocks i) (clus ++ b ∷ [])) where
  Ends : ℕ → Scan A → Type 0
  Ends fuel s = (t : Scan A) × (inner near fuel s ≡ some t) × Ran near s t × P t.blocks t.clus

  -- The cases of a block that is near, where the rest of the loop ends.
  transfer-Ends :
      (fuel : ℕ) (s : Scan A) (b c : A)
      → s.i < length s.blocks
      → P (erase s.blocks s.i) (s.clus ++ b ∷ [])
      → ((s' : Scan A)
          → s'.i < length s'.blocks
          → length s'.blocks + 1 ≡ length s.blocks
          → length s'.clus ≡ length s.clus + 1
          → s'.i_ ≡ s.i_ + 1
          → P s'.blocks s'.clus
          → Ends fuel s')
      → visit near s ≡ transfer b s
      → Ends (suc fuel) s
  unfolding Ends inner resume transfer
  transfer-Ends fuel s b c lt p go e =
      let rest = erase s.blocks s.i in
      let s' = record s { blocks = rest; clus = s.clus ++ b ∷ []; added = s.added + 1 } in
      let less = length-erase s.blocks s.i lt in
      let more = length-append s.clus (b ∷ []) in
      elim (Bool-cases (ltb s.i (length rest))) [
        | inl inside ↦
            let (t, ends, ran, q) = go (advance s') (ground arith) less more refl p in
            (
              t,
              rw (e, inside) ends,
              Ran-moved near s (advance s') t (omega arith) refl less more ran,
              q,
            )
        | inr past ↦ elim (Bool-cases (ltb 0 s.i)) [
          | inl positive ↦
              let back = advance (record s' { i = s.i - 1 }) in
              let (t, ends, ran, q) = go back (ground arith) less more refl p in
              (
                t,
                rw (e, past, positive) ends,
                Ran-moved near s back t (omega arith) refl less more ran,
                q,
              )
          | inr first ↦ (
            s',
            rw (e, past, first) refl,
            Ran-last near s s' (omega arith) (ground arith) refl less more,
            p,
          )
        ]
      ]

  -- The loop over the cluster ends; each round moves a block or goes on in the cluster.
  inner-Ends :
      (fuel : ℕ) (s : Scan A)
      → s.i < length s.blocks
      → length s.blocks + (length s.clus - s.i_) < fuel
      → P s.blocks s.clus
      → Ends fuel s
  unfolding Ends inner resume visit compare_blocks
  inner-Ends zero s lt enough p = absurd (omega arith)
  inner-Ends (suc fuel) s lt enough p = elim (Bool-cases (leb (length s.clus) s.i_)) [
    | inl all ↦ (s, rw all refl, Ran-leave near s lt (ground arith), p)
    | inr some_left ↦
        let (b, eb) = get_elem?-lt s.blocks s.i lt in
        let (c, ec) = get_elem?-lt s.clus s.i_ (ground arith) in
        elim (Bool-cases (near b c)) [
          | inl close ↦
              transfer-Ends fuel s b c lt (keep s.blocks s.clus s.i s.i_ b c eb ec close p)
                (λ s' lt' less more e_i p'. inner-Ends fuel s' lt' (ground arith) p')
                (rw (some_left, eb, ec, close) refl)
          | inr far ↦
              let (t, ends, ran, q) = inner-Ends fuel (advance s) lt (ground arith) p in
              (t, rw (some_left, eb, ec, far) ends, Ran-far near s t b c eb ec far ran, q)
        ]
  ]

  -- A loop over the first `n` blocks came from `s` to `t`.
  record Passed (n : ℕ) (s t : Scan A) : Type 0 where
    counted : length t.blocks + t.added ≡ length s.blocks + s.added
    grown : s.added ≤ t.added
    same_blocks : t.added ≡ s.added → t.blocks ≡ s.blocks
    same_clus : t.added ≡ s.added → t.clus ≡ s.clus
    all_far :
        t.added ≡ s.added
        → (b c : A) (i j : ℕ) → get_elem? s.blocks i ≡ some b
        → get_elem? s.clus j ≡ some c
        → i < n
        → near b c ≡ false

  Passed-step :
      (n : ℕ) (s t u : Scan A)
      → Ran near (record s { i = n; i_ = 0 }) t
      → Passed t.i t u
      → Passed (suc n) s u
  Passed-step n s t u ran rest = record {
    counted = omega (arith, ran.counted, rest.counted);
    grown = omega (arith, ran.grown, rest.grown);
    same_blocks = λ e. rest.same_blocks (later e) ∙ ran.same_blocks (sooner e);
    same_clus = λ e. rest.same_clus (later e) ∙ ran.same_clus (sooner e);
    all_far = λ e b c i j eb ec lt. each e b c i j eb ec lt;
  }
    where
      later : u.added ≡ s.added → u.added ≡ t.added
      later e = omega (arith, ran.grown, rest.grown)

      sooner : u.added ≡ s.added → t.added ≡ s.added
      sooner e = omega (arith, ran.grown, rest.grown)

      each :
          u.added ≡ s.added
          → (b c : A) (i j : ℕ) → get_elem? s.blocks i ≡ some b
          → get_elem? s.clus j ≡ some c
          → i < suc n
          → near b c ≡ false
      each e b c i j eb ec lt = elim (Bool-cases (i == n)) [
        | inl last ↦
            let at : i ≡ n = (==_iff i n).0 last in
            ran.all_far (sooner e) b c j (rw (← at) eb) ec (omega arith)
        | inr other ↦
            let blocks = ran.same_blocks (sooner e) in
            let clus = ran.same_clus (sooner e) in
            rest.all_far (later e) b c i j (rw blocks eb) (rw clus ec)
              (ground (arith, ran.same_i (sooner e)))
      ]

  pass-Ends :
      (fuel n : ℕ) (s : Scan A)
      → n < fuel
      → n ≤ length s.blocks
      → P s.blocks s.clus
      → (t : Scan A) × (pass near fuel n s ≡ some t) × Passed n s t × P t.blocks t.clus
  unfolding pass Ends
  pass-Ends zero n s enough room p = absurd (omega arith)
  pass-Ends (suc fuel) zero s enough room p = (
    s,
    refl,
    record {
      counted = refl;
      grown = omega arith;
      same_blocks = λ e. refl;
      same_clus = λ e. refl;
      all_far = λ e b c i j eb ec lt. absurd (omega arith);
    },
    p,
  )
  pass-Ends (suc fuel) (suc n) s enough room p =
      let s0 = record s { i = n; i_ = 0 } in
      let (t, ends, ran, q) =
        inner-Ends (length s.blocks + length s.clus + 1) s0 (omega arith) (omega arith) p in
      let (u, last, passed, r) = pass-Ends fuel t.i t (omega (arith, ran.in_range)) ran.within q in
      (u, rw ends last, Passed-step n s t u ran passed, r)

  -- The while loop ends, and then no block that is left is near one of the cluster.
  pub grow-Ends :
      (fuel : ℕ) (s : Scan A)
      → length s.blocks < fuel
      → P s.blocks s.clus
      → (t : Scan A) × (grow near fuel s ≡ some t)
        × P t.blocks t.clus
        × ((b c : A) (i j : ℕ)
            → get_elem? t.blocks i ≡ some b
            → get_elem? t.clus j ≡ some c
            → near b c ≡ false)
  unfolding grow
  grow-Ends zero s enough p = absurd (omega arith)
  grow-Ends (suc fuel) s enough p =
      let s0 = record s { added = 0 } in
      let (t, ends, passed, q) =
        pass-Ends (length s.blocks + 1) (length s.blocks) s0 (omega arith) (omega arith) p in
      elim (Bool-cases (t.added == 0)) [
        | inl none_added ↦
            let unchanged : t.added ≡ 0 = (==_iff t.added 0).0 none_added in
            (
              t,
              rw (ends, none_added) refl,
              q,
              λ b c i j eb ec.
                  let eb' : get_elem? s.blocks i ≡ some b =
                    rw (← passed.same_blocks unchanged) eb in
                  let ec' : get_elem? s.clus j ≡ some c = rw (← passed.same_clus unchanged) ec in
                  passed.all_far unchanged b c i j eb' ec' (get_elem?-some s.blocks i eb'),
            )
        | inr some_added ↦
            let (u, last, r, far) = grow-Ends fuel t (ground (arith, passed.counted)) q in
            (u, rw (ends, some_added) last, r, far)
      ]
