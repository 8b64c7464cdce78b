-- ===== src/Database/Optics/Stream.antt =====
-- LoadOptics of src/TSBSDBManager.cxx on the text of the optics file. std::ifstream is a parameter: an
-- extraction that leaves its variable as it is has the answer `none`; `next_line` is
-- TString::ReadLine. The variables are not set before the first round: `unset` is what they hold.
use libsolgem.Base.{
  ℕ, zero, suc, ◌-◌, ◌^◌, ◌<◌, ◌≤◌, ◌≡◌, refl, ap, ◌∙◌, ℤ, pos, ltb, inl, inr, Bool-cases,
  if◌then◌else◌, Option, none, some, List, [], ◌∷◌, get_elem?, arith,
}
use libsolgem.Base.Int.{pos_part, ltb_ℤ}
use libsolgem.Double.{Double, of_ℤ, of_ℕ}
use libsolgem.Database.{Manager}
use libsolgem.Database.Optics.{Term, term_value, load_optics, get_optics_coeff}
use libsolgem.Database.Optics.Terms.{
  get_optics_coeff-load_optics, get_optics_coeff-load_optics_past,
}

pub record TextStream (S D : Type 0) : Type 0 where
  pub open_text : List ℕ → S
  pub next_line : S → S
  pub extract_int : S → Option ℤ × S
  pub extract_double : S → Option D × S

abbrev kept : {A : Type 0} → A → Option A → A
kept old none = old
kept old (some v) = v

module _ {S D : Type 0} (text : TextStream S D) where
  -- The extractions of one round: the integers stand in the file in the order m, l, k, j, i.
  unfoldable pub read_term : Term D → S → Term D × S
  read_term t s =
      let (cxfp, s1) = text.extract_double s in
      let (cyfp, s2) = text.extract_double s1 in
      let (cxpfp, s3) = text.extract_double s2 in
      let (cypfp, s4) = text.extract_double s3 in
      let (m, s5) = text.extract_int s4 in
      let (l, s6) = text.extract_int s5 in
      let (k, s7) = text.extract_int s6 in
      let (j, s8) = text.extract_int s7 in
      let (i, s9) = text.extract_int s8 in
      (
        record {
          cxfp = kept t.cxfp cxfp;
          cyfp = kept t.cyfp cyfp;
          cxpfp = kept t.cxpfp cxpfp;
          cypfp = kept t.cypfp cypfp;
          i = kept t.i i;
          j = kept t.j j;
          k = kept t.k k;
          l = kept t.l l;
          m = kept t.m m;
        },
        s9,
      )

  -- The loop, with `left` rounds to go.
  unfoldable pub read_terms : ℕ → Term D → S → List (Term D)
  read_terms zero t s = []
  read_terms (suc left) t s = let (t', s') = read_term t s in t' ∷ read_terms left t' s'

  -- fNOpticsTerms, behind the first line, and the stream behind it.
  unfoldable pub read_count : ℤ → S → ℤ × S
  read_count before s = let (n, s') = text.extract_int (text.next_line s) in (kept before n, s')

  -- LoadOptics: behind the number, three calls of ReadLine. A negative number makes no round.
  unfoldable pub load_optics_file : ⦃d : Double D⦄ → Term D → Manager D → Manager D
  unfolding read_count read_terms
  load_optics_file unset m =
      let (n, s) = read_count m.n_optics_terms (text.open_text m.optics_file) in
      let first = text.next_line (text.next_line (text.next_line s)) in
      record (load_optics (read_terms (pos_part n) unset first) m) { n_optics_terms = n }

  -- The variables after round `j`, and the round in the list of the terms.
  unfoldable pub round : ℕ → Term D → S → Term D
  round zero t s = (read_term t s).0
  round (suc j) t s = let (t', s') = read_term t s in round j t' s'

  read_terms-round :
      (n j : ℕ) (t : Term D) (s : S) → j < n → get_elem? (read_terms n t s) j ≡ some (round j t s)
  unfolding read_terms round
  read_terms-round zero j t s h = absurd (omega arith)
  read_terms-round (suc n) zero t s h = refl
  read_terms-round (suc n) (suc j) t s h =
      read_terms-round n j (read_term t s).0 (read_term t s).1 (omega arith)

  read_terms-past : (n j : ℕ) (t : Term D) (s : S) → n ≤ j → get_elem? (read_terms n t s) j ≡ none
  unfolding read_terms
  read_terms-past zero j t s h = refl
  read_terms-past (suc n) zero t s h = absurd (omega arith)
  read_terms-past (suc n) (suc j) t s h =
      read_terms-past n j (read_term t s).0 (read_term t s).1 (omega arith)

  -- The stream behind some numbers.
  unfoldable pub after_doubles : ℕ → S → S
  after_doubles zero s = s
  after_doubles (suc n) s = after_doubles n (text.extract_double s).1

  unfoldable pub after_ints : ℕ → S → S
  after_ints zero s = s
  after_ints (suc n) s = after_ints n (text.extract_int s).1

  module _ ⦃d : Double D⦄ where
    abbrev whole : Option ℤ → Option D
    whole n = elim n [ none ↦ none | some v ↦ some (of_ℤ v) ]

    -- What a round at `s` reads for a row: rows 0 to 3 are the first four numbers, and rows 8, 7, 6, 5
    -- and 4 the five integers behind them.
    unfoldable pub read_row : ℕ → S → Option D
    read_row row s =
        if ltb row 4
        then (text.extract_double (after_doubles row s)).0
        else whole (text.extract_int (after_ints (8 - row) (after_doubles 4 s))).0

    -- What the variable of a row, which was `old`, is after round `j`: the last number that could be read.
    unfoldable pub held : ℕ → ℕ → D → S → D
    held row zero old s = kept old (read_row row s)
    held row (suc j) old s =
        held row j (kept old (read_row row s)) (after_ints 5 (after_doubles 4 s))

    kept-whole : (old : ℤ) (n : Option ℤ) → of_ℤ (kept old n) ≡ kept (of_ℤ old) (whole n)
    kept-whole old none = refl
    kept-whole old (some v) = refl

    term_value-read_term :
        (row : ℕ) (t : Term D) (s : S)
        → row < 9
        → term_value row (read_term t s).0 ≡ kept (term_value row t) (read_row row s)
    unfolding term_value read_term read_row after_doubles after_ints
    term_value-read_term zero t s h = refl
    term_value-read_term (suc zero) t s h = refl
    term_value-read_term (suc (suc zero)) t s h = refl
    term_value-read_term (suc (suc (suc zero))) t s h = refl
    term_value-read_term (suc (suc (suc (suc zero)))) t s h = kept-whole t.i _
    term_value-read_term (suc (suc (suc (suc (suc zero))))) t s h = kept-whole t.j _
    term_value-read_term (suc (suc (suc (suc (suc (suc zero)))))) t s h = kept-whole t.k _
    term_value-read_term (suc (suc (suc (suc (suc (suc (suc zero))))))) t s h = kept-whole t.l _
    term_value-read_term (suc (suc (suc (suc (suc (suc (suc (suc zero)))))))) t s h =
        kept-whole t.m _
    term_value-read_term (suc (suc (suc (suc (suc (suc (suc (suc (suc row))))))))) t s h =
        absurd (omega (arith, h))

    term_value-round :
        (row j : ℕ) (t : Term D) (s : S)
        → row < 9
        → term_value row (round j t s) ≡ held row j (term_value row t) s
    unfolding round held read_term after_doubles after_ints
    term_value-round row zero t s h = term_value-read_term row t s h
    term_value-round row (suc j) t s h =
        term_value-round row j (read_term t s).0 (read_term t s).1 h
        ∙ ap (λ (v : D). held row j v (after_ints 5 (after_doubles 4 s)))
            (term_value-read_term row t s h)

    -- LoadOptics sets fNOpticsTerms to the number that it reads behind the first line, or leaves it
    -- where it finds none. For every j below it and each of the nine rows GetOpticsCoeff then gives what
    -- the variable of the row holds after the (j + 1)-th round of reading: of the nine numbers of a
    -- round the first four are for rows 0 to 3, in this order, and the integers for rows 8 to 4, and a
    -- number that cannot be read leaves the variable as it is. For every other j it gives 1e38.
    pub get_optics_coeff-load_optics_file :
        (unset : Term D) (m : Manager D) (row j : ℕ)
        → row < 9
        → let (n, s) = read_count m.n_optics_terms (text.open_text m.optics_file) in
          let first = text.next_line (text.next_line (text.next_line s)) in
          let m' = load_optics_file unset m in
          (m'.n_optics_terms ≡ n)
          × (get_optics_coeff m' row j ≡ (
              if ltb_ℤ (pos j) n then held row j (term_value row unset) first else of_ℕ (10 ^ 38)))
    unfolding load_optics_file get_optics_coeff
    get_optics_coeff-load_optics_file unset m row j h =
        let counted = read_count m.n_optics_terms (text.open_text m.optics_file) in
        let first = text.next_line (text.next_line (text.next_line counted.1)) in
        let terms = read_terms (pos_part counted.0) unset first in
        (
          refl,
          elim (Bool-cases (ltb_ℤ (pos j) counted.0)) [
            | inl inside ↦
                let at = read_terms-round (pos_part counted.0) j unset first (ground arith) in
                rw inside (
                  get_optics_coeff-load_optics terms m row j (round j unset first) h at
                  ∙ term_value-round row j unset first h)
            | inr past ↦
                let at = read_terms-past (pos_part counted.0) j unset first (ground arith) in
                rw past (get_optics_coeff-load_optics_past terms m row j h at)
          ],
        )
