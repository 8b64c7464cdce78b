-- ===== src/Database/Access/Bounds.antt =====
-- Which indices CheckIndex accepts, that the getters then find a value, and which module
-- GetModuleIDFromPos finds.
use libsolgem.Base.{
  ℕ, zero, suc, ◌+◌, ◌<◌, ℤ, pos, negsuc, ◌≡◌, refl, ap, sym, ◌∙◌, ◌⊎◌, ◌↔◌, inl, inr, Bool, true,
  false, Option, some, List, [], ◌∷◌, get_elem?, get_or, length, arith, if◌then◌else◌, Bool-cases,
}
use libsolgem.Base.Int.{parts_apart, ◌≤ℤ◌, ◌<ℤ◌, pos_part}
use libsolgem.Double.{Double}
use mathlib.Core.Option.{some-injective}
use libsolgem.Database.{Manager, GeoInfo, get_n_module}
use libsolgem.Database.Access.{
  check_index, geo_at, checked, get_strip_angle, covers, scan_modules, get_module_id_from_pos, ◌is◌,
}

get_elem?-lt {ℓ} :
    {A : Type ℓ} (xs : List A) (i : ℕ) → i < length xs → (x : A) × (get_elem? xs i ≡ some x)
get_elem?-lt [] i h = elim h [ ]
get_elem?-lt (x ∷ xs) zero h = (x, refl)
get_elem?-lt (x ∷ xs) (suc i) h = get_elem?-lt xs i (omega arith)

if-eq-true : {v : ℤ} (w : ℤ) (b : Bool) → b ≡ true → (if b then v else w) ≡ v
if-eq-true w b e = rw e

if-eq-false : {w : ℤ} (v : ℤ) (b : Bool) → b ≡ false → (if b then v else w) ≡ w
if-eq-false v b e = rw e

add_zero : (k : ℕ) → k + 0 ≡ k
add_zero k = omega arith

module _ {D : Type 0} where
  -- The indices that CheckIndex is meant to accept.
  pub record IsIndex (m : Manager D) (i j : ℤ) : Type 0 where
    pub chamber_in : (pos 0 ≤ℤ i) × (i <ℤ pos m.n_chamber)
    pub module_in : (pos 0 ≤ℤ j) × (j <ℤ pos (get_n_module m (pos_part i)))

  -- CheckIndex accepts exactly the chamber numbers below fNChamber with a module number below the
  -- module count, whatever the readout axis `k`.
  pub check_index_iff : (m : Manager D) (i j k : ℤ) → (check_index m i j k ≡ true) ↔ IsIndex m i j
  unfolding check_index
  check_index_iff m i j k = ground arith

  -- The geometry of plane `p` is loaded: it has a module count, and the geometry of every module.
  abbrev pub IsLoaded : Manager D → ℕ → Type 0
  IsLoaded m p = (n : ℕ) × (get_elem? m.n_module p ≡ some n) × (length (m.pm_geo_info p) ≡ n)

  -- A getter of module `j` in plane `p` does not throw: it returns fErrVal where CheckIndex refuses the
  -- index, and the module's own field where it accepts it.
  abbrev pub Answers : (GeoInfo D → D) → Manager D → ℕ → ℤ → ℤ → Type 0
  Answers field m p j k =
      ((check_index m (pos p) j k ≡ false) × (checked field m (pos p) j k ≡ some m.err_val))
      ⊎ ((g : GeoInfo D) × (get_elem? (m.pm_geo_info p) (pos_part j) ≡ some g)
          × (checked field m (pos p) j k ≡ some (field g)))

  checked-accepted :
      (field : GeoInfo D → D) (m : Manager D) (i j k : ℤ) (g : GeoInfo D)
      → check_index m i j k ≡ true
      → geo_at m i j ≡ some g
      → checked field m i j k ≡ some (field g)
  unfolding checked
  checked-accepted field m i j k g accepted at = rw (accepted, at)

  checked-refused :
      (field : GeoInfo D → D) (m : Manager D) (i j k : ℤ)
      → check_index m i j k ≡ false
      → checked field m i j k ≡ some m.err_val
  unfolding checked
  checked-refused field m i j k refused = rw refused

  pub get_n_module-at :
      (m : Manager D) (p n : ℕ) → get_elem? m.n_module p ≡ some n → get_n_module m p ≡ n
  unfolding get_n_module
  get_n_module-at m p n at = read m.n_module p at
    where
      read : (xs : List ℕ) (q : ℕ) → get_elem? xs q ≡ some n → get_or xs q 0 ≡ n
      read [] q e = cc
      read (x ∷ xs) zero e = some-injective _ _ e
      read (x ∷ xs) (suc q) e = read xs q e

  -- Once the geometry of a plane is loaded, no getter of its modules throws.
  pub checked_total :
      (field : GeoInfo D → D) (m : Manager D) (p : ℕ) (j k : ℤ)
      → IsLoaded m p
      → Answers field m p j k
  unfolding geo_at
  checked_total field m p j k (n, counted, full) = elim (Bool-cases (check_index m (pos p) j k)) [
    | inl accepted ↦
        let v = (check_index_iff m (pos p) j k).0 accepted in
        let (g, e) =
          get_elem?-lt (m.pm_geo_info p) (pos_part j)
            (omega (arith, v.module_in, parts_apart j, full, get_n_module-at m p n counted)) in
        inr (g, e, checked-accepted field m (pos p) j k g accepted e)
    | inr refused ↦ inl (refused, checked-refused field m (pos p) j k refused)
  ]

module _ {D : Type 0} ⦃d : Double D⦄ where
  -- No module of the list covers `x`.
  abbrev pub NoneCovers : D → List (GeoInfo D) → Type 0
  NoneCovers x gs = (n : ℕ) (g : GeoInfo D) → get_elem? gs n ≡ some g → covers x g ≡ false

  -- Module `n` of the list is the last one that covers `x`.
  pub record IsLast (x : D) (gs : List (GeoInfo D)) (n : ℕ) : Type 0 where
    pub geo : GeoInfo D
    pub is_at : get_elem? gs n ≡ some geo
    pub covered : covers x geo ≡ true
    pub later : (n' : ℕ) (g' : GeoInfo D) → n < n' → get_elem? gs n' ≡ some g' → covers x g' ≡ false

  NoneCovers-cons :
      (x : D) (g : GeoInfo D) (rest : List (GeoInfo D))
      → covers x g ≡ false
      → NoneCovers x rest
      → NoneCovers x (g ∷ rest)
  NoneCovers-cons x g rest c h zero g' e = ap (covers x) (sym (some-injective _ _ e)) ∙ c
  NoneCovers-cons x g rest c h (suc n) g' e = h n g' e

  IsLast-head :
      (x : D) (g : GeoInfo D) (rest : List (GeoInfo D))
      → covers x g ≡ true
      → NoneCovers x rest
      → IsLast x (g ∷ rest) 0
  IsLast-head x g rest c h = record { geo = g; is_at = refl; covered = c; later = later }
    where
      later :
          (n' : ℕ) (g' : GeoInfo D)
          → 0 < n'
          → get_elem? (g ∷ rest) n' ≡ some g'
          → covers x g' ≡ false
      later zero g' lt e = absurd (omega arith)
      later (suc n') g' lt e = h n' g' e

  IsLast-tail :
      (x : D) (g : GeoInfo D) (rest : List (GeoInfo D)) (n : ℕ)
      → IsLast x rest n
      → IsLast x (g ∷ rest) (suc n)
  IsLast-tail x g rest n l = record {
    geo = l.geo;
    is_at = l.is_at;
    covered = l.covered;
    later = later;
  }
    where
      later :
          (n' : ℕ) (g' : GeoInfo D)
          → suc n < n'
          → get_elem? (g ∷ rest) n' ≡ some g'
          → covers x g' ≡ false
      later zero g' lt e = absurd (omega arith)
      later (suc n') g' lt e = l.later n' g' (omega arith) e

  scan_modules-IsLast :
      (x : D) (gs : List (GeoInfo D)) (k : ℕ) (module_ : ℤ)
      → (NoneCovers x gs × (scan_modules x gs k module_ ≡ module_))
        ⊎ ((n : ℕ) × IsLast x gs n × (scan_modules x gs k module_ ≡ pos (k + n)))
  unfolding scan_modules
  scan_modules-IsLast x [] k module_ = inl (λ n g e. cc, refl)
  scan_modules-IsLast x (g ∷ rest) k module_ =
      elim (scan_modules-IsLast x rest (k + 1) (if covers x g then pos k else module_)) [
        | inl (none_later, e) ↦ elim (Bool-cases (covers x g)) [
          | inl c ↦ inr (
            0,
            IsLast-head x g rest c none_later,
            e ∙ if-eq-true _ _ c ∙ ap pos (sym (add_zero k)),
          )
          | inr c ↦ inl (NoneCovers-cons x g rest c none_later, e ∙ if-eq-false _ _ c)
        ]
        | inr (n, l, e) ↦
            let shift : k + suc n ≡ k + 1 + n = omega arith in
            inr (suc n, IsLast-tail x g rest n l, rw shift e)
      ]

  -- For a chamber number with modules, GetModuleIDFromPos returns -1 if no module of the plane covers
  -- `x`, and otherwise the number of the last module that does.
  pub get_module_id_from_pos_lem :
      (m : Manager D) (iplane : ℤ) (x : D)
      → IsIndex m iplane (pos 0)
      → let gs = m.pm_geo_info (pos_part iplane) in
        (NoneCovers x gs × (get_module_id_from_pos m iplane x ≡ negsuc 0))
        ⊎ ((n : ℕ) × IsLast x gs n × (get_module_id_from_pos m iplane x ≡ pos (0 + n)))
  unfolding get_module_id_from_pos
  get_module_id_from_pos_lem m iplane x v =
      rw ((check_index_iff m iplane (pos 0) (pos 0)).1 v)
        (scan_modules-IsLast x (m.pm_geo_info (pos_part iplane)) 0 (negsuc 0))

  if-same : {v : Option D} (b : Bool) → (if b then v else v) ≡ v
  if-same true = refl
  if-same false = refl

  checked-axis :
      (field : GeoInfo D → D) (m : Manager D) (i j k k' : ℤ)
      → checked field m i j k ≡ checked field m i j k'
  unfolding checked check_index
  checked-axis field m i j k k' = refl

  -- GetStripAngle gives the angle of the first readout axis for every axis: at one index it does not
  -- depend on `k`.
  pub get_strip_angle_const :
      (m : Manager D) (i j k k' : ℤ) → get_strip_angle m i j k ≡ get_strip_angle m i j k'
  unfolding get_strip_angle
  get_strip_angle_const m i j k k' =
      if-same (k is 0) ∙ checked-axis (λ g. g.stripangle_u) m i j k k' ∙ sym (if-same (k' is 0))
