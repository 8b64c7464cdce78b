-- ===== src/Database/Load/Kept.antt =====
-- What LoadDB leaves as it was.
use libsolgem.Base.{
  >>=-eq-some, ℕ, zero, suc, ◌+◌, ℤ, ◌≡◌, ap, inl, inr, Bool-cases, Option, some, none_ne_some,
  List, [], ◌∷◌, ◌++◌, All, length, ◌==◌,
}
use mathlib.Core.Path.{subst}
use mathlib.Core.Option.{some-injective}
use libsolgem.Database.Keys.{find_key}
use libsolgem.Database.Load.{
  Streams, Target, k_double, k_int, k_int_v, k_string, DbRequest, read_ints, convert, load_db,
  load_or_exit,
}

-- Storing a value keeps `P`.
abbrev pub Keeps : {D M : Type 0} → (M → Type 0) → Target D M → Type 0
Keeps {D = D} {M = M} P (k_double store) = (v : D) (m : M) → P m → P (store v m)
Keeps {M = M} P (k_int store) = (v : ℤ) (m : M) → P m → P (store v m)
Keeps {M = M} P (k_int_v push) = (v : ℤ) (m : M) → P m → P (push v m)
Keeps {M = M} P (k_string store) = (v : List ℕ) (m : M) → P m → P (store v m)

module _ {S D : Type 0} (io : Streams S D) {M : Type 0} (P : M → Type 0) where
  kept :
      {A : Type 0} (m m' : M) (a a' : A)
      → ◌≡◌ {A = Option (M × A)} (some (m, a)) (some (m', a'))
      → P m
      → P m'
  kept m m' a a' e p = subst P (ap (λ x. x.0) (some-injective _ _ e)) p

  read_ints-Keeps :
      (push : ℤ → M → M)
      → ((v : ℤ) (m : M) → P m → P (push v m))
      → (fuel : ℕ) (s s' : S) (m m' : M) → read_ints io push fuel s m ≡ some (m', s')
      → P m
      → P m'
  unfolding read_ints
  read_ints-Keeps push keep zero s s' m m' e p = absurd (none_ne_some e)
  read_ints-Keeps push keep (suc fuel) s s' m m' e p = elim (Bool-cases (io.good s)) [
    | inl more ↦
        read_ints-Keeps push keep fuel (io.read_int s).1 s' (push (io.read_int s).0 m) m'
          (rw more at e) (keep (io.read_int s).0 m p)
    | inr over ↦ kept m m' s s' (rw over at e) p
  ]

  convert-Keeps :
      (t : Target D M) (val : List ℕ) (m m' : M) (s : S)
      → Keeps P t
      → convert io t val m ≡ some (m', s)
      → P m
      → P m'
  unfolding convert
  convert-Keeps (k_double store) val m m' s keep e p = kept _ m' _ s e (keep _ m p)
  convert-Keeps (k_int store) val m m' s keep e p = kept _ m' _ s e (keep _ m p)
  convert-Keeps (k_int_v push) val m m' s keep e p =
      read_ints-Keeps push keep (length val + 2) (io.stream val) s m m' e p
  convert-Keeps (k_string store) val m m' s keep e p = kept _ m' _ s e (keep _ m p)

  load_db-Keeps :
      (lines : List (List ℕ)) (prefix : List ℕ) (rs : List (DbRequest D M)) (m m' : M) (err : ℕ)
      → All (λ (r : DbRequest D M). Keeps P r.var) rs
      → load_db io lines prefix rs m ≡ some (m', err)
      → P m
      → P m'
  unfolding load_db
  load_db-Keeps lines prefix [] m m' err keep e p = kept m m' 0 err e p
  load_db-Keeps lines prefix (r ∷ rs) m m' err (k, keep) e p =
      elim (Bool-cases (length (find_key lines (prefix ++ r.name)) == 0)) [
        | inl missing ↦ kept m m' 2 err (rw missing at e) p
        | inr there ↦
            let (x, stored, later) =
              >>=-eq-some (convert io r.var (find_key lines (prefix ++ r.name)) m) _
                (rw there at e) in
            let q = convert-Keeps r.var (find_key lines (prefix ++ r.name)) m x.0 x.1 k stored p in
            elim (Bool-cases (io.fails x.1)) [
              | inl failed ↦ kept x.0 m' 1 err (rw failed at later) q
              | inr good ↦ load_db-Keeps lines prefix rs x.0 m' err keep (rw good at later) q
            ]
      ]

  pub load_or_exit-Keeps :
      (lines : List (List ℕ)) (prefix : List ℕ) (rs : List (DbRequest D M)) (m m' : M)
      → All (λ (r : DbRequest D M). Keeps P r.var) rs
      → load_or_exit io lines prefix rs m ≡ some m'
      → P m
      → P m'
  unfolding load_or_exit
  load_or_exit-Keeps lines prefix rs m m' keep e p =
      let (x, done, later) = >>=-eq-some (load_db io lines prefix rs m) _ e in
      let q = load_db-Keeps lines prefix rs m x.0 x.1 keep done p in
      elim (Bool-cases (x.1 == 0)) [
        | inl fine ↦ subst P (some-injective _ _ (rw fine at later)) q
        | inr failed ↦ absurd (none_ne_some (rw failed at later))
      ]
