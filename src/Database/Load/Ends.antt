-- ===== src/Database/Load/Ends.antt =====
-- LoadDB returns: the loop that reads a list of numbers has fuel enough.
use libsolgem.Base.{
  ℕ, zero, suc, ◌+◌, ◌<◌, ◌≤◌, ℤ, ◌≡◌, refl, ◌⊎◌, inl, inr, true, false, Bool-cases, some, List, [],
  ◌∷◌, ◌++◌, length, ◌==◌, arith,
}
use mathlib.Core.Bool.{true≢false}
use libsolgem.Database.Keys.{find_key}
use libsolgem.Database.Load.{
  Streams, Target, k_double, k_int, k_int_v, k_string, DbRequest, read_ints, convert, load_db,
}

-- What the code relies on in std::istringstream: a stream has as much to read as its string, and a
-- number that is read from a good stream leaves less, or a stream that is not good.
pub record StreamLaws {S D : Type 0} (io : Streams S D) : Type 0 where
  pub left : S → ℕ
  pub whole : (val : List ℕ) → left (io.stream val) ≤ length val
  pub less :
      (s : S)
      → io.good s ≡ true
      → left (io.read_int s).1 < left s ⊎ io.good (io.read_int s).1 ≡ false

module _ {S D : Type 0} (io : Streams S D) (laws : StreamLaws io) {M : Type 0} where
  read_ints_total :
      (push : ℤ → M → M) (fuel : ℕ) (s : S) (m : M)
      → (laws.left s + 1 < fuel) ⊎ (io.good s ≡ false) × (0 < fuel)
      → (m' : M) × (s' : S) × (read_ints io push fuel s m ≡ some (m', s'))
  unfolding read_ints
  read_ints_total push zero s m enough = absurd (ground arith)
  read_ints_total push (suc fuel) s m enough = elim (Bool-cases (io.good s)) [
    | inr over ↦ (m, s, rw over refl)
    | inl more ↦
        rw more (
          read_ints_total push fuel (io.read_int s).1 (push (io.read_int s).0 m)
            (later more enough))
  ]
    where
      later :
          io.good s ≡ true
          → (laws.left s + 1 < suc fuel) ⊎ (io.good s ≡ false) × (0 < suc fuel)
          → (laws.left (io.read_int s).1 + 1 < fuel)
            ⊎ (io.good (io.read_int s).1 ≡ false) × (0 < fuel)
      later more (inr (over, _)) = absurd (true≢false (cc))
      later more (inl lt) = elim (laws.less s more) [
        | inl fewer ↦ inl (omega (arith, fewer, lt))
        | inr over ↦ inr (over, omega (arith, lt))
      ]

  convert_total :
      (t : Target D M) (val : List ℕ) (m : M)
      → (m' : M) × (s : S) × (convert io t val m ≡ some (m', s))
  unfolding convert
  convert_total (k_double store) val m = (_, _, refl)
  convert_total (k_int store) val m = (_, _, refl)
  convert_total (k_int_v push) val m =
      read_ints_total push (length val + 2) (io.stream val) m (inl (omega (arith, laws.whole val)))
  convert_total (k_string store) val m = (_, _, refl)

  -- LoadDB returns for every file and every list of requests.
  pub load_db_total :
      (lines : List (List ℕ)) (prefix : List ℕ) (rs : List (DbRequest D M)) (m : M)
      → (m' : M) × (err : ℕ) × (load_db io lines prefix rs m ≡ some (m', err)) × (err ≤ 2)
  unfolding load_db
  load_db_total lines prefix [] m = (m, 0, refl, omega arith)
  load_db_total lines prefix (r ∷ rs) m =
      let val = find_key lines (prefix ++ r.name) in
      let (x, s, stored) = convert_total r.var val m in
      elim (Bool-cases (length val == 0)) [
        | inl missing ↦ (m, 2, rw missing refl, omega arith)
        | inr there ↦ elim (Bool-cases (io.fails s)) [
          | inl failed ↦ (x, 1, rw (there, stored, failed) refl, omega arith)
          | inr fine ↦ rw (there, stored, fine) (load_db_total lines prefix rs x)
        ]
      ]
