-- ===== src/Database/Load.antt =====
-- LoadDB of src/TSBSDBManager.cxx. A request's variable is the function that stores what is read. The
-- stream of a value is a parameter.
pub mod Requests
pub mod General
pub mod Geometry
pub mod Kept
pub mod Fresh
pub mod Ends
pub mod Counted
pub mod Loaded
use libsolgem.Base.{
  ◌>>=◌, ℕ, zero, suc, ◌+◌, ℤ, Bool, Option, none, some, List, [], ◌∷◌, ◌++◌, length, ◌==◌,
  if◌then◌else◌,
}
use libsolgem.Database.Keys.{find_key}

-- std::istringstream: `good` is good(), `fails` is operator!.
pub record Streams (S D : Type 0) : Type 0 where
  pub stream : List ℕ → S
  pub good : S → Bool
  pub fails : S → Bool
  pub read_int : S → ℤ × S
  pub read_double : S → D × S
  pub read_string : S → List ℕ × S

-- The type and the variable of a request, in a state `M`.
pub data Target (D M : Type 0) : Type 0 where
  k_double : (D → M → M) → Target D M
  k_int : (ℤ → M → M) → Target D M
  k_int_v : (ℤ → M → M) → Target D M
  k_string : (List ℕ → M → M) → Target D M

pub record DbRequest (D M : Type 0) : Type 0 where
  pub name : List ℕ
  pub var : Target D M

module _ {S D : Type 0} (io : Streams S D) {M : Type 0} where
  -- The loop for kIntV; `none` is the end of the fuel.
  unfoldable pub read_ints : (ℤ → M → M) → ℕ → S → M → Option (M × S)
  read_ints push zero s m = none
  read_ints push (suc fuel) s m =
      let (v, s') = io.read_int s in
      let later = read_ints push fuel s' (push v m) in if io.good s then later else some (m, s)

  unfoldable pub convert : Target D M → List ℕ → M → Option (M × S)
  unfolding read_ints
  convert (k_double store) val m =
      let (v, s) = io.read_double (io.stream val) in some (store v m, s)
  convert (k_int store) val m = let (v, s) = io.read_int (io.stream val) in some (store v m, s)
  convert (k_int_v push) val m = read_ints push (length val + 2) (io.stream val) m
  convert (k_string store) val m =
      let (v, s) = io.read_string (io.stream val) in some (store v m, s)

  -- LoadDB: the state and the error code.
  unfoldable pub load_db : List (List ℕ) → List ℕ → List (DbRequest D M) → M → Option (M × ℕ)
  unfolding convert
  load_db lines prefix [] m = some (m, 0)
  load_db lines prefix (r ∷ rest) m =
      let val = find_key lines (prefix ++ r.name) in
      if length val == 0
      then some (m, 2)
      else convert r.var val m >>= λ (m', s).
          if io.fails s then some (m', 1) else load_db lines prefix rest m'

  -- A call of LoadDB whose error ends the program.
  unfoldable pub load_or_exit : List (List ℕ) → List ℕ → List (DbRequest D M) → M → Option M
  load_or_exit lines prefix requests m =
      load_db lines prefix requests m >>= λ (m', err). if err == 0 then some m' else none
