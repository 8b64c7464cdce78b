-- ===== src/Database/Keys.antt =====
-- src/TSBSDBManager.cxx: OpenInput and FindKey. A string is a list of characters, a file the list of
-- its lines. Whether an ifstream opens well is a parameter.
pub mod Lines
use libsolgem.Base.{
  ℕ, zero, suc, ℤ, pos, Bool, ◌||◌, Option, none, some, List, [], ◌∷◌, ◌++◌, ◌==◌, if◌then◌else◌,
}

abbrev with_slash : List ℕ → List ℕ
with_slash [] = []
with_slash (c ∷ cs) = (c ∷ cs) ++ b'/' ∷ []

-- The path of a file in the place given by an environment variable and a subdirectory.
unfoldable pub path_in : List ℕ → List ℕ → List ℕ → List ℕ
path_in env subdir filename = with_slash env ++ with_slash subdir ++ filename

-- OpenInput: the path that is opened. `env` is the value of the variable, if it is set.
unfoldable pub try_paths :
    (List ℕ → Bool) → List ℕ → List (Option (List ℕ) × List ℕ) → Option (List ℕ)
try_paths good filename [] = none
try_paths good filename ((none, subdir) ∷ rest) = try_paths good filename rest
try_paths good filename ((some env, subdir) ∷ rest) =
    let path = path_in env subdir filename in
    let later = try_paths good filename rest in if good path then some path else later

unfoldable pub open_input :
    (List ℕ → Bool) → Option (List ℕ) → Option (List ℕ) → List ℕ → Option (List ℕ)
open_input good db_dir libsbsgem filename =
    try_paths good filename ((some [], []) ∷ (db_dir, []) ∷ (libsbsgem, b'd' ∷ b'b' ∷ []) ∷ [])

-- What follows the prefix, if the line has it.
unfoldable pub strip_prefix : List ℕ → List ℕ → Option (List ℕ)
strip_prefix [] line = some line
strip_prefix (k ∷ key) [] = none
strip_prefix (k ∷ key) (c ∷ line) =
    let rest = strip_prefix key line in if k == c then rest else none

-- One of " \t="
unfoldable pub is_separator : ℕ → Bool
is_separator c = c == b' ' || c == b'\t' || c == b'='

-- From the first character that is not a separator; empty if there is none.
unfoldable pub skip_separators : List ℕ → List ℕ
skip_separators [] = []
skip_separators (c ∷ cs) = let rest = skip_separators cs in if is_separator c then rest else c ∷ cs

abbrev value_or : Option (List ℕ) → List ℕ → List ℕ
value_or none later = later
value_or (some []) later = later
value_or (some (c ∷ cs)) later = skip_separators (c ∷ cs)

-- FindKey. A line that is no longer than the key is passed over.
unfoldable pub find_key : List (List ℕ) → List ℕ → List ℕ
unfolding strip_prefix skip_separators
find_key [] key = []
find_key (line ∷ rest) key = value_or (strip_prefix key line) (find_key rest key)
