-- ===== src/Examples/Tables.antt =====
-- A database file of three lines, and an optics file of two terms.
use libsolgem.Base.{
  ℕ, ℤ, pos, ◌≡◌, refl, inl, inr, true, false, List, [], ◌∷◌, Option, none, some, arith,
}
use libsolgem.Double.{whole_double}
use libsolgem.Database.Keys.{
  path_in, try_paths, open_input, strip_prefix, is_separator, skip_separators, find_key,
}
use libsolgem.Database.Keys.Lines.{IsOther, find_key_round_trip}
use libsolgem.Database.Optics.{
  Term, term_value, push_term, push_terms, load_optics, get_optics_coeff,
}
use libsolgem.Database.Optics.Stream.{
  TextStream, read_term, read_count, load_optics_file, held, read_row, after_doubles, after_ints,
  get_optics_coeff-load_optics_file,
}
use libsolgem.Examples.Data.{manager, modules}

-- A stream of the numbers of each line. The next line is the next one that is not blank.
abbrev Lines : Type 0
Lines = List (List ℤ)

unfoldable extract : Lines → Option ℤ × Lines
extract [] = (none, [])
extract ([] ∷ ls) = extract ls
extract ((v ∷ vs) ∷ ls) = (some v, vs ∷ ls)

unfoldable rest_of : Lines → Lines
rest_of [] = []
rest_of ([] ∷ ls) = rest_of ls
rest_of ((v ∷ vs) ∷ ls) = ls

methods : Unit {0}
unfolding path_in try_paths open_input strip_prefix is_separator skip_separators find_key term_value
    push_term push_terms load_optics get_optics_coeff whole_double read_term read_count held
    read_row after_doubles after_ints extract rest_of
methods = tt

-- "z0"
abbrev key : List ℕ
key = b'z' ∷ b'0' ∷ []

abbrev comment : List ℕ
comment = b'#' ∷ b'z' ∷ []

-- "z0 = 7"
abbrev line : List ℕ
line = b'z' ∷ b'0' ∷ b' ' ∷ b'=' ∷ b' ' ∷ b'7' ∷ []

runs :
    (find_key (comment ∷ key ∷ line ∷ []) key ≡ b'7' ∷ [])
    × (find_key (comment ∷ []) key ≡ [])
    × (open_input (λ path. false) none (some key) key ≡ none)
    × (open_input (λ path. true) none none key ≡ some key)
unfolding methods
runs = (refl, refl, refl, refl)

comment-IsOther : IsOther key comment
unfolding methods
comment-IsOther = inl refl

key-IsOther : IsOther key key
unfolding methods
key-IsOther = inr refl

find_key_round_trip_example : find_key (comment ∷ key ∷ line ∷ comment ∷ []) key ≡ b'7' ∷ []
unfolding methods
find_key_round_trip_example =
    find_key_round_trip (comment ∷ key ∷ []) (comment ∷ []) key (b' ' ∷ b'=' ∷ b' ' ∷ []) b'7' []
      (comment-IsOther, (key-IsOther, tt)) (refl, (refl, (refl, tt))) refl

abbrev term : ℤ → Term ℤ
term c = record {
  cxfp = c;
  cyfp = pos 2;
  cxpfp = pos 3;
  cypfp = pos 4;
  i = pos 0;
  j = pos 1;
  k = pos 2;
  l = pos 0;
  m = pos 9;
}

abbrev row_of : ℤ → List ℤ
row_of c = c ∷ pos 2 ∷ pos 3 ∷ pos 4 ∷ pos 9 ∷ pos 0 ∷ pos 2 ∷ pos 1 ∷ pos 0 ∷ []

abbrev text : TextStream Lines ℤ
text = record {
  open_text = λ name.
      row_of (pos 0)
      ∷ (pos 2 ∷ [])
      ∷ row_of (pos 0)
      ∷ row_of (pos 0)
      ∷ row_of (pos 0)
      ∷ row_of (pos 1)
      ∷ row_of (pos 6)
      ∷ [];
  next_line = rest_of;
  extract_int = extract;
  extract_double = extract;
}

get_optics_coeff-load_optics_file_example :
    let m = load_optics_file text (term (pos 0)) (manager modules) in
    (m.n_optics_terms ≡ pos 2) × (get_optics_coeff m 8 1 ≡ pos 9)
unfolding methods
get_optics_coeff-load_optics_file_example =
    get_optics_coeff-load_optics_file text (term (pos 0)) (manager modules) 8 1 (omega arith)
