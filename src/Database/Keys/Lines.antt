-- ===== src/Database/Keys/Lines.antt =====
-- Which value FindKey finds.
use libsolgem.Base.{
  ℕ, ◌≡◌, refl, ◌∙◌, ◌⊎◌, inl, inr, true, false, none, some, List, [], ◌∷◌, ◌++◌, All, arith,
}
use libsolgem.Database.Keys.{strip_prefix, is_separator, skip_separators, find_key}

-- The line is not longer than the key, or does not start with it.
abbrev pub IsOther : List ℕ → List ℕ → Type 0
IsOther key line = (strip_prefix key line ≡ none) ⊎ (strip_prefix key line ≡ some [])

strip_prefix-append : (key rest : List ℕ) → strip_prefix key (key ++ rest) ≡ some rest
unfolding strip_prefix
strip_prefix-append [] rest = refl
strip_prefix-append (k ∷ key) rest = ground (arith, strip_prefix-append key rest)

skip_separators-append :
    (sep : List ℕ) (c : ℕ) (cs : List ℕ)
    → All (λ s. is_separator s ≡ true) sep
    → is_separator c ≡ false
    → skip_separators (sep ++ c ∷ cs) ≡ c ∷ cs
unfolding skip_separators
skip_separators-append [] c cs all h = rw h refl
skip_separators-append (s ∷ sep) c cs all h = rw (all.0) (skip_separators-append sep c cs all.1 h)

find_key-cons :
    (key line : List ℕ) (rest : List (List ℕ)) (c : ℕ) (cs : List ℕ)
    → strip_prefix key line ≡ some (c ∷ cs)
    → find_key (line ∷ rest) key ≡ skip_separators (c ∷ cs)
unfolding find_key
find_key-cons key line rest c cs e = rw e refl

find_key-other :
    (key line : List ℕ) (rest : List (List ℕ))
    → IsOther key line
    → find_key (line ∷ rest) key ≡ find_key rest key
unfolding find_key
find_key-other key line rest (inl e) = rw e refl
find_key-other key line rest (inr e) = rw e refl

-- FindKey gives the value of the first line that starts with the key and is longer than it: for a
-- line made of the key, some separators and a value that does not start with a separator, behind
-- lines that do not go on after the key, it gives this value, whatever lines follow.
pub find_key_round_trip :
    (before after : List (List ℕ)) (key sep : List ℕ) (c : ℕ) (cs : List ℕ)
    → All (IsOther key) before
    → All (λ s. is_separator s ≡ true) sep
    → is_separator c ≡ false
    → find_key (before ++ (key ++ (sep ++ c ∷ cs)) ∷ after) key ≡ c ∷ cs
find_key_round_trip [] after key [] c cs others all h =
    find_key-cons key _ after c cs (strip_prefix-append key (c ∷ cs))
    ∙ skip_separators-append [] c cs all h
find_key_round_trip [] after key (s ∷ sep) c cs others all h =
    find_key-cons key _ after s (sep ++ c ∷ cs) (strip_prefix-append key (s ∷ sep ++ c ∷ cs))
    ∙ skip_separators-append (s ∷ sep) c cs all h
find_key_round_trip (line ∷ before) after key sep c cs others all h =
    find_key-other key line _ others.0
    ∙ find_key_round_trip before after key sep c cs others.1 all h

-- FindKey takes a key that only starts with the one it looks for: where the first line has a
-- longer key, `key ++ c ∷ cs`, it gives the rest of that key with what follows it on the line.
pub find_key_longer :
    (key : List ℕ) (c : ℕ) (cs line : List ℕ) (after : List (List ℕ))
    → is_separator c ≡ false
    → find_key ((key ++ (c ∷ cs ++ line)) ∷ after) key ≡ c ∷ cs ++ line
find_key_longer key c cs line after h =
    find_key-cons key _ after c (cs ++ line) (strip_prefix-append key (c ∷ cs ++ line))
    ∙ skip_separators-append [] c (cs ++ line) tt h
