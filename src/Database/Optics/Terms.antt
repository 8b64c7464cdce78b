-- ===== src/Database/Optics/Terms.antt =====
-- The coefficients that are read back are those of the file.
use libsolgem.Base.{
  ℕ, zero, suc, ◌<◌, ◌≡◌, refl, ap, sym, ◌∙◌, List, [], ◌∷◌, ◌++◌, map, get_elem?, none, some, ltb,
  if◌then◌else◌, ◌^◌, arith,
}
use mathlib.Core.List.{append-nil, append_assoc}
use libsolgem.Double.{Double, of_ℕ}
use libsolgem.Database.{Manager}
use libsolgem.Database.Optics.{
  Term, term_value, push_term, push_terms, load_optics, get_optics_coeff,
}

get_elem?-map {ℓ κ} :
    {A : Type ℓ} {B : Type κ} (f : A → B) (xs : List A) (j : ℕ) (x : A)
    → get_elem? xs j ≡ some x
    → get_elem? (map f xs) j ≡ some (f x)
get_elem?-map f [] j x e = cc
get_elem?-map f (y ∷ xs) zero x e = ap (λ o. elim o [ none ↦ none | some a ↦ some (f a) ]) e
get_elem?-map f (y ∷ xs) (suc j) x e = get_elem?-map f xs j x e

get_elem?-map_past {ℓ κ} :
    {A : Type ℓ} {B : Type κ} (f : A → B) (xs : List A) (j : ℕ)
    → get_elem? xs j ≡ none
    → get_elem? (map f xs) j ≡ none
get_elem?-map_past f [] j e = refl
get_elem?-map_past f (y ∷ xs) zero e = ap (λ o. elim o [ none ↦ none | some a ↦ some (f a) ]) e
get_elem?-map_past f (y ∷ xs) (suc j) e = get_elem?-map_past f xs j e

module _ {D : Type 0} ⦃d : Double D⦄ where
  push_term-row :
      (t : Term D) (coeff : ℕ → List D) (row : ℕ)
      → row < 9
      → push_term t coeff row ≡ coeff row ++ term_value row t ∷ []
  unfolding push_term
  push_term-row t coeff row h = ground arith

  push_terms-row :
      (terms : List (Term D)) (coeff : ℕ → List D) (row : ℕ)
      → row < 9
      → push_terms terms coeff row ≡ coeff row ++ map (term_value row) terms
  unfolding push_terms
  push_terms-row [] coeff row h = sym (append-nil (coeff row))
  push_terms-row (t ∷ ts) coeff row h =
      push_terms-row ts (push_term t coeff) row h
      ∙ ap (λ (xs : List D). xs ++ map (term_value row) ts) (push_term-row t coeff row h)
      ∙ append_assoc (coeff row) (term_value row t ∷ []) (map (term_value row) ts)

  -- After LoadOptics, whatever was loaded before, GetOpticsCoeff gives the value of row `row` (below 9)
  -- of the j-th term of the file, for every term.
  pub get_optics_coeff-load_optics :
      (terms : List (Term D)) (m : Manager D) (row j : ℕ) (t : Term D)
      → row < 9
      → get_elem? terms j ≡ some t
      → get_optics_coeff (load_optics terms m) row j ≡ term_value row t
  unfolding get_optics_coeff load_optics
  get_optics_coeff-load_optics terms m row j t h at =
      let start = λ (r : ℕ). if ltb r 9 then [] else m.optics_coeff r in
      let empty : start row ≡ [] = ground arith in
      rw (push_terms-row terms start row h, empty, get_elem?-map (term_value row) terms j t at) refl

  -- Past the terms of the file it gives 1e38.
  pub get_optics_coeff-load_optics_past :
      (terms : List (Term D)) (m : Manager D) (row j : ℕ)
      → row < 9
      → get_elem? terms j ≡ none
      → get_optics_coeff (load_optics terms m) row j ≡ of_ℕ (10 ^ 38)
  unfolding get_optics_coeff load_optics
  get_optics_coeff-load_optics_past terms m row j h at =
      let start = λ (r : ℕ). if ltb r 9 then [] else m.optics_coeff r in
      let empty : start row ≡ [] = ground arith in
      rw (push_terms-row terms start row h, empty, get_elem?-map_past (term_value row) terms j at)
        refl
