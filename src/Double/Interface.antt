-- ===== src/Double/Interface.antt =====
-- The operations of `double` as a record, and operators for its fields.
use libsolgem.Base.{ℕ, ℤ, pos, Bool, if◌then◌else◌}

pub record Double (D : Type 0) : Type 0 where
  pub add : D → D → D
  pub sub : D → D → D
  pub mul : D → D → D
  pub div : D → D → D
  pub neg : D → D
  pub lt : D → D → Bool
  pub le : D → D → Bool
  pub integer : ℤ → D
  pub decimal_ : ℤ → ℕ → D
  pub truncate : D → ℤ
  pub floor : D → D
  pub ceil : D → D
  pub round : D → D
  pub abs : D → D
  pub sqrt : D → D
  pub exp : D → D
  pub cos : D → D
  pub sin : D → D
  pub atan : D → D

module _ {D : Type 0} ⦃d : Double D⦄ where
  infixl 65 ◌⊕◌ ◌⊖◌
  infixl 70 ◌⊗◌ ◌⊘◌
  infix 50 ◌≺◌ ◌≼◌
  abbrev pub ◌⊕◌ : D → D → D
  ◌⊕◌ = d.add

  abbrev pub ◌⊖◌ : D → D → D
  ◌⊖◌ = d.sub

  abbrev pub ◌⊗◌ : D → D → D
  ◌⊗◌ = d.mul

  abbrev pub ◌⊘◌ : D → D → D
  ◌⊘◌ = d.div

  abbrev pub ◌≺◌ : D → D → Bool
  ◌≺◌ = d.lt

  abbrev pub ◌≼◌ : D → D → Bool
  ◌≼◌ = d.le

  abbrev pub of_ℤ : ℤ → D
  of_ℤ = d.integer

  abbrev pub of_ℕ : ℕ → D
  of_ℕ n = d.integer (pos n)

  abbrev pub decimal : ℤ → ℕ → D
  decimal = d.decimal_

  abbrev pub trunc : D → ℤ
  trunc = d.truncate

  -- `a < b ? a : b`, and TMath::Max.
  abbrev pub lesser : D → D → D
  lesser a b = if a ≺ b then a else b

  abbrev pub greater : D → D → D
  greater a b = if b ≼ a then a else b
