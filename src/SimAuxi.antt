-- ===== src/SimAuxi.antt =====
-- src/TSBSSimAuxi.{h,cxx}: the conversion to ADC counts, the pulse shapes and the charge profiles. A
-- parameter array is a function of the index; `par + n` is the array from its n-th entry.
pub mod Saturation
use libsolgem.Base.{ℕ, zero, suc, ◌+◌, ◌-◌, ◌*◌, ◌%◌, ◌^◌, ℤ, pos, negsuc, ltb, ◌&&◌, if◌then◌else◌}
use libsolgem.Base.Int.{pos_part}
use libsolgem.Double.{Double, ◌⊕◌, ◌⊖◌, ◌⊗◌, ◌⊘◌, ◌≺◌, of_ℕ, trunc}

-- `1 << bits` less 1; `bits` is at most MAX_ADCBITS, 15.
abbrev pub saturation : ℕ → ℕ
saturation bits = 2 ^ bits - 1

abbrev pub max_adc_bits : ℕ
max_adc_bits = 15

-- The Short_t of 16 bits.
abbrev pub short_of : ℕ → ℤ
short_of w = if ltb w (2 ^ 15) then pos w else negsuc (2 ^ 16 - 1 - w)

-- static_cast<Short_t> of a whole number keeps its low 16 bits, as compilers do where the standard
-- leaves the conversion of a number out of range open.
unfoldable pub to_short : ℤ → ℤ
to_short (pos n) = short_of (n % 2 ^ 16)
to_short (negsuc n) = short_of (2 ^ 16 - 1 - n % 2 ^ 16)

module _ {D : Type 0} ⦃d : Double D⦄ where
  -- ADCConvert. What it returns is not negative.
  unfoldable pub adc_convert : D → D → D → ℕ → ℕ
  adc_convert val off gain bits =
      let val' = if val ≺ of_ℕ 0 then of_ℕ 0 else val in
      let vvv = (val' ⊖ off) ⊘ gain in
      let sat = of_ℕ (saturation bits) in
      let vvv' = if sat ≺ vvv then sat else vvv in
      pos_part (to_short (trunc (d.floor (if sat ≺ vvv' then sat else vvv'))))

  -- `( v>0. ) ? v : 0.`
  abbrev pub positive : D → D
  positive v = if of_ℕ 0 ≺ v then v else of_ℕ 0

  -- PulseShape with one time constant.
  unfoldable pub pulse_shape_sid : D → D → D → D
  pulse_shape_sid t c tp = let x = t ⊘ tp in positive (c ⊘ tp ⊗ x ⊗ d.exp (d.neg x))

  -- PulseShape with two time constants.
  unfoldable pub pulse_shape : D → D → D → D → D
  unfolding pulse_shape_sid
  pulse_shape t a tau0 tau1 =
      let x0 = d.neg t ⊘ tau0 in
      let x1 = d.neg t ⊘ tau1 in
      if tau1 ≺ of_ℕ 0
      then pulse_shape_sid t a tau0
      else positive (a ⊗ ((tau0 ⊕ tau1) ⊘ tau1 ⊘ tau1) ⊗ (of_ℕ 1 ⊖ d.exp x0) ⊗ d.exp x1)

  unfoldable pub gaus_2d : (x par : ℕ → D) → D
  gaus_2d x par =
      let rx = (x 0 ⊖ par 1) ⊘ par 2 in
      let ry = (x 1 ⊖ par 3) ⊘ par 4 in
      if (of_ℕ 0 ≺ par 2) && (of_ℕ 0 ≺ par 4)
      then par 0 ⊗ d.exp (d.neg (rx ⊗ rx ⊕ ry ⊗ ry) ⊘ of_ℕ 2)
      else of_ℕ 0

  unfoldable pub simple_circle : (x par : ℕ → D) → D
  simple_circle x par =
      let dx = x 0 ⊖ par 1 in
      let dy = x 1 ⊖ par 2 in if dx ⊗ dx ⊕ dy ⊗ dy ≺ par 3 ⊗ par 3 then par 0 else of_ℕ 0

  -- The loop of MultiGaus2D and MultiCircle over terms of `width` parameters, from term `i` with
  -- `left` to go.
  unfoldable pub sum_terms : ((x par : ℕ → D) → D) → ℕ → (x par : ℕ → D) → ℕ → ℕ → D → D
  sum_terms term width x par zero i f = f
  sum_terms term width x par (suc left) i f =
      sum_terms term width x par left (i + 1) (f ⊕ term x (λ k. par (width * i + 1 + k)))

  unfoldable pub multi_gaus_2d : (x par : ℕ → D) → D
  multi_gaus_2d x par = sum_terms gaus_2d 5 x par (pos_part (trunc (par 0))) 0 (of_ℕ 0)

  unfoldable pub multi_circle : (x par : ℕ → D) → D
  multi_circle x par = sum_terms simple_circle 4 x par (pos_part (trunc (par 0))) 0 (of_ℕ 0)
