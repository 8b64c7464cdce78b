-- ===== src/SimAuxi/Saturation.antt =====
-- ADCConvert saturates at its resolution.
use libsolgem.Base.{
  ℕ, ◌≤◌, ◌-◌, ◌^◌, ℤ, pos, negsuc, ◌≡◌, true, false, inl, inr, Bool-cases, arith, if◌then◌else◌,
}
use native.Mathlib.Nat.{pow-le-pow_right}
use libsolgem.Base.Int.{◌≤ℤ◌, pos_part}
use libsolgem.Double.{Double, ◌⊖◌, ◌⊘◌, ◌≺◌, ◌≼◌, of_ℤ, of_ℕ, trunc}
use libsolgem.SimAuxi.{saturation, to_short, adc_convert}

-- -2^15
abbrev pub least_short : ℤ
least_short = negsuc 32767

-- What IEEE 754 says of the numbers between -2^15 and 2^15 and the whole numbers there, which are all
-- doubles: they are ordered as the whole numbers are, a number that is not above one is no more than it,
-- and floor, with the conversion to a whole number, stays between the whole numbers around a number.
pub record FloorLaws (D : Type 0) ⦃d : Double D⦄ : Type 0 where
  pub total :
      (x : D) (n : ℕ) → n ≤ 2 ^ 15 → (x ≼ x) ≡ true → (of_ℕ n ≺ x) ≡ false → (x ≼ of_ℕ n) ≡ true
  pub order :
      (m n : ℤ)
      → least_short ≤ℤ m
      → m ≤ℤ n
      → n ≤ℤ pos (2 ^ 15)
      → let w : D = of_ℤ n in (of_ℤ m ≼ w) ≡ true
  pub floor_le :
      (x : D) (m n : ℤ)
      → least_short ≤ℤ m
      → n ≤ℤ pos (2 ^ 15)
      → (of_ℤ m ≼ x) ≡ true
      → (x ≼ of_ℤ n) ≡ true
      → (m ≤ℤ trunc (d.floor x)) × (trunc (d.floor x) ≤ℤ n)

to_short-same : (z : ℤ) → least_short ≤ℤ z → z ≤ℤ pos 32767 → to_short z ≡ z
unfolding to_short
to_short-same (pos n) low high = ground arith
to_short-same (negsuc n) low high = ground arith

pos_part_le : (z : ℤ) (n : ℕ) → z ≤ℤ pos n → pos_part z ≤ n
pos_part_le (pos m) n h = omega arith
pos_part_le (negsuc m) n h = omega arith

saturation_le : (bits : ℕ) → bits ≤ 15 → saturation bits ≤ 32767
saturation_le bits few =
    let h : 2 ^ bits ≤ 2 ^ 15 = pow-le-pow_right {n = 2} (omega arith) few in omega (arith, h)

module _ {D : Type 0} ⦃d : Double D⦄ where
  -- A quotient that is cut at the saturation is between the least Short_t and the saturation.
  cut_between :
      FloorLaws D
      → (v : D) (n : ℕ) → n ≤ 32767
      → (of_ℤ least_short ≼ v) ≡ true
      → (v ≼ v) ≡ true
      → let w : D = if of_ℕ n ≺ v then of_ℕ n else v in
        ((of_ℤ least_short ≼ w) ≡ true) × ((w ≼ of_ℕ n) ≡ true) × ((w ≼ w) ≡ true)
  cut_between laws v n small low number = elim (Bool-cases (of_ℕ n ≺ v)) [
    | inl over ↦ rw over (
      laws.order least_short (pos n) (ground arith) (ground arith) (ground arith),
      laws.order (pos n) (pos n) (ground arith) (ground arith) (ground arith),
      laws.order (pos n) (pos n) (ground arith) (ground arith) (ground arith),
    )
    | inr under ↦ rw under (low, laws.total v n (omega arith) number under, number)
  ]

  -- Under the laws of IEEE 754 on the conversions of small numbers, ADCConvert returns a reading of its
  -- resolution, no more than 2 ^ bits - 1, for at most 15 bits, whatever the value, the offset and the
  -- gain, if their quotient is a number and not below the least Short_t. A value below the offset and
  -- one above the range are thus cut, and no reading wraps around.
  pub adc_convert_le :
      (val off gain : D) (bits : ℕ)
      → FloorLaws D
      → bits ≤ 15
      → (let q = ((if val ≺ of_ℕ 0 then of_ℕ 0 else val) ⊖ off) ⊘ gain in
          ((q ≼ q) ≡ true) × ((of_ℤ least_short ≼ q) ≡ true))
      → adc_convert val off gain bits ≤ 2 ^ bits - 1
  unfolding adc_convert
  adc_convert_le val off gain bits laws few (number, low) =
      let vvv = ((if val ≺ of_ℕ 0 then of_ℕ 0 else val) ⊖ off) ⊘ gain in
      let n = saturation bits in
      let small = saturation_le bits few in
      let v = if of_ℕ n ≺ vvv then of_ℕ n else vvv in
      let w = if of_ℕ n ≺ v then of_ℕ n else v in
      let (low', high', number') = cut_between laws vvv n small low number in
      let (low2, high2, _) = cut_between laws v n small low' number' in
      let (above, below) =
        laws.floor_le w least_short (pos n) (ground arith) (omega arith) low2 high2 in
      let same = to_short-same (trunc (d.floor w)) above (ground arith) in
      rw same (pos_part_le _ n below)
