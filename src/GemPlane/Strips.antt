-- ===== src/GemPlane/Strips.antt =====
-- The strip numbers of a plane.
use libsolgem.Base.{ℤ, pos, ◌≡◌, refl, ◌⊎◌, List, [], ◌∷◌, All, if◌then◌else◌, arith}
use libsolgem.Base.Int.{◌+ℤ◌, ◌-ℤ◌, ◌≤ℤ◌, ◌<ℤ◌, ltb_ℤ, -ℤ_parts, parts_apart}
use libsolgem.Double.{Double}
use libsolgem.Box.{Matrices}
use libsolgem.GemPlane.{
  GemPlane, get_strip_unchecked, get_strip_in_range, span, corners, number_strips,
}

span-within :
    (ss : List ℤ) (smin smax : ℤ)
    → let r = span ss smin smax in
      (r.0 ≤ℤ smin) × (smax ≤ℤ r.1) × All (λ s. (r.0 ≤ℤ s) × (s ≤ℤ r.1)) ss
unfolding span
span-within [] smin smax = ground arith
span-within (s ∷ rest) smin smax =
    let r =
      span-within rest (if ltb_ℤ s smin then s else smin) (if ltb_ℤ smax s then s else smax) in
    (ground (arith, r.0), ground (arith, r.1), ((ground (arith, r.0), ground (arith, r.1)), r.2))

module _ {D M : Type 0} ⦃d : Double D⦄ ⦃mx : Matrices D M⦄ where
  -- On a plane with strips, GetStripInRange gives a strip of the plane for every position: strip 0 if
  -- the position lies before the first strip, its own strip if it lies on one, and the last strip if
  -- it lies behind that.
  pub get_strip_in_range_bounds :
      (p : GemPlane D M) (x : D)
      → pos 0 <ℤ p.n_strips
      → let s = get_strip_unchecked p x in
        let r = get_strip_in_range p x in
        (pos 0 ≤ℤ r)
        × (r <ℤ p.n_strips)
        × (((s <ℤ pos 0) × (r ≡ pos 0))
            ⊎ (((pos 0 ≤ℤ s) × (s <ℤ p.n_strips) × (r ≡ s))
                ⊎ ((p.n_strips ≤ℤ s) × (r ≡ p.n_strips -ℤ pos 1))))
  unfolding get_strip_in_range
  get_strip_in_range_bounds p x h =
      ground (arith, -ℤ_parts p.n_strips (pos 1), parts_apart p.n_strips)

  -- The strips from `smin` to `smax` are all the strips of the plane and hold the given ones.
  pub record Spans (p : GemPlane D M) (ss : List ℤ) (smin smax : ℤ) : Type 0 where
    pub number : p.n_strips ≡ smax -ℤ smin +ℤ pos 1
    pub within : All (λ s. (smin ≤ℤ s) × (s ≤ℤ smax)) ss
    pub zero_within : pos 0 ≤ℤ smax

  -- ReadGeometry gives the plane as many strips as there are from the lowest to the highest of a
  -- range that holds the strip numbers of all four corners; the upper end of the range is not
  -- negative, even where all the corners' numbers are.
  pub number_strips-Spans :
      (p : GemPlane D M) → (smin : ℤ) × (smax : ℤ) × Spans (number_strips p) (corners p) smin smax
  unfolding number_strips
  number_strips-Spans p =
      let r = span-within (corners p) (pos 1000000000) (pos 0) in
      (
        (span (corners p) (pos 1000000000) (pos 0)).0,
        (span (corners p) (pos 1000000000) (pos 0)).1,
        record { number = refl; within = r.2; zero_within = r.1 },
      )
