-- ===== src/Digitization/Spread.antt =====
-- AvaModel: the charge of the ions in the bins of a grid, and of the strips. Conversions to Int_t are
-- not wrapped; the assertion that the grid is not empty is not part of the model.
use libsolgem.Base.{ℕ, zero, suc, ◌+◌, ◌-◌, ◌*◌, ℤ, pos, List, [], ◌∷◌, if◌then◌else◌}
use libsolgem.Base.Int.{◌+ℤ◌, ◌-ℤ◌, ltb_ℤ, pos_part}
use libsolgem.Database.GemIndex.{update}
use libsolgem.Double.{Double, ◌⊕◌, ◌⊖◌, ◌⊗◌, ◌⊘◌, ◌≺◌, ◌≼◌, of_ℕ, decimal, trunc}
use libsolgem.SimEvent.{Vec3}
use libsolgem.Box.{Matrices}
use libsolgem.GemPlane.{GemPlane, plane_to_strip, get_strip_lower_edge, get_strip_upper_edge}
use libsolgem.Digitization.{Root, Settings, IonPar}
use libsolgem.Digitization.Collect.{strip_charge}

-- The strips iL to iU, and y of the area's corners in the strip frame.
pub record Touched (D : Type 0) : Type 0 where
  pub lower : ℤ
  pub upper : ℤ
  pub ys0 : D
  pub ys1 : D

-- The bins: nx times ny of them, from (xl, yb), of the size xbw times ybw.
pub record Grid (D : Type 0) : Type 0 where
  pub xl : D
  pub yb : D
  pub nx : ℕ
  pub ny : ℕ
  pub xbw : D
  pub ybw : D

-- `max(i - d, 0)` and `min(i + d + 1, n)`
abbrev first_bin : ℤ → ℤ → ℕ
first_bin i reach = pos_part (i -ℤ reach)

abbrev end_bin : ℤ → ℤ → ℕ → ℕ
end_bin i reach n =
    let end_ = i +ℤ reach +ℤ pos 1 in if ltb_ℤ end_ (pos n) then pos_part end_ else n

-- `iU - iL + 1`
abbrev pub n_touched : {D : Type 0} → Touched D → ℕ
n_touched r = pos_part (r.upper -ℤ r.lower +ℤ pos 1)

module _ {D : Type 0} ⦃d : Double D⦄ where
  -- `a * 1e-3`, `a * 1000.` and `a * 1e3`.
  abbrev pub milli : D → D
  milli a = a ⊗ decimal (pos 1) 3

  abbrev pub kilo : D → D
  kilo a = a ⊗ of_ℕ 1000

  -- The loop over y bins, from bin `jy` at `yc` with `left` to go.
  unfoldable pub spread_y :
      (base : ℕ) (frys ybw xd2 r2 amplitude sigma2 : D) (left jy : ℕ) (yc : D) → (ℕ → D) → ℕ → D
  spread_y base frys ybw xd2 r2 amplitude sigma2 zero jy yc sum_a = sum_a
  spread_y base frys ybw xd2 r2 amplitude sigma2 (suc left) jy yc sum_a =
      let yd2 = (frys ⊖ yc) ⊗ (frys ⊖ yc) in
      let here = base + jy in
      let added =
        if xd2 ⊕ yd2 ≼ r2
        then update sum_a here (sum_a here ⊕ amplitude ⊘ (xd2 ⊕ yd2 ⊕ sigma2))
        else sum_a in
      spread_y base frys ybw xd2 r2 amplitude sigma2 left (jy + 1) (yc ⊕ ybw) added

  -- The loop over x bins, from bin `jx` at `xc` with `left` to go; `column` is the loop over y bins.
  unfoldable pub spread_x :
      ((base : ℕ) → D → (ℕ → D) → ℕ → D)
      → (ny : ℕ) (frxs xbw : D) (left jx : ℕ) (xc : D) → (ℕ → D)
      → ℕ
      → D
  spread_x column ny frxs xbw zero jx xc sum_a = sum_a
  spread_x column ny frxs xbw (suc left) jx xc sum_a =
      let xd2 = (frxs ⊖ xc) ⊗ (frxs ⊖ xc) in
      spread_x column ny frxs xbw left (jx + 1) (xc ⊕ xbw) (column (jx * ny) xd2 sum_a)

  -- `xl + (jx+0.5) * xbw`
  abbrev centre : D → ℕ → D → D
  centre low j width = low ⊕ (of_ℕ j ⊕ decimal (pos 5) 1) ⊗ width

module _ {D M : Type 0} ⦃d : Double D⦄ ⦃mx : Matrices D M⦄ where
  -- PlaneToStrip of a point in millimetres.
  abbrev pub in_strip_frame : GemPlane D M → D → D → Vec3 D
  in_strip_frame pl x y =
      let v = plane_to_strip pl (record { x = milli x; y = milli y; z = of_ℕ 0 }) in
      record { x = kilo v.x; y = kilo v.y; z = of_ℕ 0 }

module _ {D R M : Type 0} ⦃d : Double D⦄ ⦃mx : Matrices D M⦄ (root : Root D R)
    (s : Settings D) where
  unfoldable pub grid : GemPlane D M → Touched D → Grid D
  grid pl r =
      let xl = kilo (get_strip_lower_edge pl (pos_part r.lower)) in
      let xr = kilo (get_strip_upper_edge pl (pos_part r.upper)) in
      let yq = kilo pl.s_pitch ⊘ of_ℕ s.y_integral_steps_per_pitch in
      let low = if r.ys1 ≺ r.ys0 then r.ys1 else r.ys0 in
      let high = if r.ys1 ≺ r.ys0 then r.ys0 else r.ys1 in
      let yb = yq ⊗ d.floor (low ⊘ yq) in
      let yt = yq ⊗ d.ceil (high ⊘ yq) in
      let nx = n_touched r * s.x_integral_steps_per_pitch in
      let ny = pos_part (trunc (d.round ((yt ⊖ yb) ⊘ yq))) in
      record {
        xl = xl;
        yb = yb;
        nx = nx;
        ny = ny;
        xbw = (xr ⊖ xl) ⊘ of_ℕ nx;
        ybw = (yt ⊖ yb) ⊘ of_ℕ ny;
      }

  -- The body of the loop over ions.
  unfoldable pub spread_ion : GemPlane D M → Grid D → IonPar D → (ℕ → D) → ℕ → D
  unfolding spread_y spread_x
  spread_ion pl g ion sum_a =
      let at = in_strip_frame pl ion.x ion.y in
      let ix = trunc ((at.x ⊖ g.xl) ⊘ g.xbw) in
      let iy = trunc ((at.y ⊖ g.yb) ⊘ g.ybw) in
      let dx = trunc (ion.s_norm ⊘ g.xbw ⊕ of_ℕ 1) in
      let dy = trunc (ion.s_norm ⊘ g.ybw ⊕ of_ℕ 1) in
      let sigma2 = ion.r2 ⊘ (s.s_norm_nsigma ⊗ s.s_norm_nsigma) in
      let sigma = d.sqrt sigma2 in
      let amplitude = s.ava_gain ⊗ ion.ggnorm ⊗ (of_ℕ 1 ⊘ (root.pi ⊗ sigma)) ⊗ (sigma ⊗ sigma) in
      let jx = first_bin ix dx in
      let jy = first_bin iy dy in
      let column = λ (base : ℕ) (xd2 : D) (sum : ℕ → D).
        spread_y base at.y g.ybw xd2 ion.r2 amplitude sigma2 (end_bin iy dy g.ny - jy) jy
          (centre g.yb jy g.ybw) sum in
      spread_x column g.ny at.x g.xbw (end_bin ix dx g.nx - jx) jx (centre g.xl jx g.xbw) sum_a

  unfoldable pub spread_ions : GemPlane D M → Grid D → List (IonPar D) → (ℕ → D) → ℕ → D
  unfolding spread_ion
  spread_ions pl g [] sum_a = sum_a
  spread_ions pl g (ion ∷ rest) sum_a = spread_ions pl g rest (spread_ion pl g ion sum_a)

  -- The charge of strip iL + `j`, where `r` are the strips touched.
  unfoldable pub touched_charge : GemPlane D M → Touched D → List (IonPar D) → ℕ → D
  unfolding grid spread_ions strip_charge
  touched_charge pl r ions j =
      let g = grid pl r in
      let sum_a = spread_ions pl g ions (λ i. of_ℕ 0) in
      let steps = s.x_integral_steps_per_pitch in
      strip_charge sum_a steps g.ny (g.xbw ⊗ g.ybw) j steps 0 (of_ℕ 0)
