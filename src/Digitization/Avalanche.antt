-- ===== src/Digitization/Avalanche.antt =====
-- AvaModel: the area of the avalanche, the strips that it touches, and a hit for each readout plane of
-- the chamber. The pointer `virs` is an optional list: `none` is the null pointer.
use libsolgem.Base.{
  ◌>>=◌, ℕ, zero, suc, ◌+◌, ◌*◌, pos, Bool, not, ◌&&◌, ◌||◌, Option, none, some, List, [], ◌∷◌,
  if◌then◌else◌,
}
use libsolgem.Base.Int.{◌-ℤ◌, ltb_ℤ, pos_part}
use libsolgem.Double.{Double, ◌⊕◌, ◌⊖◌, ◌⊗◌, ◌⊘◌, ◌≺◌, of_ℕ}
use libsolgem.SimEvent.{Vec3}
use libsolgem.Box.{Matrices}
use libsolgem.GemPlane.{
  GemPlane, get_strip, get_strip_in_range, get_strip_lower_edge, get_strip_upper_edge,
}
use libsolgem.Chamber.{GemChamber}
use libsolgem.DigitizedPlane.{GemHit}
use libsolgem.Digitization.{Root, Settings, IonPar, Digitizer, points}
use libsolgem.Digitization.Collect.{new_hit, strip_sample, collect_strips}
use libsolgem.Digitization.Spread.{Touched, milli, kilo, in_strip_frame, n_touched, touched_charge}

-- A rectangle: x0, y0, x1 and y1 of AvaModel, or glx, gly, gux and guy.
pub record Area (D : Type 0) : Type 0 where
  pub x0 : D
  pub y0 : D
  pub x1 : D
  pub y1 : D

module _ {D : Type 0} ⦃d : Double D⦄ where
  unfoldable pub avalanche_area : D → D → Vec3 D → Vec3 D → Area D
  avalanche_area nsigma s_max xi xo =
      let band = nsigma ⊗ s_max in
      record {
        x0 = (if xi.x ≺ xo.x then xi.x else xo.x) ⊖ band;
        y0 = (if xi.y ≺ xo.y then xi.y else xo.y) ⊖ band;
        x1 = (if xi.x ≺ xo.x then xo.x else xi.x) ⊕ band;
        y1 = (if xi.y ≺ xo.y then xo.y else xi.y) ⊕ band;
      }

  unfoldable pub is_outside : Area D → Area D → Bool
  is_outside a g = (a.x1 ≺ g.x0) || (g.x1 ≺ a.x0) || (a.y1 ≺ g.y0) || (g.y1 ≺ a.y0)

  unfoldable pub clip : Area D → Area D → Area D
  clip a g = record {
    x0 = if a.x0 ≺ g.x0 then g.x0 else a.x0;
    y0 = if a.y0 ≺ g.y0 then g.y0 else a.y0;
    x1 = if g.x1 ≺ a.x1 then g.x1 else a.x1;
    y1 = if g.y1 ≺ a.y1 then g.y1 else a.y1;
  }

module _ {D M : Type 0} ⦃d : Double D⦄ ⦃mx : Matrices D M⦄ where
  unfoldable pub active_area : GemChamber D M → Area D
  active_area c =
      let px = c.planes 0 in
      let py = c.planes 1 in
      let last = λ (p : GemPlane D M). pos_part (p.n_strips -ℤ pos 1) in
      record {
        x0 = kilo (get_strip_lower_edge px 0 ⊕ px.s_pitch ⊘ of_ℕ 2);
        y0 = kilo (get_strip_lower_edge py 0 ⊕ py.s_pitch ⊘ of_ℕ 2);
        x1 = kilo (get_strip_upper_edge px (last px) ⊖ px.s_pitch ⊘ of_ℕ 2);
        y1 = kilo (get_strip_upper_edge py (last py) ⊖ py.s_pitch ⊘ of_ℕ 2);
      }

  -- The strips under the area, in order; `none` where both ends are outside.
  unfoldable pub touched_strips : GemPlane D M → Area D → Option (Touched D)
  touched_strips pl a =
      let v0 = in_strip_frame pl a.x0 a.y0 in
      let v1 = in_strip_frame pl a.x1 a.y1 in
      let l = get_strip pl (milli v0.x) (milli v0.y) in
      let u = get_strip pl (milli v1.x) (milli v1.y) in
      let l' = if ltb_ℤ l (pos 0) then get_strip_in_range pl (milli v0.x) else l in
      let u' =
        if not (ltb_ℤ l (pos 0)) && ltb_ℤ u (pos 0)
        then get_strip_in_range pl (milli v1.x)
        else u in
      if ltb_ℤ l (pos 0) && ltb_ℤ u (pos 0)
      then none
      else some (record {
        lower = if ltb_ℤ u' l' then u' else l';
        upper = if ltb_ℤ u' l' then l' else u';
        ys0 = v0.y;
        ys1 = v1.y;
      })

module _ {D R M : Type 0} ⦃d : Double D⦄ ⦃mx : Matrices D M⦄ (root : Root D R)
    (s : Settings D) where
  -- The hit on one readout plane.
  unfoldable pub plane_hit : GemPlane D M → Touched D → D → D → List (IonPar D) → GemHit D
  plane_hit pl r t0 total_charge ions =
      let us = touched_charge root s pl r ions in
      let sample = λ (j b : ℕ). strip_sample s t0 (us j) b in
      let made = record (new_hit (n_touched r * s.x_integral_steps_per_pitch) (points s)) {
        time = root.to_float t0;
        hit_charge = root.to_float total_charge;
      } in
      let (v, ai) = collect_strips us sample (points s) (pos_part r.lower) (n_touched r) 0 0 made in
      record v { size = ai }

  -- The loop over planes, from plane `ipl` with `left` to go.
  unfoldable pub plane_hits :
      GemChamber D M → Area D → D → Digitizer D R → (left ipl : ℕ) → Option (List (GemHit D))
  unfolding touched_strips plane_hit
  plane_hits c a t0 t zero ipl = some []
  plane_hits c a t0 t (suc left) ipl = touched_strips (c.planes ipl) a >>= λ r.
      plane_hits c a t0 t left (ipl + 1) >>= λ virs.
      some (plane_hit (c.planes ipl) r t0 t.r_total_charge t.r_ion ∷ virs)

  unfoldable pub ava_model :
      GemChamber D M → ℕ → Vec3 D → Vec3 D → D → Digitizer D R → Option (List (GemHit D))
  unfolding avalanche_area is_outside clip active_area plane_hits
  ava_model c nplanes xi xo t0 t =
      let a = avalanche_area s.avalanche_fiducial_band t.r_s_max xi xo in
      let g = active_area c in
      if is_outside a g then none else plane_hits c (clip a g) t0 t nplanes 0
