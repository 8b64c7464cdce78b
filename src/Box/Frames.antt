-- ===== src/Box/Frames.antt =====
-- The frames of a box are inverse to each other, for exact arithmetic.
use libsolgem.Base.{◌≡◌, refl, ap, ◌∙◌, true, false}
use libsolgem.Double.{Double, ◌⊕◌, ◌⊖◌, ◌⊘◌, ◌≺◌, of_ℕ}
use libsolgem.SimEvent.{Vec3}
use libsolgem.Box.{
  Matrices, Box, hall_center_to_lab, lab_to_hall_center, lab_to_spec, spec_to_lab, spec_to_box,
  box_to_spec, lab_to_box, box_to_lab, hall_center_to_box, box_to_hall_center, spec_to_hall_center,
  contains, contains_lab, set_rotations, set_geometry,
}

-- No rounding in a sum or a difference.
pub record IsExact (D : Type 0) ⦃d : Double D⦄ : Type 0 where
  pub sub_add : (a b : D) → a ⊖ b ⊕ b ≡ a
  pub add_sub : (a b : D) → a ⊕ b ⊖ b ≡ a
  pub zero_add : (a : D) → of_ℕ 0 ⊕ a ≡ a

module _ (D : Type 0) {M : Type 0} ⦃mx : Matrices D M⦄ where
  -- Invert gives the inverse of the matrix.
  pub record IsRegular (m : M) : Type 0 where
    pub back : (v : Vec3 D) → mx.apply (mx.invert m) (mx.apply m v) ≡ v
    pub forth : (v : Vec3 D) → mx.apply m (mx.apply (mx.invert m) v) ≡ v

module _ {D M : Type 0} ⦃d : Double D⦄ ⦃mx : Matrices D M⦄ where
  -- The two rotations of the box undo each other, which Invert of a regular matrix gives.
  pub record IsTurned (b : Box D M) : Type 0 where
    pub back : (v : Vec3 D) → mx.apply b.rot_mat_bl (mx.apply b.rot_mat_lb v) ≡ v
    pub forth : (v : Vec3 D) → mx.apply b.rot_mat_lb (mx.apply b.rot_mat_bl v) ≡ v

  -- Without rounding and with inverse rotations, a point that is taken from the hall frame to the box
  -- frame and back is the same point, and so is one that is taken from the box frame to the hall
  -- frame and back.
  pub frames_round_trip :
      (b : Box D M) (v : Vec3 D)
      → IsExact D
      → IsTurned b
      → (box_to_hall_center b (hall_center_to_box b v) ≡ v)
        × (hall_center_to_box b (box_to_hall_center b v) ≡ v)
  unfolding box_to_hall_center hall_center_to_box lab_to_hall_center hall_center_to_lab lab_to_box
      box_to_lab spec_to_box box_to_spec lab_to_spec spec_to_lab
  frames_round_trip b v x t =
      (rw (x.sub_add, x.sub_add) (t.back v), rw (t.forth, x.add_sub, x.add_sub) refl)

  -- SetGeometry puts the origin of the box where the zero of the box frame is in the hall, if 0 + a
  -- is a.
  pub set_geometry-origin :
      (dmag d0 xoffset dx dy theta_v : D) (b : Box D M)
      → IsExact D
      → let b' = set_geometry dmag d0 xoffset dx dy theta_v b in
        b'.origin ≡ box_to_hall_center b' (record { x = of_ℕ 0; y = of_ℕ 0; z = of_ℕ 0 })
  unfolding set_geometry set_rotations box_to_hall_center spec_to_hall_center lab_to_hall_center
      box_to_lab spec_to_lab box_to_spec
  set_geometry-origin dmag d0 xoffset dx dy theta_v b x = rw (x.zero_add, x.zero_add) refl

  -- A box of which neither side is negative contains its own origin, if there is no rounding and
  -- its rotation can be inverted.
  pub contains_lab-origin :
      (dmag d0 xoffset dx dy theta_v : D) (b : Box D M)
      → IsExact D
      → let b' = set_geometry dmag d0 xoffset dx dy theta_v b in
        IsRegular D b'.rot_mat_lb
        → (dx ⊘ of_ℕ 2 ≺ d.abs (of_ℕ 0)) ≡ false
        → (dy ⊘ of_ℕ 2 ≺ d.abs (of_ℕ 0)) ≡ false
        → contains_lab b' b'.origin ≡ true
  unfolding contains_lab contains set_geometry set_rotations hall_center_to_box hall_center_to_lab
  contains_lab-origin dmag d0 xoffset dx dy theta_v b x regular hx hy =
      let b' = set_geometry dmag d0 xoffset dx dy theta_v b in
      let turned : IsTurned b' = record { back = regular.back; forth = regular.forth } in
      let zero_ : Vec3 D = record { x = of_ℕ 0; y = of_ℕ 0; z = of_ℕ 0 } in
      let centre : lab_to_box b' b'.origin ≡ zero_ =
        ap (lab_to_box b') (set_geometry-origin dmag d0 xoffset dx dy theta_v b x)
        ∙ (frames_round_trip b' zero_ x turned).1 in
      rw (centre, hx, hy) refl
