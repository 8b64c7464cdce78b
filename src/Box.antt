-- ===== src/Box.antt =====
-- src/TSBSBox.{h,cxx}: a box in space and the frames around it. ROOT's 3x3 matrices TMatrixD are a
-- parameter, with `apply m v` for Mult of a matrix and a column. A function that changes x, y and z
-- takes and gives a vector; where the source leaves z alone, so does the function.
pub mod Frames
use libsolgem.Base.{ℕ, ℤ, pos, Bool, true, false, ◌||◌, if◌then◌else◌}
use libsolgem.Double.{Double, ◌⊕◌, ◌⊖◌, ◌⊗◌, ◌⊘◌, ◌≺◌, of_ℕ}
use libsolgem.SimEvent.{Vec3}

-- TMatrixD, of the size 3x3. `rows` takes the nine entries row by row.
pub record Matrices (D M : Type 0) : Type 0 where
  pub rows : (a b c a' b' c' a'' b'' c'' : D) → M
  pub mult : M → M → M
  pub invert : M → M
  pub apply : M → Vec3 D → Vec3 D

pub record Box (D M : Type 0) : Type 0 where
  pub dmag : D
  pub d0 : D
  pub xoffset : D
  pub dx : D
  pub dy : D
  pub theta_v : D
  pub origin : Vec3 D
  pub rot_mat_bl : M
  pub rot_mat_lb : M

module _ {D : Type 0} ⦃d : Double D⦄ where
  -- A length in metres, in millimetres.
  abbrev pub mm : D → D
  mm length = length ⊗ of_ℕ 1000

module _ {D M : Type 0} ⦃d : Double D⦄ ⦃mx : Matrices D M⦄ where
  unfoldable pub hall_center_to_lab : Box D M → Vec3 D → Vec3 D
  hall_center_to_lab b v = v

  unfoldable pub lab_to_hall_center : Box D M → Vec3 D → Vec3 D
  lab_to_hall_center b v = v

  unfoldable pub lab_to_spec : Box D M → Vec3 D → Vec3 D
  lab_to_spec b v = mx.apply b.rot_mat_lb v

  unfoldable pub spec_to_lab : Box D M → Vec3 D → Vec3 D
  spec_to_lab b v = mx.apply b.rot_mat_bl v

  unfoldable pub spec_to_box : Box D M → Vec3 D → Vec3 D
  spec_to_box b v = record v { x = v.x ⊖ mm b.xoffset }

  unfoldable pub box_to_spec : Box D M → Vec3 D → Vec3 D
  box_to_spec b v = record v { x = v.x ⊕ mm b.xoffset }

  unfoldable pub lab_to_box : Box D M → Vec3 D → Vec3 D
  lab_to_box b v = let s = lab_to_spec b v in spec_to_box b (record s { z = s.z ⊖ mm b.d0 })

  unfoldable pub box_to_lab : Box D M → Vec3 D → Vec3 D
  box_to_lab b v = let s = box_to_spec b v in spec_to_lab b (record s { z = s.z ⊕ mm b.d0 })

  unfoldable pub hall_center_to_box : Box D M → Vec3 D → Vec3 D
  hall_center_to_box b v = lab_to_box b (hall_center_to_lab b v)

  unfoldable pub hall_center_to_spec : Box D M → Vec3 D → Vec3 D
  hall_center_to_spec b v = lab_to_spec b (hall_center_to_lab b v)

  unfoldable pub spec_to_hall_center : Box D M → Vec3 D → Vec3 D
  spec_to_hall_center b v = lab_to_hall_center b (spec_to_lab b v)

  unfoldable pub box_to_hall_center : Box D M → Vec3 D → Vec3 D
  box_to_hall_center b v = lab_to_hall_center b (box_to_lab b v)

  -- Contains, in the box.
  unfoldable pub contains : Box D M → D → D → Bool
  contains b x y = if b.dx ⊘ of_ℕ 2 ≺ d.abs x || b.dy ⊘ of_ℕ 2 ≺ d.abs y then false else true

  -- Contains, in the lab.
  unfoldable pub contains_lab : Box D M → Vec3 D → Bool
  contains_lab b v = let w = lab_to_box b v in contains b w.x w.y

  -- SetRotations
  unfoldable pub set_rotations : Box D M → Box D M
  set_rotations b =
      let zero_ = of_ℕ 0 in
      let one = of_ℕ 1 in
      let c = d.cos b.theta_v in
      let s = d.sin b.theta_v in
      let roty0 = mx.rows one zero_ zero_ zero_ one zero_ zero_ zero_ one in
      let rotx1 = mx.rows one zero_ zero_ zero_ c (d.neg s) zero_ s c in
      let rotz2 = mx.rows zero_ (d.neg one) zero_ one zero_ zero_ zero_ zero_ one in
      let rot = mx.mult (mx.mult rotz2 rotx1) roty0 in
      record b { rot_mat_lb = rot; rot_mat_bl = mx.invert rot }

  unfoldable pub set_geometry : (dmag d0 xoffset dx dy theta_v : D) → Box D M → Box D M
  set_geometry dmag d0 xoffset dx dy theta_v b =
      let turned = set_rotations (record b {
        dmag = dmag;
        d0 = d0;
        xoffset = xoffset;
        dx = dx;
        dy = dy;
        theta_v = theta_v;
      }) in
      record turned {
        origin = spec_to_hall_center turned (record { x = mm xoffset; y = of_ℕ 0; z = mm d0 });
      }
