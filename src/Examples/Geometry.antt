-- ===== src/Examples/Geometry.antt =====
-- A box that is turned by 90 degrees, and a plane of ten strips in it.
use libsolgem.Base.{ℤ, pos, negsuc, ◌≡◌, refl, true, false, arith}
use libsolgem.Base.Int.{◌+ℤ◌, ◌-ℤ◌, ◌*ℤ◌, sub_ℕ, pos_part, neg_part}
use libsolgem.Double.{whole_double}
use libsolgem.SimEvent.{Vec3}
use libsolgem.Box.{
  Matrices, Box, hall_center_to_box, box_to_hall_center, hall_center_to_lab, lab_to_hall_center,
  lab_to_spec, spec_to_lab, spec_to_box, box_to_spec, lab_to_box, box_to_lab, spec_to_hall_center,
  contains, contains_lab, set_rotations, set_geometry,
}
use libsolgem.Box.Frames.{IsExact, IsRegular, IsTurned}
use libsolgem.GemPlane.{
  GemPlane, plane_to_strip, get_strip_unchecked, get_strip_in_range, corner_strip, span, corners,
  number_strips, set_strip_rotations, read_strips, read_geometry,
}

-- The two quarter turns about the z axis, as matrices.
pub data Turn : Type 0 where
  left right : Turn

abbrev minus : ℤ → ℤ
minus a = sub_ℕ (neg_part a) (pos_part a)

abbrev turn : Turn → Vec3 ℤ → Vec3 ℤ
turn left v = record { x = minus v.y; y = v.x; z = v.z }
turn right v = record { x = v.y; y = minus v.x; z = v.z }

abbrev other : Turn → Turn
other left = right
other right = left

instance abbrev pub turns : Matrices ℤ Turn
turns = record {
  rows = λ a b c a' b' c' a'' b'' c''. left;
  mult = λ a b. a;
  invert = other;
  apply = turn;
}

methods : Unit {0}
unfolding hall_center_to_lab lab_to_hall_center lab_to_spec spec_to_lab spec_to_box box_to_spec
    lab_to_box box_to_lab hall_center_to_box box_to_hall_center spec_to_hall_center contains
    contains_lab set_rotations set_geometry plane_to_strip get_strip_unchecked get_strip_in_range
    corner_strip span corners number_strips set_strip_rotations read_strips read_geometry
    whole_double ◌+ℤ◌ ◌-ℤ◌ ◌*ℤ◌
methods = tt

abbrev empty_box : Box ℤ Turn
empty_box = record {
  dmag = pos 1;
  d0 = pos 1;
  xoffset = pos 1;
  dx = pos 1;
  dy = pos 1;
  theta_v = pos 0;
  origin = record { x = pos 0; y = pos 0; z = pos 0 };
  rot_mat_bl = left;
  rot_mat_lb = left;
}

abbrev pub box : Box ℤ Turn
box = set_geometry (pos 3) (pos 2) (pos 1) (pos 10) (pos 4) (pos 0) empty_box

abbrev pub point : Vec3 ℤ
point = record { x = pos 7; y = negsuc 4; z = pos 2500 }

abbrev pub plane : GemPlane ℤ Turn
plane = record {
  s_angle = pos 0;
  n_strips = pos 0;
  s_pitch = pos 1;
  s_beg = pos 0;
  box = box;
  cbs = pos 1;
  sbs = pos 0;
  origin = box.origin;
  size = point;
}

runs :
    (hall_center_to_box box point ≡ record { x = negsuc 994; y = pos 7; z = pos 500 })
    × (contains_lab box box.origin ≡ true)
    × (contains_lab box point ≡ false)
    × ((number_strips plane).n_strips ≡ pos 11)
    × (get_strip_in_range (number_strips plane) (pos 20) ≡ pos 10)
unfolding methods
runs = (refl, refl, refl, refl, refl)

pub exact : IsExact ℤ
unfolding methods
exact = record {
  sub_add = λ a b. ground arith;
  add_sub = λ a b. ground arith;
  zero_add = λ a. ground arith;
}

minus-minus : (a : ℤ) → minus (minus a) ≡ a
minus-minus a = ground arith

back : (t : Turn) (v : Vec3 ℤ) → turn (other t) (turn t v) ≡ v
back left v = rw minus-minus refl
back right v = rw minus-minus refl

box-IsTurned : IsTurned box
unfolding methods
box-IsTurned = record { back = back left; forth = back right }

left-IsRegular : IsRegular ℤ box.rot_mat_lb
unfolding methods
left-IsRegular = record { back = back left; forth = back right }
