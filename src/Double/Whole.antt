-- ===== src/Double/Whole.antt =====
-- Whole numbers as a coarse `double`, for runs on concrete inputs. The functions of <cmath> are
-- constants here.
use libsolgem.Base.{◌+◌, ◌/◌, ◌^◌, ℤ, pos}
use libsolgem.Base.Int.{◌+ℤ◌, ◌-ℤ◌, ◌*ℤ◌, ltb_ℤ, leb_ℤ, pos_part, neg_part, sub_ℕ}
use libsolgem.Double.Interface.{Double}

abbrev div_ℤ : ℤ → ℤ → ℤ
div_ℤ a b =
    sub_ℕ (pos_part a / pos_part b + neg_part a / neg_part b)
      (pos_part a / neg_part b + neg_part a / pos_part b)

instance unfoldable pub whole_double : Double ℤ
unfolding ◌+ℤ◌ ◌-ℤ◌ ◌*ℤ◌
whole_double = record {
  add = λ a b. sub_ℕ (pos_part a + pos_part b) (neg_part a + neg_part b);
  sub = λ a b. sub_ℕ (pos_part a + neg_part b) (neg_part a + pos_part b);
  mul = ◌*ℤ◌;
  div = div_ℤ;
  neg = λ a. sub_ℕ (neg_part a) (pos_part a);
  lt = ltb_ℤ;
  le = leb_ℤ;
  integer = λ a. a;
  decimal_ = λ m e. div_ℤ m (pos (10 ^ e));
  truncate = λ a. a;
  floor = λ a. a;
  ceil = λ a. a;
  round = λ a. a;
  abs = λ a. pos (pos_part a + neg_part a);
  sqrt = λ a. a;
  exp = λ a. pos 1;
  cos = λ a. pos 1;
  sin = λ a. pos 0;
  atan = λ a. pos 0;
}
