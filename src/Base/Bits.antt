-- ===== src/Base/Bits.antt =====
-- The lowest bit of a conjunction and of a disjunction, which the native operation gives at numerals only; masks of
-- a conjunction, and setting one bit by a disjunction.
use Prim.Native.Nat.{
  ℕ, zero, suc, ◌+◌, ◌*◌, ◌/◌, ◌%◌, ◌^◌, ◌≤◌, ◌<◌, min, max, bit_and, bit_or, digits,
  bit_and-bitwise, bit_or-bitwise,
}
use libsolgem.Base.Tests.{◌==◌, if◌then◌else◌}
use mathlib.Core.Bool.{false}
use mathlib.Core.Path.{◌≡◌, refl}
use native.Mathlib.Omega.{arith}

-- More rounds than the first number has bits change nothing.
digits_rounds :
    (z : ℕ → ℕ) (f : ℕ → ℕ → ℕ) (a b k l : ℕ) → a ≤ k → a ≤ l → digits z f k a b ≡ digits z f l a b
digits_rounds z f a b zero zero h h' = refl
digits_rounds z f zero b zero (suc l) h h' = refl
digits_rounds z f zero b (suc k) zero h h' = refl
digits_rounds z f zero b (suc k) (suc l) h h' = refl
digits_rounds z f (suc a) b zero (suc l) h h' = absurd (omega arith)
digits_rounds z f (suc a) b (suc k) zero h h' = absurd (omega arith)
digits_rounds z f (suc a) b (suc k) (suc l) h h' =
    omega (arith, digits_rounds z f (suc a / 2) (b / 2) k l (omega arith) (omega arith))

abbrev conj : ℕ → ℕ → ℕ → ℕ
conj = digits (λ y. 0) min

abbrev disj : ℕ → ℕ → ℕ → ℕ
disj = digits (λ y. y) max

pub bit_and_low : (a b : ℕ) → bit_and a b ≡ 2 * bit_and (a / 2) (b / 2) + min (a % 2) (b % 2)
bit_and_low zero b = omega (arith, bit_and-bitwise 0 b, bit_and-bitwise 0 (b / 2))
bit_and_low (suc a) b = omega (
  arith,
  bit_and-bitwise (suc a) b,
  bit_and-bitwise (suc a / 2) (b / 2),
  digits_rounds (λ y. 0) min (suc a / 2) (b / 2) a (suc a / 2) (omega arith) (omega arith),
)

conj_zero : (k a : ℕ) → conj k a 0 ≡ 0
conj_zero zero a = refl
conj_zero (suc k) zero = refl
conj_zero (suc k) (suc a) = omega (arith, conj_zero k (suc a / 2))

pub bit_and_zero : (a : ℕ) → bit_and a 0 ≡ 0
bit_and_zero a = omega (arith, bit_and-bitwise a 0, conj_zero a a)

-- The two lowest bits at once, and masks whose lowest field is two or four set bits.
pub bit_and_low_two :
    (a b : ℕ)
    → bit_and a b
      ≡ 4 * bit_and (a / 4) (b / 4) + (min (a % 2) (b % 2) + 2 * min (a / 2 % 2) (b / 2 % 2))
bit_and_low_two a b =
    let ea : a / 2 / 2 ≡ a / 4 = omega arith in
    let eb : b / 2 / 2 ≡ b / 4 = omega arith in
    rw (bit_and_low a b, bit_and_low (a / 2) (b / 2), ea, eb) (omega arith)

pub bit_and_pair : (a m : ℕ) → bit_and a (16 * m + 3) ≡ 16 * bit_and (a / 16) m + a % 4
bit_and_pair a m =
    let e : a / 4 / 4 ≡ a / 16 = omega arith in
    let f : (16 * m + 3) / 4 ≡ 4 * m = omega arith in
    let g : 4 * m / 4 ≡ m = omega arith in
    rw (bit_and_low_two a (16 * m + 3), f, bit_and_low_two (a / 4) (4 * m), e, g) (omega arith)

pub bit_and_nibble : (a m : ℕ) → bit_and a (256 * m + 15) ≡ 256 * bit_and (a / 256) m + a % 16
bit_and_nibble a m =
    let e : a / 4 / 16 / 4 ≡ a / 256 = omega arith in
    let f : (256 * m + 15) / 4 ≡ 16 * (4 * m) + 3 = omega arith in
    let g : 4 * m / 4 ≡ m = omega arith in
    rw
      (
        bit_and_low_two a (256 * m + 15),
        f,
        bit_and_pair (a / 4) (4 * m),
        bit_and_low_two (a / 4 / 16) (4 * m),
        e,
        g,
      )
      (omega arith)

bit_or_low : (a b : ℕ) → bit_or a b ≡ 2 * bit_or (a / 2) (b / 2) + max (a % 2) (b % 2)
bit_or_low zero b = omega (arith, bit_or-bitwise 0 b, bit_or-bitwise 0 (b / 2))
bit_or_low (suc a) b = omega (
  arith,
  bit_or-bitwise (suc a) b,
  bit_or-bitwise (suc a / 2) (b / 2),
  digits_rounds (λ y. y) max (suc a / 2) (b / 2) a (suc a / 2) (omega arith) (omega arith),
)

disj_zero : (k a : ℕ) → a ≤ k → disj k a 0 ≡ a
disj_zero zero zero h = refl
disj_zero zero (suc a) h = absurd (omega arith)
disj_zero (suc k) zero h = refl
disj_zero (suc k) (suc a) h = omega (arith, disj_zero k (suc a / 2) (omega arith))

bit_or_zero : (a : ℕ) → bit_or a 0 ≡ a
bit_or_zero a = omega (arith, bit_or-bitwise a 0, disj_zero a a (omega arith))

-- A disjunction with a power of two, on the lowest bit and on the others.
bit_or_one : (n : ℕ) → (bit_or n 1 / 2 ≡ n / 2) × (bit_or n 1 % 2 ≡ 1)
bit_or_one n =
    let low = bit_or_low n 1 in
    let none : bit_or (n / 2) (1 / 2) ≡ n / 2 = bit_or_zero (n / 2) in (omega arith, omega arith)

bit_or_two : (n m : ℕ) → (bit_or n (2 * m) / 2 ≡ bit_or (n / 2) m) × (bit_or n (2 * m) % 2 ≡ n % 2)
bit_or_two n m =
    let half : 2 * m / 2 ≡ m = omega arith in
    let all = bit_or_low n (2 * m) in let low = rw half at all in (omega arith, omega arith)

-- Bit `p`.
abbrev pub bit_at : ℕ → ℕ → ℕ
bit_at zero v = v % 2
bit_at (suc p) v = bit_at p (v / 2)

pub bit_at-bit_or : (p i n : ℕ) → bit_at p (bit_or n (2 ^ i)) ≡ (if p == i then 1 else bit_at p n)
bit_at-bit_or zero zero n = (bit_or_one n).1
bit_at-bit_or zero (suc i) n =
    let other : (0 == suc i) ≡ false = ground arith in
    let double : 2 ^ suc i ≡ 2 * 2 ^ i = omega arith in rw (other, double) (bit_or_two n (2 ^ i)).1
bit_at-bit_or (suc p) zero n =
    let other : (suc p == 0) ≡ false = ground arith in rw (other, (bit_or_one n).0) refl
bit_at-bit_or (suc p) (suc i) n =
    let same : (suc p == suc i) ≡ (p == i) = ground arith in
    let double : 2 ^ suc i ≡ 2 * 2 ^ i = omega arith in
    rw (same, double, (bit_or_two n (2 ^ i)).0) (bit_at-bit_or p i (n / 2))

pub bit_or_lt : (k i n : ℕ) → i < k → n < 2 ^ k → bit_or n (2 ^ i) < 2 ^ k
bit_or_lt zero i n h h' = absurd (omega arith)
bit_or_lt (suc k) zero n h h' = let (half, low) = bit_or_one n in omega arith
bit_or_lt (suc k) (suc i) n h h' =
    let double : 2 ^ suc i ≡ 2 * 2 ^ i = omega arith in
    let (half, low) = bit_or_two n (2 ^ i) in
    let later = bit_or_lt k i (n / 2) (omega arith) (omega arith) in rw double (omega arith)
