-- ===== src/Decoder/BackTrack/Popcount.antt =====
-- NumberOfSetBits of src/TSBSSimDecoder.cxx: its sums of neighbouring bit fields, each against a sum
-- over the fields of the word, and the whole against a count of the bits one by one.
use libsolgem.Base.{ℕ, zero, suc, ◌+◌, ◌-◌, ◌*◌, ◌/◌, ◌%◌, ◌^◌, ◌≤◌, ◌<◌, bit_and}
use libsolgem.Base.Bits.{bit_and_zero, bit_and_low_two, bit_and_pair, bit_and_nibble}
use libsolgem.Decoder.BackTrack.{number_of_set_bits}
use mathlib.Core.Path.{◌≡◌, refl}
use native.Mathlib.Omega.{arith}

-- The masks of the three rounds, built field by field.
unfoldable even_mask : ℕ → ℕ
even_mask zero = 0
even_mask (suc k) = 4 * even_mask k + 1

unfoldable pair_mask : ℕ → ℕ
pair_mask zero = 0
pair_mask (suc k) = 16 * pair_mask k + 3

unfoldable nibble_mask : ℕ → ℕ
nibble_mask zero = 0
nibble_mask (suc k) = 256 * nibble_mask k + 15

-- The word of k fields of two bits, each holding the number of its set bits.
unfoldable pair_sums : ℕ → ℕ → ℕ
pair_sums zero v = 0
pair_sums (suc k) v = 4 * pair_sums k (v / 4) + (v % 2 + v / 2 % 2)

-- The word of k fields of four bits, each the sum of its two halves.
unfoldable nibble_sums : ℕ → ℕ → ℕ
nibble_sums zero x = 0
nibble_sums (suc k) x = 16 * nibble_sums k (x / 16) + (x % 4 + x / 4 % 4)

abbrev nibble_count : ℕ → ℕ
nibble_count v = v % 2 + v / 2 % 2 + (v / 4 % 2 + v / 8 % 2)

-- The words that hold the number of set bits of each half byte, and of each byte.
unfoldable nibble_counts : ℕ → ℕ → ℕ
nibble_counts zero v = 0
nibble_counts (suc k) v = 16 * nibble_counts k (v / 16) + nibble_count v

unfoldable byte_counts : ℕ → ℕ → ℕ
byte_counts zero v = 0
byte_counts (suc k) v = 256 * byte_counts k (v / 256) + (nibble_count v + nibble_count (v / 16))

-- The number of set bits among the lowest k, one by one.
unfoldable pub count_bits : ℕ → ℕ → ℕ
count_bits zero v = 0
count_bits (suc k) v = v % 2 + count_bits k (v / 2)

unfoldable twice : ℕ → ℕ
twice zero = 0
twice (suc k) = suc (suc (twice k))

-- The first round loses nothing: the masked half and the sums of the pairs add up to the word.
pair_round : (k v : ℕ) → v < 4 ^ k → pair_sums k v + bit_and (v / 2) (even_mask k) ≡ v
unfolding even_mask pair_sums
pair_round zero v h = rw bit_and_zero (omega arith)
pair_round (suc k) v h =
    let ih = pair_round k (v / 4) (omega arith) in
    let e : v / 2 / 4 ≡ v / 4 / 2 = omega arith in
    let f : (4 * even_mask k + 1) / 4 ≡ even_mask k = omega arith in
    rw (bit_and_low_two (v / 2) (4 * even_mask k + 1), e, f) (omega arith)

-- The second round: each half byte gets the sum of its two pairs.
pair_mask_round :
    (k x : ℕ) → bit_and x (pair_mask k) + bit_and (x / 4) (pair_mask k) ≡ nibble_sums k x
unfolding pair_mask nibble_sums
pair_mask_round zero x = rw (bit_and_zero x, bit_and_zero (x / 4)) refl
pair_mask_round (suc k) x =
    let ih = pair_mask_round k (x / 16) in
    let e : x / 4 / 16 ≡ x / 16 / 4 = omega arith in
    rw (bit_and_pair x (pair_mask k), bit_and_pair (x / 4) (pair_mask k), e) (omega arith)

nibble_sums-pair_sums : (k v : ℕ) → nibble_sums k (pair_sums (twice k) v) ≡ nibble_counts k v
unfolding nibble_sums pair_sums nibble_counts twice
nibble_sums-pair_sums zero v = refl
nibble_sums-pair_sums (suc k) v =
    let ih = nibble_sums-pair_sums k (v / 16) in
    let e : v / 4 / 4 ≡ v / 16 = omega arith in
    let f : (x a b : ℕ) → a ≤ 2 → b ≤ 2 → (4 * (4 * x + a) + b) / 16 ≡ x =
      λ x a b h h'. omega arith in
    rw
      (
        e,
        f (pair_sums (twice k) (v / 16)) (v / 4 % 2 + v / 4 / 2 % 2) (v % 2 + v / 2 % 2)
            (omega arith) (omega arith),
        ih,
      )
      (omega arith)

-- The first two rounds, on a word of 4 k bits.
two_rounds :
    (k v : ℕ)
    → v < 4 ^ twice k
    → let pairs = v - bit_and (v / 2) (even_mask (twice k)) in
      bit_and pairs (pair_mask k) + bit_and (pairs / 4) (pair_mask k) ≡ nibble_counts k v
two_rounds k v h =
    let pairs : v - bit_and (v / 2) (even_mask (twice k)) ≡ pair_sums (twice k) v =
      omega (arith, pair_round (twice k) v h) in
    rw (pairs, pair_mask_round k (pair_sums (twice k) v)) (nibble_sums-pair_sums k v)

nibble_counts_low : (k v : ℕ) → nibble_counts k v % 16 ≤ 4
unfolding nibble_counts
nibble_counts_low zero v = omega arith
nibble_counts_low (suc k) v = omega arith

no_carry :
    (n a b : ℕ)
    → n % 16 ≤ 4
    → a ≤ 4
    → b ≤ 4
    → let m = 16 * (16 * n + a) + b in
      ((m + m / 16) / 256 ≡ n + n / 16) × ((m + m / 16) % 16 ≡ b + a)
no_carry n a b h h' h'' = (omega arith, omega arith)

-- The third round: each byte gets the sum of its two half bytes, which never carries over.
third_round :
    (k v : ℕ)
    → let n = nibble_counts (twice k) v in bit_and (n + n / 16) (nibble_mask k) ≡ byte_counts k v
unfolding nibble_counts byte_counts nibble_mask twice
third_round zero v = bit_and_zero 0
third_round (suc k) v =
    let n = nibble_counts (twice k) (v / 256) in
    let ih = third_round k (v / 256) in
    let e : v / 16 / 16 ≡ v / 256 = omega arith in
    let low = nibble_counts_low (twice k) (v / 256) in
    let a = nibble_count (v / 16) in
    let b = nibble_count v in
    let m = 16 * (16 * n + a) + b in
    let (f, g) = no_carry n a b low (omega arith) (omega arith) in
    rw (e, bit_and_nibble (m + m / 16) (nibble_mask k), f, ih, g) refl

bits_of_byte :
    (v k : ℕ)
    → count_bits (suc (suc (suc (suc (suc (suc (suc (suc k)))))))) v
      ≡ nibble_count v + nibble_count (v / 16) + count_bits k (v / 256)
unfolding count_bits
bits_of_byte v k =
    let e : v / 2 / 2 / 2 / 2 / 2 / 2 / 2 / 2 ≡ v / 256 = omega arith in rw e (omega arith)

abbrev byte_count : ℕ → ℕ
byte_count v = nibble_count v + nibble_count (v / 16)

-- The product sums the four bytes into the highest one.
product_of_bytes :
    (a b c e : ℕ)
    → a ≤ 8
    → b ≤ 8
    → c ≤ 8
    → e ≤ 8
    → (256 * (256 * (256 * (0 + e) + c) + b) + a) * 16843009 % 2 ^ 32 / 2 ^ 24 ≡ a + b + c + e
product_of_bytes a b c e ha hb hc he = omega arith

byte_count_bound : (v : ℕ) → byte_count v ≤ 8
byte_count_bound v = omega arith

bits_of_word :
    (v : ℕ)
    → v < 2 ^ 32
    → count_bits 32 v
      ≡ byte_count v
        + byte_count (v / 256)
        + byte_count (v / 256 / 256)
        + byte_count (v / 256 / 256 / 256)
unfolding count_bits
bits_of_word v h =
    rw
      (
        bits_of_byte v 24,
        bits_of_byte (v / 256) 16,
        bits_of_byte (v / 256 / 256) 8,
        bits_of_byte (v / 256 / 256 / 256) 0,
      )
      (omega arith)

-- On every number of 32 bits, NumberOfSetBits returns the number of its set bits.
pub number_of_set_bits-count_bits : (v : ℕ) → v < 2 ^ 32 → number_of_set_bits v ≡ count_bits 32 v
unfolding number_of_set_bits twice even_mask pair_mask nibble_mask byte_counts
number_of_set_bits-count_bits v h =
    let two = two_rounds 8 v h in
    let n = nibble_counts 8 v in
    let three : bit_and (n + n / 16) 252645135 ≡ byte_counts 4 v = third_round 4 v in
    rw (two, three, bits_of_word v h)
      (product_of_bytes (byte_count v) (byte_count (v / 256)) (byte_count (v / 256 / 256))
        (byte_count (v / 256 / 256 / 256)) (byte_count_bound v) (byte_count_bound (v / 256))
        (byte_count_bound (v / 256 / 256)) (byte_count_bound (v / 256 / 256 / 256)))
