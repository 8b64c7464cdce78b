-- ===== src/DigitizedPlane/Sums.antt =====
-- Sums over the samples of a strip in the flat array fStripADC, and multiplicities in a list.
use native.Mathlib.Nat.{mul-le-mul, le_refl}
use native.Mathlib.Decide.{dec_lt}
use libsolgem.Base.{
  ℕ, zero, suc, ◌+◌, ◌*◌, ◌≤◌, ◌<◌, ◌≡◌, ◌⊎◌, refl, List, [], ◌∷◌, ◌++◌, arith, length, ltb, ◌==◌,
  if◌then◌else◌,
}
use libsolgem.Database.GemIndex.{update}

-- f start + … + f (start + n - 1)
pub row_sum : (ℕ → ℕ) → ℕ → ℕ → ℕ
row_sum f start zero = 0
row_sum f start (suc n) = f start + row_sum f (start + 1) n

row_sum-update_out :
    (f : ℕ → ℕ) (start n a v : ℕ)
    → (a < start) ⊎ (start + n ≤ a)
    → row_sum (update f a v) start n ≡ row_sum f start n
unfolding row_sum
row_sum-update_out f start zero a v h = refl
row_sum-update_out f start (suc n) a v h = ground (arith, row_sum-update_out f (start + 1) n a v)

row_sum-update_in :
    (f : ℕ → ℕ) (start n a v : ℕ)
    → start ≤ a
    → a < start + n
    → row_sum (update f a (f a + v)) start n ≡ row_sum f start n + v
unfolding row_sum
row_sum-update_in f start zero a v lo hi = absurd (omega arith)
row_sum-update_in f start (suc n) a v lo hi =
    ground
      (arith, row_sum-update_in f (start + 1) n a v, row_sum-update_out f (start + 1) n a (f a + v))

pub row_sum-zero : (start n : ℕ) → row_sum (λ i. 0) start n ≡ 0
unfolding row_sum
row_sum-zero start zero = refl
row_sum-zero start (suc n) = omega (arith, row_sum-zero (start + 1) n)

-- Sample `k` of strip `idx` counts in the row of strip `idx`, and in no other.
pub row_sum-update :
    (f : ℕ → ℕ) (n idx k i v : ℕ)
    → k < n
    → row_sum (update f (idx * n + k) (f (idx * n + k) + v)) (i * n) n
      ≡ (if i == idx then row_sum f (i * n) n + v else row_sum f (i * n) n)
row_sum-update f n idx k i v h = elim (dec_lt i idx) [
  | yes lt ↦
      let apart : suc i * n ≤ idx * n = mul-le-mul lt (le_refl n) in
      ground (arith, row_sum-update_out f (i * n) n (idx * n + k) (f (idx * n + k) + v))
  | no ge ↦ elim (dec_lt idx i) [
    | yes gt ↦
        let apart : suc idx * n ≤ i * n = mul-le-mul gt (le_refl n) in
        ground (arith, row_sum-update_out f (i * n) n (idx * n + k) (f (idx * n + k) + v))
    | no le ↦
        let same : i ≡ idx = omega arith in
        ground (arith, row_sum-update_in f (i * n) n (idx * n + k) v)
  ]
]

abbrev pub occurs : ℕ → List ℕ → ℕ
occurs a [] = 0
occurs a (u ∷ us) = (if u == a then 1 else 0) + occurs a us

pub occurs-append : (s : ℕ) (us vs : List ℕ) → occurs s (us ++ vs) ≡ occurs s vs + occurs s us
occurs-append s [] vs = omega arith
occurs-append s (u ∷ us) vs = let rest = occurs-append s us vs in omega (arith, rest)

-- How often the numbers below n occur in a list.
count_below : ℕ → List ℕ → ℕ
count_below zero xs = 0
count_below (suc n) xs = occurs n xs + count_below n xs

count_below-nil : (n : ℕ) → count_below n [] ≡ 0
unfolding count_below
count_below-nil zero = refl
count_below-nil (suc n) = omega (arith, count_below-nil n)

count_below-cons :
    (n x : ℕ) (xs : List ℕ) → count_below n (x ∷ xs) ≡ (if ltb x n then 1 else 0) + count_below n xs
unfolding count_below
count_below-cons zero x xs = ground arith
count_below-cons (suc n) x xs = ground (arith, count_below-cons n x xs)

length-eq-count_below :
    (n : ℕ) (xs : List ℕ) → ((i : ℕ) → n ≤ i → occurs i xs ≡ 0) → length xs ≡ count_below n xs
length-eq-count_below n [] h = omega (arith, count_below-nil n)
length-eq-count_below n (x ∷ xs) h = ground (
  arith,
  h x,
  count_below-cons n x xs,
  length-eq-count_below n xs (λ i le. omega (arith, h i le)),
)

count_below-le : (n : ℕ) (xs : List ℕ) → ((i : ℕ) → occurs i xs ≤ 1) → count_below n xs ≤ n
unfolding count_below
count_below-le zero xs h = omega arith
count_below-le (suc n) xs h = omega (arith, h n, count_below-le n xs h)

-- A list without repetitions of numbers below n has at most n entries.
pub length-le_of_count :
    (n : ℕ) (xs : List ℕ)
    → ((i : ℕ) → occurs i xs ≤ 1)
    → ((i : ℕ) → n ≤ i → occurs i xs ≡ 0)
    → length xs ≤ n
length-le_of_count n xs once none_above =
    omega (arith, length-eq-count_below n xs none_above, count_below-le n xs once)
