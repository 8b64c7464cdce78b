-- ===== src/Digitization/Collect/Signal.antt =====
-- The hit that AvaModel makes lists the strips with a signal, in their order, and nothing else.
use libsolgem.Base.{
  ℕ, zero, suc, ◌+◌, ◌≡◌, some, List, [], ◌∷◌, length, get_elem?, ltb, if◌then◌else◌,
}
use libsolgem.Double.{Double}
use libsolgem.DigitizedPlane.{GemHit}
use libsolgem.Digitization.Collect.Store.{IsEntry, IsExtended}
use libsolgem.Digitization.Collect.{signal_sum}

-- The strips from `j`, with `left` to go, that have a sample other than 0.
pub signal_strips : (ℕ → ℕ → ℕ) → ℕ → ℕ → ℕ → List ℕ
signal_strips sample n zero j = []
signal_strips sample n (suc left) j =
    let rest = signal_strips sample n left (j + 1) in
    if ltb 0 (signal_sum (sample j) n 0) then j ∷ rest else rest

module _ {D : Type 0} ⦃d : Double D⦄ where
  -- The strips `ss` are the entries of `w` from `ai`, and `v` is what was there before.
  record IsCollected (us : ℕ → D) (sample : ℕ → ℕ → ℕ) (n lo : ℕ) (ss : List ℕ) (ai : ℕ)
      (v w : GemHit D) (ai' : ℕ) : Type 0 where
    count : ai' ≡ ai + length ss
    extended : IsExtended ai n v w
    entries : (k i : ℕ) → get_elem? ss k ≡ some i → IsEntry w (ai + k) (lo + i) (us i) (sample i) n
