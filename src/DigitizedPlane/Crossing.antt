-- ===== src/DigitizedPlane/Crossing.antt =====
-- Clear, the constructor and Threshold of TSBSDigitizedPlane, and the size of fOverThr.
use libsolgem.Base.{
  ℕ, zero, suc, ◌+◌, ◌*◌, ◌<◌, ℤ, pos, ◌≡◌, refl, ap, false, ◌&&◌, [], ◌∷◌, ◌++◌, arith, length,
  ltb, leb, if◌then◌else◌,
}
use libsolgem.Base.Int.{ltb_ℤ, ◌≤ℤ◌}
use libsolgem.Double.{Double}
use libsolgem.DigitizedPlane.{DigitizedPlane, clear, is_over, scan_over, set_threshold}
use libsolgem.DigitizedPlane.Sums.{row_sum-zero, occurs, occurs-append, length-le_of_count}
use libsolgem.DigitizedPlane.Invariant.{IsNoted, IsConsistent}

module _ {D : Type 0} ⦃d : Double D⦄ where
  -- Clear leaves the plane consistent if the threshold is not negative.
  pub clear-IsConsistent : (p : DigitizedPlane D) → pos 0 ≤ℤ p.threshold → IsConsistent (clear p)
  unfolding clear
  clear-IsConsistent p h =
      (λ i. omega (arith, row_sum-zero (i * p.n_samples) p.n_samples), λ i. ground arith)

  scan_over-count :
      (thr : ℤ) (left j i : ℕ) (p : DigitizedPlane D)
      → occurs i (scan_over thr left j p).over_thr
        ≡ occurs i p.over_thr
          + (if ltb_ℤ thr (pos (p.tot_adc i)) && (leb j i && ltb i (j + left)) then 1 else 0)
  unfolding scan_over
  scan_over-count thr zero j i p = ground arith
  scan_over-count thr (suc left) j i p = ground (
    arith,
    scan_over-count thr left (j + 1) i
        (if ltb_ℤ thr (pos (p.tot_adc j)) then record p { over_thr = p.over_thr ++ j ∷ [] } else p),
    occurs-append i p.over_thr (j ∷ []),
  )

  scan_over-rest :
      (thr : ℤ) (left j : ℕ) (p : DigitizedPlane D)
      → let q = scan_over thr left j p in
        (q.strip_adc ≡ p.strip_adc)
        × (q.tot_adc ≡ p.tot_adc)
        × (q.n_samples ≡ p.n_samples)
        × (q.n_strips ≡ p.n_strips)
        × (q.threshold ≡ p.threshold)
  unfolding scan_over
  scan_over-rest thr zero j p = (refl, refl, refl, refl, refl)
  scan_over-rest thr (suc left) j p = ground (
    arith,
    scan_over-rest thr left (j + 1)
        (if ltb_ℤ thr (pos (p.tot_adc j)) then record p { over_thr = p.over_thr ++ j ∷ [] } else p),
  )

  -- Threshold makes the list of strips over threshold exactly right for the new threshold, whatever
  -- list and threshold the plane had before, and returns no more strips than the plane has.
  pub set_threshold-IsNoted : (thr : ℤ) (p : DigitizedPlane D) → IsNoted (set_threshold thr p)
  unfolding set_threshold
  set_threshold-IsNoted thr p i =
      let start = record p { over_thr = []; threshold = thr } in
      ground (
        arith,
        scan_over-rest thr p.n_strips 0 start,
        scan_over-count thr p.n_strips 0 i start,
        ap (λ (f : ℕ → ℕ). f i) (scan_over-rest thr p.n_strips 0 start).1,
      )

  -- If the list of strips over threshold is right and some strip of the plane is not over threshold,
  -- the list has fewer entries than the plane has strips: the next entry fits into fOverThr.
  pub over_thr_fits :
      (p : DigitizedPlane D) (i : ℕ)
      → IsNoted p
      → i < p.n_strips
      → is_over p i ≡ false
      → length p.over_thr < p.n_strips
  over_thr_fits p i noted lt below =
      length-le_of_count p.n_strips (i ∷ p.over_thr) (λ k. ground (arith, noted k))
        (λ k above. ground (arith, noted k))
