-- ===== src/DigitizedPlane/Raise.antt =====
-- What adding samples to one strip of TSBSDigitizedPlane changes.
use libsolgem.Base.{ℕ, zero, suc, ◌+◌, ◌*◌, ◌≤◌, ◌<◌, ◌≡◌, ◌≢◌, refl, ◌∙◌, arith}
use libsolgem.Double.{Double}
use libsolgem.DigitizedPlane.{
  DigitizedPlane, count_sample, push_sample, main_samples, induced_samples, mark_signal,
}
use libsolgem.DigitizedPlane.Sums.{row_sum, row_sum-update}

module _ {D : Type 0} where
  -- The total of each strip is the sum of its samples.
  abbrev pub IsTallied : DigitizedPlane D → Type 0
  IsTallied p = (i : ℕ) → p.tot_adc i ≡ row_sum p.strip_adc (i * p.n_samples) p.n_samples

  -- q is p after changes to the signal of strip `idx` alone, which did not lower its total.
  pub record IsRaised (idx : ℕ) (p q : DigitizedPlane D) : Type 0 where
    pub samples : q.n_samples ≡ p.n_samples
    pub strips : q.n_strips ≡ p.n_strips
    pub threshold : q.threshold ≡ p.threshold
    pub over_thr : q.over_thr ≡ p.over_thr
    pub others : (i : ℕ) → i ≢ idx → q.tot_adc i ≡ p.tot_adc i
    pub raised : p.tot_adc idx ≤ q.tot_adc idx
    pub tallied : IsTallied p → IsTallied q

  pub IsRaised-refl : (idx : ℕ) (p : DigitizedPlane D) → IsRaised idx p p
  IsRaised-refl idx p = record {
    samples = refl;
    strips = refl;
    threshold = refl;
    over_thr = refl;
    others = λ i ne. refl;
    raised = omega arith;
    tallied = λ t. t;
  }

  pub IsRaised-trans :
      (idx : ℕ) (p q r : DigitizedPlane D) → IsRaised idx p q → IsRaised idx q r → IsRaised idx p r
  IsRaised-trans idx p q r h k = record {
    samples = k.samples ∙ h.samples;
    strips = k.strips ∙ h.strips;
    threshold = k.threshold ∙ h.threshold;
    over_thr = k.over_thr ∙ h.over_thr;
    others = λ i ne. k.others i ne ∙ h.others i ne;
    raised = omega (arith, h.raised, k.raised);
    tallied = λ t. k.tallied (h.tallied t);
  }

module _ {D : Type 0} ⦃d : Double D⦄ where
  pub count_sample-IsTallied :
      (idx k nnn : ℕ) (p : DigitizedPlane D)
      → k < p.n_samples
      → IsTallied p
      → IsTallied (count_sample idx k nnn p)
  unfolding count_sample
  count_sample-IsTallied idx k nnn p h t i =
      ground (arith, t i, row_sum-update p.strip_adc p.n_samples idx k i nnn)

  pub count_sample-IsRaised :
      (idx k nnn : ℕ) (p : DigitizedPlane D)
      → k < p.n_samples
      → IsRaised idx p (count_sample idx k nnn p)
  unfolding count_sample
  count_sample-IsRaised idx k nnn p h = record {
    samples = ground arith;
    strips = ground arith;
    threshold = ground arith;
    over_thr = ground arith;
    others = λ i ne. ground arith;
    raised = ground arith;
    tallied = count_sample-IsTallied idx k nnn p h;
  }

  pub push_sample-IsRaised :
      (idx k nnn : ℕ) (p : DigitizedPlane D) → IsRaised idx p (push_sample idx k nnn p)
  unfolding push_sample
  push_sample-IsRaised idx k nnn p = record {
    samples = refl;
    strips = refl;
    threshold = refl;
    over_thr = refl;
    others = λ i ne. refl;
    raised = omega arith;
    tallied = λ t. t;
  }

  pub induced_samples-IsRaised :
      (sample : ℕ → ℕ) (idx left k : ℕ) (p : DigitizedPlane D)
      → k + left ≡ p.n_samples
      → IsRaised idx p (induced_samples sample idx left k p)
  unfolding induced_samples
  induced_samples-IsRaised sample idx zero k p e = IsRaised-refl idx p
  induced_samples-IsRaised sample idx (suc left) k p e =
      let q = count_sample idx k (sample k) p in
      let first = count_sample-IsRaised idx k (sample k) p (omega arith) in
      IsRaised-trans idx p q _ first
        (induced_samples-IsRaised sample idx left (k + 1) q (omega (arith, first.samples)))

  pub main_samples-IsRaised :
      (sample : ℕ → ℕ) (idx left k : ℕ) (p : DigitizedPlane D) (sum : D)
      → k + left ≡ p.n_samples
      → IsRaised idx p (main_samples sample idx left k p sum).0
  unfolding main_samples
  main_samples-IsRaised sample idx zero k p sum e = IsRaised-refl idx p
  main_samples-IsRaised sample idx (suc left) k p sum e =
      let pushed = push_sample idx k (sample k) p in
      let q = count_sample idx k (sample k) pushed in
      let kept = push_sample-IsRaised idx k (sample k) p in
      let first = count_sample-IsRaised idx k (sample k) pushed (omega (arith, kept.samples)) in
      let both = IsRaised-trans idx p pushed q kept first in
      IsRaised-trans idx p q _ both
        (main_samples-IsRaised sample idx left (k + 1) q _ (omega (arith, both.samples)))

  pub mark_signal-IsRaised :
      (idx type : ℕ) (time charge : D) (p : DigitizedPlane D)
      → IsRaised idx p (mark_signal idx type time charge p)
  unfolding mark_signal
  mark_signal-IsRaised idx type time charge p = record {
    samples = refl;
    strips = refl;
    threshold = refl;
    over_thr = refl;
    others = λ i ne. refl;
    raised = omega arith;
    tallied = λ t. t;
  }

  pub mark_signal-samples :
      (idx type : ℕ) (time charge : D) (p : DigitizedPlane D)
      → 0 + p.n_samples ≡ (mark_signal idx type time charge p).n_samples
  unfolding mark_signal
  mark_signal-samples idx type time charge p = omega arith
