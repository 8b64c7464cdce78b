-- ===== src/DigitizedPlane/Invariant.antt =====
-- TSBSDigitizedPlane keeps its totals and its list of strips over threshold right.
use libsolgem.Base.{
  ℕ, zero, suc, ◌+◌, ◌<◌, ℤ, pos, ◌≡◌, refl, ◌∙◌, Bool, not, ◌&&◌, ◌||◌, inl, inr, Bool-cases, [],
  ◌∷◌, arith, ltb, if◌then◌else◌,
}
use native.Mathlib.Decide.{dec_lt}
use libsolgem.Base.Int.{ltb_ℤ, leb_ℤ, ◌+ℤ◌, ◌-ℤ◌, pos_part}
use libsolgem.Double.{Double, ◌⊕◌, ◌⊗◌, ◌≺◌, ◌≼◌, of_ℕ, decimal, lesser}
use libsolgem.DigitizedPlane.{
  GemHit, DigitizedPlane, CrossTalk, hit_idx, hit_adc, is_over, main_samples, induced_samples,
  note_crossing, cumulate_strip, cumulate_strips, induce_strip, induce_strips, cumulate,
  mark_signal, push_cluster, scale_sample, hit_charge_at,
}
use libsolgem.DigitizedPlane.Raise.{
  IsTallied, IsRaised, IsRaised-trans, main_samples-IsRaised, induced_samples-IsRaised,
  mark_signal-IsRaised, mark_signal-samples,
}
use libsolgem.DigitizedPlane.Sums.{occurs, occurs-append}

module _ {D : Type 0} ⦃d : Double D⦄ where
  -- The list of strips over threshold holds each strip of the plane whose total is over the
  -- threshold once, and nothing else.
  abbrev pub IsNoted : DigitizedPlane D → Type 0
  IsNoted p = (i : ℕ) → occurs i p.over_thr ≡ (if is_over p i && ltb i p.n_strips then 1 else 0)

  abbrev pub IsConsistent : DigitizedPlane D → Type 0
  IsConsistent p = IsTallied p × IsNoted p

  note_crossing-IsNoted :
      (idx : ℕ) (p q : DigitizedPlane D)
      → IsRaised idx p q
      → idx < p.n_strips
      → IsNoted p
      → IsNoted (note_crossing (not (is_over p idx)) idx q)
  unfolding note_crossing
  note_crossing-IsNoted idx p q r h noted i = elim (dec_lt i idx) [
    | yes lt ↦ ground (
      arith,
      r.others i,
      r.threshold,
      r.strips,
      r.over_thr,
      noted i,
      occurs-append i p.over_thr (idx ∷ []),
    )
    | no ge ↦ ground (
      arith,
      r.others i,
      r.threshold,
      r.strips,
      r.over_thr,
      r.raised,
      noted i,
      occurs-append i p.over_thr (idx ∷ []),
    )
  ]

  note_crossing-IsTallied :
      (was_below : Bool) (idx : ℕ) (q : DigitizedPlane D)
      → IsTallied q
      → IsTallied (note_crossing was_below idx q)
  unfolding note_crossing
  note_crossing-IsTallied was_below idx q t i = ground (arith, t i)

  -- q is p after some calls: the sizes and the threshold stand, and the plane stays consistent.
  pub record IsKept (p q : DigitizedPlane D) : Type 0 where
    pub samples : q.n_samples ≡ p.n_samples
    pub strips : q.n_strips ≡ p.n_strips
    pub threshold : q.threshold ≡ p.threshold
    pub consistent : IsConsistent p → IsConsistent q

  IsKept-trans : (p q r : DigitizedPlane D) → IsKept p q → IsKept q r → IsKept p r
  IsKept-trans p q r h k = record {
    samples = k.samples ∙ h.samples;
    strips = k.strips ∙ h.strips;
    threshold = k.threshold ∙ h.threshold;
    consistent = λ c. k.consistent (h.consistent c);
  }

  IsKept-refl : (p : DigitizedPlane D) → IsKept p p
  IsKept-refl p = record { samples = refl; strips = refl; threshold = refl; consistent = λ c. c }

  note_crossing-IsKept :
      (idx : ℕ) (p q : DigitizedPlane D)
      → IsRaised idx p q
      → idx < p.n_strips
      → IsKept p (note_crossing (not (is_over p idx)) idx q)
  note_crossing-IsKept idx p q r h = record {
    samples = sizes.0 ∙ r.samples;
    strips = sizes.1 ∙ r.strips;
    threshold = sizes.2 ∙ r.threshold;
    consistent = λ c. (
      note_crossing-IsTallied (not (is_over p idx)) idx q (r.tallied c.0),
      note_crossing-IsNoted idx p q r h c.1,
    );
  }
    where
      sizes :
          let n = note_crossing (not (is_over p idx)) idx q in
          (n.n_samples ≡ q.n_samples) × (n.n_strips ≡ q.n_strips) × (n.threshold ≡ q.threshold)
      sizes = unfold note_crossing in ground arith

  push_cluster-IsKept :
      (idx : ℕ) (weight : D) (clusterID : ℕ) (p : DigitizedPlane D)
      → IsKept p (push_cluster idx weight clusterID p)
  unfolding push_cluster
  push_cluster-IsKept idx weight clusterID p = record {
    samples = refl;
    strips = refl;
    threshold = refl;
    consistent = λ c. c;
  }

  cumulate_strip-IsKept :
      (vv : GemHit D) (type clusterID j : ℕ) (p : DigitizedPlane D)
      → hit_idx vv j < p.n_strips
      → IsKept p (cumulate_strip vv type clusterID j p)
  unfolding cumulate_strip
  cumulate_strip-IsKept vv type clusterID j p h =
      let idx = hit_idx vv j in
      let time = lesser (p.time idx) vv.time in
      let marked = mark_signal idx type time (hit_charge_at vv j) p in
      let (counted, sum) = main_samples (hit_adc vv j) idx p.n_samples 0 marked (of_ℕ 0) in
      let raised =
        IsRaised-trans idx p marked counted
          (mark_signal-IsRaised idx type time (hit_charge_at vv j) p)
          (main_samples-IsRaised (hit_adc vv j) idx p.n_samples 0 marked (of_ℕ 0)
            (mark_signal-samples idx type time (hit_charge_at vv j) p)) in
      IsKept-trans p _ _ (note_crossing-IsKept idx p counted raised h)
        (push_cluster-IsKept idx _ clusterID _)

  cumulate_strips-IsKept :
      (vv : GemHit D) (type clusterID left j : ℕ) (p : DigitizedPlane D)
      → ((n : ℕ) → n < j + left → hit_idx vv n < p.n_strips)
      → IsKept p (cumulate_strips vv type clusterID left j p)
  unfolding cumulate_strips
  cumulate_strips-IsKept vv type clusterID zero j p h = IsKept-refl p
  cumulate_strips-IsKept vv type clusterID (suc left) j p h =
      let q = cumulate_strip vv type clusterID j p in
      let first = cumulate_strip-IsKept vv type clusterID j p (h j (omega arith)) in
      IsKept-trans p q _ first (
        cumulate_strips-IsKept vv type clusterID left (j + 1) q
          (λ n lt. rw (first.strips) (h n (omega arith))))

  induced-IsKept :
      (vv : GemHit D) (factor time charge : D) (j to : ℕ) (p : DigitizedPlane D)
      → to < p.n_strips
      → IsKept p (
          note_crossing (not (is_over p to)) to (
            induced_samples
              (λ k. scale_sample factor (hit_adc vv j k))
              to
              p.n_samples
              0
              (mark_signal to 4 time charge p)))
  induced-IsKept vv factor time charge j to p h =
      let marked = mark_signal to 4 time charge p in
      note_crossing-IsKept to p _
        (IsRaised-trans to p marked _ (mark_signal-IsRaised to 4 time charge p) (
          induced_samples-IsRaised (λ k. scale_sample factor (hit_adc vv j k)) to p.n_samples 0
            marked (mark_signal-samples to 4 time charge p)))
        h

  induce_strip-IsKept :
      (vv : GemHit D) (shift : ℤ) (factor : D) (j : ℕ) (p : DigitizedPlane D)
      → IsKept p (induce_strip vv shift factor j p)
  unfolding induce_strip
  induce_strip-IsKept vv shift factor j p =
      let idx = hit_idx vv j in
      let target = pos idx +ℤ shift in
      elim (Bool-cases (ltb_ℤ target (pos 0) || leb_ℤ (pos p.n_strips) target)) [
        | inl outside ↦ rw outside (IsKept-refl p)
        | inr inside ↦ rw inside (
            induced-IsKept vv factor (lesser (p.time idx) vv.time) (factor ⊗ hit_charge_at vv j) j
              (pos_part target) p (ground arith))
      ]

  induce_strips-IsKept :
      (vv : GemHit D) (shift : ℤ) (factor : D) (left j : ℕ) (p : DigitizedPlane D)
      → IsKept p (induce_strips vv shift factor left j p)
  unfolding induce_strips
  induce_strips-IsKept vv shift factor zero j p = IsKept-refl p
  induce_strips-IsKept vv shift factor (suc left) j p =
      IsKept-trans p _ _ (induce_strip-IsKept vv shift factor j p)
        (induce_strips-IsKept vv shift factor left (j + 1) (induce_strip vv shift factor j p))

  pub cumulate-IsKept :
      (ct : CrossTalk D) (uniform gaus : D) (vv : GemHit D) (type clusterID : ℕ)
      (p : DigitizedPlane D)
      → ((n : ℕ) → n < vv.size → hit_idx vv n < p.n_strips)
      → IsKept p (cumulate ct uniform gaus vv type clusterID p)
  unfolding cumulate
  cumulate-IsKept ct uniform gaus vv type clusterID p h =
      let main = cumulate_strips vv type clusterID vv.size 0 p in
      let shift =
        if uniform ≺ decimal (pos 5) 1 then pos 0 -ℤ ct.n_strip_apart else ct.n_strip_apart in
      let kept = cumulate_strips-IsKept vv type clusterID vv.size 0 p (λ n lt. h n (omega arith)) in
      let factor = ct.factor ⊕ gaus in
      elim (Bool-cases (not ct.do_cross_talk)) [
        | inl off ↦ rw off kept
        | inr on ↦ elim (Bool-cases (factor ≼ of_ℕ 0)) [
          | inl none_induced ↦ rw (on, none_induced) kept
          | inr some_induced ↦
              rw (on, some_induced)
                (IsKept-trans p main _ kept (induce_strips-IsKept vv shift factor vv.size 0 main))
        ]
      ]

  -- Cumulate, with or without cross talk and whatever the random numbers, keeps a plane consistent
  -- if the strips of the hit are strips of the plane: where before it the total of each strip was
  -- the sum of its samples and the list of strips over threshold held each strip of the plane with a
  -- total over the threshold exactly once and nothing else, the same is true after it. The sizes
  -- and the threshold of the plane stand.
  pub cumulate-IsConsistent :
      (ct : CrossTalk D) (uniform gaus : D) (vv : GemHit D) (type clusterID : ℕ)
      (p : DigitizedPlane D)
      → ((n : ℕ) → n < vv.size → hit_idx vv n < p.n_strips)
      → IsConsistent p
      → let q = cumulate ct uniform gaus vv type clusterID p in
        IsConsistent q
        × (q.n_samples ≡ p.n_samples)
        × (q.n_strips ≡ p.n_strips)
        × (q.threshold ≡ p.threshold)
  cumulate-IsConsistent ct uniform gaus vv type clusterID p h c =
      let k = cumulate-IsKept ct uniform gaus vv type clusterID p h in
      (k.consistent c, k.samples, k.strips, k.threshold)
