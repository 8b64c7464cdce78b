-- ===== src/DigitizedPlane/Deposit.antt =====
-- What Cumulate adds to the ADC array of a plane, without cross talk, and that the order of hits does
-- not matter to it.
use libsolgem.Base.{
  ℕ, zero, suc, ◌+◌, ◌-◌, ◌*◌, ◌<◌, ◌≡◌, refl, ap, ◌∙◌, fun_ext, false, ◌&&◌, inl, inr, Bool-cases,
  arith, ltb, leb, ◌==◌, if◌then◌else◌,
}
use libsolgem.Double.{Double, ◌⊕◌, of_ℕ, lesser}
use libsolgem.DigitizedPlane.{
  DigitizedPlane, GemHit, CrossTalk, hit_idx, hit_adc, hit_charge_at, count_sample, push_sample,
  main_samples, note_crossing, mark_signal, push_cluster, cumulate_strip, cumulate_strips, cumulate,
}
use libsolgem.DigitizedPlane.Invariant.{IsConsistent, cumulate-IsKept}

-- The sample that a row of samples `lo..hi` of strip `idx`, with `n` samples to a strip, has at `a`.
abbrev pub sample_at : (ℕ → ℕ) → ℕ → ℕ → ℕ → ℕ → ℕ → ℕ
sample_at sample idx n lo hi a =
    if leb (idx * n + lo) a && ltb a (idx * n + hi) then sample (a - idx * n) else 0

sample_at-step :
    (sample : ℕ → ℕ) (idx n k hi a : ℕ)
    → k < hi
    → (if a == idx * n + k then sample k else 0) + sample_at sample idx n (k + 1) hi a
      ≡ sample_at sample idx n k hi a
sample_at-step sample idx n k hi a h = elim (Bool-cases (a == idx * n + k)) [
  | inl here ↦ let place : k ≡ a - idx * n = ground arith in ground (arith, ap sample place)
  | inr other ↦ ground arith
]

module _ {D : Type 0} ⦃d : Double D⦄ where
  -- The sum of the samples that the strips of a hit have at place `a` of fStripADC, from strip `j`
  -- with `left` to go.
  pub deposit : GemHit D → ℕ → ℕ → ℕ → ℕ → ℕ
  deposit vv n zero j a = 0
  deposit vv n (suc left) j a =
      sample_at (hit_adc vv j) (hit_idx vv j) n 0 n a + deposit vv n left (j + 1) a

  count_sample-adc :
      (idx k nnn a : ℕ) (p : DigitizedPlane D)
      → (count_sample idx k nnn p).strip_adc a
        ≡ p.strip_adc a + (if a == idx * p.n_samples + k then nnn else 0)
  unfolding count_sample
  count_sample-adc idx k nnn a p = ground arith

  count_sample-n_samples :
      (idx k nnn : ℕ) (p : DigitizedPlane D) → (count_sample idx k nnn p).n_samples ≡ p.n_samples
  unfolding count_sample
  count_sample-n_samples idx k nnn p = ground arith

  push_sample-keep :
      (idx k nnn : ℕ) (p : DigitizedPlane D)
      → ((push_sample idx k nnn p).strip_adc ≡ p.strip_adc)
        × ((push_sample idx k nnn p).n_samples ≡ p.n_samples)
  unfolding push_sample
  push_sample-keep idx k nnn p = (refl, refl)

  main_samples-adc :
      (sample : ℕ → ℕ) (idx left k hi n a : ℕ) (p : DigitizedPlane D) (sum : D)
      → k + left ≡ hi
      → p.n_samples ≡ n
      → let q = (main_samples sample idx left k p sum).0 in
        (q.strip_adc a ≡ p.strip_adc a + sample_at sample idx n k hi a) × (q.n_samples ≡ n)
  unfolding main_samples
  main_samples-adc sample idx zero k hi n a p sum e f = ground arith
  main_samples-adc sample idx (suc left) k hi n a p sum e f =
      let pushed = push_sample idx k (sample k) p in
      let q = count_sample idx k (sample k) pushed in
      let kept = push_sample-keep idx k (sample k) p in
      let sizes = count_sample-n_samples idx k (sample k) pushed ∙ kept.1 ∙ f in
      let sum' = (if sample k == 0 then sum else sum ⊕ of_ℕ (sample k)) in
      let rest = main_samples-adc sample idx left (k + 1) hi n a q sum' (omega arith) sizes in
      (omega (arith, rest.0, adc_step, sample_at-step sample idx n k hi a (omega arith)), rest.1)
    where
      adc_step :
          (count_sample idx k (sample k) (push_sample idx k (sample k) p)).strip_adc a
          ≡ p.strip_adc a + (if a == idx * n + k then sample k else 0)
      adc_step =
          let kept = push_sample-keep idx k (sample k) p in
          rw (
            count_sample-adc idx k (sample k) a (push_sample idx k (sample k) p),
            kept.0,
            kept.1,
            f,
          )

  cumulate_strip-adc :
      (vv : GemHit D) (type clusterID j n a : ℕ) (p : DigitizedPlane D)
      → p.n_samples ≡ n
      → let q = cumulate_strip vv type clusterID j p in
        (q.strip_adc a ≡ p.strip_adc a + sample_at (hit_adc vv j) (hit_idx vv j) n 0 n a)
        × (q.n_samples ≡ n)
  unfolding cumulate_strip push_cluster note_crossing mark_signal
  cumulate_strip-adc vv type clusterID j n a p f =
      let idx = hit_idx vv j in
      let marked = mark_signal idx type (lesser (p.time idx) vv.time) (hit_charge_at vv j) p in
      ground (
        arith,
        main_samples-adc (hit_adc vv j) idx p.n_samples 0 n n a marked (of_ℕ 0) (omega arith) f,
      )

  cumulate_strips-adc :
      (vv : GemHit D) (type clusterID left j n a : ℕ) (p : DigitizedPlane D)
      → p.n_samples ≡ n
      → (cumulate_strips vv type clusterID left j p).strip_adc a
        ≡ p.strip_adc a + deposit vv n left j a
  unfolding cumulate_strips deposit
  cumulate_strips-adc vv type clusterID zero j n a p f = omega arith
  cumulate_strips-adc vv type clusterID (suc left) j n a p f =
      let first = cumulate_strip-adc vv type clusterID j n a p f in
      omega (
        arith,
        first.0,
        cumulate_strips-adc vv type clusterID left (j + 1) n a
            (cumulate_strip vv type clusterID j p) first.1,
      )

  -- Without cross talk Cumulate adds to every place of fStripADC the samples that the strips of the
  -- hit have there, and changes it nowhere else.
  pub cumulate-deposit :
      (ct : CrossTalk D) (uniform gaus : D) (vv : GemHit D) (type clusterID a : ℕ)
      (p : DigitizedPlane D)
      → ct.do_cross_talk ≡ false
      → (cumulate ct uniform gaus vv type clusterID p).strip_adc a
        ≡ p.strip_adc a + deposit vv p.n_samples vv.size 0 a
  unfolding cumulate
  cumulate-deposit ct uniform gaus vv type clusterID a p off =
      rw off (cumulate_strips-adc vv type clusterID vv.size 0 p.n_samples a p refl)

  -- The strips of a hit are strips of the plane.
  abbrev pub Fits : GemHit D → DigitizedPlane D → Type 0
  Fits vv p = (n : ℕ) → n < vv.size → hit_idx vv n < p.n_strips

  -- Two hits, one after the other.
  record IsBoth (vv ww : GemHit D) (p q : DigitizedPlane D) : Type 0 where
    adc :
        (a : ℕ)
        → q.strip_adc a
          ≡ p.strip_adc a + deposit vv p.n_samples vv.size 0 a + deposit ww p.n_samples ww.size 0 a
    samples : q.n_samples ≡ p.n_samples
    consistent : IsConsistent q

  cumulate_twice-IsBoth :
      (ct : CrossTalk D) (u g u' g' : D) (vv ww : GemHit D) (type type' id id' : ℕ)
      (p : DigitizedPlane D)
      → ct.do_cross_talk ≡ false
      → Fits vv p
      → Fits ww p
      → IsConsistent p
      → IsBoth vv ww p (cumulate ct u' g' ww type' id' (cumulate ct u g vv type id p))
  cumulate_twice-IsBoth ct u g u' g' vv ww type type' id id' p off fv fw c =
      let q = cumulate ct u g vv type id p in
      let first = cumulate-IsKept ct u g vv type id p fv in
      let second = cumulate-IsKept ct u' g' ww type' id' q (λ n lt. rw (first.strips) (fw n lt)) in
      record {
        adc = λ a. rw (
          cumulate-deposit ct u' g' ww type' id' a q off,
          cumulate-deposit ct u g vv type id a p off,
          first.samples,
        );
        samples = second.samples ∙ first.samples;
        consistent = second.consistent (first.consistent c);
      }

  IsBoth-adc :
      (vv ww : GemHit D) (p q r : DigitizedPlane D)
      → IsBoth vv ww p q
      → IsBoth ww vv p r
      → (a : ℕ) → q.strip_adc a ≡ r.strip_adc a
  IsBoth-adc vv ww p q r h k a = omega (arith, h.adc a, k.adc a)

  IsBoth-tot :
      (vv ww : GemHit D) (p q r : DigitizedPlane D) (i : ℕ)
      → IsBoth vv ww p q
      → IsBoth ww vv p r
      → q.tot_adc i ≡ r.tot_adc i
  IsBoth-tot vv ww p q r i h k = rw (
    h.consistent.0 i,
    k.consistent.0 i,
    h.samples,
    k.samples,
    fun_ext (IsBoth-adc vv ww p q r h k),
  )

  -- Without cross talk, two hits added to a consistent plane in either order leave the same samples
  -- and the same total ADC on every strip.
  pub cumulate_comm :
      (ct : CrossTalk D) (u g u' g' : D) (vv ww : GemHit D) (type type' id id' i : ℕ)
      (p : DigitizedPlane D)
      → ct.do_cross_talk ≡ false
      → Fits vv p
      → Fits ww p
      → IsConsistent p
      → let q = cumulate ct u' g' ww type' id' (cumulate ct u g vv type id p) in
        let r = cumulate ct u g vv type id (cumulate ct u' g' ww type' id' p) in
        ((a : ℕ) → q.strip_adc a ≡ r.strip_adc a) × (q.tot_adc i ≡ r.tot_adc i)
  cumulate_comm ct u g u' g' vv ww type type' id id' i p off fv fw c =
      let q = cumulate_twice-IsBoth ct u g u' g' vv ww type type' id id' p off fv fw c in
      let r = cumulate_twice-IsBoth ct u' g' u g ww vv type' type id' id p off fw fv c in
      (IsBoth-adc vv ww p _ _ q r, IsBoth-tot vv ww p _ _ i q r)
