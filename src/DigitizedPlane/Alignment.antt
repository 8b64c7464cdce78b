-- ===== src/DigitizedPlane/Alignment.antt =====
-- The lists that TSBSDigitizedPlane keeps for each strip, fStripClusters, fStripWeightInCluster and
-- fStripClusterADC, run in parallel: entry n of each is about the same hit.
use libsolgem.Base.{
  ℕ, zero, suc, ◌+◌, ◌<◌, ◌≤◌, ℤ, pos, ◌≡◌, refl, ap, ◌∙◌, Bool, not, ◌&&◌, ◌||◌, inl, inr,
  Bool-cases, List, [], ◌∷◌, arith, length, length-append, ltb, leb, ◌==◌, if◌then◌else◌,
}
use libsolgem.Base.Int.{ltb_ℤ, leb_ℤ, ◌+ℤ◌, ◌-ℤ◌, pos_part}
use libsolgem.Double.{Double, ◌⊕◌, ◌⊗◌, ◌≺◌, ◌≼◌, of_ℕ, decimal, lesser}
use libsolgem.DigitizedPlane.{
  DigitizedPlane, GemHit, CrossTalk, hit_idx, hit_adc, hit_charge_at, is_over, scale_sample,
  count_sample, push_sample, main_samples, induced_samples, note_crossing, mark_signal,
  push_cluster, cumulate_strip, cumulate_strips, induce_strip, induce_strips, cumulate,
}

module _ {D : Type 0} ⦃d : Double D⦄ where
  -- The plane has at most 6 samples, the rows that fStripClusterADC has, and the three lists of strip
  -- `i` are equally long, for each sample of the plane.
  pub record IsAligned (p : DigitizedPlane D) : Type 0 where
    pub few : p.n_samples ≤ 6
    pub weights : (i : ℕ) → length (p.strip_weight i) ≡ length (p.strip_clusters i)
    pub samples :
        (k i : ℕ) → k < p.n_samples → length (p.strip_cluster_adc k i) ≡ length (p.strip_clusters i)

  -- q has the lists of p.
  pub record HasLists (p q : DigitizedPlane D) : Type 0 where
    pub n_samples : q.n_samples ≡ p.n_samples
    pub clusters : q.strip_clusters ≡ p.strip_clusters
    pub weight : q.strip_weight ≡ p.strip_weight
    pub adc : q.strip_cluster_adc ≡ p.strip_cluster_adc

  pub count_sample-HasLists :
      (idx k nnn : ℕ) (p : DigitizedPlane D) → HasLists p (count_sample idx k nnn p)
  unfolding count_sample
  count_sample-HasLists idx k nnn p = ground arith

  pub note_crossing-HasLists :
      (was_below : Bool) (idx : ℕ) (p : DigitizedPlane D)
      → HasLists p (note_crossing was_below idx p)
  unfolding note_crossing
  note_crossing-HasLists was_below idx p = ground arith

  pub HasLists-trans : (p q r : DigitizedPlane D) → HasLists p q → HasLists q r → HasLists p r
  HasLists-trans p q r h k = record {
    n_samples = k.n_samples ∙ h.n_samples;
    clusters = k.clusters ∙ h.clusters;
    weight = k.weight ∙ h.weight;
    adc = k.adc ∙ h.adc;
  }

  pub induced_samples-HasLists :
      (sample : ℕ → ℕ) (idx left k : ℕ) (p : DigitizedPlane D)
      → HasLists p (induced_samples sample idx left k p)
  unfolding induced_samples
  induced_samples-HasLists sample idx zero k p = record {
    n_samples = refl;
    clusters = refl;
    weight = refl;
    adc = refl;
  }
  induced_samples-HasLists sample idx (suc left) k p =
      HasLists-trans p _ _ (count_sample-HasLists idx k (sample k) p)
        (induced_samples-HasLists sample idx left (k + 1) (count_sample idx k (sample k) p))

  HasLists-IsAligned : (p q : DigitizedPlane D) → HasLists p q → IsAligned p → IsAligned q
  HasLists-IsAligned p q h a = record {
    few = omega (arith, h.n_samples, a.few);
    weights = λ i. rw (h.weight, h.clusters) (a.weights i);
    samples = λ k i lt. rw (h.adc, h.clusters) (a.samples k i (omega (arith, h.n_samples)));
  }

  push_sample-length :
      (idx k nnn n i : ℕ) (p : DigitizedPlane D)
      → length ((push_sample idx k nnn p).strip_cluster_adc n i)
        ≡ (if (n == k) && (i == idx) then 1 else 0) + length (p.strip_cluster_adc n i)
  unfolding push_sample
  push_sample-length idx k nnn n i p =
      ground (arith, length-append (p.strip_cluster_adc k idx) (nnn ∷ []))

  -- The loop over samples adds one entry to the list of each sample of strip `idx`.
  pub record IsPushed (idx lo hi : ℕ) (p q : DigitizedPlane D) : Type 0 where
    pub n_samples : q.n_samples ≡ p.n_samples
    pub clusters : q.strip_clusters ≡ p.strip_clusters
    pub weight : q.strip_weight ≡ p.strip_weight
    pub grown :
        (n i : ℕ)
        → length (q.strip_cluster_adc n i)
          ≡ (if (i == idx) && (leb lo n && ltb n hi) then 1 else 0)
            + length (p.strip_cluster_adc n i)

  pub main_samples-IsPushed :
      (sample : ℕ → ℕ) (idx left k hi : ℕ) (p : DigitizedPlane D) (sum : D)
      → k + left ≡ hi
      → IsPushed idx k hi p (main_samples sample idx left k p sum).0
  unfolding main_samples
  main_samples-IsPushed sample idx zero k hi p sum e = record {
    n_samples = refl;
    clusters = refl;
    weight = refl;
    grown = λ n i. ground arith;
  }
  main_samples-IsPushed sample idx (suc left) k hi p sum e =
      let pushed = push_sample idx k (sample k) p in
      let q = count_sample idx k (sample k) pushed in
      let counted = count_sample-HasLists idx k (sample k) pushed in
      let sum' = (if sample k == 0 then sum else sum ⊕ of_ℕ (sample k)) in
      let rest = main_samples-IsPushed sample idx left (k + 1) hi q sum' (omega arith) in
      record {
        n_samples = rest.n_samples ∙ counted.n_samples ∙ kept.0;
        clusters = rest.clusters ∙ counted.clusters ∙ kept.1;
        weight = rest.weight ∙ counted.weight ∙ kept.2;
        grown = λ n i. ground (
          arith,
          rest.grown n i,
          push_sample-length idx k (sample k) n i p,
          ap (λ (f : ℕ → ℕ → List ℕ). length (f n i)) counted.adc,
        );
      }
    where
      kept :
          let q = push_sample idx k (sample k) p in
          (q.n_samples ≡ p.n_samples)
          × (q.strip_clusters ≡ p.strip_clusters)
          × (q.strip_weight ≡ p.strip_weight)
      kept = unfold push_sample in (refl, refl, refl)

  pub mark_signal-HasLists :
      (idx type : ℕ) (time charge : D) (p : DigitizedPlane D)
      → HasLists p (mark_signal idx type time charge p)
  unfolding mark_signal
  mark_signal-HasLists idx type time charge p = record {
    n_samples = refl;
    clusters = refl;
    weight = refl;
    adc = refl;
  }

  -- One entry in every list of strip `idx` keeps the lists aligned.
  push_cluster-IsAligned :
      (idx : ℕ) (weight : D) (clusterID : ℕ) (p q : DigitizedPlane D)
      → IsAligned p
      → IsPushed idx 0 p.n_samples p q
      → IsAligned (push_cluster idx weight clusterID q)
  unfolding push_cluster
  push_cluster-IsAligned idx weight clusterID p q a g = record {
    few = omega (arith, g.n_samples, a.few);
    weights = λ i. ground (
      arith,
      a.weights i,
      ap (λ (f : ℕ → List D). length (f i)) g.weight,
      ap (λ (f : ℕ → List ℕ). length (f i)) g.clusters,
      length-append (q.strip_weight idx) (weight ∷ []),
      length-append (q.strip_clusters idx) (clusterID ∷ []),
    );
    samples = λ k i lt. ground (
      arith,
      a.samples k i,
      g.n_samples,
      g.grown k i,
      ap (λ (f : ℕ → List ℕ). length (f i)) g.clusters,
      length-append (q.strip_clusters idx) (clusterID ∷ []),
    );
  }

  IsPushed-HasLists :
      (idx lo hi : ℕ) (p q r : DigitizedPlane D)
      → IsPushed idx lo hi p q
      → HasLists q r
      → IsPushed idx lo hi p r
  IsPushed-HasLists idx lo hi p q r g h = record {
    n_samples = h.n_samples ∙ g.n_samples;
    clusters = h.clusters ∙ g.clusters;
    weight = h.weight ∙ g.weight;
    grown = λ n i. rw (h.adc) (g.grown n i);
  }

  HasLists-IsPushed :
      (idx lo hi : ℕ) (p q r : DigitizedPlane D)
      → HasLists p q
      → IsPushed idx lo hi q r
      → IsPushed idx lo hi p r
  HasLists-IsPushed idx lo hi p q r h g = record {
    n_samples = g.n_samples ∙ h.n_samples;
    clusters = g.clusters ∙ h.clusters;
    weight = g.weight ∙ h.weight;
    grown = λ n i. rw (← h.adc) (g.grown n i);
  }

  cumulate_strip-IsAligned :
      (vv : GemHit D) (type clusterID j : ℕ) (p : DigitizedPlane D)
      → IsAligned p
      → IsAligned (cumulate_strip vv type clusterID j p)
  unfolding cumulate_strip
  cumulate_strip-IsAligned vv type clusterID j p a =
      let idx = hit_idx vv j in
      let time = lesser (p.time idx) vv.time in
      let marked = mark_signal idx type time (hit_charge_at vv j) p in
      let (counted, sum) = main_samples (hit_adc vv j) idx p.n_samples 0 marked (of_ℕ 0) in
      let noted = note_crossing (not (is_over p idx)) idx counted in
      push_cluster-IsAligned idx _ clusterID p noted a (
        IsPushed-HasLists idx 0 p.n_samples p counted noted
          (HasLists-IsPushed idx 0 p.n_samples p marked counted
            (mark_signal-HasLists idx type time (hit_charge_at vv j) p)
            (main_samples-IsPushed (hit_adc vv j) idx p.n_samples 0 p.n_samples marked (of_ℕ 0)
              (omega arith)))
          (note_crossing-HasLists (not (is_over p idx)) idx counted))

  cumulate_strips-IsAligned :
      (vv : GemHit D) (type clusterID left j : ℕ) (p : DigitizedPlane D)
      → IsAligned p
      → IsAligned (cumulate_strips vv type clusterID left j p)
  unfolding cumulate_strips
  cumulate_strips-IsAligned vv type clusterID zero j p a = a
  cumulate_strips-IsAligned vv type clusterID (suc left) j p a =
      cumulate_strips-IsAligned vv type clusterID left (j + 1)
        (cumulate_strip vv type clusterID j p) (cumulate_strip-IsAligned vv type clusterID j p a)

  induce_strip-IsAligned :
      (vv : GemHit D) (shift : ℤ) (factor : D) (j : ℕ) (p : DigitizedPlane D)
      → IsAligned p
      → IsAligned (induce_strip vv shift factor j p)
  unfolding induce_strip
  induce_strip-IsAligned vv shift factor j p a =
      let target = pos (hit_idx vv j) +ℤ shift in
      let to = pos_part target in
      let time = lesser (p.time (hit_idx vv j)) vv.time in
      let charge = factor ⊗ hit_charge_at vv j in
      let sample = λ (k : ℕ). scale_sample factor (hit_adc vv j k) in
      elim (Bool-cases (ltb_ℤ target (pos 0) || leb_ℤ (pos p.n_strips) target)) [
        | inl outside ↦ rw outside a
        | inr inside ↦ rw inside (
            HasLists-IsAligned p _
              (HasLists-trans p _ _ (mark_signal-HasLists to 4 time charge p) (
                HasLists-trans _ _ _
                  (induced_samples-HasLists sample to p.n_samples 0
                    (mark_signal to 4 time charge p))
                  (note_crossing-HasLists (not (is_over p to)) to _)))
              a)
      ]

  induce_strips-IsAligned :
      (vv : GemHit D) (shift : ℤ) (factor : D) (left j : ℕ) (p : DigitizedPlane D)
      → IsAligned p
      → IsAligned (induce_strips vv shift factor left j p)
  unfolding induce_strips
  induce_strips-IsAligned vv shift factor zero j p a = a
  induce_strips-IsAligned vv shift factor (suc left) j p a =
      induce_strips-IsAligned vv shift factor left (j + 1) (induce_strip vv shift factor j p)
        (induce_strip-IsAligned vv shift factor j p a)

  -- In a plane of at most 6 samples Cumulate keeps the lists of each strip aligned: as many weights, and for each sample as many ADC
  -- values, as cluster numbers, with and without cross talk.
  pub cumulate-IsAligned :
      (ct : CrossTalk D) (uniform gaus : D) (vv : GemHit D) (type clusterID : ℕ)
      (p : DigitizedPlane D)
      → IsAligned p
      → IsAligned (cumulate ct uniform gaus vv type clusterID p)
  unfolding cumulate
  cumulate-IsAligned ct uniform gaus vv type clusterID p a =
      let main = cumulate_strips vv type clusterID vv.size 0 p in
      let shift =
        if uniform ≺ decimal (pos 5) 1 then pos 0 -ℤ ct.n_strip_apart else ct.n_strip_apart in
      let kept = cumulate_strips-IsAligned vv type clusterID vv.size 0 p a in
      let factor = ct.factor ⊕ gaus in
      elim (Bool-cases (not ct.do_cross_talk)) [
        | inl off ↦ rw off kept
        | inr on ↦ elim (Bool-cases (factor ≼ of_ℕ 0)) [
          | inl none_induced ↦ rw (on, none_induced) kept
          | inr some_induced ↦
              rw (on, some_induced) (induce_strips-IsAligned vv shift factor vv.size 0 main kept)
        ]
      ]
