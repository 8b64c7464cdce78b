-- ===== src/DigitizedPlane/Names.antt =====
-- The cluster numbers that Cumulate puts into the lists fStripClusters.
use libsolgem.Base.{
  ℕ, zero, suc, ◌+◌, ℤ, pos, ◌≡◌, refl, ◌∙◌, not, ◌||◌, inl, inr, Bool-cases, [], ◌∷◌, All,
  All-append, arith, ◌==◌, if◌then◌else◌,
}
use libsolgem.Base.Int.{ltb_ℤ, leb_ℤ, ◌+ℤ◌, ◌-ℤ◌, pos_part}
use libsolgem.Double.{Double, ◌⊕◌, ◌⊗◌, ◌≺◌, ◌≼◌, of_ℕ, decimal, lesser}
use libsolgem.DigitizedPlane.{
  DigitizedPlane, GemHit, CrossTalk, hit_idx, hit_adc, hit_charge_at, is_over, scale_sample,
  main_samples, note_crossing, mark_signal, push_cluster, cumulate_strip, cumulate_strips,
  induce_strip, induce_strips, cumulate,
}
use libsolgem.DigitizedPlane.Alignment.{
  HasLists, HasLists-trans, induced_samples-HasLists, mark_signal-HasLists, note_crossing-HasLists,
  main_samples-IsPushed,
}

module _ {D : Type 0} ⦃d : Double D⦄ (P : ℕ → Type 0) where
  -- All cluster numbers in the lists of the plane have the property.
  abbrev pub AllClusters : DigitizedPlane D → Type 0
  AllClusters p = (i : ℕ) → All P (p.strip_clusters i)

  HasLists-AllClusters : (p q : DigitizedPlane D) → HasLists p q → AllClusters p → AllClusters q
  HasLists-AllClusters p q h a i = rw h.clusters (a i)

  push_cluster-AllClusters :
      (idx : ℕ) (weight : D) (clusterID : ℕ) (p q : DigitizedPlane D)
      → q.strip_clusters ≡ p.strip_clusters
      → P clusterID
      → AllClusters p
      → AllClusters (push_cluster idx weight clusterID q)
  unfolding push_cluster
  push_cluster-AllClusters idx weight clusterID p q e c a i = elim (Bool-cases (i == idx)) [
    | inl here ↦ rw (here, e) (All-append P (p.strip_clusters idx) (clusterID ∷ []) (a idx) (c, tt))
    | inr other ↦ rw (other, e) (a i)
  ]

  cumulate_strip-AllClusters :
      (vv : GemHit D) (type clusterID j : ℕ) (p : DigitizedPlane D)
      → P clusterID
      → AllClusters p
      → AllClusters (cumulate_strip vv type clusterID j p)
  unfolding cumulate_strip
  cumulate_strip-AllClusters vv type clusterID j p c a =
      let idx = hit_idx vv j in
      let time = lesser (p.time idx) vv.time in
      let marked = mark_signal idx type time (hit_charge_at vv j) p in
      let (counted, sum) = main_samples (hit_adc vv j) idx p.n_samples 0 marked (of_ℕ 0) in
      let noted = note_crossing (not (is_over p idx)) idx counted in
      push_cluster-AllClusters idx _ clusterID p noted
        ((note_crossing-HasLists (not (is_over p idx)) idx counted).clusters
          ∙ (main_samples-IsPushed (hit_adc vv j) idx p.n_samples 0 p.n_samples marked (of_ℕ 0)
              (omega arith)).clusters
          ∙ (mark_signal-HasLists idx type time (hit_charge_at vv j) p).clusters)
        c a

  cumulate_strips-AllClusters :
      (vv : GemHit D) (type clusterID left j : ℕ) (p : DigitizedPlane D)
      → P clusterID
      → AllClusters p
      → AllClusters (cumulate_strips vv type clusterID left j p)
  unfolding cumulate_strips
  cumulate_strips-AllClusters vv type clusterID zero j p c a = a
  cumulate_strips-AllClusters vv type clusterID (suc left) j p c a =
      cumulate_strips-AllClusters vv type clusterID left (j + 1)
        (cumulate_strip vv type clusterID j p) c
        (cumulate_strip-AllClusters vv type clusterID j p c a)

  induce_strip-HasLists :
      (vv : GemHit D) (shift : ℤ) (factor : D) (j : ℕ) (p : DigitizedPlane D)
      → HasLists p (induce_strip vv shift factor j p)
  unfolding induce_strip
  induce_strip-HasLists vv shift factor j p =
      let target = pos (hit_idx vv j) +ℤ shift in
      let to = pos_part target in
      let time = lesser (p.time (hit_idx vv j)) vv.time in
      let charge = factor ⊗ hit_charge_at vv j in
      let sample = λ (k : ℕ). scale_sample factor (hit_adc vv j k) in
      elim (Bool-cases (ltb_ℤ target (pos 0) || leb_ℤ (pos p.n_strips) target)) [
        | inl outside ↦
            rw outside (record { n_samples = refl; clusters = refl; weight = refl; adc = refl })
        | inr inside ↦ rw inside (
            HasLists-trans p _ _ (mark_signal-HasLists to 4 time charge p) (
              HasLists-trans _ _ _
                (induced_samples-HasLists sample to p.n_samples 0 (mark_signal to 4 time charge p))
                (note_crossing-HasLists (not (is_over p to)) to _)))
      ]

  induce_strips-AllClusters :
      (vv : GemHit D) (shift : ℤ) (factor : D) (left j : ℕ) (p : DigitizedPlane D)
      → AllClusters p
      → AllClusters (induce_strips vv shift factor left j p)
  unfolding induce_strips
  induce_strips-AllClusters vv shift factor zero j p a = a
  induce_strips-AllClusters vv shift factor (suc left) j p a =
      induce_strips-AllClusters vv shift factor left (j + 1) (induce_strip vv shift factor j p)
        (HasLists-AllClusters p _ (induce_strip-HasLists vv shift factor j p) a)

  -- What holds of all cluster numbers of a plane, and of the number of the hit, holds of all of them
  -- after Cumulate.
  pub cumulate-AllClusters :
      (ct : CrossTalk D) (uniform gaus : D) (vv : GemHit D) (type clusterID : ℕ)
      (p : DigitizedPlane D)
      → P clusterID
      → AllClusters p
      → AllClusters (cumulate ct uniform gaus vv type clusterID p)
  unfolding cumulate
  cumulate-AllClusters ct uniform gaus vv type clusterID p c a =
      let main = cumulate_strips vv type clusterID vv.size 0 p in
      let shift =
        if uniform ≺ decimal (pos 5) 1 then pos 0 -ℤ ct.n_strip_apart else ct.n_strip_apart in
      let kept = cumulate_strips-AllClusters vv type clusterID vv.size 0 p c a in
      let factor = ct.factor ⊕ gaus in
      elim (Bool-cases (not ct.do_cross_talk)) [
        | inl off ↦ rw off kept
        | inr on ↦ elim (Bool-cases (factor ≼ of_ℕ 0)) [
          | inl none_induced ↦ rw (on, none_induced) kept
          | inr some_induced ↦
              rw (on, some_induced) (induce_strips-AllClusters vv shift factor vv.size 0 main kept)
        ]
      ]
