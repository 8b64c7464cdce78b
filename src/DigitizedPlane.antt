-- ===== src/DigitizedPlane.antt =====
-- src/TSBSGEMHit.h and class TSBSDigitizedPlane of src/TSBSSimGEMDigitization.{h,cxx}: a readout
-- plane that adds up the strip signals of hits. The arrays of the plane, indexed by strip number, are
-- functions; asserted index bounds are hypotheses or conclusions of theorems. The filled part of
-- fOverThr is a list, whose length is fNOT. Strip numbers, ADC samples and signal types are natural
-- numbers (the source asserts that samples and strip numbers are not negative), and their sums are
-- not wrapped.
pub mod Raise
pub mod Invariant
pub mod Sums
pub mod Crossing
pub mod Alignment
pub mod Deposit
pub mod Names
use libsolgem.Base.{
  ℕ, zero, suc, ◌+◌, ◌-◌, ◌*◌, ◌<◌, ℤ, pos, Bool, true, false, not, ◌&&◌, ◌||◌, List, [], ◌∷◌, ◌++◌,
  bit_or, get_or, ltb, ◌==◌, if◌then◌else◌,
}
use libsolgem.Base.Int.{ltb_ℤ, leb_ℤ, ◌+ℤ◌, ◌-ℤ◌, pos_part}
use libsolgem.Database.GemIndex.{update}
use libsolgem.Double.{Double, ◌⊕◌, ◌⊗◌, ◌⊘◌, ◌≺◌, ◌≼◌, of_ℕ, decimal, trunc, lesser}

-- TSBSGEMHit. `fADC` is one array, indexed by n * fNsample + sample.
pub record GemHit (D : Type 0) : Type 0 where
  pub idx : List ℕ
  pub adc : List ℕ
  pub charge : List D
  pub time : D
  pub n_sample : ℕ
  pub hit_charge : D
  pub total_adc : ℕ
  pub size : ℕ

pub record DigitizedPlane (D : Type 0) : Type 0 where
  pub strip_adc : ℕ → ℕ
  pub types : ℕ → ℕ
  pub tot_adc : ℕ → ℕ
  pub charge : ℕ → D
  pub time : ℕ → D
  pub n_samples : ℕ
  pub n_strips : ℕ
  pub threshold : ℤ
  pub over_thr : List ℕ
  pub strip_clusters : ℕ → List ℕ
  pub strip_weight : ℕ → List D
  -- fStripClusterADC. The source has 6 rows of it; here a plane with more samples has rows for these
  -- too, where the source writes past the end of the array.
  pub strip_cluster_adc : ℕ → ℕ → List ℕ

-- The static cross talk parameters of TSBSSimGEMDigitization.
pub record CrossTalk (D : Type 0) : Type 0 where
  pub do_cross_talk : Bool
  pub n_strip_apart : ℤ
  pub factor : D

module _ {D : Type 0} ⦃d : Double D⦄ where
  -- GetIdx, GetADC and GetCharge
  unfoldable pub hit_idx : GemHit D → ℕ → ℕ
  hit_idx vv n = get_or vv.idx n 0

  unfoldable pub hit_adc : GemHit D → ℕ → ℕ → ℕ
  hit_adc vv n sample = get_or vv.adc (n * vv.n_sample + sample) 0

  unfoldable pub hit_charge_at : GemHit D → ℕ → D
  hit_charge_at vv n = get_or vv.charge n (of_ℕ 0)

  unfoldable pub clear : DigitizedPlane D → DigitizedPlane D
  clear p = record p {
    strip_adc = λ i. 0;
    types = λ i. 0;
    tot_adc = λ i. 0;
    charge = λ i. of_ℕ 0;
    time = λ i. of_ℕ 9999;
    over_thr = [];
    strip_clusters = λ i. [];
    strip_weight = λ i. [];
    strip_cluster_adc = λ k i. [];
  }

  -- The constructor, which ends in Clear.
  unfoldable pub new_plane : ℕ → ℕ → ℤ → DigitizedPlane D
  unfolding clear
  new_plane nstrip nsample threshold = clear (record {
    strip_adc = λ i. 0;
    types = λ i. 0;
    tot_adc = λ i. 0;
    charge = λ i. of_ℕ 0;
    time = λ i. of_ℕ 0;
    n_samples = nsample;
    n_strips = nstrip;
    threshold = threshold;
    over_thr = [];
    strip_clusters = λ i. [];
    strip_weight = λ i. [];
    strip_cluster_adc = λ k i. [];
  })

  -- `fTotADC[i] > fThreshold`
  abbrev pub is_over : DigitizedPlane D → ℕ → Bool
  is_over p i = ltb_ℤ p.threshold (pos (p.tot_adc i))

  -- One sample of value `nnn`, added to strip `idx`.
  unfoldable pub count_sample : ℕ → ℕ → ℕ → DigitizedPlane D → DigitizedPlane D
  count_sample idx k nnn p =
      let iadc = idx * p.n_samples + k in
      if nnn == 0 then p else record p {
        strip_adc = update p.strip_adc iadc (p.strip_adc iadc + nnn);
        tot_adc = update p.tot_adc idx (p.tot_adc idx + nnn);
      }

  -- `fStripClusterADC[k][idx].push_back(nnn)`, which the source has rows for below 6
  unfoldable pub push_sample : ℕ → ℕ → ℕ → DigitizedPlane D → DigitizedPlane D
  push_sample idx k nnn p =
      let row = p.strip_cluster_adc k in
      record p {
        strip_cluster_adc = update p.strip_cluster_adc k (update row idx (row idx ++ nnn ∷ []));
      }

  -- The loop over samples in the main signal, from sample `k` with `left` to go, and the sum of the
  -- samples that it accumulates.
  unfoldable pub main_samples : (ℕ → ℕ) → ℕ → ℕ → ℕ → DigitizedPlane D → D → DigitizedPlane D × D
  main_samples sample idx zero k p sum = (p, sum)
  main_samples sample idx (suc left) k p sum =
      main_samples sample idx left (k + 1)
        (count_sample idx k (sample k) (push_sample idx k (sample k) p))
        (if sample k == 0 then sum else sum ⊕ of_ℕ (sample k))

  -- The loop over samples of an induced signal.
  unfoldable pub induced_samples : (ℕ → ℕ) → ℕ → ℕ → ℕ → DigitizedPlane D → DigitizedPlane D
  induced_samples sample idx zero k p = p
  induced_samples sample idx (suc left) k p =
      induced_samples sample idx left (k + 1) (count_sample idx k (sample k) p)

  -- `if( was_below && fTotADC[idx] > fThreshold )` and its body
  unfoldable pub note_crossing : Bool → ℕ → DigitizedPlane D → DigitizedPlane D
  note_crossing was_below idx p =
      if was_below && is_over p idx then record p { over_thr = p.over_thr ++ idx ∷ [] } else p

  -- The signal type, the time and the charge of a signal, recorded at strip `idx`.
  unfoldable pub mark_signal : ℕ → ℕ → D → D → DigitizedPlane D → DigitizedPlane D
  mark_signal idx type time charge p = record p {
    types = update p.types idx (bit_or (p.types idx) type);
    time = update p.time idx time;
    charge = update p.charge idx (p.charge idx ⊕ charge);
  }

  -- The weight of the strip in its cluster, and the cluster.
  unfoldable pub push_cluster : ℕ → D → ℕ → DigitizedPlane D → DigitizedPlane D
  push_cluster idx weight clusterID p = record p {
    strip_weight = update p.strip_weight idx (p.strip_weight idx ++ weight ∷ []);
    strip_clusters = update p.strip_clusters idx (p.strip_clusters idx ++ clusterID ∷ []);
  }

  -- The body of the first loop of Cumulate, at strip `j` of the hit.
  unfoldable pub cumulate_strip : GemHit D → ℕ → ℕ → ℕ → DigitizedPlane D → DigitizedPlane D
  cumulate_strip vv type clusterID j p =
      let idx = hit_idx vv j in
      let marked = mark_signal idx type (lesser (p.time idx) vv.time) (hit_charge_at vv j) p in
      let (counted, sum) = main_samples (hit_adc vv j) idx p.n_samples 0 marked (of_ℕ 0) in
      let noted = note_crossing (not (is_over p idx)) idx counted in
      push_cluster idx (sum ⊘ of_ℕ vv.total_adc) clusterID noted

  -- The first loop, from strip `j` of the hit with `left` to go.
  unfoldable pub cumulate_strips : GemHit D → ℕ → ℕ → ℕ → ℕ → DigitizedPlane D → DigitizedPlane D
  cumulate_strips vv type clusterID zero j p = p
  cumulate_strips vv type clusterID (suc left) j p =
      cumulate_strips vv type clusterID left (j + 1) (cumulate_strip vv type clusterID j p)

  -- `nnn *= factor` on an int; with factor > 0 the product is not negative.
  unfoldable pub scale_sample : D → ℕ → ℕ
  scale_sample factor nnn = pos_part (trunc (of_ℕ nnn ⊗ factor))

  -- The body of the second loop of Cumulate. `shift` is isLeft * fNCStripApart.
  unfoldable pub induce_strip : GemHit D → ℤ → D → ℕ → DigitizedPlane D → DigitizedPlane D
  induce_strip vv shift factor j p =
      let idx = hit_idx vv j in
      let target = pos idx +ℤ shift in
      let to = pos_part target in
      let marked = mark_signal to 4 (lesser (p.time idx) vv.time) (factor ⊗ hit_charge_at vv j) p in
      if ltb_ℤ target (pos 0) || leb_ℤ (pos p.n_strips) target
      then p
      else note_crossing (not (is_over p to)) to
          (induced_samples (λ k. scale_sample factor (hit_adc vv j k)) to p.n_samples 0 marked)

  unfoldable pub induce_strips : GemHit D → ℤ → D → ℕ → ℕ → DigitizedPlane D → DigitizedPlane D
  induce_strips vv shift factor zero j p = p
  induce_strips vv shift factor (suc left) j p =
      induce_strips vv shift factor left (j + 1) (induce_strip vv shift factor j p)

  -- Cumulate. `uniform` and `gaus` are the values that fRan.Uniform(1.) and
  -- fRan.Gaus(0., fCrossSigma) give in this call.
  unfoldable pub cumulate :
      CrossTalk D → D → D → GemHit D → ℕ → ℕ → DigitizedPlane D → DigitizedPlane D
  cumulate ct uniform gaus vv type clusterID p =
      let main = cumulate_strips vv type clusterID vv.size 0 p in
      let shift =
        if uniform ≺ decimal (pos 5) 1 then pos 0 -ℤ ct.n_strip_apart else ct.n_strip_apart in
      let factor = ct.factor ⊕ gaus in
      if not ct.do_cross_talk
      then main
      else if factor ≼ of_ℕ 0
      then main
      else induce_strips vv shift factor vv.size 0 main

  -- The loop of Threshold, from strip `j` with `left` to go.
  unfoldable pub scan_over : ℤ → ℕ → ℕ → DigitizedPlane D → DigitizedPlane D
  scan_over thr zero j p = p
  scan_over thr (suc left) j p =
      scan_over thr left (j + 1)
        (if ltb_ℤ thr (pos (p.tot_adc j)) then record p { over_thr = p.over_thr ++ j ∷ [] } else p)

  unfoldable pub set_threshold : ℤ → DigitizedPlane D → DigitizedPlane D
  set_threshold thr p = scan_over thr p.n_strips 0 (record p { over_thr = []; threshold = thr })
