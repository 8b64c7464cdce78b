-- ===== src/Digitization/Tree/Record.antt =====
-- What SetTreeStrips records of each strip.
use libsolgem.Base.{
  ℕ, zero, suc, ◌+◌, ◌*◌, ◌≤◌, ◌<◌, min, ℤ, pos, ◌≡◌, refl, ap, Bool, All, All-append, length,
  arith, false, if◌then◌else◌,
}
use libsolgem.Base.Int.{◌≤ℤ◌, ltb_ℤ}
use libsolgem.Database.{Manager}
use libsolgem.Double.{Double, ◌⊕◌, of_ℕ, trunc}
use libsolgem.SimEvent.{DigiGemStrip, SimEvent}
use libsolgem.DigitizedPlane.{DigitizedPlane}
use libsolgem.Digitization.{Root, Settings, Digitizer}
use libsolgem.Digitization.Tree.{
  noisy_sample, noisy_samples, cluster_ratios, tree_strip, tree_plane, tree_chamber, tree_chambers,
  set_tree_strips, fill_tree,
}
use libsolgem.Digitization.Additive.Numbering.{IsHit, NamesHits}

module _ {D R : Type 0} ⦃d : Double D⦄ (root : Root D R) (fManager : Manager D) (s : Settings D)
    (P : DigiGemStrip D → Type 0) where
  tree_plane-All :
      (p : DigitizedPlane D) (ich ip left idx : ℕ) (rnd : R)
      → ((k : ℕ) (r : R) → P (tree_strip root fManager s p ich ip k r).0)
      → All P (tree_plane root fManager s p ich ip left idx rnd).0
  unfolding tree_plane
  tree_plane-All p ich ip zero idx rnd f = tt
  tree_plane-All p ich ip (suc left) idx rnd f =
      (f idx rnd, tree_plane-All p ich ip left (idx + 1) _ f)

  tree_chamber-All :
      (planes : ℕ → DigitizedPlane D) (ich left ip hi : ℕ) (rnd : R)
      → ip + left ≡ hi
      → ((j k : ℕ) (r : R) → j < hi → P (tree_strip root fManager s (planes j) ich j k r).0)
      → All P (tree_chamber root fManager s planes ich left ip rnd).0
  unfolding tree_chamber
  tree_chamber-All planes ich zero ip hi rnd e f = tt
  tree_chamber-All planes ich (suc left) ip hi rnd e f =
      let p = planes ip in
      let (strips, rnd') = tree_plane root fManager s p ich ip p.n_strips 0 rnd in
      All-append P strips _
        (tree_plane-All p ich ip p.n_strips 0 rnd (λ k r. f ip k r (omega arith)))
        (tree_chamber-All planes ich left (ip + 1) hi rnd' (omega arith) f)

  -- What holds of the record of each strip holds of all that the loops write.
  tree_chambers-All :
      (nplanes : ℕ → ℕ) (dp : ℕ → ℕ → DigitizedPlane D) (left ich hi : ℕ) (rnd : R)
      → ich + left ≡ hi
      → ((c j k : ℕ) (r : R)
          → c < hi
          → j < nplanes c
          → P (tree_strip root fManager s (dp c j) c j k r).0)
      → All P (tree_chambers root fManager s nplanes dp left ich rnd).0
  unfolding tree_chambers
  tree_chambers-All nplanes dp zero ich hi rnd e f = tt
  tree_chambers-All nplanes dp (suc left) ich hi rnd e f =
      let (strips, rnd') = tree_chamber root fManager s (dp ich) ich (nplanes ich) 0 rnd in
      All-append P strips _
        (tree_chamber-All (dp ich) ich (nplanes ich) 0 (nplanes ich) rnd (omega arith)
          (λ j k r lt. f ich j k r (omega arith) lt))
        (tree_chambers-All nplanes dp left (ich + 1) hi rnd' (omega arith) f)

-- Each cluster number of each strip of the event is the number of one of its hits.
abbrev pub IsClosed : {D : Type 0} → SimEvent D → Type 0
IsClosed e = All (λ strip. All (IsHit (length e.gem_clust)) strip.clusters) e.gem_strips

-- The samples of a record: as many as it says, at most 6, none over 4000, with as many lists of
-- cluster samples.
pub record IsSampled {D : Type 0} (strip : DigiGemStrip D) : Type 0 where
  pub counted : length strip.adc ≡ strip.n_samp
  pub ratios : length strip.cluster_ratio ≡ strip.n_samp
  pub few : strip.n_samp ≤ 6
  pub cut : All (λ a. a ≤ℤ pos 4000) strip.adc

module _ {D R : Type 0} ⦃d : Double D⦄ (root : Root D R) where
  noisy_samples-cut :
      (sigma : D) (adc : ℕ → ℕ) (left ss : ℕ) (rnd : R)
      → let samples = (noisy_samples root sigma adc left ss rnd).0 in
        (length samples ≡ left) × All (λ a. a ≤ℤ pos 4000) samples
  unfolding noisy_samples noisy_sample
  noisy_samples-cut sigma adc zero ss rnd = (refl, tt)
  noisy_samples-cut sigma adc (suc left) ss rnd =
      let (noise, rnd') = root.gaus (of_ℕ 0) sigma rnd in
      let sum = trunc (of_ℕ (adc ss) ⊕ noise) in
      let rest = noisy_samples-cut sigma adc left (ss + 1) rnd' in
      (ap suc rest.0, (cut_le sum, rest.1))
    where
      cut_le : (z : ℤ) → (if ltb_ℤ (pos 4000) z then pos 4000 else z) ≤ℤ pos 4000
      cut_le z = ground arith

  length-cluster_ratios :
      (p : DigitizedPlane D) (idx left ss : ℕ) → length (cluster_ratios root p idx left ss) ≡ left
  unfolding cluster_ratios
  length-cluster_ratios p idx zero ss = refl
  length-cluster_ratios p idx (suc left) ss = ap suc (length-cluster_ratios p idx left (ss + 1))

  module _ (fManager : Manager D) (s : Settings D) where
    -- Where each plane has at most 6 samples, the rows that fStripClusterADC has, each strip that
    -- SetTreeStrips writes has as many samples as it says, at most 6, each at most 4000 with its noise,
    -- and for each sample a list of cluster samples.
    pub set_tree_strips-IsSampled :
        (t : Digitizer D R)
        → ((c j : ℕ) → (t.dp c j).n_samples ≤ 6)
        → All IsSampled (set_tree_strips root fManager s t).event.gem_strips
    unfolding set_tree_strips tree_strip
    set_tree_strips-IsSampled t rows =
        tree_chambers-All root fManager s IsSampled t.n_planes t.dp t.n_chambers 0 t.n_chambers
          t.trnd (omega arith)
          (λ c j k r lt lt'.
            let p = t.dp c j in
            let n = min 10 p.n_samples in
            let cut =
              noisy_samples-cut s.pulse_noise_sigma (λ ss. p.strip_adc (k * p.n_samples + ss)) n 0
                r in
            record {
              counted = cut.0;
              ratios = length-cluster_ratios p k n 0;
              few = omega (arith, rows c j);
              cut = cut.1;
            })

    -- The event that FillTree writes with new strips is closed.
    pub fill_tree-IsClosed :
        (opened : Bool) (t : Digitizer D R)
        → t.filled_strips ≡ false
        → NamesHits t
        → IsClosed (fill_tree root fManager s opened t).0.event
    unfolding fill_tree set_tree_strips tree_strip
    fill_tree-IsClosed opened t stale named = rw stale (
        tree_chambers-All root fManager s _ t.n_planes t.dp t.n_chambers 0 t.n_chambers t.trnd
          (omega arith) (λ c j k r lt lt'. named c j k lt lt'))
