-- ===== src/Digitization/Tree.antt =====
-- SetTreeHit, SetTreeStrips and FillTree: what the digitization writes into its event
-- (src/TSBSSimGEMDigitization.cxx). The output file and tree are a flag, and filling the tree gives the
-- event that is written.
pub mod Event
pub mod Places
pub mod Strips
pub mod Record
use libsolgem.Base.{
  ℕ, zero, suc, ◌+◌, ◌*◌, min, ℤ, pos, negsuc, Bool, true, false, not, ◌&&◌, Option, none, some,
  List, [], ◌∷◌, ◌++◌, length, get_elem?, ltb, if◌then◌else◌,
}
use libsolgem.Base.Int.{ltb_ℤ, eqb_ℤ}
use libsolgem.Database.{Manager}
use libsolgem.Double.{Double, ◌⊕◌, ◌⊗◌, of_ℤ, of_ℕ, decimal, trunc}
use libsolgem.SimEvent.{Vec3, GemCluster, DigiGemStrip, SimEvent}
use libsolgem.Box.{Matrices, spec_to_lab}
use libsolgem.Chamber.{GemChamber, plane_to_spec}
use libsolgem.HitData.{HitData, hit_at}
use libsolgem.DigitizedPlane.{DigitizedPlane, GemHit, hit_idx}
use libsolgem.Digitization.{Root, Settings, Digitizer}

module _ {D R : Type 0} ⦃d : Double D⦄ (root : Root D R) where
  -- One sample with its noise, cut at 4000.
  unfoldable pub noisy_sample : D → ℕ → R → ℤ × R
  noisy_sample sigma adc rnd =
      let (noise, rnd') = root.gaus (of_ℕ 0) sigma rnd in
      let sum = trunc (of_ℕ adc ⊕ noise) in (if ltb_ℤ (pos 4000) sum then pos 4000 else sum, rnd')

  -- The loop over samples, from sample `ss` with `left` to go.
  unfoldable pub noisy_samples : D → (ℕ → ℕ) → ℕ → ℕ → R → List ℤ × R
  unfolding noisy_sample
  noisy_samples sigma adc zero ss rnd = ([], rnd)
  noisy_samples sigma adc (suc left) ss rnd =
      let (first, rnd') = noisy_sample sigma (adc ss) rnd in
      let (rest, rnd'') = noisy_samples sigma adc left (ss + 1) rnd' in (first ∷ rest, rnd'')

  -- `fClusterRatio[ss]` of strip `idx`, from the row `ss` of fStripClusterADC: rows 0 to 5 in the source.
  unfoldable pub cluster_ratios : DigitizedPlane D → ℕ → ℕ → ℕ → List (List ℕ)
  cluster_ratios p idx zero ss = []
  cluster_ratios p idx (suc left) ss =
      p.strip_cluster_adc ss idx ∷ cluster_ratios p idx left (ss + 1)

  module _ (fManager : Manager D) (s : Settings D) where
    -- The record of strip `idx` of plane `ip` of chamber `ich`.
    unfoldable pub tree_strip : DigitizedPlane D → (ich ip idx : ℕ) → R → DigiGemStrip D × R
    unfolding noisy_samples cluster_ratios
    tree_strip p ich ip idx rnd =
        let nsamp = min 10 p.n_samples in
        let adc = λ (ss : ℕ). p.strip_adc (idx * p.n_samples + ss) in
        let (samples, rnd') = noisy_samples s.pulse_noise_sigma adc nsamp 0 rnd in
        (
          record {
            sector = pos 0;
            plane = fManager.igem_to_plane ich;
            module_ = fManager.igem_to_module ich;
            proj = ip;
            chan = idx;
            sig_type = p.types idx;
            charge = p.charge idx;
            time1 = p.time idx;
            n_samp = nsamp;
            adc = samples;
            clusters = p.strip_clusters idx;
            cluster_ratio = cluster_ratios p idx nsamp 0;
            strip_weight = p.strip_weight idx;
          },
          rnd',
        )

    -- The loops over the strips of a plane, the planes of a chamber and the chambers, each from a
    -- number with `left` to go.
    unfoldable pub tree_plane :
        DigitizedPlane D → (ich ip left idx : ℕ) → R → List (DigiGemStrip D) × R
    tree_plane p ich ip zero idx rnd = ([], rnd)
    tree_plane p ich ip (suc left) idx rnd =
        let (strip, rnd') = tree_strip p ich ip idx rnd in
        let (rest, rnd'') = tree_plane p ich ip left (idx + 1) rnd' in (strip ∷ rest, rnd'')

    unfoldable pub tree_chamber :
        (ℕ → DigitizedPlane D) → (ich left ip : ℕ) → R → List (DigiGemStrip D) × R
    tree_chamber planes ich zero ip rnd = ([], rnd)
    tree_chamber planes ich (suc left) ip rnd =
        let p = planes ip in
        let (strips, rnd') = tree_plane p ich ip p.n_strips 0 rnd in
        let (rest, rnd'') = tree_chamber planes ich left (ip + 1) rnd' in (strips ++ rest, rnd'')

    unfoldable pub tree_chambers :
        (ℕ → ℕ) → (ℕ → ℕ → DigitizedPlane D) → (left ich : ℕ) → R → List (DigiGemStrip D) × R
    tree_chambers nplanes dp zero ich rnd = ([], rnd)
    tree_chambers nplanes dp (suc left) ich rnd =
        let (strips, rnd') = tree_chamber (dp ich) ich (nplanes ich) 0 rnd in
        let (rest, rnd'') = tree_chambers nplanes dp left (ich + 1) rnd' in (strips ++ rest, rnd'')

    unfoldable pub set_tree_strips : Digitizer D R → Digitizer D R
    set_tree_strips t =
        let (strips, rnd) = tree_chambers t.n_planes t.dp t.n_chambers 0 t.trnd in
        record t {
          trnd = rnd;
          event = record t.event { gem_strips = strips };
          filled_strips = true;
        }

    -- FillTree, and the event that it writes, if any.
    unfoldable pub fill_tree : Bool → Digitizer D R → Digitizer D R × Option (SimEvent D)
    fill_tree opened t =
        let t' = if not t.filled_strips then set_tree_strips t else t in
        (t', if opened then some t'.event else none)

module _ {D R : Type 0} ⦃d : Double D⦄ (root : Root D R) where
  -- fSize[j] and fStart[j] of the cluster.
  unfoldable pub clust_size : Option (List (GemHit D)) → ℕ → ℕ
  clust_size none j = 0
  clust_size (some fdh) j = elim (get_elem? fdh j) [ none ↦ 0 | some v ↦ v.size ]

  unfoldable pub clust_start : Option (List (GemHit D)) → ℕ → ℤ
  clust_start none j = pos 0
  clust_start (some fdh) j = elim (get_elem? fdh j) [
    | none ↦ pos 0
    | some v ↦ if ltb 0 v.size then pos (hit_idx v 0) else negsuc 0
  ]

  module _ {M : Type 0} ⦃mx : Matrices D M⦄ (fManager : Manager D) where
    -- The cluster of hit `ih`. The code leaves fRealSector unset: `unset` is what it holds.
    unfoldable pub tree_cluster :
        ℤ → GemChamber D M → HitData D → ℕ → D → Digitizer D R → GemCluster D
    unfolding clust_size clust_start
    tree_cluster unset ch tsgd ih t0 t =
        let h = hit_at tsgd ih in
        let thousandth = decimal (pos 1) 3 in
        let middle = root.vec_scale (root.vec_add h.xi h.xo) (decimal (pos 5) 1) in
        let hit_pos = root.vec_scale middle thousandth in
        record {
          id = length t.event.gem_clust + 1;
          sector = pos 0;
          plane = pos (fManager.igem_to_plane h.gem);
          module_ = fManager.igem_to_module h.gem;
          real_sector = unset;
          source = tsgd.source;
          type = pos h.type;
          trid = pos h.trid;
          pid = h.pid;
          p = root.vec_scale (spec_to_lab ch.box h.mom) thousandth;
          p_spec = root.vec_scale h.mom thousandth;
          x_entry = root.vec_scale h.xi thousandth;
          mc_pos = root.vec_scale (plane_to_spec ch middle) thousandth;
          hit_pos = hit_pos;
          charge = root.to_float h.edep;
          time = root.to_float t0;
          size = clust_size t.fdh;
          start = clust_start t.fdh;
          x_proj = λ j. root.to_float (root.rotate_z (d.neg (ch.planes j).s_angle) hit_pos).x;
          vertex = root.vec_scale h.vert thousandth;
        }

    -- SetTreeHit, and the cluster number that it returns.
    unfoldable pub set_tree_hit :
        ℤ → GemChamber D M → HitData D → ℕ → D → Digitizer D R → Digitizer D R × ℕ
    set_tree_hit unset ch tsgd ih t0 t =
        let clust = tree_cluster unset ch tsgd ih t0 t in
        let e = t.event in
        let signal = eqb_ℤ clust.type (pos 1) && eqb_ℤ clust.source (pos 0) in
        (
          record t {
            event = record e {
              gem_clust = e.gem_clust ++ clust ∷ [];
              n_signal = if signal then e.n_signal + 1 else e.n_signal;
            };
          },
          clust.id,
        )
