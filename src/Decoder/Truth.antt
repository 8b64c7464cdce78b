-- ===== src/Decoder/Truth.antt =====
-- GetSBSMCHitInfo and GetAllMCHits of src/TSBSSimDecoder.cxx: the Monte Carlo truth of a strip. A
-- missing strip or cluster, which the source asserts to be there, is `none`, as is an exception of the
-- database manager. The other assertions are not modelled. An index past the end of a TArray reads 0.
-- nOverlapSignal, a count that the source keeps as a double, is a natural number.
pub mod Accounting
pub mod Naming
use libsolgem.Base.{
  ℕ, zero, suc, ◌-◌, ◌+◌, ◌/◌, ◌%◌, ◌^◌, ℤ, pos, negsuc, Bool, not, ◌&&◌, ◌||◌, Option, none, some,
  ◌>>=◌, List, [], ◌∷◌, ◌++◌, get_elem?, get_or, ltb, ◌==◌, if◌then◌else◌,
}
use libsolgem.Base.Int.{◌-ℤ◌, ltb_ℤ, eqb_ℤ}
use libsolgem.Double.{Double, ◌⊕◌, ◌⊗◌, ◌⊘◌, of_ℤ, of_ℕ}
use libsolgem.Database.{Manager}
use libsolgem.Database.Access.{◌is◌, get_xoffset, get_pos_from_module_strip}
use libsolgem.SimEvent.{Vec3, GemCluster, DigiGemStrip, SimEvent}
use libsolgem.Readout.{Address, make_roc_key}
use libsolgem.Readout.StripMap.{StripMap, strip_from_key}

-- struct SignalInfo of src/types.h: the two fields that the decoder reads.
pub record SignalInfo : Type 0 where
  pub pid : ℤ
  pub tid : ℤ

-- TSBSMCHitInfo, with the fields of Podd::MCHitInfo that the code uses. The first six rows of
-- `cluster_adc` are the array vClusterADC.
pub record McHitInfo (D : Type 0) : Type 0 where
  pub mc_track : ℤ
  pub mc_pos : D
  pub mc_time : D
  pub contam : ℕ
  pub mc_charge : D
  pub cluster_id : List ℕ
  pub cluster_type : List ℤ
  pub cluster_strip_weight : List D
  pub cluster_peak_time : List D
  pub cluster_pos : List (Vec3 D)
  pub cluster_charge : List D
  pub cluster_adc : ℕ → List ℕ
  pub sig_type : ℕ

-- TESTBIT
unfoldable pub test_bit : ℕ → ℕ → Bool
test_bit v b = v / 2 ^ b % 2 == 1

abbrev only_if : Bool → Option SignalInfo → Option SignalInfo
only_if b found = if b then found else none

-- The truth that the loop over clusters collects, and nOverlapSignal.
pub record Gathered (D : Type 0) : Type 0 where
  pub info : McHitInfo D
  pub n_overlap : ℕ

module _ {D : Type 0} ⦃d : Double D⦄ where
  -- TSBSMCHitInfo()
  unfoldable pub new_info : McHitInfo D
  new_info = record {
    mc_track = pos 0;
    mc_pos = of_ℕ 0;
    mc_time = of_ℕ 0;
    contam = 0;
    mc_charge = of_ℕ 0;
    cluster_id = [];
    cluster_type = [];
    cluster_strip_weight = [];
    cluster_peak_time = [];
    cluster_pos = [];
    cluster_charge = [];
    cluster_adc = λ its. [];
    sig_type = 0;
  }

  -- The loop over fSignalInfo: the last entry with the particle id of a primary cluster.
  unfoldable pub last_signal :
      GemCluster D → List SignalInfo → Option SignalInfo → Option SignalInfo
  last_signal c [] found = found
  last_signal c (info ∷ rest) found =
      last_signal c rest (if c.type is 1 && eqb_ℤ c.pid info.pid then some info else found)

  -- `signalID >= 0 && c.fSource == kPrimarySource`
  unfoldable pub signal_of : List SignalInfo → GemCluster D → Option SignalInfo
  unfolding last_signal
  signal_of signals c = only_if (c.source is 0) (last_signal c signals none)

  -- The cluster of a cluster number, which counts from 1.
  unfoldable pub cluster_at : SimEvent D → ℕ → Option (GemCluster D)
  cluster_at e zero = none
  cluster_at e (suc iclust) = get_elem? e.gem_clust iclust

  -- The vectors, at entry `i` of the strip's clusters.
  unfoldable pub list_cluster : DigiGemStrip D → ℕ → ℕ → GemCluster D → McHitInfo D → McHitInfo D
  list_cluster strip i id c mc = record mc {
    cluster_id = mc.cluster_id ++ id ∷ [];
    cluster_type = mc.cluster_type ++ c.source ∷ [];
    cluster_peak_time = mc.cluster_peak_time ++ c.time ∷ [];
    cluster_pos = mc.cluster_pos ++ c.hit_pos ∷ [];
    cluster_charge = mc.cluster_charge ++ c.charge ∷ [];
    cluster_strip_weight = mc.cluster_strip_weight ++ get_or strip.strip_weight i (of_ℕ 0) ∷ [];
    cluster_adc = λ its. mc.cluster_adc its ++ get_or (get_or strip.cluster_ratio its []) i 0 ∷ [];
  }

  -- The branch of a signal, at its position.
  unfoldable pub count_signal : ℤ → D → D → Gathered D → Gathered D
  count_signal tid place time g =
      let mc = g.info in
      record {
        info =
            if ltb_ℤ (pos 0) mc.mc_track
            then record mc { mc_pos = mc.mc_pos ⊕ place; mc_time = mc.mc_time ⊕ time }
            else record mc { mc_track = tid; mc_pos = place; mc_time = time };
        n_overlap = g.n_overlap + 1;
      }

  -- The branch of background. The position is added where there is no signal so far.
  unfoldable pub count_background : D → Gathered D → Gathered D
  count_background place g =
      let mc = record g.info { contam = g.info.contam + 1 } in
      record g { info = if mc.mc_track is 0 then record mc { mc_pos = mc.mc_pos ⊕ place } else mc }

  -- `c.fXProj[proj] + (1 - proj) * GetXOffset(c.fPlane, c.fModule)`
  unfoldable pub place_of : Manager D → ℕ → GemCluster D → Option D
  place_of fManager proj c = get_xoffset fManager c.plane (pos c.module_) >>= λ x.
      some (c.x_proj proj ⊕ of_ℤ (pos 1 -ℤ pos proj) ⊗ x)

  -- The means, behind the loop.
  unfoldable pub finish : DigiGemStrip D → Gathered D → McHitInfo D
  finish strip g =
      let mc = g.info in
      if mc.mc_track is 0
      then record mc {
        mc_pos = if ltb 1 mc.contam then mc.mc_pos ⊘ of_ℕ mc.contam else mc.mc_pos;
        mc_time = strip.time1;
      }
      else record mc {
        mc_pos = mc.mc_pos ⊘ of_ℕ g.n_overlap;
        mc_time = mc.mc_time ⊘ of_ℕ g.n_overlap;
      }

  unfoldable pub only_induced : DigiGemStrip D → Bool
  unfolding test_bit
  only_induced strip =
      test_bit strip.sig_type 2
      && not (test_bit strip.sig_type 0)
      && not (test_bit strip.sig_type 1)

  module _ (fManager : Manager D) (signals : List SignalInfo) where
    -- Where it is background under a signal, the position is not asked for.
    unfoldable pub count_cluster :
        ℕ → GemCluster D → Option SignalInfo → Gathered D → Option (Gathered D)
    count_cluster proj c (some sig) g =
        place_of fManager proj c >>= λ place. some (count_signal sig.tid place c.time g)
    count_cluster proj c none g =
        if g.info.mc_track is 0
        then (place_of fManager proj c >>= λ place. some (count_background place g))
        else some (record g { info = record g.info { contam = g.info.contam + 1 } })

    -- The loop over the strip's clusters, from entry `i`.
    unfoldable pub gather :
        SimEvent D → DigiGemStrip D → List ℕ → ℕ → Gathered D → Option (Gathered D)
    gather e strip [] i g = some g
    gather e strip (id ∷ ids) i g = cluster_at e id >>= λ c.
        count_cluster strip.proj c (signal_of signals c)
          (record g { info = list_cluster strip i (id - 1) c g.info })
        >>= gather e strip ids (i + 1)

    -- The truth of a strip.
    unfoldable pub strip_truth : SimEvent D → DigiGemStrip D → Option (McHitInfo D)
    strip_truth e strip =
        let mc = record new_info { sig_type = strip.sig_type } in
        if only_induced strip
        then (get_pos_from_module_strip fManager (pos strip.proj) (pos strip.plane)
              (pos strip.module_) (pos strip.chan)
            >>= λ place. some (record mc { mc_pos = place; mc_time = strip.time1 }))
        else (gather e strip strip.clusters 0
              (record { info = record mc { mc_charge = strip.charge }; n_overlap = 0 })
            >>= λ g. some (finish strip g))

    abbrev strip_at : SimEvent D → ℤ → Option (DigiGemStrip D)
    strip_at e (pos i) = get_elem? e.gem_strips i
    strip_at e (negsuc i) = none

    unfoldable pub get_sbs_mc_hit_info : ℕ → SimEvent D → StripMap → Address → Option (McHitInfo D)
    get_sbs_mc_hit_info max_slot e m a =
        strip_at e (strip_from_key m (make_roc_key fManager max_slot a)) >>= strip_truth e

  -- One row of GetAllMCHits.
  abbrev pub hit_row : GemCluster D → List D
  hit_row clust =
      clust.mc_pos.x
      ∷ clust.mc_pos.y
      ∷ clust.charge
      ∷ of_ℤ clust.plane
      ∷ of_ℕ clust.module_
      ∷ clust.time
      ∷ []

  unfoldable pub all_mc_hits : List (GemCluster D) → List (List D)
  all_mc_hits [] = []
  all_mc_hits (clust ∷ rest) =
      if not (clust.source is 0) then all_mc_hits rest else hit_row clust ∷ all_mc_hits rest
