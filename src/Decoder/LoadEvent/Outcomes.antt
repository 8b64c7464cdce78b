-- ===== src/Decoder/LoadEvent/Outcomes.antt =====
-- What DoLoadEvent returns for an event, where the readout accepts every hit.
use libsolgem.Base.{
  ℕ, suc, zero, ℤ, pos, ◌≡◌, refl, sym, ◌∙◌, ◌⊎◌, inl, inr, true, false, Bool-cases, none, some,
  none_ne_some, Option-cases, List, [], ◌∷◌, map, get_elem?, arith,
}
use libsolgem.Base.Int.{eqb_ℤ, ◌<ℤ◌}
use mathlib.Core.List.{Memᴰ}
use mathlib.Core.Option.{some-injective}
use mathlib.Core.Bool.{true≢false}
use libsolgem.Database.{Manager}
use libsolgem.Double.{Double}
use libsolgem.Readout.{Address}
use libsolgem.SimEvent.{GemCluster, EcalCluster, ScintCluster, SimTrack, SimEvent}
use libsolgem.Decoder.LoadStrips.RoundTrip.{load_strips_total}
use libsolgem.Decoder.Clusters.{Scanned, new_gem_hit, is_primary, scan_clusters, start_scan}
use libsolgem.Decoder.Clusters.Scan.{all_legal, scan_clusters_total}
use libsolgem.Decoder.Clusters.Primary.{scan_clusters-IsFirst}
use libsolgem.Decoder.Shower.{Library, Profiles}
use libsolgem.Decoder.Kinematics.{is_bad_scint}
use libsolgem.Decoder.Calorimeter.{is_electron, load_calorimeter}
use libsolgem.Decoder.Calorimeter.Accepting.{load_calorimeter_fails}
use libsolgem.Decoder.BackTrack.{note_statistics}
use libsolgem.Decoder.LoadEvent.{
  loaded, ended, hed_err, hed_fatal, Analyzer, SimDecoder, init_maps, start_event, is_below,
  note_clusters, load_calo, load_clusters, do_load_event,
}

module _ {D : Type 0} where
  -- Some cluster is of the primary track.
  abbrev pub HasPrimary : List (GemCluster D) → Type 0
  HasPrimary cs = (m : ℕ) × (c : GemCluster D) × (get_elem? cs m ≡ some c) × (is_primary c ≡ true)

  module _ ⦃d : Double D⦄ (fManager : Manager D) where
    all_legal-at :
        (itrack : ℤ) (cs : List (GemCluster D)) (m : ℕ) (c : GemCluster D)
        → all_legal fManager itrack cs ≡ true
        → get_elem? cs m ≡ some c
        → c.plane <ℤ pos fManager.n_chamber
    all_legal-at itrack [] m c legal at = cc
    all_legal-at itrack (x ∷ cs) zero c legal at =
        let same : x ≡ c = some-injective _ _ at in rw (← same) (ground arith)
    all_legal-at itrack (x ∷ cs) (suc m) c legal at = all_legal-at itrack cs m c (ground arith) at

    best_primary_cases :
        (itrack : ℤ) (cs : List (GemCluster D)) (r : Scanned D)
        → all_legal fManager itrack cs ≡ true
        → scan_clusters fManager itrack cs 0 (start_scan fManager) ≡ some r
        → (¬ HasPrimary cs × (r.best_primary ≡ none))
          ⊎ (HasPrimary cs × (n : ℕ) × (r.best_primary ≡ some n))
    best_primary_cases itrack cs r legal e = elim (scan_clusters-IsFirst fManager itrack cs r e) [
      | inl (before, best) ↦ inl (
        λ (m, c, at, prim).
            absurd (omega (arith, before m c at prim, all_legal-at itrack cs m c legal at)),
        best,
      )
      | inr (n, f, best) ↦ inr ((n, f.cluster, f.is_at, f.primary), n, best)
    ]

module _ {D : Type 0} ⦃d : Double D⦄ (lib : Library D) (unset : D) (fManager : Manager D) where
  -- The calorimeter's part of the event ends the decoding: it is done, and an electron's cluster comes
  -- with an entry of the coordinate detector that has another flag or no energy.
  abbrev pub FailsCalo : SimEvent D → Type 0
  FailsCalo e =
      (eqb_ℤ fManager.do_calo (pos 0) ≡ false)
      × HasPrimary e.gem_clust
      × (c : EcalCluster D) × Memᴰ c e.ecal_clusters
      × (is_electron lib unset fManager c ≡ true)
      × (s : ScintCluster D) × Memᴰ s e.scint_clusters
      × (is_bad_scint lib unset fManager s ≡ true)

module _ {C D : Type 0} ⦃d : Double D⦄ (fManager : Manager D) (podd : Analyzer C D)
    (lib : Library D) (unset : D) (profx profy : Profiles D)
    (accepts : (c : C) (a : Address) (x y : ℤ) → (c' : C) × (podd.load_hit c a x y ≡ some c')) where
  load_calo_cases :
      (e : SimEvent D) (r : Scanned D) (t : SimTrack D) (s : SimDecoder C D)
      → (¬ HasPrimary e.gem_clust × (r.best_primary ≡ none))
        ⊎ (HasPrimary e.gem_clust × (n : ℕ) × (r.best_primary ≡ some n))
      → (FailsCalo lib unset fManager e
          × (load_calo fManager podd lib unset profx profy e r t s ≡ ended hed_err))
        ⊎ (¬ FailsCalo lib unset fManager e
            × (slots : C) × (load_calo fManager podd lib unset profx profy e r t s
                ≡ loaded (record s { slots = slots })))
  unfolding load_calo
  load_calo_cases e r t s (inl (without, best)) =
      inr (λ fails. without (fails.1), s.slots, rw best refl)
  load_calo_cases e r t s (inr (prim, n, best)) =
      elim (Bool-cases (eqb_ℤ fManager.do_calo (pos 0))) [
        | inl off ↦ inr (λ fails. true≢false (sym off ∙ fails.0), s.slots, rw (best, off) refl)
        | inr on ↦
            let calo =
              load_calorimeter lib unset fManager C podd.load_hit profx profy t.vertex_target.z
                e.scint_clusters e.ecal_clusters
                (record {
                  slots = s.slots;
                  final_points = [];
                  final_track = record { x = unset; y = unset; xp = unset; yp = unset };
                }) in
            let (gives, taken) =
              load_calorimeter_fails lib unset fManager C podd.load_hit accepts profx profy
                t.vertex_target.z e.scint_clusters e.ecal_clusters
                (record {
                  slots = s.slots;
                  final_points = [];
                  final_track = record { x = unset; y = unset; xp = unset; yp = unset };
                }) in
            elim (Option-cases calo) [
              | inl failed ↦
                  let (c, m, el, z, mz, bad) = gives failed in
                  inl ((on, prim, c, m, el, z, mz, bad), rw (best, on, failed) refl)
              | inr (l, done) ↦ inr (
                λ (on', prim', c, m, el, z, mz, bad).
                    none_ne_some (sym (taken (c, m, el, z, mz, bad)) ∙ done),
                l.slots,
                rw (best, on, done) refl,
              )
            ]
      ]

  -- What the state holds of the event, whose first track is `t`, before the tracks `rest`: the clusters
  -- as hits, the first track with the statistics of the loop over the clusters, the other tracks as
  -- they are, and the number and the weight.
  abbrev pub IsLoaded : SimEvent D → SimTrack D → List (SimTrack D) → SimDecoder C D → Type 0
  IsLoaded e t rest u =
      (u.mc_hits ≡ map new_gem_hit e.gem_clust)
      × ((r : Scanned D) × (scan_clusters fManager t.number e.gem_clust 0 (start_scan fManager)
            ≡ some r)
          × (u.mc_tracks ≡ note_statistics r t ∷ rest))
      × (u.event_num ≡ e.evt_id)
      × (u.weight ≡ e.weight)

  load_clusters_cases :
      (e : SimEvent D) (t : SimTrack D) (rest ts : List (SimTrack D)) (s : SimDecoder C D)
      → ts ≡ t ∷ rest
      → s.event_num ≡ e.evt_id
      → s.weight ≡ e.weight
      → let out = load_clusters fManager podd lib unset profx profy e ts s in
        ((all_legal fManager t.number e.gem_clust ≡ false) × (out ≡ ended hed_fatal))
        ⊎ ((all_legal fManager t.number e.gem_clust ≡ true)
            × FailsCalo lib unset fManager e
            × (out ≡ ended hed_err))
        ⊎ ((all_legal fManager t.number e.gem_clust ≡ true)
            × ¬ FailsCalo lib unset fManager e
            × (u : SimDecoder C D) × (out ≡ loaded u)
            × IsLoaded e t rest u)
  unfolding load_clusters note_clusters start_scan
  load_clusters_cases e t rest ts s tracks num weight =
      elim (scan_clusters_total fManager t.number e.gem_clust 0 (start_scan fManager)) [
        | inr (illegal, failed) ↦ inl (illegal, rw (tracks, failed) refl)
        | inl (legal, (r, scanned, hits, points)) ↦
            elim (load_calo_cases e r t (note_clusters fManager podd lib e r t rest s)
              (best_primary_cases fManager t.number e.gem_clust r legal scanned)) [
                | inl (fails, failed) ↦ inr (inl (legal, fails, rw (tracks, scanned) failed))
                | inr (passes, slots, done) ↦ inr (
                    inr (
                      legal,
                      passes,
                      record (note_clusters fManager podd lib e r t rest s) { slots = slots },
                      rw (tracks, scanned) done,
                      (hits, (r, scanned, refl), num, weight),
                    ))
              ]
      ]

  -- Where the readout accepts every hit, the analyzer's maps are made without an error and the event has a track,
  -- DoLoadEvent returns HED_ERR for an event below the threshold of the calorimeter, else HED_FATAL if a
  -- cluster is at an illegal plane, else HED_ERR if the calorimeter is done, there is a primary cluster
  -- and an electron's cluster comes with a bad entry of the coordinate detector. Each other event is
  -- loaded: every cluster as a hit, the first track with the statistics of the loop over the clusters, the
  -- other tracks as they are, and the event's number and weight.
  pub do_load_event_cases :
      (max_slot : ℕ) (e : SimEvent D) (t : SimTrack D) (rest : List (SimTrack D))
      (s s0 : SimDecoder C D)
      → e.mc_tracks ≡ t ∷ rest
      → init_maps podd s ≡ loaded s0
      → let out = do_load_event fManager podd lib unset profx profy max_slot e s in
        ((is_below fManager e ≡ true) × (out ≡ ended hed_err))
        ⊎ ((is_below fManager e ≡ false)
            × (all_legal fManager t.number e.gem_clust ≡ false)
            × (out ≡ ended hed_fatal))
        ⊎ ((is_below fManager e ≡ false)
            × (all_legal fManager t.number e.gem_clust ≡ true)
            × FailsCalo lib unset fManager e
            × (out ≡ ended hed_err))
        ⊎ ((is_below fManager e ≡ false)
            × (all_legal fManager t.number e.gem_clust ≡ true)
            × ¬ FailsCalo lib unset fManager e
            × (u : SimDecoder C D) × (out ≡ loaded u)
            × IsLoaded e t rest u)
  unfolding do_load_event start_event
  do_load_event_cases max_slot e t rest s s0 tracks ready =
      let s1 = start_event podd.clear_slots e s0 in
      let (slots, m, filled) =
        load_strips_total C (λ c a raw. podd.load_hit c a raw raw) fManager max_slot
          (λ c a raw. accepts c a raw raw) e.gem_strips 0 s1.slots s1.strip_map in
      elim (Bool-cases (is_below fManager e)) [
        | inl low ↦ inl (low, rw (ready, filled, low) refl)
        | inr high ↦
            elim (load_clusters_cases e t rest e.mc_tracks
              (record s1 { slots = slots; strip_map = m }) tracks refl refl) [
                | inl (illegal, out) ↦ inr (inl (high, illegal, rw (ready, filled, high) out))
                | inr (inl (legal, fails, out)) ↦
                    inr (inr (inl (high, legal, fails, rw (ready, filled, high) out)))
                | inr (inr (legal, passes, u, out, is_loaded)) ↦
                    inr
                      (inr (inr (high, legal, passes, u, rw (ready, filled, high) out, is_loaded)))
              ]
      ]
