-- ===== src/Decoder/Clusters/Scan.antt =====
-- What the loop over the clusters saves of an event, and when it fails.
use libsolgem.Base.{
  ℕ, ◌+◌, ◌*◌, ℤ, pos, ◌≡◌, refl, ap, sym, ◌∙◌, ◌⊎◌, inl, inr, Bool, true, false, ◌&&◌, Bool-cases,
  none, some, List, [], ◌∷◌, ◌++◌, map, length, length-append, if◌then◌else◌, arith,
}
use mathlib.Core.List.{append-nil, append_assoc}
use libsolgem.Base.Int.{leb_ℤ, ltb_ℤ}
use libsolgem.Double.{Double}
use libsolgem.Database.{Manager}
use libsolgem.SimEvent.{GemCluster}
use libsolgem.Decoder.Clusters.{
  SimGemHit, Scanned, new_gem_hit, is_primary, note_primary, is_legal, scan_cluster, scan_clusters,
}

module _ {D : Type 0} where
  abbrev pub primaries : List (GemCluster D) → ℕ
  primaries [] = 0
  primaries (c ∷ cs) = (if is_primary c then 1 else 0) + primaries cs

module _ {D : Type 0} ⦃d : Double D⦄ (fManager : Manager D) (itrack : ℤ) where
  abbrev in_detector : GemCluster D → Bool
  in_detector c = leb_ℤ (pos 0) c.plane && ltb_ℤ c.plane (pos fManager.n_chamber)

  -- The plane of each cluster is one of the detector's.
  abbrev pub all_legal : List (GemCluster D) → Bool
  all_legal [] = true
  all_legal (c ∷ cs) = in_detector c && all_legal cs

  is_legal-in_detector : (c : GemCluster D) → in_detector c ≡ is_legal fManager c
  unfolding is_legal
  is_legal-in_detector c = ground arith

  scan_cluster-saved :
      (i : ℕ) (c : GemCluster D) (s : Scanned D)
      → let s' = scan_cluster itrack i c s in
        (s'.hits ≡ s.hits ++ new_gem_hit c ∷ [])
        × (length s'.points ≡ length s.points + 2 * (if is_primary c then 1 else 0))
  unfolding scan_cluster note_primary
  scan_cluster-saved i c s = elim (Bool-cases (is_primary c)) [
    | inl prim ↦ rw prim (refl, length-append s.points _)
    | inr other ↦ rw other (refl, omega arith)
  ]

  -- The loop over the clusters ends without an error exactly if the plane of every cluster is one of
  -- the detector's. Then every cluster is saved as a hit, in order, and every primary cluster gives two
  -- points of the track.
  pub scan_clusters_total :
      (cs : List (GemCluster D)) (i : ℕ) (s : Scanned D)
      → let out = scan_clusters fManager itrack cs i s in
        ((all_legal cs ≡ true)
          × ((r : Scanned D) × (out ≡ some r)
              × (r.hits ≡ s.hits ++ map new_gem_hit cs)
              × (length r.points ≡ length s.points + 2 * primaries cs)))
        ⊎ ((all_legal cs ≡ false) × (out ≡ none))
  unfolding scan_clusters
  scan_clusters_total [] i s = inl (refl, (s, refl, sym (append-nil s.hits), omega arith))
  scan_clusters_total (c ∷ rest) i s = elim (Bool-cases (is_legal fManager c)) [
    | inr illegal ↦ inr (rw (is_legal-in_detector c, illegal) refl, rw illegal refl)
    | inl legal ↦ elim (scan_clusters_total rest (i + 1) (scan_cluster itrack i c s)) [
      | inl (all, (r, e, hits, points)) ↦
          let (hits', points') = scan_cluster-saved i c s in
          inl (
            rw (is_legal-in_detector c, legal) all,
            (
              r,
              rw legal e,
              hits
                  ∙ ap (λ (h : List (SimGemHit D)). h ++ map new_gem_hit rest) hits'
                  ∙ append_assoc s.hits _ _,
              omega (arith, points, points'),
            ),
          )
      | inr (some_illegal, e) ↦ inr (rw (is_legal-in_detector c, legal) some_illegal, rw legal e)
    ]
  ]
