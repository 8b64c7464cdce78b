-- ===== src/Decoder/Clusters/Primary.antt =====
-- Which cluster the back track is made of.
use libsolgem.Base.{
  ℕ, zero, suc, ◌+◌, ◌<◌, ℤ, pos, ◌≡◌, refl, ap, sym, ◌∙◌, ◌⊎◌, inl, inr, true, Bool-cases, none,
  some, List, [], ◌∷◌, get_elem?, arith,
}
use libsolgem.Base.Int.{◌≤ℤ◌, ◌<ℤ◌}
use mathlib.Core.Option.{some-injective}
use libsolgem.Base.{none_ne_some}
use libsolgem.Double.{Double}
use libsolgem.Database.{Manager}
use libsolgem.SimEvent.{GemCluster}
use libsolgem.Decoder.Clusters.{
  Scanned, is_primary, note_primary, is_legal, scan_cluster, scan_clusters, start_scan,
}

module _ {D : Type 0} where
  -- No primary cluster of the list is at a plane before `bound`.
  abbrev pub NoneBefore : ℤ → List (GemCluster D) → Type 0
  NoneBefore bound cs =
      (m : ℕ) (c : GemCluster D) → get_elem? cs m ≡ some c → is_primary c ≡ true → bound ≤ℤ c.plane

  -- Cluster `n` is the first one of those primary clusters that are at the lowest plane, `low`, and
  -- this plane is before `bound`.
  pub record IsFirst (bound : ℤ) (cs : List (GemCluster D)) (n : ℕ) (low : ℤ) : Type 0 where
    pub cluster : GemCluster D
    pub is_at : get_elem? cs n ≡ some cluster
    pub primary : is_primary cluster ≡ true
    pub plane_is : cluster.plane ≡ low
    pub before : cluster.plane <ℤ bound
    pub lowest : NoneBefore cluster.plane cs
    pub first :
        (m : ℕ) (c : GemCluster D)
        → m < n
        → get_elem? cs m ≡ some c
        → is_primary c ≡ true
        → cluster.plane <ℤ c.plane

  NoneBefore-cons :
      (bound : ℤ) (c : GemCluster D) (cs : List (GemCluster D))
      → (is_primary c ≡ true → bound ≤ℤ c.plane)
      → NoneBefore bound cs
      → NoneBefore bound (c ∷ cs)
  NoneBefore-cons bound c cs h rest zero c' at prim =
      let same : c ≡ c' = some-injective _ _ at in rw (← same) (h (rw same prim))
  NoneBefore-cons bound c cs h rest (suc m) c' at prim = rest m c' at prim

  IsFirst-head :
      (bound : ℤ) (c : GemCluster D) (cs : List (GemCluster D))
      → is_primary c ≡ true
      → c.plane <ℤ bound
      → NoneBefore c.plane cs
      → IsFirst bound (c ∷ cs) 0 c.plane
  IsFirst-head bound c cs prim lt rest = record {
    cluster = c;
    is_at = refl;
    primary = prim;
    plane_is = refl;
    before = lt;
    lowest = NoneBefore-cons c.plane c cs (λ p. omega arith) rest;
    first = λ m c' lt' at p. absurd (omega arith);
  }

  -- A later cluster stays the first one behind a cluster that is not primary or at a higher plane.
  IsFirst-tail :
      (bound bound' : ℤ) (c : GemCluster D) (cs : List (GemCluster D)) (n : ℕ) (low : ℤ)
      → (is_primary c ≡ true → bound' ≤ℤ c.plane)
      → bound' ≤ℤ bound
      → IsFirst bound' cs n low
      → IsFirst bound (c ∷ cs) (suc n) low
  IsFirst-tail bound bound' c cs n low h le f = record {
    cluster = f.cluster;
    is_at = f.is_at;
    primary = f.primary;
    plane_is = f.plane_is;
    before = omega (arith, f.before);
    lowest = NoneBefore-cons f.cluster.plane c cs (λ p. omega (arith, f.before, h p)) f.lowest;
    first = first;
  }
    where
      first :
          (m : ℕ) (c' : GemCluster D)
          → m < suc n
          → get_elem? (c ∷ cs) m ≡ some c'
          → is_primary c' ≡ true
          → f.cluster.plane <ℤ c'.plane
      first zero c' lt at prim =
          let same : c ≡ c' = some-injective _ _ at in
          rw (← same) (omega (arith, f.before, h (rw same prim)))
      first (suc m) c' lt at prim = f.first m c' (omega arith) at prim

module _ {D : Type 0} ⦃d : Double D⦄ (fManager : Manager D) (itrack : ℤ) where
  -- The outcome of the loop from cluster number `i`, for the best cluster.
  abbrev Outcome : ℕ → Scanned D → List (GemCluster D) → Scanned D → Type 0
  Outcome i s cs r =
      (NoneBefore s.best_primary_plane cs
        × (r.best_primary ≡ s.best_primary)
        × (r.best_primary_plane ≡ s.best_primary_plane))
      ⊎ ((n : ℕ) × IsFirst s.best_primary_plane cs n r.best_primary_plane
          × (r.best_primary ≡ some (i + n)))

  scan_cluster-best :
      (i : ℕ) (c : GemCluster D) (s : Scanned D)
      → let s' = scan_cluster itrack i c s in
        ((is_primary c ≡ true)
          × (c.plane <ℤ s.best_primary_plane)
          × (s'.best_primary ≡ some i)
          × (s'.best_primary_plane ≡ c.plane))
        ⊎ ((is_primary c ≡ true → s.best_primary_plane ≤ℤ c.plane)
            × (s'.best_primary ≡ s.best_primary)
            × (s'.best_primary_plane ≡ s.best_primary_plane))
  unfolding scan_cluster note_primary
  scan_cluster-best i c s = ground arith

  scan_clusters-best :
      (cs : List (GemCluster D)) (i : ℕ) (s r : Scanned D)
      → scan_clusters fManager itrack cs i s ≡ some r
      → Outcome i s cs r
  unfolding scan_clusters
  scan_clusters-best [] i s r e =
      let same : s ≡ r = some-injective _ _ e in
      inl (
        λ m c at p. cc,
        ap (λ (t : Scanned D). t.best_primary) (sym same),
        ap (λ (t : Scanned D). t.best_primary_plane) (sym same),
      )
  scan_clusters-best (c ∷ rest) i s r e = elim (Bool-cases (is_legal fManager c)) [
    | inr illegal ↦ absurd (none_ne_some (rw illegal at e))
    | inl legal ↦
        step legal (scan_clusters-best rest (i + 1) (scan_cluster itrack i c s) r (rw legal at e))
  ]
    where
      shift : (n : ℕ) → i + 1 + n ≡ i + suc n
      shift n = omega arith

      start : i ≡ i + 0
      start = omega arith

      step :
          is_legal fManager c ≡ true
          → Outcome (i + 1) (scan_cluster itrack i c s) rest r
          → Outcome i s (c ∷ rest) r
      step legal later = elim (scan_cluster-best i c s) [
        | inl (prim, lt, best, plane) ↦ elim later [
          | inl (none_before, best', plane') ↦ inr (
            0,
            rw (plane', plane)
                (IsFirst-head s.best_primary_plane c rest prim lt (rw plane at none_before)),
            best' ∙ best ∙ ap some start,
          )
          | inr (n, f, best') ↦ inr (
            suc n,
            IsFirst-tail s.best_primary_plane (scan_cluster itrack i c s).best_primary_plane c rest
                n r.best_primary_plane (λ p. rw plane (omega arith)) (rw plane (omega (arith, lt)))
                f,
            best' ∙ ap some (shift n),
          )
        ]
        | inr (skip, best, plane) ↦ elim later [
          | inl (none_before, best', plane') ↦ inl (
            NoneBefore-cons s.best_primary_plane c rest skip (rw plane at none_before),
            best' ∙ best,
            plane' ∙ plane,
          )
          | inr (n, f, best') ↦ inr (
            suc n,
            IsFirst-tail s.best_primary_plane (scan_cluster itrack i c s).best_primary_plane c rest
                n r.best_primary_plane (λ p. rw plane (skip p)) (rw plane (omega arith)) f,
            best' ∙ ap some (shift n),
          )
        ]
      ]

  -- If the loop over the clusters ends without an error, either there is no primary cluster at a
  -- plane of the detector and the back track has no cluster, or the cluster of the back track is the
  -- first one of the primary clusters at the lowest plane.
  pub scan_clusters-IsFirst :
      (cs : List (GemCluster D)) (r : Scanned D)
      → scan_clusters fManager itrack cs 0 (start_scan fManager) ≡ some r
      → (NoneBefore (pos fManager.n_chamber) cs × (r.best_primary ≡ none))
        ⊎ ((n : ℕ) × IsFirst (pos fManager.n_chamber) cs n r.best_primary_plane
            × (r.best_primary ≡ some n))
  unfolding start_scan
  scan_clusters-IsFirst cs r e = elim (scan_clusters-best cs 0 (start_scan fManager) r e) [
    | inl (none_before, best, plane) ↦ inl (none_before, best)
    | inr (n, f, best) ↦ let whole : 0 + n ≡ n = omega arith in inr (n, f, best ∙ ap some whole)
  ]
