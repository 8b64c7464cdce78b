-- ===== src/Decoder/BackTrack/PlaneCount.antt =====
-- The hit bits that DoLoadEvent, in src/TSBSSimDecoder.cxx, collects over the clusters, and the number of
-- hits that it makes of them for the first track.
use libsolgem.Base.{
  ℕ, ℤ, zero, suc, ◌+◌, ◌*◌, ◌/◌, ◌^◌, ◌≤◌, ◌<◌, ◌≡◌, refl, ◌∙◌, ap, inl, inr, Bool, true, false,
  Bool-cases, ◌&&◌, ◌||◌, pos, some, none_ne_some, List, [], ◌∷◌, if◌then◌else◌, ◌==◌, arith,
}
use libsolgem.Base.Bits.{bit_at, bit_at-bit_or, bit_or_lt}
use libsolgem.Base.Int.{eqb_ℤ, pos_part}
use mathlib.Core.Path.{subst}
use mathlib.Core.Option.{some-injective}
use libsolgem.Double.{Double}
use libsolgem.Database.{Manager}
use libsolgem.SimEvent.{GemCluster, SimTrack}
use libsolgem.Decoder.Clusters.{
  Scanned, is_primary, is_legal, set_bit, note_primary, scan_cluster, scan_clusters, start_scan,
}
use libsolgem.Decoder.BackTrack.{note_statistics}
use libsolgem.Decoder.BackTrack.Popcount.{count_bits, number_of_set_bits-count_bits}

-- The number of places below k where P holds.
unfoldable pub count_places : ℕ → (ℕ → Bool) → ℕ
count_places zero P = 0
count_places (suc k) P = (if P 0 then 1 else 0) + count_places k (λ p. P (suc p))

count_bits-count_places :
    (k v : ℕ) (P : ℕ → Bool)
    → ((p : ℕ) → bit_at p v ≡ (if P p then 1 else 0))
    → count_bits k v ≡ count_places k P
unfolding count_bits count_places
count_bits-count_places zero v P h = refl
count_bits-count_places (suc k) v P h =
    omega (arith, h 0, count_bits-count_places k (v / 2) (λ p. P (suc p)) (λ p. h (suc p)))

bit_at_zero : (p : ℕ) → bit_at p 0 ≡ 0
bit_at_zero zero = refl
bit_at_zero (suc p) = bit_at_zero p

later_bit :
    (a b : Bool) (x : ℕ) → (if b then 1 else (if a then 1 else x)) ≡ (if a || b then 1 else x)
later_bit true true x = refl
later_bit true false x = refl
later_bit false b x = refl

module _ {D : Type 0} where
  -- One of the clusters is a primary one on plane p.
  abbrev pub has_primary : List (GemCluster D) → ℕ → Bool
  has_primary [] p = false
  has_primary (c ∷ cs) p = is_primary c && eqb_ℤ c.plane (pos p) || has_primary cs p

module _ {D : Type 0} ⦃d : Double D⦄ (fManager : Manager D) (itrack : ℤ) where
  -- One step of the loop adds the plane of a primary cluster to the bits, and nothing else.
  scan_cluster-bits :
      (c : GemCluster D) (i : ℕ) (s : Scanned D) (p : ℕ)
      → is_legal fManager c ≡ true
      → bit_at p (scan_cluster itrack i c s).primary_hitbits
        ≡ (if is_primary c && eqb_ℤ c.plane (pos p) then 1 else bit_at p s.primary_hitbits)
  unfolding scan_cluster note_primary set_bit is_legal
  scan_cluster-bits c i s p legal = elim (Bool-cases (is_primary c)) [
    | inr other ↦ rw other refl
    | inl primary ↦
        let plane = pos_part c.plane in
        let same : eqb_ℤ c.plane (pos p) ≡ (p == plane) = ground arith in
        rw (primary, same) (bit_at-bit_or p plane s.primary_hitbits)
  ]

  scan_cluster_lt :
      (c : GemCluster D) (i k : ℕ) (s : Scanned D)
      → is_legal fManager c ≡ true
      → fManager.n_chamber ≤ k
      → s.primary_hitbits < 2 ^ k
      → (scan_cluster itrack i c s).primary_hitbits < 2 ^ k
  unfolding scan_cluster note_primary set_bit is_legal
  scan_cluster_lt c i k s legal few h = elim (Bool-cases (is_primary c)) [
    | inr other ↦ rw other h
    | inl primary ↦
        let inside : pos_part c.plane < k = ground arith in
        rw primary (bit_or_lt k (pos_part c.plane) s.primary_hitbits inside h)
  ]

  scan_clusters-bits :
      (cs : List (GemCluster D)) (i k : ℕ) (s r : Scanned D)
      → fManager.n_chamber ≤ k
      → s.primary_hitbits < 2 ^ k
      → scan_clusters fManager itrack cs i s ≡ some r
      → (r.primary_hitbits < 2 ^ k)
        × ((p : ℕ)
            → bit_at p r.primary_hitbits
              ≡ (if has_primary cs p then 1 else bit_at p s.primary_hitbits))
  unfolding scan_clusters
  scan_clusters-bits [] i k s r few h e =
      subst
        (λ (x : Scanned D).
          (x.primary_hitbits < 2 ^ k)
          × ((p : ℕ) → bit_at p x.primary_hitbits ≡ bit_at p s.primary_hitbits))
        (some-injective s r e) (h, λ p. refl)
  scan_clusters-bits (c ∷ cs) i k s r few h e = elim (Bool-cases (is_legal fManager c)) [
    | inr illegal ↦ absurd (none_ne_some (rw illegal at e))
    | inl legal ↦
        let (bound, bits) =
          scan_clusters-bits cs (i + 1) k (scan_cluster itrack i c s) r few
            (scan_cluster_lt c i k s legal few h) (rw legal at e) in
        (
          bound,
          λ p.
              bits p
              ∙ ap (λ (x : ℕ). if has_primary cs p then 1 else x) (scan_cluster-bits c i s p legal)
              ∙ later_bit (is_primary c && eqb_ℤ c.plane (pos p)) (has_primary cs p) _,
        )
  ]

  -- For at most 32 chambers: if the loop over the clusters ends without an error, the hit bits of the
  -- first track are set at exactly the planes with a primary cluster, and its number of hits is twice
  -- the number of these planes.
  pub note_statistics-scan_clusters :
      (cs : List (GemCluster D)) (r : Scanned D) (trk : SimTrack D)
      → fManager.n_chamber ≤ 32
      → scan_clusters fManager itrack cs 0 (start_scan fManager) ≡ some r
      → ((p : ℕ) → bit_at p (note_statistics r trk).hit_bits ≡ (if has_primary cs p then 1 else 0))
        × ((note_statistics r trk).n_hits ≡ 2 * count_places 32 (has_primary cs))
  unfolding note_statistics start_scan
  note_statistics-scan_clusters cs r trk few e =
      let (bound, bits) = scan_clusters-bits cs 0 32 (start_scan fManager) r few (omega arith) e in
      let exact =
        λ (p : ℕ). bits p ∙ ap (λ (x : ℕ). if has_primary cs p then 1 else x) (bit_at_zero p) in
      (
        exact,
        ap (λ (n : ℕ). 2 * n)
            (number_of_set_bits-count_bits r.primary_hitbits bound
              ∙ count_bits-count_places 32 r.primary_hitbits (has_primary cs) exact),
      )
