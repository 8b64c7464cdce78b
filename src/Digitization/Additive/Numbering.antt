-- ===== src/Digitization/Additive/Numbering.antt =====
-- The hits that the digitization records are numbered from 1, and the strips name recorded hits only.
use libsolgem.Base.{
  ℕ, zero, suc, ◌+◌, ◌≤◌, ◌<◌, pos, ◌≡◌, refl, ap, Bool, true, false, ◌&&◌, ◌⊎◌, inl, inr,
  Bool-cases, Option, none, some, List, [], ◌∷◌, ◌++◌, All, length, get_elem?, ==_iff, arith, ◌==◌,
  if◌then◌else◌,
}
use mathlib.Core.Option.{some-injective}
use libsolgem.Base.Int.{eqb_ℤ}
use libsolgem.Double.{Double}
use libsolgem.SimEvent.{GemCluster, SimEvent, clear_event}
use libsolgem.DigitizedPlane.{GemHit}
use libsolgem.DigitizedPlane.Names.{cumulate-AllClusters}
use libsolgem.Digitization.{Root, Settings, Digitizer}
use libsolgem.Digitization.Additive.{cumulate_plane, cumulate_planes, record_strips}

-- A hit of the primary particle in signal data.
abbrev pub is_signal : {D : Type 0} → GemCluster D → Bool
is_signal c = eqb_ℤ c.type (pos 1) && eqb_ℤ c.source (pos 0)

abbrev pub count_signal : {D : Type 0} → List (GemCluster D) → ℕ
count_signal [] = 0
count_signal (c ∷ rest) = (if is_signal c then 1 else 0) + count_signal rest

-- The n-th recorded hit has the number n + 1, and fNSignal counts the hits of the primary particle.
pub record IsNumbered {D : Type 0} (e : SimEvent D) : Type 0 where
  pub numbers : (n : ℕ) (c : GemCluster D) → get_elem? e.gem_clust n ≡ some c → c.id ≡ n + 1
  pub signals : e.n_signal ≡ count_signal e.gem_clust

-- The number of a hit among the first `n`.
abbrev pub IsHit : ℕ → ℕ → Type 0
IsHit n id = (0 < id) × (id ≤ n)

module _ {D R : Type 0} where
  -- Each cluster number in the lists of a strip is the number of a recorded hit.
  abbrev pub NamesHits : Digitizer D R → Type 0
  NamesHits t =
      (ic ip i : ℕ)
      → ic < t.n_chambers
      → ip < t.n_planes ic
      → All (IsHit (length t.event.gem_clust)) ((t.dp ic ip).strip_clusters i)

pub All-IsHit-mono : (n m : ℕ) (ids : List ℕ) → n ≤ m → All (IsHit n) ids → All (IsHit m) ids
All-IsHit-mono n m [] h a = a
All-IsHit-mono n m (id ∷ ids) h (one, rest) = ((one.0, omega arith), All-IsHit-mono n m ids h rest)

get_elem?-snoc {ℓ} :
    {A : Type ℓ} (xs : List A) (x y : A) (n : ℕ)
    → get_elem? (xs ++ x ∷ []) n ≡ some y
    → (get_elem? xs n ≡ some y) ⊎ ((n ≡ length xs) × (x ≡ y))
get_elem?-snoc [] x y zero e = inr (refl, some-injective _ _ e)
get_elem?-snoc [] x y (suc n) e = cc
get_elem?-snoc (a ∷ xs) x y zero e = inl e
get_elem?-snoc (a ∷ xs) x y (suc n) e = elim (get_elem?-snoc xs x y n e) [
  | inl old ↦ inl old
  | inr (at, same) ↦ inr (ap suc at, same)
]

module _ {D : Type 0} where
  count_signal-snoc :
      (cs : List (GemCluster D)) (c : GemCluster D)
      → count_signal (cs ++ c ∷ []) ≡ (if is_signal c then 1 else 0) + count_signal cs
  count_signal-snoc [] c = refl
  count_signal-snoc (b ∷ cs) c = omega (arith, count_signal-snoc cs c)

  -- SetTreeHit appends one numbered hit.
  pub append_cluster-IsNumbered :
      (e : SimEvent D) (c : GemCluster D)
      → c.id ≡ length e.gem_clust + 1
      → IsNumbered e
      → IsNumbered (record e {
        gem_clust = e.gem_clust ++ c ∷ [];
        n_signal = if is_signal c then e.n_signal + 1 else e.n_signal;
      })
  append_cluster-IsNumbered e c here h = record {
    numbers = λ n b at. elim (get_elem?-snoc e.gem_clust c b n at) [
      | inl old ↦ h.numbers n b old
      | inr (place, same) ↦
          let ids : c.id ≡ b.id = ap (λ (x : GemCluster D). x.id) same in omega (arith, ids, here)
    ];
    signals = ground (arith, h.signals, count_signal-snoc e.gem_clust c);
  }

  pub clear_event-IsNumbered : (all : Bool) (e : SimEvent D) → IsNumbered (clear_event all e)
  unfolding clear_event
  clear_event-IsNumbered true e = record { numbers = λ n c at. cc; signals = refl }
  clear_event-IsNumbered false e = record { numbers = λ n c at. cc; signals = refl }

-- What a step of the digitization does to the record of hits: the event stays numbered, no hit is lost,
-- and the strips name recorded hits.
pub record IsStep {D R : Type 0} (t u : Digitizer D R) : Type 0 where
  pub chambers : u.n_chambers ≡ t.n_chambers
  pub planes : u.n_planes ≡ t.n_planes
  pub numbered : IsNumbered t.event → IsNumbered u.event
  pub named : NamesHits t → NamesHits u

module _ {D R : Type 0} ⦃d : Double D⦄ (root : Root D R) (s : Settings D) where
  cumulate_plane-named :
      (v : GemHit D) (type id igem j : ℕ) (t : Digitizer D R)
      → IsHit (length t.event.gem_clust) id
      → NamesHits t
      → NamesHits (cumulate_plane root s v type id igem j t)
  unfolding cumulate_plane
  cumulate_plane-named v type id igem j t hit named ic ip i lt lt' =
      elim (Bool-cases (ic == igem)) [
        | inl chamber ↦
            let here : ic ≡ igem = (==_iff ic igem).0 chamber in
            let in_range : igem < t.n_chambers = omega (arith, here) in
            elim (Bool-cases (ip == j)) [
              | inl plane ↦
                  let there : ip ≡ j = (==_iff ip j).0 plane in
                  rw (chamber, plane)
                    (cumulate-AllClusters (IsHit (length t.event.gem_clust)) s.cross_talk _ _ v type
                      id (t.dp igem j) hit (λ k. named igem j k in_range (rw (← here, ← there) lt'))
                      i)
              | inr other ↦ rw (chamber, other) (named igem ip i in_range (rw (← here) lt'))
            ]
        | inr other ↦ rw other (named ic ip i lt lt')
      ]

  cumulate_planes-IsStep :
      (vs : List (GemHit D)) (type id igem left j : ℕ) (t : Digitizer D R)
      → IsHit (length t.event.gem_clust) id
      → IsStep t (cumulate_planes root s vs type id igem left j t)
  unfolding cumulate_planes cumulate_plane
  cumulate_planes-IsStep [] type id igem left j t hit = record {
    chambers = refl;
    planes = refl;
    numbered = λ h. h;
    named = λ h. h;
  }
  cumulate_planes-IsStep (v ∷ vs) type id igem zero j t hit = record {
    chambers = refl;
    planes = refl;
    numbered = λ h. h;
    named = λ h. h;
  }
  cumulate_planes-IsStep (v ∷ vs) type id igem (suc left) j t hit =
      let u = cumulate_plane root s v type id igem j t in
      let rest = cumulate_planes-IsStep vs type id igem left (j + 1) u hit in
      record {
        chambers = rest.chambers;
        planes = rest.planes;
        numbered = rest.numbered;
        named = λ h. rest.named (cumulate_plane-named v type id igem j t hit h);
      }

  pub record_strips-IsStep :
      (fdh : Option (List (GemHit D))) (type id igem : ℕ) (t : Digitizer D R)
      → IsHit (length t.event.gem_clust) id
      → IsStep t (record_strips root s fdh type id igem t)
  unfolding record_strips
  record_strips-IsStep none type id igem t hit = record {
    chambers = refl;
    planes = refl;
    numbered = λ h. h;
    named = λ h. h;
  }
  record_strips-IsStep (some fdh) type id igem t hit =
      let k = cumulate_planes-IsStep fdh type id igem 2 0 t hit in
      record { chambers = k.chambers; planes = k.planes; numbered = k.numbered; named = k.named }
