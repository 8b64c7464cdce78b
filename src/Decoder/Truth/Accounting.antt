-- ===== src/Decoder/Truth/Accounting.antt =====
-- What GetSBSMCHitInfo reports of the clusters of a strip.
use libsolgem.Base.{
  ℕ, ◌+◌, ◌-◌, ◌≤◌, ℤ, pos, ◌≡◌, refl, sym, ◌⊎◌, ◌>>=◌, map, inl, inr, false, Bool-cases, Option,
  none, some, >>=-eq-some, List, [], ◌∷◌, ◌++◌, length, length-append, arith,
}
use mathlib.Core.List.{append-nil, append_assoc}
use mathlib.Core.Option.{some-injective}
use libsolgem.Double.{Double}
use libsolgem.Database.{Manager}
use libsolgem.Database.Access.{◌is◌}
use libsolgem.SimEvent.{GemCluster, DigiGemStrip, SimEvent}
use libsolgem.Decoder.Truth.{
  SignalInfo, McHitInfo, Gathered, new_info, signal_of, cluster_at, list_cluster, count_signal,
  count_background, place_of, count_cluster, gather, finish, only_induced, strip_truth,
}

length-snoc {ℓ κ} :
    {A : Type ℓ} {B : Type κ} (ids : List B) (id : B) (xs : List A) (x : A)
    → length xs ≡ length ids
    → length (xs ++ x ∷ []) ≡ length (ids ++ id ∷ [])
length-snoc ids id xs x e = omega (arith, e, length-append xs (x ∷ []), length-append ids (id ∷ []))

abbrev pub signals_of : Option SignalInfo → ℕ
signals_of sig = elim sig [ some s ↦ 1 | none ↦ 0 ]

abbrev pub backgrounds_of : Option SignalInfo → ℕ
backgrounds_of sig = elim sig [ some s ↦ 0 | none ↦ 1 ]

module _ {D : Type 0} ⦃d : Double D⦄ where
  -- Every vector lists the clusters of `listed`, of which `sigs` are counted as signal and `backs` as
  -- background; a track is named only if a signal is counted.
  pub record IsCounted (listed : List ℕ) (sigs backs : ℕ) (mc : McHitInfo D) (n_overlap : ℕ)
      : Type 0 where
    pub overlap : n_overlap ≡ sigs
    pub background : mc.contam ≡ backs
    pub ids : mc.cluster_id ≡ listed
    pub types : length mc.cluster_type ≡ length listed
    pub weights : length mc.cluster_strip_weight ≡ length listed
    pub times : length mc.cluster_peak_time ≡ length listed
    pub places : length mc.cluster_pos ≡ length listed
    pub charges : length mc.cluster_charge ≡ length listed
    pub rows : (its : ℕ) → length (mc.cluster_adc its) ≡ length listed
    pub covered : (mc.mc_track ≡ pos 0) ⊎ (1 ≤ n_overlap)

  list_cluster-IsCounted :
      (strip : DigiGemStrip D) (i id : ℕ) (ids : List ℕ) (j k o : ℕ) (c : GemCluster D)
      (mc : McHitInfo D)
      → IsCounted ids j k mc o
      → IsCounted (ids ++ id ∷ []) j k (list_cluster strip i id c mc) o
  unfolding list_cluster
  list_cluster-IsCounted strip i id ids j k o c mc h = record {
    overlap = h.overlap;
    background = h.background;
    ids = rw (h.ids) refl;
    types = length-snoc ids id _ _ h.types;
    weights = length-snoc ids id _ _ h.weights;
    times = length-snoc ids id _ _ h.times;
    places = length-snoc ids id _ _ h.places;
    charges = length-snoc ids id _ _ h.charges;
    rows = λ its. length-snoc ids id _ _ (h.rows its);
    covered = h.covered;
  }

  count_signal-IsCounted :
      (tid : ℤ) (place time : D) (ids : List ℕ) (j k : ℕ) (g : Gathered D)
      → IsCounted ids j k g.info g.n_overlap
      → let g' = count_signal tid place time g in IsCounted ids (j + 1) k g'.info g'.n_overlap
  unfolding count_signal
  count_signal-IsCounted tid place time ids j k g h = ground arith

  count_background-IsCounted :
      (place : D) (ids : List ℕ) (j k : ℕ) (g : Gathered D)
      → IsCounted ids j k g.info g.n_overlap
      → let g' = count_background place g in IsCounted ids j (k + 1) g'.info g'.n_overlap
  unfolding count_background
  count_background-IsCounted place ids j k g h = ground arith

  module _ (signals : List SignalInfo) where
    -- The clusters of a list that a signal is found for, and the others.
    unfoldable pub signal_count : SimEvent D → List ℕ → ℕ
    signal_count e [] = 0
    signal_count e (id ∷ ids) =
        signals_of (cluster_at e id >>= signal_of signals) + signal_count e ids

    unfoldable pub background_count : SimEvent D → List ℕ → ℕ
    background_count e [] = 0
    background_count e (id ∷ ids) =
        backgrounds_of (cluster_at e id >>= signal_of signals) + background_count e ids

  module _ (fManager : Manager D) (signals : List SignalInfo) where
    count_cluster-IsCounted :
        (proj : ℕ) (ids : List ℕ) (j k : ℕ) (c : GemCluster D) (sig : Option SignalInfo)
        (g g' : Gathered D)
        → IsCounted ids j k g.info g.n_overlap
        → count_cluster fManager signals proj c sig g ≡ some g'
        → IsCounted ids (j + signals_of sig) (k + backgrounds_of sig) g'.info g'.n_overlap
    unfolding count_cluster
    count_cluster-IsCounted proj ids j k c (some sig) g g' h e =
        let (place, _, same) = >>=-eq-some (place_of fManager proj c) _ e in
        let none_more : k + 0 ≡ k = omega arith in
        rw (none_more, ← some-injective _ _ same)
          (count_signal-IsCounted sig.tid place c.time ids j k g h)
    count_cluster-IsCounted proj ids j k c none g g' h e =
        let none_more : j + 0 ≡ j = omega arith in
        rw none_more (elim (Bool-cases (g.info.mc_track is 0)) [
          | inl none_yet ↦
              let (place, _, same) = >>=-eq-some (place_of fManager proj c) _ (rw none_yet at e) in
              rw (← some-injective _ _ same) (count_background-IsCounted place ids j k g h)
          | inr some_track ↦ rw (← some-injective _ _ (rw some_track at e)) (ground arith)
        ])

    gather-IsCounted :
        (e : SimEvent D) (strip : DigiGemStrip D) (ids : List ℕ) (i : ℕ) (seen : List ℕ) (j k : ℕ)
        (g g' : Gathered D)
        → IsCounted seen j k g.info g.n_overlap
        → gather fManager signals e strip ids i g ≡ some g'
        → IsCounted
            (seen ++ map (λ id. id - 1) ids)
            (j + signal_count signals e ids)
            (k + background_count signals e ids)
            g'.info
            g'.n_overlap
    unfolding gather signal_count background_count
    gather-IsCounted e strip [] i seen j k g g' h eq =
        let none_j : j + 0 ≡ j = omega arith in
        let none_k : k + 0 ≡ k = omega arith in
        rw (append-nil seen, none_j, none_k, ← some-injective _ _ eq) h
    gather-IsCounted e strip (id ∷ ids) i seen j k g g' h eq =
        let (c, at_id, rest) = >>=-eq-some (cluster_at e id) _ eq in
        let (mid, counted, later) =
          >>=-eq-some _ (gather fManager signals e strip ids (i + 1)) rest in
        let sig = signal_of signals c in
        let step =
          count_cluster-IsCounted strip.proj (seen ++ (id - 1) ∷ []) j k c sig _ mid
            (list_cluster-IsCounted strip i (id - 1) seen j k g.n_overlap c g.info h) counted in
        let sum_j : (j + signals_of sig) + signal_count signals e ids
            ≡ j + (signals_of sig + signal_count signals e ids) =
          omega arith in
        let sum_k : (k + backgrounds_of sig) + background_count signals e ids
            ≡ k + (backgrounds_of sig + background_count signals e ids) =
          omega arith in
        rw
          (
            at_id,
            ← sum_j,
            ← sum_k,
            ← append_assoc seen ((id - 1) ∷ []) (map (λ (n : ℕ). n - 1) ids),
          )
          (gather-IsCounted e strip ids (i + 1) _ _ _ mid g' step later)

    finish-IsCounted :
        (strip : DigiGemStrip D) (ids : List ℕ) (j k : ℕ) (g : Gathered D)
        → IsCounted ids j k g.info g.n_overlap
        → IsCounted ids j k (finish strip g) g.n_overlap
    unfolding finish
    finish-IsCounted strip ids j k g h = ground arith

    -- Where the truth of a strip with more than an induced signal is found, it is what the loop over
    -- the strip's clusters gathers and `finish` makes of it. It lists the clusters of the strip in
    -- their order, by their numbers less 1, in every vector one entry for each. fContam is the number
    -- of these clusters without a signal of their own, and nOverlapSignal the number of those with
    -- one, which is not zero where a track is named, whose mean place and time it divides.
    pub strip_truth-IsCounted :
        (e : SimEvent D) (strip : DigiGemStrip D) (mc : McHitInfo D)
        → only_induced strip ≡ false
        → strip_truth fManager signals e strip ≡ some mc
        → (g : Gathered D) × (gather fManager signals e strip strip.clusters 0 (record {
          info = record new_info { sig_type = strip.sig_type; mc_charge = strip.charge };
          n_overlap = 0;
        })
            ≡ some g)
          × (mc ≡ finish strip g)
          × IsCounted
              (map (λ id. id - 1) strip.clusters)
              (signal_count signals e strip.clusters)
              (background_count signals e strip.clusters)
              mc
              g.n_overlap
    unfolding strip_truth new_info
    strip_truth-IsCounted e strip mc more found =
        let (g, gathered, same) =
          >>=-eq-some _ (λ (g : Gathered D). some (finish strip g)) (rw more at found) in
        let counted =
          gather-IsCounted e strip strip.clusters 0 [] 0 0 _ g (ground arith) gathered in
        let end = some-injective _ _ same in
        let j : 0 + signal_count signals e strip.clusters ≡ signal_count signals e strip.clusters =
          omega arith in
        let k : 0 + background_count signals e strip.clusters
            ≡ background_count signals e strip.clusters =
          omega arith in
        (g, gathered, sym end, rw (← end) (finish-IsCounted strip _ _ _ g (rw (j, k) at counted)))
