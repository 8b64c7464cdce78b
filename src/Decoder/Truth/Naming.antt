-- ===== src/Decoder/Truth/Naming.antt =====
-- Which track GetSBSMCHitInfo names, and which hits GetAllMCHits lists.
use libsolgem.Base.{
  ℕ, ◌+◌, ℤ, pos, ◌≡◌, refl, ap, sym, ◌∙◌, ◌⊎◌, inl, inr, ◌&&◌, Bool-cases, Option, none, some,
  ◌>>=◌, >>=-eq-some, List, [], ◌∷◌, All, if◌then◌else◌, arith,
}
use libsolgem.Base.Int.{eqb_ℤ, ◌<ℤ◌}
use mathlib.Core.Option.{some-injective}
use libsolgem.Double.{Double}
use libsolgem.Database.{Manager}
use libsolgem.Database.Access.{◌is◌, get_pos_from_module_strip}
use libsolgem.SimEvent.{GemCluster, DigiGemStrip, SimEvent}
use libsolgem.Decoder.Truth.{
  SignalInfo, McHitInfo, Gathered, new_info, last_signal, signal_of, cluster_at, list_cluster,
  count_signal, count_background, place_of, count_cluster, gather, finish, only_induced,
  strip_truth,
}

abbrev tid_or : Option SignalInfo → ℤ → ℤ
tid_or (some sig) rest = sig.tid
tid_or none rest = rest

abbrev or_else : Option SignalInfo → Option SignalInfo → Option SignalInfo
or_else (some sig) other = some sig
or_else none other = other

-- The last signal particle with this particle id.
abbrev last_with_pid : ℤ → List SignalInfo → Option SignalInfo
last_with_pid pid [] = none
last_with_pid pid (info ∷ rest) =
    or_else (last_with_pid pid rest) (if eqb_ℤ pid info.pid then some info else none)

-- The track that is named so far, and otherwise `rest`.
abbrev named_or : ℤ → ℤ → ℤ
named_or track rest = if track is 0 then rest else track

-- No track, or a positive one.
abbrev IsTrack : ℤ → Type 0
IsTrack track = (track ≡ pos 0) ⊎ (pos 0 <ℤ track)

module _ {D : Type 0} ⦃d : Double D⦄ (signals : List SignalInfo) where
  -- The signal particle of a cluster: the source must be 0, the type that of a primary.
  abbrev pub true_signal : GemCluster D → Option SignalInfo
  true_signal c = if c.source is 0 && c.type is 1 then last_with_pid c.pid signals else none

  -- The track of the first signal among the clusters with these numbers, 0 if there is none.
  abbrev pub first_tid : SimEvent D → List ℕ → ℤ
  first_tid e [] = pos 0
  first_tid e (id ∷ ids) = tid_or (cluster_at e id >>= true_signal) (first_tid e ids)

  last_signal_lem :
      (c : GemCluster D) (infos : List SignalInfo) (found : Option SignalInfo)
      → last_signal c infos found
        ≡ or_else (if c.type is 1 then last_with_pid c.pid infos else none) found
  unfolding last_signal
  last_signal_lem c [] found = ground arith
  last_signal_lem c (info ∷ rest) found = ground (
    arith,
    last_signal_lem c rest (if c.type is 1 && eqb_ℤ c.pid info.pid then some info else found),
  )

  signal_of_lem : (c : GemCluster D) → signal_of signals c ≡ true_signal c
  unfolding signal_of
  signal_of_lem c = ground (arith, last_signal_lem c signals none)

  last_signal-tid :
      (c : GemCluster D) (infos : List SignalInfo) (found : Option SignalInfo) (sig : SignalInfo)
      → All (λ info. pos 0 <ℤ info.tid) infos
      → ((old : SignalInfo) → found ≡ some old → pos 0 <ℤ old.tid)
      → last_signal c infos found ≡ some sig
      → pos 0 <ℤ sig.tid
  unfolding last_signal
  last_signal-tid c [] found sig all old e = old sig e
  last_signal-tid c (info ∷ rest) found sig all old e =
      last_signal-tid c rest _ sig all.1 (λ o eq. ground (arith, all.0, old o)) e

  signal_of-tid :
      (c : GemCluster D) (sig : SignalInfo)
      → All (λ info. pos 0 <ℤ info.tid) signals
      → signal_of signals c ≡ some sig
      → pos 0 <ℤ sig.tid
  unfolding signal_of
  signal_of-tid c sig all e = ground (arith, last_signal-tid c signals none sig all (λ o eq. cc))

  count_signal-IsTrack :
      (tid : ℤ) (place time : D) (g : Gathered D) (rest : ℤ)
      → pos 0 <ℤ tid
      → IsTrack g.info.mc_track
      → let track = (count_signal tid place time g).info.mc_track in
        IsTrack track × (named_or track rest ≡ named_or g.info.mc_track tid)
  unfolding count_signal
  count_signal-IsTrack tid place time g rest h s = ground arith

  count_background-track :
      (place : D) (g : Gathered D) → (count_background place g).info.mc_track ≡ g.info.mc_track
  unfolding count_background
  count_background-track place g = ground arith

  module _ (fManager : Manager D) where
    count_cluster-IsTrack :
        (proj : ℕ) (c : GemCluster D) (sig : Option SignalInfo) (g g' : Gathered D) (rest : ℤ)
        → ((info : SignalInfo) → sig ≡ some info → pos 0 <ℤ info.tid)
        → IsTrack g.info.mc_track
        → count_cluster fManager signals proj c sig g ≡ some g'
        → IsTrack g'.info.mc_track
          × (named_or g'.info.mc_track rest ≡ named_or g.info.mc_track (tid_or sig rest))
    unfolding count_cluster
    count_cluster-IsTrack proj c (some sig) g g' rest h s e =
        let (place, _, same) = >>=-eq-some (place_of fManager proj c) _ e in
        rw (← some-injective _ _ same)
          (count_signal-IsTrack sig.tid place c.time g rest (h sig refl) s)
    count_cluster-IsTrack proj c none g g' rest h s e = elim (Bool-cases (g.info.mc_track is 0)) [
      | inl none_yet ↦
          let (place, _, same) = >>=-eq-some (place_of fManager proj c) _ (rw none_yet at e) in
          let kept : g'.info.mc_track ≡ g.info.mc_track =
            rw (← some-injective _ _ same) (count_background-track place g) in
          rw kept (s, refl)
      | inr some_track ↦ rw (← some-injective _ _ (rw some_track at e)) (s, refl)
    ]

    gather-track :
        (e : SimEvent D) (strip : DigiGemStrip D) (ids : List ℕ) (i : ℕ) (g g' : Gathered D)
        → All (λ info. pos 0 <ℤ info.tid) signals
        → IsTrack g.info.mc_track
        → gather fManager signals e strip ids i g ≡ some g'
        → g'.info.mc_track ≡ named_or g.info.mc_track (first_tid e ids)
    unfolding gather list_cluster
    gather-track e strip [] i g g' all s eq = rw (← some-injective _ _ eq) (ground arith)
    gather-track e strip (id ∷ ids) i g g' all s eq =
        let (c, at, rest) = >>=-eq-some (cluster_at e id) _ eq in
        let (mid, counted, later) =
          >>=-eq-some _ (gather fManager signals e strip ids (i + 1)) rest in
        let (ok, same) =
          count_cluster-IsTrack strip.proj c (signal_of signals c) _ mid (first_tid e ids)
            (λ info is_signal. signal_of-tid c info all is_signal) s counted in
        rw (at, ← signal_of_lem c) (gather-track e strip ids (i + 1) mid g' all ok later ∙ same)

    finish-track :
        (strip : DigiGemStrip D) (g : Gathered D) → (finish strip g).mc_track ≡ g.info.mc_track
    unfolding finish
    finish-track strip g = ground arith

    -- If all signal track numbers are positive, the track that the truth of a strip names is that of
    -- the first primary signal cluster among the strip's clusters, and 0 if there is none or the
    -- signal of the strip is only induced.
    pub strip_truth-track :
        (e : SimEvent D) (strip : DigiGemStrip D) (mc : McHitInfo D)
        → All (λ info. pos 0 <ℤ info.tid) signals
        → strip_truth fManager signals e strip ≡ some mc
        → mc.mc_track ≡ (if only_induced strip then pos 0 else first_tid e strip.clusters)
    unfolding strip_truth new_info
    strip_truth-track e strip mc all found = elim (Bool-cases (only_induced strip)) [
      | inl only ↦
          let (place, _, same) =
            >>=-eq-some
              (get_pos_from_module_strip fManager (pos strip.proj) (pos strip.plane)
                (pos strip.module_) (pos strip.chan))
              _ (rw only at found) in
          rw only (sym (ap (λ (i : McHitInfo D). i.mc_track) (some-injective _ _ same)))
      | inr more ↦
          let (g, gathered, same) =
            >>=-eq-some _ (λ (g : Gathered D). some (finish strip g)) (rw more at found) in
          let track = gather-track e strip strip.clusters 0 _ g all (inl refl) gathered in
          rw (more, ← some-injective _ _ same) (finish-track strip g ∙ track)
    ]
