-- ===== src/Digitization/Additive/Recorded.antt =====
-- AdditiveDigitize and Digitize keep the numbers of hits right, hit by hit.
use libsolgem.Base.{
  ℕ, zero, suc, ◌+◌, ℤ, pos, ◌≡◌, refl, ◌∙◌, false, not, ◌||◌, inl, inr, Bool-cases, [], ◌∷◌, ◌++◌,
  length, length-append, arith, ltb, leb, ◌==◌, get_or, lt→ltb, if◌then◌else◌,
}
use libsolgem.Base.Int.{eqb_ℤ}
use libsolgem.Database.{Manager}
use libsolgem.Double.{Double, ◌⊕◌, ◌⊖◌, ◌⊗◌, ◌⊘◌, of_ℕ}
use libsolgem.SimEvent.{Vec3}
use libsolgem.Box.{Matrices}
use libsolgem.Chamber.{GemChamber}
use libsolgem.HitData.{HitData, hit_at, get_nhit}
use libsolgem.DigitizedPlane.{clear}
use libsolgem.Digitization.{Root, Settings, Digitizer}
use libsolgem.Digitization.Ions.{ion_model}
use libsolgem.Digitization.Avalanche.{ava_model}
use libsolgem.Digitization.Tree.{tree_cluster, set_tree_hit}
use libsolgem.Digitization.Additive.{
  hit_time, is_slanted, digitize_hit, digitize_hits, additive_digitize, clear_digitizer, digitize,
}
use libsolgem.Digitization.Additive.Numbering.{
  IsNumbered, IsHit, NamesHits, IsStep, All-IsHit-mono, append_cluster-IsNumbered,
  clear_event-IsNumbered, record_strips-IsStep,
}

module _ {D R : Type 0} where
  -- A state that has the event, the planes and the sizes of another.
  abbrev IsLike : Digitizer D R → Digitizer D R → Type 0
  IsLike t u =
      (u.event ≡ t.event)
      × (u.dp ≡ t.dp)
      × (u.n_chambers ≡ t.n_chambers)
      × (u.n_planes ≡ t.n_planes)

  IsLike-IsStep : (t u : Digitizer D R) → IsLike t u → IsStep t u
  IsLike-IsStep t u (event, dp, chambers, planes) = record {
    chambers = chambers;
    planes = planes;
    numbered = λ h. rw event h;
    named = λ h. rw (event, dp, chambers, planes) h;
  }

  IsStep-trans : (t u v : Digitizer D R) → IsStep t u → IsStep u v → IsStep t v
  IsStep-trans t u v a b = record {
    chambers = b.chambers ∙ a.chambers;
    planes = b.planes ∙ a.planes;
    numbered = λ h. b.numbered (a.numbered h);
    named = λ h. b.named (a.named h);
  }

module _ {D R : Type 0} ⦃d : Double D⦄ (root : Root D R) (s : Settings D) where
  -- ion_model changes neither the event nor the planes.
  ion_model-keep :
      (xi xo : Vec3 D) (elost : D) (t : Digitizer D R)
      → let u = ion_model root s xi xo elost t in
        (u.event ≡ t.event)
        × (u.dp ≡ t.dp)
        × (u.n_chambers ≡ t.n_chambers)
        × (u.n_planes ≡ t.n_planes)
  unfolding ion_model
  ion_model-keep xi xo elost t =
      elim (Bool-cases ((root.poisson (elost ⊘ s.gas_wion) t.trnd).0 == 0)) [
        | inl none_drawn ↦ rw none_drawn (refl, refl, refl, refl)
        | inr drawn ↦ rw drawn (refl, refl, refl, refl)
      ]

  module _ {M : Type 0} ⦃mx : Matrices D M⦄ (fManager : Manager D) (unset : ℤ)
      (spect : ℕ → GemChamber D M) where
    set_tree_hit-IsStep :
        (ch : GemChamber D M) (tsgd : HitData D) (ih : ℕ) (t0 : D) (t : Digitizer D R)
        → let (u, id) = set_tree_hit root fManager unset ch tsgd ih t0 t in
          IsStep t u × IsHit (length u.event.gem_clust) id
    unfolding set_tree_hit tree_cluster
    set_tree_hit-IsStep ch tsgd ih t0 t =
        let c = tree_cluster root fManager unset ch tsgd ih t0 t in
        let cs = t.event.gem_clust in
        let longer = length-append cs (c ∷ []) in
        (
          record {
            chambers = refl;
            planes = refl;
            numbered = append_cluster-IsNumbered t.event c refl;
            named = λ h ic ip i lt lt'.
                All-IsHit-mono (length cs) (length (cs ++ c ∷ [])) _ (omega (arith, longer))
                  (h ic ip i lt lt');
          },
          (omega arith, omega (arith, longer)),
        )

    digitize_hit-IsStep :
        (gdata : HitData D) (jitter : D) (ih : ℕ) (t : Digitizer D R)
        → IsStep t (digitize_hit root s fManager unset spect gdata jitter ih t)
    unfolding digitize_hit
    digitize_hit-IsStep gdata jitter ih t =
        let h = hit_at gdata ih in
        let ionized = ion_model root s h.xi h.xo h.edep t in
        let (event_time, rnd) =
          hit_time root s (not (eqb_ℤ gdata.source (pos 0))) h.time ionized.trnd in
        let time_zero = root.to_float (
          event_time
          ⊖ get_or s.trigger_offset h.plane (of_ℕ 0)
          ⊕ ionized.r_time0 ⊗ of_ℕ 1000000000
          ⊖ jitter) in
        let timed = record ionized { trnd = rnd } in
        let fdh =
          if ltb 0 timed.r_n_ion
          then ava_model root s (spect h.gem) (timed.n_planes h.gem) h.xi h.xo time_zero timed
          else timed.fdh in
        let made = record timed { fdh = fdh } in
        let (recorded, id) =
          set_tree_hit root fManager unset (spect h.gem) gdata ih time_zero made in
        let (hit, numbered) = set_tree_hit-IsStep (spect h.gem) gdata ih time_zero made in
        IsStep-trans t made _ (IsLike-IsStep t made (ion_model-keep h.xi h.xo h.edep t)) (
          IsStep-trans made recorded _ hit (
            record_strips-IsStep root s fdh (if h.type == 1 then 1 else 2) id h.gem recorded
              numbered))

    digitize_hits-IsStep :
        (gdata : HitData D) (jitter : D) (left ih : ℕ) (t : Digitizer D R)
        → IsStep t (digitize_hits root s fManager unset spect gdata jitter left ih t)
    unfolding digitize_hits
    digitize_hits-IsStep gdata jitter zero ih t = IsLike-IsStep t t (refl, refl, refl, refl)
    digitize_hits-IsStep gdata jitter (suc left) ih t =
        elim (Bool-cases (leb t.n_chambers (hit_at gdata ih).gem || is_slanted (hit_at gdata ih))) [
          | inl skipped ↦ rw skipped (digitize_hits-IsStep gdata jitter left (ih + 1) t)
          | inr taken ↦ rw taken (
              IsStep-trans t _ _ (digitize_hit-IsStep gdata jitter ih t)
                (digitize_hits-IsStep gdata jitter left (ih + 1) _))
        ]

    -- AdditiveDigitize keeps the record of hits right: if the hits of the event are numbered from 1 in
    -- their order, fNSignal counts those of the primary particle in signal data, and each cluster number
    -- of a strip is the number of a hit of the event, the same is true after it, for any hit data,
    -- random numbers and geometry, and with chambers that do not exist or hits that are skipped.
    pub additive_digitize-NamesHits :
        (gdata : HitData D) (t : Digitizer D R)
        → IsNumbered t.event
        → NamesHits t
        → let u = additive_digitize root s fManager unset spect gdata t in
          IsNumbered u.event × NamesHits u
    unfolding additive_digitize
    additive_digitize-NamesHits gdata t numbered named =
        let (jitter, rnd) = root.gaus (of_ℕ 0) s.trigger_jitter t.trnd in
        let done = digitize_hits-IsStep gdata jitter (get_nhit gdata) 0 (record t { trnd = rnd }) in
        elim (Bool-cases (get_nhit gdata == 0)) [
          | inl empty ↦ rw empty (numbered, named)
          | inr hits ↦ rw hits (done.numbered numbered, done.named named)
        ]

    clear_digitizer-NamesHits : (t : Digitizer D R) → NamesHits (clear_digitizer t)
    unfolding clear_digitizer clear
    clear_digitizer-NamesHits t ic ip i lt lt' =
        rw (lt→ltb ic t.n_chambers lt, lt→ltb ip (t.n_planes ic) lt') tt

    -- After Digitize, whatever the event and the planes held before, the hits of the event are numbered
    -- from 1 in their order, fNSignal counts those of the primary particle in signal data, and each
    -- cluster number of a strip is the number of a hit of the event.
    pub digitize-NamesHits :
        (gdata : HitData D) (t : Digitizer D R)
        → let u = digitize root s fManager unset spect gdata t in IsNumbered u.event × NamesHits u
    unfolding digitize
    digitize-NamesHits gdata t =
        additive_digitize-NamesHits gdata (clear_digitizer t)
          (unfold clear_digitizer in clear_event-IsNumbered false t.event)
          (clear_digitizer-NamesHits t)
