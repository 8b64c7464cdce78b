-- ===== src/Digitization/Additive.antt =====
-- Digitize, AdditiveDigitize and NoDigitize (src/TSBSSimGEMDigitization.cxx): the hits of an event,
-- one after the other. Digitize and AdditiveDigitize always return 0.
pub mod Numbering
pub mod Recorded
pub mod Written
use libsolgem.Base.{
  ℕ, zero, suc, ◌+◌, ℤ, pos, Bool, true, false, not, ◌&&◌, ◌||◌, Option, none, some, List, [], ◌∷◌,
  get_or, ltb, leb, ◌==◌, if◌then◌else◌,
}
use libsolgem.Base.Int.{eqb_ℤ}
use libsolgem.Database.{Manager}
use libsolgem.Database.GemIndex.{update}
use libsolgem.Double.{Double, ◌⊕◌, ◌⊖◌, ◌⊗◌, ◌≺◌, of_ℕ}
use libsolgem.SimEvent.{clear_event}
use libsolgem.Box.{Matrices}
use libsolgem.Chamber.{GemChamber}
use libsolgem.HitData.{HitDatum, HitData, hit_at, get_nhit}
use libsolgem.DigitizedPlane.{GemHit, cumulate, clear}
use libsolgem.Digitization.{Root, Settings, Digitizer}
use libsolgem.Digitization.Ions.{ion_model}
use libsolgem.Digitization.Avalanche.{ava_model}
use libsolgem.Digitization.Tree.{set_tree_hit, set_tree_strips}

module _ {D : Type 0} ⦃d : Double D⦄ where
  -- `abs(vv1.X()-vv2.X())>50 || abs(vv1.Y()-vv2.Y())>50`
  unfoldable pub is_slanted : HitDatum D → Bool
  is_slanted h = (of_ℕ 50 ≺ d.abs (h.xi.x ⊖ h.xo.x)) || (of_ℕ 50 ≺ d.abs (h.xi.y ⊖ h.xo.y))

module _ {D R : Type 0} ⦃d : Double D⦄ where
  -- What Digitize clears before it.
  unfoldable pub clear_digitizer : Digitizer D R → Digitizer D R
  clear_digitizer t = record t {
    event = clear_event false t.event;
    signal_sector = pos 0;
    dp = λ ic ip.
        if ltb ic t.n_chambers && ltb ip (t.n_planes ic) then clear (t.dp ic ip) else t.dp ic ip;
    filled_strips = true;
  }

module _ {D R : Type 0} ⦃d : Double D⦄ (root : Root D R) (s : Settings D) where
  -- Cumulate on plane `j` of chamber `igem`, with the random numbers that it draws from fRan where
  -- cross talk is on.
  unfoldable pub cumulate_plane : GemHit D → (type id igem j : ℕ) → Digitizer D R → Digitizer D R
  cumulate_plane v type id igem j t =
      let ran = t.ran igem j in
      let (uniform, ran1) = root.uniform (of_ℕ 0) (of_ℕ 1) ran in
      let (gaus, ran2) = root.gaus (of_ℕ 0) s.cross_sigma ran1 in
      let after = if s.cross_talk.do_cross_talk then ran2 else ran in
      record t {
        dp =
            update t.dp igem
              (update (t.dp igem) j (cumulate s.cross_talk uniform gaus v type id (t.dp igem j)));
        ran = update t.ran igem (update (t.ran igem) j after);
      }

  -- The loop `for j < 2` over the hits that AvaModel made.
  unfoldable pub cumulate_planes :
      List (GemHit D) → (type id igem left j : ℕ) → Digitizer D R → Digitizer D R
  cumulate_planes [] type id igem left j t = t
  cumulate_planes (v ∷ rest) type id igem zero j t = t
  cumulate_planes (v ∷ rest) type id igem (suc left) j t =
      cumulate_planes rest type id igem left (j + 1) (cumulate_plane v type id igem j t)

  -- `if (fdh) { ... fdh = NULL; }`
  unfoldable pub record_strips :
      Option (List (GemHit D)) → (type id igem : ℕ) → Digitizer D R → Digitizer D R
  unfolding cumulate_planes
  record_strips none type id igem t = t
  record_strips (some fdh) type id igem t = record (cumulate_planes fdh type id igem 2 0 t) {
    fdh = none;
  }

  -- The time of an event: background is spread over the gate.
  unfoldable pub hit_time : Bool → D → R → D × R
  hit_time is_background time rnd =
      let period = s.ele_sampling_period in
      let (drawn, rnd') =
        root.uniform (d.neg s.gate_width ⊕ of_ℕ 2 ⊗ period) (of_ℕ 8 ⊗ period) rnd in
      if is_background then (root.to_float drawn, rnd') else (root.to_float time, rnd)

  module _ {M : Type 0} ⦃mx : Matrices D M⦄ (fManager : Manager D) (unset : ℤ)
      (spect : ℕ → GemChamber D M) where
    -- The body of the loop over hits, for a hit that is not skipped.
    unfoldable pub digitize_hit : HitData D → D → ℕ → Digitizer D R → Digitizer D R
    digitize_hit gdata jitter ih t =
        let h = hit_at gdata ih in
        let ionized = ion_model root s h.xi h.xo h.edep t in
        let (event_time, rnd) = hit_time (not (eqb_ℤ gdata.source (pos 0))) h.time ionized.trnd in
        let time_zero = root.to_float (
          event_time
          ⊖ get_or s.trigger_offset h.plane (of_ℕ 0)
          ⊕ ionized.r_time0 ⊗ of_ℕ 1000000000
          ⊖ jitter) in
        let timed = record ionized { trnd = rnd } in
        let fdh =
          if ltb 0 timed.r_n_ion
          then ava_model root s (spect h.gem) (timed.n_planes h.gem) h.xi h.xo time_zero timed
          else timed.fdh in
        let (recorded, id) =
          set_tree_hit root fManager unset (spect h.gem) gdata ih time_zero
            (record timed { fdh = fdh }) in
        record_strips fdh (if h.type == 1 then 1 else 2) id h.gem recorded

    -- The loop over hits, from hit `ih` with `left` to go.
    unfoldable pub digitize_hits : HitData D → D → (left ih : ℕ) → Digitizer D R → Digitizer D R
    digitize_hits gdata jitter zero ih t = t
    digitize_hits gdata jitter (suc left) ih t =
        let h = hit_at gdata ih in
        digitize_hits gdata jitter left (ih + 1)
          (if leb t.n_chambers h.gem || is_slanted h then t else digitize_hit gdata jitter ih t)

    unfoldable pub additive_digitize : HitData D → Digitizer D R → Digitizer D R
    additive_digitize gdata t =
        let nh = get_nhit gdata in
        let (jitter, rnd) = root.gaus (of_ℕ 0) s.trigger_jitter t.trnd in
        let done = digitize_hits gdata jitter nh 0 (record t { trnd = rnd }) in
        if nh == 0 then t else record done { filled_strips = false }

    unfoldable pub digitize : HitData D → Digitizer D R → Digitizer D R
    digitize gdata t = additive_digitize gdata (clear_digitizer t)

    -- The loop of NoDigitize.
    unfoldable pub set_tree_hits : HitData D → (left ih : ℕ) → Digitizer D R → Digitizer D R
    set_tree_hits gdata zero ih t = t
    set_tree_hits gdata (suc left) ih t =
        let h = hit_at gdata ih in
        set_tree_hits gdata left (ih + 1) (
          if leb t.n_chambers h.gem
          then t
          else (set_tree_hit root fManager unset (spect h.gem) gdata ih (of_ℕ 0) t).0)

    unfoldable pub no_digitize : HitData D → Digitizer D R → Digitizer D R
    no_digitize gdata t =
        set_tree_strips root fManager s
          (set_tree_hits gdata (get_nhit gdata) 0 (record t { event = clear_event false t.event }))
