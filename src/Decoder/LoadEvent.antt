-- ===== src/Decoder/LoadEvent.antt =====
-- Clear and DoLoadEvent of src/TSBSSimDecoder.cxx: what the loops of the other modules make of one event.
-- The analyzer's slot arrays, its crate map and TDatabasePDG are parameters. Benchmarks are left out. A
-- return other than HED_OK leaves a state that the next event clears; it is not modelled.
pub mod Outcomes
use libsolgem.Base.{
  ◌>>=◌, ℕ, ℤ, pos, Bool, true, false, not, ◌&&◌, ◌||◌, Option, none, some, List, [], ◌∷◌, get_or,
  if◌then◌else◌,
}
use libsolgem.Base.Int.{eqb_ℤ}
use libsolgem.Database.{Manager}
use libsolgem.Double.{Double, ◌≺◌, of_ℕ}
use libsolgem.Readout.{Address}
use libsolgem.Readout.StripMap.{StripMap}
use libsolgem.SimEvent.{Vec3, EcalCluster, SimTrack, SimEvent}
use libsolgem.Decoder.LoadStrips.{load_strips}
use libsolgem.Decoder.Clusters.{SimGemHit, TrackPoint, Scanned, scan_clusters, start_scan}
use libsolgem.Decoder.BackTrack.{BackTrack, back_tracks, link_points, note_statistics}
use libsolgem.Decoder.Shower.{Library, Profiles}
use libsolgem.Decoder.Calorimeter.{CaloLoop, load_calorimeter}

-- The return codes of the analyzer.
pub data Status : Type 0 where
  hed_ok hed_warn hed_err hed_fatal : Status

-- A call that ends with HED_OK, one that returns another code, and one that an assertion ends.
pub data Outcome (A : Type 0) : Type 0 where
  loaded : A → Outcome A
  ended : Status → Outcome A
  aborted : Outcome A

abbrev pub and_then : {A B : Type 0} → Outcome A → (A → Outcome B) → Outcome B
and_then (loaded a) f = f a
and_then (ended r) f = ended r
and_then aborted f = aborted

abbrev pub or_return : {A : Type 0} → Status → Option A → Outcome A
or_return r none = ended r
or_return r (some a) = loaded a

-- What the decoder calls of the analyzer and of ROOT. `load_hit slots address x y` is
-- crateslot[idx(crate,slot)]->loadData("adc",chan,x,y), with `none` for SD_ERR.
pub record Analyzer (C D : Type 0) : Type 0 where
  pub load_hit : C → Address → ℤ → ℤ → Option C
  pub clear_slots : C → C
  pub need_init : C → Bool
  pub init_cmap : C → C × Status
  pub init_slotdata : C → C × Status
  pub sort_points : List (TrackPoint D) → List (TrackPoint D)
  pub angle : Vec3 D → Vec3 D → D
  pub particle_mass : ℤ → Option D

pub record SimDecoder (C D : Type 0) : Type 0 where
  pub first_decode : Bool
  pub slots : C
  pub strip_map : StripMap
  pub event_type : ℤ
  pub event_num : ℤ
  pub weight : D
  pub mc_hits : List (SimGemHit D)
  pub mc_tracks : List (SimTrack D)
  pub mc_points : List (TrackPoint D)
  pub back_tracks_ : List (BackTrack D)

abbrev pub is_ok : Status → Bool
is_ok hed_ok = true
is_ok _ = false

module _ {C D : Type 0} where
  -- SimDecoder::Clear empties the hits, the tracks and the points.
  unfoldable pub clear_decoder : SimDecoder C D → SimDecoder C D
  clear_decoder s = record s {
    strip_map = [];
    mc_hits = [];
    mc_tracks = [];
    mc_points = [];
    back_tracks_ = [];
  }

  module _ (podd : Analyzer C D) where
    -- The maps of the analyzer, at the first event or where it asks for them.
    unfoldable pub init_maps : SimDecoder C D → Outcome (SimDecoder C D)
    init_maps s =
        let (mapped, r) = podd.init_cmap s.slots in
        let (made, r') = podd.init_slotdata mapped in
        if not (s.first_decode || podd.need_init s.slots)
        then loaded s
        else if not (is_ok r)
        then ended r
        else if not (is_ok r')
        then ended r'
        else loaded (record s { first_decode = false; slots = made })

  -- The decoder is cleared, and takes the event's number and weight.
  unfoldable pub start_event : (C → C) → SimEvent D → SimDecoder C D → SimDecoder C D
  unfolding clear_decoder
  start_event clear_slots e s = record (clear_decoder s) {
    slots = clear_slots s.slots;
    event_type = pos 1;
    event_num = e.evt_id;
    weight = e.weight;
  }

module _ {D : Type 0} where
  -- `mass`
  unfoldable pub mass_of : D → Option D → D
  mass_of unknown none = unknown
  mass_of unknown (some m) = m

module _ {D : Type 0} ⦃d : Double D⦄ where
  -- E_evt
  unfoldable pub first_energy : List (EcalCluster D) → D
  first_energy [] = of_ℕ 0
  first_energy (c ∷ rest) = c.energy

  -- The event has too little energy in the calorimeter.
  unfoldable pub is_below : Manager D → SimEvent D → Bool
  unfolding first_energy
  is_below fManager e =
      not (eqb_ℤ fManager.do_calo (pos 0))
      && d.abs (first_energy e.ecal_clusters) ≺ fManager.calo_thr

  -- The sorted points, with the differences of each to the one before it.
  unfoldable pub compared_points :
      (Vec3 D → Vec3 D → D) → D → List (TrackPoint D) → List (TrackPoint D)
  compared_points angle mass [] = []
  compared_points angle mass (p ∷ rest) = p ∷ link_points angle mass p rest

module _ {C D : Type 0} ⦃d : Double D⦄ (fManager : Manager D) (podd : Analyzer C D)
    (lib : Library D) where
  -- What the clusters of the trackers gave, with the first track `t`.
  unfoldable pub note_clusters :
      SimEvent D → Scanned D → SimTrack D → List (SimTrack D) → SimDecoder C D → SimDecoder C D
  unfolding compared_points mass_of
  note_clusters e r t rest s =
      let mass = mass_of (of_ℕ 0) (podd.particle_mass t.pid) in
      record s {
        mc_hits = r.hits;
        mc_points = compared_points podd.angle mass (podd.sort_points r.points);
        mc_tracks = note_statistics r t ∷ rest;
        back_tracks_ = back_tracks lib.unit fManager e.gem_clust r;
      }

  module _ (unset : D) (profx profy : Profiles D) where
    -- The calorimeter's part, for an event with a back track.
    unfoldable pub load_calo :
        SimEvent D → Scanned D → SimTrack D → SimDecoder C D → Outcome (SimDecoder C D)
    load_calo e r t s =
        let none_yet : CaloLoop C D = record {
          slots = s.slots;
          final_points = [];
          final_track = record { x = unset; y = unset; xp = unset; yp = unset };
        } in
        let calo =
          load_calorimeter lib unset fManager C podd.load_hit profx profy t.vertex_target.z
            e.scint_clusters e.ecal_clusters none_yet in
        let noted = or_return hed_err (calo >>= λ l. some (record s { slots = l.slots })) in
        elim r.best_primary [
          | none ↦ loaded s
          | some best ↦ if eqb_ℤ fManager.do_calo (pos 0) then loaded s else noted
        ]

    -- Behind the check of the energy; an event with no track is one that an assertion refuses.
    unfoldable pub load_clusters :
        SimEvent D → List (SimTrack D) → SimDecoder C D → Outcome (SimDecoder C D)
    load_clusters e [] s = aborted
    load_clusters e (t ∷ rest) s =
        and_then
          (or_return hed_fatal
            (scan_clusters fManager t.number e.gem_clust 0 (start_scan fManager)))
          (λ r. load_calo e r t (note_clusters e r t rest s))

    unfoldable pub do_load_event : ℕ → SimEvent D → SimDecoder C D → Outcome (SimDecoder C D)
    do_load_event max_slot e s = and_then (init_maps podd s) (λ s0.
        let s1 = start_event podd.clear_slots e s0 in
        let strips = or_return hed_err (
          load_strips C (λ slots a raw. podd.load_hit slots a raw raw) fManager max_slot
            e.gem_strips 0 s1.slots s1.strip_map) in
        and_then strips (λ (slots, m).
          if is_below fManager e
          then ended hed_err
          else load_clusters e e.mc_tracks (record s1 { slots = slots; strip_map = m })))
