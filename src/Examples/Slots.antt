-- ===== src/Examples/Slots.antt =====
-- Hardware addresses, gem numbers and getters of a small detector.
use libsolgem.Base.{
  ℕ, zero, suc, ◌<◌, ℤ, pos, negsuc, ◌≡◌, ◌≢◌, ap, inl, inr, ◌⊎◌, All, refl, false, Option, some,
  List, [], ◌∷◌, get_or, length, arith,
}
use libsolgem.Base.Int.{◌+ℤ◌, ◌-ℤ◌, ◌*ℤ◌}
use libsolgem.Database.{Manager, get_n_module, get_n_module_before}
use libsolgem.Database.GemIndex.{number_gems, add_planes, add_modules, add_module}
use libsolgem.Database.GemIndex.Numbering.{gem_id_round_trip, plane_module_round_trip}
use libsolgem.Database.Access.{
  check_index, geo_at, checked, get_strip_angle, get_module_id_from_pos, scan_modules, covers,
}
use libsolgem.Database.Access.Bounds.{IsIndex}
use libsolgem.Readout.{Location, Address, slot_index, strip_to_rocd, make_roc_key}
use libsolgem.Readout.Addresses.{NoFewerModules, IsStrip, roc_key_inj, strip_to_rocd_collision}
use libsolgem.Readout.StripMap.{StripMap, find, insert, strip_from_key}
use libsolgem.SimEvent.{DigiGemStrip}
use libsolgem.Decoder.LoadStrips.{location, strip_key, load_samples, load_strips}
use libsolgem.Decoder.LoadStrips.RoundTrip.{AreDistinct, strip_from_roc_round_trip}
use libsolgem.Double.{whole_double}
use libsolgem.Examples.Data.{manager, modules}

methods : Unit {0}
unfolding get_n_module get_n_module_before number_gems add_planes add_modules add_module check_index
    geo_at checked get_strip_angle get_module_id_from_pos scan_modules covers slot_index
    strip_to_rocd make_roc_key whole_double ◌+ℤ◌ ◌-ℤ◌ ◌*ℤ◌ find insert strip_from_key location
    strip_key load_samples load_strips
methods = tt

abbrev det : Manager ℤ
det = manager modules

-- The last strip of the last module.
abbrev corner : Location
corner = record { plane = 2; module_ = 1; proj = 1; chan = 127 }

runs :
    (strip_to_rocd det 30 corner ≡ record { crate = 0; slot = 11; chan = 127 })
    × (make_roc_key det 30 (strip_to_rocd det 30 corner) ≡ 1535)
    × ((number_gems modules).n_gem_tot ≡ 5)
    × ((number_gems modules).pm_to_igem 2 1 ≡ 4)
    × (check_index det (pos 2) (pos 2) (pos 0) ≡ false)
    × (get_strip_angle det (pos 1) (pos 1) (pos 1) ≡ some (pos 30))
    × (get_module_id_from_pos det (pos 1) (pos 5) ≡ pos 1)
    × (get_module_id_from_pos det (pos 1) (pos 6) ≡ negsuc 0)
unfolding methods
runs = (refl, refl, refl, refl, refl, refl, refl, refl)

growing : NoFewerModules det
unfolding methods
growing zero lt = omega arith
growing (suc zero) lt = omega arith
growing (suc (suc p)) lt = absurd (omega arith)

corner-IsStrip : IsStrip det corner
unfolding methods
corner-IsStrip = record {
  plane_in = omega arith;
  module_in = omega arith;
  proj_in = omega arith;
  chan_in = omega arith;
}

roc_key_inj_example : corner ≡ corner
roc_key_inj_example = roc_key_inj det 30 corner corner growing corner-IsStrip corner-IsStrip refl

-- A detector whose module counts decrease.
abbrev shrinking : Manager ℤ
shrinking = manager (2 ∷ 1 ∷ 1 ∷ [])

strip_to_rocd_collision_example :
    strip_to_rocd shrinking 30 (record { plane = 1; module_ = 0; proj = 1; chan = 5 })
    ≡ strip_to_rocd shrinking 30 (record { plane = 2; module_ = 0; proj = 1; chan = 5 })
unfolding methods
strip_to_rocd_collision_example = strip_to_rocd_collision shrinking 30 0 0 1 5 refl (omega arith)

gem_id_round_trip_example :
    let s = number_gems modules in
    (s.pm_to_igem 1 1 < s.n_gem_tot)
    × (s.igem_to_plane (s.pm_to_igem 1 1) ≡ 1)
    × (s.igem_to_module (s.pm_to_igem 1 1) ≡ 1)
gem_id_round_trip_example = gem_id_round_trip modules 1 1 (omega arith)

plane_module_round_trip_example :
    let s = number_gems modules in
    (s.igem_to_module 4 < get_or modules (s.igem_to_plane 4) 0)
    × (s.pm_to_igem (s.igem_to_plane 4) (s.igem_to_module 4) ≡ 4)
unfolding methods
plane_module_round_trip_example = plane_module_round_trip modules 4 (omega arith)

loaded : (p : ℕ) → p < 3 → length (det.pm_geo_info p) ≡ get_n_module det p
unfolding methods
loaded zero lt = refl
loaded (suc zero) lt = refl
loaded (suc (suc zero)) lt = refl
loaded (suc (suc (suc p))) lt = absurd (omega arith)

first_module-IsIndex : IsIndex det (pos 1) (pos 0)
unfolding methods
first_module-IsIndex = record {
  chamber_in = (omega arith, omega arith);
  module_in = (omega arith, omega arith);
}

-- Two samples of a strip.
abbrev strip : ℕ → ℕ → DigiGemStrip ℤ
strip plane chan = record {
  sector = pos 0;
  plane = plane;
  module_ = 0;
  proj = 0;
  chan = chan;
  sig_type = 1;
  charge = pos 7;
  time1 = pos 3;
  n_samp = 2;
  adc = pos 5 ∷ pos 2 ∷ [];
  clusters = 0 ∷ [];
  cluster_ratio = [];
  strip_weight = pos 1 ∷ [];
}

abbrev event : List (DigiGemStrip ℤ)
event = strip 0 3 ∷ strip 1 3 ∷ strip 0 4 ∷ []

-- Slot arrays that keep a list of what is loaded.
abbrev load_list : List (Address × ℤ) → Address → ℤ → Option (List (Address × ℤ))
load_list slots a raw = some ((a, raw) ∷ slots)

strip-IsStrip :
    (plane chan : ℕ) → plane < 2 → chan < 128 → IsStrip det (location (strip plane chan))
unfolding methods
strip-IsStrip zero chan p c = record {
  plane_in = omega arith;
  module_in = omega arith;
  proj_in = omega arith;
  chan_in = c;
}
strip-IsStrip (suc zero) chan p c = record {
  plane_in = omega arith;
  module_in = omega arith;
  proj_in = omega arith;
  chan_in = c;
}
strip-IsStrip (suc (suc plane)) chan p c = absurd (omega arith)

event-AreStrips : All (λ s. IsStrip det (location s)) event
event-AreStrips = (
  strip-IsStrip 0 3 (omega arith) (omega arith),
  (
    strip-IsStrip 1 3 (omega arith) (omega arith),
    (strip-IsStrip 0 4 (omega arith) (omega arith), tt),
  ),
)

apart : (p c p' c' : ℕ) → (p ≢ p') ⊎ (c ≢ c') → location (strip p c) ≢ location (strip p' c')
unfolding location
apart p c p' c' (inl ne) e = ne (ap (λ (l : Location). l.plane) e)
apart p c p' c' (inr ne) e = ne (ap (λ (l : Location). l.chan) e)

event-AreDistinct : AreDistinct det 30 event
event-AreDistinct = (
  (apart 1 3 0 3 (inl (omega arith)), (apart 0 4 0 3 (inr (omega arith)), tt)),
  ((apart 0 4 1 3 (inl (omega arith)), tt), (tt, tt)),
)

abbrev at : ℕ → ℕ → Address
at slot chan = record { crate = 0; slot = slot; chan = chan }

abbrev loaded_slots : List (Address × ℤ)
loaded_slots =
    (at 0 4, pos 2)
    ∷ (at 0 4, pos 5)
    ∷ (at 2 3, pos 2)
    ∷ (at 2 3, pos 5)
    ∷ (at 0 3, pos 2)
    ∷ (at 0 3, pos 5)
    ∷ []

abbrev loaded_map : StripMap
loaded_map = (4, 2) ∷ (259, 1) ∷ (3, 0) ∷ []

strip_from_roc_round_trip_example : strip_from_key loaded_map (strip_key det 30 (strip 0 4)) ≡ pos 2
unfolding methods
strip_from_roc_round_trip_example =
    strip_from_roc_round_trip (List (Address × ℤ)) load_list det 30 event 2 (strip 0 4) []
      loaded_slots loaded_map growing event-AreStrips event-AreDistinct refl refl
