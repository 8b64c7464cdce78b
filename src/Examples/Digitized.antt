-- ===== src/Examples/Digitized.antt =====
-- One chamber with two planes, and an event of two hits in it.
use libsolgem.Base.{
  ℕ, zero, suc, ◌+◌, ◌≤◌, ◌-◌, ◌^◌, ℤ, pos, ◌≡◌, refl, true, false, Option, some, List, [], ◌∷◌,
  All, length, arith,
}
use libsolgem.Base.Int.{◌+ℤ◌, ◌-ℤ◌, ◌*ℤ◌}
use libsolgem.Double.{whole_double}
use libsolgem.Database.{Manager, get_n_module}
use libsolgem.Database.GemIndex.{number_gems, add_planes, add_modules, add_module}
use libsolgem.SimEvent.{DigiGemStrip}
use libsolgem.Chamber.{GemChamber}
use libsolgem.HitData.{
  HitData, resize, hit_at, modify_hit, set_nhit, set_hit_chamber, set_hit_energy, get_nhit,
  new_hit_data,
}
use libsolgem.SimAuxi.{to_short, adc_convert}
use libsolgem.SimAuxi.Saturation.{FloorLaws, adc_convert_le}
use libsolgem.DigitizedPlane.{new_plane, clear}
use libsolgem.Readout.{Address, slot_index, strip_to_rocd, make_roc_key}
use libsolgem.Readout.Addresses.{NoFewerModules}
use libsolgem.Readout.StripMap.{find, insert, strip_from_key}
use libsolgem.Decoder.LoadStrips.{location, strip_key, load_samples, load_strips}
use libsolgem.Digitization.{Root, Settings, Digitizer, new_digitizer, initialize}
use libsolgem.Digitization.Tree.{
  set_tree_strips, tree_chambers, tree_chamber, tree_plane, tree_strip, noisy_samples, noisy_sample,
  cluster_ratios, fill_tree,
}
use libsolgem.Digitization.Tree.Strips.{IsLoaded, Fits, set_tree_strips-load_strips}
use libsolgem.Digitization.Tree.Record.{IsSampled, IsClosed, set_tree_strips-IsSampled}
use libsolgem.Digitization.Additive.{additive_digitize, digitize}
use libsolgem.Digitization.Additive.Numbering.{IsNumbered, NamesHits}
use libsolgem.Digitization.Additive.Recorded.{additive_digitize-NamesHits, digitize-NamesHits}
use libsolgem.Digitization.Additive.Written.{digitize-fill_tree}
use libsolgem.Examples.Data.{manager, modules}
use libsolgem.Examples.Geometry.{Turn, turns, box, plane, point}

methods : Unit {0}
unfolding get_n_module number_gems add_planes add_modules add_module resize hit_at modify_hit
    set_nhit set_hit_chamber set_hit_energy get_nhit new_hit_data to_short adc_convert new_plane
    clear slot_index strip_to_rocd make_roc_key find insert strip_from_key location strip_key
    load_samples load_strips new_digitizer initialize set_tree_strips tree_chambers tree_chamber
    tree_plane tree_strip noisy_samples noisy_sample cluster_ratios whole_double ◌+ℤ◌ ◌-ℤ◌ ◌*ℤ◌
methods = tt

-- A generator that counts its calls and gives the mean, and two ions for each hit.
abbrev pub root : Root ℤ ℕ
root = record {
  uniform = λ a b r. (b, r + 1);
  gaus = λ m s r. (m, r + 1);
  exponential = λ m r. (m, r + 1);
  poisson = λ m r. (2, r + 1);
  pi = pos 3;
  inv_pi = pos 0;
  to_float = λ x. x;
  vec_add = λ v w. v;
  vec_sub = λ v w. v;
  vec_scale = λ v x. v;
  rotate_z = λ angle v. v;
}

abbrev pub settings : Settings ℤ
settings = record {
  gas_wion = pos 26;
  gas_diffusion = pos 1;
  gas_drift_velocity = pos 1;
  avalanche_fiducial_band = pos 1;
  avalanche_charge_statistics = pos 0;
  gain_mean = pos 8;
  gain0 = pos 2;
  max_n_ion = 100;
  s_norm_nsigma = pos 1;
  ava_gain = pos 1;
  trigger_offset = pos 1 ∷ [];
  trigger_jitter = pos 1;
  ele_sampling_points = pos 2;
  ele_sampling_period = pos 25;
  adc_offset = pos 0;
  adc_gain = pos 1;
  adc_bits = pos 12;
  gate_width = pos 100;
  entrance_ref = pos 0;
  lateral_uncertainty = pos 0;
  pulse_noise_sigma = pos 1;
  pulse_noise_period = pos 1;
  pulse_shape_tau0 = pos 50;
  pulse_shape_tau1 = pos 100;
  rout_z = pos 9;
  y_integral_steps_per_pitch = 1;
  x_integral_steps_per_pitch = 1;
  cross_talk = record { do_cross_talk = false; n_strip_apart = pos 32; factor = pos 0 };
  cross_sigma = pos 0;
}

abbrev chamber : GemChamber ℤ Turn
chamber = record { origin = point; size = point; box = box; planes = λ i. plane }

abbrev det : Manager ℤ
det = record (manager modules) {
  igem_to_plane = (number_gems modules).igem_to_plane;
  igem_to_module = (number_gems modules).igem_to_module;
}

-- Two hits in chamber 0, with an energy for the first.
abbrev hits : HitData ℤ
hits = set_hit_energy 0 (pos 60) (set_nhit 2 new_hit_data)

abbrev start : Digitizer ℤ ℕ
start = new_digitizer 0 (λ ic ip. 0) (pos 0)

-- One chamber with a plane of two strips and one sample.
abbrev small : Digitizer ℤ ℕ
small = record start { n_chambers = 1; n_planes = λ ic. 1; dp = λ ic ip. new_plane 2 1 (pos 0) }

runs :
    (get_nhit hits ≡ 2)
    × ((hit_at hits 0).edep ≡ pos 60)
    × ((hit_at hits 1).edep ≡ pos 0)
    × (adc_convert (pos 90) (pos 10) (pos 2) 5 ≡ 31)
    × (adc_convert (pos 70) (pos 10) (pos 2) 5 ≡ 30)
    × (length (set_tree_strips root det settings small).event.gem_strips ≡ 2)
unfolding methods
runs = (refl, refl, refl, refl, refl, refl)

laws : FloorLaws ℤ
unfolding methods
laws = record {
  total = λ x n small number low. ground arith;
  order = λ m n low le high. ground arith;
  floor_le = λ x m n low high above below. (ground arith, ground arith);
}

adc_convert_le_example : adc_convert (pos 90) (pos 10) (pos 2) 5 ≤ 2 ^ 5 - 1
unfolding whole_double
adc_convert_le_example = adc_convert_le (pos 90) (pos 10) (pos 2) 5 laws (omega arith) (refl, refl)

abbrev done : Digitizer ℤ ℕ
done = digitize root settings det (pos 0) (λ ic. chamber) hits start

named : IsNumbered done.event × NamesHits done
named = digitize-NamesHits root settings det (pos 0) (λ ic. chamber) hits start

additive_digitize-NamesHits_example :
    let u = additive_digitize root settings det (pos 0) (λ ic. chamber) hits done in
    IsNumbered u.event × NamesHits u
additive_digitize-NamesHits_example =
    additive_digitize-NamesHits root settings det (pos 0) (λ ic. chamber) hits done named.0 named.1

digitize-fill_tree_example :
    let e = (fill_tree root det settings true done).0.event in IsNumbered e × IsClosed e
digitize-fill_tree_example =
    digitize-fill_tree root settings det (pos 0) (λ ic. chamber) hits true start

set_tree_strips-IsSampled_example :
    All IsSampled (set_tree_strips root det settings small).event.gem_strips
unfolding new_plane
set_tree_strips-IsSampled_example =
    set_tree_strips-IsSampled root det settings small (λ c j. omega arith)

loaded : IsLoaded det
loaded = record { n_planes = refl; to_plane = refl; to_module = refl }

small-Fits : Fits det small
unfolding methods
small-Fits = record {
  chambers = omega arith;
  planes = λ ic. omega arith;
  strips = λ ic ip. omega arith;
}

growing : NoFewerModules det
unfolding methods
growing zero lt = omega arith
growing (suc zero) lt = omega arith
growing (suc (suc p)) lt = absurd (omega arith)

abbrev load_list : List (Address × ℤ) → Address → ℤ → Option (List (Address × ℤ))
load_list slots a raw = some ((a, raw) ∷ slots)

abbrev second : DigiGemStrip ℤ
second = record {
  sector = pos 0;
  plane = 0;
  module_ = 0;
  proj = 0;
  chan = 1;
  sig_type = 0;
  charge = pos 0;
  time1 = pos 9999;
  n_samp = 1;
  adc = pos 0 ∷ [];
  clusters = [];
  cluster_ratio = [] ∷ [];
  strip_weight = [];
}

abbrev at : ℕ → Address
at chan = record { crate = 0; slot = 0; chan = chan }

set_tree_strips-load_strips_example :
    strip_from_key ((1, 1) ∷ (0, 0) ∷ []) (strip_key det 30 second) ≡ pos 1
unfolding methods
set_tree_strips-load_strips_example =
    set_tree_strips-load_strips det 30 root settings loaded (List (Address × ℤ)) load_list small 1
      second [] ((at 1, pos 0) ∷ (at 0, pos 0) ∷ []) ((1, 1) ∷ (0, 0) ∷ []) growing small-Fits refl
      refl

-- Strips 4 to 6, of which strip 5 has no signal.
abbrev samples : ℕ → ℕ → ℕ
samples zero b = 3
samples (suc zero) b = 0
samples (suc (suc j)) b = b
