-- ===== src/Digitization.antt =====
-- class TSBSSimGEMDigitization of src/TSBSSimGEMDigitization.{h,cxx}: its parameters, its state, and
-- setting it up. ROOT's random numbers, vectors and constants are a parameter. Dynamic arrays are
-- functions of the index, and TSBSSpec::GetChamber is one of the chamber's number.
pub mod Setup
pub mod Ions
pub mod Noise
pub mod Collect
pub mod Spread
pub mod Avalanche
pub mod Tree
pub mod Additive
pub mod Output
use libsolgem.Base.{
  ℕ, zero, suc, ◌+◌, ℤ, pos, Bool, true, false, ◌||◌, Option, none, List, [], ◌∷◌, ◌++◌,
  if◌then◌else◌,
}
use libsolgem.Base.Int.{ltb_ℤ, pos_part}
use libsolgem.Database.GemIndex.{update}
use libsolgem.Double.{Double, of_ℕ}
use libsolgem.SimEvent.{Vec3, SimEvent, new_event}
use libsolgem.GemPlane.{GemPlane}
use libsolgem.Chamber.{GemChamber}
use libsolgem.DigitizedPlane.{GemHit, DigitizedPlane, CrossTalk, new_plane}
use libsolgem.SimAuxi.{max_adc_bits}

-- What the code calls of ROOT: a random number generator in state R, vectors, the constants of TMath
-- and the rounding of a double to a Float_t.
pub record Root (D R : Type 0) : Type 0 where
  pub uniform : D → D → R → D × R
  pub gaus : D → D → R → D × R
  pub exponential : D → R → D × R
  pub poisson : D → R → ℕ × R
  pub pi : D
  pub inv_pi : D
  pub to_float : D → D
  pub vec_add : Vec3 D → Vec3 D → Vec3 D
  pub vec_sub : Vec3 D → Vec3 D → Vec3 D
  pub vec_scale : Vec3 D → D → Vec3 D
  pub rotate_z : D → Vec3 D → Vec3 D

-- The parameters that ReadDatabase sets.
pub record Settings (D : Type 0) : Type 0 where
  pub gas_wion : D
  pub gas_diffusion : D
  pub gas_drift_velocity : D
  pub avalanche_fiducial_band : D
  pub avalanche_charge_statistics : ℤ
  pub gain_mean : D
  pub gain0 : D
  pub max_n_ion : ℕ
  pub s_norm_nsigma : D
  pub ava_gain : D
  pub trigger_offset : List D
  pub trigger_jitter : D
  pub ele_sampling_points : ℤ
  pub ele_sampling_period : D
  pub adc_offset : D
  pub adc_gain : D
  pub adc_bits : ℤ
  pub gate_width : D
  pub entrance_ref : D
  pub lateral_uncertainty : D
  pub pulse_noise_sigma : D
  pub pulse_noise_period : D
  pub pulse_shape_tau0 : D
  pub pulse_shape_tau1 : D
  pub rout_z : D
  pub y_integral_steps_per_pitch : ℕ
  pub x_integral_steps_per_pitch : ℕ
  pub cross_talk : CrossTalk D
  pub cross_sigma : D

-- IonPar_t
pub record IonPar (D : Type 0) : Type 0 where
  pub x : D
  pub y : D
  pub charge : D
  pub s_norm : D
  pub r2 : D
  pub ggnorm : D

-- The state. `r_ion` is the first fRNIon ions, `ran` the generators fRan of the planes.
pub record Digitizer (D R : Type 0) : Type 0 where
  pub do_map_sector : Bool
  pub signal_sector : ℤ
  pub n_chambers : ℕ
  pub n_planes : ℕ → ℕ
  pub dp : ℕ → ℕ → DigitizedPlane D
  pub ran : ℕ → ℕ → R
  pub fdh : Option (List (GemHit D))
  pub trnd : R
  pub r_n_ion : ℕ
  pub r_ion : List (IonPar D)
  pub r_s_max : D
  pub r_total_charge : D
  pub r_time0 : D
  pub event : SimEvent D
  pub filled_strips : Bool

-- The number of ADC samples.
abbrev pub points : {D : Type 0} → Settings D → ℕ
points s = pos_part s.ele_sampling_points

module _ {D : Type 0} ⦃d : Double D⦄ where
  module _ {M R : Type 0} where
    -- Initialize: one plane for each readout plane of each chamber, with threshold 0. DeleteObjects
    -- deletes the event too, and the constructor then makes another.
    unfoldable pub initialize :
        Settings D → ℕ → (ℕ → ℕ) → (ℕ → GemChamber D M) → Digitizer D R → Digitizer D R
    initialize s nchambers nplanes spect t = record t {
      n_chambers = nchambers;
      n_planes = nplanes;
      dp = λ ic ip. new_plane (pos_part ((spect ic).planes ip).n_strips) (points s) (pos 0);
      fdh = none;
      event = new_event;
      filled_strips = true;
    }

  -- The constructor, before Initialize. Members that it leaves unset are `r_time0` and its like: the
  -- model has what they hold, `unset`.
  unfoldable pub new_digitizer : {R : Type 0} → R → (ℕ → ℕ → R) → D → Digitizer D R
  new_digitizer trnd ran unset = record {
    do_map_sector = false;
    signal_sector = pos 0;
    n_chambers = 0;
    n_planes = λ ic. 0;
    dp = λ ic ip. new_plane 0 0 (pos 0);
    ran = ran;
    fdh = none;
    trnd = trnd;
    r_n_ion = 0;
    r_ion = [];
    r_s_max = unset;
    r_total_charge = unset;
    r_time0 = unset;
    event = new_event;
    filled_strips = true;
  }
