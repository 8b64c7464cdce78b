-- ===== src/Database.antt =====
-- src/TSBSDBManager.{h,cxx}: the state of the database manager, and its plain getters. Counts that
-- the source keeps in an `int` are natural numbers; a reading of `std::map::operator[]` at a missing
-- key yields 0 (or an empty vector), so such a map is a function.
pub mod GemIndex
pub mod Access
pub mod Keys
pub mod Optics
pub mod Load
use libsolgem.Base.{ℕ, zero, suc, ℤ, pos, Bool, List, get_or, if◌then◌else◌}

-- `struct GeoInfo` of src/types.h
pub record GeoInfo (D : Type 0) : Type 0 where
  pub dmag : D
  pub d0 : D
  pub xoffset : D
  pub dx : D
  pub dy : D
  pub theta_v : D
  pub z : D
  pub depth : D
  pub stripangle_u : D
  pub stripangle_v : D
  pub pitch_u : D
  pub pitch_v : D

pub record Manager (D : Type 0) : Type 0 where
  pub do_map_sector : ℤ
  pub mapped_sector : ℤ
  pub do_self_defined_sector : ℤ
  pub n_chamber : ℕ
  pub n_sector : ℤ
  pub n_gem_plane : ℕ
  pub n_module : List ℕ
  pub pm_to_igem : ℕ → ℕ → ℕ
  pub igem_to_plane : ℕ → ℕ
  pub igem_to_module : ℕ → ℕ
  pub n_read_out : ℕ
  pub n_sig_particle : ℕ
  pub gem_drift_id : ℤ
  pub gem_copper_front_id : ℤ
  pub gem_copper_back_id : ℤ
  pub gem_strip_id : ℤ
  pub faec_id : ℤ
  pub laec_id : ℤ
  pub chan_per_slot : ℕ
  pub modules_per_read_out : ℕ
  pub modules_per_chamber : ℕ
  pub chambers_per_crate : ℕ
  pub g4sbs_detector_type : ℤ
  pub g4sbs_z_spec_offset : D
  pub calo_thr : D
  pub calo_z : D
  pub calo_res : D
  pub do_calo : ℤ
  pub z0 : D
  pub err_id : ℤ
  pub err_val : D
  pub sig_pid : List ℤ
  pub sig_tid : List ℤ
  pub order_optics : ℤ
  pub n_optics_terms : ℤ
  pub optics_file : List ℕ
  pub optics_coeff : ℕ → List D
  pub pm_geo_info : ℕ → List (GeoInfo D)

-- `GetNModule`, at a plane number that is not negative. The source reads fNModule unchecked, so that
-- past its end, for a plane that is not there, nothing is defined; 0 stands for it here.
unfoldable pub get_n_module : {D : Type 0} → Manager D → ℕ → ℕ
get_n_module m plane = get_or m.n_module plane 0

-- `GetNModule(plane - 1)`, which is 0 at plane 0 (the argument is then negative).
unfoldable pub get_n_module_before : {D : Type 0} → Manager D → ℕ → ℕ
unfolding get_n_module
get_n_module_before m zero = 0
get_n_module_before m (suc plane) = get_n_module m plane

-- The setters that a script may call.
module _ {D : Type 0} where
  unfoldable pub set_z0 : D → Manager D → Manager D
  set_z0 z0 m = record m { z0 = z0 }

  unfoldable pub emulate_calorimeter : Bool → Manager D → Manager D
  emulate_calorimeter f m = record m { do_calo = if f then pos 1 else pos 0 }

  unfoldable pub set_calo_z : D → Manager D → Manager D
  set_calo_z z m = record m { calo_z = z }

  unfoldable pub set_calo_res : D → Manager D → Manager D
  set_calo_res res m = record m { calo_res = res }
