-- ===== src/Examples/Data.antt =====
-- A detector with three planes of one, two and two modules, with whole numbers for `double`.
use libsolgem.Base.{ℕ, ℤ, pos, negsuc, List, [], ◌∷◌, replicate, get_or}
use libsolgem.Database.{GeoInfo, Manager}

abbrev pub geometry : ℤ → GeoInfo ℤ
geometry xoffset = record {
  dmag = pos 0;
  d0 = pos 4;
  xoffset = xoffset;
  dx = pos 10;
  dy = pos 4;
  theta_v = pos 0;
  z = pos 0;
  depth = pos 0;
  stripangle_u = pos 30;
  stripangle_v = pos 60;
  pitch_u = pos 1;
  pitch_v = pos 1;
}

abbrev pub modules : List ℕ
modules = 1 ∷ 2 ∷ 2 ∷ []

abbrev pub manager : List ℕ → Manager ℤ
manager n_module = record {
  do_map_sector = pos 0;
  mapped_sector = pos 0;
  do_self_defined_sector = pos 0;
  n_chamber = 3;
  n_sector = pos 1;
  n_gem_plane = 3;
  n_module = n_module;
  pm_to_igem = λ p m. 0;
  igem_to_plane = λ g. 0;
  igem_to_module = λ g. 0;
  n_read_out = 2;
  n_sig_particle = 1;
  gem_drift_id = pos 6;
  gem_copper_front_id = pos 5;
  gem_copper_back_id = pos 15;
  gem_strip_id = pos 18;
  faec_id = pos 0;
  laec_id = pos 0;
  chan_per_slot = 128;
  modules_per_read_out = 1;
  modules_per_chamber = 2;
  chambers_per_crate = 3;
  g4sbs_detector_type = pos 0;
  g4sbs_z_spec_offset = pos 0;
  calo_thr = pos 0;
  calo_z = pos 0;
  calo_res = pos 0;
  do_calo = pos 0;
  z0 = pos 0;
  err_id = negsuc 998;
  err_val = negsuc 998;
  sig_pid = pos 11 ∷ [];
  sig_tid = pos 1 ∷ [];
  order_optics = pos 0;
  n_optics_terms = pos 0;
  optics_file = [];
  optics_coeff = λ k. [];
  pm_geo_info = λ p. replicate (get_or n_module p 0) (geometry (pos 0));
}
