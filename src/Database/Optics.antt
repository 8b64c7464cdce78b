-- ===== src/Database/Optics.antt =====
-- src/TSBSDBManager.cxx: the constructor, LoadOptics and GetOpticsCoeff. The terms are what the stream
-- of the optics file yields, one for each round of the loop; their number is fNOpticsTerms.
pub mod Terms
pub mod Stream
use libsolgem.Base.{
  ℕ, zero, suc, ◌^◌, ℤ, pos, negsuc, List, [], ◌∷◌, ◌++◌, get_elem?, get_or, Option, none, some,
  length, ltb, if◌then◌else◌,
}
use libsolgem.Double.{Double, of_ℤ, of_ℕ}
use libsolgem.Database.{Manager}

-- One line of the optics file.
pub record Term (D : Type 0) : Type 0 where
  pub cxfp : D
  pub cyfp : D
  pub cxpfp : D
  pub cypfp : D
  pub i : ℤ
  pub j : ℤ
  pub k : ℤ
  pub l : ℤ
  pub m : ℤ

module _ {D : Type 0} ⦃d : Double D⦄ where
  -- TSBSDBManager(). It leaves fNOpticsTerms unset: `unset_terms` is what it holds.
  unfoldable pub new_manager : ℤ → Manager D
  new_manager unset_terms = record {
    do_map_sector = pos 0;
    mapped_sector = pos 0;
    do_self_defined_sector = pos 0;
    n_chamber = 0;
    n_sector = pos 0;
    n_gem_plane = 0;
    n_module = [];
    pm_to_igem = λ p m. 0;
    igem_to_plane = λ g. 0;
    igem_to_module = λ g. 0;
    n_read_out = 0;
    n_sig_particle = 0;
    gem_drift_id = pos 0;
    gem_copper_front_id = pos 0;
    gem_copper_back_id = pos 0;
    gem_strip_id = pos 0;
    faec_id = pos 0;
    laec_id = pos 0;
    chan_per_slot = 2048;
    modules_per_read_out = 1;
    modules_per_chamber = 1;
    chambers_per_crate = 1;
    g4sbs_detector_type = pos 0;
    g4sbs_z_spec_offset = of_ℕ 0;
    calo_thr = of_ℕ 0;
    calo_z = of_ℕ 0;
    calo_res = of_ℕ 0;
    do_calo = pos 0;
    z0 = of_ℕ 0;
    err_id = negsuc 998;
    err_val = of_ℤ (negsuc 998);
    sig_pid = [];
    sig_tid = [];
    order_optics = pos 0;
    n_optics_terms = unset_terms;
    optics_file = [];
    optics_coeff = λ k. [];
    pm_geo_info = λ p. [];
  }

  -- The value that a term adds to row `k` of fOpticsCoeff. There are rows 0 to 8.
  unfoldable pub term_value : ℕ → Term D → D
  term_value row t =
      let integers = of_ℤ t.i ∷ of_ℤ t.j ∷ of_ℤ t.k ∷ of_ℤ t.l ∷ of_ℤ t.m ∷ [] in
      get_or (t.cxfp ∷ t.cyfp ∷ t.cxpfp ∷ t.cypfp ∷ integers) row (of_ℤ t.m)

  -- The body of the loop.
  unfoldable pub push_term : Term D → (ℕ → List D) → ℕ → List D
  push_term t coeff row = if ltb row 9 then coeff row ++ term_value row t ∷ [] else coeff row

  unfoldable pub push_terms : List (Term D) → (ℕ → List D) → ℕ → List D
  push_terms [] coeff = coeff
  push_terms (t ∷ ts) coeff = push_terms ts (push_term t coeff)

  -- LoadOptics. The first assignments empty the nine rows.
  unfoldable pub load_optics : List (Term D) → Manager D → Manager D
  load_optics terms m = record m {
    n_optics_terms = pos (length terms);
    optics_coeff = push_terms terms (λ row. if ltb row 9 then [] else m.optics_coeff row);
  }

  abbrev coeff_or : Option D → D
  coeff_or (some v) = v
  coeff_or none = of_ℕ (10 ^ 38)

  unfoldable pub get_optics_coeff : Manager D → ℕ → ℕ → D
  get_optics_coeff m i j = coeff_or (get_elem? (m.optics_coeff i) j)
