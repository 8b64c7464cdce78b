-- ===== src/Database/Access.antt =====
-- src/TSBSDBManager.cxx: CheckIndex and the getters that use it. `none` is the exception that
-- std::vector::at throws.
pub mod Bounds
use libsolgem.Base.{
  ℕ, zero, suc, ◌+◌, ℤ, pos, negsuc, Bool, true, false, ◌&&◌, ◌||◌, Option, none, some, List, [],
  ◌∷◌, get_elem?, length, get_or, if◌then◌else◌, ltb, leb,
}
use libsolgem.Base.Int.{ltb_ℤ, leb_ℤ, pos_part}
use libsolgem.Double.{Double, ◌⊕◌, ◌⊖◌, ◌⊗◌, ◌⊘◌, ◌≼◌, of_ℤ, of_ℕ, decimal}
use libsolgem.Database.{Manager, GeoInfo, get_n_module}

infix 50 ◌is◌
abbrev pub ◌is◌ : ℤ → ℕ → Bool
z is n = leb_ℤ z (pos n) && leb_ℤ (pos n) z

module _ {D : Type 0} where
  -- An invalid readout axis `k` is reported and accepted. For a chamber number past the planes the
  -- source reads fNModule past its end; `get_n_module` stands for the value with 0.
  unfoldable pub check_index : Manager D → ℤ → ℤ → ℤ → Bool
  unfolding get_n_module
  check_index m i j k =
      if leb_ℤ (pos m.n_chamber) i || ltb_ℤ i (pos 0)
      then false
      else if leb_ℤ (pos (get_n_module m (pos_part i))) j || ltb_ℤ j (pos 0)
      then false
      else true

  -- `fPMGeoInfo[i].at(j)`, past the check.
  unfoldable pub geo_at : Manager D → ℤ → ℤ → Option (GeoInfo D)
  geo_at m i j = get_elem? (m.pm_geo_info (pos_part i)) (pos_part j)

  -- A getter's result: fErrVal where the index is refused, else the field.
  abbrev field_at : (GeoInfo D → D) → Option (GeoInfo D) → Option D
  field_at field (some g) = some (field g)
  field_at field none = none

  unfoldable pub checked : (GeoInfo D → D) → Manager D → ℤ → ℤ → ℤ → Option D
  checked field m i j k =
      if check_index m i j k then field_at field (geo_at m i j) else some m.err_val

  unfoldable pub get_dmag : Manager D → ℤ → ℤ → Option D
  get_dmag m i j = checked (λ g. g.dmag) m i j (pos 0)

  unfoldable pub get_d0 : Manager D → ℤ → ℤ → Option D
  get_d0 m i j = checked (λ g. g.d0) m i j (pos 0)

  unfoldable pub get_xoffset : Manager D → ℤ → ℤ → Option D
  get_xoffset m i j = checked (λ g. g.xoffset) m i j (pos 0)

  unfoldable pub get_dx : Manager D → ℤ → ℤ → Option D
  get_dx m i j = checked (λ g. g.dx) m i j (pos 0)

  unfoldable pub get_dy : Manager D → ℤ → ℤ → Option D
  get_dy m i j = checked (λ g. g.dy) m i j (pos 0)

  unfoldable pub get_theta_v : Manager D → ℤ → ℤ → Option D
  get_theta_v m i j = checked (λ g. g.theta_v) m i j (pos 0)

  -- Both branches of the source give stripangle_u.
  unfoldable pub get_strip_angle : Manager D → ℤ → ℤ → ℤ → Option D
  get_strip_angle m i j k =
      if k is 0
      then checked (λ g. g.stripangle_u) m i j k
      else checked (λ g. g.stripangle_u) m i j k

  unfoldable pub get_sig_pid : Manager D → ℕ → ℤ
  get_sig_pid m i = if leb (length m.sig_pid) i then m.err_id else get_or m.sig_pid i (pos 0)

  -- The index is checked against fSigPID here too.
  unfoldable pub get_sig_tid : Manager D → ℕ → ℤ
  get_sig_tid m i = if leb (length m.sig_pid) i then m.err_id else get_or m.sig_tid i (pos 0)

module _ {D : Type 0} ⦃d : Double D⦄ where
  -- `xoffset - dx / 2 <= x && x <= xoffset + dx / 2`
  unfoldable pub covers : D → GeoInfo D → Bool
  covers x g = g.xoffset ⊖ g.dx ⊘ of_ℕ 2 ≼ x && x ≼ g.xoffset ⊕ g.dx ⊘ of_ℕ 2

  -- The loop of GetModuleIDFromPos, at module `k`.
  unfoldable pub scan_modules : D → List (GeoInfo D) → ℕ → ℤ → ℤ
  scan_modules x [] k module_ = module_
  scan_modules x (g ∷ rest) k module_ =
      scan_modules x rest (k + 1) (if covers x g then pos k else module_)

  -- `fErrVal` is returned as an int.
  unfoldable pub get_module_id_from_pos : Manager D → ℤ → D → ℤ
  get_module_id_from_pos m iplane x =
      if check_index m iplane (pos 0) (pos 0)
      then scan_modules x (m.pm_geo_info (pos_part iplane)) 0 (negsuc 0)
      else d.truncate m.err_val

  -- The two tests on `iproj`, at the geometry of the module.
  unfoldable pub strip_position : ℤ → ℤ → D → GeoInfo D → D
  strip_position iproj istrip err_val g =
      if iproj is 1
      then g.pitch_v ⊗ of_ℤ istrip ⊖ g.dy ⊘ of_ℕ 2
      else if iproj is 0
      then g.pitch_u ⊗ of_ℤ istrip ⊖ g.dx ⊘ of_ℕ 2 ⊕ g.xoffset
      else err_val

  -- With neither projection the geometry is not read.
  unfoldable pub get_pos_from_module_strip : Manager D → ℤ → ℤ → ℤ → ℤ → Option D
  get_pos_from_module_strip m iproj iplane imodule istrip =
      if check_index m iplane imodule (pos 0) && (iproj is 0 || iproj is 1)
      then field_at (strip_position iproj istrip m.err_val) (geo_at m iplane imodule)
      else some m.err_val
