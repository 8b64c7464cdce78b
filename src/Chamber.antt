-- ===== src/Chamber.antt =====
-- src/TSBSGEMChamber.{h,cxx} and src/TSBSSpec.{h,cxx}: a GEM chamber of two readout planes, its frames,
-- and the list of chambers. The base classes' Init, ReadGeometry and LoadDB are parameters. Lengths in
-- the frames are in millimetres.
pub mod Routes
use libsolgem.Base.{
  ℕ, zero, suc, ℤ, pos, negsuc, Bool, not, Option, none, some, List, [], ◌∷◌, ◌++◌, get_elem?, set,
  length, if◌then◌else◌,
}
use libsolgem.Base.Int.{eqb_ℤ}
use libsolgem.Database.GemIndex.{update}
use libsolgem.Double.{Double, ◌⊕◌, ◌⊖◌, ◌⊗◌, ◌⊘◌, of_ℤ, of_ℕ}
use libsolgem.SimEvent.{Vec3}
use libsolgem.Box.{
  Matrices, Box, mm, lab_to_box, box_to_lab, spec_to_box, box_to_spec, hall_center_to_box,
  box_to_hall_center, hall_center_to_lab, lab_to_hall_center, hall_center_to_spec,
  spec_to_hall_center, lab_to_spec, spec_to_lab, set_geometry,
}
use libsolgem.GemPlane.{GemPlane, Parent, torad}

-- `fPlanes` is a function of the plane number.
pub record GemChamber (D M : Type 0) : Type 0 where
  pub origin : Vec3 D
  pub size : Vec3 D
  pub box : Box D M
  pub planes : ℕ → GemPlane D M

pub record ChamberValues (D : Type 0) : Type 0 where
  pub dmag : D
  pub d0 : D
  pub xoffset : D
  pub dx : D
  pub dy : D
  pub theta_v : D
  pub depth : D

module _ {D M : Type 0} ⦃d : Double D⦄ ⦃mx : Matrices D M⦄ where
  unfoldable pub hall_center_to_plane : GemChamber D M → Vec3 D → Vec3 D
  hall_center_to_plane c v = hall_center_to_box c.box v

  unfoldable pub plane_to_hall_center : GemChamber D M → Vec3 D → Vec3 D
  plane_to_hall_center c v = box_to_hall_center c.box v

  unfoldable pub lab_to_plane : GemChamber D M → Vec3 D → Vec3 D
  lab_to_plane c v = lab_to_box c.box v

  unfoldable pub plane_to_lab : GemChamber D M → Vec3 D → Vec3 D
  plane_to_lab c v = box_to_lab c.box v

  unfoldable pub spec_to_plane : GemChamber D M → Vec3 D → Vec3 D
  spec_to_plane c v = spec_to_box c.box (record v { z = v.z ⊖ mm c.box.d0 })

  unfoldable pub plane_to_spec : GemChamber D M → Vec3 D → Vec3 D
  plane_to_spec c v = box_to_spec c.box (record v { z = v.z ⊕ mm c.box.d0 })

  -- The frames that have the names of the box's.
  unfoldable pub chamber_hall_center_to_lab : GemChamber D M → Vec3 D → Vec3 D
  chamber_hall_center_to_lab c v = hall_center_to_lab c.box v

  unfoldable pub chamber_lab_to_hall_center : GemChamber D M → Vec3 D → Vec3 D
  chamber_lab_to_hall_center c v = lab_to_hall_center c.box v

  unfoldable pub chamber_hall_center_to_spec : GemChamber D M → Vec3 D → Vec3 D
  chamber_hall_center_to_spec c v = hall_center_to_spec c.box v

  unfoldable pub chamber_spec_to_hall_center : GemChamber D M → Vec3 D → Vec3 D
  chamber_spec_to_hall_center c v = spec_to_hall_center c.box v

  unfoldable pub chamber_lab_to_spec : GemChamber D M → Vec3 D → Vec3 D
  chamber_lab_to_spec c v = lab_to_spec c.box v

  unfoldable pub chamber_spec_to_lab : GemChamber D M → Vec3 D → Vec3 D
  chamber_spec_to_lab c v = spec_to_lab c.box v

  module _ (base_geometry : ℤ) (load_db : ChamberValues D → ChamberValues D × ℤ) where
    -- ReadGeometry, where the base class's ReadGeometry gives `base_geometry`.
    unfoldable pub read_chamber_geometry : GemChamber D M → GemChamber D M × ℤ
    read_chamber_geometry c =
        let unset = of_ℤ (negsuc 998) in
        let (v, err) = load_db (record {
          dmag = unset;
          d0 = unset;
          xoffset = unset;
          dx = unset;
          dy = unset;
          theta_v = unset;
          depth = unset;
        }) in
        let b = set_geometry v.dmag v.d0 v.xoffset v.dx v.dy (v.theta_v ⊗ torad) c.box in
        if not (eqb_ℤ base_geometry (pos 0))
        then (c, base_geometry)
        else if not (eqb_ℤ err (pos 0))
        then (c, err)
        else (
          record c {
            box = b;
            origin = b.origin;
            size = record { x = b.dx; y = b.dy; z = v.depth };
          },
          pos 0,
        )

    module _ (init : ℕ → Parent D M → GemPlane D M × ℤ) (k_file_error k_ok : ℤ) where
      -- InitPlane: a plane made for the chamber, and its Init.
      unfoldable pub init_plane : ℕ → GemChamber D M → GemChamber D M × ℤ
      init_plane i c =
          let (plane, err) = init i (record { origin = c.origin; size = c.size; box = c.box }) in
          (record c { planes = update c.planes i plane }, err)

      -- ReadDatabase; `opened` is whether OpenFile finds a file.
      unfoldable pub read_database : Bool → GemChamber D M → GemChamber D M × ℤ
      unfolding read_chamber_geometry init_plane
      read_database opened c =
          let (placed, err) = read_chamber_geometry c in
          let (with_x, err_x) = init_plane 0 placed in
          let (with_y, err_y) = init_plane 1 with_x in
          if not opened
          then (c, k_file_error)
          else if not (eqb_ℤ err (pos 0))
          then (placed, err)
          else if not (eqb_ℤ err_x k_ok)
          then (with_x, err_x)
          else if not (eqb_ℤ err_y k_ok)
          then (with_y, err_y)
          else (with_y, k_ok)

-- TSBSSpec: fChambers, AddGEM, GetNChambers and GetChamber, where `none` is the exception of
-- std::vector::at.
module _ {D M : Type 0} where
  unfoldable pub add_gem : GemChamber D M → List (GemChamber D M) → List (GemChamber D M)
  add_gem pdet chambers = chambers ++ pdet ∷ []

  unfoldable pub get_n_chambers : List (GemChamber D M) → ℕ
  get_n_chambers chambers = length chambers

  unfoldable pub get_chamber : List (GemChamber D M) → ℕ → Option (GemChamber D M)
  get_chamber chambers i = get_elem? chambers i
