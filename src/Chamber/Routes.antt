-- ===== src/Chamber/Routes.antt =====
-- The frames of a chamber agree with each other.
use libsolgem.Base.{◌≡◌, refl}
use libsolgem.Double.{Double}
use libsolgem.SimEvent.{Vec3}
use libsolgem.Box.{Matrices, lab_to_box, box_to_lab, spec_to_box, box_to_spec}
use libsolgem.Box.Frames.{IsExact}
use libsolgem.Chamber.{
  GemChamber, lab_to_plane, plane_to_lab, spec_to_plane, plane_to_spec, chamber_lab_to_spec,
  chamber_spec_to_lab,
}

module _ {D M : Type 0} ⦃d : Double D⦄ ⦃mx : Matrices D M⦄ where
  -- For exact sums, SpecToPlane and PlaneToSpec of a chamber undo each other, and the way between the
  -- lab and the plane through the spectrometer frame is the direct one, in both directions.
  pub plane_routes :
      (c : GemChamber D M) (v : Vec3 D)
      → IsExact D
      → (spec_to_plane c (plane_to_spec c v) ≡ v)
        × (plane_to_spec c (spec_to_plane c v) ≡ v)
        × (lab_to_plane c v ≡ spec_to_plane c (chamber_lab_to_spec c v))
        × (plane_to_lab c v ≡ chamber_spec_to_lab c (plane_to_spec c v))
  unfolding spec_to_plane plane_to_spec lab_to_plane plane_to_lab lab_to_box box_to_lab spec_to_box
      box_to_spec chamber_lab_to_spec chamber_spec_to_lab
  plane_routes c v x = (rw (x.add_sub, x.add_sub) refl, rw (x.sub_add, x.sub_add) refl, refl, refl)
