-- ===== src/Decoder/Kinematics.antt =====
-- The kinematics of the calorimeter part of DoLoadEvent in src/TSBSSimDecoder.cxx: from the electron's
-- points to the place of the proton in the focal plane. Values that only comments print are left out.
use libsolgem.Base.{
  ℕ, zero, suc, ◌+◌, pos, negsuc, Bool, not, ◌||◌, Option, none, some, List, [], ◌∷◌, ◌++◌, get_or,
  if◌then◌else◌,
}
use libsolgem.Base.Int.{eqb_ℤ, pos_part}
use libsolgem.Database.{Manager}
use libsolgem.Database.Optics.{get_optics_coeff}
use libsolgem.Double.{Double, ◌⊕◌, ◌⊖◌, ◌⊗◌, ◌⊘◌, ◌≼◌, of_ℤ, of_ℕ, decimal}
use libsolgem.SimEvent.{Vec3, ScintCluster}
use libsolgem.Decoder.Shower.{Library, CaloPlace, FitPoint, FitTrack}

-- The place in the focal plane and the slopes there.
pub record FocalPlane (D : Type 0) : Type 0 where
  pub x : D
  pub y : D
  pub xp : D
  pub yp : D

-- What the optics takes of the particle at the target.
pub record TargetTrack (D : Type 0) : Type 0 where
  pub xptar : D
  pub yptar : D
  pub ytar : D
  pub pp : D

module _ {D : Type 0} ⦃d : Double D⦄ (lib : Library D) (unset : D) (fManager : Manager D) where
  abbrev pub z_earm : ℕ → D
  z_earm plane =
      get_or (decimal (pos 45) 1 ∷ decimal (pos 408) 2 ∷ decimal (pos 413) 2 ∷ []) plane unset

  -- yoff_ECAL
  abbrev pub yoff : D
  yoff = decimal (pos 77) 4

  abbrev pub th_earm : D
  th_earm = of_ℕ 29 ⊗ lib.deg_to_rad

  abbrev pub th_sbs : D
  th_sbs = decimal (pos 169) 1 ⊗ lib.deg_to_rad

  abbrev pub weight_of : D → D
  weight_of sigma = lib.power sigma (of_ℤ (negsuc 1))

  -- The axes of the calorimeter and of the spectrometer.
  unfoldable pub ecal_axes : Vec3 D × Vec3 D × Vec3 D
  ecal_axes =
      let zaxis : Vec3 D = record { x = d.sin th_earm; y = of_ℕ 0; z = d.cos th_earm } in
      let yaxis : Vec3 D = record { x = of_ℕ 0; y = of_ℕ 1; z = of_ℕ 0 } in
      (lib.unit (lib.cross yaxis zaxis), yaxis, zaxis)

  unfoldable pub sbs_axes : Vec3 D × Vec3 D × Vec3 D
  sbs_axes =
      let zaxis : Vec3 D = record { x = d.neg (d.sin th_sbs); y = of_ℕ 0; z = d.cos th_sbs } in
      let xaxis : Vec3 D = record { x = of_ℕ 0; y = of_ℤ (negsuc 0); z = of_ℕ 0 } in
      (xaxis, lib.unit (lib.cross zaxis xaxis), zaxis)

  abbrev pub along : Vec3 D × Vec3 D × Vec3 D → Vec3 D → Vec3 D
  along axes v = record { x = lib.dot v (axes.0); y = lib.dot v (axes.1); z = lib.dot v (axes.2) }

  -- The points of the coordinate detector; a cluster that is not one of it ends the decoding.
  unfoldable pub is_bad_scint : ScintCluster D → Bool
  is_bad_scint c = not (eqb_ℤ c.ecal.det_flag (pos 31)) || c.ecal.energy ≼ of_ℕ 0

  unfoldable pub scint_point : ScintCluster D → FitPoint D
  scint_point c = record {
    x = c.ecal.x_pos;
    y = c.ecal.y_pos ⊖ yoff;
    z = z_earm (pos_part c.plane);
    wx = weight_of (decimal (pos 51) 2);
    wy = weight_of (decimal (pos 3) 3);
  }

  unfoldable pub scint_points :
      List (ScintCluster D) → List (FitPoint D) → Option (List (FitPoint D))
  unfolding scint_point
  scint_points [] points = some points
  scint_points (c ∷ rest) points =
      if is_bad_scint c then none else scint_points rest (points ++ scint_point c ∷ [])

  -- The points of an electron: the vertex, the coordinate detector and the calorimeter.
  unfoldable pub vertex_point : D → FitPoint D
  unfolding ecal_axes
  vertex_point vz =
      let v = along ecal_axes (record { x = of_ℕ 0; y = of_ℕ 0; z = vz }) in
      record {
        x = v.x;
        y = v.y;
        z = v.z;
        wx = weight_of (decimal (pos 1) 3);
        wy = weight_of (decimal (pos 1) 3);
      }

  unfoldable pub ecal_point : CaloPlace D → FitPoint D
  ecal_point e = record {
    x = e.x;
    y = e.y ⊖ yoff;
    z = z_earm 0;
    wx = weight_of (decimal (pos 8) 3);
    wy = weight_of (decimal (pos 6) 3);
  }

  -- The proton that goes with an electron of this direction.
  unfoldable pub proton_track : D → FitTrack D → TargetTrack D
  unfolding ecal_axes sbs_axes
  proton_track vz t =
      let k0 = of_ℕ 11 in
      let mp = decimal (pos 938272) 6 in
      let ehat = lib.unit (record { x = t.xp; y = t.yp; z = of_ℕ 1 }) in
      let axes = ecal_axes in
      let global_ =
        lib.vec_add (lib.vec_add (lib.vec_scale ehat.x (axes.0)) (lib.vec_scale ehat.y (axes.1)))
          (lib.vec_scale ehat.z (axes.2)) in
      let thetak = lib.acos global_.z in
      let phip = lib.atan2 global_.y global_.x ⊕ lib.pi in
      let kp = k0 ⊗ mp ⊘ (k0 ⊗ (of_ℕ 1 ⊖ d.cos thetak) ⊕ mp) in
      let pp = d.sqrt (lib.power (k0 ⊖ kp ⊕ mp) (of_ℕ 2) ⊖ mp ⊗ mp) in
      let thetap = lib.asin (kp ⊗ d.sin thetak ⊘ pp) in
      let pvect : Vec3 D = record {
        x = pp ⊗ d.sin thetap ⊗ d.cos phip;
        y = pp ⊗ d.sin thetap ⊗ d.sin phip;
        z = pp ⊗ d.cos thetap;
      } in
      let p = along sbs_axes pvect in
      let vertex = along sbs_axes (record { x = of_ℕ 0; y = of_ℕ 0; z = vz }) in
      let yptar = p.y ⊘ p.z in
      record { xptar = p.x ⊘ p.z; yptar = yptar; ytar = vertex.y ⊖ yptar ⊗ vertex.z; pp = pp }

  -- A term of the optics, with xtar at 0.
  unfoldable pub optics_term : TargetTrack D → ℕ → D
  optics_term t i =
      lib.power t.xptar (get_optics_coeff fManager 8 i)
      ⊗ lib.power t.yptar (get_optics_coeff fManager 7 i)
      ⊗ lib.power t.ytar (get_optics_coeff fManager 6 i)
      ⊗ lib.power (of_ℕ 1 ⊘ t.pp) (get_optics_coeff fManager 5 i)
      ⊗ lib.power (of_ℕ 0) (get_optics_coeff fManager 4 i)

  -- The loop over the terms of the optics, from term `i` with `left` to go.
  unfoldable pub sum_optics : TargetTrack D → ℕ → ℕ → FocalPlane D → FocalPlane D
  sum_optics t zero i f = f
  sum_optics t (suc left) i f =
      let term = optics_term t i in
      sum_optics t left (i + 1) (record {
        x = f.x ⊕ term ⊗ get_optics_coeff fManager 0 i;
        y = f.y ⊕ term ⊗ get_optics_coeff fManager 1 i;
        xp = f.xp ⊕ term ⊗ get_optics_coeff fManager 2 i;
        yp = f.yp ⊕ term ⊗ get_optics_coeff fManager 3 i;
      })

  unfoldable pub focal_plane : D → FitTrack D → FocalPlane D
  unfolding proton_track sum_optics
  focal_plane vz track =
      sum_optics (proton_track vz track) (pos_part fManager.n_optics_terms) 0
        (record { x = of_ℕ 0; y = of_ℕ 0; xp = of_ℕ 0; yp = of_ℕ 0 })
