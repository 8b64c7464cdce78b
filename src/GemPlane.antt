-- ===== src/GemPlane.antt =====
-- src/TSBSGEMPlane.{h,cxx}: a readout plane, its frames and its strips. The base class's LoadDB is a
-- parameter: it gets the values before the call and gives those after it, with its error code.
pub mod Strips
use libsolgem.Base.{
  ℕ, ℤ, pos, negsuc, Bool, true, false, not, ◌&&◌, Option, none, some, List, [], ◌∷◌, if◌then◌else◌,
}
use libsolgem.Base.Int.{◌+ℤ◌, ◌-ℤ◌, ltb_ℤ, leb_ℤ, eqb_ℤ}
use libsolgem.Double.{Double, ◌⊕◌, ◌⊖◌, ◌⊗◌, ◌⊘◌, ◌≺◌, of_ℤ, of_ℕ, decimal, trunc}
use libsolgem.SimEvent.{Vec3}
use libsolgem.Box.{
  Matrices, Box, lab_to_box, box_to_lab, spec_to_box, box_to_spec, contains, set_geometry,
}

pub record GemPlane (D M : Type 0) : Type 0 where
  pub s_angle : D
  pub n_strips : ℤ
  pub s_pitch : D
  pub s_beg : D
  pub box : Box D M
  pub cbs : D
  pub sbs : D
  pub origin : Vec3 D
  pub size : Vec3 D

-- What ReadGeometry asks the database for where there is no parent.
pub record BoxValues (D : Type 0) : Type 0 where
  pub dmag : D
  pub d0 : D
  pub xoffset : D
  pub dx : D
  pub dy : D
  pub theta_v : D

pub record StripValues (D : Type 0) : Type 0 where
  pub stripangle : D
  pub pitch : D
  pub depth : D

-- The chamber that a plane belongs to.
pub record Parent (D M : Type 0) : Type 0 where
  pub origin : Vec3 D
  pub size : Vec3 D
  pub box : Box D M

-- The loop over the corners, from `smin` and `smax`.
unfoldable pub span : List ℤ → ℤ → ℤ → ℤ × ℤ
span [] smin smax = (smin, smax)
span (s ∷ rest) smin smax =
    span rest (if ltb_ℤ s smin then s else smin) (if ltb_ℤ smax s then s else smax)

module _ {D : Type 0} ⦃d : Double D⦄ where
  -- The strip number of a corner, at x in the strip frame.
  unfoldable pub corner_strip : D → D → ℤ
  corner_strip pitch x =
      let q = x ⊘ pitch in if d.round q ⊖ q ≺ decimal (pos 1) 10 then trunc (d.round q) else trunc q

  abbrev pub torad : D
  torad = d.atan (of_ℕ 1) ⊘ of_ℕ 45

module _ {D M : Type 0} ⦃d : Double D⦄ ⦃mx : Matrices D M⦄ where
  unfoldable pub plane_to_strip : GemPlane D M → Vec3 D → Vec3 D
  plane_to_strip p v = record v { x = p.cbs ⊗ v.x ⊖ p.sbs ⊗ v.y; y = p.sbs ⊗ v.x ⊕ p.cbs ⊗ v.y }

  unfoldable pub strip_to_plane : GemPlane D M → Vec3 D → Vec3 D
  strip_to_plane p v = record v {
    x = p.cbs ⊗ v.x ⊕ p.sbs ⊗ v.y;
    y = d.neg p.sbs ⊗ v.x ⊕ p.cbs ⊗ v.y;
  }

  unfoldable pub lab_to_strip : GemPlane D M → Vec3 D → Vec3 D
  lab_to_strip p v = plane_to_strip p (lab_to_box p.box v)

  unfoldable pub strip_to_lab : GemPlane D M → Vec3 D → Vec3 D
  strip_to_lab p v = box_to_lab p.box (strip_to_plane p v)

  unfoldable pub spec_to_strip : GemPlane D M → Vec3 D → Vec3 D
  spec_to_strip p v = plane_to_strip p (spec_to_box p.box v)

  unfoldable pub strip_to_spec : GemPlane D M → Vec3 D → Vec3 D
  strip_to_spec p v = box_to_spec p.box (strip_to_plane p v)

  unfoldable pub get_strip_lower_edge : GemPlane D M → ℕ → D
  get_strip_lower_edge p is = p.s_beg ⊕ of_ℕ is ⊗ p.s_pitch

  unfoldable pub get_strip_upper_edge : GemPlane D M → ℕ → D
  get_strip_upper_edge p is = get_strip_lower_edge p is ⊕ p.s_pitch

  unfoldable pub get_strip_unchecked : GemPlane D M → D → ℤ
  get_strip_unchecked p x = trunc ((x ⊖ p.s_beg) ⊘ p.s_pitch)

  unfoldable pub get_strip_in_range : GemPlane D M → D → ℤ
  get_strip_in_range p x =
      let s = get_strip_unchecked p x in
      let s' = if ltb_ℤ s (pos 0) then pos 0 else s in
      if leb_ℤ p.n_strips s' then p.n_strips -ℤ pos 1 else s'

  unfoldable pub get_strip : GemPlane D M → D → D → ℤ
  get_strip p x yc =
      let c = strip_to_plane p (record { x = x; y = yc; z = of_ℕ 0 }) in
      if not (contains p.box c.x c.y) then negsuc 0 else get_strip_unchecked p x

  unfoldable pub strip_num_to_strip : GemPlane D M → ℤ → D
  strip_num_to_strip p strip = of_ℤ (strip -ℤ get_strip p (of_ℕ 0) (of_ℕ 0)) ⊗ p.s_pitch

  unfoldable pub strip_to_proj : GemPlane D M → D → D
  strip_to_proj p s = s ⊕ p.box.dx ⊘ of_ℕ 2 ⊗ p.cbs

  unfoldable pub strip_num_to_proj : GemPlane D M → ℤ → D
  strip_num_to_proj p s = strip_to_proj p (strip_num_to_strip p s)

  unfoldable pub set_strip_rotations : GemPlane D M → GemPlane D M
  set_strip_rotations p = record p { cbs = d.cos (d.neg p.s_angle); sbs = d.sin (d.neg p.s_angle) }

  -- The four corners' strip numbers.
  unfoldable pub corners : GemPlane D M → List ℤ
  corners p =
      let xs0 = p.box.dx ⊘ of_ℕ 2 in
      let ys0 = p.box.dy ⊘ of_ℕ 2 in
      let at : D → D → ℤ =
        λ x y. corner_strip p.s_pitch (plane_to_strip p (record { x = x; y = y; z = of_ℕ 0 })).x in
      at xs0 ys0 ∷ at xs0 (d.neg ys0) ∷ at (d.neg xs0) ys0 ∷ at (d.neg xs0) (d.neg ys0) ∷ []

  -- The end of ReadGeometry. `(Int_t) 1e-9` is 0.
  unfoldable pub number_strips : GemPlane D M → GemPlane D M
  unfolding span corners
  number_strips p =
      let (smin, smax) = span (corners p) (pos 1000000000) (pos 0) in
      let n = smax -ℤ smin +ℤ pos 1 in
      record p { n_strips = n; s_beg = of_ℤ (pos 0 -ℤ n) ⊗ p.s_pitch ⊗ decimal (pos 5) 1 }

  module _ (load_box : BoxValues D → BoxValues D × ℤ)
      (load_strips : StripValues D → StripValues D × ℤ) where
    -- ReadGeometry behind the box, with the depth so far.
    unfoldable pub read_strips : D → GemPlane D M → GemPlane D M × ℤ
    unfolding number_strips set_strip_rotations
    read_strips depth p =
        let (v, err) =
          load_strips (record { stripangle = p.s_angle; pitch = p.s_pitch; depth = depth }) in
        let loaded = record p { s_angle = v.stripangle; s_pitch = v.pitch } in
        if not (eqb_ℤ err (pos 0))
        then (loaded, err)
        else let turned = set_strip_rotations (record loaded { s_angle = v.stripangle ⊗ torad }) in
          (number_strips (record turned { size = record turned.size { z = v.depth } }), pos 0)

    unfoldable pub read_geometry : Option (Parent D M) → GemPlane D M → GemPlane D M × ℤ
    unfolding read_strips
    read_geometry (some parent) p =
        let b = parent.box in
        read_strips parent.size.z (record p {
          origin = parent.origin;
          size = parent.size;
          box = set_geometry b.dmag b.d0 b.xoffset b.dx b.dy b.theta_v p.box;
        })
    read_geometry none p =
        let unset = of_ℤ (negsuc 998) in
        let (v, err) = load_box (record {
          dmag = unset;
          d0 = unset;
          xoffset = unset;
          dx = unset;
          dy = unset;
          theta_v = unset;
        }) in
        let b = set_geometry v.dmag v.d0 v.xoffset v.dx v.dy (v.theta_v ⊗ torad) p.box in
        if not (eqb_ℤ err (pos 0))
        then (p, err)
        else read_strips unset
            (record p { origin = b.origin; size = record p.size { x = b.dx; y = b.dy }; box = b })

    -- ReadDatabase; `opened` is whether OpenFile finds a file.
    unfoldable pub read_plane :
        (k_file_error k_ok : ℤ) → Bool → Option (Parent D M) → GemPlane D M → GemPlane D M × ℤ
    unfolding read_geometry
    read_plane k_file_error k_ok opened parent p =
        let (placed, err) = read_geometry parent p in
        if not opened
        then (p, k_file_error)
        else if not (eqb_ℤ err (pos 0))
        then (placed, err)
        else (placed, k_ok)
