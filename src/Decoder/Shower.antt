-- ===== src/Decoder/Shower.antt =====
-- The electron's place in the calorimeter, in src/TSBSSimDecoder.cxx: Calc_Shower_Coordinates,
-- find_vertex_bin and Fit_3D_Track. The profiles are those that load_shower_profiles reads. A read of a
-- vector out of range gives `unset`.
use libsolgem.Base.{
  ℕ, zero, suc, ◌+◌, ℤ, pos, Bool, ◌&&◌, List, [], ◌∷◌, length, get_or, ltb, if◌then◌else◌,
}
use libsolgem.Base.Int.{ltb_ℤ, leb_ℤ, pos_part}
use libsolgem.Double.{Double, ◌⊕◌, ◌⊖◌, ◌⊗◌, ◌⊘◌, ◌≼◌, of_ℤ, of_ℕ, decimal, trunc, greater}
use libsolgem.SimEvent.{Vec3}

-- What the code calls of <cmath>, TVector3, TMatrixD and TVectorD; `invert_times` is A.Invert() * b for
-- the rows of A, and `float_bits` the Int_t with the bits of a Float_t.
pub record Library (D : Type 0) : Type 0 where
  pub power : D → D → D
  pub log : D → D
  pub acos : D → D
  pub asin : D → D
  pub atan2 : D → D → D
  pub pi : D
  pub deg_to_rad : D
  pub dot : Vec3 D → Vec3 D → D
  pub cross : Vec3 D → Vec3 D → Vec3 D
  pub unit : Vec3 D → Vec3 D
  pub vec_add : Vec3 D → Vec3 D → Vec3 D
  pub vec_scale : D → Vec3 D → Vec3 D
  pub invert_times : List (List D) → List D → List D
  pub float_bits : D → ℤ

-- shower_profile_t
pub record ShowerProfile (D : Type 0) : Type 0 where
  pub nbins_mom : ℤ
  pub xmin : D
  pub xmax : D
  pub frac : List D

-- The profiles of one coordinate.
pub record Profiles (D : Type 0) : Type 0 where
  pub default_ : ShowerProfile D
  pub nbins : ℤ
  pub xmin : D
  pub xmax : D
  pub prof : List (ShowerProfile D)

pub record CaloPlace (D : Type 0) : Type 0 where
  pub x : D
  pub y : D

-- A point of the fit, with its weights.
pub record FitPoint (D : Type 0) : Type 0 where
  pub x : D
  pub y : D
  pub z : D
  pub wx : D
  pub wy : D

-- The straight line X + Xp * z, Y + Yp * z.
pub record FitTrack (D : Type 0) : Type 0 where
  pub x : D
  pub y : D
  pub xp : D
  pub yp : D

-- The sums of the fit that are not 0 at once; A is symmetric.
pub record FitSums (D : Type 0) : Type 0 where
  pub b0 : D
  pub b1 : D
  pub b2 : D
  pub b3 : D
  pub a00 : D
  pub a02 : D
  pub a11 : D
  pub a13 : D
  pub a22 : D
  pub a33 : D

module _ {D : Type 0} ⦃d : Double D⦄ (lib : Library D) (unset : D) where
  -- ECAL_max_cell_size
  abbrev pub cell_size : D
  cell_size = decimal (pos 42) 3

  -- The profile of the bin that the place of the largest deposit lies in.
  unfoldable pub profile_at : Profiles D → D → ShowerProfile D
  profile_at p place =
      let bin = trunc ((of_ℕ 100 ⊗ place ⊖ p.xmin) ⊘ (p.xmax ⊖ p.xmin) ⊗ of_ℤ p.nbins) in
      if leb_ℤ (pos 0) bin && ltb_ℤ bin p.nbins
      then get_or p.prof (pos_part bin) p.default_
      else p.default_

  -- The coordinate, by linear interpolation within the bin of the moment.
  unfoldable pub shower_place : ShowerProfile D → D → D → D
  shower_place p mom largest =
      let binmom = trunc ((mom ⊖ p.xmin) ⊘ (p.xmax ⊖ p.xmin) ⊗ of_ℤ p.nbins_mom) in
      let binwidth = (p.xmax ⊖ p.xmin) ⊘ of_ℤ p.nbins_mom in
      let flo = get_or p.frac (pos_part binmom) unset in
      let fhi = get_or p.frac (pos_part binmom + 1) unset in
      let low = p.xmin ⊕ of_ℤ binmom ⊗ binwidth in
      let f = flo ⊕ (fhi ⊖ flo) ⊗ (mom ⊖ low) ⊘ binwidth in
      if ltb_ℤ binmom (pos 0)
      then largest ⊖ decimal (pos 5) 1 ⊗ cell_size
      else if ltb_ℤ binmom p.nbins_mom
      then largest ⊕ (f ⊖ decimal (pos 5) 1) ⊗ cell_size
      else largest ⊕ decimal (pos 5) 1 ⊗ cell_size

  unfoldable pub calc_shower_coordinates :
      (profx profy : Profiles D) (xmom ymom xmax ymax eclust rcal : D) → CaloPlace D
  unfolding profile_at shower_place
  calc_shower_coordinates profx profy xmom ymom xmax ymax eclust rcal =
      let tmax =
        greater (of_ℕ 0)
          (decimal (pos 274) 4 ⊗ (lib.log (eclust ⊘ decimal (pos 15) 3) ⊖ decimal (pos 5) 1)) in
      let xclust = shower_place (profile_at profx xmax) xmom xmax in
      let yclust = shower_place (profile_at profy ymax) ymom ymax in
      let xptemp = xclust ⊘ rcal in
      let yptemp = yclust ⊘ rcal in
      let dz = tmax ⊘ d.sqrt (of_ℕ 1 ⊕ lib.power xptemp (of_ℕ 2) ⊕ lib.power yptemp (of_ℕ 2)) in
      record { x = xclust ⊖ dz ⊗ xptemp; y = yclust ⊖ dz ⊗ yptemp }

  -- vz_bin_width
  abbrev pub vz_bin_width : D
  vz_bin_width = of_ℕ 3 ⊗ decimal (pos 64) 4

  unfoldable pub in_vertex_bin : D → D → ℕ → Bool
  in_vertex_bin minbin vz i =
      minbin ⊕ of_ℕ i ⊗ vz_bin_width ≼ vz && vz ≼ minbin ⊕ of_ℕ (i + 1) ⊗ vz_bin_width

  -- The loop over the bins from bin `i`, with `left` to go.
  unfoldable pub scan_vertex_bins : D → D → ℕ → ℕ → D
  scan_vertex_bins minbin vz zero i = vz
  scan_vertex_bins minbin vz (suc left) i =
      let later = scan_vertex_bins minbin vz left (i + 1) in
      if in_vertex_bin minbin vz i
      then minbin ⊕ (of_ℕ i ⊕ decimal (pos 5) 1) ⊗ vz_bin_width
      else later

  unfoldable pub find_vertex_bin : D → D
  find_vertex_bin vz_true =
      let ntgtbins = trunc (d.ceil (decimal (pos 4) 1 ⊘ vz_bin_width)) in
      let minbin = d.neg vz_bin_width ⊗ of_ℤ ntgtbins ⊘ of_ℕ 2 in
      scan_vertex_bins minbin vz_true (pos_part ntgtbins) 0

  abbrev pub no_sums : FitSums D
  no_sums = record {
    b0 = of_ℕ 0;
    b1 = of_ℕ 0;
    b2 = of_ℕ 0;
    b3 = of_ℕ 0;
    a00 = of_ℕ 0;
    a02 = of_ℕ 0;
    a11 = of_ℕ 0;
    a13 = of_ℕ 0;
    a22 = of_ℕ 0;
    a33 = of_ℕ 0;
  }

  unfoldable pub add_point : FitPoint D → FitSums D → FitSums D
  add_point p s = record {
    b0 = s.b0 ⊕ p.wx ⊗ p.x;
    b1 = s.b1 ⊕ p.wy ⊗ p.y;
    b2 = s.b2 ⊕ p.wx ⊗ p.x ⊗ p.z;
    b3 = s.b3 ⊕ p.wy ⊗ p.y ⊗ p.z;
    a00 = s.a00 ⊕ p.wx;
    a02 = s.a02 ⊕ p.wx ⊗ p.z;
    a11 = s.a11 ⊕ p.wy;
    a13 = s.a13 ⊕ p.wy ⊗ p.z;
    a22 = s.a22 ⊕ p.wx ⊗ lib.power p.z (of_ℕ 2);
    a33 = s.a33 ⊕ p.wy ⊗ lib.power p.z (of_ℕ 2);
  }

  unfoldable pub fit_sums : List (FitPoint D) → FitSums D → FitSums D
  fit_sums [] s = s
  fit_sums (p ∷ rest) s = fit_sums rest (add_point p s)

  -- With fewer than two points the arguments stand.
  unfoldable pub fit_3d_track : List (FitPoint D) → FitTrack D → FitTrack D
  unfolding fit_sums
  fit_3d_track points old =
      let s = fit_sums points no_sums in
      let o : D = of_ℕ 0 in
      let rows =
        (s.a00 ∷ o ∷ s.a02 ∷ o ∷ [])
        ∷ (o ∷ s.a11 ∷ o ∷ s.a13 ∷ [])
        ∷ (s.a02 ∷ o ∷ s.a22 ∷ o ∷ [])
        ∷ (o ∷ s.a13 ∷ o ∷ s.a33 ∷ [])
        ∷ [] in
      let solution = lib.invert_times rows (s.b0 ∷ s.b1 ∷ s.b2 ∷ s.b3 ∷ []) in
      if ltb (length points) 2 then old else record {
        x = get_or solution 0 unset;
        y = get_or solution 1 unset;
        xp = get_or solution 2 unset;
        yp = get_or solution 3 unset;
      }
