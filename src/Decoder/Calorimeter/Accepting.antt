-- ===== src/Decoder/Calorimeter/Accepting.antt =====
-- When the calorimeter part of DoLoadEvent ends the decoding.
use libsolgem.Base.{
  ◌>>=◌, ℕ, ℤ, pos, ◌≡◌, refl, sym, ◌∙◌, true, false, inl, inr, Bool-cases, ◌&&◌, ◌⊎◌, Option, some,
  none, List, ◌↔◌, [], ◌∷◌, ◌++◌, All, if◌then◌else◌,
}
use libsolgem.Base.Int.{eqb_ℤ}
use libsolgem.Base.{none_ne_some}
use mathlib.Core.List.{Memᴰ}
use mathlib.Core.List.Memᴰ
use libsolgem.Database.{Manager}
use libsolgem.Double.{Double, ◌⊕◌, ◌⊗◌, ◌≼◌, decimal}
use libsolgem.Readout.{Address}
use libsolgem.SimEvent.{EcalCluster, ScintCluster}
use libsolgem.Decoder.Shower.{Library, Profiles, FitPoint}
use libsolgem.Decoder.Kinematics.{FocalPlane, is_bad_scint, scint_point, scint_points}
use libsolgem.Decoder.Calorimeter.{
  CaloLoop, is_electron, load_place, load_focal_plane, load_bigbite, load_gep, load_calo_cluster,
  load_calorimeter,
}

>>=-total :
    {A B : Type 0} {m : Option A} {f : A → Option B}
    → (a : A) × (m ≡ some a)
    → ((a : A) → (b : B) × (f a ≡ some b))
    → (b : B) × ((m >>= f) ≡ some b)
>>=-total (a, e) total = let (b, e') = total a in (b, rw e e')

module _ {D : Type 0} ⦃d : Double D⦄ (lib : Library D) (unset : D) (fManager : Manager D)
    (C : Type 0) (load_hit : C → Address → ℤ → ℤ → Option C)
    (accepts : (c : C) (a : Address) (x y : ℤ) → (c' : C) × (load_hit c a x y ≡ some c'))
    (profx profy : Profiles D) (vertex_z : D) where
  scint_points_good :
      (cs : List (ScintCluster D)) (points : List (FitPoint D))
      → All (λ (c : ScintCluster D). is_bad_scint lib unset fManager c ≡ false) cs
      → (found : List (FitPoint D)) × (scint_points lib unset fManager cs points ≡ some found)
  unfolding scint_points
  scint_points_good [] points good = (points, refl)
  scint_points_good (c ∷ cs) points (g, good) =
      let (found, e) =
        scint_points_good cs (points ++ scint_point lib unset fManager c ∷ []) good in
      (found, rw g e)

  scint_points_bad :
      (c : ScintCluster D) (cs : List (ScintCluster D)) (points : List (FitPoint D))
      → Memᴰ c cs
      → is_bad_scint lib unset fManager c ≡ true
      → scint_points lib unset fManager cs points ≡ none
  unfolding scint_points
  scint_points_bad c [] points m bad = absurd (Memᴰ.not-nil m)
  scint_points_bad c (x ∷ cs) points (Memᴰ.head e) bad = rw (← e, bad) refl
  scint_points_bad c (x ∷ cs) points (Memᴰ.tail m) bad =
      elim (Bool-cases (is_bad_scint lib unset fManager x)) [
        | inl b ↦ rw b refl
        | inr g ↦
            rw g (scint_points_bad c cs (points ++ scint_point lib unset fManager x ∷ []) m bad)
      ]

  scints_cases :
      (cs : List (ScintCluster D))
      → All (λ (c : ScintCluster D). is_bad_scint lib unset fManager c ≡ false) cs
        ⊎ (c : ScintCluster D) × Memᴰ c cs × (is_bad_scint lib unset fManager c ≡ true)
  scints_cases [] = inl tt
  scints_cases (x ∷ cs) = elim (Bool-cases (is_bad_scint lib unset fManager x)) [
    | inl b ↦ inr (x, Memᴰ.head refl, b)
    | inr g ↦ elim (scints_cases cs) [
      | inl good ↦ inl (g, good)
      | inr (c, m, b) ↦ inr (c, Memᴰ.tail m, b)
    ]
  ]

  load_place_total :
      (crate slot chan : ℕ) (x y : D) (c : C)
      → (c' : C) × (load_place lib unset fManager C load_hit crate slot chan x y c ≡ some c')
  unfolding load_place
  load_place_total crate slot chan x y c = accepts c _ _ _

  load_focal_plane_total :
      (f : FocalPlane D) (c : C)
      → (c' : C) × (load_focal_plane lib unset fManager C load_hit f c ≡ some c')
  unfolding load_focal_plane
  load_focal_plane_total f c =
      let x2 = f.x ⊕ decimal (pos 48191) 5 ⊗ f.xp in
      let y2 = f.y ⊕ decimal (pos 48191) 5 ⊗ f.yp in
      >>=-total
        (>>=-total (>>=-total (load_place_total 4 0 0 f.x f.y c) (load_place_total 4 0 1 f.x f.y))
          (load_place_total 4 0 2 x2 y2))
        (load_place_total 4 0 3 x2 y2)

  load_bigbite_total :
      (e : EcalCluster D) (s : CaloLoop C D)
      → (t : CaloLoop C D) × (load_bigbite lib unset fManager C load_hit e s ≡ some t)
  unfolding load_bigbite
  load_bigbite_total e s =
      >>=-total
        (>>=-total (load_place_total 2 0 0 e.x_pos e.y_pos s.slots)
          (load_place_total 2 1 0 e.x_pos e.y_pos))
        (λ slots. (record s { slots = slots }, refl))

  -- Only a hit of the coordinate detector that is not one ends an electron's part.
  load_gep_cases :
      (scints : List (ScintCluster D)) (e : EcalCluster D) (s : CaloLoop C D)
      → ((t : CaloLoop C D) × (load_gep lib unset fManager C load_hit profx profy vertex_z scints e
              s
            ≡ some t))
        ⊎ (c : ScintCluster D) × Memᴰ c scints × (is_bad_scint lib unset fManager c ≡ true)
  unfolding load_gep
  load_gep_cases scints e s = elim (scints_cases scints) [
    | inl good ↦ inl (
        >>=-total (scint_points_good scints _ good)
          (λ found. >>=-total (load_focal_plane_total _ _) (λ slots. (_, refl))))
    | inr bad ↦ inr bad
  ]

  load_gep_bad :
      (scints : List (ScintCluster D)) (e : EcalCluster D) (s : CaloLoop C D) (c : ScintCluster D)
      → Memᴰ c scints
      → is_bad_scint lib unset fManager c ≡ true
      → load_gep lib unset fManager C load_hit profx profy vertex_z scints e s ≡ none
  unfolding load_gep
  load_gep_bad scints e s c m bad = rw (scint_points_bad c scints _ m bad) refl

  bigbite_part_total :
      (e : EcalCluster D) (s : CaloLoop C D)
      → (t : CaloLoop C D) × ((if eqb_ℤ e.det_flag (pos 10) && fManager.calo_thr ≼ e.energy
            then load_bigbite lib unset fManager C load_hit e s
            else some s)
          ≡ some t)
  bigbite_part_total e s =
      elim (Bool-cases (eqb_ℤ e.det_flag (pos 10) && fManager.calo_thr ≼ e.energy)) [
        | inl h ↦ rw h (load_bigbite_total e s)
        | inr h ↦ rw h (s, refl)
      ]

  load_calo_cluster_cases :
      (scints : List (ScintCluster D)) (e : EcalCluster D) (s : CaloLoop C D)
      → ((t : CaloLoop C D) × (load_calo_cluster lib unset fManager C load_hit profx profy vertex_z
              scints e s
            ≡ some t))
        ⊎ (is_electron lib unset fManager e ≡ true)
          × (c : ScintCluster D) × Memᴰ c scints
          × (is_bad_scint lib unset fManager c ≡ true)
  unfolding load_calo_cluster
  load_calo_cluster_cases scints e s =
      let (t, first) = bigbite_part_total e s in
      elim (Bool-cases (is_electron lib unset fManager e)) [
        | inl h ↦ elim (load_gep_cases scints e t) [
          | inl done ↦ inl (rw (first, h) done)
          | inr (c, m, bad) ↦ inr (h, c, m, bad)
        ]
        | inr h ↦ inl (t, rw (first, h) refl)
      ]

  load_calo_cluster_bad :
      (scints : List (ScintCluster D)) (e : EcalCluster D) (s : CaloLoop C D) (c : ScintCluster D)
      → is_electron lib unset fManager e ≡ true
      → Memᴰ c scints
      → is_bad_scint lib unset fManager c ≡ true
      → load_calo_cluster lib unset fManager C load_hit profx profy vertex_z scints e s ≡ none
  unfolding load_calo_cluster
  load_calo_cluster_bad scints e s c h m bad =
      let (t, first) = bigbite_part_total e s in rw (first, h) (load_gep_bad scints e t c m bad)

  load_calorimeter_cases :
      (scints : List (ScintCluster D)) (es : List (EcalCluster D)) (s : CaloLoop C D)
      → ((t : CaloLoop C D) × (load_calorimeter lib unset fManager C load_hit profx profy vertex_z
              scints es s
            ≡ some t))
        ⊎ (e : EcalCluster D) × Memᴰ e es
          × (is_electron lib unset fManager e ≡ true)
          × (c : ScintCluster D) × Memᴰ c scints
          × (is_bad_scint lib unset fManager c ≡ true)
  unfolding load_calorimeter
  load_calorimeter_cases scints [] s = inl (s, refl)
  load_calorimeter_cases scints (e ∷ es) s = elim (load_calo_cluster_cases scints e s) [
    | inl (t, first) ↦ elim (load_calorimeter_cases scints es t) [
      | inl (u, last) ↦ inl (u, rw first last)
      | inr (e', m, h, c, mc, bad) ↦ inr (e', Memᴰ.tail m, h, c, mc, bad)
    ]
    | inr (h, c, mc, bad) ↦ inr (e, Memᴰ.head refl, h, c, mc, bad)
  ]

  load_calorimeter_bad :
      (scints : List (ScintCluster D)) (es : List (EcalCluster D)) (s : CaloLoop C D)
      (e : EcalCluster D) (c : ScintCluster D)
      → Memᴰ e es
      → is_electron lib unset fManager e ≡ true
      → Memᴰ c scints
      → is_bad_scint lib unset fManager c ≡ true
      → load_calorimeter lib unset fManager C load_hit profx profy vertex_z scints es s ≡ none
  unfolding load_calorimeter
  load_calorimeter_bad scints [] s e c m h mc bad = absurd (Memᴰ.not-nil m)
  load_calorimeter_bad scints (x ∷ es) s e c (Memᴰ.head p) h mc bad =
      rw (← p, load_calo_cluster_bad scints e s c h mc bad) refl
  load_calorimeter_bad scints (x ∷ es) s e c (Memᴰ.tail m) h mc bad =
      elim (load_calo_cluster_cases scints x s) [
        | inl (t, first) ↦ rw first (load_calorimeter_bad scints es t e c m h mc bad)
        | inr (h', c', m', bad') ↦ rw (load_calo_cluster_bad scints x s c' h' m' bad') refl
      ]

  -- Where the readout accepts every hit, the calorimeter part returns HED_ERR exactly when some cluster
  -- is an electron's and some entry of the coordinate detector has another flag or no energy.
  pub load_calorimeter_fails :
      (scints : List (ScintCluster D)) (es : List (EcalCluster D)) (s : CaloLoop C D)
      → (load_calorimeter lib unset fManager C load_hit profx profy vertex_z scints es s ≡ none)
        ↔ (e : EcalCluster D) × Memᴰ e es
          × (is_electron lib unset fManager e ≡ true)
          × (c : ScintCluster D) × Memᴰ c scints
          × (is_bad_scint lib unset fManager c ≡ true)
  load_calorimeter_fails scints es s = (
    λ failed. elim (load_calorimeter_cases scints es s) [
      | inl (t, done) ↦ absurd (none_ne_some (sym failed ∙ done))
      | inr bad ↦ bad
    ],
    λ (e, m, h, c, mc, bad). load_calorimeter_bad scints es s e c m h mc bad,
  )
