-- ===== src/Decoder/Profiles/Complete.antt =====
-- The profiles that load_shower_profiles reads are long enough for Calc_Shower_Coordinates.
use libsolgem.Base.{
  ℕ, zero, suc, ◌+◌, ◌<◌, ◌≤◌, ℤ, pos, negsuc, ◌⊎◌, none, some, ap, ◌≡◌, refl, inl, inr, true,
  false, Bool-cases, ◌&&◌, List, [], ◌∷◌, ◌++◌, All, length, get_or, arith,
}
use libsolgem.Base.Int.{◌+ℤ◌, ◌-ℤ◌, ltb_ℤ, leb_ℤ, pos_part, ◌<ℤ◌}
use libsolgem.Double.{Double, ◌⊖◌, ◌⊗◌, ◌⊘◌, of_ℤ, of_ℕ, trunc}
use libsolgem.Database.Load.{Streams}
use libsolgem.Decoder.Shower.{
  Library, ShowerProfile, Profiles, profile_at, shower_place, calc_shower_coordinates,
}
use libsolgem.Decoder.Profiles.{
  Texts, resized, profile_title, default_title, bin_title, found_or_end, read_header, read_bins,
  read_profile, read_profiles, load_profiles, load_shower_profiles,
}

All-get_or :
    {A : Type 0} (P : A → Type 0) (xs : List A) (i : ℕ) (x : A) → All P xs → P x → P (get_or xs i x)
All-get_or P [] i x ps p = p
All-get_or P (y ∷ xs) zero x (q, ps) p = q
All-get_or P (y ∷ xs) (suc i) x (q, ps) p = All-get_or P xs i x ps p

-- The bin behind the last one has a fraction too.
bin_inside :
    (n bin : ℤ) (len : ℕ)
    → ltb_ℤ bin (pos 0) ≡ false
    → ltb_ℤ bin n ≡ true
    → len ≡ pos_part (n +ℤ pos 1)
    → pos_part bin + 1 < len
unfolding ◌+ℤ◌
bin_inside n bin len from within has = ground arith

module _ {D : Type 0} where
  -- There is a fraction at both ends of each bin.
  abbrev pub HasFractions : ShowerProfile D → Type 0
  HasFractions q = length q.frac ≡ pos_part (q.nbins_mom +ℤ pos 1)

  -- The coordinate counts its profiles, which have the fractions of their bins.
  pub record IsComplete (p : Profiles D) : Type 0 where
    pub bins : pos (length p.prof) ≡ p.nbins
    pub fractions : All HasFractions p.prof
    pub default_fractions : HasFractions p.default_

  get_or-inside : (xs : List D) (i : ℕ) (x y : D) → i < length xs → get_or xs i x ≡ get_or xs i y
  get_or-inside [] i x y lt = absurd (omega arith)
  get_or-inside (z ∷ xs) zero x y lt = refl
  get_or-inside (z ∷ xs) (suc i) x y lt = get_or-inside xs i x y (omega arith)

module _ {S D : Type 0} (io : Streams S D) (str : Texts) where
  length-read_bins : (n : ℕ) (s : S) → length (read_bins io str n s) ≡ n
  unfolding read_bins
  length-read_bins zero s = refl
  length-read_bins (suc n) s = omega (arith, length-read_bins n (io.read_double s).1)

  -- The number of bins of a profile is negative, also with the one more fraction.
  abbrev pub NoSize : List ℕ → List ℕ → Type 0
  NoSize text title = ltb_ℤ ((read_header io str text title).nbins +ℤ pos 1) (pos 0) ≡ true

  -- A vector for the profiles of the coordinate `x` would get a negative size.
  abbrev pub Throws : ℕ → List ℕ → Type 0
  Throws x text =
      let n = (read_header io str text (profile_title io str ++ b's' ∷ b'_' ∷ x ∷ [])).nbins in
      NoSize text (default_title io str x)
      ⊎ (ltb_ℤ n (pos 0) ≡ true)
      ⊎ (bin : ℕ) × (pos bin <ℤ n) × NoSize text (bin_title io str x ++ str.show (bin + 1))

  read_profile_cases :
      (text title next : List ℕ)
      → (NoSize text title × (read_profile io str text title next ≡ none))
        ⊎ ((q : ShowerProfile D) × (read_profile io str text title next ≡ some q) × HasFractions q)
  unfolding read_profile resized
  read_profile_cases text title next =
      let h = read_header io str text title in
      let stop = found_or_end io str text (str.index text next h.stop) in
      let s = io.stream (str.part text (h.stop +ℤ pos 1) (stop -ℤ h.stop -ℤ pos 1)) in
      let n = pos_part (h.nbins +ℤ pos 1) in
      let q : ShowerProfile D = record {
        nbins_mom = h.nbins;
        xmin = h.xmin;
        xmax = h.xmax;
        frac = read_bins io str n s;
      } in
      elim (Bool-cases (ltb_ℤ (h.nbins +ℤ pos 1) (pos 0))) [
        | inl negative ↦ inl (negative, rw negative refl)
        | inr size ↦ inr (q, rw size refl, length-read_bins n s)
      ]

  read_profiles_cases :
      (text title : List ℕ) (left bin : ℕ)
      → ((k : ℕ) × (bin ≤ k)
          × (k < bin + left)
          × NoSize text (title ++ str.show (k + 1))
          × (read_profiles io str text title left bin ≡ none))
        ⊎ ((qs : List (ShowerProfile D)) × (read_profiles io str text title left bin ≡ some qs)
            × (length qs ≡ left)
            × All HasFractions qs)
  unfolding read_profiles
  read_profiles_cases text title zero bin = inr ([], refl, refl, tt)
  read_profiles_cases text title (suc left) bin =
      elim (read_profile_cases text (title ++ str.show (bin + 1))
        (b'E' ∷ b'C' ∷ b'A' ∷ b'L' ∷ [])) [
          | inl (negative, thrown) ↦ inl (bin, omega arith, omega arith, negative, rw thrown refl)
          | inr (q, read, fractions) ↦ elim (read_profiles_cases text title left (bin + 1)) [
            | inl (k, lo, hi, negative, thrown) ↦
                inl (k, omega (arith, lo), omega (arith, hi), negative, rw (read, thrown) refl)
            | inr (qs, rest, count, all) ↦
                inr (q ∷ qs, rw (read, rest) refl, omega (arith, count), (fractions, all))
          ]
        ]

  -- The profiles of a coordinate are complete, or a negative size is thrown for.
  load_profiles_cases :
      (x : ℕ) (text : List ℕ)
      → (Throws x text × (load_profiles io str x text ≡ none))
        ⊎ ((p : Profiles D) × (load_profiles io str x text ≡ some p) × IsComplete p)
  unfolding load_profiles resized
  load_profiles_cases x text =
      let h = read_header io str text (profile_title io str ++ b's' ∷ b'_' ∷ x ∷ []) in
      let n = h.nbins in
      elim (read_profile_cases text (default_title io str x) (profile_title io str)) [
        | inl (negative, thrown) ↦ inl (inl negative, rw thrown refl)
        | inr (q, read, fractions) ↦ elim (Bool-cases (ltb_ℤ n (pos 0))) [
          | inl negative ↦ inl (inr (inl negative), rw (read, negative) refl)
          | inr size ↦ elim (read_profiles_cases text (bin_title io str x) (pos_part n) 0) [
            | inl (k, lo, hi, negative, thrown) ↦
                inl
                  (inr (inr (k, ground (arith, hi, size), negative)), rw (read, size, thrown) refl)
            | inr (qs, rest, count, all) ↦ inr (
              record { default_ = q; nbins = n; xmin = h.xmin; xmax = h.xmax; prof = qs },
              rw (read, size, rest) refl,
              record {
                bins = whole n size (length qs) count;
                fractions = all;
                default_fractions = fractions;
              },
            )
          ]
        ]
      ]
    where
      whole : (n : ℤ) → ltb_ℤ n (pos 0) ≡ false → (k : ℕ) → k ≡ pos_part n → pos k ≡ n
      whole (pos n) size k e = ap pos e
      whole (negsuc n) size k e = ground arith

module _ {D : Type 0} ⦃d : Double D⦄ (lib : Library D) (u v : D) where
  profile_at-HasFractions :
      (p : Profiles D) (place : D) → IsComplete p → HasFractions (profile_at lib u p place)
  unfolding profile_at
  profile_at-HasFractions p place c =
      let bin = trunc ((of_ℕ 100 ⊗ place ⊖ p.xmin) ⊘ (p.xmax ⊖ p.xmin) ⊗ of_ℤ p.nbins) in
      elim (Bool-cases (leb_ℤ (pos 0) bin && ltb_ℤ bin p.nbins)) [
        | inl inside ↦ rw inside (
            All-get_or HasFractions p.prof (pos_part bin) p.default_ c.fractions
              c.default_fractions)
        | inr outside ↦ rw outside c.default_fractions
      ]

  shower_place-inside :
      (p : ShowerProfile D) (mom largest : D)
      → HasFractions p
      → shower_place lib u p mom largest ≡ shower_place lib v p mom largest
  unfolding shower_place
  shower_place-inside p mom largest has =
      let bin = trunc ((mom ⊖ p.xmin) ⊘ (p.xmax ⊖ p.xmin) ⊗ of_ℤ p.nbins_mom) in
      elim (Bool-cases (ltb_ℤ bin (pos 0))) [
        | inl before ↦ rw before refl
        | inr from ↦ elim (Bool-cases (ltb_ℤ bin p.nbins_mom)) [
          | inr behind ↦ rw (from, behind) refl
          | inl within ↦
              let here = bin_inside p.nbins_mom bin (length p.frac) from within has in
              let low = get_or-inside p.frac (pos_part bin) u v (omega (arith, here)) in
              let high = get_or-inside p.frac (pos_part bin + 1) u v here in
              rw (from, within, low, high) refl
        ]
      ]

module _ {S D : Type 0} ⦃d : Double D⦄ (io : Streams S D) (str : Texts) (lib : Library D) where
  -- load_shower_profiles throws, and then a vector would get a negative size: the number of the
  -- profiles of a coordinate is negative, or the number of bins of its default profile or of one of
  -- its profiles is less than -1. Or it makes as many profiles for each coordinate as it counts, and
  -- with these profiles Calc_Shower_Coordinates reads no fraction out of range: the place does not
  -- depend on what such a read would give.
  pub calc_shower_coordinates-load_shower_profiles :
      (text : List ℕ) (xmom ymom xmax ymax eclust rcal u v : D)
      → ((Throws io str b'x' text ⊎ Throws io str b'y' text)
          × (load_shower_profiles io str text ≡ none))
        ⊎ ((px py : Profiles D) × (load_shower_profiles io str text ≡ some (px, py))
            × (pos (length px.prof) ≡ px.nbins)
            × (pos (length py.prof) ≡ py.nbins)
            × (calc_shower_coordinates lib u px py xmom ymom xmax ymax eclust rcal
                ≡ calc_shower_coordinates lib v px py xmom ymom xmax ymax eclust rcal))
  unfolding calc_shower_coordinates load_shower_profiles
  calc_shower_coordinates-load_shower_profiles text xmom ymom xmax ymax eclust rcal u v =
      elim (load_profiles_cases io str b'x' text) [
        | inl (throws, thrown) ↦ inl (inl throws, rw thrown refl)
        | inr (px, read_x, cx) ↦ elim (load_profiles_cases io str b'y' text) [
          | inl (throws, thrown) ↦ inl (inr throws, rw (read_x, thrown) refl)
          | inr (py, read_y, cy) ↦
              let x =
                shower_place-inside lib u v (profile_at lib u px xmax) xmom xmax
                  (profile_at-HasFractions lib u v px xmax cx) in
              let y =
                shower_place-inside lib u v (profile_at lib u py ymax) ymom ymax
                  (profile_at-HasFractions lib u v py ymax cy) in
              inr (px, py, rw (read_x, read_y) refl, cx.bins, cy.bins, rw (x, y) refl)
        ]
      ]
