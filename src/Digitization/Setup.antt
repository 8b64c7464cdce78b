-- ===== src/Digitization/Setup.antt =====
-- ReadDatabase of src/TSBSSimGEMDigitization.cxx, and what the constructor does with it. OpenFile and
-- LoadDB of the analyzer are parameters: a file, if there is one, and the settings that are loaded from
-- it over those there are, with the trigger offsets and whether there was an error.
use mathlib.Core.Path.{subst}
use mathlib.Core.Option.{some-injective}
use libsolgem.Base.{
  ◌>>=◌, ap, >>=-eq-some, ℕ, ◌≡◌, ◌≢◌, inl, inr, ◌∙◌, refl, ◌⊎◌, pos, Bool, ◌||◌, Option, none,
  some, List, [], ◌∷◌, ◌++◌, length, ◌==◌, if◌then◌else◌, arith,
}
use libsolgem.Base.Int.{ltb_ℤ, ◌≤ℤ◌}
use libsolgem.Double.{Double, of_ℕ}
use libsolgem.HitData.{resize}
use libsolgem.HitData.Hits.{length-resize}
use libsolgem.SimAuxi.{max_adc_bits}
use libsolgem.Digitization.{Settings}

pub data ReadStatus : Type 0 where
  k_ok k_file_error k_init_error : ReadStatus

pub record Loaded (D : Type 0) : Type 0 where
  pub settings : Settings D
  pub offset : List D
  pub has_error : Bool

module _ {D : Type 0} ⦃d : Double D⦄ where
  -- The checks behind LoadDB.
  unfoldable pub check_settings : Settings D → Settings D × ReadStatus
  check_settings s =
      let sized =
        if ltb_ℤ s.ele_sampling_points (pos 0) || ltb_ℤ (pos 10) s.ele_sampling_points
        then record s { ele_sampling_points = pos 10 }
        else s in
      if ltb_ℤ s.adc_bits (pos 1) || ltb_ℤ (pos max_adc_bits) s.adc_bits
      then (sized, k_init_error)
      else (record sized { avalanche_fiducial_band = d.abs sized.avalanche_fiducial_band }, k_ok)

  -- Behind LoadDB: the trigger offsets of the file come behind those that are there. `none` is the
  -- assertion on their number.
  unfoldable pub take_offsets : ℕ → Loaded D → Option (Settings D × ReadStatus)
  unfolding check_settings
  take_offsets n_chamber l =
      let s = record l.settings { trigger_offset = l.settings.trigger_offset ++ l.offset } in
      if l.has_error
      then some (l.settings, k_init_error)
      else if length l.offset == n_chamber
      then some (check_settings s)
      else none

  module _ {F : Type 0} (load : F → Settings D → Loaded D) where
    unfoldable pub read_settings : Option F → ℕ → Settings D → Option (Settings D × ReadStatus)
    unfolding take_offsets
    read_settings none n_chamber s = some (s, k_file_error)
    read_settings (some file) n_chamber s = take_offsets n_chamber (load file s)

    -- The constructor: Init, whose result is not looked at, and the size of fTriggerOffset.
    unfoldable pub set_up : Option F → ℕ → Settings D → Option (Settings D × ReadStatus)
    unfolding read_settings
    set_up file n_chamber s = read_settings file n_chamber s >>= λ (t, r).
        some (record t { trigger_offset = resize (of_ℕ 0) n_chamber t.trigger_offset }, r)

  -- The numbers that the digitization counts with are in range.
  pub record IsChecked (s : Settings D) : Type 0 where
    pub points_ge : pos 0 ≤ℤ s.ele_sampling_points
    pub points_le : s.ele_sampling_points ≤ℤ pos 10
    pub bits_ge : pos 1 ≤ℤ s.adc_bits
    pub bits_le : s.adc_bits ≤ℤ pos max_adc_bits

  check_settings-IsChecked :
      (s : Settings D)
      → (check_settings s).1 ≡ k_ok
      → IsChecked (check_settings s).0 × ((check_settings s).0.trigger_offset ≡ s.trigger_offset)
  unfolding check_settings
  check_settings-IsChecked s e = ground arith

resize-length : {A : Type 0} (a : A) (xs : List A) → resize a (length xs) xs ≡ xs
unfolding resize
resize-length a [] = refl
resize-length a (x ∷ xs) = ap (λ (ys : List _). x ∷ ys) (resize-length a xs)

module _ {D : Type 0} ⦃d : Double D⦄ {F : Type 0} (load : F → Settings D → Loaded D) where
  take_offsets-ok :
      (n : ℕ) (l : Loaded D) (t : Settings D)
      → take_offsets n l ≡ some (t, k_ok)
      → IsChecked t
        × (t.trigger_offset ≡ l.settings.trigger_offset ++ l.offset)
        × (length l.offset ≡ n)
  unfolding take_offsets
  take_offsets-ok n l t e =
      let s : Settings D = record l.settings {
        trigger_offset = l.settings.trigger_offset ++ l.offset;
      } in
      let ok : (check_settings s ≡ (t, k_ok)) × (length l.offset ≡ n) = ground arith in
      let ready = check_settings-IsChecked s (ap (λ (x : Settings D × ReadStatus). x.1) ok.0) in
      let same = ap (λ (x : Settings D × ReadStatus). x.0) ok.0 in
      (rw same at ready.0, rw same at ready.1, ok.1)

  abbrev sized : ℕ → Settings D × ReadStatus → Settings D × ReadStatus
  sized n (u, r) = (record u { trigger_offset = resize (of_ℕ 0) n u.trigger_offset }, r)

  -- What a successful reading leaves behind.
  abbrev pub IsReady : Option F → Settings D → Settings D × ReadStatus → Type 0
  IsReady file s (t, r) =
      (r ≢ k_ok)
      ⊎ (IsChecked t × (f : F) × (file ≡ some f) × (t.trigger_offset ≡ (load f s).offset))

  read_ok-IsReady :
      (f : F) (n : ℕ) (s u : Settings D)
      → (load f s).settings.trigger_offset ≡ []
      → take_offsets n (load f s) ≡ some (u, k_ok)
      → IsReady (some f) s (sized n (u, k_ok))
  read_ok-IsReady f n s u kept h =
      let l = load f s in
      let (checked, offsets, counted) = take_offsets-ok n l u h in
      let same : u.trigger_offset ≡ l.offset = offsets ∙ ap (λ xs. xs ++ l.offset) kept in
      inr (
        record {
          points_ge = checked.points_ge;
          points_le = checked.points_le;
          bits_ge = checked.bits_ge;
          bits_le = checked.bits_le;
        },
        f,
        refl,
        rw (same, ← counted) (resize-length (of_ℕ 0) l.offset),
      )

  sized-IsReady :
      (f : F) (n : ℕ) (s u : Settings D) (r : ReadStatus)
      → (load f s).settings.trigger_offset ≡ []
      → take_offsets n (load f s) ≡ some (u, r)
      → IsReady (some f) s (sized n (u, r))
  sized-IsReady f n s u k_ok kept h = read_ok-IsReady f n s u kept h
  sized-IsReady f n s u k_file_error kept h = inl (ground arith)
  sized-IsReady f n s u k_init_error kept h = inl (ground arith)

  -- The constructor, over a LoadDB that adds no trigger offsets of its own to the settings: it keeps
  -- one trigger offset for each chamber, whether ReadDatabase succeeds or not. If it succeeds, there
  -- was a file, the trigger offsets are those of the file, the number of samples is from 0 to 10,
  -- and the number of ADC bits is from 1 to MAX_ADCBITS.
  pub set_up-IsReady :
      (file : Option F) (n : ℕ) (s t : Settings D) (r : ReadStatus)
      → ((f : F) → (load f s).settings.trigger_offset ≡ [])
      → set_up load file n s ≡ some (t, r)
      → (length t.trigger_offset ≡ n) × IsReady file s (t, r)
  unfolding set_up read_settings
  set_up-IsReady none n s t r kept h =
      subst (λ (x : Settings D × ReadStatus). (length x.0.trigger_offset ≡ n) × IsReady none s x)
        (some-injective (sized n (s, k_file_error)) (t, r) h)
        (length-resize (of_ℕ 0) n s.trigger_offset, inl (ground arith))
  set_up-IsReady (some f) n s t r kept h =
      let (u, read, last) = >>=-eq-some (take_offsets n (load f s)) (λ x. some (sized n x)) h in
      subst
        (λ (x : Settings D × ReadStatus). (length x.0.trigger_offset ≡ n) × IsReady (some f) s x)
        (some-injective (sized n u) (t, r) last)
        (length-resize (of_ℕ 0) n u.0.trigger_offset, sized-IsReady f n s u.0 u.1 (kept f) read)
