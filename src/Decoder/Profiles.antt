-- ===== src/Decoder/Profiles.antt =====
-- load_shower_profiles of src/TSBSSimDecoder.cxx. TString is a parameter, a string of it a list of
-- characters, and so is the stream of a value.
pub mod Complete
use libsolgem.Base.{
  ℕ, zero, suc, ◌+◌, ℤ, pos, Option, none, some, ◌>>=◌, List, [], ◌∷◌, ◌++◌, length, if◌then◌else◌,
}
use libsolgem.Base.Int.{◌+ℤ◌, ◌-ℤ◌, ltb_ℤ, pos_part}
use libsolgem.Database.Load.{Streams}
use libsolgem.Decoder.Shower.{ShowerProfile, Profiles}

-- What the code calls of TString: Index from a place, the part from a place with a length, ReplaceAll of
-- a string by nothing, and `%d` of Form.
pub record Texts : Type 0 where
  pub index : List ℕ → List ℕ → ℤ → ℤ
  pub part : List ℕ → ℤ → ℤ → List ℕ
  pub remove_all : List ℕ → List ℕ → List ℕ
  pub show : ℕ → List ℕ

-- The three numbers in the line of a title, and where the line ends.
pub record ProfileHeader (D : Type 0) : Type 0 where
  pub nbins : ℤ
  pub xmin : D
  pub xmax : D
  pub stop : ℤ

-- The size that `resize` gets, an int that becomes unsigned: a negative one is past every vector's
-- limit, and the std::length_error that is then thrown is `none`.
unfoldable pub resized : ℤ → Option ℕ
resized n = if ltb_ℤ n (pos 0) then none else some (pos_part n)

module _ {S D : Type 0} (io : Streams S D) (str : Texts) where
  -- `istop < 0` stands for the last character but one.
  unfoldable pub found_or_end : List ℕ → ℤ → ℤ
  found_or_end text i = if ltb_ℤ i (pos 0) then pos (length text) -ℤ pos 1 else i

  unfoldable pub read_header : List ℕ → List ℕ → ProfileHeader D
  unfolding found_or_end
  read_header text title =
      let start = str.index text title (pos 0) in
      let stop = found_or_end text (str.index text (b'\n' ∷ []) start) in
      let s = io.stream (str.remove_all title (str.part text start (stop -ℤ start))) in
      let (nbins, s1) = io.read_int s in
      let (xmin, s2) = io.read_double s1 in
      let (xmax, s3) = io.read_double s2 in
      record { nbins = nbins; xmin = xmin; xmax = xmax; stop = stop }

  unfoldable pub read_bins : ℕ → S → List D
  read_bins zero s = []
  read_bins (suc left) s = let (x, s') = io.read_double s in x ∷ read_bins left s'

  -- A profile: the line of its title, and the fractions up to the next title, which starts with `next`.
  unfoldable pub read_profile : List ℕ → List ℕ → List ℕ → Option (ShowerProfile D)
  unfolding found_or_end
  read_profile text title next =
      let h = read_header text title in
      let stop = found_or_end text (str.index text next h.stop) in
      let s = io.stream (str.part text (h.stop +ℤ pos 1) (stop -ℤ h.stop -ℤ pos 1)) in
      resized (h.nbins +ℤ pos 1) >>= λ n.
      some (record { nbins_mom = h.nbins; xmin = h.xmin; xmax = h.xmax; frac = read_bins n s })

  -- The loop over the profiles of a coordinate, from `bin`, with `left` to go.
  unfoldable pub read_profiles : List ℕ → List ℕ → ℕ → ℕ → Option (List (ShowerProfile D))
  read_profiles text title zero bin = some []
  read_profiles text title (suc left) bin =
      read_profile text (title ++ str.show (bin + 1)) (b'E' ∷ b'C' ∷ b'A' ∷ b'L' ∷ []) >>= λ q.
      read_profiles text title left (bin + 1) >>= λ qs. some (q ∷ qs)

  abbrev pub profile_title : List ℕ
  profile_title =
      b'E' ∷ b'C' ∷ b'A' ∷ b'L' ∷ b'_' ∷ b's' ∷ b'h' ∷ b'o' ∷ b'w' ∷ b'e' ∷ b'r' ∷ b'_' ∷ b'p'
      ∷ b'r' ∷ b'o' ∷ b'f' ∷ b'i' ∷ b'l' ∷ b'e' ∷ []

  abbrev pub default_title : ℕ → List ℕ
  default_title x =
      profile_title ++ b'_' ∷ x ∷ b'_' ∷ b'd' ∷ b'e' ∷ b'f' ∷ b'a' ∷ b'u' ∷ b'l' ∷ b't' ∷ []

  abbrev pub bin_title : ℕ → List ℕ
  bin_title x = profile_title ++ b'_' ∷ x ∷ b'_' ∷ b'b' ∷ b'i' ∷ b'n' ∷ b' ' ∷ []

  -- The profiles of the coordinate `x`, a character.
  unfoldable pub load_profiles : ℕ → List ℕ → Option (Profiles D)
  load_profiles x text = read_profile text (default_title x) profile_title >>= λ q.
      let h = read_header text (profile_title ++ b's' ∷ b'_' ∷ x ∷ []) in
      resized h.nbins >>= λ n. read_profiles text (bin_title x) n 0 >>= λ qs.
      some (record { default_ = q; nbins = h.nbins; xmin = h.xmin; xmax = h.xmax; prof = qs })

  -- The profiles of both coordinates; the source reads both defaults first.
  unfoldable pub load_shower_profiles : List ℕ → Option (Profiles D × Profiles D)
  load_shower_profiles text =
      load_profiles b'x' text >>= λ px. load_profiles b'y' text >>= λ py. some (px, py)
