-- ===== src/Decoder/Setup.antt =====
-- The constructor of TSBSSimDecoder, src/TSBSSimDecoder.cxx: the signals it takes from the database
-- manager, and the profiles of the showers. TString and the stream of a value are parameters, and so is
-- the text of ECAL_shower_profiles.txt.
use libsolgem.Base.{
  ℕ, zero, suc, ◌+◌, pos, not, ◌&&◌, Option, none, some, List, [], ◌∷◌, get_or, if◌then◌else◌,
}
use libsolgem.Base.Int.{eqb_ℤ}
use libsolgem.Double.{Double}
use libsolgem.Database.{Manager}
use libsolgem.Database.Access.{get_sig_pid, get_sig_tid}
use libsolgem.Database.Load.{Streams}
use libsolgem.Decoder.Truth.{SignalInfo}
use libsolgem.Decoder.Shower.{Profiles}
use libsolgem.Decoder.Profiles.{Texts, load_shower_profiles}

-- What the constructor fills. The profiles are `some none` where std::length_error is thrown.
pub record Setup (D : Type 0) : Type 0 where
  pub signal_info : List SignalInfo
  pub profiles : Option (Option (Profiles D × Profiles D))

module _ {D : Type 0} where
  -- The loop that fills fSignalInfo, from `i`, with `left` rounds to go.
  unfoldable pub signal_infos : ℕ → ℕ → Manager D → List SignalInfo
  signal_infos zero i m = []
  signal_infos (suc left) i m =
      record { pid = get_sig_pid m i; tid = get_sig_tid m i } ∷ signal_infos left (i + 1) m

  module _ {S : Type 0} (io : Streams S D) (str : Texts) where
    unfoldable pub new_setup : Manager D → List ℕ → Setup D
    unfolding signal_infos
    new_setup m text = record {
      signal_info = signal_infos m.n_sig_particle 0 m;
      profiles =
          if eqb_ℤ m.g4sbs_detector_type (pos 3) && not (eqb_ℤ m.do_calo (pos 0))
          then some (load_shower_profiles io str text)
          else none;
    }

  abbrev pub signal_at : Manager D → ℕ → SignalInfo
  signal_at m i = record { pid = get_or m.sig_pid i (pos 0); tid = get_or m.sig_tid i (pos 0) }
