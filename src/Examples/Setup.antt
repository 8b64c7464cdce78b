-- ===== src/Examples/Setup.antt =====
-- The decoder behind the database of one signal, and a digitization that is set up for one chamber.
use libsolgem.Base.{ℤ, pos, ◌≡◌, refl, false, some, [], ◌∷◌, length}
use libsolgem.Double.{whole_double}
use libsolgem.HitData.{resize}
use libsolgem.Digitization.{Settings}
use libsolgem.Digitization.Setup.{
  k_ok, Loaded, check_settings, take_offsets, read_settings, set_up, IsReady, set_up-IsReady,
}
use libsolgem.Examples.Digitized.{settings}

-- LoadDB of a file that is a number, the only trigger offset.
abbrev load : ℤ → Settings ℤ → Loaded ℤ
load file s = record {
  settings = record settings { trigger_offset = s.trigger_offset };
  offset = file ∷ [];
  has_error = false;
}

abbrev empty : Settings ℤ
empty = record settings { trigger_offset = [] }

abbrev ready : Settings ℤ
ready = record settings { trigger_offset = pos 7 ∷ [] }

set : set_up load (some (pos 7)) 1 empty ≡ some (ready, k_ok)
unfolding set_up read_settings take_offsets check_settings resize whole_double
set = refl

set_up-IsReady_example :
    (length ready.trigger_offset ≡ 1) × IsReady load (some (pos 7)) empty (ready, k_ok)
set_up-IsReady_example = set_up-IsReady load (some (pos 7)) 1 empty ready k_ok (λ f. refl) set
