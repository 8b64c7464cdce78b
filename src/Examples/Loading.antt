-- ===== src/Examples/Loading.antt =====
-- A database of one plane with one module and one signal, in which every value is 1.
use libsolgem.Base.{
  ◌-◌, ℕ, ◌+◌, ◌<◌, ◌≤◌, ℤ, pos, ◌≡◌, refl, ◌⊎◌, inl, inr, true, false, Option, some, none, List,
  [], ◌∷◌, ◌++◌, map, length, ltb, arith,
}
use libsolgem.Base.Int.{◌+ℤ◌, ◌-ℤ◌, ◌*ℤ◌}
use libsolgem.Double.{whole_double}
use libsolgem.Database.{Manager, get_n_module}
use libsolgem.Database.GemIndex.{add_planes, add_modules, add_module}
use libsolgem.Database.Keys.{
  path_in, try_paths, open_input, strip_prefix, is_separator, skip_separators, find_key,
}
use libsolgem.Database.Optics.{new_manager, push_terms, load_optics}
use libsolgem.Database.Load.{Streams, DbRequest, read_ints, convert, load_db, load_or_exit}
use libsolgem.Database.Load.Requests.{
  General, general_requests, signal_requests, geo_requests, plane_requests,
}
use libsolgem.Database.Load.General.{
  general_prefix, signal_prefix, load_signals, take_modules, clear_geo, finish_general,
  load_general_info,
}
use libsolgem.Database.Load.Geometry.{module_prefix, load_modules, load_planes, load_geo_info}
use libsolgem.Database.Load.Ends.{StreamLaws, load_db_total}
use libsolgem.Examples.Data.{geometry}

methods : Unit {0}
unfolding get_n_module add_planes add_modules add_module path_in try_paths open_input strip_prefix
    is_separator skip_separators find_key new_manager push_terms load_optics read_ints convert
    load_db load_or_exit general_requests signal_requests geo_requests plane_requests signal_prefix
    load_signals take_modules clear_geo finish_general load_general_info module_prefix load_modules
    load_planes load_geo_info whole_double ◌+ℤ◌ ◌-ℤ◌ ◌*ℤ◌
methods = tt

-- Each character is a digit.
abbrev digit : List ℕ → ℤ × List ℕ
digit [] = (pos 0, [])
digit (c ∷ cs) = (pos (c - 48), cs)

abbrev pub io : Streams (List ℕ) ℤ
io = record {
  stream = λ val. val;
  good = λ s. ltb 0 (length s);
  fails = λ s. false;
  read_int = digit;
  read_double = digit;
  read_string = λ s. (s, []);
}

io-laws : StreamLaws io
io-laws = record { left = length; whole = λ val. omega arith; less = less }
  where
    less :
        (s : List ℕ)
        → ltb 0 (length s) ≡ true
        → (length (digit s).1 < length s) ⊎ (ltb 0 (length (digit s).1) ≡ false)
    less [] good = inr refl
    less (c ∷ cs) good = inl (omega arith)

abbrev pub show : ℕ → List ℕ
show n = (n + 48) ∷ []

abbrev one_line : {M : Type 0} → List ℕ → DbRequest ℤ M → List ℕ
one_line prefix r = prefix ++ r.name ++ b'=' ∷ b'1' ∷ []

unfoldable pub lines : List (List ℕ)
unfolding general_requests signal_requests geo_requests plane_requests signal_prefix module_prefix
lines =
    map (one_line general_prefix) (general_requests {D = ℤ})
    ++ map (one_line (signal_prefix io show 0)) (signal_requests {D = ℤ})
    ++ map (one_line (module_prefix io show (b't' ∷ []) 0 0)) (geo_requests {D = ℤ})
    ++ map (one_line (module_prefix io show (b't' ∷ []) 0 0)) (plane_requests {D = ℤ})

abbrev pub manager_of : Option (Manager ℤ) → Manager ℤ
manager_of none = new_manager (pos 0)
manager_of (some m) = m

abbrev pub files : List ℕ → List (List ℕ)
files path = lines

abbrev pub general : Option (Manager ℤ)
general =
    load_general_info io show (λ path. true) none none files (λ path. [])
      (record { pid = pos 0; tid = pos 0 }) (b'g' ∷ []) (new_manager (pos 0))

abbrev geometries : Option (Manager ℤ)
geometries =
    load_geo_info io show (λ path. true) none none files (geometry (pos 0)) (b't' ∷ [])
      (manager_of general)

pub loaded : general ≡ some (manager_of general)
unfolding methods lines
loaded = refl

planes : (manager_of general).n_gem_plane ≡ 1
unfolding methods lines
planes = refl

abbrev start : General ℤ
start = record { manager = new_manager (pos 0); counts = []; planes = pos 0 }

load_db_total_example :
    (g : General ℤ) × (err : ℕ) × (load_db io lines general_prefix general_requests start
      ≡ some (g, err))
    × (err ≤ 2)
load_db_total_example = load_db_total io io-laws lines general_prefix general_requests start
