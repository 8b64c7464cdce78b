-- ===== src/Examples/Files.antt =====
-- A file of two events.
use libsolgem.Base.{
  ℕ, zero, suc, ℤ, pos, ◌≡◌, ◌≢◌, refl, true, false, some, [], ◌∷◌, arith, ltb, if◌then◌else◌,
}
use libsolgem.Double.{whole_double}
use libsolgem.SimEvent.{SimEvent, new_event, clear_event}
use libsolgem.SimFile.{
  SimFile, RootIo, read_ok, fault, new_file, copy_file, close, set_file_name, open_file, read_entry,
  read_event,
}
use libsolgem.SimFile.Compare.{other_run, assign}
use libsolgem.SimFile.Reading.{drain, stored_from, Holds, drain-open_file}
use libsolgem.SimFile.Safety.{
  IsValid, Reach, start, next, opening, reading, naming, assigning, Reach-safe,
}

methods : Unit {0}
unfolding new_event clear_event new_file copy_file close open_file read_entry read_event drain
    whole_double
methods = tt

abbrev stored : ℕ → SimEvent ℤ
stored e = record new_event { evt_id = pos e }

abbrev io : RootIo ℤ
io = record {
  is_zombie = λ name. false;
  has_tree = λ name. true;
  has_branch = λ name. true;
  entries = λ name. 2;
  get_entry = λ name e old. if ltb e 2 then (pos 1, stored e) else (pos 0, new_event);
}

abbrev file : SimFile ℤ
file = new_file (1 ∷ [])

runs :
    ((open_file io file).1 ≡ read_ok)
    × ((read_event io (open_file io file).0).1 ≡ read_ok)
    × (drain io 5 (open_file io file).0 ≡ some (stored 0) ∷ some (stored 1) ∷ [])
unfolding methods
runs = (refl, refl, refl)

holds : Holds io stored (1 ∷ [])
holds zero old lt = (0, refl)
holds (suc zero) old lt = (0, refl)
holds (suc (suc e)) old lt = absurd (omega arith)

drain-open_file_example : drain io 3 (open_file io file).0 ≡ stored_from io stored 0 2
unfolding methods
drain-open_file_example = drain-open_file io stored file 3 refl (omega arith) holds

-- The file is read once, gets the name of another file, and is assigned a run of another class.
abbrev read_once : SimFile ℤ
read_once = (read_event io (open_file io file).0).0

abbrev renamed : SimFile ℤ
renamed = set_file_name (2 ∷ []) read_once

abbrev assigned : SimFile ℤ
assigned = assign renamed (other_run tt)

history : Reach Unit io assigned
history =
    next
      (next (next (next (start (1 ∷ [])) (opening file)) (reading (open_file io file).0))
        (naming read_once (2 ∷ [])))
      (assigning renamed (other_run tt))

Reach-safe_example : IsValid Unit io assigned × ((read_event io assigned).1 ≢ fault)
Reach-safe_example = Reach-safe Unit io history
