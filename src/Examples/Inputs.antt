-- ===== src/Examples/Inputs.antt =====
-- An entry of the tree with a hit in a module, one without energy and one in no module.
use libsolgem.Base.{ℕ, ◌-◌, ◌^◌, ℤ, pos, ◌≡◌, refl, true, Option, some, none, [], ◌∷◌, All, length}
use libsolgem.Base.Int.{◌+ℤ◌, ◌-ℤ◌, ◌*ℤ◌}
use mathlib.Core.List.{map}
use libsolgem.Double.{whole_double, ◌⊕◌, ◌⊗◌, ◌⊘◌, of_ℕ}
use libsolgem.Database.Access.{
  check_index, covers, checked, geo_at, scan_modules, get_module_id_from_pos, get_xoffset, get_d0,
  get_dx, get_dy, get_sig_pid,
}
use libsolgem.SimEvent.{Vec3}
use libsolgem.HitData.{HitData, new_hit_data}
use libsolgem.Geant4File.{Geant4File, new_record, set_data, clear_file, gen_particle}
use libsolgem.Geant4File.BbGems.{
  TreeHit, TreeTrack, fill_record, hit_entries, limit, follow, hit_momentum, module_frame,
  tracker_entries, bb_record, bb_hits, to_mm, bb_gen,
}
use libsolgem.Geant4File.Generated.{gen_particle-bb_gen}
use libsolgem.Geant4File.ReadEvent.{TreeEntry, bb_event, take_entry, read_next_event}
use libsolgem.Geant4File.SidisGems.{
  IsUnfilled, sidis_record, short_record, gen_temp, note_sidis_hit, sidis_hits, count_track, rescue,
  sidis_event, sidis_event-IsUnfilled,
}
use libsolgem.Examples.Data.{manager, modules}

methods : Unit {0}
unfolding sidis_record short_record gen_temp note_sidis_hit sidis_hits count_track rescue
    sidis_event get_sig_pid new_record set_data clear_file fill_record hit_entries limit follow
    hit_momentum module_frame tracker_entries bb_record bb_hits bb_gen bb_event take_entry
    read_next_event check_index covers checked geo_at scan_modules get_module_id_from_pos
    get_xoffset get_d0 get_dx get_dy whole_double ◌+ℤ◌ ◌-ℤ◌ ◌*ℤ◌
methods = tt

abbrev at : ℕ → ℕ → Vec3 ℤ
at a b = record { x = pos a; y = pos a; z = pos b }

abbrev tree_hit : ℤ → ℤ → TreeHit ℤ
tree_hit edep tx = record {
  pid = pos 11;
  trid = pos 1;
  mid = pos 0;
  plane = pos 1;
  edep = edep;
  tmin = pos 2;
  tmax = pos 4;
  p = pos 3;
  tx = tx;
  txp = pos 0;
  typ = pos 0;
  x_in = at 1 0;
  x_out = at 1 1;
  vtx = at 0 0;
}

abbrev entry : TreeEntry ℤ
entry = record {
  solang = pos 1;
  sigma = pos 1;
  vertex = at 0 0;
  electron = at 0 1;
  nucleon = at 0 2;
  hits = tree_hit (pos 3) (pos 1) ∷ tree_hit (pos 0) (pos 1) ∷ tree_hit (pos 3) (pos 100) ∷ [];
  tracks = [];
}

abbrev file : Geant4File ℤ
file = record {
  source = pos 0;
  ev_num = 2 ^ 32 - 1;
  hit_data = [];
  gen_data = [];
  ecal_clusters = [];
  scint_clusters = [];
}

abbrev get_entry : ℕ → Option (TreeEntry ℤ)
get_entry k = some entry

abbrev square : ℤ → ℤ
square x = x *ℤ x

-- The file behind a successful reading.
abbrev file_of : Option (Geant4File ℤ × ℕ) → Geant4File ℤ × ℕ
file_of none = (file, 0)
file_of (some g) = g

abbrev after : Geant4File ℤ × ℕ
after = file_of (read_next_event (bb_event square (pos 0) (manager modules)) true get_entry file)

abbrev no_data : HitData ℤ
no_data = new_hit_data

two_records : length after.0.hit_data ≡ 2
unfolding methods
two_records = refl

abbrev track : TreeTrack ℤ
track = record {
  tid = pos 1;
  pid = pos 11;
  mid = pos 0;
  x = pos 2;
  y = pos 3;
  p = pos 8;
  xp = pos 1;
  yp = pos 1;
}

gen_particle-bb_gen_example :
    let pz = track.p ⊘ whole_double.sqrt (of_ℕ 1 ⊕ square track.xp ⊕ square track.yp) in
    map gen_particle
      (bb_gen square (pos 0) (manager modules) (pos 0) (pos 2) (at 0 5) (at 1 3) (track ∷ []))
    ≡ record {
      trid = pos 1;
      pid = pos 11;
      v = record { x = to_mm (pos 2); y = to_mm (pos 3); z = pos 0 };
      p = record { x = pz ⊗ pos 1; y = pz ⊗ pos 1; z = pz };
      vertex_at_target = at 0 5;
      momentum_at_target = at 1 3;
      weight = pos 2;
    }
      ∷ []
unfolding methods
gen_particle-bb_gen_example =
    gen_particle-bb_gen square (pos 0) (manager modules) (pos 2) (at 0 5) (at 1 3) track [] refl

abbrev sidis_after : Geant4File ℤ × ℕ
sidis_after = file_of (sidis_event square (pos 0) (manager modules) entry file)

one_generated : length sidis_after.0.gen_data ≡ 1
unfolding methods
one_generated = refl

sidis_event-IsUnfilled_example : All IsUnfilled sidis_after.0.gen_data
unfolding methods
sidis_event-IsUnfilled_example =
    sidis_event-IsUnfilled square (pos 0) (manager modules) entry file sidis_after refl
