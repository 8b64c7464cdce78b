-- ===== src/Geant4File/ReadEvent.antt =====
-- ReadNextEvent of src/TSBSGeant4File.cxx around the reading of the BigBite GEMs, where there is no
-- calorimeter. The answer of GetEntry of the tree is a parameter: the entry, or `none` where there is
-- none. What the switch does for the detector type is an argument: bb_event for type 1.
use libsolgem.Base.{◌>>=◌, ℕ, ◌+◌, ◌%◌, ◌^◌, Bool, Option, none, some, List, if◌then◌else◌}
use libsolgem.Database.{Manager}
use libsolgem.Double.{Double, ◌⊗◌}
use libsolgem.SimEvent.{Vec3}
use libsolgem.Geant4File.{Geant4File, clear_file}
use libsolgem.Geant4File.BbGems.{TreeHit, TreeTrack, bb_hits, bb_gen}

-- An entry of the tree.
pub record TreeEntry (D : Type 0) : Type 0 where
  pub solang : D
  pub sigma : D
  pub vertex : Vec3 D
  pub electron : Vec3 D
  pub nucleon : Vec3 D
  pub hits : List (TreeHit D)
  pub tracks : List (TreeTrack D)

module _ {D : Type 0} ⦃d : Double D⦄ (square : D → D) (unset : D) (fManager : Manager D) where
  -- The hits and the generated particle of an entry.
  unfoldable pub bb_event : TreeEntry D → Geant4File D → Option (Geant4File D × ℕ)
  bb_event entry f = bb_hits square unset fManager entry.hits >>= λ hit_data. some (
    record f {
      hit_data = hit_data;
      gen_data =
          bb_gen square unset fManager f.source (entry.solang ⊗ entry.sigma) entry.vertex
            entry.electron entry.tracks;
    },
    1,
  )

module _ {D : Type 0} where
  -- What GetEntry gives, in a file that is cleared and counted on.
  unfoldable pub take_entry :
      (TreeEntry D → Geant4File D → Option (Geant4File D × ℕ))
      → Option (TreeEntry D)
      → Geant4File D
      → Option (Geant4File D × ℕ)
  take_entry event none f = some (f, 0)
  take_entry event (some entry) f = event entry f

  -- The event behind the one the file holds, with 1 for success.
  unfoldable pub read_next_event :
      (TreeEntry D → Geant4File D → Option (Geant4File D × ℕ))
      → Bool
      → (ℕ → Option (TreeEntry D))
      → Geant4File D
      → Option (Geant4File D × ℕ)
  read_next_event event is_open get_entry f =
      let number = (f.ev_num + 1) % 2 ^ 32 in
      if is_open
      then take_entry event (get_entry number) (record (clear_file f) { ev_num = number })
      else some (f, 0)
