-- ===== src/Geant4File/Opening.antt =====
-- The constructor, SetFilename, Open and Close of src/TSBSGeant4File.cxx. TFile and g4sbs_tree are
-- parameters; a file name is the list of its characters.
use libsolgem.Base.{
  ℕ, ◌-◌, ◌^◌, ℤ, pos, Bool, not, ◌&&◌, ◌||◌, Option, none, some, List, [], ◌==◌, length,
  if◌then◌else◌,
}
use libsolgem.Base.Int.{ltb_ℤ}
use libsolgem.Database.{Manager}
use libsolgem.Geant4File.{Geant4File, clear_file}

-- A pointer: 0, to an object, or to one that is deleted.
pub data Pointer (A : Type 0) : Type 0 where
  null dangling : Pointer A
  valid : A → Pointer A

-- What the code calls of TFile and of g4sbs_tree.
pub record TreeFiles (F T : Type 0) : Type 0 where
  pub new_file : List ℕ → F
  pub is_open : F → Bool
  pub close_file : F → F
  pub new_tree : F → ℤ → T

pub record TreeInput (F T D : Type 0) : Type 0 where
  pub filename : List ℕ
  pub file : Pointer F
  pub tree : Pointer T
  pub events : Geant4File D

module _ {F T D : Type 0} where
  -- TSBSGeant4File()
  unfoldable pub new_input : TreeInput F T D
  new_input = record {
    filename = [];
    file = null;
    tree = null;
    events = record {
      source = pos 0;
      ev_num = 0;
      hit_data = [];
      gen_data = [];
      ecal_clusters = [];
      scint_clusters = [];
    };
  }

  -- A null pointer leaves the name.
  unfoldable pub set_filename : Option (List ℕ) → TreeInput F T D → TreeInput F T D
  set_filename none s = s
  set_filename (some f) s = record s { filename = f }

  module _ (root : TreeFiles F T) (fManager : Manager D) where
    -- The test of the detector type, which no number passes.
    unfoldable pub is_invalid_type : Bool
    is_invalid_type =
        ltb_ℤ fManager.g4sbs_detector_type (pos 1) && ltb_ℤ (pos 4) fManager.g4sbs_detector_type

    unfoldable pub open_tree : TreeInput F T D → TreeInput F T D × ℕ
    unfolding is_invalid_type
    open_tree s =
        let f = root.new_file s.filename in
        let opened = record s { file = valid f } in
        let ready : TreeInput F T D = record opened {
          tree = valid (root.new_tree f fManager.g4sbs_detector_type);
          events = record s.events { ev_num = 2 ^ 32 - 1 };
        } in
        if length s.filename == 0
        then (s, 0)
        else if not (root.is_open f) || is_invalid_type
        then (opened, 0)
        else (ready, 1)

    abbrev close_valid : F → TreeInput F T D → TreeInput F T D × ℕ
    close_valid f s =
        if root.is_open f
        then (record s { file = null; tree = dangling; events = clear_file s.events }, 1)
        else (s, 0)

    -- Close; `none` is the use of a pointer that does not point to a file.
    unfoldable pub close_tree : TreeInput F T D → Option (TreeInput F T D × ℕ)
    close_tree s = elim s.file [ null ↦ none | dangling ↦ none | valid f ↦ some (close_valid f s) ]
