-- ===== src/SimFile/Safety.antt =====
-- Open, Close, ReadEvent, SetFileName and assignment keep the state of the file in order, and ReadEvent never uses a null tree.
use libsolgem.Base.{ℕ, ◌≤◌, ◌≡◌, ◌≢◌, ◌⊎◌, true, false, none, arith, List, [], ◌∷◌}
use libsolgem.SimFile.{
  SimFile, RootIo, fault, new_file, copy_file, close, set_file_name, open_file, read_event,
}
use libsolgem.SimFile.Compare.{RunObject, itself, no_run, other_run, sim_run, assign}

module _ {D : Type 0} (B : Type 0) where
  module _ (io : RootIo D) where
    -- An open file has a ROOT file and a tree; a closed one has neither, nor an event.
    pub record IsValid (f : SimFile D) : Type 0 where
      pub tree_is : f.tree ≡ f.opened
      pub file_is : f.root_file ≡ f.opened
      pub event_is : f.opened ≡ false → f.event ≡ none
      pub entry_le : (f.entry ≤ f.n_entries) ⊎ (f.entry ≤ 1)
      pub n_entries_is : f.opened ≡ true → f.n_entries ≡ io.entries f.tree_of

    -- A step that a user of the file makes.
    pub data Step : SimFile D → SimFile D → Type 0 where
      opening : (f : SimFile D) → Step f (open_file io f).0
      closing : (f : SimFile D) → Step f (close f)
      reading : (f : SimFile D) → Step f (read_event io f).0
      naming : (f : SimFile D) (name : List ℕ) → Step f (set_file_name name f)
      assigning : (f : SimFile D) (rhs : RunObject B D) → Step f (assign f rhs)

    pub data Reach : SimFile D → Type 0 where
      start : (name : List ℕ) → Reach (new_file name)
      copied : {f : SimFile D} → Reach f → Reach (copy_file f)
      next : {f g : SimFile D} → Reach f → Step f g → Reach g

    new_file-IsValid : (name : List ℕ) → IsValid (new_file name)
    unfolding new_file
    new_file-IsValid [] = ground arith
    new_file-IsValid (c ∷ rest) = ground arith

    copy_file-IsValid : (f : SimFile D) → IsValid (copy_file f)
    unfolding copy_file
    copy_file-IsValid f = ground arith

    close-IsValid : (f : SimFile D) → IsValid f → IsValid (close f)
    unfolding close
    close-IsValid f v = ground arith

    set_file_name-IsValid :
        (f : SimFile D) (name : List ℕ) → IsValid f → IsValid (set_file_name name f)
    unfolding set_file_name
    set_file_name-IsValid f name v = ground arith

    assign-IsValid : (f : SimFile D) (rhs : RunObject B D) → IsValid f → IsValid (assign f rhs)
    unfolding assign
    assign-IsValid f itself v = v
    assign-IsValid f no_run v = v
    assign-IsValid f (other_run b) v = ground arith
    assign-IsValid f (sim_run b g) v = ground arith

    open_file-IsValid : (f : SimFile D) → IsValid f → IsValid (open_file io f).0
    unfolding open_file
    open_file-IsValid f v = ground arith

    read_event-IsValid : (f : SimFile D) → IsValid f → IsValid (read_event io f).0
    unfolding read_event
    read_event-IsValid f v = ground arith

    read_event-ne-fault : (f : SimFile D) → IsValid f → (read_event io f).1 ≢ fault
    unfolding read_event
    read_event-ne-fault f v = ground arith

    Step-IsValid : {f g : SimFile D} → Step f g → IsValid f → IsValid g
    Step-IsValid (opening f) v = open_file-IsValid f v
    Step-IsValid (closing f) v = close-IsValid f v
    Step-IsValid (reading f) v = read_event-IsValid f v
    Step-IsValid (naming f name) v = set_file_name-IsValid f name v
    Step-IsValid (assigning f rhs) v = assign-IsValid f rhs v

    Reach-IsValid : {f : SimFile D} → Reach f → IsValid f
    Reach-IsValid (start name) = new_file-IsValid name
    Reach-IsValid (copied {f} r) = copy_file-IsValid f
    Reach-IsValid (next r st) = Step-IsValid st (Reach-IsValid r)

    -- In every state that a file reaches by Open, Close, ReadEvent, SetFileName, copying and the
    -- assignment of any run, it is consistent: an open file has its ROOT file and its tree, and the
    -- number of entries that ROOT reports for the file of the tree; a closed one has neither, nor an
    -- event; the entry number is at most the number of entries, or at most 1. And ReadEvent does not
    -- use a null tree.
    pub Reach-safe : {f : SimFile D} → Reach f → IsValid f × ((read_event io f).1 ≢ fault)
    Reach-safe {f} r = (Reach-IsValid r, read_event-ne-fault f (Reach-IsValid r))
