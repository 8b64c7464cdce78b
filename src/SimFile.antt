-- ===== src/SimFile.antt =====
-- src/TSBSSimFile.{h,cxx}: the input file as a state machine. ROOT's file, tree and branch are a
-- parameter: what TFile, TTree::GetBranch, GetEntries and GetEntry answer for a file name. The
-- pointers fROOTFile and fTree are Booleans (not null), and `tree_of` is the name of the file that fTree
-- was read from, since SetFileName changes the name of an open file; fEvent is an option. A use of a null tree is
-- the result `fault`.
pub mod Reading
pub mod Safety
pub mod Compare
use libsolgem.Base.{
  ℕ, zero, suc, ◌+◌, ℤ, pos, Bool, true, false, not, Option, none, some, List, [], ◌∷◌, leb,
  if◌then◌else◌,
}
use libsolgem.Base.Int.{ltb_ℤ, leb_ℤ}
use libsolgem.SimEvent.{SimEvent, clear_event}

pub data Status : Type 0 where
  read_ok read_eof read_fatal read_error fault : Status

-- The answers of ROOT for each file name. GetEntry gives the number of bytes read, and fills the event.
pub record RootIo (D : Type 0) : Type 0 where
  pub is_zombie : List ℕ → Bool
  pub has_tree : List ℕ → Bool
  pub has_branch : List ℕ → Bool
  pub entries : List ℕ → ℕ
  pub get_entry : List ℕ → ℕ → Option (SimEvent D) → ℤ × SimEvent D

pub record SimFile (D : Type 0) : Type 0 where
  pub root_file_name : List ℕ
  pub root_file : Bool
  pub tree : Bool
  pub tree_of : List ℕ
  pub event : Option (SimEvent D)
  pub n_entries : ℕ
  pub entry : ℕ
  pub opened : Bool

-- "MCdata.root"
abbrev pub default_name : List ℕ
default_name = b'M' ∷ b'C' ∷ b'd' ∷ b'a' ∷ b't' ∷ b'a' ∷ b'.' ∷ b'r' ∷ b'o' ∷ b'o' ∷ b't' ∷ []

module _ {D : Type 0} where
  abbrev pub unopened : List ℕ → SimFile D
  unopened name = record {
    root_file_name = name;
    root_file = false;
    tree = false;
    tree_of = [];
    event = none;
    n_entries = 0;
    entry = 0;
    opened = false;
  }

  -- The constructor.
  unfoldable pub new_file : List ℕ → SimFile D
  new_file [] = unopened default_name
  new_file (c ∷ rest) = unopened (c ∷ rest)

  -- The copy constructor: the file name alone is copied, and the base class leaves a copy unopened.
  unfoldable pub copy_file : SimFile D → SimFile D
  copy_file run = unopened run.root_file_name

  unfoldable pub set_file_name : List ℕ → SimFile D → SimFile D
  set_file_name name f = record f { root_file_name = name }

  unfoldable pub close : SimFile D → SimFile D
  close f = record f { tree = false; root_file = false; event = none; opened = false }

  -- Clear of the event that is there.
  abbrev cleared : Option (SimEvent D) → Option (SimEvent D)
  cleared none = none
  cleared (some e) = some (clear_event false e)

  module _ (io : RootIo D) where
    unfoldable pub open_file : SimFile D → SimFile D × Status
    unfolding close
    open_file f =
        let with_file = record f { root_file = true } in
        let name = f.root_file_name in
        if io.is_zombie name
        then (close with_file, read_fatal)
        else if not (io.has_tree name)
        then (close with_file, read_fatal)
        else let with_tree = record with_file { tree = true; tree_of = name; event = none } in
          if not (io.has_branch name)
          then (close with_tree, read_fatal)
          else (record with_tree { n_entries = io.entries name; entry = 0; opened = true }, read_ok)

    -- The status for the value that GetEntry returns.
    abbrev pub entry_status : ℤ → Status
    entry_status ret =
        if leb_ℤ ret (pos 0) then (if ltb_ℤ ret (pos 0) then read_error else read_eof) else read_ok

    -- The part of ReadEvent behind the opening.
    unfoldable pub read_entry : SimFile D → SimFile D × Status
    read_entry f =
        let (ret, e) = io.get_entry f.tree_of f.entry (cleared f.event) in
        if f.tree
        then (record f { event = some e; entry = f.entry + 1 }, entry_status ret)
        else (f, fault)

    abbrev read_if_open : SimFile D × Status → SimFile D × Status
    read_if_open (f, read_ok) = read_entry f
    read_if_open (f, failed) = (f, failed)

    unfoldable pub read_event : SimFile D → SimFile D × Status
    unfolding open_file read_entry
    read_event f =
        if leb f.n_entries f.entry
        then (f, read_eof)
        else if not f.opened
        then read_if_open (open_file f)
        else read_entry f
