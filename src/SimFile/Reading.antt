-- ===== src/SimFile/Reading.antt =====
-- Reading the events of a file one after the other.
use libsolgem.Base.{
  ℕ, zero, suc, ◌+◌, ◌<◌, pos, ◌≡◌, refl, true, Option, some, List, [], ◌∷◌, arith,
}
use libsolgem.SimEvent.{SimEvent}
use libsolgem.SimFile.{
  SimFile, RootIo, read_ok, read_eof, cleared, new_file, copy_file, open_file, read_event,
}

module _ {D : Type 0} (io : RootIo D) where
  -- A reading loop: the events that ReadEvent leaves in the buffer, until it fails or reports the end.
  unfoldable pub drain : ℕ → SimFile D → List (Option (SimEvent D))
  drain zero f = []
  drain (suc fuel) f =
      let (f', status) = read_event io f in
      elim status [ read_ok ↦ f'.event ∷ drain fuel f' | _ ↦ [] ]

  -- The state that a successful Open leaves.
  record IsOpened (f g : SimFile D) : Type 0 where
    name : g.root_file_name ≡ f.root_file_name
    n_entries : g.n_entries ≡ io.entries f.root_file_name
    entry : g.entry ≡ 0
    opened : g.opened ≡ true
    tree : g.tree ≡ true
    tree_of : g.tree_of ≡ f.root_file_name

  open_file-ok : (f : SimFile D) → (open_file io f).1 ≡ read_ok → IsOpened f (open_file io f).0
  unfolding open_file
  open_file-ok f e = ground arith

  module _ (stored : ℕ → SimEvent D) where
    abbrev pub stored_from : ℕ → ℕ → List (Option (SimEvent D))
    stored_from i zero = []
    stored_from i (suc left) = some (stored i) ∷ stored_from (i + 1) left

    -- The tree of the file holds the events `stored`: GetEntry gives a positive byte count and fills
    -- the event, whatever was in it, at each entry of the tree.
    abbrev pub Holds : List ℕ → Type 0
    Holds name =
        (e : ℕ) (old : Option (SimEvent D))
        → e < io.entries name
        → (bytes : ℕ) × (io.get_entry name e old ≡ (pos (suc bytes), stored e))

    drain-stored :
        (fuel left : ℕ) (f : SimFile D)
        → left < fuel
        → f.entry + left ≡ f.n_entries
        → f.n_entries ≡ io.entries f.tree_of
        → f.opened ≡ true
        → f.tree ≡ true
        → Holds f.tree_of
        → drain fuel f ≡ stored_from f.entry left
    unfolding drain read_event
    drain-stored zero left f h e n o t holds = absurd (omega arith)
    drain-stored (suc fuel) zero f h e n o t holds = ground arith
    drain-stored (suc fuel) (suc left) f h e n o t holds =
        let (bytes, got) = holds f.entry (cleared f.event) (omega arith) in
        let f' : SimFile D = record f { event = some (stored f.entry); entry = f.entry + 1 } in
        ground (arith, got, drain-stored fuel left f')

    -- If Open succeeds on a file whose tree holds the events `stored`, reading until ReadEvent does
    -- not return READ_OK gives every stored event once, in the order of the tree, and then stops. One
    -- call more than there are entries is enough.
    pub drain-open_file :
        (f : SimFile D) (fuel : ℕ)
        → (open_file io f).1 ≡ read_ok
        → io.entries f.root_file_name < fuel
        → Holds f.root_file_name
        → drain fuel (open_file io f).0 ≡ stored_from 0 (io.entries f.root_file_name)
    drain-open_file f fuel e h holds =
        let g = (open_file io f).0 in
        let o = open_file-ok f e in
        let run =
          drain-stored fuel (io.entries f.root_file_name) g h (omega (arith, o.entry, o.n_entries))
            (rw (o.tree_of) (o.n_entries)) o.opened o.tree (rw (o.tree_of) holds) in
        rw (o.entry) at run

  -- ReadEvent on a file that was only constructed or copied reports the end of the file and does not
  -- open it, whatever ROOT would answer.
  pub read_event-unopened :
      (name : List ℕ) (f : SimFile D)
      → (read_event io (new_file name) ≡ (new_file name, read_eof))
        × (read_event io (copy_file f) ≡ (copy_file f, read_eof))
  unfolding read_event new_file copy_file
  read_event-unopened [] f = (refl, refl)
  read_event-unopened (c ∷ rest) f = (refl, refl)
