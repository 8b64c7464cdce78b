-- ===== src/Digitization/Output.antt =====
-- InitTree, FillTree, WriteTree and CloseTree of src/TSBSSimGEMDigitization.cxx: the file with the digitized
-- events. ROOT's TFile is a parameter: whether the new file is a zombie. A tree belongs to its file, so that a
-- use of it behind CloseTree, which leaves both pointers as they are, is `none`.
use libsolgem.Base.{
  Bool, true, false, not, ◌&&◌, ◌>>=◌, ◌≡◌, refl, Option, none, some, List, [], ◌∷◌, ◌++◌,
  if◌then◌else◌,
}
use mathlib.Core.List.{append-nil, append_assoc}
use libsolgem.Database.{Manager}
use libsolgem.Double.{Double}
use libsolgem.SimEvent.{SimEvent}
use libsolgem.Digitization.Tree.{fill_tree}
use libsolgem.Digitization.{Root, Settings, Digitizer}

-- fOFile and fOTree (not null), whether the file is open, the entries of the tree, and those in the file.
pub record Output (D : Type 0) : Type 0 where
  pub o_file : Bool
  pub o_tree : Bool
  pub opened : Bool
  pub entries : List (SimEvent D)
  pub written : List (SimEvent D)

module _ {D : Type 0} where
  -- The tree of an earlier file stays where the new file is a zombie.
  unfoldable pub init_tree : Bool → Output D → Output D
  init_tree is_zombie o =
      if is_zombie
      then record o { o_file = false }
      else record { o_file = true; o_tree = true; opened = true; entries = []; written = [] }

  -- FillTree of an event that is to be written.
  unfoldable pub store_event : Option (SimEvent D) → Output D → Option (Output D)
  store_event none o = some o
  store_event (some e) o =
      if o.opened then some (record o { entries = o.entries ++ e ∷ [] }) else none

  unfoldable pub write_tree : Output D → Option (Output D)
  write_tree o =
      if not (o.o_file && o.o_tree)
      then some o
      else if o.opened
      then some (record o { written = o.entries })
      else none

  unfoldable pub close_output : Output D → Output D
  close_output o = if o.o_file then record o { opened = false } else o

  -- A run of the program: an event stored for each element, and the tree written at the end.
  unfoldable pub store_events : List (SimEvent D) → Output D → Option (Output D)
  unfolding store_event write_tree
  store_events [] o = write_tree o
  store_events (e ∷ es) o = store_event (some e) o >>= store_events es

  abbrev ready : List (SimEvent D) → List (SimEvent D) → Output D
  ready entries written = record {
    o_file = true;
    o_tree = true;
    opened = true;
    entries = entries;
    written = written;
  }

  store_events-ready :
      (es done written : List (SimEvent D))
      → store_events es (ready done written) ≡ some (ready (done ++ es) (done ++ es))
  unfolding store_events
  store_events-ready [] done written = rw (append-nil done) refl
  store_events-ready (e ∷ es) done written =
      rw (← append_assoc done (e ∷ []) es) (store_events-ready es (done ++ e ∷ []) written)

  -- Behind an InitTree whose file is no zombie, whatever was open before, the events of a run are in
  -- the file, each once and in their order.
  pub store_events-init_tree :
      (es : List (SimEvent D)) (o : Output D)
      → store_events es (init_tree false o) ≡ some (ready es es)
  unfolding init_tree
  store_events-init_tree es o = store_events-ready es [] []

module _ {D R : Type 0} ⦃d : Double D⦄ (root : Root D R) (fManager : Manager D)
    (s : Settings D) where
  -- FillTree on the output file.
  unfoldable pub fill_output : Digitizer D R → Output D → Digitizer D R × Option (Output D)
  unfolding store_event
  fill_output t o =
      let (t', e) = fill_tree root fManager s (o.o_file && o.o_tree) t in (t', store_event e o)
