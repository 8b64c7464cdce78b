-- ===== src/Database/Load/General.antt =====
-- LoadGeneralInfo of src/TSBSDBManager.cxx. The lines of a file, the terms of the optics file and the digits
-- of a number are parameters. `none` is a call of exit.
use libsolgem.Base.{
  ◌>>=◌, ℕ, zero, suc, ◌+◌, pos, Bool, Option, none, some, List, [], ◌∷◌, ◌++◌, map, length, ltb,
  if◌then◌else◌,
}
use libsolgem.Base.Int.{ltb_ℤ, eqb_ℤ, pos_part}
use libsolgem.Double.{Double}
use libsolgem.Database.{Manager}
use libsolgem.Database.GemIndex.{add_planes}
use libsolgem.Database.Keys.{open_input}
use libsolgem.Database.Optics.{Term, load_optics}
use libsolgem.Database.Load.{Streams, load_or_exit}
use libsolgem.Database.Load.Requests.{General, Signal, general_requests, signal_requests}

abbrev pub general_prefix : List ℕ
general_prefix =
    b'g' ∷ b'e' ∷ b'n' ∷ b'e' ∷ b'r' ∷ b'a' ∷ b'l' ∷ b'i' ∷ b'n' ∷ b'f' ∷ b'o' ∷ b'.' ∷ []

module _ {D : Type 0} where
  -- The numbers of modules and the numbering; the maps of an earlier call are kept.
  unfoldable pub take_modules : List ℕ → Manager D → Manager D
  take_modules counts m =
      let numbered = add_planes 0 counts (record {
        pm_to_igem = m.pm_to_igem;
        igem_to_plane = m.igem_to_plane;
        igem_to_module = m.igem_to_module;
        n_gem_tot = 0;
      }) in
      record m {
        n_module = m.n_module ++ counts;
        pm_to_igem = numbered.pm_to_igem;
        igem_to_plane = numbered.igem_to_plane;
        igem_to_module = numbered.igem_to_module;
      }

  -- The last loop empties the geometry of each plane.
  unfoldable pub clear_geo : Manager D → Manager D
  clear_geo m = record m { pm_geo_info = λ p. if ltb p m.n_gem_plane then [] else m.pm_geo_info p }

module _ {S D : Type 0} ⦃d : Double D⦄ (io : Streams S D) (show : ℕ → List ℕ) where
  unfoldable pub signal_prefix : ℕ → List ℕ
  signal_prefix i =
      general_prefix ++ (b's' ∷ b'i' ∷ b'g' ∷ b'n' ∷ b'a' ∷ b'l' ∷ []) ++ show (i + 1) ++ b'.' ∷ []

  -- The loop over the signals, from signal `i`, with `left` to go.
  unfoldable pub load_signals : List (List ℕ) → ℕ → ℕ → Signal → Manager D → Option (Manager D)
  load_signals lines zero i s m = some m
  load_signals lines (suc left) i s m =
      load_or_exit io lines (signal_prefix i) (signal_requests {D = D}) s >>= λ t.
      load_signals lines left (i + 1) t
        (record m { sig_pid = m.sig_pid ++ t.pid ∷ []; sig_tid = m.sig_tid ++ t.tid ∷ [] })

  -- Behind the requests of LoadGeneralInfo.
  unfoldable pub finish_general :
      (List ℕ → List (Term D)) → List (List ℕ) → Signal → General D → Option (Manager D)
  unfolding clear_geo
  finish_general optics lines unset g =
      let m = g.manager in
      let with_optics =
        if ltb_ℤ (pos 0) m.order_optics then load_optics (optics m.optics_file) m else m in
      let done =
        load_signals lines m.n_sig_particle 0 unset
          (take_modules (map pos_part g.counts) with_optics)
        >>= λ m'. some (clear_geo m') in
      if eqb_ℤ g.planes (pos (length g.counts)) then done else none

  module _ (good : List ℕ → Bool) (db_dir libsbsgem : Option (List ℕ))
      (lines_of : List ℕ → List (List ℕ)) where
    unfoldable pub load_general_info :
        (List ℕ → List (Term D)) → Signal → List ℕ → Manager D → Option (Manager D)
    load_general_info optics unset file_name m =
        open_input good db_dir libsbsgem file_name >>= λ path.
        load_or_exit io (lines_of path) general_prefix general_requests
          (record { manager = m; counts = []; planes = pos m.n_gem_plane })
        >>= finish_general optics (lines_of path) unset
