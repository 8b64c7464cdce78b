-- ===== src/Database/Load/Counted.antt =====
-- What LoadGeneralInfo leaves of the planes.
use libsolgem.Base.{
  >>=-eq-some, ℕ, zero, suc, ◌+◌, ℤ, pos, ◌≡◌, refl, ap, sym, ◌∙◌, inl, inr, Bool, true, false,
  Bool-cases, Option, some, none_ne_some, List, [], ◌∷◌, ◌++◌, map, length, length-append, ltb,
  if◌then◌else◌, arith,
}
use libsolgem.Base.Int.{ltb_ℤ, eqb_ℤ, pos_part}
use mathlib.Core.Path.{subst}
use mathlib.Core.Option.{some-injective}
use libsolgem.Double.{Double}
use libsolgem.Database.{Manager}
use libsolgem.Database.Keys.{open_input}
use libsolgem.Database.Optics.{Term, new_manager, load_optics}
use libsolgem.Database.Load.{Streams, load_or_exit}
use libsolgem.Database.Load.Requests.{General, Signal, general_requests, signal_requests}
use libsolgem.Database.Load.General.{
  general_prefix, signal_prefix, load_signals, take_modules, clear_geo, finish_general,
  load_general_info,
}
use libsolgem.Database.Load.Kept.{load_or_exit-Keeps}
use libsolgem.Database.Load.Fresh.{IsFresh, general_requests-Keeps}

module _ {D : Type 0} where
  -- The planes are counted, and have no geometry yet; the signals are counted.
  pub record IsCounted (m : Manager D) : Type 0 where
    pub planes : length m.n_module ≡ m.n_gem_plane
    pub empty : (p : ℕ) → m.pm_geo_info p ≡ []
    pub pids : length m.sig_pid ≡ m.n_sig_particle
    pub tids : length m.sig_tid ≡ m.n_sig_particle

module _ {S D : Type 0} ⦃d : Double D⦄ (io : Streams S D) (show : ℕ → List ℕ) where
  load_signals-kept :
      (lines : List (List ℕ)) (left i : ℕ) (s : Signal) (m m' : Manager D)
      → load_signals io show lines left i s m ≡ some m'
      → (m'.n_module ≡ m.n_module)
        × (m'.n_gem_plane ≡ m.n_gem_plane)
        × (m'.pm_geo_info ≡ m.pm_geo_info)
        × (m'.n_sig_particle ≡ m.n_sig_particle)
        × (length m'.sig_pid ≡ length m.sig_pid + left)
        × (length m'.sig_tid ≡ length m.sig_tid + left)
  unfolding load_signals
  load_signals-kept lines zero i s m m' e =
      let same : m ≡ m' = some-injective _ _ e in
      (
        ap (λ (x : Manager D). x.n_module) (sym same),
        ap (λ (x : Manager D). x.n_gem_plane) (sym same),
        ap (λ (x : Manager D). x.pm_geo_info) (sym same),
        ap (λ (x : Manager D). x.n_sig_particle) (sym same),
        omega (arith, ap (λ (x : Manager D). length x.sig_pid) same),
        omega (arith, ap (λ (x : Manager D). length x.sig_tid) same),
      )
  load_signals-kept lines (suc left) i s m m' e =
      let (t, _, later) =
        >>=-eq-some (load_or_exit io lines (signal_prefix io show i) (signal_requests {D = D}) s) _
          e in
      let (modules, planes, geo, count, pids, tids) =
        load_signals-kept lines left (i + 1) t _ m' later in
      (
        modules,
        planes,
        geo,
        count,
        omega (arith, pids, length-append m.sig_pid (t.pid ∷ [])),
        omega (arith, tids, length-append m.sig_tid (t.tid ∷ [])),
      )

  length-map : (xs : List ℤ) → length (map pos_part xs) ≡ length xs
  length-map [] = refl
  length-map (x ∷ xs) = omega (arith, length-map xs)

  optics_kept :
      (b : Bool) (terms : List (Term D)) (m : Manager D)
      → let w = if b then load_optics terms m else m in
        (w.n_module ≡ m.n_module)
        × (w.n_gem_plane ≡ m.n_gem_plane)
        × (w.pm_geo_info ≡ m.pm_geo_info)
        × (w.n_sig_particle ≡ m.n_sig_particle)
        × (w.sig_pid ≡ m.sig_pid)
        × (w.sig_tid ≡ m.sig_tid)
  unfolding load_optics
  optics_kept true terms m = (refl, refl, refl, refl, refl, refl)
  optics_kept false terms m = (refl, refl, refl, refl, refl, refl)

  finish_general-IsCounted :
      (optics : List ℕ → List (Term D)) (lines : List (List ℕ)) (unset : Signal) (g : General D)
      (m : Manager D)
      → IsFresh g
      → finish_general io show optics lines unset g ≡ some m
      → IsCounted m
  unfolding finish_general take_modules clear_geo
  finish_general-IsCounted optics lines unset g m (modules, geo, planes, pid0, tid0) e =
      elim (Bool-cases (eqb_ℤ g.planes (pos (length g.counts)))) [
        | inr differ ↦ absurd (none_ne_some (rw differ at e))
        | inl agree ↦
            let b = ltb_ℤ (pos 0) g.manager.order_optics in
            let terms = optics g.manager.optics_file in
            let w = if b then load_optics terms g.manager else g.manager in
            let (o_modules, o_planes, o_geo, o_count, o_pid, o_tid) =
              optics_kept b terms g.manager in
            let (m', signed, last) =
              >>=-eq-some
                (load_signals io show lines g.manager.n_sig_particle 0 unset
                  (take_modules (map pos_part g.counts) w))
                _ (rw agree at e) in
            let (s_modules, s_planes, s_geo, s_count, s_pid, s_tid) =
              load_signals-kept lines _ 0 unset _ m' signed in
            let same : clear_geo m' ≡ m = some-injective _ _ last in
            subst IsCounted same (record {
              planes =
                  counted m'
                    (ap length
                      (s_modules ∙ ap (λ xs. xs ++ map pos_part g.counts) (o_modules ∙ modules)))
                    (s_planes ∙ o_planes ∙ planes) agree;
              pids = omega (arith, s_pid, ap length (o_pid ∙ pid0), s_count ∙ o_count);
              tids = omega (arith, s_tid, ap length (o_tid ∙ tid0), s_count ∙ o_count);
              empty = λ p. elim (Bool-cases (ltb p m'.n_gem_plane)) [
                | inl below ↦ rw below refl
                | inr above ↦ rw above (ap (λ f. f p) (s_geo ∙ o_geo) ∙ geo p)
              ];
            })
      ]
    where
      counted :
          (m' : Manager D)
          → length m'.n_module ≡ length (map pos_part g.counts)
          → m'.n_gem_plane ≡ pos_part g.planes
          → eqb_ℤ g.planes (pos (length g.counts)) ≡ true
          → length m'.n_module ≡ m'.n_gem_plane
      counted m' modules' planes' agree =
          let whole = length-map g.counts in
          let same : pos_part g.planes ≡ length g.counts = ground arith in
          omega (arith, modules', planes', whole, same)

  -- LoadGeneralInfo leaves the planes counted, without geometry, and the signals counted.
  pub load_general_info-IsCounted :
      (good : List ℕ → Bool) (db_dir libsbsgem : Option (List ℕ))
      (lines_of : List ℕ → List (List ℕ)) (optics : List ℕ → List (Term D)) (unset : Signal)
      (file_name : List ℕ) (m : Manager D) (unset_terms : ℤ)
      → load_general_info io show good db_dir libsbsgem lines_of optics unset file_name
          (new_manager unset_terms)
        ≡ some m
      → IsCounted m
  unfolding load_general_info new_manager
  load_general_info-IsCounted good db_dir libsbsgem lines_of optics unset file_name m unset_terms
        e =
      let (path, _, e1) = >>=-eq-some (open_input good db_dir libsbsgem file_name) _ e in
      let start : General D = record {
        manager = new_manager unset_terms;
        counts = [];
        planes = pos 0;
      } in
      let (g, read, e2) =
        >>=-eq-some (load_or_exit io (lines_of path) general_prefix general_requests start) _ e1 in
      finish_general-IsCounted optics (lines_of path) unset g m
        (load_or_exit-Keeps io IsFresh (lines_of path) general_prefix general_requests start g
          (general_requests-Keeps D) read (refl, λ p. refl, refl, refl, refl))
        e2
