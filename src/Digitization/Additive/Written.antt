-- ===== src/Digitization/Additive/Written.antt =====
-- The event that is written for one Digitize and one FillTree.
use libsolgem.Base.{ℕ, ℤ, ◌≡◌, refl, Bool, true, false, ◌⊎◌, inl, inr, Bool-cases, [], ◌==◌}
use libsolgem.Database.{Manager}
use libsolgem.Double.{Double}
use libsolgem.SimEvent.{clear_event}
use libsolgem.Box.{Matrices}
use libsolgem.Chamber.{GemChamber}
use libsolgem.HitData.{HitData, get_nhit}
use libsolgem.Digitization.{Root, Settings, Digitizer}
use libsolgem.Digitization.Tree.{fill_tree, set_tree_strips}
use libsolgem.Digitization.Tree.Record.{IsClosed, fill_tree-IsClosed}
use libsolgem.Digitization.Additive.{additive_digitize, clear_digitizer, digitize}
use libsolgem.Digitization.Additive.Numbering.{IsNumbered}
use libsolgem.Digitization.Additive.Recorded.{digitize-NamesHits}

module _ {D R M : Type 0} ⦃d : Double D⦄ ⦃mx : Matrices D M⦄ (root : Root D R) (s : Settings D)
    (fManager : Manager D) (unset : ℤ) (spect : ℕ → GemChamber D M) where
  -- Without hits the strips are not renewed, and there are none.
  digitize-strips :
      (gdata : HitData D) (t : Digitizer D R)
      → let u = digitize root s fManager unset spect gdata t in
        (u.filled_strips ≡ false) ⊎ ((u.filled_strips ≡ true) × (u.event.gem_strips ≡ []))
  unfolding digitize additive_digitize clear_digitizer clear_event
  digitize-strips gdata t = elim (Bool-cases (get_nhit gdata == 0)) [
    | inl empty ↦ rw empty (inr (refl, refl))
    | inr hits ↦ rw hits (inl refl)
  ]

  fill_tree-IsNumbered :
      (opened : Bool) (t : Digitizer D R)
      → IsNumbered t.event
      → IsNumbered (fill_tree root fManager s opened t).0.event
  unfolding fill_tree set_tree_strips
  fill_tree-IsNumbered opened t h = elim (Bool-cases t.filled_strips) [
    | inl filled ↦ rw filled h
    | inr stale ↦ rw stale (record { numbers = h.numbers; signals = h.signals })
  ]

  fill_tree-filled :
      (opened : Bool) (t : Digitizer D R)
      → t.filled_strips ≡ true
      → t.event.gem_strips ≡ []
      → IsClosed (fill_tree root fManager s opened t).0.event
  unfolding fill_tree
  fill_tree-filled opened t filled none_ = rw (filled, none_) tt

  -- The event that FillTree writes after Digitize, whatever hits, random numbers and geometry, and
  -- whatever the digitization held before: its hits are numbered from 1 in their order, fNSignal counts
  -- those of the primary particle in signal data, and each cluster number of each of its strips is the
  -- number of one of its hits.
  pub digitize-fill_tree :
      (gdata : HitData D) (opened : Bool) (t : Digitizer D R)
      → let u = digitize root s fManager unset spect gdata t in
        let e = (fill_tree root fManager s opened u).0.event in IsNumbered e × IsClosed e
  digitize-fill_tree gdata opened t =
      let u = digitize root s fManager unset spect gdata t in
      let (numbered, named) = digitize-NamesHits root s fManager unset spect gdata t in
      (
        fill_tree-IsNumbered opened u numbered,
        elim (digitize-strips gdata t) [
          | inl stale ↦ fill_tree-IsClosed root fManager s opened u stale named
          | inr (filled, none_) ↦ fill_tree-filled opened u filled none_
        ],
      )
