-- ===== src/Geant4File/Grow.antt =====
-- The loops of src/TSBSGeant4File.cxx that grow a cluster of calorimeter blocks: GetGEpECalCluster for
-- the calorimeter and both planes of the coordinate detector, and GetHCalCluster. The three vectors of
-- energies and coordinates are pushed and erased together, so they are one list here, and the test that
-- their sizes are equal always holds. `near` is the test of the distance of two blocks. `none` is a
-- read out of range, or the end of the fuel.
pub mod Steps
pub mod Passes
pub mod Reached
use libsolgem.Base.{
  ◌>>=◌, ℕ, zero, suc, ◌+◌, ◌-◌, Bool, Option, none, some, List, [], ◌∷◌, ◌++◌, length, get_elem?,
  ltb, leb, ◌==◌, if◌then◌else◌,
}

-- The variables of the loops: the blocks that are left, the cluster, `i`, `i_` and N_blocks_added.
pub record Scan (A : Type 0) : Type 0 where
  pub blocks : List A
  pub clus : List A
  pub i : ℕ
  pub i_ : ℕ
  pub added : ℕ

pub data Visit (A : Type 0) : Type 0 where
  leave : Scan A → Visit A
  again : Scan A → Visit A
  fault : Visit A

module _ {A : Type 0} where
  -- vector::erase of one element
  unfoldable pub erase : List A → ℕ → List A
  erase [] i = []
  erase (x ∷ xs) zero = xs
  erase (x ∷ xs) (suc i) = x ∷ erase xs i

  -- `i_++`
  abbrev pub advance : Scan A → Scan A
  advance s = record s { i_ = s.i_ + 1 }

  -- A block that is near moves to the end of the cluster. `i` then names the block behind it; past the end
  -- it is set back, or the loop is left.
  unfoldable pub transfer : A → Scan A → Visit A
  transfer b s =
      let rest = erase s.blocks s.i in
      let s' = record s { blocks = rest; clus = s.clus ++ b ∷ []; added = s.added + 1 } in
      if ltb s.i (length rest)
      then again (advance s')
      else if ltb 0 s.i
      then again (advance (record s' { i = s.i - 1 }))
      else leave s'

  unfoldable pub resume : Visit A → (Scan A → Option (Scan A)) → Option (Scan A)
  resume (leave t) go = some t
  resume (again t) go = go t
  resume fault go = none

  module _ (near : A → A → Bool) where
    unfoldable pub compare_blocks : Option A → Option A → Scan A → Visit A
    compare_blocks none c s = fault
    compare_blocks (some b) none s = fault
    compare_blocks (some b) (some c) s = if near b c then transfer b s else again (advance s)

    -- One round of the loop over the cluster.
    unfoldable pub visit : Scan A → Visit A
    unfolding compare_blocks
    visit s =
        if leb (length s.clus) s.i_
        then leave s
        else compare_blocks (get_elem? s.blocks s.i) (get_elem? s.clus s.i_) s

    -- The loop over the cluster.
    unfoldable pub inner : ℕ → Scan A → Option (Scan A)
    unfolding resume
    inner zero s = none
    inner (suc fuel) s = resume (visit s) (inner fuel)

    -- The loop over the blocks, with the rounds left, `i + 1`.
    unfoldable pub pass : ℕ → ℕ → Scan A → Option (Scan A)
    pass zero n s = none
    pass (suc fuel) zero s = some s
    pass (suc fuel) (suc n) s =
        inner (length s.blocks + length s.clus + 1) (record s { i = n; i_ = 0 }) >>= λ t.
        pass fuel t.i t

    -- The while loop.
    unfoldable pub grow : ℕ → Scan A → Option (Scan A)
    grow zero s = none
    grow (suc fuel) s =
        pass (length s.blocks + 1) (length s.blocks) (record s { added = 0 }) >>= λ t.
        let later = grow fuel t in if t.added == 0 then some t else later

    -- The blocks that are left and the cluster.
    unfoldable pub grow_cluster : List A → List A → Option (Scan A)
    grow_cluster blocks clus =
        grow (length blocks + 1) (record { blocks = blocks; clus = clus; i = 0; i_ = 0; added = 1 })
