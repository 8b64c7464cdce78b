-- ===== src/SimFile/Compare.antt =====
-- Compare, Init and the assignment of src/TSBSSimFile.cxx. What THaRunBase keeps and does is a parameter
-- in a type B; the base class leaves the target of an assignment unopened, as it does a copy.
use libsolgem.Base.{ℕ, ℤ, pos, negsuc, Bool, true, List, [], ◌∷◌, if◌then◌else◌}
use libsolgem.Base.Int.{eqb_ℤ}
use libsolgem.SimFile.{SimFile, unopened}

-- The argument: the object itself, no THaRunBase, a run of another class, or a TSBSSimFile.
pub data RunObject (B D : Type 0) : Type 0 where
  itself no_run : RunObject B D
  other_run : B → RunObject B D
  sim_run : B → SimFile D → RunObject B D

unfoldable compare_names : (List ℕ → List ℕ → Bool) → List ℕ → List ℕ → ℤ
compare_names name_less a b =
    if name_less a b then negsuc 0 else if name_less b a then pos 1 else pos 0

module _ {B D : Type 0} where
  -- operator=, but for the call of the base class. Its argument is always a THaRunBase.
  unfoldable pub assign : SimFile D → RunObject B D → SimFile D
  assign f itself = f
  assign f no_run = f
  assign f (other_run b) = unopened f.root_file_name
  assign f (sim_run b g) = unopened g.root_file_name

  -- Compare, over operator< of THaRunBase and of TString.
  module _ (less : B → B → Bool) (name_less : List ℕ → List ℕ → Bool) where
    unfoldable pub compare_file : B → SimFile D → RunObject B D → ℤ
    unfolding compare_names
    compare_file a f itself = pos 0
    compare_file a f no_run = negsuc 0
    compare_file a f (other_run b) =
        if less a b then negsuc 0 else if less b a then pos 1 else pos 0
    compare_file a f (sim_run b g) =
        if less a b
        then negsuc 0
        else if less b a
        then pos 1
        else compare_names name_less f.root_file_name g.root_file_name

-- The members of THaRunBase that Init sets.
pub record RunBase : Type 0 where
  pub date : List ℕ
  pub assume_date : Bool
  pub has_date : Bool
  pub name : List ℕ
  pub number : ℤ

-- Init, over THaRunBase::Init and basename of the C library. The date is fixed.
module _ (base_init : RunBase → RunBase × ℤ) (basename : List ℕ → List ℕ) where
  unfoldable pub init_run : {D : Type 0} → SimFile D → RunBase → RunBase × ℤ
  init_run f run =
      let dated : RunBase = record run {
        date = 2012 ∷ 1 ∷ 1 ∷ 0 ∷ 0 ∷ 0 ∷ [];
        assume_date = true;
        has_date = true;
      } in
      let (b, ret) = base_init dated in
      if eqb_ℤ ret (pos 0)
      then (record b { name = basename f.root_file_name; number = pos 1 }, ret)
      else (b, ret)
