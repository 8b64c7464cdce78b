-- ===== src/Geant4File/Filled.antt =====
-- GetGEMData on the records of the BigBite GEMs that ReadNextEvent of src/TSBSGeant4File.cxx makes.
use libsolgem.Base.{
  ◌>>=◌, zero, suc, ℤ, pos, negsuc, ◌≡◌, refl, sym, ◌∙◌, Bool, true, false, inl, inr, Bool-cases,
  Option, some, >>=-eq-some, arith, List, [], ◌∷◌, if◌then◌else◌,
}
use libsolgem.Base.Int.{◌+ℤ◌, ◌-ℤ◌, eqb_ℤ}
use mathlib.Core.Path.{subst}
use mathlib.Core.Option.{some-injective}
use libsolgem.Database.{Manager}
use libsolgem.Database.Access.{get_module_id_from_pos, get_xoffset, get_d0, get_dx, get_dy}
use libsolgem.Double.{Double, ◌⊕◌, ◌⊗◌, ◌⊘◌, ◌≺◌, of_ℤ, of_ℕ, trunc}
use libsolgem.HitData.{HitDatum, HitData}
use libsolgem.Geant4File.{
  SimRecord, Geant4File, new_record, set_data, get_data, unsigned, has_energy,
}
use libsolgem.Geant4File.Packing.{hit_of, hits_of}
use libsolgem.Geant4File.BbGems.{
  TreeHit, fill_record, hit_entries, to_mm, hit_momentum, module_frame, tracker_entries, bb_record,
  bb_hits,
}

eqb_ℤ-minus_one : (a : ℤ) → eqb_ℤ a (negsuc 0) ≡ true → a ≡ negsuc 0
eqb_ℤ-minus_one (pos n) e = absurd (ground arith)
eqb_ℤ-minus_one (negsuc zero) e = refl
eqb_ℤ-minus_one (negsuc (suc m)) e = absurd (ground arith)

module _ {D : Type 0} ⦃d : Double D⦄ (square : D → D) (unset : D) (fManager : Manager D) where
  -- The module that a hit of the tree lies in.
  abbrev pub module_of : TreeHit D → ℤ
  module_of h = get_module_id_from_pos fManager (h.plane -ℤ pos 1) h.tx

  -- Hit `c` of the digitization stands for hit `h` of the tree.
  unfoldable pub IsHitOf : TreeHit D → HitDatum D → Type 0
  IsHitOf h c =
      let plane = h.plane -ℤ pos 1 in
      (xoffset d0 : D) × (get_xoffset fManager plane (module_of h) ≡ some xoffset)
      × (get_d0 fManager plane (module_of h) ≡ some d0)
      × (c.xi ≡ module_frame square unset fManager xoffset d0 h.x_in)
      × (c.mom ≡ hit_momentum square unset fManager h)
      × (c.vert ≡ record { x = to_mm h.vtx.x; y = to_mm h.vtx.y; z = to_mm h.vtx.z })
      × (c.edep ≡ h.edep ⊗ of_ℕ 1000 ⊗ of_ℕ 1000000)
      × (c.time ≡ (h.tmin ⊕ h.tmax) ⊘ of_ℕ 2)
      × (c.plane ≡ unsigned {D = D} (of_ℤ plane))
      × (c.module_ ≡ unsigned {D = D} (of_ℤ (module_of h)))
      × (c.gem ≡ fManager.pm_to_igem c.plane c.module_)
      × (c.type ≡ unsigned {D = D} (of_ℤ (h.mid +ℤ pos 1)))
      × (c.trid ≡ unsigned {D = D} (of_ℤ h.trid))
      × (c.pid ≡ trunc {D = D} (of_ℤ h.pid))

  -- The hits that stand for those of a list that lie in a module and deposit energy, in order.
  pub data Packs : List (TreeHit D) → List (HitDatum D) → Type 0 where
    no_hits : Packs [] []
    outside :
        {h : TreeHit D} {hs : List (TreeHit D)} {cs : List (HitDatum D)}
        → module_of h ≡ negsuc 0
        → Packs hs cs
        → Packs (h ∷ hs) cs
    no_energy :
        {h : TreeHit D} {hs : List (TreeHit D)} {cs : List (HitDatum D)}
        → (of_ℕ 0 ≺ h.edep ⊗ of_ℕ 1000) ≡ false
        → Packs hs cs
        → Packs (h ∷ hs) cs
    packed :
        {h : TreeHit D} {hs : List (TreeHit D)} {c : HitDatum D} {cs : List (HitDatum D)}
        → (of_ℕ 0 ≺ h.edep ⊗ of_ℕ 1000) ≡ true
        → IsHitOf h c
        → Packs hs cs
        → Packs (h ∷ hs) (c ∷ cs)

  -- The record of a hit that is in a module gives that hit, and the hit's energy.
  entries-IsHitOf :
      (h : TreeHit D) (xoffset d0 dx dy : D)
      → get_xoffset fManager (h.plane -ℤ pos 1) (module_of h) ≡ some xoffset
      → get_d0 fManager (h.plane -ℤ pos 1) (module_of h) ≡ some d0
      → let r =
          fill_record
            (tracker_entries square unset fManager xoffset d0 dx dy
              (h.mid +ℤ pos 1)
              (module_of h)
              h)
            0
            (new_record unset (pos 1) 24) in
        (has_energy r ≡ (of_ℕ 0 ≺ h.edep ⊗ of_ℕ 1000)) × IsHitOf h (hit_of fManager r)
  unfolding tracker_entries hit_entries fill_record set_data get_data new_record hit_of IsHitOf
  entries-IsHitOf h xoffset d0 dx dy at_x at_z = (
    refl,
    (xoffset, d0, at_x, at_z, refl, refl, refl, refl, refl, refl, refl, refl, refl, refl, refl),
  )

  bb_record-IsHitOf :
      (h : TreeHit D) (r : SimRecord D)
      → bb_record square unset fManager (module_of h) h ≡ some r
      → (has_energy r ≡ (of_ℕ 0 ≺ h.edep ⊗ of_ℕ 1000)) × IsHitOf h (hit_of fManager r)
  unfolding bb_record
  bb_record-IsHitOf h r e =
      let plane = h.plane -ℤ pos 1 in
      let m = module_of h in
      let (xoffset, at_x, e1) = >>=-eq-some (get_xoffset fManager plane m) _ e in
      let (d0, at_z, e2) = >>=-eq-some (get_d0 fManager plane m) _ e1 in
      let (dx, _, e3) = >>=-eq-some (get_dx fManager plane m) _ e2 in
      let (dy, _, e4) = >>=-eq-some (get_dy fManager plane m) _ e3 in
      let made : fill_record
            (tracker_entries square unset fManager xoffset d0 dx dy (h.mid +ℤ pos 1) (module_of h)
              h)
            0 (new_record unset (pos 1) 24)
          ≡ r =
        some-injective _ _ e4 in
      rw (← made) (entries-IsHitOf h xoffset d0 dx dy at_x at_z)

  -- The hits that GetGEMData makes of the records of an event's hits are those of the hits that
  -- lie in a module and deposit energy.
  pub bb_hits-Packs :
      (hs : List (TreeHit D)) (rs : List (SimRecord D))
      → bb_hits square unset fManager hs ≡ some rs
      → Packs hs (hits_of fManager rs)
  unfolding bb_hits hits_of
  bb_hits-Packs [] rs e = rw (← some-injective _ _ e) no_hits
  bb_hits-Packs (h ∷ hs) rs e =
      let others = bb_hits square unset fManager hs in
      let made = bb_record square unset fManager (module_of h) h in
      let both : Option (List (SimRecord D)) = made >>= λ r. others >>= λ rest. some (r ∷ rest) in
      let chosen = λ (b : Bool). (if b then others else both) ≡ some rs in
      elim (Bool-cases (eqb_ℤ (module_of h) (negsuc 0))) [
        | inl out ↦
            outside (eqb_ℤ-minus_one (module_of h) out) (bb_hits-Packs hs rs (subst chosen out e))
        | inr inside ↦
            let (r, at_r, e1) = >>=-eq-some made _ (subst chosen inside e) in
            let (rest, at_rest, e2) = >>=-eq-some others _ e1 in
            let (energy, stands) = bb_record-IsHitOf h r at_r in
            let later = bb_hits-Packs hs rest at_rest in
            let made_of : r ∷ rest ≡ rs = some-injective _ _ e2 in
            elim (Bool-cases (has_energy r)) [
              | inl fired ↦ rw (← made_of, fired) (packed (sym energy ∙ fired) stands later)
              | inr quiet ↦ rw (← made_of, quiet) (no_energy (sym energy ∙ quiet) later)
            ]
      ]
