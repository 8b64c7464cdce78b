-- ===== src/Readout/Addresses.antt =====
-- Distinct strips have distinct hardware addresses and ROC keys, if the planes do not lose modules
-- from one plane to the next.
use native.Mathlib.Nat.{le_refl, mul-le-mul, div-add-mod, div-add-mod', mod-eq_of_lt}
use native.Mathlib.Decide.{dec_lt}
use libsolgem.Base.{ℕ, zero, suc, ◌+◌, ◌*◌, ◌/◌, ◌%◌, ◌≤◌, ◌<◌, ◌≡◌, ap, arith}
use libsolgem.Database.{Manager, get_n_module, get_n_module_before}
use libsolgem.Readout.{Location, slot_index, strip_to_rocd, make_roc_key}

digits-lt : (n c d a b : ℕ) → c < n → a < b → c + n * a < d + n * b
digits-lt n c d a b hc lt = omega (arith, mul-le-mul (le_refl n) lt)

digits_unique : (n c d a b : ℕ) → c < n → d < n → c + n * a ≡ d + n * b → (c ≡ d) × (a ≡ b)
digits_unique n c d a b hc hd e = elim (dec_lt a b) [
  | yes lt ↦ absurd (omega (arith, digits-lt n c d a b hc lt))
  | no ge ↦ elim (dec_lt b a) [
    | yes gt ↦ absurd (omega (arith, digits-lt n d c b a hd gt))
    | no le ↦ let same : a ≡ b = omega arith in (cancel e same, same)
  ]
]
  where
    cancel : c + n * a ≡ d + n * b → a ≡ b → c ≡ d
    cancel e same = omega (arith, ap (λ (t : ℕ). n * t) same)

module _ {D : Type 0} (fManager : Manager D) where
  -- A plane has at least as many modules as the plane before it, up to the last plane.
  abbrev pub NoFewerModules : Type 0
  NoFewerModules =
      (p : ℕ)
      → suc p < fManager.n_gem_plane
      → get_n_module fManager p ≤ get_n_module fManager (suc p)

  -- The strip is one that the detector has.
  pub record IsStrip (s : Location) : Type 0 where
    pub plane_in : s.plane < fManager.n_gem_plane
    pub module_in : s.module_ < get_n_module fManager s.plane
    pub proj_in : s.proj < 2
    pub chan_in : s.chan < fManager.chan_per_slot

  abbrev base : ℕ → ℕ
  base p = get_n_module_before fManager p * p

  base-step :
      (p : ℕ)
      → NoFewerModules
      → suc p < fManager.n_gem_plane
      → base p + get_n_module fManager p ≤ base (suc p)
  unfolding get_n_module_before
  base-step zero h lt = omega arith
  base-step (suc p) h lt = grind (arith, h p (omega arith))

  base_mono :
      (p q : ℕ)
      → NoFewerModules
      → p < q
      → q < fManager.n_gem_plane
      → base p + get_n_module fManager p ≤ base q
  base_mono p zero h lt hq = absurd (omega arith)
  base_mono p (suc q) h lt hq = elim (dec_lt p q) [
    | yes earlier ↦ omega (arith, base_mono p q h earlier (omega arith), base-step q h hq)
    | no last ↦ let same : p ≡ q = omega arith in rw same (base-step q h hq)
  ]

  slot_index_mono :
      (s t : Location)
      → NoFewerModules
      → IsStrip s
      → IsStrip t
      → s.plane < t.plane
      → slot_index fManager s < slot_index fManager t
  unfolding slot_index
  slot_index_mono s t h vs vt lt =
      omega (arith, base_mono s.plane t.plane h lt vt.plane_in, vs.module_in, vs.proj_in)

  slot_index_inj_module :
      (s t : Location)
      → IsStrip s
      → IsStrip t
      → s.plane ≡ t.plane
      → slot_index fManager s ≡ slot_index fManager t
      → (s.plane ≡ t.plane) × (s.module_ ≡ t.module_) × (s.proj ≡ t.proj)
  unfolding slot_index
  slot_index_inj_module s t vs vt p e = omega (arith, vs.proj_in, vt.proj_in, ap base p)

  -- The total slot number determines plane, module and projection.
  slot_index_inj :
      (s t : Location)
      → NoFewerModules
      → IsStrip s
      → IsStrip t
      → slot_index fManager s ≡ slot_index fManager t
      → (s.plane ≡ t.plane) × (s.module_ ≡ t.module_) × (s.proj ≡ t.proj)
  slot_index_inj s t h vs vt e = elim (dec_lt s.plane t.plane) [
    | yes lt ↦ absurd (omega (arith, slot_index_mono s t h vs vt lt))
    | no ge ↦ elim (dec_lt t.plane s.plane) [
      | yes gt ↦ absurd (omega (arith, slot_index_mono t s h vt vs gt))
      | no le ↦ slot_index_inj_module s t vs vt (omega arith) e
    ]
  ]

  module _ (max_slot : ℕ) where
    -- The key is the channel and the total slot number in mixed radix.
    make_roc_key-strip_to_rocd :
        (s : Location)
        → IsStrip s
        → make_roc_key fManager max_slot (strip_to_rocd fManager max_slot s)
          ≡ s.chan + fManager.chan_per_slot * slot_index fManager s
    unfolding make_roc_key strip_to_rocd
    make_roc_key-strip_to_rocd s v =
        let ix = slot_index fManager s in
        let whole : ix % max_slot + max_slot * (ix / max_slot) ≡ ix =
          omega (arith, div-add-mod ix max_slot) in
        rw (whole, mod-eq_of_lt v.chan_in)

    -- If no plane has fewer modules than the plane before it, two strips of the detector whose
    -- hardware addresses have one ROC key are the same strip.
    pub roc_key_inj :
        (s t : Location)
        → NoFewerModules
        → IsStrip s
        → IsStrip t
        → make_roc_key fManager max_slot (strip_to_rocd fManager max_slot s)
          ≡ make_roc_key fManager max_slot (strip_to_rocd fManager max_slot t)
        → s ≡ t
    roc_key_inj s t h vs vt e =
        let (chans, slots) =
          digits_unique fManager.chan_per_slot s.chan t.chan (slot_index fManager s)
            (slot_index fManager t) vs.chan_in vt.chan_in
            (rw (make_roc_key-strip_to_rocd s vs, make_roc_key-strip_to_rocd t vt) at e) in
        ground (arith, slot_index_inj s t h vs vt slots)

    -- The address of a strip of the detector has a slot number below SIM_MAXSLOT and a channel below
    -- the number of channels per slot, and crate and slot together give back the total slot number.
    pub strip_to_rocd_bounds :
        (s : Location)
        → 0 < max_slot
        → IsStrip s
        → let a = strip_to_rocd fManager max_slot s in
          (a.slot < max_slot)
          × (a.chan < fManager.chan_per_slot)
          × (a.crate * max_slot + a.slot ≡ slot_index fManager s)
          × (a.chan ≡ s.chan)
    unfolding strip_to_rocd
    strip_to_rocd_bounds s pos_slot v =
        let ix = slot_index fManager s in
        let chan : s.chan % fManager.chan_per_slot ≡ s.chan = mod-eq_of_lt v.chan_in in
        (omega arith, rw chan v.chan_in, div-add-mod' ix max_slot, chan)

    -- If NModule(p) * (p + 1) is NModule(p + 1) * (p + 2) + m, and plane p + 2 has a module m, then
    -- module 0 of plane p + 1 and module m of plane p + 2 share all their hardware addresses, at every
    -- projection and channel: fewer modules on a later plane make addresses collide.
    pub strip_to_rocd_collision :
        (p m proj chan : ℕ)
        → get_n_module fManager p * suc p ≡ get_n_module fManager (suc p) * suc (suc p) + m
        → m < get_n_module fManager (suc (suc p))
        → strip_to_rocd fManager max_slot
            (record { plane = suc p; module_ = 0; proj = proj; chan = chan })
          ≡ strip_to_rocd fManager max_slot
              (record { plane = suc (suc p); module_ = m; proj = proj; chan = chan })
    unfolding strip_to_rocd slot_index get_n_module_before
    strip_to_rocd_collision p m proj chan e h =
        let same : proj + 2 * (0 + get_n_module fManager p * suc p)
            ≡ proj + 2 * (m + get_n_module fManager (suc p) * suc (suc p)) =
          omega arith in
        rw same
