-- ===== src/Digitization/Tree/Places.antt =====
-- Where the strips sit that the loops of SetTreeStrips write for one chamber: each at its own place.
use libsolgem.Base.{
  ℕ, zero, suc, ◌+◌, ◌≤◌, ◌<◌, ◌≡◌, ◌≢◌, refl, ap, List, [], ◌∷◌, ◌++◌, All, All-append, All-map,
  arith,
}
use libsolgem.Database.{Manager}
use libsolgem.Double.{Double}
use libsolgem.SimEvent.{DigiGemStrip}
use libsolgem.DigitizedPlane.{DigitizedPlane}
use libsolgem.Readout.{Location}
use libsolgem.Decoder.LoadStrips.{location}
use libsolgem.Decoder.LoadStrips.RoundTrip.{AreDistinct}
use libsolgem.Digitization.{Root, Settings}
use libsolgem.Digitization.Tree.{tree_strip, tree_plane, tree_chamber}

module _ {D : Type 0} (fManager : Manager D) (max_slot : ℕ) where
  abbrev pub Distinct : List (DigiGemStrip D) → Type 0
  Distinct = AreDistinct fManager max_slot

  pub append-Distinct :
      (xs ys : List (DigiGemStrip D))
      → Distinct xs
      → Distinct ys
      → All (λ x. All (λ y. location y ≢ location x) ys) xs
      → Distinct (xs ++ ys)
  append-Distinct [] ys dx dy apart = dy
  append-Distinct (x ∷ xs) ys (new, dx) dy (here, apart) =
      (All-append _ xs ys new here, append-Distinct xs ys dx dy apart)

  -- Strip `s` is of chamber `ich` and plane `ip`, and its channel is from `lo` to below `hi`.
  pub record InPlane (ich ip lo hi : ℕ) (s : DigiGemStrip D) : Type 0 where
    pub at_plane : s.plane ≡ fManager.igem_to_plane ich
    pub at_module : s.module_ ≡ fManager.igem_to_module ich
    pub at_proj : s.proj ≡ ip
    pub above : lo ≤ s.chan
    pub below : s.chan < hi

  -- Strip `s` is of chamber `ich`, a plane from `lo` to below `hi`, and a channel below `cap`.
  pub record InChamber (ich lo hi cap : ℕ) (s : DigiGemStrip D) : Type 0 where
    pub at_plane : s.plane ≡ fManager.igem_to_plane ich
    pub at_module : s.module_ ≡ fManager.igem_to_module ich
    pub above : lo ≤ s.proj
    pub below : s.proj < hi
    pub chan_in : s.chan < cap

  -- Strip `s` is of a chamber from `lo` to below `hi`, a plane below 2 and a channel below `cap`.
  pub record InDetector (lo hi cap : ℕ) (s : DigiGemStrip D) : Type 0 where
    pub ich : ℕ
    pub at_plane : s.plane ≡ fManager.igem_to_plane ich
    pub at_module : s.module_ ≡ fManager.igem_to_module ich
    pub above : lo ≤ ich
    pub below : ich < hi
    pub proj_in : s.proj < 2
    pub chan_in : s.chan < cap

  pub chan-ne : (x y : DigiGemStrip D) → x.chan < y.chan → location y ≢ location x
  unfolding location
  chan-ne x y lt e =
      let same : y.chan ≡ x.chan = ap (λ (l : Location). l.chan) e in omega (arith, same)

  pub proj-ne : (x y : DigiGemStrip D) → x.proj < y.proj → location y ≢ location x
  unfolding location
  proj-ne x y lt e =
      let same : y.proj ≡ x.proj = ap (λ (l : Location). l.proj) e in omega (arith, same)

  module _ {R : Type 0} ⦃d : Double D⦄ (root : Root D R) (set : Settings D) where
    tree_plane-sits :
        (p : DigitizedPlane D) (ich ip left idx : ℕ) (rnd : R)
        → let ss = (tree_plane root fManager set p ich ip left idx rnd).0 in
          All (InPlane ich ip idx (idx + left)) ss × Distinct ss
    unfolding tree_plane tree_strip
    tree_plane-sits p ich ip zero idx rnd = (tt, tt)
    tree_plane-sits p ich ip (suc left) idx rnd =
        let (strip, rnd') = tree_strip root fManager set p ich ip idx rnd in
        let (rest, rnd'') = tree_plane root fManager set p ich ip left (idx + 1) rnd' in
        let (sits, distinct) = tree_plane-sits p ich ip left (idx + 1) rnd' in
        (
          (
            record {
              at_plane = refl;
              at_module = refl;
              at_proj = refl;
              above = omega arith;
              below = omega arith;
            },
            All-map _ _ rest
                (λ y (i : InPlane ich ip (idx + 1) (idx + 1 + left) y). record {
                  at_plane = i.at_plane;
                  at_module = i.at_module;
                  at_proj = i.at_proj;
                  above = omega (arith, i.above);
                  below = omega (arith, i.below);
                })
                sits,
          ),
          (
            All-map _ _ rest
                (λ y (i : InPlane ich ip (idx + 1) (idx + 1 + left) y).
                  chan-ne strip y (omega (arith, i.above)))
                sits,
            distinct,
          ),
        )

    pub tree_chamber-sits :
        (planes : ℕ → DigitizedPlane D) (cap ich left ip : ℕ) (rnd : R)
        → ((k : ℕ) → (planes k).n_strips ≤ cap)
        → let ss = (tree_chamber root fManager set planes ich left ip rnd).0 in
          All (InChamber ich ip (ip + left) cap) ss × Distinct ss
    unfolding tree_chamber
    tree_chamber-sits planes cap ich zero ip rnd small = (tt, tt)
    tree_chamber-sits planes cap ich (suc left) ip rnd small =
        let p = planes ip in
        let (strips, rnd') = tree_plane root fManager set p ich ip p.n_strips 0 rnd in
        let (rest, rnd'') = tree_chamber root fManager set planes ich left (ip + 1) rnd' in
        let (here, distinct) = tree_plane-sits p ich ip p.n_strips 0 rnd in
        let (later, distinct') = tree_chamber-sits planes cap ich left (ip + 1) rnd' small in
        (
          All-append _ strips rest
              (All-map _ _ strips
                (λ x (i : InPlane ich ip 0 (0 + p.n_strips) x). record {
                  at_plane = i.at_plane;
                  at_module = i.at_module;
                  above = omega (arith, i.at_proj);
                  below = omega (arith, i.at_proj);
                  chan_in = omega (arith, i.below, small ip);
                })
                here)
              (All-map _ _ rest
                (λ y (i : InChamber ich (ip + 1) (ip + 1 + left) cap y). record {
                  at_plane = i.at_plane;
                  at_module = i.at_module;
                  above = omega (arith, i.above);
                  below = omega (arith, i.below);
                  chan_in = i.chan_in;
                })
                later),
          append-Distinct strips rest distinct distinct' (
              All-map _ _ strips
                (λ x (i : InPlane ich ip 0 (0 + p.n_strips) x).
                  All-map _ _ rest
                    (λ y (k : InChamber ich (ip + 1) (ip + 1 + left) cap y).
                      proj-ne x y (omega (arith, i.at_proj, k.above)))
                    later)
                here),
        )
