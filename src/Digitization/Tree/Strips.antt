-- ===== src/Digitization/Tree/Strips.antt =====
-- The strips that SetTreeStrips writes are strips of the detector, each once, so that the decoder finds
-- each of them again.
use libsolgem.Base.{
  ℕ, zero, suc, ◌+◌, ◌≤◌, ◌<◌, ℤ, pos, ◌≡◌, ◌≢◌, sym, ap, ◌∙◌, Option, some, List, [], ◌∷◌, All,
  All-append, All-map, length, get_or, get_elem?, arith,
}
use libsolgem.Database.{Manager, get_n_module}
use libsolgem.Database.GemIndex.{number_gems}
use libsolgem.Database.GemIndex.Numbering.{plane_module_round_trip}
use libsolgem.Double.{Double}
use libsolgem.SimEvent.{DigiGemStrip}
use libsolgem.DigitizedPlane.{DigitizedPlane}
use libsolgem.Readout.{Location, Address}
use libsolgem.Readout.Addresses.{NoFewerModules, IsStrip}
use libsolgem.Readout.StripMap.{StripMap, strip_from_key}
use libsolgem.Decoder.LoadStrips.{location, load_strips, strip_key}
use libsolgem.Decoder.LoadStrips.RoundTrip.{AreDistinct, AreStrips, strip_from_roc_round_trip}
use libsolgem.Digitization.Tree.Places.{
  Distinct, append-Distinct, InChamber, InDetector, tree_chamber-sits,
}
use libsolgem.Digitization.{Root, Settings, Digitizer}
use libsolgem.Digitization.Tree.{tree_chamber, tree_chambers, set_tree_strips}

-- The maps of the manager are those that LoadGeneralInfo numbers.
pub record IsLoaded {D : Type 0} (fManager : Manager D) : Type 0 where
  pub n_planes : fManager.n_gem_plane ≡ length fManager.n_module
  pub to_plane : fManager.igem_to_plane ≡ (number_gems fManager.n_module).igem_to_plane
  pub to_module : fManager.igem_to_module ≡ (number_gems fManager.n_module).igem_to_module

-- The detector has all chambers of the digitization, and each has at most two planes, of at most as
-- many strips as a slot has channels.
pub record Fits {D R : Type 0} (fManager : Manager D) (t : Digitizer D R) : Type 0 where
  pub chambers : t.n_chambers ≤ (number_gems fManager.n_module).n_gem_tot
  pub planes : (ic : ℕ) → t.n_planes ic ≤ 2
  pub strips : (ic ip : ℕ) → (t.dp ic ip).n_strips ≤ fManager.chan_per_slot

get_or-in : (ns : List ℕ) (k m : ℕ) → m < get_or ns k 0 → k < length ns
get_or-in [] k m h = absurd (omega arith)
get_or-in (n ∷ ns) zero m h = omega arith
get_or-in (n ∷ ns) (suc k) m h = omega (arith, get_or-in ns k m h)

module _ {D : Type 0} (fManager : Manager D) (max_slot : ℕ) where
  module _ {R : Type 0} ⦃d : Double D⦄ (root : Root D R) (set : Settings D) where
    module _ (loaded : IsLoaded fManager) where
      abbrev n_gems : ℕ
      n_gems = (number_gems fManager.n_module).n_gem_tot

      chamber-ne :
          (x y : DigiGemStrip D) (ich ich' : ℕ)
          → ich < ich'
          → ich' < n_gems
          → x.plane ≡ fManager.igem_to_plane ich
          → x.module_ ≡ fManager.igem_to_module ich
          → y.plane ≡ fManager.igem_to_plane ich'
          → y.module_ ≡ fManager.igem_to_module ich'
          → location y ≢ location x
      unfolding location
      chamber-ne x y ich ich' lt in_range xp xm yp ym e =
          let index = number_gems fManager.n_module in
          let planes : y.plane ≡ x.plane = ap (λ (l : Location). l.plane) e in
          let modules : y.module_ ≡ x.module_ = ap (λ (l : Location). l.module_) e in
          let p : index.igem_to_plane ich' ≡ index.igem_to_plane ich =
            rw (← loaded.to_plane) (sym yp ∙ planes ∙ xp) in
          let m : index.igem_to_module ich' ≡ index.igem_to_module ich =
            rw (← loaded.to_module) (sym ym ∙ modules ∙ xm) in
          let one = (plane_module_round_trip fManager.n_module ich (omega arith)).1 in
          let other = (plane_module_round_trip fManager.n_module ich' in_range).1 in
          let same : ich' ≡ ich = sym other ∙ rw (p, m) one in omega (arith, same)

      tree_chambers-sits :
          (nplanes : ℕ → ℕ) (dp : ℕ → ℕ → DigitizedPlane D) (cap left ich : ℕ) (rnd : R)
          → ((c : ℕ) → nplanes c ≤ 2)
          → ((c k : ℕ) → (dp c k).n_strips ≤ cap)
          → ich + left ≤ n_gems
          → let ss = (tree_chambers root fManager set nplanes dp left ich rnd).0 in
            All (InDetector fManager max_slot ich (ich + left) cap) ss
            × Distinct fManager max_slot ss
      unfolding tree_chambers
      tree_chambers-sits nplanes dp cap zero ich rnd two small fit = (tt, tt)
      tree_chambers-sits nplanes dp cap (suc left) ich rnd two small fit =
          let (strips, rnd') = tree_chamber root fManager set (dp ich) ich (nplanes ich) 0 rnd in
          let (rest, rnd'') = tree_chambers root fManager set nplanes dp left (ich + 1) rnd' in
          let (here, distinct) =
            tree_chamber-sits fManager max_slot root set (dp ich) cap ich (nplanes ich) 0 rnd
              (small ich) in
          let (later, distinct') =
            tree_chambers-sits nplanes dp cap left (ich + 1) rnd' two small (omega arith) in
          (
            All-append _ strips rest
                (All-map _ _ strips
                  (λ x (i : InChamber fManager max_slot ich 0 (0 + nplanes ich) cap x). record {
                    ich = ich;
                    at_plane = i.at_plane;
                    at_module = i.at_module;
                    above = omega arith;
                    below = omega arith;
                    proj_in = omega (arith, i.below, two ich);
                    chan_in = i.chan_in;
                  })
                  here)
                (All-map _ _ rest
                  (λ y (i : InDetector fManager max_slot (ich + 1) (ich + 1 + left) cap y). record {
                    ich = i.ich;
                    at_plane = i.at_plane;
                    at_module = i.at_module;
                    above = omega (arith, i.above);
                    below = omega (arith, i.below);
                    proj_in = i.proj_in;
                    chan_in = i.chan_in;
                  })
                  later),
            append-Distinct fManager max_slot strips rest distinct distinct' (
                All-map _ _ strips
                  (λ x (i : InChamber fManager max_slot ich 0 (0 + nplanes ich) cap x).
                    All-map _ _ rest
                      (λ y (k : InDetector fManager max_slot (ich + 1) (ich + 1 + left) cap y).
                        chamber-ne x y ich k.ich (omega (arith, k.above))
                          (omega (arith, k.below, fit)) i.at_plane i.at_module k.at_plane
                          k.at_module)
                      later)
                  here),
          )

      InDetector-IsStrip :
          (lo hi : ℕ) (x : DigiGemStrip D)
          → hi ≤ n_gems
          → InDetector fManager max_slot lo hi fManager.chan_per_slot x
          → IsStrip fManager (location x)
      unfolding location get_n_module
      InDetector-IsStrip lo hi x fit i =
          let index = number_gems fManager.n_module in
          let plane : x.plane ≡ index.igem_to_plane i.ich =
            i.at_plane ∙ ap (λ (f : ℕ → ℕ). f i.ich) loaded.to_plane in
          let module_ : x.module_ ≡ index.igem_to_module i.ich =
            i.at_module ∙ ap (λ (f : ℕ → ℕ). f i.ich) loaded.to_module in
          let lt : index.igem_to_module i.ich
              < get_or fManager.n_module (index.igem_to_plane i.ich) 0 =
            (plane_module_round_trip fManager.n_module i.ich (omega (arith, i.below))).0 in
          let lt' : x.module_ < get_or fManager.n_module x.plane 0 = rw (plane, module_) lt in
          record {
            plane_in =
                omega (arith, loaded.n_planes, get_or-in fManager.n_module x.plane x.module_ lt');
            module_in = lt';
            proj_in = i.proj_in;
            chan_in = i.chan_in;
          }

      -- SetTreeStrips writes strips of the detector, no two at one place, if the manager's maps are
      -- those of LoadGeneralInfo and the chambers, planes and strips of the digitization fit it.
      pub set_tree_strips-AreDistinct :
          (t : Digitizer D R)
          → Fits fManager t
          → let ss = (set_tree_strips root fManager set t).event.gem_strips in
            AreStrips fManager max_slot ss × AreDistinct fManager max_slot ss
      unfolding set_tree_strips
      set_tree_strips-AreDistinct t fits =
          let (sits, distinct) =
            tree_chambers-sits t.n_planes t.dp fManager.chan_per_slot t.n_chambers 0 t.trnd
              fits.planes fits.strips (omega (arith, fits.chambers)) in
          (
            All-map _ _ (tree_chambers root fManager set t.n_planes t.dp t.n_chambers 0 t.trnd).0
                (λ x. InDetector-IsStrip 0 (0 + t.n_chambers) x (omega (arith, fits.chambers)))
                sits,
            distinct,
          )

      -- The digitization and the decoder agree on where a strip is: suppose that the manager's maps are
      -- those of LoadGeneralInfo, that no plane has fewer modules than the plane before it, and that the
      -- chambers, planes and strips of the digitization fit the detector. If the decoder loads the strips
      -- that SetTreeStrips has written without an error, StripFromROC maps the hardware address of the
      -- n-th of them back to n.
      pub set_tree_strips-load_strips :
          (C : Type 0) (load_data : C → Address → ℤ → Option C) (t : Digitizer D R) (n : ℕ)
          (strip : DigiGemStrip D) (slots slots' : C) (m : StripMap)
          → NoFewerModules fManager
          → Fits fManager t
          → let ss = (set_tree_strips root fManager set t).event.gem_strips in
            load_strips C load_data fManager max_slot ss 0 slots [] ≡ some (slots', m)
            → get_elem? ss n ≡ some strip
            → strip_from_key m (strip_key fManager max_slot strip) ≡ pos n
      set_tree_strips-load_strips C load_data t n strip slots slots' m h fits e at =
          let (are, distinct) = set_tree_strips-AreDistinct t fits in
          strip_from_roc_round_trip C load_data fManager max_slot _ n strip slots slots' m h are
            distinct e at
