-- ===== src/Geant4File/Calorimeter/BigBite.antt =====
-- GetBBECalCluster of src/TSBSGeant4File.cxx: the preshower and the shower of BigBite. The sums Edep_PS
-- and Edep_SH, which nothing reads, are left out.
use libsolgem.Base.{pos, negsuc, Bool, ◌&&◌, List, [], ◌∷◌, ◌++◌, if◌then◌else◌}
use libsolgem.Database.{Manager}
use libsolgem.Digitization.{Root}
use libsolgem.Double.{Double, ◌⊕◌, ◌⊖◌, ◌⊗◌, ◌⊘◌, ◌≺◌, ◌≼◌, of_ℤ, of_ℕ, decimal}
use libsolgem.Geant4File.{Geant4File, add_cluster}
use libsolgem.Geant4File.Calorimeter.{Block, CaloHit, calo_cluster}

-- The blocks of the preshower have no x coordinate.
pub record PsBlock (D : Type 0) : Type 0 where
  pub energy : D
  pub y : D

pub record BbSearch (D : Type 0) : Type 0 where
  pub edep_ps_max : D
  pub edep_sh_max : D
  pub edep_xmax : D
  pub edep_ymax : D
  pub bbps : List (PsBlock D)
  pub bbsh : List (Block D)

-- The sums over the blocks around the maximum.
pub record BbSums (D : Type 0) : Type 0 where
  pub e_rec : D
  pub e_rec_sh : D
  pub x_rec : D
  pub y_rec : D

module _ {D : Type 0} ⦃d : Double D⦄ where
  abbrev new_search : BbSearch D
  new_search = record {
    edep_ps_max = of_ℕ 0;
    edep_sh_max = of_ℕ 0;
    edep_xmax = of_ℕ 0;
    edep_ymax = of_ℕ 0;
    bbps = [];
    bbsh = [];
  }

  unfoldable pub add_ps : D → CaloHit D → BbSearch D → BbSearch D
  add_ps edep h s = record s {
    edep_ps_max = if s.edep_ps_max ≺ edep then edep else s.edep_ps_max;
    edep_ymax = if s.edep_ps_max ≺ edep then h.ycell else s.edep_ymax;
    bbps = s.bbps ++ record { energy = edep; y = h.ycell } ∷ [];
  }

  unfoldable pub add_sh : D → CaloHit D → BbSearch D → BbSearch D
  add_sh edep h s = record s {
    edep_sh_max = if s.edep_sh_max ≺ edep then edep else s.edep_sh_max;
    edep_xmax = if s.edep_sh_max ≺ edep then h.xcell else s.edep_xmax;
    edep_ymax = if s.edep_sh_max ≺ edep && s.edep_ps_max ≺ edep then h.ycell else s.edep_ymax;
    bbsh = s.bbsh ++ record { energy = edep; x = h.xcell; y = h.ycell } ∷ [];
  }

  -- Within two blocks of the maximum.
  unfoldable pub in_crown : D → D → Bool
  in_crown place max_ = d.abs (place ⊖ max_) ≼ decimal (pos 85) 3 ⊗ of_ℕ 2 ⊕ decimal (pos 1) 2

  unfoldable pub sum_ps : D → List (PsBlock D) → BbSums D → BbSums D
  unfolding in_crown
  sum_ps ymax [] t = t
  sum_ps ymax (b ∷ rest) t =
      sum_ps ymax rest (if in_crown b.y ymax then record t { e_rec = t.e_rec ⊕ b.energy } else t)

  unfoldable pub sum_sh : D → D → List (Block D) → BbSums D → BbSums D
  unfolding in_crown
  sum_sh xmax ymax [] t = t
  sum_sh xmax ymax (b ∷ rest) t = sum_sh xmax ymax rest (
      if in_crown b.x xmax && in_crown b.y ymax
      then record {
        e_rec = t.e_rec ⊕ b.energy;
        e_rec_sh = t.e_rec_sh ⊕ b.energy;
        x_rec = t.x_rec ⊕ b.energy ⊗ of_ℤ (negsuc 0) ⊗ b.y;
        y_rec = t.y_rec ⊕ b.energy ⊗ b.x;
      }
      else t)

  module _ {R : Type 0} (root : Root D R) (fManager : Manager D) where
    -- The energy that a smeared number of photoelectrons stands for.
    unfoldable pub smear : (npe_edep sigma edep : D) → R → D × R
    smear npe_edep sigma edep rnd =
        let (npe, rnd') = root.gaus (npe_edep ⊗ edep) (sigma ⊗ edep) rnd in (npe ⊘ npe_edep, rnd')

    unfoldable pub ps_hits : List (CaloHit D) → BbSearch D → R → BbSearch D × R
    unfolding smear
    ps_hits [] s rnd = (s, rnd)
    ps_hits (h ∷ rest) s rnd =
        let (edep, rnd') = smear (of_ℕ 1550) (of_ℕ 158) h.sumedep rnd in
        ps_hits rest (add_ps edep h s) rnd'

    unfoldable pub sh_hits : List (CaloHit D) → BbSearch D → R → BbSearch D × R
    unfolding smear
    sh_hits [] s rnd = (s, rnd)
    sh_hits (h ∷ rest) s rnd =
        let (edep, rnd') = smear (of_ℕ 2335) (of_ℕ 147) h.sumedep rnd in
        sh_hits rest (add_sh edep h s) rnd'

    unfoldable pub crown_sums : BbSearch D → BbSums D
    unfolding sum_ps sum_sh
    crown_sums s =
        let none_ : BbSums D = record {
          e_rec = of_ℕ 0;
          e_rec_sh = of_ℕ 0;
          x_rec = of_ℕ 0;
          y_rec = of_ℕ 0;
        } in
        sum_sh s.edep_xmax s.edep_ymax s.bbsh (sum_ps s.edep_ymax s.bbps none_)

    unfoldable pub get_bb_ecal_cluster :
        (ps sh : List (CaloHit D)) → Geant4File D → R → Geant4File D × R
    unfolding crown_sums
    get_bb_ecal_cluster ps sh f rnd =
        let (s1, rnd1) = ps_hits ps new_search rnd in
        let (s2, rnd2) = sh_hits sh s1 rnd1 in
        let t = crown_sums s2 in
        let c =
          calo_cluster t.e_rec (t.x_rec ⊘ t.e_rec_sh) (t.y_rec ⊘ t.e_rec_sh) (of_ℕ 0) (of_ℕ 0)
            (pos 10) in
        (if fManager.calo_thr ≺ t.e_rec then add_cluster c f else f, rnd2)
