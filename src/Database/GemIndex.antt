-- ===== src/Database/GemIndex.antt =====
-- The numbering of GEM modules in `LoadGeneralInfo`, src/TSBSDBManager.cxx: the maps fmPMtoIgem,
-- fmIgemtoPlane and fmIgemtoModule.
pub mod Numbering
use libsolgem.Base.{ℕ, zero, suc, ◌+◌, ◌&&◌, List, [], ◌∷◌, ◌==◌, if◌then◌else◌}

pub record Index : Type 0 where
  pub pm_to_igem : ℕ → ℕ → ℕ
  pub igem_to_plane : ℕ → ℕ
  pub igem_to_module : ℕ → ℕ
  pub n_gem_tot : ℕ

-- `fm[k] = v`
abbrev pub update {ℓ} : {A : Type ℓ} → (ℕ → A) → ℕ → A → ℕ → A
update f k v x = if x == k then v else f x

-- The body of the inner loop.
unfoldable pub add_module : ℕ → ℕ → Index → Index
add_module i j s = record {
  pm_to_igem = update s.pm_to_igem i (update (s.pm_to_igem i) j s.n_gem_tot);
  igem_to_plane = update s.igem_to_plane s.n_gem_tot i;
  igem_to_module = update s.igem_to_module s.n_gem_tot j;
  n_gem_tot = s.n_gem_tot + 1;
}

-- The inner loop from module `j`, with `left` modules to go.
unfoldable pub add_modules : ℕ → ℕ → ℕ → Index → Index
add_modules i zero j s = s
add_modules i (suc left) j s = add_modules i left (j + 1) (add_module i j s)

-- The outer loop from plane `i`, over the rest of NModule.
unfoldable pub add_planes : ℕ → List ℕ → Index → Index
add_planes i [] s = s
add_planes i (nmodule ∷ rest) s = add_planes (i + 1) rest (add_modules i nmodule 0 s)

abbrev pub no_gems : Index
no_gems = record {
  pm_to_igem = λ p m. 0;
  igem_to_plane = λ g. 0;
  igem_to_module = λ g. 0;
  n_gem_tot = 0;
}

unfoldable pub number_gems : List ℕ → Index
number_gems nmodule = add_planes 0 nmodule no_gems
