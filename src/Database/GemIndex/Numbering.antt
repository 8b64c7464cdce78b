-- ===== src/Database/GemIndex/Numbering.antt =====
-- The numbering of the GEM modules is one to one: the three maps are inverse to each other.
use libsolgem.Base.{
  ℕ, zero, suc, ◌+◌, ◌≤◌, ◌<◌, ◌≡◌, refl, ◌∙◌, ◌⊎◌, inl, inr, Bool-cases, ltb→lt, ltb, ◌-◌, List,
  [], ◌∷◌, arith, get_or, ◌==◌,
}
use libsolgem.Database.GemIndex.{Index, add_module, add_modules, add_planes, no_gems, number_gems}

-- The number of modules in the planes before plane `k`.
abbrev pub offset : List ℕ → ℕ → ℕ
offset [] k = 0
offset (n ∷ ns) zero = 0
offset (n ∷ ns) (suc k) = n + offset ns k

abbrev pub total : List ℕ → ℕ
total [] = 0
total (n ∷ ns) = n + total ns

add_modules-n_gem_tot :
    (i left j : ℕ) (s : Index) → (add_modules i left j s).n_gem_tot ≡ s.n_gem_tot + left
unfolding add_modules add_module
add_modules-n_gem_tot i zero j s = omega arith
add_modules-n_gem_tot i (suc left) j s =
    omega (arith, add_modules-n_gem_tot i left (j + 1) (add_module i j s))

add_planes-n_gem_tot :
    (i : ℕ) (ns : List ℕ) (s : Index) → (add_planes i ns s).n_gem_tot ≡ s.n_gem_tot + total ns
unfolding add_planes
add_planes-n_gem_tot i [] s = omega arith
add_planes-n_gem_tot i (n ∷ ns) s =
    omega
      (arith, add_planes-n_gem_tot (i + 1) ns (add_modules i n 0 s), add_modules-n_gem_tot i n 0 s)

number_gems-n_gem_tot : (ns : List ℕ) → (number_gems ns).n_gem_tot ≡ total ns
unfolding number_gems
number_gems-n_gem_tot ns = add_planes-n_gem_tot 0 ns no_gems ∙ omega arith

-- What the loops leave alone: the entries of earlier planes and modules, and of earlier gems.
add_modules-keep :
    (i left j p m : ℕ) (s : Index)
    → (p < i) ⊎ (m < j)
    → (add_modules i left j s).pm_to_igem p m ≡ s.pm_to_igem p m
unfolding add_modules add_module
add_modules-keep i zero j p m s h = refl
add_modules-keep i (suc left) j p m s h =
    ground (arith, add_modules-keep i left (j + 1) p m (add_module i j s))

add_modules-keep_gem :
    (i left j g : ℕ) (s : Index)
    → g < s.n_gem_tot
    → ((add_modules i left j s).igem_to_plane g ≡ s.igem_to_plane g)
      × ((add_modules i left j s).igem_to_module g ≡ s.igem_to_module g)
unfolding add_modules add_module
add_modules-keep_gem i zero j g s h = (refl, refl)
add_modules-keep_gem i (suc left) j g s h =
    ground (arith, add_modules-keep_gem i left (j + 1) g (add_module i j s))

add_planes-keep :
    (i : ℕ) (ns : List ℕ) (p m : ℕ) (s : Index)
    → p < i
    → (add_planes i ns s).pm_to_igem p m ≡ s.pm_to_igem p m
unfolding add_planes
add_planes-keep i [] p m s h = refl
add_planes-keep i (n ∷ ns) p m s h = ground (
  arith,
  add_planes-keep (i + 1) ns p m (add_modules i n 0 s),
  add_modules-keep i n 0 p m s (inl h),
)

add_planes-keep_gem :
    (i : ℕ) (ns : List ℕ) (g : ℕ) (s : Index)
    → g < s.n_gem_tot
    → ((add_planes i ns s).igem_to_plane g ≡ s.igem_to_plane g)
      × ((add_planes i ns s).igem_to_module g ≡ s.igem_to_module g)
unfolding add_planes
add_planes-keep_gem i [] g s h = (refl, refl)
add_planes-keep_gem i (n ∷ ns) g s h = ground (
  arith,
  add_planes-keep_gem (i + 1) ns g (add_modules i n 0 s),
  add_modules-keep_gem i n 0 g s h,
  add_modules-n_gem_tot i n 0 s,
)

-- The three entries that the inner loop writes for module `j + k`.
record IsEntered (s : Index) (p m g : ℕ) : Type 0 where
  gem : s.pm_to_igem p m ≡ g
  plane : s.igem_to_plane g ≡ p
  mod_ : s.igem_to_module g ≡ m

add_module-IsEntered : (i j : ℕ) (s : Index) → IsEntered (add_module i j s) i j s.n_gem_tot
unfolding add_module
add_module-IsEntered i j s = ground arith

add_modules-IsEntered :
    (i left j m g : ℕ) (s : Index)
    → j ≤ m
    → m < j + left
    → g + j ≡ s.n_gem_tot + m
    → IsEntered (add_modules i left j s) i m g
unfolding add_modules
add_modules-IsEntered i zero j m g s lo hi e = absurd (omega arith)
add_modules-IsEntered i (suc left) j m g s lo hi e = elim (Bool-cases (m == j)) [
  | inl here ↦
      let same : j ≡ m = ground arith in
      let gem : s.n_gem_tot ≡ g = omega arith in
      ground (
        arith,
        add_module-IsEntered i j s,
        add_modules-keep i left (j + 1) i m (add_module i j s) (inr (omega arith)),
        add_modules-keep_gem i left (j + 1) g (add_module i j s) (unfold add_module in omega arith),
      )
  | inr later ↦
      add_modules-IsEntered i left (j + 1) m g (add_module i j s) (ground arith) (omega arith)
        (unfold add_module in omega arith)
]

add_planes-IsEntered :
    (i : ℕ) (ns : List ℕ) (k p m g : ℕ) (s : Index)
    → m < get_or ns k 0
    → p ≡ i + k
    → g ≡ s.n_gem_tot + offset ns k + m
    → IsEntered (add_planes i ns s) p m g
unfolding add_planes
add_planes-IsEntered i [] k p m g s h e f = absurd (omega arith)
add_planes-IsEntered i (n ∷ ns) zero p m g s h e f =
    let same : i ≡ p = omega arith in
    ground (
      arith,
      add_modules-IsEntered i n 0 m g s,
      add_modules-n_gem_tot i n 0 s,
      add_planes-keep (i + 1) ns p m (add_modules i n 0 s),
      add_planes-keep_gem (i + 1) ns g (add_modules i n 0 s),
    )
add_planes-IsEntered i (n ∷ ns) (suc k) p m g s h e f =
    add_planes-IsEntered (i + 1) ns k p m g (add_modules i n 0 s) h (omega arith)
      (omega (arith, add_modules-n_gem_tot i n 0 s))

number_gems-IsEntered :
    (ns : List ℕ) (p m : ℕ) → m < get_or ns p 0 → IsEntered (number_gems ns) p m (offset ns p + m)
unfolding number_gems
number_gems-IsEntered ns p m h =
    add_planes-IsEntered 0 ns p p m (offset ns p + m) no_gems h (omega arith) (omega arith)

offset-lt-total : (ns : List ℕ) (p m : ℕ) → m < get_or ns p 0 → offset ns p + m < total ns
offset-lt-total [] p m h = absurd (omega arith)
offset-lt-total (n ∷ ns) zero m h = omega arith
offset-lt-total (n ∷ ns) (suc p) m h = omega (arith, offset-lt-total ns p m h)

-- Where the gem `g` sits.
locate :
    (ns : List ℕ) (g : ℕ)
    → g < total ns
    → (p : ℕ) × (m : ℕ) × (m < get_or ns p 0) × (offset ns p + m ≡ g)
locate [] g h = absurd (omega arith)
locate (n ∷ ns) g h = elim (Bool-cases (ltb g n)) [
  | inl here ↦ (0, g, ltb→lt g n here, omega arith)
  | inr later ↦ let (p, m, lt, e) = locate ns (g - n) (ground arith) in (suc p, m, lt, ground arith)
]

-- For every module `m` of every plane `p` listed in `nmodule`, the gem number that the maps give is
-- below the total number of modules, and the plane and module of that gem number are `p` and `m`.
pub gem_id_round_trip :
    (nmodule : List ℕ) (p m : ℕ)
    → m < get_or nmodule p 0
    → let s = number_gems nmodule in
      let g = s.pm_to_igem p m in
      (g < s.n_gem_tot) × (s.igem_to_plane g ≡ p) × (s.igem_to_module g ≡ m)
gem_id_round_trip nmodule p m h = ground (
  arith,
  number_gems-IsEntered nmodule p m h,
  offset-lt-total nmodule p m h,
  number_gems-n_gem_tot nmodule,
)

-- Every gem number below the total belongs to a module that exists: its module number is below the
-- module count of its plane, and that plane and module have this gem number.
pub plane_module_round_trip :
    (nmodule : List ℕ) (g : ℕ)
    → g < (number_gems nmodule).n_gem_tot
    → let s = number_gems nmodule in
      (s.igem_to_module g < get_or nmodule (s.igem_to_plane g) 0)
      × (s.pm_to_igem (s.igem_to_plane g) (s.igem_to_module g) ≡ g)
plane_module_round_trip nmodule g h =
    let (p, m, lt, e) = locate nmodule g (omega (arith, number_gems-n_gem_tot nmodule)) in
    let r = rw e at (number_gems-IsEntered nmodule p m lt) in rw (r.plane, r.mod_) (lt, r.gem)
