-- ===== src/Database/Load/Geometry.antt =====
-- LoadGeoInfo of src/TSBSDBManager.cxx. `none` is a call of exit.
use libsolgem.Base.{◌>>=◌, ℕ, zero, suc, ◌+◌, Bool, Option, some, List, [], ◌∷◌, ◌++◌, get_or}
use libsolgem.Database.{Manager, GeoInfo}
use libsolgem.Database.GemIndex.{update}
use libsolgem.Database.Keys.{open_input}
use libsolgem.Database.Load.{Streams, load_or_exit}
use libsolgem.Database.Load.Requests.{geo_requests, plane_requests}

module _ {S D : Type 0} (io : Streams S D) (show : ℕ → List ℕ) where
  unfoldable pub module_prefix : List ℕ → ℕ → ℕ → List ℕ
  module_prefix prefix i j =
      prefix
      ++ (b'.' ∷ b'p' ∷ b'l' ∷ b'a' ∷ b'n' ∷ b'e' ∷ [])
      ++ show i
      ++ (b'.' ∷ b'm' ∷ b'o' ∷ b'd' ∷ b'u' ∷ b'l' ∷ b'e' ∷ [])
      ++ show j
      ++ b'.' ∷ []

  -- The loop over the modules of a plane, with thisGeo.
  unfoldable pub load_modules :
      List (List ℕ) → List ℕ → ℕ → ℕ → ℕ → GeoInfo D → Manager D → Option (GeoInfo D × Manager D)
  load_modules lines prefix i zero j geo m = some (geo, m)
  load_modules lines prefix i (suc left) j geo m =
      load_or_exit io lines (module_prefix prefix i j) geo_requests geo >>= λ g.
      load_or_exit io lines (module_prefix prefix i j) plane_requests g >>= λ h.
      load_modules lines prefix i left (j + 1) h
        (record m { pm_geo_info = update m.pm_geo_info i (m.pm_geo_info i ++ h ∷ []) })

  unfoldable pub load_planes :
      List (List ℕ) → List ℕ → ℕ → ℕ → GeoInfo D → Manager D → Option (Manager D)
  unfolding load_modules
  load_planes lines prefix zero i geo m = some m
  load_planes lines prefix (suc left) i geo m =
      load_modules lines prefix i (get_or m.n_module i 0) 0 geo m >>= λ (g, m').
      load_planes lines prefix left (i + 1) g m'

  module _ (good : List ℕ → Bool) (db_dir libsbsgem : Option (List ℕ))
      (lines_of : List ℕ → List (List ℕ)) where
    unfoldable pub load_geo_info : GeoInfo D → List ℕ → Manager D → Option (Manager D)
    load_geo_info unset prefix m =
        open_input good db_dir libsbsgem
          ((b'd' ∷ b'b' ∷ b'_' ∷ []) ++ prefix ++ b'.' ∷ b'd' ∷ b'a' ∷ b't' ∷ [])
        >>= λ path. load_planes (lines_of path) prefix m.n_gem_plane 0 unset m
