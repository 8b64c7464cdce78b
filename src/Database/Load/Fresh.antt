-- ===== src/Database/Load/Fresh.antt =====
-- What the requests of LoadGeneralInfo leave as it was.
use libsolgem.Base.{ℕ, ◌≡◌, refl, [], All}
use libsolgem.Base.Int.{pos_part}
use libsolgem.Database.Load.{DbRequest}
use libsolgem.Database.Load.Requests.{General, general_requests}
use libsolgem.Database.Load.Kept.{Keeps}

module _ {D : Type 0} where
  -- The requests have not touched the modules, the geometry and the signals.
  abbrev pub IsFresh : General D → Type 0
  IsFresh g =
      (g.manager.n_module ≡ [])
      × ((p : ℕ) → g.manager.pm_geo_info p ≡ [])
      × (g.manager.n_gem_plane ≡ pos_part g.planes)
      × (g.manager.sig_pid ≡ [])
      × (g.manager.sig_tid ≡ [])

-- A proof for one request and those for the rest.
infixr 30 ◌&◌
abbrev ◌&◌ : {A B : Type 0} → A → B → A × B
a & b = (a, b)

pub general_requests-Keeps :
    (D : Type 0)
    → All (λ (r : DbRequest D (General D)). Keeps IsFresh r.var) (general_requests {D = D})
unfolding general_requests
general_requests-Keeps D =
    (λ v g p. p)
    & (λ v g p. p)
    & (λ v g p. p)
    & (λ v g p. p)
    & (λ v g p. p)
    & (λ v g p. (p.0, p.1, refl, p.3, p.4))
    & (λ v g p. p)
    & (λ v g p. p)
    & (λ v g p. p)
    & (λ v g p. p)
    & (λ v g p. p)
    & (λ v g p. p)
    & (λ v g p. p)
    & (λ v g p. p)
    & (λ v g p. p)
    & (λ v g p. p)
    & (λ v g p. p)
    & (λ v g p. p)
    & (λ v g p. p)
    & (λ v g p. p)
    & (λ v g p. p)
    & (λ v g p. p)
    & (λ v g p. p)
    & (λ v g p. p)
    & (λ v g p. p)
    & (λ v g p. p)
    & tt
