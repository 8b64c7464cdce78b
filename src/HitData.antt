-- ===== src/HitData.antt =====
-- src/TSBSGEMSimHitData.{h,cxx}: the Monte Carlo hits of one event. `fHitData[k]` out of range is
-- undefined: the model reads a blank hit there and writes nothing.
pub mod Hits
use libsolgem.Base.{ℕ, zero, suc, ℤ, pos, List, [], ◌∷◌, get_or, set, length, ◌==◌, if◌then◌else◌}
use libsolgem.Double.{Double, of_ℕ}
use libsolgem.SimEvent.{Vec3}

-- GEMHitData_t
pub record HitDatum (D : Type 0) : Type 0 where
  pub gem : ℕ
  pub plane : ℕ
  pub module_ : ℕ
  pub edep : D
  pub time : D
  pub type : ℕ
  pub trid : ℕ
  pub pid : ℤ
  pub xi : Vec3 D
  pub xo : Vec3 D
  pub xr : Vec3 D
  pub mom : Vec3 D
  pub vert : Vec3 D

pub record HitData (D : Type 0) : Type 0 where
  pub run_id : ℕ
  pub evt_id : ℕ
  pub source : ℤ
  pub hits : List (HitDatum D)

-- std::vector::resize, which fills up with `a`.
unfoldable pub resize {ℓ} : {A : Type ℓ} → A → ℕ → List A → List A
resize a zero xs = []
resize a (suc n) [] = a ∷ resize a n []
resize a (suc n) (x ∷ xs) = x ∷ resize a n xs

module _ {D : Type 0} ⦃d : Double D⦄ where
  abbrev no_vector : Vec3 D
  no_vector = record { x = of_ℕ 0; y = of_ℕ 0; z = of_ℕ 0 }

  -- A value-initialized hit.
  abbrev pub blank : HitDatum D
  blank = record {
    gem = 0;
    plane = 0;
    module_ = 0;
    edep = of_ℕ 0;
    time = of_ℕ 0;
    type = 0;
    trid = 0;
    pid = pos 0;
    xi = no_vector;
    xo = no_vector;
    xr = no_vector;
    mom = no_vector;
    vert = no_vector;
  }

  -- `fHitData[k]`, behind all getters of a hit.
  unfoldable pub hit_at : HitData D → ℕ → HitDatum D
  hit_at g k = get_or g.hits k blank

  -- A write to a field of `fHitData[k]`.
  unfoldable pub modify_hit : (HitDatum D → HitDatum D) → ℕ → HitData D → HitData D
  unfolding hit_at
  modify_hit f k g = record g { hits = set g.hits k (f (hit_at g k)) }

  unfoldable pub set_nhit : ℕ → HitData D → HitData D
  unfolding resize
  set_nhit h g = record g { hits = resize blank h g.hits }

  unfoldable pub init_event : ℕ → HitData D → HitData D
  unfolding set_nhit
  init_event h g = if h == 0 then g else set_nhit h g

  unfoldable pub set_momentum : ℕ → Vec3 D → HitData D → HitData D
  set_momentum k p = modify_hit (λ h. record h { mom = p }) k

  unfoldable pub set_hit_entrance : ℕ → Vec3 D → HitData D → HitData D
  set_hit_entrance k x_ent = modify_hit (λ h. record h { xi = x_ent }) k

  unfoldable pub set_hit_exit : ℕ → Vec3 D → HitData D → HitData D
  set_hit_exit k x_exit = modify_hit (λ h. record h { xo = x_exit }) k

  unfoldable pub set_hit_readout : ℕ → Vec3 D → HitData D → HitData D
  set_hit_readout k x_read = modify_hit (λ h. record h { xr = x_read }) k

  unfoldable pub set_vertex : ℕ → Vec3 D → HitData D → HitData D
  set_vertex k v = modify_hit (λ h. record h { vert = v }) k

  unfoldable pub set_hit_energy : ℕ → D → HitData D → HitData D
  set_hit_energy k e = modify_hit (λ h. record h { edep = e }) k

  unfoldable pub set_hit_time : ℕ → D → HitData D → HitData D
  set_hit_time k t = modify_hit (λ h. record h { time = t }) k

  unfoldable pub set_hit_chamber : ℕ → ℕ → HitData D → HitData D
  set_hit_chamber k c = modify_hit (λ h. record h { gem = c }) k

  unfoldable pub set_hit_plane : ℕ → ℕ → HitData D → HitData D
  set_hit_plane k p = modify_hit (λ h. record h { plane = p }) k

  unfoldable pub set_hit_module : ℕ → ℕ → HitData D → HitData D
  set_hit_module k m = modify_hit (λ h. record h { module_ = m }) k

  unfoldable pub set_particle_type : ℕ → ℕ → HitData D → HitData D
  set_particle_type k type = modify_hit (λ h. record h { type = type }) k

  unfoldable pub set_track_id : ℕ → ℕ → HitData D → HitData D
  set_track_id k trid = modify_hit (λ h. record h { trid = trid }) k

  unfoldable pub set_particle_id : ℕ → ℤ → HitData D → HitData D
  set_particle_id k pid = modify_hit (λ h. record h { pid = pid }) k

-- GetNHit, and the operations on the event as a whole.
module _ {D : Type 0} where
  unfoldable pub get_nhit : HitData D → ℕ
  get_nhit g = length g.hits

  unfoldable pub clear_hits : HitData D → HitData D
  clear_hits g = record g { hits = [] }

  unfoldable pub set_event : ℕ → HitData D → HitData D
  set_event id g = record g { evt_id = id }

  unfoldable pub set_run : ℕ → HitData D → HitData D
  set_run r g = record g { run_id = r }

  unfoldable pub set_source : ℤ → HitData D → HitData D
  set_source s g = record g { source = s }

  -- The constructor.
  unfoldable pub new_hit_data : HitData D
  new_hit_data = record { run_id = 0; evt_id = 0; source = pos 0; hits = [] }
