-- ===== src/SimEvent.antt =====
-- src/TSBSSimEvent.{h,cxx}: the event that the digitization writes and the decoder reads. Arrays of
-- a fixed length are functions of the index; a TClonesArray of tracks is a list.
use libsolgem.Base.{ℕ, ℤ, pos, Bool, false, List, [], ◌∷◌, ◌++◌, if◌then◌else◌}
use libsolgem.Double.{Double, of_ℕ}

-- TVector3
pub record Vec3 (D : Type 0) : Type 0 where
  pub x : D
  pub y : D
  pub z : D

-- TSBSSimEvent::GEMCluster
pub record GemCluster (D : Type 0) : Type 0 where
  pub id : ℕ
  pub sector : ℤ
  pub plane : ℤ
  pub module_ : ℕ
  pub real_sector : ℤ
  pub source : ℤ
  pub type : ℤ
  pub trid : ℤ
  pub pid : ℤ
  pub p : Vec3 D
  pub p_spec : Vec3 D
  pub x_entry : Vec3 D
  pub mc_pos : Vec3 D
  pub hit_pos : Vec3 D
  pub charge : D
  pub time : D
  pub size : ℕ → ℕ
  pub start : ℕ → ℤ
  pub x_proj : ℕ → D
  pub vertex : Vec3 D

-- TSBSSimEvent::DigiGEMStrip. `adc` and `cluster_ratio` are the first fNsamp entries.
pub record DigiGemStrip (D : Type 0) : Type 0 where
  pub sector : ℤ
  pub plane : ℕ
  pub module_ : ℕ
  pub proj : ℕ
  pub chan : ℕ
  pub sig_type : ℕ
  pub charge : D
  pub time1 : D
  pub n_samp : ℕ
  pub adc : List ℤ
  pub clusters : List ℕ
  pub cluster_ratio : List (List ℕ)
  pub strip_weight : List D

-- TSBSSimTrack with the fields of Podd::MCTrack that the code reads and writes.
pub record SimTrack (D : Type 0) : Type 0 where
  pub number : ℤ
  pub pid : ℤ
  pub origin : Vec3 D
  pub momentum : Vec3 D
  pub vertex_target : Vec3 D
  pub momentum_target : Vec3 D
  pub n_hits : ℕ
  pub hit_bits : ℕ

pub record EcalCluster (D : Type 0) : Type 0 where
  pub energy : D
  pub x_pos : D
  pub y_pos : D
  pub x_max : D
  pub y_max : D
  pub time : D
  pub det_flag : ℤ

pub record ScintCluster (D : Type 0) : Type 0 where
  pub ecal : EcalCluster D
  pub plane : ℤ

pub record SimEvent (D : Type 0) : Type 0 where
  pub run_id : ℤ
  pub evt_id : ℤ
  pub weight : D
  pub mc_tracks : List (SimTrack D)
  pub n_signal : ℕ
  pub sectors_mapped : Bool
  pub signal_sector : ℤ
  pub gem_clust : List (GemCluster D)
  pub gem_strips : List (DigiGemStrip D)
  pub ecal_clusters : List (EcalCluster D)
  pub scint_clusters : List (ScintCluster D)

module _ {D : Type 0} where
  -- The constructor of a track; Podd::MCTrack starts its hit counters at 0.
  unfoldable pub new_track : ℤ → ℤ → Vec3 D → Vec3 D → Vec3 D → Vec3 D → SimTrack D
  new_track number pid vertex momentum vertexAtTarget momentumAtTarget = record {
    number = number;
    pid = pid;
    origin = vertex;
    momentum = momentum;
    vertex_target = vertexAtTarget;
    momentum_target = momentumAtTarget;
    n_hits = 0;
    hit_bits = 0;
  }

  unfoldable pub add_track : ℤ → ℤ → Vec3 D → Vec3 D → Vec3 D → Vec3 D → SimEvent D → SimEvent D
  unfolding new_track
  add_track number pid vertex momentum vertexAtTarget momentumAtTarget e = record e {
    mc_tracks =
        e.mc_tracks ++ new_track number pid vertex momentum vertexAtTarget momentumAtTarget ∷ [];
  }

  -- Clear; `all` is whether the option contains "all".
  unfoldable pub clear_event : Bool → SimEvent D → SimEvent D
  clear_event all e =
      let hits = record e { n_signal = 0; gem_clust = []; gem_strips = [] } in
      if all then record hits { ecal_clusters = []; scint_clusters = []; mc_tracks = [] } else hits

-- The constructor TSBSSimEvent(ntracks).
unfoldable pub new_event : {D : Type 0} ⦃d : Double D⦄ → SimEvent D
new_event = record {
  run_id = pos 0;
  evt_id = pos 0;
  weight = of_ℕ 1;
  mc_tracks = [];
  n_signal = 0;
  sectors_mapped = false;
  signal_sector = pos 0;
  gem_clust = [];
  gem_strips = [];
  ecal_clusters = [];
  scint_clusters = [];
}
