-- ===== src/Decoder/Clusters.antt =====
-- The loop of DoLoadEvent over the clusters, in src/TSBSSimDecoder.cxx: the hits, the points of the
-- primary track. TClonesArrays are lists.
-- A cluster at an illegal plane ends the loop with HED_FATAL, which is `none`. MCTrackPoint is Podd's;
-- of its fields the model has those that the code writes and reads.
pub mod Scan
pub mod Primary
use libsolgem.Base.{
  ℕ, zero, suc, ◌+◌, ◌-◌, ◌*◌, ◌/◌, ◌%◌, ◌^◌, bit_or, bit_and, ℤ, pos, negsuc, Bool, true, false,
  not, ◌&&◌, ◌||◌, Option, none, some, ◌>>=◌, List, [], ◌∷◌, ◌++◌, get_elem?, ◌==◌, if◌then◌else◌,
}
use libsolgem.Base.Int.{◌+ℤ◌, ltb_ℤ, leb_ℤ, eqb_ℤ, pos_part}
use libsolgem.Double.{Double, ◌⊕◌, ◌⊖◌, ◌⊗◌, ◌≼◌, of_ℕ}
use libsolgem.Database.{Manager}
use libsolgem.Database.Access.{◌is◌}
use libsolgem.SimEvent.{Vec3, GemCluster, SimTrack}

-- TSBSSimGEMHit
pub record SimGemHit (D : Type 0) : Type 0 where
  pub id : ℕ
  pub sector : ℤ
  pub plane : ℤ
  pub module_ : ℕ
  pub source : ℤ
  pub type : ℤ
  pub pid : ℤ
  pub p : Vec3 D
  pub x_entry : Vec3 D
  pub mc_pos : Vec3 D
  pub hit_pos : Vec3 D
  pub charge : D
  pub time : D
  pub u_size : ℕ
  pub u_start : ℤ
  pub u_pos : D
  pub v_size : ℕ
  pub v_start : ℤ
  pub v_pos : D

-- kXPlane and kYPlane
pub data Projection : Type 0 where
  x_plane y_plane : Projection

pub record TrackPoint (D : Type 0) : Type 0 where
  pub mc_track : ℤ
  pub plane : ℤ
  pub type : Projection
  pub mc_point : Vec3 D
  pub mc_p : Vec3 D
  pub mc_time : D
  pub digitized : Bool
  pub delta_e : D
  pub deflect : D
  pub tof : D

-- SETBIT, on an unsigned number.
unfoldable pub set_bit : ℕ → ℕ → ℕ
set_bit n i = bit_or n (2 ^ i)

module _ {D : Type 0} where
  unfoldable pub new_gem_hit : GemCluster D → SimGemHit D
  new_gem_hit c = record {
    id = c.id;
    sector = c.sector;
    plane = c.plane;
    module_ = c.module_;
    source = c.source;
    type = c.type;
    pid = c.pid;
    p = c.p;
    x_entry = c.x_entry;
    mc_pos = c.mc_pos;
    hit_pos = c.hit_pos;
    charge = c.charge;
    time = c.time;
    u_size = c.size 0;
    u_start = c.start 0;
    u_pos = c.x_proj 0;
    v_size = c.size 1;
    v_start = c.start 1;
    v_pos = c.x_proj 1;
  }

  -- `c.fType == kPrimaryType && c.fSource == kPrimarySource`
  unfoldable pub is_primary : GemCluster D → Bool
  is_primary c = c.type is 1 && c.source is 0

-- What the loop over the clusters has collected.
pub record Scanned (D : Type 0) : Type 0 where
  pub hits : List (SimGemHit D)
  pub points : List (TrackPoint D)
  pub best_primary : Option ℕ
  pub best_primary_plane : ℤ
  pub primary_sector : ℤ
  pub primary_hitbits : ℕ
  pub ufail : ℕ
  pub vfail : ℕ

module _ {D : Type 0} ⦃d : Double D⦄ where
  -- A point with its time and its kDigitized bit; Podd's constructor leaves the rest at 0.
  unfoldable pub new_point : ℤ → GemCluster D → Projection → ℕ → TrackPoint D
  new_point itrack c type size = record {
    mc_track = itrack;
    plane = c.plane;
    type = type;
    mc_point = c.mc_pos;
    mc_p = c.p;
    mc_time = c.time;
    digitized = not (size == 0);
    delta_e = of_ℕ 0;
    deflect = of_ℕ 0;
    tof = of_ℕ 0;
  }

  -- The bookkeeping for the primary track, at cluster `i`.
  unfoldable pub note_primary : ℤ → ℕ → GemCluster D → Scanned D → Scanned D
  unfolding new_point set_bit
  note_primary itrack i c s =
      let plane = pos_part c.plane in
      let better = ltb_ℤ c.plane s.best_primary_plane in
      record s {
        points =
            s.points
            ++ new_point itrack c x_plane (c.size 0) ∷ new_point itrack c y_plane (c.size 1) ∷ [];
        best_primary = if better then some i else s.best_primary;
        best_primary_plane = if better then c.plane else s.best_primary_plane;
        primary_sector = c.sector;
        primary_hitbits = set_bit s.primary_hitbits plane;
        ufail = if c.size 0 == 0 then set_bit s.ufail plane else s.ufail;
        vfail = if c.size 1 == 0 then set_bit s.vfail plane else s.vfail;
      }

  unfoldable pub is_legal : Manager D → GemCluster D → Bool
  is_legal fManager c = not (ltb_ℤ c.plane (pos 0) || leb_ℤ (pos fManager.n_chamber) c.plane)

  unfoldable pub scan_cluster : ℤ → ℕ → GemCluster D → Scanned D → Scanned D
  scan_cluster itrack i c s =
      let saved = record s { hits = s.hits ++ new_gem_hit c ∷ [] } in
      if is_primary c then note_primary itrack i c saved else saved

  -- The loop, from cluster number `i`.
  unfoldable pub scan_clusters :
      Manager D → ℤ → List (GemCluster D) → ℕ → Scanned D → Option (Scanned D)
  scan_clusters fManager itrack [] i s = some s
  scan_clusters fManager itrack (c ∷ rest) i s =
      let later = scan_clusters fManager itrack rest (i + 1) (scan_cluster itrack i c s) in
      if is_legal fManager c then later else none

  unfoldable pub start_scan : Manager D → Scanned D
  start_scan fManager = record {
    hits = [];
    points = [];
    best_primary = none;
    best_primary_plane = pos fManager.n_chamber;
    primary_sector = negsuc 0;
    primary_hitbits = 0;
    ufail = 0;
    vfail = 0;
  }
