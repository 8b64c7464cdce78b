-- ===== src/Decoder/BackTrack.antt =====
-- Behind the loop of DoLoadEvent over the clusters, in src/TSBSSimDecoder.cxx: the back track, the loop
-- over the points, and the statistics of the first track. TVector3::Unit and Angle, the order of
-- TClonesArray::Sort and the particle masses are parameters.
pub mod Popcount
pub mod PlaneCount
use libsolgem.Base.{
  ℕ, ◌+◌, ◌-◌, ◌*◌, ◌/◌, ◌%◌, ◌^◌, bit_and, ℤ, pos, negsuc, Bool, true, false, ◌&&◌, none, some,
  List, [], ◌∷◌, get_elem?, if◌then◌else◌,
}
use libsolgem.Base.Int.{◌+ℤ◌, ltb_ℤ, eqb_ℤ, pos_part}
use libsolgem.Double.{Double, ◌⊕◌, ◌⊖◌, ◌⊗◌, ◌≼◌, of_ℕ}
use libsolgem.Database.{Manager}
use libsolgem.SimEvent.{Vec3, GemCluster, SimTrack}
use libsolgem.Decoder.Clusters.{Projection, x_plane, y_plane, TrackPoint, Scanned, set_bit}

pub record BackTrack (D : Type 0) : Type 0 where
  pub type : ℤ
  pub pid : ℤ
  pub sector : ℤ
  pub source : ℤ
  pub origin : Vec3 D
  pub hit_pos : Vec3 D
  pub momentum : Vec3 D
  pub hit_bits : ℕ
  pub ufail_bits : ℕ
  pub vfail_bits : ℕ

-- NumberOfSetBits, on a 32-bit number. Only the product can wrap around.
unfoldable pub number_of_set_bits : ℕ → ℕ
number_of_set_bits v =
    let pairs = v - bit_and (v / 2) 1431655765 in
    let nibbles = bit_and pairs 858993459 + bit_and (pairs / 4) 858993459 in
    bit_and (nibbles + nibbles / 16) 252645135 * 16843009 % 2 ^ 32 / 2 ^ 24

module _ {D : Type 0} ⦃d : Double D⦄ where
  module _ (unit : Vec3 D → Vec3 D) where
    -- Update of a back track; the error leaves the track as it is.
    unfoldable pub update_back_track : Manager D → GemCluster D → BackTrack D → BackTrack D × ℤ
    update_back_track fManager c b =
        let dz = c.mc_pos.z ⊖ fManager.z0 in
        let u = unit c.p in
        let seen = record b { hit_pos = c.hit_pos; momentum = c.p } in
        if ltb_ℤ (pos 0) c.plane
        then (if dz ≼ of_ℕ 0 then (b, negsuc 1) else (
          record seen {
            origin = record {
              x = c.mc_pos.x ⊖ dz ⊗ u.x;
              y = c.mc_pos.y ⊖ dz ⊗ u.y;
              z = c.mc_pos.z ⊖ dz ⊗ u.z;
            };
          },
          pos 0,
        ))
        else (record seen { origin = c.mc_pos }, pos 0)

    -- The constructor of a back track.
    unfoldable pub new_back_track : Manager D → GemCluster D → BackTrack D
    new_back_track fManager c =
        let zero_ : Vec3 D = record { x = of_ℕ 0; y = of_ℕ 0; z = of_ℕ 0 } in
        let b =
          (update_back_track fManager c (record {
            type = c.type;
            pid = c.pid;
            sector = c.sector;
            source = c.source;
            origin = zero_;
            hit_pos = zero_;
            momentum = zero_;
            hit_bits = 0;
            ufail_bits = 0;
            vfail_bits = 0;
          })).0 in
        record b { hit_bits = set_bit b.hit_bits (pos_part c.plane) }

    -- The back track of the best primary cluster, behind the loops.
    unfoldable pub back_tracks : Manager D → List (GemCluster D) → Scanned D → List (BackTrack D)
    back_tracks fManager clusters s = elim s.best_primary [
      | none ↦ []
      | some best ↦ elim (get_elem? clusters best) [
        | none ↦ []
        | some c ↦
            record (new_back_track fManager c) {
              hit_bits = s.primary_hitbits;
              ufail_bits = s.ufail;
              vfail_bits = s.vfail;
            }
            ∷ []
      ]
    ]

  module _ (angle : Vec3 D → Vec3 D → D) where
    abbrev energy : D → Vec3 D → D
    energy mass p = d.sqrt (p.x ⊗ p.x ⊕ p.y ⊗ p.y ⊕ p.z ⊗ p.z ⊕ mass ⊗ mass)

    abbrev same_type : Projection → Projection → Bool
    same_type x_plane x_plane = true
    same_type y_plane y_plane = true
    same_type _ _ = false

    -- The differences of a point to the point before it.
    unfoldable pub compare_points : D → TrackPoint D → TrackPoint D → TrackPoint D
    compare_points mass prev pt =
        if same_type prev.type pt.type && eqb_ℤ (prev.plane +ℤ pos 1) pt.plane
        then record pt {
          delta_e = energy mass prev.mc_p ⊖ energy mass pt.mc_p;
          deflect = angle prev.mc_p pt.mc_p;
          tof = pt.mc_time ⊖ prev.mc_time;
        }
        else pt

    -- The loop over the sorted points, behind the first one.
    unfoldable pub link_points : D → TrackPoint D → List (TrackPoint D) → List (TrackPoint D)
    link_points mass prev [] = []
    link_points mass prev (pt ∷ rest) = compare_points mass prev pt ∷ link_points mass pt rest

  -- The statistics in the first track.
  unfoldable pub note_statistics : Scanned D → SimTrack D → SimTrack D
  unfolding number_of_set_bits
  note_statistics s trk = record trk {
    n_hits = 2 * number_of_set_bits s.primary_hitbits;
    hit_bits = s.primary_hitbits;
  }
