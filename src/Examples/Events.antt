-- ===== src/Examples/Events.antt =====
-- An event of three clusters and a strip with two of them.
use libsolgem.Base.{
  ℕ, ◌+◌, ◌*◌, ℤ, pos, ◌≡◌, refl, ◌⊎◌, true, false, List, [], ◌∷◌, ◌++◌, map, length, none, some,
  get_or, ◌-◌, arith, if◌then◌else◌,
}
use libsolgem.Base.Int.{◌+ℤ◌, ◌-ℤ◌, ◌*ℤ◌}
use libsolgem.Double.{whole_double}
use libsolgem.Database.{Manager, get_n_module}
use libsolgem.Database.Access.{
  check_index, geo_at, checked, get_xoffset, get_pos_from_module_strip, strip_position,
}
use libsolgem.SimEvent.{SimTrack, Vec3, GemCluster, DigiGemStrip, SimEvent, new_event}
use libsolgem.Decoder.Truth.{
  SignalInfo, McHitInfo, Gathered, new_info, test_bit, last_signal, signal_of, cluster_at,
  list_cluster, count_signal, count_background, place_of, count_cluster, gather, finish,
  only_induced, strip_truth,
}
use libsolgem.Decoder.Truth.Accounting.{
  IsCounted, signal_count, background_count, strip_truth-IsCounted,
}
use libsolgem.Decoder.Truth.Naming.{first_tid, strip_truth-track}
use libsolgem.Decoder.Clusters.{
  Scanned, new_gem_hit, is_primary, is_legal, note_primary, scan_cluster, scan_clusters, start_scan,
  set_bit, new_point,
}
use libsolgem.Decoder.BackTrack.{number_of_set_bits, note_statistics}
use libsolgem.Decoder.BackTrack.PlaneCount.{
  count_places, has_primary, note_statistics-scan_clusters,
}
use libsolgem.Base.Bits.{bit_at}
use libsolgem.Decoder.Clusters.Primary.{NoneBefore, IsFirst, scan_clusters-IsFirst}
use libsolgem.Decoder.Clusters.Scan.{primaries, all_legal, scan_clusters_total}
use libsolgem.Examples.Data.{manager, modules}

methods : Unit {0}
unfolding get_n_module check_index geo_at checked get_xoffset get_pos_from_module_strip
    strip_position new_event new_info test_bit last_signal signal_of cluster_at list_cluster
    count_signal count_background place_of count_cluster gather finish only_induced strip_truth
    new_gem_hit is_primary is_legal note_primary scan_cluster scan_clusters start_scan
    number_of_set_bits note_statistics count_places set_bit new_point whole_double ◌+ℤ◌ ◌-ℤ◌ ◌*ℤ◌
methods = tt

abbrev pub det : Manager ℤ
det = manager modules

abbrev pub nowhere : Vec3 ℤ
nowhere = record { x = pos 0; y = pos 0; z = pos 0 }

abbrev cluster : ℕ → ℤ → ℤ → ℤ → GemCluster ℤ
cluster id plane type source = record {
  id = id;
  sector = pos 0;
  plane = plane;
  module_ = 0;
  real_sector = pos 0;
  source = source;
  type = type;
  trid = pos 1;
  pid = pos 11;
  p = nowhere;
  p_spec = nowhere;
  x_entry = nowhere;
  mc_pos = nowhere;
  hit_pos = nowhere;
  charge = pos 5;
  time = pos 20;
  size = λ a. 1;
  start = λ a. pos 0;
  x_proj = λ a. pos 4;
  vertex = nowhere;
}

abbrev clusters : List (GemCluster ℤ)
clusters =
    cluster 1 (pos 2) (pos 1) (pos 1)
    ∷ cluster 2 (pos 2) (pos 1) (pos 0)
    ∷ cluster 3 (pos 1) (pos 1) (pos 0)
    ∷ []

abbrev pub event : SimEvent ℤ
event = record new_event { gem_clust = clusters }

abbrev strip : DigiGemStrip ℤ
strip = record {
  sector = pos 0;
  plane = 2;
  module_ = 0;
  proj = 0;
  chan = 7;
  sig_type = 3;
  charge = pos 7;
  time1 = pos 3;
  n_samp = 1;
  adc = pos 5 ∷ [];
  clusters = 1 ∷ 2 ∷ [];
  cluster_ratio = (2 ∷ 3 ∷ []) ∷ [];
  strip_weight = pos 1 ∷ pos 2 ∷ [];
}

abbrev signals : List SignalInfo
signals = record { pid = pos 11; tid = pos 4 } ∷ []

abbrev truth : McHitInfo ℤ
truth = record {
  mc_track = pos 4;
  mc_pos = pos 4;
  mc_time = pos 20;
  contam = 1;
  mc_charge = pos 7;
  cluster_id = 0 ∷ 1 ∷ [];
  cluster_type = pos 1 ∷ pos 0 ∷ [];
  cluster_strip_weight = pos 1 ∷ pos 2 ∷ [];
  cluster_peak_time = pos 20 ∷ pos 20 ∷ [];
  cluster_pos = nowhere ∷ nowhere ∷ [];
  cluster_charge = pos 5 ∷ pos 5 ∷ [];
  cluster_adc = λ its.
      get_or (get_or strip.cluster_ratio its []) 0 0
      ∷ get_or (get_or strip.cluster_ratio its []) 1 0
      ∷ [];
  sig_type = 3;
}

found : strip_truth det signals event strip ≡ some truth
unfolding methods
found = refl

runs :
    (number_of_set_bits 4042322160 ≡ 16)
    × (number_of_set_bits 4294967295 ≡ 32)
    × (number_of_set_bits 0 ≡ 0)
    × (only_induced strip ≡ false)
unfolding methods
runs = (refl, refl, refl, refl)

strip_truth-IsCounted_example :
    (g : Gathered ℤ) × (gather det signals event strip strip.clusters 0 (record {
      info = record new_info { sig_type = strip.sig_type; mc_charge = strip.charge };
      n_overlap = 0;
    })
      ≡ some g)
    × (truth ≡ finish strip g)
    × IsCounted
        (map (λ id. id - 1) strip.clusters)
        (signal_count signals event strip.clusters)
        (background_count signals event strip.clusters)
        truth
        g.n_overlap
unfolding methods
strip_truth-IsCounted_example = strip_truth-IsCounted det signals event strip truth refl found

strip_truth-track_example :
    truth.mc_track ≡ (if only_induced strip then pos 0 else first_tid signals event strip.clusters)
unfolding methods
strip_truth-track_example = strip_truth-track signals det event strip truth (omega arith, tt) found

scan_clusters_total_example :
    let out = scan_clusters det (pos 4) clusters 0 (start_scan det) in
    ((all_legal det (pos 4) clusters ≡ true)
      × ((r : Scanned ℤ) × (out ≡ some r)
          × (r.hits ≡ (start_scan det).hits ++ map new_gem_hit clusters)
          × (length r.points ≡ length (start_scan det).points + 2 * primaries clusters)))
    ⊎ ((all_legal det (pos 4) clusters ≡ false) × (out ≡ none))
scan_clusters_total_example = scan_clusters_total det (pos 4) clusters 0 (start_scan det)

abbrev scanned : Scanned ℤ
scanned = scan_cluster (pos 4) 2 (cluster 3 (pos 1) (pos 1) (pos 0)) (
    scan_cluster (pos 4) 1 (cluster 2 (pos 2) (pos 1) (pos 0))
      (scan_cluster (pos 4) 0 (cluster 1 (pos 2) (pos 1) (pos 1)) (start_scan det)))

scan_clusters-IsFirst_example :
    (NoneBefore (pos 3) clusters × (scanned.best_primary ≡ none))
    ⊎ ((n : ℕ) × IsFirst (pos 3) clusters n scanned.best_primary_plane
        × (scanned.best_primary ≡ some n))
unfolding methods
scan_clusters-IsFirst_example = scan_clusters-IsFirst det (pos 4) clusters scanned refl

abbrev pub track : SimTrack ℤ
track = record {
  number = pos 4;
  pid = pos 11;
  origin = nowhere;
  momentum = nowhere;
  vertex_target = nowhere;
  momentum_target = nowhere;
  n_hits = 0;
  hit_bits = 0;
}

note_statistics-scan_clusters_example :
    ((p : ℕ)
      → bit_at p (note_statistics scanned track).hit_bits
        ≡ (if has_primary clusters p then 1 else 0))
    × ((note_statistics scanned track).n_hits ≡ 4)
unfolding methods
note_statistics-scan_clusters_example =
    note_statistics-scan_clusters det (pos 4) clusters scanned track (omega arith) refl
