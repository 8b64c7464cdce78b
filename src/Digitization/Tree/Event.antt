-- ===== src/Digitization/Tree/Event.antt =====
-- SetTreeEvent (src/TSBSSimGEMDigitization.cxx): the header of an event, its tracks and its
-- calorimeter clusters. The Monte Carlo input file is its generated particles and clusters.
use libsolgem.Base.{ℤ, pos, negsuc, true, List, [], ◌∷◌, ◌++◌, if◌then◌else◌}
use libsolgem.Base.Int.{ltb_ℤ, eqb_ℤ}
use libsolgem.Double.{Double, ◌⊕◌, of_ℤ, of_ℕ}
use libsolgem.SimEvent.{Vec3, SimEvent, EcalCluster, ScintCluster, add_track, clear_event}
use libsolgem.HitData.{HitData}
use libsolgem.Digitization.{Root, Settings, Digitizer}

-- g4sbsgendata
pub record GenData (D : Type 0) : Type 0 where
  pub trid : ℤ
  pub pid : ℤ
  pub v : Vec3 D
  pub p : Vec3 D
  pub vertex_at_target : Vec3 D
  pub momentum_at_target : Vec3 D
  pub weight : D

module _ {D R : Type 0} ⦃d : Double D⦄ (root : Root D R) where
  -- The time of a calorimeter or scintillator cluster.
  unfoldable pub cluster_time : Settings D → ℤ → R → D × R
  cluster_time s source rnd =
      let (at, rnd1) = root.uniform (of_ℤ (negsuc 49)) (of_ℕ 50) rnd in
      let (jitter, rnd2) = root.gaus (of_ℕ 0) s.trigger_jitter rnd1 in
      if eqb_ℤ source (pos 0) then root.gaus (of_ℕ 0) s.trigger_jitter rnd else (at ⊕ jitter, rnd2)

  -- The loops over the clusters of the input file.
  unfoldable pub set_ecal_times :
      Settings D → ℤ → List (EcalCluster D) → R → List (EcalCluster D) × R
  unfolding cluster_time
  set_ecal_times s source [] rnd = ([], rnd)
  set_ecal_times s source (clus ∷ rest) rnd =
      let (time, rnd') = cluster_time s source rnd in
      let (later, rnd'') = set_ecal_times s source rest rnd' in
      (record clus { time = time } ∷ later, rnd'')

  unfoldable pub set_scint_times :
      Settings D → ℤ → List (ScintCluster D) → R → List (ScintCluster D) × R
  unfolding cluster_time
  set_scint_times s source [] rnd = ([], rnd)
  set_scint_times s source (clus ∷ rest) rnd =
      let (time, rnd') = cluster_time s source rnd in
      let (later, rnd'') = set_scint_times s source rest rnd' in
      (record clus { ecal = record clus.ecal { time = time } } ∷ later, rnd'')

module _ {D : Type 0} where
  -- The loop over the generated particles.
  unfoldable pub add_tracks : List (GenData D) → SimEvent D → SimEvent D
  add_tracks [] e = e
  add_tracks (gd ∷ rest) e =
      add_tracks rest
        (add_track gd.trid gd.pid gd.v gd.p gd.vertex_at_target gd.momentum_at_target e)

  -- `if( f.GetNGen() > 0 ) fEvent->fWeight = f.GetGenData(0)->GetWeight();`
  unfoldable pub set_weight : List (GenData D) → SimEvent D → SimEvent D
  set_weight [] e = e
  set_weight (gd ∷ rest) e = record e { weight = gd.weight }

module _ {D R : Type 0} ⦃d : Double D⦄ (root : Root D R) where
  unfoldable pub set_tree_event :
      Settings D
      → HitData D
      → List (GenData D)
      → List (EcalCluster D)
      → List (ScintCluster D)
      → ℤ
      → Digitizer D R
      → Digitizer D R
  unfolding add_tracks set_ecal_times set_scint_times
  set_tree_event s tsgd gens ecal scint evnum t =
      let cleared = clear_event true t.event in
      let tracked = add_tracks gens (record cleared {
        run_id = pos tsgd.run_id;
        evt_id = if ltb_ℤ evnum (pos 0) then pos tsgd.evt_id else evnum;
      }) in
      let (ecal', rnd1) = set_ecal_times root s tsgd.source ecal t.trnd in
      let (scint', rnd2) = set_scint_times root s tsgd.source scint rnd1 in
      let timed = record tracked {
        ecal_clusters = tracked.ecal_clusters ++ ecal';
        scint_clusters = tracked.scint_clusters ++ scint';
      } in
      record t {
        trnd = rnd2;
        event = record (set_weight gens timed) {
          sectors_mapped = t.do_map_sector;
          signal_sector = t.signal_sector;
        };
      }
