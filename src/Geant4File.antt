-- ===== src/Geant4File.antt =====
-- src/TSBSGeant4File.{h,cxx}: the records of hits and generated particles, and how the hits of an event
-- are packed for the digitization. The array of a record is a function of the index, `unset` where the
-- program has not written; its bit pattern fFillbits is the function that says which bits are set (a
-- record has at most 30 entries). What ReadNextEvent reads from the tree is in child modules.
pub mod Packing
pub mod BbGems
pub mod ReadEvent
pub mod TrackerGems
pub mod SidisGems
pub mod Grow
pub mod Calorimeter
pub mod Opening
pub mod Filled
pub mod Generated
use libsolgem.Base.{
  ℕ, zero, suc, ◌+◌, ◌-◌, ◌%◌, ◌^◌, ℤ, pos, negsuc, Bool, true, false, not, ◌&&◌, List, [], ◌∷◌,
  ◌++◌, length, ltb, leb, ◌==◌, if◌then◌else◌,
}
use libsolgem.Base.Int.{pos_part}
use libsolgem.Database.{Manager}
use libsolgem.Database.GemIndex.{update}
use libsolgem.Double.{Double, ◌⊕◌, ◌⊗◌, ◌⊘◌, ◌≺◌, of_ℤ, of_ℕ, decimal, trunc}
use libsolgem.SimEvent.{Vec3, EcalCluster, ScintCluster}
use libsolgem.HitData.{
  HitData, new_hit_data, clear_hits, set_source, set_event, init_event, set_nhit, set_momentum,
  set_hit_entrance, set_hit_exit, set_hit_readout, set_vertex, set_hit_energy, set_hit_time,
  set_hit_chamber, set_hit_plane, set_hit_module, set_particle_type, set_track_id, set_particle_id,
}
use libsolgem.Digitization.Tree.Event.{GenData}

-- g4sbshitdata
pub record SimRecord (D : Type 0) : Type 0 where
  pub det_id : ℤ
  pub size : ℕ
  pub fill_bits : ℕ → Bool
  pub data_ : ℕ → D

-- The event that the file holds.
pub record Geant4File (D : Type 0) : Type 0 where
  pub source : ℤ
  pub ev_num : ℕ
  pub hit_data : List (SimRecord D)
  pub gen_data : List (SimRecord D)
  pub ecal_clusters : List (EcalCluster D)
  pub scint_clusters : List (ScintCluster D)

-- Whether `f` holds of all numbers below `n`.
unfoldable pub all_below : (ℕ → Bool) → ℕ → Bool
all_below f zero = true
all_below f (suc n) = f n && all_below f n

module _ {D : Type 0} ⦃d : Double D⦄ where
  -- The constructor; entry 0 counts as filled from the start.
  unfoldable pub new_record : D → ℤ → ℕ → SimRecord D
  new_record unset detid size = record {
    det_id = detid;
    size = size;
    fill_bits = update (λ i. false) 0 true;
    data_ = update (λ i. unset) 0 (decimal (pos 31415927) 7);
  }

  unfoldable pub set_data : ℕ → D → SimRecord D → SimRecord D
  set_data idx data_ h =
      if leb h.size idx
      then h
      else record h { fill_bits = update h.fill_bits idx true; data_ = update h.data_ idx data_ }

  unfoldable pub get_data : SimRecord D → ℕ → D
  get_data h idx =
      if leb h.size idx
      then of_ℕ 1000000000
      else if not (h.fill_bits idx)
      then of_ℕ 1000000000
      else h.data_ idx

  unfoldable pub is_filled : SimRecord D → Bool
  is_filled h = all_below h.fill_bits h.size

  -- g4sbsgendata, whose size is `__GENERATED_SIZE + 2`.
  unfoldable pub new_gen_record : D → ℕ → SimRecord D
  new_gen_record unset generated_size =
      set_data 8 (of_ℕ 1) (new_record unset (negsuc 0) (generated_size + 2))

  -- A vector of a generated particle, from entry `k`.
  unfoldable pub gen_vector : SimRecord D → ℕ → Vec3 D
  gen_vector h k =
      let none_ = of_ℤ (negsuc 999999999) in
      if is_filled h
      then record { x = h.data_ k; y = h.data_ (k + 1); z = h.data_ (k + 2) }
      else record { x = none_; y = none_; z = none_ }

  -- The getters of a generated particle.
  unfoldable pub gen_particle : SimRecord D → GenData D
  unfolding gen_vector is_filled
  gen_particle h = record {
    trid = if is_filled h then trunc (h.data_ 0) else negsuc 999999999;
    pid = if is_filled h then trunc (h.data_ 1) else negsuc 999999999;
    v = gen_vector h 5;
    p = gen_vector h 2;
    vertex_at_target = gen_vector h 12;
    momentum_at_target = gen_vector h 9;
    weight = h.data_ 8;
  }

  -- TVector3 of three entries, from entry `k`.
  abbrev pub data_vector : SimRecord D → ℕ → Vec3 D
  data_vector h k = record { x = get_data h k; y = get_data h (k + 1); z = get_data h (k + 2) }

  -- A conversion to UInt_t of a value that is not negative.
  abbrev pub unsigned : D → ℕ
  unsigned x = pos_part (trunc x)

  -- `h->GetData(1)>0.0`
  abbrev pub has_energy : SimRecord D → Bool
  has_energy h = of_ℕ 0 ≺ get_data h 1

  module _ (fManager : Manager D) where
    -- The body of the loop of GetGEMData: record `h` becomes hit `n`.
    unfoldable pub pack_hit : SimRecord D → ℕ → HitData D → HitData D
    pack_hit h n gd =
        let gd1 =
          set_hit_exit n (data_vector h 9)
            (set_hit_entrance n (data_vector h 5) (set_momentum n (data_vector h 20) gd)) in
        let gd2 = set_hit_readout n (data_vector h 2) (
          set_vertex n (data_vector h 14)
            (set_hit_time n ((get_data h 8 ⊕ get_data h 12) ⊘ of_ℕ 2) gd1)) in
        let gd3 = set_particle_id n (trunc (get_data h 18)) (
          set_track_id n (unsigned (get_data h 17)) (
            set_particle_type n (unsigned (get_data h 13))
              (set_hit_energy n (get_data h 1 ⊗ of_ℕ 1000000) gd2))) in
        let igem = fManager.pm_to_igem (unsigned (get_data h 0)) (unsigned (get_data h 19)) in
        set_hit_module n (unsigned (get_data h 19))
          (set_hit_plane n (unsigned (get_data h 0)) (set_hit_chamber n igem gd3))

    -- The loop over the records, with `ngdata`.
    unfoldable pub pack_hits : List (SimRecord D) → ℕ → HitData D → HitData D × ℕ
    pack_hits [] ngdata gd = (gd, ngdata)
    pack_hits (h ∷ rest) ngdata gd =
        if has_energy h
        then pack_hits rest (ngdata + 1) (pack_hit h ngdata gd)
        else pack_hits rest ngdata gd

    unfoldable pub get_gem_data : Geant4File D → HitData D → HitData D
    get_gem_data f gd =
        let cleared = set_event f.ev_num (set_source f.source (clear_hits gd)) in
        let (packed, ngdata) = pack_hits f.hit_data 0 (init_event (length f.hit_data) cleared) in
        if length f.hit_data == 0 then cleared else set_nhit ngdata packed

    -- GetGEMData() with a new object.
    unfoldable pub new_gem_data : Geant4File D → HitData D
    unfolding get_gem_data
    new_gem_data f = get_gem_data f new_hit_data

module _ {D : Type 0} where
  unfoldable pub clear_file : Geant4File D → Geant4File D
  clear_file f = record f { hit_data = []; gen_data = []; ecal_clusters = []; scint_clusters = [] }

  unfoldable pub set_file_source : ℤ → Geant4File D → Geant4File D
  set_file_source i f = record f { source = i }

  unfoldable pub add_cluster : EcalCluster D → Geant4File D → Geant4File D
  add_cluster clus f = record f { ecal_clusters = f.ecal_clusters ++ clus ∷ [] }

  unfoldable pub add_sci_cluster : ScintCluster D → Geant4File D → Geant4File D
  add_sci_cluster clus f = record f { scint_clusters = f.scint_clusters ++ clus ∷ [] }

  -- `fEvNum = evnum-1`, of 32 bits.
  unfoldable pub set_first_ev_num : ℕ → Geant4File D → Geant4File D
  set_first_ev_num evnum f = record f { ev_num = (evnum + 2 ^ 32 - 1) % 2 ^ 32 }
