-- ===== src/Geant4File/Packing.antt =====
-- GetGEMData of src/TSBSGeant4File.cxx as a list of hits.
use libsolgem.Base.{
  ℕ, zero, suc, ◌+◌, ◌≤◌, ◌<◌, ◌≡◌, refl, sym, ap, ◌∙◌, true, inl, inr, Bool-cases, List, [], ◌∷◌,
  ◌++◌, length, length-append, get_or, set, ==_iff, get_or-set_self, arith, ◌==◌, if◌then◌else◌,
}
use mathlib.Core.List.{append-nil, append_assoc}
use libsolgem.Database.{Manager}
use libsolgem.Double.{Double, ◌⊕◌, ◌⊗◌, ◌⊘◌, of_ℕ, trunc}
use libsolgem.HitData.{
  HitDatum, HitData, blank, resize, modify_hit, hit_at, clear_hits, set_source, set_event,
  init_event, set_nhit, set_momentum, set_hit_entrance, set_hit_exit, set_hit_readout, set_vertex,
  set_hit_energy, set_hit_time, set_hit_chamber, set_hit_plane, set_hit_module, set_particle_type,
  set_track_id, set_particle_id,
}
use libsolgem.HitData.Hits.{length-resize}
use libsolgem.Geant4File.{
  SimRecord, Geant4File, get_data, data_vector, unsigned, pack_hit, has_energy, pack_hits,
  get_gem_data,
}

module _ {D : Type 0} ⦃d : Double D⦄ where
  set-set : (xs : List (HitDatum D)) (k : ℕ) (u v : HitDatum D) → set (set xs k u) k v ≡ set xs k v
  set-set [] k u v = refl
  set-set (x ∷ xs) zero u v = refl
  set-set (x ∷ xs) (suc k) u v = ap (λ (l : List (HitDatum D)). x ∷ l) (set-set xs k u v)

  -- Two writes to one hit are one write.
  modify_hit-modify_hit :
      (f g : HitDatum D → HitDatum D) (k : ℕ) (gd : HitData D)
      → k < length gd.hits
      → modify_hit f k (modify_hit g k gd) ≡ modify_hit (λ h. f (g h)) k gd
  unfolding modify_hit hit_at
  modify_hit-modify_hit f g k gd h =
      let self = get_or-set_self gd.hits k (g (get_or gd.hits k blank)) blank h in
      rw (set-set, self) refl

  set-append :
      (done : List (HitDatum D)) (x y : HitDatum D) (rest : List (HitDatum D))
      → set (done ++ x ∷ rest) (length done) y ≡ (done ++ y ∷ []) ++ rest
  set-append [] x y rest = refl
  set-append (z ∷ done) x y rest = ap (λ (l : List (HitDatum D)). z ∷ l) (set-append done x y rest)

  resize-append : (done rest : List (HitDatum D)) → resize blank (length done) (done ++ rest) ≡ done
  unfolding resize
  resize-append [] rest = refl
  resize-append (z ∷ done) rest = ap (λ (l : List (HitDatum D)). z ∷ l) (resize-append done rest)

  module _ (fManager : Manager D) where
    -- The hit that a record stands for.
    unfoldable pub hit_of : SimRecord D → HitDatum D
    hit_of h = record {
      gem = fManager.pm_to_igem (unsigned (get_data h 0)) (unsigned (get_data h 19));
      plane = unsigned (get_data h 0);
      module_ = unsigned (get_data h 19);
      edep = get_data h 1 ⊗ of_ℕ 1000000;
      time = (get_data h 8 ⊕ get_data h 12) ⊘ of_ℕ 2;
      type = unsigned (get_data h 13);
      trid = unsigned (get_data h 17);
      pid = trunc (get_data h 18);
      xi = data_vector h 5;
      xo = data_vector h 9;
      xr = data_vector h 2;
      mom = data_vector h 20;
      vert = data_vector h 14;
    }

    pack_hit-set :
        (h : SimRecord D) (n : ℕ) (gd : HitData D)
        → n < length gd.hits
        → pack_hit fManager h n gd ≡ record gd { hits = set gd.hits n (hit_of h) }
    unfolding pack_hit hit_of set_momentum set_hit_entrance set_hit_exit set_hit_readout set_vertex
        set_hit_energy set_hit_time set_hit_chamber set_hit_plane set_hit_module set_particle_type
        set_track_id set_particle_id
    pack_hit-set h n gd lt =
        let m = λ (f g : HitDatum D → HitDatum D). modify_hit-modify_hit f g n gd lt in
        rw (m, m, m, m, m, m, m, m, m, m, m, m) (unfold modify_hit in refl)

    -- The hits of a list of records that deposit energy.
    unfoldable pub hits_of : List (SimRecord D) → List (HitDatum D)
    hits_of [] = []
    hits_of (h ∷ rest) = if has_energy h then hit_of h ∷ hits_of rest else hits_of rest

    -- Behind the hits that are packed, there is room for the rest.
    pack_hits-resize :
        (hs : List (SimRecord D)) (done rest : List (HitDatum D)) (gd : HitData D)
        → gd.hits ≡ done ++ rest
        → length hs ≤ length rest
        → let (packed, n) = pack_hits fManager hs (length done) gd in
          (resize blank n packed.hits ≡ done ++ hits_of hs)
          × (packed.source ≡ gd.source)
          × (packed.evt_id ≡ gd.evt_id)
          × (packed.run_id ≡ gd.run_id)
    unfolding pack_hits hits_of
    pack_hits-resize [] done rest gd e room =
        (rw (e, append-nil) (resize-append done rest), refl, refl, refl)
    pack_hits-resize (h ∷ hs) done [] gd e room = absurd (omega arith)
    pack_hits-resize (h ∷ hs) done (r ∷ rest) gd e room = elim (Bool-cases (has_energy h)) [
      | inl energy ↦
          let c = hit_of h in
          let gd' = record gd { hits = set gd.hits (length done) c } in
          let filled : gd'.hits ≡ (done ++ c ∷ []) ++ rest =
            ap (λ (l : List (HitDatum D)). set l (length done) c) e ∙ set-append done r c rest in
          let room' : length done < length gd.hits =
            omega
              (arith, ap (λ (l : List (HitDatum D)). length l) e, length-append done (r ∷ rest)) in
          let longer : length (done ++ c ∷ []) ≡ length done + 1 = length-append done (c ∷ []) in
          let later = pack_hits-resize hs (done ++ c ∷ []) rest gd' filled (omega arith) in
          rw
            (
              energy,
              pack_hit-set h (length done) gd room',
              ← longer,
              ← append_assoc done (c ∷ []) (hits_of hs),
            )
            later
      | inr none_ ↦ rw none_ (pack_hits-resize hs done (r ∷ rest) gd e (omega arith))
    ]

    -- GetGEMData gives the digitization the hits of the event that deposit energy, in their order and
    -- each once, with the source and the number of the event, whatever hits the object had before; the
    -- run number stands.
    pub get_gem_data-hits_of :
        (f : Geant4File D) (gd : HitData D)
        → let packed = get_gem_data fManager f gd in
          (packed.hits ≡ hits_of f.hit_data)
          × (packed.source ≡ f.source)
          × (packed.evt_id ≡ f.ev_num)
          × (packed.run_id ≡ gd.run_id)
    unfolding get_gem_data set_nhit init_event set_event set_source clear_hits
    get_gem_data-hits_of f gd = elim (Bool-cases (length f.hit_data == 0)) [
      | inl empty ↦ rw empty (sym (no_hits f.hit_data empty), refl, refl, refl)
      | inr some_hits ↦
          let hs = f.hit_data in
          let start = record gd {
            hits = resize blank (length hs) [];
            source = f.source;
            evt_id = f.ev_num;
          } in
          let sized = length-resize {A = HitDatum D} blank (length hs) [] in
          rw some_hits (pack_hits-resize hs [] start.hits start refl (omega (arith, sized)))
    ]
      where
        no_hits : (hs : List (SimRecord D)) → (length hs == 0) ≡ true → hits_of hs ≡ []
        no_hits [] e = unfold hits_of in refl
        no_hits (h ∷ hs) e = absurd (omega (arith, (==_iff (length (h ∷ hs)) 0).0 e))
