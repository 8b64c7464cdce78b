-- ===== src/Geant4File/Generated.antt =====
-- The getters of g4sbsgendata on the generated particle that ReadNextEvent of src/TSBSGeant4File.cxx
-- makes for the BigBite GEMs.
use libsolgem.Base.{pos, ◌≡◌, refl, true, List, [], ◌∷◌}
use libsolgem.Base.Int.{eqb_ℤ}
use mathlib.Core.List.{map}
use libsolgem.Double.{Double, ◌⊕◌, ◌⊗◌, ◌⊘◌, of_ℤ, of_ℕ, trunc}
use libsolgem.Database.{Manager}
use libsolgem.SimEvent.{Vec3}
use libsolgem.Geant4File.{
  new_record, set_data, is_filled, all_below, new_gen_record, gen_vector, gen_particle,
}
use libsolgem.Geant4File.BbGems.{TreeTrack, fill_record, gen_entries, to_mm, bb_gen}

module _ {D : Type 0} ⦃d : Double D⦄ (square : D → D) (unset : D) (fManager : Manager D) where
  -- In signal data, a first track that is primary is the one generated particle; it has the numbers
  -- and the momentum of the track, its place at the focal plane in millimetres, the vertex and the
  -- momentum of the event and the weight, and counts as filled.
  pub gen_particle-bb_gen :
      (weight : D) (vertex momentum : Vec3 D) (t : TreeTrack D) (rest : List (TreeTrack D))
      → eqb_ℤ t.mid (pos 0) ≡ true
      → let pz = t.p ⊘ d.sqrt (of_ℕ 1 ⊕ square t.xp ⊕ square t.yp) in
        map gen_particle (bb_gen square unset fManager (pos 0) weight vertex momentum (t ∷ rest))
        ≡ record {
          trid = trunc {D = D} (of_ℤ t.tid);
          pid = trunc {D = D} (of_ℤ t.pid);
          v = record { x = to_mm t.x; y = to_mm t.y; z = of_ℕ 0 };
          p = record { x = pz ⊗ t.xp; y = pz ⊗ t.yp; z = pz };
          vertex_at_target = vertex;
          momentum_at_target = momentum;
          weight = weight;
        }
          ∷ []
  unfolding bb_gen gen_entries fill_record set_data new_gen_record new_record gen_particle
      gen_vector is_filled all_below
  gen_particle-bb_gen weight vertex momentum t rest primary = rw primary refl
