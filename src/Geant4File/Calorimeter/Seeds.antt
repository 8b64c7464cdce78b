-- ===== src/Geant4File/Calorimeter/Seeds.antt =====
-- The block that GetGEpECalCluster and GetHCalCluster start from.
use libsolgem.Base.{
  ℕ, ℤ, ◌≡◌, refl, sym, ◌∙◌, Bool, true, false, inl, inr, Bool-cases, ◌⊎◌, none, some, List, [],
  ◌∷◌, ◌++◌, ltb, if◌then◌else◌, All, All-append, All-map,
}
use mathlib.Core.List.{Permᴰ, append-nil, append_assoc}
use mathlib.Core.List.Permᴰ
use mathlib.Core.Bool.{true≢false}
use libsolgem.Database.{Manager}
use libsolgem.Digitization.{Root}
use libsolgem.Double.{Double, ◌≺◌, ◌⊕◌, ◌⊗◌, ◌⊘◌, of_ℕ}
use libsolgem.Geant4File.Calorimeter.{
  Block, CaloHit, Seeding, give_back, seed_block, seed_energy, photo_energy, seed_hits,
}

-- What IEEE 754 says of `<`.
pub record OrderLaws (D : Type 0) ⦃d : Double D⦄ : Type 0 where
  pub asym : (a b : D) → (a ≺ b) ≡ true → (b ≺ a) ≡ false
  pub trans : (a b c : D) → (a ≺ b) ≡ true → (b ≺ c) ≡ true → (a ≺ c) ≡ true

module _ {D : Type 0} ⦃d : Double D⦄ where
  -- The seed is one block with the most energy, or there is none yet.
  pub record IsSeeded (s : Seeding D) : Type 0 where
    pub none_above : All (λ (b : Block D). (s.edep_max ≺ b.energy) ≡ false) s.blocks
    pub seed :
        (s.clus ≡ []) × (s.edep_max ≡ of_ℕ 0)
        ⊎ (c : Block D) × (s.clus ≡ c ∷ []) × (c.energy ≡ s.edep_max)

  module _ (laws : OrderLaws D) where
    below : (m e b : D) → (m ≺ e) ≡ true → (m ≺ b) ≡ false → (e ≺ b) ≡ false
    below m e b up not_b = elim (Bool-cases (e ≺ b)) [
      | inl lt ↦ absurd (true≢false (sym (laws.trans m e b up lt) ∙ not_b))
      | inr ge ↦ ge
    ]

    give_back-All :
        (s : Seeding D) (e : D)
        → (s.edep_max ≺ e) ≡ true
        → IsSeeded s
        → All (λ (b : Block D). (e ≺ b.energy) ≡ false) (give_back s.clus s.blocks)
    unfolding give_back
    give_back-All s e up v =
        let lower =
          All-map (λ (b : Block D). (s.edep_max ≺ b.energy) ≡ false) (λ b. (e ≺ b.energy) ≡ false)
            s.blocks (λ b h. below s.edep_max e b.energy up h) v.none_above in
        elim v.seed [
          | inl (no_seed, _) ↦ rw no_seed lower
          | inr (c, one, energy) ↦ rw one (
              All-append (λ (b : Block D). (e ≺ b.energy) ≡ false) s.blocks (c ∷ []) lower
                (rw energy (laws.asym s.edep_max e up), tt))
        ]

    seed_block-IsSeeded : (b : Block D) (s : Seeding D) → IsSeeded s → IsSeeded (seed_block b s)
    unfolding seed_block
    seed_block-IsSeeded b s v = elim (Bool-cases (s.edep_max ≺ b.energy)) [
      | inl up ↦
          rw up (record { none_above = give_back-All s b.energy up v; seed = inr (b, refl, refl) })
      | inr no_more ↦ rw no_more (record {
        none_above =
            All-append (λ (x : Block D). (s.edep_max ≺ x.energy) ≡ false) s.blocks (b ∷ [])
              v.none_above (no_more, tt);
        seed = v.seed;
      })
    ]

module _ {D : Type 0} ⦃d : Double D⦄ where
  -- The blocks and the seed are the blocks before and the new one, each once, in some order.
  seed_block-Permᴰ :
      (b : Block D) (s : Seeding D)
      → (s.clus ≡ []) ⊎ (c : Block D) × (s.clus ≡ c ∷ [])
      → let s' = seed_block b s in Permᴰ (s'.blocks ++ s'.clus) ((s.blocks ++ s.clus) ++ b ∷ [])
  unfolding seed_block give_back
  seed_block-Permᴰ b s at_most_one = elim (Bool-cases (s.edep_max ≺ b.energy)) [
    | inl up ↦ rw up (elim at_most_one [
      | inl no_seed ↦ rw (no_seed, append-nil s.blocks) (Permᴰ.refl _)
      | inr (c, one) ↦ rw one (Permᴰ.refl _)
    ])
    | inr no_more ↦
        rw (no_more, append_assoc s.blocks (b ∷ []) s.clus, append_assoc s.blocks s.clus (b ∷ []))
          (Permᴰ.append_left s.blocks (Permᴰ.append_comm (b ∷ []) s.clus))
  ]

  at_most_one : (s : Seeding D) → IsSeeded s → (s.clus ≡ []) ⊎ (c : Block D) × (s.clus ≡ c ∷ [])
  at_most_one s v = elim v.seed [ inl (no_seed, _) ↦ inl no_seed | inr (c, one, _) ↦ inr (c, one) ]

  -- The block of a hit of which `npe` photoelectrons are seen: it has the energy that they stand for,
  -- and there is none for fewer than three.
  unfoldable pub hit_blocks : D → CaloHit D → ℕ → List (Block D)
  hit_blocks npe_edep h npe =
      if ltb npe 3
      then []
      else record { energy = of_ℕ npe ⊘ npe_edep; x = h.xcell; y = h.ycell } ∷ []

  -- The blocks of all hits, in their order.
  unfoldable pub blocks_of : {R : Type 0} → Root D R → D → List (CaloHit D) → R → List (Block D)
  unfolding hit_blocks
  blocks_of root npe_edep [] rnd = []
  blocks_of root npe_edep (h ∷ hits) rnd =
      let (npe, rnd') = root.poisson (npe_edep ⊗ h.sumedep) rnd in
      hit_blocks npe_edep h npe ++ blocks_of root npe_edep hits rnd'

  -- What the loop makes of `blocks`, from `s`: a state with a seed, with the same blocks.
  pub SeedsOf : Seeding D → List (Block D) → Seeding D → Type 0
  SeedsOf s blocks s' = IsSeeded s' × Permᴰ (s'.blocks ++ s'.clus) ((s.blocks ++ s.clus) ++ blocks)

  module _ (laws : OrderLaws D) {R : Type 0} (root : Root D R) (power : D → ℤ → D)
      (fManager : Manager D) where
    -- From a seeded state the loop over the hits leaves a seeded state: no block has more energy than
    -- the seed, which is one block, or none if the greatest energy so far is 0. The blocks and the
    -- seed together are those before and the block of each hit with at least three photoelectrons,
    -- each once, with its energy and its place.
    pub seed_hits-IsSeeded :
        (npe_edep : D) (hits : List (CaloHit D)) (acc : Seeding D × D) (rnd : R)
        → IsSeeded acc.0
        → SeedsOf acc.0
            (blocks_of root npe_edep hits rnd)
            (seed_hits root power fManager npe_edep hits acc rnd).0.0
    unfolding seed_hits SeedsOf blocks_of hit_blocks photo_energy seed_energy
    seed_hits-IsSeeded npe_edep [] acc rnd v =
        (v, rw (append-nil (acc.0.blocks ++ acc.0.clus)) (Permᴰ.refl _))
    seed_hits-IsSeeded npe_edep (h ∷ hits) (s, tot) rnd v =
        let (npe, rnd') = root.poisson (npe_edep ⊗ h.sumedep) rnd in
        step rnd' (of_ℕ npe ⊘ npe_edep) (ltb npe 3)
          (λ acc w. seed_hits-IsSeeded npe_edep hits acc rnd' w)
      where
        step :
            (rnd' : R) (e : D) (few : Bool)
            → ((acc : Seeding D × D)
                → IsSeeded acc.0
                → SeedsOf acc.0
                    (blocks_of root npe_edep hits rnd')
                    (seed_hits root power fManager npe_edep hits acc rnd').0.0)
            → let b : Block D = record { energy = e; x = h.xcell; y = h.ycell } in
              SeedsOf s
                ((if few then [] else b ∷ []) ++ blocks_of root npe_edep hits rnd')
                (seed_hits root power fManager npe_edep hits
                  (seed_energy root power fManager (if few then none else some e) h (s, tot))
                  rnd').0.0
        step rnd' e true later = later (s, tot) v
        step rnd' e false later =
            unfold SeedsOf seed_energy in
            let b : Block D = record { energy = e; x = h.xcell; y = h.ycell } in
            let (seeded, perm) = later (seed_block b s, tot ⊕ e) (seed_block-IsSeeded laws b s v) in
            let rest = blocks_of root npe_edep hits rnd' in
            let one = Permᴰ.append_right rest (seed_block-Permᴰ b s (at_most_one s v)) in
            (seeded, rw (← append_assoc (s.blocks ++ s.clus) (b ∷ []) rest) (Permᴰ.trans perm one))
