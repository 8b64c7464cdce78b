-- ===== src/HitData/Hits.antt =====
-- The hits that TSBSGEMSimHitData keeps through resizes and writes.
use libsolgem.Base.{
  ℕ, zero, suc, ◌<◌, ◌≡◌, ◌≢◌, refl, ap, List, [], ◌∷◌, length, get_or, length-set, get_or-set_self,
  get_or-set_ne, arith,
}
use libsolgem.Double.{Double}
use libsolgem.HitData.{HitDatum, HitData, resize, blank, hit_at, modify_hit, set_nhit, get_nhit}

module _ {ℓ} {A : Type ℓ} where
  pub length-resize : (a : A) (n : ℕ) (xs : List A) → length (resize a n xs) ≡ n
  unfolding resize
  length-resize a zero xs = refl
  length-resize a (suc n) [] = ap suc (length-resize a n [])
  length-resize a (suc n) (x ∷ xs) = ap suc (length-resize a n xs)

  get_or-resize :
      (a : A) (n : ℕ) (xs : List A) (k : ℕ) → k < n → get_or (resize a n xs) k a ≡ get_or xs k a
  unfolding resize
  get_or-resize a zero xs k h = elim h [ ]
  get_or-resize a (suc n) [] zero h = refl
  get_or-resize a (suc n) [] (suc k) h = get_or-resize a n [] k (omega arith)
  get_or-resize a (suc n) (x ∷ xs) zero h = refl
  get_or-resize a (suc n) (x ∷ xs) (suc k) h = get_or-resize a n xs k (omega arith)

module _ {D : Type 0} ⦃d : Double D⦄ where
  -- SetNHit gives the event exactly that many hits: those it had, in their places, and blank ones
  -- after them.
  pub set_nhit_lem :
      (h : ℕ) (g : HitData D)
      → (get_nhit (set_nhit h g) ≡ h)
        × ((k : ℕ) → k < h → hit_at (set_nhit h g) k ≡ hit_at g k)
        × (hit_at g (get_nhit g) ≡ blank)
  unfolding set_nhit get_nhit hit_at
  set_nhit_lem h g =
      (length-resize blank h g.hits, λ k lt. get_or-resize blank h g.hits k lt, get_or-end g.hits)
    where
      get_or-end : (xs : List (HitDatum D)) → get_or xs (length xs) blank ≡ blank
      get_or-end [] = refl
      get_or-end (x ∷ xs) = get_or-end xs

  -- A write to hit k of an event that has it changes that hit as written, and neither another hit nor
  -- their number.
  pub modify_hit_lem :
      (f : HitDatum D → HitDatum D) (k : ℕ) (g : HitData D)
      → k < get_nhit g
      → (hit_at (modify_hit f k g) k ≡ f (hit_at g k))
        × ((j : ℕ) → k ≢ j → hit_at (modify_hit f k g) j ≡ hit_at g j)
        × (get_nhit (modify_hit f k g) ≡ get_nhit g)
  unfolding modify_hit get_nhit hit_at
  modify_hit_lem f k g h = (
    get_or-set_self g.hits k (f (hit_at g k)) blank h,
    λ j ne. get_or-set_ne g.hits k j (f (hit_at g k)) blank ne,
    length-set g.hits k (f (hit_at g k)),
  )
