-- ===== src/Digitization/Collect/Store.antt =====
-- What one stored strip changes in a TSBSGEMHit.
use native.Mathlib.Nat.{le_refl, mul-le-mul}
use native.Mathlib.Decide.{dec_lt}
use libsolgem.Base.{
  ℕ, zero, suc, ◌+◌, ◌*◌, ◌≤◌, ◌<◌, ◌≡◌, refl, ap, ◌∙◌, List, length, set, get_or, length-set,
  get_or-set_self, get_or-set_ne, arith,
}
use libsolgem.Double.{Double, of_ℕ}
use libsolgem.DigitizedPlane.{GemHit, hit_idx, hit_adc, hit_charge_at}
use libsolgem.Digitization.Collect.{
  add_strip_at, add_charge_at, add_sample_at, add_samples, store_strip,
}

module _ {D : Type 0} ⦃d : Double D⦄ where
  -- Entry `k` of the hit is strip `idx`, with this charge and these samples.
  pub record IsEntry (v : GemHit D) (k idx : ℕ) (us : D) (sample : ℕ → ℕ) (n : ℕ) : Type 0 where
    pub idx_at : hit_idx v k ≡ idx
    pub charge_at : hit_charge_at v k ≡ us
    pub adc_at : (b : ℕ) → b < n → hit_adc v k b ≡ sample b

  -- `w` has the array sizes of `v`, and its entries below `ai`.
  pub record IsExtended (ai n : ℕ) (v w : GemHit D) : Type 0 where
    pub n_sample : w.n_sample ≡ v.n_sample
    pub idx_size : length w.idx ≡ length v.idx
    pub adc_size : length w.adc ≡ length v.adc
    pub charge_size : length w.charge ≡ length v.charge
    pub idx_kept : (k : ℕ) → k < ai → get_or w.idx k 0 ≡ get_or v.idx k 0
    pub charge_kept : (k : ℕ) → k < ai → get_or w.charge k (of_ℕ 0) ≡ get_or v.charge k (of_ℕ 0)
    pub adc_kept : (a : ℕ) → a < ai * n → get_or w.adc a 0 ≡ get_or v.adc a 0

  -- There is room for `left` entries from `ai`.
  pub record HasRoom (v : GemHit D) (n ai left : ℕ) : Type 0 where
    pub n_sample : v.n_sample ≡ n
    pub idx_room : ai + left ≤ length v.idx
    pub charge_room : ai + left ≤ length v.charge
    pub adc_room : (ai + left) * n ≤ length v.adc

  record HasSamples (sample : ℕ → ℕ) (ai n lo hi : ℕ) (v w : GemHit D) : Type 0 where
    idx : w.idx ≡ v.idx
    charge : w.charge ≡ v.charge
    n_sample : w.n_sample ≡ v.n_sample
    adc_size : length w.adc ≡ length v.adc
    written : (b : ℕ) → lo ≤ b → b < hi → get_or w.adc (ai * n + b) 0 ≡ sample b
    kept : (a : ℕ) → a < ai * n + lo → get_or w.adc a 0 ≡ get_or v.adc a 0

  add_samples-HasSamples :
      (sample : ℕ → ℕ) (ai n left b hi : ℕ) (v : GemHit D)
      → v.n_sample ≡ n
      → b + left ≡ hi
      → ai * n + hi ≤ length v.adc
      → HasSamples sample ai n b hi v (add_samples sample ai left b v)
  unfolding add_samples add_sample_at
  add_samples-HasSamples sample ai n zero b hi v size e room = record {
    idx = refl;
    charge = refl;
    n_sample = refl;
    adc_size = refl;
    written = λ c lo lt. absurd (omega arith);
    kept = λ a lt. refl;
  }
  add_samples-HasSamples sample ai n (suc left) b hi v size e room =
      let w = add_sample_at (sample b) b ai v in
      let sized = length-set v.adc (ai * v.n_sample + b) (sample b) in
      let rest =
        add_samples-HasSamples sample ai n left (b + 1) hi w size (omega arith)
          (omega (arith, sized)) in
      record {
        idx = rest.idx;
        charge = rest.charge;
        n_sample = rest.n_sample;
        adc_size = rest.adc_size ∙ sized;
        written = λ c lo lt. elim (dec_lt b c) [
          | yes later ↦ rest.written c (omega arith) lt
          | no here ↦
              let same : c ≡ b = omega arith in
              rw same (rest.kept (ai * n + b) (omega arith) ∙ self)
        ];
        kept = λ a lt. rest.kept a (omega arith) ∙ other a lt;
      }
    where
      self : get_or (set v.adc (ai * v.n_sample + b) (sample b)) (ai * n + b) 0 ≡ sample b
      self = rw size (get_or-set_self v.adc (ai * n + b) (sample b) 0 (omega arith))

      other :
          (a : ℕ)
          → a < ai * n + b
          → get_or (set v.adc (ai * v.n_sample + b) (sample b)) a 0 ≡ get_or v.adc a 0
      other a lt = rw size (get_or-set_ne v.adc (ai * n + b) a (sample b) 0 (λ e. omega (arith, e)))

  pub store_strip-IsExtended :
      (sample : ℕ → ℕ) (n : ℕ) (us : D) (idx ai left : ℕ) (v : GemHit D)
      → HasRoom v n ai (suc left)
      → IsExtended ai n v (store_strip sample n us idx ai v)
        × IsEntry (store_strip sample n us idx ai v) ai idx us sample n
  unfolding store_strip add_strip_at add_charge_at hit_idx hit_adc hit_charge_at
  store_strip-IsExtended sample n us idx ai left v room =
      let w = add_samples sample ai n 0 v in
      let k = add_samples-HasSamples sample ai n n 0 n v room.n_sample (omega arith) fits in
      let idx_size : length w.idx ≡ length v.idx = ap (λ (l : List ℕ). length l) k.idx in
      let charge_size : length w.charge ≡ length v.charge =
        ap (λ (l : List D). length l) k.charge in
      (
        record {
          n_sample = k.n_sample;
          idx_size = length-set w.idx ai idx ∙ idx_size;
          adc_size = k.adc_size;
          charge_size = length-set w.charge ai us ∙ charge_size;
          idx_kept = λ j lt.
              get_or-set_ne w.idx ai j idx 0 (λ e. omega (arith, e))
              ∙ ap (λ (l : List ℕ). get_or l j 0) k.idx;
          charge_kept = λ j lt.
              get_or-set_ne w.charge ai j us (of_ℕ 0) (λ e. omega (arith, e))
              ∙ ap (λ (l : List D). get_or l j (of_ℕ 0)) k.charge;
          adc_kept = λ a lt. k.kept a (omega arith);
        },
        record {
          idx_at = get_or-set_self w.idx ai idx 0 (omega (arith, idx_size, room.idx_room));
          charge_at =
              get_or-set_self w.charge ai us (of_ℕ 0)
                (omega (arith, charge_size, room.charge_room));
          adc_at = λ b lt. rw (k.n_sample ∙ room.n_sample) (k.written b (omega arith) lt);
        },
      )
    where
      fits : ai * n + n ≤ length v.adc
      fits =
          let one_more : ai + 1 ≤ ai + suc left = omega arith in
          grind (arith, mul-le-mul one_more (le_refl n), room.adc_room)

  -- An entry below `ai` stands in an extended hit.
  pub IsExtended-IsEntry :
      (ai n k idx : ℕ) (us : D) (sample : ℕ → ℕ) (v w : GemHit D)
      → IsExtended ai n v w
      → v.n_sample ≡ n
      → k < ai
      → IsEntry v k idx us sample n
      → IsEntry w k idx us sample n
  unfolding hit_idx hit_adc hit_charge_at
  IsExtended-IsEntry ai n k idx us sample v w x size lt e = record {
    idx_at = x.idx_kept k lt ∙ e.idx_at;
    charge_at = x.charge_kept k lt ∙ e.charge_at;
    adc_at = λ b below.
        rw (x.n_sample) (x.adc_kept (k * v.n_sample + b) (place b below) ∙ e.adc_at b below);
  }
    where
      place : (b : ℕ) → b < n → k * v.n_sample + b < ai * n
      place b below =
          let more : k + 1 ≤ ai = omega arith in
          rw size (grind (arith, mul-le-mul more (le_refl n)))

  pub IsExtended-trans :
      (ai aj n : ℕ) (u v w : GemHit D)
      → ai ≤ aj
      → IsExtended ai n u v
      → IsExtended aj n v w
      → IsExtended ai n u w
  IsExtended-trans ai aj n u v w le x y = record {
    n_sample = y.n_sample ∙ x.n_sample;
    idx_size = y.idx_size ∙ x.idx_size;
    adc_size = y.adc_size ∙ x.adc_size;
    charge_size = y.charge_size ∙ x.charge_size;
    idx_kept = λ k lt. y.idx_kept k (omega arith) ∙ x.idx_kept k lt;
    charge_kept = λ k lt. y.charge_kept k (omega arith) ∙ x.charge_kept k lt;
    adc_kept = λ a lt. y.adc_kept a (omega (arith, mul-le-mul le (le_refl n))) ∙ x.adc_kept a lt;
  }
