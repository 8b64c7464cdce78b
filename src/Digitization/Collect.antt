-- ===== src/Digitization/Collect.antt =====
-- The end of AvaModel: the charge of each strip is shaped and sampled, and the strips with a signal
-- are written into a TSBSGEMHit (src/TSBSGEMHit.{h,cxx}). Indices are natural numbers; TArray::AddAt
-- writes nothing out of bounds.
pub mod Store
pub mod Signal
use libsolgem.Base.{
  ℕ, zero, suc, ◌+◌, ◌*◌, ℤ, pos, List, [], ◌∷◌, set, replicate, get_or, ltb, if◌then◌else◌,
}
use libsolgem.Base.Int.{pos_part}
use libsolgem.Double.{Double, ◌⊕◌, ◌⊖◌, ◌⊗◌, of_ℤ, of_ℕ}
use libsolgem.SimAuxi.{adc_convert, pulse_shape}
use libsolgem.DigitizedPlane.{GemHit}
use libsolgem.Digitization.{Settings, points}

module _ {D : Type 0} ⦃d : Double D⦄ where
  -- The constructor TSBSGEMHit(n, nsample).
  unfoldable pub new_hit : ℕ → ℕ → GemHit D
  new_hit n nsample = record {
    idx = replicate n 0;
    adc = replicate (nsample * n) 0;
    charge = replicate n (of_ℕ 0);
    time = of_ℤ (ℤ.negsuc 0);
    n_sample = nsample;
    hit_charge = of_ℕ 0;
    total_adc = 0;
    size = n;
  }

  -- The sum over the y bins of one column, from bin `kx` with `left` to go.
  unfoldable pub integral_y : (ℕ → D) → ℕ → ℕ → D → D
  integral_y sum_a zero kx acc = acc
  integral_y sum_a (suc left) kx acc = integral_y sum_a left (kx + 1) (acc ⊕ sum_a kx)

  -- The charge of strip `j`: the loop over its columns, from column `k` with `left` to go.
  unfoldable pub strip_charge : (ℕ → D) → (steps ny : ℕ) → D → (j left k : ℕ) → D → D
  unfolding integral_y
  strip_charge sum_a steps ny area j zero k us = us
  strip_charge sum_a steps ny area j (suc left) k us =
      strip_charge sum_a steps ny area j left (k + 1)
        (us ⊕ integral_y sum_a ny ((j * steps + k) * ny) (of_ℕ 0) ⊗ area)

  -- fDADC[b] of a strip of charge `us`, in a hit at time t0.
  unfoldable pub strip_sample : Settings D → D → D → ℕ → ℕ
  strip_sample s t0 us b =
      adc_convert
        (pulse_shape (s.ele_sampling_period ⊗ of_ℕ b ⊖ t0) us s.pulse_shape_tau0 s.pulse_shape_tau1)
        s.adc_offset s.adc_gain (pos_part s.adc_bits)

-- `posflag`, from sample `b` with `left` to go.
unfoldable pub signal_sum : (ℕ → ℕ) → ℕ → ℕ → ℕ
signal_sum sample zero b = 0
signal_sum sample (suc left) b = sample b + signal_sum sample left (b + 1)

module _ {D : Type 0} where
  unfoldable pub add_strip_at : ℕ → ℕ → GemHit D → GemHit D
  add_strip_at idx n v = record v { idx = set v.idx n idx }

  unfoldable pub add_charge_at : D → ℕ → GemHit D → GemHit D
  add_charge_at val n v = record v { charge = set v.charge n val }

  unfoldable pub add_sample_at : ℕ → ℕ → ℕ → GemHit D → GemHit D
  add_sample_at val sample n v = record v {
    adc = set v.adc (n * v.n_sample + sample) val;
    total_adc = v.total_adc + val;
  }

  -- The loop that writes the samples of a strip, from sample `b` with `left` to go.
  unfoldable pub add_samples : (ℕ → ℕ) → ℕ → ℕ → ℕ → GemHit D → GemHit D
  add_samples sample ai zero b v = v
  add_samples sample ai (suc left) b v =
      add_samples sample ai left (b + 1) (add_sample_at (sample b) b ai v)

  -- A strip with a signal is stored at place `ai`.
  unfoldable pub store_strip : (ℕ → ℕ) → ℕ → D → ℕ → ℕ → GemHit D → GemHit D
  store_strip sample n idx_charge idx ai v =
      add_charge_at idx_charge ai (add_strip_at idx ai (add_samples sample ai n 0 v))

  -- The loop over strips, from strip `j` with `left` to go; `us` and `sample` give the charge and the
  -- samples of a strip.
  unfoldable pub collect_strips :
      (ℕ → D) → (ℕ → ℕ → ℕ) → (n lo left j ai : ℕ) → GemHit D → GemHit D × ℕ
  unfolding signal_sum
  collect_strips us sample n lo zero j ai v = (v, ai)
  collect_strips us sample n lo (suc left) j ai v =
      let (v', ai') =
        if ltb 0 (signal_sum (sample j) n 0)
        then (store_strip (sample j) n (us j) (lo + j) ai v, ai + 1)
        else (v, ai) in
      collect_strips us sample n lo left (j + 1) ai' v'
