-- ===== src/Examples/Planes.antt =====
-- A plane of four strips with two samples each, and hits on it.
use libsolgem.Base.{ℕ, zero, suc, ◌+◌, ℤ, pos, ◌≡◌, refl, true, false, [], ◌∷◌, arith}
use libsolgem.Base.Int.{◌≤ℤ◌, ◌+ℤ◌, ◌-ℤ◌, ◌*ℤ◌}
use libsolgem.Double.{whole_double}
use libsolgem.DigitizedPlane.{
  GemHit, DigitizedPlane, CrossTalk, hit_idx, hit_adc, hit_charge_at, clear, new_plane,
  count_sample, push_sample, main_samples, induced_samples, note_crossing, mark_signal,
  push_cluster, cumulate_strip, cumulate_strips, scale_sample, induce_strip, induce_strips,
  cumulate, scan_over, set_threshold,
}
use libsolgem.DigitizedPlane.Invariant.{IsNoted, IsConsistent, cumulate-IsConsistent}
use libsolgem.DigitizedPlane.Crossing.{clear-IsConsistent, set_threshold-IsNoted}
use libsolgem.DigitizedPlane.Alignment.{IsAligned, cumulate-IsAligned}
use libsolgem.DigitizedPlane.Deposit.{Fits, deposit, cumulate-deposit, cumulate_comm}

methods : Unit {0}
unfolding hit_idx hit_adc hit_charge_at clear new_plane count_sample push_sample main_samples
    induced_samples note_crossing mark_signal push_cluster cumulate_strip cumulate_strips
    scale_sample induce_strip induce_strips cumulate scan_over set_threshold whole_double ◌+ℤ◌ ◌-ℤ◌
    ◌*ℤ◌
methods = tt

abbrev plane : DigitizedPlane ℤ
plane = new_plane 4 2 (pos 3)

-- Samples 2, 3 on strip 1 and 0, 4 on strip 2.
abbrev hit : GemHit ℤ
hit = record {
  idx = 1 ∷ 2 ∷ [];
  adc = 2 ∷ 3 ∷ 0 ∷ 4 ∷ [];
  charge = pos 5 ∷ pos 4 ∷ [];
  time = pos 20;
  n_sample = 2;
  hit_charge = pos 9;
  total_adc = 9;
  size = 2;
}

-- Samples 1, 0 on strip 2.
abbrev small_hit : GemHit ℤ
small_hit = record {
  idx = 2 ∷ [];
  adc = 1 ∷ 0 ∷ [];
  charge = pos 1 ∷ [];
  time = pos 10;
  n_sample = 2;
  hit_charge = pos 1;
  total_adc = 1;
  size = 1;
}

abbrev quiet : CrossTalk ℤ
quiet = record { do_cross_talk = false; n_strip_apart = pos 2; factor = pos 0 }

abbrev talking : CrossTalk ℤ
talking = record { do_cross_talk = true; n_strip_apart = pos 1; factor = pos 1 }

abbrev after : DigitizedPlane ℤ
after = cumulate quiet (pos 0) (pos 0) hit 1 0 plane

runs :
    ((after.strip_adc 2 ≡ 2) × (after.strip_adc 3 ≡ 3) × (after.strip_adc 5 ≡ 4))
    × (after.tot_adc 1 ≡ 5)
    × (after.over_thr ≡ 1 ∷ 2 ∷ [])
    × ((cumulate talking (pos 1) (pos 0) hit 1 0 plane).tot_adc 3 ≡ 4)
    × ((cumulate talking (pos 1) (pos 0) hit 1 0 plane).types 3 ≡ 4)
    × ((set_threshold (pos 4) after).over_thr ≡ 1 ∷ [])
unfolding methods
runs = ((refl, refl, refl), refl, refl, refl, refl, refl)

nonnegative : pos 0 ≤ℤ plane.threshold
unfolding methods
nonnegative = omega arith

fresh : IsConsistent (clear plane)
fresh = clear-IsConsistent plane nonnegative

hit-Fits : Fits hit (clear plane)
unfolding methods
hit-Fits zero lt = omega arith
hit-Fits (suc zero) lt = omega arith
hit-Fits (suc (suc n)) lt = absurd (omega arith)

small_hit-Fits : Fits small_hit (clear plane)
unfolding methods
small_hit-Fits zero lt = omega arith
small_hit-Fits (suc n) lt = absurd (omega arith)

cumulate-IsConsistent_example :
    let q = cumulate talking (pos 1) (pos 0) hit 1 0 (clear plane) in
    IsConsistent q
    × (q.n_samples ≡ (clear plane).n_samples)
    × (q.n_strips ≡ (clear plane).n_strips)
    × (q.threshold ≡ (clear plane).threshold)
cumulate-IsConsistent_example =
    cumulate-IsConsistent talking (pos 1) (pos 0) hit 1 0 (clear plane) hit-Fits fresh

aligned : IsAligned (clear plane)
unfolding methods
aligned = record { few = omega arith; weights = λ i. refl; samples = λ k i lt. refl }

cumulate-IsAligned_example : IsAligned (cumulate talking (pos 1) (pos 0) hit 1 0 (clear plane))
cumulate-IsAligned_example =
    cumulate-IsAligned talking (pos 1) (pos 0) hit 1 0 (clear plane) aligned

cumulate-deposit_example :
    (cumulate quiet (pos 0) (pos 0) hit 1 0 after).strip_adc 3
    ≡ after.strip_adc 3 + deposit hit after.n_samples 2 0 3
cumulate-deposit_example = cumulate-deposit quiet (pos 0) (pos 0) hit 1 0 3 after refl

cumulate_comm_example :
    let q =
      cumulate quiet
        (pos 0)
        (pos 0)
        small_hit
        2
        1
        (cumulate quiet (pos 1) (pos 0) hit 1 0 (clear plane)) in
    let r =
      cumulate quiet
        (pos 1)
        (pos 0)
        hit
        1
        0
        (cumulate quiet (pos 0) (pos 0) small_hit 2 1 (clear plane)) in
    ((a : ℕ) → q.strip_adc a ≡ r.strip_adc a) × (q.tot_adc 2 ≡ r.tot_adc 2)
cumulate_comm_example =
    cumulate_comm quiet (pos 1) (pos 0) (pos 0) (pos 0) hit small_hit 1 2 0 1 2 (clear plane) refl
      hit-Fits small_hit-Fits fresh

noted : IsNoted (set_threshold (pos 4) after)
noted = set_threshold-IsNoted (pos 4) after
