-- ===== src/Digitization/Noise.antt =====
-- GetPedNoise of src/TSBSSimGEMDigitization.cxx, which nothing calls.
use libsolgem.Base.{ℕ}
use libsolgem.Double.{Double, ◌⊕◌, ◌⊗◌, ◌⊘◌, of_ℕ}
use libsolgem.Digitization.{Root, Settings}

module _ {D R : Type 0} ⦃d : Double D⦄ (root : Root D R) (s : Settings D) where
  unfoldable pub get_ped_noise : D → D → ℕ → R → D × R
  get_ped_noise phase amp isample rnd =
      let this_phase = phase ⊕ of_ℕ isample ⊗ s.ele_sampling_period in
      let (noise, rnd') = root.gaus (of_ℕ 5 ⊗ s.pulse_noise_sigma) s.pulse_noise_sigma rnd in
      (noise ⊕ amp ⊗ d.sin (of_ℕ 2 ⊗ root.pi ⊘ s.pulse_noise_period ⊗ this_phase), rnd')
