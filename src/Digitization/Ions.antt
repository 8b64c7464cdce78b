-- ===== src/Digitization/Ions.antt =====
-- IonModel: the ions along a track segment, and what they drift and spread.
use libsolgem.Base.{ℕ, zero, suc, pos, List, [], ◌∷◌, ◌++◌, ltb, ◌==◌, if◌then◌else◌}
use libsolgem.Base.Int.{eqb_ℤ}
use libsolgem.Double.{Double, ◌⊕◌, ◌⊖◌, ◌⊗◌, ◌⊘◌, ◌≺◌, ◌≼◌, of_ℕ, greater}
use libsolgem.SimEvent.{Vec3}
use libsolgem.Digitization.{Root, Settings, IonPar, Digitizer}

-- The variables of the loop over ions.
pub record IonLoop (D R : Type 0) : Type 0 where
  pub rnd : R
  pub ions : List (IonPar D)
  pub s_max : D
  pub total_charge : D
  pub time0 : D

module _ {D R : Type 0} ⦃d : Double D⦄ (root : Root D R) (s : Settings D) where
  -- The body of the loop.
  unfoldable pub add_ion : Vec3 D → Vec3 D → IonLoop D R → IonLoop D R
  add_ion xi vseg acc =
      let (lion, rnd1) = root.uniform (of_ℕ 0) (of_ℕ 1) acc.rnd in
      let (shift_x, rnd2) = root.gaus (of_ℕ 0) s.lateral_uncertainty rnd1 in
      let (shift_y, rnd3) = root.gaus (of_ℕ 0) s.lateral_uncertainty rnd2 in
      let ld = d.abs (xi.z ⊖ s.entrance_ref) in
      let ll = d.abs (s.rout_z ⊖ ld ⊖ vseg.z ⊗ lion) in
      let ttime = ll ⊘ s.gas_drift_velocity in
      let s_norm = d.sqrt (of_ℕ 2 ⊗ s.gas_diffusion ⊗ ttime) in
      let gnorm = s.gain_mean ⊘ d.sqrt s.gain0 in
      let (charge, rnd4) =
        if eqb_ℤ s.avalanche_charge_statistics (pos 1)
        then root.gaus s.gain_mean gnorm rnd3
        else root.exponential s.gain_mean rnd3 in
      let kept = if of_ℕ 0 ≺ charge then charge else of_ℕ 0 in
      let wide = s_norm ⊗ s.s_norm_nsigma in
      record {
        rnd = rnd4;
        ions =
            acc.ions
            ++ (record {
              x = vseg.x ⊗ lion ⊕ xi.x ⊕ shift_x;
              y = vseg.y ⊗ lion ⊕ xi.y ⊕ shift_y;
              charge = kept;
              s_norm = wide;
              r2 = wide ⊗ wide;
              ggnorm = kept ⊗ root.inv_pi ⊘ (wide ⊗ wide);
            })
              ∷ [];
        s_max = greater s_norm acc.s_max;
        total_charge = if of_ℕ 0 ≺ charge then acc.total_charge ⊕ charge else acc.total_charge;
        time0 = if ttime ≼ acc.time0 then ttime else acc.time0;
      }

  -- The loop, with `left` ions to go.
  unfoldable pub add_ions : Vec3 D → Vec3 D → ℕ → IonLoop D R → IonLoop D R
  add_ions xi vseg zero acc = acc
  add_ions xi vseg (suc left) acc = add_ions xi vseg left (add_ion xi vseg acc)

  unfoldable pub ion_model : Vec3 D → Vec3 D → D → Digitizer D R → Digitizer D R
  ion_model xi xo elost t =
      let vseg = root.vec_sub xo xi in
      let (drawn, rnd) = root.poisson (elost ⊘ s.gas_wion) t.trnd in
      let n = if ltb s.max_n_ion drawn then s.max_n_ion else drawn in
      let sums = add_ions xi vseg n (record {
        rnd = rnd;
        ions = [];
        s_max = of_ℕ 0;
        total_charge = of_ℕ 0;
        time0 = of_ℕ 999999;
      }) in
      if drawn == 0 then record t { r_n_ion = 0; trnd = rnd } else record t {
        r_n_ion = n;
        trnd = sums.rnd;
        r_ion = sums.ions;
        r_s_max = sums.s_max;
        r_total_charge = sums.total_charge;
        r_time0 = sums.time0;
      }
