-- ===== src/Database/Load/Requests.antt =====
-- The requests of LoadGeneralInfo and LoadGeoInfo in src/TSBSDBManager.cxx.
use libsolgem.Base.{ℤ, List, [], ◌∷◌, ◌++◌}
use libsolgem.Base.Int.{pos_part}
use libsolgem.Database.{Manager, GeoInfo}
use libsolgem.Database.Load.{DbRequest, k_double, k_int, k_int_v, k_string}

-- The manager, with NModule and fNGEMPlane as they are read.
pub record General (D : Type 0) : Type 0 where
  pub manager : Manager D
  pub counts : List ℤ
  pub planes : ℤ

-- The variables pid and tid.
pub record Signal : Type 0 where
  pub pid : ℤ
  pub tid : ℤ

module _ {D : Type 0} where
  abbrev pub on : (Manager D → Manager D) → General D → General D
  on f g = record g { manager = f g.manager }

  -- `request` of LoadGeneralInfo.
  unfoldable pub general_requests : List (DbRequest D (General D))
  general_requests =
      record {
        name =
            b'd' ∷ b'o' ∷ b'_' ∷ b'm' ∷ b'a' ∷ b'p' ∷ b'_' ∷ b's' ∷ b'e' ∷ b'c' ∷ b't' ∷ b'o' ∷ b'r'
            ∷ [];
        var = k_int (λ v. on (λ m. record m { do_map_sector = v }));
      }
      ∷ record {
        name =
            b's' ∷ b'e' ∷ b'l' ∷ b'f' ∷ b'_' ∷ b'd' ∷ b'e' ∷ b'f' ∷ b'i' ∷ b'n' ∷ b'e' ∷ b'_' ∷ b's'
            ∷ b'e' ∷ b'c' ∷ b't' ∷ b'o' ∷ b'r' ∷ [];
        var = k_int (λ v. on (λ m. record m { do_self_defined_sector = v }));
      }
      ∷ record {
        name =
            b's' ∷ b'e' ∷ b'c' ∷ b't' ∷ b'o' ∷ b'r' ∷ b'_' ∷ b'm' ∷ b'a' ∷ b'p' ∷ b'p' ∷ b'e' ∷ b'd'
            ∷ [];
        var = k_int (λ v. on (λ m. record m { mapped_sector = v }));
      }
      ∷ record {
        name = b'n' ∷ b'c' ∷ b'h' ∷ b'a' ∷ b'm' ∷ b'b' ∷ b'e' ∷ b'r' ∷ [];
        var = k_int (λ v. on (λ m. record m { n_chamber = pos_part v }));
      }
      ∷ record {
        name = b'n' ∷ b's' ∷ b'e' ∷ b'c' ∷ b't' ∷ b'o' ∷ b'r' ∷ [];
        var = k_int (λ v. on (λ m. record m { n_sector = v }));
      }
      ∷ record {
        name = b'n' ∷ b'p' ∷ b'l' ∷ b'a' ∷ b'n' ∷ b'e' ∷ [];
        var = k_int (λ v g. record g {
          manager = record g.manager { n_gem_plane = pos_part v };
          planes = v;
        });
      }
      ∷ record {
        name = b'n' ∷ b'm' ∷ b'o' ∷ b'd' ∷ b'u' ∷ b'l' ∷ b'e' ∷ [];
        var = k_int_v (λ v g. record g { counts = g.counts ++ v ∷ [] });
      }
      ∷ record {
        name = b'n' ∷ b'r' ∷ b'e' ∷ b'a' ∷ b'd' ∷ b'o' ∷ b'u' ∷ b't' ∷ [];
        var = k_int (λ v. on (λ m. record m { n_read_out = pos_part v }));
      }
      ∷ record {
        name =
            b'g' ∷ b'e' ∷ b'm' ∷ b'_' ∷ b'd' ∷ b'r' ∷ b'i' ∷ b'f' ∷ b't' ∷ b'_' ∷ b'i' ∷ b'd' ∷ [];
        var = k_int (λ v. on (λ m. record m { gem_drift_id = v }));
      }
      ∷ record {
        name =
            b'g' ∷ b'e' ∷ b'm' ∷ b'_' ∷ b'c' ∷ b'o' ∷ b'p' ∷ b'p' ∷ b'e' ∷ b'r' ∷ b'_' ∷ b'f' ∷ b'r'
            ∷ b'o' ∷ b'n' ∷ b't' ∷ b'_' ∷ b'i' ∷ b'd' ∷ [];
        var = k_int (λ v. on (λ m. record m { gem_copper_front_id = v }));
      }
      ∷ record {
        name =
            b'g' ∷ b'e' ∷ b'm' ∷ b'_' ∷ b'c' ∷ b'o' ∷ b'p' ∷ b'p' ∷ b'e' ∷ b'r' ∷ b'_' ∷ b'b' ∷ b'a'
            ∷ b'c' ∷ b'k' ∷ b'_' ∷ b'i' ∷ b'd' ∷ [];
        var = k_int (λ v. on (λ m. record m { gem_copper_back_id = v }));
      }
      ∷ record {
        name =
            b'g' ∷ b'e' ∷ b'm' ∷ b'_' ∷ b's' ∷ b't' ∷ b'r' ∷ b'i' ∷ b'p' ∷ b'_' ∷ b'i' ∷ b'd' ∷ [];
        var = k_int (λ v. on (λ m. record m { gem_strip_id = v }));
      }
      ∷ record {
        name = b'f' ∷ b'a' ∷ b'e' ∷ b'c' ∷ b'_' ∷ b'i' ∷ b'd' ∷ [];
        var = k_int (λ v. on (λ m. record m { faec_id = v }));
      }
      ∷ record {
        name = b'l' ∷ b'a' ∷ b'e' ∷ b'c' ∷ b'_' ∷ b'i' ∷ b'd' ∷ [];
        var = k_int (λ v. on (λ m. record m { laec_id = v }));
      }
      ∷ record {
        name = b'n' ∷ b's' ∷ b'i' ∷ b'g' ∷ b'n' ∷ b'a' ∷ b'l' ∷ [];
        var = k_int (λ v. on (λ m. record m { n_sig_particle = pos_part v }));
      }
      ∷ record {
        name =
            b'c' ∷ b'h' ∷ b'a' ∷ b'n' ∷ b'_' ∷ b'p' ∷ b'e' ∷ b'r' ∷ b'_' ∷ b's' ∷ b'l' ∷ b'o' ∷ b't'
            ∷ [];
        var = k_int (λ v. on (λ m. record m { chan_per_slot = pos_part v }));
      }
      ∷ record {
        name =
            b'm' ∷ b'o' ∷ b'd' ∷ b'u' ∷ b'l' ∷ b'e' ∷ b's' ∷ b'_' ∷ b'p' ∷ b'e' ∷ b'r' ∷ b'_' ∷ b'r'
            ∷ b'e' ∷ b'a' ∷ b'd' ∷ b'o' ∷ b'u' ∷ b't' ∷ [];
        var = k_int (λ v. on (λ m. record m { modules_per_read_out = pos_part v }));
      }
      ∷ record {
        name =
            b'g' ∷ b'4' ∷ b's' ∷ b'b' ∷ b's' ∷ b'_' ∷ b'd' ∷ b'e' ∷ b't' ∷ b'e' ∷ b'c' ∷ b't' ∷ b'o'
            ∷ b'r' ∷ b't' ∷ b'y' ∷ b'p' ∷ b'e' ∷ [];
        var = k_int (λ v. on (λ m. record m { g4sbs_detector_type = v }));
      }
      ∷ record {
        name =
            b'g' ∷ b'4' ∷ b's' ∷ b'b' ∷ b's' ∷ b'_' ∷ b'z' ∷ b'_' ∷ b's' ∷ b'p' ∷ b'e' ∷ b'c' ∷ b'o'
            ∷ b'f' ∷ b'f' ∷ b's' ∷ b'e' ∷ b't' ∷ [];
        var = k_double (λ v. on (λ m. record m { g4sbs_z_spec_offset = v }));
      }
      ∷ record {
        name = b'c' ∷ b'a' ∷ b'l' ∷ b'o' ∷ b'_' ∷ b't' ∷ b'h' ∷ b'r' ∷ [];
        var = k_double (λ v. on (λ m. record m { calo_thr = v }));
      }
      ∷ record { name = b'z' ∷ b'0' ∷ []; var = k_double (λ v. on (λ m. record m { z0 = v })) }
      ∷ record {
        name = b'c' ∷ b'a' ∷ b'l' ∷ b'o' ∷ b'_' ∷ b'z' ∷ [];
        var = k_double (λ v. on (λ m. record m { calo_z = v }));
      }
      ∷ record {
        name = b'c' ∷ b'a' ∷ b'l' ∷ b'o' ∷ b'_' ∷ b'r' ∷ b'e' ∷ b's' ∷ [];
        var = k_double (λ v. on (λ m. record m { calo_res = v }));
      }
      ∷ record {
        name = b'd' ∷ b'o' ∷ b'c' ∷ b'a' ∷ b'l' ∷ b'o' ∷ [];
        var = k_int (λ v. on (λ m. record m { do_calo = v }));
      }
      ∷ record {
        name =
            b'o' ∷ b'r' ∷ b'd' ∷ b'e' ∷ b'r' ∷ b'_' ∷ b'o' ∷ b'p' ∷ b't' ∷ b'i' ∷ b'c' ∷ b's' ∷ [];
        var = k_int (λ v. on (λ m. record m { order_optics = v }));
      }
      ∷ record {
        name = b'o' ∷ b'p' ∷ b't' ∷ b'i' ∷ b'c' ∷ b's' ∷ b'f' ∷ b'i' ∷ b'l' ∷ b'e' ∷ [];
        var = k_string (λ v. on (λ m. record m { optics_file = v }));
      }
      ∷ []

  unfoldable pub signal_requests : List (DbRequest D Signal)
  signal_requests =
      record { name = b'p' ∷ b'i' ∷ b'd' ∷ []; var = k_int (λ v s. record s { pid = v }) }
      ∷ record { name = b't' ∷ b'i' ∷ b'd' ∷ []; var = k_int (λ v s. record s { tid = v }) }
      ∷ []

  -- `request` and `plane_request` of LoadGeoInfo.
  unfoldable pub geo_requests : List (DbRequest D (GeoInfo D))
  geo_requests =
      record {
        name = b'd' ∷ b'm' ∷ b'a' ∷ b'g' ∷ [];
        var = k_double (λ v g. record g { dmag = v });
      }
      ∷ record { name = b'd' ∷ b'0' ∷ []; var = k_double (λ v g. record g { d0 = v }) }
      ∷ record {
        name = b'x' ∷ b'o' ∷ b'f' ∷ b'f' ∷ b's' ∷ b'e' ∷ b't' ∷ [];
        var = k_double (λ v g. record g { xoffset = v });
      }
      ∷ record { name = b'd' ∷ b'x' ∷ []; var = k_double (λ v g. record g { dx = v }) }
      ∷ record { name = b'd' ∷ b'y' ∷ []; var = k_double (λ v g. record g { dy = v }) }
      ∷ record {
        name = b't' ∷ b'h' ∷ b'e' ∷ b't' ∷ b'a' ∷ b'V' ∷ [];
        var = k_double (λ v g. record g { theta_v = v });
      }
      ∷ record {
        name = b'd' ∷ b'e' ∷ b'p' ∷ b't' ∷ b'h' ∷ [];
        var = k_double (λ v g. record g { depth = v });
      }
      ∷ []

  unfoldable pub plane_requests : List (DbRequest D (GeoInfo D))
  plane_requests =
      record {
        name =
            b'x' ∷ b'.' ∷ b's' ∷ b't' ∷ b'r' ∷ b'i' ∷ b'p' ∷ b'a' ∷ b'n' ∷ b'g' ∷ b'l' ∷ b'e' ∷ [];
        var = k_double (λ v g. record g { stripangle_u = v });
      }
      ∷ record {
        name = b'x' ∷ b'.' ∷ b'p' ∷ b'i' ∷ b't' ∷ b'c' ∷ b'h' ∷ [];
        var = k_double (λ v g. record g { pitch_u = v });
      }
      ∷ record {
        name =
            b'y' ∷ b'.' ∷ b's' ∷ b't' ∷ b'r' ∷ b'i' ∷ b'p' ∷ b'a' ∷ b'n' ∷ b'g' ∷ b'l' ∷ b'e' ∷ [];
        var = k_double (λ v g. record g { stripangle_v = v });
      }
      ∷ record {
        name = b'y' ∷ b'.' ∷ b'p' ∷ b'i' ∷ b't' ∷ b'c' ∷ b'h' ∷ [];
        var = k_double (λ v g. record g { pitch_v = v });
      }
      ∷ []
