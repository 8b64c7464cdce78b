-- ===== src/Examples/Decoding.antt =====
-- An event with a primary track, an electron in the calorimeter and a plane of the coordinate detector
-- without energy.
use libsolgem.Base.{ℕ, ◌+◌, ℤ, pos, ◌≡◌, refl, ◌⊎◌, true, false, none, some, List, [], ◌∷◌, length}
use libsolgem.Double.{whole_double}
use libsolgem.Database.{Manager}
use libsolgem.SimEvent.{EcalCluster, ScintCluster, SimEvent}
use libsolgem.Decoder.Shower.{Library, ShowerProfile, Profiles, calc_shower_coordinates}
use libsolgem.Decoder.Profiles.{Texts, load_shower_profiles}
use libsolgem.Decoder.Profiles.Complete.{Throws, calc_shower_coordinates-load_shower_profiles}
use libsolgem.Examples.Loading.{io, show}
use libsolgem.Decoder.Clusters.Scan.{all_legal}
use libsolgem.Decoder.LoadEvent.{
  hed_ok, hed_err, hed_fatal, loaded, ended, Analyzer, SimDecoder, init_maps, is_below,
  do_load_event,
}
use libsolgem.Decoder.LoadEvent.Outcomes.{FailsCalo, IsLoaded, do_load_event_cases}
use libsolgem.Examples.Events.{det, event, track}

-- A readout that counts its hits.
abbrev podd : Analyzer ℕ ℤ
podd = record {
  load_hit = λ c a x y. some (c + 1);
  clear_slots = λ c. 0;
  need_init = λ c. false;
  init_cmap = λ c. (c, hed_ok);
  init_slotdata = λ c. (c, hed_ok);
  sort_points = λ ps. ps;
  angle = λ v w. pos 0;
  particle_mass = λ pid. some (pos 1);
}

abbrev lib : Library ℤ
lib = record {
  power = λ x e. x;
  log = λ x. x;
  acos = λ x. x;
  asin = λ x. x;
  atan2 = λ y x. y;
  pi = pos 3;
  deg_to_rad = pos 0;
  dot = λ v w. pos 0;
  cross = λ v w. v;
  unit = λ v. v;
  vec_add = λ v w. v;
  vec_scale = λ x v. v;
  invert_times = λ a b. b;
  float_bits = λ x. x;
}

abbrev profile : ShowerProfile ℤ
profile = record { nbins_mom = pos 1; xmin = pos 0; xmax = pos 1; frac = [] }

abbrev profiles : Profiles ℤ
profiles = record { default_ = profile; nbins = pos 0; xmin = pos 0; xmax = pos 1; prof = [] }

abbrev calo_det : Manager ℤ
calo_det = record det { do_calo = pos 1; calo_thr = pos 1 }

abbrev electron : EcalCluster ℤ
electron = record {
  energy = pos 5;
  x_pos = pos 1;
  y_pos = pos 2;
  x_max = pos 1;
  y_max = pos 2;
  time = pos 0;
  det_flag = pos 12;
}

abbrev empty_plane : ScintCluster ℤ
empty_plane = record { ecal = record electron { energy = pos 0; det_flag = pos 31 }; plane = pos 1 }

abbrev full_event : SimEvent ℤ
full_event = record event {
  mc_tracks = track ∷ [];
  ecal_clusters = electron ∷ [];
  scint_clusters = empty_plane ∷ [];
}

abbrev decoder : SimDecoder ℕ ℤ
decoder = record {
  first_decode = false;
  slots = 9;
  strip_map = [];
  event_type = pos 0;
  event_num = pos 0;
  weight = pos 0;
  mc_hits = [];
  mc_tracks = [];
  mc_points = [];
  back_tracks_ = [];
}

do_load_event_cases_example :
    let out = do_load_event calo_det podd lib (pos 0) profiles profiles 25 full_event decoder in
    ((is_below calo_det full_event ≡ true) × (out ≡ ended hed_err))
    ⊎ ((is_below calo_det full_event ≡ false)
        × (all_legal calo_det (pos 4) full_event.gem_clust ≡ false)
        × (out ≡ ended hed_fatal))
    ⊎ ((is_below calo_det full_event ≡ false)
        × (all_legal calo_det (pos 4) full_event.gem_clust ≡ true)
        × FailsCalo lib (pos 0) calo_det full_event
        × (out ≡ ended hed_err))
    ⊎ ((is_below calo_det full_event ≡ false)
        × (all_legal calo_det (pos 4) full_event.gem_clust ≡ true)
        × ¬ FailsCalo lib (pos 0) calo_det full_event
        × (u : SimDecoder ℕ ℤ) × (out ≡ loaded u)
        × IsLoaded calo_det podd lib
            (pos 0)
            profiles
            profiles
            (λ c a x y. (c + 1, refl))
            full_event
            track
            []
            u)
unfolding init_maps
do_load_event_cases_example =
    do_load_event_cases calo_det podd lib (pos 0) profiles profiles (λ c a x y. (c + 1, refl)) 25
      full_event track [] decoder decoder refl refl

-- A text of which every part is the whole.
abbrev pub texts : Texts
texts = record {
  index = λ text title start. pos 0;
  part = λ text start len. text;
  remove_all = λ title text. text;
  show = show;
}

abbrev sizes : List ℕ
sizes = b'2' ∷ b'1' ∷ b'3' ∷ []

calc_shower_coordinates-load_shower_profiles_example :
    ((Throws io texts b'x' sizes ⊎ Throws io texts b'y' sizes)
      × (load_shower_profiles io texts sizes ≡ none))
    ⊎ ((px py : Profiles ℤ) × (load_shower_profiles io texts sizes ≡ some (px, py))
        × (pos (length px.prof) ≡ px.nbins)
        × (pos (length py.prof) ≡ py.nbins)
        × (calc_shower_coordinates lib (pos 0) px py (pos 1) (pos 1) (pos 2) (pos 2) (pos 3) (pos 4)
            ≡ calc_shower_coordinates lib
                (pos 9)
                px
                py
                (pos 1)
                (pos 1)
                (pos 2)
                (pos 2)
                (pos 3)
                (pos 4)))
calc_shower_coordinates-load_shower_profiles_example =
    calc_shower_coordinates-load_shower_profiles io texts lib sizes (pos 1) (pos 1) (pos 2) (pos 2)
      (pos 3) (pos 4) (pos 0) (pos 9)
