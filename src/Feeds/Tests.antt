-- ===== src/Feeds/Tests.antt =====
-- Runs of the feed detectors on numbers of three decimals, and the theorems at them.
mod Incidents
use multi_desk_trading.Common.{String, ◌≡◌, refl, Bool, true, false, some, List, [], ◌∷◌, ok}
use multi_desk_trading.Common.Int.{ℤ, pos, ◌+ℤ◌, ◌-ℤ◌}
use multi_desk_trading.Common.Time.{Datetime, aware}
use multi_desk_trading.Common.Float.Fixed.{fixed, fixed_laws}
use multi_desk_trading.Feeds.Detector.{
  PageHinkleyState, initial_state, update_page_hinkley, run_observations,
}
use multi_desk_trading.Feeds.Detector.Trips.{IsDetection, count_true, run_observations-IsDetection}
use multi_desk_trading.Feeds.Latency.{LatencyTable, load_or_initial, observe_all}
use multi_desk_trading.Feeds.Latency.Separate.{reports_of, observe_all_separate}

abbrev late : List (ℤ × Datetime)
late = (pos 30000, aware (pos 1)) ∷ (pos 30000, aware (pos 2)) ∷ (pos 0, aware (pos 3)) ∷ []

-- 30 seconds twice trip a threshold of 50 at the second observation, and only there.
run_observations-late :
    (t : PageHinkleyState fixed) × (run_observations fixed
        (initial_state fixed "eia_wpsr")
        late
        (pos 5)
        (pos 50000)
      ≡ ok (t, false ∷ true ∷ false ∷ []))
unfolding run_observations update_page_hinkley initial_state ◌+ℤ◌ ◌-ℤ◌
run_observations-late = (
  record {
    feed_name = "eia_wpsr";
    cumulative_sum = pos 59985;
    min_cumulative = pos 0;
    n_observations = 3;
    last_update_ts_utc = some (aware (pos 3));
    tripped = true;
  },
  refl,
)

run_observations-IsDetection_example :
    (t : PageHinkleyState fixed) × (alarms : List Bool) × (run_observations fixed
        (initial_state fixed "eia_wpsr")
        late
        (pos 5)
        (pos 50000)
      ≡ ok (t, alarms))
    × IsDetection fixed (initial_state fixed "eia_wpsr") late (pos 5) (pos 50000) t alarms
run_observations-IsDetection_example =
    run_observations-IsDetection fixed (initial_state fixed "eia_wpsr") late (pos 5) (pos 50000)
      ((refl, refl), ((refl, refl), ((refl, refl), tt)))

abbrev prompt : List (ℤ × Datetime)
prompt = (pos 0, aware (pos 1)) ∷ (pos 5, aware (pos 2)) ∷ []

abbrev mixed : List (String × ℤ × Datetime)
mixed =
    ("eia_wpsr", pos 30000, aware (pos 1))
    ∷ ("cftc_cot", pos 0, aware (pos 2))
    ∷ ("eia_wpsr", pos 30000, aware (pos 3))
    ∷ []

observe_all_separate_example :
    (table' : LatencyTable fixed) × (observe_all fixed [] mixed (pos 5) (pos 50000) ≡ ok table')
    × ((g : String)
        → (alarms : List Bool) × (run_observations fixed
              (load_or_initial fixed [] g)
              (reports_of fixed g mixed)
              (pos 5)
              (pos 50000)
            ≡ ok (load_or_initial fixed table' g, alarms)))
observe_all_separate_example =
    observe_all_separate fixed [] mixed (pos 5) (pos 50000)
      ((refl, refl), ((refl, refl), ((refl, refl), tt)))
