-- ===== src/Feeds/Detector/Trips.antt =====
-- When the detector trips, and how often it raises its alarm.
use multi_desk_trading.Common.{
  ℕ, ◌+◌, ◌≡◌, refl, Bool, false, not, ◌&&◌, ◌||◌, some, List, [], ◌∷◌, ok, ◌>>=◌, arith, All,
  length, if◌then◌else◌, ap, ◌∙◌,
}
use multi_desk_trading.Common.Float.{FloatOps, min_float}
use multi_desk_trading.Common.Time.{Datetime, is_naive}
use multi_desk_trading.Feeds.Detector.{PageHinkleyState, update_page_hinkley, run_observations}

abbrev pub count_true : List Bool → ℕ
count_true [] = 0
count_true (b ∷ bs) = (if b then 1 else 0) + count_true bs

or_regroup : (a b c : Bool) → ((a || (b || false)) || c) ≡ (a || (b || c))
or_regroup a b c = ground arith

module _ (F : FloatOps) where
  open F use {Float}

  -- What `update_page_hinkley` accepts: an aware time, and a latency that is not below 0.0.
  abbrev pub IsObservation : Float × Datetime → Type 0
  IsObservation (latency, now) = (is_naive now ≡ false) × (F.ltb latency F.zero ≡ false)

  -- The cumulative drift after each observation.
  abbrev pub drifts : Float → Float → List (Float × Datetime) → List Float
  drifts delta total [] = []
  drifts delta total ((latency, _) ∷ rest) =
      let next = F.add total (F.sub latency delta) in next ∷ drifts delta next rest

  -- Some drift lies above the least one up to it, the start included, by more than the threshold.
  abbrev pub climbs : Float → Float → List Float → Bool
  climbs threshold least [] = false
  climbs threshold least (d ∷ ds) =
      let least' = min_float F least d in
      F.ltb threshold (F.sub d least') || climbs threshold least' ds

  -- What a run leaves behind.
  pub record IsDetection (s : PageHinkleyState F) (xs : List (Float × Datetime))
      (delta threshold : Float) (t : PageHinkleyState F) (alarms : List Bool) : Type 0 where
    pub trips :
        t.tripped
        ≡ (s.tripped || climbs threshold s.min_cumulative (drifts delta s.cumulative_sum xs))
    pub alarmed_once : count_true alarms ≡ (if not s.tripped && t.tripped then 1 else 0)
    pub counted : t.n_observations ≡ s.n_observations + length xs
    pub named : t.feed_name ≡ s.feed_name

  -- An accepted observation is never refused, and moves the detector by one.
  pub update_lem :
      (s : PageHinkleyState F) (latency : Float) (now : Datetime) (delta threshold : Float)
      → IsObservation (latency, now)
      → (t : PageHinkleyState F) × (alarm : Bool) × (update_page_hinkley F s latency now delta
            threshold
          ≡ ok (t, alarm))
        × IsDetection s ((latency, now) ∷ []) delta threshold t (alarm ∷ [])
        × (t.cumulative_sum ≡ F.add s.cumulative_sum (F.sub latency delta))
        × (t.min_cumulative ≡ min_float F s.min_cumulative t.cumulative_sum)
  unfolding update_page_hinkley
  update_lem s latency now delta threshold h =
      let total = F.add s.cumulative_sum (F.sub latency delta) in
      let least = min_float F s.min_cumulative total in
      let trips = s.tripped || F.ltb threshold (F.sub total least) in
      (
        record {
          feed_name = s.feed_name;
          cumulative_sum = total;
          min_cumulative = least;
          n_observations = s.n_observations + 1;
          last_update_ts_utc = some now;
          tripped = trips;
        },
        not s.tripped && trips,
        ground arith,
        record { trips = ground arith; alarmed_once = ground arith; counted = refl; named = refl },
        refl,
        refl,
      )

  IsDetection-cons :
      (s m t : PageHinkleyState F) (latency : Float) (now : Datetime) (xs : List (Float × Datetime))
      (delta threshold : Float) (alarm : Bool) (alarms : List Bool)
      → IsDetection s ((latency, now) ∷ []) delta threshold m (alarm ∷ [])
      → IsDetection m xs delta threshold t alarms
      → m.cumulative_sum ≡ F.add s.cumulative_sum (F.sub latency delta)
      → m.min_cumulative ≡ min_float F s.min_cumulative m.cumulative_sum
      → IsDetection s ((latency, now) ∷ xs) delta threshold t (alarm ∷ alarms)
  IsDetection-cons s m t latency now xs delta threshold alarm alarms first rest total least =
      let least' : m.min_cumulative
          ≡ min_float F s.min_cumulative (F.add s.cumulative_sum (F.sub latency delta)) =
        least ∙ ap (min_float F s.min_cumulative) total in
      let after = (rw (first.trips, total, least') at rest.trips) in
      record {
        trips = after ∙ or_regroup s.tripped _ _;
        alarmed_once = ground arith;
        counted = omega arith;
        named = rest.named ∙ first.named;
      }

  -- Over accepted observations the detector always returns. It ends tripped exactly where it was
  -- tripped before or some drift climbed above the least one so far by more than the threshold; it
  -- raises its alarm once if it trips during the run, and never otherwise.
  pub run_observations-IsDetection :
      (s : PageHinkleyState F) (xs : List (Float × Datetime)) (delta threshold : Float)
      → All IsObservation xs
      → (t : PageHinkleyState F) × (alarms : List Bool) × (run_observations F s xs delta threshold
          ≡ ok (t, alarms))
        × IsDetection s xs delta threshold t alarms
  unfolding run_observations
  run_observations-IsDetection s [] delta threshold h = (
    s,
    [],
    refl,
    record {
      trips = ground arith;
      alarmed_once = ground arith;
      counted = omega arith;
      named = refl;
    },
  )
  run_observations-IsDetection s ((latency, now) ∷ xs) delta threshold h =
      let (m, alarm, updated, first, total, least) = update_lem s latency now delta threshold h.0 in
      let (t, alarms, ran, rest) = run_observations-IsDetection m xs delta threshold h.1 in
      (
        t,
        alarm ∷ alarms,
        rw (updated, ◌>>=◌, ran),
        IsDetection-cons s m t latency now xs delta threshold alarm alarms first rest total least,
      )
