-- ===== src/Scheduler/Checks.antt =====
-- The checks of the scheduler that compare the scheduled times with the prints that have arrived:
-- `check_ingestion_misses` and `check_incident_recoveries`. A comparison of two `total_seconds` is
-- one of microseconds.
use text.Mathlib.Text.{◌==◌ as str_eq}
use multi_desk_trading.Common.{
  String, Bool, true, false, ◌&&◌, ◌||◌, none, some, List, [], ◌∷◌, map, Result, ok, err, ◌>>=◌,
  if◌then◌else◌, keep,
}
use multi_desk_trading.Common.Int.{ℤ, pos, ◌+ℤ◌, ◌-ℤ◌, ltb_ℤ, leb_ℤ}
use multi_desk_trading.Common.Time.{Datetime, micros}
use multi_desk_trading.Common.Dict.{find_entry}
use multi_desk_trading.Common.Float.{FloatOps}
use multi_desk_trading.Feeds.Detector.{FeedError}
use multi_desk_trading.Feeds.Latency.{LatencyTable, reset_for_feed}
use multi_desk_trading.Feeds.Incidents.{
  FeedIncident, IncidentError, close_feed_incident, get_open_feed_incidents,
}
use multi_desk_trading.Scheduler.{ScheduledEvent, Croniter, Firing, firings_between}

-- A tolerance in minutes is kept in microseconds.
pub record DataSource : Type 0 where
  pub feed_name : String
  pub description : String
  pub tolerance : ℤ
  pub consumed_by : List String

-- The payload of a `data_ingestion_failure`, and the time at which it is triggered.
pub record IngestionFailure : Type 0 where
  pub feed_name : String
  pub scheduled_release_ts_utc : ℤ
  pub actual_wall_clock_ts_utc : ℤ
  pub affected_desks : List String

pub data RecoveryError : Type 0 where
  in_incidents : IncidentError → RecoveryError
  in_latencies : FeedError → RecoveryError

-- A call on a table, with its exception as one of the check.
abbrev pub on_table : {E A : Type 0} → (E → RecoveryError) → Result E A → Result RecoveryError A
on_table f (ok a) = ok a
on_table f (err e) = err (f e)

abbrev pub prints_of : String → List (String × List ℤ) → List ℤ
prints_of feed prints = elim (find_entry feed prints) [ none ↦ [] | some times ↦ times ]

-- A print within the tolerance of a scheduled time.
unfoldable pub has_print_near : ℤ → ℤ → List ℤ → Bool
unfolding ◌-ℤ◌
has_print_near scheduled tolerance [] = false
has_print_near scheduled tolerance (p ∷ ps) =
    (leb_ℤ (p -ℤ scheduled) tolerance && leb_ℤ (scheduled -ℤ p) tolerance)
    || has_print_near scheduled tolerance ps

module _ (sources : List (String × DataSource)) where
  -- The tolerance of a feed, of 120 minutes where it is not listed.
  abbrev pub tolerance_of : String → ℤ
  tolerance_of feed = elim (find_entry feed sources) [
    | none ↦ pos 7200000000
    | some source ↦ source.tolerance
  ]

  unfoldable pub emit_ingestion_failure : String → ℤ → ℤ → IngestionFailure
  emit_ingestion_failure feed scheduled actual = record {
    feed_name = feed;
    scheduled_release_ts_utc = scheduled;
    actual_wall_clock_ts_utc = actual;
    affected_desks = elim (find_entry feed sources) [
      | none ↦ []
      | some source ↦ source.consumed_by
    ];
  }

  module _ (prints : List (String × List ℤ)) where
    -- A firing whose deadline has come, and which has no print within the tolerance.
    unfoldable pub is_missed : ℤ → Firing → Bool
    unfolding has_print_near ◌+ℤ◌
    is_missed now x =
        let tolerance = tolerance_of x.event.event_id in
        if ltb_ℤ now (x.ts +ℤ tolerance)
        then false
        else (if has_print_near x.ts tolerance (prints_of x.event.event_id prints)
            then false
            else true)

    module _ (next : Croniter) (events : List ScheduledEvent) where
      -- The firings of the last 14 days, and a failure for each that is missed.
      unfoldable pub check_ingestion_misses : ℤ → List IngestionFailure
      unfolding is_missed firings_between emit_ingestion_failure ◌-ℤ◌
      check_ingestion_misses now =
          map (λ x. emit_ingestion_failure x.event.event_id x.ts now)
            (keep (is_missed now) (firings_between next events (now -ℤ pos 1209600000000) now))

      -- Whether one of these firings of a feed has a print within the tolerance.
      unfoldable pub any_on_time : String → List Firing → Bool
      unfolding has_print_near
      any_on_time feed [] = false
      any_on_time feed (x ∷ xs) =
          (str_eq x.event.event_id feed
            && has_print_near x.ts (tolerance_of feed) (prints_of feed prints))
          || any_on_time feed xs

      unfoldable pub is_recovered : ℤ → FeedIncident → Bool
      unfolding any_on_time firings_between
      is_recovered now incident =
          any_on_time incident.feed_name
            (firings_between next events (micros incident.opened_ts_utc) now)

      module _ (F : FloatOps) (now_utc : Datetime) where
        -- The loop of `check_incident_recoveries` over the open incidents; the artefact of a feed is
        -- the text that the f-string gives.
        module _ (artefact_of : String → String) where
          unfoldable pub recover_each :
              List FeedIncident
              → List FeedIncident
              → LatencyTable F
              → Result RecoveryError (List FeedIncident × LatencyTable F × List String)
          unfolding is_recovered close_feed_incident reset_for_feed
          recover_each [] table latencies = ok (table, latencies, [])
          recover_each (incident ∷ rest) table latencies =
              elim (is_recovered (micros now_utc) incident) [
                | false ↦ recover_each rest table latencies
                | true ↦ do
                  table' ← on_table in_incidents (
                      close_feed_incident table incident.feed_incident_id now_utc
                        (artefact_of incident.feed_name))
                  latencies' ← on_table in_latencies (reset_for_feed F latencies incident.feed_name)
                  (table'', latencies'', closed) ← recover_each rest table' latencies'
                  ok (table'', latencies'', incident.feed_name ∷ closed)
              ]

          unfoldable pub check_incident_recoveries :
              List FeedIncident
              → LatencyTable F
              → Result RecoveryError (List FeedIncident × LatencyTable F × List String)
          unfolding recover_each get_open_feed_incidents
          check_incident_recoveries table latencies =
              recover_each (get_open_feed_incidents table none) table latencies
