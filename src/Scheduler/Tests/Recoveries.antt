-- ===== src/Scheduler/Tests/Recoveries.antt =====
-- An incident of a feed of which a print has arrived on time since, and the theorem at it.
use multi_desk_trading.Common.{String, ◌≡◌, refl, none, some, List, [], ◌∷◌, ok}
use multi_desk_trading.Common.Int.{ℤ, pos, ◌-ℤ◌}
use multi_desk_trading.Common.Time.{aware}
use multi_desk_trading.Common.Float.Fixed.{fixed}
use multi_desk_trading.Feeds.Detector.{initial_state}
use multi_desk_trading.Feeds.Latency.{LatencyTable, reset_for_feed, persist, upsert_row}
use multi_desk_trading.Feeds.Incidents.{
  FeedIncident, close_rows, close_feed_incident, insert_by_opened, get_open_feed_incidents,
}
use multi_desk_trading.Scheduler.{
  collect, collect_all, insert_firing, sort_firings, firings_between,
}
use multi_desk_trading.Scheduler.Checks.{
  DataSource, has_print_near, any_on_time, is_recovered, recover_each, check_incident_recoveries,
}
use multi_desk_trading.Scheduler.Recoveries.{IsEffect, check_incident_recoveries-IsEffect}
use multi_desk_trading.Scheduler.Tests.{every_tenth, desk_calendar}

abbrev sources : List (String × DataSource)
sources =
    (
      "eia_wpsr",
      record {
        feed_name = "eia_wpsr";
        description = "";
        tolerance = pos 3;
        consumed_by = "storage" ∷ [];
      },
    )
    ∷ []

-- The print for the time 20 is late by 1.
abbrev prints : List (String × List ℤ)
prints = ("eia_wpsr", pos 21 ∷ []) ∷ []

abbrev late_feed : FeedIncident
late_feed = record {
  feed_incident_id = "i1";
  feed_name = "eia_wpsr";
  opened_ts_utc = aware (pos 12);
  closed_ts_utc = none;
  affected_desks = "storage" ∷ [];
  detected_by = "scheduler";
  resolution_artefact = none;
  opening_event_id = none;
}

abbrev artefact_of : String → String
artefact_of feed = feed

abbrev no_states : LatencyTable fixed
no_states = []

check_incident_recoveries-run :
    check_incident_recoveries sources prints every_tenth desk_calendar.events fixed
      (aware (pos 25))
      artefact_of
      (late_feed ∷ [])
      no_states
    ≡ ok (
      record late_feed {
        closed_ts_utc = some (aware (pos 25));
        resolution_artefact = some "eia_wpsr";
      }
          ∷ [],
      initial_state fixed "eia_wpsr" ∷ [],
      "eia_wpsr" ∷ [],
    )
unfolding check_incident_recoveries recover_each is_recovered any_on_time has_print_near
    firings_between collect_all collect sort_firings insert_firing get_open_feed_incidents
    insert_by_opened close_feed_incident close_rows reset_for_feed persist upsert_row initial_state
    ◌-ℤ◌
check_incident_recoveries-run = refl

check_incident_recoveries-IsEffect_example :
    (table' : List FeedIncident) × (latencies' : LatencyTable fixed) × (closed : List String)
    × (check_incident_recoveries sources prints every_tenth desk_calendar.events fixed
          (aware (pos 25))
          artefact_of
          (late_feed ∷ [])
          no_states
        ≡ ok (table', latencies', closed))
    × IsEffect sources prints every_tenth desk_calendar.events fixed
        (pos 25)
        artefact_of
        (get_open_feed_incidents (late_feed ∷ []) none)
        (late_feed ∷ [])
        no_states
        table'
        latencies'
        closed
check_incident_recoveries-IsEffect_example =
    check_incident_recoveries-IsEffect sources prints every_tenth desk_calendar.events fixed
      (pos 25) artefact_of (late_feed ∷ []) no_states
