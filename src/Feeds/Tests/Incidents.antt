-- ===== src/Feeds/Tests/Incidents.antt =====
-- Runs of the incident table, and the theorems on it at them.
use text.Mathlib.Text.{◌==◌ as str_eq}
use multi_desk_trading.Common.{
  ◌≡◌, ◌≤◌, refl, String, true, false, none, some, List, [], ◌∷◌, ok, length, map, keep,
}
use multi_desk_trading.Common.Int.{pos, ◌-ℤ◌}
use multi_desk_trading.Common.Time.{Datetime, aware}
use multi_desk_trading.Feeds.Incidents.{
  FeedIncident, new_incident, latest_open, insert_incident, open_feed_incident, close_rows,
  close_feed_incident, get_open_feed_incidents, count_window,
}
use multi_desk_trading.Feeds.Incidents.Open.{IsKeyed}
use multi_desk_trading.Feeds.Incidents.Reachable.{
  Reachable, created, opened, Reachable-IsSound, close_feed_incident_opened,
}
use multi_desk_trading.Feeds.Reliability.{
  minus_days, days_micros, FeedReliabilityStats, feeds_meeting_retirement_criteria,
  feeds_eligible_for_reinstatement,
}
use multi_desk_trading.Feeds.Reliability.Rules.{has_name, is_quiet}
use multi_desk_trading.Feeds.Reliability.Retire.{is_failing, reviews_disjoint}

-- Noon of the 740000th day.
abbrev noon : Datetime
noon = aware (pos 63935956800000000)

abbrev outage : FeedIncident
outage = new_incident "eia_wpsr" noon ("storage_curve" ∷ []) "page_hinkley" none "a"

abbrev one_row : List FeedIncident
one_row = outage ∷ []

outage-opened :
    open_feed_incident [] "eia_wpsr" noon ("storage_curve" ∷ []) "page_hinkley" none "a"
    ≡ ok (one_row, "a")
unfolding open_feed_incident latest_open insert_incident
outage-opened = refl

one_row-Reachable : Reachable one_row
one_row-Reachable =
    opened [] one_row "eia_wpsr" noon ("storage_curve" ∷ []) "page_hinkley" none "a" "a" created
      outage-opened

Reachable-IsSound_example :
    IsKeyed one_row × ((feed : String) → length (get_open_feed_incidents one_row (some feed)) ≤ 1)
Reachable-IsSound_example = Reachable-IsSound one_row one_row-Reachable

close_feed_incident_opened_example :
    (resolved : List FeedIncident) × (close_feed_incident one_row "a" (aware (pos 7)) "fixed"
      ≡ ok resolved)
    × (length (get_open_feed_incidents resolved (some "eia_wpsr")) ≡ 0)
    × ((other : String)
        → str_eq "eia_wpsr" other ≡ false
        → length (get_open_feed_incidents resolved (some other))
          ≡ length (get_open_feed_incidents [] (some other)))
close_feed_incident_opened_example =
    close_feed_incident_opened [] one_row "eia_wpsr" noon ("storage_curve" ∷ []) "page_hinkley" none
      "a" "a" created outage-opened (aware (pos 7)) "fixed" refl

abbrev closed_row : List FeedIncident
closed_row =
    record outage { closed_ts_utc = some (aware (pos 7)); resolution_artefact = some "fixed" } ∷ []

outage-closed : close_feed_incident one_row "a" (aware (pos 7)) "fixed" ≡ ok closed_row
unfolding close_feed_incident close_rows
outage-closed = refl

abbrev week_before : Datetime
week_before = aware (pos 63935352000000000)

week-start : minus_days noon (pos 7) ≡ ok week_before
unfolding days_micros ◌-ℤ◌
week-start = refl

abbrev feeds : List String
feeds = "eia_wpsr" ∷ "cftc_cot" ∷ []

reviews_disjoint_example :
    (out : List FeedReliabilityStats) × (names : List String) × (feeds_meeting_retirement_criteria
        one_row feeds
        (pos 7)
        (pos 1)
        noon
      ≡ ok out)
    × (feeds_eligible_for_reinstatement one_row feeds (pos 7) noon ≡ ok names)
    × ((feed : String)
        → has_name feed (map (λ stats. stats.feed_name) out) ≡ true
        → has_name feed names ≡ false)
reviews_disjoint_example =
    reviews_disjoint one_row feeds feeds (pos 7) (pos 1) (pos 7) noon week_before week_before refl
      week-start week-start

-- The feed with an open incident is to be retired, the other one may be reinstated.
feeds_reviewed :
    (keep (λ feed. is_quiet feed week_before noon one_row) feeds ≡ "cftc_cot" ∷ [])
    × (keep (is_failing (pos 1) week_before noon one_row) feeds ≡ "eia_wpsr" ∷ [])
unfolding count_window
feeds_reviewed = (refl, refl)
