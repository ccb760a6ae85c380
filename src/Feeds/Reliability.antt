-- ===== src/Feeds/Reliability.antt =====
-- The rules of research_loop/feed_reliability.py that choose the feeds whose desks are retired or may
-- be reinstated.
pub mod Rules
pub mod Retire
use text.Mathlib.Text.{◌==◌ as str_eq}
use multi_desk_trading.Common.{
  ℕ, suc, ◌*◌, ◌==◌, String, Bool, true, false, not, ◌&&◌, ◌||◌, Option, none, some, List, [], ◌∷◌,
  Result, ok, err, ◌>>=◌, ◌>>◌, raise_if, if◌then◌else◌,
}
use multi_desk_trading.Common.Int.{ℤ, pos, negsuc, ◌-ℤ◌, neg, ltb_ℤ, leb_ℤ}
use multi_desk_trading.Common.Time.{Datetime, aware, is_naive, micros}
use multi_desk_trading.Feeds.Incidents.{
  FeedIncident, IncidentError, naive_now, time_overflow, is_open_for, is_in_window,
  get_open_feed_incidents, count_feed_incidents_in_window,
}

pub record FeedReliabilityStats : Type 0 where
  pub feed_name : String
  pub failure_count_window : ℕ
  pub last_failure_ts_utc : Option Datetime
  pub currently_open : Bool

-- `timedelta(days=n)`
unfoldable pub days_micros : ℤ → ℤ
unfolding neg
days_micros (pos n) = pos (n * 86400000000)
days_micros (negsuc n) = neg (pos (suc n * 86400000000))

-- `now_utc - timedelta(days=n)`, which raises outside of the years 1 to 9999.
abbrev pub minus_days : Datetime → ℤ → Result IncidentError Datetime
minus_days now days = do
  let start = micros now -ℤ days_micros days
  raise_if (ltb_ℤ start (pos 0) || leb_ℤ (pos 315537897600000000) start) time_overflow
  ok (aware start)

-- `SELECT opened_ts_utc ... ORDER BY opened_ts_utc DESC LIMIT 1`
unfoldable pub last_opened : String → Datetime → Datetime → List FeedIncident → Option Datetime
last_opened feed start end [] = none
last_opened feed start end (row ∷ rows) =
    let rest = last_opened feed start end rows in
    if is_in_window feed start end row
    then elim rest [
      | none ↦ some row.opened_ts_utc
      | some other ↦
          if ltb_ℤ (micros row.opened_ts_utc) (micros other)
          then some other
          else some row.opened_ts_utc
    ]
    else rest

-- `bool(rows)`
abbrev pub is_nonempty : List FeedIncident → Bool
is_nonempty [] = false
is_nonempty (row ∷ rows) = true

unfoldable pub compute_feed_failure_rate :
    List FeedIncident → String → ℤ → Datetime → Result IncidentError FeedReliabilityStats
unfolding count_feed_incidents_in_window last_opened get_open_feed_incidents ◌-ℤ◌
compute_feed_failure_rate table feed lookback_days now = do
  raise_if (is_naive now) naive_now
  start_ts ← minus_days now lookback_days
  count ← count_feed_incidents_in_window table feed start_ts now
  ok (record {
    feed_name = feed;
    failure_count_window = count;
    last_failure_ts_utc = last_opened feed start_ts now table;
    currently_open = is_nonempty (get_open_feed_incidents table (some feed));
  })

unfoldable pub feeds_meeting_retirement_criteria :
    List FeedIncident
    → List String
    → ℤ
    → ℤ
    → Datetime
    → Result IncidentError (List FeedReliabilityStats)
unfolding compute_feed_failure_rate
feeds_meeting_retirement_criteria table [] lookback_days threshold now = ok []
feeds_meeting_retirement_criteria table (feed ∷ feeds) lookback_days threshold now = do
  stats ← compute_feed_failure_rate table feed lookback_days now
  out ← feeds_meeting_retirement_criteria table feeds lookback_days threshold now
  ok (
      if leb_ℤ threshold (pos stats.failure_count_window) && stats.currently_open
      then stats ∷ out
      else out)

-- The loop of `feeds_eligible_for_reinstatement`.
unfoldable pub eligible_feeds :
    List FeedIncident → List String → Datetime → Datetime → Result IncidentError (List String)
unfolding get_open_feed_incidents count_feed_incidents_in_window
eligible_feeds table [] window_start now = ok []
eligible_feeds table (feed ∷ feeds) window_start now =
    let rest = eligible_feeds table feeds window_start now in
    if is_nonempty (get_open_feed_incidents table (some feed)) then rest else (do
      recent_count ← count_feed_incidents_in_window table feed window_start now
      out ← rest
      ok (if recent_count == 0 then feed ∷ out else out))

unfoldable pub feeds_eligible_for_reinstatement :
    List FeedIncident → List String → ℤ → Datetime → Result IncidentError (List String)
unfolding eligible_feeds ◌-ℤ◌
feeds_eligible_for_reinstatement table feeds recovery_days now = do
  raise_if (is_naive now) naive_now
  window_start ← minus_days now recovery_days
  eligible_feeds table feeds window_start now
