-- ===== src/Feeds/Incidents.antt =====
-- The table `feed_incidents` of persistence/db.py: opening, closing and counting incidents. A new
-- identifier, which the source draws by `uuid4`, is an argument.
pub mod Open
pub mod Close
pub mod Reachable
use text.Mathlib.Text.{◌==◌ as str_eq}
use multi_desk_trading.Common.{
  ℕ, suc, String, Bool, true, false, not, ◌&&◌, ◌||◌, Option, none, some, List, [], ◌∷◌, ◌++◌,
  Result, ok, err, ◌>>=◌, ◌>>◌, raise_if, if◌then◌else◌, length,
}
use multi_desk_trading.Common.Int.{ltb_ℤ, leb_ℤ}
use multi_desk_trading.Common.Time.{Datetime, is_naive, micros}

pub record FeedIncident : Type 0 where
  pub feed_incident_id : String
  pub feed_name : String
  pub opened_ts_utc : Datetime
  pub closed_ts_utc : Option Datetime
  pub affected_desks : List String
  pub detected_by : String
  pub resolution_artefact : Option String
  pub opening_event_id : Option String

-- A naive time, a time that Python cannot represent, or one of the table's constraints.
pub data IncidentError : Type 0 where
  naive_opened_ts naive_closed_ts naive_bounds naive_now time_overflow : IncidentError
  detected_by_check duplicate_key : IncidentError

-- `closed_ts_utc IS NULL`
abbrev pub is_open : FeedIncident → Bool
is_open row = elim row.closed_ts_utc [ none ↦ true | some _ ↦ false ]

-- `feed_name = ? AND closed_ts_utc IS NULL`
abbrev pub is_open_for : String → FeedIncident → Bool
is_open_for feed row = str_eq row.feed_name feed && is_open row

-- `SELECT feed_incident_id ... ORDER BY opened_ts_utc DESC LIMIT 1`: the latest open row.
unfoldable pub latest_open : String → List FeedIncident → Option FeedIncident
latest_open feed [] = none
latest_open feed (row ∷ rows) =
    let rest = latest_open feed rows in
    if is_open_for feed row
    then elim rest [
      | none ↦ some row
      | some other ↦
          if ltb_ℤ (micros row.opened_ts_utc) (micros other.opened_ts_utc)
          then some other
          else some row
    ]
    else rest

abbrev pub has_id : String → List FeedIncident → Bool
has_id key [] = false
has_id key (row ∷ rows) = str_eq row.feed_incident_id key || has_id key rows

abbrev pub is_detector : String → Bool
is_detector name = str_eq name "scheduler" || str_eq name "page_hinkley" || str_eq name "manual"

-- The values of the `INSERT`.
abbrev pub new_incident :
    String → Datetime → List String → String → Option String → String → FeedIncident
new_incident feed opened affected detected_by event new_id = record {
  feed_incident_id = new_id;
  feed_name = feed;
  opened_ts_utc = opened;
  closed_ts_utc = none;
  affected_desks = affected;
  detected_by = detected_by;
  resolution_artefact = none;
  opening_event_id = event;
}

-- The `INSERT`, with the constraints of the table.
unfoldable pub insert_incident :
    List FeedIncident → FeedIncident → Result IncidentError (List FeedIncident)
insert_incident table row = do
  raise_if (not (is_detector row.detected_by)) detected_by_check
  raise_if (has_id row.feed_incident_id table) duplicate_key
  ok (table ++ row ∷ [])

unfoldable pub open_feed_incident :
    List FeedIncident
    → String
    → Datetime
    → List String
    → String
    → Option String
    → String
    → Result IncidentError (List FeedIncident × String)
unfolding latest_open insert_incident
open_feed_incident table feed opened affected detected_by event new_id = do
  raise_if (is_naive opened) naive_opened_ts
  elim (latest_open feed table) [
    | some row ↦ ok (table, row.feed_incident_id)
    | none ↦ do
      table' ← insert_incident table (new_incident feed opened affected detected_by event new_id)
      ok (table', new_id)
  ]

-- The `UPDATE ... WHERE feed_incident_id = ? AND closed_ts_utc IS NULL`
unfoldable pub close_rows : String → Datetime → String → List FeedIncident → List FeedIncident
close_rows key closed artefact [] = []
close_rows key closed artefact (row ∷ rows) =
    (if str_eq row.feed_incident_id key && is_open row
      then record row { closed_ts_utc = some closed; resolution_artefact = some artefact }
      else row)
    ∷ close_rows key closed artefact rows

unfoldable pub close_feed_incident :
    List FeedIncident → String → Datetime → String → Result IncidentError (List FeedIncident)
unfolding close_rows
close_feed_incident table key closed artefact = do
  raise_if (is_naive closed) naive_closed_ts
  ok (close_rows key closed artefact table)

-- `closed_ts_utc IS NULL`, and `feed_name = ?` where a feed is asked for.
abbrev pub is_selected : Option String → FeedIncident → Bool
is_selected none row = is_open row
is_selected (some feed) row = is_open_for feed row

-- `ORDER BY opened_ts_utc`
unfoldable pub insert_by_opened : FeedIncident → List FeedIncident → List FeedIncident
insert_by_opened row [] = row ∷ []
insert_by_opened row (other ∷ rows) =
    if leb_ℤ (micros row.opened_ts_utc) (micros other.opened_ts_utc)
    then row ∷ other ∷ rows
    else other ∷ insert_by_opened row rows

unfoldable pub get_open_feed_incidents : List FeedIncident → Option String → List FeedIncident
unfolding insert_by_opened
get_open_feed_incidents [] feed_name = []
get_open_feed_incidents (row ∷ rows) feed_name =
    let rest = get_open_feed_incidents rows feed_name in
    if is_selected feed_name row then insert_by_opened row rest else rest

-- `feed_name = ? AND opened_ts_utc >= ? AND opened_ts_utc <= ?`
abbrev pub is_in_window : String → Datetime → Datetime → FeedIncident → Bool
is_in_window feed start end row =
    str_eq row.feed_name feed
    && leb_ℤ (micros start) (micros row.opened_ts_utc)
    && leb_ℤ (micros row.opened_ts_utc) (micros end)

unfoldable pub count_window : String → Datetime → Datetime → List FeedIncident → ℕ
count_window feed start end [] = 0
count_window feed start end (row ∷ rows) =
    let rest = count_window feed start end rows in
    if is_in_window feed start end row then suc rest else rest

unfoldable pub count_feed_incidents_in_window :
    List FeedIncident → String → Datetime → Datetime → Result IncidentError ℕ
unfolding count_window
count_feed_incidents_in_window table feed start end = do
  raise_if (is_naive start || is_naive end) naive_bounds
  ok (count_window feed start end table)
