-- ===== src/Feeds/Incidents/Open.antt =====
-- A feed has at most one open incident, and opening a second one gives the first.
use text.Mathlib.Text.{◌==◌ as str_eq}
use text.Mathlib.TextEquality.{eq_iff}
use multi_desk_trading.Common.{
  ℕ, suc, ◌+◌, ◌≤◌, String, ◌≡◌, refl, ap, sym, subst, ◌⊎◌, inl, inr, Bool, true, false, ◌&&◌, ◌||◌,
  Option, none, some, List, [], ◌∷◌, ◌++◌, ok, arith, if◌then◌else◌, Bool-cases, Option-cases,
}
use multi_desk_trading.Common.Time.{Datetime, is_naive}
use multi_desk_trading.Feeds.Incidents.{
  FeedIncident, is_open_for, latest_open, has_id, is_detector, insert_incident, open_feed_incident,
  new_incident,
}

-- The number of open incidents of a feed.
abbrev pub open_count : String → List FeedIncident → ℕ
open_count feed [] = 0
open_count feed (row ∷ rows) =
    if is_open_for feed row then suc (open_count feed rows) else open_count feed rows

-- No identifier stands on two rows.
abbrev pub IsKeyed : List FeedIncident → Type 0
IsKeyed [] = Unit
IsKeyed (row ∷ rows) = (has_id row.feed_incident_id rows ≡ false) × IsKeyed rows

pub open_count-latest_none :
    (feed : String) (table : List FeedIncident)
    → latest_open feed table ≡ none
    → open_count feed table ≡ 0
unfolding latest_open
open_count-latest_none feed [] e = refl
open_count-latest_none feed (row ∷ rows) e = ground (arith, open_count-latest_none feed rows)

open_count-append :
    (feed : String) (table : List FeedIncident) (row : FeedIncident)
    → open_count feed (table ++ row ∷ []) ≡ open_count feed table + open_count feed (row ∷ [])
open_count-append feed [] row = omega arith
open_count-append feed (first ∷ rows) row = ground (arith, open_count-append feed rows row)

latest_open-append :
    (feed : String) (table : List FeedIncident) (row : FeedIncident)
    → latest_open feed table ≡ none
    → is_open_for feed row ≡ true
    → latest_open feed (table ++ row ∷ []) ≡ some row
unfolding latest_open
latest_open-append feed [] row e h = rw h
latest_open-append feed (first ∷ rows) row e h = ground (arith, latest_open-append feed rows row)

has_id-append :
    (key : String) (table : List FeedIncident) (row : FeedIncident)
    → has_id key (table ++ row ∷ []) ≡ (has_id key table || str_eq row.feed_incident_id key)
has_id-append key [] row = ground arith
has_id-append key (first ∷ rows) row = ground (arith, has_id-append key rows row)

append-IsKeyed :
    (table : List FeedIncident) (row : FeedIncident)
    → IsKeyed table
    → has_id row.feed_incident_id table ≡ false
    → IsKeyed (table ++ row ∷ [])
append-IsKeyed [] row keyed fresh = (refl, tt)
append-IsKeyed (first ∷ rows) row keyed fresh = (
  ground (
    arith,
    has_id-append first.feed_incident_id rows row,
    eq_iff first.feed_incident_id row.feed_incident_id,
    eq_iff row.feed_incident_id first.feed_incident_id,
    keyed.0,
  ),
  append-IsKeyed rows row keyed.1 (ground arith),
)

-- A row with the identifier is open for the feed.
abbrev pub holds_open : String → String → List FeedIncident → Bool
holds_open feed key [] = false
holds_open feed key (row ∷ rows) =
    (str_eq row.feed_incident_id key && is_open_for feed row) || holds_open feed key rows

pub latest_open-holds_open :
    (feed : String) (table : List FeedIncident) (row : FeedIncident)
    → latest_open feed table ≡ some row
    → holds_open feed row.feed_incident_id table ≡ true
unfolding latest_open
latest_open-holds_open feed [] row e = ground arith
latest_open-holds_open feed (first ∷ rows) row e = elim (Option-cases (latest_open feed rows)) [
  | inl n ↦ ground (arith, n, eq_iff row.feed_incident_id row.feed_incident_id)
  | inr (other, n) ↦ ground (
    arith,
    n,
    latest_open-holds_open feed rows other n,
    eq_iff row.feed_incident_id row.feed_incident_id,
  )
]

holds_open-append :
    (feed key : String) (table : List FeedIncident) (row : FeedIncident)
    → holds_open feed key (table ++ row ∷ [])
      ≡ (holds_open feed key table || holds_open feed key (row ∷ []))
holds_open-append feed key [] row = ground arith
holds_open-append feed key (first ∷ rows) row = ground (arith, holds_open-append feed key rows row)

found_again :
    (table : List FeedIncident) (feed : String) (later : Datetime) (affected : List String)
    (detected_by : String) (event : Option String) (new_id : String) (row : FeedIncident)
    → latest_open feed table ≡ some row
    → is_naive later ≡ false
    → open_feed_incident table feed later affected detected_by event new_id
      ≡ ok (table, row.feed_incident_id)
unfolding open_feed_incident
found_again table feed later affected detected_by event new_id row found h = rw (h, found)

module _ (table : List FeedIncident) (feed : String) (opened : Datetime) (affected : List String)
    (detected_by : String) (event : Option String) (new_id : String) where
  abbrev added : FeedIncident
  added = new_incident feed opened affected detected_by event new_id

  -- The two ways in which a call returns: with the incident that is open, or with a new one.
  abbrev IsOpened : List FeedIncident → String → Type 0
  IsOpened table' key =
      ((row : FeedIncident) × (latest_open feed table ≡ some row)
        × (table' ≡ table)
        × (key ≡ row.feed_incident_id))
      ⊎ ((latest_open feed table ≡ none)
          × (has_id new_id table ≡ false)
          × (table' ≡ table ++ added ∷ [])
          × (key ≡ new_id))

  open_feed_incident-IsOpened :
      (table' : List FeedIncident) (key : String)
      → open_feed_incident table feed opened affected detected_by event new_id ≡ ok (table', key)
      → IsOpened table' key
  unfolding open_feed_incident insert_incident
  open_feed_incident-IsOpened table' key returned = elim (Bool-cases (is_naive opened)) [
    | inl h ↦ ground arith
    | inr h ↦ elim (Option-cases (latest_open feed table)) [
      | inr (row, e) ↦ inl (row, e, ground arith, ground arith)
      | inl e ↦ elim (Bool-cases (is_detector detected_by)) [
        | inr d ↦ ground arith
        | inl d ↦ elim (Bool-cases (has_id new_id table)) [
          | inl k ↦ ground arith
          | inr k ↦ inr (e, k, ground arith, ground arith)
        ]
      ]
    ]
  ]

  -- A call that returns keeps the identifiers apart.
  pub opened-IsKeyed :
      (table' : List FeedIncident) (key : String)
      → open_feed_incident table feed opened affected detected_by event new_id ≡ ok (table', key)
      → IsKeyed table
      → IsKeyed table'
  opened-IsKeyed table' key returned keyed =
      elim (open_feed_incident-IsOpened table' key returned) [
        | inl (row, _, e, _) ↦ subst IsKeyed (sym e) keyed
        | inr (_, fresh, e, _) ↦ subst IsKeyed (sym e) (append-IsKeyed table added keyed fresh)
      ]

  -- A call that returns leaves at most one open incident of each feed where there was at most one.
  pub opened_at_most :
      (table' : List FeedIncident) (key : String) (other : String)
      → open_feed_incident table feed opened affected detected_by event new_id ≡ ok (table', key)
      → open_count other table ≤ 1
      → open_count other table' ≤ 1
  opened_at_most table' key other returned h =
      elim (open_feed_incident-IsOpened table' key returned) [
        | inl (row, _, e, _) ↦ ground (arith, e)
        | inr (free, _, e, _) ↦ ground (
          arith,
          e,
          open_count-append other table added,
          open_count-latest_none feed table free,
          eq_iff feed other,
        )
      ]

  -- Where a call to open an incident returned, a later one for the same feed, at an aware time and
  -- with whatever details, returns the same incident and leaves the table as it is.
  pub open_feed_incident_again :
      (table' : List FeedIncident) (key : String)
      → open_feed_incident table feed opened affected detected_by event new_id ≡ ok (table', key)
      → (later : Datetime) (affected' : List String) (detected_by' : String)
        (event' : Option String) (new_id' : String)
      → is_naive later ≡ false
      → open_feed_incident table' feed later affected' detected_by' event' new_id'
        ≡ ok (table', key)
  open_feed_incident_again table' key returned later affected' detected_by' event' new_id' h =
      elim (open_feed_incident-IsOpened table' key returned) [
        | inl (row, found, e, k) ↦
            rw
              (k, e, found_again table feed later affected' detected_by' event' new_id' row found h)
        | inr (free, _, e, k) ↦ rw (
          k,
          e,
          found_again (table ++ added ∷ []) feed later affected' detected_by' event' new_id' added
              (latest_open-append feed table added free (ground (arith, eq_iff feed feed))) h,
        )
      ]

  -- The incident returned stands in the table, open for the feed.
  pub open_feed_incident-holds_open :
      (table' : List FeedIncident) (key : String)
      → open_feed_incident table feed opened affected detected_by event new_id ≡ ok (table', key)
      → holds_open feed key table' ≡ true
  open_feed_incident-holds_open table' key returned =
      elim (open_feed_incident-IsOpened table' key returned) [
        | inl (row, found, e, k) ↦ ground (arith, e, k, latest_open-holds_open feed table row found)
        | inr (_, _, e, k) ↦ ground (
          arith,
          e,
          k,
          holds_open-append feed new_id table added,
          eq_iff new_id new_id,
          eq_iff feed feed,
        )
      ]

  pub open_feed_incident-open_count_ne :
      (table' : List FeedIncident) (key : String) (other : String)
      → open_feed_incident table feed opened affected detected_by event new_id ≡ ok (table', key)
      → str_eq feed other ≡ false
      → open_count other table' ≡ open_count other table
  open_feed_incident-open_count_ne table' key other returned ne =
      elim (open_feed_incident-IsOpened table' key returned) [
        | inl (row, _, e, _) ↦ ap (open_count other) e
        | inr (_, _, e, _) ↦ ground (arith, e, open_count-append other table added)
      ]
