-- ===== src/Feeds/Incidents/Close.antt =====
-- Closing resolves an incident once, and touches no other feed.
use text.Mathlib.Text.{◌==◌ as str_eq}
use text.Mathlib.TextEquality.{eq_iff}
use multi_desk_trading.Common.{
  suc, ◌≤◌, String, ◌≡◌, refl, inl, inr, true, false, List, [], ◌∷◌, ok, arith, Bool-cases,
}
use multi_desk_trading.Common.Time.{Datetime, is_naive}
use multi_desk_trading.Feeds.Incidents.{FeedIncident, has_id, close_rows, close_feed_incident}
use multi_desk_trading.Feeds.Incidents.Open.{IsKeyed, open_count, holds_open}

module _ (key : String) (closed : Datetime) (artefact : String) where
  has_id-close_rows :
      (other : String) (table : List FeedIncident)
      → has_id other (close_rows key closed artefact table) ≡ has_id other table
  unfolding close_rows
  has_id-close_rows other [] = refl
  has_id-close_rows other (row ∷ rows) = ground (arith, has_id-close_rows other rows)

  pub close_rows-IsKeyed :
      (table : List FeedIncident) → IsKeyed table → IsKeyed (close_rows key closed artefact table)
  unfolding close_rows
  close_rows-IsKeyed [] keyed = tt
  close_rows-IsKeyed (row ∷ rows) keyed = (
    ground (arith, has_id-close_rows row.feed_incident_id rows, keyed.0),
    close_rows-IsKeyed rows keyed.1,
  )

  pub close_rows_at_most :
      (feed : String) (table : List FeedIncident)
      → open_count feed (close_rows key closed artefact table) ≤ open_count feed table
  unfolding close_rows
  close_rows_at_most feed [] = omega arith
  close_rows_at_most feed (row ∷ rows) = ground (arith, close_rows_at_most feed rows)

  close_rows-absent :
      (table : List FeedIncident)
      → has_id key table ≡ false
      → close_rows key closed artefact table ≡ table
  unfolding close_rows
  close_rows-absent [] absent = refl
  close_rows-absent (row ∷ rows) absent = ground (arith, close_rows-absent rows)

  -- Closing again with another time and resolution changes nothing.
  close_rows_again :
      (closed' : Datetime) (artefact' : String) (table : List FeedIncident)
      → close_rows key closed' artefact' (close_rows key closed artefact table)
        ≡ close_rows key closed artefact table
  unfolding close_rows
  close_rows_again closed' artefact' [] = refl
  close_rows_again closed' artefact' (row ∷ rows) =
      ground (arith, close_rows_again closed' artefact' rows)

holds_open-has_id :
    (feed key : String) (table : List FeedIncident)
    → holds_open feed key table ≡ true
    → has_id key table ≡ true
holds_open-has_id feed key [] h = ground arith
holds_open-has_id feed key (row ∷ rows) h = ground (arith, holds_open-has_id feed key rows)

-- Closing an open incident takes it from the open ones of its feed, and from no other's.
pub close_rows-open_count :
    (feed key : String) (closed : Datetime) (artefact : String) (table : List FeedIncident)
    → IsKeyed table
    → holds_open feed key table ≡ true
    → suc (open_count feed (close_rows key closed artefact table)) ≡ open_count feed table
unfolding close_rows
close_rows-open_count feed key closed artefact [] keyed h = ground arith
close_rows-open_count feed key closed artefact (row ∷ rows) keyed h =
    elim (Bool-cases (str_eq row.feed_incident_id key)) [
      | inl same ↦ ground (
        arith,
        same,
        gone same,
        close_rows-absent key closed artefact rows (gone same),
        holds_open-has_id feed key rows,
      )
      | inr differs ↦
          ground (arith, differs, close_rows-open_count feed key closed artefact rows keyed.1)
    ]
  where
    gone : str_eq row.feed_incident_id key ≡ true → has_id key rows ≡ false
    gone same = ground (arith, eq_iff row.feed_incident_id key, keyed.0)

pub close_rows-open_count_ne :
    (feed key other : String) (closed : Datetime) (artefact : String)
    → str_eq feed other ≡ false
    → (table : List FeedIncident) → IsKeyed table
    → holds_open feed key table ≡ true
    → open_count other (close_rows key closed artefact table) ≡ open_count other table
unfolding close_rows
close_rows-open_count_ne feed key other closed artefact ne [] keyed h = refl
close_rows-open_count_ne feed key other closed artefact ne (row ∷ rows) keyed h =
    elim (Bool-cases (str_eq row.feed_incident_id key)) [
      | inl same ↦ ground (
        arith,
        same,
        gone same,
        close_rows-absent key closed artefact rows (gone same),
        holds_open-has_id feed key rows,
        eq_iff row.feed_name feed,
      )
      | inr differs ↦
          ground (
            arith,
            differs,
            close_rows-open_count_ne feed key other closed artefact ne rows keyed.1,
          )
    ]
  where
    gone : str_eq row.feed_incident_id key ≡ true → has_id key rows ≡ false
    gone same = ground (arith, eq_iff row.feed_incident_id key, keyed.0)

-- Where a call to close an incident returned, closing it again at an aware time leaves the table as
-- it is: the first time and resolution stay.
pub close_feed_incident_again :
    (table table' : List FeedIncident) (key : String) (closed : Datetime) (artefact : String)
    → close_feed_incident table key closed artefact ≡ ok table'
    → (closed' : Datetime) (artefact' : String) → is_naive closed' ≡ false
    → close_feed_incident table' key closed' artefact' ≡ ok table'
unfolding close_feed_incident
close_feed_incident_again table table' key closed artefact e closed' artefact' h =
    ground (arith, close_rows_again key closed artefact closed' artefact' table)
