-- ===== src/Feeds/Reliability/Rules.antt =====
-- The feeds that the rules choose, by the rows of the incident table.
use text.Mathlib.Text.{◌==◌ as str_eq}
use multi_desk_trading.Common.{
  ◌==◌, ◌≡◌, refl, inl, inr, String, Bool, true, false, not, ◌&&◌, ◌||◌, some, List, [], ◌∷◌, ok,
  ◌>>=◌, if◌then◌else◌, arith, length, keep, Bool-cases,
}
use multi_desk_trading.Common.Int.{ℤ}
use multi_desk_trading.Common.Time.{Datetime, is_naive}
use multi_desk_trading.Feeds.Incidents.{
  FeedIncident, is_open_for, is_in_window, get_open_feed_incidents, count_feed_incidents_in_window,
  count_window,
}
use multi_desk_trading.Feeds.Incidents.Open.{open_count}
use multi_desk_trading.Feeds.Incidents.Reachable.{length-get_open}
use multi_desk_trading.Feeds.Reliability.{
  minus_days, is_nonempty, eligible_feeds, feeds_eligible_for_reinstatement,
}

-- `feed in feeds`
abbrev pub has_name : String → List String → Bool
has_name name [] = false
has_name name (other ∷ names) = str_eq other name || has_name name names

-- No incident of the feed is open, and none was opened within the window.
abbrev pub is_quiet : String → Datetime → Datetime → List FeedIncident → Bool
is_quiet feed start now [] = true
is_quiet feed start now (row ∷ rows) =
    not (is_open_for feed row || is_in_window feed start now row) && is_quiet feed start now rows

-- Some incident of the feed is open.
abbrev pub any_open : String → List FeedIncident → Bool
any_open feed [] = false
any_open feed (row ∷ rows) = is_open_for feed row || any_open feed rows

open_count-any_open :
    (feed : String) (table : List FeedIncident)
    → any_open feed table ≡ not (open_count feed table == 0)
open_count-any_open feed [] = refl
open_count-any_open feed (row ∷ rows) = ground (arith, open_count-any_open feed rows)

is_nonempty-length : (rows : List FeedIncident) → is_nonempty rows ≡ not (length rows == 0)
is_nonempty-length [] = refl
is_nonempty-length (row ∷ rows) = ground arith

pub is_nonempty-any_open :
    (feed : String) (table : List FeedIncident)
    → is_nonempty (get_open_feed_incidents table (some feed)) ≡ any_open feed table
is_nonempty-any_open feed table = ground (
  arith,
  is_nonempty-length (get_open_feed_incidents table (some feed)),
  length-get_open feed table,
  open_count-any_open feed table,
)

pub is_quiet-count :
    (feed : String) (start now : Datetime) (table : List FeedIncident)
    → is_quiet feed start now table
      ≡ (not (any_open feed table) && count_window feed start now table == 0)
unfolding count_window
is_quiet-count feed start now [] = refl
is_quiet-count feed start now (row ∷ rows) = ground (arith, is_quiet-count feed start now rows)

pub minus_days-aware :
    (now : Datetime) (days : ℤ) (start : Datetime)
    → minus_days now days ≡ ok start
    → is_naive start ≡ false
minus_days-aware now days start e = ground arith

module _ (table : List FeedIncident) (start now : Datetime) (s : is_naive start ≡ false)
    (h : is_naive now ≡ false) where
  pub count_lem :
      (feed : String)
      → count_feed_incidents_in_window table feed start now ≡ ok (count_window feed start now table)
  unfolding count_feed_incidents_in_window
  count_lem feed = rw (s, h)

  eligible_feeds-keep :
      (feeds : List String)
      → eligible_feeds table feeds start now
        ≡ ok (keep (λ feed. is_quiet feed start now table) feeds)
  unfolding eligible_feeds
  eligible_feeds-keep [] = refl
  eligible_feeds-keep (first ∷ feeds) = elim (Bool-cases (any_open first table)) [
    | inl o ↦ rw (
      is_nonempty-any_open first table,
      is_quiet-count first start now table,
      o,
      eligible_feeds-keep feeds,
      if◌then◌else◌,
    )
    | inr o ↦ rw (
      is_nonempty-any_open first table,
      is_quiet-count first start now table,
      o,
      count_lem first,
      eligible_feeds-keep feeds,
      if◌then◌else◌,
      ◌>>=◌,
    )
  ]

-- Where now is aware and the recovery window starts within Python's range of times, the feeds eligible
-- for reinstatement are, in the order given, those of which no incident is open and none was opened
-- from the start of the window to now.
pub feeds_eligible_for_reinstatement-quiet :
    (table : List FeedIncident) (feeds : List String) (recovery_days : ℤ) (now start : Datetime)
    → is_naive now ≡ false
    → minus_days now recovery_days ≡ ok start
    → feeds_eligible_for_reinstatement table feeds recovery_days now
      ≡ ok (keep (λ feed. is_quiet feed start now table) feeds)
unfolding feeds_eligible_for_reinstatement
feeds_eligible_for_reinstatement-quiet table feeds recovery_days now start h e = rw (
  h,
  e,
  ◌>>=◌,
  eligible_feeds-keep table start now (minus_days-aware now recovery_days start e) h feeds,
)
