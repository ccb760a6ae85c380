-- ===== src/Feeds/Latency.antt =====
-- The table `feed_latency_state` of persistence/db.py, with one row for each feed, and the functions
-- of research_loop/feed_latency_monitor.py that load, update and reset a feed's detector.
pub mod Rows
pub mod Separate
use text.Mathlib.Text.{◌==◌ as str_eq}
use multi_desk_trading.Common.{
  String, ℕ, Bool, false, Option, none, some, List, [], ◌∷◌, Result, ok, err, ◌>>=◌, ◌>>◌, raise_if,
  if◌then◌else◌,
}
use multi_desk_trading.Common.Float.{FloatOps}
use multi_desk_trading.Common.Time.{Datetime, is_naive}
use multi_desk_trading.Feeds.Detector.{
  FeedError, naive_last_update, PageHinkleyState, initial_state, update_page_hinkley,
}

-- `last_update_ts_utc is not None and last_update_ts_utc.tzinfo is None`
abbrev pub is_naive_update : Option Datetime → Bool
is_naive_update none = false
is_naive_update (some t) = is_naive t

module _ (F : FloatOps) where
  open F use {Float}

  abbrev pub LatencyTable : Type 0
  LatencyTable = List (PageHinkleyState F)

  -- `SELECT ... WHERE feed_name = ?` and `fetchone()`
  unfoldable pub get_feed_latency_state : LatencyTable → String → Option (PageHinkleyState F)
  get_feed_latency_state [] feed_name = none
  get_feed_latency_state (row ∷ rows) feed_name =
      if str_eq row.feed_name feed_name then some row else get_feed_latency_state rows feed_name

  -- `INSERT ... ON CONFLICT (feed_name) DO UPDATE`
  unfoldable pub upsert_row : LatencyTable → PageHinkleyState F → LatencyTable
  upsert_row [] state = state ∷ []
  upsert_row (row ∷ rows) state =
      if str_eq row.feed_name state.feed_name then state ∷ rows else row ∷ upsert_row rows state

  -- `upsert_feed_latency_state`, and so `persist`.
  unfoldable pub persist : LatencyTable → PageHinkleyState F → Result FeedError LatencyTable
  unfolding upsert_row
  persist table state = do
    raise_if (is_naive_update state.last_update_ts_utc) naive_last_update
    ok (upsert_row table state)

  unfoldable pub load_or_initial : LatencyTable → String → PageHinkleyState F
  unfolding get_feed_latency_state initial_state
  load_or_initial table feed_name = elim (get_feed_latency_state table feed_name) [
    | none ↦ initial_state F feed_name
    | some row ↦ row
  ]

  unfoldable pub observe_latency :
      LatencyTable
      → String
      → Float
      → Datetime
      → Float
      → Float
      → Result FeedError (LatencyTable × PageHinkleyState F × Bool)
  unfolding load_or_initial update_page_hinkley persist
  observe_latency table feed_name latency_seconds now_utc delta threshold = do
    let current = load_or_initial table feed_name
    (new_state, newly_tripped) ←
        update_page_hinkley F current latency_seconds now_utc delta threshold
    table' ← persist table new_state
    ok (table', new_state, newly_tripped)

  unfoldable pub reset_for_feed : LatencyTable → String → Result FeedError LatencyTable
  unfolding persist initial_state
  reset_for_feed table feed_name = persist table (initial_state F feed_name)

  -- Observations of many feeds, in the order in which the scheduler fires them.
  unfoldable pub observe_all :
      LatencyTable
      → List (String × Float × Datetime)
      → Float
      → Float
      → Result FeedError LatencyTable
  observe_all table [] delta threshold = ok table
  observe_all table ((feed, latency, now) ∷ rest) delta threshold = do
    (table', _, _) ← observe_latency table feed latency now delta threshold
    observe_all table' rest delta threshold
