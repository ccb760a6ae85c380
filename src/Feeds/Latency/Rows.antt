-- ===== src/Feeds/Latency/Rows.antt =====
-- Reading a row after a write.
use text.Mathlib.Text.{◌==◌ as str_eq}
use text.Mathlib.TextEquality.{eq_iff}
use multi_desk_trading.Common.{String, ◌≡◌, refl, some, [], ◌∷◌, arith, if◌then◌else◌}
use multi_desk_trading.Common.Float.{FloatOps}
use multi_desk_trading.Feeds.Detector.{PageHinkleyState}
use multi_desk_trading.Feeds.Latency.{
  LatencyTable, get_feed_latency_state, upsert_row, load_or_initial,
}

module _ (F : FloatOps) where
  pub get-upsert_row :
      (table : LatencyTable F) (state : PageHinkleyState F) (feed : String)
      → get_feed_latency_state F (upsert_row F table state) feed
        ≡ (if str_eq state.feed_name feed then some state else get_feed_latency_state F table feed)
  unfolding get_feed_latency_state upsert_row
  get-upsert_row [] state feed = refl
  get-upsert_row (row ∷ rows) state feed = ground (
    arith,
    eq_iff row.feed_name state.feed_name,
    eq_iff row.feed_name feed,
    eq_iff state.feed_name feed,
    get-upsert_row rows state feed,
  )

  -- A feed's state after a write is the state written, if it is that feed's, and its old one if not.
  pub load-upsert_row :
      (table : LatencyTable F) (state : PageHinkleyState F) (feed : String)
      → load_or_initial F (upsert_row F table state) feed
        ≡ (if str_eq state.feed_name feed then state else load_or_initial F table feed)
  unfolding load_or_initial
  load-upsert_row table state feed = ground (arith, get-upsert_row table state feed)
