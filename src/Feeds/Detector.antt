-- ===== src/Feeds/Detector.antt =====
-- `PageHinkleyState` and `update_page_hinkley` of research_loop/feed_latency_monitor.py.
pub mod Trips
pub mod Quiet
use multi_desk_trading.Common.{
  String, ℕ, ◌+◌, Bool, true, false, not, ◌&&◌, ◌||◌, Option, none, some, List, [], ◌∷◌, Result, ok,
  err, ◌>>=◌, ◌>>◌, raise_if,
}
use multi_desk_trading.Common.Float.{FloatOps, min_float}
use multi_desk_trading.Common.Time.{Datetime, is_naive}

pub data FeedError : Type 0 where
  naive_now negative_latency naive_last_update naive_window naive_opened naive_closed : FeedError

module _ (F : FloatOps) where
  open F use {Float}

  pub record PageHinkleyState : Type 0 where
    pub feed_name : String
    pub cumulative_sum : Float
    pub min_cumulative : Float
    pub n_observations : ℕ
    pub last_update_ts_utc : Option Datetime
    pub tripped : Bool

  unfoldable pub initial_state : String → PageHinkleyState
  initial_state feed_name = record {
    feed_name = feed_name;
    cumulative_sum = F.zero;
    min_cumulative = F.zero;
    n_observations = 0;
    last_update_ts_utc = none;
    tripped = false;
  }

  unfoldable pub update_page_hinkley :
      PageHinkleyState
      → Float
      → Datetime
      → Float
      → Float
      → Result FeedError (PageHinkleyState × Bool)
  update_page_hinkley state latency_seconds now_utc delta threshold = do
    raise_if (is_naive now_utc) naive_now
    raise_if (F.ltb latency_seconds F.zero) negative_latency
    let new_sum = F.add state.cumulative_sum (F.sub latency_seconds delta)
    let new_min = min_float F state.min_cumulative new_sum
    let ph_statistic = F.sub new_sum new_min
    let will_be_tripped = state.tripped || F.ltb threshold ph_statistic
    ok (
      record {
        feed_name = state.feed_name;
        cumulative_sum = new_sum;
        min_cumulative = new_min;
        n_observations = state.n_observations + 1;
        last_update_ts_utc = some now_utc;
        tripped = will_be_tripped;
      },
      not state.tripped && will_be_tripped,
    )

  -- A run of observations, each a latency and the time at which it is made, with the alarm that each
  -- update returns.
  unfoldable pub run_observations :
      PageHinkleyState
      → List (Float × Datetime)
      → Float
      → Float
      → Result FeedError (PageHinkleyState × List Bool)
  run_observations state [] delta threshold = ok (state, [])
  run_observations state ((latency, now) ∷ rest) delta threshold = do
    (next, alarm) ← update_page_hinkley state latency now delta threshold
    (final, alarms) ← run_observations next rest delta threshold
    ok (final, alarm ∷ alarms)
