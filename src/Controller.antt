-- ===== src/Controller.antt =====
-- The controller's decision, controller/decision.py. The rows that it reads of the database, the new
-- identifier, SHA-256 and numpy's clip are arguments.
pub mod Keys
pub mod Contributions
mod Tests
use text.Mathlib.Text.{◌==◌ as str_eq}
use Prim.Native.String.{◌++◌ as ◌<>◌}
use multi_desk_trading.Common.{
  String, Bool, true, false, not, ◌&&◌, ◌||◌, Option, none, some, List, [], ◌∷◌, ◌++◌, Result, ok,
  err, ◌>>=◌, ◌>>◌, raise_if, if◌then◌else◌,
}
use multi_desk_trading.Common.Float.{FloatOps}
use multi_desk_trading.Common.Time.{Datetime, is_naive}

pub data DecideError : Type 0 where
  naive_now no_params no_weights : DecideError

module _ (F : FloatOps) where
  open F use {Float}

  -- What a decision reads of a weight row, a forecast, the parameters and the regime's label.
  pub record WeightRow : Type 0 where
    pub desk_name : String
    pub target_variable : String
    pub weight : Float

  pub record Forecast : Type 0 where
    pub forecast_id : String
    pub desk_name : String
    pub target_variable : String
    pub staleness : Bool
    pub point_estimate : Float

  pub record ControllerParams : Type 0 where
    pub k_regime : Float
    pub pos_limit_regime : Float
    pub validation_artefact : String

  pub record Decision : Type 0 where
    pub decision_id : String
    pub emission_ts_utc : Datetime
    pub regime_id : String
    pub combined_signal : Float
    pub position_size : Float
    pub input_forecast_ids : List String
    pub input_snapshot_hash : String

  -- `recent_forecasts.get((desk, target))`, on the values of the dictionary with their keys.
  unfoldable pub get_forecast : List Forecast → WeightRow → Option Forecast
  get_forecast [] row = none
  get_forecast (f ∷ fs) row =
      if str_eq f.desk_name row.desk_name && str_eq f.target_variable row.target_variable
      then some f
      else get_forecast fs row

  -- `w == 0.0`
  abbrev pub is_zero : Float → Bool
  is_zero w = F.leb w F.zero && F.leb F.zero w

  -- The three tests that skip a row.
  abbrev pub is_skipped : WeightRow → Option Forecast → Bool
  is_skipped row none = true
  is_skipped row (some f) = f.staleness || is_zero row.weight

  -- One pass of the loop, on the signal and the identifiers so far.
  unfoldable pub add_row : WeightRow → Option Forecast → Float × List String → Float × List String
  add_row row none (signal, ids) = (signal, ids)
  add_row row (some f) (signal, ids) =
      if is_skipped row (some f)
      then (signal, ids)
      else (F.add signal (F.mul row.weight f.point_estimate), ids ++ f.forecast_id ∷ [])

  unfoldable pub combine :
      List Forecast → List WeightRow → Float × List String → Float × List String
  unfolding get_forecast add_row
  combine forecasts [] acc = acc
  combine forecasts (row ∷ rows) acc =
      combine forecasts rows (add_row row (get_forecast forecasts row) acc)

  module _ (clip : Float → Float → Float → Float) (sha256_hex : String → String) where
    -- The decision on the parameters that were read.
    unfoldable pub size :
        Datetime → String → List Forecast → List WeightRow → String → ControllerParams → Decision
    unfolding combine
    size now regime forecasts weights decision_id params =
        let (signal, ids) = combine forecasts weights (F.zero, []) in
        record {
          decision_id = decision_id;
          emission_ts_utc = now;
          regime_id = regime;
          combined_signal = signal;
          position_size =
              clip (F.mul params.k_regime signal) (F.neg params.pos_limit_regime)
                params.pos_limit_regime;
          input_forecast_ids = ids;
          input_snapshot_hash = sha256_hex (regime <> "|" <> params.validation_artefact);
        }

    unfoldable pub decide :
        Datetime
        → String
        → List Forecast
        → List WeightRow
        → Option ControllerParams
        → String
        → Result DecideError Decision
    unfolding size
    decide now regime forecasts weights params decision_id = do
      raise_if (is_naive now) naive_now
      elim params [
        | none ↦ err no_params
        | some p ↦ elim weights [
          | [] ↦ err no_weights
          | row ∷ rows ↦ ok (size now regime forecasts (row ∷ rows) decision_id p)
        ]
      ]
