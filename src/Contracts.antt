-- ===== src/Contracts.antt =====
-- The messages between desks, synthesiser and execution: v2/contracts/decision_unit.py,
-- v2/contracts/target_variables.py, and the fields of v2/contracts/forecast_v2.py that the modelled
-- code reads. Their times are aware ones, in microseconds, which their validators require.
pub mod Decisions
use multi_desk_trading.Common.{String, Bool, true, false, ◌&&◌, Option, List, [], ◌∷◌, map, ℕ, ◌==◌}
use multi_desk_trading.Common.Int.{ℤ}
use multi_desk_trading.Common.Dict.{find_entry}
use multi_desk_trading.Common.Float.{FloatOps}

pub data DecisionUnit : Type 0 where
  log_return spread_change vol_point_change utility : DecisionUnit

-- The place of a unit in the enumeration, by which two units are compared.
abbrev pub unit_index : DecisionUnit → ℕ
unit_index log_return = 0
unit_index spread_change = 1
unit_index vol_point_change = 2
unit_index utility = 3

abbrev pub same_unit : DecisionUnit → DecisionUnit → Bool
same_unit u v = unit_index u == unit_index v

pub record TargetSpec : Type 0 where
  pub name : String
  pub decision_unit : DecisionUnit
  pub horizon : String
  pub instrument_spec : String

abbrev pub known_targets : List (String × TargetSpec)
known_targets =
    (
      "WTI_FRONT_1W_LOG_RETURN",
      record {
        name = "WTI_FRONT_1W_LOG_RETURN";
        decision_unit = log_return;
        horizon = "5d";
        instrument_spec = "WTI front-month futures under rolling_rule_v1";
      },
    )
    ∷ (
      "VIX_30D_FORWARD_3D_DELTA",
      record {
        name = "VIX_30D_FORWARD_3D_DELTA";
        decision_unit = vol_point_change;
        horizon = "3d";
        instrument_spec = "VIX 30-day forward under vix_forward_rule_v1";
      },
    )
    ∷ []

-- `lookup_target`; where the name is unknown the source raises.
unfoldable pub lookup_target : String → Option TargetSpec
lookup_target name = find_entry name known_targets

module _ (F : FloatOps) where
  open F use {Float}

  -- `a == b`
  abbrev pub eq_float : Float → Float → Bool
  eq_float a b = F.leb a b && F.leb b a

  abbrev pub eq_floats : List Float → List Float → Bool
  eq_floats [] [] = true
  eq_floats [] (b ∷ ys) = false
  eq_floats (a ∷ xs) [] = false
  eq_floats (a ∷ xs) (b ∷ ys) = eq_float a b && eq_floats xs ys

  abbrev pub fixed_quantile_levels : List Float
  fixed_quantile_levels = map (λ m. F.scientific m 2) (1 ∷ 5 ∷ 25 ∷ 50 ∷ 75 ∷ 95 ∷ 99 ∷ [])

  pub record ForecastV2 : Type 0 where
    pub forecast_id : String
    pub family_id : String
    pub desk_id : String
    pub decision_ts : ℤ
    pub valid_until_ts : ℤ
    pub target_variable : String
    pub target_horizon : String
    pub decision_unit : DecisionUnit
    pub quantile_levels : List Float
    pub quantile_vector : List Float
    pub calibration_score : Float
    pub data_quality_score : Float
    pub abstain : Bool
    pub contract_hash : String
    pub release_calendar_version : String
