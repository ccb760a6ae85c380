-- ===== src/Contracts/Decisions.antt =====
-- DecisionV2 of v2/contracts/decision_v2.py, with its checks.
use text.Mathlib.Text.{◌==◌ as str_eq}
use multi_desk_trading.Common.{
  String, Bool, true, false, not, ◌&&◌, ◌||◌, Option, none, some, List, [], ◌∷◌, Result, ok,
  raise_if, ◌>>◌, if◌then◌else◌, length, ◌==◌,
}
use multi_desk_trading.Common.Int.{ℤ, leb_ℤ}
use multi_desk_trading.Common.Float.{FloatOps}
use multi_desk_trading.Ladder.{DegradationState, healthy}
use multi_desk_trading.Contracts.{DecisionUnit, same_unit, lookup_target, fixed_quantile_levels}

-- Whether a state of the ladder is HEALTHY.
abbrev pub is_healthy : DegradationState → Bool
is_healthy healthy = true
is_healthy _ = false

abbrev pub is_none : {A : Type 0} → Option A → Bool
is_none none = true
is_none (some a) = false

-- The reason is of a type of its own, with a test of emptiness. The contract version and the levels
-- keep their defaults, and no result of a hard gate is given.
module _ (F : FloatOps) (Reason : Type 0) where
  open F use {Float}

  pub record DecisionV2 : Type 0 where
    pub family : String
    pub decision_ts : ℤ
    pub target_variable : String
    pub target_horizon : String
    pub decision_unit : DecisionUnit
    pub instrument_spec : String
    pub roll_rule_id : String
    pub target_risk_budget : Option Float
    pub abstain : Bool
    pub abstain_reason : Option Reason
    pub degradation_state : DegradationState
    pub valid_until_ts : ℤ
    pub signal_strength : Option Float
    pub family_quantile_vector : Option (List Float)
    pub pred_scale : Option Float
    pub market_vol : Option Float
    pub calibration_multiplier : Float
    pub data_quality_multiplier : Float
    pub roll_liquidity_multiplier : Float
    pub regime_posterior : List (String × Float)
    pub hard_gates_passed : Bool
    pub contributing_forecast_ids : List String
    pub prereg_hash : String
    pub contract_hash : String

  abbrev pub holds : Option Float → (Float → Bool) → Bool
  holds none test = true
  holds (some x) test = test x

  abbrev pub in_zero_one : Float → Bool
  in_zero_one x = F.leb F.zero x && F.leb x F.one

  -- The bounds of the fields.
  abbrev pub fields_in_range : DecisionV2 → Bool
  fields_in_range d =
      holds d.target_risk_budget (λ b. F.leb (F.neg F.one) b && F.leb b F.one)
      && holds d.pred_scale (λ x. F.leb F.zero x)
      && holds d.market_vol (λ x. F.leb F.zero x)
      && in_zero_one d.calibration_multiplier
      && in_zero_one d.data_quality_multiplier
      && in_zero_one d.roll_liquidity_multiplier

  abbrev pub matches_target : DecisionV2 → Bool
  matches_target d = elim (lookup_target d.target_variable) [
    | none ↦ false
    | some spec ↦
        same_unit d.decision_unit spec.decision_unit && str_eq d.target_horizon spec.horizon
  ]

  -- The checks on abstention, reason and state.
  abbrev pub has_reason : (Reason → Bool) → Option Reason → Bool
  has_reason is_empty_reason none = false
  has_reason is_empty_reason (some reason) = not (is_empty_reason reason)

  abbrev pub abstains_well : (Reason → Bool) → DecisionV2 → Bool
  abstains_well is_empty_reason d =
      if d.abstain
      then is_none d.target_risk_budget
        && has_reason is_empty_reason d.abstain_reason
        && not (is_healthy d.degradation_state)
      else not (is_none d.target_risk_budget)
        && not (has_reason is_empty_reason d.abstain_reason)
        && is_healthy d.degradation_state

  abbrev pub is_monotone : List Float → Bool
  is_monotone [] = true
  is_monotone (a ∷ []) = true
  is_monotone (a ∷ b ∷ rest) = F.leb a b && is_monotone (b ∷ rest)

  abbrev pub quantiles_fit : DecisionV2 → Bool
  quantiles_fit d = elim d.family_quantile_vector [
    | none ↦ true
    | some quantiles ↦
        length quantiles == length (fixed_quantile_levels F) && (d.abstain || is_monotone quantiles)
  ]

  unfoldable pub make_decision_v2 :
      {E : Type 0} → (Reason → Bool) → E → DecisionV2 → Result E DecisionV2
  unfolding lookup_target
  make_decision_v2 is_empty_reason validation d = do
    raise_if (not (fields_in_range d)) validation
    raise_if (not (matches_target d)) validation
    raise_if (not (abstains_well is_empty_reason d)) validation
    raise_if (not (quantiles_fit d)) validation
    raise_if (leb_ℤ d.valid_until_ts d.decision_ts) validation
    ok d
