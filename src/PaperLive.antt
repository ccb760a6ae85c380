-- ===== src/PaperLive.antt =====
-- One tick of paper trading, v2/paper_live/loop.py: from the forecasts of the desks through the
-- synthesiser, the control law, the ladder and the adapter to a decision.
pub mod Ticks
pub mod Steps
pub mod Outcomes
mod Tests
use text.Mathlib.Text.{◌==◌ as str_eq}
use multi_desk_trading.Common.{
  String, Bool, true, false, not, ◌&&◌, ◌||◌, Option, none, some, List, [], ◌∷◌, map, Result, ok,
  err, raise_if, ◌>>◌, ◌>>=◌, if◌then◌else◌,
}
use multi_desk_trading.Common.Int.{ℤ, ◌+ℤ◌, ltb_ℤ}
use multi_desk_trading.Common.Time.{Datetime, is_naive, micros}
use multi_desk_trading.Common.Float.{FloatOps}
use multi_desk_trading.Contracts.{ForecastV2, TargetSpec, lookup_target, fixed_quantile_levels}
use multi_desk_trading.Contracts.Decisions.{DecisionV2, is_healthy, make_decision_v2, is_none}
use multi_desk_trading.Synthesiser.{
  SynthesisError, AbstainReason, message, FamilyForecast, is_empty, is_empty_reason,
  make_family_forecast,
}
use multi_desk_trading.Synthesiser.Pooling.{posterior_or_normal, synthesise_family}
use multi_desk_trading.Sizing.{
  SizingError, index_error, RoundOps, ControlLawParams, AdapterParams, TargetLotResult, max_float,
  products, get_elem?, or_raise, compute_target_risk_budget, target_lots,
}
use multi_desk_trading.Ladder.{
  DegradationState, LadderError, ExposureState, TickEvent, make_tick_event, step,
}
use multi_desk_trading.KillSwitch.Reader.{in_halting_states}

-- What ends a tick: a naive time, an unknown target, an exception of a part, or a check of DecisionV2.
pub data TickError : Type 0 where
  naive_ts unknown_target validation : TickError
  in_synthesis : SynthesisError → TickError
  in_sizing : SizingError → TickError
  in_ladder : LadderError → TickError

-- A call of a part, with its exception as one of the tick.
abbrev pub within : {E A : Type 0} → (E → TickError) → Result E A → Result TickError A
within f (ok a) = ok a
within f (err e) = err (f e)

-- The reason of a decision. The text of a halt has the prefix `kill_switch:`, which is put before
-- the text given where it lacks it.
pub data DecisionReason : Type 0 where
  kill_switch : String → DecisionReason
  ttl_breached : DecisionReason
  of_family : AbstainReason → DecisionReason
  of_state : DegradationState → DecisionReason

abbrev pub is_empty_decision_reason : DecisionReason → Bool
is_empty_decision_reason (of_family reason) = is_empty_reason reason
is_empty_decision_reason _ = false

module _ (F : FloatOps) where
  open F use {Float}

  pub record MarketTickContext : Type 0 where
    pub decision_ts : Datetime
    pub emitted_ts : Datetime
    pub family : String
    pub forecasts : List (ForecastV2 F)
    pub price : Float
    pub realised_return_since_last_tick : Float
    pub market_vol_5d : Float
    pub prior_exposure : ExposureState F
    pub prior_lots : ℤ
    pub kill_switch_state : String
    pub contract_hash : String
    pub release_calendar_version : String
    pub prereg_hash : String
    pub regime_posterior : Option (List (String × Float))
    pub override_abstain_reason : Option String
    pub kill_switch_halting : Bool
    pub target_variable : String
    pub roll_rule_id : String

  -- A record of the ledger; its scenario is its place among the two of a tick.
  pub record LedgerRecord : Type 0 where
    pub decision_ts : ℤ
    pub emitted_ts : ℤ
    pub family : String
    pub prior_target : Float
    pub new_target : Float
    pub prior_lots : ℤ
    pub new_lots : ℤ
    pub raw_lots : Float
    pub effective_b : Float
    pub price : Float
    pub market_vol_5d : Float
    pub fill_cost : Float
    pub gross_return : Float
    pub net_return : Float
    pub degradation_state : DegradationState
    pub forecast_ids : List String
    pub abstain : Bool
    pub abstain_reason : Option DecisionReason

  -- The totals of a cost report, of which numpy computes the columns.
  pub record CostReport : Type 0 where
    pub cost_total : Float
    pub gross_return_total : Float
    pub net_return_total : Float

  pub record TickOutcome : Type 0 where
    pub decision : DecisionV2 F DecisionReason
    pub family_forecast : FamilyForecast F
    pub b_t : Option Float
    pub new_exposure : ExposureState F
    pub target_lots : ℤ
    pub raw_lots : Float
    pub effective_b : Float
    pub forecast_ids : List String
    pub ledger_records : LedgerRecord × LedgerRecord

  -- The costs of a position before and one after, at a return and a volatility, in the optimistic
  -- and in the pessimistic scenario; the built-in sum, the pool of quantiles, the width of the normal
  -- quantiles in the control law, and the rounding of floats.
  pub record TickOps : Type 0 where
    pub sum : List Float → Float
    pub pool : List (Float × List Float) → Result SynthesisError (List Float)
    pub z_90_05_width : Float
    pub rounding : RoundOps F
    pub optimistic_costs : Float → Float → Float → Float → CostReport
    pub pessimistic_costs : Float → Float → Float → Float → CostReport

  -- The settings of a run.
  pub record TickSettings : Type 0 where
    pub control_params : ControlLawParams F
    pub adapter_params : AdapterParams F
    pub n_soft : ℤ
    pub decay_lambda : Float
    pub ttl : ℤ

  abbrev pub synthetic_target : MarketTickContext → String
  synthetic_target context = elim context.forecasts [
    | [] ↦ context.target_variable
    | f ∷ _ ↦ f.target_variable
  ]

  -- `override or "no desks contributed"`
  abbrev pub reason_or_none : Option String → String
  reason_or_none none = "no desks contributed"
  reason_or_none (some reason) = if str_eq reason "" then "no desks contributed" else reason

  -- `_ttl_breached`
  abbrev pub any_expired : ℤ → List (ForecastV2 F) → Bool
  any_expired emitted [] = false
  any_expired emitted (f ∷ fs) = ltb_ℤ f.valid_until_ts emitted || any_expired emitted fs

  unfoldable pub is_ttl_breached : MarketTickContext → ℤ → Bool
  unfolding ◌+ℤ◌
  is_ttl_breached context ttl =
      ltb_ℤ (micros context.decision_ts +ℤ ttl) (micros context.emitted_ts)
      || any_expired (micros context.emitted_ts) context.forecasts

  abbrev pub is_kill_halting : MarketTickContext → Bool
  is_kill_halting context =
      context.kill_switch_halting || in_halting_states context.kill_switch_state

  -- `_abstain_reason`; the reason of a family, where it has one, is not empty.
  abbrev pub abstain_reason_of :
      MarketTickContext → FamilyForecast F → Bool → Bool → ExposureState F → DecisionReason
  abstain_reason_of context family breached kill_halting new_exposure =
      if kill_halting
      then elim context.override_abstain_reason [
        | none ↦ kill_switch context.kill_switch_state
        | some reason ↦ kill_switch (if str_eq reason "" then context.kill_switch_state else reason)
      ]
      else if breached
      then ttl_breached
      else elim family.abstain_reason [
        | none ↦ of_state new_exposure.state
        | some reason ↦
            if is_empty_reason reason then of_state new_exposure.state else of_family reason
      ]

  module _ (O : TickOps) where
    unfoldable pub synthetic_family_abstain :
        MarketTickContext → String → Result TickError (FamilyForecast F)
    unfolding make_family_forecast lookup_target
    synthetic_family_abstain context reason = elim (lookup_target (synthetic_target context)) [
      | none ↦ err unknown_target
      | some target ↦ within in_synthesis (
          make_family_forecast F O.sum (record {
            family_id = context.family;
            decision_ts = micros context.decision_ts;
            target_variable = target.name;
            target_horizon = target.horizon;
            decision_unit = target.decision_unit;
            quantile_levels = fixed_quantile_levels F;
            quantile_vector = none;
            abstain = true;
            abstain_reason = some (message reason);
            contributing = [];
            excluded_desk_ids = [];
            abstaining_desk_ids = [];
            regime_posterior = posterior_or_normal F context.regime_posterior;
            contract_hash = context.contract_hash;
            release_calendar_version = context.release_calendar_version;
          }))
    ]

    unfoldable pub family_forecast_for_context :
        MarketTickContext → Result TickError (FamilyForecast F)
    unfolding synthetic_family_abstain synthesise_family
    family_forecast_for_context context =
        if not (is_none context.override_abstain_reason) || is_empty context.forecasts
        then synthetic_family_abstain context (reason_or_none context.override_abstain_reason)
        else within in_synthesis (
            synthesise_family F O.sum O.pool context.forecasts context.regime_posterior
              context.contract_hash context.release_calendar_version)
