-- ===== src/PaperLive/Ticks.antt =====
-- `_build_decision`, `_ledger_record` and `run_decision_tick` of v2/paper_live/loop.py.
use multi_desk_trading.Common.{
  Bool, not, ◌||◌, Option, none, some, List, map, Result, ok, err, raise_if, ◌>>◌, ◌>>=◌,
  if◌then◌else◌,
}
use multi_desk_trading.Common.Int.{◌+ℤ◌}
use multi_desk_trading.Common.Time.{is_naive, micros}
use multi_desk_trading.Common.Float.{FloatOps}
use multi_desk_trading.Contracts.{TargetSpec, lookup_target}
use multi_desk_trading.Contracts.Decisions.{DecisionV2, is_healthy, make_decision_v2, is_none}
use multi_desk_trading.Synthesiser.{FamilyForecast, is_empty}
use multi_desk_trading.Sizing.{
  SizingError, index_error, TargetLotResult, max_float, products, get_elem?, or_raise,
  compute_target_risk_budget, target_lots,
}
use multi_desk_trading.Ladder.{ExposureState, make_tick_event, step}
use multi_desk_trading.PaperLive.{
  TickError, naive_ts, unknown_target, validation, in_sizing, in_ladder, within, DecisionReason,
  is_empty_decision_reason, MarketTickContext, LedgerRecord, CostReport, TickOutcome, TickOps,
  TickSettings, is_ttl_breached, is_kill_halting, abstain_reason_of, family_forecast_for_context,
}

module _ (F : FloatOps) (O : TickOps F) where
  open F use {Float}

  -- `_pred_scale`, and the signal strength that `_build_decision` computes with it.
  unfoldable pub pred_scale_of :
      Option (List Float) → Float → Result SizingError (Option Float × Option Float)
  pred_scale_of none sigma_floor = ok (none, none)
  pred_scale_of (some qv) sigma_floor = do
    q05 ← or_raise (get_elem? qv 1) index_error
    q50 ← or_raise (get_elem? qv 3) index_error
    q95 ← or_raise (get_elem? qv 5) index_error
    let scale = F.div (F.sub q95 q05) (F.scientific 3289707253902945 15)
    ok (some scale, some (F.div q50 (max_float F scale sigma_floor)))

  -- `_weighted_contribution_avg`
  abbrev pub weighted_contribution_avg : List Float → List Float → Float
  weighted_contribution_avg weights values =
      if is_empty weights then F.one else O.sum (products F weights values)

  abbrev pub is_decision_abstaining :
      FamilyForecast F → Option Float → Bool → Bool → ExposureState F → Bool
  is_decision_abstaining family raw_b_t breached kill_halting new_exposure =
      family.abstain
      || is_none raw_b_t
      || breached
      || kill_halting
      || not (is_healthy new_exposure.state)

  -- The fields of the decision, from the target's specification, the scale and the strength.
  abbrev pub decision_of :
      MarketTickContext F
      → FamilyForecast F
      → Option Float
      → Bool
      → Bool
      → ExposureState F
      → TickSettings F
      → TargetSpec
      → Option Float × Option Float
      → DecisionV2 F DecisionReason
  decision_of context family raw_b_t breached kill_halting new_exposure settings target scales =
      let weights = map (λ c. c.weight_normalised) family.contributing in
      let abstain = is_decision_abstaining family raw_b_t breached kill_halting new_exposure in
      record {
        family = context.family;
        decision_ts = micros context.decision_ts;
        target_variable = family.target_variable;
        target_horizon = family.target_horizon;
        decision_unit = family.decision_unit;
        instrument_spec = target.instrument_spec;
        roll_rule_id = context.roll_rule_id;
        target_risk_budget = if abstain then none else raw_b_t;
        abstain = abstain;
        abstain_reason =
            if abstain
            then some (abstain_reason_of F context family breached kill_halting new_exposure)
            else none;
        degradation_state = new_exposure.state;
        valid_until_ts = micros context.decision_ts +ℤ settings.ttl;
        signal_strength = scales.1;
        family_quantile_vector = family.quantile_vector;
        pred_scale = scales.0;
        market_vol = some context.market_vol_5d;
        calibration_multiplier =
            weighted_contribution_avg weights (map (λ c. c.calibration_score) family.contributing);
        data_quality_multiplier =
            weighted_contribution_avg weights (map (λ c. c.data_quality_score) family.contributing);
        roll_liquidity_multiplier = settings.control_params.roll_liquidity_multiplier;
        regime_posterior = family.regime_posterior;
        hard_gates_passed = not abstain;
        contributing_forecast_ids = map (λ f. f.forecast_id) context.forecasts;
        prereg_hash = context.prereg_hash;
        contract_hash = context.contract_hash;
      }

  unfoldable pub build_decision :
      MarketTickContext F
      → FamilyForecast F
      → Option Float
      → Bool
      → Bool
      → ExposureState F
      → TickSettings F
      → Result TickError (DecisionV2 F DecisionReason)
  unfolding lookup_target pred_scale_of make_decision_v2
  build_decision context family raw_b_t breached kill_halting new_exposure settings =
      elim (lookup_target family.target_variable) [
        | none ↦ err unknown_target
        | some target ↦ do
          scales ←
              within in_sizing
                (pred_scale_of family.quantile_vector settings.control_params.sigma_floor)
          make_decision_v2 F DecisionReason is_empty_decision_reason validation (
              decision_of context family raw_b_t breached kill_halting new_exposure settings target
                scales)
      ]

  -- `_ledger_record`
  abbrev pub ledger_record :
      MarketTickContext F
      → DecisionV2 F DecisionReason
      → ExposureState F
      → TargetLotResult F
      → CostReport F
      → LedgerRecord F
  ledger_record context decision new_exposure lots costs = record {
    decision_ts = micros context.decision_ts;
    emitted_ts = micros context.emitted_ts;
    family = context.family;
    prior_target = context.prior_exposure.current_target;
    new_target = new_exposure.current_target;
    prior_lots = context.prior_lots;
    new_lots = lots.rounded_lots;
    raw_lots = lots.raw_lots;
    effective_b = lots.effective_b;
    price = context.price;
    market_vol_5d = context.market_vol_5d;
    fill_cost = costs.cost_total;
    gross_return = costs.gross_return_total;
    net_return = costs.net_return_total;
    degradation_state = new_exposure.state;
    forecast_ids = map (λ f. f.forecast_id) context.forecasts;
    abstain = decision.abstain;
    abstain_reason = decision.abstain_reason;
  }

  -- `_cost_report` in one scenario.
  abbrev pub cost_report :
      MarketTickContext F
      → ExposureState F
      → (Float → Float → Float → Float → CostReport F)
      → CostReport F
  cost_report context new_exposure costs =
      costs context.prior_exposure.current_target new_exposure.current_target
        context.realised_return_since_last_tick context.market_vol_5d

  unfoldable pub run_decision_tick :
      MarketTickContext F → TickSettings F → Result TickError (TickOutcome F)
  unfolding family_forecast_for_context compute_target_risk_budget is_ttl_breached make_tick_event
      step target_lots build_decision
  run_decision_tick context settings = do
    raise_if (is_naive context.decision_ts) naive_ts
    raise_if (is_naive context.emitted_ts) naive_ts
    family ← family_forecast_for_context F O context
    raw_b_t ← within in_sizing (
        compute_target_risk_budget F O.sum O.z_90_05_width family settings.control_params none none)
    let breached = is_ttl_breached F context settings.ttl
    let kill_halting = is_kill_halting F context
    let ladder_b_t = if breached then none else raw_b_t
    event ←
        within in_ladder (make_tick_event F (is_none ladder_b_t) ladder_b_t breached kill_halting)
    new_exposure ←
        within in_ladder (step F context.prior_exposure event settings.n_soft settings.decay_lambda)
    lots ← within in_sizing (
        target_lots F O.rounding new_exposure.current_target context.price context.market_vol_5d
          settings.adapter_params)
    decision ← build_decision context family raw_b_t breached kill_halting new_exposure settings
    ok (record {
      decision = decision;
      family_forecast = family;
      b_t = raw_b_t;
      new_exposure = new_exposure;
      target_lots = lots.rounded_lots;
      raw_lots = lots.raw_lots;
      effective_b = lots.effective_b;
      forecast_ids = map (λ f. f.forecast_id) context.forecasts;
      ledger_records = (
        ledger_record context decision new_exposure lots
            (cost_report context new_exposure O.optimistic_costs),
        ledger_record context decision new_exposure lots
            (cost_report context new_exposure O.pessimistic_costs),
      );
    })
