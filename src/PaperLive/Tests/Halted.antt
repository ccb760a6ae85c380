-- ===== src/PaperLive/Tests/Halted.antt =====
-- A tick at which the kill switch halts the system, and the theorem at it.
use multi_desk_trading.Common.{true, false, ◌≡◌, refl, inl, none, some, ok}
use multi_desk_trading.Common.Int.{pos, neg, ◌+ℤ◌, ◌-ℤ◌}
use multi_desk_trading.Common.Float.Fixed.{fixed, mul_fixed, div_fixed}
use multi_desk_trading.Contracts.{lookup_target}
use multi_desk_trading.Contracts.Decisions.{make_decision_v2}
use multi_desk_trading.Synthesiser.{assert_compatible, make_family_forecast}
use multi_desk_trading.Synthesiser.Pooling.{
  build_contributions, pool_family, synthesise_stages, synthesise_family,
}
use multi_desk_trading.Sizing.{
  clip_unit, weighted_avg, multiplier_or, budget_of, compute_target_risk_budget, TargetLotResult,
  cap_lots, target_lots,
}
use multi_desk_trading.Ladder.{
  hard_fail, make_exposure_state, make_tick_event, step_fresh, step_rules, step,
}
use multi_desk_trading.PaperLive.{
  kill_switch, MarketTickContext, LedgerRecord, TickOutcome, is_ttl_breached,
  family_forecast_for_context,
}
use multi_desk_trading.PaperLive.Ticks.{pred_scale_of, build_decision, run_decision_tick}
use multi_desk_trading.PaperLive.Outcomes.{run_decision_tick-halts}
use multi_desk_trading.PaperLive.Tests.{ops, settings, context, ledger, decision, outcome}

abbrev halted_context : MarketTickContext fixed
halted_context = record context { kill_switch_state = "halted" }

abbrev halted_ledger : LedgerRecord fixed
halted_ledger = record ledger {
  new_target = pos 0;
  new_lots = pos 0;
  raw_lots = pos 0;
  effective_b = pos 0;
  degradation_state = hard_fail;
  abstain = true;
  abstain_reason = some (kill_switch "halted");
}

abbrev halted_outcome : TickOutcome fixed
halted_outcome = record outcome {
  decision = record decision {
    target_risk_budget = none;
    abstain = true;
    abstain_reason = some (kill_switch "halted");
    degradation_state = hard_fail;
    hard_gates_passed = false;
  };
  new_exposure = record {
    state = hard_fail;
    current_target = pos 0;
    last_valid_target = pos 200;
    ticks_since_valid = pos 1;
  };
  target_lots = pos 0;
  raw_lots = pos 0;
  effective_b = pos 0;
  ledger_records = (halted_ledger, halted_ledger);
}

run_decision_tick-halted : run_decision_tick fixed ops halted_context settings ≡ ok halted_outcome
unfolding run_decision_tick family_forecast_for_context synthesise_family synthesise_stages
    pool_family make_family_forecast build_contributions assert_compatible
    compute_target_risk_budget budget_of multiplier_or weighted_avg clip_unit is_ttl_breached
    make_tick_event step step_rules step_fresh make_exposure_state target_lots cap_lots
    build_decision pred_scale_of make_decision_v2 lookup_target ◌+ℤ◌ ◌-ℤ◌ neg mul_fixed div_fixed
run_decision_tick-halted = refl

run_decision_tick-halts_example :
    (halted_outcome.new_exposure.state ≡ hard_fail)
    × (halted_outcome.new_exposure.current_target ≡ fixed.zero)
    × (halted_outcome.decision.abstain ≡ true)
    × (halted_outcome.decision.target_risk_budget ≡ none)
    × ((lots : TargetLotResult fixed) × (target_lots fixed ops.rounding fixed.zero
            halted_context.price halted_context.market_vol_5d settings.adapter_params
          ≡ ok lots)
        × (halted_outcome.target_lots ≡ lots.rounded_lots))
run_decision_tick-halts_example =
    run_decision_tick-halts fixed ops halted_context settings halted_outcome
      run_decision_tick-halted (inl refl)
