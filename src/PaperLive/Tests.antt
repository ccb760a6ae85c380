-- ===== src/PaperLive/Tests.antt =====
-- A tick with one desk, and the theorem at it.
mod Halted
use multi_desk_trading.Common.{
  ℕ, suc, ◌+◌, ◌*◌, ◌/◌, Bool, true, false, not, ◌≡◌, ◌⊎◌, refl, inl, Option, none, some, List, [],
  ◌∷◌, map, ok, Result,
}
use multi_desk_trading.Common.Int.{ℤ, pos, negsuc, neg, ◌+ℤ◌, ◌-ℤ◌}
use multi_desk_trading.Common.Time.{aware}
use multi_desk_trading.Common.Float.Fixed.{fixed, mul_fixed, div_fixed}
use multi_desk_trading.Contracts.{log_return, ForecastV2, fixed_quantile_levels, lookup_target}
use multi_desk_trading.Contracts.Decisions.{DecisionV2, is_healthy, make_decision_v2}
use multi_desk_trading.Synthesiser.{
  SynthesisError, FamilyForecast, assert_compatible, make_family_forecast,
}
use multi_desk_trading.Synthesiser.Pooling.{
  build_contributions, pool_family, synthesise_stages, synthesise_family,
}
use multi_desk_trading.Sizing.{
  RoundOps, clip_unit, weighted_avg, multiplier_or, budget_of, compute_target_risk_budget,
  TargetLotResult, cap_lots, target_lots,
}
use multi_desk_trading.Ladder.{
  healthy, hard_fail, in_unit_range, make_exposure_state, make_tick_event, step_fresh, step_rules,
  step,
}
use multi_desk_trading.PaperLive.{
  DecisionReason, kill_switch, MarketTickContext, LedgerRecord, CostReport, TickOutcome, TickOps,
  TickSettings, is_ttl_breached, is_kill_halting, family_forecast_for_context,
}
use multi_desk_trading.PaperLive.Ticks.{pred_scale_of, build_decision, run_decision_tick}
use multi_desk_trading.PaperLive.Outcomes.{run_decision_tick-agrees}

abbrev forecast : ForecastV2 fixed
forecast = record {
  forecast_id = "fct_1";
  family_id = "oil";
  desk_id = "storage";
  decision_ts = pos 10;
  valid_until_ts = pos 99;
  target_variable = "WTI_FRONT_1W_LOG_RETURN";
  target_horizon = "5d";
  decision_unit = log_return;
  quantile_levels = fixed_quantile_levels fixed;
  quantile_vector = map (λ n. pos n) (0 ∷ 10 ∷ 20 ∷ 30 ∷ 40 ∷ 50 ∷ 60 ∷ []);
  calibration_score = pos 500;
  data_quality_score = pos 1000;
  abstain = false;
  contract_hash = "c";
  release_calendar_version = "v";
}

abbrev sum_fixed : List ℤ → ℤ
sum_fixed [] = pos 0
sum_fixed (x ∷ xs) = x +ℤ sum_fixed xs

-- The pool of one desk.
abbrev pool_first : List (ℤ × List ℤ) → Result SynthesisError (List ℤ)
pool_first [] = ok []
pool_first (x ∷ xs) = ok x.1

abbrev to_nearest : ℤ → Option ℤ
to_nearest (pos t) = some (pos ((t + 500) / 1000))
to_nearest (negsuc t) = some (neg (pos ((t + 501) / 1000)))

abbrev to_floor : ℤ → Option ℤ
to_floor (pos t) = some (pos (t / 1000))
to_floor (negsuc t) = some (negsuc (t / 1000))

abbrev to_ceil : ℤ → Option ℤ
to_ceil (pos t) = some (pos ((t + 999) / 1000))
to_ceil (negsuc t) = some (neg (pos ((t + 1) / 1000)))

abbrev thousandths : ℤ → Option ℤ
thousandths (pos n) = some (pos (n * 1000))
thousandths (negsuc n) = some (neg (pos (suc n * 1000)))

-- No position costs anything.
abbrev no_costs : ℤ → ℤ → ℤ → ℤ → CostReport fixed
no_costs before after gross vol = record {
  cost_total = pos 0;
  gross_return_total = gross;
  net_return_total = gross;
}

abbrev pub ops : TickOps fixed
ops = record {
  sum = sum_fixed;
  pool = pool_first;
  z_90_05_width = pos 3290;
  rounding = record {
    nearest = to_nearest;
    floor = to_floor;
    ceil = to_ceil;
    of_int = thousandths;
  };
  optimistic_costs = no_costs;
  pessimistic_costs = no_costs;
}

abbrev pub settings : TickSettings fixed
settings = record {
  control_params = record {
    k = pos 1000;
    sigma_floor = pos 10;
    roll_liquidity_multiplier = pos 1000;
  };
  adapter_params = record {
    reference_risk_5d_usd = pos 50000000;
    contract_multiplier_bbl = pos 1000000;
    rounding = "nearest";
    max_abs_lots = some (pos 3);
  };
  n_soft = pos 3;
  decay_lambda = pos 100;
  ttl = pos 60;
}

abbrev pub context : MarketTickContext fixed
context = record {
  decision_ts = aware (pos 10);
  emitted_ts = aware (pos 12);
  family = "oil";
  forecasts = forecast ∷ [];
  price = pos 70000;
  realised_return_since_last_tick = pos 5;
  market_vol_5d = pos 40;
  prior_exposure = record {
    state = healthy;
    current_target = pos 200;
    last_valid_target = pos 200;
    ticks_since_valid = pos 0;
  };
  prior_lots = pos 1;
  kill_switch_state = "enabled";
  contract_hash = "c";
  release_calendar_version = "v";
  prereg_hash = "p";
  regime_posterior = none;
  override_abstain_reason = none;
  kill_switch_halting = false;
  target_variable = "WTI_FRONT_1W_LOG_RETURN";
  roll_rule_id = "rolling_rule_v1";
}

abbrev family : FamilyForecast fixed
family = record {
  family_id = "oil";
  decision_ts = pos 10;
  target_variable = "WTI_FRONT_1W_LOG_RETURN";
  target_horizon = "5d";
  decision_unit = log_return;
  quantile_levels = fixed_quantile_levels fixed;
  quantile_vector = some (map (λ n. pos n) (0 ∷ 10 ∷ 20 ∷ 30 ∷ 40 ∷ 50 ∷ 60 ∷ []));
  abstain = false;
  abstain_reason = none;
  contributing =
      record {
        desk_id = "storage";
        forecast_id = "fct_1";
        weight_raw = pos 500;
        weight_normalised = pos 1000;
        calibration_score = pos 500;
        data_quality_score = pos 1000;
        regime_weight = pos 1000;
      }
      ∷ [];
  excluded_desk_ids = [];
  abstaining_desk_ids = [];
  regime_posterior = ("normal", pos 1000) ∷ [];
  contract_hash = "c";
  release_calendar_version = "v";
}

abbrev pub decision : DecisionV2 fixed DecisionReason
decision = record {
  family = "oil";
  decision_ts = pos 10;
  target_variable = "WTI_FRONT_1W_LOG_RETURN";
  target_horizon = "5d";
  decision_unit = log_return;
  instrument_spec = "WTI front-month futures under rolling_rule_v1";
  roll_rule_id = "rolling_rule_v1";
  target_risk_budget = some (pos 1000);
  abstain = false;
  abstain_reason = none;
  degradation_state = healthy;
  valid_until_ts = pos 70;
  signal_strength = some (pos 2500);
  family_quantile_vector = family.quantile_vector;
  pred_scale = some (pos 12);
  market_vol = some (pos 40);
  calibration_multiplier = pos 500;
  data_quality_multiplier = pos 1000;
  roll_liquidity_multiplier = pos 1000;
  regime_posterior = ("normal", pos 1000) ∷ [];
  hard_gates_passed = true;
  contributing_forecast_ids = "fct_1" ∷ [];
  prereg_hash = "p";
  contract_hash = "c";
}

abbrev pub ledger : LedgerRecord fixed
ledger = record {
  decision_ts = pos 10;
  emitted_ts = pos 12;
  family = "oil";
  prior_target = pos 200;
  new_target = pos 1000;
  prior_lots = pos 1;
  new_lots = pos 3;
  raw_lots = pos 17857;
  effective_b = pos 168;
  price = pos 70000;
  market_vol_5d = pos 40;
  fill_cost = pos 0;
  gross_return = pos 5;
  net_return = pos 5;
  degradation_state = healthy;
  forecast_ids = "fct_1" ∷ [];
  abstain = false;
  abstain_reason = none;
}

abbrev pub outcome : TickOutcome fixed
outcome = record {
  decision = decision;
  family_forecast = family;
  b_t = some (pos 1000);
  new_exposure = record {
    state = healthy;
    current_target = pos 1000;
    last_valid_target = pos 1000;
    ticks_since_valid = pos 0;
  };
  target_lots = pos 3;
  raw_lots = pos 17857;
  effective_b = pos 168;
  forecast_ids = "fct_1" ∷ [];
  ledger_records = (ledger, ledger);
}

run_decision_tick-run : run_decision_tick fixed ops context settings ≡ ok outcome
unfolding run_decision_tick family_forecast_for_context synthesise_family synthesise_stages
    pool_family make_family_forecast build_contributions assert_compatible
    compute_target_risk_budget budget_of multiplier_or weighted_avg clip_unit is_ttl_breached
    make_tick_event step step_rules step_fresh make_exposure_state target_lots cap_lots
    build_decision pred_scale_of make_decision_v2 lookup_target ◌+ℤ◌ ◌-ℤ◌ neg mul_fixed div_fixed
run_decision_tick-run = refl

run_decision_tick-agrees_example :
    (decision.abstain ≡ not (is_healthy outcome.new_exposure.state))
    × (decision.abstain ≡ false
        → (decision.target_risk_budget ≡ some outcome.new_exposure.current_target)
          × (in_unit_range fixed outcome.new_exposure.current_target ≡ true)
          × (is_kill_halting fixed context ≡ false)
          × (is_ttl_breached fixed context settings.ttl ≡ false)
          × (family.abstain ≡ false))
    × (decision.abstain ≡ true → decision.target_risk_budget ≡ none)
run_decision_tick-agrees_example =
    run_decision_tick-agrees fixed ops context settings outcome run_decision_tick-run
