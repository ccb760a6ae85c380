-- ===== src/Sizing/Tests.antt =====
-- A family on numbers of three decimals, its budget and its lots.
use multi_desk_trading.Common.{
  suc, ◌+◌, ◌*◌, ◌/◌, true, false, ◌&&◌, ◌≡◌, ◌⊎◌, refl, Option, none, some, List, [], ◌∷◌, map, ok,
}
use multi_desk_trading.Common.Int.{ℤ, pos, negsuc, neg, ◌+ℤ◌, ◌-ℤ◌, leb_ℤ}
use multi_desk_trading.Common.Float.Fixed.{fixed, fixed_laws, mul_fixed, div_fixed}
use multi_desk_trading.Contracts.{log_return, fixed_quantile_levels}
use multi_desk_trading.Synthesiser.{FamilyForecast}
use multi_desk_trading.Sizing.{
  RoundOps, ControlLawParams, clip_unit, weighted_avg, multiplier_or, budget_of,
  compute_target_risk_budget, AdapterParams, TargetLotResult, cap_lots, target_lots,
}
use multi_desk_trading.Sizing.Bounds.{
  IsClipped, compute_target_risk_budget-IsClipped, target_lots-IsClipped,
}

abbrev sum_fixed : List ℤ → ℤ
sum_fixed [] = pos 0
sum_fixed (x ∷ xs) = x +ℤ sum_fixed xs

abbrev to_nearest : ℤ → Option ℤ
to_nearest (pos t) = some (pos ((t + 500) / 1000))
to_nearest (negsuc t) = some (neg (pos ((t + 501) / 1000)))

abbrev to_floor : ℤ → Option ℤ
to_floor (pos t) = some (pos (t / 1000))
to_floor (negsuc t) = some (negsuc (t / 1000))

abbrev to_ceil : ℤ → Option ℤ
to_ceil (pos t) = some (pos ((t + 999) / 1000))
to_ceil (negsuc t) = some (neg (pos ((t + 1) / 1000)))

abbrev thousandths : ℤ → Option ℤ
thousandths (pos n) = some (pos (n * 1000))
thousandths (negsuc n) = some (neg (pos (suc n * 1000)))

abbrev fixed_rounding : RoundOps fixed
fixed_rounding = record {
  nearest = to_nearest;
  floor = to_floor;
  ceil = to_ceil;
  of_int = thousandths;
}

abbrev family : FamilyForecast fixed
family = record {
  family_id = "oil";
  decision_ts = pos 10;
  target_variable = "WTI_FRONT_1W_LOG_RETURN";
  target_horizon = "5d";
  decision_unit = log_return;
  quantile_levels = fixed_quantile_levels fixed;
  quantile_vector = some (map (λ n. pos n) (0 ∷ 10 ∷ 20 ∷ 30 ∷ 40 ∷ 50 ∷ 60 ∷ []));
  abstain = false;
  abstain_reason = none;
  contributing =
      record {
        desk_id = "storage";
        forecast_id = "fct_1";
        weight_raw = pos 500;
        weight_normalised = pos 1000;
        calibration_score = pos 500;
        data_quality_score = pos 1000;
        regime_weight = pos 1000;
      }
      ∷ [];
  excluded_desk_ids = [];
  abstaining_desk_ids = [];
  regime_posterior = ("normal", pos 1000) ∷ [];
  contract_hash = "c";
  release_calendar_version = "v";
}

abbrev params : ControlLawParams fixed
params = record { k = pos 1000; sigma_floor = pos 10; roll_liquidity_multiplier = pos 1000 }

-- The strength of 2.5 is halved by the calibration, and clipped.
compute_target_risk_budget-run :
    compute_target_risk_budget fixed sum_fixed (pos 3290) family params none none
    ≡ ok (some (pos 1000))
unfolding compute_target_risk_budget budget_of multiplier_or weighted_avg clip_unit mul_fixed
    div_fixed ◌-ℤ◌ ◌+ℤ◌
compute_target_risk_budget-run = refl

compute_target_risk_budget-IsClipped_example :
    ((◌≡◌ {A = Option ℤ} (some (pos 1000)) none)
      × ((family.abstain ≡ true) ⊎ (family.quantile_vector ≡ none)))
    ⊎ ((x : ℤ) × (qv : List ℤ) × (some (pos 1000) ≡ some x)
        × (family.abstain ≡ false)
        × (family.quantile_vector ≡ some qv)
        × IsClipped fixed fixed_laws x)
compute_target_risk_budget-IsClipped_example =
    compute_target_risk_budget-IsClipped fixed fixed_laws sum_fixed (pos 3290) family params none
      none (some (pos 1000)) compute_target_risk_budget-run

abbrev adapter : AdapterParams fixed
adapter = record {
  reference_risk_5d_usd = pos 50000000;
  contract_multiplier_bbl = pos 1000000;
  rounding = "nearest";
  max_abs_lots = some (pos 3);
}

abbrev lots : TargetLotResult fixed
lots = record { rounded_lots = pos 3; raw_lots = pos 17857; effective_b = pos 168 }

target_lots-run : target_lots fixed fixed_rounding (pos 1000) (pos 70000) (pos 40) adapter ≡ ok lots
unfolding target_lots cap_lots clip_unit mul_fixed div_fixed neg
target_lots-run = refl

target_lots-IsClipped_example :
    ((leb_ℤ (neg (pos 3)) lots.rounded_lots && leb_ℤ lots.rounded_lots (pos 3)) ≡ true)
    × IsClipped fixed fixed_laws lots.effective_b
    × ((fixed.leb (fixed.neg fixed.one) (pos 1000) && fixed.leb (pos 1000) fixed.one) ≡ true)
target_lots-IsClipped_example =
    target_lots-IsClipped fixed fixed_laws fixed_rounding (pos 1000) (pos 70000) (pos 40) adapter
      (pos 3) lots refl refl target_lots-run
