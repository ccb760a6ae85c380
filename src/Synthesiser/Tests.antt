-- ===== src/Synthesiser/Tests.antt =====
-- Families of two desks on numbers of three decimals, and the theorems at them.
use multi_desk_trading.Common.{
  String, Bool, true, false, ◌≡◌, ◌↔◌, refl, none, some, List, [], ◌∷◌, map, ok, Result,
}
use multi_desk_trading.Common.Int.{ℤ, pos, ◌+ℤ◌}
use multi_desk_trading.Common.Float.Fixed.{fixed, fixed_laws, mul_fixed, div_fixed}
use multi_desk_trading.Contracts.{log_return, ForecastV2, fixed_quantile_levels}
use multi_desk_trading.Synthesiser.{
  SynthesisError, FamilyForecast, cascade, assert_compatible, make_family_forecast,
}
use multi_desk_trading.Synthesiser.Pooling.{
  build_contributions, pool_family, synthesise_stages, synthesise_family,
}
use multi_desk_trading.Synthesiser.Compat.{IsFamily, assert_compatible-IsFamily}
use multi_desk_trading.Synthesiser.Cascade.{IsSynthesis, IsValid, synthesise_family-IsSynthesis}

abbrev desk : String → Bool → ℤ → ForecastV2 fixed
desk desk_id abstain score = record {
  forecast_id = "fct_1";
  family_id = "oil";
  desk_id = desk_id;
  decision_ts = pos 10;
  valid_until_ts = pos 99;
  target_variable = "WTI_FRONT_1W_LOG_RETURN";
  target_horizon = "5d";
  decision_unit = log_return;
  quantile_levels = fixed_quantile_levels fixed;
  quantile_vector = map (λ n. pos n) (0 ∷ 10 ∷ 20 ∷ 30 ∷ 40 ∷ 50 ∷ 60 ∷ []);
  calibration_score = score;
  data_quality_score = pos 1000;
  abstain = abstain;
  contract_hash = "c";
  release_calendar_version = "v";
}

-- The sum of a list, and a pool that returns the vector of the first desk.
abbrev sum_fixed : List ℤ → ℤ
sum_fixed [] = pos 0
sum_fixed (x ∷ xs) = x +ℤ sum_fixed xs

abbrev pool_first : List (ℤ × List ℤ) → Result SynthesisError (List ℤ)
pool_first [] = ok []
pool_first (x ∷ xs) = ok x.1

abbrev two_desks : List (ForecastV2 fixed)
two_desks = desk "storage" false (pos 500) ∷ desk "regime" false (pos 0) ∷ []

-- The second desk has no weight.
abbrev pooled : FamilyForecast fixed
pooled = record {
  family_id = "oil";
  decision_ts = pos 10;
  target_variable = "WTI_FRONT_1W_LOG_RETURN";
  target_horizon = "5d";
  decision_unit = log_return;
  quantile_levels = fixed_quantile_levels fixed;
  quantile_vector = some (map (λ n. pos n) (0 ∷ 10 ∷ 20 ∷ 30 ∷ 40 ∷ 50 ∷ 60 ∷ []));
  abstain = false;
  abstain_reason = none;
  contributing =
      record {
        desk_id = "storage";
        forecast_id = "fct_1";
        weight_raw = pos 500;
        weight_normalised = pos 1000;
        calibration_score = pos 500;
        data_quality_score = pos 1000;
        regime_weight = pos 1000;
      }
      ∷ [];
  excluded_desk_ids = "regime" ∷ [];
  abstaining_desk_ids = [];
  regime_posterior = ("normal", pos 1000) ∷ [];
  contract_hash = "c";
  release_calendar_version = "v";
}

synthesise_family-run :
    synthesise_family fixed sum_fixed pool_first two_desks none "c" "v" ≡ ok pooled
unfolding synthesise_family synthesise_stages pool_family make_family_forecast build_contributions
    assert_compatible ◌+ℤ◌ mul_fixed div_fixed
synthesise_family-run = refl

synthesise_family-IsSynthesis_example :
    IsSynthesis fixed sum_fixed pool_first two_desks pooled
    × IsValid fixed sum_fixed pooled
    × (pooled.contract_hash ≡ "c")
synthesise_family-IsSynthesis_example =
    synthesise_family-IsSynthesis fixed sum_fixed pool_first two_desks none "c" "v" pooled
      synthesise_family-run

assert_compatible-IsFamily_example :
    (assert_compatible fixed two_desks ≡ ok tt) ↔ IsFamily fixed fixed_laws two_desks
assert_compatible-IsFamily_example = assert_compatible-IsFamily fixed fixed_laws two_desks

-- One desk that abstains makes the family abstain.
synthesise_family-cascade :
    (f : FamilyForecast fixed) × (synthesise_family fixed sum_fixed pool_first
        (desk "storage" false (pos 500) ∷ desk "regime" true (pos 500) ∷ [])
        none
        "c"
        "v"
      ≡ ok f)
    × (f.abstain_reason ≡ some (cascade ("regime" ∷ [])))
unfolding synthesise_family synthesise_stages make_family_forecast assert_compatible ◌+ℤ◌
synthesise_family-cascade = (
  record pooled {
    quantile_vector = none;
    abstain = true;
    abstain_reason = some (cascade ("regime" ∷ []));
    contributing = [];
    excluded_desk_ids = [];
    abstaining_desk_ids = "regime" ∷ [];
  },
  refl,
  refl,
)
