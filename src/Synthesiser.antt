-- ===== src/Synthesiser.antt =====
-- The family synthesiser, v2/synthesiser/compat.py and v2/synthesiser/linear_pool.py. The pooling of
-- the quantile vectors, v2/synthesiser/pool.py, computes with numpy and is an argument.
pub mod Pooling
pub mod Compat
pub mod Cascade
mod Tests
use text.Mathlib.Text.{◌==◌ as str_eq}
use multi_desk_trading.Common.{
  String, Bool, true, false, not, ◌&&◌, ◌||◌, Option, none, some, List, [], ◌∷◌, map, Result, ok,
  err, raise_if, ◌>>◌, ◌>>=◌, if◌then◌else◌, keep, length, ◌==◌,
}
use multi_desk_trading.Common.Int.{ℤ, leb_ℤ}
use multi_desk_trading.Common.Float.{FloatOps}
use multi_desk_trading.Contracts.{
  DecisionUnit, ForecastV2, same_unit, eq_floats, fixed_quantile_levels,
}

-- FamilyInputMismatchError, a ValueError on the posterior or in the pool, or a check of the class of
-- contributions or of family forecasts.
pub data SynthesisError : Type 0 where
  family_input_mismatch regime_posterior_error pool_error validation : SynthesisError

-- The reasons for which a family abstains; each f-string is its constructor.
pub data AbstainReason : Type 0 where
  cascade all_excluded : List String → AbstainReason
  no_desks : AbstainReason
  message : String → AbstainReason

-- `not reason`
abbrev pub is_empty_reason : AbstainReason → Bool
is_empty_reason (message reason) = str_eq reason ""
is_empty_reason _ = false

abbrev pub is_empty {ℓ} : {A : Type ℓ} → List A → Bool
is_empty [] = true
is_empty (x ∷ xs) = false

module _ (F : FloatOps) where
  open F use {Float}

  -- The checks of one forecast against the first.
  abbrev pub agrees : ForecastV2 F → ForecastV2 F → Bool
  agrees ref f =
      str_eq f.family_id ref.family_id
      && str_eq f.target_variable ref.target_variable
      && str_eq f.target_horizon ref.target_horizon
      && same_unit f.decision_unit ref.decision_unit
      && eq_floats F f.quantile_levels ref.quantile_levels
      && (leb_ℤ f.decision_ts ref.decision_ts && leb_ℤ ref.decision_ts f.decision_ts)
      && str_eq f.contract_hash ref.contract_hash
      && str_eq f.release_calendar_version ref.release_calendar_version

  abbrev pub all_agree : ForecastV2 F → List (ForecastV2 F) → Bool
  all_agree ref [] = true
  all_agree ref (f ∷ fs) = agrees ref f && all_agree ref fs

  unfoldable pub assert_compatible : List (ForecastV2 F) → Result SynthesisError (Unit {0})
  assert_compatible [] = err family_input_mismatch
  assert_compatible (ref ∷ rest) = do
    raise_if (not (all_agree ref rest)) family_input_mismatch
    raise_if (not (eq_floats F ref.quantile_levels (fixed_quantile_levels F))) family_input_mismatch

  pub record DeskContribution : Type 0 where
    pub desk_id : String
    pub forecast_id : String
    pub weight_raw : Float
    pub weight_normalised : Float
    pub calibration_score : Float
    pub data_quality_score : Float
    pub regime_weight : Float

  -- `0.0 <= x <= 1.0`
  abbrev pub is_unit_interval : Float → Bool
  is_unit_interval x = F.leb F.zero x && F.leb x F.one

  abbrev pub is_valid_contribution : DeskContribution → Bool
  is_valid_contribution c =
      F.leb F.zero c.weight_raw
      && is_unit_interval c.weight_normalised
      && is_unit_interval c.calibration_score
      && is_unit_interval c.data_quality_score
      && is_unit_interval c.regime_weight

  pub record FamilyForecast : Type 0 where
    pub family_id : String
    pub decision_ts : ℤ
    pub target_variable : String
    pub target_horizon : String
    pub decision_unit : DecisionUnit
    pub quantile_levels : List Float
    pub quantile_vector : Option (List Float)
    pub abstain : Bool
    pub abstain_reason : Option AbstainReason
    pub contributing : List DeskContribution
    pub excluded_desk_ids : List String
    pub abstaining_desk_ids : List String
    pub regime_posterior : List (String × Float)
    pub contract_hash : String
    pub release_calendar_version : String

  -- `0.999 <= x <= 1.001`
  abbrev pub is_near_one : Float → Bool
  is_near_one x = F.leb (F.scientific 999 3) x && F.leb x (F.scientific 1001 3)

  -- `_check_invariants` of FamilyForecast, for a family that abstains and for one that does not.
  abbrev pub is_valid_abstention : FamilyForecast → Bool
  is_valid_abstention f =
      elim f.abstain_reason [ none ↦ false | some reason ↦ not (is_empty_reason reason) ]
      && elim f.quantile_vector [ none ↦ true | some _ ↦ false ]
      && is_empty f.contributing

  module _ (sum : List Float → Float) where
    abbrev pub is_valid_pool : FamilyForecast → Bool
    is_valid_pool f =
        elim f.abstain_reason [ none ↦ true | some _ ↦ false ]
        && elim f.quantile_vector [
          | none ↦ false
          | some quantiles ↦ length quantiles == length f.quantile_levels
        ]
        && not (is_empty f.contributing)
        && is_near_one (sum (map (λ c. c.weight_normalised) f.contributing))

    unfoldable pub make_family_forecast : FamilyForecast → Result SynthesisError FamilyForecast
    make_family_forecast f = do
      raise_if (not (if f.abstain then is_valid_abstention f else is_valid_pool f)) validation
      raise_if (not (eq_floats F f.quantile_levels (fixed_quantile_levels F))) validation
      ok f
