-- ===== src/Synthesiser/Pooling.antt =====
-- The stages of `synthesise_family`: the posterior, the cascade of abstentions, the exclusion of
-- desks and the pool.
use text.Mathlib.Text.{◌==◌ as str_eq}
use multi_desk_trading.Common.{
  String, Bool, true, false, not, ◌||◌, Option, none, some, List, [], ◌∷◌, map, Result, ok, err,
  raise_if, ◌>>◌, ◌>>=◌, if◌then◌else◌, keep,
}
use multi_desk_trading.Common.Float.{FloatOps}
use multi_desk_trading.Contracts.{ForecastV2, fixed_quantile_levels}
use multi_desk_trading.Synthesiser.{
  SynthesisError, family_input_mismatch, regime_posterior_error, validation, cascade, all_excluded,
  no_desks, is_empty, assert_compatible, DeskContribution, FamilyForecast, is_valid_contribution,
  is_near_one, make_family_forecast,
}

module _ (F : FloatOps) where
  open F use {Float}

  -- The posterior that is used, and its checks.
  abbrev pub posterior_or_normal : Option (List (String × Float)) → List (String × Float)
  posterior_or_normal (some (entry ∷ entries)) = entry ∷ entries
  posterior_or_normal _ = ("normal", F.one) ∷ []

  abbrev pub is_out_of_unit : List Float → Bool
  is_out_of_unit [] = false
  is_out_of_unit (x ∷ xs) = F.ltb x F.zero || F.ltb F.one x || is_out_of_unit xs

  -- `regime_weight_per_desc_guard`
  abbrev pub regime_weight_per_desc_guard : Float → Float
  regime_weight_per_desc_guard w = w

  abbrev pub raw_weight : ForecastV2 F → Float
  raw_weight f =
      F.mul (F.mul f.calibration_score f.data_quality_score) (regime_weight_per_desc_guard F.one)

  -- `w_raw <= 0.0`
  abbrev pub is_excluded : ForecastV2 F → Bool
  is_excluded f = F.leb (raw_weight f) F.zero

  abbrev pub contribution_of : Float → ForecastV2 F → DeskContribution F
  contribution_of total_raw f = record {
    desk_id = f.desk_id;
    forecast_id = f.forecast_id;
    weight_raw = raw_weight f;
    weight_normalised = F.div (raw_weight f) total_raw;
    calibration_score = f.calibration_score;
    data_quality_score = f.data_quality_score;
    regime_weight = F.one;
  }

  unfoldable pub build_contributions :
      Float → List (ForecastV2 F) → Result SynthesisError (List (DeskContribution F))
  build_contributions total_raw [] = ok []
  build_contributions total_raw (f ∷ fs) = do
    raise_if (not (is_valid_contribution F (contribution_of total_raw f))) validation
    rest ← build_contributions total_raw fs
    ok (contribution_of total_raw f ∷ rest)

  -- What every family forecast of a call has: the shared fields, and the provenance.
  abbrev pub family_forecast_like :
      ForecastV2 F → List (String × Float) → String → String → FamilyForecast F
  family_forecast_like ref rp contract_hash release_calendar_version = record {
    family_id = ref.family_id;
    decision_ts = ref.decision_ts;
    target_variable = ref.target_variable;
    target_horizon = ref.target_horizon;
    decision_unit = ref.decision_unit;
    quantile_levels = fixed_quantile_levels F;
    quantile_vector = none;
    abstain = true;
    abstain_reason = none;
    contributing = [];
    excluded_desk_ids = [];
    abstaining_desk_ids = [];
    regime_posterior = rp;
    contract_hash = contract_hash;
    release_calendar_version = release_calendar_version;
  }

  abbrev pub cascade_family : FamilyForecast F → List String → FamilyForecast F
  cascade_family shared ids = record shared {
    abstain_reason = some (cascade ids);
    abstaining_desk_ids = ids;
  }

  abbrev pub excluded_family : FamilyForecast F → List String → FamilyForecast F
  excluded_family shared excluded_ids = record shared {
    abstain_reason = some (if is_empty excluded_ids then no_desks else all_excluded excluded_ids);
    excluded_desk_ids = excluded_ids;
  }

  abbrev pub pooled_family :
      FamilyForecast F → List Float → List (DeskContribution F) → List String → FamilyForecast F
  pooled_family shared family_qv contributions excluded_ids = record shared {
    quantile_vector = some family_qv;
    abstain = false;
    contributing = contributions;
    excluded_desk_ids = excluded_ids;
  }

  module _ (sum : List Float → Float) where
    abbrev pub check_posterior : List (String × Float) → Result SynthesisError (Unit {0})
    check_posterior rp = do
      raise_if (is_empty rp) regime_posterior_error
      raise_if (is_out_of_unit (map (λ entry. entry.1) rp)) regime_posterior_error
      raise_if (not (is_near_one F (sum (map (λ entry. entry.1) rp)))) regime_posterior_error

    module _ (pool : List (Float × List Float) → Result SynthesisError (List Float)) where
      -- The stages after the cascade, on the forecasts, none of which abstains.
      unfoldable pub pool_family :
          FamilyForecast F → List (ForecastV2 F) → Result SynthesisError (FamilyForecast F)
      unfolding make_family_forecast build_contributions
      pool_family shared forecasts =
          let excluded_ids = map (λ f. f.desk_id) (keep is_excluded forecasts) in
          let raw_contribs = keep (λ f. not (is_excluded f)) forecasts in
          let total_raw = sum (map raw_weight raw_contribs) in
          if is_empty raw_contribs
          then make_family_forecast F sum (excluded_family shared excluded_ids)
          else (do
            family_qv ←
                pool (map (λ f. (F.div (raw_weight f) total_raw, f.quantile_vector)) raw_contribs)
            contributions ← build_contributions total_raw raw_contribs
            make_family_forecast F sum (pooled_family shared family_qv contributions excluded_ids))

      -- From the cascade on.
      unfoldable pub synthesise_stages :
          FamilyForecast F → List (ForecastV2 F) → Result SynthesisError (FamilyForecast F)
      unfolding make_family_forecast pool_family
      synthesise_stages shared forecasts =
          let ids = map (λ f. f.desk_id) (keep (λ f. f.abstain) forecasts) in
          if is_empty ids
          then pool_family shared forecasts
          else make_family_forecast F sum (cascade_family shared ids)

      unfoldable pub synthesise_family :
          List (ForecastV2 F)
          → Option (List (String × Float))
          → String
          → String
          → Result SynthesisError (FamilyForecast F)
      unfolding assert_compatible synthesise_stages
      synthesise_family [] regime_posterior contract_hash release_calendar_version =
          err family_input_mismatch
      synthesise_family (ref ∷ rest) regime_posterior contract_hash release_calendar_version = do
        assert_compatible F (ref ∷ rest)
        raise_if (not (str_eq contract_hash ref.contract_hash)) family_input_mismatch
        raise_if (not (str_eq release_calendar_version ref.release_calendar_version))
            family_input_mismatch
        check_posterior (posterior_or_normal regime_posterior)
        synthesise_stages
            (family_forecast_like ref (posterior_or_normal regime_posterior) contract_hash
              release_calendar_version)
            (ref ∷ rest)
