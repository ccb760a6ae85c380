-- ===== src/Sizing.antt =====
-- The control law, v2/execution/control_law.py, and the execution adapter, v2/execution/adapter.py:
-- from a family forecast to a target risk budget, and from that to lots.
pub mod Bounds
mod Tests
use text.Mathlib.Text.{◌==◌ as str_eq}
use multi_desk_trading.Common.{
  ℕ, zero, suc, String, Bool, true, false, not, ◌&&◌, ◌||◌, Option, none, some, List, [], ◌∷◌, map,
  Result, ok, err, raise_if, ◌>>◌, ◌>>=◌, if◌then◌else◌,
}
use multi_desk_trading.Common.Int.{ℤ, neg, ltb_ℤ}
use multi_desk_trading.Common.Float.{FloatOps}
use multi_desk_trading.Contracts.{eq_float}
use multi_desk_trading.Synthesiser.{FamilyForecast, is_empty}

-- Each exception of the two modules.
pub data SizingError : Type 0 where
  sigma_floor_range roll_multiplier_range index_error : SizingError
  reference_risk_range contract_multiplier_range unknown_rounding : SizingError
  b_t_range price_range market_vol_range zero_division not_an_integer overflow : SizingError

-- Python's conversions between floats and integers; `none` where they raise.
pub record RoundOps (F : FloatOps) : Type 0 where
  -- `int(round(x))`, `int(math.floor(x))`, `int(math.ceil(x))`
  pub nearest : F.Float → Option ℤ
  pub floor : F.Float → Option ℤ
  pub ceil : F.Float → Option ℤ
  pub of_int : ℤ → Option F.Float

abbrev pub or_raise : {A : Type 0} → Option A → SizingError → Result SizingError A
or_raise none e = err e
or_raise (some a) e = ok a

abbrev pub get_elem? : {A : Type 0} → List A → ℕ → Option A
get_elem? [] i = none
get_elem? (x ∷ xs) zero = some x
get_elem? (x ∷ xs) (suc i) = get_elem? xs i

module _ (F : FloatOps) where
  open F use {Float}

  pub record ControlLawParams : Type 0 where
    pub k : Float
    pub sigma_floor : Float
    pub roll_liquidity_multiplier : Float

  -- The checks of `__post_init__`.
  unfoldable pub make_control_law_params :
      Float → Float → Float → Result SizingError ControlLawParams
  make_control_law_params k sigma_floor roll_liquidity_multiplier = do
    raise_if (F.leb sigma_floor F.zero) sigma_floor_range
    raise_if (not (F.leb F.zero roll_liquidity_multiplier && F.leb roll_liquidity_multiplier F.one))
        roll_multiplier_range
    ok (record {
      k = k;
      sigma_floor = sigma_floor;
      roll_liquidity_multiplier = roll_liquidity_multiplier;
    })

  -- `max(a, b)`: the first argument, unless the second is greater.
  abbrev pub max_float : Float → Float → Float
  max_float a b = if F.ltb a b then b else a

  -- The last lines of `compute_target_risk_budget`, and those of `target_lots` on `effective_b`.
  unfoldable pub clip_unit : Float → Float
  clip_unit raw =
      if F.ltb F.one raw then F.one else (if F.ltb raw (F.neg F.one) then F.neg F.one else raw)

  abbrev pub products : List Float → List Float → List Float
  products (w ∷ ws) (v ∷ vs) = F.mul w v ∷ products ws vs
  products _ _ = []

  -- How the budget is computed: the built-in sum and the width of the quantiles of the normal
  -- distribution, which scipy gives, are arguments.
  module _ (sum : List Float → Float) (z_90_05_width : Float) where
    unfoldable pub weighted_avg : List Float → List Float → Float
    weighted_avg weights values =
        let total = sum weights in
        if is_empty weights || is_empty values
        then F.one
        else (if F.leb total F.zero then F.one else F.div (sum (products weights values)) total)

    unfoldable pub multiplier_or : Option Float → List Float → List Float → Float
    unfolding weighted_avg
    multiplier_or none weights values = weighted_avg weights values
    multiplier_or (some given) weights values = given

    unfoldable pub budget_of :
        FamilyForecast F
        → List Float
        → ControlLawParams
        → Option Float
        → Option Float
        → Result SizingError Float
    unfolding multiplier_or clip_unit
    budget_of family qv params calibration_multiplier data_quality_multiplier = do
      q05 ← or_raise (get_elem? qv 1) index_error
      q50 ← or_raise (get_elem? qv 3) index_error
      q95 ← or_raise (get_elem? qv 5) index_error
      let sigma_pred = F.div (F.sub q95 q05) z_90_05_width
      let sigma_eff = max_float sigma_pred params.sigma_floor
      let s = F.div q50 sigma_eff
      let weights = map (λ c. c.weight_normalised) family.contributing
      let calibration =
          multiplier_or calibration_multiplier weights
            (map (λ c. c.calibration_score) family.contributing)
      let data_quality =
          multiplier_or data_quality_multiplier weights
            (map (λ c. c.data_quality_score) family.contributing)
      ok (
          clip_unit (
            F.mul (F.mul (F.mul (F.mul params.k s) calibration) data_quality)
              params.roll_liquidity_multiplier))

    unfoldable pub compute_target_risk_budget :
        FamilyForecast F
        → ControlLawParams
        → Option Float
        → Option Float
        → Result SizingError (Option Float)
    unfolding budget_of
    compute_target_risk_budget family params calibration_multiplier data_quality_multiplier =
        if family.abstain then ok none else elim family.quantile_vector [
          | none ↦ ok none
          | some qv ↦ do
            b ← budget_of family qv params calibration_multiplier data_quality_multiplier
            ok (some b)
        ]

  pub record AdapterParams : Type 0 where
    pub reference_risk_5d_usd : Float
    pub contract_multiplier_bbl : Float
    pub rounding : String
    pub max_abs_lots : Option ℤ

  -- The checks of `__post_init__`.
  unfoldable pub make_adapter_params :
      Float → Float → String → Option ℤ → Result SizingError AdapterParams
  make_adapter_params reference_risk multiplier rounding max_abs_lots = do
    raise_if (F.leb reference_risk F.zero) reference_risk_range
    raise_if (F.leb multiplier F.zero) contract_multiplier_range
    raise_if (not (str_eq rounding "nearest" || str_eq rounding "floor" || str_eq rounding "ceil"))
        unknown_rounding
    ok (record {
      reference_risk_5d_usd = reference_risk;
      contract_multiplier_bbl = multiplier;
      rounding = rounding;
      max_abs_lots = max_abs_lots;
    })

  pub record TargetLotResult : Type 0 where
    pub rounded_lots : ℤ
    pub raw_lots : Float
    pub effective_b : Float

  module _ (R : RoundOps F) where
    abbrev pub round_lots : String → Float → Option ℤ
    round_lots rounding raw =
        if str_eq rounding "nearest"
        then R.nearest raw
        else (if str_eq rounding "floor" then R.floor raw else R.ceil raw)

    -- The hard cap.
    unfoldable pub cap_lots : Option ℤ → ℤ → ℤ
    unfolding neg
    cap_lots none rounded = rounded
    cap_lots (some cap) rounded =
        if ltb_ℤ cap rounded then cap else (if ltb_ℤ rounded (neg cap) then neg cap else rounded)

    unfoldable pub target_lots :
        Float → Float → Float → AdapterParams → Result SizingError TargetLotResult
    unfolding cap_lots clip_unit
    target_lots b_t price market_vol_5d params = do
      raise_if (not (F.leb (F.neg F.one) b_t && F.leb b_t F.one)) b_t_range
      raise_if (F.leb price F.zero) price_range
      raise_if (F.leb market_vol_5d F.zero) market_vol_range
      let denom = F.mul (F.mul params.contract_multiplier_bbl price) market_vol_5d
      raise_if (eq_float F denom F.zero) zero_division
      let raw = F.div (F.mul b_t params.reference_risk_5d_usd) denom
      rounded ← or_raise (round_lots params.rounding raw) not_an_integer
      let lots = cap_lots params.max_abs_lots rounded
      as_float ← or_raise (R.of_int lots) overflow
      ok (record {
        rounded_lots = lots;
        raw_lots = raw;
        effective_b = clip_unit (F.div (F.mul as_float denom) params.reference_risk_5d_usd);
      })
