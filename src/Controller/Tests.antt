-- ===== src/Controller/Tests.antt =====
-- A decision on three weight rows, one of a retired desk and one of a stale forecast.
use text.Mathlib.Text.{◌==◌ as str_eq}
use text.Mathlib.TextEquality.{eq_iff}
use multi_desk_trading.Common.{
  String, arith, ◌≡◌, refl, true, false, some, List, [], ◌∷◌, ok, if◌then◌else◌,
}
use multi_desk_trading.Common.Int.{ℤ, pos, ◌+ℤ◌, leb_ℤ, neg}
use multi_desk_trading.Common.Float.Fixed.{fixed, mul_fixed}
use multi_desk_trading.Common.Time.{aware}
use multi_desk_trading.Controller.{
  WeightRow, Forecast, ControllerParams, Decision, get_forecast, add_row, combine, size, decide,
}
use multi_desk_trading.Controller.Keys.{IsKeyed}
use multi_desk_trading.Controller.Contributions.{IsUsed, ids_of, add_products, decide-IsUsed}

abbrev clip_fixed : ℤ → ℤ → ℤ → ℤ
clip_fixed x lo hi = if leb_ℤ x lo then lo else (if leb_ℤ hi x then hi else x)

abbrev recent : List (Forecast fixed)
recent =
    record {
      forecast_id = "f1";
      desk_name = "curve";
      target_variable = "wti";
      staleness = false;
      point_estimate = pos 2000;
    }
    ∷ record {
      forecast_id = "f2";
      desk_name = "supply";
      target_variable = "wti";
      staleness = true;
      point_estimate = pos 9000;
    }
    ∷ record {
      forecast_id = "f3";
      desk_name = "demand";
      target_variable = "wti";
      staleness = false;
      point_estimate = pos 7000;
    }
    ∷ []

abbrev first_weight : WeightRow fixed
first_weight = record { desk_name = "curve"; target_variable = "wti"; weight = pos 500 }

abbrev more_weights : List (WeightRow fixed)
more_weights =
    record { desk_name = "supply"; target_variable = "wti"; weight = pos 300 }
    ∷ record { desk_name = "demand"; target_variable = "wti"; weight = pos 0 }
    ∷ []

abbrev oil_params : ControllerParams fixed
oil_params = record {
  k_regime = pos 2000;
  pos_limit_regime = pos 1500;
  validation_artefact = "seed";
}

apart : (a b : String) → str_eq a b ≡ false → ¬ (a ≡ b)
apart a b h e = ground (arith, h, eq_iff a b)

recent-IsKeyed : IsKeyed fixed recent
recent-IsKeyed = (
  (
    (λ same. apart "supply" "curve" refl same.0),
    ((λ same. apart "demand" "curve" refl same.0), tt),
  ),
  (((λ same. apart "demand" "supply" refl same.0), tt), (tt, tt)),
)

decide-IsUsed_example :
    (d : Decision fixed) × (used : List (WeightRow fixed × Forecast fixed)) × (decide fixed
        clip_fixed
        (λ s. s)
        (aware (pos 1))
        "calm"
        recent
        (first_weight ∷ more_weights)
        (some oil_params)
        "d1"
      ≡ ok d)
    × IsUsed fixed recent (first_weight ∷ more_weights) used
    × (d.input_forecast_ids ≡ ids_of fixed used)
    × (d.combined_signal ≡ add_products fixed (pos 0) used)
    × (d.position_size
        ≡ clip_fixed
            (fixed.mul oil_params.k_regime d.combined_signal)
            (fixed.neg oil_params.pos_limit_regime)
            oil_params.pos_limit_regime)
decide-IsUsed_example =
    decide-IsUsed fixed recent recent-IsKeyed clip_fixed (λ s. s) (aware (pos 1)) "calm"
      first_weight more_weights oil_params "d1" refl

-- Only the first forecast counts, and the position is cut at the limit.
oil_size :
    (d : Decision fixed) × (decide fixed clip_fixed
        (λ s. s)
        (aware (pos 1))
        "calm"
        recent
        (first_weight ∷ more_weights)
        (some oil_params)
        "d1"
      ≡ ok d)
    × (d.combined_signal ≡ pos 1000)
    × (d.position_size ≡ pos 1500)
    × (d.input_forecast_ids ≡ "f1" ∷ [])
unfolding decide size combine get_forecast add_row ◌+ℤ◌ mul_fixed neg
oil_size = (_, refl, refl, refl, refl)
