-- ===== src/Controller/Keys.antt =====
-- How a weight row finds its forecast by desk and target.
use mathlib.Core.List.{Memᴰ}
use text.Mathlib.Text.{◌==◌ as str_eq}
use text.Mathlib.TextEquality.{eq_iff}
use multi_desk_trading.Common.{
  Bool, true, false, ◌&&◌, ◌≡◌, sym, ap, subst, ◌∙◌, inl, inr, some, List, [], ◌∷◌, All, Bool-cases,
  if◌then◌else◌, arith,
}
use multi_desk_trading.Common.Float.{FloatOps}
use multi_desk_trading.Controller.{WeightRow, Forecast, get_forecast}

module _ (F : FloatOps) where
  -- The forecast has the row's key.
  abbrev pub IsFor : WeightRow F → Forecast F → Type 0
  IsFor row f = (f.desk_name ≡ row.desk_name) × (f.target_variable ≡ row.target_variable)

  -- The forecasts are the values of a dictionary: no two of them have the same key.
  abbrev pub IsKeyed : List (Forecast F) → Type 0
  IsKeyed [] = Unit
  IsKeyed (f ∷ fs) =
      All (λ g. ¬ ((g.desk_name ≡ f.desk_name) × (g.target_variable ≡ f.target_variable))) fs
      × IsKeyed fs

  abbrev has_key : Forecast F → WeightRow F → Bool
  has_key f row = str_eq f.desk_name row.desk_name && str_eq f.target_variable row.target_variable

  has_key-true : (f : Forecast F) (row : WeightRow F) → has_key f row ≡ true → IsFor row f
  has_key-true f row h =
      ground (arith, eq_iff f.desk_name row.desk_name, eq_iff f.target_variable row.target_variable)

  IsFor-has_key : (f : Forecast F) (row : WeightRow F) → IsFor row f → has_key f row ≡ true
  IsFor-has_key f row for =
      ground (arith, eq_iff f.desk_name row.desk_name, eq_iff f.target_variable row.target_variable)

  pub get_forecast-found :
      (fs : List (Forecast F)) (row : WeightRow F) (f : Forecast F)
      → get_forecast F fs row ≡ some f
      → Memᴰ f fs × IsFor row f
  unfolding get_forecast
  get_forecast-found [] row f h = cc
  get_forecast-found (g ∷ fs) row f h = elim (Bool-cases (has_key g row)) [
    | inl here ↦
        let e : g ≡ f = cc (rw (here, if◌then◌else◌) at h) in
        (Memᴰ.head (sym e), subst (IsFor row) e (has_key-true g row here))
    | inr other ↦
        let (m, for) = get_forecast-found fs row f (rw (other, if◌then◌else◌) at h) in
        (Memᴰ.tail m, for)
  ]

  -- A forecast of the row's key differs from one that no later forecast shares the key of.
  other_key :
      (g f : Forecast F) (fs : List (Forecast F)) (row : WeightRow F)
      → All (λ k. ¬ ((k.desk_name ≡ g.desk_name) × (k.target_variable ≡ g.target_variable))) fs
      → Memᴰ f fs
      → IsFor row f
      → has_key g row ≡ false
  other_key g f (k ∷ fs) row fresh (Memᴰ.head e) for = elim (Bool-cases (has_key g row)) [
    | inl same ↦
        let (desk, target) = has_key-true g row same in
        let (desk', target') : IsFor row k = subst (IsFor row) e for in
        absurd (fresh.0 (desk' ∙ sym desk, target' ∙ sym target))
    | inr other ↦ other
  ]
  other_key g f (k ∷ fs) row fresh (Memᴰ.tail m) for = other_key g f fs row fresh.1 m for
  other_key g f [] row fresh m for = elim m [ ]

  pub get_forecast_only :
      (fs : List (Forecast F)) (row : WeightRow F) (f : Forecast F)
      → IsKeyed fs
      → Memᴰ f fs
      → IsFor row f
      → get_forecast F fs row ≡ some f
  unfolding get_forecast
  get_forecast_only [] row f keyed m for = elim m [ ]
  get_forecast_only (g ∷ fs) row f keyed (Memᴰ.head e) for =
      rw (IsFor-has_key g row (subst (IsFor row) e for), if◌then◌else◌) (ap some (sym e))
  get_forecast_only (g ∷ fs) row f keyed (Memᴰ.tail m) for =
      rw (other_key g f fs row keyed.0 m for, if◌then◌else◌)
        (get_forecast_only fs row f keyed.1 m for)
