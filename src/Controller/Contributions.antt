-- ===== src/Controller/Contributions.antt =====
-- Which forecasts a decision rests on, and the signal that they give.
use mathlib.Core.List.{append-nil, append_assoc, Memᴰ}
use multi_desk_trading.Common.{
  String, true, false, ◌≡◌, refl, sym, ap, ◌∙◌, inl, inr, Option, none, some, List, [], ◌∷◌, ◌++◌,
  map, ok, Bool-cases, Option-cases, if◌then◌else◌, arith,
}
use multi_desk_trading.Common.Float.{FloatOps}
use multi_desk_trading.Common.Time.{Datetime, is_naive}
use multi_desk_trading.Controller.{
  WeightRow, Forecast, ControllerParams, Decision, get_forecast, is_skipped, add_row, combine, size,
  decide,
}
use multi_desk_trading.Controller.Keys.{IsFor, IsKeyed, get_forecast-found, get_forecast_only}

module _ (F : FloatOps) where
  -- The row rests on the forecast: one of the recent forecasts, of the row's desk and target, that is
  -- not stale, while the row's weight is not equal to 0.0.
  pub record RestsOn (forecasts : List (Forecast F)) (row : WeightRow F) (f : Forecast F)
      : Type 0 where
    pub recent : Memᴰ f forecasts
    pub is_for : IsFor F row f
    pub fresh : f.staleness ≡ false
    pub weighs : ¬ ((F.leb row.weight F.zero ≡ true) × (F.leb F.zero row.weight ≡ true))

  -- The rows that rest on a forecast, with it, in their order; the other rows rest on none.
  pub data IsUsed (forecasts : List (Forecast F))
      : List (WeightRow F) → List (WeightRow F × Forecast F) → Type 0 where
    done : IsUsed forecasts [] []
    taken :
        {row : WeightRow F} {rows : List (WeightRow F)} {f : Forecast F}
        {used : List (WeightRow F × Forecast F)}
        → RestsOn forecasts row f
        → IsUsed forecasts rows used
        → IsUsed forecasts (row ∷ rows) ((row, f) ∷ used)
    left :
        {row : WeightRow F} {rows : List (WeightRow F)} {used : List (WeightRow F × Forecast F)}
        → ((f : Forecast F) → ¬ RestsOn forecasts row f)
        → IsUsed forecasts rows used
        → IsUsed forecasts (row ∷ rows) used

  -- The products of weight and estimate, added up in order.
  abbrev pub add_products : F.Float → List (WeightRow F × Forecast F) → F.Float
  add_products total [] = total
  add_products total ((row, f) ∷ used) =
      add_products (F.add total (F.mul row.weight f.point_estimate)) used

  abbrev pub ids_of : List (WeightRow F × Forecast F) → List String
  ids_of used = map (λ pair. pair.1.forecast_id) used

module _ (F : FloatOps) (forecasts : List (Forecast F)) (keyed : IsKeyed F forecasts) where
  -- A row that the loop skips rests on no forecast.
  skipped_none :
      (row : WeightRow F) (found : Option (Forecast F))
      → get_forecast F forecasts row ≡ found
      → is_skipped F row found ≡ true
      → (f : Forecast F) → ¬ RestsOn F forecasts row f
  skipped_none row found looked skipped f rests =
      let same : get_forecast F forecasts row ≡ some f =
        get_forecast_only F forecasts row f keyed rests.recent rests.is_for in
      let skips : is_skipped F row (some f) ≡ true =
        ap (is_skipped F row) (sym same ∙ looked) ∙ skipped in
      rests.weighs (ground (arith, rests.fresh))

  -- A row that it does not skip rests on the forecast that it found.
  kept_rests :
      (row : WeightRow F) (f : Forecast F)
      → get_forecast F forecasts row ≡ some f
      → is_skipped F row (some f) ≡ false
      → RestsOn F forecasts row f
  kept_rests row f looked kept =
      let (m, for) = get_forecast-found F forecasts row f looked in
      record { recent = m; is_for = for; fresh = ground arith; weighs = λ zero. ground arith }

  -- What the loop leaves, from what it had.
  abbrev Leaves : List (WeightRow F) → F.Float × List String → Type 0
  Leaves rows acc =
      (used : List (WeightRow F × Forecast F)) × IsUsed F forecasts rows used
      × ((combine F forecasts rows acc).0 ≡ add_products F acc.0 used)
      × ((combine F forecasts rows acc).1 ≡ acc.1 ++ ids_of F used)

  add_row_skipped :
      (row : WeightRow F) (found : Option (Forecast F)) (acc : F.Float × List String)
      → is_skipped F row found ≡ true
      → add_row F row found acc ≡ acc
  unfolding add_row
  add_row_skipped row none acc h = refl
  add_row_skipped row (some f) acc h = rw (h, if◌then◌else◌)

  -- A row that the loop goes past: nothing is added for it.
  Leaves-left :
      (row : WeightRow F) (rows : List (WeightRow F)) (acc : F.Float × List String)
      → is_skipped F row (get_forecast F forecasts row) ≡ true
      → Leaves rows acc
      → Leaves (row ∷ rows) acc
  unfolding combine
  Leaves-left row rows acc skipped (used, is_used, signal, ids) =
      let same = add_row_skipped row (get_forecast F forecasts row) acc skipped in
      (
        used,
        left (skipped_none row (get_forecast F forecasts row) refl skipped) is_used,
        ap (λ next. (combine F forecasts rows next).0) same ∙ signal,
        ap (λ next. (combine F forecasts rows next).1) same ∙ ids,
      )

  -- A row whose forecast it takes: the product and the identifier are added.
  Leaves-taken :
      (row : WeightRow F) (rows : List (WeightRow F)) (acc : F.Float × List String) (f : Forecast F)
      → get_forecast F forecasts row ≡ some f
      → is_skipped F row (some f) ≡ false
      → Leaves rows (F.add acc.0 (F.mul row.weight f.point_estimate), acc.1 ++ f.forecast_id ∷ [])
      → Leaves (row ∷ rows) acc
  unfolding combine add_row
  Leaves-taken row rows acc f looked kept (used, is_used, signal, ids) =
      let added : add_row F row (get_forecast F forecasts row) acc
          ≡ (F.add acc.0 (F.mul row.weight f.point_estimate), acc.1 ++ f.forecast_id ∷ []) =
        rw (looked, kept, if◌then◌else◌) in
      (
        (row, f) ∷ used,
        taken (kept_rests row f looked kept) is_used,
        ap (λ next. (combine F forecasts rows next).0) added ∙ signal,
        ap (λ next. (combine F forecasts rows next).1) added
            ∙ ids
            ∙ append_assoc acc.1 (f.forecast_id ∷ []) (ids_of F used),
      )

  combine-IsUsed : (rows : List (WeightRow F)) (acc : F.Float × List String) → Leaves rows acc
  unfolding combine
  combine-IsUsed [] acc = ([], done, refl, sym (append-nil acc.1))
  combine-IsUsed (row ∷ rows) acc =
      elim (Bool-cases (is_skipped F row (get_forecast F forecasts row))) [
        | inl skipped ↦ Leaves-left row rows acc skipped (combine-IsUsed rows acc)
        | inr kept ↦ elim (Option-cases (get_forecast F forecasts row)) [
          | inl missing ↦ absurd (cc (ap (is_skipped F row) missing ∙ refl, kept))
          | inr (f, looked) ↦
              Leaves-taken row rows acc f looked (ap (is_skipped F row) (sym looked) ∙ kept)
                (combine-IsUsed rows _)
        ]
      ]

  -- Where the recent forecasts have different keys, at an aware time, with parameters and at least one
  -- weight row, a decision is returned. The forecasts that it names are, in the order of the weight
  -- rows, exactly those that a row rests on: of the row's desk and target, not stale, and of a weight
  -- that is not equal to 0.0. Its signal adds up, in that order, the products of their weights and
  -- estimates, and its position is the signal by the regime's gain, clipped at the regime's limit.
  pub decide-IsUsed :
      (clip : F.Float → F.Float → F.Float → F.Float) (sha256_hex : String → String) (now : Datetime)
      (regime : String) (row : WeightRow F) (rows : List (WeightRow F))
      (params : ControllerParams F) (decision_id : String)
      → is_naive now ≡ false
      → (d : Decision F) × (used : List (WeightRow F × Forecast F)) × (decide F clip sha256_hex now
            regime forecasts
            (row ∷ rows)
            (some params)
            decision_id
          ≡ ok d)
        × IsUsed F forecasts (row ∷ rows) used
        × (d.input_forecast_ids ≡ ids_of F used)
        × (d.combined_signal ≡ add_products F F.zero used)
        × (d.position_size
            ≡ clip
                (F.mul params.k_regime d.combined_signal)
                (F.neg params.pos_limit_regime)
                params.pos_limit_regime)
  unfolding decide size
  decide-IsUsed clip sha256_hex now regime row rows params decision_id h =
      let (used, is_used, signal, ids) = combine-IsUsed (row ∷ rows) (F.zero, []) in
      (
        size F clip sha256_hex now regime forecasts (row ∷ rows) decision_id params,
        used,
        rw h,
        is_used,
        ids,
        signal,
        refl,
      )
