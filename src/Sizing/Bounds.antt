-- ===== src/Sizing/Bounds.antt =====
-- The ranges of the budget, of the lots and of the effective budget.
use multi_desk_trading.Common.{
  Bool, true, false, not, ◌&&◌, ◌≡◌, ◌⊎◌, refl, sym, ap, inl, inr, Option, none, some, List, arith,
  Bool-cases, if◌then◌else◌, ok, raise_if, >>=-eq-ok, >>-eq-ok, ok-injective, subst, Option-cases,
}
use multi_desk_trading.Common.Int.{ℤ, pos, neg, leb_ℤ}
use multi_desk_trading.Common.Float.{FloatOps, FloatLaws}
use multi_desk_trading.Contracts.{eq_float}
use multi_desk_trading.Synthesiser.{FamilyForecast}
use multi_desk_trading.Sizing.{
  b_t_range, price_range, market_vol_range, zero_division, not_an_integer, overflow, RoundOps,
  or_raise, get_elem?, index_error, ControlLawParams, clip_unit, budget_of,
  compute_target_risk_budget, AdapterParams, TargetLotResult, round_lots, cap_lots, target_lots,
}

module _ (F : FloatOps) (L : FloatLaws F) where
  -- In [-1, 1], or not a number.
  abbrev pub IsClipped : F.Float → Type 0
  IsClipped x = ((F.leb (F.neg F.one) x && F.leb x F.one) ≡ true) ⊎ (F.leb x x ≡ false)

  neg_one-le_zero : F.leb (F.neg F.one) F.zero ≡ true
  neg_one-le_zero = ground (
    arith,
    L.abs-leb F.zero F.one,
    L.abs_zero,
    L.leb_zero_one,
    ap (λ x. F.leb x F.one) L.abs_zero,
  )

  neg_one-le_one : F.leb (F.neg F.one) F.one ≡ true
  neg_one-le_one = L.leb_trans (F.neg F.one) F.zero F.one neg_one-le_zero L.leb_zero_one

  one-le_one : F.leb F.one F.one ≡ true
  one-le_one = L.leb_self_right F.zero F.one L.leb_zero_one

  -- A number that is not less than another is at least it.
  not_less :
      (a b : F.Float) → F.leb a a ≡ true → F.leb b b ≡ true → F.ltb a b ≡ false → F.leb b a ≡ true
  not_less a b ha hb h = ground (arith, L.leb_total a b ha hb, L.ltb_lem a b)

  clip_unit-IsClipped : (x : F.Float) → IsClipped (clip_unit F x)
  unfolding clip_unit
  clip_unit-IsClipped x = elim (Bool-cases (F.leb x x)) [
    | inr nan ↦
        inr (ground (arith, nan, L.ltb_lem F.one x, L.ltb_lem x (F.neg F.one), nan_right, nan_left))
    | inl number ↦ elim (Bool-cases (F.ltb F.one x)) [
      | inl above ↦ rw (above, if◌then◌else◌) (inl (ground (arith, neg_one-le_one, one-le_one)))
      | inr below ↦ elim (Bool-cases (F.ltb x (F.neg F.one))) [
        | inl under ↦
            rw (below, under, if◌then◌else◌)
              (inl (ground (arith, neg_one-le_one, L.leb_self (F.neg F.one) F.one neg_one-le_one)))
        | inr over ↦
            rw (below, over, if◌then◌else◌)
              (inl (
                ground (
                  arith,
                  not_less F.one x one-le_one number below,
                  not_less x (F.neg F.one) number (L.leb_self (F.neg F.one) F.one neg_one-le_one)
                      over,
                )))
      ]
    ]
  ]
    where
      nan_right : F.leb F.one x ≡ true → F.leb x x ≡ true
      nan_right h = L.leb_self_right F.one x h

      nan_left : F.leb x (F.neg F.one) ≡ true → F.leb x x ≡ true
      nan_left h = L.leb_self x (F.neg F.one) h

  budget_of-IsClipped :
      (sum : List F.Float → F.Float) (width : F.Float) (family : FamilyForecast F)
      (params : ControlLawParams F) (calibration data_quality : Option F.Float) (qv : List F.Float)
      (x : F.Float)
      → budget_of F sum width family qv params calibration data_quality ≡ ok x
      → IsClipped x
  unfolding budget_of
  budget_of-IsClipped sum width family params calibration data_quality qv x h =
      let (q05, e, h1) = >>=-eq-ok (or_raise (get_elem? qv 1) index_error) _ h in
      let (q50, e', h2) = >>=-eq-ok (or_raise (get_elem? qv 3) index_error) _ h1 in
      let (q95, e'', h3) = >>=-eq-ok (or_raise (get_elem? qv 5) index_error) _ h2 in
      subst IsClipped (ok-injective h3) (clip_unit-IsClipped _)

  -- Where the budget is computed without an error, it is absent exactly if the family abstains or has
  -- no quantiles, and else it is in [-1, 1] or not a number, whatever the multipliers.
  pub compute_target_risk_budget-IsClipped :
      (sum : List F.Float → F.Float) (width : F.Float) (family : FamilyForecast F)
      (params : ControlLawParams F) (calibration data_quality : Option F.Float) (b : Option F.Float)
      → compute_target_risk_budget F sum width family params calibration data_quality ≡ ok b
      → ((b ≡ none) × ((family.abstain ≡ true) ⊎ (family.quantile_vector ≡ none)))
        ⊎ ((x : F.Float) × (qv : List F.Float) × (b ≡ some x)
            × (family.abstain ≡ false)
            × (family.quantile_vector ≡ some qv)
            × IsClipped x)
  unfolding compute_target_risk_budget
  compute_target_risk_budget-IsClipped sum width family params calibration data_quality b h =
      elim (Bool-cases family.abstain) [
        | inl abstains ↦ inl (sym (ok-injective (rw abstains at h)), inl abstains)
        | inr acts ↦ elim (Option-cases family.quantile_vector) [
          | inl missing ↦ inl (sym (ok-injective (rw (acts, missing) at h)), inr missing)
          | inr (qv, given) ↦
              let (x, computed, last) =
                >>=-eq-ok (budget_of F sum width family qv params calibration data_quality) _
                  (rw (acts, given) at h) in
              inr (
                x,
                qv,
                sym (ok-injective last),
                acts,
                given,
                budget_of-IsClipped sum width family params calibration data_quality qv x computed,
              )
        ]
      ]

  accepted_range : (c : Bool) → raise_if (not c) b_t_range ≡ ok tt → c ≡ true
  accepted_range true h = refl
  accepted_range false h = cc

  module _ (R : RoundOps F) where
    cap_lots-bounded :
        (cap rounded : ℤ)
        → leb_ℤ (pos 0) cap ≡ true
        → (leb_ℤ (neg cap) (cap_lots F R (some cap) rounded)
            && leb_ℤ (cap_lots F R (some cap) rounded) cap)
          ≡ true
    unfolding cap_lots neg
    cap_lots-bounded cap rounded h = ground arith

    -- Where the adapter returns, and a cap of at least 0 is set, the lots are within the cap on either
    -- side; the budget that they express is in [-1, 1] or not a number; and the requested one was in
    -- [-1, 1], which no NaN is.
    pub target_lots-IsClipped :
        (b_t price market_vol_5d : F.Float) (params : AdapterParams F) (cap : ℤ)
        (r : TargetLotResult F)
        → params.max_abs_lots ≡ some cap
        → leb_ℤ (pos 0) cap ≡ true
        → target_lots F R b_t price market_vol_5d params ≡ ok r
        → ((leb_ℤ (neg cap) r.rounded_lots && leb_ℤ r.rounded_lots cap) ≡ true)
          × IsClipped r.effective_b
          × ((F.leb (F.neg F.one) b_t && F.leb b_t F.one) ≡ true)
    unfolding target_lots
    target_lots-IsClipped b_t price vol params cap r capped h run =
        let in_range = F.leb (F.neg F.one) b_t && F.leb b_t F.one in
        let denom = F.mul (F.mul params.contract_multiplier_bbl price) vol in
        let raw = F.div (F.mul b_t params.reference_risk_5d_usd) denom in
        let (accepted, h1) = >>-eq-ok (raise_if (not in_range) b_t_range) _ run in
        let (_, h2) = >>-eq-ok (raise_if (F.leb price F.zero) price_range) _ h1 in
        let (_, h3) = >>-eq-ok (raise_if (F.leb vol F.zero) market_vol_range) _ h2 in
        let (_, h4) = >>-eq-ok (raise_if (eq_float F denom F.zero) zero_division) _ h3 in
        let (rounded, _, h5) =
          >>=-eq-ok (or_raise (round_lots F R params.rounding raw) not_an_integer) _ h4 in
        let (as_float, _, h6) =
          >>=-eq-ok (or_raise (R.of_int (cap_lots F R params.max_abs_lots rounded)) overflow) _
            h5 in
        subst
          (λ result.
            ((leb_ℤ (neg cap) result.rounded_lots && leb_ℤ result.rounded_lots cap) ≡ true)
            × IsClipped result.effective_b
            × (in_range ≡ true))
          (ok-injective h6)
          (
            subst
                (λ o.
                  (leb_ℤ (neg cap) (cap_lots F R o rounded) && leb_ℤ (cap_lots F R o rounded) cap)
                  ≡ true)
                (sym capped) (cap_lots-bounded cap rounded h),
            clip_unit-IsClipped _,
            accepted_range in_range accepted,
          )
