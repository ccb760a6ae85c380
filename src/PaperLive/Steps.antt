-- ===== src/PaperLive/Steps.antt =====
-- The calls that a tick which returns has made.
use multi_desk_trading.Common.{
  Bool, true, false, not, ◌≡◌, refl, sym, ap, subst, inl, inr, Option, none, some, Bool-cases,
  Option-cases, Result, ok, err, raise_if, >>=-eq-ok, >>-eq-ok, ok-injective, if◌then◌else◌,
}
use multi_desk_trading.Common.Int.{leb_ℤ}
use multi_desk_trading.Common.Time.{is_naive}
use multi_desk_trading.Common.Float.{FloatOps}
use multi_desk_trading.Contracts.{lookup_target}
use multi_desk_trading.Contracts.Decisions.{
  DecisionV2, make_decision_v2, is_none, fields_in_range, matches_target, abstains_well,
  quantiles_fit,
}
use multi_desk_trading.Synthesiser.{FamilyForecast}
use multi_desk_trading.Sizing.{TargetLotResult, compute_target_risk_budget, target_lots}
use multi_desk_trading.Ladder.{ExposureState, TickEvent, make_tick_event, step, in_unit_range}
use multi_desk_trading.PaperLive.{
  TickError, naive_ts, validation, in_sizing, in_ladder, within, DecisionReason,
  is_empty_decision_reason, MarketTickContext, TickOutcome, TickOps, TickSettings, is_ttl_breached,
  is_kill_halting, family_forecast_for_context,
}
use multi_desk_trading.PaperLive.Ticks.{
  build_decision, decision_of, is_decision_abstaining, run_decision_tick, pred_scale_of,
}

within-eq-ok :
    {E A : Type 0} (f : E → TickError) (r : Result E A) {a : A} → within f r ≡ ok a → r ≡ ok a
within-eq-ok f (ok a) h = ap ok (ok-injective h)
within-eq-ok f (err e) h = cc

passed : (c : Bool) → raise_if (not c) validation ≡ ok tt → c ≡ true
passed true h = refl
passed false h = cc

module _ (F : FloatOps) where
  -- A valid event has the arguments as its fields.
  pub make_tick_event_fields :
      (abstained : Bool) (b_t : Option F.Float) (breached halting : Bool) (event : TickEvent F)
      → make_tick_event F abstained b_t breached halting ≡ ok event
      → (event.family_abstained ≡ abstained)
        × (event.b_t ≡ b_t)
        × (event.ttl_breached ≡ breached)
        × (event.kill_switch_halting ≡ halting)
  unfolding make_tick_event
  make_tick_event_fields true (some b) breached halting event h = cc
  make_tick_event_fields true none breached halting event h =
      rw (sym (ok-injective h)) (refl, refl, refl, refl)
  make_tick_event_fields false none breached halting event h = cc
  make_tick_event_fields false (some b) breached halting event h =
      elim (Bool-cases (in_unit_range F b)) [
        | inl within_range ↦ rw (sym (ok-injective (rw within_range at h))) (refl, refl, refl, refl)
        | inr outside ↦ absurd (cc (rw outside at h))
      ]

  make_decision_v2_same :
      (d e : DecisionV2 F DecisionReason)
      → make_decision_v2 F DecisionReason is_empty_decision_reason validation d ≡ ok e
      → (d ≡ e) × (fields_in_range F DecisionReason d ≡ true)
  unfolding make_decision_v2
  make_decision_v2_same d e h =
      let in_range = fields_in_range F DecisionReason d in
      let matches = matches_target F DecisionReason d in
      let well = abstains_well F DecisionReason is_empty_decision_reason d in
      let (ranged, h1) = >>-eq-ok (raise_if (not in_range) validation) _ h in
      let (_, h2) = >>-eq-ok (raise_if (not matches) validation) _ h1 in
      let (_, h3) = >>-eq-ok (raise_if (not well) validation) _ h2 in
      let (_, h4) = >>-eq-ok (raise_if (not (quantiles_fit F DecisionReason d)) validation) _ h3 in
      let (_, h5) = >>-eq-ok (raise_if (leb_ℤ d.valid_until_ts d.decision_ts) validation) _ h4 in
      (ok-injective h5, passed in_range ranged)

  module _ (O : TickOps F) (context : MarketTickContext F) (settings : TickSettings F) where
    -- The decision as the tick builds it from the family forecast, the budget and the new exposure.
    abbrev pub IsDecision :
        FamilyForecast F → Option F.Float → ExposureState F → DecisionV2 F DecisionReason → Type 0
    IsDecision family raw_b_t new_exposure decision =
        let abstain =
          is_decision_abstaining F O family raw_b_t (is_ttl_breached F context settings.ttl)
            (is_kill_halting F context) new_exposure in
        (decision.abstain ≡ abstain)
        × (decision.target_risk_budget ≡ (if abstain then none else raw_b_t))
        × (decision.degradation_state ≡ new_exposure.state)
        × (fields_in_range F DecisionReason decision ≡ true)

    build_decision-IsDecision :
        (family : FamilyForecast F) (raw_b_t : Option F.Float) (new_exposure : ExposureState F)
        (decision : DecisionV2 F DecisionReason)
        → build_decision F O context family raw_b_t
            (is_ttl_breached F context settings.ttl)
            (is_kill_halting F context)
            new_exposure
            settings
          ≡ ok decision
        → IsDecision family raw_b_t new_exposure decision
    unfolding build_decision
    build_decision-IsDecision family raw_b_t new_exposure decision h =
        elim (Option-cases (lookup_target family.target_variable)) [
          | inl unknown ↦ absurd (cc (rw (build_decision, unknown) at h))
          | inr (target, known) ↦
              let (scales, _, made) =
                >>=-eq-ok
                  (within in_sizing
                    (pred_scale_of F O family.quantile_vector settings.control_params.sigma_floor))
                  _ (rw (build_decision, known) at h) in
              let (same, ranged) =
                make_decision_v2_same
                  (decision_of F O context family raw_b_t (is_ttl_breached F context settings.ttl)
                    (is_kill_halting F context) new_exposure settings target scales)
                  decision made in
              (
                sym (ap (λ d. d.abstain) same),
                sym (ap (λ d. d.target_risk_budget) same),
                sym (ap (λ d. d.degradation_state) same),
                subst (λ d. fields_in_range F DecisionReason d ≡ true) same ranged,
              )
        ]

    -- The calls of a tick that returns, and what it makes of them.
    pub record HasSteps (out : TickOutcome F) : Type 0 where
      pub event : TickEvent F
      pub lots : TargetLotResult F
      pub forecast : family_forecast_for_context F O context ≡ ok out.family_forecast
      pub budget :
          compute_target_risk_budget F O.sum O.z_90_05_width out.family_forecast
            settings.control_params none none
          ≡ ok out.b_t
      pub ticked :
          make_tick_event F
            (is_none (if is_ttl_breached F context settings.ttl then none else out.b_t))
            (if is_ttl_breached F context settings.ttl then none else out.b_t)
            (is_ttl_breached F context settings.ttl)
            (is_kill_halting F context)
          ≡ ok event
      pub stepped :
          step F context.prior_exposure event settings.n_soft settings.decay_lambda
          ≡ ok out.new_exposure
      pub sized :
          target_lots F O.rounding out.new_exposure.current_target context.price
            context.market_vol_5d settings.adapter_params
          ≡ ok lots
      pub counted : out.target_lots ≡ lots.rounded_lots
      pub expressed : out.effective_b ≡ lots.effective_b
      pub decided : IsDecision out.family_forecast out.b_t out.new_exposure out.decision

    pub run_decision_tick-HasSteps :
        (out : TickOutcome F) → run_decision_tick F O context settings ≡ ok out → HasSteps out
    unfolding run_decision_tick
    run_decision_tick-HasSteps out h =
        let (_, h1) = >>-eq-ok (raise_if (is_naive context.decision_ts) naive_ts) _ h in
        let (_, h2) = >>-eq-ok (raise_if (is_naive context.emitted_ts) naive_ts) _ h1 in
        let (family, e3, h3) = >>=-eq-ok (family_forecast_for_context F O context) _ h2 in
        let (raw, e4, h4) =
          >>=-eq-ok
            (within in_sizing (
              compute_target_risk_budget F O.sum O.z_90_05_width family settings.control_params none
                none))
            _ h3 in
        let breached = is_ttl_breached F context settings.ttl in
        let halting = is_kill_halting F context in
        let ladder_b_t : Option F.Float = if breached then none else raw in
        let (event, e5, h5) =
          >>=-eq-ok
            (within in_ladder (make_tick_event F (is_none ladder_b_t) ladder_b_t breached halting))
            _ h4 in
        let (next, e6, h6) =
          >>=-eq-ok
            (within in_ladder
              (step F context.prior_exposure event settings.n_soft settings.decay_lambda))
            _ h5 in
        let (lots, e7, h7) =
          >>=-eq-ok
            (within in_sizing (
              target_lots F O.rounding next.current_target context.price context.market_vol_5d
                settings.adapter_params))
            _ h6 in
        let (decision, e8, h8) =
          >>=-eq-ok (build_decision F O context family raw breached halting next settings) _ h7 in
        subst HasSteps (ok-injective h8) (record {
          event = event;
          lots = lots;
          forecast = e3;
          budget = within-eq-ok in_sizing _ e4;
          ticked = within-eq-ok in_ladder _ e5;
          stepped = within-eq-ok in_ladder _ e6;
          sized = within-eq-ok in_sizing _ e7;
          counted = refl;
          expressed = refl;
          decided = build_decision-IsDecision family raw next decision e8;
        })
