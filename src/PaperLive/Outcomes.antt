-- ===== src/PaperLive/Outcomes.antt =====
-- How the decision of a tick agrees with its exposure, and what a halt or an expiry leads to.
use multi_desk_trading.Common.{
  Bool, true, false, not, ◌&&◌, ◌≡◌, ◌⊎◌, refl, sym, ap, subst, ◌∙◌, inl, inr, Option, none, some,
  Bool-cases, ok, arith, ok-injective, if◌then◌else◌,
}
use multi_desk_trading.Common.Float.{FloatOps}
use multi_desk_trading.Contracts.Decisions.{is_healthy, is_none, holds}
use multi_desk_trading.Sizing.{TargetLotResult, compute_target_risk_budget, target_lots}
use multi_desk_trading.Ladder.{
  in_unit_range, DegradationState, healthy, soft_abstain, aged, hard_fail,
}
use multi_desk_trading.Ladder.Rungs.{OnRung, step-OnRung}
use multi_desk_trading.PaperLive.{
  DecisionReason, MarketTickContext, TickOutcome, TickOps, TickSettings, is_ttl_breached,
  is_kill_halting,
}
use multi_desk_trading.PaperLive.Ticks.{is_decision_abstaining, run_decision_tick}
use multi_desk_trading.PaperLive.Steps.{
  HasSteps, run_decision_tick-HasSteps, make_tick_event_fields,
}

healthy_only : (s : DegradationState) → is_healthy s ≡ true → s ≡ healthy
healthy_only healthy h = refl
healthy_only soft_abstain h = cc
healthy_only aged h = cc
healthy_only hard_fail h = cc

not_none : {A : Type 0} (o : Option A) → is_none o ≡ false → (a : A) × (o ≡ some a)
not_none none h = cc
not_none (some a) h = (a, refl)

module _ (F : FloatOps) (O : TickOps F) (context : MarketTickContext F) (settings : TickSettings F)
    (out : TickOutcome F) (returned : run_decision_tick F O context settings ≡ ok out) where
  steps : HasSteps F O context settings out
  steps = run_decision_tick-HasSteps F O context settings out returned

  rung :
      OnRung F context.prior_exposure steps.event settings.n_soft settings.decay_lambda
        out.new_exposure
  rung =
      step-OnRung F context.prior_exposure steps.event settings.n_soft settings.decay_lambda
        steps.stepped

  ladder_budget : Option F.Float
  ladder_budget = if is_ttl_breached F context settings.ttl then none else out.b_t

  fields :
      (steps.event.family_abstained ≡ is_none ladder_budget)
      × (steps.event.b_t ≡ ladder_budget)
      × (steps.event.ttl_breached ≡ is_ttl_breached F context settings.ttl)
      × (steps.event.kill_switch_halting ≡ is_kill_halting F context)
  unfolding ladder_budget
  fields = make_tick_event_fields F _ _ _ _ steps.event steps.ticked

  abstains_without_budget : out.family_forecast.abstain ≡ true → out.b_t ≡ none
  unfolding compute_target_risk_budget
  abstains_without_budget h =
      sym (ok-injective (rw (compute_target_risk_budget, h) at steps.budget))

  -- What a state of HEALTHY says of the tick.
  healthy_parts :
      is_healthy out.new_exposure.state ≡ true
      → (is_kill_halting F context ≡ false)
        × (is_ttl_breached F context settings.ttl ≡ false)
        × (out.family_forecast.abstain ≡ false)
        × (out.b_t ≡ some out.new_exposure.current_target)
  unfolding ladder_budget
  healthy_parts h =
      let up = healthy_only out.new_exposure.state h in
      let (running, offered) = rung.recovers.0 up in
      let (given, _, _) = rung.follows up in
      let on : is_kill_halting F context ≡ false = sym fields.3 ∙ running in
      let budget : ladder_budget ≡ some out.new_exposure.current_target = sym fields.1 ∙ given in
      elim (Bool-cases (is_ttl_breached F context settings.ttl)) [
        | inl late ↦ absurd (cc (rw late at budget))
        | inr fresh ↦
            let used : out.b_t ≡ some out.new_exposure.current_target = rw fresh at budget in
            elim (Bool-cases out.family_forecast.abstain) [
              | inl abstains ↦ absurd (cc (sym (abstains_without_budget abstains) ∙ used))
              | inr acts ↦ (on, fresh, acts, used)
            ]
      ]

  -- The flag of the decision, by the state.
  abstaining : Bool
  abstaining =
      is_decision_abstaining F O out.family_forecast out.b_t
        (is_ttl_breached F context settings.ttl) (is_kill_halting F context) out.new_exposure

  abstaining_healthy : is_healthy out.new_exposure.state ≡ true → abstaining ≡ false
  unfolding abstaining
  abstaining_healthy h =
      let (on, fresh, acts, used) = healthy_parts h in
      ground (arith, on, fresh, acts, ap is_none used, h)

  abstaining_down : is_healthy out.new_exposure.state ≡ false → abstaining ≡ true
  unfolding abstaining
  abstaining_down h = ground (arith, h)

  flagged : out.decision.abstain ≡ abstaining
  unfolding abstaining
  flagged = steps.decided.0

  budgeted : out.decision.target_risk_budget ≡ (if abstaining then none else out.b_t)
  unfolding abstaining
  budgeted = steps.decided.1

  budget_in_range :
      (x : F.Float) → out.decision.target_risk_budget ≡ some x → in_unit_range F x ≡ true
  budget_in_range x given =
      sym (ap (λ o. holds F DecisionReason o (λ b. F.leb (F.neg F.one) b && F.leb b F.one)) given)
      ∙ ground (arith, steps.decided.3)

  -- Where a tick returns, its decision abstains exactly if the new state of the ladder is not
  -- HEALTHY. A decision that does not abstain has the new exposure as its budget, which is in
  -- [-1, 1], and then nothing halts, nothing has expired and the family does not abstain; one that
  -- abstains has no budget.
  pub run_decision_tick-agrees :
      (out.decision.abstain ≡ not (is_healthy out.new_exposure.state))
      × (out.decision.abstain ≡ false
          → (out.decision.target_risk_budget ≡ some out.new_exposure.current_target)
            × (in_unit_range F out.new_exposure.current_target ≡ true)
            × (is_kill_halting F context ≡ false)
            × (is_ttl_breached F context settings.ttl ≡ false)
            × (out.family_forecast.abstain ≡ false))
      × (out.decision.abstain ≡ true → out.decision.target_risk_budget ≡ none)
  run_decision_tick-agrees = elim (Bool-cases (is_healthy out.new_exposure.state)) [
    | inl up ↦
        let (on, fresh, acts, used) = healthy_parts up in
        let off = abstaining_healthy up in
        let given : out.decision.target_risk_budget ≡ some out.new_exposure.current_target =
          budgeted ∙ rw (off, if◌then◌else◌) used in
        (
          rw up (flagged ∙ off),
          (λ acting.
              (given, budget_in_range out.new_exposure.current_target given, on, fresh, acts)),
          λ abstains. absurd (cc (sym abstains ∙ flagged ∙ off)),
        )
    | inr down ↦
        let on = abstaining_down down in
        (
          rw down (flagged ∙ on),
          (λ acting. absurd (cc (sym acting ∙ flagged ∙ on))),
          λ abstains. budgeted ∙ rw (on, if◌then◌else◌) refl,
        )
  ]

  event_stops :
      (is_kill_halting F context ≡ true) ⊎ (is_ttl_breached F context settings.ttl ≡ true)
      → (steps.event.kill_switch_halting ≡ true)
        ⊎ ((steps.event.family_abstained ≡ true) × (steps.event.ttl_breached ≡ true))
  unfolding ladder_budget
  event_stops (inl halting) = inl (fields.3 ∙ halting)
  event_stops (inr late) = inr (fields.0 ∙ rw (late, if◌then◌else◌) refl, fields.2 ∙ late)

  -- Where a tick at which the kill switch halts the family, or a forecast or the decision has
  -- expired, returns, the ladder is at HARD_FAIL with the exposure 0.0, the decision abstains and has
  -- no budget, and the lots are those of the budget 0.0.
  pub run_decision_tick-halts :
      (is_kill_halting F context ≡ true) ⊎ (is_ttl_breached F context settings.ttl ≡ true)
      → (out.new_exposure.state ≡ hard_fail)
        × (out.new_exposure.current_target ≡ F.zero)
        × (out.decision.abstain ≡ true)
        × (out.decision.target_risk_budget ≡ none)
        × ((lots : TargetLotResult F) × (target_lots F O.rounding F.zero context.price
                context.market_vol_5d settings.adapter_params
              ≡ ok lots)
            × (out.target_lots ≡ lots.rounded_lots))
  run_decision_tick-halts stopped =
      let failed = rung.fails.1 (event_stops stopped) in
      let flat = rung.flat failed in
      let down : is_healthy out.new_exposure.state ≡ false = ap is_healthy failed in
      let on = abstaining_down down in
      (
        failed,
        flat,
        flagged ∙ on,
        budgeted ∙ rw (on, if◌then◌else◌) refl,
        (
          steps.lots,
          subst
              (λ b.
                target_lots F O.rounding b context.price context.market_vol_5d
                  settings.adapter_params
                ≡ ok steps.lots)
              flat steps.sized,
          steps.counted,
        ),
      )
