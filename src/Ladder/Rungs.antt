-- ===== src/Ladder/Rungs.antt =====
-- Which rung a step ends on, and what it does to the exposure there.
use multi_desk_trading.Common.{◌≡◌, ◌↔◌, ◌⊎◌, true, false, some, ok, arith}
use multi_desk_trading.Common.Int.{ℤ, pos, ◌+ℤ◌, ◌≤ℤ◌}
use multi_desk_trading.Common.Float.{FloatOps}
use multi_desk_trading.Ladder.{
  healthy, soft_abstain, aged, hard_fail, ExposureState, TickEvent, step, make_exposure_state,
  decay,
}

module _ (F : FloatOps) (state : ExposureState F) (event : TickEvent F) (n_soft : ℤ)
    (decay_lambda : F.Float) where
  -- The rung that a step reaches, by the event alone but for the number of stale ticks; on the
  -- lowest rung the exposure is 0.0, and only a fresh decision changes the last valid target.
  pub record OnRung (next : ExposureState F) : Type 0 where
    pub fails : (next.state ≡ hard_fail) ↔ (
        (event.kill_switch_halting ≡ true)
        ⊎ ((event.family_abstained ≡ true) × (event.ttl_breached ≡ true)))
    pub recovers :
        (next.state ≡ healthy)
        ↔ ((event.kill_switch_halting ≡ false) × (event.family_abstained ≡ false))
    pub flat : next.state ≡ hard_fail → next.current_target ≡ F.zero
    pub follows :
        next.state ≡ healthy
        → (event.b_t ≡ some next.current_target)
          × (next.last_valid_target ≡ next.current_target)
          × (next.ticks_since_valid ≡ pos 0)
    pub holds :
        next.state ≡ soft_abstain
        → (next.current_target ≡ state.last_valid_target) × (next.ticks_since_valid ≤ℤ n_soft)
    pub decays :
        next.state ≡ aged
        → (next.current_target ≡ decay F state.current_target decay_lambda)
          × ¬ (next.ticks_since_valid ≤ℤ n_soft)
    pub remembers :
        (next.state ≡ healthy)
        ⊎ ((next.last_valid_target ≡ state.last_valid_target)
            × (next.ticks_since_valid ≡ state.ticks_since_valid +ℤ pos 1))

  -- A step that returns ends on the rung that its event and the stale ticks call for, with the
  -- exposure of that rung.
  pub step-OnRung :
      {next : ExposureState F} → step F state event n_soft decay_lambda ≡ ok next → OnRung next
  unfolding step make_exposure_state
  step-OnRung e = record {
    fails = (ground arith, ground arith);
    recovers = (ground arith, ground arith);
    flat = ground arith;
    follows = ground arith;
    holds = ground arith;
    decays = ground arith;
    remembers = ground arith;
  }
