-- ===== src/Ladder/Outage.antt =====
-- A fresh decision and the outage after it: ticks at which the family abstains, within the TTL and
-- without a halt.
use multi_desk_trading.Common.{
  ℕ, zero, suc, ◌+◌, ◌-◌, ◌≡◌, sym, ap, subst, ◌∙◌, inl, inr, true, false, some, List, [], ◌∷◌, ok,
  ◌>>=◌, All, length, leb, Bool-cases, if◌then◌else◌, arith,
}
use multi_desk_trading.Common.Int.{pos, ◌+ℤ◌, int_laws}
use multi_desk_trading.Common.Float.{FloatOps, FloatLaws}
use multi_desk_trading.Ladder.{
  DegradationState, healthy, soft_abstain, aged, ExposureState, TickEvent, in_unit_range,
  make_exposure_state, decay, step, step_rules, step_fresh, step_abstained, run_ticks,
}
use multi_desk_trading.Ladder.Valid.{IsSetting, decay_in_range, step-rules}

module _ (F : FloatOps) where
  open F use {Float}

  abbrev pub IsSilent : TickEvent F → Type 0
  IsSilent e =
      (e.kill_switch_halting ≡ false) × (e.family_abstained ≡ true) × (e.ttl_breached ≡ false)

  abbrev pub IsDecision : Float → TickEvent F → Type 0
  IsDecision b e = (e.kill_switch_halting ≡ false) × (e.family_abstained ≡ false) × (e.b_t ≡ some b)

  -- The target after a number of decays.
  abbrev pub decays : Float → Float → ℕ → Float
  decays decay_lambda b zero = b
  decays decay_lambda b (suc n) = decay F (decays decay_lambda b n) decay_lambda

  -- The rung after a number of silent ticks.
  abbrev pub rung : ℕ → ℕ → DegradationState
  rung n_soft zero = healthy
  rung n_soft (suc n) = if leb (suc n) n_soft then soft_abstain else aged

  -- The state after a number of silent ticks since the decision: the target is held for n_soft of
  -- them, and decays at each of the others.
  abbrev pub silent_for : ℕ → Float → Float → ℕ → ExposureState F
  silent_for n_soft decay_lambda b n = record {
    state = rung n_soft n;
    current_target = decays decay_lambda b (n - n_soft);
    last_valid_target = b;
    ticks_since_valid = pos n;
  }

module _ (F : FloatOps) (L : FloatLaws F) (n_soft : ℕ) (decay_lambda : F.Float)
    (setting : IsSetting F (pos n_soft) decay_lambda) (b : F.Float)
    (in_range : in_unit_range F b ≡ true) where
  decays_in_range : (n : ℕ) → in_unit_range F (decays F decay_lambda b n) ≡ true
  decays_in_range zero = in_range
  decays_in_range (suc n) =
      decay_in_range F L (decays F decay_lambda b n) decay_lambda (decays_in_range n)
        setting.lambda_nonneg setting.lambda_le_one

  silent_rules :
      (e : TickEvent F) (n : ℕ)
      → IsSilent F e
      → step_rules F (silent_for F n_soft decay_lambda b n) e (pos n_soft) decay_lambda
        ≡ ok (silent_for F n_soft decay_lambda b (suc n))
  unfolding step_rules step_abstained make_exposure_state
  silent_rules e n (on, abstains, early) =
      let next : pos n +ℤ pos 1 ≡ pos (suc n) = omega int_laws in
      elim (Bool-cases (leb (suc n) n_soft)) [
        | inl soft ↦
            let held : suc n - n_soft ≡ 0 = ground (arith, soft) in
            rw (on, abstains, early, next, soft, held, in_range) (ground arith)
        | inr late ↦
            let over : suc n - n_soft ≡ suc (n - n_soft) = ground (arith, late) in
            rw (on, abstains, early, next, late, over, in_range, decays_in_range (suc (n - n_soft)))
              (ground arith)
      ]

  -- One more silent tick.
  step-silent :
      (e : TickEvent F) (n : ℕ)
      → IsSilent F e
      → step F (silent_for F n_soft decay_lambda b n) e (pos n_soft) decay_lambda
        ≡ ok (silent_for F n_soft decay_lambda b (suc n))
  step-silent e n silent =
      step-rules F L (silent_for F n_soft decay_lambda b n) e (pos n_soft) decay_lambda setting
      ∙ silent_rules e n silent

  run_silent :
      (es : List (TickEvent F)) (n : ℕ)
      → All (IsSilent F) es
      → run_ticks F (silent_for F n_soft decay_lambda b n) es (pos n_soft) decay_lambda
        ≡ ok (silent_for F n_soft decay_lambda b (n + length es))
  unfolding run_ticks
  run_silent [] n silent = ap (λ m. ok (silent_for F n_soft decay_lambda b m)) (omega arith)
  run_silent (e ∷ es) n silent =
      let count : suc n + length es ≡ n + suc (length es) = omega arith in
      rw (step-silent e n silent.0, ◌>>=◌, sym count) (run_silent es (suc n) silent.1)

  step-decision :
      (s : ExposureState F) (e : TickEvent F)
      → IsDecision F b e
      → step F s e (pos n_soft) decay_lambda ≡ ok (silent_for F n_soft decay_lambda b 0)
  unfolding step_rules step_fresh make_exposure_state
  step-decision s e (on, acts, given) =
      let none_left : 0 - n_soft ≡ 0 = omega arith in
      step-rules F L s e (pos n_soft) decay_lambda setting
      ∙ rw (on, acts, given, none_left, in_range) (ground arith)

  -- Where the parameters pass the checks of step and a decision's target is in [-1, 1], a run that
  -- starts with that decision, from whatever state, and goes on with ticks at which the family
  -- abstains, within the TTL and without a halt, returns. It ends at HEALTHY if there are none of
  -- them, at SOFT_ABSTAIN if there are up to n_soft and at AGED if there are more. The exposure is the
  -- decision's target, decayed once for each of them beyond n_soft; that target is remembered, and the
  -- counter is the number of them.
  pub run_ticks_outage :
      (s : ExposureState F) (e : TickEvent F) (es : List (TickEvent F))
      → IsDecision F b e
      → All (IsSilent F) es
      → run_ticks F s (e ∷ es) (pos n_soft) decay_lambda
        ≡ ok (silent_for F n_soft decay_lambda b (length es))
  unfolding run_ticks
  run_ticks_outage s e es decision silent =
      let count : length es ≡ 0 + length es = omega arith in
      subst
        (λ m.
          run_ticks F s (e ∷ es) (pos n_soft) decay_lambda
          ≡ ok (silent_for F n_soft decay_lambda b m))
        (sym count) (rw (step-decision s e decision, ◌>>=◌) (run_silent es 0 silent))
