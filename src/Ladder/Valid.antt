-- ===== src/Ladder/Valid.antt =====
-- What the constructors accept, and that a step from accepted values is never refused.
use multi_desk_trading.Common.{
  ◌≡◌, refl, inl, inr, Bool, true, false, Option, none, some, List, [], ◌∷◌, Result, ok, ◌>>=◌,
  arith, sym, subst, ◌∙◌, All, Bool-cases,
}
use multi_desk_trading.Common.Int.{ℤ, pos, ◌+ℤ◌, ◌≤ℤ◌, leb_ℤ, int_laws}
use multi_desk_trading.Common.Float.{FloatOps, FloatLaws}
use multi_desk_trading.Ladder.{
  DegradationState, healthy, soft_abstain, aged, hard_fail, LadderError, ExposureState, TickEvent,
  in_unit_range, make_exposure_state, decay, step, step_rules, step_fresh, step_abstained,
  run_ticks,
}

module _ (F : FloatOps) where
  open F use {Float}

  -- What `__post_init__` of `ExposureState` accepts.
  pub record IsExposure (s : ExposureState F) : Type 0 where
    pub current_in_range : in_unit_range F s.current_target ≡ true
    pub last_in_range : in_unit_range F s.last_valid_target ≡ true
    pub ticks_nonneg : pos 0 ≤ℤ s.ticks_since_valid

  -- What `__post_init__` of `TickEvent` accepts: a target in range exactly when the family does not
  -- abstain.
  abbrev pub IsTarget : Bool → Option Float → Type 0
  IsTarget abstained none = abstained ≡ true
  IsTarget abstained (some b) = (abstained ≡ false) × (in_unit_range F b ≡ true)

  abbrev pub IsTick : TickEvent F → Type 0
  IsTick e = IsTarget e.family_abstained e.b_t

  -- What `step` accepts of its two parameters.
  pub record IsSetting (n_soft : ℤ) (decay_lambda : Float) : Type 0 where
    pub n_soft_nonneg : pos 0 ≤ℤ n_soft
    pub lambda_nonneg : F.leb F.zero decay_lambda ≡ true
    pub lambda_le_one : F.leb decay_lambda F.one ≡ true

  -- The call returns a state, and the constructor's checks hold of it.
  abbrev pub Returns : Result LadderError (ExposureState F) → Type 0
  Returns r = (s : ExposureState F) × (r ≡ ok s) × IsExposure s

  make_exposure_state-Returns :
      (state : DegradationState) (current last : Float) (ticks : ℤ)
      → in_unit_range F current ≡ true
      → in_unit_range F last ≡ true
      → pos 0 ≤ℤ ticks
      → Returns (make_exposure_state F state current last ticks)
  unfolding make_exposure_state
  make_exposure_state-Returns state current last ticks hc hl ht = (
    record {
      state = state;
      current_target = current;
      last_valid_target = last;
      ticks_since_valid = ticks;
    },
    ground arith,
    record { current_in_range = hc; last_in_range = hl; ticks_nonneg = ht },
  )

module _ (F : FloatOps) (L : FloatLaws F) where
  open F use {Float}

  pub in_unit_range_zero : in_unit_range F F.zero ≡ true
  in_unit_range_zero = sym (L.abs-leb F.zero F.one) ∙ rw L.abs_zero L.leb_zero_one

  -- A value in range is no NaN, and its magnitude is at least 0.0.
  pub zero-leb-abs : (a : Float) → in_unit_range F a ≡ true → F.leb F.zero (F.abs a) ≡ true
  zero-leb-abs a h = L.abs_nonneg a F.one (L.abs-leb a F.one ∙ h)

  -- The decayed target is no larger in magnitude than the target.
  pub decay-le :
      (target decay_lambda : Float)
      → in_unit_range F target ≡ true
      → F.leb F.zero decay_lambda ≡ true
      → F.leb decay_lambda F.one ≡ true
      → F.leb (F.abs (decay F target decay_lambda)) (F.abs target) ≡ true
  unfolding decay
  decay-le target decay_lambda h lo hi =
      let kept = L.sub_unit decay_lambda lo hi in
      let near : F.leb (F.abs target) F.one ≡ true = L.abs-leb target F.one ∙ h in
      let shrunk = L.mul_shrinks target (F.sub F.one decay_lambda) near kept.0 kept.1 in
      elim (Bool-cases
        (F.ltb (F.abs (F.mul target (F.sub F.one decay_lambda))) (F.scientific 1 12))) [
          | inl tiny ↦ rw (tiny, L.abs_zero) (zero-leb-abs target h)
          | inr large ↦ rw large shrunk
        ]

  pub decay_in_range :
      (target decay_lambda : Float)
      → in_unit_range F target ≡ true
      → F.leb F.zero decay_lambda ≡ true
      → F.leb decay_lambda F.one ≡ true
      → in_unit_range F (decay F target decay_lambda) ≡ true
  decay_in_range target decay_lambda h lo hi =
      sym (L.abs-leb (decay F target decay_lambda) F.one)
      ∙ L.leb_trans (F.abs (decay F target decay_lambda)) (F.abs target) F.one
          (decay-le target decay_lambda h lo hi) (L.abs-leb target F.one ∙ h)

  abbrev next_ticks : ExposureState F → ℤ
  next_ticks state = state.ticks_since_valid +ℤ pos 1

  next_ticks_nonneg : (state : ExposureState F) → IsExposure F state → pos 0 ≤ℤ next_ticks state
  next_ticks_nonneg state valid = omega (int_laws, valid.ticks_nonneg)

  step_abstained-Returns :
      (state : ExposureState F) (ttl : Bool) (n_soft : ℤ) (decay_lambda : Float)
      → IsExposure F state
      → IsSetting F n_soft decay_lambda
      → Returns F (step_abstained F state ttl n_soft decay_lambda)
  unfolding step_abstained
  step_abstained-Returns state true n_soft decay_lambda valid setting =
      make_exposure_state-Returns F hard_fail _ _ (next_ticks state) in_unit_range_zero
        valid.last_in_range (next_ticks_nonneg state valid)
  step_abstained-Returns state false n_soft decay_lambda valid setting =
      elim (Bool-cases (leb_ℤ (state.ticks_since_valid +ℤ pos 1) n_soft)) [
        | inl soft ↦ rw soft (
            make_exposure_state-Returns F soft_abstain _ _ (next_ticks state) valid.last_in_range
              valid.last_in_range (next_ticks_nonneg state valid))
        | inr late ↦ rw late (
            make_exposure_state-Returns F aged _ _ (next_ticks state)
              (decay_in_range _ _ valid.current_in_range setting.lambda_nonneg
                setting.lambda_le_one)
              valid.last_in_range (next_ticks_nonneg state valid))
      ]

  step_fresh-Returns : (b_t : Option Float) → IsTarget F false b_t → Returns F (step_fresh F b_t)
  unfolding step_fresh
  step_fresh-Returns none tick = cc
  step_fresh-Returns (some b) tick =
      make_exposure_state-Returns F healthy _ _ (pos 0) tick.1 tick.1 (omega arith)

  step_rules-Returns :
      (state : ExposureState F) (event : TickEvent F) (n_soft : ℤ) (decay_lambda : Float)
      → IsExposure F state
      → IsTick F event
      → IsSetting F n_soft decay_lambda
      → Returns F (step_rules F state event n_soft decay_lambda)
  unfolding step_rules
  step_rules-Returns state event n_soft decay_lambda valid tick setting =
      elim (Bool-cases event.kill_switch_halting) [
        | inl halting ↦ rw halting (
            make_exposure_state-Returns F hard_fail _ _ (next_ticks state) in_unit_range_zero
              valid.last_in_range (next_ticks_nonneg state valid))
        | inr running ↦ rw running (elim (Bool-cases event.family_abstained) [
          | inl abstained ↦
              rw abstained
                (step_abstained-Returns state event.ttl_breached n_soft decay_lambda valid setting)
          | inr fresh ↦
              rw fresh
                (step_fresh-Returns event.b_t (subst (λ a. IsTarget F a event.b_t) fresh tick))
        ])
      ]

  pub step-rules :
      (state : ExposureState F) (event : TickEvent F) (n_soft : ℤ) (decay_lambda : Float)
      → IsSetting F n_soft decay_lambda
      → step F state event n_soft decay_lambda ≡ step_rules F state event n_soft decay_lambda
  unfolding step
  step-rules state event n_soft decay_lambda setting = ground arith

  -- From a state, an event and parameters that the constructors and checks accept, `step` returns a
  -- state, and the state's own checks pass: its targets lie in [-1, 1] and its counter is not
  -- negative.
  pub step-Returns :
      (state : ExposureState F) (event : TickEvent F) (n_soft : ℤ) (decay_lambda : Float)
      → IsExposure F state
      → IsTick F event
      → IsSetting F n_soft decay_lambda
      → Returns F (step F state event n_soft decay_lambda)
  step-Returns state event n_soft decay_lambda valid tick setting =
      rw (step-rules state event n_soft decay_lambda setting)
        (step_rules-Returns state event n_soft decay_lambda valid tick setting)

  pub run_ticks-Returns :
      (state : ExposureState F) (events : List (TickEvent F)) (n_soft : ℤ) (decay_lambda : Float)
      → IsExposure F state
      → All (IsTick F) events
      → IsSetting F n_soft decay_lambda
      → Returns F (run_ticks F state events n_soft decay_lambda)
  unfolding run_ticks
  run_ticks-Returns state [] n_soft decay_lambda valid ticks setting = (state, refl, valid)
  run_ticks-Returns state (e ∷ es) n_soft decay_lambda valid ticks setting =
      let (next, stepped, valid') =
        step-Returns state e n_soft decay_lambda valid ticks.0 setting in
      let (final, ran, valid'') =
        run_ticks-Returns next es n_soft decay_lambda valid' ticks.1 setting in
      (final, rw (stepped, ◌>>=◌) ran, valid'')
