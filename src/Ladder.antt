-- ===== src/Ladder.antt =====
-- v2/execution/degradation.py: the degradation ladder, one decision tick at a time. The states are
-- those of `DegradationState` in v2/contracts/decision_v2.py.
pub mod Valid
pub mod Rungs
pub mod History
pub mod Bounded
pub mod Outage
mod Tests
use multi_desk_trading.Common.{
  ℕ, suc, ◌+◌, Bool, true, false, not, ◌&&◌, Option, none, some, List, [], ◌∷◌, Result, ok, err,
  ◌>>=◌, ◌>>◌, raise_if, if◌then◌else◌, leb,
}
use multi_desk_trading.Common.Int.{ℤ, pos, ◌+ℤ◌, ltb_ℤ, leb_ℤ}
use multi_desk_trading.Common.Float.{FloatOps}

pub data DegradationState : Type 0 where
  healthy soft_abstain aged hard_fail : DegradationState

-- Each `ValueError` of the module, by its message.
pub data LadderError : Type 0 where
  current_target_range last_valid_target_range negative_ticks : LadderError
  b_t_on_abstain b_t_missing b_t_range : LadderError
  negative_n_soft decay_lambda_range : LadderError

module _ (F : FloatOps) where
  open F use {Float}

  pub record ExposureState : Type 0 where
    pub state : DegradationState
    pub current_target : Float
    pub last_valid_target : Float
    pub ticks_since_valid : ℤ

  pub record TickEvent : Type 0 where
    pub family_abstained : Bool
    pub b_t : Option Float
    pub ttl_breached : Bool
    pub kill_switch_halting : Bool

  -- `-1.0 <= x <= 1.0`
  abbrev pub in_unit_range : Float → Bool
  in_unit_range x = F.leb (F.neg F.one) x && F.leb x F.one

  -- `ExposureState(...)`, with the checks of `__post_init__`.
  unfoldable pub make_exposure_state :
      DegradationState → Float → Float → ℤ → Result LadderError ExposureState
  make_exposure_state state current last ticks = do
    raise_if (not (in_unit_range current)) current_target_range
    raise_if (not (in_unit_range last)) last_valid_target_range
    raise_if (ltb_ℤ ticks (pos 0)) negative_ticks
    ok (record {
      state = state;
      current_target = current;
      last_valid_target = last;
      ticks_since_valid = ticks;
    })

  -- `TickEvent(...)`, with the checks of `__post_init__`.
  unfoldable pub make_tick_event : Bool → Option Float → Bool → Bool → Result LadderError TickEvent
  make_tick_event true (some b) ttl halting = err b_t_on_abstain
  make_tick_event true none ttl halting = ok (record {
    family_abstained = true;
    b_t = none;
    ttl_breached = ttl;
    kill_switch_halting = halting;
  })
  make_tick_event false none ttl halting = err b_t_missing
  make_tick_event false (some b) ttl halting = do
    raise_if (not (in_unit_range b)) b_t_range
    ok (record {
      family_abstained = false;
      b_t = some b;
      ttl_breached = ttl;
      kill_switch_halting = halting;
    })

  -- The target once it decays: what is below 1e-12 in magnitude becomes 0.0.
  unfoldable pub decay : Float → Float → Float
  decay target decay_lambda =
      let decayed = F.mul target (F.sub F.one decay_lambda) in
      if F.ltb (F.abs decayed) (F.scientific 1 12) then F.zero else decayed

  -- Rules 3 to 5, for a family that abstains.
  unfoldable pub step_abstained :
      ExposureState → Bool → ℤ → Float → Result LadderError ExposureState
  unfolding make_exposure_state decay
  step_abstained state ttl_breached n_soft decay_lambda =
      let next_ticks = state.ticks_since_valid +ℤ pos 1 in
      if ttl_breached
      then make_exposure_state hard_fail F.zero state.last_valid_target next_ticks
      else if leb_ℤ next_ticks n_soft
      then make_exposure_state soft_abstain state.last_valid_target state.last_valid_target
          next_ticks
      else make_exposure_state aged (decay state.current_target decay_lambda)
          state.last_valid_target next_ticks

  -- Rule 2. `assert event.b_t is not None` holds of every event that `TickEvent(...)` accepts; where
  -- it fails, the model raises `b_t_missing`.
  unfoldable pub step_fresh : Option Float → Result LadderError ExposureState
  unfolding make_exposure_state
  step_fresh none = err b_t_missing
  step_fresh (some b) = make_exposure_state healthy b b (pos 0)

  -- The rules in their order of precedence.
  unfoldable pub step_rules :
      ExposureState → TickEvent → ℤ → Float → Result LadderError ExposureState
  unfolding step_abstained step_fresh make_exposure_state
  step_rules state event n_soft decay_lambda =
      if event.kill_switch_halting
      then make_exposure_state hard_fail F.zero state.last_valid_target
          (state.ticks_since_valid +ℤ pos 1)
      else if not event.family_abstained
      then step_fresh event.b_t
      else step_abstained state event.ttl_breached n_soft decay_lambda

  unfoldable pub step : ExposureState → TickEvent → ℤ → Float → Result LadderError ExposureState
  unfolding step_rules
  step state event n_soft decay_lambda = do
    raise_if (ltb_ℤ n_soft (pos 0)) negative_n_soft
    raise_if (not (F.leb F.zero decay_lambda && F.leb decay_lambda F.one)) decay_lambda_range
    step_rules state event n_soft decay_lambda

  -- A run of ticks, oldest first.
  unfoldable pub run_ticks :
      ExposureState → List TickEvent → ℤ → Float → Result LadderError ExposureState
  run_ticks state [] n_soft decay_lambda = ok state
  run_ticks state (e ∷ es) n_soft decay_lambda = do
    next ← step state e n_soft decay_lambda
    run_ticks next es n_soft decay_lambda
