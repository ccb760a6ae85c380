-- ===== src/Ladder/Tests.antt =====
-- Runs of the ladder on numbers of three decimals, and the theorems at them.
use multi_desk_trading.Common.{◌≡◌, refl, true, false, none, some, [], ◌∷◌, ok, err, arith}
use multi_desk_trading.Common.Int.{pos, negsuc, ◌+ℤ◌, ◌-ℤ◌, neg}
use multi_desk_trading.Common.Float.Fixed.{fixed, fixed_laws, mul_fixed}
use multi_desk_trading.Ladder.{
  soft_abstain, aged, hard_fail, b_t_range, ExposureState, TickEvent, make_exposure_state,
  make_tick_event, decay, step, run_ticks,
}
use multi_desk_trading.Ladder.Valid.{IsExposure, IsSetting, Returns, step-Returns}
use multi_desk_trading.Ladder.Outage.{silent_for, run_ticks_outage}
use multi_desk_trading.Ladder.History.{Remembers, run_ticks-Remembers}
use multi_desk_trading.Ladder.Bounded.{IsBounded, run_ticks-IsBounded}

-- Half of the sleeve short, from a decision one tick ago.
abbrev short : ExposureState fixed
short = record {
  state = soft_abstain;
  current_target = negsuc 499;
  last_valid_target = negsuc 499;
  ticks_since_valid = pos 1;
}

abbrev silent : TickEvent fixed
silent = record {
  family_abstained = true;
  b_t = none;
  ttl_breached = false;
  kill_switch_halting = false;
}

abbrev halt : TickEvent fixed
halt = record {
  family_abstained = false;
  b_t = some (pos 300);
  ttl_breached = false;
  kill_switch_halting = true;
}

abbrev buy : TickEvent fixed
buy = record {
  family_abstained = false;
  b_t = some (pos 300);
  ttl_breached = false;
  kill_switch_halting = false;
}

-- The second stale tick is still held, the third decays by a fifth.
abbrev decayed : ExposureState fixed
decayed = record {
  state = aged;
  current_target = negsuc 399;
  last_valid_target = negsuc 499;
  ticks_since_valid = pos 3;
}

run_ticks_decay : run_ticks fixed short (silent ∷ silent ∷ []) (pos 2) (pos 200) ≡ ok decayed
unfolding run_ticks step make_exposure_state decay mul_fixed ◌+ℤ◌ ◌-ℤ◌ neg
run_ticks_decay = refl

make_tick_event_range : make_tick_event fixed false (some (pos 1001)) false false ≡ err b_t_range
unfolding make_tick_event neg
make_tick_event_range = refl

short-IsExposure : IsExposure fixed short
unfolding neg
short-IsExposure = record {
  current_in_range = refl;
  last_in_range = refl;
  ticks_nonneg = omega arith;
}

setting : IsSetting fixed (pos 2) (pos 200)
setting = record { n_soft_nonneg = omega arith; lambda_nonneg = refl; lambda_le_one = refl }

step-Returns_example : Returns fixed (step fixed short silent (pos 2) (pos 200))
step-Returns_example =
    step-Returns fixed fixed_laws short silent (pos 2) (pos 200) short-IsExposure refl setting

-- A decision, and two silent ticks more than are held.
run_ticks_outage_example :
    run_ticks fixed short (buy ∷ silent ∷ silent ∷ silent ∷ silent ∷ []) (pos 2) (pos 200)
    ≡ ok (silent_for fixed 2 (pos 200) (pos 300) 4)
unfolding neg
run_ticks_outage_example =
    run_ticks_outage fixed fixed_laws 2 (pos 200) setting (pos 300) refl short buy
      (silent ∷ silent ∷ silent ∷ silent ∷ []) (refl, refl, refl)
      ((refl, refl, refl), ((refl, refl, refl), ((refl, refl, refl), ((refl, refl, refl), tt))))

outage_run : (silent_for fixed 2 (pos 200) (pos 300) 4).current_target ≡ pos 192
unfolding decay mul_fixed ◌-ℤ◌ neg
outage_run = refl

-- A halt forces the exposure to 0.0; the abstaining tick after it, within n_soft, is back at the last
-- valid target.
abbrev resumed : ExposureState fixed
resumed = record {
  state = soft_abstain;
  current_target = pos 300;
  last_valid_target = pos 300;
  ticks_since_valid = pos 2;
}

run_ticks-resumed : run_ticks fixed short (buy ∷ halt ∷ silent ∷ []) (pos 2) (pos 200) ≡ ok resumed
unfolding run_ticks step make_exposure_state ◌+ℤ◌ ◌-ℤ◌ neg
run_ticks-resumed = refl

-- An abstaining tick beyond the TTL.
abbrev expired : TickEvent fixed
expired = record silent { ttl_breached = true }

abbrev failed : ExposureState fixed
failed = record {
  state = hard_fail;
  current_target = pos 0;
  last_valid_target = negsuc 499;
  ticks_since_valid = pos 2;
}

step_expired : step fixed short expired (pos 2) (pos 200) ≡ ok failed
unfolding step make_exposure_state ◌+ℤ◌ neg
step_expired = refl

run_ticks-Remembers_example : Remembers fixed short (silent ∷ silent ∷ []) decayed
run_ticks-Remembers_example =
    run_ticks-Remembers fixed short (silent ∷ silent ∷ []) (pos 2) (pos 200) run_ticks_decay

run_ticks-IsBounded_example :
    (t : ExposureState fixed) × (run_ticks fixed short (buy ∷ halt ∷ []) (pos 2) (pos 200) ≡ ok t)
    × IsExposure fixed t
    × IsBounded fixed t
unfolding neg
run_ticks-IsBounded_example =
    run_ticks-IsBounded fixed fixed_laws short (buy ∷ halt ∷ []) (pos 2) (pos 200) short-IsExposure
      ((refl, refl), ((refl, refl), tt)) setting refl
