-- ===== src/Ladder/Bounded.antt =====
-- The exposure never exceeds, in magnitude, the last valid target.
use multi_desk_trading.Common.{◌≡◌, ◌≢◌, refl, ◌∙◌, inl, inr, true, List, [], ◌∷◌, ok, ◌>>=◌, All}
use multi_desk_trading.Common.Int.{ℤ}
use multi_desk_trading.Common.Float.{FloatOps, FloatLaws}
use multi_desk_trading.Ladder.{
  DegradationState, in_unit_range, healthy, soft_abstain, aged, hard_fail, ExposureState, TickEvent,
  run_ticks,
}
use multi_desk_trading.Ladder.Valid.{
  IsExposure, IsTick, IsSetting, step-Returns, decay-le, zero-leb-abs,
}
use multi_desk_trading.Ladder.Rungs.{OnRung, step-OnRung}

abbrev pub IsBounded : (F : FloatOps) → ExposureState F → Type 0
IsBounded F s = F.leb (F.abs s.current_target) (F.abs s.last_valid_target) ≡ true

module _ (F : FloatOps) (L : FloatLaws F) where
  open F use {Float}

  self-leb : (a : Float) → in_unit_range F a ≡ true → F.leb (F.abs a) (F.abs a) ≡ true
  self-leb a h = L.leb_self (F.abs a) F.one (L.abs-leb a F.one ∙ h)

  -- The step of one tick keeps the exposure within the last valid target.
  step-IsBounded :
      (s t : ExposureState F) (e : TickEvent F) (n_soft : ℤ) (decay_lambda : Float)
      → IsExposure F s
      → IsExposure F t
      → IsSetting F n_soft decay_lambda
      → OnRung F s e n_soft decay_lambda t
      → IsBounded F s
      → IsBounded F t
  step-IsBounded s t e n_soft decay_lambda valid valid' setting rung h = go t.state refl
    where
      same_last : t.state ≢ healthy → t.last_valid_target ≡ s.last_valid_target
      same_last other = elim rung.remembers [ inl fresh ↦ absurd (other fresh) | inr kept ↦ kept.0 ]

      go : (d : DegradationState) → t.state ≡ d → IsBounded F t
      go healthy at = rw ((rung.follows at).1) (self-leb t.current_target valid'.current_in_range)
      go soft_abstain at =
          rw ((rung.holds at).0, same_last (λ fresh. cc))
            (self-leb s.last_valid_target valid.last_in_range)
      go aged at =
          rw ((rung.decays at).0, same_last (λ fresh. cc))
            (L.leb_trans _ _ _
              (decay-le F L s.current_target decay_lambda valid.current_in_range
                setting.lambda_nonneg setting.lambda_le_one)
              h)
      go hard_fail at =
          rw (rung.flat at, L.abs_zero) (zero-leb-abs F L t.last_valid_target valid'.last_in_range)

  -- From an exposure within the last valid target, every run of accepted ticks returns, and ends on
  -- an exposure that is in magnitude at most the last valid target: nothing but a fresh decision
  -- raises the exposure above it.
  pub run_ticks-IsBounded :
      (s : ExposureState F) (es : List (TickEvent F)) (n_soft : ℤ) (decay_lambda : Float)
      → IsExposure F s
      → All (IsTick F) es
      → IsSetting F n_soft decay_lambda
      → IsBounded F s
      → (t : ExposureState F) × (run_ticks F s es n_soft decay_lambda ≡ ok t)
        × IsExposure F t
        × IsBounded F t
  unfolding run_ticks
  run_ticks-IsBounded s [] n_soft decay_lambda valid ticks setting h = (s, refl, valid, h)
  run_ticks-IsBounded s (x ∷ xs) n_soft decay_lambda valid ticks setting h =
      let (m, first, valid') = step-Returns F L s x n_soft decay_lambda valid ticks.0 setting in
      let rung = step-OnRung F s x n_soft decay_lambda first in
      let (t, rest, valid'', bounded) =
        run_ticks-IsBounded m xs n_soft decay_lambda valid' ticks.1 setting
          (step-IsBounded s m x n_soft decay_lambda valid valid' setting rung h) in
      (t, rw (first, ◌>>=◌) rest, valid'', bounded)
