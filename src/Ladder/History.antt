-- ===== src/Ladder/History.antt =====
-- What a run of ticks leaves in the two memory fields of the exposure state.
use multi_desk_trading.Common.{
  ℕ, ◌≡◌, refl, inl, inr, Bool, true, false, not, ◌&&◌, ◌||◌, Option, some, none, List, [], ◌∷◌, ok,
  >>=-eq-ok, ok-injective, arith, length, ap, sym, subst, ◌∙◌, Bool-cases, if◌then◌else◌,
}
use multi_desk_trading.Common.Int.{ℤ, pos, ◌+ℤ◌, int_laws}
use multi_desk_trading.Common.Float.{FloatOps}
use multi_desk_trading.Ladder.{ExposureState, TickEvent, step, make_exposure_state, run_ticks}

module _ (F : FloatOps) where
  open F use {Float}

  -- The event carries a decision that the ladder follows.
  abbrev pub is_fresh : TickEvent F → Bool
  is_fresh e = not e.kill_switch_halting && not e.family_abstained

  abbrev pub has_fresh : List (TickEvent F) → Bool
  has_fresh [] = false
  has_fresh (e ∷ es) = is_fresh e || has_fresh es

  -- The target of the last fresh event.
  abbrev pub last_target : List (TickEvent F) → Option Float
  last_target [] = none
  last_target (e ∷ es) = if has_fresh es then last_target es else if is_fresh e then e.b_t else none

  -- The number of events behind the last fresh one.
  abbrev pub stale_ticks : List (TickEvent F) → ℕ
  stale_ticks [] = 0
  stale_ticks (e ∷ es) = if has_fresh es then stale_ticks es else length es

  -- The memory of a state after the events, from the state before them.
  pub record Remembers (s : ExposureState F) (es : List (TickEvent F)) (t : ExposureState F)
      : Type 0 where
    pub after_fresh :
        has_fresh es ≡ true
        → (last_target es ≡ some t.last_valid_target) × (t.ticks_since_valid ≡ pos (stale_ticks es))
    pub without_fresh :
        has_fresh es ≡ false
        → (t.last_valid_target ≡ s.last_valid_target)
          × (t.ticks_since_valid ≡ s.ticks_since_valid +ℤ pos (length es))

  step-memory :
      (s : ExposureState F) (e : TickEvent F) (n_soft : ℤ) (decay_lambda : Float)
      {t : ExposureState F}
      → step F s e n_soft decay_lambda ≡ ok t
      → Remembers s (e ∷ []) t
  unfolding step make_exposure_state
  step-memory s e n_soft decay_lambda h = record {
    after_fresh = ground arith;
    without_fresh = ground arith;
  }

  Remembers-cons :
      (s m t : ExposureState F) (e : TickEvent F) (es : List (TickEvent F))
      → Remembers s (e ∷ []) m
      → Remembers m es t
      → Remembers s (e ∷ es) t
  Remembers-cons s m t e es first rest = elim (Bool-cases (has_fresh es)) [
    | inl later ↦ record {
      after_fresh = λ _. rw later (rest.after_fresh later);
      without_fresh = λ h. ground arith;
    }
    | inr stale ↦
        let kept = rest.without_fresh stale in
        record {
          after_fresh = λ h.
              let now : is_fresh e || false ≡ true = ground arith in
              let (target, ticks) = first.after_fresh now in
              (
                rw stale (target ∙ ap some (sym kept.0)),
                rw stale (kept.1 ∙ rw ticks (omega int_laws)),
              );
          without_fresh = λ h.
              let never : is_fresh e || false ≡ false = ground arith in
              let (target, ticks) = first.without_fresh never in
              (kept.0 ∙ target, kept.1 ∙ rw ticks (omega int_laws));
        }
  ]

  -- After a run, the last valid target is that of the last fresh event and the counter is the number
  -- of events behind it; without a fresh event the target stays and the counter grows by their number.
  pub run_ticks-Remembers :
      (s : ExposureState F) (es : List (TickEvent F)) (n_soft : ℤ) (decay_lambda : Float)
      {t : ExposureState F}
      → run_ticks F s es n_soft decay_lambda ≡ ok t
      → Remembers s es t
  unfolding run_ticks
  run_ticks-Remembers s [] n_soft decay_lambda e =
      subst (Remembers s []) (ok-injective e)
        (record { after_fresh = λ h. cc; without_fresh = λ _. (refl, omega int_laws) })
  run_ticks-Remembers s (x ∷ xs) n_soft decay_lambda e =
      let (m, first, rest) =
        >>=-eq-ok (step F s x n_soft decay_lambda) (λ m. run_ticks F m xs n_soft decay_lambda) e in
      Remembers-cons s m _ x xs (step-memory s x n_soft decay_lambda first)
        (run_ticks-Remembers m xs n_soft decay_lambda rest)
