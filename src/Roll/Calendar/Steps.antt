-- ===== src/Roll/Calendar/Steps.antt =====
-- `business_days_before`: how far it goes back, and that it composes.
use multi_desk_trading.Common.{
  ℕ, zero, suc, ◌+◌, ◌-◌, ◌≤◌, ◌≡◌, sym, true, inl, inr, ok, ◌>>=◌, ok-injective, arith,
  Result-cases, >>=-eq-ok, ◌∙◌, ap,
}
use multi_desk_trading.Roll.Calendar.{
  ExchangeCalendar, is_business_day, prior_business_day, step_back,
}
use multi_desk_trading.Roll.Calendar.Prior.{IsPrior, prior_business_day-IsPrior}

-- What a successful call of `prior_business_day` says of its result.
pub prior_business_day-eq-ok :
    (c : ExchangeCalendar) (day : ℕ) {p : ℕ}
    → prior_business_day c day ≡ ok p
    → IsPrior c day (ok p)
prior_business_day-eq-ok c day e = rw e at (prior_business_day-IsPrior c day)

-- Every step goes back by a day at least, and ends on a business day.
pub step_back-le :
    (c : ExchangeCalendar) (day n : ℕ) {p : ℕ} → step_back c day n ≡ ok p → p + n ≤ day
unfolding step_back
step_back-le c day zero e = ground arith
step_back-le c day (suc n) e =
    let (q, first, rest) = >>=-eq-ok (prior_business_day c day) (λ d. step_back c d n) e in
    omega (arith, (prior_business_day-eq-ok c day first).1, step_back-le c q n rest)

pub step_back-business :
    (c : ExchangeCalendar) (day n : ℕ) {p : ℕ}
    → step_back c day n ≡ ok p
    → is_business_day c day ≡ true
    → is_business_day c p ≡ true
unfolding step_back
step_back-business c day zero e h = ground arith
step_back-business c day (suc n) e h =
    let (q, first, rest) = >>=-eq-ok (prior_business_day c day) (λ d. step_back c d n) e in
    step_back-business c q n rest ((prior_business_day-eq-ok c day first).2)

-- Going back by `m + n` days is going back by `m` and then by `n`.
pub step_back-add :
    (c : ExchangeCalendar) (day m n : ℕ)
    → step_back c day (m + n) ≡ (step_back c day m >>= λ d. step_back c d n)
unfolding step_back
step_back-add c day zero n = ap (step_back c day) (omega arith)
step_back-add c day (suc m) n =
    ap (step_back c day) (suc-add m n) ∙ elim (Result-cases (prior_business_day c day)) [
      | inl (q, e) ↦ rw (e, ◌>>=◌) (step_back-add c q m n)
      | inr (x, e) ↦ rw (e, ◌>>=◌)
    ]
  where
    suc-add : (a b : ℕ) → suc a + b ≡ suc (a + b)
    suc-add a b = omega arith

-- A larger number of days goes back at least as far.
pub step_back_mono :
    (c : ExchangeCalendar) (day m n : ℕ) {p q : ℕ}
    → m ≤ n
    → step_back c day m ≡ ok p
    → step_back c day n ≡ ok q
    → q ≤ p
step_back_mono c day m n {p} {q} le em en = omega (arith, step_back-le c p (n - m) onward)
  where
    onward : step_back c p (n - m) ≡ ok q
    onward =
        let (d, first, rest) =
          >>=-eq-ok (step_back c day m) (λ d. step_back c d (n - m))
            (sym (step_back-add c day m (n - m)) ∙ ap (step_back c day) (omega arith) ∙ en) in
        (ap (λ d. step_back c d (n - m)) (ok-injective (sym em ∙ first))) ∙ rest
