-- ===== src/Roll/Calendar/Prior.antt =====
-- The day that `prior_business_day` returns is the last business day before its argument.
use multi_desk_trading.Common.{
  ℕ, zero, suc, ◌≤◌, ◌<◌, ◌≡◌, refl, ◌⊎◌, inl, inr, true, false, Result, ok, err, arith, Bool-cases,
}
use multi_desk_trading.Roll.Calendar.{
  RollError, date_overflow, ExchangeCalendar, is_business_day, prior_business_day,
}

-- No day from `lo` up to and without `hi` is a business day.
abbrev pub NoneBetween : ExchangeCalendar → ℕ → ℕ → Type 0
NoneBetween c lo hi = (m : ℕ) → lo ≤ m → m < hi → is_business_day c m ≡ false

-- What a call on `day` may return: the last business day before it, or an overflow where no
-- day from `date.min` on is one.
abbrev pub IsPrior : ExchangeCalendar → ℕ → Result RollError ℕ → Type 0
IsPrior c day (ok p) =
    (1 ≤ p) × (p < day) × (is_business_day c p ≡ true) × NoneBetween c (suc p) day
IsPrior c day (err e) = (e ≡ date_overflow) × NoneBetween c 1 day

lt-suc_cases : (m day : ℕ) → m < suc day → (m < day) ⊎ (m ≡ day)
lt-suc_cases m day h = omega arith

pub NoneBetween-suc :
    (c : ExchangeCalendar) (lo day : ℕ)
    → is_business_day c day ≡ false
    → NoneBetween c lo day
    → NoneBetween c lo (suc day)
NoneBetween-suc c lo day e h m low hi = elim (lt-suc_cases m day hi) [
  | inl before ↦ h m low before
  | inr same ↦ rw same e
]

IsPrior-suc :
    (c : ExchangeCalendar) (day : ℕ) (r : Result RollError ℕ)
    → is_business_day c day ≡ false
    → IsPrior c day r
    → IsPrior c (suc day) r
IsPrior-suc c day (ok p) e h = (h.0, omega (arith, h.1), h.2, NoneBetween-suc c (suc p) day e h.3)
IsPrior-suc c day (err x) e h = (h.0, NoneBetween-suc c 1 day e h.1)

-- On every date, `prior_business_day` returns the greatest business day before it, or raises an
-- overflow when none of the days from `date.min` on is one.
pub prior_business_day-IsPrior :
    (c : ExchangeCalendar) (day : ℕ) → IsPrior c day (prior_business_day c day)
unfolding prior_business_day
prior_business_day-IsPrior c zero = (refl, λ m lo hi. elim hi [ ])
prior_business_day-IsPrior c (suc zero) = (refl, λ m lo hi. absurd (omega arith))
prior_business_day-IsPrior c (suc (suc day)) = elim (Bool-cases (is_business_day c (suc day))) [
  | inl open_day ↦ rw open_day (omega arith, omega arith, open_day, λ m lo hi. absurd (omega arith))
  | inr shut_day ↦ rw shut_day (
      IsPrior-suc c (suc day) (prior_business_day c (suc day)) shut_day
        (prior_business_day-IsPrior c (suc day)))
]
