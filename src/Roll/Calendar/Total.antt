-- ===== src/Roll/Calendar/Total.antt =====
-- `prior_business_day` ends: a finite set of holidays cannot cover every weekday.
use Prim.Native.Nat.{min}
use multi_desk_trading.Common.{
  ℕ, zero, suc, ◌+◌, ◌-◌, ◌*◌, ◌/◌, ◌%◌, ◌≤◌, ◌<◌, ◌≡◌, inl, inr, true, List, ok, arith, ltb,
  if◌then◌else◌, contains, remove, length, length-remove, contains-remove_ne, Bool-cases,
  Result-cases,
}
use multi_desk_trading.Roll.Calendar.{
  weekday, ExchangeCalendar, is_business_day, prior_business_day,
}
use multi_desk_trading.Roll.Calendar.Prior.{NoneBetween, prior_business_day-IsPrior}

-- The days from Monday to Friday among 1, ..., n.
weekdays_to : ℕ → ℕ
weekdays_to zero = 0
weekdays_to (suc n) = weekdays_to n + (if ltb (weekday (suc n)) 5 then 1 else 0)

weekdays_to_lem : (n : ℕ) → weekdays_to n ≡ 5 * (n / 7) + min (n % 7) 5
unfolding weekdays_to
weekdays_to_lem zero = omega arith
weekdays_to_lem (suc n) = ground (arith, weekdays_to_lem n)

-- Every weekday among 1, ..., n is in the list.
abbrev Covers : List ℕ → ℕ → Type 0
Covers hs n = (m : ℕ) → 1 ≤ m → m ≤ n → ltb (weekday m) 5 ≡ true → contains m hs ≡ true

Covers-remove : (hs : List ℕ) (n : ℕ) → Covers hs (suc n) → Covers (remove (suc n) hs) n
Covers-remove hs n h m lo hi w =
    contains-remove_ne (suc n) m hs (h m lo (omega arith) w) (ground arith)

weekdays-le-length : (n : ℕ) (hs : List ℕ) → Covers hs n → weekdays_to n ≤ length hs
unfolding weekdays_to
weekdays-le-length zero hs h = omega arith
weekdays-le-length (suc n) hs h = elim (Bool-cases (ltb (weekday (suc n)) 5)) [
  | inl work ↦ rw work (
      omega (
        arith,
        weekdays-le-length n (remove (suc n) hs) (Covers-remove hs n h),
        length-remove (suc n) hs (h (suc n) (omega arith) (omega arith) work),
      ))
  | inr rest ↦
      rw rest (omega (arith, weekdays-le-length n hs (λ m lo hi w. h m lo (omega arith) w)))
]

NoneBetween-Covers : (c : ExchangeCalendar) (n : ℕ) → NoneBetween c 1 (suc n) → Covers c.holidays n
unfolding is_business_day
NoneBetween-Covers c n h m lo hi w = ground (arith, h m lo (omega arith))

-- On a date with more weekdays before it, counted in whole weeks from `date.min`, than the
-- calendar has holidays, `prior_business_day` returns a day and does not run below `date.min`.
pub prior_business_day-total :
    (c : ExchangeCalendar) (day : ℕ)
    → length c.holidays < 5 * ((day - 1) / 7)
    → (p : ℕ) × (prior_business_day c day ≡ ok p)
prior_business_day-total c zero h = absurd (omega arith)
prior_business_day-total c (suc n) h = elim (Result-cases (prior_business_day c (suc n))) [
  | inl found ↦ found
  | inr (e, raised) ↦
      let none_open = (rw raised at (prior_business_day-IsPrior c (suc n))) in
      absurd (
        omega (
          arith,
          weekdays-le-length n c.holidays (NoneBetween-Covers c n none_open.1),
          weekdays_to_lem n,
        ))
]
