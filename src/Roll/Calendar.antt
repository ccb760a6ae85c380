-- ===== src/Roll/Calendar.antt =====
-- `ExchangeCalendar` of v2/s4_0/contract_roll.py. A `date` is its proleptic ordinal, as in
-- `date.toordinal()`: `date.min` is 1 and day 1 is a Monday. Stepping below `date.min` raises.
pub mod Prior
pub mod Steps
pub mod Total
pub mod Count
use multi_desk_trading.Common.{
  ℕ, zero, suc, ◌+◌, ◌%◌, Bool, not, ◌&&◌, List, Result, ok, err, ◌>>=◌, ltb, contains,
  if◌then◌else◌, ◌-◌,
}
use multi_desk_trading.Common.Int.{ℤ, pos, negsuc, neg}

-- The exceptions of the module: each `ValueError` by its message, and `OverflowError` of `date`.
pub data RollError : Type 0 where
  negative_n : RollError
  date_overflow : RollError
  negative_no_new_trades negative_must_be_flat flat_before_no_new : RollError
  year_out_of_range : RollError
  unknown_symbol : RollError
  not_cl_symbol unknown_month_code unknown_year_code unsupported_year_code : RollError
  no_tradeable_front no_listed_next : RollError

pub record ExchangeCalendar : Type 0 where
  pub holidays : List ℕ

-- `date.weekday()`: Monday is 0.
abbrev pub weekday : ℕ → ℕ
weekday day = (day + 6) % 7

unfoldable pub is_business_day : ExchangeCalendar → ℕ → Bool
is_business_day c day = ltb (weekday day) 5 && not (contains day c.holidays)

-- The `while` loop, by recursion on the day: `current` is the day before the argument, and
-- there is no day before `date.min`.
unfoldable pub prior_business_day : ExchangeCalendar → ℕ → Result RollError ℕ
prior_business_day c zero = err date_overflow
prior_business_day c (suc zero) = err date_overflow
prior_business_day c (suc (suc day)) =
    if is_business_day c (suc day) then ok (suc day) else prior_business_day c (suc day)

-- The `for _ in range(n)` loop of `business_days_before`.
unfoldable pub step_back : ExchangeCalendar → ℕ → ℕ → Result RollError ℕ
step_back c day zero = ok day
step_back c day (suc n) = do current ← prior_business_day c day; step_back c current n

unfoldable pub business_days_before : ExchangeCalendar → ℕ → ℤ → Result RollError ℕ
unfolding step_back
business_days_before c day (pos n) = step_back c day n
business_days_before c day (negsuc _) = err negative_n

-- The `while` loop of `business_days_until` over the `n` days after `start`.
unfoldable pub count_after : ExchangeCalendar → ℕ → ℕ → ℕ
count_after c start zero = 0
count_after c start (suc n) =
    count_after c start n + (if is_business_day c (start + suc n) then 1 else 0)

unfoldable pub business_days_until : ExchangeCalendar → ℕ → ℕ → ℤ
unfolding count_after neg
business_days_until c start end =
    if ltb end start
    then neg (pos (count_after c end (start - end)))
    else pos (count_after c start (end - start))
