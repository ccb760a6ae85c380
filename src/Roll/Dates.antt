-- ===== src/Roll/Dates.antt =====
-- The parts of Python's `datetime.date` that v2/s4_0/contract_roll.py uses: the constructor, which
-- refuses a year outside 1, ..., 9999, and the ordinal of a date.
use multi_desk_trading.Common.{
  List, [], ◌∷◌, get_or, ℕ, ◌+◌, ◌-◌, ◌*◌, ◌/◌, ◌%◌, Bool, not, ◌&&◌, ◌||◌, Result, ok, err, ltb,
  ◌==◌, if◌then◌else◌,
}
use multi_desk_trading.Roll.Calendar.{RollError, year_out_of_range}

pub record Date : Type 0 where
  pub year : ℕ
  pub month : ℕ
  pub day : ℕ

abbrev is_leap : ℕ → Bool
is_leap y = y % 4 == 0 && (not (y % 100 == 0) || y % 400 == 0)

-- The days before January 1st of the year.
abbrev days_before_year : ℕ → ℕ
days_before_year y = (y - 1) * 365 + (y - 1) / 4 - (y - 1) / 100 + (y - 1) / 400

-- The days of a common year before the month, as in the table of the `datetime` module.
abbrev month_table : List ℕ
month_table = 0 ∷ 0 ∷ 31 ∷ 59 ∷ 90 ∷ 120 ∷ 151 ∷ 181 ∷ 212 ∷ 243 ∷ 273 ∷ 304 ∷ 334 ∷ []

days_to_month : ℕ → ℕ
days_to_month m = get_or month_table m 0

days_before_month : ℕ → ℕ → ℕ
unfolding days_to_month
days_before_month y m = days_to_month m + (if ltb 2 m && is_leap y then 1 else 0)

-- `date.toordinal()`
unfoldable pub to_ordinal : Date → ℕ
unfolding days_before_month
to_ordinal d = days_before_year d.year + days_before_month d.year d.month + d.day

-- `date(year, month, day)` for a month and a day that every year has.
unfoldable pub make_date : ℕ → ℕ → ℕ → Result RollError Date
make_date y m d =
    if y == 0 || ltb 9999 y
    then err year_out_of_range
    else ok (record { year = y; month = m; day = d })
