-- ===== src/Roll/Tests.antt =====
-- Runs of the roll model on the contracts of May and June 2026, and the theorems at them.
use text.Mathlib.Text.{◌==◌ as str_eq}
use multi_desk_trading.Common.{ℕ, ◌≡◌, refl, ◌<◌, ◌↔◌, true, [], ◌∷◌, ok, err, arith}
use multi_desk_trading.Common.Int.{pos, neg, ltb_ℤ}
use multi_desk_trading.Roll.Calendar.{
  not_cl_symbol, ExchangeCalendar, is_business_day, prior_business_day, business_days_before,
  count_after, business_days_until,
}
use multi_desk_trading.Roll.Calendar.Prior.{IsPrior, prior_business_day-IsPrior}
use multi_desk_trading.Roll.Calendar.Total.{prior_business_day-total}
use multi_desk_trading.Roll.Calendar.Count.{business_days_until-before}
use multi_desk_trading.Roll.Dates.{Date, to_ordinal, make_date}
use multi_desk_trading.Roll.Contract.{ClContract, RollPolicy, cl_last_trade_date, from_symbol}
use multi_desk_trading.Roll.Contract.Expiry.{cl_last_trade_date-three}
use multi_desk_trading.Roll.Status.{RollStatus, status_at, roll_status}
use multi_desk_trading.Roll.Status.Windows.{IsOrdered, roll_status-IsOrdered, roll_status-can_open}
use multi_desk_trading.Roll.Select.{FrontNextSelection}

-- Good Friday and Easter Monday of 2026.
abbrev easter : ExchangeCalendar
easter = record { holidays = 739709 ∷ 739712 ∷ [] }

abbrev may_delivery : Date
may_delivery = record { year = 2026; month = 5; day = 1 }

abbrev clk6 : ClContract
clk6 = record { symbol = "CLK6"; delivery_month = may_delivery; last_trade_date = 739727 }

abbrev clm6 : ClContract
clm6 = record {
  symbol = "CLM6";
  delivery_month = record { year = 2026; month = 6; day = 1 };
  last_trade_date = 739756;
}

abbrev policy : RollPolicy
policy = record {
  no_new_trades_buffer_business_days = pos 5;
  must_be_flat_buffer_business_days = pos 3;
}

from_symbol-clk6 : from_symbol easter 2020 "CLK6" ≡ ok clk6
unfolding from_symbol business_days_before prior_business_day is_business_day to_ordinal
from_symbol-clk6 = refl

from_symbol-clm6 : from_symbol easter 2020 "clm6" ≡ err not_cl_symbol
unfolding from_symbol
from_symbol-clm6 = refl

-- The day before Easter Tuesday is Maundy Thursday.
prior_business_day-IsPrior_example : IsPrior easter 739713 (ok 739708)
unfolding prior_business_day is_business_day
prior_business_day-IsPrior_example = prior_business_day-IsPrior easter 739713

prior_business_day-total_example : (p : ℕ) × (prior_business_day easter 739713 ≡ ok p)
prior_business_day-total_example = prior_business_day-total easter 739713 (omega arith)

business_days_until-before_example :
    (business_days_until easter 739707 739714 ≡ pos 3)
    × (business_days_until easter 739714 739707 ≡ neg (pos 3))
unfolding is_business_day business_days_before prior_business_day
business_days_until-before_example = business_days_until-before easter 739714 3 refl refl

cl_last_trade_date-three_example :
    (is_business_day easter 739727 ≡ true) × (739727 < 739731) × (count_after easter 739727 4 ≡ 3)
unfolding is_business_day cl_last_trade_date business_days_before prior_business_day to_ordinal
    make_date
cl_last_trade_date-three_example =
    cl_last_trade_date-three easter may_delivery
      {date = record { year = 2026; month = 4; day = 25 }} {last = 739727} refl refl

-- The status of the May contract on April 10th, 2026.
abbrev clk6_status : RollStatus
clk6_status = status_at clk6 739716 easter 739720 739722

clk6_status_lem : roll_status clk6 739716 easter policy ≡ ok clk6_status
unfolding roll_status business_days_before prior_business_day is_business_day
clk6_status_lem = refl

roll_status-IsOrdered_example : IsOrdered 739716 clk6_status
roll_status-IsOrdered_example =
    roll_status-IsOrdered clk6 easter 739716 5 3 (omega arith) clk6_status_lem

roll_status-can_open_example :
    (clk6_status.can_open_new_trade ≡ true)
    ↔ (ltb_ℤ (pos 5) clk6_status.business_days_to_last_trade ≡ true)
unfolding is_business_day
roll_status-can_open_example = roll_status-can_open clk6 easter 739716 5 3 refl clk6_status_lem

-- On April 15th it is in the first window, and so it is on the 24th.
abbrev later_status : ℕ → RollStatus
later_status day = status_at clk6 day easter 739720 739722

-- Listed out of order; on April 15th the May contract is closed, so June is the front.
abbrev cln6 : ClContract
cln6 = record {
  symbol = "CLN6";
  delivery_month = record { year = 2026; month = 7; day = 1 };
  last_trade_date = 739789;
}

abbrev june_july : FrontNextSelection
june_july = record {
  front = clm6;
  next = cln6;
  front_status = status_at clm6 739721 easter 739749 739751;
  next_status = status_at cln6 739721 easter 739782 739784;
  policy = policy;
  source_of_truth = "fixture";
}
