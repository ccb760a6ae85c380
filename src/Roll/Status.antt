-- ===== src/Roll/Status.antt =====
-- `RollStatus` and `roll_status` of v2/s4_0/contract_roll.py.
pub mod Windows
use multi_desk_trading.Common.{ℕ, String, Bool, not, ◌&&◌, Result, ok, ◌>>=◌, ltb, leb}
use multi_desk_trading.Common.Int.{ℤ}
use multi_desk_trading.Roll.Calendar.{
  RollError, ExchangeCalendar, business_days_before, business_days_until,
}
use multi_desk_trading.Roll.Contract.{ClContract, RollPolicy}

pub record RollStatus : Type 0 where
  pub symbol : String
  pub as_of_date : ℕ
  pub last_trade_date : ℕ
  pub no_new_trades_from : ℕ
  pub must_be_flat_by : ℕ
  pub business_days_to_last_trade : ℤ
  pub expired : Bool
  pub in_no_new_trades_window : Bool
  pub in_forced_flat_window : Bool
  pub can_open_new_trade : Bool

-- The status once the two dates of the policy are known.
abbrev pub status_at : ClContract → ℕ → ExchangeCalendar → ℕ → ℕ → RollStatus
status_at contract as_of_date c no_new flat =
    let expired = ltb contract.last_trade_date as_of_date in
    let in_no_new = leb no_new as_of_date in
    record {
      symbol = contract.symbol;
      as_of_date = as_of_date;
      last_trade_date = contract.last_trade_date;
      no_new_trades_from = no_new;
      must_be_flat_by = flat;
      business_days_to_last_trade = business_days_until c as_of_date contract.last_trade_date;
      expired = expired;
      in_no_new_trades_window = in_no_new;
      in_forced_flat_window = leb flat as_of_date;
      can_open_new_trade = not expired && not in_no_new;
    }

unfoldable pub roll_status :
    ClContract → ℕ → ExchangeCalendar → RollPolicy → Result RollError RollStatus
roll_status contract as_of_date c policy = do
  no_new ← business_days_before c contract.last_trade_date policy.no_new_trades_buffer_business_days
  flat ← business_days_before c contract.last_trade_date policy.must_be_flat_buffer_business_days
  ok (status_at contract as_of_date c no_new flat)
