-- ===== src/Roll/Status/Windows.antt =====
-- The windows of `roll_status`: their order, and when a contract may be opened.
use multi_desk_trading.Common.{
  ℕ, ◌≤◌, ◌<◌, ◌≡◌, ◌↔◌, true, false, ok, ◌>>=◌, >>=-eq-ok, ok-injective, arith, subst,
}
use multi_desk_trading.Common.Int.{pos, ltb_ℤ}
use multi_desk_trading.Roll.Calendar.{
  ExchangeCalendar, is_business_day, business_days_before, step_back,
}
use multi_desk_trading.Roll.Calendar.Steps.{step_back-le, step_back_mono, step_back-business}
use multi_desk_trading.Roll.Calendar.Count.{count_after-step_back, business_days_until-gt}
use multi_desk_trading.Roll.Contract.{ClContract, RollPolicy}
use multi_desk_trading.Roll.Status.{RollStatus, status_at, roll_status}

-- A policy that `RollPolicy(...)` accepts, by its two buffers.
abbrev policy_of : ℕ → ℕ → RollPolicy
policy_of no_new flat = record {
  no_new_trades_buffer_business_days = pos no_new;
  must_be_flat_buffer_business_days = pos flat;
}

-- The two dates behind a status.
record Dated (contract : ClContract) (c : ExchangeCalendar) (as_of m n : ℕ) (s : RollStatus)
    : Type 0 where
  no_new_date : ℕ
  flat_date : ℕ
  no_new_step : step_back c contract.last_trade_date m ≡ ok no_new_date
  flat_step : step_back c contract.last_trade_date n ≡ ok flat_date
  built : status_at contract as_of c no_new_date flat_date ≡ s

roll_status-Dated :
    (contract : ClContract) (c : ExchangeCalendar) (as_of m n : ℕ) {s : RollStatus}
    → roll_status contract as_of c (policy_of m n) ≡ ok s
    → Dated contract c as_of m n s
unfolding roll_status business_days_before
roll_status-Dated contract c as_of m n e =
    let last = contract.last_trade_date in
    let (a, first, rest) =
      >>=-eq-ok (step_back c last m)
        (λ d. step_back c last n >>= λ f. ok (status_at contract as_of c d f)) e in
    let (b, second, final) =
      >>=-eq-ok (step_back c last n) (λ f. ok (status_at contract as_of c a f)) rest in
    record {
      no_new_date = a;
      flat_date = b;
      no_new_step = first;
      flat_step = second;
      built = ok-injective final;
    }

-- The order of the windows of a status.
pub record IsOrdered (as_of : ℕ) (s : RollStatus) : Type 0 where
  pub no_new_le_flat : s.no_new_trades_from ≤ s.must_be_flat_by
  pub flat_le_last : s.must_be_flat_by ≤ s.last_trade_date
  pub expired_flat : s.expired ≡ true → s.in_forced_flat_window ≡ true
  pub flat_no_new : s.in_forced_flat_window ≡ true → s.in_no_new_trades_window ≡ true
  pub opens : (s.can_open_new_trade ≡ true) ↔ (as_of < s.no_new_trades_from)

-- With a flat buffer of at most the no-new-trades buffer the windows open in order and stay open:
-- the no-new-trades date is no later than the flat date, which is no later than the last trade date;
-- an expired contract is in both windows, one that must be flat takes no new trades, and a new trade
-- is allowed exactly before the first date.
pub roll_status-IsOrdered :
    (contract : ClContract) (c : ExchangeCalendar) (as_of m n : ℕ) {s : RollStatus}
    → n ≤ m
    → roll_status contract as_of c (policy_of m n) ≡ ok s
    → IsOrdered as_of s
roll_status-IsOrdered contract c as_of m n {s} le e =
    let d = roll_status-Dated contract c as_of m n e in
    let last = contract.last_trade_date in
    let apart = step_back_mono c last n m le d.flat_step d.no_new_step in
    let before = step_back-le c last n d.flat_step in
    subst (IsOrdered as_of) d.built (record {
      no_new_le_flat = apart;
      flat_le_last = omega (arith, before);
      expired_flat = ground arith;
      flat_no_new = ground arith;
      opens = (ground arith, ground arith);
    })

-- A contract whose last trade date is a business day may be opened exactly when more business days
-- are left to its last trade date than the no-new-trades buffer.
pub roll_status-can_open :
    (contract : ClContract) (c : ExchangeCalendar) (as_of m n : ℕ) {s : RollStatus}
    → is_business_day c contract.last_trade_date ≡ true
    → roll_status contract as_of c (policy_of m n) ≡ ok s
    → (s.can_open_new_trade ≡ true) ↔ (ltb_ℤ (pos m) s.business_days_to_last_trade ≡ true)
roll_status-can_open contract c as_of m n {s} h e =
    let d = roll_status-Dated contract c as_of m n e in
    let last = contract.last_trade_date in
    let back = step_back-le c last m d.no_new_step in
    let counted =
      business_days_until-gt c d.no_new_date last m as_of (omega arith)
        (step_back-business c last m d.no_new_step h)
        (count_after-step_back c last m h d.no_new_step) in
    subst Opens d.built
      (λ opened. counted.0 (ground arith), λ left. let early = counted.1 left in ground arith)
  where
    Opens : RollStatus → Type 0
    Opens s = (s.can_open_new_trade ≡ true) ↔ (ltb_ℤ (pos m) s.business_days_to_last_trade ≡ true)

-- Once a contract can no longer be opened, it cannot be opened on any later date.
pub roll_status-closed :
    (contract : ClContract) (c : ExchangeCalendar) (policy : RollPolicy) (as_of later : ℕ)
    {s t : RollStatus}
    → as_of ≤ later
    → roll_status contract as_of c policy ≡ ok s
    → roll_status contract later c policy ≡ ok t
    → s.can_open_new_trade ≡ false
    → t.can_open_new_trade ≡ false
unfolding roll_status
roll_status-closed contract c policy as_of later le es et h = ground arith
