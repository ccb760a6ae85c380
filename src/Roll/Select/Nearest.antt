-- ===== src/Roll/Select/Nearest.antt =====
-- The front contract that `select_front_next` returns is the nearest one that may be opened.
use multi_desk_trading.Common.{ℕ, ◌≤◌, ◌≡◌, true, List, ok, All}
use mathlib.Core.List.{Mem}
use multi_desk_trading.Roll.Calendar.{ExchangeCalendar}
use multi_desk_trading.Roll.Contract.{ClContract, RollPolicy}
use multi_desk_trading.Roll.Status.{RollStatus, roll_status}
use multi_desk_trading.Roll.Select.{FrontNextSelection, delivery_key}

module _ (as_of : ℕ) (c : ExchangeCalendar) (policy : RollPolicy) where
  -- The front may be opened, and no listed contract that may be opened delivers earlier.
  abbrev pub NoEarlier : ClContract → ClContract → Type 0
  NoEarlier front y =
      (s : RollStatus)
      → roll_status y as_of c policy ≡ ok s
      → s.can_open_new_trade ≡ true
      → delivery_key front ≤ delivery_key y

  record IsNearest (xs : List ClContract) (front next : ClContract) : Type 0 where
    earliest : All (NoEarlier front) xs
    behind : delivery_key front ≤ delivery_key next
    status : RollStatus
    own : roll_status front as_of c policy ≡ ok status
    opens : status.can_open_new_trade ≡ true

-- What a selection promises of the contracts that were given.
pub record IsSelection (as_of : ℕ) (c : ExchangeCalendar) (policy : RollPolicy)
    (contracts : List ClContract) (sel : FrontNextSelection) : Type 0 where
  pub front_listed : Mem sel.front contracts
  pub next_listed : Mem sel.next contracts
  pub front_own : roll_status sel.front as_of c policy ≡ ok sel.front_status
  pub next_own : roll_status sel.next as_of c policy ≡ ok sel.next_status
  pub front_opens : sel.front_status.can_open_new_trade ≡ true
  pub nearest : All (NoEarlier as_of c policy sel.front) contracts
  pub next_behind : delivery_key sel.front ≤ delivery_key sel.next
