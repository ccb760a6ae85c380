-- ===== src/Roll/Select.antt =====
-- `FrontNextSelection` and `select_front_next` of v2/s4_0/contract_roll.py.
mod Sorting
mod Statuses
pub mod Nearest
use text.Mathlib.Text.{◌==◌ as str_eq}
use multi_desk_trading.Common.{
  ℕ, String, Option, none, some, List, [], ◌∷◌, Result, ok, err, ◌>>=◌, leb, if◌then◌else◌,
}
use multi_desk_trading.Roll.Calendar.{
  RollError, unknown_symbol, no_tradeable_front, no_listed_next, ExchangeCalendar,
}
use multi_desk_trading.Roll.Dates.{to_ordinal}
use multi_desk_trading.Roll.Contract.{ClContract, RollPolicy}
use multi_desk_trading.Roll.Status.{RollStatus, roll_status}

pub record FrontNextSelection : Type 0 where
  pub front : ClContract
  pub next : ClContract
  pub front_status : RollStatus
  pub next_status : RollStatus
  pub policy : RollPolicy
  pub source_of_truth : String

-- The sort key: the delivery month.
abbrev pub delivery_key : ClContract → ℕ
delivery_key contract = to_ordinal contract.delivery_month

-- Python's `sorted` keeps the order of equal keys: an element goes before those of its own key
-- that stood behind it.
unfoldable pub insert_sorted : ClContract → List ClContract → List ClContract
insert_sorted x [] = x ∷ []
insert_sorted x (y ∷ ys) =
    if leb (delivery_key x) (delivery_key y) then x ∷ y ∷ ys else y ∷ insert_sorted x ys

unfoldable pub sort_listed : List ClContract → List ClContract
unfolding insert_sorted
sort_listed [] = []
sort_listed (x ∷ xs) = insert_sorted x (sort_listed xs)

-- The `statuses` dictionary as its list of assignments; the last one to a symbol counts.
unfoldable pub statuses_of :
    List ClContract → ℕ → ExchangeCalendar → RollPolicy → Result RollError (List RollStatus)
statuses_of [] as_of c policy = ok []
statuses_of (x ∷ xs) as_of c policy = do
  status ← roll_status x as_of c policy
  rest ← statuses_of xs as_of c policy
  ok (status ∷ rest)

-- `statuses.get(symbol)`
unfoldable pub find_status : String → List RollStatus → Option RollStatus
find_status symbol [] = none
find_status symbol (s ∷ ss) = elim (find_status symbol ss) [
  | some t ↦ some t
  | none ↦ if str_eq s.symbol symbol then some s else none
]

-- `statuses[symbol]`
unfoldable pub get_status : List RollStatus → String → Result RollError RollStatus
unfolding find_status
get_status statuses symbol = elim (find_status symbol statuses) [
  | none ↦ err unknown_symbol
  | some s ↦ ok s
]

-- The front is the first contract that may be opened, the next the one listed behind it.
unfoldable pub front_and_next :
    List RollStatus → List ClContract → Result RollError (ClContract × ClContract)
unfolding get_status
front_and_next statuses [] = err no_tradeable_front
front_and_next statuses (x ∷ []) = do
  status ← get_status statuses x.symbol
  if status.can_open_new_trade then err no_listed_next else err no_tradeable_front
front_and_next statuses (x ∷ y ∷ ys) = do
  let later = front_and_next statuses (y ∷ ys)
  status ← get_status statuses x.symbol
  if status.can_open_new_trade then ok (x, y) else later

-- The returned record, with the statuses of the two contracts.
unfoldable pub selection :
    RollPolicy
    → String
    → List RollStatus
    → ClContract × ClContract
    → Result RollError FrontNextSelection
unfolding get_status
selection policy source_of_truth statuses (front, next) = do
  front_status ← get_status statuses front.symbol
  next_status ← get_status statuses next.symbol
  ok (record {
    front = front;
    next = next;
    front_status = front_status;
    next_status = next_status;
    policy = policy;
    source_of_truth = source_of_truth;
  })

unfoldable pub select_front_next :
    List ClContract
    → ℕ
    → ExchangeCalendar
    → RollPolicy
    → String
    → Result RollError FrontNextSelection
unfolding sort_listed statuses_of front_and_next selection
select_front_next contracts as_of c policy source_of_truth = do
  let listed = sort_listed contracts
  statuses ← statuses_of listed as_of c policy
  chosen ← front_and_next statuses listed
  selection policy source_of_truth statuses chosen
