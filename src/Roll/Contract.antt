-- ===== src/Roll/Contract.antt =====
-- `ClContract`, `RollPolicy`, `cl_last_trade_date` and `_parse_contract_year` of
-- v2/s4_0/contract_roll.py. Symbols are ASCII text; `int(s)` of digits is their decimal value.
pub mod Expiry
pub mod Years
use Prim.Native.Char.{code}
use multi_desk_trading.Common.{
  ℕ, zero, suc, ◌+◌, ◌-◌, ◌*◌, ◌/◌, ◌<◌, String, Bool, true, false, not, ◌&&◌, ◌||◌, Option, none,
  some, List, [], ◌∷◌, Result, ok, err, ◌>>=◌, ◌>>◌, raise_if, ltb, leb, ◌==◌, if◌then◌else◌,
  length,
}
use multi_desk_trading.Common.Int.{ℤ, pos, ltb_ℤ}
use multi_desk_trading.Roll.Calendar.{
  RollError, negative_no_new_trades, negative_must_be_flat, flat_before_no_new, not_cl_symbol,
  unknown_month_code, unknown_year_code, unsupported_year_code, ExchangeCalendar, is_business_day,
  prior_business_day, business_days_before,
}
use multi_desk_trading.Roll.Dates.{Date, to_ordinal, make_date}

pub record RollPolicy : Type 0 where
  pub no_new_trades_buffer_business_days : ℤ
  pub must_be_flat_buffer_business_days : ℤ

-- `RollPolicy(...)`, with the checks of `__post_init__`.
pub make_policy : ℤ → ℤ → Result RollError RollPolicy
make_policy no_new flat = do
  raise_if (ltb_ℤ no_new (pos 0)) negative_no_new_trades
  raise_if (ltb_ℤ flat (pos 0)) negative_must_be_flat
  raise_if (ltb_ℤ no_new flat) flat_before_no_new
  ok (record {
    no_new_trades_buffer_business_days = no_new;
    must_be_flat_buffer_business_days = flat;
  })

pub record ClContract : Type 0 where
  pub symbol : String
  pub delivery_month : Date
  pub last_trade_date : ℕ

-- `_MONTH_CODES.get(code)`
unfoldable pub month_of_code : ℕ → Option ℕ
month_of_code c =
    if c == b'F'
    then some 1
    else if c == b'G'
    then some 2
    else if c == b'H'
    then some 3
    else if c == b'J'
    then some 4
    else if c == b'K'
    then some 5
    else if c == b'M'
    then some 6
    else if c == b'N'
    then some 7
    else if c == b'Q'
    then some 8
    else if c == b'U'
    then some 9
    else if c == b'V'
    then some 10
    else if c == b'X'
    then some 11
    else if c == b'Z'
    then some 12
    else none

-- The 25th of the month before the delivery month.
unfoldable pub anchor_date : Date → Result RollError Date
anchor_date delivery =
    if ltb 1 delivery.month
    then make_date delivery.year (delivery.month - 1) 25
    else make_date (delivery.year - 1) 12 25

-- The day itself where it is a business day, else the business day before it.
unfoldable pub roll_back : ExchangeCalendar → ℕ → Result RollError ℕ
roll_back c day = if is_business_day c day then ok day else prior_business_day c day

unfoldable pub cl_last_trade_date : ExchangeCalendar → Date → Result RollError ℕ
unfolding anchor_date roll_back
cl_last_trade_date c delivery = do
  date ← anchor_date delivery
  anchor ← roll_back c (to_ordinal date)
  business_days_before c anchor (pos 3)

-- `_parse_contract_year` on the digits of the year code.
unfoldable pub parse_contract_year : List ℕ → ℕ → Result RollError ℕ
parse_contract_year (d ∷ []) base =
    let year = base / 10 * 10 + d in ok (if ltb year (base - 5) then year + 10 else year)
parse_contract_year (d ∷ e ∷ []) base =
    let year = base / 100 * 100 + (d * 10 + e) in
    ok (if ltb year (base - 50) then year + 100 else year)
parse_contract_year _ base = err unsupported_year_code

-- `str.upper()` of one ASCII character.
abbrev upper : ℕ → ℕ
upper c = if leb b'a' c && leb c b'z' then c - 32 else c

abbrev codes : String → List ℕ
codes String.[] = []
codes (String.◌∷◌ c s) = code c ∷ codes s

abbrev all_digits : List ℕ → Bool
all_digits [] = true
all_digits (c ∷ cs) = leb b'0' c && leb c b'9' && all_digits cs

abbrev digit_values : List ℕ → List ℕ
digit_values [] = []
digit_values (c ∷ cs) = (c - b'0') ∷ digit_values cs

abbrev or_raise {ℓ} : {A : Type ℓ} → Option A → RollError → Result RollError A
or_raise none e = err e
or_raise (some a) e = ok a

-- The month and the digits of the year code of a symbol.
unfoldable pub split_symbol : List ℕ → Result RollError (ℕ × List ℕ)
unfolding month_of_code
split_symbol (c ∷ l ∷ m ∷ y ∷ ys) = do
  raise_if (not (c == b'C' && l == b'L')) not_cl_symbol
  month ← or_raise (month_of_code (upper m)) unknown_month_code
  raise_if (not (all_digits (y ∷ ys))) unknown_year_code
  ok (month, digit_values (y ∷ ys))
split_symbol _ = err not_cl_symbol

-- `ClContract.from_symbol`
unfoldable pub from_symbol : ExchangeCalendar → ℕ → String → Result RollError ClContract
unfolding split_symbol parse_contract_year make_date cl_last_trade_date
from_symbol c year_digit_base symbol = do
  (month, digits) ← split_symbol (codes symbol)
  year ← parse_contract_year digits year_digit_base
  delivery ← make_date year month 1
  last ← cl_last_trade_date c delivery
  ok (record { symbol = symbol; delivery_month = delivery; last_trade_date = last })
