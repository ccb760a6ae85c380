-- ===== src/Common/Time.antt =====
-- Python's `datetime` as microseconds from the start of the year 1, with or without a time zone. An
-- aware time is kept in UTC, so that its order and its differences are those of the numbers.
use multi_desk_trading.Common.Int.{ℤ}
use mathlib.Core.Bool.{Bool, true, false}

pub data Datetime : Type 0 where
  naive aware : ℤ → Datetime

-- `ts.tzinfo is None`
abbrev pub is_naive : Datetime → Bool
is_naive (naive t) = true
is_naive (aware t) = false

abbrev pub micros : Datetime → ℤ
micros (naive t) = t
micros (aware t) = t
