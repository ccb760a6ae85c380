-- ===== src/Roll/Contract/Years.antt =====
-- `_parse_contract_year`: which years one and two digits stand for.
use Prim.Native.Nat.{max}
use multi_desk_trading.Common.{ℕ, ◌+◌, ◌-◌, ◌*◌, ◌/◌, ◌%◌, ◌≤◌, ◌<◌, ◌≡◌, [], ◌∷◌, ok, arith}
use multi_desk_trading.Roll.Contract.{parse_contract_year}

-- The ten years from the start of the base's decade, or from five years before the base where
-- that is later, are each read back from their last digit.
pub parse_contract_year_digit :
    (base year : ℕ)
    → max (base / 10 * 10) (base - 5) ≤ year
    → year < max (base / 10 * 10) (base - 5) + 10
    → parse_contract_year (year % 10 ∷ []) base ≡ ok year
unfolding parse_contract_year
parse_contract_year_digit base year lo hi = ground arith

-- The hundred years from the start of the base's century, or from fifty years before the base
-- where that is later, are each read back from their last two digits.
pub parse_contract_year_digits :
    (base year : ℕ)
    → max (base / 100 * 100) (base - 50) ≤ year
    → year < max (base / 100 * 100) (base - 50) + 100
    → parse_contract_year (year / 10 % 10 ∷ year % 10 ∷ []) base ≡ ok year
unfolding parse_contract_year
parse_contract_year_digits base year lo hi = ground arith
