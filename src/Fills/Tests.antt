-- ===== src/Fills/Tests.antt =====
-- A purchase against a book of two levels, and the theorems at it.
use multi_desk_trading.Common.{◌≡◌, refl, some, List, [], ◌∷◌, ◌++◌}
use multi_desk_trading.Common.Int.{ℤ, pos, ◌+ℤ◌, ◌-ℤ◌}
use multi_desk_trading.Common.Float.Fixed.{fixed, fixed_laws}
use multi_desk_trading.Fills.{
  buy, MbpLevel, MbpOrder, validate_order, validate_book, validate, validate_levels, validate_top,
  fill_levels, filled_result, result_of, simulate_mbp10_fill,
}
use multi_desk_trading.Fills.Slices.{IsTaken, simulate_mbp10_fill-IsTaken}
use multi_desk_trading.Fills.Books.{IsBestFirst, simulate_mbp10_fill-IsBestFirst}

abbrev sum_fixed : List ℤ → ℤ
unfolding ◌+ℤ◌
sum_fixed [] = pos 0
sum_fixed (x ∷ xs) = x +ℤ sum_fixed xs

-- Three at 70.01, then five at 70.02.
abbrev two_levels : List (MbpLevel fixed)
two_levels =
    record {
      bid_price = pos 70000;
      bid_size = pos 4000;
      ask_price = pos 70010;
      ask_size = pos 3000;
    }
    ∷ record {
      bid_price = pos 69990;
      bid_size = pos 6000;
      ask_price = pos 70020;
      ask_size = pos 5000;
    }
    ∷ []

abbrev purchase : MbpOrder fixed
purchase = record {
  order_id = "o1";
  symbol = "CLZ26";
  side = buy;
  quantity = pos 4000;
  limit_price = some (pos 70050);
}

simulate_mbp10_fill-IsTaken_example :
    ((simulate_mbp10_fill fixed sum_fixed purchase two_levels).errors
      ≡ validate_order fixed purchase ++ validate_book fixed two_levels)
    × IsTaken fixed purchase 1 two_levels
        (simulate_mbp10_fill fixed sum_fixed purchase two_levels).slices
simulate_mbp10_fill-IsTaken_example =
    simulate_mbp10_fill-IsTaken fixed fixed_laws sum_fixed purchase two_levels

two_levels-valid : validate_book fixed two_levels ≡ []
unfolding validate validate_levels validate_top
two_levels-valid = refl

simulate_mbp10_fill-IsBestFirst_example :
    IsBestFirst fixed buy (simulate_mbp10_fill fixed sum_fixed purchase two_levels).slices
simulate_mbp10_fill-IsBestFirst_example =
    simulate_mbp10_fill-IsBestFirst fixed fixed_laws sum_fixed purchase two_levels
      ((refl, refl), ((refl, refl), tt)) two_levels-valid

-- All of the first level and one of the second.
purchase_slices :
    (simulate_mbp10_fill fixed sum_fixed purchase two_levels).slices
    ≡ record { level = 1; price = pos 70010; quantity = pos 3000 }
      ∷ record { level = 2; price = pos 70020; quantity = pos 1000 }
      ∷ []
unfolding simulate_mbp10_fill result_of filled_result fill_levels validate validate_levels
    validate_top ◌-ℤ◌
purchase_slices = refl
