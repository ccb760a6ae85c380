-- ===== src/Fills.antt =====
-- The simulated fills of v2/s4_0/mbp10_fill.py against a book of price levels, with the checks of the
-- book in v2/s4_0/market_data.py. The built-in sum is an argument, since it compensates for rounding
-- in some versions of Python.
pub mod Slices
pub mod Books
mod Tests
use multi_desk_trading.Common.{
  ℕ, zero, suc, ◌≤◌, ◌<◌, String, Bool, true, false, not, ◌&&◌, ◌||◌, Option, none, some, List, [],
  ◌∷◌, ◌++◌, map, length, ◌==◌, ltb, Result, ok, err, ◌>>=◌, ◌>>◌, raise_if, if◌then◌else◌,
}
use multi_desk_trading.Common.Dict.{find_entry}
use multi_desk_trading.Common.Float.{FloatOps, min_float}

pub data FillSide : Type 0 where
  buy sell : FillSide

-- The messages of the errors, with the symbol that one of them names.
pub data FillError : Type 0 where
  quantity_not_positive limit_not_positive : FillError
  no_levels too_deep prices_not_positive sizes_negative crossed : FillError
  bids_increase asks_decrease : FillError
  missing_book : String → FillError

module _ (F : FloatOps) where
  open F use {Float}

  -- A level, which is also what TopOfBook holds.
  pub record MbpLevel : Type 0 where
    pub bid_price : Float
    pub bid_size : Float
    pub ask_price : Float
    pub ask_size : Float

  pub record MbpOrder : Type 0 where
    pub order_id : String
    pub symbol : String
    pub side : FillSide
    pub quantity : Float
    pub limit_price : Option Float

  pub record FillSlice : Type 0 where
    pub level : ℕ
    pub price : Float
    pub quantity : Float

  pub record MbpFillResult : Type 0 where
    pub order_id : String
    pub symbol : String
    pub side : FillSide
    pub requested_quantity : Float
    pub filled_quantity : Float
    pub residual_quantity : Float
    pub average_fill_price : Option Float
    pub top_of_book_price : Option Float
    pub slippage_vs_top : Option Float
    pub levels_consumed : ℕ
    pub slices : List FillSlice
    pub errors : List FillError

  -- `TopOfBook.validate`
  unfoldable pub validate_top : MbpLevel → Result FillError (Unit {0})
  validate_top level = do
    raise_if (F.leb level.bid_price F.zero || F.leb level.ask_price F.zero) prices_not_positive
    raise_if (F.ltb level.bid_size F.zero || F.ltb level.ask_size F.zero) sizes_negative
    raise_if (F.ltb level.ask_price level.bid_price) crossed
    ok tt

  -- `previous_bid is not None and level.bid_price > previous_bid`, and the same for the ask.
  abbrev pub bid_increases : Option MbpLevel → MbpLevel → Bool
  bid_increases none level = false
  bid_increases (some previous) level = F.ltb previous.bid_price level.bid_price

  abbrev pub ask_decreases : Option MbpLevel → MbpLevel → Bool
  ask_decreases none level = false
  ask_decreases (some previous) level = F.ltb level.ask_price previous.ask_price

  unfoldable pub validate_levels : Option MbpLevel → List MbpLevel → Result FillError (Unit {0})
  unfolding validate_top
  validate_levels previous [] = ok tt
  validate_levels previous (level ∷ levels) = do
    validate_top level
    raise_if (bid_increases previous level) bids_increase
    raise_if (ask_decreases previous level) asks_decrease
    validate_levels (some level) levels

  -- `MBPSnapshot.validate(max_depth=10)`
  unfoldable pub validate : List MbpLevel → Result FillError (Unit {0})
  unfolding validate_levels
  validate levels = do
    raise_if (length levels == 0) no_levels
    raise_if (ltb 10 (length levels)) too_deep
    validate_levels none levels

  abbrev pub validate_book : List MbpLevel → List FillError
  validate_book levels = elim (validate levels) [ err e ↦ e ∷ [] | ok _ ↦ [] ]

  abbrev pub limit_errors : Option Float → List FillError
  limit_errors none = []
  limit_errors (some limit) = if F.leb limit F.zero then limit_not_positive ∷ [] else []

  abbrev pub validate_order : MbpOrder → List FillError
  validate_order order =
      (if F.leb order.quantity F.zero then quantity_not_positive ∷ [] else [])
      ++ limit_errors order.limit_price

  abbrev pub passes_limit : FillSide → Option Float → Float → Bool
  passes_limit side none price = true
  passes_limit buy (some limit) price = F.leb price limit
  passes_limit sell (some limit) price = F.leb limit price

  abbrev pub price_of : FillSide → MbpLevel → Float
  price_of buy level = level.ask_price
  price_of sell level = level.bid_price

  abbrev pub size_of : FillSide → MbpLevel → Float
  size_of buy level = level.ask_size
  size_of sell level = level.bid_size

  -- `x == 0`
  abbrev pub is_zero : Float → Bool
  is_zero x = F.leb x F.zero && F.leb F.zero x

  -- The loop of `simulate_mbp10_fill`: the slices, and what remains.
  unfoldable pub fill_levels : MbpOrder → ℕ → Float → List MbpLevel → List FillSlice × Float
  fill_levels order index remaining [] = ([], remaining)
  fill_levels order index remaining (level ∷ levels) =
      let price = price_of order.side level in
      let available = size_of order.side level in
      let quantity = min_float F remaining available in
      let taken = F.ltb F.zero quantity in
      let left = if taken then F.sub remaining quantity else remaining in
      let slice : List FillSlice =
        if taken then record { level = index; price = price; quantity = quantity } ∷ [] else [] in
      let skipped = fill_levels order (suc index) remaining levels in
      let rest = fill_levels order (suc index) left levels in
      if F.leb available F.zero
      then skipped
      else (if not (passes_limit order.side order.limit_price price)
          then ([], remaining)
          else (if is_zero left then (slice, left) else (slice ++ rest.0, rest.1)))

  -- Python's `max(a, b)`: the first argument, unless the second is greater.
  abbrev pub max_float : Float → Float → Float
  max_float a b = if F.ltb a b then b else a

  -- `max((item.level for item in slices), default=0)`
  unfoldable pub max_level : List FillSlice → ℕ
  max_level [] = 0
  max_level (slice ∷ slices) =
      let rest = max_level slices in if ltb rest slice.level then slice.level else rest

  -- `_top_price`, of a book that has levels.
  abbrev pub top_price : FillSide → List MbpLevel → Float
  top_price side [] = F.zero
  top_price side (level ∷ levels) = price_of side level

  unfoldable pub slippage : FillSide → Float → Float → Float
  slippage buy average top = F.sub average top
  slippage sell average top = F.sub top average

  module _ (sum : List Float → Float) where
    unfoldable pub average_price : List FillSlice → Option Float
    average_price slices =
        let quantity = sum (map (λ item. item.quantity) slices) in
        if is_zero quantity
        then none
        else some (F.div (sum (map (λ item. F.mul item.quantity item.price) slices)) quantity)

    abbrev pub unfilled_result : MbpOrder → List FillError → MbpFillResult
    unfilled_result order errors = record {
      order_id = order.order_id;
      symbol = order.symbol;
      side = order.side;
      requested_quantity = order.quantity;
      filled_quantity = F.zero;
      residual_quantity = max_float order.quantity F.zero;
      average_fill_price = none;
      top_of_book_price = none;
      slippage_vs_top = none;
      levels_consumed = 0;
      slices = [];
      errors = errors;
    }

    -- The result of an order without errors.
    unfoldable pub filled_result : MbpOrder → List MbpLevel → MbpFillResult
    unfolding fill_levels max_level slippage average_price
    filled_result order book =
        let (slices, remaining) = fill_levels order 1 order.quantity book in
        let average = average_price slices in
        let top = top_price order.side book in
        record {
          order_id = order.order_id;
          symbol = order.symbol;
          side = order.side;
          requested_quantity = order.quantity;
          filled_quantity = sum (map (λ item. item.quantity) slices);
          residual_quantity = remaining;
          average_fill_price = average;
          top_of_book_price = some top;
          slippage_vs_top = elim average [
            | none ↦ none
            | some a ↦ some (slippage order.side a top)
          ];
          levels_consumed = max_level slices;
          slices = slices;
          errors = [];
        }

    -- `if errors or book_errors`, on the errors of both.
    unfoldable pub result_of : MbpOrder → List MbpLevel → List FillError → MbpFillResult
    unfolding filled_result
    result_of order book [] = filled_result order book
    result_of order book (e ∷ es) = unfilled_result order (e ∷ es)

    unfoldable pub simulate_mbp10_fill : MbpOrder → List MbpLevel → MbpFillResult
    unfolding result_of validate
    simulate_mbp10_fill order book =
        result_of order book (validate_order order ++ validate_book book)

    -- `_missing_book_result`, or the fill against the order's book.
    abbrev pub drill_result : List (String × List MbpLevel) → MbpOrder → MbpFillResult
    drill_result books order = elim (find_entry order.symbol books) [
      | some book ↦ simulate_mbp10_fill order book
      | none ↦ unfilled_result order (missing_book order.symbol ∷ [])
    ]

    -- The results of `run_mbp10_drill`.
    unfoldable pub drill_results :
        List MbpOrder → List (String × List MbpLevel) → List MbpFillResult
    unfolding simulate_mbp10_fill
    drill_results orders books = map (drill_result books) orders
