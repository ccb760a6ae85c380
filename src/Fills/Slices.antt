-- ===== src/Fills/Slices.antt =====
-- The slices that an order takes: each within the limit and the size of its level, in the order of the
-- levels.
use multi_desk_trading.Common.{
  ℕ, suc, ◌≤◌, ◌==◌, ◌≡◌, refl, subst, sym, inl, inr, true, false, Option, none, some, List, [],
  ◌∷◌, ◌++◌, All, All-imp, arith, Bool-cases, if◌then◌else◌,
}
use native.Mathlib.Nat.{le_refl}
use multi_desk_trading.Common.Float.{FloatOps, FloatLaws, min_float}
use multi_desk_trading.Fills.{
  FillError, MbpLevel, MbpOrder, FillSlice, passes_limit, price_of, size_of, is_zero, fill_levels,
  filled_result, validate_order, validate_book, result_of, simulate_mbp10_fill,
}

module _ (F : FloatOps) where
  -- The level with a number, where the levels are numbered from an index on.
  abbrev pub level_at : ℕ → List (MbpLevel F) → ℕ → Option (MbpLevel F)
  level_at index [] number = none
  level_at index (level ∷ levels) number =
      if index == number then some level else level_at (suc index) levels number

  -- A slice of positive quantity at the price of a level of the book, which passes the order's limit,
  -- and of no more than the level's size.
  pub record IsWithin (order : MbpOrder F) (index : ℕ) (book : List (MbpLevel F))
      (slice : FillSlice F) : Type 0 where
    pub from_index : index ≤ slice.level
    pub level : MbpLevel F
    pub is_level : level_at index book slice.level ≡ some level
    pub price_lem : slice.price ≡ price_of F order.side level
    pub within_limit : passes_limit F order.side order.limit_price slice.price ≡ true
    pub positive : F.ltb F.zero slice.quantity ≡ true
    pub within_size : F.ltb (size_of F order.side level) slice.quantity ≡ false

  -- The numbers of the levels increase from an index on.
  abbrev pub IsIncreasing : ℕ → List (FillSlice F) → Type 0
  IsIncreasing index [] = Unit
  IsIncreasing index (slice ∷ slices) =
      (index ≤ slice.level) × IsIncreasing (suc slice.level) slices

  later :
      (order : MbpOrder F) (index : ℕ) (first : MbpLevel F) (book : List (MbpLevel F))
      (slice : FillSlice F)
      → IsWithin order (suc index) book slice
      → IsWithin order index (first ∷ book) slice
  later order index first book slice w = record {
    from_index = omega (arith, w.from_index);
    level = w.level;
    is_level = ground (arith, w.from_index, w.is_level);
    price_lem = w.price_lem;
    within_limit = w.within_limit;
    positive = w.positive;
    within_size = w.within_size;
  }

  sooner :
      (index : ℕ) (slices : List (FillSlice F))
      → IsIncreasing (suc index) slices
      → IsIncreasing index slices
  sooner index [] w = tt
  sooner index (slice ∷ slices) w = (omega (arith, w.0), w.1)

  -- What the loop takes from the levels numbered from an index on.
  abbrev pub IsTaken : MbpOrder F → ℕ → List (MbpLevel F) → List (FillSlice F) → Type 0
  IsTaken order index book slices =
      All (IsWithin order index book) slices × IsIncreasing index slices

  up :
      (order : MbpOrder F) (index : ℕ) (first : MbpLevel F) (book : List (MbpLevel F))
      (slices : List (FillSlice F))
      → IsTaken order (suc index) book slices
      → IsTaken order index (first ∷ book) slices
  up order index first book slices w =
      (All-imp _ _ (later order index first book) slices w.0, sooner index slices w.1)

  joined :
      (order : MbpOrder F) (index : ℕ) (first : MbpLevel F) (book : List (MbpLevel F))
      (slices : List (FillSlice F)) (slice : FillSlice F)
      → IsWithin order index (first ∷ book) slice
      → slice.level ≡ index
      → IsTaken order (suc index) book slices
      → IsTaken order index (first ∷ book) (slice ∷ slices)
  joined order index first book slices slice w e rest = (
    (w, All-imp _ _ (later order index first book) slices rest.0),
    (w.from_index, subst (λ n. IsIncreasing (suc n) slices) (sym e) rest.1),
  )

  module _ (L : FloatLaws F) where
    -- The lesser of two is not above the second.
    min_float-size : (a b : F.Float) → F.ltb b (min_float F a b) ≡ false
    min_float-size a b = ground (arith, L.ltb_lem b b)

    first_IsWithin :
        (order : MbpOrder F) (index : ℕ) (level : MbpLevel F) (book : List (MbpLevel F))
        (remaining : F.Float)
        → passes_limit F order.side order.limit_price (price_of F order.side level) ≡ true
        → F.ltb F.zero (min_float F remaining (size_of F order.side level)) ≡ true
        → IsWithin order index (level ∷ book) (record {
          level = index;
          price = price_of F order.side level;
          quantity = min_float F remaining (size_of F order.side level);
        })
    first_IsWithin order index level book remaining p q = record {
      from_index = omega arith;
      level = level;
      is_level = ground arith;
      price_lem = refl;
      within_limit = p;
      positive = q;
      within_size = min_float-size remaining (size_of F order.side level);
    }

    fill_levels-IsTaken :
        (order : MbpOrder F) (index : ℕ) (remaining : F.Float) (book : List (MbpLevel F))
        → IsTaken order index book (fill_levels F order index remaining book).0
    unfolding fill_levels
    fill_levels-IsTaken order index remaining [] = (tt, tt)
    fill_levels-IsTaken order index remaining (level ∷ levels) =
        let price = price_of F order.side level in
        let available = size_of F order.side level in
        let quantity = min_float F remaining available in
        elim (Bool-cases (F.leb available F.zero)) [
          | inl s ↦
              rw (s, if◌then◌else◌)
                (up order index level levels _
                  (fill_levels-IsTaken order (suc index) remaining levels))
          | inr s ↦ elim (Bool-cases (passes_limit F order.side order.limit_price price)) [
            | inr p ↦ rw (s, if◌then◌else◌, p, if◌then◌else◌) (tt, tt)
            | inl p ↦ elim (Bool-cases (F.ltb F.zero quantity)) [
              | inl t ↦ elim (Bool-cases (is_zero F (F.sub remaining quantity))) [
                | inl z ↦
                    rw (s, p, t, if◌then◌else◌, z, if◌then◌else◌)
                      (
                        (first_IsWithin order index level levels remaining p t, tt),
                        (le_refl index, tt),
                      )
                | inr z ↦
                    rw (s, p, t, if◌then◌else◌, z, if◌then◌else◌)
                      (joined order index level levels _ _
                        (first_IsWithin order index level levels remaining p t) refl
                        (fill_levels-IsTaken order (suc index) (F.sub remaining quantity) levels))
              ]
              | inr t ↦ elim (Bool-cases (is_zero F remaining)) [
                | inl z ↦ rw (s, p, t, if◌then◌else◌, z, if◌then◌else◌) (tt, tt)
                | inr z ↦
                    rw (s, p, t, if◌then◌else◌, z, if◌then◌else◌)
                      (up order index level levels _
                        (fill_levels-IsTaken order (suc index) remaining levels))
              ]
            ]
          ]
        ]

    result_of-IsTaken :
        (sum : List F.Float → F.Float) (order : MbpOrder F) (book : List (MbpLevel F))
        (errors : List FillError)
        → ((result_of F sum order book errors).errors ≡ errors)
          × IsTaken order 1 book (result_of F sum order book errors).slices
    unfolding result_of filled_result
    result_of-IsTaken sum order book [] = (refl, fill_levels-IsTaken order 1 order.quantity book)
    result_of-IsTaken sum order book (e ∷ es) = (refl, (tt, tt))

    -- In every result the errors are those of the order and of the book, and the slices are of levels
    -- with increasing numbers. Each is of positive quantity and of no more than its level's size, at
    -- its level's price, which passes the order's limit.
    pub simulate_mbp10_fill-IsTaken :
        (sum : List F.Float → F.Float) (order : MbpOrder F) (book : List (MbpLevel F))
        → ((simulate_mbp10_fill F sum order book).errors
            ≡ validate_order F order ++ validate_book F book)
          × IsTaken order 1 book (simulate_mbp10_fill F sum order book).slices
    unfolding simulate_mbp10_fill
    simulate_mbp10_fill-IsTaken sum order book =
        result_of-IsTaken sum order book (validate_order F order ++ validate_book F book)
