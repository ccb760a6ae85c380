-- ===== src/Fills/Books.antt =====
-- A book that its checks accept lists its best prices first, and so do the slices.
use multi_desk_trading.Common.{
  ℕ, suc, ◌≤◌, ◌<◌, ◌==◌, ◌≡◌, subst, inl, inr, Bool, true, false, Option, none, some, List, [],
  ◌∷◌, ok, All, All-imp, arith, Bool-cases, if◌then◌else◌,
}
use multi_desk_trading.Common.Float.{FloatOps, FloatLaws}
use multi_desk_trading.Fills.{
  FillSide, buy, sell, MbpLevel, MbpOrder, FillSlice, price_of, validate_levels, validate,
  validate_book, simulate_mbp10_fill,
}
use multi_desk_trading.Fills.Slices.{level_at, IsWithin, IsIncreasing, simulate_mbp10_fill-IsTaken}

module _ (F : FloatOps) where
  -- The first price is at least as good as the second.
  abbrev pub is_as_good : FillSide → F.Float → F.Float → Bool
  is_as_good buy p q = F.leb p q
  is_as_good sell p q = F.leb q p

  -- No price of the level is NaN.
  abbrev pub IsNumeric : MbpLevel F → Type 0
  IsNumeric level =
      (F.leb level.bid_price level.bid_price ≡ true)
      × (F.leb level.ask_price level.ask_price ≡ true)

  abbrev Trails : FillSide → MbpLevel F → MbpLevel F → Type 0
  Trails side first level = is_as_good side (price_of F side first) (price_of F side level) ≡ true

  -- Every level's price is at least as good as those of the levels after it.
  abbrev IsOrdered : FillSide → List (MbpLevel F) → Type 0
  IsOrdered side [] = Unit
  IsOrdered side (level ∷ levels) = All (Trails side level) levels × IsOrdered side levels

  -- Every slice's price is at least as good as those of the slices after it.
  abbrev pub IsBestFirst : FillSide → List (FillSlice F) → Type 0
  IsBestFirst side [] = Unit
  IsBestFirst side (slice ∷ slices) =
      All (λ other. is_as_good side slice.price other.price ≡ true) slices × IsBestFirst side slices

  level_at-All :
      (P : MbpLevel F → Type 0) (index : ℕ) (book : List (MbpLevel F)) (number : ℕ)
      (level : MbpLevel F)
      → All P book
      → level_at F index book number ≡ some level
      → P level
  level_at-All P index [] number level h e = cc
  level_at-All P index (first ∷ book) number level h e = elim (Bool-cases (index == number)) [
    | inl s ↦ subst P (ground (arith, s, e)) h.0
    | inr s ↦ level_at-All P (suc index) book number level h.1 (rw (s, if◌then◌else◌) at e)
  ]

  level_at-index :
      (index : ℕ) (book : List (MbpLevel F)) (number : ℕ) (level : MbpLevel F)
      → level_at F index book number ≡ some level
      → index ≤ number
  level_at-index index [] number level e = cc
  level_at-index index (first ∷ book) number level e =
      ground (arith, level_at-index (suc index) book number level)

  level_at_behind :
      (side : FillSide) (index : ℕ) (book : List (MbpLevel F)) (n m : ℕ) (level other : MbpLevel F)
      → IsOrdered side book
      → level_at F index book n ≡ some level
      → level_at F index book m ≡ some other
      → n < m
      → Trails side level other
  level_at_behind side index [] n m level other h e e' lt = cc
  level_at_behind side index (first ∷ book) n m level other h e e' lt =
      elim (Bool-cases (index == n)) [
        | inl s ↦
            subst (λ l. Trails side l other) (ground (arith, s, e))
              (level_at-All (Trails side first) (suc index) book m other h.0
                (ground (arith, s, e', lt)))
        | inr s ↦
            level_at_behind side (suc index) book n m level other h.1 (rw (s, if◌then◌else◌) at e)
              (ground (
                arith,
                e',
                lt,
                level_at-index (suc index) book n level (rw (s, if◌then◌else◌) at e),
              ))
              lt
      ]

  slices-IsBestFirst :
      (order : MbpOrder F) (index from : ℕ) (book : List (MbpLevel F)) (slices : List (FillSlice F))
      → IsOrdered order.side book
      → All (IsWithin F order index book) slices
      → IsIncreasing F from slices
      → IsBestFirst order.side slices
  slices-IsBestFirst order index from book [] h w inc = tt
  slices-IsBestFirst order index from book (slice ∷ slices) h w inc = (
    later_slices slices (suc slice.level) (omega arith) w.1 inc.1,
    slices-IsBestFirst order index (suc slice.level) book slices h w.1 inc.1,
  )
    where
      later_slices :
          (others : List (FillSlice F)) (start : ℕ)
          → slice.level < start
          → All (IsWithin F order index book) others
          → IsIncreasing F start others
          → All (λ other. is_as_good order.side slice.price other.price ≡ true) others
      later_slices [] start lt w' inc' = tt
      later_slices (other ∷ others) start lt w' inc' = (
        rw (w.0.price_lem, w'.0.price_lem)
            (level_at_behind order.side index book slice.level other.level w.0.level w'.0.level h
              w.0.is_level w'.0.is_level (omega (arith, lt, inc'.0))),
        later_slices others (suc other.level) (omega (arith, lt, inc'.0)) w'.1 inc'.1,
      )

  validate_levels-cons :
      (previous level : MbpLevel F) (levels : List (MbpLevel F))
      → validate_levels F (some previous) (level ∷ levels) ≡ ok tt
      → (F.ltb previous.bid_price level.bid_price ≡ false)
        × (F.ltb level.ask_price previous.ask_price ≡ false)
        × (validate_levels F (some level) levels ≡ ok tt)
  unfolding validate_levels
  validate_levels-cons previous level levels e = (ground arith, ground arith, ground arith)

  validate_levels_rest :
      (previous : Option (MbpLevel F)) (level : MbpLevel F) (levels : List (MbpLevel F))
      → validate_levels F previous (level ∷ levels) ≡ ok tt
      → validate_levels F (some level) levels ≡ ok tt
  unfolding validate_levels
  validate_levels_rest previous level levels e = ground arith

  validate_levels_of_book :
      (book : List (MbpLevel F)) → validate_book F book ≡ [] → validate_levels F none book ≡ ok tt
  unfolding validate
  validate_levels_of_book book e = ground arith

  module _ (L : FloatLaws F) where
    not_less :
        (a b : F.Float) → F.leb a a ≡ true → F.leb b b ≡ true → F.ltb b a ≡ false → F.leb a b ≡ true
    not_less a b na nb h = ground (arith, L.ltb_lem b a, L.leb_total a b)

    as_good_trans :
        (side : FillSide) (a b c : F.Float)
        → is_as_good side a b ≡ true
        → is_as_good side b c ≡ true
        → is_as_good side a c ≡ true
    as_good_trans buy a b c h k = L.leb_trans a b c h k
    as_good_trans sell a b c h k = L.leb_trans c b a k h

    behind_one :
        (side : FillSide) (previous level : MbpLevel F)
        → IsNumeric previous
        → IsNumeric level
        → F.ltb previous.bid_price level.bid_price ≡ false
        → F.ltb level.ask_price previous.ask_price ≡ false
        → Trails side previous level
    behind_one buy previous level n m b a = not_less previous.ask_price level.ask_price n.1 m.1 a
    behind_one sell previous level n m b a = not_less level.bid_price previous.bid_price m.0 n.0 b

    -- Levels that were accepted one after another are behind the previous one.
    behind_previous :
        (side : FillSide) (previous : MbpLevel F) (levels : List (MbpLevel F))
        → IsNumeric previous
        → All IsNumeric levels
        → validate_levels F (some previous) levels ≡ ok tt
        → All (Trails side previous) levels
    unfolding validate_levels
    behind_previous side previous [] n ns e = tt
    behind_previous side previous (level ∷ levels) n ns e =
        let (b, a, rest) = validate_levels-cons previous level levels e in
        let ahead = behind_one side previous level n ns.0 b a in
        (
          ahead,
          All-imp _ _ (λ other h. as_good_trans side _ _ _ ahead h) levels
              (behind_previous side level levels ns.0 ns.1 rest),
        )

    -- Of a book of numbers that the checks accept, every level is at least as good as those after it.
    validate_levels-IsOrdered :
        (side : FillSide) (previous : Option (MbpLevel F)) (levels : List (MbpLevel F))
        → All IsNumeric levels
        → validate_levels F previous levels ≡ ok tt
        → IsOrdered side levels
    validate_levels-IsOrdered side previous [] ns e = tt
    validate_levels-IsOrdered side previous (level ∷ levels) ns e =
        let rest = validate_levels_rest previous level levels e in
        (
          behind_previous side level levels ns.0 ns.1 rest,
          validate_levels-IsOrdered side (some level) levels ns.1 rest,
        )

    -- Where the book passes its checks and no price of it is NaN, every slice's price is at least as good
    -- for the order as those of the slices after it: not above them for a purchase, not below them for
    -- a sale.
    pub simulate_mbp10_fill-IsBestFirst :
        (sum : List F.Float → F.Float) (order : MbpOrder F) (book : List (MbpLevel F))
        → All IsNumeric book
        → validate_book F book ≡ []
        → IsBestFirst order.side (simulate_mbp10_fill F sum order book).slices
    simulate_mbp10_fill-IsBestFirst sum order book ns e =
        let (_, taken) = simulate_mbp10_fill-IsTaken F L sum order book in
        slices-IsBestFirst order 1 1 book (simulate_mbp10_fill F sum order book).slices
          (validate_levels-IsOrdered order.side none book ns (validate_levels_of_book book e))
          taken.0 taken.1
