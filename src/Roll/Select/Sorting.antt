-- ===== src/Roll/Select/Sorting.antt =====
-- `sorted(contracts, key=delivery_month)`: the same contracts, in the order of their keys.
use multi_desk_trading.Common.{
  ◌≤◌, ◌≢◌, sym, String, inl, inr, List, [], ◌∷◌, arith, All, All-imp, leb, Bool-cases,
}
use multi_desk_trading.Roll.Contract.{ClContract}
use multi_desk_trading.Roll.Select.{delivery_key, insert_sorted, sort_listed}

module _ (P : ClContract → Type 0) where
  All-insert_sorted :
      (x : ClContract) (xs : List ClContract) → P x → All P xs → All P (insert_sorted x xs)
  unfolding insert_sorted
  All-insert_sorted x [] p h = (p, tt)
  All-insert_sorted x (y ∷ ys) p h = elim (Bool-cases (leb (delivery_key x) (delivery_key y))) [
    | inl first ↦ rw first (p, h)
    | inr later ↦ rw later (h.0, All-insert_sorted x ys p h.1)
  ]

  All-insert_sorted_inv :
      (x : ClContract) (xs : List ClContract) → All P (insert_sorted x xs) → P x × All P xs
  unfolding insert_sorted
  All-insert_sorted_inv x [] h = (h.0, tt)
  All-insert_sorted_inv x (y ∷ ys) h = elim (Bool-cases (leb (delivery_key x) (delivery_key y))) [
    | inl first ↦ let g = (rw first at h) in (g.0, g.1)
    | inr later ↦
        let g = (rw later at h) in
        let (p, rest) = All-insert_sorted_inv x ys g.1 in (p, (g.0, rest))
  ]

  pub All-sort_listed : (xs : List ClContract) → All P xs → All P (sort_listed xs)
  unfolding sort_listed
  All-sort_listed [] h = tt
  All-sort_listed (x ∷ xs) h = All-insert_sorted x (sort_listed xs) h.0 (All-sort_listed xs h.1)

  pub All-sort_listed_inv : (xs : List ClContract) → All P (sort_listed xs) → All P xs
  unfolding sort_listed
  All-sort_listed_inv [] h = tt
  All-sort_listed_inv (x ∷ xs) h =
      let (p, rest) = All-insert_sorted_inv x (sort_listed xs) h in (p, All-sort_listed_inv xs rest)

-- Each contract's key is at most those behind it.
abbrev pub IsSorted : List ClContract → Type 0
IsSorted [] = Unit
IsSorted (x ∷ xs) = All (λ y. delivery_key x ≤ delivery_key y) xs × IsSorted xs

insert_sorted-IsSorted :
    (x : ClContract) (xs : List ClContract) → IsSorted xs → IsSorted (insert_sorted x xs)
unfolding insert_sorted
insert_sorted-IsSorted x [] h = (tt, tt)
insert_sorted-IsSorted x (y ∷ ys) h = elim (Bool-cases (leb (delivery_key x) (delivery_key y))) [
  | inl first ↦
      let le : delivery_key x ≤ delivery_key y = ground arith in
      rw first ((le, All-imp _ _ (λ z below. omega arith) ys h.0), h)
  | inr later ↦ rw later (
    All-insert_sorted (λ z. delivery_key y ≤ delivery_key z) x ys (ground arith) h.0,
    insert_sorted-IsSorted x ys h.1,
  )
]

pub sort_listed-IsSorted : (xs : List ClContract) → IsSorted (sort_listed xs)
unfolding sort_listed
sort_listed-IsSorted [] = tt
sort_listed-IsSorted (x ∷ xs) = insert_sorted-IsSorted x (sort_listed xs) (sort_listed-IsSorted xs)

-- No contract of the list has the symbol.
abbrev pub Fresh : String → List ClContract → Type 0
Fresh symbol = All (λ y. y.symbol ≢ symbol)

-- No symbol is listed twice.
abbrev pub IsDistinct : List ClContract → Type 0
IsDistinct [] = Unit
IsDistinct (x ∷ xs) = Fresh x.symbol xs × IsDistinct xs

insert_sorted-IsDistinct :
    (x : ClContract) (xs : List ClContract)
    → Fresh x.symbol xs
    → IsDistinct xs
    → IsDistinct (insert_sorted x xs)
unfolding insert_sorted
insert_sorted-IsDistinct x [] fresh d = (tt, tt)
insert_sorted-IsDistinct x (y ∷ ys) fresh d =
    elim (Bool-cases (leb (delivery_key x) (delivery_key y))) [
      | inl first ↦ rw first (fresh, d)
      | inr later ↦ rw later (
        All-insert_sorted (λ z. z.symbol ≢ y.symbol) x ys (λ same. fresh.0 (sym same)) d.0,
        insert_sorted-IsDistinct x ys fresh.1 d.1,
      )
    ]

pub sort_listed-IsDistinct : (xs : List ClContract) → IsDistinct xs → IsDistinct (sort_listed xs)
unfolding sort_listed
sort_listed-IsDistinct [] d = tt
sort_listed-IsDistinct (x ∷ xs) d =
    insert_sorted-IsDistinct x (sort_listed xs) (All-sort_listed _ xs d.0)
      (sort_listed-IsDistinct xs d.1)
