-- ===== src/Scheduler/Sorting.antt =====
-- Sorting the firings up to a time and those after it apart gives the same as sorting them together.
use multi_desk_trading.Common.{
  Bool, true, not, ◌≡◌, refl, ap, inl, inr, List, [], ◌∷◌, ◌++◌, arith, All, keep, All-keep,
  Bool-cases, if◌then◌else◌,
}
use multi_desk_trading.Common.Int.{ℤ, leb_ℤ}
use multi_desk_trading.Scheduler.{Firing, insert_firing, sort_firings}

module _ (P : Firing → Type 0) where
  pub All-insert_firing :
      (x : Firing) (xs : List Firing) → P x → All P xs → All P (insert_firing x xs)
  unfolding insert_firing
  All-insert_firing x [] p h = (p, tt)
  All-insert_firing x (y ∷ ys) p h = elim (Bool-cases (leb_ℤ x.ts y.ts)) [
    | inl first ↦ rw first (p, h)
    | inr later ↦ rw later (h.0, All-insert_firing x ys p h.1)
  ]

  pub All-sort_firings : (xs : List Firing) → All P xs → All P (sort_firings xs)
  unfolding sort_firings
  All-sort_firings [] h = tt
  All-sort_firings (x ∷ xs) h = All-insert_firing x (sort_firings xs) h.0 (All-sort_firings xs h.1)

module _ (mid : ℤ) where
  abbrev pub is_by : Firing → Bool
  is_by x = leb_ℤ x.ts mid

  abbrev pub is_past : Firing → Bool
  is_past x = not (leb_ℤ x.ts mid)

  insert_firing_by :
      (x : Firing) (xs ys : List Firing)
      → is_by x ≡ true
      → All (λ y. is_past y ≡ true) ys
      → insert_firing x (xs ++ ys) ≡ insert_firing x xs ++ ys
  unfolding insert_firing
  insert_firing_by x [] [] h k = refl
  insert_firing_by x [] (y ∷ ys) h k = ground (arith, k.0)
  insert_firing_by x (z ∷ zs) ys h k = ground (arith, insert_firing_by x zs ys h k)

  insert_firing_past :
      (x : Firing) (xs ys : List Firing)
      → is_past x ≡ true
      → All (λ y. is_by y ≡ true) xs
      → insert_firing x (xs ++ ys) ≡ xs ++ insert_firing x ys
  unfolding insert_firing
  insert_firing_past x [] ys h k = refl
  insert_firing_past x (z ∷ zs) ys h k = ground (arith, k.0, insert_firing_past x zs ys h k.1)

  pub sort_firings_split :
      (xs : List Firing)
      → sort_firings xs ≡ sort_firings (keep is_by xs) ++ sort_firings (keep is_past xs)
  unfolding sort_firings
  sort_firings_split [] = refl
  sort_firings_split (x ∷ xs) =
      let low = sort_firings (keep is_by xs) in
      let high = sort_firings (keep is_past xs) in
      elim (Bool-cases (leb_ℤ x.ts mid)) [
        | inl e ↦
            rw (e, if◌then◌else◌, sort_firings_split xs)
              (insert_firing_by x low high e
                (All-sort_firings _ (keep is_past xs) (All-keep is_past xs)))
        | inr e ↦
            rw (e, if◌then◌else◌, sort_firings_split xs)
              (insert_firing_past x low high (ap not e)
                (All-sort_firings _ (keep is_by xs) (All-keep is_by xs)))
      ]
