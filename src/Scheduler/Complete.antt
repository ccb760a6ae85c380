-- ===== src/Scheduler/Complete.antt =====
-- The firings between two times are the scheduled times there.
use multi_desk_trading.Common.{
  ℕ, zero, suc, true, false, ◌≡◌, sym, ap, inl, inr, List, [], ◌∷◌, ◌++◌, arith, All, All-imp,
  Bool-cases, if◌then◌else◌,
}
use mathlib.Core.List.{Memᴰ}
use multi_desk_trading.Common.Int.{ℤ, leb_ℤ, ltb_ℤ}
use multi_desk_trading.Scheduler.{
  ScheduledEvent, Croniter, Firing, collect, rounds_to, collect_all, insert_firing, sort_firings,
  firings_between,
}
use multi_desk_trading.Scheduler.Cron.{
  CronLaws, Suffices, upcoming, collect-upcoming, rounds_to-Suffices,
}
use multi_desk_trading.Scheduler.Sorting.{All-insert_firing, All-sort_firings}

mem_left : {x : Firing} (xs ys : List Firing) → Memᴰ x xs → Memᴰ x (xs ++ ys)
mem_left [] ys h = elim h [ ]
mem_left (y ∷ xs) ys (Memᴰ.head e) = Memᴰ.head e
mem_left (y ∷ xs) ys (Memᴰ.tail h) = Memᴰ.tail (mem_left xs ys h)

mem_right : {x : Firing} (xs ys : List Firing) → Memᴰ x ys → Memᴰ x (xs ++ ys)
mem_right [] ys h = h
mem_right (y ∷ xs) ys h = Memᴰ.tail (mem_right xs ys h)

mem-insert_firing :
    (x y : Firing) (ys : List Firing) → Memᴰ x (y ∷ ys) → Memᴰ x (insert_firing y ys)
unfolding insert_firing
mem-insert_firing x y [] h = h
mem-insert_firing x y (z ∷ zs) (Memᴰ.head e) = elim (Bool-cases (leb_ℤ y.ts z.ts)) [
  | inl first ↦ rw (first, if◌then◌else◌) (Memᴰ.head e)
  | inr later ↦ rw (later, if◌then◌else◌) (Memᴰ.tail (mem-insert_firing x y zs (Memᴰ.head e)))
]
mem-insert_firing x y (z ∷ zs) (Memᴰ.tail (Memᴰ.head e)) = elim (Bool-cases (leb_ℤ y.ts z.ts)) [
  | inl first ↦ rw (first, if◌then◌else◌) (Memᴰ.tail (Memᴰ.head e))
  | inr later ↦ rw (later, if◌then◌else◌) (Memᴰ.head e)
]
mem-insert_firing x y (z ∷ zs) (Memᴰ.tail (Memᴰ.tail h)) = elim (Bool-cases (leb_ℤ y.ts z.ts)) [
  | inl first ↦ rw (first, if◌then◌else◌) (Memᴰ.tail (Memᴰ.tail h))
  | inr later ↦ rw (later, if◌then◌else◌) (Memᴰ.tail (mem-insert_firing x y zs (Memᴰ.tail h)))
]

mem-sort_firings : (x : Firing) (xs : List Firing) → Memᴰ x xs → Memᴰ x (sort_firings xs)
unfolding sort_firings
mem-sort_firings x [] h = elim h [ ]
mem-sort_firings x (y ∷ ys) (Memᴰ.head e) = mem-insert_firing x y (sort_firings ys) (Memᴰ.head e)
mem-sort_firings x (y ∷ ys) (Memᴰ.tail h) =
    mem-insert_firing x y (sort_firings ys) (Memᴰ.tail (mem-sort_firings x ys h))

-- The list is in the order of the times.
abbrev pub IsSorted : List Firing → Type 0
IsSorted [] = Unit
IsSorted (x ∷ xs) = All (λ y. leb_ℤ x.ts y.ts ≡ true) xs × IsSorted xs

module _ (P : Firing → Type 0) where
  All-append : (xs ys : List Firing) → All P xs → All P ys → All P (xs ++ ys)
  All-append [] ys h k = k
  All-append (x ∷ xs) ys h k = (h.0, All-append xs ys h.1 k)

insert_firing-IsSorted :
    (x : Firing) (xs : List Firing) → IsSorted xs → IsSorted (insert_firing x xs)
unfolding insert_firing
insert_firing-IsSorted x [] h = (tt, tt)
insert_firing-IsSorted x (y ∷ ys) h = elim (Bool-cases (leb_ℤ x.ts y.ts)) [
  | inl e ↦ rw (e, if◌then◌else◌) ((e, All-imp _ _ (λ z le. ground (arith, e, le)) ys h.0), h)
  | inr e ↦
      rw (e, if◌then◌else◌)
        (All-insert_firing _ x ys (ground (arith, e)) h.0, insert_firing-IsSorted x ys h.1)
]

sort_firings-IsSorted : (xs : List Firing) → IsSorted (sort_firings xs)
unfolding sort_firings
sort_firings-IsSorted [] = tt
sort_firings-IsSorted (x ∷ xs) =
    insert_firing-IsSorted x (sort_firings xs) (sort_firings-IsSorted xs)

module _ (next : Croniter) (C : CronLaws next) where
  mem-upcoming :
      (ev : ScheduledEvent) (n : ℕ) (end now u : ℤ)
      → Suffices n end now
      → leb_ℤ now u ≡ true
      → leb_ℤ (next ev u) end ≡ true
      → Memᴰ (record { event = ev; ts = next ev u }) (upcoming next C ev n end now)
  unfolding upcoming
  mem-upcoming ev zero end now u enough le by = absurd (ground (arith, C.later ev u))
  mem-upcoming ev (suc n) end now u enough le by = elim (Bool-cases (ltb_ℤ u (next ev now))) [
    | inl first ↦
        let same = C.same ev now u le first in
        let within : ltb_ℤ end (next ev now) ≡ false = ground (arith, same, by) in
        rw (within, if◌then◌else◌) (Memᴰ.head (ap (λ t. record { event = ev; ts = t }) same))
    | inr later ↦
        let within : ltb_ℤ end (next ev now) ≡ false = ground (arith, C.later ev u, later, by) in
        rw (within, if◌then◌else◌)
          (Memᴰ.tail (
            mem-upcoming ev n end (next ev now) u (ground (arith, C.later ev now)) (ground arith)
              by))
  ]

  mem-collect_all :
      (ev : ScheduledEvent) (events : List ScheduledEvent) (start end u : ℤ)
      → Memᴰ ev events
      → leb_ℤ start u ≡ true
      → leb_ℤ (next ev u) end ≡ true
      → Memᴰ (record { event = ev; ts = next ev u }) (collect_all next events start end)
  unfolding collect_all
  mem-collect_all ev [] start end u listed le by = elim listed [ ]
  mem-collect_all ev (e ∷ es) start end u (Memᴰ.head same) le by =
      mem_left (collect next (rounds_to start end) e start end start) _ (
        rw
          (
            sym same,
            collect-upcoming next C ev (rounds_to start end) start end start (ground arith),
          )
          (mem-upcoming ev (rounds_to start end) end start u (rounds_to-Suffices start end) le by))
  mem-collect_all ev (e ∷ es) start end u (Memᴰ.tail listed) le by =
      mem_right _ _ (mem-collect_all ev es start end u listed le by)

  -- Let the next time that croniter gives be later and stay the next one until it comes. For a
  -- listed event, each of its scheduled times that comes next after a time from start on, and that is
  -- at most end, is among the firings between start and end: the rounds of the loop suffice.
  pub firings_between_complete :
      (ev : ScheduledEvent) (events : List ScheduledEvent) (start end u : ℤ)
      → Memᴰ ev events
      → leb_ℤ start u ≡ true
      → leb_ℤ (next ev u) end ≡ true
      → Memᴰ (record { event = ev; ts = next ev u }) (firings_between next events start end)
  unfolding firings_between
  firings_between_complete ev events start end u listed le by =
      mem-sort_firings _ _ (mem-collect_all ev events start end u listed le by)

abbrev pub Within : ℤ → ℤ → Firing → Type 0
Within start end x = (ltb_ℤ start x.ts ≡ true) × (leb_ℤ x.ts end ≡ true)

module _ (next : Croniter) (start end : ℤ) where
  collect-Within :
      (n : ℕ) (ev : ScheduledEvent) (now : ℤ)
      → All (Within start end) (collect next n ev start end now)
  unfolding collect
  collect-Within zero ev now = tt
  collect-Within (suc n) ev now = elim (Bool-cases (ltb_ℤ end (next ev now))) [
    | inl past ↦ rw (past, if◌then◌else◌) tt
    | inr by ↦ elim (Bool-cases (leb_ℤ (next ev now) start)) [
      | inl early ↦ rw (by, early, if◌then◌else◌) (collect-Within n ev (next ev now))
      | inr late ↦
          rw (by, late, if◌then◌else◌)
            ((ground arith, ground arith), collect-Within n ev (next ev now))
    ]
  ]

  collect_all-Within :
      (events : List ScheduledEvent) → All (Within start end) (collect_all next events start end)
  unfolding collect_all
  collect_all-Within [] = tt
  collect_all-Within (ev ∷ evs) =
      All-append _ _ _ (collect-Within (rounds_to start end) ev start) (collect_all-Within evs)

  -- The firings between start and end are in the order of their times, and each has a time after
  -- start and at most end, whatever croniter returns.
  pub firings_between-IsSorted :
      (events : List ScheduledEvent)
      → IsSorted (firings_between next events start end)
        × All (Within start end) (firings_between next events start end)
  unfolding firings_between
  firings_between-IsSorted events = (
    sort_firings-IsSorted (collect_all next events start end),
    All-sort_firings _ (collect_all next events start end) (collect_all-Within events),
  )
