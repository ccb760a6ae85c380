-- ===== src/Scheduler/Advance.antt =====
-- The clock going forward in one step and in several.
use multi_desk_trading.Common.{
  String, true, false, not, ◌≡◌, refl, ap, inl, inr, some, List, [], ◌∷◌, ◌++◌, arith, All-imp,
  keep-append, keep-All, keep_none, keep, Bool-cases, if◌then◌else◌,
}
use mathlib.Core.List.{append-nil}
use multi_desk_trading.Common.Int.{ℤ, leb_ℤ, eq_of_parts}
use multi_desk_trading.Scheduler.{
  ScheduledEvent, Croniter, Firing, Scheduler, collect, rounds_to, collect_all, is_fired,
  take_fresh, firings_between, start_of, advance_to,
}
use multi_desk_trading.Scheduler.Cron.{
  CronLaws, upcoming, upcoming_split, upcoming_by, upcoming_after, collect-upcoming,
  rounds_to-Suffices,
}
use multi_desk_trading.Scheduler.Sorting.{is_by, is_past, sort_firings_split}

module _ (next : Croniter) (C : CronLaws next) where
  scheduled : ScheduledEvent → ℤ → ℤ → List Firing
  scheduled ev start end = upcoming next C ev (rounds_to start end) end start

  collect-scheduled :
      (ev : ScheduledEvent) (start end : ℤ)
      → collect next (rounds_to start end) ev start end start ≡ scheduled ev start end
  unfolding scheduled
  collect-scheduled ev start end =
      collect-upcoming next C ev (rounds_to start end) start end start (ground arith)

  module _ (start mid end : ℤ) (le : leb_ℤ start mid ≡ true) (le' : leb_ℤ mid end ≡ true) where
    scheduled_split :
        (ev : ScheduledEvent)
        → scheduled ev start end ≡ scheduled ev start mid ++ scheduled ev mid end
    unfolding scheduled
    scheduled_split ev =
        upcoming_split next C ev (rounds_to start end) (rounds_to start mid) (rounds_to mid end) mid
          end start (rounds_to-Suffices start end) (rounds_to-Suffices start mid)
          (rounds_to-Suffices mid end) le le'

    keep_by-scheduled :
        (ev : ScheduledEvent) → keep (is_by mid) (scheduled ev start end) ≡ scheduled ev start mid
    unfolding scheduled
    keep_by-scheduled ev = rw (
      scheduled_split ev,
      keep-append (is_by mid),
      keep-All (is_by mid) _ (upcoming_by next C ev (rounds_to start mid) mid start),
      keep_none (is_by mid) _ (
          All-imp _ _ (λ x later. ground arith) _
            (upcoming_after next C ev (rounds_to mid end) mid end mid (ground arith))),
      append-nil,
    )

    keep_past-scheduled :
        (ev : ScheduledEvent) → keep (is_past mid) (scheduled ev start end) ≡ scheduled ev mid end
    unfolding scheduled
    keep_past-scheduled ev = rw (
      scheduled_split ev,
      keep-append (is_past mid),
      keep-All (is_past mid) _ (
          All-imp _ _ (λ x later. ground arith) _
            (upcoming_after next C ev (rounds_to mid end) mid end mid (ground arith))),
      keep_none (is_past mid) _ (
          All-imp _ _ (λ x by. ap not by) _
            (upcoming_by next C ev (rounds_to start mid) mid start)),
    )

    keep_by-collect_all :
        (events : List ScheduledEvent)
        → keep (is_by mid) (collect_all next events start end) ≡ collect_all next events start mid
    unfolding collect_all
    keep_by-collect_all [] = refl
    keep_by-collect_all (ev ∷ evs) = rw (
      keep-append (is_by mid),
      collect-scheduled ev start end,
      collect-scheduled ev start mid,
      keep_by-scheduled ev,
      keep_by-collect_all evs,
    )

    keep_past-collect_all :
        (events : List ScheduledEvent)
        → keep (is_past mid) (collect_all next events start end) ≡ collect_all next events mid end
    unfolding collect_all
    keep_past-collect_all [] = refl
    keep_past-collect_all (ev ∷ evs) = rw (
      keep-append (is_past mid),
      collect-scheduled ev start end,
      collect-scheduled ev mid end,
      keep_past-scheduled ev,
      keep_past-collect_all evs,
    )

    -- The firings between two times are those up to a time in between, and then those after it.
    pub firings_between_split :
        (events : List ScheduledEvent)
        → firings_between next events start end
          ≡ firings_between next events start mid ++ firings_between next events mid end
    unfolding firings_between
    firings_between_split events = rw (
      sort_firings_split mid (collect_all next events start end),
      keep_by-collect_all events,
      keep_past-collect_all events,
    )

take_fresh-append :
    (keys : List (String × ℤ)) (xs ys : List Firing)
    → take_fresh keys (xs ++ ys) ≡ (
      (take_fresh (take_fresh keys xs).0 ys).0,
      (take_fresh keys xs).1 ++ (take_fresh (take_fresh keys xs).0 ys).1,
    )
unfolding take_fresh
take_fresh-append keys [] ys = refl
take_fresh-append keys (x ∷ xs) ys = elim (Bool-cases (is_fired x.event.event_id x.ts keys)) [
  | inl known ↦ rw (known, if◌then◌else◌, take_fresh-append keys xs ys)
  | inr fresh ↦ rw (fresh, if◌then◌else◌, take_fresh-append ((x.event.event_id, x.ts) ∷ keys) xs ys)
]

module _ (next : Croniter) (C : CronLaws next) where
  -- Let the next time that croniter gives be later and stay the next one until it comes, let the
  -- scheduler have a last time, and let mid be at most end. Going forward to mid and from there to end
  -- leaves the scheduler that going to end at once leaves, and the firings of the two steps, one after
  -- the other, are those of the one step.
  pub advance_to_split :
      (s : Scheduler) (start mid end : ℤ)
      → s.last_ts_utc ≡ some start
      → leb_ℤ mid end ≡ true
      → advance_to next s end ≡ (
        (advance_to next (advance_to next s mid).0 end).0,
        (advance_to next s mid).1 ++ (advance_to next (advance_to next s mid).0 end).1,
      )
  unfolding advance_to
  advance_to_split s start mid end last le = elim (Bool-cases (leb_ℤ mid start)) [
    | inl back ↦ rw (last, start_of, back, if◌then◌else◌)
    | inr forward ↦ elim (Bool-cases (leb_ℤ end mid)) [
      | inl same ↦
          let arrived : leb_ℤ mid mid ≡ true = ground arith in
          rw (
            eq_of_parts end mid (ground arith),
            last,
            start_of,
            forward,
            if◌then◌else◌,
            arrived,
            append-nil,
          )
      | inr further ↦
          let open_end : leb_ℤ end start ≡ false = ground arith in
          rw (
            last,
            start_of,
            forward,
            if◌then◌else◌,
            further,
            open_end,
            firings_between_split next C start mid end (ground arith) le s.events,
            take_fresh-append,
          )
    ]
  ]

-- The keys after some firings.
abbrev pub record_keys : List (String × ℤ) → List Firing → List (String × ℤ)
record_keys keys [] = keys
record_keys keys (x ∷ xs) = record_keys ((x.event.event_id, x.ts) ∷ keys) xs

-- No firing has a key that is recorded already, or that of an earlier firing.
abbrev pub FiresOnce : List (String × ℤ) → List Firing → Type 0
FiresOnce keys [] = Unit
FiresOnce keys (x ∷ xs) =
    (is_fired x.event.event_id x.ts keys ≡ false) × FiresOnce ((x.event.event_id, x.ts) ∷ keys) xs

take_fresh-FiresOnce :
    (keys : List (String × ℤ)) (xs : List Firing)
    → FiresOnce keys (take_fresh keys xs).1
      × ((take_fresh keys xs).0 ≡ record_keys keys (take_fresh keys xs).1)
unfolding take_fresh
take_fresh-FiresOnce keys [] = (tt, refl)
take_fresh-FiresOnce keys (x ∷ xs) = elim (Bool-cases (is_fired x.event.event_id x.ts keys)) [
  | inl known ↦ rw (known, if◌then◌else◌) (take_fresh-FiresOnce keys xs)
  | inr fresh ↦
      let rest = take_fresh-FiresOnce ((x.event.event_id, x.ts) ∷ keys) xs in
      rw (fresh, if◌then◌else◌) ((fresh, rest.0), rest.1)
]

-- No firing of `advance_to` has an event identifier and a time that the scheduler has recorded or
-- that an earlier firing of the same call has, and afterwards the recorded keys are those of before
-- and those of the firings.
pub advance_to-FiresOnce :
    (next : Croniter) (s : Scheduler) (ts : ℤ)
    → FiresOnce s.fired_event_keys (advance_to next s ts).1
      × ((advance_to next s ts).0.fired_event_keys
          ≡ record_keys s.fired_event_keys (advance_to next s ts).1)
unfolding advance_to
advance_to-FiresOnce next s ts = elim (Bool-cases (leb_ℤ ts (start_of next s.last_ts_utc ts))) [
  | inl back ↦ rw (back, if◌then◌else◌) (tt, refl)
  | inr forward ↦ rw (forward, if◌then◌else◌) (take_fresh-FiresOnce s.fired_event_keys _)
]
