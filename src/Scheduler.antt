-- ===== src/Scheduler.antt =====
-- The release-calendar scheduler, scheduler/calendar.py. Times are aware ones, in microseconds; the
-- scheduled time after another, which croniter computes in an event's time zone, is an argument.
pub mod Cron
pub mod Sorting
pub mod Advance
pub mod Complete
pub mod Checks
pub mod Recoveries
mod Tests
use text.Mathlib.Text.{◌==◌ as str_eq}
use multi_desk_trading.Common.{
  ℕ, zero, suc, String, Bool, true, false, ◌&&◌, ◌||◌, Option, none, some, List, [], ◌∷◌, ◌++◌,
  if◌then◌else◌,
}
use multi_desk_trading.Common.Int.{ℤ, pos, pos_part, ◌-ℤ◌, ltb_ℤ, leb_ℤ}

pub record ScheduledEvent : Type 0 where
  pub event_id : String
  pub description : String
  pub cron : String
  pub tz : String
  pub target_variable : String

-- `croniter(ev.cron, start_time=t).get_next(datetime)` in the time zone of the event, read in UTC.
abbrev pub Croniter : Type 0
Croniter = ScheduledEvent → ℤ → ℤ

-- An event and the time at which it is scheduled.
pub record Firing : Type 0 where
  pub event : ScheduledEvent
  pub ts : ℤ

pub record Scheduler : Type 0 where
  pub events : List ScheduledEvent
  pub last_ts_utc : Option ℤ
  pub fired_event_keys : List (String × ℤ)

-- Enough rounds to pass the end.
abbrev pub rounds_to : ℤ → ℤ → ℕ
unfolding ◌-ℤ◌
rounds_to start end = suc (pos_part (end -ℤ start))

module _ (next : Croniter) where
  -- The `while True` of `firings_between` for one event, from the time at which the iterator stands.
  -- A round of it goes forward by at least a microsecond, which bounds the rounds.
  unfoldable pub collect : ℕ → ScheduledEvent → ℤ → ℤ → ℤ → List Firing
  collect zero ev start end now = []
  collect (suc rounds) ev start end now =
      let ts = next ev now in
      let rest = collect rounds ev start end ts in
      if ltb_ℤ end ts
      then []
      else (if leb_ℤ ts start then rest else record { event = ev; ts = ts } ∷ rest)

  unfoldable pub collect_all : List ScheduledEvent → ℤ → ℤ → List Firing
  unfolding collect ◌-ℤ◌
  collect_all [] start end = []
  collect_all (ev ∷ evs) start end =
      collect (rounds_to start end) ev start end start ++ collect_all evs start end

-- `results.sort(key=lambda x: x[1])`, which is stable.
unfoldable pub insert_firing : Firing → List Firing → List Firing
insert_firing x [] = x ∷ []
insert_firing x (y ∷ ys) = if leb_ℤ x.ts y.ts then x ∷ y ∷ ys else y ∷ insert_firing x ys

unfoldable pub sort_firings : List Firing → List Firing
unfolding insert_firing
sort_firings [] = []
sort_firings (x ∷ xs) = insert_firing x (sort_firings xs)

abbrev pub is_fired : String → ℤ → List (String × ℤ) → Bool
is_fired event_id ts [] = false
is_fired event_id ts ((id, t) ∷ keys) =
    (str_eq id event_id && leb_ℤ t ts && leb_ℤ ts t) || is_fired event_id ts keys

-- The loop of `advance_to`: the keys afterwards, and the firings that are fresh.
unfoldable pub take_fresh : List (String × ℤ) → List Firing → List (String × ℤ) × List Firing
take_fresh keys [] = (keys, [])
take_fresh keys (x ∷ xs) =
    let known = is_fired x.event.event_id x.ts keys in
    let rest = take_fresh (if known then keys else (x.event.event_id, x.ts) ∷ keys) xs in
    (rest.0, if known then rest.1 else x ∷ rest.1)

module _ (next : Croniter) where
  unfoldable pub firings_between : List ScheduledEvent → ℤ → ℤ → List Firing
  unfolding collect_all sort_firings
  firings_between events start end = sort_firings (collect_all next events start end)

  -- The time from which to fire: the last one, or a year back.
  abbrev pub start_of : Option ℤ → ℤ → ℤ
  unfolding ◌-ℤ◌
  start_of (some last) ts = last
  start_of none ts = ts -ℤ pos 31536000000000

  unfoldable pub advance_to : Scheduler → ℤ → Scheduler × List Firing
  unfolding firings_between take_fresh ◌-ℤ◌
  advance_to s ts =
      let start = start_of s.last_ts_utc ts in
      let fired = take_fresh s.fired_event_keys (firings_between s.events start ts) in
      if leb_ℤ ts start
      then (s, [])
      else (record s { last_ts_utc = some ts; fired_event_keys = fired.0 }, fired.1)
