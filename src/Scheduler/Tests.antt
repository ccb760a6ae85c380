-- ===== src/Scheduler/Tests.antt =====
-- Two events at every tenth microsecond, and the theorems at their firings.
mod Recoveries
use multi_desk_trading.Common.{◌+◌, ◌*◌, ◌/◌, ◌≡◌, refl, true, some, [], ◌∷◌, ◌++◌, arith, All}
use mathlib.Core.List.{Memᴰ}
use multi_desk_trading.Common.Int.{ℤ, pos, negsuc, leb_ℤ, ltb_ℤ}
use multi_desk_trading.Scheduler.{
  ScheduledEvent, Croniter, Scheduler, collect, collect_all, insert_firing, sort_firings,
  take_fresh, firings_between, advance_to,
}
use multi_desk_trading.Scheduler.Cron.{CronLaws}
use multi_desk_trading.Scheduler.Advance.{
  advance_to_split, advance_to-FiresOnce, FiresOnce, record_keys,
}
use multi_desk_trading.Scheduler.Complete.{
  firings_between_complete, firings_between-IsSorted, IsSorted, Within,
}

abbrev pub every_tenth : Croniter
every_tenth ev (pos t) = pos ((t / 10 + 1) * 10)
every_tenth ev (negsuc t) = pos 0

every_tenth-CronLaws : CronLaws every_tenth
every_tenth-CronLaws = record { later = later; same = same }
  where
    later : (ev : ScheduledEvent) (t : ℤ) → ltb_ℤ t (every_tenth ev t) ≡ true
    later ev (pos t) = ground arith
    later ev (negsuc t) = ground arith

    same :
        (ev : ScheduledEvent) (t u : ℤ)
        → leb_ℤ t u ≡ true
        → ltb_ℤ u (every_tenth ev t) ≡ true
        → every_tenth ev u ≡ every_tenth ev t
    same ev (pos t) (pos u) le lt = ground arith
    same ev (pos t) (negsuc u) le lt = ground arith
    same ev (negsuc t) (pos u) le lt = ground arith
    same ev (negsuc t) (negsuc u) le lt = ground arith

abbrev wpsr : ScheduledEvent
wpsr = record {
  event_id = "eia_wpsr";
  description = "";
  cron = "";
  tz = "UTC";
  target_variable = "wti";
}

abbrev rigs : ScheduledEvent
rigs = record {
  event_id = "rig_count";
  description = "";
  cron = "";
  tz = "UTC";
  target_variable = "wti";
}

abbrev pub desk_calendar : Scheduler
desk_calendar = record {
  events = wpsr ∷ rigs ∷ [];
  last_ts_utc = some (pos 5);
  fired_event_keys = ("rig_count", pos 10) ∷ [];
}

-- The key that is recorded already does not fire.
advance_to-run :
    (advance_to every_tenth desk_calendar (pos 20)).1
    ≡ record { event = wpsr; ts = pos 10 }
      ∷ record { event = wpsr; ts = pos 20 }
      ∷ record { event = rigs; ts = pos 20 }
      ∷ []
unfolding advance_to firings_between collect_all collect sort_firings insert_firing take_fresh
advance_to-run = refl

advance_to_split_example : advance_to every_tenth desk_calendar (pos 20) ≡ (
  (advance_to every_tenth (advance_to every_tenth desk_calendar (pos 12)).0 (pos 20)).0,
  (advance_to every_tenth desk_calendar (pos 12)).1
      ++ (advance_to every_tenth (advance_to every_tenth desk_calendar (pos 12)).0 (pos 20)).1,
)
advance_to_split_example =
    advance_to_split every_tenth every_tenth-CronLaws desk_calendar (pos 5) (pos 12) (pos 20) refl
      refl

advance_to-FiresOnce_example :
    FiresOnce desk_calendar.fired_event_keys (advance_to every_tenth desk_calendar (pos 20)).1
    × ((advance_to every_tenth desk_calendar (pos 20)).0.fired_event_keys
        ≡ record_keys desk_calendar.fired_event_keys
            (advance_to every_tenth desk_calendar (pos 20)).1)
advance_to-FiresOnce_example = advance_to-FiresOnce every_tenth desk_calendar (pos 20)

firings_between_complete_example :
    Memᴰ
      (record { event = rigs; ts = every_tenth rigs (pos 13) })
      (firings_between every_tenth desk_calendar.events (pos 5) (pos 30))
firings_between_complete_example =
    firings_between_complete every_tenth every_tenth-CronLaws rigs desk_calendar.events (pos 5)
      (pos 30) (pos 13) (Memᴰ.tail (Memᴰ.head refl)) refl refl

firings_between-IsSorted_example :
    IsSorted (firings_between every_tenth desk_calendar.events (pos 5) (pos 30))
    × All
        (Within (pos 5) (pos 30))
        (firings_between every_tenth desk_calendar.events (pos 5) (pos 30))
firings_between-IsSorted_example =
    firings_between-IsSorted every_tenth (pos 5) (pos 30) desk_calendar.events
