-- ===== src/Dispatcher/Tests.antt =====
-- A queue of three events, of which one has no handler, and the theorems at it.
use multi_desk_trading.Common.{
  ◌+◌, ℕ, String, Bool, true, not, ◌≡◌, refl, inl, none, List, [], ◌∷◌, ◌++◌, map, All, keep, ok,
}
use multi_desk_trading.Common.Int.{pos}
use multi_desk_trading.Common.Time.{aware}
use multi_desk_trading.Dispatcher.{
  ResearchLoopEvent, HandlerResult, HandlerFn, Dispatcher, mark_completed, insert_event,
  order_events, build_events, pending_events, run_events, run,
}
use multi_desk_trading.Dispatcher.Order.{TextOrder, IsKeyed}
use multi_desk_trading.Dispatcher.Marks.{is_among}
use multi_desk_trading.Dispatcher.Run.{KeepsEvents, Returns, is_handled, IsEnd}
use multi_desk_trading.Dispatcher.Pending.{run-IsProgress, run-IsDone}

abbrev event : String → String → ℕ → ResearchLoopEvent ℕ
event event_id event_type priority = record {
  event_id = event_id;
  event_type = event_type;
  triggered_at_utc = pos 3;
  priority = pos priority;
  payload = 0;
  completed_at_utc = none;
  produced_artefact = none;
}

-- All texts are taken as equal in the order.
abbrev same_order : String → String → Bool
same_order a b = true

same_order-TextOrder : TextOrder same_order
same_order-TextOrder = record { total = λ a b. inl refl; trans = λ a b c h k. refl }

-- A handler that counts its calls.
abbrev counting : HandlerFn ℕ ℕ String
counting conn e =
    (record conn { others = conn.others + 1 }, ok (record { artefact = e.event_id; notes = "" }))

abbrev weekly : ResearchLoopEvent ℕ
weekly = event "a" "periodic_weekly" 9

abbrev first_failure : ResearchLoopEvent ℕ
first_failure = event "b" "gate_failure" 0

abbrev missing_print : ResearchLoopEvent ℕ
missing_print = event "c" "data_ingestion_failure" 1

abbrev queue : Dispatcher ℕ ℕ String
queue = record {
  conn = record { research_loop_events = weekly ∷ missing_print ∷ first_failure ∷ []; others = 0 };
  handlers = ("gate_failure", counting) ∷ ("periodic_weekly", counting) ∷ [];
}

abbrev in_order : List (ResearchLoopEvent ℕ)
in_order = first_failure ∷ missing_print ∷ weekly ∷ []

pending_events-run : pending_events ℕ ℕ String same_order queue ≡ ok in_order
unfolding pending_events order_events insert_event build_events
pending_events-run = refl

queue-IsKeyed : IsKeyed ℕ queue.conn.research_loop_events
queue-IsKeyed = ((refl, (refl, tt)), ((refl, tt), (tt, tt)))

queue-KeepsEvents : All (KeepsEvents ℕ ℕ String) queue.handlers
queue-KeepsEvents = ((λ conn e. refl), ((λ conn e. refl), tt))

queue-Returns : All (Returns ℕ ℕ String) queue.handlers
queue-Returns = (
  (λ conn e. (record { artefact = e.event_id; notes = "" }, refl)),
  ((λ conn e. (record { artefact = e.event_id; notes = "" }, refl)), tt),
)

run-IsProgress_example :
    (done : List (ResearchLoopEvent ℕ × HandlerResult)) × (left : List (ResearchLoopEvent ℕ))
    × (keep (is_handled ℕ ℕ String queue.handlers) in_order ≡ map (λ x. x.0) done ++ left)
    × (pending_events ℕ ℕ String same_order
          (record queue { conn = (run ℕ ℕ String same_order queue (aware (pos 9))).0 })
        ≡ ok (keep (λ e. not (is_among ℕ (map (λ x. x.0) done) e)) in_order))
    × IsEnd ℕ ℕ String (run ℕ ℕ String same_order queue (aware (pos 9))).1 done left
run-IsProgress_example =
    run-IsProgress ℕ ℕ String same_order same_order-TextOrder queue in_order pending_events-run
      (pos 9) queue-KeepsEvents

run-IsDone_example :
    (done : List (ResearchLoopEvent ℕ × HandlerResult)) × ((run ℕ ℕ String same_order queue
        (aware (pos 9))).1
      ≡ ok done)
    × (map (λ x. x.0) done ≡ keep (is_handled ℕ ℕ String queue.handlers) in_order)
    × (pending_events ℕ ℕ String same_order
          (record queue { conn = (run ℕ ℕ String same_order queue (aware (pos 9))).0 })
        ≡ ok (keep (λ e. not (is_handled ℕ ℕ String queue.handlers e)) in_order))
run-IsDone_example =
    run-IsDone ℕ ℕ String same_order same_order-TextOrder queue in_order pending_events-run (pos 9)
      queue-KeepsEvents queue-IsKeyed queue-Returns

-- The event without a handler stays.
run-once :
    pending_events ℕ ℕ String same_order
      (record queue { conn = (run ℕ ℕ String same_order queue (aware (pos 9))).0 })
    ≡ ok (missing_print ∷ [])
unfolding run run_events mark_completed pending_events order_events insert_event build_events
run-once = refl
