-- ===== src/Dispatcher.antt =====
-- The dispatcher of research-loop events, research_loop/dispatcher.py, with ResearchLoopEvent of
-- contracts/v1.py and the table research_loop_events of persistence/db.py.
pub mod Order
pub mod Marks
pub mod Run
pub mod Pending
mod Tests
use text.Mathlib.Text.{◌==◌ as str_eq}
use multi_desk_trading.Common.{
  String, Bool, true, false, not, ◌&&◌, ◌||◌, Option, none, some, List, [], ◌∷◌, ◌++◌, Result, ok,
  err, raise_if, ◌>>◌, ◌>>=◌, if◌then◌else◌, keep,
}
use multi_desk_trading.Common.Int.{ℤ, pos, ltb_ℤ, leb_ℤ}
use multi_desk_trading.Common.Time.{Datetime, is_naive, micros}
use multi_desk_trading.Common.Dict.{find_entry, set_entry}

-- The payload is a JSON value, which the dispatcher passes on. The times of a row are aware.
pub record ResearchLoopEvent (Payload : Type 0) : Type 0 where
  pub event_id : String
  pub event_type : String
  pub triggered_at_utc : ℤ
  pub priority : ℤ
  pub payload : Payload
  pub completed_at_utc : Option ℤ
  pub produced_artefact : Option String

pub record HandlerResult : Type 0 where
  pub artefact : String
  pub notes : String

-- What ends a call: a naive time, a type or a priority that the event's class refuses, a key that is
-- taken, or what a handler raises.
pub data DispatchError (Raised : Type 0) : Type 0 where
  naive_now validation duplicate_key : DispatchError Raised
  raised : Raised → DispatchError Raised

abbrev pub is_event_type : String → Bool
is_event_type name =
    str_eq name "gate_failure"
    || str_eq name "regime_transition"
    || str_eq name "weight_staleness"
    || str_eq name "attribution_anomaly"
    || str_eq name "correlation_shift"
    || str_eq name "desk_staleness"
    || str_eq name "controller_commission"
    || str_eq name "data_ingestion_failure"
    || str_eq name "periodic_weekly"
    || str_eq name "feed_reliability_review"

module _ (Payload : Type 0) where
  -- What the class of events checks when one is built.
  abbrev pub is_valid : ResearchLoopEvent Payload → Bool
  is_valid e = is_event_type e.event_type && leb_ℤ (pos 0) e.priority && leb_ℤ e.priority (pos 9)

  -- `completed_at_utc IS NULL`
  abbrev pub is_pending : ResearchLoopEvent Payload → Bool
  is_pending e = elim e.completed_at_utc [ none ↦ true | some _ ↦ false ]

  abbrev pub has_event : String → List (ResearchLoopEvent Payload) → Bool
  has_event key [] = false
  has_event key (row ∷ rows) = str_eq row.event_id key || has_event key rows

  -- The `UPDATE` of `_mark_completed`.
  unfoldable pub mark_completed :
      String → ℤ → String → List (ResearchLoopEvent Payload) → List (ResearchLoopEvent Payload)
  mark_completed key at artefact [] = []
  mark_completed key at artefact (row ∷ rows) =
      (if str_eq row.event_id key
        then record row { completed_at_utc = some at; produced_artefact = some artefact }
        else row)
      ∷ mark_completed key at artefact rows

  -- `ORDER BY priority ASC, triggered_at_utc ASC, event_id ASC`; how DuckDB orders texts is an
  -- argument.
  module _ (text_leb : String → String → Bool) where
    abbrev pub is_before : ResearchLoopEvent Payload → ResearchLoopEvent Payload → Bool
    is_before a b =
        ltb_ℤ a.priority b.priority
        || (leb_ℤ a.priority b.priority
            && (ltb_ℤ a.triggered_at_utc b.triggered_at_utc
                || (leb_ℤ a.triggered_at_utc b.triggered_at_utc && text_leb a.event_id b.event_id)))

    unfoldable pub insert_event :
        ResearchLoopEvent Payload
        → List (ResearchLoopEvent Payload)
        → List (ResearchLoopEvent Payload)
    insert_event e [] = e ∷ []
    insert_event e (other ∷ rest) =
        if is_before e other then e ∷ other ∷ rest else other ∷ insert_event e rest

    unfoldable pub order_events :
        List (ResearchLoopEvent Payload) → List (ResearchLoopEvent Payload)
    unfolding insert_event
    order_events [] = []
    order_events (e ∷ es) = insert_event e (order_events es)

  -- The rows as objects, each checked when it is built.
  unfoldable pub build_events :
      {Raised : Type 0}
      → List (ResearchLoopEvent Payload)
      → Result (DispatchError Raised) (List (ResearchLoopEvent Payload))
  build_events [] = ok []
  build_events (row ∷ rows) = do
    raise_if (not (is_valid row)) validation
    out ← build_events rows
    ok (row ∷ out)

-- The database: the table of events, and all else that the handlers read and write.
pub record Database (Payload Others : Type 0) : Type 0 where
  pub research_loop_events : List (ResearchLoopEvent Payload)
  pub others : Others

module _ (Payload Others Raised : Type 0) where
  -- What a handler writes stays written when it raises.
  abbrev pub HandlerFn : Type 0
  HandlerFn =
      Database Payload Others
      → ResearchLoopEvent Payload
      → Database Payload Others × Result Raised HandlerResult

  pub record Dispatcher : Type 0 where
    pub conn : Database Payload Others
    pub handlers : List (String × HandlerFn)

  unfoldable pub register : Dispatcher → String → HandlerFn → Dispatcher
  register d event_type handler = record d { handlers = set_entry event_type handler d.handlers }

  -- `submit`, and so `insert_research_loop_event`.
  unfoldable pub submit :
      Dispatcher → ResearchLoopEvent Payload → Result (DispatchError Raised) Dispatcher
  submit d e = do
    raise_if (has_event Payload e.event_id d.conn.research_loop_events) duplicate_key
    ok (record d {
      conn = record d.conn { research_loop_events = d.conn.research_loop_events ++ e ∷ [] };
    })

  module _ (text_leb : String → String → Bool) where
    unfoldable pub pending_events :
        Dispatcher → Result (DispatchError Raised) (List (ResearchLoopEvent Payload))
    unfolding build_events order_events
    pending_events d =
        build_events Payload
          (order_events Payload text_leb (keep (is_pending Payload) d.conn.research_loop_events))

  abbrev pub Outcome : Type 0
  Outcome =
      Database Payload Others
      × Result (DispatchError Raised) (List (ResearchLoopEvent Payload × HandlerResult))

  -- The loop of `run`.
  unfoldable pub run_events :
      List (String × HandlerFn)
      → ℤ
      → Database Payload Others
      → List (ResearchLoopEvent Payload)
      → Outcome
  unfolding mark_completed
  run_events handlers at conn [] = (conn, ok [])
  run_events handlers at conn (e ∷ es) = elim (find_entry e.event_type handlers) [
    | none ↦ run_events handlers at conn es
    | some handler ↦
        let call = handler conn e in
        elim call.1 [
          | err exception ↦ (call.0, err (raised exception))
          | ok result ↦
              let marked = record call.0 {
                research_loop_events =
                    mark_completed Payload e.event_id at result.artefact
                      call.0.research_loop_events;
              } in
              let later = run_events handlers at marked es in
              (later.0, (do processed ← later.1; ok ((e, result) ∷ processed)))
        ]
  ]

  module _ (text_leb : String → String → Bool) where
    unfoldable pub run : Dispatcher → Datetime → Outcome
    unfolding pending_events run_events
    run d now_utc = elim (raise_if (is_naive now_utc) naive_now >> pending_events text_leb d) [
      | err e ↦ (d.conn, err e)
      | ok events ↦ run_events d.handlers (micros now_utc) d.conn events
    ]
