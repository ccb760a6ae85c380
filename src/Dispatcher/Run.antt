-- ===== src/Dispatcher/Run.antt =====
-- How far a run of the dispatcher gets.
use text.Mathlib.Text.{◌==◌ as str_eq}
use multi_desk_trading.Common.{
  String, Bool, true, false, ◌≡◌, refl, ap, subst, ◌∙◌, inl, inr, none, some, List, [], ◌∷◌, ◌++◌,
  map, All, keep, Bool-cases, Option-cases, if◌then◌else◌, ok, err, Result, Result-cases, ◌>>=◌,
}
use mathlib.Core.Option.{some-injective}
use multi_desk_trading.Common.Int.{ℤ}
use multi_desk_trading.Common.Dict.{find_entry}
use multi_desk_trading.Dispatcher.{
  ResearchLoopEvent, HandlerResult, HandlerFn, Database, DispatchError, raised, mark_completed,
  run_events, Outcome,
}
use multi_desk_trading.Dispatcher.Marks.{mark_all}

module _ (Payload Others Raised : Type 0) where
  -- A handler that leaves the table of events as it is.
  abbrev pub KeepsEvents : String × HandlerFn Payload Others Raised → Type 0
  KeepsEvents entry =
      (conn : Database Payload Others) (e : ResearchLoopEvent Payload)
      → (entry.1 conn e).0.research_loop_events ≡ conn.research_loop_events

  -- A handler that does not raise.
  abbrev pub Returns : String × HandlerFn Payload Others Raised → Type 0
  Returns entry =
      (conn : Database Payload Others) (e : ResearchLoopEvent Payload)
      → (result : HandlerResult) × ((entry.1 conn e).1 ≡ ok result)

  -- Whether a handler is registered for an event.
  abbrev pub is_handled :
      List (String × HandlerFn Payload Others Raised) → ResearchLoopEvent Payload → Bool
  is_handled handlers e = elim (find_entry e.event_type handlers) [ none ↦ false | some _ ↦ true ]

  -- A run ends with all processed, or with what a handler raised for the first that is left.
  abbrev pub IsEnd :
      Result (DispatchError Raised) (List (ResearchLoopEvent Payload × HandlerResult))
      → List (ResearchLoopEvent Payload × HandlerResult)
      → List (ResearchLoopEvent Payload)
      → Type 0
  IsEnd result done [] = result ≡ ok done
  IsEnd result done (e ∷ es) = (x : Raised) × (result ≡ err (raised x))

  All-find_entry :
      (P : String × HandlerFn Payload Others Raised → Type 0) (key : String)
      (handlers : List (String × HandlerFn Payload Others Raised))
      (handler : HandlerFn Payload Others Raised)
      → All P handlers
      → find_entry key handlers ≡ some handler
      → (name : String) × P (name, handler)
  All-find_entry P key [] handler h found = cc
  All-find_entry P key ((name, other) ∷ rest) handler h found =
      elim (Bool-cases (str_eq name key)) [
        | inl e ↦ (
          name,
          subst (λ o. P (name, o)) (some-injective _ _ (rw (e, if◌then◌else◌) at found)) h.0,
        )
        | inr e ↦ All-find_entry P key rest handler h.1 (rw (e, if◌then◌else◌) at found)
      ]

  -- How far a run over these events got: what it processed, and what it left of those handled.
  abbrev pub IsProgress :
      List (String × HandlerFn Payload Others Raised)
      → ℤ
      → Database Payload Others
      → List (ResearchLoopEvent Payload)
      → Outcome Payload Others Raised
      → Type 0
  IsProgress handlers at conn es outcome =
      (done : List (ResearchLoopEvent Payload × HandlerResult)) × (left : List
        (ResearchLoopEvent Payload))
      × (keep (is_handled handlers) es ≡ map (λ x. x.0) done ++ left)
      × (outcome.0.research_loop_events ≡ mark_all Payload at done conn.research_loop_events)
      × IsEnd outcome.1 done left

  module _ (handlers : List (String × HandlerFn Payload Others Raised)) (at : ℤ)
      (conn : Database Payload Others) (e : ResearchLoopEvent Payload)
      (es : List (ResearchLoopEvent Payload)) where
    run_events_skip :
        find_entry e.event_type handlers ≡ none
        → run_events Payload Others Raised handlers at conn (e ∷ es)
          ≡ run_events Payload Others Raised handlers at conn es
    unfolding run_events
    run_events_skip missing = rw (run_events, missing)

    IsProgress-skip :
        find_entry e.event_type handlers ≡ none
        → (outcome : Outcome Payload Others Raised) → IsProgress handlers at conn es outcome
        → IsProgress handlers at conn (e ∷ es) outcome
    IsProgress-skip missing outcome progress =
        let skipped : is_handled handlers e ≡ false = rw (is_handled, missing) in
        rw (skipped, if◌then◌else◌) progress

    module _ (handler : HandlerFn Payload Others Raised)
        (found : find_entry e.event_type handlers ≡ some handler) where
      run_events_raise :
          (x : Raised)
          → (handler conn e).1 ≡ err x
          → run_events Payload Others Raised handlers at conn (e ∷ es)
            ≡ ((handler conn e).0, err (raised x))
      unfolding run_events
      run_events_raise x h = rw (run_events, found, h)

      after_call : HandlerResult → Database Payload Others
      after_call result = record (handler conn e).0 {
        research_loop_events =
            mark_completed Payload e.event_id at result.artefact
              (handler conn e).0.research_loop_events;
      }

      run_events_return :
          (result : HandlerResult)
          → (handler conn e).1 ≡ ok result
          → run_events Payload Others Raised handlers at conn (e ∷ es) ≡ (
            (run_events Payload Others Raised handlers at (after_call result) es).0,
            (run_events Payload Others Raised handlers at (after_call result) es).1
                >>= (λ processed. ok ((e, result) ∷ processed)),
          )
      unfolding run_events after_call
      run_events_return result h = rw (run_events, found, h)

      is_handled_found : is_handled handlers e ≡ true
      is_handled_found = rw (is_handled, found)

      IsProgress-raise :
          (x : Raised)
          → All KeepsEvents handlers
          → IsProgress handlers at conn (e ∷ es) ((handler conn e).0, err (raised x))
      unfolding mark_all
      IsProgress-raise x h =
          let (name, keeps) = All-find_entry KeepsEvents e.event_type handlers handler h found in
          (
            [],
            e ∷ keep (is_handled handlers) es,
            rw (is_handled_found, if◌then◌else◌),
            keeps conn e,
            (x, refl),
          )

      IsProgress-return :
          (result : HandlerResult) (outcome : Outcome Payload Others Raised)
          → All KeepsEvents handlers
          → IsProgress handlers at (after_call result) es outcome
          → IsProgress handlers at conn
              (e ∷ es)
              (outcome.0, outcome.1 >>= (λ processed. ok ((e, result) ∷ processed)))
      unfolding mark_all after_call
      IsProgress-return result outcome h (done, left, split, marked, end) =
          let (name, keeps) = All-find_entry KeepsEvents e.event_type handlers handler h found in
          (
            (e, result) ∷ done,
            left,
            rw (is_handled_found, if◌then◌else◌) (ap (λ r. e ∷ r) split),
            marked
                ∙ ap
                    (λ rows.
                      mark_all Payload at done
                        (mark_completed Payload e.event_id at result.artefact rows))
                    (keeps conn e),
            end_after left end,
          )
        where
          end_after :
              (left : List (ResearchLoopEvent Payload))
              → IsEnd outcome.1 done left
              → IsEnd
                  (outcome.1 >>= (λ processed. ok ((e, result) ∷ processed)))
                  ((e, result) ∷ done)
                  left
          end_after [] k = rw (k)
          end_after (y ∷ ys) (x, k) = (x, rw (k))

  IsProgress-none :
      (handlers : List (String × HandlerFn Payload Others Raised)) (at : ℤ)
      (conn : Database Payload Others)
      → IsProgress handlers at conn [] (run_events Payload Others Raised handlers at conn [])
  unfolding run_events mark_all
  IsProgress-none handlers at conn = ([], [], refl, refl, refl)

  pub run_events-IsProgress :
      (handlers : List (String × HandlerFn Payload Others Raised)) (at : ℤ)
      (conn : Database Payload Others) (es : List (ResearchLoopEvent Payload))
      → All KeepsEvents handlers
      → IsProgress handlers at conn es (run_events Payload Others Raised handlers at conn es)
  run_events-IsProgress handlers at conn [] h = IsProgress-none handlers at conn
  run_events-IsProgress handlers at conn (e ∷ es) h =
      elim (Option-cases (find_entry e.event_type handlers)) [
        | inl missing ↦ rw (run_events_skip handlers at conn e es missing) (
            IsProgress-skip handlers at conn e es missing
              (run_events Payload Others Raised handlers at conn es)
              (run_events-IsProgress handlers at conn es h))
        | inr (handler, found) ↦ elim (Result-cases (handler conn e).1) [
          | inl (result, returned) ↦
              rw (run_events_return handlers at conn e es handler found result returned) (
                IsProgress-return handlers at conn e es handler found result
                  (run_events Payload Others Raised handlers at
                    (after_call handlers at conn e es handler found result) es)
                  h
                  (run_events-IsProgress handlers at
                    (after_call handlers at conn e es handler found result) es h))
          | inr (x, raises) ↦
              rw (run_events_raise handlers at conn e es handler found x raises)
                (IsProgress-raise handlers at conn e es handler found x h)
        ]
      ]

  pub run_events_ok :
      (handlers : List (String × HandlerFn Payload Others Raised)) (at : ℤ)
      (conn : Database Payload Others) (es : List (ResearchLoopEvent Payload))
      → All Returns handlers
      → (out : List (ResearchLoopEvent Payload × HandlerResult)) × ((run_events Payload Others
            Raised handlers at conn es).1
          ≡ ok out)
  unfolding run_events
  run_events_ok handlers at conn [] h = ([], refl)
  run_events_ok handlers at conn (e ∷ es) h =
      elim (Option-cases (find_entry e.event_type handlers)) [
        | inl missing ↦
            rw (run_events_skip handlers at conn e es missing) (run_events_ok handlers at conn es h)
        | inr (handler, found) ↦
            let (name, returns) = All-find_entry Returns e.event_type handlers handler h found in
            let (result, returned) = returns conn e in
            let (out, later) =
              run_events_ok handlers at (after_call handlers at conn e es handler found result) es
                h in
            (
              (e, result) ∷ out,
              rw (run_events_return handlers at conn e es handler found result returned, later),
            )
      ]
