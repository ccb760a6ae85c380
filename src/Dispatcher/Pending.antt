-- ===== src/Dispatcher/Pending.antt =====
-- The events that are pending before and after a run.
use multi_desk_trading.Common.{
  String, Bool, true, not, ◌≡◌, sym, ap, subst, ◌∙◌, List, [], ◌∷◌, ◌++◌, map, All, keep, All-keep,
  All-keep_sub, ok,
}
use mathlib.Core.List.{append-nil}
use multi_desk_trading.Common.Int.{ℤ}
use multi_desk_trading.Common.Time.{aware}
use multi_desk_trading.Dispatcher.{
  ResearchLoopEvent, HandlerResult, Database, Dispatcher, is_pending, is_valid, order_events,
  pending_events, run_events, run,
}
use multi_desk_trading.Dispatcher.Order.{
  TextOrder, IsKeyed, order_events-IsKeyed, keep-IsKeyed, keep-order_events, IsOrdered,
  order_events-IsOrdered, All-order_events,
}
use multi_desk_trading.Dispatcher.Marks.{
  is_among, is_among-order_events, mark_all, keep_pending-mark_all, keep-is_among,
  build_events_same, build_events_valid,
}
use multi_desk_trading.Dispatcher.Run.{
  KeepsEvents, Returns, is_handled, IsEnd, IsProgress, run_events-IsProgress, run_events_ok,
}

module _ (Payload Others Raised : Type 0) where
  module _ (text_leb : String → String → Bool) (T : TextOrder text_leb)
      (d : Dispatcher Payload Others Raised) (before : List (ResearchLoopEvent Payload))
      (pending : pending_events Payload Others Raised text_leb d ≡ ok before) where
    build_pending :
        (before
          ≡ order_events Payload text_leb (keep (is_pending Payload) d.conn.research_loop_events))
        × All (λ row. is_valid Payload row ≡ true) before
    unfolding pending_events
    build_pending =
        let (same, valid) =
          build_events_same Payload
            (order_events Payload text_leb (keep (is_pending Payload) d.conn.research_loop_events))
            pending in
        (same, subst (All (λ row. is_valid Payload row ≡ true)) (sym same) valid)

    -- Let the order of texts be total. Where the pending events are built without an error, they are
    -- in the order of priority, time and identifier, all of them are pending, and an identifier is
    -- among theirs exactly when a pending row has it.
    pub pending_events-IsOrdered :
        IsOrdered Payload text_leb before
        × All (λ e. is_pending Payload e ≡ true) before
        × ((e : ResearchLoopEvent Payload)
            → is_among Payload before e
              ≡ is_among Payload (keep (is_pending Payload) d.conn.research_loop_events) e)
    pending_events-IsOrdered =
        let rows = keep (is_pending Payload) d.conn.research_loop_events in
        rw (build_pending.0) (
          order_events-IsOrdered Payload text_leb T rows,
          All-order_events Payload text_leb _ rows
              (All-keep (is_pending Payload) d.conn.research_loop_events),
          is_among-order_events Payload text_leb rows,
        )

    IsKeyed-before : IsKeyed Payload d.conn.research_loop_events → IsKeyed Payload before
    IsKeyed-before keyed = rw (build_pending.0) (
        order_events-IsKeyed Payload text_leb
          (keep (is_pending Payload) d.conn.research_loop_events)
          (keep-IsKeyed Payload (is_pending Payload) d.conn.research_loop_events keyed))

    module _ (at : ℤ) (keeps : All (KeepsEvents Payload Others Raised) d.handlers) where
      run_aware :
          run Payload Others Raised text_leb d (aware at)
          ≡ run_events Payload Others Raised d.handlers at d.conn before
      unfolding run
      run_aware = rw (run, pending)

      still_pending :
          (conn : Database Payload Others) (done : List (ResearchLoopEvent Payload × HandlerResult))
          → conn.research_loop_events ≡ mark_all Payload at done d.conn.research_loop_events
          → pending_events Payload Others Raised text_leb (record d { conn = conn })
            ≡ ok (keep (λ e. not (is_among Payload (map (λ x. x.0) done) e)) before)
      unfolding pending_events
      still_pending conn done marked =
          let unprocessed : ResearchLoopEvent Payload → Bool =
            λ e. not (is_among Payload (map (λ x. x.0) done) e) in
          rw
            (
              marked,
              keep_pending-mark_all Payload at done d.conn.research_loop_events,
              sym (
                  keep-order_events Payload text_leb T unprocessed
                    (keep (is_pending Payload) d.conn.research_loop_events)),
              sym build_pending.0,
            )
            (build_events_valid Payload _ (All-keep_sub _ unprocessed _ build_pending.1))

      -- Let the order of texts be total, let no handler change the table of events, and let the
      -- pending events be built without an error. At an aware time a run processes, in their order, the pending events that have a handler, all of them, or those
      -- before the first for which the handler raises, and then it raises that. In both cases the
      -- events that are pending afterwards are those not processed, in the order of before.
      pub run-IsProgress :
          (done : List (ResearchLoopEvent Payload × HandlerResult)) × (left : List
            (ResearchLoopEvent Payload))
          × (keep (is_handled Payload Others Raised d.handlers) before
              ≡ map (λ x. x.0) done ++ left)
          × (pending_events Payload Others Raised text_leb
                (record d { conn = (run Payload Others Raised text_leb d (aware at)).0 })
              ≡ ok (keep (λ e. not (is_among Payload (map (λ x. x.0) done) e)) before))
          × IsEnd Payload Others Raised
              (run Payload Others Raised text_leb d (aware at)).1
              done
              left
      run-IsProgress =
          let (done, left, split, marked, end) =
            run_events-IsProgress Payload Others Raised d.handlers at d.conn before keeps in
          rw run_aware (done, left, split, still_pending _ done marked, end)

      -- Let the order of texts be total, let the rows have different identifiers, let no handler raise
      -- or change the table of events, and let the pending events be built without an error. Then the
      -- run at an aware time returns, it processes the pending events that have a handler, in their
      -- order, and those without one are what is pending after it.
      pub run-IsDone :
          IsKeyed Payload d.conn.research_loop_events
          → All (Returns Payload Others Raised) d.handlers
          → (done : List (ResearchLoopEvent Payload × HandlerResult)) × ((run Payload Others Raised
                text_leb d
                (aware at)).1
              ≡ ok done)
            × (map (λ x. x.0) done ≡ keep (is_handled Payload Others Raised d.handlers) before)
            × (pending_events Payload Others Raised text_leb
                  (record d { conn = (run Payload Others Raised text_leb d (aware at)).0 })
                ≡ ok (keep (λ e. not (is_handled Payload Others Raised d.handlers e)) before))
      run-IsDone keyed returns =
          all_done (run_events-IsProgress Payload Others Raised d.handlers at d.conn before keeps)
        where
          all_done :
              IsProgress Payload Others Raised d.handlers at d.conn before
                (run_events Payload Others Raised d.handlers at d.conn before)
              → (done : List (ResearchLoopEvent Payload × HandlerResult)) × ((run Payload Others
                    Raised text_leb d
                    (aware at)).1
                  ≡ ok done)
                × (map (λ x. x.0) done ≡ keep (is_handled Payload Others Raised d.handlers) before)
                × (pending_events Payload Others Raised text_leb
                      (record d { conn = (run Payload Others Raised text_leb d (aware at)).0 })
                    ≡ ok (keep (λ e. not (is_handled Payload Others Raised d.handlers e)) before))
          all_done (done, [], split, marked, end) =
              let processed = sym (split ∙ append-nil _) in
              rw run_aware (
                done,
                end,
                processed,
                still_pending _ done marked
                    ∙ ap ok (
                        ap (λ es. keep (λ e. not (is_among Payload es e)) before) processed
                        ∙ keep-is_among Payload (is_handled Payload Others Raised d.handlers) before
                            (IsKeyed-before keyed)),
              )
          all_done (done, e ∷ es, split, marked, (x, raises)) =
              let (out, returned) =
                run_events_ok Payload Others Raised d.handlers at d.conn before returns in
              absurd (cc (sym raises ∙ returned))
