-- ===== src/Dispatcher/Marks.antt =====
-- The rows that stay pending when the events that a run processed are marked.
use text.Mathlib.Text.{◌==◌ as str_eq}
use text.Mathlib.TextEquality.{eq_iff}
use multi_desk_trading.Common.{
  String, Bool, true, false, not, ◌||◌, ◌≡◌, refl, sym, ap, ◌∙◌, inl, inr, List, [], ◌∷◌, map,
  arith, All, keep, keep-true, Bool-cases, if◌then◌else◌, ok, >>=-eq-ok, ok-injective,
}
use multi_desk_trading.Common.Int.{ℤ}
use multi_desk_trading.Dispatcher.{
  ResearchLoopEvent, HandlerResult, is_pending, is_valid, mark_completed, is_before, insert_event,
  order_events, build_events,
}
use multi_desk_trading.Dispatcher.Order.{IsKeyed}

module _ (Payload : Type 0) where
  -- Whether one of these events has the identifier of this one.
  abbrev pub is_among : List (ResearchLoopEvent Payload) → ResearchLoopEvent Payload → Bool
  is_among [] row = false
  is_among (e ∷ es) row = str_eq row.event_id e.event_id || is_among es row

  -- The rows after these were processed.
  unfoldable pub mark_all :
      ℤ
      → List (ResearchLoopEvent Payload × HandlerResult)
      → List (ResearchLoopEvent Payload)
      → List (ResearchLoopEvent Payload)
  unfolding mark_completed
  mark_all at [] rows = rows
  mark_all at (done ∷ rest) rows =
      mark_all at rest (mark_completed Payload done.0.event_id at done.1.artefact rows)

  keep_pending-mark_completed :
      (e : ResearchLoopEvent Payload) (at : ℤ) (artefact : String)
      (rows : List (ResearchLoopEvent Payload))
      → keep (is_pending Payload) (mark_completed Payload e.event_id at artefact rows)
        ≡ keep (λ row. not (str_eq row.event_id e.event_id)) (keep (is_pending Payload) rows)
  unfolding mark_completed
  keep_pending-mark_completed e at artefact [] = refl
  keep_pending-mark_completed e at artefact (row ∷ rows) =
      let rest = keep_pending-mark_completed e at artefact rows in
      elim (Bool-cases (str_eq row.event_id e.event_id)) [
        | inl same ↦ elim (Bool-cases (is_pending Payload row)) [
          | inl open_row ↦ rw (same, if◌then◌else◌, open_row, same, rest)
          | inr closed ↦ rw (same, if◌then◌else◌, closed, rest)
        ]
        | inr other ↦ elim (Bool-cases (is_pending Payload row)) [
          | inl open_row ↦ rw (other, if◌then◌else◌, open_row, other, rest)
          | inr closed ↦ rw (other, if◌then◌else◌, closed, rest)
        ]
      ]

  keep-keep_among :
      (e : ResearchLoopEvent Payload) (es rows : List (ResearchLoopEvent Payload))
      → keep
          (λ row. not (is_among es row))
          (keep (λ row. not (str_eq row.event_id e.event_id)) rows)
        ≡ keep (λ row. not (is_among (e ∷ es) row)) rows
  keep-keep_among e es [] = refl
  keep-keep_among e es (row ∷ rows) =
      let rest = keep-keep_among e es rows in
      elim (Bool-cases (str_eq row.event_id e.event_id)) [
        | inl same ↦ rw (same, if◌then◌else◌, rest)
        | inr other ↦ elim (Bool-cases (is_among es row)) [
          | inl found ↦ rw (other, if◌then◌else◌, found, rest)
          | inr missing ↦ rw (other, if◌then◌else◌, missing, rest)
        ]
      ]

  pub keep_pending-mark_all :
      (at : ℤ) (done : List (ResearchLoopEvent Payload × HandlerResult))
      (rows : List (ResearchLoopEvent Payload))
      → keep (is_pending Payload) (mark_all at done rows)
        ≡ keep (λ row. not (is_among (map (λ x. x.0) done) row)) (keep (is_pending Payload) rows)
  unfolding mark_all
  keep_pending-mark_all at [] rows = sym (keep-true (keep (is_pending Payload) rows))
  keep_pending-mark_all at (x ∷ xs) rows =
      keep_pending-mark_all at xs (mark_completed Payload x.0.event_id at x.1.artefact rows)
      ∙ ap (keep (λ row. not (is_among (map (λ x. x.0) xs) row)))
          (keep_pending-mark_completed x.0 at x.1.artefact rows)
      ∙ keep-keep_among x.0 (map (λ x. x.0) xs) (keep (is_pending Payload) rows)

  -- Of events with different identifiers, those not among the kept ones are those not kept.
  module _ (p : ResearchLoopEvent Payload → Bool) where
    is_among-keep :
        (x : ResearchLoopEvent Payload) (xs : List (ResearchLoopEvent Payload))
        → is_among xs x ≡ false
        → is_among (keep p xs) x ≡ false
    is_among-keep x [] h = refl
    is_among-keep x (y ∷ ys) h = ground (arith, is_among-keep x ys)

    is_among_keyed :
        (x : ResearchLoopEvent Payload) (xs : List (ResearchLoopEvent Payload))
        → All (λ y. str_eq y.event_id x.event_id ≡ false) xs
        → is_among xs x ≡ false
    is_among_keyed x [] h = refl
    is_among_keyed x (y ∷ ys) h = ground (
      arith,
      h.0,
      eq_iff x.event_id y.event_id,
      eq_iff y.event_id x.event_id,
      is_among_keyed x ys h.1,
    )

    is_among_kept_after :
        (x : ResearchLoopEvent Payload) (xs ys : List (ResearchLoopEvent Payload))
        → All (λ y. str_eq y.event_id x.event_id ≡ false) ys
        → All (λ y. is_among (keep p xs) y ≡ p y) ys
        → All (λ y. is_among (keep p (x ∷ xs)) y ≡ p y) ys
    is_among_kept_after x xs [] h k = tt
    is_among_kept_after x xs (y ∷ ys) h k =
        (ground (arith, h.0, k.0), is_among_kept_after x xs ys h.1 k.1)

    is_among_kept :
        (xs : List (ResearchLoopEvent Payload))
        → IsKeyed Payload xs
        → All (λ y. is_among (keep p xs) y ≡ p y) xs
    is_among_kept [] h = tt
    is_among_kept (x ∷ xs) h = (
      ground (arith, eq_iff x.event_id x.event_id, is_among-keep x xs (is_among_keyed x xs h.0)),
      is_among_kept_after x xs xs h.0 (is_among_kept xs h.1),
    )

    keep_same :
        (q : ResearchLoopEvent Payload → Bool) (xs : List (ResearchLoopEvent Payload))
        → All (λ y. q y ≡ p y) xs
        → keep (λ y. not (q y)) xs ≡ keep (λ y. not (p y)) xs
    keep_same q [] h = refl
    keep_same q (x ∷ xs) h = rw (h.0, keep_same q xs h.1)

    pub keep-is_among :
        (xs : List (ResearchLoopEvent Payload))
        → IsKeyed Payload xs
        → keep (λ y. not (is_among (keep p xs) y)) xs ≡ keep (λ y. not (p y)) xs
    keep-is_among xs h = keep_same (is_among (keep p xs)) xs (is_among_kept xs h)

  module _ {Raised : Type 0} where
    -- Events that were built are the rows, and what is kept of them can be built.
    pub build_events_same :
        (rows : List (ResearchLoopEvent Payload)) {out : List (ResearchLoopEvent Payload)}
        → build_events Payload {Raised = Raised} rows ≡ ok out
        → (out ≡ rows) × All (λ row. is_valid Payload row ≡ true) rows
    unfolding build_events
    build_events_same [] built = (sym (ok-injective built), tt)
    build_events_same (row ∷ rows) {out} built = elim (Bool-cases (is_valid Payload row)) [
      | inl valid ↦
          let (rest, e, last) = >>=-eq-ok (build_events Payload rows) _ (rw valid at built) in
          let same = build_events_same rows e in
          (sym (ok-injective last) ∙ ap (λ r. row ∷ r) same.0, (valid, same.1))
      | inr refused ↦ absurd (cc (rw refused at built))
    ]

    pub build_events_valid :
        (rows : List (ResearchLoopEvent Payload))
        → All (λ row. is_valid Payload row ≡ true) rows
        → build_events Payload {Raised = Raised} rows ≡ ok rows
    unfolding build_events
    build_events_valid [] h = refl
    build_events_valid (row ∷ rows) h = rw (h.0, build_events_valid rows h.1)

  module _ (text_leb : String → String → Bool) where
    is_among-insert_event :
        (x : ResearchLoopEvent Payload) (xs : List (ResearchLoopEvent Payload))
        (e : ResearchLoopEvent Payload)
        → is_among (insert_event Payload text_leb x xs) e ≡ is_among (x ∷ xs) e
    unfolding insert_event
    is_among-insert_event x [] e = refl
    is_among-insert_event x (y ∷ ys) e = elim (Bool-cases (is_before Payload text_leb x y)) [
      | inl first ↦ rw (first, if◌then◌else◌)
      | inr later ↦ rw (later, if◌then◌else◌) (ground (arith, is_among-insert_event x ys e))
    ]

    pub is_among-order_events :
        (xs : List (ResearchLoopEvent Payload)) (e : ResearchLoopEvent Payload)
        → is_among (order_events Payload text_leb xs) e ≡ is_among xs e
    unfolding order_events
    is_among-order_events [] e = refl
    is_among-order_events (x ∷ xs) e =
        is_among-insert_event x (order_events Payload text_leb xs) e
        ∙ ap (λ b. str_eq e.event_id x.event_id || b) (is_among-order_events xs e)
