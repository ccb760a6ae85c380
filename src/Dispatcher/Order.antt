-- ===== src/Dispatcher/Order.antt =====
-- The order of the events of the dispatcher, and what sorting by it keeps.
use text.Mathlib.Text.{◌==◌ as str_eq}
use text.Mathlib.TextEquality.{eq_iff}
use multi_desk_trading.Common.{
  String, Bool, true, false, ◌≡◌, refl, ◌⊎◌, inl, inr, List, [], ◌∷◌, arith, All, All-imp, keep,
  All-keep_sub, Bool-cases, if◌then◌else◌,
}
use multi_desk_trading.Dispatcher.{ResearchLoopEvent, is_before, insert_event, order_events}

-- The order of texts in the database is total.
pub record TextOrder (text_leb : String → String → Bool) : Type 0 where
  pub total : (a b : String) → (text_leb a b ≡ true) ⊎ (text_leb b a ≡ true)
  pub trans : (a b c : String) → text_leb a b ≡ true → text_leb b c ≡ true → text_leb a c ≡ true

module _ (Payload : Type 0) where
  -- No two events have the same identifier.
  abbrev pub IsKeyed : List (ResearchLoopEvent Payload) → Type 0
  IsKeyed [] = Unit
  IsKeyed (x ∷ xs) = All (λ y. str_eq y.event_id x.event_id ≡ false) xs × IsKeyed xs

  pub keep-IsKeyed :
      (p : ResearchLoopEvent Payload → Bool) (xs : List (ResearchLoopEvent Payload))
      → IsKeyed xs
      → IsKeyed (keep p xs)
  keep-IsKeyed p [] h = tt
  keep-IsKeyed p (x ∷ xs) h = elim (Bool-cases (p x)) [
    | inl kept ↦ rw (kept, if◌then◌else◌) (All-keep_sub _ p xs h.0, keep-IsKeyed p xs h.1)
    | inr gone ↦ rw (gone, if◌then◌else◌) (keep-IsKeyed p xs h.1)
  ]

module _ (Payload : Type 0) (text_leb : String → String → Bool) where
  All-insert_event :
      (P : ResearchLoopEvent Payload → Type 0) (x : ResearchLoopEvent Payload)
      (xs : List (ResearchLoopEvent Payload))
      → P x
      → All P xs
      → All P (insert_event Payload text_leb x xs)
  unfolding insert_event
  All-insert_event P x [] p h = (p, tt)
  All-insert_event P x (y ∷ ys) p h = elim (Bool-cases (is_before Payload text_leb x y)) [
    | inl first ↦ rw (first, if◌then◌else◌) (p, h)
    | inr later ↦ rw (later, if◌then◌else◌) (h.0, All-insert_event P x ys p h.1)
  ]

  pub All-order_events :
      (P : ResearchLoopEvent Payload → Type 0) (xs : List (ResearchLoopEvent Payload))
      → All P xs
      → All P (order_events Payload text_leb xs)
  unfolding order_events
  All-order_events P [] h = tt
  All-order_events P (x ∷ xs) h =
      All-insert_event P x (order_events Payload text_leb xs) h.0 (All-order_events P xs h.1)

  -- Each event is before all that follow.
  abbrev pub IsOrdered : List (ResearchLoopEvent Payload) → Type 0
  IsOrdered [] = Unit
  IsOrdered (x ∷ xs) = All (λ y. is_before Payload text_leb x y ≡ true) xs × IsOrdered xs

  insert_event-IsKeyed :
      (x : ResearchLoopEvent Payload) (xs : List (ResearchLoopEvent Payload))
      → IsKeyed Payload (x ∷ xs)
      → IsKeyed Payload (insert_event Payload text_leb x xs)
  unfolding insert_event
  insert_event-IsKeyed x [] h = h
  insert_event-IsKeyed x (y ∷ ys) h = elim (Bool-cases (is_before Payload text_leb x y)) [
    | inl first ↦ rw (first, if◌then◌else◌) h
    | inr later ↦
        rw (later, if◌then◌else◌)
          (
            All-insert_event _ x ys
                (ground (arith, eq_iff x.event_id y.event_id, eq_iff y.event_id x.event_id, h.0.0))
                h.1.0,
            insert_event-IsKeyed x ys (h.0.1, h.1.1),
          )
  ]

  pub order_events-IsKeyed :
      (xs : List (ResearchLoopEvent Payload))
      → IsKeyed Payload xs
      → IsKeyed Payload (order_events Payload text_leb xs)
  unfolding order_events
  order_events-IsKeyed [] h = tt
  order_events-IsKeyed (x ∷ xs) h =
      insert_event-IsKeyed x (order_events Payload text_leb xs)
        (All-order_events _ xs h.0, order_events-IsKeyed xs h.1)

  module _ (T : TextOrder text_leb) where
    is_before_trans :
        (a b c : ResearchLoopEvent Payload)
        → is_before Payload text_leb a b ≡ true
        → is_before Payload text_leb b c ≡ true
        → is_before Payload text_leb a c ≡ true
    is_before_trans a b c h k = ground (arith, T.trans a.event_id b.event_id c.event_id)

    is_before_total :
        (a b : ResearchLoopEvent Payload)
        → is_before Payload text_leb a b ≡ false
        → is_before Payload text_leb b a ≡ true
    is_before_total a b h = ground (arith, T.total a.event_id b.event_id)

    insert_event-IsOrdered :
        (x : ResearchLoopEvent Payload) (xs : List (ResearchLoopEvent Payload))
        → IsOrdered xs
        → IsOrdered (insert_event Payload text_leb x xs)
    unfolding insert_event
    insert_event-IsOrdered x [] h = (tt, tt)
    insert_event-IsOrdered x (y ∷ ys) h = elim (Bool-cases (is_before Payload text_leb x y)) [
      | inl first ↦
          rw (first, if◌then◌else◌)
            ((first, All-imp _ _ (λ z later. is_before_trans x y z first later) ys h.0), h)
      | inr later ↦
          rw (later, if◌then◌else◌)
            (
              All-insert_event _ x ys (is_before_total x y later) h.0,
              insert_event-IsOrdered x ys h.1,
            )
    ]

    pub order_events-IsOrdered :
        (xs : List (ResearchLoopEvent Payload)) → IsOrdered (order_events Payload text_leb xs)
    unfolding order_events
    order_events-IsOrdered [] = tt
    order_events-IsOrdered (x ∷ xs) =
        insert_event-IsOrdered x (order_events Payload text_leb xs) (order_events-IsOrdered xs)

    module _ (p : ResearchLoopEvent Payload → Bool) where
      insert_event_first :
          (x : ResearchLoopEvent Payload) (xs : List (ResearchLoopEvent Payload))
          → All (λ y. is_before Payload text_leb x y ≡ true) xs
          → insert_event Payload text_leb x xs ≡ x ∷ xs
      unfolding insert_event
      insert_event_first x [] h = refl
      insert_event_first x (y ∷ ys) h = rw (h.0, if◌then◌else◌)

      keep-insert_event :
          (x : ResearchLoopEvent Payload) (xs : List (ResearchLoopEvent Payload))
          → IsOrdered xs
          → keep p (insert_event Payload text_leb x xs)
            ≡ (if p x then insert_event Payload text_leb x (keep p xs) else keep p xs)
      unfolding insert_event
      keep-insert_event x [] h = elim (Bool-cases (p x)) [
        | inl kept ↦ rw (kept, if◌then◌else◌)
        | inr gone ↦ rw (gone, if◌then◌else◌)
      ]
      keep-insert_event x (y ∷ ys) h = elim (Bool-cases (is_before Payload text_leb x y)) [
        | inl first ↦
            let least = insert_event_first x (keep p (y ∷ ys)) (
              All-keep_sub _ p (y ∷ ys)
                (first, All-imp _ _ (λ z later. is_before_trans x y z first later) ys h.0)) in
            elim (Bool-cases (p x)) [
              | inl kept ↦ rw (first, if◌then◌else◌, kept, least)
              | inr gone ↦ rw (first, if◌then◌else◌, gone)
            ]
        | inr later ↦
            let rest = keep-insert_event x ys h.1 in
            elim (Bool-cases (p x)) [
              | inl kept ↦ elim (Bool-cases (p y)) [
                | inl own ↦ rw (later, if◌then◌else◌, own, rest, kept, later)
                | inr other ↦ rw (later, if◌then◌else◌, other, rest, kept)
              ]
              | inr gone ↦ elim (Bool-cases (p y)) [
                | inl own ↦ rw (later, if◌then◌else◌, own, rest, gone)
                | inr other ↦ rw (later, if◌then◌else◌, other, rest, gone)
              ]
            ]
      ]

      -- Sorting what a test keeps is keeping of what is sorted.
      pub keep-order_events :
          (xs : List (ResearchLoopEvent Payload))
          → keep p (order_events Payload text_leb xs) ≡ order_events Payload text_leb (keep p xs)
      unfolding order_events
      keep-order_events [] = refl
      keep-order_events (x ∷ xs) = elim (Bool-cases (p x)) [
        | inl kept ↦ rw (
          keep-insert_event x (order_events Payload text_leb xs) (order_events-IsOrdered xs),
          kept,
          if◌then◌else◌,
          keep-order_events xs,
        )
        | inr gone ↦ rw (
          keep-insert_event x (order_events Payload text_leb xs) (order_events-IsOrdered xs),
          gone,
          if◌then◌else◌,
          keep-order_events xs,
        )
      ]
