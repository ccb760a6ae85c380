-- ===== src/Feeds/Latency/Separate.antt =====
-- The detectors of the feeds do not disturb one another.
use text.Mathlib.Text.{◌==◌ as str_eq}
use text.Mathlib.TextEquality.{eq_iff}
use multi_desk_trading.Common.{
  String, ◌≡◌, refl, inl, inr, Bool, true, false, some, List, [], ◌∷◌, ok, ◌>>=◌, arith, All,
  if◌then◌else◌, subst, ◌∙◌, Bool-cases,
}
use multi_desk_trading.Common.Float.{FloatOps}
use multi_desk_trading.Common.Time.{Datetime, is_naive}
use multi_desk_trading.Feeds.Detector.{
  PageHinkleyState, initial_state, update_page_hinkley, run_observations,
}
use multi_desk_trading.Feeds.Detector.Trips.{IsObservation, update_lem}
use multi_desk_trading.Feeds.Latency.{
  LatencyTable, get_feed_latency_state, upsert_row, persist, load_or_initial, observe_latency,
  observe_all,
}
use multi_desk_trading.Feeds.Latency.Rows.{load-upsert_row}

module _ (F : FloatOps) where
  open F use {Float}

  abbrev pub IsReport : String × Float × Datetime → Type 0
  IsReport (feed, latency, now) = IsObservation F (latency, now)

  -- The observations of one feed among those of all.
  abbrev pub reports_of : String → List (String × Float × Datetime) → List (Float × Datetime)
  reports_of g [] = []
  reports_of g ((feed, latency, now) ∷ rest) =
      if str_eq feed g then (latency, now) ∷ reports_of g rest else reports_of g rest

  load_named :
      (table : LatencyTable F) (feed : String) → (load_or_initial F table feed).feed_name ≡ feed
  unfolding load_or_initial get_feed_latency_state initial_state
  load_named [] feed = refl
  load_named (row ∷ rows) feed = ground (arith, eq_iff row.feed_name feed, load_named rows feed)

  -- What one observation does: the feed's own detector moves, the others stay.
  record Observed (table : LatencyTable F) (feed : String) (latency : Float) (now : Datetime)
      (delta threshold : Float) : Type 0 where
    state : PageHinkleyState F
    alarm : Bool
    moved :
        update_page_hinkley F (load_or_initial F table feed) latency now delta threshold
        ≡ ok (state, alarm)
    stored :
        observe_latency F table feed latency now delta threshold
        ≡ ok (upsert_row F table state, state, alarm)
    named : state.feed_name ≡ feed

  persist_lem :
      (table : LatencyTable F) (state : PageHinkleyState F) (now : Datetime)
      → is_naive now ≡ false
      → state.last_update_ts_utc ≡ some now
      → persist F table state ≡ ok (upsert_row F table state)
  unfolding persist
  persist_lem table state now h e = rw (e, h)

  update-stamp :
      (s : PageHinkleyState F) (latency : Float) (now : Datetime) (delta threshold : Float)
      {t : PageHinkleyState F} {alarm : Bool}
      → update_page_hinkley F s latency now delta threshold ≡ ok (t, alarm)
      → t.last_update_ts_utc ≡ some now
  unfolding update_page_hinkley
  update-stamp s latency now delta threshold e = ground arith

  observe_latency_lem :
      (table : LatencyTable F) (feed : String) (latency : Float) (now : Datetime)
      (delta threshold : Float)
      → IsObservation F (latency, now)
      → Observed table feed latency now delta threshold
  unfolding observe_latency
  observe_latency_lem table feed latency now delta threshold h =
      let s = load_or_initial F table feed in
      let (t, alarm, moved, d, _, _) = update_lem F s latency now delta threshold h in
      record {
        state = t;
        alarm = alarm;
        moved = moved;
        stored = rw (
          moved,
          ◌>>=◌,
          persist_lem table t now h.0 (update-stamp s latency now delta threshold moved),
        );
        named = d.named ∙ load_named table feed;
      }

  abbrev IsMove :
      LatencyTable F
      → String
      → Float
      → Datetime
      → Float
      → Float
      → PageHinkleyState F
      → Bool
      → Type 0
  IsMove table f latency now delta threshold state alarm =
      update_page_hinkley F (load_or_initial F table f) latency now delta threshold
      ≡ ok (state, alarm)

  run-cons :
      (s m t : PageHinkleyState F) (latency : Float) (now : Datetime) (delta threshold : Float)
      (rest : List (Float × Datetime)) {alarm : Bool} {alarms : List Bool}
      → update_page_hinkley F s latency now delta threshold ≡ ok (m, alarm)
      → run_observations F m rest delta threshold ≡ ok (t, alarms)
      → run_observations F s ((latency, now) ∷ rest) delta threshold ≡ ok (t, alarm ∷ alarms)
  unfolding run_observations
  run-cons s m t latency now delta threshold rest moved ran = rw (moved, ◌>>=◌, ran)

  load-same :
      (table : LatencyTable F) (state : PageHinkleyState F) (feed g : String)
      → state.feed_name ≡ feed
      → str_eq feed g ≡ true
      → load_or_initial F (upsert_row F table state) g ≡ state
  load-same table state feed g named same = rw (load-upsert_row F table state g, named, same)

  load-other :
      (table : LatencyTable F) (state : PageHinkleyState F) (feed g : String)
      → state.feed_name ≡ feed
      → str_eq feed g ≡ false
      → load_or_initial F (upsert_row F table state) g ≡ load_or_initial F table g
  load-other table state feed g named other = rw (load-upsert_row F table state g, named, other)

  -- Where the observations of all feeds are accepted they are all stored, and every feed ends in the
  -- state that its own observations alone lead to, in their order, from the state that it had.
  pub observe_all_separate :
      (table : LatencyTable F) (reports : List (String × Float × Datetime))
      (delta threshold : Float)
      → All IsReport reports
      → (table' : LatencyTable F) × (observe_all F table reports delta threshold ≡ ok table')
        × ((g : String)
            → (alarms : List Bool) × (run_observations F
                  (load_or_initial F table g)
                  (reports_of g reports)
                  delta
                  threshold
                ≡ ok (load_or_initial F table' g, alarms)))
  unfolding observe_all run_observations
  observe_all_separate table [] delta threshold h = (table, refl, λ g. ([], refl))
  observe_all_separate table ((feed, latency, now) ∷ rest) delta threshold h =
      let o = observe_latency_lem table feed latency now delta threshold h.0 in
      let (table', ran, each) =
        observe_all_separate (upsert_row F table o.state) rest delta threshold h.1 in
      (
        table',
        rw (o.stored, ◌>>=◌) ran,
        λ g.
            let (alarms, own) = each g in
            elim (Bool-cases (str_eq feed g)) [
              | inl same ↦ (
                o.alarm ∷ alarms,
                rw same (
                    run-cons (load_or_initial F table g) o.state (load_or_initial F table' g)
                      latency now delta threshold (reports_of g rest)
                      (subst (λ f. IsMove table f latency now delta threshold o.state o.alarm)
                        ((eq_iff feed g).0 same) o.moved)
                      (rw (load-same table o.state feed g o.named same) at own)),
              )
              | inr other ↦
                  (alarms, rw other (rw (load-other table o.state feed g o.named other) at own))
            ],
      )
