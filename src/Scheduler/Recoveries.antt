-- ===== src/Scheduler/Recoveries.antt =====
-- What a check of recoveries leaves of the incidents and of the detectors.
use text.Mathlib.Text.{◌==◌ as str_eq}
use text.Mathlib.TextEquality.{eq_iff}
use multi_desk_trading.Common.{
  String, Bool, true, false, not, ◌&&◌, ◌||◌, ◌≡◌, refl, ap, ◌∙◌, inl, inr, none, List, [], ◌∷◌,
  map, arith, keep, Bool-cases, if◌then◌else◌, ok, ◌>>=◌,
}
use multi_desk_trading.Common.Int.{ℤ}
use multi_desk_trading.Common.Time.{Datetime, aware}
use multi_desk_trading.Common.Float.{FloatOps}
use multi_desk_trading.Feeds.Detector.{initial_state}
use multi_desk_trading.Feeds.Latency.{
  LatencyTable, load_or_initial, reset_for_feed, persist, upsert_row,
}
use multi_desk_trading.Feeds.Latency.Rows.{load-upsert_row}
use multi_desk_trading.Feeds.Incidents.{
  FeedIncident, is_open, close_rows, close_feed_incident, get_open_feed_incidents,
}
use multi_desk_trading.Scheduler.{ScheduledEvent, Croniter}
use multi_desk_trading.Scheduler.Checks.{
  DataSource, is_recovered, recover_each, check_incident_recoveries,
}

-- A row with the identifier is open.
abbrev pub has_open : String → List FeedIncident → Bool
has_open key [] = false
has_open key (row ∷ rows) = (str_eq row.feed_incident_id key && is_open row) || has_open key rows

has_open-close_rows :
    (key other : String) (at : Datetime) (artefact : String) (table : List FeedIncident)
    → has_open other (close_rows key at artefact table)
      ≡ (has_open other table && not (str_eq key other))
unfolding close_rows
has_open-close_rows key other at artefact [] = refl
has_open-close_rows key other at artefact (row ∷ rows) = ground (
  arith,
  has_open-close_rows key other at artefact rows,
  eq_iff row.feed_incident_id key,
  eq_iff row.feed_incident_id other,
  eq_iff key other,
)

module _ (sources : List (String × DataSource)) (prints : List (String × List ℤ)) (next : Croniter)
    (events : List ScheduledEvent) (F : FloatOps) (now : ℤ) (artefact_of : String → String) where
  abbrev recovered : FeedIncident → Bool
  recovered incident = is_recovered sources prints next events now incident

  -- Whether an incident with the identifier is recovered, and whether one of the feed is.
  abbrev pub is_closing : String → List FeedIncident → Bool
  is_closing key [] = false
  is_closing key (incident ∷ rest) =
      (is_recovered sources prints next events now incident && str_eq incident.feed_incident_id key)
      || is_closing key rest

  abbrev pub is_resetting : String → List FeedIncident → Bool
  is_resetting feed [] = false
  is_resetting feed (incident ∷ rest) =
      (is_recovered sources prints next events now incident && str_eq incident.feed_name feed)
      || is_resetting feed rest

  -- What the check leaves: the tables, and the feeds that it names.
  pub record IsEffect (incidents table : List FeedIncident) (latencies : LatencyTable F)
      (table' : List FeedIncident) (latencies' : LatencyTable F) (closed : List String)
      : Type 0 where
    pub named : closed ≡ map (λ x. x.feed_name) (keep recovered incidents)
    pub opens :
        (key : String)
        → has_open key table' ≡ (has_open key table && not (is_closing key incidents))
    pub resets :
        (feed : String)
        → load_or_initial F latencies' feed ≡ (
            if is_resetting feed incidents
            then initial_state F feed
            else load_or_initial F latencies feed)

  -- A round on an incident that is recovered.
  recover_each_well :
      (incident : FeedIncident) (rest table : List FeedIncident) (latencies : LatencyTable F)
      → recovered incident ≡ true
      → recover_each sources prints next events F
          (aware now)
          artefact_of
          (incident ∷ rest)
          table
          latencies
        ≡ (recover_each sources prints next events F
              (aware now)
              artefact_of
              rest
              (close_rows incident.feed_incident_id
                (aware now)
                (artefact_of incident.feed_name)
                table)
              (upsert_row F latencies (initial_state F incident.feed_name))
            >>= (λ x. ok (x.0, x.1, incident.feed_name ∷ x.2)))
  unfolding recover_each close_feed_incident reset_for_feed persist initial_state
  recover_each_well incident rest table latencies well = rw (recover_each, well)

  resets_first :
      (latencies : LatencyTable F) (name feed : String) (later : Bool)
      → (if later
          then initial_state F feed
          else load_or_initial F (upsert_row F latencies (initial_state F name)) feed)
        ≡ (if str_eq name feed || later
            then initial_state F feed
            else load_or_initial F latencies feed)
  unfolding initial_state
  resets_first latencies name feed later =
      rw (load-upsert_row F latencies (initial_state F name) feed) (cases later)
    where
      cases :
          (later : Bool)
          → (if later
              then initial_state F feed
              else (if str_eq name feed
                  then initial_state F name
                  else load_or_initial F latencies feed))
            ≡ (if str_eq name feed || later
                then initial_state F feed
                else load_or_initial F latencies feed)
      cases later = elim (Bool-cases (str_eq name feed)) [
        | inl same ↦ rw (same, if◌then◌else◌, (eq_iff name feed).0 same) (alike later)
        | inr other ↦ rw (other, if◌then◌else◌)
      ]
        where
          alike :
              (later : Bool)
              → (if later then initial_state F feed else initial_state F feed)
                ≡ initial_state F feed
          alike true = refl
          alike false = refl

  recover_each-IsEffect :
      (incidents table : List FeedIncident) (latencies : LatencyTable F)
      → (table' : List FeedIncident) × (latencies' : LatencyTable F) × (closed : List String)
        × (recover_each sources prints next events F
              (aware now)
              artefact_of
              incidents
              table
              latencies
            ≡ ok (table', latencies', closed))
        × IsEffect incidents table latencies table' latencies' closed
  unfolding recover_each
  recover_each-IsEffect [] table latencies = (
    table,
    latencies,
    [],
    refl,
    record { named = refl; opens = λ key. ground arith; resets = λ feed. refl },
  )
  recover_each-IsEffect (incident ∷ rest) table latencies = elim (Bool-cases (recovered incident)) [
    | inr sick ↦
        let (table', latencies', closed, ran, effect) =
          recover_each-IsEffect rest table latencies in
        (
          table',
          latencies',
          closed,
          rw (recover_each, sick) ran,
          record {
            named = rw (sick, if◌then◌else◌) effect.named;
            opens = λ key. ground (arith, effect.opens key, sick);
            resets = λ feed. rw (sick) (effect.resets feed);
          },
        )
    | inl well ↦
        let table_closed =
          close_rows incident.feed_incident_id (aware now) (artefact_of incident.feed_name) table in
        let latencies_reset = upsert_row F latencies (initial_state F incident.feed_name) in
        let (table', latencies', closed, ran, effect) =
          recover_each-IsEffect rest table_closed latencies_reset in
        (
          table',
          latencies',
          incident.feed_name ∷ closed,
          rw (recover_each_well incident rest table latencies well, ran),
          record {
            named = rw (well, if◌then◌else◌) (ap (λ r. incident.feed_name ∷ r) effect.named);
            opens = λ key. ground (
              arith,
              effect.opens key,
              well,
              has_open-close_rows incident.feed_incident_id key (aware now)
                  (artefact_of incident.feed_name) table,
            );
            resets = λ feed.
                effect.resets feed
                ∙ rw well (resets_first latencies incident.feed_name feed (is_resetting feed rest));
          },
        )
  ]

  -- At an aware time the check returns. It names the feeds of the open incidents that are recovered,
  -- in their order: those with a print within the tolerance of a firing after the opening. An
  -- incident is open afterwards exactly if it was and is not one of these, and the detector of each
  -- named feed is the initial one, every other as it was.
  pub check_incident_recoveries-IsEffect :
      (table : List FeedIncident) (latencies : LatencyTable F)
      → (table' : List FeedIncident) × (latencies' : LatencyTable F) × (closed : List String)
        × (check_incident_recoveries sources prints next events F
              (aware now)
              artefact_of
              table
              latencies
            ≡ ok (table', latencies', closed))
        × IsEffect (get_open_feed_incidents table none) table latencies table' latencies' closed
  unfolding check_incident_recoveries
  check_incident_recoveries-IsEffect table latencies =
      recover_each-IsEffect (get_open_feed_incidents table none) table latencies
