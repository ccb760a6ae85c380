-- ===== src/Feeds/Incidents/Reachable.antt =====
-- The tables that calls to open and close incidents lead to.
use text.Mathlib.Text.{◌==◌ as str_eq}
use multi_desk_trading.Common.{
  suc, ◌≤◌, String, ◌≡◌, refl, sym, subst, true, false, Option, some, List, [], ◌∷◌, ok, arith,
  length,
}
use multi_desk_trading.Common.Time.{Datetime, is_naive}
use multi_desk_trading.Feeds.Incidents.{
  FeedIncident, open_feed_incident, close_rows, close_feed_incident, get_open_feed_incidents,
  insert_by_opened,
}
use multi_desk_trading.Feeds.Incidents.Open.{
  IsKeyed, open_count, opened-IsKeyed, opened_at_most, open_feed_incident-holds_open,
  open_feed_incident-open_count_ne, holds_open,
}
use multi_desk_trading.Feeds.Incidents.Close.{
  close_rows-IsKeyed, close_rows_at_most, close_rows-open_count, close_rows-open_count_ne,
}

-- A table that some calls, each of which returned, made from the empty one.
pub data Reachable : List FeedIncident → Type 0 where
  created : Reachable []
  opened :
      (table table' : List FeedIncident) (feed : String) (at : Datetime) (affected : List String)
      (detected_by : String) (event : Option String) (new_id key : String)
      → Reachable table
      → open_feed_incident table feed at affected detected_by event new_id ≡ ok (table', key)
      → Reachable table'
  closed :
      (table table' : List FeedIncident) (key : String) (at : Datetime) (artefact : String)
      → Reachable table
      → close_feed_incident table key at artefact ≡ ok table'
      → Reachable table'

length-insert_by_opened :
    (row : FeedIncident) (rows : List FeedIncident)
    → length (insert_by_opened row rows) ≡ suc (length rows)
unfolding insert_by_opened
length-insert_by_opened row [] = refl
length-insert_by_opened row (other ∷ rows) = ground (arith, length-insert_by_opened row rows)

pub length-get_open :
    (feed : String) (table : List FeedIncident)
    → length (get_open_feed_incidents table (some feed)) ≡ open_count feed table
unfolding get_open_feed_incidents
length-get_open feed [] = refl
length-get_open feed (row ∷ rows) = ground (
  arith,
  length-get_open feed rows,
  length-insert_by_opened row (get_open_feed_incidents rows (some feed)),
)

close_feed_incident-rows :
    (table table' : List FeedIncident) (key : String) (at : Datetime) (artefact : String)
    → close_feed_incident table key at artefact ≡ ok table'
    → table' ≡ close_rows key at artefact table
unfolding close_feed_incident
close_feed_incident-rows table table' key at artefact e = ground arith

pub Reachable-IsKeyed : (table : List FeedIncident) → Reachable table → IsKeyed table
Reachable-IsKeyed _ created = tt
Reachable-IsKeyed _ (opened table table' feed at affected detected_by event new_id key before e) =
    opened-IsKeyed table feed at affected detected_by event new_id table' key e
      (Reachable-IsKeyed table before)
Reachable-IsKeyed _ (closed table table' key at artefact before e) =
    subst IsKeyed (sym (close_feed_incident-rows table table' key at artefact e))
      (close_rows-IsKeyed key at artefact table (Reachable-IsKeyed table before))

Reachable-at_most :
    (table : List FeedIncident) (feed : String) → Reachable table → open_count feed table ≤ 1
Reachable-at_most _ g created = omega arith
Reachable-at_most _ g (opened table table' feed at affected detected_by event new_id key before e) =
    opened_at_most table feed at affected detected_by event new_id table' key g e
      (Reachable-at_most table g before)
Reachable-at_most _ g (closed table table' key at artefact before e) = ground (
  arith,
  close_feed_incident-rows table table' key at artefact e,
  close_rows_at_most key at artefact g table,
  Reachable-at_most table g before,
)

-- In a table that calls to open and close incidents made from the empty one, no two incidents have
-- the same identifier, and at most one incident of each feed is open.
pub Reachable-IsSound :
    (table : List FeedIncident)
    → Reachable table
    → IsKeyed table × ((feed : String) → length (get_open_feed_incidents table (some feed)) ≤ 1)
Reachable-IsSound table before = (
  Reachable-IsKeyed table before,
  λ feed. ground (arith, length-get_open feed table, Reachable-at_most table feed before),
)

module _ (table table' : List FeedIncident) (feed : String) (at : Datetime) (affected : List String)
    (detected_by : String) (event : Option String) (new_id key : String) (before : Reachable table)
    (returned : open_feed_incident table feed at affected detected_by event new_id
      ≡ ok (table', key)) where
  -- In a table that calls made from the empty one, closing the incident that a call to open one
  -- returns, at an aware time, leaves the feed without an open incident, and every other feed with as
  -- many as before the opening.
  pub close_feed_incident_opened :
      (later : Datetime) (artefact : String)
      → is_naive later ≡ false
      → (resolved : List FeedIncident) × (close_feed_incident table' key later artefact
          ≡ ok resolved)
        × (length (get_open_feed_incidents resolved (some feed)) ≡ 0)
        × ((other : String)
            → str_eq feed other ≡ false
            → length (get_open_feed_incidents resolved (some other))
              ≡ length (get_open_feed_incidents table (some other)))
  unfolding close_feed_incident
  close_feed_incident_opened later artefact h = (
    resolved,
    rw h,
    ground (
      arith,
      length-get_open feed resolved,
      close_rows-open_count feed key later artefact table' keyed held,
      Reachable-at_most table' feed reached,
    ),
    λ other ne. ground (
      arith,
      length-get_open other resolved,
      length-get_open other table,
      close_rows-open_count_ne feed key other later artefact ne table' keyed held,
      open_feed_incident-open_count_ne table feed at affected detected_by event new_id table' key
          other returned ne,
    ),
  )
    where
      resolved : List FeedIncident
      resolved = close_rows key later artefact table'

      reached : Reachable table'
      reached = opened table table' feed at affected detected_by event new_id key before returned

      keyed : IsKeyed table'
      keyed = Reachable-IsKeyed table' reached

      held : holds_open feed key table' ≡ true
      held =
          open_feed_incident-holds_open table feed at affected detected_by event new_id table' key
            returned
