-- ===== src/KillSwitch/Control/Commands.antt =====
-- The four commands: isolate, freeze, halt and clear. Each returns the files it leaves and the
-- identifier of its incident.
use text.Mathlib.Text.{◌==◌ as str_eq}
use multi_desk_trading.Common.{
  String, Bool, true, false, ◌&&◌, ◌||◌, not, Option, none, some, List, [], ◌∷◌, ◌++◌, Result, ok,
  err, ◌>>=◌, ◌>>◌, raise_if, if◌then◌else◌,
}
use multi_desk_trading.Common.Time.{Datetime}
use multi_desk_trading.KillSwitch.Reader.{
  TextOps, KillError, reason_required, evidence_missing, incident_not_found, already_closed,
  desks_isolated, enabled, frozen, halted, RawFamily, RawState, mapping, text_of, desks_of, or_text,
}
use multi_desk_trading.KillSwitch.Control.{
  Incident, RuntimeRoot, Evidence, sorted_set, add_sorted, discard, load_state, ensure_family,
  with_raw, to_utc, latest_incident, parse_target,
}

-- The files after a command that appended a line.
abbrev pub write_result : RuntimeRoot → Incident → RawState → RuntimeRoot
write_result root incident state = record {
  switch = mapping state;
  incidents = root.incidents ++ incident ∷ [];
}

-- The three branches of `clear_target`.
unfoldable pub clear_system : RawState → RawState
clear_system state = record state {
  system_state = some enabled;
  reason = some "";
  triggered_at = none;
  incident_ref = none;
}

abbrev pub is_empty : List String → Bool
is_empty [] = true
is_empty (x ∷ xs) = false

unfoldable pub clear_desk : RawState → String → String → RawState
unfolding ensure_family sorted_set discard
clear_desk state family desk =
    let raw = ensure_family state family in
    let isolated = discard desk (sorted_set (desks_of raw.isolated_desks)) in
    let raw' : RawFamily = record raw { isolated_desks = some isolated } in
    with_raw state family (
      if is_empty isolated && str_eq (text_of raw.state) enabled
      then record raw' { reason = some ""; incident_ref = none }
      else raw')

unfoldable pub clear_family : RawState → String → Result KillError RawState
unfolding ensure_family
clear_family state family = do
  let raw = ensure_family state family
  raise_if (not (is_empty (desks_of raw.isolated_desks))) desks_isolated
  ok (
      with_raw state family (record raw {
        state = some enabled;
        reason = some "";
        triggered_at = none;
        incident_ref = none;
      }))

unfoldable pub clear_state : RawState → String → Option String → Result KillError RawState
unfolding clear_system clear_desk clear_family
clear_state state family desk =
    if str_eq family "system"
    then ok (clear_system state)
    else elim desk [ some d ↦ ok (clear_desk state family d) | none ↦ clear_family state family ]

module _ (T : TextOps) where
  -- `_open_incident`: the line that is appended.
  abbrev pub open_incident :
      String
      → String
      → String
      → Option String
      → Option String
      → String
      → String
      → String
      → Datetime
      → Incident
  open_incident key command scope family desk severity reason evidence_ref now = record {
    incident_id = key;
    opened_at = T.utc_iso (to_utc now);
    closed_at = none;
    command = command;
    scope = scope;
    family = family;
    desk = desk;
    severity = severity;
    status = "open";
    reason = reason;
    evidence_refs = evidence_ref ∷ [];
    closure_evidence_refs = [];
    post_incident_review_required = str_eq severity "sev1" || str_eq severity "sev2";
  }

  -- `_require_reason`, `_evidence_ref` and `_load_state`, with which three commands begin.
  unfoldable pub begin_command : RuntimeRoot → String → Evidence → Result KillError RawState
  unfolding load_state
  begin_command root reason evidence = do
    raise_if (str_eq (T.strip reason) "") reason_required
    raise_if (not evidence.exists) evidence_missing
    load_state root.switch

  unfoldable pub isolate_desk :
      RuntimeRoot
      → String
      → String
      → String
      → Evidence
      → String
      → Datetime
      → String
      → Result KillError RuntimeRoot
  unfolding begin_command ensure_family sorted_set add_sorted
  isolate_desk root family desk reason evidence severity now key = do
    state ← begin_command root reason evidence
    let incident =
        open_incident key "isolate" "desk" (some family) (some desk) severity reason evidence.path
          now
    let raw = ensure_family state family
    let raw' : RawFamily = record raw {
      state = some (or_text (text_of raw.state) enabled);
      isolated_desks = some (add_sorted desk (sorted_set (desks_of raw.isolated_desks)));
      reason = some reason;
      triggered_at = some (T.utc_iso (to_utc now));
      incident_ref = some key;
    }
    ok (write_result root incident (with_raw state family raw'))

  unfoldable pub freeze_family :
      RuntimeRoot
      → String
      → String
      → Evidence
      → String
      → Datetime
      → String
      → Result KillError RuntimeRoot
  unfolding begin_command ensure_family
  freeze_family root family reason evidence severity now key = do
    state ← begin_command root reason evidence
    let incident =
        open_incident key "freeze" "family" (some family) none severity reason evidence.path now
    let raw' : RawFamily = record (ensure_family state family) {
      state = some frozen;
      reason = some reason;
      triggered_at = some (T.utc_iso (to_utc now));
      incident_ref = some key;
    }
    ok (write_result root incident (with_raw state family raw'))

  unfoldable pub halt_system :
      RuntimeRoot → String → Evidence → String → Datetime → String → Result KillError RuntimeRoot
  unfolding begin_command
  halt_system root reason evidence severity now key = do
    state ← begin_command root reason evidence
    let incident = open_incident key "halt" "system" none none severity reason evidence.path now
    ok (
        write_result root incident (record state {
          system_state = some halted;
          reason = some reason;
          triggered_at = some (T.utc_iso (to_utc now));
          incident_ref = some key;
        }))

  abbrev pub close_incident : Incident → Evidence → Datetime → Incident
  close_incident incident evidence now = record incident {
    status = "closed";
    closed_at = some (T.utc_iso (to_utc now));
    closure_evidence_refs = evidence.path ∷ [];
  }

  -- The rest of `clear_target`, on the incident that was found.
  unfoldable pub clear_incident :
      RuntimeRoot
      → RawState
      → String
      → Evidence
      → Datetime
      → Option Incident
      → Result KillError RuntimeRoot
  unfolding parse_target clear_state
  clear_incident root state target evidence now none = err incident_not_found
  clear_incident root state target evidence now (some incident) = do
    raise_if (str_eq incident.status "closed") already_closed
    (family, desk) ← parse_target target
    state' ← clear_state state family desk
    ok (write_result root (close_incident incident evidence now) state')

  unfoldable pub clear_target :
      RuntimeRoot → String → String → Evidence → Datetime → Result KillError RuntimeRoot
  unfolding load_state latest_incident clear_incident
  clear_target root target key evidence now = do
    raise_if (not evidence.exists) evidence_missing
    state ← load_state root.switch
    clear_incident root state target evidence now (latest_incident root.incidents key)
