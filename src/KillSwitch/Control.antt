-- ===== src/KillSwitch/Control.antt =====
-- The operator's commands, v2/runtime/killctl.py, on the two files of the runtime's root. The identifier
-- of a new incident, the times and whether the evidence exists are arguments.
pub mod Commands
use text.Mathlib.Text.{◌==◌ as str_eq, is_eq, is_lt}
use Prim.Native.String.{compare}
use Prim.Native.Char.{code}
use multi_desk_trading.Common.{
  String, ℕ, Bool, true, false, ◌&&◌, ◌||◌, not, ◌==◌, Option, none, some, List, [], ◌∷◌, ◌++◌,
  Result, ok, err, ◌>>=◌, ◌>>◌, raise_if, if◌then◌else◌,
}
use multi_desk_trading.Common.Dict.{find_entry, set_entry}
use multi_desk_trading.Common.Time.{Datetime, aware, micros}
use multi_desk_trading.KillSwitch.Reader.{
  TextOps, KillError, not_a_mapping, reason_required, evidence_missing, incident_not_found,
  already_closed, desks_isolated, target_required, bad_target, enabled, frozen, halted, RawFamily,
  RawState, SwitchFile, absent, other_document, mapping, text_of, desks_of, or_text,
}

-- A line of `incidents.jsonl`
pub record Incident : Type 0 where
  pub incident_id : String
  pub opened_at : String
  pub closed_at : Option String
  pub command : String
  pub scope : String
  pub family : Option String
  pub desk : Option String
  pub severity : String
  pub status : String
  pub reason : String
  pub evidence_refs : List String
  pub closure_evidence_refs : List String
  pub post_incident_review_required : Bool

-- The files `kill_switch.yaml` and `incidents.jsonl`
pub record RuntimeRoot : Type 0 where
  pub switch : SwitchFile
  pub incidents : List Incident

-- A path, and whether it exists.
pub record Evidence : Type 0 where
  pub path : String
  pub exists : Bool

-- `sorted(set)`, with one more element.
unfoldable pub add_sorted : String → List String → List String
add_sorted x [] = x ∷ []
add_sorted x (y ∷ ys) =
    if str_eq x y then y ∷ ys else (if is_lt (compare x y) then x ∷ y ∷ ys else y ∷ add_sorted x ys)

-- `sorted(set(xs))`
unfoldable pub sorted_set : List String → List String
unfolding add_sorted
sorted_set [] = []
sorted_set (x ∷ xs) = add_sorted x (sorted_set xs)

-- `isolated.discard(desk)`
unfoldable pub discard : String → List String → List String
discard x [] = []
discard x (y ∷ ys) = if str_eq y x then discard x ys else y ∷ discard x ys

abbrev pub default_raw : RawFamily
default_raw = record {
  state = some enabled;
  isolated_desks = some [];
  reason = some "";
  triggered_by = none;
  triggered_at = none;
  expires_at = none;
  incident_ref = none;
}

-- `d.setdefault(key, default)` on an entry.
abbrev pub or_default {ℓ} : {A : Type ℓ} → Option A → A → Option A
or_default none a = some a
or_default (some b) a = some b

unfoldable pub load_state : SwitchFile → Result KillError RawState
load_state absent = ok (record {
  system_state = some enabled;
  reason = some "";
  system_reason = none;
  families = [];
  triggered_at = none;
  incident_ref = none;
})
load_state other_document = err not_a_mapping
load_state (mapping raw) = ok (record raw {
  system_state = or_default raw.system_state enabled;
  reason = or_default raw.reason "";
})

-- The entry that `_ensure_family` puts in place and returns.
unfoldable pub ensure_family : RawState → String → RawFamily
ensure_family state family = elim (find_entry family state.families) [
  | none ↦ default_raw
  | some raw ↦ record raw {
    state = or_default raw.state enabled;
    isolated_desks = or_default raw.isolated_desks [];
    reason = or_default raw.reason "";
  }
]

-- The state with a family's entry written.
abbrev pub with_raw : RawState → String → RawFamily → RawState
with_raw state family raw = record state { families = set_entry family raw state.families }

-- `_now`
abbrev pub to_utc : Datetime → Datetime
to_utc now = aware (micros now)

unfoldable pub latest_incident : List Incident → String → Option Incident
latest_incident [] key = none
latest_incident (line ∷ lines) key =
    let rest = latest_incident lines key in
    elim rest [
      | some incident ↦ some incident
      | none ↦ if str_eq line.incident_id key then some line else none
    ]

-- `target.split("/", 1)`, where there is a slash.
unfoldable pub split_slash : String → Option (String × String)
split_slash String.[] = none
split_slash (String.◌∷◌ c s) =
    let rest = split_slash s in
    if code c == 47
    then some ("", s)
    else elim rest [ none ↦ none | some (family, desk) ↦ some (String.◌∷◌ c family, desk) ]

-- `_parse_target`: the family, and the desk where one is named.
unfoldable pub parse_target : String → Result KillError (String × Option String)
unfolding split_slash
parse_target target =
    if str_eq target "system" then ok ("system", none) else elim (split_slash target) [
      | some (family, desk) ↦
          if str_eq family "" || str_eq desk "" then err bad_target else ok (family, some desk)
      | none ↦ if str_eq target "" then err target_required else ok (target, none)
    ]
