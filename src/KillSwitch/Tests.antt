-- ===== src/KillSwitch/Tests.antt =====
-- An operator's session on one family, and the theorems at its steps.
use text.Mathlib.Text.{◌==◌ as str_eq}
use multi_desk_trading.Common.{◌≡◌, refl, String, true, false, ◌||◌, none, some, [], ◌∷◌, ok, err}
use multi_desk_trading.Common.Int.{pos}
use multi_desk_trading.Common.Time.{Datetime, aware}
use multi_desk_trading.KillSwitch.Reader.{
  TextOps, TextLaws, already_closed, enabled, frozen, halted, KillSwitchState,
  FamilyKillSwitchState, default_family, family_state, effective_state, is_halting, isolated_desks,
  RawFamily, RawState, absent, normalise_state, parse_family_state, parse_families,
  load_kill_switch,
}
use multi_desk_trading.KillSwitch.Control.{
  with_raw, Evidence, RuntimeRoot, load_state, ensure_family, default_raw, add_sorted, sorted_set,
  discard, latest_incident, split_slash, parse_target,
}
use multi_desk_trading.KillSwitch.Control.Commands.{
  begin_command, open_incident, close_incident, write_result, freeze_family, halt_system,
  isolate_desk, clear_state, clear_desk, clear_family, clear_incident, clear_target,
}
use multi_desk_trading.KillSwitch.Commands.{
  freeze_family-halts, halt_system-halts, isolate_desk-isolates,
}
use multi_desk_trading.KillSwitch.Clearing.{clear_target_once, clear_target-family}
use multi_desk_trading.KillSwitch.Entries.{has_desk}

-- Texts that are in lower case and without spaces around them already.
abbrev plain : TextOps
plain = record { strip = λ s. s; lower = λ s. s; utc_iso = λ t. "2026-04-24T00:00:00Z" }

abbrev plain_laws : TextLaws plain
plain_laws = record {
  strip_enabled = refl;
  lower_enabled = refl;
  strip_frozen = refl;
  lower_frozen = refl;
  strip_halted = refl;
  lower_halted = refl;
}

abbrev memo : Evidence
memo = record { path = "memo.md"; exists = true }

abbrev noon : Datetime
noon = aware (pos 0)

abbrev stamp : String
stamp = "2026-04-24T00:00:00Z"

abbrev new_root : RuntimeRoot
new_root = record { switch = absent; incidents = [] }

abbrev all_enabled : KillSwitchState
all_enabled = record { system_state = enabled; system_reason = ""; families = [] }

abbrev new_state : RawState
new_state = record {
  system_state = some enabled;
  reason = some "";
  system_reason = none;
  families = [];
  triggered_at = none;
  incident_ref = none;
}

new_root-loads : load_kill_switch plain absent none ≡ ok all_enabled
unfolding load_kill_switch
new_root-loads = refl

-- freeze oil
abbrev frozen_root : RuntimeRoot
frozen_root =
    write_result new_root
      (open_incident plain "inc_1" "freeze" "family" (some "oil") none "sev2" "drift" "memo.md"
        noon)
      (with_raw new_state "oil" (record default_raw {
        state = some frozen;
        reason = some "drift";
        triggered_at = some stamp;
        incident_ref = some "inc_1";
      }))

oil-frozen : freeze_family plain new_root "oil" "drift" memo "sev2" noon "inc_1" ≡ ok frozen_root
unfolding freeze_family begin_command load_state ensure_family
oil-frozen = refl

freeze_family-halts_example :
    (ks' : KillSwitchState) × (load_kill_switch plain frozen_root.switch none ≡ ok ks')
    × (is_halting ks' "oil" ≡ true)
    × (ks'.system_state ≡ enabled)
    × ((other : String)
        → str_eq "oil" other ≡ false
        → family_state ks' other ≡ family_state all_enabled other)
freeze_family-halts_example =
    freeze_family-halts plain plain_laws new_root none all_enabled new_root-loads memo noon "oil"
      "drift" "sev2" "inc_1" frozen_root oil-frozen

-- halt
abbrev halted_root : RuntimeRoot
halted_root =
    write_result new_root
      (open_incident plain "inc_1" "halt" "system" none none "sev1" "outage" "memo.md" noon)
      (record new_state {
        system_state = some halted;
        reason = some "outage";
        triggered_at = some stamp;
        incident_ref = some "inc_1";
      })

system-halted : halt_system plain new_root "outage" memo "sev1" noon "inc_1" ≡ ok halted_root
unfolding halt_system begin_command load_state
system-halted = refl

halt_system-halts_example :
    (ks' : KillSwitchState) × (load_kill_switch plain halted_root.switch none ≡ ok ks')
    × ((family : String)
        → (is_halting ks' family ≡ true)
          × (effective_state ks' family ≡ halted)
          × (isolated_desks ks' family ≡ [])
          × (family_state ks' family ≡ family_state all_enabled family))
halt_system-halts_example =
    halt_system-halts plain plain_laws new_root none all_enabled new_root-loads memo noon "outage"
      "sev1" "inc_1" halted_root system-halted

-- isolate oil/curve
abbrev isolated_raw : RawFamily
isolated_raw = record default_raw {
  isolated_desks = some ("curve" ∷ []);
  reason = some "stale";
  triggered_at = some stamp;
  incident_ref = some "inc_1";
}

abbrev isolated_root : RuntimeRoot
isolated_root =
    write_result new_root
      (open_incident plain "inc_1" "isolate" "desk" (some "oil") (some "curve") "sev3" "stale"
        "memo.md" noon)
      (with_raw new_state "oil" isolated_raw)

curve-isolated :
    isolate_desk plain new_root "oil" "curve" "stale" memo "sev3" noon "inc_1" ≡ ok isolated_root
unfolding isolate_desk begin_command load_state ensure_family add_sorted sorted_set
curve-isolated = refl

isolate_desk-isolates_example :
    (ks' : KillSwitchState) × (load_kill_switch plain isolated_root.switch none ≡ ok ks')
    × ((d : String)
        → has_desk d (family_state ks' "oil").isolated_desks
          ≡ (str_eq "curve" d || has_desk d (family_state all_enabled "oil").isolated_desks))
    × ((family_state ks' "oil").state ≡ (family_state all_enabled "oil").state)
    × (ks'.system_state ≡ enabled)
    × ((other : String)
        → str_eq "oil" other ≡ false
        → family_state ks' other ≡ family_state all_enabled other)
isolate_desk-isolates_example =
    isolate_desk-isolates plain plain_laws new_root none all_enabled new_root-loads memo noon "oil"
      "curve" "stale" "sev3" "inc_1" isolated_root curve-isolated

-- clear oil/curve
abbrev curve_cleared_root : RuntimeRoot
curve_cleared_root =
    write_result isolated_root
      (close_incident plain
        (open_incident plain "inc_1" "isolate" "desk" (some "oil") (some "curve") "sev3" "stale"
          "memo.md" noon)
        memo noon)
      (with_raw new_state "oil"
        (record isolated_raw { isolated_desks = some []; reason = some ""; incident_ref = none }))

curve-cleared :
    clear_target plain isolated_root "oil/curve" "inc_1" memo noon ≡ ok curve_cleared_root
unfolding clear_target load_state latest_incident clear_incident parse_target split_slash
    clear_state clear_desk ensure_family sorted_set add_sorted discard
curve-cleared = refl

oil_curve-parsed : parse_target "oil/curve" ≡ ok ("oil", some "curve")
unfolding parse_target split_slash
oil_curve-parsed = refl

abbrev oil_isolated : FamilyKillSwitchState
oil_isolated = record default_family {
  isolated_desks = "curve" ∷ [];
  reason = "stale";
  triggered_at = some stamp;
  incident_ref = some "inc_1";
}

abbrev curve_out : KillSwitchState
curve_out = record all_enabled { families = ("oil", oil_isolated) ∷ [] }

isolated_root-loads : load_kill_switch plain isolated_root.switch none ≡ ok curve_out
unfolding load_kill_switch parse_families parse_family_state normalise_state
isolated_root-loads = refl

clear_target_once_example :
    clear_target plain curve_cleared_root "system" "inc_1" memo noon ≡ err already_closed
clear_target_once_example =
    clear_target_once plain isolated_root curve_cleared_root "oil/curve" "inc_1" memo noon
      curve-cleared "system" memo noon refl

-- clear oil, after the freeze
abbrev oil_cleared_root : RuntimeRoot
oil_cleared_root =
    write_result frozen_root
      (close_incident plain
        (open_incident plain "inc_1" "freeze" "family" (some "oil") none "sev2" "drift" "memo.md"
          noon)
        memo noon)
      (with_raw new_state "oil" default_raw)

oil-cleared : clear_target plain frozen_root "oil" "inc_1" memo noon ≡ ok oil_cleared_root
unfolding clear_target load_state latest_incident clear_incident parse_target split_slash
    clear_state clear_family ensure_family
oil-cleared = refl

oil-parsed : parse_target "oil" ≡ ok ("oil", none)
unfolding parse_target split_slash
oil-parsed = refl

abbrev oil_frozen : FamilyKillSwitchState
oil_frozen = record default_family {
  state = frozen;
  reason = "drift";
  triggered_at = some stamp;
  incident_ref = some "inc_1";
}

abbrev oil_out : KillSwitchState
oil_out = record all_enabled { families = ("oil", oil_frozen) ∷ [] }

frozen_root-loads : load_kill_switch plain frozen_root.switch none ≡ ok oil_out
unfolding load_kill_switch parse_families parse_family_state normalise_state
frozen_root-loads = refl

clear_target-family_example :
    (ks' : KillSwitchState) × (load_kill_switch plain oil_cleared_root.switch none ≡ ok ks')
    × (((family_state oil_out "oil").isolated_desks ≡ [])
        × ((family_state ks' "oil").state ≡ enabled)
        × ((ks'.system_state ≡ enabled)
            × ((other : String)
                → str_eq "oil" other ≡ false
                → family_state ks' other ≡ family_state oil_out other)))
clear_target-family_example =
    clear_target-family plain plain_laws frozen_root oil_cleared_root none oil_out frozen_root-loads
      "oil" "inc_1" memo noon oil-cleared "oil" oil-parsed refl
