-- ===== src/KillSwitch/Reader.antt =====
-- The kill-switch reader, v2/runtime/kill_switch.py. A document is one whose values have the shape
-- that killctl writes: texts, lists of texts and mappings; a missing key is `none`.
use text.Mathlib.Text.{◌==◌ as str_eq}
use multi_desk_trading.Common.{
  String, Bool, ◌||◌, not, ◌≡◌, Option, none, some, List, [], ◌∷◌, Result, ok, err, ◌>>=◌, ◌>>◌,
  raise_if, if◌then◌else◌,
}
use multi_desk_trading.Common.Dict.{find_entry, set_entry}
use multi_desk_trading.Common.Time.{Datetime}

-- What the source uses of Python's texts that rests on the tables of Unicode and on formats:
-- `s.strip()`, `s.lower()` and the ISO format of a time in UTC.
pub record TextOps : Type 0 where
  pub strip : String → String
  pub lower : String → String
  pub utc_iso : Datetime → String

abbrev pub enabled : String
enabled = "enabled"

abbrev pub desk_isolated : String
desk_isolated = "desk_isolated"

abbrev pub frozen : String
frozen = "frozen"

abbrev pub halted : String
halted = "halted"

-- A lower-case word without spaces stays as it is.
pub record TextLaws (T : TextOps) : Type 0 where
  pub strip_enabled : T.strip enabled ≡ enabled
  pub lower_enabled : T.lower enabled ≡ enabled
  pub strip_frozen : T.strip frozen ≡ frozen
  pub lower_frozen : T.lower frozen ≡ frozen
  pub strip_halted : T.strip halted ≡ halted
  pub lower_halted : T.lower halted ≡ halted

-- The exceptions of the reader, and those of killctl.
pub data KillError : Type 0 where
  not_a_mapping unknown_state : KillError
  reason_required evidence_missing incident_not_found already_closed : KillError
  desks_isolated target_required bad_target : KillError

-- `state in HALTING_STATES`
abbrev pub in_halting_states : String → Bool
in_halting_states state = str_eq state frozen || str_eq state halted

pub record FamilyKillSwitchState : Type 0 where
  pub state : String
  pub isolated_desks : List String
  pub reason : String
  pub triggered_by : Option String
  pub triggered_at : Option String
  pub expires_at : Option String
  pub incident_ref : Option String

abbrev pub default_family : FamilyKillSwitchState
default_family = record {
  state = enabled;
  isolated_desks = [];
  reason = "";
  triggered_by = none;
  triggered_at = none;
  expires_at = none;
  incident_ref = none;
}

pub record KillSwitchState : Type 0 where
  pub system_state : String
  pub system_reason : String
  pub families : List (String × FamilyKillSwitchState)

abbrev pub system_halting : KillSwitchState → Bool
system_halting s = in_halting_states s.system_state

unfoldable pub family_state : KillSwitchState → String → FamilyKillSwitchState
family_state s family = elim (find_entry family s.families) [ none ↦ default_family | some f ↦ f ]

unfoldable pub effective_state : KillSwitchState → String → String
unfolding family_state
effective_state s family =
    if system_halting s then s.system_state else (family_state s family).state

unfoldable pub is_halting : KillSwitchState → String → Bool
unfolding family_state
is_halting s family = system_halting s || in_halting_states (family_state s family).state

unfoldable pub isolated_desks : KillSwitchState → String → List String
unfolding family_state
isolated_desks s family = if system_halting s then [] else (family_state s family).isolated_desks

-- `a or b` for texts.
abbrev pub or_text : String → String → String
or_text a b = if str_eq a "" then b else a

unfoldable pub reason : KillSwitchState → String → String
unfolding family_state
reason s family =
    if system_halting s
    then or_text s.system_reason (or_text (family_state s family).reason s.system_state)
    else or_text (family_state s family).reason (family_state s family).state

-- The entry of a family in the file.
pub record RawFamily : Type 0 where
  pub state : Option String
  pub isolated_desks : Option (List String)
  pub reason : Option String
  pub triggered_by : Option String
  pub triggered_at : Option String
  pub expires_at : Option String
  pub incident_ref : Option String

pub record RawState : Type 0 where
  pub system_state : Option String
  pub reason : Option String
  pub system_reason : Option String
  pub families : List (String × RawFamily)
  pub triggered_at : Option String
  pub incident_ref : Option String

-- `kill_switch.yaml`
pub data SwitchFile : Type 0 where
  absent other_document : SwitchFile
  mapping : RawState → SwitchFile

-- `value or ""`
abbrev pub text_of : Option String → String
text_of none = ""
text_of (some s) = s

abbrev pub desks_of : Option (List String) → List String
desks_of none = []
desks_of (some desks) = desks

-- `if family is not None and family not in families: families[family] = ...`
abbrev pub with_family :
    Option String → List (String × FamilyKillSwitchState) → List (String × FamilyKillSwitchState)
with_family none families = families
with_family (some family) families = elim (find_entry family families) [
  | none ↦ set_entry family default_family families
  | some _ ↦ families
]

module _ (T : TextOps) where
  unfoldable pub normalise_state : Option String → Result KillError String
  normalise_state value = do
    let state = T.lower (T.strip (or_text (text_of value) enabled))
    raise_if
        (not (
          str_eq state enabled
          || str_eq state desk_isolated
          || str_eq state frozen
          || str_eq state halted))
        unknown_state
    ok state

  unfoldable pub parse_family_state : RawFamily → Result KillError FamilyKillSwitchState
  unfolding normalise_state
  parse_family_state raw = do
    state ← normalise_state raw.state
    ok (record {
      state = state;
      isolated_desks = desks_of raw.isolated_desks;
      reason = text_of raw.reason;
      triggered_by = raw.triggered_by;
      triggered_at = raw.triggered_at;
      expires_at = raw.expires_at;
      incident_ref = raw.incident_ref;
    })

  unfoldable pub parse_families :
      List (String × RawFamily) → Result KillError (List (String × FamilyKillSwitchState))
  unfolding parse_family_state
  parse_families [] = ok []
  parse_families ((name, raw) ∷ rest) = do
    family ← parse_family_state raw
    families ← parse_families rest
    ok ((name, family) ∷ families)

  unfoldable pub load_kill_switch : SwitchFile → Option String → Result KillError KillSwitchState
  unfolding normalise_state parse_families
  load_kill_switch absent family =
      ok (record { system_state = enabled; system_reason = ""; families = with_family family [] })
  load_kill_switch other_document family = err not_a_mapping
  load_kill_switch (mapping raw) family = do
    families ← parse_families raw.families
    system_state ← normalise_state raw.system_state
    ok (record {
      system_state = system_state;
      system_reason = or_text (text_of raw.reason) (text_of raw.system_reason);
      families = with_family family families;
    })
