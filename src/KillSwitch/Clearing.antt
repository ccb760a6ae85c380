-- ===== src/KillSwitch/Clearing.antt =====
-- Clearing: what it restores, when it refuses, and that an incident is closed once.
use text.Mathlib.Text.{◌==◌ as str_eq}
use multi_desk_trading.Common.{
  String, true, false, ◌&&◌, not, ◌≡◌, refl, sym, ap, subst, ◌∙◌, inl, inr, Option, none, some,
  List, [], ◌∷◌, ◌++◌, Result, ok, err, ◌>>=◌, >>=-eq-ok, ok-injective, if◌then◌else◌, arith,
  Bool-cases, Option-cases,
}
use multi_desk_trading.Common.Time.{Datetime}
use multi_desk_trading.KillSwitch.Reader.{
  TextOps, TextLaws, KillError, already_closed, enabled, KillSwitchState, family_state, RawFamily,
  RawState, mapping, text_of, desks_of, normalise_state, load_kill_switch,
}
use multi_desk_trading.KillSwitch.Control.{
  load_state, with_raw, Evidence, Incident, RuntimeRoot, ensure_family, latest_incident,
  parse_target, sorted_set, discard,
}
use multi_desk_trading.KillSwitch.Control.Commands.{
  write_result, clear_desk, clear_family, clear_state, close_incident, clear_incident, clear_target,
  is_empty,
}
use multi_desk_trading.KillSwitch.Reading.{
  load_state-reads, normalise_state-enabled, with_raw-reads, parsed_as,
  parse_family_state-parsed_as,
}
use multi_desk_trading.KillSwitch.Entries.{has_desk, has_desk-cleared, ensure_family-IsReadAs}

latest_incident-append :
    (lines : List Incident) (line : Incident) (key : String)
    → str_eq line.incident_id key ≡ true
    → latest_incident (lines ++ line ∷ []) key ≡ some line
unfolding latest_incident
latest_incident-append [] line key e = rw (e, if◌then◌else◌)
latest_incident-append (first ∷ lines) line key e = rw (latest_incident-append lines line key e)

latest_incident-id :
    (lines : List Incident) (key : String) (line : Incident)
    → latest_incident lines key ≡ some line
    → str_eq line.incident_id key ≡ true
unfolding latest_incident
latest_incident-id [] key line e = cc
latest_incident-id (first ∷ lines) key line e = elim (Option-cases (latest_incident lines key)) [
  | inr (other, found) ↦ latest_incident-id lines key line (ground (arith, found))
  | inl none_found ↦ ground (arith, none_found)
]

-- What a call of `clear_target` that returned went through, from the incident that it found.
record Cleared (T : TextOps) (root root' : RuntimeRoot) (before : RawState) (target : String)
    (evidence : Evidence) (now : Datetime) (found : Option Incident) : Type 0 where
  incident : Incident
  is_found : found ≡ some incident
  is_not_closed : str_eq incident.status "closed" ≡ false
  named : String × Option String
  parsed : parse_target target ≡ ok named
  after : RawState
  cleared : clear_state before named.0 named.1 ≡ ok after
  written : write_result root (close_incident T incident evidence now) after ≡ root'

clear_incident-Cleared :
    (T : TextOps) (root root' : RuntimeRoot) (before : RawState) (target : String)
    (evidence : Evidence) (now : Datetime) (found : Option Incident)
    → clear_incident T root before target evidence now found ≡ ok root'
    → Cleared T root root' before target evidence now found
unfolding clear_incident
clear_incident-Cleared T root root' before target evidence now none e = cc
clear_incident-Cleared T root root' before target evidence now (some incident) e =
    elim (Bool-cases (str_eq incident.status "closed")) [
      | inl shut ↦ ground arith
      | inr live ↦
          let finish : RawState → Result KillError RuntimeRoot =
            λ after. ok (write_result root (close_incident T incident evidence now) after) in
          let (named, e1, rest1) =
            >>=-eq-ok (parse_target target) (λ n. clear_state before n.0 n.1 >>= finish)
              (rw (live) at e) in
          let (after, e2, rest2) = >>=-eq-ok (clear_state before named.0 named.1) finish rest1 in
          record {
            incident = incident;
            is_found = refl;
            is_not_closed = live;
            named = named;
            parsed = e1;
            after = after;
            cleared = e2;
            written = ok-injective rest2;
          }
    ]

clear_target-Cleared :
    (T : TextOps) (root root' : RuntimeRoot) (target key : String) (evidence : Evidence)
    (now : Datetime)
    → clear_target T root target key evidence now ≡ ok root'
    → (before : RawState) × (load_state root.switch ≡ ok before)
      × Cleared T root root' before target evidence now (latest_incident root.incidents key)
unfolding clear_target
clear_target-Cleared T root root' target key evidence now e = elim (Bool-cases evidence.exists) [
  | inr h ↦ ground arith
  | inl h ↦
      let (before, e1, rest1) =
        >>=-eq-ok (load_state root.switch)
          (λ state.
            clear_incident T root state target evidence now (latest_incident root.incidents key))
          (rw (h) at e) in
      (
        before,
        e1,
        clear_incident-Cleared T root root' before target evidence now
            (latest_incident root.incidents key) rest1,
      )
]

-- Where a call to clear an incident returned, a later call with the same incident, for any target and
-- with evidence that exists, raises that it is already closed.
pub clear_target_once :
    (T : TextOps) (root root' : RuntimeRoot) (target key : String) (evidence : Evidence)
    (now : Datetime)
    → clear_target T root target key evidence now ≡ ok root'
    → (target' : String) (evidence' : Evidence) (now' : Datetime) → evidence'.exists ≡ true
    → clear_target T root' target' key evidence' now' ≡ err already_closed
unfolding clear_target load_state clear_incident
clear_target_once T root root' target key evidence now e target' evidence' now' h =
    let (before, _, c) = clear_target-Cleared T root root' target key evidence now e in
    subst (λ r. clear_target T r target' key evidence' now' ≡ err already_closed) c.written
      (rw (
        h,
        ◌>>=◌,
        latest_incident-append root.incidents (close_incident T c.incident evidence now) key
            (latest_incident-id root.incidents key c.incident c.is_found),
      ))

is_empty-nil : (desks : List String) → is_empty desks ≡ true → desks ≡ []
is_empty-nil [] e = refl
is_empty-nil (d ∷ desks) e = ground arith

abbrev restored : RawFamily → RawFamily
restored raw = record raw {
  state = some enabled;
  reason = some "";
  triggered_at = none;
  incident_ref = none;
}

clear_family-restored :
    (state after : RawState) (family : String)
    → clear_family state family ≡ ok after
    → (desks_of (ensure_family state family).isolated_desks ≡ [])
      × (with_raw state family (restored (ensure_family state family)) ≡ after)
unfolding clear_family
clear_family-restored state after family e =
    elim (Bool-cases (is_empty (desks_of (ensure_family state family).isolated_desks))) [
      | inr full ↦ cc (rw (full) at e)
      | inl none_left ↦ (is_empty-nil _ none_left, ok-injective (rw (none_left) at e))
    ]

-- The entry after a desk was cleared: its state stays, and the desk is discarded.
clear_desk-kept :
    (state : RawState) (family desk : String)
    → (raw : RawFamily) × (with_raw state family raw ≡ clear_desk state family desk)
      × (raw.state ≡ (ensure_family state family).state)
      × (raw.isolated_desks
          ≡ some (discard desk (sorted_set (desks_of (ensure_family state family).isolated_desks))))
unfolding clear_desk
clear_desk-kept state family desk =
    let raw = ensure_family state family in
    let isolated = discard desk (sorted_set (desks_of raw.isolated_desks)) in
    let raw' : RawFamily = record raw { isolated_desks = some isolated } in
    elim (Bool-cases (is_empty isolated && str_eq (text_of raw.state) enabled)) [
      | inl c ↦
          (record raw' { reason = some ""; incident_ref = none }, rw (c, if◌then◌else◌), refl, refl)
      | inr c ↦ (raw', rw (c, if◌then◌else◌), refl, refl)
    ]

module _ (T : TextOps) (laws : TextLaws T) (root root' : RuntimeRoot) (asked : Option String)
    (ks : KillSwitchState) (readable : load_kill_switch T root.switch asked ≡ ok ks)
    (target key : String) (evidence : Evidence) (now : Datetime)
    (returned : clear_target T root target key evidence now ≡ ok root') where
  -- The command's file, read before and written after.
  abbrev Shown : (KillSwitchState → Type 0) → Type 0
  Shown P = (ks' : KillSwitchState) × (load_kill_switch T root'.switch asked ≡ ok ks') × P ks'

  shown :
      (family : String) (desk : Option String)
      → parse_target target ≡ ok (family, desk)
      → (before after : RawState) × (load_kill_switch T (mapping before) asked ≡ ok ks)
        × (clear_state before family desk ≡ ok after)
        × (mapping after ≡ root'.switch)
  shown family desk p =
      let (before, loaded, c) =
        clear_target-Cleared T root root' target key evidence now returned in
      (
        before,
        c.after,
        load_state-reads T root.switch asked ks before laws readable loaded,
        subst (λ n. clear_state before n.0 n.1 ≡ ok c.after) (ok-injective (sym c.parsed ∙ p))
            c.cleared,
        ap (λ r. r.switch) c.written,
      )

  abbrev OthersStay : String → KillSwitchState → Type 0
  OthersStay family ks' =
      (ks'.system_state ≡ ks.system_state)
      × ((other : String)
          → str_eq family other ≡ false
          → family_state ks' other ≡ family_state ks other)

  -- Where the file can be read before, after clearing a family, other than the word system, it can be
  -- read too. No desk of the family was isolated; the family is enabled, and the system's state and
  -- every other family's are as before.
  pub clear_target-family :
      (family : String)
      → parse_target target ≡ ok (family, none)
      → str_eq family "system" ≡ false
      → Shown (λ ks'.
        ((family_state ks family).isolated_desks ≡ [])
        × ((family_state ks' family).state ≡ enabled)
        × OthersStay family ks')
  unfolding clear_state
  clear_target-family family p ne =
      let (before, after, r, cleared, w) = shown family none p in
      let (n, i) = ensure_family-IsReadAs T laws before asked ks r family in
      let (nobody, a) =
        clear_family-restored before after family (rw (ne, if◌then◌else◌) at cleared) in
      let raw = restored (ensure_family before family) in
      let (ks', r', s, f, o) =
        with_raw-reads T before asked ks family raw (parsed_as raw enabled) r
          (parse_family_state-parsed_as T raw enabled (normalise_state-enabled T laws)) in
      (
        ks',
        subst (λ file. load_kill_switch T file asked ≡ ok ks') (ap mapping a ∙ w) r',
        (sym i ∙ nobody, ap (λ x. x.state) f, (s, o)),
      )

  -- Where the file can be read before, after clearing a desk of a family, other than the word system, it
  -- can be read too: the desks that are isolated are those that were, without this one; the state of
  -- the family, the system's state and every other family's are as before.
  pub clear_target-desk :
      (family desk : String)
      → parse_target target ≡ ok (family, some desk)
      → str_eq family "system" ≡ false
      → Shown (λ ks'.
        ((d : String)
          → has_desk d (family_state ks' family).isolated_desks
            ≡ (not (str_eq desk d) && has_desk d (family_state ks family).isolated_desks))
        × ((family_state ks' family).state ≡ (family_state ks family).state)
        × OthersStay family ks')
  unfolding clear_state clear_desk
  clear_target-desk family desk p ne =
      let (before, after, r, cleared, w) = shown family (some desk) p in
      let (n, i) = ensure_family-IsReadAs T laws before asked ks r family in
      let st = (family_state ks family).state in
      let raw = ensure_family before family in
      let isolated = discard desk (sorted_set (desks_of raw.isolated_desks)) in
      let (raw', a, kept, left) = clear_desk-kept before family desk in
      let (ks', r', s, f, o) =
        with_raw-reads T before asked ks family raw' (parsed_as raw' st) r
          (parse_family_state-parsed_as T raw' st (ap (normalise_state T) kept ∙ n)) in
      (
        ks',
        subst (λ file. load_kill_switch T file asked ≡ ok ks')
            (ap mapping (a ∙ ok-injective (rw (ne, if◌then◌else◌) at cleared)) ∙ w) r',
        (
          λ d.
              ap (λ x. has_desk d x.isolated_desks) f
              ∙ ap (λ desks. has_desk d (desks_of desks)) left
              ∙ has_desk-cleared d desk (desks_of raw.isolated_desks)
              ∙ ap (λ desks. not (str_eq desk d) && has_desk d desks) i,
          ap (λ x. x.state) f,
          (s, o),
        ),
      )
