-- ===== src/KillSwitch/Commands.antt =====
-- What the commands do to the states that the reader gives to the paper-live loop.
use text.Mathlib.Text.{◌==◌ as str_eq}
use multi_desk_trading.Common.{
  String, true, false, ◌||◌, ◌≡◌, refl, sym, ap, subst, ◌∙◌, Option, none, some, [], ok, ◌>>=◌,
  >>=-eq-ok, ok-injective, arith,
}
use multi_desk_trading.Common.Time.{Datetime}
use multi_desk_trading.KillSwitch.Reader.{
  TextOps, TextLaws, enabled, frozen, halted, in_halting_states, KillSwitchState, family_state,
  effective_state, is_halting, isolated_desks, RawFamily, RawState, mapping, text_of, or_text,
  desks_of, parse_family_state, with_family, load_kill_switch,
}
use multi_desk_trading.KillSwitch.Control.{
  with_raw, Evidence, RuntimeRoot, ensure_family, to_utc, sorted_set, add_sorted,
}
use multi_desk_trading.KillSwitch.Control.Commands.{
  begin_command, open_incident, write_result, freeze_family, halt_system, isolate_desk,
}
use multi_desk_trading.KillSwitch.Reading.{
  family_of, load_kill_switch-mapping, load_state-reads, normalise_state-frozen,
  normalise_state-halted, with_raw-reads, parsed_as, parse_family_state-parsed_as,
  normalise_state-or_text,
}
use multi_desk_trading.KillSwitch.Entries.{has_desk, has_desk-isolated, ensure_family-IsReadAs}

halting_when :
    (ks : KillSwitchState) (family state : String)
    → (family_state ks family).state ≡ state
    → in_halting_states state ≡ true
    → is_halting ks family ≡ true
unfolding is_halting
halting_when ks family state e h = rw (e, h) (ground arith)

module _ (T : TextOps) (laws : TextLaws T) (root : RuntimeRoot) (asked : Option String)
    (ks : KillSwitchState) (readable : load_kill_switch T root.switch asked ≡ ok ks)
    (evidence : Evidence) (now : Datetime) where
  begun :
      (reason : String) (state : RawState)
      → begin_command T root reason evidence ≡ ok state
      → load_kill_switch T (mapping state) asked ≡ ok ks
  unfolding begin_command
  begun reason state e = load_state-reads T root.switch asked ks state laws readable (ground arith)

  -- Where the file can be read before, after a freeze that returns it can be read too: trading of the
  -- family halts, and the system's state and every other family's are as before.
  pub freeze_family-halts :
      (family reason severity key : String) (root' : RuntimeRoot)
      → freeze_family T root family reason evidence severity now key ≡ ok root'
      → (ks' : KillSwitchState) × (load_kill_switch T root'.switch asked ≡ ok ks')
        × (is_halting ks' family ≡ true)
        × (ks'.system_state ≡ ks.system_state)
        × ((other : String)
            → str_eq family other ≡ false
            → family_state ks' other ≡ family_state ks other)
  unfolding freeze_family is_halting parse_family_state
  freeze_family-halts family reason severity key root' e =
      let incident =
        open_incident T key "freeze" "family" (some family) none severity reason evidence.path
          now in
      let raw : RawState → RawFamily = λ state. record (ensure_family state family) {
        state = some frozen;
        reason = some reason;
        triggered_at = some (T.utc_iso (to_utc now));
        incident_ref = some key;
      } in
      let (state, e1, e2) =
        >>=-eq-ok (begin_command T root reason evidence)
          (λ state. ok (write_result root incident (with_raw state family (raw state)))) e in
      let (ks', r, s, f, o) =
        with_raw-reads T state asked ks family (raw state) (parsed_as (raw state) frozen)
          (begun reason state e1)
          (parse_family_state-parsed_as T (raw state) frozen (normalise_state-frozen T laws)) in
      (
        ks',
        subst (λ after. load_kill_switch T after.switch asked ≡ ok ks') (ok-injective e2) r,
        halting_when ks' family frozen (ap (λ x. x.state) f) refl,
        s,
        o,
      )

  -- Where the file can be read before, after a halt that returns it can be read too: every family
  -- halts, its effective state is that of the system, and no desks are reported as isolated; the
  -- families' own states are as before.
  pub halt_system-halts :
      (reason severity key : String) (root' : RuntimeRoot)
      → halt_system T root reason evidence severity now key ≡ ok root'
      → (ks' : KillSwitchState) × (load_kill_switch T root'.switch asked ≡ ok ks')
        × ((family : String)
            → (is_halting ks' family ≡ true)
              × (effective_state ks' family ≡ halted)
              × (isolated_desks ks' family ≡ [])
              × (family_state ks' family ≡ family_state ks family))
  unfolding halt_system is_halting effective_state isolated_desks family_state load_kill_switch
  halt_system-halts reason severity key root' e =
      let incident =
        open_incident T key "halt" "system" none none severity reason evidence.path now in
      let written : RawState → RawState = λ state. record state {
        system_state = some halted;
        reason = some reason;
        triggered_at = some (T.utc_iso (to_utc now));
        incident_ref = some key;
      } in
      let (state, e1, e2) =
        >>=-eq-ok (begin_command T root reason evidence)
          (λ state. ok (write_result root incident (written state))) e in
      let (families, st, p, _, k) =
        load_kill_switch-mapping T state asked ks (begun reason state e1) in
      let ks' : KillSwitchState = record {
        system_state = halted;
        system_reason = or_text reason (text_of state.system_reason);
        families = with_family asked families;
      } in
      (
        ks',
        subst (λ after. load_kill_switch T after.switch asked ≡ ok ks') (ok-injective e2)
            (rw (p, ◌>>=◌, normalise_state-halted T laws)),
        λ family. (refl, refl, refl, ap (λ fs. family_of fs family) (sym (ap (λ s. s.families) k))),
      )

  -- Where the file can be read before, after an isolation that returns it can be read too: the desk is
  -- isolated with those of its family that were; the state of the family, the system's state and every
  -- other family's are as before.
  pub isolate_desk-isolates :
      (family desk reason severity key : String) (root' : RuntimeRoot)
      → isolate_desk T root family desk reason evidence severity now key ≡ ok root'
      → (ks' : KillSwitchState) × (load_kill_switch T root'.switch asked ≡ ok ks')
        × ((d : String)
            → has_desk d (family_state ks' family).isolated_desks
              ≡ (str_eq desk d || has_desk d (family_state ks family).isolated_desks))
        × ((family_state ks' family).state ≡ (family_state ks family).state)
        × (ks'.system_state ≡ ks.system_state)
        × ((other : String)
            → str_eq family other ≡ false
            → family_state ks' other ≡ family_state ks other)
  unfolding isolate_desk
  isolate_desk-isolates family desk reason severity key root' e =
      let incident =
        open_incident T key "isolate" "desk" (some family) (some desk) severity reason evidence.path
          now in
      let raw : RawState → RawFamily = λ state. record (ensure_family state family) {
        state = some (or_text (text_of (ensure_family state family).state) enabled);
        isolated_desks =
            some
              (add_sorted desk (sorted_set (desks_of (ensure_family state family).isolated_desks)));
        reason = some reason;
        triggered_at = some (T.utc_iso (to_utc now));
        incident_ref = some key;
      } in
      let (state, e1, e2) =
        >>=-eq-ok (begin_command T root reason evidence)
          (λ state. ok (write_result root incident (with_raw state family (raw state)))) e in
      let (n, i) = ensure_family-IsReadAs T laws state asked ks (begun reason state e1) family in
      let st = (family_state ks family).state in
      let (ks', r, s, f, o) =
        with_raw-reads T state asked ks family (raw state) (parsed_as (raw state) st)
          (begun reason state e1)
          (parse_family_state-parsed_as T (raw state) st
            (normalise_state-or_text T (ensure_family state family).state ∙ n)) in
      (
        ks',
        subst (λ after. load_kill_switch T after.switch asked ≡ ok ks') (ok-injective e2) r,
        λ d.
            ap (λ x. has_desk d x.isolated_desks) f
            ∙ has_desk-isolated d desk (desks_of (ensure_family state family).isolated_desks)
            ∙ ap (λ desks. str_eq desk d || has_desk d desks) i,
        ap (λ x. x.state) f,
        s,
        o,
      )
