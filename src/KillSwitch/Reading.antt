-- ===== src/KillSwitch/Reading.antt =====
-- What the reader finds after one family's entry was written.
use text.Mathlib.Text.{◌==◌ as str_eq}
use text.Mathlib.TextEquality.{eq_iff}
use multi_desk_trading.Common.{
  String, false, ◌≡◌, refl, sym, ◌∙◌, ap, subst, inl, inr, Option, none, some, List, [], ◌∷◌, ok,
  ◌>>=◌, >>=-eq-ok, ok-injective, if◌then◌else◌, Bool-cases, Option-cases,
}
use multi_desk_trading.Common.Dict.{
  find_entry, set_entry, find_entry-set_entry, find_entry-set_entry_ne,
}
use multi_desk_trading.KillSwitch.Reader.{
  TextOps, TextLaws, enabled, frozen, halted, FamilyKillSwitchState, default_family,
  KillSwitchState, family_state, RawFamily, RawState, SwitchFile, absent, other_document, mapping,
  text_of, or_text, desks_of, normalise_state, parse_family_state, parse_families, with_family,
  load_kill_switch,
}
use multi_desk_trading.KillSwitch.Control.{load_state, with_raw, or_default}

-- The state of a family among those that the reader holds.
abbrev pub family_of : List (String × FamilyKillSwitchState) → String → FamilyKillSwitchState
family_of families family = elim (find_entry family families) [ none ↦ default_family | some f ↦ f ]

pub family_of-with_family :
    (asked : Option String) (families : List (String × FamilyKillSwitchState)) (family : String)
    → family_of (with_family asked families) family ≡ family_of families family
family_of-with_family none families family = refl
family_of-with_family (some a) families family = elim (Option-cases (find_entry a families)) [
  | inr (f, e) ↦ rw (family_of, with_family, e)
  | inl e ↦
      rw (family_of, with_family, e)
        (elim (Bool-cases (str_eq a family)) [
          | inl same ↦
              subst (λ g. family_of (set_entry a default_family families) g ≡ family_of families g)
                ((eq_iff a family).0 same)
                (rw (family_of, find_entry-set_entry a default_family families, e))
          | inr ne ↦ rw (family_of, find_entry-set_entry_ne a family default_family families ne)
        ])
]

text_of-or_default : (value : Option String) → text_of (or_default value "") ≡ text_of value
text_of-or_default none = refl
text_of-or_default (some v) = refl

-- An entry whose state was read.
abbrev pub parsed_as : RawFamily → String → FamilyKillSwitchState
parsed_as raw state = record {
  state = state;
  isolated_desks = desks_of raw.isolated_desks;
  reason = text_of raw.reason;
  triggered_by = raw.triggered_by;
  triggered_at = raw.triggered_at;
  expires_at = raw.expires_at;
  incident_ref = raw.incident_ref;
}

or_text_again : (a : String) → or_text (or_text a enabled) enabled ≡ or_text a enabled
or_text_again a = elim (Bool-cases (str_eq a "")) [
  | inl e ↦ rw (e, if◌then◌else◌)
  | inr e ↦ rw (e, if◌then◌else◌, e, if◌then◌else◌)
]

module _ (T : TextOps) where
  pub parse_family_state-parsed_as :
      (raw : RawFamily) (state : String)
      → normalise_state T raw.state ≡ ok state
      → parse_family_state T raw ≡ ok (parsed_as raw state)
  unfolding parse_family_state
  parse_family_state-parsed_as raw state e = rw (e, ◌>>=◌)

  parse_families-set_entry :
      (family : String) (raw : RawFamily) (parsed : FamilyKillSwitchState)
      → parse_family_state T raw ≡ ok parsed
      → (raws : List (String × RawFamily)) (families : List (String × FamilyKillSwitchState))
      → parse_families T raws ≡ ok families
      → parse_families T (set_entry family raw raws) ≡ ok (set_entry family parsed families)
  unfolding parse_families
  parse_families-set_entry family raw parsed p [] families e =
      rw (p, ◌>>=◌) (ap (λ fs. ok (set_entry family parsed fs)) (ok-injective e))
  parse_families-set_entry family raw parsed p ((name, first) ∷ rest) families e =
      let (one, e1, rest1) =
        >>=-eq-ok (parse_family_state T first)
          (λ f. parse_families T rest >>= (λ fs. ok ((name, f) ∷ fs))) e in
      let (more, e2, rest2) =
        >>=-eq-ok (parse_families T rest) (λ fs. ok ((name, one) ∷ fs)) rest1 in
      subst
        (λ fs.
          parse_families T (set_entry family raw ((name, first) ∷ rest))
          ≡ ok (set_entry family parsed fs))
        (ok-injective rest2)
        (elim (Bool-cases (str_eq name family)) [
          | inl same ↦ rw (same, if◌then◌else◌, p, ◌>>=◌, e2, ◌>>=◌)
          | inr ne ↦ rw (
            ne,
            if◌then◌else◌,
            e1,
            ◌>>=◌,
            parse_families-set_entry family raw parsed p rest more e2,
            ◌>>=◌,
          )
        ])

  -- What a successful load of a mapping is made of.
  pub load_kill_switch-mapping :
      (raw : RawState) (asked : Option String) (ks : KillSwitchState)
      → load_kill_switch T (mapping raw) asked ≡ ok ks
      → (families : List (String × FamilyKillSwitchState)) × (state : String) × (parse_families T
            raw.families
          ≡ ok families)
        × (normalise_state T raw.system_state ≡ ok state)
        × (ks ≡ record {
          system_state = state;
          system_reason = or_text (text_of raw.reason) (text_of raw.system_reason);
          families = with_family asked families;
        })
  unfolding load_kill_switch
  load_kill_switch-mapping raw asked ks e =
      let (families, e1, rest1) =
        >>=-eq-ok (parse_families T raw.families)
          (λ fs. normalise_state T raw.system_state >>= (λ st. ok (record {
            system_state = st;
            system_reason = or_text (text_of raw.reason) (text_of raw.system_reason);
            families = with_family asked fs;
          })))
          e in
      let (state, e2, rest2) =
        >>=-eq-ok (normalise_state T raw.system_state)
          (λ st. ok (record {
            system_state = st;
            system_reason = or_text (text_of raw.reason) (text_of raw.system_reason);
            families = with_family asked families;
          }))
          rest1 in
      (families, state, e1, e2, sym (ok-injective rest2))

  pub normalise_state-enabled : TextLaws T → normalise_state T (some enabled) ≡ ok enabled
  unfolding normalise_state
  normalise_state-enabled laws = rw (laws.strip_enabled, laws.lower_enabled)

  pub normalise_state-frozen : TextLaws T → normalise_state T (some frozen) ≡ ok frozen
  unfolding normalise_state
  normalise_state-frozen laws = rw (laws.strip_frozen, laws.lower_frozen)

  pub normalise_state-halted : TextLaws T → normalise_state T (some halted) ≡ ok halted
  unfolding normalise_state
  normalise_state-halted laws = rw (laws.strip_halted, laws.lower_halted)

  pub normalise_state-or_default :
      (value : Option String)
      → normalise_state T (or_default value enabled) ≡ normalise_state T value
  unfolding normalise_state
  normalise_state-or_default none = refl
  normalise_state-or_default (some v) = refl

  pub normalise_state-or_text :
      (value : Option String)
      → normalise_state T (some (or_text (text_of value) enabled)) ≡ normalise_state T value
  unfolding normalise_state
  normalise_state-or_text value = rw (or_text_again (text_of value))

  -- The commands read the file as the reader does.
  pub load_state-reads :
      (switch : SwitchFile) (asked : Option String) (ks : KillSwitchState) (state : RawState)
      → TextLaws T
      → load_kill_switch T switch asked ≡ ok ks
      → load_state switch ≡ ok state
      → load_kill_switch T (mapping state) asked ≡ ok ks
  unfolding load_kill_switch load_state parse_families
  load_state-reads absent asked ks state laws e l =
      subst (λ s. load_kill_switch T (mapping s) asked ≡ ok ks) (ok-injective l)
        (rw (normalise_state-enabled laws, ◌>>=◌) e)
  load_state-reads other_document asked ks state laws e l = cc
  load_state-reads (mapping raw) asked ks state laws e l =
      subst (λ s. load_kill_switch T (mapping s) asked ≡ ok ks) (ok-injective l)
        (rw (normalise_state-or_default raw.system_state, text_of-or_default raw.reason) e)

  -- After one family's entry was written, the reader finds its new state, and every other family and
  -- the system as before.
  pub with_raw-reads :
      (state : RawState) (asked : Option String) (ks : KillSwitchState) (family : String)
      (raw : RawFamily) (parsed : FamilyKillSwitchState)
      → load_kill_switch T (mapping state) asked ≡ ok ks
      → parse_family_state T raw ≡ ok parsed
      → (ks' : KillSwitchState) × (load_kill_switch T (mapping (with_raw state family raw)) asked
          ≡ ok ks')
        × (ks'.system_state ≡ ks.system_state)
        × (family_state ks' family ≡ parsed)
        × ((other : String)
            → str_eq family other ≡ false
            → family_state ks' other ≡ family_state ks other)
  unfolding load_kill_switch family_state
  with_raw-reads state asked ks family raw parsed e p =
      let (families, st, e1, e2, k) = load_kill_switch-mapping state asked ks e in
      (
        record {
          system_state = st;
          system_reason = or_text (text_of state.reason) (text_of state.system_reason);
          families = with_family asked (set_entry family parsed families);
        },
        rw (parse_families-set_entry family raw parsed p state.families families e1, ◌>>=◌, e2),
        sym (ap (λ s. s.system_state) k),
        family_of-with_family asked (set_entry family parsed families) family
            ∙ rw (family_of, find_entry-set_entry family parsed families),
        λ other ne.
            family_of-with_family asked (set_entry family parsed families) other
            ∙ rw (family_of, find_entry-set_entry_ne family other parsed families ne, k)
                (sym (family_of-with_family asked families other)),
      )
