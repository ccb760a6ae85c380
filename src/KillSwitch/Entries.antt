-- ===== src/KillSwitch/Entries.antt =====
-- The entry that a command changes is the one that the reader gives.
use text.Mathlib.Text.{◌==◌ as str_eq}
use text.Mathlib.TextEquality.{eq_iff}
use multi_desk_trading.Common.{
  String, Bool, false, ◌&&◌, ◌||◌, not, ◌≡◌, refl, sym, ap, subst, ◌∙◌, inl, inr, Option, none,
  some, List, [], ◌∷◌, ok, ◌>>=◌, >>=-eq-ok, ok-injective, if◌then◌else◌, arith, Bool-cases,
  Option-cases,
}
use multi_desk_trading.Common.Dict.{find_entry}
use multi_desk_trading.KillSwitch.Reader.{
  TextOps, TextLaws, enabled, FamilyKillSwitchState, KillSwitchState, family_state, RawFamily,
  RawState, mapping, desks_of, normalise_state, parse_family_state, parse_families,
  load_kill_switch,
}
use multi_desk_trading.KillSwitch.Control.{
  ensure_family, add_sorted, sorted_set, discard, or_default, default_raw,
}
use multi_desk_trading.KillSwitch.Reading.{
  family_of, parsed_as, load_kill_switch-mapping, normalise_state-or_default,
  normalise_state-enabled, family_of-with_family,
}

-- `desk in desks`
abbrev pub has_desk : String → List String → Bool
has_desk desk [] = false
has_desk desk (d ∷ desks) = str_eq d desk || has_desk desk desks

has_desk-add_sorted :
    (desk x : String) (desks : List String)
    → has_desk desk (add_sorted x desks) ≡ (str_eq x desk || has_desk desk desks)
unfolding add_sorted
has_desk-add_sorted desk x [] = refl
has_desk-add_sorted desk x (d ∷ desks) =
    ground (arith, has_desk-add_sorted desk x desks, eq_iff x d)

has_desk-sorted_set :
    (desk : String) (desks : List String) → has_desk desk (sorted_set desks) ≡ has_desk desk desks
unfolding sorted_set
has_desk-sorted_set desk [] = refl
has_desk-sorted_set desk (d ∷ desks) =
    has_desk-add_sorted desk d (sorted_set desks)
    ∙ ap (λ b. str_eq d desk || b) (has_desk-sorted_set desk desks)

pub has_desk-isolated :
    (desk x : String) (desks : List String)
    → has_desk desk (add_sorted x (sorted_set desks)) ≡ (str_eq x desk || has_desk desk desks)
has_desk-isolated desk x desks =
    has_desk-add_sorted desk x (sorted_set desks)
    ∙ ap (λ b. str_eq x desk || b) (has_desk-sorted_set desk desks)

has_desk-discard :
    (desk x : String) (desks : List String)
    → has_desk desk (discard x desks) ≡ (not (str_eq x desk) && has_desk desk desks)
unfolding discard
has_desk-discard desk x [] = ground arith
has_desk-discard desk x (d ∷ desks) =
    ground (arith, has_desk-discard desk x desks, eq_iff d x, eq_iff x desk, eq_iff d desk)

pub has_desk-cleared :
    (desk x : String) (desks : List String)
    → has_desk desk (discard x (sorted_set desks)) ≡ (not (str_eq x desk) && has_desk desk desks)
has_desk-cleared desk x desks =
    has_desk-discard desk x (sorted_set desks)
    ∙ ap (λ b. not (str_eq x desk) && b) (has_desk-sorted_set desk desks)

desks_of-or_default :
    (value : Option (List String)) → desks_of (or_default value []) ≡ desks_of value
desks_of-or_default none = refl
desks_of-or_default (some v) = refl

module _ (T : TextOps) where
  -- An entry and the state that the reader makes of it.
  abbrev pub IsReadAs : RawFamily → FamilyKillSwitchState → Type 0
  IsReadAs raw f =
      (normalise_state T raw.state ≡ ok f.state) × (desks_of raw.isolated_desks ≡ f.isolated_desks)

  abbrev ensured : Option RawFamily → RawFamily
  ensured none = default_raw
  ensured (some raw) = record raw {
    state = or_default raw.state enabled;
    isolated_desks = or_default raw.isolated_desks [];
    reason = or_default raw.reason "";
  }

  ensure_family-ensured :
      (state : RawState) (family : String)
      → ensure_family state family ≡ ensured (find_entry family state.families)
  unfolding ensure_family
  ensure_family-ensured state family = elim (Option-cases (find_entry family state.families)) [
    | inl e ↦ rw (ensure_family, e)
    | inr (raw, e) ↦ rw (ensure_family, e)
  ]

  read_one :
      (raw : RawFamily) (one : FamilyKillSwitchState)
      → parse_family_state T raw ≡ ok one
      → IsReadAs (ensured (some raw)) one
  unfolding parse_family_state
  read_one raw one e =
      let (st, n, r) = >>=-eq-ok (normalise_state T raw.state) (λ st. ok (parsed_as raw st)) e in
      subst (λ f. IsReadAs (ensured (some raw)) f) (ok-injective r)
        (normalise_state-or_default T raw.state ∙ n, desks_of-or_default raw.isolated_desks)

  parse_families-IsReadAs :
      (laws : TextLaws T) (raws : List (String × RawFamily))
      (families : List (String × FamilyKillSwitchState))
      → parse_families T raws ≡ ok families
      → (family : String) → IsReadAs (ensured (find_entry family raws)) (family_of families family)
  unfolding parse_families
  parse_families-IsReadAs laws [] families e family =
      subst (λ fs. IsReadAs default_raw (family_of fs family)) (ok-injective e)
        (normalise_state-enabled T laws, refl)
  parse_families-IsReadAs laws ((name, raw) ∷ raws) families e family =
      let (one, e1, rest1) =
        >>=-eq-ok (parse_family_state T raw)
          (λ f. parse_families T raws >>= (λ fs. ok ((name, f) ∷ fs))) e in
      let (more, e2, rest2) =
        >>=-eq-ok (parse_families T raws) (λ fs. ok ((name, one) ∷ fs)) rest1 in
      subst
        (λ fs. IsReadAs (ensured (find_entry family ((name, raw) ∷ raws))) (family_of fs family))
        (ok-injective rest2)
        (elim (Bool-cases (str_eq name family)) [
          | inl same ↦ rw (family_of, same, if◌then◌else◌) (read_one raw one e1)
          | inr ne ↦
              rw (family_of, ne, if◌then◌else◌) (parse_families-IsReadAs laws raws more e2 family)
        ])

  -- The entry that a command makes sure of is read as the state that the reader gives.
  pub ensure_family-IsReadAs :
      (laws : TextLaws T) (state : RawState) (asked : Option String) (ks : KillSwitchState)
      → load_kill_switch T (mapping state) asked ≡ ok ks
      → (family : String) → IsReadAs (ensure_family state family) (family_state ks family)
  unfolding ensure_family family_state
  ensure_family-IsReadAs laws state asked ks e family =
      let (families, st, p, _, k) = load_kill_switch-mapping T state asked ks e in
      subst (λ f. IsReadAs (ensure_family state family) f)
        (sym (family_of-with_family asked families family)
          ∙ ap (λ fs. family_of fs family) (sym (ap (λ s. s.families) k)))
        (rw (ensure_family-ensured state family)
          (parse_families-IsReadAs laws state.families families p family))
