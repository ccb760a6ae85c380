-- ===== src/Common/Dict.antt =====
-- A dictionary with text keys as the list of its entries, in the order of their insertion.
use text.Mathlib.Text.{◌==◌ as str_eq}
use text.Mathlib.TextEquality.{eq_iff}
use mathlib.Core.Path.{◌≡◌}
use mathlib.Core.Logic.{inl, inr}
use mathlib.Core.Bool.{true, false}
use mathlib.Core.Option.{Option, none, some}
use mathlib.Core.List.{List, [], ◌∷◌}
use Prim.Native.String.{String}
use native.Mathlib.Omega.{arith}
use multi_desk_trading.Common.Tests.{if◌then◌else◌, Bool-cases}

module _ {ℓ} {A : Type ℓ} where
  -- `d.get(key)`
  abbrev pub find_entry : String → List (String × A) → Option A
  find_entry key [] = none
  find_entry key ((name, a) ∷ rest) = if str_eq name key then some a else find_entry key rest

  -- `d[key] = a`
  abbrev pub set_entry : String → A → List (String × A) → List (String × A)
  set_entry key a [] = (key, a) ∷ []
  set_entry key a ((name, b) ∷ rest) =
      if str_eq name key then (name, a) ∷ rest else (name, b) ∷ set_entry key a rest

  pub find_entry-set_entry :
      (key : String) (a : A) (d : List (String × A)) → find_entry key (set_entry key a d) ≡ some a
  find_entry-set_entry key a [] = ground (arith, eq_iff key key)
  find_entry-set_entry key a ((name, b) ∷ rest) = elim (Bool-cases (str_eq name key)) [
    | inl e ↦ rw (e, if◌then◌else◌, find_entry, e, if◌then◌else◌)
    | inr e ↦ rw (e, if◌then◌else◌, find_entry, e, if◌then◌else◌, find_entry-set_entry key a rest)
  ]

  pub find_entry-set_entry_ne :
      (key other : String) (a : A) (d : List (String × A))
      → str_eq key other ≡ false
      → find_entry other (set_entry key a d) ≡ find_entry other d
  find_entry-set_entry_ne key other a [] ne = rw (ne, if◌then◌else◌)
  find_entry-set_entry_ne key other a ((name, b) ∷ rest) ne = elim (Bool-cases (str_eq name key)) [
    | inl e ↦ rw (e, if◌then◌else◌, differs e)
    | inr e ↦ rw (e, if◌then◌else◌, find_entry-set_entry_ne key other a rest ne)
  ]
    where
      differs : str_eq name key ≡ true → str_eq name other ≡ false
      differs e = ground (arith, eq_iff name key)
