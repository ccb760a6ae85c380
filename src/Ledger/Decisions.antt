-- ===== src/Ledger/Decisions.antt =====
-- One decision for each family and time, recorded once.
use text.Mathlib.Text.{◌==◌ as str_eq}
use text.Mathlib.TextEquality.{eq_iff}
use multi_desk_trading.Common.{
  String, ℕ, suc, ◌+◌, ◌≤◌, true, ◌≡◌, ◌⊎◌, refl, sym, ap, ◌∙◌, inl, inr, Option, none, some, List,
  [], ◌∷◌, ◌++◌, ok, if◌then◌else◌, arith, Bool-cases, Option-cases,
}
use multi_desk_trading.Common.Int.{ℤ, eq_of_parts}
use multi_desk_trading.Common.Time.{Datetime, micros}
use multi_desk_trading.Ledger.{
  LedgerOps, Decision, DecisionRow, DecisionRecord, eq_ℤ, eq_option, is_for, find_row, has_row,
  is_same, new_row, record_of, record_decision,
}

-- The number of rows of a family at a time.
abbrev pub row_count : String → ℤ → List DecisionRow → ℕ
row_count family ts [] = 0
row_count family ts (row ∷ rows) =
    if is_for family ts row then suc (row_count family ts rows) else row_count family ts rows

row_count-find_row :
    (family : String) (ts : ℤ) (table : List DecisionRow)
    → find_row table family ts ≡ none
    → row_count family ts table ≡ 0
unfolding find_row
row_count-find_row family ts [] e = refl
row_count-find_row family ts (row ∷ rows) e = ground (arith, row_count-find_row family ts rows)

row_count-append :
    (family : String) (ts : ℤ) (table : List DecisionRow) (row : DecisionRow)
    → row_count family ts (table ++ row ∷ [])
      ≡ row_count family ts table + row_count family ts (row ∷ [])
row_count-append family ts [] row = omega arith
row_count-append family ts (first ∷ rows) row = ground (arith, row_count-append family ts rows row)

find_row-append :
    (family : String) (ts : ℤ) (table : List DecisionRow) (row : DecisionRow)
    → find_row table family ts ≡ none
    → is_for family ts row ≡ true
    → find_row (table ++ row ∷ []) family ts ≡ some row
unfolding find_row
find_row-append family ts [] row e h = rw h
find_row-append family ts (first ∷ rows) row e h =
    ground (arith, find_row-append family ts rows row)

eq_option_self : (a : Option String) → eq_option a a ≡ true
eq_option_self none = refl
eq_option_self (some a) = ground (arith, eq_iff a a)

equal_ℤ : (a b : ℤ) → eq_ℤ a b ≡ true → a ≡ b
equal_ℤ a b h = eq_of_parts a b (ground arith)

row_count_same :
    (family family' : String) (ts ts' : ℤ) (table : List DecisionRow)
    → str_eq family family' ≡ true
    → eq_ℤ ts ts' ≡ true
    → row_count family' ts' table ≡ row_count family ts table
row_count_same family family' ts ts' table e e' =
    rw (sym ((eq_iff family family').0 e), sym (equal_ℤ ts ts' e'))

eq_ℤ_self : (a : ℤ) → eq_ℤ a a ≡ true
eq_ℤ_self a = ground arith

module _ (O : LedgerOps) (table : List DecisionRow) (decision : Decision)
    (forecast_hash : Option String) (forecast_ids : List String) (kill_switch_json : String) where
  abbrev row_at : Datetime → ℤ → DecisionRow
  row_at emitted now = new_row O decision forecast_hash forecast_ids kill_switch_json emitted now

  -- The two ways in which a call returns: the row is there already, or it is added.
  abbrev IsRecorded : Datetime → ℤ → List DecisionRow → DecisionRecord → Type 0
  IsRecorded emitted now table' entry =
      ((row : DecisionRow) × (find_row table decision.family (micros decision.decision_ts)
          ≡ some row)
        × (is_same row (row_at emitted now) ≡ true)
        × (table' ≡ table)
        × (entry ≡ record_of O row (O.loads row.forecast_ids_json)))
      ⊎ ((find_row table decision.family (micros decision.decision_ts) ≡ none)
          × (table' ≡ table ++ row_at emitted now ∷ [])
          × (entry ≡ record_of O (row_at emitted now) forecast_ids))

  record_decision-IsRecorded :
      (emitted : Datetime) (now : ℤ) (table' : List DecisionRow) (entry : DecisionRecord)
      → record_decision O table decision forecast_hash forecast_ids kill_switch_json emitted now
        ≡ ok (table', entry)
      → IsRecorded emitted now table' entry
  unfolding record_decision
  record_decision-IsRecorded emitted now table' entry e =
      elim (Option-cases (find_row table decision.family (micros decision.decision_ts))) [
        | inr (row, f) ↦ elim (Bool-cases (is_same row (row_at emitted now))) [
          | inl s ↦ inl (row, f, s, ground arith, ground arith)
          | inr s ↦ ground arith
        ]
        | inl f ↦ elim (Bool-cases (has_row (row_at emitted now).decision_id table)) [
          | inl k ↦ ground arith
          | inr k ↦ inr (f, ground arith, ground arith)
        ]
      ]

  -- Where a family and a time have at most one row, they have at most one after a call that returned
  -- too.
  pub record_decision_at_most :
      (emitted : Datetime) (now : ℤ) (table' : List DecisionRow) (entry : DecisionRecord)
      → record_decision O table decision forecast_hash forecast_ids kill_switch_json emitted now
        ≡ ok (table', entry)
      → (family : String) (ts : ℤ) → row_count family ts table ≤ 1
      → row_count family ts table' ≤ 1
  record_decision_at_most emitted now table' entry e family ts h =
      elim (record_decision-IsRecorded emitted now table' entry e) [
        | inl (row, _, _, same, _) ↦ ground (arith, same)
        | inr (free, added, _) ↦ elim (Bool-cases (is_for family ts (row_at emitted now))) [
          | inr other ↦
              ground (arith, added, other, row_count-append family ts table (row_at emitted now))
          | inl this ↦ ground (
            arith,
            added,
            this,
            row_count-append family ts table (row_at emitted now),
            row_count-find_row decision.family (micros decision.decision_ts) table free,
            row_count_same decision.family family (micros decision.decision_ts) ts table
                (ground arith) (ground arith),
          )
        ]
      ]

  is_same_self : (row : DecisionRow) → is_same row row ≡ true
  is_same_self row = ground (
    arith,
    eq_iff row.decision_id row.decision_id,
    eq_iff row.decision_hash row.decision_hash,
    eq_option_self row.family_forecast_hash,
    eq_iff row.forecast_ids_json row.forecast_ids_json,
    eq_iff row.kill_switch_hash row.kill_switch_hash,
  )

  -- A row that is there with the same content is returned.
  found_again :
      (rows : List DecisionRow) (row : DecisionRow) (emitted : Datetime) (now : ℤ)
      → find_row rows decision.family (micros decision.decision_ts) ≡ some row
      → is_same row (row_at emitted now) ≡ true
      → record_decision O rows decision forecast_hash forecast_ids kill_switch_json emitted now
        ≡ ok (rows, record_of O row (O.loads row.forecast_ids_json))
  unfolding record_decision
  found_again rows row emitted now found same = rw (record_decision, found, same, if◌then◌else◌)

  -- Where a call returned and json.loads reads its forecasts back as they were written, a later call with
  -- the same decision, forecasts and kill switch, at whatever times, returns the same record and leaves
  -- the table as it is.
  pub record_decision_again :
      (emitted : Datetime) (now : ℤ) (table' : List DecisionRow) (entry : DecisionRecord)
      → record_decision O table decision forecast_hash forecast_ids kill_switch_json emitted now
        ≡ ok (table', entry)
      → O.loads (O.json_of forecast_ids) ≡ forecast_ids
      → (emitted' : Datetime) (now' : ℤ)
      → record_decision O table' decision forecast_hash forecast_ids kill_switch_json emitted' now'
        ≡ ok (table', entry)
  record_decision_again emitted now table' entry e read_back emitted' now' =
      elim (record_decision-IsRecorded emitted now table' entry e) [
        | inl (row, found, same, t, r) ↦
            rerun table' entry t r (found_again table row emitted' now' found same)
        | inr (free, t, r) ↦
            rerun table' entry t (r ∙ ap (record_of O (row_at emitted now)) (sym read_back)) (
              found_again (table ++ row_at emitted now ∷ []) (row_at emitted now) emitted' now'
                (find_row-append decision.family (micros decision.decision_ts) table
                  (row_at emitted now) free
                  (ground (
                    arith,
                    eq_iff decision.family decision.family,
                    eq_ℤ_self (micros decision.decision_ts),
                  )))
                (is_same_self (row_at emitted now)))
      ]
    where
      rerun :
          (table' : List DecisionRow) (entry : DecisionRecord) {after : List DecisionRow}
          {given : DecisionRecord}
          → table' ≡ after
          → entry ≡ given
          → record_decision O after decision forecast_hash forecast_ids kill_switch_json emitted'
              now'
            ≡ ok (after, given)
          → record_decision O table' decision forecast_hash forecast_ids kill_switch_json emitted'
              now'
            ≡ ok (table', entry)
      rerun table' entry t r again = rw (t, r) again
