-- ===== src/Ledger/Executions.antt =====
-- The execution rows of the ledger: `record_tick` and `latest`, and the counts of rows. The columns that
-- a row only carries are a type of their own, and the hash of a record, with its JSON, is an argument.
use text.Mathlib.Text.{◌==◌ as str_eq}
use text.Mathlib.TextEquality.{eq_iff}
use Prim.Native.String.{slice, ◌++◌ as ◌<>◌}
use multi_desk_trading.Common.{
  String, Bool, true, false, ◌&&◌, ◌||◌, ◌≡◌, subst, inl, inr, ℕ, Option, none, some, List, [], ◌∷◌,
  ◌++◌, Result, ok, err, raise_if, ◌>>◌, ok-injective, if◌then◌else◌, arith, Bool-cases,
  Option-cases, keep, length,
}
use multi_desk_trading.Common.Int.{ℤ, leb_ℤ, ltb_ℤ}
use multi_desk_trading.Common.Time.{Datetime, micros}
use multi_desk_trading.Ledger.{DecisionRow, eq_ℤ, has_row}

-- The decision's identifier is missing, or is not in the table of decisions; a row of other content
-- exists; or another row has the identifier.
pub data ExecutionError : Type 0 where
  missing_decision unknown_decision execution_conflict duplicate_execution : ExecutionError

module _ (Columns : Type 0) where
  -- A LedgerRecord; the scenario is its text.
  pub record Execution : Type 0 where
    pub decision_id : Option String
    pub family : String
    pub decision_ts : Datetime
    pub scenario : String
    pub columns : Columns

  -- A row of `execution_ledger`.
  pub record ExecutionRow : Type 0 where
    pub execution_id : String
    pub execution_hash : String
    pub decision_id : String
    pub family : String
    pub decision_ts : ℤ
    pub scenario : String
    pub columns : Columns
    pub created_at : ℤ

  -- `family = ? AND scenario = ?`
  abbrev pub is_of : String → String → ExecutionRow → Bool
  is_of family scenario row = str_eq row.family family && str_eq row.scenario scenario

  -- `family = ? AND decision_ts = ? AND scenario = ?`
  unfoldable pub find_execution : List ExecutionRow → String → ℤ → String → Option ExecutionRow
  find_execution [] family ts scenario = none
  find_execution (row ∷ rows) family ts scenario =
      if is_of family scenario row && eq_ℤ row.decision_ts ts
      then some row
      else find_execution rows family ts scenario

  abbrev pub has_execution : String → List ExecutionRow → Bool
  has_execution key [] = false
  has_execution key (row ∷ rows) = str_eq row.execution_id key || has_execution key rows

  -- `not record.decision_id`
  abbrev pub is_missing : Option String → Bool
  is_missing none = true
  is_missing (some id) = str_eq id ""

  abbrev pub text_or_empty : Option String → String
  text_or_empty none = ""
  text_or_empty (some id) = id

  module _ (execution_hash_for : Execution → String) where
    abbrev pub execution_id_for : Execution → String
    execution_id_for tick = "exec_" <> slice (execution_hash_for tick) 0 16

    -- The values of the `INSERT`.
    abbrev pub new_execution : Execution → ℤ → ExecutionRow
    new_execution tick now = record {
      execution_id = execution_id_for tick;
      execution_hash = execution_hash_for tick;
      decision_id = text_or_empty tick.decision_id;
      family = tick.family;
      decision_ts = micros tick.decision_ts;
      scenario = tick.scenario;
      columns = tick.columns;
      created_at = now;
    }

    unfoldable pub record_tick :
        List DecisionRow
        → List ExecutionRow
        → Execution
        → ℤ
        → Result ExecutionError (List ExecutionRow × String)
    unfolding find_execution
    record_tick decisions table tick now = do
      raise_if (is_missing tick.decision_id) missing_decision
      elim (find_execution table tick.family (micros tick.decision_ts) tick.scenario) [
        | some row ↦
            if str_eq row.execution_id (execution_id_for tick)
              && str_eq row.execution_hash (execution_hash_for tick)
            then ok (table, row.execution_id)
            else err execution_conflict
        | none ↦ do
          raise_if (has_execution (execution_id_for tick) table) duplicate_execution
          if has_row (text_or_empty tick.decision_id) decisions
              then ok (table ++ new_execution tick now ∷ [], execution_id_for tick)
              else err unknown_decision
      ]

  -- `ORDER BY decision_ts DESC LIMIT 1`
  unfoldable pub latest : List ExecutionRow → String → String → Option ExecutionRow
  latest [] family scenario = none
  latest (row ∷ rows) family scenario =
      let rest = latest rows family scenario in
      if is_of family scenario row
      then elim rest [
        | none ↦ some row
        | some other ↦ if ltb_ℤ row.decision_ts other.decision_ts then some other else some row
      ]
      else rest

  -- `counts` and `counts_through`, as the numbers of decisions and of executions.
  abbrev pub counts : List DecisionRow → List ExecutionRow → ℕ × ℕ
  counts decisions table = (length decisions, length table)

  abbrev pub counts_through : List DecisionRow → List ExecutionRow → Datetime → ℕ × ℕ
  counts_through decisions table ts = (
    length (keep (λ row. leb_ℤ row.decision_ts (micros ts)) decisions),
    length (keep (λ row. leb_ℤ row.decision_ts (micros ts)) table),
  )

  find_execution-append :
      (table : List ExecutionRow) (row : ExecutionRow) (family : String) (ts : ℤ)
      (scenario : String)
      → find_execution table family ts scenario ≡ none
      → (is_of family scenario row && eq_ℤ row.decision_ts ts) ≡ true
      → find_execution (table ++ row ∷ []) family ts scenario ≡ some row
  unfolding find_execution
  find_execution-append [] row family ts scenario h k = rw k
  find_execution-append (first ∷ rows) row family ts scenario h k =
      ground (arith, find_execution-append rows row family ts scenario)

  module _ (execution_hash_for : Execution → String) where
    -- The row that is there is the tick's.
    abbrev pub is_stored : Execution → ExecutionRow → Bool
    is_stored tick row =
        str_eq row.execution_id (execution_id_for execution_hash_for tick)
        && str_eq row.execution_hash (execution_hash_for tick)

    recorded_already :
        (decisions : List DecisionRow) (table : List ExecutionRow) (tick : Execution) (now : ℤ)
        (row : ExecutionRow)
        → is_missing tick.decision_id ≡ false
        → find_execution table tick.family (micros tick.decision_ts) tick.scenario ≡ some row
        → is_stored tick row ≡ true
        → record_tick execution_hash_for decisions table tick now ≡ ok (table, row.execution_id)
    unfolding record_tick
    recorded_already decisions table tick now row given found stored =
        rw (record_tick, given, found, stored)

    again_at :
        (decisions : List DecisionRow) (tick : Execution) (now : ℤ)
        (stored table' : List ExecutionRow) (key id : String)
        → ◌≡◌ {A = Result ExecutionError (List ExecutionRow × String)}
            (ok (stored, key))
            (ok (table', id))
        → record_tick execution_hash_for decisions stored tick now ≡ ok (stored, key)
        → record_tick execution_hash_for decisions table' tick now ≡ ok (table', id)
    again_at decisions tick now stored table' key id e again =
        subst (λ out. record_tick execution_hash_for decisions out.0 tick now ≡ ok out)
          (ok-injective e) again

    added_again :
        (decisions : List DecisionRow) (table : List ExecutionRow) (tick : Execution) (now now' : ℤ)
        → is_missing tick.decision_id ≡ false
        → find_execution table tick.family (micros tick.decision_ts) tick.scenario ≡ none
        → record_tick execution_hash_for decisions
            (table ++ new_execution execution_hash_for tick now ∷ [])
            tick
            now'
          ≡ ok (
            table ++ new_execution execution_hash_for tick now ∷ [],
            execution_id_for execution_hash_for tick,
          )
    added_again decisions table tick now now' given free =
        let row = new_execution execution_hash_for tick now in
        recorded_already decisions (table ++ row ∷ []) tick now' row given
          (find_execution-append table row tick.family (micros tick.decision_ts) tick.scenario free
            (ground (arith, eq_iff tick.family tick.family, eq_iff tick.scenario tick.scenario)))
          (ground (
            arith,
            eq_iff (execution_id_for execution_hash_for tick)
                (execution_id_for execution_hash_for tick),
            eq_iff (execution_hash_for tick) (execution_hash_for tick),
          ))

    -- Where a tick is recorded, recording it again, at whatever time, returns the same identifier and
    -- leaves the table as it is.
    pub record_tick_again :
        (decisions : List DecisionRow) (table table' : List ExecutionRow) (tick : Execution)
        (now now' : ℤ) (id : String)
        → record_tick execution_hash_for decisions table tick now ≡ ok (table', id)
        → record_tick execution_hash_for decisions table' tick now' ≡ ok (table', id)
    unfolding record_tick
    record_tick_again decisions table table' tick now now' id h =
        elim (Bool-cases (is_missing tick.decision_id)) [
          | inl missing ↦ absurd (cc (rw (record_tick, missing) at h))
          | inr given ↦
              elim (Option-cases
                (find_execution table tick.family (micros tick.decision_ts) tick.scenario)) [
                  | inr (row, found) ↦ elim (Bool-cases (is_stored tick row)) [
                    | inl stored ↦
                        again_at decisions tick now' table table' row.execution_id id
                          (rw (record_tick, given, found, stored) at h)
                          (recorded_already decisions table tick now' row given found stored)
                    | inr other ↦ absurd (cc (rw (record_tick, given, found, other) at h))
                  ]
                  | inl free ↦
                      elim (Bool-cases
                        (has_execution (execution_id_for execution_hash_for tick) table)) [
                          | inl taken ↦ absurd (cc (rw (record_tick, given, free, taken) at h))
                          | inr fresh ↦
                              elim (Bool-cases
                                (has_row (text_or_empty tick.decision_id) decisions)) [
                                  | inr unknown ↦
                                      absurd
                                        (cc (rw (record_tick, given, free, fresh, unknown) at h))
                                  | inl known ↦
                                      again_at decisions tick now'
                                        (table ++ new_execution execution_hash_for tick now ∷ [])
                                        table' (execution_id_for execution_hash_for tick) id
                                        (rw (record_tick, given, free, fresh, known) at h)
                                        (added_again decisions table tick now now' given free)
                                ]
                        ]
                ]
        ]
