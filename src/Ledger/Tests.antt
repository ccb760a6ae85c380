-- ===== src/Ledger/Tests.antt =====
-- A decision recorded twice, and the theorems at it.
use Prim.Native.String.{◌++◌ as ◌<>◌}
use multi_desk_trading.Common.{String, ℕ, some, ◌≡◌, ◌≤◌, refl, none, [], ◌∷◌, ok, err, arith}
use multi_desk_trading.Common.Int.{pos}
use multi_desk_trading.Common.Time.{aware}
use multi_desk_trading.Ledger.{
  LedgerOps, Decision, DecisionRow, conflict, find_row, new_row, record_of, record_decision,
}
use multi_desk_trading.Ledger.Executions.{
  Execution, ExecutionRow, new_execution, find_execution, record_tick, latest, unknown_decision,
  record_tick_again,
}
use multi_desk_trading.Ledger.Decisions.{row_count, record_decision_at_most, record_decision_again}

-- Texts as their own digests, and one list of identifiers with its text.
abbrev plain : LedgerOps
plain = record { sha256_hex = λ s. s; json_of = λ texts. "ids"; loads = λ s. "f1" ∷ [] }

abbrev long : Decision
long = record {
  family = "oil";
  decision_ts = aware (pos 100);
  json = "{\"target_risk_budget\":0.5}";
}

abbrev long_row : DecisionRow
long_row = new_row plain long none ("f1" ∷ []) "{}" (aware (pos 101)) (pos 102)

long-recorded :
    record_decision plain [] long none ("f1" ∷ []) "{}" (aware (pos 101)) (pos 102)
    ≡ ok (long_row ∷ [], record_of plain long_row ("f1" ∷ []))
unfolding record_decision find_row
long-recorded = refl

record_decision_again_example :
    record_decision plain (long_row ∷ []) long none ("f1" ∷ []) "{}" (aware (pos 201)) (pos 202)
    ≡ ok (long_row ∷ [], record_of plain long_row ("f1" ∷ []))
record_decision_again_example =
    record_decision_again plain [] long none ("f1" ∷ []) "{}" (aware (pos 101)) (pos 102)
      (long_row ∷ []) (record_of plain long_row ("f1" ∷ [])) long-recorded refl (aware (pos 201))
      (pos 202)

record_decision_at_most_example : row_count "oil" (pos 100) (long_row ∷ []) ≤ 1
record_decision_at_most_example =
    record_decision_at_most plain [] long none ("f1" ∷ []) "{}" (aware (pos 101)) (pos 102)
      (long_row ∷ []) (record_of plain long_row ("f1" ∷ [])) long-recorded "oil" (pos 100)
      (omega arith)

-- The same family and time with another decision is a conflict.
abbrev short : Decision
short = record long { json = "{\"target_risk_budget\":-0.5}" }

short-conflict :
    record_decision plain (long_row ∷ []) short none ("f1" ∷ []) "{}" (aware (pos 101)) (pos 102)
    ≡ err conflict
unfolding record_decision find_row
short-conflict = refl

-- The execution of the decision, with its lots as the columns that are carried.
abbrev fill : Execution ℕ
fill = record {
  decision_id = some long_row.decision_id;
  family = "oil";
  decision_ts = aware (pos 100);
  scenario = "base";
  columns = 3;
}

abbrev tick_hash : Execution ℕ → String
tick_hash tick = tick.family <> "/" <> tick.scenario

abbrev fill_row : ExecutionRow ℕ
fill_row = new_execution ℕ tick_hash fill (pos 103)

fill-recorded :
    record_tick ℕ tick_hash (long_row ∷ []) [] fill (pos 103)
    ≡ ok (fill_row ∷ [], fill_row.execution_id)
unfolding record_tick find_execution find_row
fill-recorded = refl

record_tick_again_example :
    record_tick ℕ tick_hash (long_row ∷ []) (fill_row ∷ []) fill (pos 203)
    ≡ ok (fill_row ∷ [], fill_row.execution_id)
record_tick_again_example =
    record_tick_again ℕ tick_hash (long_row ∷ []) [] (fill_row ∷ []) fill (pos 103) (pos 203)
      fill_row.execution_id fill-recorded

-- A tick needs its decision in the table of decisions.
fill-unknown : record_tick ℕ tick_hash [] [] fill (pos 103) ≡ err unknown_decision
unfolding record_tick find_execution
fill-unknown = refl

latest-fill : latest ℕ (fill_row ∷ []) "oil" "base" ≡ some fill_row
unfolding latest
latest-fill = refl
