-- ===== src/Ledger.antt =====
-- The runtime ledger of paper-live decisions, v2/execution/simulator.py. The SHA-256 digest, JSON and the
-- clock are arguments; a decision is given with its canonical JSON.
pub mod Decisions
pub mod Executions
mod Tests
use text.Mathlib.Text.{◌==◌ as str_eq}
use Prim.Native.String.{slice, ◌++◌ as ◌<>◌}
use multi_desk_trading.Common.{
  String, Bool, true, false, ◌&&◌, ◌||◌, ◌≡◌, Option, none, some, List, [], ◌∷◌, ◌++◌, Result, ok,
  err, if◌then◌else◌,
}
use multi_desk_trading.Common.Int.{ℤ, leb_ℤ}
use multi_desk_trading.Common.Time.{Datetime, micros}

-- What the ledger uses of hashlib and of json: `_sha256_hex`, `_canonical_json` of a list of texts, and
-- `json.loads` of such a list.
pub record LedgerOps : Type 0 where
  pub sha256_hex : String → String
  pub json_of : List String → String
  pub loads : String → List String

-- A row that exists with other content, or another row with the identifier.
pub data LedgerError : Type 0 where
  conflict duplicate_key : LedgerError

-- The family, the time and the canonical JSON of a DecisionV2.
pub record Decision : Type 0 where
  pub family : String
  pub decision_ts : Datetime
  pub json : String

-- A row of `family_decisions`; times are naive and in UTC.
pub record DecisionRow : Type 0 where
  pub decision_id : String
  pub family : String
  pub decision_ts : ℤ
  pub emitted_ts : ℤ
  pub decision_json : String
  pub decision_hash : String
  pub family_forecast_hash : Option String
  pub forecast_ids_json : String
  pub kill_switch_json : String
  pub kill_switch_hash : String
  pub created_at : ℤ

pub record DecisionRecord : Type 0 where
  pub decision_id : String
  pub decision_hash : String
  pub family_forecast_hash : Option String
  pub forecast_ids : List String
  pub kill_switch_hash : String

abbrev pub eq_ℤ : ℤ → ℤ → Bool
eq_ℤ a b = leb_ℤ a b && leb_ℤ b a

abbrev pub eq_option : Option String → Option String → Bool
eq_option none none = true
eq_option none (some b) = false
eq_option (some a) none = false
eq_option (some a) (some b) = str_eq a b

-- `family = ? AND decision_ts = ?`
abbrev pub is_for : String → ℤ → DecisionRow → Bool
is_for family ts row = str_eq row.family family && eq_ℤ row.decision_ts ts

unfoldable pub find_row : List DecisionRow → String → ℤ → Option DecisionRow
find_row [] family ts = none
find_row (row ∷ rows) family ts = if is_for family ts row then some row else find_row rows family ts

-- A row has the identifier, which is the table's primary key.
abbrev pub has_row : String → List DecisionRow → Bool
has_row key [] = false
has_row key (row ∷ rows) = str_eq row.decision_id key || has_row key rows

-- The stored row is the one that would be written, but for the two operational times and the JSON.
abbrev pub is_same : DecisionRow → DecisionRow → Bool
is_same row new =
    str_eq row.decision_id new.decision_id
    && str_eq row.decision_hash new.decision_hash
    && eq_option row.family_forecast_hash new.family_forecast_hash
    && str_eq row.forecast_ids_json new.forecast_ids_json
    && str_eq row.kill_switch_hash new.kill_switch_hash

module _ (O : LedgerOps) where
  -- The values of the `INSERT`.
  abbrev pub new_row : Decision → Option String → List String → String → Datetime → ℤ → DecisionRow
  new_row decision forecast_hash forecast_ids kill_switch_json emitted now = record {
    decision_id = "dec_" <> slice (O.sha256_hex decision.json) 0 16;
    family = decision.family;
    decision_ts = micros decision.decision_ts;
    emitted_ts = micros emitted;
    decision_json = decision.json;
    decision_hash = O.sha256_hex decision.json;
    family_forecast_hash = forecast_hash;
    forecast_ids_json = O.json_of forecast_ids;
    kill_switch_json = kill_switch_json;
    kill_switch_hash = O.sha256_hex kill_switch_json;
    created_at = now;
  }

  abbrev pub record_of : DecisionRow → List String → DecisionRecord
  record_of row forecast_ids = record {
    decision_id = row.decision_id;
    decision_hash = row.decision_hash;
    family_forecast_hash = row.family_forecast_hash;
    forecast_ids = forecast_ids;
    kill_switch_hash = row.kill_switch_hash;
  }

  unfoldable pub record_decision :
      List DecisionRow
      → Decision
      → Option String
      → List String
      → String
      → Datetime
      → ℤ
      → Result LedgerError (List DecisionRow × DecisionRecord)
  unfolding find_row
  record_decision table decision forecast_hash forecast_ids kill_switch_json emitted now =
      let new = new_row decision forecast_hash forecast_ids kill_switch_json emitted now in
      elim (find_row table decision.family (micros decision.decision_ts)) [
        | some row ↦
            if is_same row new
            then ok (table, record_of row (O.loads row.forecast_ids_json))
            else err conflict
        | none ↦
            if has_row new.decision_id table
            then err duplicate_key
            else ok (table ++ new ∷ [], record_of new forecast_ids)
      ]
