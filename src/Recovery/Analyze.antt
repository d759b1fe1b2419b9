-- ===== src/Recovery/Analyze.antt =====
-- src/recovery.rs: the analysis of the log, and the records that undo appends.
use ccdb.Prelude.{List, ℕ, ◌∷◌, [], ◌+◌}
use ccdb.Prelude.Sets.{set_insert, set_remove, intersection}
use ccdb.Prelude.Map.{Map, lookup, insert as map_insert}
use ccdb.Prelude.Eq.{nat_eq}
use Prim.Native.Nat.{max}
use mathlib.Core.Option.{none, some}
use ccdb.Wal.{WalRecord, WalRecordType, begin, commit, abort}

-- The sets that the loop of `analyze` changes.
pub record Classes : Type 0 where
  pub active : List ℕ
  pub committed : List ℕ
  pub wrote_dml : List ℕ

pub record Analysis : Type 0 where
  pub committed : List ℕ
  pub uncommitted : List ℕ
  pub last_lsn_per_txn : Map ℕ ℕ
  pub max_lsn : ℕ
  pub max_txn_id : ℕ

-- The `match` of `analyze`.
unfoldable pub classify : ℕ → WalRecordType → Classes → Classes
classify id begin s = record s { active = set_insert id s.active }
classify id commit s = record s {
  active = set_remove id s.active;
  committed = set_insert id s.committed;
}
classify id abort s = record s { active = set_remove id s.active }
classify id (WalRecordType.insert rid bytes) s = record s { wrote_dml = set_insert id s.wrote_dml }
classify id (WalRecordType.delete rid xmax) s = record s { wrote_dml = set_insert id s.wrote_dml }
classify id (WalRecordType.index_insert index_id key rid) s = record s {
  wrote_dml = set_insert id s.wrote_dml;
}
classify id (WalRecordType.sequence_advance page_id v) s = record s {
  wrote_dml = set_insert id s.wrote_dml;
}
classify id (WalRecordType.page_init page_id kind) s = record s {
  wrote_dml = set_insert id s.wrote_dml;
}
classify id (WalRecordType.clr lsn redo) s = record s { wrote_dml = set_insert id s.wrote_dml }
classify id (WalRecordType.checkpoint att dpt) s = s

unfoldable pub classify_all : Classes → List WalRecord → Classes
classify_all s [] = s
classify_all s (r ∷ rs) = classify_all (classify r.txn_id r.record_type s) rs

unfoldable pub last_lsns : Map ℕ ℕ → List WalRecord → Map ℕ ℕ
last_lsns m [] = m
last_lsns m (r ∷ rs) = last_lsns (map_insert r.txn_id r.lsn m) rs

unfoldable pub max_of : (WalRecord → ℕ) → List WalRecord → ℕ
max_of field [] = 0
max_of field (r ∷ rs) = max (field r) (max_of field rs)

unfoldable pub analyze : List WalRecord → Analysis
analyze records =
    let s = classify_all (record { active = []; committed = []; wrote_dml = [] }) records in
    record {
      committed = s.committed;
      uncommitted = intersection s.active s.wrote_dml;
      last_lsn_per_txn = last_lsns [] records;
      max_lsn = max_of (λ r. r.lsn) records;
      max_txn_id = max_of (λ r. r.txn_id) records;
    }

-- The loop of `undo`: the records that it appends, from an LSN on.
unfoldable pub undo_records : ℕ → Map ℕ ℕ → List ℕ → List WalRecord
undo_records next_lsn last [] = []
undo_records next_lsn last (id ∷ ids) =
    let prev : ℕ = elim (lookup id last) [ none ↦ 0 | some lsn ↦ lsn ] in
    record { lsn = next_lsn; txn_id = id; prev_lsn = prev; record_type = abort }
    ∷ undo_records (next_lsn + 1) last ids

-- What `undo` appends to the log.
unfoldable pub undo : ℕ → Analysis → List WalRecord
undo next_lsn a = undo_records next_lsn a.last_lsn_per_txn a.uncommitted
