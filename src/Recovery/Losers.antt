-- ===== src/Recovery/Losers.antt =====
-- src/recovery.rs: which transactions the analysis calls losers.
use ccdb.Prelude.Sets.{
  set_contains, set_contains-set_insert, set_contains-set_remove, set_contains-intersection,
}
use ccdb.Recovery.Analyze.{classify, classify_all, analyze, Classes}
use ccdb.Prelude.{
  Bool, ℕ, true, false, List, ◌∷◌, ◌≡◌, if◌then◌else◌, ◌==◌, ◌∙◌, ◌||◌, ◌&&◌, [], arith, ap, refl,
}
use ccdb.Wal.{WalRecord, WalRecordType, begin, commit, abort}

-- The records of one transaction, followed alone: whether it is running at the end, was committed,
-- and has changed anything.
unfoldable pub runs_after : WalRecordType → Bool → Bool
runs_after begin b = true
runs_after commit b = false
runs_after abort b = false
runs_after (WalRecordType.insert rid bytes) b = b
runs_after (WalRecordType.delete rid xmax) b = b
runs_after (WalRecordType.index_insert index_id key rid) b = b
runs_after (WalRecordType.sequence_advance page_id v) b = b
runs_after (WalRecordType.page_init page_id kind) b = b
runs_after (WalRecordType.clr lsn redo) b = b
runs_after (WalRecordType.checkpoint att dpt) b = b

unfoldable pub is_commit : WalRecordType → Bool
is_commit begin = false
is_commit commit = true
is_commit abort = false
is_commit (WalRecordType.insert rid bytes) = false
is_commit (WalRecordType.delete rid xmax) = false
is_commit (WalRecordType.index_insert index_id key rid) = false
is_commit (WalRecordType.sequence_advance page_id v) = false
is_commit (WalRecordType.page_init page_id kind) = false
is_commit (WalRecordType.clr lsn redo) = false
is_commit (WalRecordType.checkpoint att dpt) = false

unfoldable pub is_change : WalRecordType → Bool
is_change begin = false
is_change commit = false
is_change abort = false
is_change (WalRecordType.insert rid bytes) = true
is_change (WalRecordType.delete rid xmax) = true
is_change (WalRecordType.index_insert index_id key rid) = true
is_change (WalRecordType.sequence_advance page_id v) = true
is_change (WalRecordType.page_init page_id kind) = true
is_change (WalRecordType.clr lsn redo) = true
is_change (WalRecordType.checkpoint att dpt) = false

unfoldable pub is_running : ℕ → Bool → List WalRecord → Bool
is_running id b [] = b
is_running id b (r ∷ rs) =
    is_running id (if id == r.txn_id then runs_after r.record_type b else b) rs

-- Some record of the transaction passes the test.
unfoldable pub has_record : (WalRecordType → Bool) → ℕ → List WalRecord → Bool
has_record test id [] = false
has_record test id (r ∷ rs) = ((id == r.txn_id) && test r.record_type) || has_record test id rs

classify-active :
    (x id : ℕ) (t : WalRecordType) (s : Classes)
    → set_contains x (classify id t s).active
      ≡ (if x == id then runs_after t (set_contains x s.active) else set_contains x s.active)
unfolding classify runs_after
classify-active x id begin s = ground (arith, set_contains-set_insert x id s.active)
classify-active x id commit s = ground (arith, set_contains-set_remove x id s.active)
classify-active x id abort s = ground (arith, set_contains-set_remove x id s.active)
classify-active x id (WalRecordType.insert rid bytes) s = ground arith
classify-active x id (WalRecordType.delete rid xmax) s = ground arith
classify-active x id (WalRecordType.index_insert index_id key rid) s = ground arith
classify-active x id (WalRecordType.sequence_advance page_id v) s = ground arith
classify-active x id (WalRecordType.page_init page_id kind) s = ground arith
classify-active x id (WalRecordType.clr lsn redo) s = ground arith
classify-active x id (WalRecordType.checkpoint att dpt) s = ground arith

classify-committed :
    (x id : ℕ) (t : WalRecordType) (s : Classes)
    → set_contains x (classify id t s).committed
      ≡ (((x == id) && is_commit t) || set_contains x s.committed)
unfolding classify is_commit
classify-committed x id begin s = ground arith
classify-committed x id commit s = ground (arith, set_contains-set_insert x id s.committed)
classify-committed x id abort s = ground arith
classify-committed x id (WalRecordType.insert rid bytes) s = ground arith
classify-committed x id (WalRecordType.delete rid xmax) s = ground arith
classify-committed x id (WalRecordType.index_insert index_id key rid) s = ground arith
classify-committed x id (WalRecordType.sequence_advance page_id v) s = ground arith
classify-committed x id (WalRecordType.page_init page_id kind) s = ground arith
classify-committed x id (WalRecordType.clr lsn redo) s = ground arith
classify-committed x id (WalRecordType.checkpoint att dpt) s = ground arith

classify-wrote_dml :
    (x id : ℕ) (t : WalRecordType) (s : Classes)
    → set_contains x (classify id t s).wrote_dml
      ≡ (((x == id) && is_change t) || set_contains x s.wrote_dml)
unfolding classify is_change
classify-wrote_dml x id begin s = ground arith
classify-wrote_dml x id commit s = ground arith
classify-wrote_dml x id abort s = ground arith
classify-wrote_dml x id (WalRecordType.insert rid bytes) s =
    ground (arith, set_contains-set_insert x id s.wrote_dml)
classify-wrote_dml x id (WalRecordType.delete rid xmax) s =
    ground (arith, set_contains-set_insert x id s.wrote_dml)
classify-wrote_dml x id (WalRecordType.index_insert index_id key rid) s =
    ground (arith, set_contains-set_insert x id s.wrote_dml)
classify-wrote_dml x id (WalRecordType.sequence_advance page_id v) s =
    ground (arith, set_contains-set_insert x id s.wrote_dml)
classify-wrote_dml x id (WalRecordType.page_init page_id kind) s =
    ground (arith, set_contains-set_insert x id s.wrote_dml)
classify-wrote_dml x id (WalRecordType.clr lsn redo) s =
    ground (arith, set_contains-set_insert x id s.wrote_dml)
classify-wrote_dml x id (WalRecordType.checkpoint att dpt) s = ground arith

classify_all-active :
    (x : ℕ) (s : Classes) (rs : List WalRecord)
    → set_contains x (classify_all s rs).active ≡ is_running x (set_contains x s.active) rs
unfolding classify_all is_running
classify_all-active x s [] = refl
classify_all-active x s (r ∷ rs) =
    classify_all-active x (classify r.txn_id r.record_type s) rs
    ∙ ap (λ b. is_running x b rs) (classify-active x r.txn_id r.record_type s)

classify_all-committed :
    (x : ℕ) (s : Classes) (rs : List WalRecord)
    → set_contains x (classify_all s rs).committed
      ≡ (has_record is_commit x rs || set_contains x s.committed)
unfolding classify_all has_record
classify_all-committed x s [] = refl
classify_all-committed x s (r ∷ rs) = ground (
  arith,
  classify_all-committed x (classify r.txn_id r.record_type s) rs,
  classify-committed x r.txn_id r.record_type s,
)

classify_all-wrote_dml :
    (x : ℕ) (s : Classes) (rs : List WalRecord)
    → set_contains x (classify_all s rs).wrote_dml
      ≡ (has_record is_change x rs || set_contains x s.wrote_dml)
unfolding classify_all has_record
classify_all-wrote_dml x s [] = refl
classify_all-wrote_dml x s (r ∷ rs) = ground (
  arith,
  classify_all-wrote_dml x (classify r.txn_id r.record_type s) rs,
  classify-wrote_dml x r.txn_id r.record_type s,
)

-- For every transaction, analyze calls it committed exactly if it has a commit record, and
-- uncommitted exactly if, following its records alone, it is running at the end and has changed
-- something.
pub analyze-is_running :
    (x : ℕ) (rs : List WalRecord)
    → (set_contains x (analyze rs).committed ≡ has_record is_commit x rs)
      × (set_contains x (analyze rs).uncommitted
          ≡ (is_running x false rs && has_record is_change x rs))
unfolding analyze set_contains
analyze-is_running x rs =
    let s : Classes = record { active = []; committed = []; wrote_dml = [] } in
    ground (
      arith,
      classify_all-active x s rs,
      classify_all-committed x s rs,
      classify_all-wrote_dml x s rs,
      set_contains-intersection x (classify_all s rs).active (classify_all s rs).wrote_dml,
    )
