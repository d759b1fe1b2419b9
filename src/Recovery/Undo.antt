-- ===== src/Recovery/Undo.antt =====
-- src/recovery.rs: what a second recovery finds after undo has appended its records.
use ccdb.Prelude.Map.{Map}
use ccdb.Recovery.Analyze.{undo, undo_records, analyze}
use ccdb.Prelude.{
  ℕ, Bool, ◌≡◌, List, ◌++◌, false, ◌∷◌, ◌||◌, refl, [], arith, not, ◌∙◌, ◌&&◌, ◌+◌, ◌==◌,
  if◌then◌else◌,
}
use ccdb.Recovery.Losers.{
  is_running, has_record, is_change, is_commit, runs_after, analyze-is_running,
}
use ccdb.Prelude.Sets.{set_contains}
use ccdb.Wal.{WalRecord, WalRecordType, abort}

is_running-append :
    (x : ℕ) (rs ss : List WalRecord) (b : Bool)
    → is_running x b (rs ++ ss) ≡ is_running x (is_running x b rs) ss
unfolding is_running
is_running-append x [] ss b = refl
is_running-append x (r ∷ rs) ss b = is_running-append x rs ss _

has_record-append :
    (test : WalRecordType → Bool) (x : ℕ) (rs ss : List WalRecord)
    → has_record test x (rs ++ ss) ≡ (has_record test x rs || has_record test x ss)
unfolding has_record
has_record-append test x [] ss = refl
has_record-append test x (r ∷ rs) ss = ground (arith, has_record-append test x rs ss)

module _ (x : ℕ) (last : Map ℕ ℕ) where
  is_running-undo_records :
      (ids : List ℕ) (next_lsn : ℕ) (b : Bool)
      → is_running x b (undo_records next_lsn last ids) ≡ (not (set_contains x ids) && b)
  unfolding is_running undo_records runs_after set_contains
  is_running-undo_records [] next_lsn b = refl
  is_running-undo_records (id ∷ ids) next_lsn b =
      ground (arith, is_running-undo_records ids (next_lsn + 1) (if x == id then false else b))

  has_record-undo_records :
      (test : WalRecordType → Bool) (ids : List ℕ) (next_lsn : ℕ)
      → test abort ≡ false
      → has_record test x (undo_records next_lsn last ids) ≡ false
  unfolding has_record undo_records
  has_record-undo_records test [] next_lsn h = refl
  has_record-undo_records test (id ∷ ids) next_lsn h =
      ground (arith, h, has_record-undo_records test ids (next_lsn + 1) h)

no_change : is_change abort ≡ false
unfolding is_change
no_change = refl

no_commit : is_commit abort ≡ false
unfolding is_commit
no_commit = refl

-- When the records that undo appends are behind the log, a second analysis finds no uncommitted
-- transaction, and the same committed ones.
pub analyze-undo :
    (x next_lsn : ℕ) (rs : List WalRecord)
    → (set_contains x (analyze (rs ++ undo next_lsn (analyze rs))).uncommitted ≡ false)
      × (set_contains x (analyze (rs ++ undo next_lsn (analyze rs))).committed
          ≡ set_contains x (analyze rs).committed)
unfolding undo
analyze-undo x next_lsn rs =
    let a = analyze rs in
    let ss = undo_records next_lsn a.last_lsn_per_txn a.uncommitted in
    let (committed, uncommitted) = analyze-is_running x rs in
    let (committed', uncommitted') = analyze-is_running x (rs ++ ss) in
    let runs =
      is_running-append x rs ss false
      ∙ is_running-undo_records x a.last_lsn_per_txn a.uncommitted next_lsn
          (is_running x false rs) in
    let changes = has_record-append is_change x rs ss in
    let commits = has_record-append is_commit x rs ss in
    let no_changes =
      has_record-undo_records x a.last_lsn_per_txn is_change a.uncommitted next_lsn no_change in
    let no_commits =
      has_record-undo_records x a.last_lsn_per_txn is_commit a.uncommitted next_lsn no_commit in
    (
      uncommitted' ∙ ground (arith, runs, uncommitted, changes, no_changes),
      committed' ∙ commits ∙ ground (arith, no_commits, committed),
    )
