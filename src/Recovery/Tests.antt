-- ===== src/Recovery/Tests.antt =====
-- src/recovery.rs: redo of two inserts and a delete on a pool of two new pages.
use ccdb.Recovery.Undo.{analyze-undo}
use ccdb.Recovery.Losers.{has_record, is_commit, is_running, is_change, analyze-is_running}
use ccdb.Recovery.Analyze.{analyze, classify_all, classify, undo}
use ccdb.Prelude.Sets.{set_contains, set_insert, intersection}
use ccdb.Prelude.Bytes.{splice, slice, le_bytes, from_le}
use ccdb.Page.{new, read_int, write_int, insert}
use ccdb.Wal.{WalRecord, WalRecordType}
use ccdb.Recovery.{Pool, redo_from, redo_record, redo_page, ensure_page_allocated, put_tuple}
use ccdb.Recovery.Redo.{redo_from-redo_from}
use ccdb.Prelude.{◌≡◌, List, [], ◌∷◌, some, none, arith, refl, ◌++◌, false, ◌&&◌}

abbrev two_pages : Pool
two_pages = record { page_count = 2; pages = new }

abbrev one_insert : List WalRecord
one_insert =
    record { lsn = 1; txn_id = 7; prev_lsn = 0; record_type = WalRecordType.begin }
    ∷ record {
      lsn = 2;
      txn_id = 7;
      prev_lsn = 1;
      record_type = WalRecordType.insert (1, 0) (104 ∷ 105 ∷ []);
    }
    ∷ []

abbrev inserted : Pool
inserted = elim (redo_from two_pages 0 one_insert) [ some q ↦ q | none ↦ two_pages ]

redo_from-one_insert : redo_from two_pages 0 one_insert ≡ some inserted
unfolding redo_from redo_record redo_page ensure_page_allocated put_tuple new read_int write_int
    slice splice le_bytes from_le insert
redo_from-one_insert = refl

redo_from-redo_from_example : redo_from inserted 0 one_insert ≡ some inserted
redo_from-redo_from_example =
    redo_from-redo_from one_insert 0 two_pages inserted
      (omega arith, tt, (omega arith, omega arith, tt)) redo_from-one_insert

analyze-is_running_example :
    (set_contains 7 (analyze one_insert).committed ≡ has_record is_commit 7 one_insert)
    × (set_contains 7 (analyze one_insert).uncommitted
        ≡ (is_running 7 false one_insert && has_record is_change 7 one_insert))
analyze-is_running_example = analyze-is_running 7 one_insert

seven_lost : (analyze one_insert).uncommitted ≡ 7 ∷ []
unfolding analyze classify_all classify set_insert set_contains intersection
seven_lost = refl

analyze-undo_example :
    (set_contains 7 (analyze (one_insert ++ undo 3 (analyze one_insert))).uncommitted ≡ false)
    × (set_contains 7 (analyze (one_insert ++ undo 3 (analyze one_insert))).committed
        ≡ set_contains 7 (analyze one_insert).committed)
analyze-undo_example = analyze-undo 7 3 one_insert
