-- ===== src/Recovery.antt =====
-- src/recovery.rs: the redo pass over the log. The buffer pool is the number of allocated pages and
-- their bytes: fetching does not fail, and there are no recycled pages when the process starts.
pub mod Redo
pub mod Analyze
pub mod Losers
pub mod Undo
mod Tests
use ccdb.Prelude.Bytes.{Bytes}
use ccdb.Page.{
  PageKind, heap, btree_leaf, btree_internal, sequence_rel, insert, delete, restore, get_tuple,
  set_tuple_xmax, tuple_count, page_lsn, set_page_lsn, kind_of_byte, set_page_kind, new,
}
use ccdb.Wal.{WalRecord, WalRecordType, ClrRedo, Rid, undo_insert, undo_delete}
use ccdb.Sequence.{init_sequence_page, is_sequence, write_state}
use ccdb.Prelude.Int.{ℤ, pos}
use ccdb.Prelude.{
  ℕ, zero, suc, ◌+◌, ◌-◌, Bool, true, false, ◌&&◌, List, [], ◌∷◌, Option, some, none, ltb, leb,
  ◌==◌, if◌then◌else◌,
}

pub record Pool : Type 0 where
  pub page_count : ℕ
  pub pages : ℕ → Bytes

-- `ensure_page_allocated`: each new page is `Page::new` of its id.
unfoldable pub ensure_page_allocated : Pool → ℕ → Pool
ensure_page_allocated pool pid =
    if leb pool.page_count pid
    then record {
      page_count = pid + 1;
      pages = λ i. if leb pool.page_count i && leb i pid then new i else pool.pages i;
    }
    else pool

abbrev pub store : Pool → ℕ → Bytes → Pool
store pool pid p = record pool { pages = λ i. if pid == i then p else pool.pages i }

-- The loop over a gap in `redo_insert`.
unfoldable pub fill_gap : ℕ → Bytes → Option Bytes
fill_gap zero p = some p
fill_gap (suc n) p = elim (insert p []) [
  | none ↦ none
  | some (id, p') ↦ elim (delete p' id) [ none ↦ none | some p'' ↦ fill_gap n p'' ]
]

-- `redo_insert`, past the check of the page LSN
unfoldable pub put_tuple : ℕ → List ℕ → Bytes → Option Bytes
put_tuple slot bytes p =
    let n = tuple_count p in
    if ltb slot n
    then elim (get_tuple p slot) [ none ↦ restore p slot bytes | some _ ↦ some p ]
    else if slot == n
    then elim (insert p bytes) [ none ↦ none | some (_, p') ↦ some p' ]
    else elim (fill_gap (slot - n) p) [
      | none ↦ none
      | some p' ↦ elim (insert p' bytes) [ none ↦ none | some (_, p'') ↦ some p'' ]
    ]

unfoldable pub put_sequence : ℤ → Bytes → Option Bytes
put_sequence v p = some (
    write_state (if is_sequence p then p else init_sequence_page p)
      (record { last_value = v; log_cnt = pos 0; is_called = true }))

unfoldable pub init_page : ℕ → ℕ → Bytes → Option Bytes
init_page pid kind_byte _ =
    let kind = kind_of_byte kind_byte in
    let p = set_page_kind (new pid) kind in
    some (elim kind [
      | sequence_rel ↦ init_sequence_page p
      | heap ↦ p
      | btree_leaf ↦ p
      | btree_internal ↦ p
    ])

-- The shape of each redo function: nothing is done on a page whose LSN is not below the record's.
unfoldable pub redo_page : Pool → ℕ → ℕ → (Bytes → Option Bytes) → Option (Bool × Pool)
redo_page pool pid lsn change =
    let p = pool.pages pid in
    if leb lsn (page_lsn p) then some (false, pool) else elim (change p) [
      | none ↦ none
      | some p' ↦ some (true, store pool pid (set_page_lsn p' lsn))
    ]

unfoldable pub redo_set_xmax : Pool → Rid → ℕ → ℕ → Option (Bool × Pool)
redo_set_xmax pool (pid, slot) xmax lsn =
    if leb pool.page_count pid
    then some (false, pool)
    else redo_page pool pid lsn (λ p. set_tuple_xmax p slot xmax)

-- The `match` of `redo_from`.
unfoldable pub redo_record : Pool → ℕ → WalRecordType → Option (Bool × Pool)
redo_record pool lsn (WalRecordType.insert (pid, slot) bytes) =
    redo_page (ensure_page_allocated pool pid) pid lsn (put_tuple slot bytes)
redo_record pool lsn (WalRecordType.delete rid xmax) = redo_set_xmax pool rid xmax lsn
redo_record pool lsn (WalRecordType.sequence_advance pid v) =
    redo_page (ensure_page_allocated pool pid) pid lsn (put_sequence v)
redo_record pool lsn (WalRecordType.page_init pid kind) =
    redo_page (ensure_page_allocated pool pid) pid lsn (init_page pid kind)
redo_record pool lsn (WalRecordType.clr _ (undo_insert _)) = some (false, pool)
redo_record pool lsn (WalRecordType.clr _ (undo_delete rid old_xmax)) =
    redo_set_xmax pool rid old_xmax lsn
redo_record pool lsn WalRecordType.begin = some (false, pool)
redo_record pool lsn WalRecordType.commit = some (false, pool)
redo_record pool lsn WalRecordType.abort = some (false, pool)
redo_record pool lsn (WalRecordType.checkpoint _ _) = some (false, pool)
redo_record pool lsn (WalRecordType.index_insert _ _ _) = some (false, pool)

-- `redo_from`, without the count
unfoldable pub redo_from : Pool → ℕ → List WalRecord → Option Pool
redo_from pool start [] = some pool
redo_from pool start (r ∷ rs) =
    if ltb r.lsn start
    then redo_from pool start rs
    else elim (redo_record pool r.lsn r.record_type) [
      | none ↦ none
      | some (_, pool') ↦ redo_from pool' start rs
    ]
