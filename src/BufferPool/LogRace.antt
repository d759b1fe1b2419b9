-- ===== src/BufferPool/LogRace.antt =====
-- src/wal.rs: `append` takes its LSN before it has the lock of the file, so that a flush of another
-- thread can come between the two.
use ccdb.BufferPool.{Log, append, flush, flush_to}
use ccdb.Prelude.{
  ℕ, ◌+◌, ◌<◌, ◌≡◌, true, false, List, [], ◌∷◌, ◌++◌, Option, some, none, arith, if◌then◌else◌, leb,
  ◌-◌,
}
use ccdb.Prelude.Sets.{set_contains}

-- The counters, the LSNs of the records in the `BufWriter`, and those in the synced file.
pub record LogFile : Type 0 where
  pub counters : Log
  pub buffered : List ℕ
  pub synced : List ℕ

-- `fetch_add` on the counter.
unfoldable pub take_lsn : LogFile → ℕ × LogFile
unfolding append
take_lsn f = ((append f.counters).0, record f { counters = (append f.counters).1 })

-- `write_all` of the record, under the lock of the file.
unfoldable pub write_record : LogFile → ℕ → LogFile
write_record f lsn = record f { buffered = lsn ∷ f.buffered }

-- The file gets what is buffered, where there is something to flush.
unfoldable pub flush_file : LogFile → Option LogFile
unfolding flush
flush_file f = elim (flush f.counters) [
  | none ↦ none
  | some l ↦ some (
      if leb (f.counters.next_lsn - 1) f.counters.flushed_lsn
      then f
      else record { counters = l; buffered = []; synced = f.buffered ++ f.synced })
]

unfoldable pub flush_file_to : LogFile → ℕ → Option LogFile
unfolding flush_to
flush_file_to f lsn = elim (flush_to f.counters lsn) [
  | none ↦ none
  | some l ↦ some (
      if leb lsn f.counters.flushed_lsn
      then f
      else record { counters = l; buffered = []; synced = f.buffered ++ f.synced })
]

-- If another thread flushes the log between the moment an append takes its LSN and the moment it
-- writes the record, then, on any log that syncs and has no record of that LSN yet, a flush_to of
-- the LSN after the write succeeds, and the record is still not in the synced file.
pub flush_file_to_race :
    (f : LogFile)
    → f.counters.syncs ≡ true
    → f.counters.flushed_lsn < f.counters.next_lsn
    → set_contains f.counters.next_lsn (f.buffered ++ f.synced) ≡ false
    → (g h : LogFile) × (flush_file (take_lsn f).1 ≡ some g)
      × (flush_file_to (write_record g (take_lsn f).0) (take_lsn f).0 ≡ some h)
      × (set_contains (take_lsn f).0 h.synced ≡ false)
unfolding take_lsn flush_file flush_file_to write_record append flush flush_to
flush_file_to_race f s o n =
    let lsn = f.counters.next_lsn in
    let g : LogFile = record {
      counters = record (f.counters) { next_lsn = lsn + 1; flushed_lsn = lsn };
      buffered = [];
      synced = f.buffered ++ f.synced;
    } in
    (g, write_record g lsn, ground (arith, s, o), ground arith, n)
