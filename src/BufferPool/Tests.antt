-- ===== src/BufferPool/Tests.antt =====
-- src/buffer_pool.rs: small shards, and the theorems at them.
use ccdb.BufferPool.LogRace.{
  LogFile, flush_file, take_lsn, flush_file_to, write_record, flush_file_to_race,
}
use ccdb.BufferPool.Found.{fetch_page-found}
use ccdb.BufferPool.Flush.Contents.{flush_all-contents}
use ccdb.BufferPool.Clock.{victim-ne-none}
use ccdb.BufferPool.Content.{current}
use ccdb.Page.{read_int, set_page_lsn, page_lsn, write_int}
use ccdb.Prelude.Sets.{set_contains}
use ccdb.Prelude.{List, ◌∷◌, true, [], arith, ◌≡◌, refl, some, ℕ, ◌^◌, ◌-◌, ◌≤◌, ◌<◌, false}
use ccdb.Prelude.Bytes.{zeros, Bytes, slice, from_le, splice, le_bytes}
use ccdb.BufferPool.{new_shard, victim, flush_all, fetch_page, allocate_page}
use ccdb.Prelude.Map.{insert, lookup, remove, contains_key}
use ccdb.BufferPool.Guards.{Session, pins, writing}
use ccdb.BufferPool.Runs.{run, Opened, Opened-IsValid, run-page_lsn, run-pinned}
use ccdb.BufferPool.Calls.{
  Call, fetch, create, recycle, flush_every, append_record, write_to, drop_at,
}

-- Two frames, and a file of sixty-four empty pages.
abbrev opened : Session
opened = record {
  state = record {
    shard = new_shard 2;
    disk = record {
      contents = λ _. zeros;
      len = 64;
      page_count = 64;
      readable = λ _. true;
      writable = λ _. true;
    };
    log = record { next_lsn = 5; flushed_lsn = 4; syncs = true };
  };
  guards = [];
}

opened-Opened : Opened opened
unfolding read_int slice from_le
opened-Opened = record {
  capacity = 2;
  positive = omega arith;
  shard = refl;
  guards = refl;
  durable = λ _. omega arith;
  order = omega arith;
  len = omega arith;
}

-- A page with the LSN 5, which the next record gets.
abbrev marked : Bytes
marked = set_page_lsn zeros 5

-- Two more pages push the written one out of the frames.
abbrev calls : List Call
calls = drop_at 0 ∷ fetch 32 ∷ drop_at 0 ∷ fetch 48 ∷ drop_at 0 ∷ []

abbrev logged : Session
logged = run (fetch 16 ∷ append_record ∷ []) opened

evicted : (run (write_to 0 marked ∷ calls) logged).state.shard.page_table ≡ (32, 1) ∷ (48, 0) ∷ []
unfolding run fetch_page new_shard lookup insert remove read_int from_le slice write_int splice
    le_bytes
evicted = refl

evicted_flushed : (run (write_to 0 marked ∷ calls) logged).state.log.flushed_lsn ≡ 5
unfolding run fetch_page new_shard lookup insert remove read_int write_int splice slice le_bytes
    from_le
evicted_flushed = refl

run-page_lsn_example :
    page_lsn ((run (fetch 16 ∷ flush_every ∷ []) opened).state.disk.contents 16)
    ≤ (run (fetch 16 ∷ flush_every ∷ []) opened).state.log.flushed_lsn
unfolding new_shard set_contains lookup
run-page_lsn_example =
    run-page_lsn (fetch 16 ∷ flush_every ∷ []) opened 16 opened-Opened
      ((refl, λ fid h. cc), (tt, tt))

run-pinned_example :
    (((run (fetch 16 ∷ []) opened).state.shard.frames 0).page_id ≡ some 16)
    × (((run (fetch 16 ∷ []) opened).state.shard.frames 0).page
        ≡ current (run (fetch 16 ∷ []) opened).state 16)
    × (0 < ((run (fetch 16 ∷ []) opened).state.shard.frames 0).pin_count)
unfolding run fetch_page new_shard lookup insert set_contains
run-pinned_example =
    run-pinned (fetch 16 ∷ []) opened 0 {g = record { page_id = 16; fid = 0; mutated = false }}
      opened-Opened ((refl, λ fid h. cc), tt) refl

victim-ne-none_example :
    (fid : ℕ) × ((victim (new_shard 2)).0 ≡ some fid)
    × (fid < (new_shard 2).capacity)
    × (((new_shard 2).frames fid).pin_count ≡ 0)
unfolding new_shard
victim-ne-none_example = victim-ne-none (new_shard 2) 1 (omega arith) (omega arith) refl

flush_all-contents_example : (flush_all opened.state).1.disk.contents 16 ≡ current opened.state 16
unfolding new_shard flush_all pins writing
flush_all-contents_example =
    let v = Opened-IsValid opened opened-Opened in
    flush_all-contents opened.state 16 v.layout v.content (λ i. refl) refl

-- A new page has no entry among the dirty pages, and gets none when it is written.
new_page_unlisted : (run (create ∷ write_to 0 zeros ∷ drop_at 0 ∷ []) opened).state.shard.dpt ≡ []
unfolding run new_shard insert contains_key lookup
new_page_unlisted = refl

-- A recycled page that is still pinned loses its pins: two guards are on the frame, and one pin.
pinned_recycled :
    ((run (fetch 16 ∷ recycle 16 ∷ create ∷ []) opened).state.shard.frames 0).pin_count ≡ 1
unfolding run fetch_page new_shard lookup insert remove
pinned_recycled = refl

-- After the page 2^32 - 1, the counter is back at page 0.
page_count_wraps :
    (allocate_page (record (opened.state.disk) { page_count = 2 ^ 32 - 1 })).1.page_count ≡ 0
unfolding allocate_page
page_count_wraps = refl

fetch_page-found_example : (fid : ℕ) × ((fetch_page opened.state 16).0 ≡ some fid)
unfolding new_shard
fetch_page-found_example =
    let v = Opened-IsValid opened opened-Opened in
    fetch_page-found {gs = []} 1 16 v.layout v.content
      (record { readable = λ _. refl; writable = λ _. refl; syncs = refl }) (omega arith) refl
      (omega arith)

-- Two records, the second in the buffer.
abbrev two_records : LogFile
two_records = record {
  counters = record { next_lsn = 3; flushed_lsn = 1; syncs = true };
  buffered = 2 ∷ [];
  synced = 1 ∷ [];
}

flush_file_to_race_example :
    (g h : LogFile) × (flush_file (take_lsn two_records).1 ≡ some g)
    × (flush_file_to (write_record g (take_lsn two_records).0) (take_lsn two_records).0 ≡ some h)
    × (set_contains (take_lsn two_records).0 h.synced ≡ false)
unfolding set_contains
flush_file_to_race_example = flush_file_to_race two_records refl (omega arith) refl
