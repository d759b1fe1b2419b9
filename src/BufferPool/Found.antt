-- ===== src/BufferPool/Found.antt =====
-- src/buffer_pool.rs: a page of the file is found as long as a frame is free to be had.
use ccdb.Prelude.Eq.{nat_eq}
use ccdb.BufferPool.Valid.{fetch_page-hit, fetch_page-miss, read_page-in}
use ccdb.BufferPool.Clock.{victim-ne-none}
use ccdb.Prelude.Map.{lookup}
use ccdb.BufferPool.Content.{IsContent}
use ccdb.BufferPool.Layout.{IsLayout}
use ccdb.Prelude.Bytes.{Bytes}
use ccdb.Prelude.{
  ℕ, List, ◌≡◌, true, ◌<◌, arith, Option-cases, some, inl, List-cases, inr, ◌≤◌, Option, none, ◌∙◌,
}
use ccdb.BufferPool.{
  State, evict, evict_victim, pick_or_evict, fetch_page, load_page, write_back, flush_to,
  write_page, victim, read_page,
}
use ccdb.BufferPool.Guards.{Guard}

-- The operating system carries out every read, write and fsync.
pub record Works (s : State) : Type 0 where
  pub readable : (pid : ℕ) → s.disk.readable pid ≡ true
  pub writable : (pid : ℕ) → s.disk.writable pid ≡ true
  pub syncs : s.log.syncs ≡ true

module _ {s : State} (w : Works s) where
  write_back-done : (page : Bytes) (pid : ℕ) → (write_back s page pid).0 ≡ true
  unfolding write_back flush_to write_page
  write_back-done page pid = ground (arith, w.writable pid, w.syncs)

  evict-done : (fid : ℕ) → (evict s fid).0 ≡ true
  unfolding evict
  evict-done fid = elim (Option-cases (s.shard.frames fid).page_id) [
    | inl e ↦ rw (e, evict)
    | inr (pid, e) ↦ ground (arith, e, write_back-done (s.shard.frames fid).page pid)
  ]

pick_or_evict-found :
    {s : State} {gs : List Guard}
    → IsLayout s.shard gs
    → Works s
    → (u : ℕ) → u < s.shard.capacity
    → (s.shard.frames u).pin_count ≡ 0
    → (fid : ℕ) × ((pick_or_evict s).0 ≡ some fid)
unfolding pick_or_evict evict_victim
pick_or_evict-found {s} v w u b p = elim (List-cases s.shard.free_frames) [
  | inr (fid, rest, e) ↦ (fid, ground (arith, e))
  | inl n ↦
      let (fid, found, _, _) = victim-ne-none s.shard u v.arm b p in
      let s' : State = record s { shard = (victim s.shard).1 } in
      let w' : Works s' = record {
        readable = w.readable;
        writable = w.writable;
        syncs = w.syncs;
      } in
      (fid, ground (arith, n, found, evict-done w' fid))
]

-- The file does not get shorter.
evict-len : (s : State) (fid : ℕ) → s.disk.len ≤ (evict s fid).1.disk.len
unfolding evict write_back write_page
evict-len s fid = ground arith

pick_or_evict-len : (s : State) → s.disk.len ≤ (pick_or_evict s).1.disk.len
unfolding pick_or_evict evict_victim
pick_or_evict-len s = elim (List-cases s.shard.free_frames) [
  | inr (fid, rest, e) ↦ ground (arith, e)
  | inl n ↦
      let s' : State = record s { shard = (victim s.shard).1 } in
      elim (Option-cases (victim s.shard).0) [
        | inl e ↦ ground (arith, n, e)
        | inr (fid, e) ↦ ground (arith, n, e, evict-len s' fid)
      ]
]

-- Nor does what the system does with reads change.
evict-readable : (s : State) (fid pid : ℕ) → (evict s fid).1.disk.readable pid ≡ s.disk.readable pid
unfolding evict write_back write_page
evict-readable s fid pid = ground arith

pick_or_evict-readable :
    (s : State) (pid : ℕ) → (pick_or_evict s).1.disk.readable pid ≡ s.disk.readable pid
unfolding pick_or_evict evict_victim
pick_or_evict-readable s pid = elim (List-cases s.shard.free_frames) [
  | inr (fid, rest, e) ↦ ground (arith, e)
  | inl n ↦
      let s' : State = record s { shard = (victim s.shard).1 } in
      elim (Option-cases (victim s.shard).0) [
        | inl e ↦ ground (arith, n, e)
        | inr (fid, e) ↦ ground (arith, n, e, evict-readable s' fid pid)
      ]
]

load_page-found :
    (r : Option ℕ × State) (pid : ℕ) {fid : ℕ} {page : Bytes}
    → r.0 ≡ some fid
    → read_page r.1.disk pid ≡ some page
    → (load_page pid r).0 ≡ some fid
unfolding load_page
load_page-found (none, s) pid e n = e
load_page-found (some i, s) pid e n = ground (arith, e, n)

-- In a valid shard with an unpinned frame, and where the system carries out reads, writes and
-- fsyncs, fetch_page of a page of the file gives a frame.
pub fetch_page-found :
    {s : State} {gs : List Guard} (u pid : ℕ)
    → IsLayout s.shard gs
    → IsContent s gs
    → Works s
    → u < s.shard.capacity
    → (s.shard.frames u).pin_count ≡ 0
    → pid < s.disk.len
    → (fid : ℕ) × ((fetch_page s pid).0 ≡ some fid)
unfolding load_page
fetch_page-found {s} u pid v c w b p n = elim (Option-cases (lookup pid s.shard.page_table)) [
  | inr (fid, m) ↦ (fid, rw (fetch_page-hit v c pid fid m))
  | inl m ↦
      let (fid, e) = pick_or_evict-found v w u b p in
      (
        fid,
        rw (fetch_page-miss v c pid m) (
            load_page-found (pick_or_evict s) pid e (
              read_page-in (pick_or_evict s).1.disk pid (omega (arith, pick_or_evict-len s))
                (pick_or_evict-readable s pid ∙ w.readable pid))),
      )
]
