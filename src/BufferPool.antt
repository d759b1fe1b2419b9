-- ===== src/BufferPool.antt =====
-- src/buffer_pool.rs: one shard of the pool, with the file of src/disk.rs and the two LSN counters of
-- src/wal.rs that it works on. Each operation runs under the locks that it takes, as one step.
--
-- `frames` is a function on the indices below `capacity`, the length of the `Vec`; the top of
-- `free_frames` and of `free_list` is the head of the list. Whether the system carries out a read or
-- a write of a page or an fsync is a field of the disk and of the log. `disk.sync` changes nothing here but its
-- result. An operation that can fail gives the state that it leaves behind beside its result.
use ccdb.Prelude.Eq.{nat_eq}
pub mod Clock
pub mod LogRace
pub mod Guards
pub mod Layout
pub mod Content
pub mod Valid
pub mod Create
pub mod Flush
pub mod Calls
pub mod Runs
pub mod Found
mod Tests
use ccdb.Prelude.Bytes.{Bytes, zeros}
use ccdb.Prelude.Map.{Map, lookup, insert, remove, contains_key}
use ccdb.Page.{page_lsn, new}
use ccdb.Prelude.{
  ℕ, zero, suc, ◌+◌, ◌-◌, ◌*◌, ◌%◌, ◌^◌, Bool, true, false, not, ◌&&◌, List, [], ◌∷◌, Option, some,
  none, ltb, leb, ◌==◌, if◌then◌else◌,
}

pub record Frame : Type 0 where
  pub page : Bytes
  pub page_id : Option ℕ
  pub pin_count : ℕ
  pub dirty : Bool
  pub referenced : Bool

abbrev pub empty_frame : Frame
empty_frame = record {
  page = new 0;
  page_id = none;
  pin_count = 0;
  dirty = false;
  referenced = false;
}

pub record Shard : Type 0 where
  pub frames : ℕ → Frame
  pub page_table : Map ℕ ℕ
  pub arm : ℕ
  pub capacity : ℕ
  pub dpt : Map ℕ ℕ
  pub free_list : List ℕ
  pub free_frames : List ℕ

-- `len` counts the whole pages of the file. Beyond it `contents` is what a hole reads as.
pub record Disk : Type 0 where
  pub contents : ℕ → Bytes
  pub len : ℕ
  pub page_count : ℕ
  pub readable : ℕ → Bool
  pub writable : ℕ → Bool

pub record Log : Type 0 where
  pub next_lsn : ℕ
  pub flushed_lsn : ℕ
  pub syncs : Bool

pub record State : Type 0 where
  pub shard : Shard
  pub disk : Disk
  pub log : Log

-- `(0..n).rev()`, of which the last is popped first.
unfoldable pub count_up : ℕ → ℕ → List ℕ
count_up i zero = []
count_up i (suc n) = i ∷ count_up (i + 1) n

unfoldable pub new_shard : ℕ → Shard
unfolding count_up
new_shard per_shard = record {
  frames = λ _. empty_frame;
  page_table = [];
  arm = 0;
  capacity = per_shard;
  dpt = [];
  free_list = [];
  free_frames = count_up 0 per_shard;
}

abbrev pub set_frame : Shard → ℕ → Frame → Shard
set_frame sh fid f = record sh { frames = λ i. if i == fid then f else sh.frames i }

unfoldable pub shard_idx : ℕ → ℕ
shard_idx page_id = page_id % 16

-- `DiskManager`

unfoldable pub read_page : Disk → ℕ → Option Bytes
read_page d pid = if d.readable pid && ltb pid d.len then some (d.contents pid) else none

unfoldable pub write_page : Disk → ℕ → Bytes → Option Disk
write_page d pid b =
    if d.writable pid
    then some (record d {
      contents = λ i. if i == pid then b else d.contents i;
      len = if ltb pid d.len then d.len else pid + 1;
    })
    else none

-- The counter, a `u32` that wraps, goes up before the write and stays up if the write fails.
unfoldable pub allocate_page : Disk → Bool × Disk
unfolding write_page
allocate_page d =
    let d' : Disk = record d { page_count = (d.page_count + 1) % 2 ^ 32 } in
    elim (write_page d' d.page_count (new d.page_count)) [
      | none ↦ (false, d')
      | some d'' ↦ (true, d'')
    ]

-- `WalManager`: the counters

-- A `u64`, which `Allowed` bounds.
unfoldable pub append : Log → ℕ × Log
append l = (l.next_lsn, record l { next_lsn = l.next_lsn + 1 })

-- What both flushes do once they hold the fsync lock and there is something to flush.
abbrev pub sync_log : Log → Option Log
sync_log l =
    if l.syncs
    then some (record l {
      flushed_lsn = if ltb l.flushed_lsn (l.next_lsn - 1) then l.next_lsn - 1 else l.flushed_lsn;
    })
    else none

unfoldable pub flush : Log → Option Log
flush l = if leb (l.next_lsn - 1) l.flushed_lsn then some l else sync_log l

-- Whether the background writer flushes first or the caller after the wait, the counters are the same.
unfoldable pub flush_to : Log → ℕ → Option Log
flush_to l lsn = if leb lsn l.flushed_lsn then some l else sync_log l

unfoldable pub set_next_lsn : Log → ℕ → Log
set_next_lsn l lsn = record l {
  next_lsn = lsn;
  flushed_lsn = if ltb l.flushed_lsn (lsn - 1) then lsn - 1 else l.flushed_lsn;
}

-- `ClockReplacer::victim`

-- One round of the loop.
unfoldable pub tick : Shard → Option ℕ × Shard
tick sh =
    let fid = sh.arm in
    let f = sh.frames fid in
    let next : Shard = record sh { arm = (sh.arm + 1) % sh.capacity } in
    if ltb 0 f.pin_count
    then (none, next)
    else if f.referenced
    then (none, set_frame next fid (record f { referenced = false }))
    else (some fid, next)

unfoldable pub sweep : ℕ → Shard → Option ℕ × Shard
unfolding tick
sweep zero sh = (none, sh)
sweep (suc n) sh = let r = tick sh in elim r.0 [ none ↦ sweep n r.1 | some fid ↦ (some fid, r.1) ]

unfoldable pub victim : Shard → Option ℕ × Shard
unfolding sweep
victim sh = sweep (sh.capacity * 2) sh

-- `BufferPool`, on the shard of the page

-- The dirty page goes to the file behind its log records.
unfoldable pub write_back : State → Bytes → ℕ → Bool × State
unfolding flush_to write_page
write_back s page pid = elim (flush_to s.log (page_lsn page)) [
  | none ↦ (false, s)
  | some log ↦ elim (write_page s.disk pid page) [
    | none ↦ (false, record s { log = log })
    | some disk ↦ (true, record s { log = log; disk = disk })
  ]
]

-- The frame as `evict` leaves it: the page's bytes stay.
abbrev pub cleared : Frame → Frame
cleared f = record f { page_id = none; pin_count = 0; dirty = false; referenced = false }

unfoldable pub unmap : Shard → ℕ → ℕ → Shard
unmap sh fid pid =
    set_frame (record sh { page_table = remove pid sh.page_table; dpt = remove pid sh.dpt }) fid
      (cleared (sh.frames fid))

unfoldable pub evict : State → ℕ → Bool × State
unfolding write_back unmap
evict s fid =
    let f = s.shard.frames fid in
    elim f.page_id [
      | none ↦ (true, record s { shard = set_frame s.shard fid (cleared f) })
      | some pid ↦
          let w = if f.dirty then write_back s f.page pid else (true, s) in
          if w.0 then (true, record (w.1) { shard = unmap s.shard fid pid }) else (false, w.1)
    ]

unfoldable pub evict_victim : State → Option ℕ × State
unfolding victim evict
evict_victim s =
    let v = victim s.shard in
    let s' : State = record s { shard = v.1 } in
    elim v.0 [
      | none ↦ (none, s')
      | some fid ↦ let e = evict s' fid in (if e.0 then some fid else none, e.1)
    ]

unfoldable pub pick_or_evict : State → Option ℕ × State
unfolding evict_victim
pick_or_evict s = elim s.shard.free_frames [
  | fid ∷ rest ↦ (some fid, record s { shard = record (s.shard) { free_frames = rest } })
  | [] ↦ evict_victim s
]

-- What follows a frame's reservation: the page moves in, pinned once.
unfoldable pub occupy : Shard → ℕ → ℕ → Bytes → Bool → Shard
occupy sh fid pid page dirty =
    set_frame (record sh { page_table = insert pid fid sh.page_table }) fid
      (record { page = page; page_id = some pid; pin_count = 1; dirty = dirty; referenced = true })

-- The count is a `u32` that wraps.
unfoldable pub pin : Shard → ℕ → Shard
pin sh fid =
    let f = sh.frames fid in
    set_frame sh fid (record f { pin_count = (f.pin_count + 1) % 2 ^ 32; referenced = true })

-- A frame that holds another page is not taken, and its pin count is put back.
unfoldable pub try_fetch_fast : Shard → ℕ → Option ℕ × Shard
unfolding pin
try_fetch_fast sh pid = elim (lookup pid sh.page_table) [
  | none ↦ (none, sh)
  | some fid ↦ elim (sh.frames fid).page_id [
    | none ↦ (none, sh)
    | some held ↦ if held == pid then (some fid, pin sh fid) else (none, sh)
  ]
]

-- The rest of `fetch_slow`, with the frame that `pick_or_evict` gave.
unfoldable pub load_page : ℕ → Option ℕ × State → Option ℕ × State
unfolding read_page occupy
load_page pid (none, s) = (none, s)
load_page pid (some fid, s) = elim (read_page s.disk pid) [
  | none ↦ (none, s)
  | some page ↦ (some fid, record s { shard = occupy s.shard fid pid page false })
]

unfoldable pub fetch_slow : State → ℕ → Option ℕ × State
unfolding pin pick_or_evict load_page
fetch_slow s pid = elim (lookup pid s.shard.page_table) [
  | some fid ↦ (some fid, record s { shard = pin s.shard fid })
  | none ↦ load_page pid (pick_or_evict s)
]

unfoldable pub fetch_page : State → ℕ → Option ℕ × State
unfolding try_fetch_fast fetch_slow
fetch_page s pid =
    let t = try_fetch_fast s.shard pid in
    elim t.0 [
      | some fid ↦ (some fid, record s { shard = t.1 })
      | none ↦ fetch_slow (record s { shard = t.1 }) pid
    ]

-- The rest of both installs, with the frame that `pick_or_evict` gave.
unfoldable pub move_in : ℕ → Option ℕ × State → Option ℕ × State
unfolding occupy
move_in pid (none, s) = (none, s)
move_in pid (some fid, s) = (some fid, record s { shard = occupy s.shard fid pid (new pid) true })

unfoldable pub install_fresh : State → ℕ → Option ℕ × State
unfolding pick_or_evict move_in
install_fresh s pid = move_in pid (pick_or_evict s)

-- A resident copy is dropped first, whoever has it pinned.
unfoldable pub install_recycled : State → ℕ → Option ℕ × State
unfolding install_fresh evict
install_recycled s pid = elim (lookup pid s.shard.page_table) [
  | none ↦ install_fresh s pid
  | some fid ↦
      let e = evict s fid in
      let sh = e.1.shard in
      if e.0
      then install_fresh (record (e.1) { shard = record sh { free_frames = fid ∷ sh.free_frames } })
          pid
      else (none, e.1)
]

unfoldable pub recycle_page : Shard → ℕ → Shard
recycle_page sh pid = record sh { free_list = pid ∷ sh.free_list }

abbrev pub clean : Shard → ℕ → ℕ → Shard
clean sh fid pid =
    set_frame (record sh { dpt = remove pid sh.dpt }) fid (record (sh.frames fid) { dirty = false })

-- The Boolean tells a write that failed. A failure of the last `sync` leaves the same state.
unfoldable pub flush_page : State → ℕ → Bool × State
unfolding write_back
flush_page s pid = elim (lookup pid s.shard.page_table) [
  | none ↦ (true, s)
  | some fid ↦
      let f = s.shard.frames fid in
      let w = write_back s f.page pid in
      if f.dirty
      then if w.0 then (true, record (w.1) { shard = clean s.shard fid pid }) else (false, w.1)
      else (true, s)
]

-- The loop of `flush_all` over the frames from `fid` on, `n` of them.
unfoldable pub flush_frames : ℕ → ℕ → State → Bool × State
unfolding write_page
flush_frames zero fid s = (true, s)
flush_frames (suc n) fid s =
    let f = s.shard.frames fid in
    elim f.dirty [
      | false ↦ flush_frames n (fid + 1) s
      | true ↦ elim f.page_id [
        | none ↦ flush_frames n (fid + 1) s
        | some pid ↦ elim (write_page s.disk pid f.page) [
          | none ↦ (false, s)
          | some d ↦ flush_frames n (fid + 1) (record s { disk = d; shard = clean s.shard fid pid })
        ]
      ]
    ]

unfoldable pub flush_all : State → Bool × State
unfolding flush flush_frames
flush_all s = elim (flush s.log) [
  | none ↦ (false, s)
  | some log ↦ flush_frames s.shard.capacity 0 (record s { log = log })
]

-- A page that turns dirty gets an entry in the table of dirty pages, unless it has one.
unfoldable pub release : Shard → ℕ → ℕ → Bool → Shard
release sh pid fid mutated =
    let f = sh.frames fid in
    let enter = mutated && not f.dirty && not (contains_key pid sh.dpt) in
    if f.pin_count == 0
    then sh
    else set_frame
        (record sh { dpt = if enter then insert pid (page_lsn f.page) sh.dpt else sh.dpt }) fid
        (record f { dirty = if mutated then true else f.dirty; pin_count = f.pin_count - 1 })
