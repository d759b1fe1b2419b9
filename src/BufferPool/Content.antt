-- ===== src/BufferPool/Content.antt =====
-- src/buffer_pool.rs: what the frames and the file of a shard hold, and the log behind them.
pub mod Evict
pub mod Pick
pub mod Steps
use ccdb.Prelude.Bytes.{Bytes}
use ccdb.Prelude.Map.{lookup, remove, lookup-remove}
use ccdb.Prelude.Eq.{nat_eq}
use ccdb.Prelude.Sets.{set_contains}
use ccdb.Page.{page_lsn}
use ccdb.BufferPool.{
  Frame, Shard, State, Disk, Log, set_frame, unmap, cleared, write_back, evict, flush_to,
  write_page,
}
use ccdb.BufferPool.Guards.{Guard, pins, writing, writing-pins}
use ccdb.BufferPool.Layout.{IsLayout, unmap-IsLayout, cleared-IsLayout}
use ccdb.Prelude.{
  ℕ, zero, suc, ◌+◌, ◌-◌, ◌<◌, ◌≤◌, ◌≡◌, ◌≢◌, Bool, true, false, List, [], ◌∷◌, Option, some, none,
  ltb, leb, ◌==◌, if◌then◌else◌, arith, refl, sym, ◌∙◌, inl, inr, Bool-cases, Option-cases,
}

-- The bytes of a page, as a reader sees them: those of its frame, or else those of the file.
unfoldable pub current : State → ℕ → Bytes
current s pid = elim (lookup pid s.shard.page_table) [
  | none ↦ s.disk.contents pid
  | some fid ↦ (s.shard.frames fid).page
]

pub record IsContent (s : State) (gs : List Guard) : Type 0 where
  -- A clean frame that nobody is writing to holds what the file holds.
  pub clean :
      (fid pid : ℕ)
      → (s.shard.frames fid).page_id ≡ some pid
      → (s.shard.frames fid).dirty ≡ false
      → writing fid gs ≡ false
      → (s.shard.frames fid).page ≡ s.disk.contents pid
  -- The records of a page in a frame are in the log; those of a page in the file are durable.
  pub logged :
      (fid pid : ℕ)
      → (s.shard.frames fid).page_id ≡ some pid
      → page_lsn (s.shard.frames fid).page < s.log.next_lsn
  pub durable : (pid : ℕ) → page_lsn (s.disk.contents pid) ≤ s.log.flushed_lsn
  pub order : s.log.flushed_lsn < s.log.next_lsn
  -- Pages are allocated before they are in the file, in a frame or recycled.
  pub len : s.disk.len ≤ s.disk.page_count
  pub counted : (fid pid : ℕ) → (s.shard.frames fid).page_id ≡ some pid → pid < s.disk.page_count
  pub listed : (pid : ℕ) → set_contains pid s.shard.free_list ≡ true → pid < s.disk.page_count

pub flush_to_lem :
    (l : Log) (lsn : ℕ) {l' : Log}
    → lsn < l.next_lsn
    → l.flushed_lsn < l.next_lsn
    → flush_to l lsn ≡ some l'
    → (lsn ≤ l'.flushed_lsn)
      × (l.flushed_lsn ≤ l'.flushed_lsn)
      × (l'.next_lsn ≡ l.next_lsn)
      × (l'.flushed_lsn < l'.next_lsn)
unfolding flush_to
flush_to_lem l lsn h o e = ground arith

-- The page is in the file, or the file is as it was.
pub record Written (s : State) (page : Bytes) (pid : ℕ) (done : Bool) (s' : State) : Type 0 where
  pub shard : s'.shard ≡ s.shard
  pub contents :
      (i : ℕ)
      → s'.disk.contents i
        ≡ (if done then (if i == pid then page else s.disk.contents i) else s.disk.contents i)
  pub flushed : s.log.flushed_lsn ≤ s'.log.flushed_lsn
  pub behind : done ≡ true → page_lsn page ≤ s'.log.flushed_lsn
  pub next_lsn : s'.log.next_lsn ≡ s.log.next_lsn
  pub order : s'.log.flushed_lsn < s'.log.next_lsn
  pub page_count : s'.disk.page_count ≡ s.disk.page_count
  pub len : s'.disk.len ≤ s'.disk.page_count

pub write_back-Written :
    (s : State) (page : Bytes) (pid : ℕ)
    → s.log.flushed_lsn < s.log.next_lsn
    → page_lsn page < s.log.next_lsn
    → pid < s.disk.page_count
    → s.disk.len ≤ s.disk.page_count
    → Written s page pid (write_back s page pid).0 (write_back s page pid).1
unfolding write_back write_page
write_back-Written s page pid o l c n = elim (Option-cases (flush_to s.log (page_lsn page))) [
  | inl e ↦
      rw (e, write_back)
        (record {
          shard = refl;
          contents = λ i. refl;
          flushed = omega arith;
          behind = λ h. cc;
          next_lsn = refl;
          order = o;
          page_count = refl;
          len = n;
        })
  | inr (l', e) ↦
      let f = flush_to_lem s.log (page_lsn page) l o e in
      rw (e, write_back)
        (record {
          shard = ground arith;
          contents = λ i. ground arith;
          flushed = ground (arith, f);
          behind = ground (arith, f);
          next_lsn = ground (arith, f);
          order = ground (arith, f);
          page_count = ground arith;
          len = ground arith;
        })
]
