-- ===== src/BufferPool/Calls.antt =====
-- src/buffer_pool.rs: any sequence of calls on a shard, against a memory that holds one array of
-- bytes for each page.
pub mod Steps
use ccdb.BufferPool.Content.Steps.{
  release-IsContent, write-IsContent, release-current, write-current,
}
use ccdb.Prelude.Eq.{nat_eq}
use ccdb.Prelude.Map.{lookup}
use ccdb.BufferPool.Layout.Steps.{recycle_page-IsLayout, release-IsLayout, same-IsLayout}
use ccdb.BufferPool.Create.{next_page}
use ccdb.Page.{page_lsn}
use ccdb.BufferPool.Content.{IsContent, current}
use ccdb.BufferPool.Layout.{PinRoom, IsLayout, Held-set}
use ccdb.Prelude.Sets.{set_contains}
use ccdb.Prelude.{
  set, ℕ, Option, Bool, ◌≡◌, some, ◌≢◌, none, [], ◌+◌, ◌^◌, false, arith, refl, ◌<◌, Option-cases,
  get_elem?, inl, inr, List, ℕ_discrete, true, ◌∙◌, sym,
}
use ccdb.Prelude.Bytes.{Bytes}
use ccdb.BufferPool.{
  State, Shard, fetch_page, flush_page, flush_all, recycle_page, append, set_frame, release,
}
use ccdb.BufferPool.Guards.{
  Session, Guard, new_page, write, drop_guard, open_guard, remove_at, pins-set,
}
use ccdb.BufferPool.Valid.{IsValid, Opens, fetch_page-Opens}

-- `system`: what the operating system will do with reads, writes and fsyncs from now on.
pub data Call : Type 0 where
  fetch recycle flush_one : ℕ → Call
  create flush_every append_record : Call
  write_to : ℕ → Bytes → Call
  drop_at : ℕ → Call
  system : (ℕ → Bool) → (ℕ → Bool) → Bool → Call

unfoldable pub run_call : Session → Call → Session
unfolding fetch_page new_page recycle_page flush_page flush_all append write drop_guard
run_call x (fetch pid) = open_guard x.guards pid (fetch_page x.state pid)
run_call x create = new_page x
run_call x (recycle pid) = record x {
  state = record (x.state) { shard = recycle_page x.state.shard pid };
}
run_call x (flush_one pid) = record x { state = (flush_page x.state pid).1 }
run_call x flush_every = record x { state = (flush_all x.state).1 }
run_call x append_record = record x { state = record (x.state) { log = (append x.state.log).1 } }
run_call x (write_to i page) = write x i page
run_call x (drop_at i) = drop_guard x i
run_call x (system readable writable syncs) = record x {
  state = record (x.state) {
    disk = record (x.state.disk) { readable = readable; writable = writable };
    log = record (x.state.log) { syncs = syncs };
  };
}

-- A page on the free list is out of use: it is not fetched, and it got there once, from no guard. What
-- is written through a guard is logged first. No counter wraps: fewer than 2^32 - 1 guards are on a
-- frame that is pinned once more, and pages and LSNs are left where one is taken.
abbrev pub Allowed : Session → Call → Type 0
Allowed x (fetch pid) =
    (set_contains pid x.state.shard.free_list ≡ false) × PinRoom x.state.shard pid
Allowed x create = x.state.shard.free_list ≡ [] → x.state.disk.page_count + 1 < 2 ^ 32
Allowed x append_record = x.state.log.next_lsn + 1 < 2 ^ 64
Allowed x (recycle pid) =
    (set_contains pid x.state.shard.free_list ≡ false)
    × (pid < x.state.disk.page_count)
    × ((fid : ℕ)
        → lookup pid x.state.shard.page_table ≡ some fid
        → (x.state.shard.frames fid).pin_count ≡ 0)
Allowed x (write_to i page) = page_lsn page < x.state.log.next_lsn
Allowed x _ = Unit {0}

-- The page that a call may change.
abbrev pub target : Session → Call → Option ℕ
target x create = some (next_page x.state)
target x (write_to i page) = elim (get_elem? x.guards i) [ none ↦ none | some g ↦ some g.page_id ]
target x _ = none

-- A call's new state is valid, and every page but its target reads as before.
pub record Runs (x : Session) (target : Option ℕ) (y : Session) : Type 0 where
  pub valid : IsValid y
  pub others : (q : ℕ) → target ≢ some q → current y.state q ≡ current x.state q
