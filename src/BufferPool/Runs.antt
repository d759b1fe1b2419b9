-- ===== src/BufferPool/Runs.antt =====
-- src/buffer_pool.rs: runs of calls, in whatever order the threads make them.
use ccdb.BufferPool.Content.Steps.{current-frame}
use ccdb.Prelude.Bytes.{Bytes}
use ccdb.Page.{page_lsn}
use ccdb.Prelude.Map.{lookup}
use ccdb.BufferPool.Layout.{Distinct, IsLayout, Held-lookup}
use ccdb.Prelude.Sets.{set_contains}
use ccdb.BufferPool.Content.{current}
use ccdb.BufferPool.{count_up, new_shard}
use ccdb.Prelude.{
  List, ℕ, ◌∷◌, ◌≡◌, ◌<◌, [], ◌≢◌, true, suc, arith, ◌≤◌, get_elem?, some, refl, ◌+◌, Bool-cases,
  zero, inl, inr, sym,
}
use ccdb.BufferPool.Calls.{Call, run_call, Allowed, target}
use ccdb.BufferPool.Calls.Steps.{run_call-Runs}
use ccdb.BufferPool.Guards.{Session, Guard, pins, pins-remove_at}
use ccdb.BufferPool.Valid.{IsValid}

unfoldable pub run : List Call → Session → Session
unfolding run_call
run [] x = x
run (k ∷ ks) x = run ks (run_call x k)

-- Each call is made as its callers promise.
abbrev pub AllAllowed : List Call → Session → Type 0
AllAllowed [] x = Unit {0}
AllAllowed (k ∷ ks) x = Allowed x k × AllAllowed ks (run_call x k)

-- No call of the run is on the page.
abbrev pub Untouched : ℕ → List Call → Session → Type 0
Untouched q [] x = Unit {0}
Untouched q (k ∷ ks) x = (target x k ≢ some q) × Untouched q ks (run_call x k)

-- A shard stays valid under any calls that are made as their callers promise.
pub run-IsValid : (ks : List Call) (x : Session) → IsValid x → AllAllowed ks x → IsValid (run ks x)
unfolding run
run-IsValid [] x v a = v
run-IsValid (k ∷ ks) x v a = run-IsValid ks (run_call x k) (run_call-Runs x v k a.0).valid a.1

-- A pool that has been opened on a file whose pages are all in the durable log.
pub record Opened (x : Session) : Type 0 where
  pub capacity : ℕ
  pub positive : 0 < capacity
  pub shard : x.state.shard ≡ new_shard capacity
  pub guards : x.guards ≡ []
  pub durable : (pid : ℕ) → page_lsn (x.state.disk.contents pid) ≤ x.state.log.flushed_lsn
  pub order : x.state.log.flushed_lsn < x.state.log.next_lsn
  pub len : x.state.disk.len ≤ x.state.disk.page_count

count_up-below : (i n j : ℕ) → set_contains j (count_up i n) ≡ true → (i ≤ j) × (j < i + n)
unfolding count_up set_contains
count_up-below i zero j h = cc
count_up-below i (suc n) j h = ground (arith, count_up-below (i + 1) n j)

count_up-Distinct : (i n : ℕ) → Distinct (count_up i n)
unfolding count_up
count_up-Distinct i zero = tt
count_up-Distinct i (suc n) = (
  elim (Bool-cases (set_contains i (count_up (i + 1) n))) [
    | inl h ↦ absurd (omega (arith, (count_up-below (i + 1) n i h).0))
    | inr h ↦ h
  ],
  count_up-Distinct (i + 1) n,
)

new_shard-IsLayout : (n : ℕ) → 0 < n → IsLayout (new_shard n) []
unfolding new_shard lookup pins set_contains
new_shard-IsLayout n h = record {
  arm = h;
  mapped = λ pid fid e. cc;
  resident = λ fid pid e. cc;
  unused = λ fid e. ((omega (arith, (count_up-below 0 n fid e).1)), refl);
  distinct = count_up-Distinct 0 n;
  pinned = λ fid. refl;
  held = tt;
  recycled = λ pid fid e k. cc;
  once = tt;
}

pub Opened-IsValid : (x : Session) → Opened x → IsValid x
unfolding new_shard set_contains
Opened-IsValid x o = record {
  layout = rw (o.shard, o.guards) (new_shard-IsLayout o.capacity o.positive);
  content = record {
    clean = λ i q h d n. ground (arith, o.shard, h);
    logged = λ i q h. absurd (ground (arith, o.shard, h));
    durable = o.durable;
    order = o.order;
    len = o.len;
    counted = λ i q h. absurd (ground (arith, o.shard, h));
    listed = λ q h. absurd (ground (arith, o.shard, h));
  };
}

-- Log before data: in a shard that was opened empty on a file whose records are durable, after any
-- allowed calls, each a whole step, no page of the file has an LSN past the flushed end of the log.
-- Allowed are fetches of pages that are not on the free list, recycling only of pages that have
-- been handed out, are not pinned and not on the free list, and writes that are logged first; no
-- counter of pins, pages or LSNs wraps.
pub run-page_lsn :
    (ks : List Call) (x : Session) (pid : ℕ)
    → Opened x
    → AllAllowed ks x
    → page_lsn ((run ks x).state.disk.contents pid) ≤ (run ks x).state.log.flushed_lsn
run-page_lsn ks x pid o a = (run-IsValid ks x (Opened-IsValid x o) a).content.durable pid

-- In a shard that was opened empty, after any allowed calls, the frame of every live guard is
-- pinned and holds the page of the guard, with the bytes that a fetch of the page would give: a
-- pinned frame is not evicted. Allowed are fetches of pages that are not on the free list,
-- recycling only of pages that have been handed out, are not pinned and not on the free list, and
-- writes that are logged first; no counter of pins, pages or LSNs wraps.
pub run-pinned :
    (ks : List Call) (x : Session) (i : ℕ) {g : Guard}
    → Opened x
    → AllAllowed ks x
    → get_elem? (run ks x).guards i ≡ some g
    → (((run ks x).state.shard.frames g.fid).page_id ≡ some g.page_id)
      × (((run ks x).state.shard.frames g.fid).page ≡ current (run ks x).state g.page_id)
      × (0 < ((run ks x).state.shard.frames g.fid).pin_count)
unfolding current pins
run-pinned ks x i {g} o a e =
    let v = run-IsValid ks x (Opened-IsValid x o) a in
    let held =
      Held-lookup (run ks x).state.shard.frames i (run ks x).guards {g = g} v.layout.held e in
    (
      held,
      sym (current-frame (run ks x).state g.page_id g.fid (v.layout.resident g.fid g.page_id held)),
      ground (arith, v.layout.pinned g.fid, pins-remove_at g.fid i (run ks x).guards {g = g} e),
    )
