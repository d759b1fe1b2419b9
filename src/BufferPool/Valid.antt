-- ===== src/BufferPool/Valid.antt =====
-- src/buffer_pool.rs: the calls of a shard keep it valid, and change no page but the one they are on.

use ccdb.Prelude.Eq.{nat_eq}
use ccdb.BufferPool.Content.Steps.{
  occupy-current, pin-IsContent, pin-current, occupy-IsContent, occupy-page, pin-page,
  current-frame,
}
use ccdb.BufferPool.Layout.Steps.{pin-IsLayout, occupy-IsLayout}
use ccdb.Prelude.Sets.{set_contains}
use ccdb.BufferPool.Content.Pick.{Picks, pick_or_evict-Picks}
use ccdb.Prelude.Map.{lookup}
use ccdb.BufferPool.Content.{IsContent, current}
use ccdb.BufferPool.Layout.{PinRoom, IsLayout}
use ccdb.Prelude.{
  List, ℕ, Option, Bool, ◌≡◌, refl, some, none, ◌≢◌, false, ◌<◌, arith, Option-cases, inl, inr, sym,
  true, ◌∙◌, dec_lt, ◌⊎◌, Bool-cases,
}
use ccdb.Prelude.Bytes.{slice, splice, from_le, le_bytes, Bytes, put}
use ccdb.BufferPool.Guards.{Session, Guard, open_guard}
use ccdb.Page.{page_lsn, new, read_int, write_int}
use ccdb.BufferPool.{
  State, fetch_page, fetch_slow, try_fetch_fast, read_page, install_fresh, pick_or_evict, occupy,
  pin, Disk, load_page, move_in,
}

pub read_page-in :
    (d : Disk) (pid : ℕ)
    → pid < d.len
    → d.readable pid ≡ true
    → read_page d pid ≡ some (d.contents pid)
unfolding read_page
read_page-in d pid h r = ground (arith, h, r)

read_page-out :
    (d : Disk) (pid : ℕ) → ¬ (pid < d.len) ⊎ (d.readable pid ≡ false) → read_page d pid ≡ none
unfolding read_page
read_page-out d pid (inl h) = ground (arith, h)
read_page-out d pid (inr h) = ground (arith, h)

current-file :
    (s : State) (pid : ℕ)
    → lookup pid s.shard.page_table ≡ none
    → current s pid ≡ s.disk.contents pid
unfolding current
current-file s pid e = rw (e, current)

pub record IsValid (x : Session) : Type 0 where
  pub layout : IsLayout x.state.shard x.guards
  pub content : IsContent x.state x.guards

pub page_lsn-new : (pid : ℕ) → page_lsn (new pid) ≡ 0
unfolding new read_int write_int slice splice from_le le_bytes put
page_lsn-new pid = refl

-- A call that gives a frame for a page has the page in it, pinned; other pages are as they were.
pub record Opens (s : State) (gs : List Guard) (pid : ℕ) (page : Bytes) (r : Option ℕ × State)
    : Type 0 where
  pub valid : IsValid (open_guard gs pid r)
  pub others : (q : ℕ) → q ≢ pid → current r.1 q ≡ current s q
  pub failed : r.0 ≡ none → current r.1 pid ≡ current s pid
  pub opened :
      (fid : ℕ) → r.0 ≡ some fid → (current r.1 pid ≡ page) × ((r.1.shard.frames fid).page ≡ page)

module _ {s : State} {gs : List Guard} (v : IsLayout s.shard gs) (c : IsContent s gs)
    (pid : ℕ) where
  -- A page that moves into the frame which `pick_or_evict` gave.
  pub occupy-Opens :
      (fid : ℕ) (page : Bytes) (dirty : Bool) (s' : State)
      → Picks s gs (some fid) s'
      → lookup pid s.shard.page_table ≡ none
      → set_contains pid s.shard.free_list ≡ false
      → (dirty ≡ false → page ≡ s'.disk.contents pid)
      → page_lsn page < s.log.next_lsn
      → pid < s.disk.page_count
      → Opens s gs pid page (some fid, record s' { shard = occupy s'.shard fid pid page dirty })
  occupy-Opens fid page dirty s' k m f same l b =
      let r = k.room fid refl in
      let now = λ (q : ℕ). occupy-current k.layout k.content fid pid page dirty q r.1 in
      record {
        valid = record {
          layout =
              occupy-IsLayout k.layout fid pid page dirty r.0 r.1 r.2 (ground (arith, k.free_list))
                (k.absent pid m) r.3;
          content =
              occupy-IsContent k.layout k.content fid pid page dirty r.1 same
                (omega (arith, k.next_lsn)) (omega (arith, k.page_count));
        };
        others = λ q n. ground (arith, now q, k.memory q);
        failed = λ h. cc;
        opened = λ i h. ground (arith, now pid, occupy-page s'.shard fid pid page dirty);
      }

  none-Opens :
      (page : Bytes) (found : Option ℕ) (s' : State)
      → Picks s gs found s'
      → Opens s gs pid page (none, s')
  none-Opens page found s' k = record {
    valid = record { layout = k.layout; content = k.content };
    others = λ q n. k.memory q;
    failed = λ h. k.memory pid;
    opened = λ i h. cc;
  }

  pin-Opens :
      (fid : ℕ)
      → lookup pid s.shard.page_table ≡ some fid
      → set_contains pid s.shard.free_list ≡ false
      → PinRoom s.shard pid
      → Opens s gs pid (current s pid) (some fid, record s { shard = pin s.shard fid })
  pin-Opens fid m f room = record {
    valid = record {
      layout = pin-IsLayout v fid pid m f (room fid m);
      content = pin-IsContent v c fid pid;
    };
    others = λ q n. pin-current v c fid q;
    failed = λ h. cc;
    opened = λ i h.
        ground (arith, pin-current v c fid pid, pin-page s.shard fid, current-frame s pid fid m);
  }

  pub fetch_page-miss :
      lookup pid s.shard.page_table ≡ none → fetch_page s pid ≡ load_page pid (pick_or_evict s)
  unfolding fetch_page try_fetch_fast fetch_slow
  fetch_page-miss m = ground (arith, m)

  pub fetch_page-hit :
      (fid : ℕ)
      → lookup pid s.shard.page_table ≡ some fid
      → fetch_page s pid ≡ (some fid, record s { shard = pin s.shard fid })
  unfolding fetch_page try_fetch_fast
  fetch_page-hit fid m = ground (arith, m, v.mapped pid fid m)

  -- A page that is not resident is read from the file, with its bytes there.
  load_page-Opens :
      (r : Option ℕ × State)
      → Picks s gs r.0 r.1
      → lookup pid s.shard.page_table ≡ none
      → set_contains pid s.shard.free_list ≡ false
      → Opens s gs pid (current s pid) (load_page pid r)
  unfolding load_page
  load_page-Opens (none, s') k m f = none-Opens (current s pid) none s' k
  load_page-Opens (some fid, s') k m f =
      let there = k.content.durable pid in
      let bytes : current s pid ≡ s'.disk.contents pid =
        sym (k.memory pid) ∙ current-file s' pid (k.absent pid m) in
      let not_read : ¬ (pid < s'.disk.len) ⊎ (s'.disk.readable pid ≡ false)
          → Opens s gs pid (current s pid) (load_page pid (some fid, s')) =
        λ h.
          let e : read_page s'.disk pid ≡ none = read_page-out s'.disk pid h in
          rw (e, load_page) (none-Opens (current s pid) (some fid) s' k) in
      elim (dec_lt pid s'.disk.len) [
        | no n ↦ not_read (inl n)
        | yes n ↦ elim (Bool-cases (s'.disk.readable pid)) [
          | inr r ↦ not_read (inr r)
          | inl r ↦
              let e : read_page s'.disk pid ≡ some (s'.disk.contents pid) =
                read_page-in s'.disk pid n r in
              rw (e, bytes, load_page)
                (occupy-Opens fid (s'.disk.contents pid) false s' k m f (λ _. refl)
                  (omega (arith, there, k.content.order, k.next_lsn))
                  (omega (arith, n, k.content.len, k.page_count)))
        ]
      ]

  -- Fetching gives the page as it reads.
  pub fetch_page-Opens :
      set_contains pid s.shard.free_list ≡ false
      → PinRoom s.shard pid
      → Opens s gs pid (current s pid) (fetch_page s pid)
  fetch_page-Opens f room = elim (Option-cases (lookup pid s.shard.page_table)) [
    | inl m ↦
        rw (fetch_page-miss m) (load_page-Opens (pick_or_evict s) (pick_or_evict-Picks v c) m f)
    | inr (fid, m) ↦ rw (fetch_page-hit fid m) (pin-Opens fid m f room)
  ]

  move_in-Opens :
      (r : Option ℕ × State)
      → Picks s gs r.0 r.1
      → lookup pid s.shard.page_table ≡ none
      → set_contains pid s.shard.free_list ≡ false
      → pid < s.disk.page_count
      → Opens s gs pid (new pid) (move_in pid r)
  unfolding move_in
  move_in-Opens (none, s') k m f b = none-Opens (new pid) none s' k
  move_in-Opens (some fid, s') k m f b =
      occupy-Opens fid (new pid) true s' k m f (λ h. cc) (omega (arith, page_lsn-new pid, c.order))
        b

  pub install_fresh-Opens :
      lookup pid s.shard.page_table ≡ none
      → set_contains pid s.shard.free_list ≡ false
      → pid < s.disk.page_count
      → Opens s gs pid (new pid) (install_fresh s pid)
  unfolding install_fresh
  install_fresh-Opens m f b = move_in-Opens (pick_or_evict s) (pick_or_evict-Picks v c) m f b
