-- ===== src/BufferPool/Create.antt =====
-- src/buffer_pool.rs, src/disk.rs: a new page, recycled or at the end of the file.
pub mod NewPage
use ccdb.Prelude.Eq.{nat_eq}
use ccdb.BufferPool.Layout.Steps.{push_frame-IsLayout, pop_page-IsLayout}
use ccdb.Prelude.Sets.{set_contains}
use ccdb.BufferPool.Valid.{page_lsn-new, IsValid, Opens, install_fresh-Opens}
use ccdb.BufferPool.Content.Evict.{Evicts, evict-Evicts}
use ccdb.Prelude.Map.{lookup}
use ccdb.BufferPool.Content.{IsContent, current}
use ccdb.Prelude.Bytes.{Bytes}
use ccdb.BufferPool.Layout.{IsLayout}
use ccdb.Prelude.{
  [], List, ℕ, Option, ◌<◌, Bool, ◌≢◌, ◌≡◌, ◌∷◌, none, refl, some, true, ◌∙◌, false, Bool-cases,
  arith, Option-cases, inr, ap, inl, length, ◌+◌, List-cases, ◌≤◌, if◌then◌else◌,
}
use ccdb.BufferPool.{install_recycled, install_fresh, evict, allocate_page, write_page, State, Disk}
use ccdb.BufferPool.Guards.{new_page, open_guard, Session, Guard}
use ccdb.Page.{new, page_lsn}

-- The page that the next `new_page` takes.
abbrev pub next_page : State → ℕ
next_page s = elim s.shard.free_list [ [] ↦ s.disk.page_count | pid ∷ _ ↦ pid ]

-- A call on a state that reads as `s` does is one on `s`.
Opens-from :
    {s s' : State} {gs : List Guard} {pid : ℕ} {page : Bytes} {r : Option ℕ × State}
    → ((q : ℕ) → q ≢ pid → current s' q ≡ current s q)
    → (r.0 ≡ none → current s' pid ≡ current s pid)
    → Opens s' gs pid page r
    → Opens s gs pid page r
Opens-from m f o = record {
  valid = o.valid;
  others = λ q n. o.others q n ∙ m q n;
  failed = λ h. o.failed h ∙ f h;
  opened = o.opened;
}

module _ {s : State} {gs : List Guard} (v : IsLayout s.shard gs) (c : IsContent s gs)
    (pid : ℕ) where
  -- An evicted frame goes on top of the free ones.
  push_frame-IsValid :
      (fid : ℕ)
      → fid < s.shard.capacity
      → (s.shard.frames fid).page_id ≡ none
      → set_contains fid s.shard.free_frames ≡ false
      → IsValid (record {
        state = record s { shard = record (s.shard) { free_frames = fid ∷ s.shard.free_frames } };
        guards = gs;
      })
  push_frame-IsValid fid b e n = record {
    layout = push_frame-IsLayout v fid b e n;
    content = record {
      clean = c.clean;
      logged = c.logged;
      durable = c.durable;
      order = c.order;
      len = c.len;
      counted = c.counted;
      listed = c.listed;
    };
  }

  push_frame-current :
      (fid q : ℕ)
      → current
          (record s { shard = record (s.shard) { free_frames = fid ∷ s.shard.free_frames } })
          q
        ≡ current s q
  unfolding current
  push_frame-current fid q = refl

  resident-ne-free :
      (fid : ℕ)
      → lookup pid s.shard.page_table ≡ some fid
      → set_contains fid s.shard.free_frames ≡ false
  resident-ne-free fid m = elim (Bool-cases (set_contains fid s.shard.free_frames)) [
    | inr n ↦ n
    | inl h ↦ absurd (ground (arith, v.unused fid h, v.mapped pid fid m))
  ]

module _ {s : State} {gs : List Guard} (v : IsLayout s.shard gs) (c : IsContent s gs)
    (pid : ℕ) where
  -- What follows the eviction of the stale copy.
  evicted-Opens :
      (fid : ℕ) (e : Bool × State)
      → Evicts s gs fid e.0 e.1
      → e.0 ≡ true
      → lookup pid s.shard.page_table ≡ some fid
      → set_contains pid s.shard.free_list ≡ false
      → pid < s.disk.page_count
      → Opens s gs pid (new pid) (
          install_fresh
            (record (e.1) {
              shard = record (e.1.shard) { free_frames = fid ∷ e.1.shard.free_frames };
            })
            pid)
  evicted-Opens fid (done, s') e d m f b =
      let w =
        push_frame-IsValid e.layout e.content pid fid
          (omega (arith, e.capacity, v.mapped pid fid m)) (e.empty d)
          (ap (set_contains fid) e.free_frames ∙ resident-ne-free v c pid fid m) in
      Opens-from (λ q _. push_frame-current e.layout e.content pid fid q ∙ e.memory q)
        (λ _. push_frame-current e.layout e.content pid fid pid ∙ e.memory pid)
        (install_fresh-Opens w.layout w.content pid (e.unmapped pid d m)
          (ap (set_contains pid) e.free_list ∙ f) (omega (arith, e.page_count)))

  -- The stale copy of a recycled page is unpinned, and goes first.
  pub install_recycled-Opens :
      ((fid : ℕ) → lookup pid s.shard.page_table ≡ some fid → (s.shard.frames fid).pin_count ≡ 0)
      → set_contains pid s.shard.free_list ≡ false
      → pid < s.disk.page_count
      → Opens s gs pid (new pid) (install_recycled s pid)
  unfolding install_recycled
  install_recycled-Opens free f b = elim (Option-cases (lookup pid s.shard.page_table)) [
    | inl m ↦
        let same : install_recycled s pid ≡ install_fresh s pid = ground (arith, m) in
        rw same (install_fresh-Opens v c pid m f b)
    | inr (fid, m) ↦
        let e = evict-Evicts v c fid (free fid m) in
        elim (Bool-cases (evict s fid).0) [
          | inl d ↦
              let same : install_recycled s pid
                  ≡ install_fresh
                      (record ((evict s fid).1) {
                        shard = record ((evict s fid).1.shard) {
                          free_frames = fid ∷ (evict s fid).1.shard.free_frames;
                        };
                      })
                      pid =
                ground (arith, m, d) in
              rw same (evicted-Opens fid (evict s fid) e d m f b)
          | inr d ↦
              let same : install_recycled s pid ≡ (none, (evict s fid).1) = ground (arith, m, d) in
              rw same (record {
                valid = record { layout = e.layout; content = e.content };
                others = λ q n. e.memory q;
                failed = λ h. e.memory pid;
                opened = λ i h. cc;
              })
        ]
  ]
