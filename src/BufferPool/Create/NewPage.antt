-- ===== src/BufferPool/Create/NewPage.antt =====
-- src/buffer_pool.rs, src/disk.rs: `new_page`, on a recycled page or at the end of the file.
use ccdb.BufferPool.Create.{next_page, install_recycled-Opens}
use ccdb.Prelude.Eq.{nat_eq}
use ccdb.BufferPool.Layout.Steps.{pop_page-IsLayout}
use ccdb.Prelude.Sets.{set_contains}
use ccdb.BufferPool.Valid.{page_lsn-new, IsValid, Opens, install_fresh-Opens}
use ccdb.Prelude.Map.{lookup}
use ccdb.BufferPool.Content.{IsContent, current}
use ccdb.Prelude.Bytes.{Bytes}
use ccdb.Prelude.{
  [], List, ℕ, Option, ◌≢◌, ◌≡◌, ◌∷◌, none, refl, some, true, ◌∙◌, false, Bool-cases, arith,
  Option-cases, inr, ap, inl, length, ◌+◌, ◌<◌, ◌%◌, ◌^◌, List-cases, ◌≤◌, if◌then◌else◌,
}
use ccdb.BufferPool.{install_recycled, install_fresh, allocate_page, write_page, State, Disk}
use ccdb.BufferPool.Guards.{new_page, open_guard, Session, Guard}
use ccdb.Page.{new, page_lsn}

-- What a call that opens a guard gives, as the caller sees it.
pub open_guard-page :
    {s : State} {gs : List Guard} (pid : ℕ) {page : Bytes} (r : Option ℕ × State) (g : Guard)
    → Opens s gs pid page r
    → (open_guard gs pid r).guards ≡ g ∷ gs
    → (g.page_id ≡ pid) × (current r.1 pid ≡ page) × ((r.1.shard.frames g.fid).page ≡ page)
open_guard-page {gs} pid (none, s') g o e = absurd (omega (arith, ap length e))
open_guard-page pid (some fid, s') g o e = ground (arith, e, o.opened fid refl)

-- A new page, pinned by a new guard if there is one; the other pages are as they were.
pub record Created (x : Session) (pid : ℕ) (y : Session) : Type 0 where
  pub valid : IsValid y
  pub others : (q : ℕ) → q ≢ pid → current y.state q ≡ current x.state q
  pub page :
      (g : Guard)
      → y.guards ≡ g ∷ x.guards
      → (g.page_id ≡ pid)
        × (current y.state pid ≡ new pid)
        × ((y.state.shard.frames g.fid).page ≡ new pid)

pub open_guard-state :
    (gs : List Guard) (pid : ℕ) (r : Option ℕ × State) → (open_guard gs pid r).state ≡ r.1
open_guard-state gs pid (none, s) = refl
open_guard-state gs pid (some fid, s) = refl

open_guard-Created :
    (x : Session) (pid : ℕ) (s' : State) (r : Option ℕ × State)
    → ((q : ℕ) → q ≢ pid → current s' q ≡ current x.state q)
    → Opens s' x.guards pid (new pid) r
    → Created x pid (open_guard x.guards pid r)
open_guard-Created x pid s' r m o = record {
  valid = o.valid;
  others = λ q n. ap (λ s. current s q) (open_guard-state x.guards pid r) ∙ o.others q n ∙ m q n;
  page = λ g e. rw (open_guard-state x.guards pid r) (open_guard-page pid r g o e);
}

allocate_page_lem :
    (d : Disk) (i : ℕ)
    → d.page_count + 1 < 2 ^ 32
    → ((allocate_page d).1.page_count ≡ d.page_count + 1)
      × (d.len ≤ d.page_count → (allocate_page d).1.len ≤ d.page_count + 1)
      × (i ≢ d.page_count → (allocate_page d).1.contents i ≡ d.contents i)
      × (page_lsn ((allocate_page d).1.contents i) ≤ page_lsn (d.contents i))
unfolding allocate_page write_page
allocate_page_lem d i h =
    let e : (d.page_count + 1) % 2 ^ 32 ≡ d.page_count + 1 = omega arith in
    (ground (arith, e), ground (arith, e), ground arith, ground (arith, page_lsn-new d.page_count))

listed-head : (pid : ℕ) (rest xs : List ℕ) → xs ≡ pid ∷ rest → set_contains pid xs ≡ true
unfolding set_contains
listed-head pid rest xs e = ground (arith, e)

listed-tail :
    (q pid : ℕ) (rest xs : List ℕ)
    → xs ≡ pid ∷ rest
    → set_contains q rest ≡ true
    → set_contains q xs ≡ true
unfolding set_contains
listed-tail q pid rest xs e h = ground (arith, e, h)

popped : Session → List ℕ → State
popped x rest = record (x.state) { shard = record (x.state.shard) { free_list = rest } }

popped-current :
    (x : Session) (pid : ℕ) (rest : List ℕ) (q : ℕ)
    → q ≢ pid
    → current (popped x rest) q ≡ current x.state q
unfolding popped current
popped-current x pid rest q n = refl

popped-IsContent :
    (x : Session)
    → IsValid x
    → (pid : ℕ) (rest : List ℕ) → x.state.shard.free_list ≡ pid ∷ rest
    → IsContent (popped x rest) x.guards
unfolding popped
popped-IsContent x v pid rest e =
    let c = v.content in
    record {
      clean = c.clean;
      logged = c.logged;
      durable = c.durable;
      order = c.order;
      len = c.len;
      counted = c.counted;
      listed = λ q h. c.listed q (listed-tail q pid rest x.state.shard.free_list e h);
    }

module _ (x : Session) (v : IsValid x) where
  extended : State
  extended = record (x.state) { disk = (allocate_page x.state.disk).1 }

  extended-IsContent : x.state.disk.page_count + 1 < 2 ^ 32 → IsContent extended x.guards
  unfolding extended
  extended-IsContent b =
      let c = v.content in
      let d = x.state.disk in
      record {
        clean = λ i q h k n. ground (arith, c.clean i q, c.counted i q, allocate_page_lem d q b);
        logged = c.logged;
        durable = λ q. omega (arith, c.durable q, (allocate_page_lem d q b).3);
        order = c.order;
        len = ground (arith, allocate_page_lem d 0 b, c.len);
        counted = λ i q h. omega (arith, c.counted i q h, (allocate_page_lem d 0 b).0);
        listed = λ q h. omega (arith, c.listed q h, (allocate_page_lem d 0 b).0);
      }

  extended-current :
      (q : ℕ)
      → x.state.disk.page_count + 1 < 2 ^ 32
      → q ≢ x.state.disk.page_count
      → current extended q ≡ current x.state q
  unfolding extended current
  extended-current q b n = ground (arith, allocate_page_lem x.state.disk q b)

  unallocated : lookup x.state.disk.page_count x.state.shard.page_table ≡ none
  unallocated =
      let n = x.state.disk.page_count in
      elim (Option-cases (lookup n x.state.shard.page_table)) [
        | inl e ↦ e
        | inr (fid, e) ↦ absurd (omega (arith, v.content.counted fid n (v.layout.mapped n fid e).1))
      ]

  extend-Created :
      x.state.shard.free_list ≡ []
      → x.state.disk.page_count + 1 < 2 ^ 32
      → Created x x.state.disk.page_count (
          if (allocate_page x.state.disk).0
          then open_guard x.guards x.state.disk.page_count
              (install_fresh extended x.state.disk.page_count)
          else record x { state = extended })
  unfolding extended set_contains
  extend-Created e b =
      let n = x.state.disk.page_count in
      let none_listed : set_contains n x.state.shard.free_list ≡ false = rw (e, set_contains) in
      elim (Bool-cases (allocate_page x.state.disk).0) [
        | inl y ↦ rw y (
            open_guard-Created x n extended (install_fresh extended n) (λ q. extended-current q b)
              (install_fresh-Opens v.layout (extended-IsContent b) n unallocated none_listed
                (omega (arith, (allocate_page_lem x.state.disk 0 b).0))))
        | inr y ↦ rw y (record {
          valid = record { layout = v.layout; content = extended-IsContent b };
          others = λ q. extended-current q b;
          page = λ g k. absurd (omega (arith, ap length k));
        })
      ]

-- A new page is an empty one, recycled or from the end of the file.
pub new_page-Created :
    (x : Session)
    → IsValid x
    → (x.state.shard.free_list ≡ [] → x.state.disk.page_count + 1 < 2 ^ 32)
    → Created x (next_page x.state) (new_page x)
unfolding new_page extended popped
new_page-Created x v b = elim (List-cases x.state.shard.free_list) [
  | inl e ↦
      let n = x.state.disk.page_count in
      let same : new_page x ≡ (
          if (allocate_page x.state.disk).0
          then open_guard x.guards n (install_fresh (extended x v) n)
          else record x { state = extended x v }) =
        ground (arith, e) in
      let here : next_page x.state ≡ n = ground (arith, e) in
      rw (same, here) (extend-Created x v e (b e))
  | inr (pid, rest, e) ↦
      let p = pop_page-IsLayout v.layout pid rest e in
      let s' : State = record (x.state) { shard = record (x.state.shard) { free_list = rest } } in
      let same : new_page x ≡ open_guard x.guards pid (install_recycled s' pid) =
        ground (arith, e) in
      let here : next_page x.state ≡ pid = ground (arith, e) in
      rw (same, here)
        (open_guard-Created x pid s' (install_recycled s' pid) (popped-current x pid rest) (
          install_recycled-Opens p.0 (popped-IsContent x v pid rest e) pid p.1 p.2
            (v.content.listed pid (listed-head pid rest x.state.shard.free_list e))))
]
