-- ===== src/BufferPool/Guards.antt =====
-- src/buffer_pool.rs: `PageGuard`, and what its holders do with a shard, one call after the other.
use ccdb.Prelude.Bytes.{Bytes}
use ccdb.BufferPool.{State, set_frame, install_fresh, install_recycled, allocate_page, release}
use ccdb.Prelude.{
  ℕ, zero, suc, ◌+◌, ◌≡◌, Bool, true, false, ◌&&◌, ◌||◌, List, [], ◌∷◌, Option, some, none, ◌==◌,
  if◌then◌else◌, get_elem?, set, arith, refl,
}

pub record Guard : Type 0 where
  pub page_id : ℕ
  pub fid : ℕ
  pub mutated : Bool

-- A shard and the live guards on its pages.
pub record Session : Type 0 where
  pub state : State
  pub guards : List Guard

unfoldable pub remove_at {ℓ} : {A : Type ℓ} → ℕ → List A → List A
remove_at i [] = []
remove_at zero (x ∷ xs) = xs
remove_at (suc i) (x ∷ xs) = x ∷ remove_at i xs

-- `PageGuard::new` on what the pool gives, where it gives a frame.
abbrev pub open_guard : List Guard → ℕ → Option ℕ × State → Session
open_guard gs pid (fid, s) = elim fid [
  | none ↦ record { state = s; guards = gs }
  | some i ↦ record { state = s; guards = record { page_id = pid; fid = i; mutated = false } ∷ gs }
]

-- `BufferPool::new_page`, on the shard of the page that it takes.
unfoldable pub new_page : Session → Session
unfolding install_recycled install_fresh allocate_page
new_page x =
    let s = x.state in
    elim s.shard.free_list [
      | pid ∷ rest ↦
          let s' : State = record s { shard = record (s.shard) { free_list = rest } } in
          open_guard x.guards pid (install_recycled s' pid)
      | [] ↦
          let pid = s.disk.page_count in
          let a = allocate_page s.disk in
          let s' : State = record s { disk = a.1 } in
          if a.0 then open_guard x.guards pid (install_fresh s' pid) else record x { state = s' }
    ]

-- `PageGuard::write`, and the bytes that are written through it.
unfoldable pub write : Session → ℕ → Bytes → Session
write x i page = elim (get_elem? x.guards i) [
  | none ↦ x
  | some g ↦
      let sh = x.state.shard in
      record {
        state = record (x.state) {
          shard = set_frame sh g.fid (record (sh.frames g.fid) { page = page });
        };
        guards = set x.guards i (record g { mutated = true });
      }
]

-- `Drop for PageGuard`
unfoldable pub drop_guard : Session → ℕ → Session
unfolding release remove_at
drop_guard x i = elim (get_elem? x.guards i) [
  | none ↦ x
  | some g ↦ record {
    state = record (x.state) { shard = release x.state.shard g.page_id g.fid g.mutated };
    guards = remove_at i x.guards;
  }
]

-- How many guards are on a frame, and whether one of them has written.
unfoldable pub pins : ℕ → List Guard → ℕ
pins fid [] = 0
pins fid (g ∷ gs) = (if g.fid == fid then 1 else 0) + pins fid gs

unfoldable pub writing : ℕ → List Guard → Bool
writing fid [] = false
writing fid (g ∷ gs) = (g.fid == fid && g.mutated) || writing fid gs

pub writing-pins : (fid : ℕ) (gs : List Guard) → pins fid gs ≡ 0 → writing fid gs ≡ false
unfolding pins writing
writing-pins fid [] h = refl
writing-pins fid (g ∷ gs) h = ground (arith, writing-pins fid gs)

pub pins-remove_at :
    (fid i : ℕ) (gs : List Guard) {g : Guard}
    → get_elem? gs i ≡ some g
    → pins fid gs ≡ pins fid (remove_at i gs) + (if g.fid == fid then 1 else 0)
unfolding pins remove_at
pins-remove_at fid i [] h = cc
pins-remove_at fid zero (k ∷ gs) h = ground arith
pins-remove_at fid (suc i) (k ∷ gs) {g} h = ground (arith, pins-remove_at fid i gs {g = g} h)

pub writing-remove_at :
    (fid i : ℕ) (gs : List Guard) {g : Guard}
    → get_elem? gs i ≡ some g
    → writing fid gs ≡ ((g.fid == fid && g.mutated) || writing fid (remove_at i gs))
unfolding writing remove_at
writing-remove_at fid i [] h = cc
writing-remove_at fid zero (k ∷ gs) h = ground arith
writing-remove_at fid (suc i) (k ∷ gs) {g} h = ground (arith, writing-remove_at fid i gs {g = g} h)

pub pins-set :
    (fid i : ℕ) (gs : List Guard) {g : Guard} (b : Bool)
    → get_elem? gs i ≡ some g
    → pins fid (set gs i (record g { mutated = b })) ≡ pins fid gs
unfolding pins
pins-set fid i [] b h = cc
pins-set fid zero (k ∷ gs) b h = ground arith
pins-set fid (suc i) (k ∷ gs) {g} b h = ground (arith, pins-set fid i gs {g = g} b h)

pub writing-set :
    (fid i : ℕ) (gs : List Guard) {g : Guard}
    → get_elem? gs i ≡ some g
    → writing fid (set gs i (record g { mutated = true })) ≡ (g.fid == fid || writing fid gs)
unfolding writing
writing-set fid i [] h = cc
writing-set fid zero (k ∷ gs) h = ground arith
writing-set fid (suc i) (k ∷ gs) {g} h = ground (arith, writing-set fid i gs {g = g} h)
