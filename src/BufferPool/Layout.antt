-- ===== src/BufferPool/Layout.antt =====
-- src/buffer_pool.rs: the page table, the frames and the guards of a shard fit together.
pub mod Steps
use ccdb.Prelude.Bytes.{Bytes}
use ccdb.Prelude.Map.{lookup, insert, remove, lookup-insert, lookup-remove}
use ccdb.Prelude.Eq.{nat_eq}
use ccdb.BufferPool.{Frame, Shard, set_frame, unmap, cleared, occupy, pin, release, clean}
use ccdb.BufferPool.Clock.{Swept}
use ccdb.BufferPool.Guards.{Guard, pins, remove_at, pins-remove_at}
use ccdb.Prelude.Sets.{set_contains}
use ccdb.Prelude.{
  set, ℕ, zero, suc, ◌^◌, ◌+◌, ◌-◌, ◌<◌, ◌≡◌, ◌≢◌, Bool, true, false, not, ◌&&◌, ◌||◌, List, [],
  ◌∷◌, Option, some, none, ltb, leb, ◌==◌, if◌then◌else◌, arith, refl, sym, ◌∙◌, get_elem?, inl,
  inr, Bool-cases, Option-cases, ==_iff,
}

-- No element twice.
abbrev pub Distinct : List ℕ → Type 0
Distinct [] = Unit {0}
Distinct (x ∷ xs) = (set_contains x xs ≡ false) × Distinct xs

-- Each guard's frame holds the guard's page.
abbrev pub Held : (ℕ → Frame) → List Guard → Type 0
Held frames [] = Unit {0}
Held frames (g ∷ gs) = ((frames g.fid).page_id ≡ some g.page_id) × Held frames gs

pub record IsLayout (sh : Shard) (gs : List Guard) : Type 0 where
  pub arm : sh.arm < sh.capacity
  pub mapped :
      (pid fid : ℕ)
      → lookup pid sh.page_table ≡ some fid
      → (fid < sh.capacity) × ((sh.frames fid).page_id ≡ some pid)
  pub resident :
      (fid pid : ℕ) → (sh.frames fid).page_id ≡ some pid → lookup pid sh.page_table ≡ some fid
  pub unused :
      (fid : ℕ)
      → set_contains fid sh.free_frames ≡ true
      → (fid < sh.capacity) × ((sh.frames fid).page_id ≡ none)
  pub distinct : Distinct sh.free_frames
  pub pinned : (fid : ℕ) → (sh.frames fid).pin_count ≡ pins fid gs
  pub held : Held sh.frames gs
  pub recycled :
      (pid fid : ℕ)
      → set_contains pid sh.free_list ≡ true
      → lookup pid sh.page_table ≡ some fid
      → (sh.frames fid).pin_count ≡ 0
  pub once : Distinct sh.free_list

-- The frame of the page, if it has one, can be pinned once more.
abbrev pub PinRoom : Shard → ℕ → Type 0
PinRoom sh pid =
    (fid : ℕ) → lookup pid sh.page_table ≡ some fid → (sh.frames fid).pin_count + 1 < 2 ^ 32

-- A guard's frame keeps its page where the pinned frames do.
pub Held-keep :
    (f f' : ℕ → Frame) (gs : List Guard)
    → ((fid : ℕ) → 0 < pins fid gs → (f' fid).page_id ≡ (f fid).page_id)
    → Held f gs
    → Held f' gs
unfolding pins
Held-keep f f' [] h k = tt
Held-keep f f' (g ∷ gs) h k =
    (h g.fid (ground arith) ∙ k.0, Held-keep f f' gs (λ fid p. h fid (omega arith)) k.1)

pub Held-lookup :
    (f : ℕ → Frame) (i : ℕ) (gs : List Guard) {g : Guard}
    → Held f gs
    → get_elem? gs i ≡ some g
    → (f g.fid).page_id ≡ some g.page_id
Held-lookup f i [] h e = cc
Held-lookup f zero (k ∷ gs) h e = ground arith
Held-lookup f (suc i) (k ∷ gs) {g} h e = Held-lookup f i gs {g = g} h.1 e

pub Held-set :
    (f : ℕ → Frame) (i : ℕ) (gs : List Guard) {g : Guard}
    → Held f gs
    → get_elem? gs i ≡ some g
    → Held f (set gs i (record g { mutated = true }))
Held-set f i [] h e = tt
Held-set f zero (k ∷ gs) h e = (ground (arith, h.0), h.1)
Held-set f (suc i) (k ∷ gs) {g} h e = (h.0, Held-set f i gs {g = g} h.1 e)

pub Held-remove_at : (f : ℕ → Frame) (i : ℕ) (gs : List Guard) → Held f gs → Held f (remove_at i gs)
unfolding remove_at
Held-remove_at f i [] h = tt
Held-remove_at f zero (k ∷ gs) h = h.1
Held-remove_at f (suc i) (k ∷ gs) h = (h.0, Held-remove_at f i gs h.1)

module _ {sh : Shard} {gs : List Guard} (v : IsLayout sh gs) where
  pub Swept-IsLayout : {sh' : Shard} → Swept sh sh' → sh'.arm < sh.capacity → IsLayout sh' gs
  Swept-IsLayout {sh'} w a = record {
    arm = omega (arith, w.capacity, a);
    mapped = λ pid fid h.
        ground (arith, w.table, w.capacity, w.page_id fid, v.mapped pid fid (rw (← w.table) h));
    resident = λ fid pid h. rw w.table (v.resident fid pid (sym (w.page_id fid) ∙ h));
    unused =
        λ fid h. ground (arith, w.capacity, w.page_id fid, v.unused fid (rw (← w.free_frames) h));
    distinct = rw w.free_frames v.distinct;
    pinned = λ fid. w.pin_count fid ∙ v.pinned fid;
    held = Held-keep sh.frames sh'.frames gs (λ fid _. w.page_id fid) v.held;
    recycled = λ pid fid h k.
        w.pin_count fid ∙ v.recycled pid fid (rw (← w.free_list) h) (rw (← w.table) k);
    once = rw w.free_list v.once;
  }

  -- An unpinned frame gives up its page.
  pub unmap-IsLayout :
      (fid pid : ℕ)
      → (sh.frames fid).page_id ≡ some pid
      → (sh.frames fid).pin_count ≡ 0
      → IsLayout (unmap sh fid pid) gs
  unfolding unmap
  unmap-IsLayout fid pid e p = record {
    arm = v.arm;
    mapped = λ q i h. ground (
      arith,
      lookup-remove pid q sh.page_table,
      v.mapped q i,
      v.resident fid pid e,
      nat_eq.beq_iff pid q,
    );
    resident = λ i q h. ground (
      arith,
      lookup-remove pid q sh.page_table,
      v.resident i q,
      v.resident fid pid e,
      nat_eq.beq_iff pid q,
    );
    unused = λ i h. ground (arith, v.unused i);
    distinct = v.distinct;
    pinned = λ i. ground (arith, v.pinned i, p);
    held =
        Held-keep sh.frames (unmap sh fid pid).frames gs (λ i q. ground (arith, v.pinned i, p))
          v.held;
    recycled = λ q i h k. ground (arith, v.recycled q i, lookup-remove pid q sh.page_table);
    once = v.once;
  }

  pub cleared-IsLayout :
      (fid : ℕ)
      → (sh.frames fid).page_id ≡ none
      → (sh.frames fid).pin_count ≡ 0
      → IsLayout (set_frame sh fid (cleared (sh.frames fid))) gs
  cleared-IsLayout fid e p = record {
    arm = v.arm;
    mapped = λ q i h. ground (arith, v.mapped q i);
    resident = λ i q h. ground (arith, v.resident i q);
    unused = λ i h. ground (arith, v.unused i);
    distinct = v.distinct;
    pinned = λ i. ground (arith, v.pinned i, p);
    held =
        Held-keep sh.frames (set_frame sh fid (cleared (sh.frames fid))).frames gs
          (λ i q. ground (arith, v.pinned i, p)) v.held;
    recycled = λ q i h k. ground (arith, v.recycled q i);
    once = v.once;
  }
