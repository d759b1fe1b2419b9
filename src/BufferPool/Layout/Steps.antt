-- ===== src/BufferPool/Layout/Steps.antt =====
-- src/buffer_pool.rs: the steps that pin, release, write and clean a frame keep the shard's layout.
use ccdb.Prelude.Eq.{nat_eq}
use ccdb.Prelude.Map.{lookup, Map, lookup-insert}
use ccdb.Prelude.Bytes.{Bytes}
use ccdb.Prelude.Sets.{set_contains}
use ccdb.BufferPool.Layout.{IsLayout, Distinct, Held-keep, Held-remove_at}
use ccdb.BufferPool.Guards.{Guard, pins, remove_at, pins-remove_at}
use ccdb.Prelude.{
  List, ℕ, ◌≡◌, ◌<◌, ◌+◌, ◌%◌, ◌^◌, get_elem?, ◌∷◌, none, false, some, arith, Bool, subst,
}
use ccdb.BufferPool.{release, Shard, recycle_page, occupy, pin, Frame, set_frame}

module _ {sh : Shard} {gs : List Guard} (v : IsLayout sh gs) where
  pub pop_frame-IsLayout :
      (fid : ℕ) (rest : List ℕ)
      → sh.free_frames ≡ fid ∷ rest
      → IsLayout (record sh { free_frames = rest }) gs
        × (fid < sh.capacity)
        × ((sh.frames fid).page_id ≡ none)
        × (set_contains fid rest ≡ false)
  unfolding set_contains
  pop_frame-IsLayout fid rest e =
      let here = v.unused fid (rw (e, set_contains) (ground arith)) in
      let d : Distinct (fid ∷ rest) = subst Distinct e v.distinct in
      (
        record {
          arm = v.arm;
          mapped = v.mapped;
          resident = v.resident;
          unused = λ i h. v.unused i (rw e (ground arith));
          distinct = d.1;
          pinned = v.pinned;
          held = v.held;
          recycled = v.recycled;
          once = v.once;
        },
        here.0,
        here.1,
        d.0,
      )

  pub push_frame-IsLayout :
      (fid : ℕ)
      → fid < sh.capacity
      → (sh.frames fid).page_id ≡ none
      → set_contains fid sh.free_frames ≡ false
      → IsLayout (record sh { free_frames = fid ∷ sh.free_frames }) gs
  unfolding set_contains
  push_frame-IsLayout fid b e n = record {
    arm = v.arm;
    mapped = v.mapped;
    resident = v.resident;
    unused = λ i h. ground (arith, v.unused i);
    distinct = (n, v.distinct);
    pinned = v.pinned;
    held = v.held;
    recycled = v.recycled;
    once = v.once;
  }

  pub pop_page-IsLayout :
      (pid : ℕ) (rest : List ℕ)
      → sh.free_list ≡ pid ∷ rest
      → IsLayout (record sh { free_list = rest }) gs
        × ((fid : ℕ) → lookup pid sh.page_table ≡ some fid → (sh.frames fid).pin_count ≡ 0)
        × (set_contains pid rest ≡ false)
  unfolding set_contains
  pop_page-IsLayout pid rest e =
      let d : Distinct (pid ∷ rest) = subst Distinct e v.once in
      (
        record {
          arm = v.arm;
          mapped = v.mapped;
          resident = v.resident;
          unused = v.unused;
          distinct = v.distinct;
          pinned = v.pinned;
          held = v.held;
          recycled = λ q i h. v.recycled q i (rw e (ground arith));
          once = d.1;
        },
        λ fid. v.recycled pid fid (rw (e, set_contains) (ground arith)),
        d.0,
      )

  pub recycle_page-IsLayout :
      (pid : ℕ)
      → set_contains pid sh.free_list ≡ false
      → ((fid : ℕ) → lookup pid sh.page_table ≡ some fid → (sh.frames fid).pin_count ≡ 0)
      → IsLayout (recycle_page sh pid) gs
  unfolding recycle_page set_contains
  recycle_page-IsLayout pid n free = record {
    arm = v.arm;
    mapped = v.mapped;
    resident = v.resident;
    unused = v.unused;
    distinct = v.distinct;
    pinned = v.pinned;
    held = v.held;
    recycled = λ q i h k. ground (arith, v.recycled q i, free i);
    once = (n, v.once);
  }

  -- A page moves into an empty frame, with a guard on it.
  pub occupy-IsLayout :
      (fid pid : ℕ) (page : Bytes) (dirty : Bool)
      → fid < sh.capacity
      → (sh.frames fid).page_id ≡ none
      → set_contains fid sh.free_frames ≡ false
      → set_contains pid sh.free_list ≡ false
      → lookup pid sh.page_table ≡ none
      → pins fid gs ≡ 0
      → IsLayout
          (occupy sh fid pid page dirty)
          (record { page_id = pid; fid = fid; mutated = false } ∷ gs)
  unfolding occupy pins
  occupy-IsLayout fid pid page dirty b e n r m p = record {
    arm = v.arm;
    mapped = λ q i h.
        ground (arith, lookup-insert pid q fid sh.page_table, v.mapped q i, nat_eq.beq_iff pid q);
    resident = λ i q h.
        ground (arith, lookup-insert pid q fid sh.page_table, v.resident i q, nat_eq.beq_iff pid q);
    unused = λ i h. ground (arith, v.unused i);
    distinct = v.distinct;
    pinned = λ i. ground (arith, v.pinned i);
    held = (
      ground arith,
      Held-keep sh.frames (occupy sh fid pid page dirty).frames gs (λ i q. ground arith) v.held,
    );
    recycled = λ q i h k. ground (
      arith,
      lookup-insert pid q fid sh.page_table,
      v.recycled q i,
      v.mapped q i,
      nat_eq.beq_iff pid q,
    );
    once = v.once;
  }

  pub pin-IsLayout :
      (fid pid : ℕ)
      → lookup pid sh.page_table ≡ some fid
      → set_contains pid sh.free_list ≡ false
      → (sh.frames fid).pin_count + 1 < 2 ^ 32
      → IsLayout (pin sh fid) (record { page_id = pid; fid = fid; mutated = false } ∷ gs)
  unfolding pin pins
  pin-IsLayout fid pid m r b = record {
    arm = v.arm;
    mapped = λ q i h. ground (arith, v.mapped q i);
    resident = λ i q h. ground (arith, v.resident i q);
    unused = λ i h. ground (arith, v.unused i);
    distinct = v.distinct;
    pinned = λ i.
        let e : ((sh.frames fid).pin_count + 1) % 2 ^ 32 ≡ (sh.frames fid).pin_count + 1 =
          omega arith in
        ground (arith, v.pinned i, e);
    held = (
      ground (arith, v.mapped pid fid m),
      Held-keep sh.frames (pin sh fid).frames gs (λ i q. ground arith) v.held,
    );
    recycled = λ q i h k. ground (arith, v.recycled q i, v.mapped q i, v.mapped pid fid m);
    once = v.once;
  }

  -- A frame that keeps its page and its pins keeps the layout.
  pub same-IsLayout :
      (fid : ℕ) (f : Frame) (dpt : Map ℕ ℕ)
      → f.page_id ≡ (sh.frames fid).page_id
      → f.pin_count ≡ (sh.frames fid).pin_count
      → IsLayout (set_frame (record sh { dpt = dpt }) fid f) gs
  same-IsLayout fid f dpt e p = record {
    arm = v.arm;
    mapped = λ q i h. ground (arith, v.mapped q i);
    resident = λ i q h. ground (arith, v.resident i q);
    unused = λ i h. ground (arith, v.unused i);
    distinct = v.distinct;
    pinned = λ i. ground (arith, v.pinned i);
    held =
        Held-keep sh.frames (set_frame (record sh { dpt = dpt }) fid f).frames gs
          (λ i q. ground arith) v.held;
    recycled = λ q i h k. ground (arith, v.recycled q i);
    once = v.once;
  }

  pub release-IsLayout :
      (i : ℕ) {g : Guard}
      → get_elem? gs i ≡ some g
      → IsLayout (release sh g.page_id g.fid g.mutated) (remove_at i gs)
  unfolding release
  release-IsLayout i {g} e = record {
    arm = ground (arith, v.arm);
    mapped = λ q j h. ground (arith, v.mapped q j);
    resident = λ j q h. ground (arith, v.resident j q);
    unused = λ j h. ground (arith, v.unused j);
    distinct = ground (arith, v.distinct);
    pinned = λ j. ground (arith, v.pinned j, pins-remove_at j i gs {g = g} e);
    held =
        Held-keep sh.frames (release sh g.page_id g.fid g.mutated).frames (remove_at i gs)
          (λ j q. ground arith) (Held-remove_at sh.frames i gs v.held);
    recycled = λ q j h k. ground (arith, v.recycled q j);
    once = ground (arith, v.once);
  }
