-- ===== src/BufferPool/Clock.antt =====
-- src/buffer_pool.rs: the sweep of the clock arm ends with an unpinned frame, if there is one.
use native.Mathlib.Nat.{mod_self, mod-eq_of_lt}
use ccdb.BufferPool.{Shard, tick, sweep, victim}
use ccdb.Prelude.{
  ℕ, zero, suc, ◌+◌, ◌-◌, ◌*◌, ◌%◌, ◌<◌, ◌≡◌, ◌≢◌, some, none, leb, ◌==◌, if◌then◌else◌, arith,
  refl, inl, inr, Option-cases, ◌∙◌, dec_lt, sym,
}

-- What the clock may do to a shard: move the arm and clear reference bits.
pub record Swept (sh sh' : Shard) : Type 0 where
  pub table : sh'.page_table ≡ sh.page_table
  pub capacity : sh'.capacity ≡ sh.capacity
  pub dpt : sh'.dpt ≡ sh.dpt
  pub free_list : sh'.free_list ≡ sh.free_list
  pub free_frames : sh'.free_frames ≡ sh.free_frames
  pub page : (i : ℕ) → (sh'.frames i).page ≡ (sh.frames i).page
  pub page_id : (i : ℕ) → (sh'.frames i).page_id ≡ (sh.frames i).page_id
  pub pin_count : (i : ℕ) → (sh'.frames i).pin_count ≡ (sh.frames i).pin_count
  pub dirty : (i : ℕ) → (sh'.frames i).dirty ≡ (sh.frames i).dirty

arm_next : (a c : ℕ) → a < c → (a + 1) % c ≡ (if a + 1 == c then 0 else a + 1)
arm_next a c h = elim (dec_lt (a + 1) c) [
  | yes p ↦ ground (arith, mod-eq_of_lt p)
  | no p ↦ ground (arith, mod_self (a + 1))
]

tick-Swept : (sh : Shard) → Swept sh (tick sh).1
unfolding tick
tick-Swept sh = record {
  table = ground arith;
  capacity = ground arith;
  dpt = ground arith;
  free_list = ground arith;
  free_frames = ground arith;
  page = λ i. ground arith;
  page_id = λ i. ground arith;
  pin_count = λ i. ground arith;
  dirty = λ i. ground arith;
}

Swept-trans : {a b c : Shard} → Swept a b → Swept b c → Swept a c
Swept-trans h k = record {
  table = k.table ∙ h.table;
  capacity = k.capacity ∙ h.capacity;
  dpt = k.dpt ∙ h.dpt;
  free_list = k.free_list ∙ h.free_list;
  free_frames = k.free_frames ∙ h.free_frames;
  page = λ i. k.page i ∙ h.page i;
  page_id = λ i. k.page_id i ∙ h.page_id i;
  pin_count = λ i. k.pin_count i ∙ h.pin_count i;
  dirty = λ i. k.dirty i ∙ h.dirty i;
}

sweep-Swept : (n : ℕ) (sh : Shard) → Swept sh (sweep n sh).1
unfolding sweep
sweep-Swept zero sh = record {
  table = refl;
  capacity = refl;
  dpt = refl;
  free_list = refl;
  free_frames = refl;
  page = λ i. refl;
  page_id = λ i. refl;
  pin_count = λ i. refl;
  dirty = λ i. refl;
}
sweep-Swept (suc n) sh = elim (Option-cases (tick sh).0) [
  | inl e ↦ rw (e, sweep) (Swept-trans (tick-Swept sh) (sweep-Swept n (tick sh).1))
  | inr (f, e) ↦ rw (e, sweep) (tick-Swept sh)
]

-- The search changes nothing but the arm and reference bits.
pub victim-Swept : (sh : Shard) → Swept sh (victim sh).1
unfolding victim
victim-Swept sh = sweep-Swept (sh.capacity * 2) sh

-- The arm stays on a frame of the shard.
tick-arm : (sh : Shard) → sh.arm < sh.capacity → (tick sh).1.arm < sh.capacity
unfolding tick
tick-arm sh h = ground (arith, arm_next sh.arm sh.capacity h)

sweep-arm : (n : ℕ) (sh : Shard) → sh.arm < sh.capacity → (sweep n sh).1.arm < sh.capacity
unfolding sweep
sweep-arm zero sh h = h
sweep-arm (suc n) sh h = elim (Option-cases (tick sh).0) [
  | inl e ↦
      rw (e, sweep)
        (omega (
          arith,
          (tick-Swept sh).capacity,
          tick-arm sh h,
          sweep-arm n (tick sh).1 (omega (arith, (tick-Swept sh).capacity, tick-arm sh h)),
        ))
  | inr (f, e) ↦ rw (e, sweep) (tick-arm sh h)
]

pub victim-arm : (sh : Shard) → sh.arm < sh.capacity → (victim sh).1.arm < sh.capacity
unfolding victim
victim-arm sh h = sweep-arm (sh.capacity * 2) sh h

tick-unpinned :
    (sh : Shard) {fid : ℕ}
    → sh.arm < sh.capacity
    → (tick sh).0 ≡ some fid
    → (fid < sh.capacity) × ((sh.frames fid).pin_count ≡ 0)
unfolding tick
tick-unpinned sh h e = ground arith

sweep-unpinned :
    (n : ℕ) (sh : Shard) {fid : ℕ}
    → sh.arm < sh.capacity
    → (sweep n sh).0 ≡ some fid
    → (fid < sh.capacity) × ((sh.frames fid).pin_count ≡ 0)
unfolding sweep
sweep-unpinned zero sh h e = cc
sweep-unpinned (suc n) sh {fid} h e = elim (Option-cases (tick sh).0) [
  | inl t ↦
      let same = tick-Swept sh in
      let later : (sweep n (tick sh).1).0 ≡ some fid = ground (arith, t, e) in
      let found =
        sweep-unpinned n (tick sh).1 {fid = fid} (omega (arith, same.capacity, tick-arm sh h))
          later in
      (omega (arith, same.capacity, found.0), sym (same.pin_count fid) ∙ found.1)
  | inr (f, t) ↦ let here : (tick sh).0 ≡ some fid = ground (arith, t, e) in tick-unpinned sh h here
]

-- How far the arm is from a frame, and from taking it.
abbrev distance : ℕ → ℕ → ℕ → ℕ
distance a u c = if leb a u then u - a else u + c - a

abbrev rounds : Shard → ℕ → ℕ
rounds sh u = distance sh.arm u sh.capacity + (if (sh.frames u).referenced then sh.capacity else 0)

tick-rounds :
    (sh : Shard) (u : ℕ)
    → sh.arm < sh.capacity
    → u < sh.capacity
    → (sh.frames u).pin_count ≡ 0
    → (tick sh).0 ≡ none
    → rounds (tick sh).1 u < rounds sh u
unfolding tick
tick-rounds sh u h hu p e = ground (arith, arm_next sh.arm sh.capacity h)

sweep-finds :
    (n : ℕ) (sh : Shard) (u : ℕ)
    → sh.arm < sh.capacity
    → u < sh.capacity
    → (sh.frames u).pin_count ≡ 0
    → rounds sh u < n
    → (sweep n sh).0 ≢ none
unfolding sweep
sweep-finds zero sh u h hu p r e = absurd (omega arith)
sweep-finds (suc n) sh u h hu p r e = elim (Option-cases (tick sh).0) [
  | inl t ↦
      let same = tick-Swept sh in
      let later : (sweep n (tick sh).1).0 ≡ none = ground (arith, t, e) in
      sweep-finds n (tick sh).1 u (omega (arith, same.capacity, tick-arm sh h))
        (omega (arith, same.capacity)) (same.pin_count u ∙ p)
        (omega (arith, tick-rounds sh u h hu p t)) later
  | inr (f, t) ↦ ground (arith, t, e)
]

-- Two sweeps of the clock arm are enough: if a frame of the shard is unpinned, victim gives a
-- frame, which is one of the shard and unpinned.
pub victim-ne-none :
    (sh : Shard) (u : ℕ)
    → sh.arm < sh.capacity
    → u < sh.capacity
    → (sh.frames u).pin_count ≡ 0
    → (fid : ℕ) × ((victim sh).0 ≡ some fid) × (fid < sh.capacity) × ((sh.frames fid).pin_count ≡ 0)
unfolding victim
victim-ne-none sh u h hu p = elim (Option-cases (victim sh).0) [
  | inl e ↦ absurd (sweep-finds (sh.capacity * 2) sh u h hu p (ground arith) e)
  | inr (fid, e) ↦ let free = sweep-unpinned (sh.capacity * 2) sh h e in (fid, e, free.0, free.1)
]

pub victim-unpinned :
    (sh : Shard) {fid : ℕ}
    → sh.arm < sh.capacity
    → (victim sh).0 ≡ some fid
    → (fid < sh.capacity) × ((sh.frames fid).pin_count ≡ 0)
unfolding victim
victim-unpinned sh h e = sweep-unpinned (sh.capacity * 2) sh h e
