-- ===== src/BufferPool/Flush/Contents.antt =====
-- src/buffer_pool.rs: after `flush_all` the file is up to date.
use ccdb.BufferPool.Flush.{flush_all-Same}
use ccdb.Prelude.Eq.{nat_eq}
use ccdb.Prelude.Map.{lookup}
use ccdb.BufferPool.Content.{current, IsContent}
use ccdb.BufferPool.Layout.{IsLayout}
use ccdb.BufferPool.Guards.{Guard, writing}
use ccdb.Prelude.{
  List, ℕ, ◌+◌, ◌∙◌, ◌≡◌, Option-cases, suc, some, Bool-cases, true, false, inl, inr, arith, refl,
  zero, ◌<◌, sym,
}
use ccdb.BufferPool.{State, flush, flush_frames, flush_all, write_page, clean}

-- The frames that the loop has passed are clean.
flush_frames-clean :
    (n fid : ℕ) (s : State) (i q : ℕ)
    → (flush_frames n fid s).0 ≡ true
    → (i < fid → (s.shard.frames i).page_id ≡ some q → (s.shard.frames i).dirty ≡ false)
    → i < fid + n
    → ((flush_frames n fid s).1.shard.frames i).page_id ≡ some q
    → ((flush_frames n fid s).1.shard.frames i).dirty ≡ false
unfolding flush_frames
flush_frames-clean zero fid s i q h k b p = k (omega arith) p
flush_frames-clean (suc n) fid s i q h k b p = elim (Bool-cases (s.shard.frames fid).dirty) [
  | inr d ↦ ground (
    arith,
    d,
    flush_frames-clean n (fid + 1) s i q (ground (arith, d, h)) (λ l e. ground (arith, k, d))
        (omega arith),
  )
  | inl d ↦ elim (Option-cases (s.shard.frames fid).page_id) [
    | inl e ↦ ground (
      arith,
      d,
      e,
      flush_frames-clean n (fid + 1) s i q (ground (arith, d, e, h)) (λ l u. ground (arith, k, e))
          (omega arith),
    )
    | inr (pid, e) ↦ elim (Option-cases (write_page s.disk pid (s.shard.frames fid).page)) [
      | inl w ↦ absurd (ground (arith, d, e, w, h))
      | inr (disk, w) ↦ ground (
        arith,
        d,
        e,
        w,
        flush_frames-clean n (fid + 1) (record s { disk = disk; shard = clean s.shard fid pid }) i q
            (ground (arith, d, e, w, h)) (λ l u. ground (arith, k)) (omega arith),
      )
    ]
  ]
]

flush_frames-capacity :
    (n fid : ℕ) (s : State) → (flush_frames n fid s).1.shard.capacity ≡ s.shard.capacity
unfolding flush_frames
flush_frames-capacity zero fid s = refl
flush_frames-capacity (suc n) fid s = elim (Bool-cases (s.shard.frames fid).dirty) [
  | inr d ↦ rw (d, flush_frames) (flush_frames-capacity n (fid + 1) s)
  | inl d ↦ elim (Option-cases (s.shard.frames fid).page_id) [
    | inl e ↦ rw (d, e, flush_frames) (flush_frames-capacity n (fid + 1) s)
    | inr (pid, e) ↦ elim (Option-cases (write_page s.disk pid (s.shard.frames fid).page)) [
      | inl w ↦ rw (d, e, w, flush_frames)
      | inr (disk, w) ↦
          rw (d, e, w, flush_frames)
            (flush_frames-capacity n (fid + 1)
              (record s { disk = disk; shard = clean s.shard fid pid }))
    ]
  ]
]

-- What a state holds whose frames are all clean.
clean-contents :
    (s : State) {gs : List Guard} (q : ℕ)
    → IsLayout s.shard gs
    → IsContent s gs
    → ((i : ℕ) → writing i gs ≡ false)
    → ((i : ℕ)
        → i < s.shard.capacity
        → (s.shard.frames i).page_id ≡ some q
        → (s.shard.frames i).dirty ≡ false)
    → s.disk.contents q ≡ current s q
unfolding current
clean-contents s q v c quiet clean = elim (Option-cases (lookup q s.shard.page_table)) [
  | inl m ↦ rw (m, current)
  | inr (fid, m) ↦
      let e = v.mapped q fid m in
      rw (m, current) (sym (c.clean fid q e.1 (clean fid e.0 e.1) (quiet fid)))
]

-- If flush_all succeeds on a valid shard with no guard that has written, then the file holds every
-- page as it reads before the call.
pub flush_all-contents :
    (s : State) {gs : List Guard} (q : ℕ)
    → IsLayout s.shard gs
    → IsContent s gs
    → ((i : ℕ) → writing i gs ≡ false)
    → (flush_all s).0 ≡ true
    → (flush_all s).1.disk.contents q ≡ current s q
unfolding flush_all
flush_all-contents s q v c quiet h = elim (Option-cases (flush s.log)) [
  | inl e ↦ absurd (ground (arith, e, h))
  | inr (l, e) ↦
      let s' : State = record s { log = l } in
      let done : (flush_frames s.shard.capacity 0 s').0 ≡ true = ground (arith, e, h) in
      let same = flush_all-Same v c in
      let y = (flush_frames s.shard.capacity 0 s').1 in
      let end : flush_all s ≡ flush_frames s.shard.capacity 0 s' = rw (e, flush_all) in
      clean-contents (flush_all s).1 q same.valid.layout same.valid.content quiet (
        rw end (λ i b p.
          flush_frames-clean s.shard.capacity 0 s' i q done (λ z. absurd (omega arith))
            (omega (arith, flush_frames-capacity s.shard.capacity 0 s')) p))
      ∙ same.memory q
]
