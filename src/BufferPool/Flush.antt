-- ===== src/BufferPool/Flush.antt =====
-- src/buffer_pool.rs: flushing brings the file up to date behind the log, and changes no page.
pub mod Contents
use ccdb.BufferPool.Content.Evict.{kept-Evicts}
use ccdb.Prelude.Eq.{nat_eq}
use ccdb.BufferPool.Content.Steps.{clean-IsContent, clean-current}
use ccdb.BufferPool.Layout.Steps.{same-IsLayout}
use ccdb.Prelude.Map.{lookup, remove}
use ccdb.Prelude.Bytes.{Bytes}
use ccdb.BufferPool.Content.{current, IsContent, Written, write_back-Written}
use ccdb.BufferPool.Layout.{IsLayout}
use ccdb.BufferPool.Valid.{IsValid}
use ccdb.BufferPool.Guards.{Guard, writing}
use ccdb.Prelude.{
  List, ◌≤◌, ℕ, ◌+◌, ◌∙◌, ◌≡◌, Option-cases, suc, some, Bool-cases, true, false, inl, inr, arith,
  subst, refl, zero, ◌<◌, sym,
}
use ccdb.BufferPool.{
  State, Log, flush, flush_page, flush_frames, flush_all, write_page, write_back, clean, Disk,
}

-- A call that opens no guard and changes no page.
pub record Same (s : State) (gs : List Guard) (s' : State) : Type 0 where
  pub valid : IsValid (record { state = s'; guards = gs })
  pub memory : (q : ℕ) → current s' q ≡ current s q

module _ {s : State} {gs : List Guard} (v : IsLayout s.shard gs) (c : IsContent s gs) where
  itself-Same : Same s gs s
  itself-Same = record { valid = record { layout = v; content = c }; memory = λ q. refl }

  cleaned-Same :
      (fid pid : ℕ) (s' : State)
      → (s.shard.frames fid).page_id ≡ some pid
      → Written s (s.shard.frames fid).page pid true s'
      → Same s gs (record s' { shard = clean s.shard fid pid })
  cleaned-Same fid pid s' e w = record {
    valid = record {
      layout =
          same-IsLayout v fid (record (s.shard.frames fid) { dirty = false })
            (remove pid s.shard.dpt) refl refl;
      content = clean-IsContent v c fid pid s' e w;
    };
    memory = λ q. clean-current v c fid pid s' q e w;
  }

  kept-Same : (page : Bytes) (pid : ℕ) (s' : State) → Written s page pid false s' → Same s gs s'
  kept-Same page pid s' w =
      let k = kept-Evicts v c 0 page pid s' w in
      record { valid = record { layout = k.layout; content = k.content }; memory = k.memory }

  -- Flushing one page.
  pub flush_page-Same : (pid : ℕ) → Same s gs (flush_page s pid).1
  unfolding flush_page
  flush_page-Same pid = elim (Option-cases (lookup pid s.shard.page_table)) [
    | inl m ↦ rw (m, flush_page) itself-Same
    | inr (fid, m) ↦
        let e = (v.mapped pid fid m).1 in
        let page = (s.shard.frames fid).page in
        let w =
          write_back-Written s page pid c.order (c.logged fid pid e) (c.counted fid pid e) c.len in
        elim (Bool-cases (s.shard.frames fid).dirty) [
          | inr d ↦ rw (m, d, flush_page) itself-Same
          | inl d ↦ elim (Bool-cases (write_back s page pid).0) [
            | inl b ↦
                let w' : Written s page pid true (write_back s page pid).1 =
                  subst (λ x. Written s page pid x (write_back s page pid).1) b w in
                rw (m, d, b, flush_page) (cleaned-Same fid pid (write_back s page pid).1 e w')
            | inr b ↦
                let w' : Written s page pid false (write_back s page pid).1 =
                  subst (λ x. Written s page pid x (write_back s page pid).1) b w in
                rw (m, d, b, flush_page) (kept-Same page pid (write_back s page pid).1 w')
          ]
        ]
  ]

Same-trans : {a b c : State} {gs : List Guard} → Same a gs b → Same b gs c → Same a gs c
Same-trans h k = record { valid = k.valid; memory = λ q. k.memory q ∙ h.memory q }

-- The log is durable up to its end.
abbrev IsFlushed : State → Type 0
IsFlushed s = s.log.next_lsn ≤ s.log.flushed_lsn + 1

write_page-Written :
    {s : State} {gs : List Guard} (v : IsLayout s.shard gs) (c : IsContent s gs) (fid pid : ℕ)
    {d : Disk}
    → IsFlushed s
    → (s.shard.frames fid).page_id ≡ some pid
    → write_page s.disk pid (s.shard.frames fid).page ≡ some d
    → Written s (s.shard.frames fid).page pid true (record s { disk = d })
unfolding write_page
write_page-Written {s} v c fid pid {d} f e w = record {
  shard = refl;
  contents = λ i. ground (arith, w);
  flushed = omega arith;
  behind = λ _. omega (arith, c.logged fid pid e);
  next_lsn = refl;
  order = c.order;
  page_count = ground (arith, w);
  len = ground (arith, w, c.len, c.counted fid pid e);
}

flush_frames-Same :
    (n fid : ℕ) (s : State) {gs : List Guard}
    → IsLayout s.shard gs
    → IsContent s gs
    → IsFlushed s
    → Same s gs (flush_frames n fid s).1
unfolding flush_frames
flush_frames-Same zero fid s v c f = itself-Same v c
flush_frames-Same (suc n) fid s {gs} v c f = elim (Bool-cases (s.shard.frames fid).dirty) [
  | inr k ↦ rw (k, flush_frames) (flush_frames-Same n (fid + 1) s v c f)
  | inl k ↦ elim (Option-cases (s.shard.frames fid).page_id) [
    | inl e ↦ rw (k, e, flush_frames) (flush_frames-Same n (fid + 1) s v c f)
    | inr (pid, e) ↦ elim (Option-cases (write_page s.disk pid (s.shard.frames fid).page)) [
      | inl w ↦ rw (k, e, w, flush_frames) (itself-Same v c)
      | inr (d, w) ↦
          let now =
            cleaned-Same v c fid pid (record s { disk = d }) e
              (write_page-Written v c fid pid f e w) in
          rw (k, e, w, flush_frames)
            (Same-trans now (
              flush_frames-Same n (fid + 1) (record s { disk = d; shard = clean s.shard fid pid })
                now.valid.layout now.valid.content f))
    ]
  ]
]

flush_lem :
    (l : Log) {l' : Log}
    → l.flushed_lsn < l.next_lsn
    → flush l ≡ some l'
    → (l'.next_lsn ≡ l.next_lsn)
      × (l.flushed_lsn ≤ l'.flushed_lsn)
      × (l'.flushed_lsn < l'.next_lsn)
      × (l'.next_lsn ≤ l'.flushed_lsn + 1)
unfolding flush
flush_lem l o e = ground arith

flushed-IsContent :
    {s : State} {gs : List Guard} (c : IsContent s gs) (l : Log)
    → flush s.log ≡ some l
    → IsContent (record s { log = l }) gs
flushed-IsContent {s} c l e =
    let f = flush_lem s.log c.order e in
    record {
      clean = c.clean;
      logged = λ i q h. omega (arith, c.logged i q h, f.0);
      durable = λ q. omega (arith, c.durable q, f.1);
      order = f.2;
      len = c.len;
      counted = c.counted;
      listed = c.listed;
    }

flushed-current : (s : State) (l : Log) (q : ℕ) → current (record s { log = l }) q ≡ current s q
unfolding current
flushed-current s l q = refl

-- Flushing all pages, as far as it gets.
pub flush_all-Same :
    {s : State} {gs : List Guard} → IsLayout s.shard gs → IsContent s gs → Same s gs (flush_all s).1
unfolding flush_all
flush_all-Same {s} v c = elim (Option-cases (flush s.log)) [
  | inl e ↦ rw (e, flush_all) (itself-Same v c)
  | inr (l, e) ↦
      let f = flush_lem s.log c.order e in
      let s' : State = record s { log = l } in
      let rest = flush_frames-Same s.shard.capacity 0 s' v (flushed-IsContent c l e) f.3 in
      rw (e, flush_all)
        (record { valid = rest.valid; memory = λ q. rest.memory q ∙ flushed-current s l q })
]
