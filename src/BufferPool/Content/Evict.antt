-- ===== src/BufferPool/Content/Evict.antt =====
-- src/buffer_pool.rs: an evicted page is still there to read.
use ccdb.Prelude.Eq.{nat_eq}
use ccdb.Prelude.Map.{lookup, lookup-remove}
use ccdb.Prelude.Bytes.{Bytes}
use ccdb.BufferPool.Content.{IsContent, current, Written, write_back-Written}
use ccdb.BufferPool.Layout.{IsLayout, unmap-IsLayout, cleared-IsLayout}
use ccdb.BufferPool.Guards.{Guard, writing, writing-pins}
use ccdb.Prelude.{
  List, ℕ, Bool, ◌≡◌, true, some, none, Option-cases, false, inl, arith, inr, Bool-cases, refl,
  subst,
}
use ccdb.BufferPool.{State, unmap, evict, set_frame, cleared, write_back}

pub record Evicts (s : State) (gs : List Guard) (fid : ℕ) (done : Bool) (s' : State) : Type 0 where
  pub layout : IsLayout s'.shard gs
  pub content : IsContent s' gs
  pub memory : (q : ℕ) → current s' q ≡ current s q
  pub empty : done ≡ true → (s'.shard.frames fid).page_id ≡ none
  pub unmapped :
      (q : ℕ)
      → done ≡ true
      → lookup q s.shard.page_table ≡ some fid
      → lookup q s'.shard.page_table ≡ none
  pub absent : (q : ℕ) → lookup q s.shard.page_table ≡ none → lookup q s'.shard.page_table ≡ none
  pub capacity : s'.shard.capacity ≡ s.shard.capacity
  pub free_frames : s'.shard.free_frames ≡ s.shard.free_frames
  pub free_list : s'.shard.free_list ≡ s.shard.free_list
  pub page_count : s'.disk.page_count ≡ s.disk.page_count
  pub next_lsn : s'.log.next_lsn ≡ s.log.next_lsn

module _ {s : State} {gs : List Guard} (v : IsLayout s.shard gs) (c : IsContent s gs)
    (fid : ℕ) where
  -- A frame that gives up a page which is in the file.
  unmap-Evicts :
      (pid : ℕ) (s' : State)
      → (s.shard.frames fid).page_id ≡ some pid
      → (s.shard.frames fid).pin_count ≡ 0
      → Written s (s.shard.frames fid).page pid true s'
      → Evicts s gs fid true (record s' { shard = unmap s.shard fid pid })
  unfolding unmap current
  unmap-Evicts pid s' e p w = record {
    layout = unmap-IsLayout v fid pid e p;
    content = record {
      clean = λ i q h d n.
          ground (arith, c.clean i q, w.contents q, v.resident i q, v.resident fid pid e);
      logged = λ i q h. ground (arith, c.logged i q, w.next_lsn);
      durable = λ q. ground (arith, c.durable q, w.contents q, w.flushed, w.behind refl);
      order = w.order;
      len = w.len;
      counted = λ i q h. ground (arith, c.counted i q, w.page_count);
      listed = λ q h. omega (arith, c.listed q h, w.page_count);
    };
    memory = λ q. ground (
      arith,
      lookup-remove pid q s.shard.page_table,
      nat_eq.beq_iff pid q,
      w.contents q,
      v.resident fid pid e,
    );
    empty = λ _. ground arith;
    unmapped = λ q _ h.
        ground
          (arith, lookup-remove pid q s.shard.page_table, nat_eq.beq_iff pid q, v.mapped q fid h);
    absent = λ q h. ground (arith, lookup-remove pid q s.shard.page_table);
    capacity = refl;
    free_frames = refl;
    free_list = refl;
    page_count = w.page_count;
    next_lsn = w.next_lsn;
  }

  -- The shard is as it was, whatever became of the log.
  pub kept-Evicts :
      (page : Bytes) (pid : ℕ) (s' : State) → Written s page pid false s' → Evicts s gs fid false s'
  unfolding current
  kept-Evicts page pid s' w = record {
    layout = rw w.shard v;
    content = record {
      clean = λ i q h d n. ground (arith, w.shard, c.clean i q, w.contents q);
      logged = λ i q h. ground (arith, w.shard, c.logged i q, w.next_lsn);
      durable = λ q. ground (arith, c.durable q, w.contents q, w.flushed);
      order = w.order;
      len = w.len;
      counted = λ i q h. ground (arith, w.shard, c.counted i q, w.page_count);
      listed = λ q h. ground (arith, w.shard, c.listed q, w.page_count);
    };
    memory = λ q. ground (arith, w.shard, w.contents q);
    empty = λ h. cc;
    unmapped = λ q h. cc;
    absent = λ q h. rw w.shard h;
    capacity = rw w.shard;
    free_frames = rw w.shard;
    free_list = rw w.shard;
    page_count = w.page_count;
    next_lsn = w.next_lsn;
  }

  clean-Written :
      (pid : ℕ)
      → (s.shard.frames fid).page_id ≡ some pid
      → (s.shard.frames fid).pin_count ≡ 0
      → (s.shard.frames fid).dirty ≡ false
      → Written s (s.shard.frames fid).page pid true s
  clean-Written pid e p d =
      let quiet : writing fid gs ≡ false = writing-pins fid gs (omega (arith, v.pinned fid)) in
      record {
        shard = refl;
        contents = λ i. ground (arith, c.clean fid pid e d quiet);
        flushed = omega arith;
        behind = λ _. ground (arith, c.clean fid pid e d quiet, c.durable pid);
        next_lsn = refl;
        order = c.order;
        page_count = refl;
        len = c.len;
      }

  empty-Evicts :
      (s.shard.frames fid).page_id ≡ none
      → (s.shard.frames fid).pin_count ≡ 0
      → Evicts s gs fid true
          (record s { shard = set_frame s.shard fid (cleared (s.shard.frames fid)) })
  unfolding current
  empty-Evicts e p = record {
    layout = cleared-IsLayout v fid e p;
    content = record {
      clean = λ i q h d n. ground (arith, c.clean i q);
      logged = λ i q h. ground (arith, c.logged i q);
      durable = c.durable;
      order = c.order;
      len = c.len;
      counted = λ i q h. ground (arith, c.counted i q);
      listed = c.listed;
    };
    memory = λ q. ground arith;
    empty = λ _. ground arith;
    unmapped = λ q _ h. ground (arith, v.mapped q fid h);
    absent = λ q h. h;
    capacity = refl;
    free_frames = refl;
    free_list = refl;
    page_count = refl;
    next_lsn = refl;
  }

  -- An unpinned frame is empty after it is evicted, or as it was if its page could not be written.
  pub evict-Evicts :
      (s.shard.frames fid).pin_count ≡ 0 → Evicts s gs fid (evict s fid).0 (evict s fid).1
  unfolding evict
  evict-Evicts p = elim (Option-cases (s.shard.frames fid).page_id) [
    | inl e ↦ rw (e, evict) (empty-Evicts e p)
    | inr (pid, e) ↦ elim (Bool-cases (s.shard.frames fid).dirty) [
      | inr d ↦ rw (e, d, evict) (unmap-Evicts pid s e p (clean-Written pid e p d))
      | inl d ↦
          let page = (s.shard.frames fid).page in
          let w =
            write_back-Written s page pid c.order (c.logged fid pid e) (c.counted fid pid e)
              c.len in
          elim (Bool-cases (write_back s page pid).0) [
            | inl b ↦
                let w' : Written s page pid true (write_back s page pid).1 =
                  subst (λ x. Written s page pid x (write_back s page pid).1) b w in
                rw (e, d, b, evict) (unmap-Evicts pid (write_back s page pid).1 e p w')
            | inr b ↦
                let w' : Written s page pid false (write_back s page pid).1 =
                  subst (λ x. Written s page pid x (write_back s page pid).1) b w in
                rw (e, d, b, evict) (kept-Evicts page pid (write_back s page pid).1 w')
          ]
    ]
  ]
