-- ===== src/BufferPool/Content/Pick.antt =====
-- src/buffer_pool.rs: the frame that a page moves into is empty and unpinned, and no page is lost for it.
use ccdb.BufferPool.Content.Evict.{Evicts, evict-Evicts}
use ccdb.Prelude.Eq.{nat_eq}
use ccdb.BufferPool.Layout.Steps.{pop_frame-IsLayout}
use ccdb.BufferPool.Clock.{Swept, victim-Swept, victim-arm, victim-unpinned}
use ccdb.Prelude.Map.{lookup}
use ccdb.Prelude.Sets.{set_contains}
use ccdb.BufferPool.Content.{IsContent, current}
use ccdb.BufferPool.Layout.{Held, IsLayout, Swept-IsLayout}
use ccdb.Prelude.{
  ℕ, List, Option, ◌≡◌, none, ◌∷◌, Bool, List-cases, arith, some, Option-cases, ◌<◌, inr, [], false,
  inl, refl, if◌then◌else◌, ◌∙◌,
}
use ccdb.BufferPool.{State, Frame, Shard, pick_or_evict, victim, evict, evict_victim}
use ccdb.BufferPool.Guards.{pins, Guard}

empty-pins :
    (f : ℕ → Frame) (fid : ℕ) (gs : List Guard)
    → Held f gs
    → (f fid).page_id ≡ none
    → pins fid gs ≡ 0
unfolding pins
empty-pins f fid [] h e = refl
empty-pins f fid (g ∷ gs) h e = ground (arith, h.0, empty-pins f fid gs h.1 e)

-- What making room does, and the frame that it makes.
pub record Picks (s : State) (gs : List Guard) (found : Option ℕ) (s' : State) : Type 0 where
  pub layout : IsLayout s'.shard gs
  pub content : IsContent s' gs
  pub memory : (q : ℕ) → current s' q ≡ current s q
  pub absent : (q : ℕ) → lookup q s.shard.page_table ≡ none → lookup q s'.shard.page_table ≡ none
  pub room :
      (fid : ℕ)
      → found ≡ some fid
      → (fid < s'.shard.capacity)
        × ((s'.shard.frames fid).page_id ≡ none)
        × (set_contains fid s'.shard.free_frames ≡ false)
        × (pins fid gs ≡ 0)
  pub free_list : s'.shard.free_list ≡ s.shard.free_list
  pub page_count : s'.disk.page_count ≡ s.disk.page_count
  pub next_lsn : s'.log.next_lsn ≡ s.log.next_lsn

module _ {s : State} {gs : List Guard} (v : IsLayout s.shard gs) (c : IsContent s gs) where
  Swept-IsContent : (sh : Shard) → Swept s.shard sh → IsContent (record s { shard = sh }) gs
  Swept-IsContent sh w = record {
    clean = λ i q h d n. ground (arith, c.clean i q, w.page i, w.page_id i, w.dirty i);
    logged = λ i q h. ground (arith, c.logged i q, w.page i, w.page_id i);
    durable = c.durable;
    order = c.order;
    len = c.len;
    counted = λ i q h. ground (arith, c.counted i q, w.page_id i);
    listed = λ q h. ground (arith, c.listed q, w.free_list);
  }

  Swept-current :
      (sh : Shard) (q : ℕ) → Swept s.shard sh → current (record s { shard = sh }) q ≡ current s q
  unfolding current
  Swept-current sh q w = elim (Option-cases (lookup q s.shard.page_table)) [
    | inl e ↦ rw (w.table, e, current)
    | inr (fid, e) ↦ rw (w.table, e, current) (w.page fid)
  ]

  pop-Picks :
      (fid : ℕ) (rest : List ℕ)
      → s.shard.free_frames ≡ fid ∷ rest
      → Picks s gs (some fid) (record s { shard = record (s.shard) { free_frames = rest } })
  unfolding current
  pop-Picks fid rest e =
      let p = pop_frame-IsLayout v fid rest e in
      record {
        layout = p.0;
        content = record {
          clean = c.clean;
          logged = c.logged;
          durable = c.durable;
          order = c.order;
          len = c.len;
          counted = c.counted;
          listed = c.listed;
        };
        memory = λ q. refl;
        absent = λ q h. h;
        room = λ i h. ground (arith, p.1, p.2, p.3, empty-pins s.shard.frames fid gs v.held p.2);
        free_list = refl;
        page_count = refl;
        next_lsn = refl;
      }

  -- What the sweep leaves, with no frame or with one that is then evicted.
  after_sweep-Picks :
      (sh : Shard)
      → Swept s.shard sh
      → sh.arm < s.shard.capacity
      → Picks s gs none (record s { shard = sh })
  after_sweep-Picks sh w a = record {
    layout = Swept-IsLayout v w a;
    content = Swept-IsContent sh w;
    memory = λ q. Swept-current sh q w;
    absent = λ q h. rw w.table h;
    room = λ i h. cc;
    free_list = w.free_list;
    page_count = refl;
    next_lsn = refl;
  }

  evicted-Picks :
      (sh : Shard) (fid : ℕ) (done : Bool) (s' : State)
      → Picks s gs none (record s { shard = sh })
      → fid < sh.capacity
      → sh.free_frames ≡ []
      → Evicts (record s { shard = sh }) gs fid done s'
      → Picks s gs (if done then some fid else none) s'
  unfolding set_contains
  evicted-Picks sh fid done s' k b n e =
      let bare : s'.shard.free_frames ≡ [] = e.free_frames ∙ n in
      record {
        layout = e.layout;
        content = e.content;
        memory = λ q. e.memory q ∙ k.memory q;
        absent = λ q h. e.absent q (k.absent q h);
        room = λ i h.
            ground
              (arith, e.capacity, e.empty, bare, empty-pins s'.shard.frames fid gs e.layout.held);
        free_list = e.free_list ∙ k.free_list;
        page_count = e.page_count ∙ k.page_count;
        next_lsn = e.next_lsn ∙ k.next_lsn;
      }

  evict_victim-Picks : s.shard.free_frames ≡ [] → Picks s gs (evict_victim s).0 (evict_victim s).1
  unfolding evict_victim
  evict_victim-Picks n =
      let sh = (victim s.shard).1 in
      let w = victim-Swept s.shard in
      let k = after_sweep-Picks sh w (victim-arm s.shard v.arm) in
      elim (Option-cases (victim s.shard).0) [
        | inl e ↦ rw (e, evict_victim) k
        | inr (fid, e) ↦
            let f = victim-unpinned s.shard v.arm e in
            let d = evict-Evicts k.layout k.content fid (w.pin_count fid ∙ f.1) in
            let s' : State = record s { shard = sh } in
            rw (e, evict_victim)
              (evicted-Picks sh fid (evict s' fid).0 (evict s' fid).1 k
                (omega (arith, f.0, w.capacity)) (w.free_frames ∙ n) d)
      ]

  -- A frame is reserved: an empty one, or that of an evicted page.
  pub pick_or_evict-Picks : Picks s gs (pick_or_evict s).0 (pick_or_evict s).1
  unfolding pick_or_evict
  pick_or_evict-Picks = elim (List-cases s.shard.free_frames) [
    | inr (fid, rest, e) ↦
        let same : pick_or_evict s
            ≡ (some fid, record s { shard = record (s.shard) { free_frames = rest } }) =
          ground (arith, e) in
        rw same (pop-Picks fid rest e)
    | inl n ↦
        let same : pick_or_evict s ≡ evict_victim s = ground (arith, n) in
        rw same (evict_victim-Picks n)
  ]
