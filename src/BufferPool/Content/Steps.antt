-- ===== src/BufferPool/Content/Steps.antt =====
-- src/buffer_pool.rs: what the steps on one frame do to the contents of a shard.
use ccdb.Prelude.Eq.{nat_eq}
use ccdb.Prelude.Map.{lookup-insert, lookup}
use ccdb.Page.{page_lsn}
use ccdb.Prelude.Bytes.{Bytes}
use ccdb.BufferPool.Content.{IsContent, current, Written}
use ccdb.BufferPool.Layout.{IsLayout, Held-lookup}
use ccdb.BufferPool.Guards.{
  Guard, writing, remove_at, writing-remove_at, pins-remove_at, writing-set,
}
use ccdb.Prelude.{
  set, List, ℕ, ◌≡◌, get_elem?, Bool, none, false, arith, some, if◌then◌else◌, ◌∷◌, ◌<◌, ◌==◌, true,
  refl,
}
use ccdb.BufferPool.{release, State, occupy, pin, set_frame, clean, Shard}

pub occupy-page :
    (sh : Shard) (fid pid : ℕ) (page : Bytes) (dirty : Bool)
    → ((occupy sh fid pid page dirty).frames fid).page ≡ page
unfolding occupy
occupy-page sh fid pid page dirty = ground arith

pub pin-page : (sh : Shard) (fid : ℕ) → ((pin sh fid).frames fid).page ≡ (sh.frames fid).page
unfolding pin
pin-page sh fid = ground arith

pub current-frame :
    (s : State) (pid fid : ℕ)
    → lookup pid s.shard.page_table ≡ some fid
    → current s pid ≡ (s.shard.frames fid).page
unfolding current
current-frame s pid fid e = rw (e, current)

module _ {s : State} {gs : List Guard} (v : IsLayout s.shard gs) (c : IsContent s gs) where
  pub occupy-IsContent :
      (fid pid : ℕ) (page : Bytes) (dirty : Bool)
      → (s.shard.frames fid).page_id ≡ none
      → (dirty ≡ false → page ≡ s.disk.contents pid)
      → page_lsn page < s.log.next_lsn
      → pid < s.disk.page_count
      → IsContent
          (record s { shard = occupy s.shard fid pid page dirty })
          (record { page_id = pid; fid = fid; mutated = false } ∷ gs)
  unfolding occupy writing
  occupy-IsContent fid pid page dirty e same l b = record {
    clean = λ i q h d n. ground (arith, c.clean i q, same);
    logged = λ i q h. ground (arith, c.logged i q);
    durable = c.durable;
    order = c.order;
    len = c.len;
    counted = λ i q h. ground (arith, c.counted i q);
    listed = c.listed;
  }

  pub occupy-current :
      (fid pid : ℕ) (page : Bytes) (dirty : Bool) (q : ℕ)
      → (s.shard.frames fid).page_id ≡ none
      → current (record s { shard = occupy s.shard fid pid page dirty }) q
        ≡ (if q == pid then page else current s q)
  unfolding occupy current
  occupy-current fid pid page dirty q e =
      ground
        (arith, lookup-insert pid q fid s.shard.page_table, nat_eq.beq_iff pid q, v.mapped q fid)

  pub pin-IsContent :
      (fid pid : ℕ)
      → IsContent
          (record s { shard = pin s.shard fid })
          (record { page_id = pid; fid = fid; mutated = false } ∷ gs)
  unfolding pin writing
  pin-IsContent fid pid = record {
    clean = λ i q h d n. ground (arith, c.clean i q);
    logged = λ i q h. ground (arith, c.logged i q);
    durable = c.durable;
    order = c.order;
    len = c.len;
    counted = λ i q h. ground (arith, c.counted i q);
    listed = c.listed;
  }

  pub pin-current : (fid q : ℕ) → current (record s { shard = pin s.shard fid }) q ≡ current s q
  unfolding pin current
  pin-current fid q = ground arith

  -- The guard that wrote keeps the frame from passing for clean.
  pub write-IsContent :
      (i : ℕ) (page : Bytes) {g : Guard}
      → get_elem? gs i ≡ some g
      → page_lsn page < s.log.next_lsn
      → IsContent
          (record s {
            shard = set_frame s.shard g.fid (record (s.shard.frames g.fid) { page = page });
          })
          (set gs i (record g { mutated = true }))
  write-IsContent i page {g} e l = record {
    clean = λ j q h d n. ground (arith, c.clean j q, writing-set j i gs {g = g} e);
    logged = λ j q h. ground (arith, c.logged j q);
    durable = c.durable;
    order = c.order;
    len = c.len;
    counted = λ j q h. ground (arith, c.counted j q);
    listed = c.listed;
  }

  pub write-current :
      (i : ℕ) (page : Bytes) (q : ℕ) {g : Guard}
      → get_elem? gs i ≡ some g
      → current
          (record s {
            shard = set_frame s.shard g.fid (record (s.shard.frames g.fid) { page = page });
          })
          q
        ≡ (if q == g.page_id then page else current s q)
  unfolding current
  write-current i page q {g} e =
      let held = Held-lookup s.shard.frames i gs {g = g} v.held e in
      ground (arith, held, v.resident g.fid g.page_id held, v.mapped q g.fid)

  -- A written page turns dirty when its guard goes.
  pub release-IsContent :
      (i : ℕ) {g : Guard}
      → get_elem? gs i ≡ some g
      → IsContent (record s { shard = release s.shard g.page_id g.fid g.mutated }) (remove_at i gs)
  unfolding release
  release-IsContent i {g} e = record {
    clean = λ j q h d n. ground (
      arith,
      c.clean j q,
      writing-remove_at j i gs {g = g} e,
      v.pinned g.fid,
      pins-remove_at g.fid i gs {g = g} e,
    );
    logged = λ j q h. ground (arith, c.logged j q);
    durable = c.durable;
    order = c.order;
    len = c.len;
    counted = λ j q h. ground (arith, c.counted j q);
    listed = λ q h. ground (arith, c.listed q);
  }

  pub release-current :
      (pid fid : ℕ) (mutated : Bool) (q : ℕ)
      → current (record s { shard = release s.shard pid fid mutated }) q ≡ current s q
  unfolding release current
  release-current pid fid mutated q = ground arith

  -- A page that is in the file is clean.
  pub clean-IsContent :
      (fid pid : ℕ) (s' : State)
      → (s.shard.frames fid).page_id ≡ some pid
      → Written s (s.shard.frames fid).page pid true s'
      → IsContent (record s' { shard = clean s.shard fid pid }) gs
  clean-IsContent fid pid s' e w = record {
    clean = λ i q h d n.
        ground (arith, c.clean i q, w.contents q, v.resident i q, v.resident fid pid e);
    logged = λ i q h. ground (arith, c.logged i q, w.next_lsn);
    durable = λ q. ground (arith, c.durable q, w.contents q, w.flushed, w.behind refl);
    order = w.order;
    len = w.len;
    counted = λ i q h. ground (arith, c.counted i q, w.page_count);
    listed = λ q h. ground (arith, c.listed q h, w.page_count);
  }

  pub clean-current :
      (fid pid : ℕ) (s' : State) (q : ℕ)
      → (s.shard.frames fid).page_id ≡ some pid
      → Written s (s.shard.frames fid).page pid true s'
      → current (record s' { shard = clean s.shard fid pid }) q ≡ current s q
  unfolding current
  clean-current fid pid s' q e w = ground (arith, w.contents q, v.resident fid pid e)
