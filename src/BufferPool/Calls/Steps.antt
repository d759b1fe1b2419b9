-- ===== src/BufferPool/Calls/Steps.antt =====
-- src/buffer_pool.rs: each call keeps a shard valid, and changes no page but its target.
use ccdb.BufferPool.Calls.{
  Runs, fetch, recycle, create, flush_one, flush_every, append_record, Call, write_to, drop_at,
  system, run_call, Allowed, target,
}
use ccdb.BufferPool.Content.Steps.{
  release-IsContent, write-IsContent, release-current, write-current,
}
use ccdb.BufferPool.Flush.{flush_page-Same, flush_all-Same}
use ccdb.Prelude.Eq.{nat_eq}
use ccdb.BufferPool.Layout.Steps.{recycle_page-IsLayout, release-IsLayout, same-IsLayout}
use ccdb.BufferPool.Create.NewPage.{open_guard-state, new_page-Created}
use ccdb.Page.{page_lsn}
use ccdb.BufferPool.Content.{IsContent, current}
use ccdb.BufferPool.Layout.{IsLayout, Held-set}
use ccdb.Prelude.Sets.{set_contains}
use ccdb.Prelude.{
  set, ℕ, Option, Bool, ◌≡◌, some, none, arith, refl, ◌<◌, Option-cases, get_elem?, inl, inr, List,
  ℕ_discrete, true, ◌∙◌, sym,
}
use ccdb.Prelude.Bytes.{Bytes}
use ccdb.BufferPool.{State, Shard, fetch_page, recycle_page, append, set_frame, release}
use ccdb.BufferPool.Guards.{Session, Guard, write, drop_guard, remove_at, pins-set}
use ccdb.BufferPool.Valid.{IsValid, Opens, fetch_page-Opens}

fetched-current :
    {s : State} {gs : List Guard} (pid : ℕ) (r : Option ℕ × State)
    → Opens s gs pid (current s pid) r
    → (q : ℕ) → current r.1 q ≡ current s q
fetched-current pid r o q = elim (ℕ_discrete q pid) [
  | no n ↦ o.others q n
  | yes e ↦ elim (Option-cases r.0) [
    | inl none_found ↦ rw e (o.failed none_found)
    | inr (fid, found) ↦ rw e (o.opened fid found).0
  ]
]

module _ (x : Session) (v : IsValid x) where
  abbrev l : IsLayout x.state.shard x.guards
  l = v.layout

  abbrev c : IsContent x.state x.guards
  c = v.content

  fetch-Runs : (pid : ℕ) → Allowed x (fetch pid) → Runs x none (run_call x (fetch pid))
  unfolding run_call
  fetch-Runs pid a =
      let o = fetch_page-Opens v.layout v.content pid a.0 a.1 in
      record {
        valid = o.valid;
        others = λ q _.
            rw (open_guard-state x.guards pid (fetch_page x.state pid))
              (fetched-current pid (fetch_page x.state pid) o q);
      }

  recycle-Runs : (pid : ℕ) → Allowed x (recycle pid) → Runs x none (run_call x (recycle pid))
  unfolding run_call recycle_page current set_contains
  recycle-Runs pid a = record {
    valid = record {
      layout = recycle_page-IsLayout l pid a.0 a.2;
      content = record {
        clean = c.clean;
        logged = c.logged;
        durable = c.durable;
        order = c.order;
        len = c.len;
        counted = c.counted;
        listed = λ q h. ground (arith, c.listed q, a.1);
      };
    };
    others = λ q _. refl;
  }

  append-Runs : Allowed x append_record → Runs x none (run_call x append_record)
  unfolding run_call append current
  append-Runs h = record {
    valid = record {
      layout = l;
      content = record {
        clean = c.clean;
        logged = λ i q h. omega (arith, c.logged i q h);
        durable = c.durable;
        order = omega (arith, c.order);
        len = c.len;
        counted = c.counted;
        listed = c.listed;
      };
    };
    others = λ q _. refl;
  }

  system-Runs :
      (readable writable : ℕ → Bool) (syncs : Bool)
      → Runs x none (run_call x (system readable writable syncs))
  unfolding run_call current
  system-Runs readable writable syncs = record {
    valid = record {
      layout = l;
      content = record {
        clean = c.clean;
        logged = c.logged;
        durable = c.durable;
        order = c.order;
        len = c.len;
        counted = c.counted;
        listed = c.listed;
      };
    };
    others = λ q _. refl;
  }

  -- The mark on a guard that it has written.
  mark_guard-IsLayout :
      (i : ℕ) {g : Guard} {sh : Shard}
      → get_elem? x.guards i ≡ some g
      → IsLayout sh x.guards
      → IsLayout sh (set x.guards i (record g { mutated = true }))
  mark_guard-IsLayout i {g} {sh} e k = record {
    arm = k.arm;
    mapped = k.mapped;
    resident = k.resident;
    unused = k.unused;
    distinct = k.distinct;
    pinned = λ fid. k.pinned fid ∙ sym (pins-set fid i x.guards {g = g} true e);
    held = Held-set sh.frames i x.guards {g = g} k.held e;
    recycled = k.recycled;
    once = k.once;
  }

  write-Runs :
      (i : ℕ) (page : Bytes)
      → page_lsn page < x.state.log.next_lsn
      → Runs x (target x (write_to i page)) (run_call x (write_to i page))
  unfolding run_call write
  write-Runs i page h = elim (Option-cases (get_elem? x.guards i)) [
    | inl e ↦ rw (e, write, run_call) (record { valid = v; others = λ q _. refl })
    | inr (g, e) ↦
        let sh = x.state.shard in
        let same : write x i page ≡ record {
          state = record (x.state) {
            shard = set_frame sh g.fid (record (sh.frames g.fid) { page = page });
          };
          guards = set x.guards i (record g { mutated = true });
        } =
          ground (arith, e) in
        let there : target x (write_to i page) ≡ some g.page_id = ground (arith, e) in
        rw (same, there)
          (record {
            valid = record {
              layout = mark_guard-IsLayout i {g = g} e (
                  same-IsLayout l g.fid (record (sh.frames g.fid) { page = page }) sh.dpt refl
                    refl);
              content = write-IsContent l c i page {g = g} e h;
            };
            others = λ q n. ground (arith, write-current l c i page q {g = g} e, n);
          })
  ]

  drop-Runs : (i : ℕ) → Runs x none (run_call x (drop_at i))
  unfolding run_call drop_guard
  drop-Runs i = elim (Option-cases (get_elem? x.guards i)) [
    | inl e ↦ rw (e, drop_guard, run_call) (record { valid = v; others = λ q _. refl })
    | inr (g, e) ↦
        let same : drop_guard x i ≡ record {
          state = record (x.state) { shard = release x.state.shard g.page_id g.fid g.mutated };
          guards = remove_at i x.guards;
        } =
          ground (arith, e) in
        rw same (record {
          valid = record {
            layout = release-IsLayout l i {g = g} e;
            content = release-IsContent l c i {g = g} e;
          };
          others = λ q _. release-current l c g.page_id g.fid g.mutated q;
        })
  ]

  -- Every call.
  pub run_call-Runs : (k : Call) → Allowed x k → Runs x (target x k) (run_call x k)
  unfolding run_call
  run_call-Runs (fetch pid) a = fetch-Runs pid a
  run_call-Runs (recycle pid) a = recycle-Runs pid a
  run_call-Runs (flush_one pid) a =
      let f = flush_page-Same l c pid in record { valid = f.valid; others = λ q _. f.memory q }
  run_call-Runs create a =
      let n = new_page-Created x v a in
      record { valid = n.valid; others = λ q h. n.others q (λ e. ground (arith, h, e)) }
  run_call-Runs flush_every a =
      let f = flush_all-Same l c in record { valid = f.valid; others = λ q _. f.memory q }
  run_call-Runs append_record a = append-Runs a
  run_call-Runs (write_to i page) a = write-Runs i page a
  run_call-Runs (drop_at i) a = drop-Runs i
  run_call-Runs (system readable writable syncs) a = system-Runs readable writable syncs
