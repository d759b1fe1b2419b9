-- ===== src/Visibility/Stale.antt =====
-- src/transaction_manager.rs: what other threads may see between the two atomic parts of `begin`
-- and of `commit`, and how a check of src/visibility.rs then goes wrong for good.
use ccdb.TransactionManager.Steps.{contains-keys}
use ccdb.TransactionManager.Decide.{
  commit-abort-Ends, status_uncached-manager, leave-aborted, leave-IsReady, status-miss,
  decide-view, status-hit, leave-clog, remember-lookup_self,
}
use ccdb.Visibility.Isolation.{sees}
use ccdb.Prelude.Map.{lookup, contains_key}
use ccdb.Clog.{in_progress, committed, aborted}
use ccdb.Prelude.{ℕ, ◌≡◌, ◌+◌, ◌<◌, ◌^◌, none, ◌≢◌, false, true, arith, ◌∙◌, ap, refl}
use ccdb.TransactionManager.{
  Manager, Cache, status, leave, decide, allocate_id, snapshot, commit, register, status_uncached,
}
use ccdb.StatusLog.{StatusLog}
use ccdb.Prelude.Eq.{nat_eq}

module _ (log : StatusLog) where
  open log use {IsReady, view, get-view, get-IsReady}

  IsReady-after :
      (tm : Manager log) (x : ℕ)
      → IsReady tm.clog
      → IsReady ((status_uncached log (leave log tm x) x).1.clog)
  IsReady-after tm x r =
      rw (status_uncached-manager log (leave log tm x) x)
        (get-IsReady (leave log tm x).clog x (leave-IsReady log tm x r))

  view_after :
      (tm : Manager log) (x u : ℕ)
      → IsReady tm.clog
      → view ((status_uncached log (leave log tm x) x).1.clog) u ≡ view tm.clog u
  view_after tm x u r = rw (status_uncached-manager log (leave log tm x) x) (
      get-view (leave log tm x).clog x u (leave-IsReady log tm x r)
      ∙ ap (λ l. view l u) (leave-clog log tm x))

  -- A thread that asks for the status of a transaction after its commit has left the table and
  -- before it writes the log is told Aborted, and is told so from its cache after the log says
  -- Committed.
  pub commit_race :
      (tm : Manager log) (cache : Cache) (x : ℕ)
      → IsReady tm.clog
      → view tm.clog x ≡ in_progress
      → lookup x cache ≡ none
      → let (s, (cache', tm')) = status log (cache, leave log tm x) x in
        let done = decide log tm' x committed in
        (s ≡ aborted) × (view done.clog x ≡ committed) × ((status log (cache', done) x).0 ≡ aborted)
  commit_race tm cache x r v e =
      let tm' = (status_uncached log (leave log tm x) x).1 in
      let told = leave-aborted log tm x r v in
      rw (status-miss log cache (leave log tm x) x e) (
        told,
        (decide-view log tm' x committed x (IsReady-after tm x r)).1
            ∙ rw (view_after tm x x r, v) (ground arith),
        rw told (status-hit log _ _ x aborted (remember-lookup_self cache x aborted refl)),
      )

  -- A snapshot that is taken between the two parts of begin does not see the new transaction at
  -- first, and sees its effects as soon as it commits.
  pub begin_race :
      (tm : Manager log) (t : ℕ)
      → IsReady tm.clog
      → tm.next_txn_id + 1 < 2 ^ 64
      → t ≢ tm.next_txn_id
      → view tm.clog tm.next_txn_id ≡ in_progress
      → contains_key tm.next_txn_id tm.att ≡ false
      → let (id, tm') = allocate_id log tm in
        let snap = snapshot log tm' t in
        (sees snap (view tm'.clog) id ≡ false)
        × (sees snap (view ((commit log (register log tm' id) id).clog)) id ≡ true)
  unfolding sees snapshot allocate_id register
  begin_race tm t r small ne v a =
      let id = tm.next_txn_id in
      let tm' = (allocate_id log tm).1 in
      let ends = (commit-abort-Ends log (register log tm' id) id id r).0.0 in
      ground (arith, ends, v, contains-keys log id tm.att, a)
