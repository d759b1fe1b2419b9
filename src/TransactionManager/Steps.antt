-- ===== src/TransactionManager/Steps.antt =====
-- src/transaction_manager.rs: histories of the manager. Calls are atomic here; what goes wrong
-- between the parts of a call is in `Visibility.Stale`.
use ccdb.Clog.{TxnStatus, committed, aborted}
use ccdb.Prelude.Map.{
  contains_key, lookup, Map, keys, contains_key-insert, contains_key-none, contains_key-false,
}
use ccdb.Prelude.{
  ℕ, ◌+◌, ◌≡◌, ◌<◌, arith, true, ◌^◌, ◌≤◌, ◌⊎◌, false, refl, Bool-cases, inl, inr, ◌∷◌, [], ◌∙◌,
}
use ccdb.TransactionManager.{
  Manager, Snapshot, contains, snapshot, begin, commit, is_in_progress, abort, update_last_lsn,
  status_uncached,
}
use ccdb.StatusLog.{StatusLog}
use ccdb.Prelude.Eq.{nat_eq}
use ccdb.TransactionManager.Decide.{
  Ends, commit-abort-Ends, commit-IsReady, abort-IsReady, status_uncached-manager,
}

module _ (log : StatusLog) where
  open log use {IsReady, view, get-view, get-IsReady}

  -- A transaction that has begun, or that was decided before.
  abbrev pub Known : Manager log → ℕ → Type 0
  Known tm t = (contains_key t tm.att ≡ true) ⊎ (is_in_progress (view tm.clog t) ≡ false)

  pub data Step (tm : Manager log) : Manager log → Type 0 where
    begins : tm.next_txn_id + 1 < 2 ^ 64 → Step tm (begin log tm).1
    commits : (t : ℕ) → Known tm t → Step tm (commit log tm t)
    aborts : (t : ℕ) → Known tm t → Step tm (abort log tm t)
    updates : (t lsn : ℕ) → Step tm (update_last_lsn log tm t lsn)
    reads : (t : ℕ) → Step tm (status_uncached log tm t).1

  pub data Reach (tm : Manager log) : Manager log → Type 0 where
    here : Reach tm tm
    next : {u v : Manager log} → Reach tm u → Step u v → Reach tm v

  -- What holds of the manager at any time after the snapshot was taken: the transactions that it
  -- sees as past stay out of the table, and keep their status.
  pub record Since (snap : Snapshot) (past : ℕ → TxnStatus) (tm : Manager log) : Type 0 where
    pub ready : IsReady tm.clog
    pub later : snap.xmax ≤ tm.next_txn_id
    pub unlisted :
        (x : ℕ) → x < snap.xmax → contains x snap.active ≡ false → contains_key x tm.att ≡ false
    pub same : (x : ℕ) → x < snap.xmax → contains x snap.active ≡ false → view tm.clog x ≡ past x

  pub contains-keys : (x : ℕ) (m : Map ℕ ℕ) → contains x (keys m) ≡ contains_key x m
  unfolding contains contains_key lookup
  contains-keys x [] = refl
  contains-keys x ((k, v) ∷ m) = ground (arith, contains-keys x m)

  pub snapshot-Since :
      (tm : Manager log) (t : ℕ) → IsReady tm.clog → Since (snapshot log tm t) (view tm.clog) tm
  unfolding snapshot
  snapshot-Since tm t r = record {
    ready = r;
    later = omega arith;
    unlisted = λ x h a. rw (contains-keys x tm.att) at a;
    same = λ x h a. refl;
  }

  module _ {snap : Snapshot} {past : ℕ → TxnStatus} {tm : Manager log}
      (since : Since snap past tm) where
    begin-Since : tm.next_txn_id + 1 < 2 ^ 64 → Since snap past (begin log tm).1
    unfolding begin
    begin-Since h = record {
      ready = since.ready;
      later = omega (arith, since.later);
      unlisted = λ x lt a. ground (
        arith,
        since.unlisted x lt a,
        since.later,
        contains_key-insert tm.next_txn_id x 0 tm.att,
      );
      same = since.same;
    }

    Ends-Since :
        (t : ℕ) (s : TxnStatus) (tm' : Manager log)
        → Known tm t
        → IsReady tm'.clog
        → ((u : ℕ) → Ends log tm t s u tm')
        → Since snap past tm'
    Ends-Since t s tm' k r ends = record {
      ready = r;
      later = rw (ends 0).2 since.later;
      unlisted = λ x lt a.
          contains_key-none x tm'.att
            (ground (arith, ends x, contains_key-false x tm.att (since.unlisted x lt a)));
      same = λ x lt a. ground (arith, ends x, since.same x lt a, since.unlisted x lt a, k);
    }

    update-Since : (t lsn : ℕ) → Since snap past (update_last_lsn log tm t lsn)
    unfolding update_last_lsn
    update-Since t lsn = elim (Bool-cases (contains_key t tm.att)) [
      | inl y ↦ rw y (record {
        ready = since.ready;
        later = since.later;
        unlisted =
            λ x lt a. ground (arith, since.unlisted x lt a, contains_key-insert t x lsn tm.att, y);
        same = since.same;
      })
      | inr n ↦ rw n since
    ]

    status-Since : (t : ℕ) → Since snap past (status_uncached log tm t).1
    status-Since t = rw (status_uncached-manager log tm t) (record {
      ready = get-IsReady tm.clog t since.ready;
      later = since.later;
      unlisted = since.unlisted;
      same = λ x lt a. get-view tm.clog t x since.ready ∙ since.same x lt a;
    })

  -- The transactions that a snapshot sees as past keep their status, whatever happens later.
  Step-Since :
      {snap : Snapshot} {past : ℕ → TxnStatus} {tm tm' : Manager log}
      → Step tm tm'
      → Since snap past tm
      → Since snap past tm'
  Step-Since (begins h) since = begin-Since since h
  Step-Since {tm = tm} (commits t k) since =
      Ends-Since since t committed _ k (commit-IsReady log tm t since.ready)
        (λ u. (commit-abort-Ends log tm t u since.ready).0)
  Step-Since {tm = tm} (aborts t k) since =
      Ends-Since since t aborted _ k (abort-IsReady log tm t since.ready)
        (λ u. (commit-abort-Ends log tm t u since.ready).1)
  Step-Since (updates t lsn) since = update-Since since t lsn
  Step-Since (reads t) since = status-Since since t

  pub Reach-Since :
      {snap : Snapshot} {past : ℕ → TxnStatus} {tm tm' : Manager log}
      → Reach tm tm'
      → Since snap past tm
      → Since snap past tm'
  Reach-Since here since = since
  Reach-Since (next r st) since = Step-Since st (Reach-Since r since)
