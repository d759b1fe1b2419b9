-- ===== src/Transaction/Lifecycle.antt =====
-- src/transaction.rs: no call on a transaction changes a decision.
use ccdb.Prelude.Int.{ℤ}
use ccdb.Transaction.{
  start, begin, commit, refresh_autocommit, TxState, set_inactive, drop_transaction, Transaction,
  active, is_active,
}
use ccdb.Prelude.{ℕ, ◌≡◌, false, ◌∙◌, arith, refl, ap, Bool-cases, inl, inr}
use ccdb.StatusLog.{StatusLog}
use ccdb.TransactionManager.{
  Manager, commit as manager_commit, abort as manager_abort, begin as manager_begin, leave,
  is_in_progress, allocate_id, register,
}
use ccdb.TransactionManager.Decide.{decide-view}
use ccdb.Clog.{committed, aborted}

module _ (log : StatusLog) where
  open log use {Log, IsReady, view}

  manager_commit-decided :
      (tm : Manager log) (t u : ℕ)
      → IsReady tm.clog
      → is_in_progress (view tm.clog u) ≡ false
      → view (manager_commit log tm t).clog u ≡ view tm.clog u
  unfolding manager_commit leave
  manager_commit-decided tm t u r h =
      (decide-view log (leave log tm t) t committed u r).1 ∙ ground (arith, h)

  manager_abort-decided :
      (tm : Manager log) (t u : ℕ)
      → IsReady tm.clog
      → is_in_progress (view tm.clog u) ≡ false
      → view (manager_abort log tm t).clog u ≡ view tm.clog u
  unfolding manager_abort leave
  manager_abort-decided tm t u r h =
      (decide-view log (leave log tm t) t aborted u r).1 ∙ ground (arith, h)

  start-clog :
      (state : TxState) (now : ℤ) (tm : Manager log) → (start log state now tm).1.clog ≡ tm.clog
  unfolding start manager_begin allocate_id register
  start-clog state now tm = refl

  -- On a log whose pages can be read, no begin, commit, refresh_autocommit, rollback or drop of a
  -- connection changes the status of a transaction that was decided, its own included.
  pub lifecycle-decided :
      (now : ℤ) (tx : Transaction) (tm : Manager log) (u : ℕ)
      → IsReady tm.clog
      → is_in_progress (view tm.clog u) ≡ false
      → (view (begin log now tx tm).1.clog u ≡ view tm.clog u)
        × (view (commit log tx tm).1.clog u ≡ view tm.clog u)
        × (view (refresh_autocommit log now tx tm).1.clog u ≡ view tm.clog u)
        × (view (set_inactive log tx tm).1.clog u ≡ view tm.clog u)
        × (view (drop_transaction log tx tm).clog u ≡ view tm.clog u)
  unfolding begin commit refresh_autocommit set_inactive drop_transaction
  lifecycle-decided now tx tm u r h =
      let committing = manager_commit-decided tm tx.id u r h in
      let aborting = manager_abort-decided tm tx.id u r h in
      let started : (s : TxState)
          → view (start log s now (manager_commit log tm tx.id)).1.clog u ≡ view tm.clog u =
        λ s. ap (λ l. view l u) (start-clog s now (manager_commit log tm tx.id)) ∙ committing in
      (
        started active,
        committing,
        elim (Bool-cases (is_active tx)) [ inl e ↦ rw e refl | inr e ↦ rw e (started tx.state) ],
        aborting,
        aborting,
      )
