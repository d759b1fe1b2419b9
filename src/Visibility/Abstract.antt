-- ===== src/Visibility/Abstract.antt =====
-- src/visibility.rs, src/transaction_manager.rs: in a history of whole calls, a snapshot sees its own
-- transaction and those that the log called committed when it was taken, and no others.
use ccdb.Visibility.{is_committed}
use ccdb.TransactionManager.{Manager}
use ccdb.Prelude.Map.{contains_key}
use ccdb.Prelude.Eq.{nat_eq}
use ccdb.Clog.{TxnStatus}
use ccdb.StatusLog.{StatusLog}
use ccdb.Prelude.{ℕ, Bool, true, false, ◌≡◌, ◌≤◌, ◌<◌, ◌==◌, ◌||◌, []}

-- The transaction itself, or one that is committed.
unfoldable pub own_or_committed : ℕ → (ℕ → TxnStatus) → ℕ → Bool
own_or_committed t v x = x == t || is_committed (v x)

module _ (log : StatusLog) where
  open log use {IsReady, view, get-view, get-IsReady}

  -- As recovery leaves the manager: no transaction is in the table, and none that is to come is
  -- committed.
  pub record Started (tm : Manager log) : Type 0 where
    pub ready : IsReady tm.clog
    pub idle : tm.att ≡ []
    pub unused : (x : ℕ) → tm.next_txn_id ≤ x → is_committed (view tm.clog x) ≡ false

  -- Transactions in the table have begun and are not committed, those to come are neither.
  record IsOrderly (tm : Manager log) : Type 0 where
    pub ready : IsReady tm.clog
    pub begun : (x : ℕ) → contains_key x tm.att ≡ true → x < tm.next_txn_id
    pub running : (x : ℕ) → contains_key x tm.att ≡ true → is_committed (view tm.clog x) ≡ false
    pub unused : (x : ℕ) → tm.next_txn_id ≤ x → is_committed (view tm.clog x) ≡ false
