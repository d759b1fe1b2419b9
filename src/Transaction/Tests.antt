-- ===== src/Transaction/Tests.antt =====
-- src/transaction.rs: a rollback, over the log of src/clog.rs, and what may follow it.
use ccdb.Prelude.{[], ◌≡◌, none, false, arith}
use ccdb.Prelude.Int.{pos}
use ccdb.TransactionManager.{Manager, is_in_progress, abort}
use ccdb.TransactionManager.Decide.{abort-IsReady, commit-abort-Ends}
use ccdb.TransactionManager.Tests.{log, running, running-IsReady}
use ccdb.Transaction.{
  Transaction, inactive, begin, commit, refresh_autocommit, set_inactive, drop_transaction,
}
use ccdb.Transaction.Lifecycle.{lifecycle-decided}

-- Transaction 1 was rolled back, and its connection goes on.
abbrev rolled_back : Manager log
rolled_back = abort log running 1

abbrev connection : Transaction
connection = record {
  state = inactive;
  id = 1;
  log = [];
  held_locks = [];
  last_lsn = 0;
  snapshot = none;
  start_ts = pos 0;
}

rolled_back-known : is_in_progress (log.view rolled_back.clog 1) ≡ false
rolled_back-known =
    let ended = (commit-abort-Ends log running 1 1 running-IsReady).1.0 in ground (arith, ended)

lifecycle-decided_example :
    (log.view (begin log (pos 5) connection rolled_back).1.clog 1 ≡ log.view rolled_back.clog 1)
    × (log.view (commit log connection rolled_back).1.clog 1 ≡ log.view rolled_back.clog 1)
    × (log.view (refresh_autocommit log (pos 5) connection rolled_back).1.clog 1
        ≡ log.view rolled_back.clog 1)
    × (log.view (set_inactive log connection rolled_back).1.clog 1 ≡ log.view rolled_back.clog 1)
    × (log.view (drop_transaction log connection rolled_back).clog 1 ≡ log.view rolled_back.clog 1)
lifecycle-decided_example =
    lifecycle-decided log (pos 5) connection rolled_back 1
      (abort-IsReady log running 1 running-IsReady) rolled_back-known
