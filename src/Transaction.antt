-- ===== src/Transaction.antt =====
-- src/transaction.rs: the transaction of a connection. The transaction manager that it points to is
-- passed along with it, and the clock is an argument.
pub mod Lifecycle
mod Tests
use ccdb.Wal.{Rid}
use ccdb.StatusLog.{StatusLog}
use ccdb.TransactionManager.{
  Manager, Snapshot, begin as manager_begin, commit as manager_commit, abort as manager_abort,
  snapshot as manager_snapshot, update_last_lsn,
}
use ccdb.Prelude.Int.{ℤ}
use ccdb.Prelude.Eq.{pair_beq}
use ccdb.Prelude.{ℕ, List, [], ◌∷◌, ◌++◌, Option, some, none, Bool, true, false, if◌then◌else◌}

pub data TxState : Type 0 where
  inactive active : TxState

pub data UndoLogEntry : Type 0 where
  insert : Rid → (lsn : ℕ) → UndoLogEntry
  delete : Rid → (bytes : List ℕ) → (lsn : ℕ) → UndoLogEntry

unfoldable pub entry_lsn : UndoLogEntry → ℕ
entry_lsn (insert rid lsn) = lsn
entry_lsn (delete rid bytes lsn) = lsn

pub record Transaction : Type 0 where
  pub state : TxState
  pub id : ℕ
  pub log : List UndoLogEntry
  pub held_locks : List Rid
  pub last_lsn : ℕ
  pub snapshot : Option Snapshot
  pub start_ts : ℤ

unfoldable pub is_active : Transaction → Bool
is_active tx = elim (tx.state) [ inactive ↦ false | active ↦ true ]

unfoldable pub set_snapshot : Transaction → Snapshot → Transaction
set_snapshot tx s = record tx { snapshot = some s }

-- `record`, whose assertion a release build does not check
unfoldable pub record_entry : Transaction → UndoLogEntry → Transaction
record_entry tx entry = record tx { log = tx.log ++ entry ∷ [] }

unfoldable pub holds_lock : Rid → List Rid → Bool
holds_lock rid [] = false
holds_lock rid (r ∷ rs) = if pair_beq rid r then true else holds_lock rid rs

unfoldable pub add_lock : Transaction → Rid → Transaction
add_lock tx rid = record tx {
  held_locks = if holds_lock rid tx.held_locks then tx.held_locks else rid ∷ tx.held_locks;
}

unfoldable pub drain_log : Transaction → List UndoLogEntry × Transaction
drain_log tx = (tx.log, record tx { log = [] })

unfoldable pub take_held_locks : Transaction → List Rid × Transaction
take_held_locks tx = (tx.held_locks, record tx { held_locks = [] })

module _ (log : StatusLog) where
  -- What `begin` and `refresh_autocommit` share: a new id, in this state.
  unfoldable pub start : TxState → ℤ → Manager log → Transaction × Manager log
  start state now tm =
      let (id, tm') = manager_begin log tm in
      (
        record {
          state = state;
          id = id;
          log = [];
          held_locks = [];
          last_lsn = 0;
          snapshot = some (manager_snapshot log tm' id);
          start_ts = now;
        },
        tm',
      )

  unfoldable pub new : ℤ → Manager log → Transaction × Manager log
  new now tm = start inactive now tm

  unfoldable pub set_last_lsn : Transaction → Manager log → ℕ → Transaction × Manager log
  set_last_lsn tx tm lsn = (record tx { last_lsn = lsn }, update_last_lsn log tm tx.id lsn)

  unfoldable pub begin : ℤ → Transaction → Manager log → Transaction × Manager log
  begin now tx tm = start active now (manager_commit log tm tx.id)

  unfoldable pub commit : Transaction → Manager log → Transaction × Manager log
  commit tx tm = (
    record tx { log = []; state = inactive; last_lsn = 0; snapshot = none },
    manager_commit log tm tx.id,
  )

  unfoldable pub refresh_autocommit : ℤ → Transaction → Manager log → Transaction × Manager log
  refresh_autocommit now tx tm =
      if is_active tx then (tx, tm) else start (tx.state) now (manager_commit log tm tx.id)

  unfoldable pub set_inactive : Transaction → Manager log → Transaction × Manager log
  set_inactive tx tm =
      (record tx { state = inactive; last_lsn = 0; snapshot = none }, manager_abort log tm tx.id)

  -- `drop`
  unfoldable pub drop_transaction : Transaction → Manager log → Manager log
  drop_transaction tx tm = manager_abort log tm tx.id
