-- ===== src/Visibility.antt =====
-- src/visibility.rs: which tuples a snapshot sees. The checks read transaction statuses through the
-- calling thread's cache, which they pass along.
pub mod Isolation
pub mod Stale
pub mod Abstract
mod Tests
use ccdb.TransactionManager.{Cache, Manager, Snapshot, contains, status}
use ccdb.Prelude.{Bool, ℕ, true, false, if◌then◌else◌, ◌==◌, not, leb}
use ccdb.StatusLog.{StatusLog}
use ccdb.Clog.{TxnStatus, committed, in_progress, aborted}

abbrev pub is_committed : TxnStatus → Bool
is_committed committed = true
is_committed in_progress = false
is_committed aborted = false

module _ (log : StatusLog) where
  -- A thread's cache, and the manager.
  abbrev pub Reader : Type 0
  Reader = Cache × Manager log

  unfoldable pub creator_visible : ℕ → Snapshot → Reader → Bool × Reader
  creator_visible xmin snap r =
      if xmin == snap.txn_id
      then (true, r)
      else if leb snap.xmax xmin
      then (false, r)
      else if contains xmin snap.active
      then (false, r)
      else let (s, r') = status log r xmin in (is_committed s, r')

  -- The checks of `is_visible` on `xmax`, once the creator is visible.
  unfoldable pub deleter_invisible : ℕ → Snapshot → Reader → Bool × Reader
  deleter_invisible xmax snap r =
      if xmax == 0
      then (true, r)
      else if xmax == snap.txn_id
      then (false, r)
      else if leb snap.xmax xmax
      then (true, r)
      else if contains xmax snap.active
      then (true, r)
      else let (s, r') = status log r xmax in
        (elim s [ committed ↦ false | aborted ↦ true | in_progress ↦ true ], r')

  unfoldable pub is_visible : ℕ → ℕ → Snapshot → Reader → Bool × Reader
  unfolding creator_visible deleter_invisible
  is_visible xmin xmax snap r =
      let (created, r') = creator_visible xmin snap r in
      if not created then (false, r') else deleter_invisible xmax snap r'
