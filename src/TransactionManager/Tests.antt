-- ===== src/TransactionManager/Tests.antt =====
-- src/transaction_manager.rs: runs of the manager over the log of src/clog.rs, and the theorems at
-- them.
use ccdb.Prelude.Eq.{nat_eq}
use ccdb.Prelude.Map.{lookup, contains_key}
use ccdb.Prelude.Bytes.{zeros}
use ccdb.Prelude.{ℕ, ◌≡◌, true, arith, refl, Bool, if◌then◌else◌, ◌&&◌, not}
use ccdb.Clog.{ClogFile, committed, aborted, open_clog}
use ccdb.Clog.View.{IsReady, content_of, view}
use ccdb.Clog.Log.{clog_log}
use ccdb.StatusLog.{StatusLog}
use ccdb.TransactionManager.{
  Manager, new, begin, commit, abort, status_uncached, is_in_progress, allocate_id, register,
}
use ccdb.TransactionManager.Decide.{Ends, commit-abort-Ends, status_uncached-view}

abbrev pub empty_file : ClogFile
empty_file = record { page_count = 0; content = λ _. zeros }

abbrev pub served : ℕ → Bool
served _ = true

abbrev pub log : StatusLog
log = clog_log empty_file served

abbrev pub started : Manager log
started = new log (open_clog empty_file)

pub opened-IsReady : IsReady empty_file served (open_clog empty_file)
unfolding content_of lookup
opened-IsReady = record { bytes = λ pid i. ground arith; readable = λ pid h. refl }

abbrev pub running : Manager log
running = (begin log (begin log started).1).1

pub running-IsReady : IsReady empty_file served running.clog
unfolding begin allocate_id register
running-IsReady = opened-IsReady

commit-abort-Ends_example :
    Ends log running 1 committed 2 (commit log running 1)
    × Ends log running 1 aborted 2 (abort log running 1)
commit-abort-Ends_example = commit-abort-Ends log running 1 2 running-IsReady

status_uncached-view_example : (status_uncached log running 7).0 ≡ (
    if is_in_progress (view empty_file running.clog 7) && not (contains_key 7 running.att)
    then aborted
    else view empty_file running.clog 7)
status_uncached-view_example = status_uncached-view log running 7 running-IsReady
