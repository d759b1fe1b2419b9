-- ===== src/Clog/Log.antt =====
-- src/clog.rs implements the interface that the transaction manager uses.
use ccdb.Prelude.{ℕ, Bool}
use ccdb.Clog.{ClogFile, Clog}
use ccdb.StatusLog.{StatusLog}
use ccdb.Clog.{get, set}
use ccdb.Clog.View.{IsReady, view, get-view, set-view}

abbrev pub clog_log : ClogFile → (ℕ → Bool) → StatusLog
clog_log file io_ok = record {
  Log = Clog;
  get = get file io_ok;
  set = set file io_ok;
  IsReady = IsReady file io_ok;
  view = view file;
  get-result = λ c t r. (get-view file io_ok c t r).0;
  get-view = λ c t u r. (get-view file io_ok c t r).1 u;
  get-IsReady = λ c t r. (get-view file io_ok c t r).2;
  set-view = λ c t s u r. (set-view file io_ok c t s r).1 u;
  set-IsReady = λ c t s r. (set-view file io_ok c t s r).2;
}
