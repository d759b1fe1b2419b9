-- ===== src/StatusLog.antt =====
-- What the transaction manager (src/transaction_manager.rs) uses of the commit log: reading and
-- writing a transaction's status, each of which may fail, and what they do while the log is ready.
-- `Clog.Log` shows that src/clog.rs meets it.
use ccdb.Prelude.{ℕ, Option, ◌≡◌, some, if◌then◌else◌, ◌==◌}
use ccdb.Clog.{TxnStatus}

pub record StatusLog : Type 1 where
  pub Log : Type 0
  pub get : Log → ℕ → Option TxnStatus × Log
  pub set : Log → ℕ → TxnStatus → Option (Unit {0}) × Log
  -- No read or write can fail.
  pub IsReady : Log → Type 0
  pub view : Log → ℕ → TxnStatus
  pub get-result : (l : Log) (t : ℕ) → IsReady l → (get l t).0 ≡ some (view l t)
  pub get-view : (l : Log) (t u : ℕ) → IsReady l → view (get l t).1 u ≡ view l u
  pub get-IsReady : (l : Log) (t : ℕ) → IsReady l → IsReady (get l t).1
  pub set-view :
      (l : Log) (t : ℕ) (s : TxnStatus) (u : ℕ)
      → IsReady l
      → view (set l t s).1 u ≡ (if t == u then s else view l u)
  pub set-IsReady : (l : Log) (t : ℕ) (s : TxnStatus) → IsReady l → IsReady (set l t s).1
