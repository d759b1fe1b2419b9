-- ===== src/TransactionManager.antt =====
-- src/transaction_manager.rs: transaction ids, the active transaction table, snapshots, and the
-- status of a transaction with the cache that each thread keeps of it. The commit log is a
-- parameter, the interface `StatusLog`.
pub mod Steps
pub mod Decide
pub mod Tests
use ccdb.Prelude.Eq.{nat_eq}
use ccdb.StatusLog.{StatusLog}
use ccdb.Clog.{TxnStatus, in_progress, committed, aborted}
use ccdb.Prelude.Map.{Map, insert, remove, keys, lookup, contains_key}
use ccdb.Prelude.{
  ℕ, Option, List, Bool, none, [], ◌+◌, if◌then◌else◌, some, false, true, ◌%◌, leb, ◌∷◌, ◌^◌,
  length, ◌==◌, ◌||◌,
}

-- `Snapshot`
pub record Snapshot : Type 0 where
  pub txn_id : ℕ
  pub xmax : ℕ
  pub active : List ℕ

unfoldable pub contains : ℕ → List ℕ → Bool
contains x [] = false
contains x (y ∷ ys) = y == x || contains x ys

-- The entries of `CLOG_CACHE` of one thread.
abbrev pub Cache : Type 0
Cache = Map ℕ TxnStatus

abbrev pub is_in_progress : TxnStatus → Bool
is_in_progress in_progress = true
is_in_progress committed = false
is_in_progress aborted = false

-- `unwrap_or(TxnStatus::InProgress)`
abbrev pub or_in_progress : Option TxnStatus → TxnStatus
or_in_progress none = in_progress
or_in_progress (some s) = s

-- `att.keys().copied().min()`
unfoldable pub min_key : Map ℕ ℕ → Option ℕ
min_key [] = none
min_key ((k, _) ∷ m) = elim (min_key m) [ none ↦ some k | some j ↦ some (if leb k j then k else j) ]

-- The update of `CLOG_CACHE` after a miss: only decided transactions, in a cache that is emptied when
-- it is full.
unfoldable pub remember : Cache → ℕ → TxnStatus → Cache
remember cache txn_id s =
    let room = if leb 4096 (length cache) then [] else cache in
    if is_in_progress s then cache else insert txn_id s room

module _ (log : StatusLog) where
  open log use {Log, get, set, IsReady, view}

  -- `TransactionManager`: `att` maps a transaction to its last LSN.
  pub record Manager : Type 0 where
    pub next_txn_id : ℕ
    pub att : Map ℕ ℕ
    pub clog : Log

  -- `TransactionManager::new`
  abbrev pub new : Log → Manager
  new clog = record { next_txn_id = 1; att = []; clog = clog }

  -- The two atomic parts of `begin`: `fetch_add`, then the insertion under the table's mutex.
  unfoldable pub allocate_id : Manager → ℕ × Manager
  allocate_id tm = (tm.next_txn_id, record tm { next_txn_id = (tm.next_txn_id + 1) % 2 ^ 64 })

  unfoldable pub register : Manager → ℕ → Manager
  register tm id = record tm { att = insert id 0 tm.att }

  -- `begin`
  unfoldable pub begin : Manager → ℕ × Manager
  unfolding allocate_id register
  begin tm = let (id, tm') = allocate_id tm in (id, register tm' id)

  unfoldable pub update_last_lsn : Manager → ℕ → ℕ → Manager
  update_last_lsn tm txn_id lsn =
      if contains_key txn_id tm.att then record tm { att = insert txn_id lsn tm.att } else tm

  -- The two atomic parts of `commit` and `abort`: leaving the table, then deciding in the log, where
  -- the first decision wins.
  unfoldable pub leave : Manager → ℕ → Manager
  leave tm txn_id = record tm { att = remove txn_id tm.att }

  unfoldable pub decide : Manager → ℕ → TxnStatus → Manager
  decide tm txn_id status =
      let (s, clog') = get tm.clog txn_id in
      if is_in_progress (or_in_progress s)
      then record tm { clog = (set clog' txn_id status).1 }
      else record tm { clog = clog' }

  -- `commit`
  unfoldable pub commit : Manager → ℕ → Manager
  unfolding leave decide
  commit tm txn_id = decide (leave tm txn_id) txn_id committed

  -- `abort`
  unfoldable pub abort : Manager → ℕ → Manager
  unfolding leave decide
  abort tm txn_id = decide (leave tm txn_id) txn_id aborted

  unfoldable pub set_next_txn_id : Manager → ℕ → Manager
  set_next_txn_id tm id = record tm { next_txn_id = id }

  -- `snapshot`
  unfoldable pub snapshot : Manager → ℕ → Snapshot
  snapshot tm txn_id = record { txn_id = txn_id; xmax = tm.next_txn_id; active = keys tm.att }

  -- `status_uncached`
  unfoldable pub status_uncached : Manager → ℕ → TxnStatus × Manager
  status_uncached tm txn_id =
      let (s, clog') = get tm.clog txn_id in
      let tm' = record tm { clog = clog' } in
      elim (or_in_progress s) [
        | committed ↦ (committed, tm')
        | aborted ↦ (aborted, tm')
        | in_progress ↦ (if contains_key txn_id tm.att then in_progress else aborted, tm')
      ]

  -- `status`, with the calling thread's cache
  unfoldable pub status : Cache × Manager → ℕ → TxnStatus × (Cache × Manager)
  unfolding status_uncached
  status (cache, tm) txn_id = elim (lookup txn_id cache) [
    | some s ↦ (s, (cache, tm))
    | none ↦ let (s, tm') = status_uncached tm txn_id in (s, (remember cache txn_id s, tm'))
  ]

  -- `record_status`
  unfoldable pub record_status : Manager → ℕ → TxnStatus → Manager
  record_status tm txn_id status = record tm { clog = (set tm.clog txn_id status).1 }

  -- `oldest_active_xmin`
  unfoldable pub oldest_active_xmin : Manager → ℕ
  unfolding min_key
  oldest_active_xmin tm = elim (min_key tm.att) [ some k ↦ k | none ↦ tm.next_txn_id ]
