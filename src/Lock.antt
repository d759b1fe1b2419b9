-- ===== src/Lock.antt =====
-- src/lock_manager.rs: one row's lock: its holders, its queue, and the rules for granting.
pub mod Valid
pub mod Queue
use ccdb.Prelude.{
  ℕ, Bool, true, false, not, ◌&&◌, ◌||◌, none, some, List, [], ◌∷◌, ◌++◌, length, ◌==◌,
  if◌then◌else◌,
}
use ccdb.Prelude.Eq.{nat_eq}
use ccdb.Prelude.Map.{Map, lookup, contains_key, insert, remove}

pub data LockMode : Type 0 where
  shared exclusive : LockMode

abbrev pub is_shared : LockMode → Bool
is_shared shared = true
is_shared exclusive = false

pub record LockRequest : Type 0 where
  pub txn_id : ℕ
  pub mode : LockMode

pub record LockState : Type 0 where
  pub holders : Map ℕ LockMode
  pub wait_queue : List LockRequest

-- `LockState::new`
abbrev pub new : LockState
new = record { holders = []; wait_queue = [] }

-- `holders.values().all(|m| *m == LockMode::Shared)`
unfoldable pub all_shared : Map ℕ LockMode → Bool
all_shared [] = true
all_shared ((_, m) ∷ hs) = is_shared m && all_shared hs

abbrev pub is_empty {ℓ} : {A : Type ℓ} → List A → Bool
is_empty [] = true
is_empty (_ ∷ _) = false

-- `LockState::can_grant`
unfoldable pub can_grant : LockState → ℕ → LockMode → Bool
can_grant s txn_id mode = elim (lookup txn_id s.holders) [
  | some held ↦ if not (is_shared held) || is_shared mode then true else length s.holders == 1
  | none ↦
      if not (is_empty s.wait_queue)
      then false
      else if is_shared mode
      then all_shared s.holders
      else is_empty s.holders
]

-- The test `grantable` of `grant_waiting`.
unfoldable pub grantable : Map ℕ LockMode → LockRequest → Bool
grantable holders r =
    if is_empty holders
    then true
    else if is_shared r.mode
    then all_shared holders
    else length holders == 1 && contains_key r.txn_id holders

-- The loop of `grant_waiting` over what is left of the queue from index `i` on: a grant removes the
-- request at `i`, a blocked reader is stepped over, a blocked writer ends the loop.
unfoldable pub grant_loop : Map ℕ LockMode → List LockRequest → LockState
grant_loop holders [] = record { holders = holders; wait_queue = [] }
grant_loop holders (r ∷ q) =
    let granted = grant_loop (insert r.txn_id r.mode holders) q in
    let skipped = grant_loop holders q in
    if grantable holders r
    then granted
    else if is_shared r.mode
    then record skipped { wait_queue = r ∷ skipped.wait_queue }
    else record { holders = holders; wait_queue = r ∷ q }

unfoldable pub grant_waiting : LockState → LockState
grant_waiting s = grant_loop s.holders s.wait_queue

-- The part of `lock` that runs when the row's state has been found: grant, or enqueue.
unfoldable pub enter : LockState → ℕ → LockMode → LockState
enter s txn_id mode =
    if can_grant s txn_id mode
    then record s { holders = insert txn_id mode s.holders }
    else record s { wait_queue = s.wait_queue ++ record { txn_id = txn_id; mode = mode } ∷ [] }

-- `s.wait_queue.retain(|r| r.txn_id != txn_id)`
unfoldable pub retain_others : ℕ → List LockRequest → List LockRequest
retain_others txn_id [] = []
retain_others txn_id (r ∷ q) =
    if r.txn_id == txn_id then retain_others txn_id q else r ∷ retain_others txn_id q

-- What `unlock_all` does with one row's state.
unfoldable pub release : LockState → ℕ → LockState
release s txn_id = grant_waiting (record s { holders = remove txn_id s.holders })
