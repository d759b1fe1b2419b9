-- ===== src/LockManager.antt =====
-- src/lock_manager.rs: the sharded table, `lock` in the pieces between which the shard's mutex is
-- free (entry, wake-up, timeout), and `unlock_all`, which takes one shard's mutex after another.
pub mod Safety
pub mod Release
pub mod Calls
mod Tests
use Prim.Native.Nat.{bit_xor}
use ccdb.Prelude.{
  ℕ, zero, suc, ◌*◌, ◌%◌, ◌^◌, Bool, true, ◌&&◌, Option, none, some, List, [], ◌∷◌, ◌==◌,
  if◌then◌else◌,
}
use ccdb.Prelude.Eq.{nat_eq, pair_eq}
use ccdb.Prelude.Map.{Map, lookup, contains_key, insert, remove}
use ccdb.Lock.{LockMode, LockState, new, is_empty, can_grant, enter, retain_others, release}

-- `page::Rid`, a page id and a slot
abbrev pub Rid : Type 0
Rid = ℕ × ℕ

abbrev pub Table : Type 0
Table = Map Rid LockState

-- `LockManager`: the tables of its shards, by index.
abbrev pub LockManager : Type 0
LockManager = ℕ → Table

abbrev pub num_shards : ℕ
num_shards = 16

-- The index that `shard_for` and `unlock_all` compute, with `wrapping_mul` on u64.
unfoldable pub shard_index : Rid → ℕ
shard_index (page, slot) = bit_xor (page * 0x9e3779b97f4a7c15 % 2 ^ 64) slot % num_shards

-- `LockManager::with_timeout`: every table is empty.
abbrev pub with_timeout : LockManager
with_timeout i = []

abbrev pub update : LockManager → ℕ → Table → LockManager
update lm i t j = if i == j then t else lm j

-- `table.entry(rid).or_insert_with(LockState::new)`
unfoldable pub entry : Table → Rid → LockState
entry t rid = elim (lookup rid t) [ none ↦ new | some s ↦ s ]

-- How a call of `lock` goes on when its first critical section ends.
pub data Started : Type 0 where
  acquired asleep : Started

-- `s.holders.contains_key(&txn_id)`, the negation of the condition to wait on; `none` is the panic
-- of `expect`.
unfoldable pub is_holder : Table → Rid → ℕ → Option Bool
is_holder t rid txn_id = elim (lookup rid t) [
  | none ↦ none
  | some s ↦ some (contains_key txn_id s.holders)
]

-- `lock` up to its first sleep. `wait_timeout_while` tests the condition before it sleeps.
unfoldable pub lock_start : LockManager → ℕ → Rid → LockMode → Started × LockManager
lock_start lm txn_id rid mode =
    let t = lm (shard_index rid) in
    let s = entry t rid in
    let t' = insert rid (enter s txn_id mode) t in
    let lm' = update lm (shard_index rid) t' in
    if can_grant s txn_id mode
    then (acquired, lm')
    else elim (is_holder t' rid txn_id) [ some true ↦ (acquired, lm') | _ ↦ (asleep, lm') ]

-- The wait is over: the timeout has passed while the condition still held.
unfoldable pub lock_timeout : LockManager → ℕ → Rid → LockManager
lock_timeout lm txn_id rid =
    let t = lm (shard_index rid) in
    elim (lookup rid t) [
      | none ↦ lm
      | some s ↦
          update lm (shard_index rid)
            (insert rid (record s { wait_queue = retain_others txn_id s.wait_queue }) t)
    ]

-- One row in the inner loop of `unlock_all`.
unfoldable pub unlock_row : ℕ → Table → Rid → Table
unlock_row txn_id t rid = elim (lookup rid t) [
  | none ↦ t
  | some s ↦
      let s' = release s txn_id in
      if is_empty s'.holders && is_empty s'.wait_queue then remove rid t else insert rid s' t
]

unfoldable pub unlock_rows : ℕ → Table → List Rid → Table
unlock_rows txn_id t [] = t
unlock_rows txn_id t (rid ∷ rids) = unlock_rows txn_id (unlock_row txn_id t rid) rids

-- `by_shard[idx]`
unfoldable pub in_shard : ℕ → List Rid → List Rid
in_shard i [] = []
in_shard i (rid ∷ rids) = if shard_index rid == i then rid ∷ in_shard i rids else in_shard i rids

-- One round of the outer loop of `unlock_all`, under the mutex of shard `i`.
unfoldable pub unlock_shard : LockManager → ℕ → List Rid → ℕ → LockManager
unlock_shard lm txn_id held i = update lm i (unlock_rows txn_id (lm i) (in_shard i held))

-- The outer loop, with `n` rounds done.
unfoldable pub unlock_shards : ℕ → LockManager → ℕ → List Rid → LockManager
unlock_shards zero lm txn_id held = lm
unlock_shards (suc n) lm txn_id held = unlock_shard (unlock_shards n lm txn_id held) txn_id held n

unfoldable pub unlock_all : LockManager → ℕ → List Rid → LockManager
unlock_all lm txn_id held = unlock_shards num_shards lm txn_id held
