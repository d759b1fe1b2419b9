-- ===== src/LockManager/Tests.antt =====
-- src/lock_manager.rs: runs of the lock manager on concrete rows, and the theorems at them.
use ccdb.LockManager.Calls.{
  lock_start-upgrade, lock_start-downgrade, lock_start-queued, lock_start-granted,
}
use ccdb.Prelude.{◌∷◌, ◌≡◌, refl, [], some, ℕ, if◌then◌else◌, ◌++◌, ◌==◌, arith, none, false}
use ccdb.LockManager.Safety.{held_mode, mutual_exclusion, next, fresh, start}
use ccdb.Lock.Valid.{IsValid}
use ccdb.Lock.Queue.{HeadBlocked, waits}
use ccdb.Prelude.Map.{lookup, insert, remove, contains_key}
use ccdb.LockManager.Release.{is_member, unlock_all-HeadBlocked, is_queued, unlock_all-released}
use ccdb.Lock.{
  LockState, all_shared, exclusive, shared, enter, can_grant, grantable, release, grant_waiting,
  grant_loop,
}
use ccdb.LockManager.{
  Rid, LockManager, lock_start, with_timeout, entry, shard_index, is_holder, acquired, asleep,
  unlock_all, unlock_shards, unlock_shard, unlock_rows, unlock_row, in_shard,
}
use ccdb.Prelude.Eq.{nat_eq, pair_eq}

abbrev row : Rid
row = (3, 4)

abbrev written : LockManager
written = (lock_start with_timeout 1 row exclusive).1

abbrev read_twice : LockManager
read_twice = (lock_start (lock_start with_timeout 1 row shared).1 2 row shared).1

-- transaction 2 reads, 3 wants to write, 4 wants to read
abbrev crowded : LockManager
crowded =
    (lock_start (lock_start (lock_start with_timeout 2 row shared).1 3 row exclusive).1 4 row
      shared).1

abbrev one_writer : LockState
one_writer = record { holders = (1, exclusive) ∷ []; wait_queue = [] }

abbrev crowded_row : LockState
crowded_row = record {
  holders = (2, shared) ∷ [];
  wait_queue = record { txn_id = 3; mode = exclusive } ∷ record { txn_id = 4; mode = shared } ∷ [];
}

written-row : lookup row (written (shard_index row)) ≡ some one_writer
unfolding lock_start lookup insert entry enter can_grant all_shared shard_index
written-row = refl

crowded_row_lem : lookup row (crowded (shard_index row)) ≡ some crowded_row
unfolding lock_start lookup insert entry enter can_grant all_shared shard_index is_holder
    contains_key
crowded_row_lem = refl

mutual_exclusion_example : ◌≡◌ {A = ℕ} 1 1
unfolding lock_start lookup insert entry enter can_grant all_shared shard_index held_mode
mutual_exclusion_example = mutual_exclusion (next fresh (start 1 row exclusive)) row 1 1 refl refl

-- Transaction 2 lets go: the writer that waited gets the row, and the reader behind it waits on.
unlock_all-grants :
    lookup row (unlock_all crowded 2 (row ∷ []) (shard_index row))
    ≡ some (record {
      holders = (3, exclusive) ∷ [];
      wait_queue = record { txn_id = 4; mode = shared } ∷ [];
    })
unfolding lock_start lookup insert remove entry enter can_grant all_shared shard_index is_holder
    contains_key unlock_all unlock_shards unlock_shard unlock_rows unlock_row in_shard release
    grant_waiting grant_loop grantable
unlock_all-grants = refl

unlock_all-released_example :
    (held_mode (unlock_all crowded 2 (row ∷ [])) row 2 ≡ none)
    × (is_queued (unlock_all crowded 2 (row ∷ [])) row 2 ≡ false)
unfolding lock_start lookup insert entry enter can_grant all_shared shard_index is_holder
    contains_key is_member is_queued waits
unlock_all-released_example = unlock_all-released crowded 2 (row ∷ []) row refl refl

unlock_all-HeadBlocked_example :
    HeadBlocked ((3, exclusive) ∷ []) (record { txn_id = 4; mode = shared } ∷ [])
unfolding is_member
unlock_all-HeadBlocked_example =
    unlock_all-HeadBlocked crowded 2 (row ∷ []) row
      (record {
        holders = (3, exclusive) ∷ [];
        wait_queue = record { txn_id = 4; mode = shared } ∷ [];
      })
      refl unlock_all-grants

lock_start-granted_example :
    ((lock_start with_timeout 1 row exclusive).0 ≡ acquired)
    × (held_mode written row 1 ≡ (if 1 == 1 then some exclusive else held_mode with_timeout row 1))
unfolding lookup entry can_grant all_shared
lock_start-granted_example = lock_start-granted with_timeout 1 row exclusive 1 refl

lock_start-queued_example :
    ((lock_start crowded 5 row shared).0 ≡ asleep)
    × (lookup row ((lock_start crowded 5 row shared).1 (shard_index row))
        ≡ some (record crowded_row {
          wait_queue = crowded_row.wait_queue ++ record { txn_id = 5; mode = shared } ∷ [];
        }))
unfolding lookup
lock_start-queued_example =
    lock_start-queued crowded 5 row shared crowded_row crowded_row_lem (λ h. cc) refl

lock_start-upgrade_example :
    ((lock_start read_twice 1 row exclusive).0 ≡ acquired)
    × (held_mode (lock_start read_twice 1 row exclusive).1 row 1 ≡ some shared)
    × (held_mode (lock_start read_twice 1 row exclusive).1 row 2 ≡ some shared)
unfolding lock_start lookup insert entry enter can_grant all_shared shard_index
lock_start-upgrade_example =
    lock_start-upgrade read_twice 1 2 row
      (record { holders = (1, shared) ∷ (2, shared) ∷ []; wait_queue = [] }) refl (omega arith) refl
      refl

one_writer-IsValid : IsValid one_writer
unfolding lookup all_shared
one_writer-IsValid = record { nodup = (refl, tt); together = refl; served = λ h. cc }

lock_start-downgrade_example :
    (held_mode (lock_start written 1 row shared).1 row 1 ≡ some shared)
    × ((lock_start (lock_start written 1 row shared).1 2 row shared).0 ≡ acquired)
unfolding lookup
lock_start-downgrade_example =
    lock_start-downgrade written 1 2 row one_writer written-row one_writer-IsValid refl
      (omega arith) refl
