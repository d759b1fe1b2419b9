-- ===== src/LockManager/Calls.antt =====
-- src/lock_manager.rs: how single calls of `lock` end, and two ways in which they leave a
-- transaction with less than it asked for.
use ccdb.Lock.Valid.{
  IsValid, compatible-insert_shared, single-lookup, compatible, compatible-exclusive,
}
use ccdb.Prelude.Map.{
  lookup, lookup-insert, contains_key, insert, Map, contains_key-lookup, contains_key-none,
}
use ccdb.Lock.{
  LockMode, can_grant, enter, LockState, shared, LockRequest, exclusive, all_shared, retain_others,
  grantable,
}
use ccdb.Prelude.Eq.{pair_beq, pair_beq_iff}
use ccdb.Prelude.{
  ℕ, ◌≡◌, true, ==_iff, some, if◌then◌else◌, refl, ◌==◌, ◌≢◌, List, [], none, ◌∷◌, ◌++◌, arith,
  ◌||◌, false, Bool-cases, length, ◌≤◌, inl, inr, Option-cases, ap,
}
use ccdb.LockManager.{
  LockManager, Rid, Table, update, lock_start, entry, shard_index, acquired, lock_timeout, asleep,
  is_holder,
}
use ccdb.Prelude.Eq.{nat_eq, pair_eq}
use ccdb.LockManager.Safety.{held_mode, lock_start-table}

update_self : (lm : LockManager) (i : ℕ) (tb : Table) → update lm i tb i ≡ tb
update_self lm i tb = rw ((==_iff i i).1 refl)

pair_beq_refl : (rid : Rid) → pair_beq rid rid ≡ true
pair_beq_refl rid = (pair_beq_iff rid rid).1 refl

-- The row's state after the first critical section of `lock`.
pub lock_start-row :
    (lm : LockManager) (t : ℕ) (rid : Rid) (m : LockMode)
    → lookup rid ((lock_start lm t rid m).1 (shard_index rid))
      ≡ some (enter (entry (lm (shard_index rid)) rid) t m)
lock_start-row lm t rid m = rw (lock_start-table, update_self, lookup-insert, pair_beq_refl) refl

entry-some : (tb : Table) (rid : Rid) (s : LockState) → lookup rid tb ≡ some s → entry tb rid ≡ s
unfolding entry
entry-some tb rid s e = rw (e, entry)

held_mode-entry :
    (lm : LockManager) (rid : Rid) (u : ℕ)
    → held_mode lm rid u ≡ lookup u (entry (lm (shard_index rid)) rid).holders
unfolding held_mode entry lookup
held_mode-entry lm rid u = ground arith

held_mode-lock_start :
    (lm : LockManager) (t : ℕ) (rid : Rid) (m : LockMode) (u : ℕ)
    → held_mode (lock_start lm t rid m).1 rid u
      ≡ lookup u (enter (entry (lm (shard_index rid)) rid) t m).holders
unfolding held_mode
held_mode-lock_start lm t rid m u = rw (held_mode, lock_start-row)

enter-granted :
    (s : LockState) (t : ℕ) (m : LockMode)
    → can_grant s t m ≡ true
    → enter s t m ≡ record s { holders = insert t m s.holders }
unfolding enter
enter-granted s t m g = rw g

enter-refused :
    (s : LockState) (t : ℕ) (m : LockMode)
    → can_grant s t m ≡ false
    → enter s t m ≡ record s { wait_queue = s.wait_queue ++ record { txn_id = t; mode = m } ∷ [] }
unfolding enter
enter-refused s t m g = rw g

is_holder-insert :
    (tb : Table) (rid : Rid) (s : LockState) (t : ℕ)
    → is_holder (insert rid s tb) rid t ≡ some (contains_key t s.holders)
unfolding is_holder
is_holder-insert tb rid s t = rw (lookup-insert, pair_beq_refl, is_holder)

-- The first critical section ends with a return exactly when the request was granted, or the
-- transaction holds the row already.
lock_start-result :
    (lm : LockManager) (t : ℕ) (rid : Rid) (m : LockMode)
    → let s = entry (lm (shard_index rid)) rid in
      (lock_start lm t rid m).0
      ≡ (if can_grant s t m || contains_key t s.holders then acquired else asleep)
unfolding lock_start
lock_start-result lm t rid m =
    let tb = lm (shard_index rid) in
    let s = entry tb rid in
    elim (Bool-cases (can_grant s t m)) [
      | inl y ↦ rw y
      | inr n ↦ rw n (
          ground (
            arith,
            is_holder-insert tb rid (enter s t m) t,
            ap (λ (x : LockState). x.holders) (enter-refused s t m n),
          ))
    ]

-- When can_grant lets a request through, lock returns with the lock held in the mode asked for and
-- the other holders of the row unchanged.
pub lock_start-granted :
    (lm : LockManager) (t : ℕ) (rid : Rid) (m : LockMode) (u : ℕ)
    → can_grant (entry (lm (shard_index rid)) rid) t m ≡ true
    → ((lock_start lm t rid m).0 ≡ acquired)
      × (held_mode (lock_start lm t rid m).1 rid u
          ≡ (if t == u then some m else held_mode lm rid u))
lock_start-granted lm t rid m u g = (
  rw (lock_start-result, g),
  rw (held_mode-lock_start, enter-granted _ _ _ g, lookup-insert, held_mode-entry),
)

can_grant-queued :
    (s : LockState) (t : ℕ) (m : LockMode)
    → s.wait_queue ≢ []
    → lookup t s.holders ≡ none
    → can_grant s t m ≡ false
unfolding can_grant
can_grant-queued s t m q n = ground arith

can_grant-upgrade :
    (s : LockState) (t u : ℕ)
    → t ≢ u
    → lookup t s.holders ≡ some shared
    → lookup u s.holders ≡ some shared
    → can_grant s t exclusive ≡ false
unfolding can_grant
can_grant-upgrade s t u ne ht hu =
    ground (arith, λ (h : length s.holders ≤ 1). single-lookup t u s.holders h ht hu)

can_grant-holder :
    (s : LockState) (t : ℕ) → lookup t s.holders ≡ some exclusive → can_grant s t shared ≡ true
unfolding can_grant
can_grant-holder s t e = rw (e, can_grant)

can_grant-reader :
    (s : LockState) (t : ℕ)
    → s.wait_queue ≡ []
    → lookup t s.holders ≡ none
    → all_shared s.holders ≡ true
    → can_grant s t shared ≡ true
unfolding can_grant
can_grant-reader s t q n a = ground arith

reader_absent :
    (hs : Map ℕ LockMode) (t u : ℕ)
    → compatible hs ≡ true
    → t ≢ u
    → lookup t hs ≡ some exclusive
    → lookup u (insert t shared hs) ≡ none
reader_absent hs t u c ne e = elim (Option-cases (lookup u hs)) [
  | inl n ↦ ground (arith, lookup-insert t u shared hs)
  | inr (m, h) ↦ absurd (ne (compatible-exclusive hs t u c e h))
]

-- While requests wait for a row, lock puts a transaction that does not hold it to sleep behind them
-- and leaves the holders alone.
pub lock_start-queued :
    (lm : LockManager) (t : ℕ) (rid : Rid) (m : LockMode) (s : LockState)
    → lookup rid (lm (shard_index rid)) ≡ some s
    → s.wait_queue ≢ []
    → lookup t s.holders ≡ none
    → ((lock_start lm t rid m).0 ≡ asleep)
      × (lookup rid ((lock_start lm t rid m).1 (shard_index rid))
          ≡ some (record s { wait_queue = s.wait_queue ++ record { txn_id = t; mode = m } ∷ [] }))
lock_start-queued lm t rid m s e q n =
    let refused = can_grant-queued s t m q n in
    (
      rw (lock_start-result, entry-some _ _ _ e, refused, contains_key-none t s.holders n),
      rw (lock_start-row, entry-some _ _ _ e, enter-refused _ _ _ refused),
    )

-- lock with mode Exclusive returns at once to a reader of a row that another transaction reads, and
-- the caller is left with mode Shared beside the other reader.
pub lock_start-upgrade :
    (lm : LockManager) (t u : ℕ) (rid : Rid) (s : LockState)
    → lookup rid (lm (shard_index rid)) ≡ some s
    → t ≢ u
    → lookup t s.holders ≡ some shared
    → lookup u s.holders ≡ some shared
    → ((lock_start lm t rid exclusive).0 ≡ acquired)
      × (held_mode (lock_start lm t rid exclusive).1 rid t ≡ some shared)
      × (held_mode (lock_start lm t rid exclusive).1 rid u ≡ some shared)
lock_start-upgrade lm t u rid s e ne ht hu =
    let refused = can_grant-upgrade s t u ne ht hu in
    (
      rw (lock_start-result, entry-some _ _ _ e, refused, contains_key-lookup t s.holders ht),
      rw (held_mode-lock_start, entry-some _ _ _ e, enter-refused _ _ _ refused) ht,
      rw (held_mode-lock_start, entry-some _ _ _ e, enter-refused _ _ _ refused) hu,
    )

-- lock with mode Shared by the transaction that holds the row exclusively, in a valid row state
-- with an empty queue, leaves it with mode Shared, and another reader is then let in.
pub lock_start-downgrade :
    (lm : LockManager) (t u : ℕ) (rid : Rid) (s : LockState)
    → lookup rid (lm (shard_index rid)) ≡ some s
    → IsValid s
    → s.wait_queue ≡ []
    → t ≢ u
    → lookup t s.holders ≡ some exclusive
    → (held_mode (lock_start lm t rid shared).1 rid t ≡ some shared)
      × ((lock_start (lock_start lm t rid shared).1 u rid shared).0 ≡ acquired)
lock_start-downgrade lm t u rid s e v q ne ht =
    let holds : can_grant s t shared ≡ true = can_grant-holder s t ht in
    let after = enter-granted s t shared holds in
    (
      rw (held_mode-lock_start, entry-some _ _ _ e, after, lookup-insert, (==_iff t t).1 refl),
      rw (
        lock_start-result,
        entry-some _ _ _ (lock_start-row lm t rid shared),
        entry-some _ _ _ e,
        after,
        can_grant-reader (record s { holders = insert t shared s.holders }) u q
            (reader_absent s.holders t u v.together ne ht)
            (compatible-insert_shared t s.holders v.together ht),
      ),
    )

-- When the writer at the head of the queue of a row that only readers hold times out, the reader
-- behind it stays queued though it could be granted.
pub lock_timeout-stalls :
    (lm : LockManager) (w r : ℕ) (rid : Rid) (s : LockState) (q : List LockRequest)
    → lookup rid (lm (shard_index rid)) ≡ some s
    → w ≢ r
    → all_shared s.holders ≡ true
    → s.wait_queue
      ≡ record { txn_id = w; mode = exclusive } ∷ record { txn_id = r; mode = shared } ∷ q
    → (lookup rid (lock_timeout lm w rid (shard_index rid))
        ≡ some (record s { wait_queue = record { txn_id = r; mode = shared } ∷ retain_others w q }))
      × (grantable s.holders (record { txn_id = r; mode = shared }) ≡ true)
unfolding lock_timeout retain_others grantable
lock_timeout-stalls lm w r rid s q e ne a qe = (
  rw (lock_timeout, e, update_self, lookup-insert, pair_beq_refl, qe) (ground arith),
  ground arith,
)
