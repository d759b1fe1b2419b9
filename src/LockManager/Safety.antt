-- ===== src/LockManager/Safety.antt =====
-- src/lock_manager.rs: any interleaving of calls, and that no row has two incompatible holders.
use ccdb.Prelude.{
  ℕ, ◌<◌, ◌≡◌, subst, inl, inr, false, ◌&&◌, none, some, Option, List, [], ◌∷◌, arith, ◌==◌,
  Bool-cases, Option-cases,
}
use ccdb.Prelude.Eq.{nat_eq, pair_eq, pair_beq}
use ccdb.Prelude.Map.{lookup, insert, remove, lookup-insert, lookup-remove}
use ccdb.Lock.{LockMode, exclusive, LockState, is_empty, enter, release}
use ccdb.Lock.Valid.{
  IsValid, new-IsValid, enter-IsValid, release-IsValid, retain_others-IsValid, compatible-exclusive,
}
use ccdb.LockManager.{
  Rid, Table, LockManager, num_shards, shard_index, with_timeout, update, entry, is_holder,
  lock_start, lock_timeout, unlock_row, unlock_rows, in_shard, unlock_shard,
}

-- The mode in which a transaction holds a row.
unfoldable pub held_mode : LockManager → Rid → ℕ → Option LockMode
held_mode lm rid t = elim (lookup rid (lm (shard_index rid))) [
  | none ↦ none
  | some s ↦ lookup t s.holders
]

-- What happens under a shard's mutex, in any order, by any threads.
pub data Step (lm : LockManager) : LockManager → Type 0 where
  start : (t : ℕ) (rid : Rid) (m : LockMode) → Step lm (lock_start lm t rid m).1
  timeout :
      (t : ℕ) (rid : Rid)
      → is_holder (lm (shard_index rid)) rid t ≡ some false
      → Step lm (lock_timeout lm t rid)
  unlock : (t : ℕ) (held : List Rid) (i : ℕ) → i < num_shards → Step lm (unlock_shard lm t held i)

pub data Reach : LockManager → Type 0 where
  fresh : Reach with_timeout
  next : {lm lm' : LockManager} → Reach lm → Step lm lm' → Reach lm'

abbrev TableValid : Table → Type 0
TableValid t = (rid : Rid) (s : LockState) → lookup rid t ≡ some s → IsValid s

abbrev pub ManagerValid : LockManager → Type 0
ManagerValid lm = (i : ℕ) (rid : Rid) (s : LockState) → lookup rid (lm i) ≡ some s → IsValid s

some_eq : (s u : LockState) → some s ≡ some u → s ≡ u
some_eq s u e = cc

TableValid-insert :
    (t : Table) (rid : Rid) (s : LockState) → TableValid t → IsValid s → TableValid (insert rid s t)
TableValid-insert t rid s v h j u e = elim (Bool-cases (pair_beq rid j)) [
  | inl y ↦ subst IsValid (some_eq s u (rw (lookup-insert, y) at e)) h
  | inr n ↦ v j u (rw (lookup-insert, n) at e)
]

TableValid-remove : (t : Table) (rid : Rid) → TableValid t → TableValid (remove rid t)
TableValid-remove t rid v j u e = elim (Bool-cases (pair_beq rid j)) [
  | inl y ↦ cc (rw (lookup-remove, y) at e)
  | inr n ↦ v j u (rw (lookup-remove, n) at e)
]

update-Valid :
    (lm : LockManager) (i : ℕ) (t : Table)
    → ManagerValid lm
    → TableValid t
    → ManagerValid (update lm i t)
update-Valid lm i t v h j = elim (Bool-cases (i == j)) [ inl y ↦ rw y h | inr n ↦ rw n (v j) ]

entry-IsValid : (t : Table) (rid : Rid) → TableValid t → IsValid (entry t rid)
unfolding entry
entry-IsValid t rid v = elim (Option-cases (lookup rid t)) [
  | inl e ↦ rw (e, entry) new-IsValid
  | inr (s, e) ↦ rw (e, entry) (v rid s e)
]

pub lock_start-table :
    (lm : LockManager) (t : ℕ) (rid : Rid) (m : LockMode)
    → (lock_start lm t rid m).1
      ≡ update lm
          (shard_index rid)
          (insert rid (enter (entry (lm (shard_index rid)) rid) t m) (lm (shard_index rid)))
unfolding lock_start
lock_start-table lm t rid m = ground arith

lock_timeout-Valid :
    (lm : LockManager) (t : ℕ) (rid : Rid) → ManagerValid lm → ManagerValid (lock_timeout lm t rid)
unfolding lock_timeout
lock_timeout-Valid lm t rid v = elim (Option-cases (lookup rid (lm (shard_index rid)))) [
  | inl e ↦ rw (e, lock_timeout) v
  | inr (s, e) ↦
      rw (e, lock_timeout)
        (update-Valid lm (shard_index rid) _ v (
          TableValid-insert (lm (shard_index rid)) rid _ (v (shard_index rid))
            (retain_others-IsValid s t (v (shard_index rid) rid s e))))
]

unlock_row-Valid :
    (t : ℕ) (tb : Table) (rid : Rid) → TableValid tb → TableValid (unlock_row t tb rid)
unfolding unlock_row
unlock_row-Valid t tb rid v = elim (Option-cases (lookup rid tb)) [
  | inl e ↦ rw (e, unlock_row) v
  | inr (s, e) ↦
      rw (e, unlock_row)
        (elim (Bool-cases (is_empty (release s t).holders && is_empty (release s t).wait_queue)) [
          | inl y ↦ rw y (TableValid-remove tb rid v)
          | inr n ↦
              rw n (TableValid-insert tb rid (release s t) v (release-IsValid s t (v rid s e)))
        ])
]

unlock_rows-Valid :
    (t : ℕ) (tb : Table) (rids : List Rid) → TableValid tb → TableValid (unlock_rows t tb rids)
unfolding unlock_rows
unlock_rows-Valid t tb [] v = v
unlock_rows-Valid t tb (rid ∷ rids) v =
    unlock_rows-Valid t (unlock_row t tb rid) rids (unlock_row-Valid t tb rid v)

Step-Valid : {lm lm' : LockManager} → Step lm lm' → ManagerValid lm → ManagerValid lm'
unfolding unlock_shard
Step-Valid {lm} (start t rid m) v = rw (lock_start-table lm t rid m) (
    update-Valid lm (shard_index rid) _ v (
      TableValid-insert (lm (shard_index rid)) rid _ (v (shard_index rid))
        (enter-IsValid _ t m (entry-IsValid (lm (shard_index rid)) rid (v (shard_index rid))))))
Step-Valid {lm} (timeout t rid w) v = lock_timeout-Valid lm t rid v
Step-Valid {lm} (unlock t held i h) v =
    update-Valid lm i _ v (unlock_rows-Valid t (lm i) (in_shard i held) (v i))

pub Reach-Valid : {lm : LockManager} → Reach lm → ManagerValid lm
unfolding lookup
Reach-Valid fresh = λ i rid s e. cc
Reach-Valid (next r st) = Step-Valid st (Reach-Valid r)

-- In every state that calls of lock, timeouts and the rounds of unlock_all reach, if a transaction
-- holds a row in mode Exclusive then no other transaction holds that row.
pub mutual_exclusion :
    {lm : LockManager} {m : LockMode}
    → Reach lm
    → (rid : Rid) (t u : ℕ) → held_mode lm rid t ≡ some exclusive
    → held_mode lm rid u ≡ some m
    → t ≡ u
unfolding held_mode
mutual_exclusion {lm} r rid t u p q = elim (Option-cases (lookup rid (lm (shard_index rid)))) [
  | inl e ↦ cc (rw (e, held_mode) at p)
  | inr (s, e) ↦
      compatible-exclusive s.holders t u (Reach-Valid r (shard_index rid) rid s e).together
        (rw (e, held_mode) at p) (rw (e, held_mode) at q)
]
