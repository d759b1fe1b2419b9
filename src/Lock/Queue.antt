-- ===== src/Lock/Queue.antt =====
-- src/lock_manager.rs: the order of the queue, and which requests wait.
use ccdb.Prelude.{
  ℕ, ◌≡◌, refl, inl, inr, true, false, List, [], ◌∷◌, arith, Bool-cases, Bool, none, ◌==◌, ◌||◌,
}
use ccdb.Prelude.Eq.{nat_eq}
use ccdb.Prelude.Map.{Map, lookup, insert, remove, lookup-insert, lookup-remove}
use ccdb.Lock.{
  LockMode, exclusive, is_shared, LockRequest, all_shared, grantable, grant_loop, LockState,
  release, grant_waiting,
}

-- The first request in the queue cannot be granted.
abbrev pub HeadBlocked : Map ℕ LockMode → List LockRequest → Type 0
HeadBlocked hs [] = Unit
HeadBlocked hs (r ∷ q) = grantable hs r ≡ false

all_shared-insert_exclusive :
    (t : ℕ) (hs : Map ℕ LockMode) → all_shared (insert t exclusive hs) ≡ false
unfolding all_shared insert
all_shared-insert_exclusive t [] = refl
all_shared-insert_exclusive t ((u, m) ∷ hs) = ground (arith, all_shared-insert_exclusive t hs)

writer_blocks :
    (hs : Map ℕ LockMode) (r : LockRequest)
    → all_shared hs ≡ false
    → is_shared r.mode ≡ true
    → grantable hs r ≡ false
unfolding grantable all_shared
writer_blocks [] r a m = cc
writer_blocks (_ ∷ _) r a m = ground arith

blocked_writer :
    (hs : Map ℕ LockMode) (r : LockRequest)
    → grantable hs r ≡ false
    → is_shared r.mode ≡ true
    → all_shared hs ≡ false
unfolding grantable
blocked_writer [] r g m = cc
blocked_writer (_ ∷ _) r g m = ground arith

writer_mode :
    (hs : Map ℕ LockMode) (r : LockRequest)
    → all_shared hs ≡ false
    → grantable hs r ≡ true
    → r.mode ≡ exclusive
writer_mode hs r a g = ground (arith, writer_blocks hs r a)

-- A writer among the holders stays there while the queue is walked.
grant_loop-writer :
    (q : List LockRequest) (hs : Map ℕ LockMode)
    → all_shared hs ≡ false
    → all_shared (grant_loop hs q).holders ≡ false
unfolding grant_loop
grant_loop-writer [] hs a = a
grant_loop-writer (r ∷ q) hs a = elim (Bool-cases (grantable hs r)) [
  | inl y ↦ rw y (
      grant_loop-writer q (insert r.txn_id r.mode hs)
        (rw (writer_mode hs r a y) (all_shared-insert_exclusive r.txn_id hs)))
  | inr n ↦ rw n (ground (arith, grant_loop-writer q hs a))
]

-- After the walk the head of the queue could not be granted too.
pub grant_loop-HeadBlocked :
    (q : List LockRequest) (hs : Map ℕ LockMode)
    → HeadBlocked (grant_loop hs q).holders (grant_loop hs q).wait_queue
unfolding grant_loop
grant_loop-HeadBlocked [] hs = tt
grant_loop-HeadBlocked (r ∷ q) hs = elim (Bool-cases (grantable hs r)) [
  | inl y ↦ rw y (grant_loop-HeadBlocked q (insert r.txn_id r.mode hs))
  | inr n ↦ rw n (elim (Bool-cases (is_shared r.mode)) [
    | inl y ↦ rw y (
        writer_blocks (grant_loop hs q).holders r (grant_loop-writer q hs (blocked_writer hs r n y))
          y)
    | inr x ↦ rw x n
  ])
]

-- Some request in the queue is of the transaction.
unfoldable pub waits : ℕ → List LockRequest → Bool
waits t [] = false
waits t (r ∷ q) = r.txn_id == t || waits t q

-- Neither holder nor waiter.
pub record IsGone (t : ℕ) (s : LockState) : Type 0 where
  pub unheld : lookup t s.holders ≡ none
  pub idle : waits t s.wait_queue ≡ false

-- A transaction that waits for nothing gets nothing from the queue.
grant_loop-IsGone :
    (t : ℕ) (q : List LockRequest) (hs : Map ℕ LockMode)
    → lookup t hs ≡ none
    → waits t q ≡ false
    → IsGone t (grant_loop hs q)
unfolding grant_loop waits
grant_loop-IsGone t [] hs l w = record { unheld = l; idle = refl }
grant_loop-IsGone t (r ∷ q) hs l w = ground (
  arith,
  lookup-insert r.txn_id t r.mode hs,
  grant_loop-IsGone t q (insert r.txn_id r.mode hs),
  grant_loop-IsGone t q hs l,
)

-- Releasing a row leaves no trace of a transaction that waits for nothing there.
pub release-IsGone : (s : LockState) (t : ℕ) → waits t s.wait_queue ≡ false → IsGone t (release s t)
unfolding release grant_waiting
release-IsGone s t w =
    grant_loop-IsGone t s.wait_queue (remove t s.holders)
      (ground (arith, lookup-remove t t s.holders)) w

pub release-HeadBlocked :
    (s : LockState) (t : ℕ) → HeadBlocked (release s t).holders (release s t).wait_queue
unfolding release grant_waiting
release-HeadBlocked s t = grant_loop-HeadBlocked s.wait_queue (remove t s.holders)
