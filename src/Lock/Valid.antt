-- ===== src/Lock/Valid.antt =====
-- src/lock_manager.rs: the invariant of a row's state: who may hold the lock together.
use ccdb.Prelude.{
  ℕ, ◌≤◌, ◌≡◌, refl, ◌≢◌, inl, inr, Bool, true, false, ◌||◌, some, List, [], ◌∷◌, arith, length,
  leb, Bool-cases,
}
use ccdb.Prelude.Eq.{nat_eq}
use ccdb.Prelude.Map.{
  Map, lookup, contains_key, insert, remove, length-insert, length-remove, insert-ne-nil, NodupKeys,
  insert-NodupKeys, remove-NodupKeys,
}
use ccdb.Lock.{
  LockMode, shared, exclusive, is_shared, LockRequest, LockState, new, all_shared, is_empty,
  can_grant, grantable, grant_loop, grant_waiting, enter, retain_others, release,
}

-- Holders that may hold the lock at the same time: readers, or a single transaction.
abbrev pub compatible : Map ℕ LockMode → Bool
compatible hs = all_shared hs || leb (length hs) 1

pub record IsValid (s : LockState) : Type 0 where
  pub nodup : NodupKeys s.holders
  pub together : compatible s.holders ≡ true
  pub served : s.holders ≡ [] → s.wait_queue ≡ []

all_shared-lookup :
    (t : ℕ) (hs : Map ℕ LockMode) → all_shared hs ≡ true → lookup t hs ≢ some exclusive
unfolding all_shared lookup
all_shared-lookup t [] a = λ h. cc
all_shared-lookup t ((u, shared) ∷ hs) a = ground (arith, all_shared-lookup t hs a)
all_shared-lookup t ((u, exclusive) ∷ hs) a = cc

pub single-lookup :
    (t u : ℕ) (hs : Map ℕ LockMode) {m n : LockMode}
    → length hs ≤ 1
    → lookup t hs ≡ some m
    → lookup u hs ≡ some n
    → t ≡ u
unfolding lookup
single-lookup t u [] h p q = cc
single-lookup t u ((v, w) ∷ []) h p q = ground arith
single-lookup t u (_ ∷ _ ∷ _) h p q = absurd (omega arith)

-- If one transaction holds a row exclusively, nobody else holds it.
pub compatible-exclusive :
    (hs : Map ℕ LockMode) (t u : ℕ) {m : LockMode}
    → compatible hs ≡ true
    → lookup t hs ≡ some exclusive
    → lookup u hs ≡ some m
    → t ≡ u
compatible-exclusive hs t u c p q = elim (Bool-cases (all_shared hs)) [
  | inl a ↦ absurd (all_shared-lookup t hs a p)
  | inr b ↦ single-lookup t u hs (ground arith) p q
]

-- Where a writer is the only holder, it can only be overwritten.
pub compatible-insert_shared :
    (t : ℕ) (hs : Map ℕ LockMode)
    → compatible hs ≡ true
    → lookup t hs ≡ some exclusive
    → all_shared (insert t shared hs) ≡ true
unfolding lookup insert all_shared
compatible-insert_shared t [] c e = cc
compatible-insert_shared t ((u, w) ∷ []) c e = ground arith
compatible-insert_shared t ((u, w) ∷ x ∷ hs) c e =
    absurd (all_shared-lookup t ((u, w) ∷ x ∷ hs) (ground arith) e)

all_shared-insert :
    (t : ℕ) (hs : Map ℕ LockMode) → all_shared hs ≡ true → all_shared (insert t shared hs) ≡ true
unfolding all_shared insert
all_shared-insert t [] a = refl
all_shared-insert t ((u, shared) ∷ hs) a = ground (arith, all_shared-insert t hs a)
all_shared-insert t ((u, exclusive) ∷ hs) a = cc

all_shared-remove :
    (t : ℕ) (hs : Map ℕ LockMode) → all_shared hs ≡ true → all_shared (remove t hs) ≡ true
unfolding all_shared remove
all_shared-remove t [] a = refl
all_shared-remove t ((u, shared) ∷ hs) a = ground (arith, all_shared-remove t hs a)
all_shared-remove t ((u, exclusive) ∷ hs) a = cc

pub remove-compatible :
    (t : ℕ) (hs : Map ℕ LockMode) → compatible hs ≡ true → compatible (remove t hs) ≡ true
remove-compatible t hs c = ground (arith, all_shared-remove t hs, length-remove t hs)

-- A request that `can_grant` lets through keeps the holders compatible.
pub can_grant-compatible :
    (s : LockState) (t : ℕ) (m : LockMode)
    → compatible s.holders ≡ true
    → can_grant s t m ≡ true
    → compatible (insert t m s.holders) ≡ true
unfolding can_grant contains_key
can_grant-compatible s t shared c g = ground (
  arith,
  all_shared-insert t s.holders,
  all_shared-lookup t s.holders,
  length-insert t shared s.holders,
)
can_grant-compatible s t exclusive c g =
    ground (arith, all_shared-lookup t s.holders, length-insert t exclusive s.holders)

pub grantable-compatible :
    (hs : Map ℕ LockMode) (r : LockRequest)
    → compatible hs ≡ true
    → grantable hs r ≡ true
    → compatible (insert r.txn_id r.mode hs) ≡ true
unfolding grantable
grantable-compatible hs r c g = ground (
  arith,
  all_shared-insert r.txn_id hs,
  length-insert r.txn_id r.mode hs,
  all_shared-lookup r.txn_id hs,
)

insert-is_empty : (t : ℕ) (m : LockMode) (hs : Map ℕ LockMode) → is_empty (insert t m hs) ≡ false
insert-is_empty t m hs = ground (arith, insert-ne-nil t m hs)

-- Grants only add holders.
grant_loop-ne-nil :
    (q : List LockRequest) (hs : Map ℕ LockMode) → hs ≢ [] → (grant_loop hs q).holders ≢ []
unfolding grant_loop
grant_loop-ne-nil [] hs h = h
grant_loop-ne-nil (r ∷ q) hs h = elim (Bool-cases (grantable hs r)) [
  | inl y ↦
      rw y (grant_loop-ne-nil q (insert r.txn_id r.mode hs) (insert-ne-nil r.txn_id r.mode hs))
  | inr n ↦ rw n (ground (arith, grant_loop-ne-nil q hs h))
]

not_grantable-ne-nil : (hs : Map ℕ LockMode) (r : LockRequest) → grantable hs r ≡ false → hs ≢ []
unfolding grantable
not_grantable-ne-nil [] r g = λ h. cc
not_grantable-ne-nil (x ∷ hs) r g = λ h. cc

-- The walk over the queue keeps the holders valid, and leaves nobody waiting for a free lock.
pub grant_loop-IsValid :
    (q : List LockRequest) (hs : Map ℕ LockMode)
    → NodupKeys hs
    → compatible hs ≡ true
    → IsValid (grant_loop hs q)
unfolding grant_loop
grant_loop-IsValid [] hs n c = record { nodup = n; together = c; served = λ _. refl }
grant_loop-IsValid (r ∷ q) hs n c = elim (Bool-cases (grantable hs r)) [
  | inl y ↦ rw y (
      grant_loop-IsValid q (insert r.txn_id r.mode hs) (insert-NodupKeys r.txn_id r.mode hs n)
        (grantable-compatible hs r c y))
  | inr b ↦
      let v = grant_loop-IsValid q hs n c in
      let busy = not_grantable-ne-nil hs r b in
      rw b (elim (Bool-cases (is_shared r.mode)) [
        | inl y ↦ rw y (record {
          nodup = v.nodup;
          together = v.together;
          served = λ e. absurd (grant_loop-ne-nil q hs busy e);
        })
        | inr x ↦ rw x (record { nodup = n; together = c; served = λ e. absurd (busy e) })
      ])
]

pub release-IsValid : (s : LockState) (t : ℕ) → IsValid s → IsValid (release s t)
unfolding release grant_waiting
release-IsValid s t v =
    grant_loop-IsValid s.wait_queue (remove t s.holders) (remove-NodupKeys t s.holders v.nodup)
      (remove-compatible t s.holders v.together)

idle_grants :
    (hs : Map ℕ LockMode) (q : List LockRequest) (t : ℕ) (m : LockMode)
    → hs ≡ []
    → q ≡ []
    → can_grant (record { holders = hs; wait_queue = q }) t m ≡ true
unfolding can_grant lookup all_shared
idle_grants [] [] t shared p q = refl
idle_grants [] [] t exclusive p q = refl
idle_grants [] (_ ∷ _) t m p q = cc
idle_grants (_ ∷ _) _ t m p q = cc

-- Where the state is valid, a refusal means that somebody holds the lock.
refused-ne-nil :
    (s : LockState) (t : ℕ) (m : LockMode) → IsValid s → can_grant s t m ≡ false → s.holders ≢ []
refused-ne-nil s t m v g = λ e. cc (idle_grants s.holders s.wait_queue t m e (v.served e))

pub enter-IsValid : (s : LockState) (t : ℕ) (m : LockMode) → IsValid s → IsValid (enter s t m)
unfolding enter
enter-IsValid s t m v = elim (Bool-cases (can_grant s t m)) [
  | inl y ↦ rw y (record {
    nodup = insert-NodupKeys t m s.holders v.nodup;
    together = can_grant-compatible s t m v.together y;
    served = λ e. absurd (insert-ne-nil t m s.holders e);
  })
  | inr n ↦ rw n (record {
    nodup = v.nodup;
    together = v.together;
    served = λ e. absurd (refused-ne-nil s t m v n e);
  })
]

pub retain_others-IsValid :
    (s : LockState) (t : ℕ)
    → IsValid s
    → IsValid (record s { wait_queue = retain_others t s.wait_queue })
unfolding retain_others
retain_others-IsValid s t v = record {
  nodup = v.nodup;
  together = v.together;
  served = λ e. rw (v.served e);
}

pub new-IsValid : IsValid new
unfolding all_shared
new-IsValid = record { nodup = tt; together = refl; served = λ _. refl }
