-- ===== src/TransactionManager/Decide.antt =====
-- src/transaction_manager.rs: what `begin`, `commit` and `abort` do to the table and to the log.
use ccdb.Prelude.Map.{lookup, lookup-remove, contains_key, lookup-insert, contains_key-none}
use ccdb.Clog.{TxnStatus, committed, aborted, in_progress}
use ccdb.Prelude.{
  ℕ, ◌≡◌, if◌then◌else◌, ◌==◌, ◌&&◌, Bool-cases, inl, arith, none, inr, refl, ◌∙◌, not, some, ◌⊎◌,
  [], false,
}
use ccdb.TransactionManager.{
  decide, commit, Manager, leave, is_in_progress, abort, status_uncached, remember, Cache, status,
}
use ccdb.StatusLog.{StatusLog}
use ccdb.Prelude.Eq.{nat_eq}

pub lookup-remember :
    (cache : Cache) (x y : ℕ) (s s' : TxnStatus)
    → lookup y (remember cache x s) ≡ some s'
    → (x ≡ y) × (s ≡ s') ⊎ (lookup y cache ≡ some s')
unfolding remember lookup
lookup-remember cache x y s s' h =
    ground (arith, lookup-insert x y s cache, lookup-insert {V = TxnStatus} x y s [])

pub remember-lookup_self :
    (cache : Cache) (x : ℕ) (s : TxnStatus)
    → is_in_progress s ≡ false
    → lookup x (remember cache x s) ≡ some s
unfolding remember lookup
remember-lookup_self cache x s h =
    ground (arith, lookup-insert x x s cache, lookup-insert {V = TxnStatus} x x s [])

module _ (log : StatusLog) where
  open log use {
    Log, get, set, IsReady, view, get-result, get-view, get-IsReady, set-view, set-IsReady,
  }

  pub decide-view :
      (tm : Manager log) (t : ℕ) (s : TxnStatus) (u : ℕ)
      → IsReady tm.clog
      → (IsReady (decide log tm t s).clog)
        × (view (decide log tm t s).clog u
            ≡ (if t == u && is_in_progress (view tm.clog t) then s else view tm.clog u))
  unfolding decide
  decide-view tm t s u r = elim (Bool-cases (is_in_progress (view tm.clog t))) [
    | inl y ↦
        rw (get-result tm.clog t r, y)
          (
            set-IsReady _ t s (get-IsReady tm.clog t r),
            ground (
              arith,
              set-view (get tm.clog t).1 t s u (get-IsReady tm.clog t r),
              get-view tm.clog t u r,
            ),
          )
    | inr n ↦
        rw (get-result tm.clog t r, n)
          (get-IsReady tm.clog t r, ground (arith, get-view tm.clog t u r))
  ]

  decide-rest :
      (tm : Manager log) (t : ℕ) (s : TxnStatus)
      → ((decide log tm t s).att ≡ tm.att) × ((decide log tm t s).next_txn_id ≡ tm.next_txn_id)
  unfolding decide
  decide-rest tm t s = ground arith

  pub leave-IsReady : (tm : Manager log) (t : ℕ) → IsReady tm.clog → IsReady (leave log tm t).clog
  unfolding leave
  leave-IsReady tm t r = r

  pub leave-clog : (tm : Manager log) (t : ℕ) → (leave log tm t).clog ≡ tm.clog
  unfolding leave
  leave-clog tm t = refl

  lookup-leave :
      (tm : Manager log) (t u : ℕ)
      → lookup u (leave log tm t).att ≡ (if t == u then none else lookup u tm.att)
  unfolding leave
  lookup-leave tm t u = lookup-remove t u tm.att

  leave-next : (tm : Manager log) (t : ℕ) → (leave log tm t).next_txn_id ≡ tm.next_txn_id
  unfolding leave
  leave-next tm t = refl

  -- What a call that ends transaction `t` with status `s` makes of `u`.
  abbrev pub Ends : Manager log → ℕ → TxnStatus → ℕ → Manager log → Type 0
  Ends tm t s u tm' =
      (view tm'.clog u ≡ (if t == u && is_in_progress (view tm.clog t) then s else view tm.clog u))
      × (lookup u tm'.att ≡ (if t == u then none else lookup u tm.att))
      × (tm'.next_txn_id ≡ tm.next_txn_id)

  settle-Ends :
      (tm : Manager log) (t : ℕ) (s : TxnStatus) (u : ℕ)
      → IsReady tm.clog
      → Ends tm t s u (decide log (leave log tm t) t s)
  settle-Ends tm t s u r = (
    rw (decide-view (leave log tm t) t s u (leave-IsReady tm t r)).1 (rw (leave-clog tm t)),
    rw (decide-rest (leave log tm t) t s).0 (lookup-leave tm t u),
    (decide-rest (leave log tm t) t s).1 ∙ leave-next tm t,
  )

  -- On a log whose pages can be read, commit and abort decide a transaction only when it is
  -- undecided, take it out of the table, and leave the status and the entry of every other
  -- transaction and the next id alone.
  pub commit-abort-Ends :
      (tm : Manager log) (t u : ℕ)
      → IsReady tm.clog
      → Ends tm t committed u (commit log tm t) × Ends tm t aborted u (abort log tm t)
  unfolding commit abort
  commit-abort-Ends tm t u r = (settle-Ends tm t committed u r, settle-Ends tm t aborted u r)

  pub commit-IsReady : (tm : Manager log) (t : ℕ) → IsReady tm.clog → IsReady (commit log tm t).clog
  unfolding commit
  commit-IsReady tm t r = (decide-view (leave log tm t) t committed 0 (leave-IsReady tm t r)).0

  pub abort-IsReady : (tm : Manager log) (t : ℕ) → IsReady tm.clog → IsReady (abort log tm t).clog
  unfolding abort
  abort-IsReady tm t r = (decide-view (leave log tm t) t aborted 0 (leave-IsReady tm t r)).0

  pub status_uncached-manager :
      (tm : Manager log) (t : ℕ)
      → (status_uncached log tm t).1 ≡ record tm { clog = (get tm.clog t).1 }
  unfolding status_uncached
  status_uncached-manager tm t = ground arith

  -- On a log whose pages can be read, status_uncached answers with the status of the log, except
  -- that a transaction that the log does not know and the table does not list is taken for aborted.
  pub status_uncached-view :
      (tm : Manager log) (t : ℕ)
      → IsReady tm.clog
      → (status_uncached log tm t).0 ≡ (
          if is_in_progress (view tm.clog t) && not (contains_key t tm.att)
          then aborted
          else view tm.clog t)
  unfolding status_uncached
  status_uncached-view tm t r = ground (arith, get-result tm.clog t r)

  pub status-miss :
      (cache : Cache) (tm : Manager log) (x : ℕ)
      → lookup x cache ≡ none
      → let (s, tm') = status_uncached log tm x in
        status log (cache, tm) x ≡ (s, (remember cache x s, tm'))
  unfolding status
  status-miss cache tm x e = rw (e, status)

  pub status-hit :
      (cache : Cache) (tm : Manager log) (x : ℕ) (s : TxnStatus)
      → lookup x cache ≡ some s
      → (status log (cache, tm) x).0 ≡ s
  unfolding status
  status-hit cache tm x s e = rw (e, status)

  -- A transaction that has left the table undecided is taken for aborted.
  pub leave-aborted :
      (tm : Manager log) (x : ℕ)
      → IsReady tm.clog
      → view tm.clog x ≡ in_progress
      → (status_uncached log (leave log tm x) x).0 ≡ aborted
  leave-aborted tm x r v =
      rw (status_uncached-view (leave log tm x) x (leave-IsReady tm x r), leave-clog, v)
        (rw (contains_key-none x (leave log tm x).att (lookup-leave tm x x ∙ ground arith)))
