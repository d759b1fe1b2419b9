-- ===== src/Visibility/Isolation.antt =====
-- src/visibility.rs: what a snapshot sees, and that it goes on seeing the same.
use ccdb.TransactionManager.Decide.{status_uncached-view, status_uncached-manager, lookup-remember}
use ccdb.Prelude.Map.{lookup}
use ccdb.Clog.{TxnStatus}
use ccdb.Prelude.{
  ℕ, Bool, ◌≡◌, ◌==◌, some, ◌||◌, ltb, ◌&&◌, not, Option-cases, inr, inl, arith, refl, true, false,
  leb, Bool-cases, sym, ◌∙◌,
}
use ccdb.Visibility.{Reader, is_committed, creator_visible, deleter_invisible, is_visible}
use ccdb.TransactionManager.{Snapshot, status, contains, Manager, status_uncached, Cache, remember}
use ccdb.StatusLog.{StatusLog}
use mathlib.Core.Path.{fun_ext}
use ccdb.TransactionManager.Steps.{Since}
use ccdb.Prelude.Eq.{nat_eq}

-- A transaction's effects are part of a snapshot, by the statuses at hand: its own, or those of a
-- transaction below `xmax` that was not active when the snapshot was taken and is committed by now.
unfoldable pub sees : Snapshot → (ℕ → TxnStatus) → ℕ → Bool
sees snap v x =
    x == snap.txn_id || (ltb x snap.xmax && (not (contains x snap.active) && is_committed (v x)))

module _ (snap : Snapshot) (v : ℕ → TxnStatus) (x : ℕ) where
  sees_own : (x == snap.txn_id) ≡ true → sees snap v x ≡ true
  unfolding sees
  sees_own y = rw y

  sees_future : (x == snap.txn_id) ≡ false → leb snap.xmax x ≡ true → sees snap v x ≡ false
  unfolding sees
  sees_future n y = ground arith

  sees_active : (x == snap.txn_id) ≡ false → contains x snap.active ≡ true → sees snap v x ≡ false
  unfolding sees
  sees_active n y = ground arith

  sees_past :
      (x == snap.txn_id) ≡ false
      → leb snap.xmax x ≡ false
      → contains x snap.active ≡ false
      → sees snap v x ≡ is_committed (v x)
  unfolding sees
  sees_past n m k = ground arith

module _ (log : StatusLog) where
  open log use {IsReady, view, get-view, get-IsReady}

  -- What the cache says agrees with the log.
  pub record IsCoherent (r : Reader log) : Type 0 where
    pub ready : IsReady (r.1.clog)
    pub agrees :
        (x : ℕ) (s : TxnStatus)
        → lookup x r.0 ≡ some s
        → is_committed s ≡ is_committed (view (r.1.clog) x)

  uncached-committed :
      (tm : Manager log) (x : ℕ)
      → IsReady tm.clog
      → is_committed (status_uncached log tm x).0 ≡ is_committed (view tm.clog x)
  uncached-committed tm x r = rw (status_uncached-view log tm x r) (ground arith)

  agrees_after :
      (tm : Manager log) (cache : Cache) (x y : ℕ) (s : TxnStatus)
      → IsCoherent (cache, tm)
      → lookup y (remember cache x (status_uncached log tm x).0) ≡ some s
      → is_committed s ≡ is_committed (view ((status_uncached log tm x).1.clog) y)
  agrees_after tm cache x y s h l = rw (status_uncached-manager log tm x) (
      rw (get-view tm.clog x y h.ready) (elim (lookup-remember cache x y _ s l) [
        | inl (xy, es) ↦ cc (uncached-committed tm x h.ready, xy, es)
        | inr old ↦ h.agrees y s old
      ]))

  -- What a look-up of `x` may answer and leave behind.
  pub record StatusRead (r : Reader log) (x : ℕ) (o : TxnStatus × Reader log) : Type 0 where
    pub answer : is_committed o.0 ≡ is_committed (view (r.1.clog) x)
    pub kept : (u : ℕ) → view (o.1.1.clog) u ≡ view (r.1.clog) u
    pub coherent : IsCoherent o.1

  status_read : (r : Reader log) (x : ℕ) → IsCoherent r → StatusRead r x (status log r x)
  unfolding status
  status_read (cache, tm) x h = elim (Option-cases (lookup x cache)) [
    | inr (s, e) ↦
        rw (e, status) (record { answer = h.agrees x s e; kept = λ u. refl; coherent = h })
    | inl e ↦
        rw (e, status)
          (record {
            answer = uncached-committed tm x h.ready;
            kept = λ u. rw (status_uncached-manager log tm x) (get-view tm.clog x u h.ready);
            coherent = record {
              ready = rw (status_uncached-manager log tm x) (get-IsReady tm.clog x h.ready);
              agrees = λ y s l. agrees_after tm cache x y s h l;
            };
          })
  ]

  -- A check that answers `b` and leaves every status as it was.
  pub record Answers (r : Reader log) (b : Bool) (o : Bool × Reader log) : Type 0 where
    pub answer : o.0 ≡ b
    pub kept : (u : ℕ) → view (o.1.1.clog) u ≡ view (r.1.clog) u
    pub coherent : IsCoherent o.1

  at_once : (r : Reader log) (b c : Bool) → IsCoherent r → c ≡ b → Answers r b (c, r)
  at_once r b c h e = record { answer = e; kept = λ u. refl; coherent = h }

  creator_visible_lem :
      (xmin : ℕ) (snap : Snapshot) (r : Reader log)
      → IsCoherent r
      → Answers r (sees snap (view (r.1.clog)) xmin) (creator_visible log xmin snap r)
  unfolding creator_visible
  creator_visible_lem xmin snap r h = elim (Bool-cases (xmin == snap.txn_id)) [
    | inl y ↦ rw y (at_once r _ true h (sym (sees_own snap _ xmin y)))
    | inr n ↦ elim (Bool-cases (leb snap.xmax xmin)) [
      | inl y ↦ rw (n, y) (at_once r _ false h (sym (sees_future snap _ xmin n y)))
      | inr m ↦ elim (Bool-cases (contains xmin snap.active)) [
        | inl y ↦ rw (n, m, y) (at_once r _ false h (sym (sees_active snap _ xmin n y)))
        | inr k ↦
            let st = status_read r xmin h in
            rw (n, m, k)
              (record {
                answer = st.answer ∙ sym (sees_past snap _ xmin n m k);
                kept = st.kept;
                coherent = st.coherent;
              })
      ]
    ]
  ]

  deleter_invisible_lem :
      (xmax : ℕ) (snap : Snapshot) (r : Reader log)
      → IsCoherent r
      → Answers r
          (xmax == 0 || not (sees snap (view (r.1.clog)) xmax))
          (deleter_invisible log xmax snap r)
  unfolding deleter_invisible
  deleter_invisible_lem xmax snap r h = elim (Bool-cases (xmax == 0)) [
    | inl z ↦ rw z (at_once r _ true h refl)
    | inr z ↦ elim (Bool-cases (xmax == snap.txn_id)) [
      | inl y ↦ rw (z, y) (at_once r _ false h (rw (sees_own snap _ xmax y)))
      | inr n ↦ elim (Bool-cases (leb snap.xmax xmax)) [
        | inl y ↦ rw (z, n, y) (at_once r _ true h (rw (sees_future snap _ xmax n y)))
        | inr m ↦ elim (Bool-cases (contains xmax snap.active)) [
          | inl y ↦ rw (z, n, m, y) (at_once r _ true h (rw (sees_active snap _ xmax n y)))
          | inr k ↦
              let st = status_read r xmax h in
              rw (z, n, m, k)
                (record {
                  answer = rw (sees_past snap _ xmax n m k) (rw (← st.answer) (ground arith));
                  kept = st.kept;
                  coherent = st.coherent;
                })
        ]
      ]
    ]
  ]

  -- is_visible answers exactly whether the creator is part of the snapshot and the deleter, if any,
  -- is not, by the statuses in the log at the time of the check; it changes no status and keeps the
  -- cache in agreement with the log.
  pub is_visible-sees :
      (xmin xmax : ℕ) (snap : Snapshot) (r : Reader log)
      → IsCoherent r
      → Answers r
          (sees snap (view (r.1.clog)) xmin
            && (xmax == 0 || not (sees snap (view (r.1.clog)) xmax)))
          (is_visible log xmin xmax snap r)
  unfolding is_visible
  is_visible-sees xmin xmax snap r h =
      let c = creator_visible_lem xmin snap r h in
      let d = deleter_invisible_lem xmax snap (creator_visible log xmin snap r).1 c.coherent in
      rw (← c.answer) (elim (Bool-cases (creator_visible log xmin snap r).0) [
        | inl y ↦ rw y (record {
          answer = rw (← fun_ext c.kept) d.answer;
          kept = λ u. d.kept u ∙ c.kept u;
          coherent = d.coherent;
        })
        | inr n ↦ rw n (record { answer = refl; kept = c.kept; coherent = c.coherent })
      ])

  pub sees-Since :
      {snap : Snapshot} {past : ℕ → TxnStatus} {tm : Manager log} (x : ℕ)
      → Since log snap past tm
      → sees snap (view tm.clog) x ≡ sees snap past x
  unfolding sees
  sees-Since {snap = snap} {past = past} {tm = tm} x since = ground (arith, since.same x)
