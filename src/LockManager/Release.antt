-- ===== src/LockManager/Release.antt =====
-- src/lock_manager.rs: what `unlock_all` leaves of the rows that it releases.
use ccdb.Prelude.{
  ℕ, zero, suc, ◌<◌, ◌≤◌, ◌≡◌, refl, subst, sym, inl, inr, Bool, true, false, ◌&&◌, ◌||◌, none,
  some, Option, List, [], ◌∷◌, arith, ◌==◌, if◌then◌else◌, Bool-cases, Option-cases, ap, ==_iff,
}
use ccdb.Prelude.Eq.{nat_eq, pair_eq, pair_beq, pair_beq_iff}
use ccdb.Prelude.Map.{lookup, lookup-insert, lookup-remove}
use ccdb.Lock.{LockState, is_empty, release}
use ccdb.Lock.Queue.{waits, IsGone, HeadBlocked, release-IsGone, release-HeadBlocked}
use ccdb.LockManager.Safety.{held_mode}
use ccdb.LockManager.{
  Rid, Table, LockManager, num_shards, shard_index, unlock_row, unlock_rows, in_shard, unlock_shard,
  unlock_shards, unlock_all,
}

unfoldable pub is_member : Rid → List Rid → Bool
is_member rid [] = false
is_member rid (j ∷ rids) = pair_beq j rid || is_member rid rids

abbrev At : (LockState → Type 0) → Rid → Table → Type 0
At P rid tb = (s : LockState) → lookup rid tb ≡ some s → P s

after_release : ℕ → Option LockState → Option LockState
after_release t none = none
after_release t (some s) =
    let s' = release s t in if is_empty s'.holders && is_empty s'.wait_queue then none else some s'

lookup-unlock_row :
    (t : ℕ) (tb : Table) (rid j : Rid)
    → lookup j (unlock_row t tb rid)
      ≡ (if pair_beq rid j then after_release t (lookup rid tb) else lookup j tb)
unfolding unlock_row after_release
lookup-unlock_row t tb rid j = elim (Option-cases (lookup rid tb)) [
  | inl e ↦ ground (arith, pair_beq_iff rid j)
  | inr (s, e) ↦ rw e (ground (arith, lookup-insert rid j (release s t) tb, lookup-remove rid j tb))
]

after_release-some :
    (t : ℕ) (s : LockState) {u : LockState} → after_release t (some s) ≡ some u → release s t ≡ u
unfolding after_release
after_release-some t s e = ground arith

unlock_shards-later :
    (n : ℕ) (lm : LockManager) (t : ℕ) (held : List Rid) (i : ℕ)
    → n ≤ i
    → unlock_shards n lm t held i ≡ lm i
unfolding unlock_shards unlock_shard
unlock_shards-later zero lm t held i h = refl
unlock_shards-later (suc n) lm t held i h = ground (arith, unlock_shards-later n lm t held i)

in_shard-is_member :
    (j : Rid) (held : List Rid)
    → is_member j held ≡ true
    → is_member j (in_shard (shard_index j) held) ≡ true
unfolding in_shard is_member
in_shard-is_member j [] m = cc
in_shard-is_member j (rid ∷ held) m = elim (Bool-cases (pair_beq rid j)) [
  | inl y ↦ let same = (pair_beq_iff rid j).0 y in ground (arith, ap shard_index same)
  | inr n ↦ ground (arith, in_shard-is_member j held)
]

module _ {P Q : LockState → Type 0} (t : ℕ) (done : (s : LockState) → Q s → P (release s t))
    (again : (s : LockState) → P s → Q s) (j : Rid) where
  after_release-At :
      (tb : Table) → At Q j tb → (u : LockState) → after_release t (lookup j tb) ≡ some u → P u
  unfolding after_release
  after_release-At tb q u e = elim (Option-cases (lookup j tb)) [
    | inl n ↦ cc (rw n at e)
    | inr (s, l) ↦ subst P (after_release-some t s (rw l at e)) (done s (q s l))
  ]

  unlock_row-At_self :
      (tb : Table) (rid : Rid) → pair_beq rid j ≡ true → At Q j tb → At P j (unlock_row t tb rid)
  unlock_row-At_self tb rid y q u e =
      let same = (pair_beq_iff rid j).0 y in
      after_release-At tb q u (
        subst (λ (r : Rid). after_release t (lookup r tb) ≡ some u) same
          (rw (lookup-unlock_row, y) at e))

  unlock_row-At_other :
      (R : LockState → Type 0) (tb : Table) (rid : Rid)
      → pair_beq rid j ≡ false
      → At R j tb
      → At R j (unlock_row t tb rid)
  unlock_row-At_other R tb rid n h u e = h u (rw (lookup-unlock_row, n) at e)

  unlock_rows-At_done : (tb : Table) (rids : List Rid) → At P j tb → At P j (unlock_rows t tb rids)
  unfolding unlock_rows
  unlock_rows-At_done tb [] p = p
  unlock_rows-At_done tb (rid ∷ rids) p = elim (Bool-cases (pair_beq rid j)) [
    | inl y ↦
        unlock_rows-At_done (unlock_row t tb rid) rids
          (unlock_row-At_self tb rid y (λ s e. again s (p s e)))
    | inr n ↦ unlock_rows-At_done (unlock_row t tb rid) rids (unlock_row-At_other P tb rid n p)
  ]

  unlock_rows-At :
      (tb : Table) (rids : List Rid)
      → is_member j rids ≡ true
      → At Q j tb
      → At P j (unlock_rows t tb rids)
  unfolding unlock_rows is_member
  unlock_rows-At tb [] m q = cc
  unlock_rows-At tb (rid ∷ rids) m q = elim (Bool-cases (pair_beq rid j)) [
    | inl y ↦ unlock_rows-At_done (unlock_row t tb rid) rids (unlock_row-At_self tb rid y q)
    | inr n ↦
        unlock_rows-At (unlock_row t tb rid) rids (rw n at m) (unlock_row-At_other Q tb rid n q)
  ]

  unlock_shard-At :
      (lm : LockManager) (held : List Rid)
      → is_member j held ≡ true
      → At Q j (lm (shard_index j))
      → At P j (unlock_shard lm t held (shard_index j) (shard_index j))
  unfolding unlock_shard
  unlock_shard-At lm held m q = rw ((==_iff (shard_index j) (shard_index j)).1 refl) (
      unlock_rows-At (lm (shard_index j)) (in_shard (shard_index j) held)
        (in_shard-is_member j held m) q)

  unlock_shards-At :
      (n : ℕ) (lm : LockManager) (held : List Rid)
      → shard_index j < n
      → is_member j held ≡ true
      → At Q j (lm (shard_index j))
      → At P j (unlock_shards n lm t held (shard_index j))
  unfolding unlock_shards unlock_shard
  unlock_shards-At zero lm held h m q = absurd (omega arith)
  unlock_shards-At (suc n) lm held h m q = elim (Bool-cases (n == shard_index j)) [
    | inl y ↦
        let last = (==_iff n (shard_index j)).0 y in
        subst
          (λ (i : ℕ). At P j (unlock_shard (unlock_shards n lm t held) t held i (shard_index j)))
          (sym last)
          (unlock_shard-At (unlock_shards n lm t held) held m
            (rw (unlock_shards-later n lm t held (shard_index j) (omega (arith, last))) q))
    | inr x ↦ rw x (unlock_shards-At n lm held (ground arith) m q)
  ]

  unlock_all-At :
      (lm : LockManager) (held : List Rid)
      → is_member j held ≡ true
      → At Q j (lm (shard_index j))
      → At P j (unlock_all lm t held (shard_index j))
  unfolding unlock_all shard_index
  unlock_all-At lm held = unlock_shards-At num_shards lm held (omega arith)

-- The transaction has a request in the queue of the row.
unfoldable pub is_queued : LockManager → Rid → ℕ → Bool
is_queued lm rid t = elim (lookup rid (lm (shard_index rid))) [
  | none ↦ false
  | some s ↦ waits t s.wait_queue
]

not_queued :
    (lm : LockManager) (rid : Rid) (t : ℕ)
    → is_queued lm rid t ≡ false
    → At (λ s. waits t s.wait_queue ≡ false) rid (lm (shard_index rid))
unfolding is_queued
not_queued lm rid t w s e = rw (e, is_queued) at w

-- After unlock_all a transaction that was not queued for a row it releases neither holds it nor
-- waits for it.
pub unlock_all-released :
    (lm : LockManager) (t : ℕ) (held : List Rid) (rid : Rid)
    → is_member rid held ≡ true
    → is_queued lm rid t ≡ false
    → (held_mode (unlock_all lm t held) rid t ≡ none)
      × (is_queued (unlock_all lm t held) rid t ≡ false)
unfolding is_queued held_mode
unlock_all-released lm t held rid m w =
    elim (Option-cases (lookup rid (unlock_all lm t held (shard_index rid)))) [
      | inl e ↦ rw (e, held_mode, is_queued) (refl, refl)
      | inr (s, e) ↦
          let gone =
            unlock_all-At {P = IsGone t} {Q = λ s. waits t s.wait_queue ≡ false} t
              (λ u h. release-IsGone u t h) (λ u g. g.idle) rid lm held m (not_queued lm rid t w) s
              e in
          rw (e, held_mode, is_queued) (gone.unheld, gone.idle)
    ]

-- After unlock_all no released row has a request at the head of its queue that could be granted.
pub unlock_all-HeadBlocked :
    (lm : LockManager) (t : ℕ) (held : List Rid) (rid : Rid) (s : LockState)
    → is_member rid held ≡ true
    → lookup rid (unlock_all lm t held (shard_index rid)) ≡ some s
    → HeadBlocked s.holders s.wait_queue
unlock_all-HeadBlocked lm t held rid s m e =
    unlock_all-At {P = λ s. HeadBlocked s.holders s.wait_queue} {Q = λ _. Unit} t
      (λ u _. release-HeadBlocked u t) (λ _ _. tt) rid lm held m (λ _ _. tt) s e
