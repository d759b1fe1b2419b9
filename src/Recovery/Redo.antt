-- ===== src/Recovery/Redo.antt =====
-- src/recovery.rs: the redo pass can be run again.
use ccdb.Page.Fields.{read_int-write_int_self}
use ccdb.Prelude.Bytes.{Bytes}
use ccdb.Page.{page_lsn, set_page_lsn, set_tuple_xmax}
use ccdb.Wal.{WalRecord, WalRecordType, undo_insert, undo_delete}
use ccdb.Recovery.{
  Pool, redo_page, redo_set_xmax, redo_record, redo_from, ensure_page_allocated, store, put_tuple,
  put_sequence, init_page,
}
use ccdb.Prelude.{
  ℕ, ◌<◌, ◌≤◌, ◌^◌, ◌≡◌, List, [], ◌∷◌, Option, some, none, Bool, true, false, leb, ltb, arith,
  refl, ap, ◌∙◌, Bool-cases, sym, inl, inr, Option-cases,
}

-- One pool is not older than another: as many pages, with LSNs at least as high.
pub record Newer (p q : Pool) : Type 0 where
  pub count : q.page_count ≡ p.page_count
  pub lsns : (i : ℕ) → page_lsn (p.pages i) ≤ page_lsn (q.pages i)

Newer-trans : {p q r : Pool} → Newer p q → Newer q r → Newer p r
Newer-trans h k = record {
  count = k.count ∙ h.count;
  lsns = λ i. omega (arith, h.lsns i, k.lsns i);
}

allocated-same :
    (pool : Pool) (pid : ℕ) → pid < pool.page_count → ensure_page_allocated pool pid ≡ pool
unfolding ensure_page_allocated
allocated-same pool pid h = ground (arith, h)

page_lsn-set_page_lsn : (b : Bytes) (lsn : ℕ) → lsn < 2 ^ 64 → page_lsn (set_page_lsn b lsn) ≡ lsn
page_lsn-set_page_lsn b lsn h = read_int-write_int_self 8 b 12 lsn h

store-Newer :
    (p : Pool) (pid lsn : ℕ) (b : Bytes)
    → lsn < 2 ^ 64
    → page_lsn (p.pages pid) < lsn
    → Newer p (store p pid (set_page_lsn b lsn))
store-Newer p pid lsn b h low = record {
  count = refl;
  lsns = λ i. ground (arith, page_lsn-set_page_lsn b lsn h, low);
}

redo_page-skips :
    (p : Pool) (pid lsn : ℕ) (change : Bytes → Option Bytes)
    → lsn ≤ page_lsn (p.pages pid)
    → redo_page p pid lsn change ≡ some (false, p)
unfolding redo_page
redo_page-skips p pid lsn change h = ground (arith, h)

redo_page-applies :
    (p : Pool) (pid lsn : ℕ) (change : Bytes → Option Bytes) (o : Option Bytes)
    → leb lsn (page_lsn (p.pages pid)) ≡ false
    → change (p.pages pid) ≡ o
    → redo_page p pid lsn change
      ≡ elim o [ none ↦ none | some b ↦ some (true, store p pid (set_page_lsn b lsn)) ]
unfolding redo_page
redo_page-applies p pid lsn change o n e = rw (n, e, redo_page)

result_pool :
    {f g : Bool} {p q : Pool} → ◌≡◌ {A = Option (Bool × Pool)} (some (f, p)) (some (g, q)) → p ≡ q
result_pool e =
    ap (λ o. elim o [ some x ↦ x.1 | none ↦ record { page_count = 0; pages = λ _ _. 0 } ]) e

redo_page-Newer :
    (p q : Pool) (pid lsn : ℕ) (change : Bytes → Option Bytes) (f : Bool)
    → lsn < 2 ^ 64
    → redo_page p pid lsn change ≡ some (f, q)
    → Newer p q × (lsn ≤ page_lsn (q.pages pid))
redo_page-Newer p q pid lsn change f h e = elim (Bool-cases (leb lsn (page_lsn (p.pages pid)))) [
  | inl y ↦
      let high : lsn ≤ page_lsn (p.pages pid) = ground (arith, y) in
      let same : p ≡ q = result_pool (sym (redo_page-skips p pid lsn change high) ∙ e) in
      rw (← same) (record { count = refl; lsns = λ i. omega arith }, high)
  | inr n ↦ elim (Option-cases (change (p.pages pid))) [
    | inl c ↦ absurd (cc (redo_page-applies p pid lsn change none n c, e))
    | inr (b, c) ↦
        let same : store p pid (set_page_lsn b lsn) ≡ q =
          result_pool (sym (redo_page-applies p pid lsn change (some b) n c) ∙ e) in
        let low : page_lsn (p.pages pid) < lsn = ground (arith, n) in
        let self : page_lsn ((store p pid (set_page_lsn b lsn)).pages pid) ≡ lsn =
          ground (arith, page_lsn-set_page_lsn b lsn h) in
        rw (← same) (store-Newer p pid lsn b h low, omega (arith, self))
  ]
]

-- The pages that a record names are allocated.
abbrev pub InPool : Pool → WalRecordType → Type 0
InPool p (WalRecordType.insert (pid, _) _) = pid < p.page_count
InPool p (WalRecordType.delete (pid, _) _) = pid < p.page_count
InPool p (WalRecordType.sequence_advance pid _) = pid < p.page_count
InPool p (WalRecordType.page_init pid _) = pid < p.page_count
InPool p (WalRecordType.clr _ (undo_delete (pid, _) _)) = pid < p.page_count
InPool p (WalRecordType.clr _ (undo_insert _)) = Unit
InPool p WalRecordType.begin = Unit
InPool p WalRecordType.commit = Unit
InPool p WalRecordType.abort = Unit
InPool p (WalRecordType.checkpoint _ _) = Unit
InPool p (WalRecordType.index_insert _ _ _) = Unit

-- After redo of a record, later redo of it on that pool or a newer one does nothing.
abbrev Settled : ℕ → WalRecordType → Pool → Pool → Type 0
Settled lsn t p q = Newer p q × ((r : Pool) → Newer q r → redo_record r lsn t ≡ some (false, r))

page-Settled :
    (t : WalRecordType) (pid lsn : ℕ) (change : Bytes → Option Bytes) (p q : Pool) (f : Bool)
    → lsn < 2 ^ 64
    → pid < p.page_count
    → ((r : Pool) → pid < r.page_count → redo_record r lsn t ≡ redo_page r pid lsn change)
    → redo_record p lsn t ≡ some (f, q)
    → Settled lsn t p q
page-Settled t pid lsn change p q f h inside shape e =
    let (newer, high) = redo_page-Newer p q pid lsn change f h (sym (shape p inside) ∙ e) in
    (
      newer,
      λ r k.
          shape r (omega (arith, inside, newer.count, k.count))
          ∙ redo_page-skips r pid lsn change (omega (arith, high, k.lsns pid)),
    )

none-Settled :
    (t : WalRecordType) (lsn : ℕ) (p q : Pool) (f : Bool)
    → ((r : Pool) → redo_record r lsn t ≡ some (false, r))
    → redo_record p lsn t ≡ some (f, q)
    → Settled lsn t p q
none-Settled t lsn p q f shape e =
    let same : p ≡ q = result_pool (sym (shape p) ∙ e) in
    (rw (← same) (record { count = refl; lsns = λ i. omega arith }), λ r k. shape r)

xmax_shape :
    (r : Pool) (pid slot xmax lsn : ℕ)
    → pid < r.page_count
    → redo_set_xmax r (pid, slot) xmax lsn ≡ redo_page r pid lsn (λ p. set_tuple_xmax p slot xmax)
unfolding redo_set_xmax
xmax_shape r pid slot xmax lsn h = ground (arith, h)

record-Settled :
    (t : WalRecordType) (lsn : ℕ) (p q : Pool) (f : Bool)
    → lsn < 2 ^ 64
    → InPool p t
    → redo_record p lsn t ≡ some (f, q)
    → Settled lsn t p q
unfolding redo_record
record-Settled (WalRecordType.insert (pid, slot) bytes) lsn p q f h i e =
    page-Settled (WalRecordType.insert (pid, slot) bytes) pid lsn (put_tuple slot bytes) p q f h i
      (λ r k. ap (λ a. redo_page a pid lsn (put_tuple slot bytes)) (allocated-same r pid k)) e
record-Settled (WalRecordType.delete (pid, slot) xmax) lsn p q f h i e =
    page-Settled (WalRecordType.delete (pid, slot) xmax) pid lsn (λ b. set_tuple_xmax b slot xmax) p
      q f h i (λ r k. xmax_shape r pid slot xmax lsn k) e
record-Settled (WalRecordType.sequence_advance pid v) lsn p q f h i e =
    page-Settled (WalRecordType.sequence_advance pid v) pid lsn (put_sequence v) p q f h i
      (λ r k. ap (λ a. redo_page a pid lsn (put_sequence v)) (allocated-same r pid k)) e
record-Settled (WalRecordType.page_init pid kind) lsn p q f h i e =
    page-Settled (WalRecordType.page_init pid kind) pid lsn (init_page pid kind) p q f h i
      (λ r k. ap (λ a. redo_page a pid lsn (init_page pid kind)) (allocated-same r pid k)) e
record-Settled (WalRecordType.clr u (undo_delete (pid, slot) xmax)) lsn p q f h i e =
    page-Settled (WalRecordType.clr u (undo_delete (pid, slot) xmax)) pid lsn
      (λ b. set_tuple_xmax b slot xmax) p q f h i (λ r k. xmax_shape r pid slot xmax lsn k) e
record-Settled (WalRecordType.clr u (undo_insert rid)) lsn p q f h i e =
    none-Settled (WalRecordType.clr u (undo_insert rid)) lsn p q f (λ r. refl) e
record-Settled WalRecordType.begin lsn p q f h i e =
    none-Settled WalRecordType.begin lsn p q f (λ r. refl) e
record-Settled WalRecordType.commit lsn p q f h i e =
    none-Settled WalRecordType.commit lsn p q f (λ r. refl) e
record-Settled WalRecordType.abort lsn p q f h i e =
    none-Settled WalRecordType.abort lsn p q f (λ r. refl) e
record-Settled (WalRecordType.checkpoint a d) lsn p q f h i e =
    none-Settled (WalRecordType.checkpoint a d) lsn p q f (λ r. refl) e
record-Settled (WalRecordType.index_insert x k rid) lsn p q f h i e =
    none-Settled (WalRecordType.index_insert x k rid) lsn p q f (λ r. refl) e

-- The LSNs fit, and the pages that records name are allocated.
abbrev pub AllIn : Pool → List WalRecord → Type 0
AllIn p [] = Unit
AllIn p (r ∷ rs) = (r.lsn < 2 ^ 64) × InPool p r.record_type × AllIn p rs

InPool-Newer : (p q : Pool) (t : WalRecordType) → Newer p q → InPool p t → InPool q t
InPool-Newer p q (WalRecordType.insert (pid, _) _) n h = rw n.count h
InPool-Newer p q (WalRecordType.delete (pid, _) _) n h = rw n.count h
InPool-Newer p q (WalRecordType.sequence_advance pid _) n h = rw n.count h
InPool-Newer p q (WalRecordType.page_init pid _) n h = rw n.count h
InPool-Newer p q (WalRecordType.clr _ (undo_delete (pid, _) _)) n h = rw n.count h
InPool-Newer p q (WalRecordType.clr _ (undo_insert _)) n h = tt
InPool-Newer p q WalRecordType.begin n h = tt
InPool-Newer p q WalRecordType.commit n h = tt
InPool-Newer p q WalRecordType.abort n h = tt
InPool-Newer p q (WalRecordType.checkpoint _ _) n h = tt
InPool-Newer p q (WalRecordType.index_insert _ _ _) n h = tt

AllIn-Newer : (p q : Pool) (rs : List WalRecord) → Newer p q → AllIn p rs → AllIn q rs
AllIn-Newer p q [] n h = tt
AllIn-Newer p q (r ∷ rs) n h = (h.0, InPool-Newer p q r.record_type n h.1, AllIn-Newer p q rs n h.2)

redo_from-skip :
    (p : Pool) (start : ℕ) (r : WalRecord) (rs : List WalRecord)
    → ltb r.lsn start ≡ true
    → redo_from p start (r ∷ rs) ≡ redo_from p start rs
unfolding redo_from
redo_from-skip p start r rs y = rw (y, redo_from)

redo_from-next :
    (p : Pool) (start : ℕ) (r : WalRecord) (rs : List WalRecord) (o : Option (Bool × Pool))
    → ltb r.lsn start ≡ false
    → redo_record p r.lsn r.record_type ≡ o
    → redo_from p start (r ∷ rs) ≡ elim o [ none ↦ none | some x ↦ redo_from x.1 start rs ]
unfolding redo_from
redo_from-next p start r rs o n e = rw (n, e, redo_from)

redo_from-settles :
    (rs : List WalRecord) (start : ℕ) (p q : Pool)
    → AllIn p rs
    → redo_from p start rs ≡ some q
    → Newer p q × ((s : Pool) → Newer q s → redo_from s start rs ≡ some s)
unfolding redo_from
redo_from-settles [] start p q h e =
    let same : p ≡ q = ap (λ o. elim o [ some x ↦ x | none ↦ p ]) e in
    (rw (← same) (record { count = refl; lsns = λ i. omega arith }), λ s k. refl)
redo_from-settles (r ∷ rs) start p q h e = elim (Bool-cases (ltb r.lsn start)) [
  | inl y ↦
      let (newer, again) =
        redo_from-settles rs start p q h.2 (sym (redo_from-skip p start r rs y) ∙ e) in
      (newer, λ s k. redo_from-skip s start r rs y ∙ again s k)
  | inr n ↦ elim (Option-cases (redo_record p r.lsn r.record_type)) [
    | inl c ↦ absurd (cc (redo_from-next p start r rs none n c, e))
    | inr ((f, p'), c) ↦
        let (newer, settled) = record-Settled r.record_type r.lsn p p' f h.0 h.1 c in
        let (rest, again) =
          redo_from-settles rs start p' q (AllIn-Newer p p' rs newer h.2)
            (sym (redo_from-next p start r rs (some (f, p')) n c) ∙ e) in
        (
          Newer-trans newer rest,
          λ s k.
              redo_from-next s start r rs (some (false, s)) n (settled s (Newer-trans rest k))
              ∙ again s k,
        )
  ]
]

-- When the pages that the records name are allocated and the LSNs fit, running the redo pass again
-- on the pages that it produced changes nothing.
pub redo_from-redo_from :
    (rs : List WalRecord) (start : ℕ) (p q : Pool)
    → AllIn p rs
    → redo_from p start rs ≡ some q
    → redo_from q start rs ≡ some q
redo_from-redo_from rs start p q h e =
    (redo_from-settles rs start p q h e).1 q (record { count = refl; lsns = λ i. omega arith })
