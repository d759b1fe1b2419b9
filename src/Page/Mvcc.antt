-- ===== src/Page/Mvcc.antt =====
-- src/page.rs: `set_tuple_xmax` on a stored tuple, whose first sixteen bytes are xmin and xmax.
use ccdb.Prelude.Bytes.{Bytes, le_bytes, slice, splice, slice-splice_self, length-le_bytes}
use ccdb.Prelude.{
  ℕ, ◌+◌, ◌-◌, ◌<◌, ◌≤◌, ◌≡◌, ◌≢◌, inl, inr, ◌++◌, some, arith, refl, ap, ◌∙◌, sym, false, suc, ◌∷◌,
  zero,
}
use ccdb.Page.{
  set_tuple_xmax, set_all_visible, get_tuple, read_slot, slot_pos, tuple_count, free_space_offset,
  write_int,
}
use ccdb.Page.Fields.{
  Apart, slice-write_int, slice-put_away, read_int-write_int, read_int-put, read_slot-same,
}
use ccdb.Page.Valid.{IsValid}
use ccdb.Page.Insert.{get_tuple-live, get_tuple-same}

slice-append :
    (b : Bytes) (p n m k q : ℕ) → k ≡ n + m → q ≡ p + n → slice b p k ≡ slice b p n ++ slice b q m
unfolding slice
slice-append b p zero m k q e f =
    let same : k ≡ m = omega arith in
    let start : p ≡ q = omega arith in ap (slice b p) same ∙ ap (λ i. slice b i m) start
slice-append b p (suc n) m zero q e f = absurd (omega arith)
slice-append b p (suc n) m (suc k) q e f =
    ap (◌∷◌ (b p)) (slice-append b (p + 1) n m k q (omega arith) (omega arith))

slice-write_int_self : (w : ℕ) (b : Bytes) (p x : ℕ) → slice (write_int w b p x) p w ≡ le_bytes w x
unfolding write_int
slice-write_int_self w b p x =
    ap (slice (splice b p (le_bytes w x)) p) (sym (length-le_bytes w x))
    ∙ slice-splice_self b p (le_bytes w x)

module _ (b : Bytes) (s xmax : ℕ) (v : IsValid b) (h : s < tuple_count b)
    (long : 16 ≤ (read_slot b s).1) where
  abbrev off : ℕ
  off = (read_slot b s).0

  abbrev len : ℕ
  len = (read_slot b s).1

  abbrev marked : Bytes
  marked = set_all_visible (write_int 8 b (off + 8) xmax) false

  live : (read_slot b s).1 ≢ 0
  live = ground (arith, long)

  marked-slice : (q m : ℕ) → Apart q m (off + 8) 8 → Apart q m 22 1 → slice marked q m ≡ slice b q m
  marked-slice q m a f = slice-put_away _ 22 _ q m f ∙ slice-write_int 8 b (off + 8) xmax q m a

  marked-count : tuple_count marked ≡ tuple_count b
  marked-count =
      read_int-put 2 _ 22 _ 8 (inl (omega arith))
      ∙ read_int-write_int 2 8 b (off + 8) 8 xmax (inl (omega (arith, v.inside s h live, v.room)))

  marked-offset : free_space_offset marked ≡ free_space_offset b
  marked-offset =
      read_int-put 2 _ 22 _ 10 (inl (omega arith))
      ∙ read_int-write_int 2 8 b (off + 8) 10 xmax (inl (omega (arith, v.inside s h live, v.room)))

  marked-slot : (t : ℕ) → t < tuple_count b → read_slot marked t ≡ read_slot b t
  marked-slot t ht =
      let far = v.inside s h live in
      read_slot-same b marked t
        (marked-slice (slot_pos t) 2 (inl (omega (arith, ht, far, v.room))) (inr (omega arith)))
        (marked-slice (slot_pos t + 2) 2 (inl (omega (arith, ht, far, v.room))) (inr (omega arith)))

  marked-tuple :
      slice marked off len ≡ slice b off 8 ++ (le_bytes 8 xmax ++ slice b (off + 16) (len - 16))
  marked-tuple =
      let far = v.inside s h live in
      slice-append marked off 8 (len - 8) len (off + 8) (omega (arith, long)) refl
      ∙ rw (
        slice-append marked (off + 8) 8 (len - 16) (len - 8) (off + 16) (omega (arith, long))
            (omega arith),
        marked-slice off 8 (inl (omega arith)) (inr (omega (arith, far, v.room))),
        marked-slice (off + 16) (len - 16) (inr (omega arith)) (inr (omega (arith, far, v.room))),
        slice-put_away (write_int 8 b (off + 8) xmax) 22 0 (off + 8) 8
            (inr (omega (arith, far, v.room))),
        slice-write_int_self 8 b (off + 8) xmax,
      )

  marked-get_self :
      get_tuple marked s
      ≡ some (slice b off 8 ++ (le_bytes 8 xmax ++ slice b (off + 16) (len - 16)))
  marked-get_self =
      get_tuple-live marked s (rw marked-count h) (rw (marked-slot s h) live)
      ∙ rw (marked-slot s h) (ap some marked-tuple)

  marked-get : (t : ℕ) → t < tuple_count b → t ≢ s → get_tuple marked t ≡ get_tuple b t
  marked-get t ht ne = get_tuple-same b marked t ht (rw marked-count ht) (marked-slot t ht) (λ lt.
      marked-slice _ _ (ground (arith, v.disjoint t s ht h ne lt live, long))
        (inr (omega (arith, v.inside t ht lt, v.room))))

  marked-IsValid : IsValid marked
  marked-IsValid = record {
    room = rw (marked-count, marked-offset) v.room;
    top = rw marked-offset v.top;
    inside = λ t ht lt.
        let old : t < tuple_count b = rw marked-count at ht in
        rw (marked-offset, marked-slot t old) (v.inside t old (rw (marked-slot t old) at lt));
    disjoint = λ t u ht hu ne lt lu.
        let t_old : t < tuple_count b = rw marked-count at ht in
        let u_old : u < tuple_count b = rw marked-count at hu in
        rw (marked-slot t t_old, marked-slot u u_old)
          (v.disjoint t u t_old u_old ne (rw (marked-slot t t_old) at lt)
            (rw (marked-slot u u_old) at lu));
  }

  -- On a live tuple of sixteen bytes or more of a well-formed page, set_tuple_xmax replaces the
  -- eight bytes of xmax; the rest of the tuple and every other tuple read as before, and the page
  -- stays well formed.
  pub set_tuple_xmax-get :
      (c : Bytes) × (set_tuple_xmax b s xmax ≡ some c)
      × (get_tuple c s ≡ some (slice b off 8 ++ (le_bytes 8 xmax ++ slice b (off + 16) (len - 16))))
      × ((t : ℕ) → t < tuple_count b → t ≢ s → get_tuple c t ≡ get_tuple b t)
      × IsValid c
  unfolding set_tuple_xmax
  set_tuple_xmax-get =
      (marked, ground (arith, h, long), marked-get_self, marked-get, marked-IsValid)
