-- ===== src/Page/Delete.antt =====
-- src/page.rs: `delete`, and `restore` which takes it back.
use ccdb.Prelude.Bytes.{Bytes, slice, splice, slice-splice_self, length-slice}
use ccdb.Prelude.{
  ℕ, ◌+◌, ◌<◌, ◌≤◌, ◌≡◌, ◌≢◌, inl, inr, List, some, none, length, arith, ap, ◌∙◌, Bool-cases, false,
  ◌==◌, sym,
}
use ccdb.Page.{
  delete, restore, get_tuple, read_slot, write_slot, slot_pos, tuple_count, free_space_offset,
  set_all_visible,
}
use ccdb.Page.Fields.{
  Apart, slice-splice_away, slice-put_away, read_int-splice, read_int-put, slice-write_slot,
  read_int-write_slot, read_slot-write_slot_self, read_slot-same,
}
use ccdb.Page.Valid.{IsValid}
use ccdb.Page.Insert.{get_tuple-live, get_tuple-dead, get_tuple-same}

-- A slot's entry is written again.
module _ (b : Bytes) (s off len : ℕ) where
  read_slot-write_slot_ne : (t : ℕ) → t ≢ s → read_slot (write_slot b s off len) t ≡ read_slot b t
  read_slot-write_slot_ne t ne =
      read_slot-same b _ t (slice-write_slot b s off len (slot_pos t) 2 (omega (arith, ne)))
        (slice-write_slot b s off len (slot_pos t + 2) 2 (omega (arith, ne)))

  count-write_slot : tuple_count (write_slot b s off len) ≡ tuple_count b
  count-write_slot = read_int-write_slot 2 b s off len 8 (inl (omega arith))

  offset-write_slot : free_space_offset (write_slot b s off len) ≡ free_space_offset b
  offset-write_slot = read_int-write_slot 2 b s off len 10 (inl (omega arith))

pub get_tuple-inv :
    (b : Bytes) (s : ℕ) (bytes : List ℕ)
    → get_tuple b s ≡ some bytes
    → (s < tuple_count b)
      × ((read_slot b s).1 ≢ 0)
      × (slice b (read_slot b s).0 (read_slot b s).1 ≡ bytes)
unfolding get_tuple
get_tuple-inv b s bytes h = ground (arith, h)

module _ (b : Bytes) (s : ℕ) (v : IsValid b) (h : s < tuple_count b)
    (live : (read_slot b s).1 ≢ 0) where
  abbrev off : ℕ
  off = (read_slot b s).0

  abbrev len : ℕ
  len = (read_slot b s).1

  abbrev deleted : Bytes
  deleted = write_slot b s off 0

  deleted-slot : read_slot deleted s ≡ (off, 0)
  deleted-slot =
      read_slot-write_slot_self b s off 0 (omega (arith, v.inside s h live)) (omega arith)

  -- Bytes where tuples may be.
  deleted-slice : (q m : ℕ) → free_space_offset b ≤ q → slice deleted q m ≡ slice b q m
  deleted-slice q m lo = slice-write_slot b s off 0 q m (inr (omega (arith, lo, h, v.room)))

  deleted-get : (t : ℕ) → t < tuple_count b → t ≢ s → get_tuple deleted t ≡ get_tuple b t
  deleted-get t ht ne =
      get_tuple-same b deleted t ht (omega (arith, ht, count-write_slot b s off 0))
        (read_slot-write_slot_ne b s off 0 t ne) (λ lt. deleted-slice _ _ (v.inside t ht lt).0)

  module _ (bytes : List ℕ) (kept : slice b off len ≡ bytes) where
    length-kept : length bytes ≡ len
    length-kept = ap length (sym kept) ∙ length-slice b off len

    abbrev restored : Bytes
    restored = set_all_visible (write_slot (splice deleted off bytes) s off (length bytes)) false

    restored-slice :
        (q m : ℕ) → free_space_offset b ≤ q → Apart q m off len → slice restored q m ≡ slice b q m
    restored-slice q m lo apart =
        slice-put_away _ 22 _ q m (inr (omega (arith, lo, v.room)))
        ∙ slice-write_slot _ s off (length bytes) q m (inr (omega (arith, lo, h, v.room)))
        ∙ slice-splice_away deleted off q m bytes (rw length-kept apart)
        ∙ deleted-slice q m lo

    restored-count : tuple_count restored ≡ tuple_count b
    restored-count =
        read_int-put 2 _ 22 _ 8 (inl (omega arith))
        ∙ count-write_slot _ s off (length bytes)
        ∙ read_int-splice 2 deleted off 8 bytes (inl (omega (arith, v.inside s h live, v.room)))
        ∙ count-write_slot b s off 0

    restored-slot_of :
        (t : ℕ)
        → t < tuple_count b
        → read_slot restored t
          ≡ read_slot (write_slot (splice deleted off bytes) s off (length bytes)) t
    restored-slot_of t ht =
        read_slot-same _ restored t (slice-put_away _ 22 _ (slot_pos t) 2 (inr (omega arith)))
          (slice-put_away _ 22 _ (slot_pos t + 2) 2 (inr (omega arith)))

    restored-slot : (t : ℕ) → t < tuple_count b → t ≢ s → read_slot restored t ≡ read_slot b t
    restored-slot t ht ne =
        let far = v.inside s h live in
        restored-slot_of t ht
        ∙ read_slot-write_slot_ne _ s off (length bytes) t ne
        ∙ read_slot-same deleted _ t
            (slice-splice_away deleted off (slot_pos t) 2 bytes
              (inl (omega (arith, ht, far, v.room))))
            (slice-splice_away deleted off (slot_pos t + 2) 2 bytes
              (inl (omega (arith, ht, far, v.room))))
        ∙ read_slot-write_slot_ne b s off 0 t ne

    restored-slot_self : read_slot restored s ≡ (off, length bytes)
    restored-slot_self =
        let far = v.inside s h live in
        restored-slot_of s h
        ∙ read_slot-write_slot_self _ s off (length bytes) (omega (arith, far))
            (omega (arith, far, length-kept))

    restored-bytes : slice restored off (length bytes) ≡ bytes
    restored-bytes =
        let far = v.inside s h live in
        slice-put_away _ 22 _ off (length bytes) (inr (omega (arith, far, v.room)))
        ∙ slice-write_slot _ s off (length bytes) off (length bytes)
            (inr (omega (arith, far, h, v.room)))
        ∙ slice-splice_self deleted off bytes

    restored-get_self : get_tuple restored s ≡ some bytes
    restored-get_self =
        get_tuple-live restored s (rw restored-count h) (rw (restored-slot_self, length-kept) live)
        ∙ rw restored-slot_self (ap some restored-bytes)

    restored-get : (t : ℕ) → t < tuple_count b → t ≢ s → get_tuple restored t ≡ get_tuple b t
    restored-get t ht ne =
        get_tuple-same b restored t ht (rw restored-count ht) (restored-slot t ht ne)
          (λ lt. restored-slice _ _ (v.inside t ht lt).0 (v.disjoint t s ht h ne lt live))

restore-tombstone :
    (c : Bytes) (s off : ℕ) (bytes : List ℕ)
    → read_slot c s ≡ (off, 0)
    → s < tuple_count c
    → off + length bytes ≤ 4096
    → restore c s bytes
      ≡ some (set_all_visible (write_slot (splice c off bytes) s off (length bytes)) false)
unfolding restore
restore-tombstone c s off bytes e h fits = rw e (ground (arith, h, fits))

-- Deleting a tuple of a well-formed page hides that tuple and no other, and restore with its bytes
-- then makes every slot read as before.
pub delete-restore :
    (b : Bytes) (s : ℕ) (bytes : List ℕ)
    → IsValid b
    → get_tuple b s ≡ some bytes
    → (c : Bytes) × (d : Bytes) × (delete b s ≡ some c)
      × (get_tuple c s ≡ none)
      × ((t : ℕ) → t < tuple_count b → t ≢ s → get_tuple c t ≡ get_tuple b t)
      × (restore c s bytes ≡ some d)
      × ((t : ℕ) → t < tuple_count b → get_tuple d t ≡ get_tuple b t)
unfolding delete
delete-restore b s bytes v e =
    let (h, live, kept) = get_tuple-inv b s bytes e in
    let count = count-write_slot b s (read_slot b s).0 0 in
    let slot = deleted-slot b s v h live in
    (
      deleted b s v h live,
      restored b s v h live bytes kept,
      ground (arith, h, live),
      get_tuple-dead _ s (ap (λ (x : ℕ × ℕ). x.1) slot),
      deleted-get b s v h live,
      restore-tombstone _ s _ bytes slot (rw count h)
          (omega (arith, v.inside s h live, length-kept b s v h live bytes kept)),
      λ t ht. elim (Bool-cases (t == s)) [
        | inl y ↦
            let same : t ≡ s = ground (arith, y) in
            rw same (restored-get_self b s v h live bytes kept ∙ sym e)
        | inr n ↦ restored-get b s v h live bytes kept t ht (ground (arith, n))
      ],
    )
