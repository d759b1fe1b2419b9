-- ===== src/Page/Valid.antt =====
-- src/page.rs: well-formed pages, and what `insert` writes on one.
use ccdb.Prelude.Bytes.{Bytes, slice, slice-splice_self}
use ccdb.Prelude.{
  ℕ, ◌+◌, ◌-◌, ◌*◌, ◌<◌, ◌≤◌, ◌≡◌, ◌≢◌, inl, inr, List, length, arith, ◌∙◌, Bool, false,
}
use ccdb.Page.{
  write_int, read_slot, slot_pos, place, tuple_count, free_space_offset, set_tuple_count,
  set_free_space_offset, set_all_visible,
}
use ccdb.Page.Fields.{
  Apart, slice-splice_away, slice-write_int, slice-put_away, read_int-write_int, read_int-put,
  read_int-write_int_self, slice-write_slot, read_slot-write_slot_self, read_slot-same,
}

-- The slot array ends before the tuples start; a live tuple is inside the tuples' part of the page,
-- and no two of them share a byte.
pub record IsValid (b : Bytes) : Type 0 where
  pub room : 24 + tuple_count b * 4 ≤ free_space_offset b
  pub top : free_space_offset b ≤ 4096
  pub inside :
      (s : ℕ)
      → s < tuple_count b
      → (read_slot b s).1 ≢ 0
      → (free_space_offset b ≤ (read_slot b s).0) × ((read_slot b s).0 + (read_slot b s).1 ≤ 4096)
  pub disjoint :
      (s t : ℕ)
      → s < tuple_count b
      → t < tuple_count b
      → s ≢ t
      → (read_slot b s).1 ≢ 0
      → (read_slot b t).1 ≢ 0
      → Apart (read_slot b s).0 (read_slot b s).1 (read_slot b t).0 (read_slot b t).1

-- Neither the counts nor the flag of the header.
abbrev pub OffHeader : ℕ → ℕ → Type 0
OffHeader q m = Apart q m 8 4 × Apart q m 22 1

slice-header :
    (b : Bytes) (n off q m : ℕ) (f : Bool)
    → OffHeader q m
    → slice (set_all_visible (set_free_space_offset (set_tuple_count b n) off) f) q m ≡ slice b q m
slice-header b n off q m f h =
    slice-put_away (write_int 2 (write_int 2 b 8 n) 10 off) 22 _ q m h.1
    ∙ slice-write_int 2 (write_int 2 b 8 n) 10 off q m (ground (arith, h.0))
    ∙ slice-write_int 2 b 8 n q m (ground (arith, h.0))

read_slot-header :
    (b : Bytes) (n off s : ℕ) (f : Bool)
    → read_slot (set_all_visible (set_free_space_offset (set_tuple_count b n) off) f) s
      ≡ read_slot b s
read_slot-header b n off s f =
    read_slot-same b _ s
      (slice-header b n off (slot_pos s) 2 f (inr (omega arith), inr (omega arith)))
      (slice-header b n off (slot_pos s + 2) 2 f (inr (omega arith), inr (omega arith)))

-- A tuple that fits.
abbrev pub Fits : Bytes → List ℕ → Type 0
Fits b bytes = 24 + tuple_count b * 4 + length bytes + 4 ≤ free_space_offset b

module _ (b : Bytes) (bytes : List ℕ) (v : IsValid b) (fits : Fits b bytes) where
  abbrev new_off : ℕ
  new_off = free_space_offset b - length bytes

  pub place-count : tuple_count (place b bytes) ≡ tuple_count b + 1
  unfolding place
  place-count =
      read_int-put 2 _ 22 _ 8 (inl (omega arith))
      ∙ read_int-write_int 2 2 _ 10 8 new_off (inl (omega arith))
      ∙ read_int-write_int_self 2 _ 8 (tuple_count b + 1) (omega (arith, fits, v.top))

  pub place-offset : free_space_offset (place b bytes) ≡ new_off
  unfolding place
  place-offset =
      read_int-put 2 _ 22 _ 10 (inl (omega arith))
      ∙ read_int-write_int_self 2 _ 10 new_off (omega (arith, fits, v.top))

  -- Bytes of tuples that were there before.
  pub place-old : (q m : ℕ) → free_space_offset b ≤ q → slice (place b bytes) q m ≡ slice b q m
  unfolding place
  place-old q m h =
      slice-header _ (tuple_count b + 1) new_off q m false
        (inr (omega (arith, h, fits)), inr (omega (arith, h, fits)))
      ∙ slice-write_slot _ (tuple_count b) new_off (length bytes) q m (inr (omega (arith, h, fits)))
      ∙ slice-splice_away b new_off q m bytes (inr (omega (arith, h, fits)))

  pub place-bytes : slice (place b bytes) new_off (length bytes) ≡ bytes
  unfolding place
  place-bytes =
      slice-header _ (tuple_count b + 1) new_off new_off (length bytes) false
        (inr (omega (arith, fits)), inr (omega (arith, fits)))
      ∙ slice-write_slot _ (tuple_count b) new_off (length bytes) new_off (length bytes)
          (inr (omega (arith, fits)))
      ∙ slice-splice_self b new_off bytes

  pub place-slot : read_slot (place b bytes) (tuple_count b) ≡ (new_off, length bytes)
  unfolding place
  place-slot =
      read_slot-header _ (tuple_count b + 1) new_off (tuple_count b) false
      ∙ read_slot-write_slot_self _ (tuple_count b) new_off (length bytes)
          (omega (arith, fits, v.top)) (omega (arith, fits, v.top))

  -- Slots that were there before.
  slot_bytes_kept :
      (s q : ℕ)
      → s < tuple_count b
      → slot_pos s ≤ q
      → q + 2 ≤ slot_pos s + 4
      → slice (place b bytes) q 2 ≡ slice b q 2
  unfolding place
  slot_bytes_kept s q h lo hi =
      slice-header _ (tuple_count b + 1) new_off q 2 false
        (inr (omega (arith, lo)), inr (omega (arith, lo)))
      ∙ slice-write_slot _ (tuple_count b) new_off (length bytes) q 2 (inl (omega (arith, h, hi)))
      ∙ slice-splice_away b new_off q 2 bytes (inl (omega (arith, h, hi, fits)))

  pub place-slot_old : (s : ℕ) → s < tuple_count b → read_slot (place b bytes) s ≡ read_slot b s
  place-slot_old s h =
      read_slot-same b (place b bytes) s
        (slot_bytes_kept s (slot_pos s) h (omega arith) (omega arith))
        (slot_bytes_kept s (slot_pos s + 2) h (omega arith) (omega arith))
