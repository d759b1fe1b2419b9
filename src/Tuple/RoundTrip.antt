-- ===== src/Tuple/RoundTrip.antt =====
-- src/tuple.rs: reading back a row.
use ccdb.Prelude.Cursor.{drop-append_skip, take-append_self}
use ccdb.Tuple.{
  mark_nulls, Value, read_columns, Schema, serialize_values, is_null, serialize_value,
  deserialize_value, deserialize_tuple, serialize_tuple, null_bitmap_size,
}
use ccdb.Prelude.{
  ℕ, Bool, List, ◌≤◌, if◌then◌else◌, suc, ◌∷◌, ◌≡◌, ◌+◌, length, [], false, arith, ◌*◌, drop, true,
  ◌∙◌, ◌<◌, refl, some, drop-drop, ap, replicate, length-replicate, ltb, ◌++◌, length-append, take,
  sym,
}
use ccdb.Prelude.Bitmap.{
  mark_bit, has_bit, AreBytes, mark_bit-AreBytes, length-mark_bit, has_bit-mark_self,
  has_bit-mark_ne, replicate-AreBytes, has_bit-replicate,
}
use ccdb.Tuple.Values.{IsValue, deserialize_value-serialize_value}

-- The bits from `i` on say which of the values are null.
abbrev BitsAt : ℕ → List Value → List ℕ → Type 0
BitsAt i [] bitmap = Unit
BitsAt i (value ∷ values) bitmap = (has_bit bitmap i ≡ is_null value) × BitsAt (i + 1) values bitmap

-- A buffer of bytes whose bits from `i` on are clear, and which has a bit for each value.
record Blank (i n : ℕ) (buf : List ℕ) : Type 0 where
  are_bytes : AreBytes buf
  clear : (j : ℕ) → i ≤ j → has_bit buf j ≡ false
  large : i + n ≤ 8 * length buf

abbrev mark_if : Bool → List ℕ → ℕ → List ℕ
mark_if b buf i = if b then mark_bit buf i else buf

length-mark_if : (b : Bool) (buf : List ℕ) (i : ℕ) → length (mark_if b buf i) ≡ length buf
length-mark_if true buf i = length-mark_bit buf i
length-mark_if false buf i = refl

mark_if-AreBytes : (b : Bool) (buf : List ℕ) (i : ℕ) → AreBytes buf → AreBytes (mark_if b buf i)
mark_if-AreBytes true buf i h = mark_bit-AreBytes buf i h
mark_if-AreBytes false buf i h = h

has_bit-mark_if_before :
    (b : Bool) (buf : List ℕ) (i j : ℕ)
    → AreBytes buf
    → i < 8 * length buf
    → j < i
    → has_bit (mark_if b buf i) j ≡ has_bit buf j
has_bit-mark_if_before true buf i j h large lt =
    has_bit-mark_ne buf i j h (omega arith) (λ e. absurd (omega arith))
has_bit-mark_if_before false buf i j h large lt = refl

mark_if-Blank :
    (b : Bool) (buf : List ℕ) (i n : ℕ) → Blank i (suc n) buf → Blank (i + 1) n (mark_if b buf i)
mark_if-Blank true buf i n h = record {
  are_bytes = mark_bit-AreBytes buf i h.are_bytes;
  clear = λ j le.
      has_bit-mark_ne buf i j h.are_bytes (omega (arith, h.large)) (λ e. absurd (omega arith))
      ∙ h.clear j (omega arith);
  large = omega (arith, h.large, length-mark_bit buf i);
}
mark_if-Blank false buf i n h = record {
  are_bytes = h.are_bytes;
  clear = λ j le. h.clear j (omega arith);
  large = omega (arith, h.large);
}

has_bit-mark_if :
    (b : Bool) (buf : List ℕ) (i n : ℕ) → Blank i (suc n) buf → has_bit (mark_if b buf i) i ≡ b
has_bit-mark_if true buf i n h = has_bit-mark_self buf i h.are_bytes (omega (arith, h.large))
has_bit-mark_if false buf i n h = h.clear i (omega arith)

-- Marking the later columns leaves the bits of the earlier ones.
has_bit-mark_nulls :
    (i : ℕ) (values : List Value) (buf : List ℕ) (j : ℕ)
    → AreBytes buf
    → i + length values ≤ 8 * length buf
    → j < i
    → has_bit (mark_nulls i values buf) j ≡ has_bit buf j
unfolding mark_nulls
has_bit-mark_nulls i [] buf j h large lt = refl
has_bit-mark_nulls i (value ∷ values) buf j h large lt =
    has_bit-mark_nulls (i + 1) values (mark_if (is_null value) buf i) j
      (mark_if-AreBytes (is_null value) buf i h)
      (omega (arith, length-mark_if (is_null value) buf i)) (omega arith)
    ∙ has_bit-mark_if_before (is_null value) buf i j h (omega arith) lt

mark_nulls-BitsAt :
    (i : ℕ) (values : List Value) (buf : List ℕ)
    → Blank i (length values) buf
    → BitsAt i values (mark_nulls i values buf)
unfolding mark_nulls
mark_nulls-BitsAt i [] buf h = tt
mark_nulls-BitsAt i (value ∷ values) buf h =
    let next = mark_if-Blank (is_null value) buf i (length values) h in
    (
      has_bit-mark_nulls (i + 1) values (mark_if (is_null value) buf i) i next.are_bytes next.large
            (omega arith)
          ∙ has_bit-mark_if (is_null value) buf i (length values) h,
      mark_nulls-BitsAt (i + 1) values _ next,
    )

length-mark_nulls :
    (i : ℕ) (values : List Value) (buf : List ℕ) → length (mark_nulls i values buf) ≡ length buf
unfolding mark_nulls
length-mark_nulls i [] buf = refl
length-mark_nulls i (value ∷ values) buf =
    length-mark_nulls (i + 1) values _ ∙ length-mark_if (is_null value) buf i

null_bitmap_size-large : (n : ℕ) → n ≤ 8 * length {A = ℕ} (replicate (null_bitmap_size n) 0)
unfolding null_bitmap_size
null_bitmap_size-large n = rw length-replicate (omega arith)

module _ (is_utf8 : List ℕ → Bool) where
  -- The values of a row are of the types of the columns.
  unfoldable pub FitsSchema : List Value → Schema → Type 0
  FitsSchema [] [] = Unit
  FitsSchema [] (column ∷ columns) = ⊥
  FitsSchema (value ∷ values) [] = ⊥
  FitsSchema (value ∷ values) (column ∷ columns) =
      IsValue is_utf8 value column.data_type × FitsSchema values columns

  -- From an offset at which the bytes of the remaining values stand.
  read_columns-serialize_values :
      (values : List Value) (columns : Schema) (i : ℕ) (bitmap : List ℕ) (offset : ℕ)
      (bytes : List ℕ)
      → FitsSchema values columns
      → BitsAt i values bitmap
      → drop offset bytes ≡ serialize_values values
      → read_columns is_utf8 columns i bitmap offset bytes ≡ some values
  unfolding read_columns FitsSchema serialize_values
  read_columns-serialize_values [] [] i bitmap offset bytes fits bits here = refl
  read_columns-serialize_values [] (column ∷ columns) i bitmap offset bytes fits bits here =
      absurd fits
  read_columns-serialize_values (value ∷ values) [] i bitmap offset bytes fits bits here =
      absurd fits
  read_columns-serialize_values (value ∷ values) (column ∷ columns) i bitmap offset bytes fits bits
        here =
      let next : drop (offset + length (serialize_value value)) bytes ≡ serialize_values values =
        drop-drop offset (length (serialize_value value)) _ bytes refl
        ∙ ap (drop (length (serialize_value value))) here
        ∙ drop-append_skip (serialize_value value) (serialize_values values) 0 _ (omega arith) in
      let rest : read_columns is_utf8 columns (i + 1) bitmap
            (offset + length (serialize_value value)) bytes
          ≡ some values =
        read_columns-serialize_values values columns (i + 1) bitmap _ bytes fits.1 bits.1 next in
      let first : deserialize_value is_utf8 (drop offset bytes) column.data_type (has_bit bitmap i)
          ≡ some (value, length (serialize_value value)) =
        rw (here, bits.0)
          (deserialize_value-serialize_value is_utf8 value column.data_type
            (serialize_values values) fits.0) in
      ground (arith, first, rest)

  FitsSchema-length :
      (values : List Value) (schema : Schema)
      → FitsSchema values schema
      → length values ≡ length schema
  unfolding FitsSchema
  FitsSchema-length [] [] fits = refl
  FitsSchema-length [] (column ∷ columns) fits = absurd fits
  FitsSchema-length (value ∷ values) [] fits = absurd fits
  FitsSchema-length (value ∷ values) (column ∷ columns) fits =
      ap suc (FitsSchema-length values columns fits.1)

  -- deserialize_tuple gives back the values whose bytes serialize_tuple wrote.
  pub deserialize_tuple-serialize_tuple :
      (values : List Value) (schema : Schema)
      → FitsSchema values schema
      → deserialize_tuple is_utf8 (serialize_tuple values) schema ≡ some values
  unfolding deserialize_tuple serialize_tuple
  deserialize_tuple-serialize_tuple values schema fits =
      let n = null_bitmap_size (length values) in
      let bitmap : List ℕ = mark_nulls 0 values (replicate n 0) in
      let size : length bitmap ≡ n =
        length-mark_nulls 0 values (replicate n 0) ∙ length-replicate n 0 in
      let enough : length values ≤ 8 * length {A = ℕ} (replicate n 0) =
        null_bitmap_size-large (length values) in
      let blank : Blank 0 (length values) (replicate n 0) = record {
        are_bytes = replicate-AreBytes n;
        clear = λ j le. has_bit-replicate n j;
        large = omega (arith, enough);
      } in
      let whole : ltb (length (bitmap ++ serialize_values values)) n ≡ false =
        ground (arith, length-append bitmap (serialize_values values), size) in
      let front : take n (bitmap ++ serialize_values values) ≡ bitmap =
        ap (λ k. take k (bitmap ++ serialize_values values)) (sym size)
        ∙ take-append_self bitmap (serialize_values values) in
      rw (sym (FitsSchema-length values schema fits), whole, front)
        (read_columns-serialize_values values schema 0 bitmap n _ fits
          (mark_nulls-BitsAt 0 values _ blank)
          (drop-append_skip bitmap (serialize_values values) 0 n (omega (arith, size))))
