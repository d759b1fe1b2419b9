-- ===== src/Tuple/Mvcc.antt =====
-- src/tuple.rs: the header of a row version.
use ccdb.Prelude.Cursor.{read_le, read_le-here, read_le-skip, length-le_bytes_append}
use ccdb.Tuple.{
  deserialize_tuple_mvcc_full, mvcc_header_size, deserialize_tuple_mvcc,
  serialize_tuple_mvcc_with_ctid, Value, Schema, serialize_tuple,
}
use ccdb.Prelude.Bytes.{le_bytes}
use ccdb.Prelude.{
  ℕ, List, ltb, ◌<◌, Bool, ◌++◌, length, drop, ◌^◌, ◌≡◌, false, refl, ◌+◌, ◌∙◌, some, arith,
}
use ccdb.Tuple.RoundTrip.{FitsSchema, deserialize_tuple-serialize_tuple}

-- A row version and what is found in its bytes.
module _ (xmin xmax page_id slot : ℕ) (payload : List ℕ) where
  abbrev version : List ℕ
  version =
      le_bytes 8 xmin ++ (le_bytes 8 xmax ++ (le_bytes 4 page_id ++ (le_bytes 2 slot ++ payload)))

  length-version : ltb (length version) mvcc_header_size ≡ false
  length-version =
      let size : length version ≡ 22 + length payload =
        rw
          (
            length-le_bytes_append, length-le_bytes_append, length-le_bytes_append,
            length-le_bytes_append,
          )
          (omega arith) in
      ground (arith, size)

  drop-version : drop mvcc_header_size version ≡ payload
  unfolding le_bytes
  drop-version = refl

  xmin-version : xmin < 2 ^ 64 → read_le 8 0 version ≡ xmin
  xmin-version h = read_le-here 8 xmin _ h

  xmax-version : xmax < 2 ^ 64 → read_le 8 8 version ≡ xmax
  xmax-version h = read_le-skip 8 xmin 8 0 8 _ refl ∙ read_le-here 8 xmax _ h

  page-version : page_id < 2 ^ 32 → read_le 4 16 version ≡ page_id
  page-version h =
      read_le-skip 8 xmin 4 8 16 _ refl
      ∙ read_le-skip 8 xmax 4 0 8 _ refl
      ∙ read_le-here 4 page_id _ h

  slot-version : slot < 2 ^ 16 → read_le 2 20 version ≡ slot
  slot-version h =
      read_le-skip 8 xmin 2 12 20 _ refl
      ∙ read_le-skip 8 xmax 2 4 12 _ refl
      ∙ read_le-skip 4 page_id 2 0 4 _ refl
      ∙ read_le-here 2 slot payload h

module _ (is_utf8 : List ℕ → Bool) where
  -- For values of the types of the columns and header fields in their widths, both readers of a row
  -- version give back what was written: xmin, xmax, the forward pointer and the values, nulls
  -- included.
  pub deserialize_tuple_mvcc_full-serialize_tuple_mvcc_with_ctid :
      (xmin xmax page_id slot : ℕ) (values : List Value) (schema : Schema)
      → xmin < 2 ^ 64
      → xmax < 2 ^ 64
      → page_id < 2 ^ 32
      → slot < 2 ^ 16
      → FitsSchema is_utf8 values schema
      → (deserialize_tuple_mvcc_full is_utf8
            (serialize_tuple_mvcc_with_ctid xmin xmax (page_id, slot) values)
            schema
          ≡ some (xmin, xmax, (page_id, slot), values))
        × (deserialize_tuple_mvcc is_utf8
              (serialize_tuple_mvcc_with_ctid xmin xmax (page_id, slot) values)
              schema
            ≡ some (xmin, xmax, values))
  unfolding deserialize_tuple_mvcc_full deserialize_tuple_mvcc serialize_tuple_mvcc_with_ctid
  deserialize_tuple_mvcc_full-serialize_tuple_mvcc_with_ctid xmin xmax page_id slot values schema h1
        h2 h3 h4 fits =
      let payload = serialize_tuple values in
      let long = length-version xmin xmax page_id slot payload in
      let inside = drop-version xmin xmax page_id slot payload in
      let back = deserialize_tuple-serialize_tuple is_utf8 values schema fits in
      let f1 = xmin-version xmin xmax page_id slot payload h1 in
      let f2 = xmax-version xmin xmax page_id slot payload h2 in
      let f3 = page-version xmin xmax page_id slot payload h3 in
      let f4 = slot-version xmin xmax page_id slot payload h4 in
      (rw (long, inside, back, f1, f2, f3, f4) refl, rw (long, inside, back, f1, f2) refl)
