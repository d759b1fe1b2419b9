-- ===== src/Btree/KeyCodec.antt =====
-- src/btree.rs: a key is read back as the value that was encoded.
use ccdb.Btree.Key.{Ordering, decode_key, encode_key}
use ccdb.Prelude.{List, ◌≡◌, ℕ, ap, Bool, sym, Option, ◌∙◌, [], some, ◌++◌, arith, true, false}
use ccdb.Prelude.Bytes.{le_bytes, length-le_bytes}
use ccdb.Prelude.Int.{ℤ, IsI32, IsI64, i32_bits, i64_bits, i32_of_bits, i64_of_bits}
use ccdb.Tuple.{Value, DataType, interval, interval_type}
use ccdb.Tuple.Values.{
  IsTyped, int_typed, varchar_typed, bool_typed, double_typed, timestamp_typed, date_typed,
  time_typed, interval_typed, i32_field, i64_field, months_field, days_field, micros_field,
  length-interval_bytes,
}
use ccdb.Prelude.Cursor.{read_le, read_le-whole}
use mathlib.Core.List.{append-nil}

i32_key : (v : ℤ) → IsI32 v → i32_of_bits (read_le 4 0 (le_bytes 4 (i32_bits v))) ≡ v
i32_key v h =
    ap (λ l. i32_of_bits (read_le 4 0 l)) (sym (append-nil (le_bytes 4 (i32_bits v))))
    ∙ i32_field v [] h

i64_key : (v : ℤ) → IsI64 v → i64_of_bits (read_le 8 0 (le_bytes 8 (i64_bits v))) ≡ v
i64_key v h =
    ap (λ l. i64_of_bits (read_le 8 0 l)) (sym (append-nil (le_bytes 8 (i64_bits v))))
    ∙ i64_field v [] h

module _ (is_utf8 : List ℕ → Bool) (partial_cmp : ℕ → ℕ → Option Ordering) where
  decode_key-interval :
      (months days micros : ℤ)
      → IsI32 months
      → IsI32 days
      → IsI64 micros
      → decode_key is_utf8 partial_cmp (encode_key (interval months days micros)) interval_type
        ≡ some (interval months days micros)
  unfolding decode_key encode_key
  decode_key-interval months days micros h1 h2 h3 =
      rw
        (sym (
          append-nil (
            le_bytes 4 (i32_bits months)
            ++ (le_bytes 4 (i32_bits days) ++ le_bytes 8 (i64_bits micros)))))
        (ground (
          arith,
          length-interval_bytes months days micros [],
          months_field months days micros [] h1,
          days_field months days micros [] h2,
          micros_field months days micros [] h3,
        ))

  -- A value in the range of its type, and not null, is decoded from the bytes of its key.
  pub decode_key-encode_key :
      (v : Value) (t : DataType)
      → IsTyped is_utf8 v t
      → decode_key is_utf8 partial_cmp (encode_key v) t ≡ some v
  unfolding decode_key encode_key
  decode_key-encode_key v t (int_typed n h) =
      ground (arith, length-le_bytes 4 (i32_bits n), i32_key n h)
  decode_key-encode_key v t (varchar_typed s ok h) = ground (arith, ok)
  decode_key-encode_key v t (bool_typed true) = ground arith
  decode_key-encode_key v t (bool_typed false) = ground arith
  decode_key-encode_key v t (double_typed n h) =
      ground (arith, length-le_bytes 8 n, read_le-whole 8 n h)
  decode_key-encode_key v t (timestamp_typed n h) =
      ground (arith, length-le_bytes 8 (i64_bits n), i64_key n h)
  decode_key-encode_key v t (date_typed n h) =
      ground (arith, length-le_bytes 4 (i32_bits n), i32_key n h)
  decode_key-encode_key v t (time_typed n h) =
      ground (arith, length-le_bytes 8 (i64_bits n), i64_key n h)
  decode_key-encode_key v t (interval_typed months days micros h1 h2 h3) =
      decode_key-interval months days micros h1 h2 h3
