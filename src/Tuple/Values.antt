-- ===== src/Tuple/Values.antt =====
-- src/tuple.rs: reading back one value.
use ccdb.Prelude.Bytes.{le_bytes, length-le_bytes}
use ccdb.Prelude.Int.{
  ℤ, IsI32, IsI64, i32_bits, i64_bits, i32_of_bits, i64_of_bits, i32_bits-lt, i64_bits-lt,
  i32_of_bits-i32_bits, i64_of_bits-i64_bits,
}
use ccdb.Prelude.Cursor.{
  read_le, read_le-here, read_le-skip, length-le_bytes_append, drop-le_bytes, take-append_self,
}
use ccdb.Prelude.{
  ℕ, ◌+◌, ◌^◌, ◌<◌, Bool, true, List, ◌++◌, some, take, drop, length, arith, ◌≡◌, refl,
  length-append, false,
}
use mathlib.Core.List.{append_assoc}
use ccdb.Tuple.{
  Value, DataType, serialize_value, deserialize_typed, deserialize_value, deserialize_varchar,
  is_null, null, int, varchar, bool, double, timestamp, date, time, interval, int_type,
  varchar_type, bool_type, double_type, timestamp_type, date_type, time_type, interval_type,
}

module _ (is_utf8 : List ℕ → Bool) where
  -- A value of the column's type, in the range of the Rust type, and not null.
  pub data IsTyped : Value → DataType → Type 0 where
    int_typed : (v : ℤ) → IsI32 v → IsTyped (int v) int_type
    varchar_typed :
        (v : List ℕ) → is_utf8 v ≡ true → length v < 2 ^ 32 → IsTyped (varchar v) varchar_type
    bool_typed : (v : Bool) → IsTyped (bool v) bool_type
    double_typed : (v : ℕ) → v < 2 ^ 64 → IsTyped (double v) double_type
    timestamp_typed : (v : ℤ) → IsI64 v → IsTyped (timestamp v) timestamp_type
    date_typed : (v : ℤ) → IsI32 v → IsTyped (date v) date_type
    time_typed : (v : ℤ) → IsI64 v → IsTyped (time v) time_type
    interval_typed :
        (months days micros : ℤ)
        → IsI32 months
        → IsI32 days
        → IsI64 micros
        → IsTyped (interval months days micros) interval_type

  pub data IsValue : Value → DataType → Type 0 where
    null_value : (t : DataType) → IsValue null t
    typed_value : (v : Value) (t : DataType) → IsTyped v t → IsValue v t

  -- What is read and how many bytes it took.
  abbrev ReadsBack : Value → DataType → Type 0
  ReadsBack v t =
      (rest : List ℕ)
      → deserialize_typed is_utf8 (serialize_value v ++ rest) t
        ≡ some (v, length (serialize_value v))

pub i32_field :
    (v : ℤ) (rest : List ℕ)
    → IsI32 v
    → i32_of_bits (read_le 4 0 (le_bytes 4 (i32_bits v) ++ rest)) ≡ v
i32_field v rest h =
    rw (read_le-here 4 (i32_bits v) rest (i32_bits-lt v h)) (i32_of_bits-i32_bits v h)

pub i64_field :
    (v : ℤ) (rest : List ℕ)
    → IsI64 v
    → i64_of_bits (read_le 8 0 (le_bytes 8 (i64_bits v) ++ rest)) ≡ v
i64_field v rest h =
    rw (read_le-here 8 (i64_bits v) rest (i64_bits-lt v h)) (i64_of_bits-i64_bits v h)

varchar_size :
    (v rest : List ℕ) → length ((le_bytes 4 (length v) ++ v) ++ rest) ≡ 4 + length v + length rest
varchar_size v rest = rw (length-append, length-le_bytes_append) (omega arith)

varchar_length :
    (v rest : List ℕ)
    → length v < 2 ^ 32
    → read_le 4 0 ((le_bytes 4 (length v) ++ v) ++ rest) ≡ length v
varchar_length v rest h = rw append_assoc (read_le-here 4 (length v) (v ++ rest) h)

varchar_bytes :
    (v rest : List ℕ) → take (length v) (drop 4 ((le_bytes 4 (length v) ++ v) ++ rest)) ≡ v
varchar_bytes v rest =
    rw (append_assoc, drop-le_bytes 4 (length v) 0 4 (v ++ rest) refl) (take-append_self v rest)

-- The three fields of an interval, in the bytes that were written for it.
module _ (months days micros : ℤ) (rest : List ℕ) where
  abbrev interval_bytes : List ℕ
  interval_bytes =
      (le_bytes 4 (i32_bits months) ++ (le_bytes 4 (i32_bits days) ++ le_bytes 8 (i64_bits micros)))
      ++ rest

  split-interval_bytes :
      interval_bytes
      ≡ le_bytes 4 (i32_bits months)
        ++ (le_bytes 4 (i32_bits days) ++ (le_bytes 8 (i64_bits micros) ++ rest))
  split-interval_bytes = rw (append_assoc, append_assoc) refl

  pub length-interval_bytes : length interval_bytes ≡ 16 + length rest
  length-interval_bytes =
      rw
        (
          split-interval_bytes, length-le_bytes_append, length-le_bytes_append,
          length-le_bytes_append,
        )
        (omega arith)

  pub months_field : IsI32 months → i32_of_bits (read_le 4 0 interval_bytes) ≡ months
  months_field h = rw split-interval_bytes (i32_field months _ h)

  pub days_field : IsI32 days → i32_of_bits (read_le 4 4 interval_bytes) ≡ days
  days_field h =
      rw
        (
          split-interval_bytes,
          read_le-skip 4 (i32_bits months) 4 0 4
              (le_bytes 4 (i32_bits days) ++ (le_bytes 8 (i64_bits micros) ++ rest)) refl,
        )
        (i32_field days _ h)

  pub micros_field : IsI64 micros → i64_of_bits (read_le 8 8 interval_bytes) ≡ micros
  micros_field h =
      rw
        (
          split-interval_bytes,
          read_le-skip 4 (i32_bits months) 8 4 8
              (le_bytes 4 (i32_bits days) ++ (le_bytes 8 (i64_bits micros) ++ rest)) refl,
          read_le-skip 4 (i32_bits days) 8 0 4 (le_bytes 8 (i64_bits micros) ++ rest) refl,
        )
        (i64_field micros _ h)

module _ (is_utf8 : List ℕ → Bool) where
  typed-ReadsBack : (v : Value) (t : DataType) → IsTyped is_utf8 v t → ReadsBack is_utf8 v t
  unfolding serialize_value deserialize_typed deserialize_varchar
  typed-ReadsBack v t (int_typed n h) rest = ground (
    arith,
    length-le_bytes_append 4 (i32_bits n) rest,
    length-le_bytes 4 (i32_bits n),
    i32_field n rest h,
  )
  typed-ReadsBack v t (varchar_typed s ok h) rest =
      rw
        (
          varchar_size s rest,
          varchar_length s rest h,
          varchar_bytes s rest,
          ok,
          length-le_bytes_append 4 (length s) s,
        )
        (ground arith)
  typed-ReadsBack v t (bool_typed true) rest = ground arith
  typed-ReadsBack v t (bool_typed false) rest = ground arith
  typed-ReadsBack v t (double_typed n h) rest =
      ground (arith, length-le_bytes_append 8 n rest, length-le_bytes 8 n, read_le-here 8 n rest h)
  typed-ReadsBack v t (timestamp_typed n h) rest = ground (
    arith,
    length-le_bytes_append 8 (i64_bits n) rest,
    length-le_bytes 8 (i64_bits n),
    i64_field n rest h,
  )
  typed-ReadsBack v t (date_typed n h) rest = ground (
    arith,
    length-le_bytes_append 4 (i32_bits n) rest,
    length-le_bytes 4 (i32_bits n),
    i32_field n rest h,
  )
  typed-ReadsBack v t (time_typed n h) rest = ground (
    arith,
    length-le_bytes_append 8 (i64_bits n) rest,
    length-le_bytes 8 (i64_bits n),
    i64_field n rest h,
  )
  typed-ReadsBack v t (interval_typed months days micros h1 h2 h3) rest = ground (
    arith,
    length-interval_bytes months days micros rest,
    length-le_bytes 8 (i64_bits micros),
    length-le_bytes_append 4 (i32_bits days) (le_bytes 8 (i64_bits micros)),
    length-le_bytes_append 4 (i32_bits months)
        (le_bytes 4 (i32_bits days) ++ le_bytes 8 (i64_bits micros)),
    months_field months days micros rest h1,
    days_field months days micros rest h2,
    micros_field months days micros rest h3,
  )

  typed-is_null : (v : Value) (t : DataType) → IsTyped is_utf8 v t → is_null v ≡ false
  unfolding is_null
  typed-is_null v t (int_typed _ _) = refl
  typed-is_null v t (varchar_typed _ _ _) = refl
  typed-is_null v t (bool_typed _) = refl
  typed-is_null v t (double_typed _ _) = refl
  typed-is_null v t (timestamp_typed _ _) = refl
  typed-is_null v t (date_typed _ _) = refl
  typed-is_null v t (time_typed _ _) = refl
  typed-is_null v t (interval_typed _ _ _ _ _ _) = refl

  pub deserialize_value-serialize_value :
      (v : Value) (t : DataType) (rest : List ℕ)
      → IsValue is_utf8 v t
      → deserialize_value is_utf8 (serialize_value v ++ rest) t (is_null v)
        ≡ some (v, length (serialize_value v))
  unfolding deserialize_value is_null serialize_value
  deserialize_value-serialize_value v t rest (null_value _) = refl
  deserialize_value-serialize_value v t rest (typed_value _ _ h) =
      rw (typed-is_null v t h) (typed-ReadsBack v t h rest)
