-- ===== src/Tuple.antt =====
-- src/tuple.rs: the types of columns, the values of a row, and their bytes on a page. A string is the
-- list of its UTF-8 bytes, a double the number its 64 bits make, an error `none`.
use ccdb.Prelude.Bytes.{le_bytes}
use ccdb.Prelude.Int.{ℤ, i32_bits, i32_of_bits, i64_bits, i64_of_bits}
use ccdb.Prelude.Bitmap.{mark_bit, has_bit}
use ccdb.Prelude.Cursor.{read_le}
use ccdb.Prelude.{
  ℕ, zero, suc, ◌+◌, ◌/◌, ◌^◌, ◌-◌, Bool, true, false, not, List, [], ◌∷◌, ◌++◌, Option, some, none,
  take, drop, length, get_or, ltb, ◌==◌, ◌&&◌, if◌then◌else◌, replicate,
}
mod Tests
pub mod Values
pub mod RoundTrip
pub mod Mvcc
pub mod Safety

pub data DataType : Type 0 where
  int_type varchar_type bool_type double_type timestamp_type date_type time_type interval_type :
      DataType

pub record Column : Type 0 where
  pub name : List ℕ
  pub data_type : DataType

abbrev pub Schema : Type 0
Schema = List Column

pub data Value : Type 0 where
  null : Value
  int : ℤ → Value
  varchar : (utf8 : List ℕ) → Value
  bool : Bool → Value
  double : (bits : ℕ) → Value
  timestamp : ℤ → Value
  date : ℤ → Value
  time : ℤ → Value
  interval : (months days micros : ℤ) → Value

abbrev pub mvcc_header_size : ℕ
mvcc_header_size = 22

-- What `serialize_value` appends to the buffer.
unfoldable pub serialize_value : Value → List ℕ
serialize_value null = []
serialize_value (int v) = le_bytes 4 (i32_bits v)
serialize_value (varchar v) = le_bytes 4 (length v) ++ v
serialize_value (bool v) = (if v then 1 else 0) ∷ []
serialize_value (double v) = le_bytes 8 v
serialize_value (timestamp v) = le_bytes 8 (i64_bits v)
serialize_value (date v) = le_bytes 4 (i32_bits v)
serialize_value (time v) = le_bytes 8 (i64_bits v)
serialize_value (interval months days micros) =
    le_bytes 4 (i32_bits months) ++ (le_bytes 4 (i32_bits days) ++ le_bytes 8 (i64_bits micros))

unfoldable pub null_bitmap_size : ℕ → ℕ
null_bitmap_size num_columns = (num_columns + 7) / 8

-- `matches!(value, Value::Null)`
unfoldable pub is_null : Value → Bool
is_null null = true
is_null (int v) = false
is_null (varchar v) = false
is_null (bool v) = false
is_null (double v) = false
is_null (timestamp v) = false
is_null (date v) = false
is_null (time v) = false
is_null (interval months days micros) = false

-- The loop that sets the bits of the null columns, from the column `i` on.
unfoldable pub mark_nulls : ℕ → List Value → List ℕ → List ℕ
mark_nulls i [] buf = buf
mark_nulls i (value ∷ values) buf =
    mark_nulls (i + 1) values (if is_null value then mark_bit buf i else buf)

unfoldable pub serialize_values : List Value → List ℕ
serialize_values [] = []
serialize_values (value ∷ values) = serialize_value value ++ serialize_values values

unfoldable pub serialize_tuple : List Value → List ℕ
serialize_tuple values =
    mark_nulls 0 values (replicate (null_bitmap_size (length values)) 0) ++ serialize_values values

-- `is_utf8` says of which bytes `String::from_utf8` makes a string.
module _ (is_utf8 : List ℕ → Bool) where
  unfoldable pub deserialize_varchar : List ℕ → Option (Value × ℕ)
  deserialize_varchar bytes =
      let len = read_le 4 0 bytes in
      let v = take len (drop 4 bytes) in
      if ltb (length bytes) 4
      then none
      else if ltb (length bytes) (4 + len)
      then none
      else if is_utf8 v
      then some (varchar v, 4 + len)
      else none

  -- The `match` on the type, for a value that is not null.
  unfoldable pub deserialize_typed : List ℕ → DataType → Option (Value × ℕ)
  deserialize_typed bytes int_type =
      if ltb (length bytes) 4 then none else some (int (i32_of_bits (read_le 4 0 bytes)), 4)
  deserialize_typed bytes varchar_type = deserialize_varchar bytes
  deserialize_typed bytes bool_type =
      if length bytes == 0 then none else some (bool (not (get_or bytes 0 0 == 0)), 1)
  deserialize_typed bytes double_type =
      if ltb (length bytes) 8 then none else some (double (read_le 8 0 bytes), 8)
  deserialize_typed bytes timestamp_type =
      if ltb (length bytes) 8 then none else some (timestamp (i64_of_bits (read_le 8 0 bytes)), 8)
  deserialize_typed bytes date_type =
      if ltb (length bytes) 4 then none else some (date (i32_of_bits (read_le 4 0 bytes)), 4)
  deserialize_typed bytes time_type =
      if ltb (length bytes) 8 then none else some (time (i64_of_bits (read_le 8 0 bytes)), 8)
  deserialize_typed bytes interval_type =
      if ltb (length bytes) 16
      then none
      else some (
        interval (i32_of_bits (read_le 4 0 bytes)) (i32_of_bits (read_le 4 4 bytes))
            (i64_of_bits (read_le 8 8 bytes)),
        16,
      )

  unfoldable pub deserialize_value : List ℕ → DataType → Bool → Option (Value × ℕ)
  deserialize_value bytes data_type null_bit =
      if null_bit then some (null, 0) else deserialize_typed bytes data_type

  -- The loop over the columns, from the column `i` on.
  unfoldable pub read_columns : List Column → ℕ → List ℕ → ℕ → List ℕ → Option (List Value)
  read_columns [] i bitmap offset bytes = some []
  read_columns (column ∷ columns) i bitmap offset bytes =
      elim (deserialize_value (drop offset bytes) column.data_type (has_bit bitmap i)) [
        | none ↦ none
        | some (value, len) ↦ elim (read_columns columns (i + 1) bitmap (offset + len) bytes) [
          | none ↦ none
          | some values ↦ some (value ∷ values)
        ]
      ]

  unfoldable pub deserialize_tuple : List ℕ → Schema → Option (List Value)
  deserialize_tuple bytes schema =
      let bitmap_len = null_bitmap_size (length schema) in
      if ltb (length bytes) bitmap_len
      then none
      else read_columns schema 0 (take bitmap_len bytes) bitmap_len bytes

abbrev pub no_ctid : ℕ × ℕ
no_ctid = (2 ^ 32 - 1, 2 ^ 16 - 1)

unfoldable pub is_no_ctid : ℕ × ℕ → Bool
is_no_ctid (page_id, slot) = (page_id == 2 ^ 32 - 1) && (slot == 2 ^ 16 - 1)

unfoldable pub serialize_tuple_mvcc_with_ctid : ℕ → ℕ → ℕ × ℕ → List Value → List ℕ
serialize_tuple_mvcc_with_ctid xmin xmax (page_id, slot) values =
    le_bytes 8 xmin
    ++ (le_bytes 8 xmax ++ (le_bytes 4 page_id ++ (le_bytes 2 slot ++ serialize_tuple values)))

unfoldable pub serialize_tuple_mvcc : ℕ → ℕ → List Value → List ℕ
serialize_tuple_mvcc xmin xmax values = serialize_tuple_mvcc_with_ctid xmin xmax no_ctid values

module _ (is_utf8 : List ℕ → Bool) where
  unfoldable pub deserialize_tuple_mvcc : List ℕ → Schema → Option (ℕ × ℕ × List Value)
  deserialize_tuple_mvcc bytes schema =
      if ltb (length bytes) mvcc_header_size
      then none
      else elim (deserialize_tuple is_utf8 (drop mvcc_header_size bytes) schema) [
        | none ↦ none
        | some values ↦ some (read_le 8 0 bytes, read_le 8 8 bytes, values)
      ]

  unfoldable pub deserialize_tuple_mvcc_full :
      List ℕ → Schema → Option (ℕ × ℕ × (ℕ × ℕ) × List Value)
  deserialize_tuple_mvcc_full bytes schema =
      if ltb (length bytes) mvcc_header_size
      then none
      else elim (deserialize_tuple is_utf8 (drop mvcc_header_size bytes) schema) [
        | none ↦ none
        | some values ↦
            some (
              read_le 8 0 bytes,
              read_le 8 8 bytes,
              (read_le 4 16 bytes, read_le 2 20 bytes),
              values,
            )
      ]
