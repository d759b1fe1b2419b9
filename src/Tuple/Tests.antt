-- ===== src/Tuple/Tests.antt =====
-- src/tuple.rs: the theorems at work on small inputs.
use ccdb.Prelude.Bitmap.{mark_bit, has_bit}
use ccdb.Prelude.Bytes.{from_le, le_bytes}
use ccdb.Prelude.Cursor.{read_le}
use ccdb.Prelude.Int.{negsuc, i32_of_bits, i32_bits}
use ccdb.Tuple.{
  Schema, serialize_tuple, deserialize_tuple_mvcc_full, deserialize_tuple, deserialize_value,
  varchar, Value, serialize_values, serialize_tuple_mvcc_with_ctid, read_columns, deserialize_typed,
  int, serialize_value, deserialize_varchar, int_type, null, null_bitmap_size, varchar_type,
  mark_nulls, deserialize_tuple_mvcc, is_null,
}
use ccdb.Prelude.{List, ℕ, ◌∷◌, arith, Bool, [], ◌≡◌, true, some, ltb, ◌≤◌, ◌&&◌, false, refl}
use ccdb.Tuple.Values.{typed_value, null_value, int_typed, varchar_typed}
use ccdb.Tuple.RoundTrip.{FitsSchema}
use ccdb.Tuple.Mvcc.{deserialize_tuple_mvcc_full-serialize_tuple_mvcc_with_ctid}
use ccdb.Tuple.Safety.{deserialize_value-HasType, deserialize_tuple-TypedRow, HasType, TypedRow}

abbrev ascii : List ℕ → Bool
ascii [] = true
ascii (c ∷ cs) = ltb c 128 && ascii cs

-- An `INT`, a `VARCHAR` that is null, and a `VARCHAR`.
abbrev table : Schema
table =
    record { name = 97 ∷ []; data_type = int_type }
    ∷ record { name = 98 ∷ []; data_type = varchar_type }
    ∷ record { name = 99 ∷ []; data_type = varchar_type }
    ∷ []

abbrev row : List Value
row = int (negsuc 4) ∷ null ∷ varchar (104 ∷ 105 ∷ []) ∷ []

row-FitsSchema : FitsSchema ascii row table
unfolding FitsSchema
row-FitsSchema = (
  typed_value _ _ (int_typed (negsuc 4) (omega arith, omega arith)),
  (null_value _, (typed_value _ _ (varchar_typed _ refl (omega arith)), tt)),
)

row_bytes : serialize_tuple row ≡ 2 ∷ 251 ∷ 255 ∷ 255 ∷ 255 ∷ 2 ∷ 0 ∷ 0 ∷ 0 ∷ 104 ∷ 105 ∷ []
unfolding serialize_tuple serialize_values serialize_value null_bitmap_size mark_nulls mark_bit
    is_null le_bytes i32_bits
row_bytes = refl

mvcc_round_trip_example :
    (deserialize_tuple_mvcc_full ascii (serialize_tuple_mvcc_with_ctid 7 9 (3, 1) row) table
      ≡ some (7, 9, (3, 1), row))
    × (deserialize_tuple_mvcc ascii (serialize_tuple_mvcc_with_ctid 7 9 (3, 1) row) table
        ≡ some (7, 9, row))
mvcc_round_trip_example =
    deserialize_tuple_mvcc_full-serialize_tuple_mvcc_with_ctid ascii 7 9 3 1 row table (omega arith)
      (omega arith) (omega arith) (omega arith) row-FitsSchema

abbrev stored : List ℕ
stored = 2 ∷ 251 ∷ 255 ∷ 255 ∷ 255 ∷ 2 ∷ 0 ∷ 0 ∷ 0 ∷ 104 ∷ 105 ∷ []

read_back : deserialize_tuple ascii stored table ≡ some row
unfolding deserialize_tuple read_columns deserialize_value deserialize_typed deserialize_varchar
    read_le from_le has_bit i32_of_bits null_bitmap_size
read_back = refl

row_types_example : TypedRow row table
row_types_example = deserialize_tuple-TypedRow ascii stored table row read_back

varchar_read :
    deserialize_value ascii (2 ∷ 0 ∷ 0 ∷ 0 ∷ 104 ∷ 105 ∷ 9 ∷ []) varchar_type false
    ≡ some (varchar (104 ∷ 105 ∷ []), 6)
unfolding deserialize_value deserialize_typed deserialize_varchar read_le from_le
varchar_read = refl

value_type_example : HasType (varchar (104 ∷ 105 ∷ [])) varchar_type × (6 ≤ 7)
value_type_example =
    deserialize_value-HasType ascii (2 ∷ 0 ∷ 0 ∷ 0 ∷ 104 ∷ 105 ∷ 9 ∷ []) varchar_type false _ 6
      varchar_read
