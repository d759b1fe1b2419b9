-- ===== src/Tuple/Safety.antt =====
-- src/tuple.rs: what reading arbitrary bytes gives.
use ccdb.Prelude.Cursor.{read_le}
use ccdb.Prelude.Bitmap.{has_bit}
use ccdb.Prelude.{
  List, ℕ, Bool, ◌≡◌, some, ◌≤◌, length, Option, if◌then◌else◌, Bool-cases, ◌∷◌, none, ltb, arith,
  subst, drop, true, inl, refl, Option-cases, [], false, inr, ◌+◌, take, ◌==◌,
}
use ccdb.Tuple.{
  Value, DataType, Schema, int, deserialize_typed, int_type, deserialize_varchar, varchar,
  varchar_type, bool, bool_type, double_type, double, timestamp_type, timestamp, date_type, date,
  time_type, time, interval_type, interval, null, deserialize_value, read_columns, Column,
  deserialize_tuple, null_bitmap_size,
}

-- The constructor of a value is that of the type, or the value is null.
unfoldable pub HasType : Value → DataType → Type 0
HasType null t = Unit
HasType (int v) t = t ≡ int_type
HasType (varchar v) t = t ≡ varchar_type
HasType (bool v) t = t ≡ bool_type
HasType (double v) t = t ≡ double_type
HasType (timestamp v) t = t ≡ timestamp_type
HasType (date v) t = t ≡ date_type
HasType (time v) t = t ≡ time_type
HasType (interval months days micros) t = t ≡ interval_type

-- A row has a value of its type for each column.
unfoldable pub TypedRow : List Value → Schema → Type 0
TypedRow [] [] = Unit
TypedRow [] (column ∷ columns) = ⊥
TypedRow (value ∷ values) [] = ⊥
TypedRow (value ∷ values) (column ∷ columns) =
    HasType value column.data_type × TypedRow values columns

-- What a reader of one value may answer: an error, or a value of the type and a length in the bytes.
abbrev Sound : List ℕ → DataType → Option (Value × ℕ) → Type 0
Sound bytes t none = Unit
Sound bytes t (some (v, len)) = HasType v t × (len ≤ length bytes)

checked-Sound :
    (bytes : List ℕ) (t : DataType) (w : ℕ) (v : Value)
    → HasType v t
    → Sound bytes t (if ltb (length bytes) w then none else some (v, w))
checked-Sound bytes t w v h = elim (Bool-cases (ltb (length bytes) w)) [
  | inl e ↦ rw e tt
  | inr e ↦ rw e (h, ground arith)
]

module _ (is_utf8 : List ℕ → Bool) where
  deserialize_varchar-Sound :
      (bytes : List ℕ) → Sound bytes varchar_type (deserialize_varchar is_utf8 bytes)
  unfolding deserialize_varchar HasType
  deserialize_varchar-Sound bytes = elim (Bool-cases (ltb (length bytes) 4)) [
    | inl e ↦ rw e tt
    | inr e ↦ rw e (elim (Bool-cases (ltb (length bytes) (4 + read_le 4 0 bytes))) [
      | inl short ↦ rw short tt
      | inr long ↦ rw long (elim (Bool-cases (is_utf8 (take (read_le 4 0 bytes) (drop 4 bytes)))) [
        | inl ok ↦ rw ok (refl, ground arith)
        | inr bad ↦ rw bad tt
      ])
    ])
  ]

  deserialize_typed-Sound :
      (bytes : List ℕ) (t : DataType) → Sound bytes t (deserialize_typed is_utf8 bytes t)
  unfolding deserialize_typed HasType
  deserialize_typed-Sound bytes int_type = checked-Sound bytes int_type 4 (int _) refl
  deserialize_typed-Sound bytes varchar_type = deserialize_varchar-Sound bytes
  deserialize_typed-Sound bytes bool_type = elim (Bool-cases (length bytes == 0)) [
    | inl e ↦ rw e tt
    | inr e ↦ rw e (refl, ground arith)
  ]
  deserialize_typed-Sound bytes double_type = checked-Sound bytes double_type 8 (double _) refl
  deserialize_typed-Sound bytes timestamp_type =
      checked-Sound bytes timestamp_type 8 (timestamp _) refl
  deserialize_typed-Sound bytes date_type = checked-Sound bytes date_type 4 (date _) refl
  deserialize_typed-Sound bytes time_type = checked-Sound bytes time_type 8 (time _) refl
  deserialize_typed-Sound bytes interval_type =
      checked-Sound bytes interval_type 16 (interval _ _ _) refl

  deserialize_value-Sound :
      (bytes : List ℕ) (t : DataType) (null_bit : Bool)
      → Sound bytes t (deserialize_value is_utf8 bytes t null_bit)
  unfolding deserialize_value HasType
  deserialize_value-Sound bytes t true = (tt, omega arith)
  deserialize_value-Sound bytes t false = deserialize_typed-Sound bytes t

  -- Whatever the bytes, the value that deserialize_value gives is of the type asked for or null,
  -- and the length that it reports is within the bytes, so that the next offset is.
  pub deserialize_value-HasType :
      (bytes : List ℕ) (t : DataType) (null_bit : Bool) (v : Value) (len : ℕ)
      → deserialize_value is_utf8 bytes t null_bit ≡ some (v, len)
      → HasType v t × (len ≤ length bytes)
  deserialize_value-HasType bytes t null_bit v len e =
      subst (Sound bytes t) e (deserialize_value-Sound bytes t null_bit)

abbrev SoundRow : Schema → Option (List Value) → Type 0
SoundRow schema none = Unit
SoundRow schema (some values) = TypedRow values schema

cons-SoundRow :
    (column : Column) (columns : Schema) (v : Value) (o : Option (List Value))
    → HasType v column.data_type
    → SoundRow columns o
    → SoundRow (column ∷ columns) (elim o [ none ↦ none | some values ↦ some (v ∷ values) ])
unfolding TypedRow
cons-SoundRow column columns v none typed sound = tt
cons-SoundRow column columns v (some values) typed sound = (typed, sound)

module _ (is_utf8 : List ℕ → Bool) where
  read_columns-SoundRow :
      (columns : Schema) (i : ℕ) (bitmap : List ℕ) (offset : ℕ) (bytes : List ℕ)
      → SoundRow columns (read_columns is_utf8 columns i bitmap offset bytes)
  unfolding read_columns TypedRow
  read_columns-SoundRow [] i bitmap offset bytes = tt
  read_columns-SoundRow (column ∷ columns) i bitmap offset bytes =
      let here = drop offset bytes in
      elim (Option-cases (deserialize_value is_utf8 here column.data_type (has_bit bitmap i))) [
        | inl e ↦ rw (e, read_columns) tt
        | inr ((v, len), e) ↦
            rw (e, read_columns)
              (cons-SoundRow column columns v
                (read_columns is_utf8 columns (i + 1) bitmap (offset + len) bytes)
                (deserialize_value-HasType is_utf8 here column.data_type (has_bit bitmap i) v len
                  e).0
                (read_columns-SoundRow columns (i + 1) bitmap (offset + len) bytes))
      ]

  deserialize_tuple-SoundRow :
      (bytes : List ℕ) (schema : Schema) → SoundRow schema (deserialize_tuple is_utf8 bytes schema)
  unfolding deserialize_tuple
  deserialize_tuple-SoundRow bytes schema =
      let size = null_bitmap_size (length schema) in
      elim (Bool-cases (ltb (length bytes) size)) [
        | inl short ↦ rw short tt
        | inr long ↦ rw long (read_columns-SoundRow schema 0 (take size bytes) size bytes)
      ]

  -- Whatever the bytes, the values that deserialize_tuple gives are one for each column, each of
  -- the type of its column or null.
  pub deserialize_tuple-TypedRow :
      (bytes : List ℕ) (schema : Schema) (values : List Value)
      → deserialize_tuple is_utf8 bytes schema ≡ some values
      → TypedRow values schema
  deserialize_tuple-TypedRow bytes schema values e =
      subst (SoundRow schema) e (deserialize_tuple-SoundRow bytes schema)
