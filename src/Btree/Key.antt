-- ===== src/Btree/Key.antt =====
-- src/btree.rs: the bytes of a key, and the order of keys. A key is the list of its bytes.
use ccdb.Prelude.{
  List, ℕ, Bool, if◌then◌else◌, Option, ◌∷◌, length, some, [], ◌==◌, ◌++◌, none, not, get_or, ◌≡◌,
  ◌⊎◌, inl, inr, refl, ◌≢◌,
}
pub use ccdb.Prelude.Order.{Ordering, less, equal, greater}
unfoldable pub use ccdb.Prelude.Order.{cmp_nat, cmp_int, cmp_bool, cmp_bytes}
use ccdb.Prelude.Bytes.{le_bytes}
use ccdb.Prelude.Cursor.{read_le}
use ccdb.Prelude.Int.{i32_bits, i32_of_bits, i64_bits, i64_of_bits}
use ccdb.Tuple.{
  Value, DataType, null, int, varchar, bool, double, timestamp, date, time, interval, int_type,
  varchar_type, bool_type, double_type, timestamp_type, date_type, time_type, interval_type,
}

unfoldable pub encode_key : Value → List ℕ
encode_key (int n) = le_bytes 4 (i32_bits n)
encode_key (varchar s) = s
encode_key (bool b) = (if b then 1 else 0) ∷ []
encode_key (double f) = le_bytes 8 f
encode_key (timestamp t) = le_bytes 8 (i64_bits t)
encode_key (date d) = le_bytes 4 (i32_bits d)
encode_key (time t) = le_bytes 8 (i64_bits t)
encode_key (interval months days micros) =
    le_bytes 4 (i32_bits months) ++ (le_bytes 4 (i32_bits days) ++ le_bytes 8 (i64_bits micros))
encode_key null = []

-- `is_utf8` says which bytes `std::str::from_utf8` accepts, `partial_cmp` compares the bits of doubles.
module _ (is_utf8 : List ℕ → Bool) (partial_cmp : ℕ → ℕ → Option Ordering) where
  unfoldable pub decode_key : List ℕ → DataType → Option Value
  decode_key bytes int_type =
      if length bytes == 4 then some (int (i32_of_bits (read_le 4 0 bytes))) else none
  decode_key bytes varchar_type = if is_utf8 bytes then some (varchar bytes) else none
  decode_key bytes bool_type =
      if length bytes == 0 then none else some (bool (not (get_or bytes 0 0 == 0)))
  decode_key bytes double_type =
      if length bytes == 8 then some (double (read_le 8 0 bytes)) else none
  decode_key bytes timestamp_type =
      if length bytes == 8 then some (timestamp (i64_of_bits (read_le 8 0 bytes))) else none
  decode_key bytes date_type =
      if length bytes == 4 then some (date (i32_of_bits (read_le 4 0 bytes))) else none
  decode_key bytes time_type =
      if length bytes == 8 then some (time (i64_of_bits (read_le 8 0 bytes))) else none
  decode_key bytes interval_type =
      if length bytes == 16
      then some (
          interval (i32_of_bits (read_le 4 0 bytes)) (i32_of_bits (read_le 4 4 bytes))
            (i64_of_bits (read_le 8 8 bytes)))
      else none

  -- The `match` of `compare_keys`.
  unfoldable pub compare_values : Value → Value → Option Ordering
  compare_values null null = some equal
  compare_values null y = some greater
  compare_values x null = some less
  compare_values (int x) (int y) = some (cmp_int x y)
  compare_values (varchar x) (varchar y) = some (cmp_bytes x y)
  compare_values (bool x) (bool y) = some (cmp_bool x y)
  compare_values (double x) (double y) = some (elim (partial_cmp x y) [ none ↦ equal | some o ↦ o ])
  compare_values (timestamp x) (timestamp y) = some (cmp_int x y)
  compare_values (date x) (date y) = some (cmp_int x y)
  compare_values (time x) (time y) = some (cmp_int x y)
  compare_values x y = none

  unfoldable pub compare_keys : DataType → List ℕ → List ℕ → Option Ordering
  compare_keys ty a b = elim (decode_key a ty) [
    | none ↦ none
    | some av ↦ elim (decode_key b ty) [ none ↦ none | some bv ↦ compare_values av bv ]
  ]

pub Ordering-cases : (o : Ordering) → (o ≡ less) ⊎ (o ≡ equal) ⊎ (o ≡ greater)
Ordering-cases less = inl refl
Ordering-cases equal = inr (inl refl)
Ordering-cases greater = inr (inr refl)

pub less-or_not : (o : Option Ordering) → (o ≡ some less) ⊎ (o ≢ some less)
less-or_not none = inr (λ e. cc e)
less-or_not (some less) = inl refl
less-or_not (some equal) = inr (λ e. cc e)
less-or_not (some greater) = inr (λ e. cc e)
