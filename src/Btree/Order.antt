-- ===== src/Btree/Order.antt =====
-- src/btree.rs: what the nodes need of the comparison of keys, and the keys of the types that are
-- stored as integers.
use ccdb.Prelude.Cursor.{read_le}
use ccdb.Tuple.{int_type, timestamp_type, time_type, date_type}
use ccdb.Btree.Key.{
  cmp_int, cmp_nat, Ordering, greater, less, compare_keys, decode_key, compare_values, equal,
}
use ccdb.Prelude.{List, ℕ, Option, ◌≡◌, ◌≢◌, Bool, some, arith, length}
use ccdb.Prelude.Int.{ℤ, i32_of_bits, i64_of_bits}

-- Every two keys compare, and the answers order them. `answer` is what `compare` says of two keys.
pub record KeyOrder (compare : List ℕ → List ℕ → Option Ordering) (IsKey : List ℕ → Type 0)
    : Type 0 where
  pub answer : List ℕ → List ℕ → Ordering
  pub compares : (a b : List ℕ) → IsKey a → IsKey b → compare a b ≡ some (answer a b)
  pub greater_trans :
      (a b t : List ℕ) → answer a t ≡ greater → answer a b ≢ greater → answer b t ≡ greater
  pub less_trans :
      (a b c : List ℕ) → answer a b ≡ less → answer b c ≢ greater → answer a c ≢ greater
  pub flips : (a b : List ℕ) → answer a b ≢ less → answer b a ≢ greater
  pub converse : (a b : List ℕ) → answer a b ≡ less → answer b a ≡ greater
  pub same : (a : List ℕ) → answer a a ≡ equal

cmp_int-greater_trans :
    (a b t : ℤ) → cmp_int a t ≡ greater → cmp_int a b ≢ greater → cmp_int b t ≡ greater
unfolding cmp_int cmp_nat
cmp_int-greater_trans a b t h k = ground arith

cmp_int-less_trans :
    (a b c : ℤ) → cmp_int a b ≡ less → cmp_int b c ≢ greater → cmp_int a c ≢ greater
unfolding cmp_int cmp_nat
cmp_int-less_trans a b c h k = ground arith

cmp_int-flips : (a b : ℤ) → cmp_int a b ≢ less → cmp_int b a ≢ greater
unfolding cmp_int cmp_nat
cmp_int-flips a b h = ground arith

cmp_int-converse : (a b : ℤ) → cmp_int a b ≡ less → cmp_int b a ≡ greater
unfolding cmp_int cmp_nat
cmp_int-converse a b h = ground arith

cmp_int-same : (a : ℤ) → cmp_int a a ≡ equal
unfolding cmp_int cmp_nat
cmp_int-same a = ground arith

-- Keys that stand for integers are ordered as those.
pub integer_order :
    (compare : List ℕ → List ℕ → Option Ordering) (IsKey : List ℕ → Type 0) (value : List ℕ → ℤ)
    → ((a b : List ℕ) → IsKey a → IsKey b → compare a b ≡ some (cmp_int (value a) (value b)))
    → KeyOrder compare IsKey
integer_order compare IsKey value h = record {
  answer = λ a b. cmp_int (value a) (value b);
  compares = h;
  greater_trans = λ a b t. cmp_int-greater_trans (value a) (value b) (value t);
  less_trans = λ a b c. cmp_int-less_trans (value a) (value b) (value c);
  flips = λ a b. cmp_int-flips (value a) (value b);
  converse = λ a b. cmp_int-converse (value a) (value b);
  same = λ a. cmp_int-same (value a);
}

module _ (is_utf8 : List ℕ → Bool) (partial_cmp : ℕ → ℕ → Option Ordering) where
  int_compares :
      (a b : List ℕ)
      → length a ≡ 4
      → length b ≡ 4
      → compare_keys is_utf8 partial_cmp int_type a b
        ≡ some (cmp_int (i32_of_bits (read_le 4 0 a)) (i32_of_bits (read_le 4 0 b)))
  unfolding compare_keys decode_key compare_values
  int_compares a b ha hb = ground (arith, ha, hb)

  pub int_order : KeyOrder (compare_keys is_utf8 partial_cmp int_type) (λ k. length k ≡ 4)
  int_order = integer_order _ _ (λ k. i32_of_bits (read_le 4 0 k)) int_compares

  timestamp_compares :
      (a b : List ℕ)
      → length a ≡ 8
      → length b ≡ 8
      → compare_keys is_utf8 partial_cmp timestamp_type a b
        ≡ some (cmp_int (i64_of_bits (read_le 8 0 a)) (i64_of_bits (read_le 8 0 b)))
  unfolding compare_keys decode_key compare_values
  timestamp_compares a b ha hb = ground (arith, ha, hb)

  timestamp_order : KeyOrder (compare_keys is_utf8 partial_cmp timestamp_type) (λ k. length k ≡ 8)
  timestamp_order = integer_order _ _ (λ k. i64_of_bits (read_le 8 0 k)) timestamp_compares

  time_compares :
      (a b : List ℕ)
      → length a ≡ 8
      → length b ≡ 8
      → compare_keys is_utf8 partial_cmp time_type a b
        ≡ some (cmp_int (i64_of_bits (read_le 8 0 a)) (i64_of_bits (read_le 8 0 b)))
  unfolding compare_keys decode_key compare_values
  time_compares a b ha hb = ground (arith, ha, hb)

  time_order : KeyOrder (compare_keys is_utf8 partial_cmp time_type) (λ k. length k ≡ 8)
  time_order = integer_order _ _ (λ k. i64_of_bits (read_le 8 0 k)) time_compares

  date_compares :
      (a b : List ℕ)
      → length a ≡ 4
      → length b ≡ 4
      → compare_keys is_utf8 partial_cmp date_type a b
        ≡ some (cmp_int (i32_of_bits (read_le 4 0 a)) (i32_of_bits (read_le 4 0 b)))
  unfolding compare_keys decode_key compare_values
  date_compares a b ha hb = ground (arith, ha, hb)

  date_order : KeyOrder (compare_keys is_utf8 partial_cmp date_type) (λ k. length k ≡ 4)
  date_order = integer_order _ _ (λ k. i32_of_bits (read_le 4 0 k)) date_compares
