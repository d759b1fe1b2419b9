-- ===== src/Executor/Sort.antt =====
-- src/executor.rs: the order of sort keys.
pub mod Reverse
use ccdb.Prelude.Order.{Ordering, less, equal, greater, cmp_int, cmp_bool, cmp_bytes}
use ccdb.Tuple.{Value, is_null}
use ccdb.Prelude.{ℕ, List, Bool, ◌≡◌, arith, refl, ap, ◌+◌, if◌then◌else◌}
use ccdb.Prelude.Int.{ℤ, pos_part, neg_part}
use ccdb.Tuple.{Value, null, int, varchar, bool, double, timestamp, date, time, interval}
use ccdb.Prelude.Int.{ℤ, pos, ◌+ℤ◌, ◌*ℤ◌, pos_part, neg_part}
use ccdb.Prelude.{
  ℕ, ◌+◌, ◌≡◌, ◌≢◌, refl, ap, arith, Bool, true, false, List, [], ◌∷◌, Option, none, some, inl, inr,
  ◌⊎◌,
}
use ccdb.Executor.{Outcome, ok, bail, overflow, ◌>>=◌, reverse_order, i64, day_us, Floats}

pub data OrderDir : Type 0 where
  asc desc : OrderDir

-- The rough number of microseconds of an interval.
unfoldable pub total_us : ℤ → ℤ → ℤ → Outcome ℤ
unfolding i64
total_us months days micros = do
  m ← i64 (months *ℤ pos 30)
  n ← i64 (m *ℤ pos day_us)
  d ← i64 (days *ℤ pos day_us)
  s ← i64 (n +ℤ d)
  i64 (s +ℤ micros)

unfoldable pub directed : OrderDir → Ordering → Ordering
unfolding reverse_order
directed asc o = o
directed desc o = reverse_order o

-- The first key that tells two rows apart decides.
unfoldable pub or_next : Outcome Ordering → Outcome Ordering → Outcome Ordering
or_next (ok equal) rest = rest
or_next o rest = o

module _ (floats : Floats) where
  -- A NaN equals everything.
  unfoldable pub cmp_double : ℕ → ℕ → Ordering
  cmp_double a b = elim (floats.partial_cmp a b) [ none ↦ equal | some o ↦ o ]

  unfoldable pub compare_values : Value → Value → Outcome Ordering
  unfolding cmp_double cmp_int cmp_bytes cmp_bool total_us
  compare_values (int a) (int b) = ok (cmp_int a b)
  compare_values (varchar a) (varchar b) = ok (cmp_bytes a b)
  compare_values (bool a) (bool b) = ok (cmp_bool a b)
  compare_values (double a) (double b) = ok (cmp_double a b)
  compare_values (int a) (double b) = ok (cmp_double (floats.of_int a) b)
  compare_values (double a) (int b) = ok (cmp_double a (floats.of_int b))
  compare_values (timestamp a) (timestamp b) = ok (cmp_int a b)
  compare_values (date a) (date b) = ok (cmp_int a b)
  compare_values (time a) (time b) = ok (cmp_int a b)
  compare_values (interval m d u) (interval n e v) = do
    x ← total_us m d u
    y ← total_us n e v
    ok (cmp_int x y)
  compare_values a b = bail

  -- One key: nulls last in ascending order and first in descending order, and what cannot be compared
  -- is equal.
  unfoldable pub compare_key : OrderDir → Value → Value → Outcome Ordering
  unfolding compare_values directed is_null
  compare_key dir a b =
      if is_null a
      then ok (if is_null b then equal else directed dir greater)
      else if is_null b
      then ok (directed dir less)
      else elim (compare_values a b) [
        | ok o ↦ ok (directed dir o)
        | bail ↦ ok equal
        | overflow ↦ overflow
      ]

  -- Keys are as many as directions; a missing one would be an index out of bounds.
  unfoldable pub compare_keys : List Value → List Value → List OrderDir → Outcome Ordering
  compare_keys xs ys [] = ok equal
  compare_keys (a ∷ xs) (b ∷ ys) (dir ∷ dirs) =
      or_next (compare_key dir a b) (compare_keys xs ys dirs)
  compare_keys xs ys dirs = overflow
