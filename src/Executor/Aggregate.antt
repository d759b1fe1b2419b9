-- ===== src/Executor/Aggregate.antt =====
-- src/executor.rs: the state of an aggregate, over the rows of its group.
pub mod Sums
use ccdb.Prelude.Order.{Ordering, less, equal, greater}
use ccdb.Prelude.Int.{ℤ, pos, ◌+ℤ◌, i32_of_bits, i64_bits}
use ccdb.Prelude.{ℕ, ◌%◌, ◌^◌, Bool, true, false, List, [], ◌∷◌, Option, none, some, if◌then◌else◌}
use ccdb.Executor.{is_zero, Outcome, ok, bail, overflow, ◌>>=◌, i64, Floats}
use ccdb.Executor.Sort.{compare_values}
use ccdb.Tuple.{
  Value, null, int, varchar, bool, double, timestamp, date, time, interval, DataType, double_type,
}

pub data AggKind : Type 0 where
  count_agg sum_agg avg_agg min_agg max_agg : AggKind

pub data AggState : Type 0 where
  count : ℤ → AggState
  sum_int : (sum : ℤ) → (saw_any : Bool) → AggState
  sum_double : (sum : ℕ) → (saw_any : Bool) → AggState
  avg_int : (sum : ℤ) → (n : ℤ) → AggState
  avg_double : (sum : ℕ) → (n : ℤ) → AggState
  min_of : Option Value → AggState
  max_of : Option Value → AggState

unfoldable pub is_double : Option DataType → Bool
is_double (some double_type) = true
is_double t = false

-- `z as i32` for an `i64`
unfoldable pub as_i32 : ℤ → ℤ
unfolding i32_of_bits i64_bits
as_i32 z = i32_of_bits (i64_bits z % 2 ^ 32)

unfoldable pub same : Ordering → Ordering → Bool
same less less = true
same equal equal = true
same greater greater = true
same a b = false

module _ (floats : Floats) where
  -- `init`, for the type of the argument, if it has one.
  unfoldable pub init : AggKind → Option DataType → AggState
  unfolding is_double
  init count_agg t = count (pos 0)
  init sum_agg t =
      if is_double t then sum_double (floats.of_int (pos 0)) false else sum_int (pos 0) false
  init avg_agg t =
      if is_double t then avg_double (floats.of_int (pos 0)) (pos 0) else avg_int (pos 0) (pos 0)
  init min_agg t = min_of none
  init max_agg t = max_of none

  -- `Min` and `Max` keep a value that compares as `wanted` with the one so far.
  unfoldable pub keep : Ordering → Option Value → Value → Outcome (Option Value)
  unfolding compare_values same
  keep wanted cur null = ok cur
  keep wanted none v = ok (some v)
  keep wanted (some old) v = do
    o ← compare_values floats v old
    ok (if same o wanted then some v else some old)

  unfoldable pub update : AggState → Option Value → Outcome AggState
  unfolding i64 keep
  update (count n) none = do m ← i64 (n +ℤ pos 1); ok (count m)
  update (count n) (some null) = ok (count n)
  update (count n) (some v) = do m ← i64 (n +ℤ pos 1); ok (count m)
  update (min_of cur) (some v) = do c ← keep less cur v; ok (min_of c)
  update (max_of cur) (some v) = do c ← keep greater cur v; ok (max_of c)
  update state none = ok state
  update (sum_int sum any) (some null) = ok (sum_int sum any)
  update (sum_int sum any) (some (int i)) = do s ← i64 (sum +ℤ i); ok (sum_int s true)
  update (sum_double sum any) (some null) = ok (sum_double sum any)
  update (sum_double sum any) (some (double d)) = ok (sum_double (floats.add sum d) true)
  update (sum_double sum any) (some (int i)) =
      ok (sum_double (floats.add sum (floats.of_int i)) true)
  update (avg_int sum n) (some null) = ok (avg_int sum n)
  update (avg_int sum n) (some (int i)) = do
    s ← i64 (sum +ℤ i)
    m ← i64 (n +ℤ pos 1)
    ok (avg_int s m)
  update (avg_double sum n) (some null) = ok (avg_double sum n)
  update (avg_double sum n) (some (double d)) = do
    m ← i64 (n +ℤ pos 1)
    ok (avg_double (floats.add sum d) m)
  update (avg_double sum n) (some (int i)) = do
    m ← i64 (n +ℤ pos 1)
    ok (avg_double (floats.add sum (floats.of_int i)) m)
  update state (some v) = bail

  unfoldable pub finalize : AggState → Value
  unfolding as_i32
  finalize (count n) = int (as_i32 n)
  finalize (sum_int sum any) = if any then int (as_i32 sum) else null
  finalize (sum_double sum any) = if any then double sum else null
  finalize (avg_int sum n) =
      if is_zero n then null else double (floats.div (floats.of_int sum) (floats.of_int n))
  finalize (avg_double sum n) =
      if is_zero n then null else double (floats.div sum (floats.of_int n))
  finalize (min_of v) = elim v [ none ↦ null | some x ↦ x ]
  finalize (max_of v) = elim v [ none ↦ null | some x ↦ x ]

  -- The rows of one group, and the value at the end.
  unfoldable pub update_all : AggState → List (Option Value) → Outcome AggState
  unfolding update
  update_all state [] = ok state
  update_all state (v ∷ vs) = update state v >>= λ next. update_all next vs

  unfoldable pub aggregate : AggKind → Option DataType → List (Option Value) → Outcome Value
  unfolding init update_all finalize
  aggregate kind t vs = update_all (init kind t) vs >>= λ state. ok (finalize state)
