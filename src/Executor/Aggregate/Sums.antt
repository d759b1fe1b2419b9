-- ===== src/Executor/Aggregate/Sums.antt =====
-- src/executor.rs: what SUM and COUNT give.
use ccdb.Tuple.{
  Value, int, null, varchar, bool, double, timestamp, date, time, int_type, interval, DataType,
}
use ccdb.Executor.{i64, Floats, ok}
use ccdb.Executor.Aggregate.{
  as_i32, update_all, sum_int, aggregate, init, finalize, is_double, sum_agg, count_agg,
}
use ccdb.Prelude.{
  List, ◌<◌, ◌∷◌, Bool, ◌^◌, false, ◌≡◌, ◌≤◌, ◌+◌, [], true, arith, length, ◌*◌, map, some, ◌||◌,
  refl, if◌then◌else◌, Option, ℕ, none,
}
use ccdb.Executor.Aggregate.{update, count}
use ccdb.Prelude.Int.{
  ℤ, pos, ◌+ℤ◌, IsI32, pos_part, neg_part, +ℤ_assoc, +ℤ_le, +ℤ_zero, zero_+ℤ, i32_of_bits, i64_bits,
}

-- The integers of a column, and nulls.
abbrev pub AllInts : List Value → Type 0
AllInts [] = Unit {0}
AllInts (null ∷ vs) = AllInts vs
AllInts (int i ∷ vs) = IsI32 i × AllInts vs
AllInts (v ∷ vs) = ⊥

abbrev pub total : List Value → ℤ
total [] = pos 0
total (int i ∷ vs) = i +ℤ total vs
total (v ∷ vs) = total vs

-- Whether a value is not null.
abbrev pub any_value : List Value → Bool
any_value [] = false
any_value (null ∷ vs) = any_value vs
any_value (v ∷ vs) = true

as_i32-IsI32 : (z : ℤ) → IsI32 z → as_i32 z ≡ z
unfolding as_i32 i32_of_bits i64_bits
as_i32-IsI32 z h = ground arith

i64-ok : (z : ℤ) → pos_part z < 2 ^ 63 → neg_part z ≤ 2 ^ 63 → i64 z ≡ ok z
unfolding i64
i64-ok z h k = ground (arith, h, k)

or-false : (b : Bool) → (b || false) ≡ b
or-false true = refl
or-false false = refl

or-true : (b : Bool) → (b || true) ≡ true
or-true true = refl
or-true false = refl

module _ (floats : Floats) where
  -- The running sum stays in an `i64` while there are fewer than 2^32 rows to come.
  update_all-sum :
      (s : ℤ) (b : Bool) (vs : List Value)
      → AllInts vs
      → pos_part s + length vs * 2 ^ 31 < 2 ^ 63
      → neg_part s + length vs * 2 ^ 31 ≤ 2 ^ 63
      → update_all floats (sum_int s b) (map some vs)
        ≡ ok (sum_int (s +ℤ total vs) (b || any_value vs))
  unfolding update_all update
  update_all-sum s b [] a p n = rw (+ℤ_zero s, or-false b)
  update_all-sum s b (null ∷ vs) a p n = update_all-sum s b vs a (omega arith) (omega arith)
  update_all-sum s b (int i ∷ vs) a p n =
      let e = i64-ok (s +ℤ i) (omega (arith, +ℤ_le s i, a.0)) (omega (arith, +ℤ_le s i, a.0)) in
      rw (
        e,
        update_all-sum (s +ℤ i) true vs a.1 (omega (arith, +ℤ_le s i, a.0))
            (omega (arith, +ℤ_le s i, a.0)),
        +ℤ_assoc,
        or-true b,
      )
  update_all-sum s b (varchar x ∷ vs) a p n = elim a [ ]
  update_all-sum s b (bool x ∷ vs) a p n = elim a [ ]
  update_all-sum s b (double x ∷ vs) a p n = elim a [ ]
  update_all-sum s b (timestamp x ∷ vs) a p n = elim a [ ]
  update_all-sum s b (date x ∷ vs) a p n = elim a [ ]
  update_all-sum s b (time x ∷ vs) a p n = elim a [ ]
  update_all-sum s b (interval x y z ∷ vs) a p n = elim a [ ]

  -- SUM over fewer than 2^32 rows of a column of INT is the exact sum of the values that are not
  -- null, or null if there is none, where the sum is an i32; the i64 in between does not overflow.
  pub aggregate-sum :
      (vs : List Value)
      → AllInts vs
      → length vs < 2 ^ 32
      → IsI32 (total vs)
      → aggregate floats sum_agg (some int_type) (map some vs)
        ≡ ok (if any_value vs then int (total vs) else null)
  unfolding aggregate init finalize is_double
  aggregate-sum vs a n r = rw (
    update_all-sum (pos 0) false vs a (omega (arith, n)) (omega (arith, n)),
    zero_+ℤ,
    as_i32-IsI32 (total vs) r,
  )

-- `none` is the argument of COUNT(*), which counts every row; COUNT of a value skips nulls.
abbrev pub counted : List (Option Value) → ℕ
counted [] = 0
counted (some null ∷ vs) = counted vs
counted (v ∷ vs) = 1 + counted vs

pos-add : (k : ℕ) → pos k +ℤ pos 1 ≡ pos (k + 1)
unfolding ◌+ℤ◌
pos-add k = ground arith

module _ (floats : Floats) where
  -- One row.
  update-count :
      (k : ℕ) (v : Option Value)
      → k + 1 < 2 ^ 63
      → update floats (count (pos k)) v ≡ ok (count (pos (k + counted (v ∷ []))))
  unfolding update
  update-count k (some null) h = ground arith
  update-count k none h = ground (arith, pos-add k, i64-ok (pos (k + 1)) h (omega arith))
  update-count k (some (int x)) h = ground (arith, pos-add k, i64-ok (pos (k + 1)) h (omega arith))
  update-count k (some (varchar x)) h =
      ground (arith, pos-add k, i64-ok (pos (k + 1)) h (omega arith))
  update-count k (some (bool x)) h = ground (arith, pos-add k, i64-ok (pos (k + 1)) h (omega arith))
  update-count k (some (double x)) h =
      ground (arith, pos-add k, i64-ok (pos (k + 1)) h (omega arith))
  update-count k (some (timestamp x)) h =
      ground (arith, pos-add k, i64-ok (pos (k + 1)) h (omega arith))
  update-count k (some (date x)) h = ground (arith, pos-add k, i64-ok (pos (k + 1)) h (omega arith))
  update-count k (some (time x)) h = ground (arith, pos-add k, i64-ok (pos (k + 1)) h (omega arith))
  update-count k (some (interval x y z)) h =
      ground (arith, pos-add k, i64-ok (pos (k + 1)) h (omega arith))

  counted-one : (v : Option Value) → counted (v ∷ []) ≤ 1
  counted-one none = omega arith
  counted-one (some null) = omega arith
  counted-one (some (int x)) = omega arith
  counted-one (some (varchar x)) = omega arith
  counted-one (some (bool x)) = omega arith
  counted-one (some (double x)) = omega arith
  counted-one (some (timestamp x)) = omega arith
  counted-one (some (date x)) = omega arith
  counted-one (some (time x)) = omega arith
  counted-one (some (interval x y z)) = omega arith

  counted-cons :
      (v : Option Value) (vs : List (Option Value))
      → counted (v ∷ vs) ≡ counted (v ∷ []) + counted vs
  counted-cons (some null) vs = omega arith
  counted-cons none vs = omega arith
  counted-cons (some (int x)) vs = omega arith
  counted-cons (some (varchar x)) vs = omega arith
  counted-cons (some (bool x)) vs = omega arith
  counted-cons (some (double x)) vs = omega arith
  counted-cons (some (timestamp x)) vs = omega arith
  counted-cons (some (date x)) vs = omega arith
  counted-cons (some (time x)) vs = omega arith
  counted-cons (some (interval x y z)) vs = omega arith

  counted-le : (vs : List (Option Value)) → counted vs ≤ length vs
  counted-le [] = omega arith
  counted-le (v ∷ vs) = omega (arith, counted-cons v vs, counted-one v, counted-le vs)

  update_all-count :
      (k : ℕ) (vs : List (Option Value))
      → k + length vs < 2 ^ 63
      → update_all floats (count (pos k)) vs ≡ ok (count (pos (k + counted vs)))
  unfolding update_all
  update_all-count k [] h = ground arith
  update_all-count k (v ∷ vs) h = rw (update-count k v (omega arith)) (
      ground (
        arith,
        counted-cons v vs,
        update_all-count (k + counted (v ∷ [])) vs (omega (arith, counted-le (v ∷ []))),
      ))

  -- Over fewer than 2^31 rows, COUNT of an argument is the number of its values that are not null,
  -- and COUNT(*) that of the rows.
  pub aggregate-count :
      (t : Option DataType) (vs : List (Option Value))
      → length vs < 2 ^ 31
      → aggregate floats count_agg t vs ≡ ok (int (pos (counted vs)))
  unfolding aggregate init finalize
  aggregate-count t vs h =
      let n = counted vs in
      ground (
        arith,
        update_all-count 0 vs (omega arith),
        as_i32-IsI32 (pos n) (omega (arith, counted-le vs), omega arith),
      )
