-- ===== src/Executor/Sort/Reverse.antt =====
-- src/executor.rs: the order of sort keys is the same from both sides.
use ccdb.Prelude.Order.{Ordering, less, equal, greater, cmp_nat, cmp_int, cmp_bool, cmp_bytes}
use ccdb.Executor.Sort.{
  OrderDir, asc, desc, total_us, cmp_double, compare_values, compare_key, compare_keys, or_next,
  directed,
}
use ccdb.Tuple.{Value}
use ccdb.Prelude.{ℕ, List, Bool, ◌≡◌, arith, refl, ap, ◌+◌, if◌then◌else◌}
use ccdb.Prelude.Int.{ℤ, pos_part, neg_part}
use ccdb.Tuple.{Value, null, int, varchar, bool, double, timestamp, date, time, interval}
use ccdb.Prelude.Int.{ℤ, pos, ◌+ℤ◌, ◌*ℤ◌, pos_part, neg_part}
use ccdb.Prelude.{ℕ, ◌+◌, ◌≡◌, ◌≢◌, refl, ap, arith, Bool, List, [], ◌∷◌, none, some}
use ccdb.Executor.{Outcome, ok, bail, overflow, ◌>>=◌, reverse_order, i64, day_us, Floats}

abbrev pub reversed : Outcome Ordering → Outcome Ordering
reversed (ok o) = ok (reverse_order o)
reversed bail = bail
reversed overflow = overflow

pub cmp_nat-reverse : (a b : ℕ) → cmp_nat b a ≡ reverse_order (cmp_nat a b)
unfolding cmp_nat reverse_order
cmp_nat-reverse a b = ground arith

cmp_int-reverse : (a b : ℤ) → cmp_int b a ≡ reverse_order (cmp_int a b)
unfolding cmp_int
cmp_int-reverse a b = cmp_nat-reverse (pos_part a + neg_part b) (pos_part b + neg_part a)

cmp_bool-reverse : (a b : Bool) → cmp_bool b a ≡ reverse_order (cmp_bool a b)
unfolding cmp_bool
cmp_bool-reverse a b = cmp_nat-reverse (if a then 1 else 0) (if b then 1 else 0)

cmp_bytes-reverse : (a b : List ℕ) → cmp_bytes b a ≡ reverse_order (cmp_bytes a b)
unfolding cmp_bytes reverse_order
cmp_bytes-reverse [] [] = refl
cmp_bytes-reverse [] (y ∷ ys) = refl
cmp_bytes-reverse (x ∷ xs) [] = refl
cmp_bytes-reverse (x ∷ xs) (y ∷ ys) = ground (arith, cmp_nat-reverse x y, cmp_bytes-reverse xs ys)

reverse_order-reverse_order : (o : Ordering) → reverse_order (reverse_order o) ≡ o
unfolding reverse_order
reverse_order-reverse_order less = refl
reverse_order-reverse_order equal = refl
reverse_order-reverse_order greater = refl

-- Totals that overflow cannot be compared, either way.
totals-reverse :
    (x y : Outcome ℤ)
    → x ≢ bail
    → y ≢ bail
    → (y >>= λ b. x >>= λ a. ok (cmp_int b a)) ≡ reversed (x >>= λ a. y >>= λ b. ok (cmp_int a b))
totals-reverse (ok a) (ok b) p q = ap ok (cmp_int-reverse a b)
totals-reverse bail y p q = absurd (p refl)
totals-reverse x bail p q = absurd (q refl)
totals-reverse (ok a) overflow p q = refl
totals-reverse overflow (ok b) p q = refl
totals-reverse overflow overflow p q = refl

i64-ne-bail : (z : ℤ) → i64 z ≢ bail
unfolding i64
i64-ne-bail z = ground arith

bind-ne-bail :
    (x : Outcome ℤ) (f : ℤ → Outcome ℤ) → x ≢ bail → ((z : ℤ) → f z ≢ bail) → (x >>= f) ≢ bail
bind-ne-bail (ok z) f p q = q z
bind-ne-bail bail f p q = p
bind-ne-bail overflow f p q = λ h. cc

total_us-ne-bail : (m d u : ℤ) → total_us m d u ≢ bail
unfolding total_us
total_us-ne-bail m d u = bind-ne-bail (i64 (m *ℤ pos 30)) _ (i64-ne-bail (m *ℤ pos 30)) λ a.
    bind-ne-bail (i64 (a *ℤ pos day_us)) _ (i64-ne-bail (a *ℤ pos day_us)) λ n.
      bind-ne-bail (i64 (d *ℤ pos day_us)) _ (i64-ne-bail (d *ℤ pos day_us))
        λ k. bind-ne-bail (i64 (n +ℤ k)) _ (i64-ne-bail (n +ℤ k)) λ s. i64-ne-bail (s +ℤ u)

or_next-reverse :
    (o rest : Outcome Ordering) → or_next (reversed o) (reversed rest) ≡ reversed (or_next o rest)
unfolding or_next reverse_order
or_next-reverse (ok less) rest = refl
or_next-reverse (ok equal) rest = refl
or_next-reverse (ok greater) rest = refl
or_next-reverse bail rest = refl
or_next-reverse overflow rest = refl

-- `partial_cmp` the other way round is the reverse.
abbrev pub Reverses : Floats → Type 0
Reverses floats =
    (a b : ℕ)
    → floats.partial_cmp b a
      ≡ elim (floats.partial_cmp a b) [ none ↦ none | some o ↦ some (reverse_order o) ]

module _ (floats : Floats) (r : Reverses floats) where
  cmp_double-reverse : (a b : ℕ) → cmp_double floats b a ≡ reverse_order (cmp_double floats a b)
  unfolding cmp_double reverse_order
  cmp_double-reverse a b = ground (arith, r a b)

  compare_values-reverse :
      (a b : Value) → compare_values floats b a ≡ reversed (compare_values floats a b)
  unfolding compare_values
  compare_values-reverse (int a) (int b) = ap ok (cmp_int-reverse a b)
  compare_values-reverse (varchar a) (varchar b) = ap ok (cmp_bytes-reverse a b)
  compare_values-reverse (bool a) (bool b) = ap ok (cmp_bool-reverse a b)
  compare_values-reverse (double a) (double b) = ap ok (cmp_double-reverse a b)
  compare_values-reverse (int a) (double b) = ap ok (cmp_double-reverse (floats.of_int a) b)
  compare_values-reverse (double a) (int b) = ap ok (cmp_double-reverse a (floats.of_int b))
  compare_values-reverse (timestamp a) (timestamp b) = ap ok (cmp_int-reverse a b)
  compare_values-reverse (date a) (date b) = ap ok (cmp_int-reverse a b)
  compare_values-reverse (time a) (time b) = ap ok (cmp_int-reverse a b)
  compare_values-reverse (interval m d u) (interval n e v) =
      totals-reverse (total_us m d u) (total_us n e v) (total_us-ne-bail m d u)
        (total_us-ne-bail n e v)
  compare_values-reverse null null = refl
  compare_values-reverse null (int y) = refl
  compare_values-reverse null (varchar y) = refl
  compare_values-reverse null (bool y) = refl
  compare_values-reverse null (double y) = refl
  compare_values-reverse null (timestamp y) = refl
  compare_values-reverse null (date y) = refl
  compare_values-reverse null (time y) = refl
  compare_values-reverse null (interval y y' y'') = refl
  compare_values-reverse (int x) null = refl
  compare_values-reverse (int x) (varchar y) = refl
  compare_values-reverse (int x) (bool y) = refl
  compare_values-reverse (int x) (timestamp y) = refl
  compare_values-reverse (int x) (date y) = refl
  compare_values-reverse (int x) (time y) = refl
  compare_values-reverse (int x) (interval y y' y'') = refl
  compare_values-reverse (varchar x) null = refl
  compare_values-reverse (varchar x) (int y) = refl
  compare_values-reverse (varchar x) (bool y) = refl
  compare_values-reverse (varchar x) (double y) = refl
  compare_values-reverse (varchar x) (timestamp y) = refl
  compare_values-reverse (varchar x) (date y) = refl
  compare_values-reverse (varchar x) (time y) = refl
  compare_values-reverse (varchar x) (interval y y' y'') = refl
  compare_values-reverse (bool x) null = refl
  compare_values-reverse (bool x) (int y) = refl
  compare_values-reverse (bool x) (varchar y) = refl
  compare_values-reverse (bool x) (double y) = refl
  compare_values-reverse (bool x) (timestamp y) = refl
  compare_values-reverse (bool x) (date y) = refl
  compare_values-reverse (bool x) (time y) = refl
  compare_values-reverse (bool x) (interval y y' y'') = refl
  compare_values-reverse (double x) null = refl
  compare_values-reverse (double x) (varchar y) = refl
  compare_values-reverse (double x) (bool y) = refl
  compare_values-reverse (double x) (timestamp y) = refl
  compare_values-reverse (double x) (date y) = refl
  compare_values-reverse (double x) (time y) = refl
  compare_values-reverse (double x) (interval y y' y'') = refl
  compare_values-reverse (timestamp x) null = refl
  compare_values-reverse (timestamp x) (int y) = refl
  compare_values-reverse (timestamp x) (varchar y) = refl
  compare_values-reverse (timestamp x) (bool y) = refl
  compare_values-reverse (timestamp x) (double y) = refl
  compare_values-reverse (timestamp x) (date y) = refl
  compare_values-reverse (timestamp x) (time y) = refl
  compare_values-reverse (timestamp x) (interval y y' y'') = refl
  compare_values-reverse (date x) null = refl
  compare_values-reverse (date x) (int y) = refl
  compare_values-reverse (date x) (varchar y) = refl
  compare_values-reverse (date x) (bool y) = refl
  compare_values-reverse (date x) (double y) = refl
  compare_values-reverse (date x) (timestamp y) = refl
  compare_values-reverse (date x) (time y) = refl
  compare_values-reverse (date x) (interval y y' y'') = refl
  compare_values-reverse (time x) null = refl
  compare_values-reverse (time x) (int y) = refl
  compare_values-reverse (time x) (varchar y) = refl
  compare_values-reverse (time x) (bool y) = refl
  compare_values-reverse (time x) (double y) = refl
  compare_values-reverse (time x) (timestamp y) = refl
  compare_values-reverse (time x) (date y) = refl
  compare_values-reverse (time x) (interval y y' y'') = refl
  compare_values-reverse (interval x x' x'') null = refl
  compare_values-reverse (interval x x' x'') (int y) = refl
  compare_values-reverse (interval x x' x'') (varchar y) = refl
  compare_values-reverse (interval x x' x'') (bool y) = refl
  compare_values-reverse (interval x x' x'') (double y) = refl
  compare_values-reverse (interval x x' x'') (timestamp y) = refl
  compare_values-reverse (interval x x' x'') (date y) = refl
  compare_values-reverse (interval x x' x'') (time y) = refl

  compare_key-reverse :
      (dir : OrderDir) (a b : Value)
      → compare_key floats dir b a ≡ reversed (compare_key floats dir a b)
  unfolding compare_key reverse_order directed
  compare_key-reverse asc a b = ground (arith, compare_values-reverse a b)
  compare_key-reverse desc a b = ground (arith, compare_values-reverse a b)

  -- If partial_cmp of doubles is reversed when its arguments are swapped, then so is the order of
  -- two rows by any list of sort keys and directions, nulls and values that cannot be compared
  -- included.
  pub compare_keys-reverse :
      (a b : List Value) (dirs : List OrderDir)
      → compare_keys floats b a dirs ≡ reversed (compare_keys floats a b dirs)
  unfolding compare_keys reverse_order
  compare_keys-reverse a b [] = refl
  compare_keys-reverse (a ∷ xs) (b ∷ ys) (dir ∷ dirs) =
      rw (compare_key-reverse dir a b, compare_keys-reverse xs ys dirs)
        (or_next-reverse (compare_key floats dir a b) (compare_keys floats xs ys dirs))
  compare_keys-reverse [] [] (dir ∷ dirs) = refl
  compare_keys-reverse [] (b ∷ ys) (dir ∷ dirs) = refl
  compare_keys-reverse (a ∷ xs) [] (dir ∷ dirs) = refl
