-- ===== src/Prelude/Order.antt =====
-- `std::cmp::Ordering`, and the order of integers, Booleans and strings. A string is the list of its
-- bytes.
use Prim.Native.Nat.{ℕ, ◌+◌}
use mathlib.Core.Bool.{Bool}
use mathlib.Core.List.{List, [], ◌∷◌}
use ccdb.Prelude.Tests.{ltb, ◌==◌, if◌then◌else◌}
use ccdb.Prelude.Int.{ℤ, pos_part, neg_part}

-- `std::cmp::Ordering`
pub data Ordering : Type 0 where
  less equal greater : Ordering

-- `x.cmp(y)` of integers, of `bool` and of `String`
unfoldable pub cmp_nat : ℕ → ℕ → Ordering
cmp_nat x y = if ltb x y then less else if x == y then equal else greater

unfoldable pub cmp_int : ℤ → ℤ → Ordering
cmp_int x y = cmp_nat (pos_part x + neg_part y) (pos_part y + neg_part x)

unfoldable pub cmp_bool : Bool → Bool → Ordering
cmp_bool x y = cmp_nat (if x then 1 else 0) (if y then 1 else 0)

unfoldable pub cmp_bytes : List ℕ → List ℕ → Ordering
cmp_bytes [] [] = equal
cmp_bytes [] (y ∷ ys) = less
cmp_bytes (x ∷ xs) [] = greater
cmp_bytes (x ∷ xs) (y ∷ ys) =
    let rest = cmp_bytes xs ys in if ltb x y then less else if x == y then rest else greater
