-- ===== src/Prelude/Sets.antt =====
-- `HashSet<u64>` as a list of numbers.
use ccdb.Prelude.Tests.{◌==◌, if◌then◌else◌}
use Prim.Native.Nat.{ℕ}
use mathlib.Core.Bool.{Bool, false, not, ◌&&◌, ◌||◌}
use mathlib.Core.List.{List, [], ◌∷◌}
use mathlib.Core.Path.{◌≡◌, refl}
use native.Mathlib.Omega.{arith}

unfoldable pub set_contains : ℕ → List ℕ → Bool
set_contains x [] = false
set_contains x (y ∷ ys) = (x == y) || set_contains x ys

unfoldable pub set_insert : ℕ → List ℕ → List ℕ
set_insert x s = if set_contains x s then s else x ∷ s

unfoldable pub set_remove : ℕ → List ℕ → List ℕ
set_remove x [] = []
set_remove x (y ∷ ys) = let rest = set_remove x ys in if x == y then rest else y ∷ rest

-- The elements of the first set that are in the second.
unfoldable pub intersection : List ℕ → List ℕ → List ℕ
intersection [] t = []
intersection (x ∷ xs) t =
    let rest = intersection xs t in if set_contains x t then x ∷ rest else rest

pub set_contains-set_insert :
    (x y : ℕ) (s : List ℕ) → set_contains x (set_insert y s) ≡ ((x == y) || set_contains x s)
unfolding set_insert set_contains
set_contains-set_insert x y s = ground arith

pub set_contains-set_remove :
    (x y : ℕ) (s : List ℕ) → set_contains x (set_remove y s) ≡ (not (x == y) && set_contains x s)
unfolding set_remove set_contains
set_contains-set_remove x y [] = ground arith
set_contains-set_remove x y (z ∷ s) = ground (arith, set_contains-set_remove x y s)

pub set_contains-intersection :
    (x : ℕ) (s t : List ℕ)
    → set_contains x (intersection s t) ≡ (set_contains x s && set_contains x t)
unfolding intersection set_contains
set_contains-intersection x [] t = refl
set_contains-intersection x (y ∷ s) t = ground (arith, set_contains-intersection x s t)
