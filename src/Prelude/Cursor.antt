-- ===== src/Prelude/Cursor.antt =====
-- Fields of a list of bytes, read at an offset: `from_le_bytes(bs[p..p + w])`.
use ccdb.Prelude.Bytes.{le_bytes, from_le, from_le-le_bytes, length-le_bytes}
use mathlib.Core.List.{append-nil, List, [], ◌∷◌, ◌++◌}
use mathlib.Core.Path.{◌≡◌, refl, ap, sym, ◌∙◌}
use Prim.Native.Nat.{ℕ, zero, suc, ◌+◌, ◌/◌, ◌%◌, ◌^◌, ◌<◌}
use native.Mathlib.Omega.{arith}
use ccdb.Prelude.Lists.{take, drop, length, length-append}

unfoldable pub read_le : ℕ → ℕ → List ℕ → ℕ
read_le w p bs = from_le (take w (drop p bs))

take-le_bytes : (w n : ℕ) (bs : List ℕ) → take w (le_bytes w n ++ bs) ≡ le_bytes w n
unfolding le_bytes
take-le_bytes zero n bs = refl
take-le_bytes (suc w) n bs = ap (◌∷◌ (n % 256)) (take-le_bytes w (n / 256) bs)

pub drop-le_bytes :
    (w n p q : ℕ) (bs : List ℕ) → q ≡ w + p → drop q (le_bytes w n ++ bs) ≡ drop p bs
unfolding le_bytes
drop-le_bytes zero n p q bs e = let same : q ≡ p = omega arith in ap (λ i. drop i bs) same
drop-le_bytes (suc w) n p zero bs e = absurd (omega arith)
drop-le_bytes (suc w) n p (suc q) bs e = drop-le_bytes w (n / 256) p q bs (omega arith)

-- The field at the start is what was written there, and what follows is read from its own start.
pub read_le-here : (w n : ℕ) (bs : List ℕ) → n < 256 ^ w → read_le w 0 (le_bytes w n ++ bs) ≡ n
unfolding read_le
read_le-here w n bs h = rw take-le_bytes (from_le-le_bytes w n h)

pub read_le-skip :
    (v n w p q : ℕ) (bs : List ℕ) → q ≡ v + p → read_le w q (le_bytes v n ++ bs) ≡ read_le w p bs
unfolding read_le
read_le-skip v n w p q bs e = ap (λ l. from_le (take w l)) (drop-le_bytes v n p q bs e)

pub length-le_bytes_append : (w n : ℕ) (bs : List ℕ) → length (le_bytes w n ++ bs) ≡ w + length bs
length-le_bytes_append w n bs = rw (length-append, length-le_bytes)

pub read_le-whole : (w n : ℕ) → n < 256 ^ w → read_le w 0 (le_bytes w n) ≡ n
read_le-whole w n h = ap (read_le w 0) (sym (append-nil (le_bytes w n))) ∙ read_le-here w n [] h

pub take-append_self : (xs ys : List ℕ) → take (length xs) (xs ++ ys) ≡ xs
take-append_self [] ys = refl
take-append_self (x ∷ xs) ys = ap (◌∷◌ x) (take-append_self xs ys)

pub drop-append_skip :
    (xs ys : List ℕ) (p q : ℕ) → q ≡ length xs + p → drop q (xs ++ ys) ≡ drop p ys
drop-append_skip [] ys p q e = let same : q ≡ p = omega arith in ap (λ i. drop i ys) same
drop-append_skip (x ∷ xs) ys p zero e = absurd (omega arith)
drop-append_skip (x ∷ xs) ys p (suc q) e = drop-append_skip xs ys p q (omega arith)

pub read_le-behind :
    (xs ys : List ℕ) (w p q : ℕ) → q ≡ length xs + p → read_le w q (xs ++ ys) ≡ read_le w p ys
unfolding read_le
read_le-behind xs ys w p q e = ap (λ l. from_le (take w l)) (drop-append_skip xs ys p q e)
