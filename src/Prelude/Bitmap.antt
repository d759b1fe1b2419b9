-- ===== src/Prelude/Bitmap.antt =====
-- A bitmap in a list of bytes: bit `i` stands in byte `i / 8`.
use ccdb.Prelude.Bits.{holds_below, holds_below-at}
use ccdb.Prelude.{
  ℕ, zero, suc, ◌/◌, ◌%◌, ◌^◌, ◌<◌, ◌≡◌, ◌≢◌, Bool, true, false, not, ◌&&◌, ◌||◌, ltb, ◌==◌, List,
  [], ◌∷◌, set, get_or, length, replicate, get_or-set_self, get_or-set_ne, length-set, arith, refl,
  ap, ℕ_discrete, sym,
}
use Prim.Native.Nat.{bit_and, bit_or}

-- `buf[i / 8] |= 1 << (i % 8)`
unfoldable pub mark_bit : List ℕ → ℕ → List ℕ
mark_bit buf i = set buf (i / 8) (bit_or (get_or buf (i / 8) 0) (2 ^ (i % 8)))

-- `buf[i / 8] & (1 << (i % 8)) != 0`
unfoldable pub has_bit : List ℕ → ℕ → Bool
has_bit buf i = not (bit_and (get_or buf (i / 8) 0) (2 ^ (i % 8)) == 0)

unfoldable pub AreBytes : List ℕ → Type 0
AreBytes [] = Unit
AreBytes (b ∷ bs) = (b < 256) × AreBytes bs

abbrev marked : ℕ → ℕ → Bool
marked b k =
    ltb (bit_or b (2 ^ k)) 256
    && not (bit_and (bit_or b (2 ^ k)) (2 ^ k) == 0)
    && holds_below 8 (λ j. (j == k) || (bit_and (bit_or b (2 ^ k)) (2 ^ j) == bit_and b (2 ^ j)))

mark_table : holds_below 256 (λ b. holds_below 8 (λ k. marked b k)) ≡ true
unfolding holds_below
mark_table = refl

mark_cell : (b k : ℕ) → b < 256 → k < 8 → marked b k ≡ true
mark_cell b k hb hk = holds_below-at 8 _ k (holds_below-at 256 _ b mark_table hb) hk

bit_or-lt : (b k : ℕ) → b < 256 → k < 8 → bit_or b (2 ^ k) < 256
bit_or-lt b k hb hk = ground (arith, mark_cell b k hb hk)

bit_and-bit_or_self :
    (b k : ℕ) → b < 256 → k < 8 → not (bit_and (bit_or b (2 ^ k)) (2 ^ k) == 0) ≡ true
bit_and-bit_or_self b k hb hk = ground (arith, mark_cell b k hb hk)

bit_and-bit_or_ne :
    (b k j : ℕ)
    → b < 256
    → k < 8
    → j < 8
    → j ≢ k
    → bit_and (bit_or b (2 ^ k)) (2 ^ j) ≡ bit_and b (2 ^ j)
bit_and-bit_or_ne b k j hb hk hj ne =
    let rest : holds_below 8
          (λ j. (j == k) || (bit_and (bit_or b (2 ^ k)) (2 ^ j) == bit_and b (2 ^ j)))
        ≡ true =
      ground (arith, mark_cell b k hb hk) in
    ground (arith, holds_below-at 8 _ j rest hj)

get_or-AreBytes : (bs : List ℕ) (i : ℕ) → AreBytes bs → get_or bs i 0 < 256
unfolding AreBytes
get_or-AreBytes [] i h = omega arith
get_or-AreBytes (b ∷ bs) zero h = h.0
get_or-AreBytes (b ∷ bs) (suc i) h = get_or-AreBytes bs i h.1

set-AreBytes : (bs : List ℕ) (i v : ℕ) → v < 256 → AreBytes bs → AreBytes (set bs i v)
unfolding AreBytes
set-AreBytes [] i v hv h = h
set-AreBytes (b ∷ bs) zero v hv h = (hv, h.1)
set-AreBytes (b ∷ bs) (suc i) v hv h = (h.0, set-AreBytes bs i v hv h.1)

pub replicate-AreBytes : (n : ℕ) → AreBytes (replicate n 0)
unfolding AreBytes
replicate-AreBytes zero = tt
replicate-AreBytes (suc n) = (omega arith, replicate-AreBytes n)

pub mark_bit-AreBytes : (buf : List ℕ) (i : ℕ) → AreBytes buf → AreBytes (mark_bit buf i)
unfolding mark_bit
mark_bit-AreBytes buf i h =
    set-AreBytes buf (i / 8) _
      (bit_or-lt (get_or buf (i / 8) 0) (i % 8) (get_or-AreBytes buf (i / 8) h) (omega arith)) h

pub length-mark_bit : (buf : List ℕ) (i : ℕ) → length (mark_bit buf i) ≡ length buf
unfolding mark_bit
length-mark_bit buf i = length-set buf (i / 8) _

pub has_bit-mark_self :
    (buf : List ℕ) (i : ℕ) → AreBytes buf → i / 8 < length buf → has_bit (mark_bit buf i) i ≡ true
unfolding mark_bit has_bit
has_bit-mark_self buf i h inside =
    rw (get_or-set_self buf (i / 8) (bit_or (get_or buf (i / 8) 0) (2 ^ (i % 8))) 0 inside) (
      bit_and-bit_or_self (get_or buf (i / 8) 0) (i % 8) (get_or-AreBytes buf (i / 8) h)
        (omega arith))

-- The other bits stay.
pub has_bit-mark_ne :
    (buf : List ℕ) (i j : ℕ)
    → AreBytes buf
    → i / 8 < length buf
    → j ≢ i
    → has_bit (mark_bit buf i) j ≡ has_bit buf j
unfolding mark_bit has_bit
has_bit-mark_ne buf i j h inside ne =
    let v = bit_or (get_or buf (i / 8) 0) (2 ^ (i % 8)) in
    elim (ℕ_discrete (i / 8) (j / 8)) [
      | yes same ↦
          rw (sym same, get_or-set_self buf (i / 8) v 0 inside)
            (ap (λ w. not (w == 0))
              (bit_and-bit_or_ne (get_or buf (i / 8) 0) (i % 8) (j % 8)
                (get_or-AreBytes buf (i / 8) h) (omega arith) (omega arith)
                (λ e. ne (omega arith))))
      | no other ↦ rw (get_or-set_ne buf (i / 8) (j / 8) v 0 other) refl
    ]

get_or-replicate : (n i : ℕ) → ◌≡◌ {A = ℕ} (get_or (replicate n 0) i 0) 0
get_or-replicate zero i = refl
get_or-replicate (suc n) zero = refl
get_or-replicate (suc n) (suc i) = get_or-replicate n i

zero_table : holds_below 8 (λ k. bit_and 0 (2 ^ k) == 0) ≡ true
unfolding holds_below
zero_table = refl

pub has_bit-replicate : (n i : ℕ) → has_bit (replicate n 0) i ≡ false
unfolding has_bit
has_bit-replicate n i =
    rw (get_or-replicate n (i / 8))
      (ground (arith, holds_below-at 8 _ (i % 8) zero_table (omega arith)))
