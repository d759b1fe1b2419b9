-- ===== src/Prelude/Bytes.antt =====
-- Byte arrays and little-endian integers. A `[u8; N]` is a function from indices to bytes, a `Vec<u8>`
-- a list; `slice` and `splice` are `data[p..p + n]` and `copy_from_slice`.
use ccdb.Prelude.{◌⊎◌, ◌∙◌}
use Prim.Native.Nat.{ℕ, zero, suc, ◌+◌, ◌-◌, ◌*◌, ◌/◌, ◌%◌, ◌^◌, ◌≤◌, ◌<◌}
use mathlib.Core.Path.{◌≡◌, refl, ap, ap₂}
use mathlib.Core.Bool.{◌&&◌}
use mathlib.Core.List.{List, [], ◌∷◌}
use native.Mathlib.Omega.{arith}
use native.Mathlib.Nat.{pow-suc}
use ccdb.Prelude.Tests.{ltb, leb, ◌==◌, if◌then◌else◌}
use ccdb.Prelude.Lists.{length, get_or}

abbrev pub Bytes : Type 0
Bytes = ℕ → ℕ

abbrev pub zeros : Bytes
zeros _ = 0

-- `n.to_le_bytes()` of a `w`-byte integer
unfoldable pub le_bytes : ℕ → ℕ → List ℕ
le_bytes zero n = []
le_bytes (suc w) n = (n % 256) ∷ le_bytes w (n / 256)

-- `from_le_bytes`
unfoldable pub from_le : List ℕ → ℕ
from_le [] = 0
from_le (b ∷ bs) = b + 256 * from_le bs

unfoldable pub slice : Bytes → ℕ → ℕ → List ℕ
slice d p zero = []
slice d p (suc n) = d p ∷ slice d (p + 1) n

unfoldable pub splice : Bytes → ℕ → List ℕ → Bytes
splice d p bs j = if leb p j && ltb j (p + length bs) then get_or bs (j - p) 0 else d j

-- `data[p] = v`
unfoldable pub put : Bytes → ℕ → ℕ → Bytes
put d p v j = if p == j then v else d j

pub length-le_bytes : (w n : ℕ) → length (le_bytes w n) ≡ w
unfolding le_bytes
length-le_bytes zero n = refl
length-le_bytes (suc w) n = ap suc (length-le_bytes w (n / 256))

pub length-slice : (d : Bytes) (p n : ℕ) → length (slice d p n) ≡ n
unfolding slice
length-slice d p zero = refl
length-slice d p (suc n) = ap suc (length-slice d (p + 1) n)

pub from_le-le_bytes : (w n : ℕ) → n < 256 ^ w → from_le (le_bytes w n) ≡ n
unfolding from_le le_bytes
from_le-le_bytes zero n h = omega arith
from_le-le_bytes (suc w) n h =
    omega (arith, from_le-le_bytes w (n / 256) (omega (arith, pow-suc 256 w)))

pub slice-eq :
    (d e : Bytes) (p n : ℕ) → ((j : ℕ) → p ≤ j → j < p + n → d j ≡ e j) → slice d p n ≡ slice e p n
unfolding slice
slice-eq d e p zero h = refl
slice-eq d e p (suc n) h =
    ap₂ ◌∷◌ (h p (omega arith) (omega arith))
      (slice-eq d e (p + 1) n (λ j a b. h j (omega arith) (omega arith)))

-- Writing elsewhere does not change what is read.
pub slice-splice_disjoint :
    (d : Bytes) (p : ℕ) (bs : List ℕ) (q n : ℕ)
    → ((j : ℕ) → q ≤ j → j < q + n → (j < p) ⊎ (p + length bs ≤ j))
    → slice (splice d p bs) q n ≡ slice d q n
unfolding splice
slice-splice_disjoint d p bs q n h =
    slice-eq (splice d p bs) d q n (λ j a b. ground (arith, h j a b))

pub slice-put_disjoint :
    (d : Bytes) (p v q n : ℕ)
    → ((j : ℕ) → q ≤ j → j < q + n → (j < p) ⊎ (p < j))
    → slice (put d p v) q n ≡ slice d q n
unfolding put
slice-put_disjoint d p v q n h = slice-eq (put d p v) d q n (λ j a b. ground (arith, h j a b))

slice-get_or :
    (bs : List ℕ) (e : Bytes) (q : ℕ)
    → ((k : ℕ) → k < length bs → e (q + k) ≡ get_or bs k 0)
    → slice e q (length bs) ≡ bs
unfolding slice
slice-get_or [] e q h = refl
slice-get_or (b ∷ bs) e q h =
    let here : q ≡ q + 0 = omega arith in
    ap₂ ◌∷◌ (ap e here ∙ h 0 (omega arith)) (
      slice-get_or bs e (q + 1) (λ k a.
        let step : q + 1 + k ≡ q + suc k = omega arith in ap e step ∙ h (suc k) (omega arith)))

-- Reading what was written.
pub slice-splice_self : (d : Bytes) (p : ℕ) (bs : List ℕ) → slice (splice d p bs) p (length bs) ≡ bs
unfolding splice
slice-splice_self d p bs =
    slice-get_or bs (splice d p bs) p (λ k a.
      let at_k : p + k - p ≡ k = omega arith in ground (arith, ap (λ i. get_or bs i 0) at_k))
