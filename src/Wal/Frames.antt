-- ===== src/Wal/Frames.antt =====
-- src/wal.rs: reading back a file of records, whole or cut off in the middle.
use ccdb.Prelude.Cursor.{
  read_le, read_le-here, drop-le_bytes, length-le_bytes_append, take-append_self, drop-append_skip,
}
use ccdb.Prelude.Bytes.{le_bytes}
use mathlib.Core.List.{append-nil, append_assoc}
use ccdb.Wal.{WalRecord, encode, frame, read_loop, read_records}
use ccdb.Wal.Codec.{Encodable, decode-encode}
use ccdb.Prelude.{
  ℕ, suc, zero, ◌+◌, ◌^◌, ◌<◌, ◌≡◌, Option, none, some, List, [], ◌∷◌, ◌++◌, take, drop, length,
  arith, refl, ap, ◌∙◌, ltb, false, length-append, true, length-take,
}

-- A record that the file can hold: its fields fit, and so does its length in the four bytes before it.
pub record IsStorable (r : WalRecord) : Type 0 where
  pub fields : Encodable r
  pub short : length (encode r) < 2 ^ 32

abbrev pub AllStorable : List WalRecord → Type 0
AllStorable [] = Unit
AllStorable (r ∷ rs) = IsStorable r × AllStorable rs

-- The file after `append` of each record, and then some bytes more.
abbrev pub frames : List WalRecord → List ℕ → List ℕ
frames [] tail = tail
frames (r ∷ rs) tail = frame r ++ frames rs tail

abbrev prepend : List WalRecord → Option (List WalRecord) → Option (List WalRecord)
prepend rs none = none
prepend rs (some more) = some (rs ++ more)

frame-append :
    (r : WalRecord) (more : List ℕ)
    → frame r ++ more ≡ le_bytes 4 (length (encode r)) ++ (encode r ++ more)
unfolding frame
frame-append r more = append_assoc (le_bytes 4 (length (encode r))) (encode r) more

prepend_one :
    (r : WalRecord) (o : Option (List WalRecord))
    → elim o [ none ↦ none | some rs ↦ some (r ∷ rs) ] ≡ prepend (r ∷ []) o
prepend_one r none = refl
prepend_one r (some rs) = refl

-- One round of the loop, when a whole record stands at the start.
read_loop_step :
    (fuel : ℕ) (r : WalRecord) (more : List ℕ)
    → IsStorable r
    → read_loop (suc fuel) (frame r ++ more) ≡ prepend (r ∷ []) (read_loop fuel more)
unfolding read_loop
read_loop_step fuel r more h =
    let n = length (encode r) in
    let file = le_bytes 4 n ++ (encode r ++ more) in
    let count : read_le 4 0 file ≡ n = read_le-here 4 n _ h.short in
    let rest : drop 4 file ≡ encode r ++ more = drop-le_bytes 4 n 0 4 _ refl in
    let long : ltb (length file) 4 ≡ false =
      ground (arith, length-le_bytes_append 4 n (encode r ++ more)) in
    let whole : ltb (length (drop 4 file)) (read_le 4 0 file) ≡ false =
      rw (count, rest) (ground (arith, length-append (encode r) more)) in
    let taken : take (read_le 4 0 file) (drop 4 file) ≡ encode r =
      rw (count, rest) (take-append_self (encode r) more) in
    let left : drop (read_le 4 0 file) (drop 4 file) ≡ more =
      rw (count, rest) (drop-append_skip (encode r) more 0 n (omega arith)) in
    ap (read_loop (suc fuel)) (frame-append r more)
    ∙ rw (long, whole, taken, decode-encode r h.fields, left, read_loop)
        (prepend_one r (read_loop fuel more))

prepend_nil : (o : Option (List WalRecord)) → o ≡ prepend [] o
prepend_nil none = refl
prepend_nil (some rs) = refl

prepend_twice :
    (r : WalRecord) (rs : List WalRecord) (o : Option (List WalRecord))
    → prepend (r ∷ []) (prepend rs o) ≡ prepend (r ∷ rs) o
prepend_twice r rs none = refl
prepend_twice r rs (some more) = refl

length-frame : (r : WalRecord) → length (frame r) ≡ 4 + length (encode r)
unfolding frame
length-frame r = length-le_bytes_append 4 (length (encode r)) (encode r)

read_loop-frames :
    (fuel : ℕ) (rs : List WalRecord) (tail : List ℕ) (o : Option (List WalRecord))
    → AllStorable rs
    → ((f : ℕ) → length tail < f → read_loop f tail ≡ o)
    → length (frames rs tail) < fuel
    → read_loop fuel (frames rs tail) ≡ prepend rs o
read_loop-frames fuel [] tail o h base enough = base fuel enough ∙ prepend_nil o
read_loop-frames zero (r ∷ rs) tail o h base enough = absurd (omega (arith, enough))
read_loop-frames (suc fuel) (r ∷ rs) tail o (hr, h) base enough =
    let size = length-append (frame r) (frames rs tail) in
    let rest =
      read_loop-frames fuel rs tail o h base (omega (arith, size, length-frame r, enough)) in
    read_loop_step fuel r (frames rs tail) hr ∙ ap (prepend (r ∷ [])) rest ∙ prepend_twice r rs o

short_tail :
    (tail : List ℕ) (f : ℕ) → length tail < 4 → length tail < f → read_loop f tail ≡ some []
unfolding read_loop
short_tail tail zero cut enough = absurd (omega (arith, enough))
short_tail tail (suc f) cut enough =
    let small : ltb (length tail) 4 ≡ true = ground (arith, cut) in rw (small, read_loop)

-- A file of whole records, which fit their widths, is read back in order by read_records; so is one
-- that ends with less than four bytes more, without those.
pub read_records-frames :
    (rs : List WalRecord) (tail : List ℕ)
    → AllStorable rs
    → length tail < 4
    → read_records (frames rs tail) ≡ some rs
unfolding read_records
read_records-frames rs tail h cut =
    read_loop-frames (suc (length (frames rs tail))) rs tail (some []) h
      (λ f enough. short_tail tail f cut enough) (omega arith)
    ∙ ap some (append-nil rs)

-- The length of a record, and less of it than that.
abbrev pub torn_frame : WalRecord → ℕ → List ℕ
torn_frame r k = le_bytes 4 (length (encode r)) ++ take k (encode r)

torn_tail :
    (r : WalRecord) (k f : ℕ)
    → IsStorable r
    → k < length (encode r)
    → length (torn_frame r k) < f
    → read_loop f (torn_frame r k) ≡ none
unfolding read_loop
torn_tail r k zero hr cut enough = absurd (omega (arith, enough))
torn_tail r k (suc f) hr cut enough =
    let n = length (encode r) in
    let count : read_le 4 0 (torn_frame r k) ≡ n = read_le-here 4 n _ hr.short in
    let rest : drop 4 (torn_frame r k) ≡ take k (encode r) = drop-le_bytes 4 n 0 4 _ refl in
    let long : ltb (length (torn_frame r k)) 4 ≡ false =
      ground (arith, length-le_bytes_append 4 n (take k (encode r))) in
    let short : ltb (length (take k (encode r))) n ≡ true =
      ground (arith, length-take k (encode r), cut) in
    rw (long, count, rest, short, read_loop)

-- When the file ends inside a last record, behind its length, read_records fails, and the whole
-- records before it are not returned.
pub read_records-torn :
    (rs : List WalRecord) (r : WalRecord) (k : ℕ)
    → AllStorable rs
    → IsStorable r
    → k < length (encode r)
    → read_records (frames rs (torn_frame r k)) ≡ none
unfolding read_records
read_records-torn rs r k h hr cut =
    read_loop-frames (suc (length (frames rs (torn_frame r k)))) rs (torn_frame r k) none h
      (λ f enough. torn_tail r k f hr cut enough) (omega arith)
