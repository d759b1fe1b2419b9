-- ===== src/Wal/Codec.antt =====
-- src/wal.rs: `decode` takes back what `encode` wrote.
use ccdb.Prelude.Cursor.{
  read_le, read_le-here, read_le-skip, drop-le_bytes, length-le_bytes_append, read_le-whole,
  drop-append_skip, take-append_self,
}
use ccdb.Wal.Checkpoint.{FitTable, checkpoint_round_trip}
use ccdb.Wal.{Rid}
use ccdb.Prelude.Bytes.{le_bytes, from_le, length-le_bytes}
use ccdb.Prelude.Int.{IsI64, i64_bits, i64_of_bits-i64_bits, i64_bits-lt, ℤ}
use ccdb.Wal.{
  WalRecordType, WalRecord, ClrRedo, encode_rid, encode_redo, encode_type, encode, read_rid,
  decode_redo, decode_clr, decode_index_insert, decode_type, decode, begin, commit, abort, insert,
  delete, clr, checkpoint, index_insert, sequence_advance, page_init, undo_insert, undo_delete,
}
use ccdb.Wal.Fields.{
  IsRid, read_rid-encode_rid, drop-encode_rid, read_le-encode_rid, length-encode_rid,
}
use ccdb.Prelude.{
  ℕ, ◌+◌, ◌^◌, ◌<◌, ◌≡◌, List, [], ◌∷◌, ◌++◌, Option, some, take, drop, length, get_or, arith, refl,
  ap, ◌∙◌, length-append, ltb, false,
}

abbrev pub IsRedo : ClrRedo → Type 0
IsRedo (undo_insert rid) = IsRid rid
IsRedo (undo_delete rid old_xmax) = IsRid rid × (old_xmax < 2 ^ 64)

last_u64 : (rid : Rid) (n : ℕ) → n < 2 ^ 64 → read_le 8 6 (encode_rid rid (le_bytes 8 n)) ≡ n
last_u64 rid n h = read_le-encode_rid rid 8 0 6 _ refl ∙ read_le-whole 8 n h

-- What the encoder writes starts with the tag, and the payload is decoded under it.
abbrev RoundTrip {ℓ} : {A : Type ℓ} → List ℕ → (ℕ → List ℕ → Option A) → A → Type ℓ
RoundTrip bs dec a = (tag : ℕ) × (rest : List ℕ) × (bs ≡ tag ∷ rest) × (dec tag rest ≡ some a)

redo-RoundTrip : (redo : ClrRedo) → IsRedo redo → RoundTrip (encode_redo redo) decode_redo redo
unfolding encode_redo decode_redo
redo-RoundTrip (undo_insert rid) h = (
  0,
  encode_rid rid [],
  refl,
  ground (arith, length-encode_rid rid [], read_rid-encode_rid rid [] h),
)
redo-RoundTrip (undo_delete rid old_xmax) (hr, hx) =
    let rest = le_bytes 8 old_xmax in
    (
      1,
      encode_rid rid rest,
      refl,
      ground (
        arith,
        length-encode_rid rid rest,
        length-le_bytes 8 old_xmax,
        read_rid-encode_rid rid rest hr,
        last_u64 rid old_xmax hx,
      ),
    )

insert_round_trip :
    (rid : Rid) (bytes : List ℕ)
    → IsRid rid
    → decode_type 3 (encode_rid rid bytes) ≡ some (insert rid bytes)
unfolding decode_type
insert_round_trip rid bytes h = ground (
  arith,
  length-encode_rid rid bytes,
  read_rid-encode_rid rid bytes h,
  drop-encode_rid rid 0 6 bytes refl,
)

delete_round_trip :
    (rid : Rid) (xmax : ℕ)
    → IsRid rid
    → xmax < 2 ^ 64
    → decode_type 4 (encode_rid rid (le_bytes 8 xmax)) ≡ some (delete rid xmax)
unfolding decode_type
delete_round_trip rid xmax h hx = ground (
  arith,
  length-encode_rid rid (le_bytes 8 xmax),
  length-le_bytes 8 xmax,
  read_rid-encode_rid rid (le_bytes 8 xmax) h,
  last_u64 rid xmax hx,
)

clr_round_trip :
    (lsn : ℕ) (redo : ClrRedo)
    → lsn < 2 ^ 64
    → IsRedo redo
    → decode_type 5 (le_bytes 8 lsn ++ encode_redo redo) ≡ some (clr lsn redo)
unfolding decode_type decode_clr le_bytes
clr_round_trip lsn redo h hr =
    let (tag, rest, e, d) = redo-RoundTrip redo hr in
    rw e (
      ground
        (arith, length-le_bytes_append 8 lsn (tag ∷ rest), read_le-here 8 lsn (tag ∷ rest) h, d))

-- The payload of an `IndexInsert`, and what is found in it behind the key.
module _ (index_id : ℕ) (key : List ℕ) (rid : Rid) where
  abbrev payload : List ℕ
  payload = le_bytes 8 index_id ++ (le_bytes 4 (length key) ++ (key ++ encode_rid rid []))

  drop-payload : (p q : ℕ) → q ≡ 12 + p → drop q payload ≡ drop p (key ++ encode_rid rid [])
  drop-payload p q e =
      drop-le_bytes 8 index_id (4 + p) q _ (omega arith)
      ∙ drop-le_bytes 4 (length key) p (4 + p) (key ++ encode_rid rid []) refl

  read_le-payload :
      (w p q : ℕ) → q ≡ 12 + length key + p → read_le w q payload ≡ read_le w p (encode_rid rid [])
  unfolding read_le
  read_le-payload w p q e =
      ap (λ l. from_le (take w l))
        (drop-payload (length key + p) q (omega arith)
          ∙ drop-append_skip key (encode_rid rid []) p (length key + p) refl)

  read_rid-payload : IsRid rid → read_rid (12 + length key) payload ≡ rid
  unfolding read_rid
  read_rid-payload h = cc (
    read_le-payload 4 0 (12 + length key) (omega arith),
    read_le-payload 2 4 (12 + length key + 4) refl,
    read_rid-encode_rid rid [] h,
  )

  index_insert_round_trip :
      index_id < 2 ^ 64
      → length key < 2 ^ 32
      → IsRid rid
      → decode_type 7 payload ≡ some (index_insert index_id key rid)
  unfolding decode_type decode_index_insert
  index_insert_round_trip hi hk hr =
      let size : length payload ≡ 18 + length key =
        rw (length-le_bytes_append, length-le_bytes_append, length-append, length-encode_rid)
          (omega arith) in
      let here : read_le 8 0 payload ≡ index_id = read_le-here 8 index_id _ hi in
      let count : read_le 4 8 payload ≡ length key =
        read_le-skip 8 index_id 4 0 8 _ refl ∙ read_le-here 4 (length key) _ hk in
      let inside : take (length key) (drop 12 payload) ≡ key =
        ap (take (length key)) (drop-payload 0 12 refl) ∙ take-append_self key _ in
      rw count (ground (arith, size, here, inside, read_rid-payload hr))

sequence_advance_round_trip :
    (seq_page_id : ℕ) (v : ℤ)
    → seq_page_id < 2 ^ 32
    → IsI64 v
    → decode_type 8 (le_bytes 4 seq_page_id ++ le_bytes 8 (i64_bits v))
      ≡ some (sequence_advance seq_page_id v)
unfolding decode_type
sequence_advance_round_trip seq_page_id v h hv =
    let last : read_le 8 4 (le_bytes 4 seq_page_id ++ le_bytes 8 (i64_bits v)) ≡ i64_bits v =
      read_le-skip 4 seq_page_id 8 0 4 _ refl ∙ read_le-whole 8 (i64_bits v) (i64_bits-lt v hv) in
    ground (
      arith,
      length-le_bytes_append 4 seq_page_id (le_bytes 8 (i64_bits v)),
      length-le_bytes 8 (i64_bits v),
      read_le-here 4 seq_page_id (le_bytes 8 (i64_bits v)) h,
      last,
      i64_of_bits-i64_bits v hv,
    )

page_init_round_trip :
    (page_id kind : ℕ)
    → page_id < 2 ^ 32
    → decode_type 9 (le_bytes 4 page_id ++ kind ∷ []) ≡ some (page_init page_id kind)
unfolding decode_type le_bytes
page_init_round_trip page_id kind h =
    ground
      (arith, length-le_bytes_append 4 page_id (kind ∷ []), read_le-here 4 page_id (kind ∷ []) h)

-- The fields of a record fit their widths, and its tables have one entry for each key.
abbrev pub IsEncodable : WalRecordType → Type 0
IsEncodable begin = Unit
IsEncodable commit = Unit
IsEncodable abort = Unit
IsEncodable (insert rid bytes) = IsRid rid
IsEncodable (delete rid xmax) = IsRid rid × (xmax < 2 ^ 64)
IsEncodable (clr lsn redo) = (lsn < 2 ^ 64) × IsRedo redo
IsEncodable (checkpoint att dpt) = FitTable 8 att × FitTable 4 dpt
IsEncodable (index_insert index_id key rid) =
    (index_id < 2 ^ 64) × (length key < 2 ^ 32) × IsRid rid
IsEncodable (sequence_advance seq_page_id v) = (seq_page_id < 2 ^ 32) × IsI64 v
IsEncodable (page_init page_id kind) = page_id < 2 ^ 32

type-RoundTrip : (t : WalRecordType) → IsEncodable t → RoundTrip (encode_type t) decode_type t
unfolding encode_type decode_type
type-RoundTrip begin h = (0, [], refl, refl)
type-RoundTrip commit h = (1, [], refl, refl)
type-RoundTrip abort h = (2, [], refl, refl)
type-RoundTrip (insert rid bytes) h = (3, _, refl, insert_round_trip rid bytes h)
type-RoundTrip (delete rid xmax) h = (4, _, refl, delete_round_trip rid xmax h.0 h.1)
type-RoundTrip (clr lsn redo) h = (5, _, refl, clr_round_trip lsn redo h.0 h.1)
type-RoundTrip (checkpoint att dpt) h = (6, _, refl, checkpoint_round_trip att dpt h.0 h.1)
type-RoundTrip (index_insert index_id key rid) h =
    (7, _, refl, index_insert_round_trip index_id key rid h.0 h.1 h.2)
type-RoundTrip (sequence_advance seq_page_id v) h =
    (8, _, refl, sequence_advance_round_trip seq_page_id v h.0 h.1)
type-RoundTrip (page_init page_id kind) h = (9, _, refl, page_init_round_trip page_id kind h)

pub record Encodable (r : WalRecord) : Type 0 where
  pub lsn_fits : r.lsn < 2 ^ 64
  pub txn_id_fits : r.txn_id < 2 ^ 64
  pub prev_lsn_fits : r.prev_lsn < 2 ^ 64
  pub type_fits : IsEncodable r.record_type

-- The bytes of a record, whose tag stands behind three `u64`.
module _ (lsn txn prev tag : ℕ) (rest : List ℕ) where
  abbrev body : List ℕ
  body = le_bytes 8 lsn ++ (le_bytes 8 txn ++ (le_bytes 8 prev ++ tag ∷ rest))

  body_tag : get_or body 24 0 ≡ tag
  unfolding le_bytes
  body_tag = refl

  body_rest : drop 25 body ≡ rest
  unfolding le_bytes
  body_rest = refl

  body_long : ltb (length body) 25 ≡ false
  body_long =
      let size : length body ≡ 25 + length rest =
        rw (length-le_bytes_append, length-le_bytes_append, length-le_bytes_append) (omega arith) in
      ground (arith, size)

  decode-body :
      (t : WalRecordType)
      → lsn < 2 ^ 64
      → txn < 2 ^ 64
      → prev < 2 ^ 64
      → decode_type tag rest ≡ some t
      → decode body ≡ some (record { lsn = lsn; txn_id = txn; prev_lsn = prev; record_type = t })
  unfolding decode
  decode-body t hl ht hp d =
      let second : read_le 8 8 body ≡ txn =
        read_le-skip 8 lsn 8 0 8 _ refl ∙ read_le-here 8 txn _ ht in
      let third : read_le 8 16 body ≡ prev =
        read_le-skip 8 lsn 8 8 16 _ refl
        ∙ read_le-skip 8 txn 8 0 8 _ refl
        ∙ read_le-here 8 prev _ hp in
      rw (body_long, body_tag, body_rest, d, read_le-here 8 lsn _ hl, second, third)

-- For every record type, decode gives back the record whose bytes encode wrote, when the fields fit
-- their widths and the tables of a checkpoint have one entry for each key.
pub decode-encode : (r : WalRecord) → Encodable r → decode (encode r) ≡ some r
unfolding encode
decode-encode r h =
    let (tag, rest, e, d) = type-RoundTrip r.record_type h.type_fits in
    rw e (
      decode-body r.lsn r.txn_id r.prev_lsn tag rest r.record_type h.lsn_fits h.txn_id_fits
        h.prev_lsn_fits d)
