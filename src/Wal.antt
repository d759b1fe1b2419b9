-- ===== src/Wal.antt =====
-- src/wal.rs: the records of the write-ahead log, their bytes, and the framing of the file. A record
-- is a list of bytes; what the source panics on or reports as an error is `none`.
pub mod Frames
mod Tests
pub mod Checkpoint
pub mod Codec
pub mod Fields
use ccdb.Prelude.Eq.{nat_eq}
use ccdb.Prelude.Int.{ℤ, i64_bits, i64_of_bits}
use ccdb.Prelude.Bytes.{le_bytes}
use ccdb.Prelude.Cursor.{read_le}
use ccdb.Prelude.Map.{Map, insert as map_insert}
use ccdb.Prelude.{
  ℕ, zero, suc, ◌+◌, Bool, true, false, List, [], ◌∷◌, ◌++◌, Option, some, none, take, drop, length,
  get_or, ltb, ◌==◌, if◌then◌else◌,
}

-- `page::Rid`
abbrev pub Rid : Type 0
Rid = ℕ × ℕ

pub data ClrRedo : Type 0 where
  undo_insert : Rid → ClrRedo
  undo_delete : Rid → (old_xmax : ℕ) → ClrRedo

pub data WalRecordType : Type 0 where
  begin commit abort : WalRecordType
  insert : Rid → (bytes : List ℕ) → WalRecordType
  delete : Rid → (xmax : ℕ) → WalRecordType
  clr : (undo_next_lsn : ℕ) → ClrRedo → WalRecordType
  checkpoint : (att dpt : Map ℕ ℕ) → WalRecordType
  index_insert : (index_id : ℕ) → (key : List ℕ) → Rid → WalRecordType
  sequence_advance : (seq_page_id : ℕ) → (new_last_value : ℤ) → WalRecordType
  page_init : (page_id kind : ℕ) → WalRecordType

pub record WalRecord : Type 0 where
  pub lsn : ℕ
  pub txn_id : ℕ
  pub prev_lsn : ℕ
  pub record_type : WalRecordType

-- `pid.to_le_bytes()`, `slot.to_le_bytes()`, before the bytes that follow
unfoldable pub encode_rid : Rid → List ℕ → List ℕ
encode_rid (pid, slot) rest = le_bytes 4 pid ++ (le_bytes 2 slot ++ rest)

-- The loops over the entries of a checkpoint's tables; `w` is the width of a key.
unfoldable pub encode_entries : ℕ → Map ℕ ℕ → List ℕ → List ℕ
encode_entries w [] rest = rest
encode_entries w ((k, v) ∷ m) rest = le_bytes w k ++ (le_bytes 8 v ++ encode_entries w m rest)

unfoldable pub encode_redo : ClrRedo → List ℕ
encode_redo (undo_insert rid) = 0 ∷ encode_rid rid []
encode_redo (undo_delete rid old_xmax) = 1 ∷ encode_rid rid (le_bytes 8 old_xmax)

-- The tag and the payload.
unfoldable pub encode_type : WalRecordType → List ℕ
encode_type begin = 0 ∷ []
encode_type commit = 1 ∷ []
encode_type abort = 2 ∷ []
encode_type (insert rid bytes) = 3 ∷ encode_rid rid bytes
encode_type (delete rid xmax) = 4 ∷ encode_rid rid (le_bytes 8 xmax)
encode_type (clr undo_next_lsn redo) = 5 ∷ le_bytes 8 undo_next_lsn ++ encode_redo redo
encode_type (checkpoint att dpt) =
    6 ∷ le_bytes 4 (length att)
    ++ encode_entries 8 att (le_bytes 4 (length dpt) ++ encode_entries 4 dpt [])
encode_type (index_insert index_id key rid) =
    7 ∷ le_bytes 8 index_id ++ (le_bytes 4 (length key) ++ (key ++ encode_rid rid []))
encode_type (sequence_advance seq_page_id v) = 8 ∷ le_bytes 4 seq_page_id ++ le_bytes 8 (i64_bits v)
encode_type (page_init page_id kind) = 9 ∷ le_bytes 4 page_id ++ kind ∷ []

-- `WalRecord::encode`
unfoldable pub encode : WalRecord → List ℕ
encode r =
    le_bytes 8 r.lsn
    ++ (le_bytes 8 r.txn_id ++ (le_bytes 8 r.prev_lsn ++ encode_type r.record_type))

unfoldable pub read_rid : ℕ → List ℕ → Rid
read_rid p bs = (read_le 4 p bs, read_le 2 (p + 4) bs)

unfoldable pub decode_redo : ℕ → List ℕ → Option ClrRedo
decode_redo tag rest =
    if tag == 0
    then if ltb (length rest) 6 then none else some (undo_insert (read_rid 0 rest))
    else if tag == 1
    then if ltb (length rest) 14
      then none
      else some (undo_delete (read_rid 0 rest) (read_le 8 6 rest))
    else none

-- The loops of `decode` over a checkpoint's tables, which end at an offset.
unfoldable pub decode_entries : ℕ → ℕ → ℕ → List ℕ → Map ℕ ℕ → Option (ℕ × Map ℕ ℕ)
decode_entries w zero p rest m = some (p, m)
decode_entries w (suc n) p rest m = elim (ltb (length rest) (p + (w + 8))) [
  | true ↦ none
  | false ↦
      decode_entries w n (p + (w + 8)) rest
        (map_insert (read_le w p rest) (read_le 8 (p + w) rest) m)
]

unfoldable pub decode_dpt : Map ℕ ℕ → ℕ → List ℕ → Option WalRecordType
decode_dpt att p rest =
    if ltb (length rest) (p + 4)
    then none
    else elim (decode_entries 4 (read_le 4 p rest) (p + 4) rest []) [
      | none ↦ none
      | some (_, dpt) ↦ some (checkpoint att dpt)
    ]

unfoldable pub decode_checkpoint : List ℕ → Option WalRecordType
decode_checkpoint rest =
    if ltb (length rest) 4 then none else elim (decode_entries 8 (read_le 4 0 rest) 4 rest []) [
      | none ↦ none
      | some (p, att) ↦ decode_dpt att p rest
    ]

unfoldable pub decode_index_insert : List ℕ → Option WalRecordType
decode_index_insert rest =
    let klen = read_le 4 8 rest in
    if ltb (length rest) 12
    then none
    else if ltb (length rest) (12 + klen + 6)
    then none
    else some
        (index_insert (read_le 8 0 rest) (take klen (drop 12 rest)) (read_rid (12 + klen) rest))

unfoldable pub decode_clr : List ℕ → Option WalRecordType
decode_clr rest =
    if ltb (length rest) 9 then none else elim (decode_redo (get_or rest 8 0) (drop 9 rest)) [
      | none ↦ none
      | some redo ↦ some (clr (read_le 8 0 rest) redo)
    ]

-- The `match` on the tag.
unfoldable pub decode_type : ℕ → List ℕ → Option WalRecordType
decode_type tag rest =
    if tag == 0
    then some begin
    else if tag == 1
    then some commit
    else if tag == 2
    then some abort
    else if tag == 3
    then if ltb (length rest) 6 then none else some (insert (read_rid 0 rest) (drop 6 rest))
    else if tag == 4
    then if ltb (length rest) 14 then none else some (delete (read_rid 0 rest) (read_le 8 6 rest))
    else if tag == 5
    then decode_clr rest
    else if tag == 7
    then decode_index_insert rest
    else if tag == 8
    then if ltb (length rest) 12
      then none
      else some (sequence_advance (read_le 4 0 rest) (i64_of_bits (read_le 8 4 rest)))
    else if tag == 9
    then if ltb (length rest) 5 then none else some (page_init (read_le 4 0 rest) (get_or rest 4 0))
    else if tag == 6
    then decode_checkpoint rest
    else none

-- `WalRecord::decode`
unfoldable pub decode : List ℕ → Option WalRecord
decode body =
    if ltb (length body) 25 then none else elim (decode_type (get_or body 24 0) (drop 25 body)) [
      | none ↦ none
      | some t ↦ some (record {
        lsn = read_le 8 0 body;
        txn_id = read_le 8 8 body;
        prev_lsn = read_le 8 16 body;
        record_type = t;
      })
    ]

-- What `append` writes: the length, `as u32`, and the record.
unfoldable pub frame : WalRecord → List ℕ
frame r = le_bytes 4 (length (encode r)) ++ encode r

-- The loop of `read_records`, on `fuel`. A file that ends inside the four bytes of a length ends the
-- loop, one that ends inside a record is an error.
unfoldable pub read_loop : ℕ → List ℕ → Option (List WalRecord)
read_loop zero file = none
read_loop (suc fuel) file =
    let n = read_le 4 0 file in
    let rest = drop 4 file in
    elim (ltb (length file) 4) [
      | true ↦ some []
      | false ↦ elim (ltb (length rest) n) [
        | true ↦ none
        | false ↦ elim (decode (take n rest)) [
          | none ↦ none
          | some r ↦ elim (read_loop fuel (drop n rest)) [ none ↦ none | some rs ↦ some (r ∷ rs) ]
        ]
      ]
    ]

-- `read_records`: each round takes four bytes at least.
unfoldable pub read_records : List ℕ → Option (List WalRecord)
read_records file = read_loop (suc (length file)) file
