-- ===== src/Wal/Tests.antt =====
-- src/wal.rs: the codec and the framing on concrete records.
use ccdb.Prelude.Bytes.{le_bytes}
use ccdb.Prelude.Map.{lookup}
use ccdb.Wal.{
  WalRecord, insert, checkpoint, commit, encode, decode, read_records, encode_type, encode_rid,
}
use ccdb.Wal.Codec.{Encodable, decode-encode}
use ccdb.Wal.Frames.{IsStorable, frames, torn_frame, read_records-frames, read_records-torn}
use ccdb.Prelude.{◌≡◌, [], ◌∷◌, some, none, arith, refl}

abbrev inserted : WalRecord
inserted = record {
  lsn = 2;
  txn_id = 7;
  prev_lsn = 1;
  record_type = insert (3, 4) (104 ∷ 105 ∷ []);
}

abbrev committed : WalRecord
committed = record { lsn = 3; txn_id = 7; prev_lsn = 2; record_type = commit }

abbrev snapshot_taken : WalRecord
snapshot_taken = record {
  lsn = 9;
  txn_id = 0;
  prev_lsn = 0;
  record_type = checkpoint ((7, 3) ∷ (8, 5) ∷ []) ((3, 2) ∷ []);
}

inserted-IsStorable : IsStorable inserted
unfolding encode encode_type encode_rid le_bytes
inserted-IsStorable = record {
  fields = record {
    lsn_fits = omega arith;
    txn_id_fits = omega arith;
    prev_lsn_fits = omega arith;
    type_fits = (omega arith, omega arith);
  };
  short = omega arith;
}

committed-IsStorable : IsStorable committed
unfolding encode encode_type le_bytes
committed-IsStorable = record {
  fields = record {
    lsn_fits = omega arith;
    txn_id_fits = omega arith;
    prev_lsn_fits = omega arith;
    type_fits = tt;
  };
  short = omega arith;
}

snapshot_taken-Encodable : Encodable snapshot_taken
unfolding lookup
snapshot_taken-Encodable = record {
  lsn_fits = omega arith;
  txn_id_fits = omega arith;
  prev_lsn_fits = omega arith;
  type_fits = (
    ((omega arith, omega arith, (omega arith, omega arith, tt)), (refl, (refl, tt)), omega arith),
    ((omega arith, omega arith, tt), (refl, tt), omega arith),
  );
}

decode-encode_example : decode (encode snapshot_taken) ≡ some snapshot_taken
decode-encode_example = decode-encode snapshot_taken snapshot_taken-Encodable

read_records-frames_example :
    read_records (frames (inserted ∷ committed ∷ []) (18 ∷ 0 ∷ []))
    ≡ some (inserted ∷ committed ∷ [])
read_records-frames_example =
    read_records-frames (inserted ∷ committed ∷ []) (18 ∷ 0 ∷ [])
      (inserted-IsStorable, (committed-IsStorable, tt)) (omega arith)

-- The commit record is torn: the record before it is not read either.
read_records-torn_example : read_records (frames (inserted ∷ []) (torn_frame committed 3)) ≡ none
unfolding encode encode_type le_bytes
read_records-torn_example =
    read_records-torn (inserted ∷ []) committed 3 (inserted-IsStorable, tt) committed-IsStorable
      (omega arith)
