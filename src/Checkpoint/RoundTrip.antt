-- ===== src/Checkpoint/RoundTrip.antt =====
-- src/checkpoint.rs: what is read after the file was written or deleted.
use ccdb.Prelude.Bytes.{le_bytes, length-le_bytes}
use ccdb.Prelude.Cursor.{read_le-here, read_le, read_le-skip, read_le-whole, length-le_bytes_append}
use ccdb.Prelude.{◌<◌, ◌^◌, ◌≡◌, some, ◌++◌, ◌∙◌, arith, refl}
use ccdb.Checkpoint.{read_meta, write_meta, MetaFile, CheckpointMeta}

-- What was written over any file is read back, when both numbers are `u64`.
pub read_meta-write_meta :
    (file : MetaFile) (meta : CheckpointMeta)
    → meta.lsn < 2 ^ 64
    → meta.next_txn_id < 2 ^ 64
    → read_meta (write_meta file meta) ≡ some meta
unfolding read_meta write_meta
read_meta-write_meta file meta h k =
    let first = read_le-here 8 meta.lsn (le_bytes 8 meta.next_txn_id) h in
    let second : read_le 8 8 (le_bytes 8 meta.lsn ++ le_bytes 8 meta.next_txn_id)
        ≡ meta.next_txn_id =
      read_le-skip 8 meta.lsn 8 0 8 _ refl ∙ read_le-whole 8 meta.next_txn_id k in
    ground (
      arith,
      first,
      second,
      length-le_bytes_append 8 meta.lsn (le_bytes 8 meta.next_txn_id),
      length-le_bytes 8 meta.next_txn_id,
    )
