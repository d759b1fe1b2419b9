-- ===== src/Sequence.antt =====
-- src/sequence.rs: the state of a sequence on its page, `nextval` and `setval`; and from
-- src/recovery.rs the redo of a `SequenceAdvance` record. Appending that record to the log is a
-- parameter, which gives the record's LSN or fails; that the page can be fetched is taken for granted.
pub mod State
pub mod Crash
mod Tests
use ccdb.Prelude.Bytes.{Bytes, put}
use ccdb.Prelude.Int.{
  ℤ, i32_bits, i32_of_bits, pos, negsuc, pos_part, neg_part, sub_ℕ, ◌+ℤ◌, ◌*ℤ◌, i64_bits,
  i64_of_bits,
}
use ccdb.Page.{
  PageKind, sequence_rel, heap, btree_leaf, btree_internal, read_int, write_int, page_id, page_kind,
  set_page_kind, page_lsn, set_page_lsn, new,
}
use ccdb.Prelude.{
  ℕ, ◌+◌, ◌^◌, Bool, true, false, not, ◌&&◌, Option, some, none, ltb, leb, ◌==◌, if◌then◌else◌, ◌-◌,
}

abbrev pub seq_log_vals : ℤ
seq_log_vals = pos 32

pub record SequenceState : Type 0 where
  pub last_value : ℤ
  pub log_cnt : ℤ
  pub is_called : Bool

unfoldable pub read_state : Bytes → SequenceState
read_state b = record {
  last_value = i64_of_bits (read_int 8 b 24);
  log_cnt = i32_of_bits (read_int 4 b 32);
  is_called = not (b 36 == 0);
}

unfoldable pub write_state : Bytes → SequenceState → Bytes
write_state b s =
    put (write_int 4 (write_int 8 b 24 (i64_bits s.last_value)) 32 (i32_bits s.log_cnt)) 36
      (if s.is_called then 1 else 0)

-- `init_sequence_page`
unfoldable pub init_sequence_page : Bytes → Bytes
init_sequence_page b =
    write_state (set_page_kind (new (page_id b)) sequence_rel)
      (record { last_value = pos 0; log_cnt = pos 0; is_called = false })

abbrev pub is_sequence : Bytes → Bool
is_sequence b = elim (page_kind b) [
  | sequence_rel ↦ true
  | heap ↦ false
  | btree_leaf ↦ false
  | btree_internal ↦ false
]

-- A result of `checked_add` or `checked_mul` on `i64`, from the exact one.
unfoldable pub checked : ℤ → Option ℤ
checked z = if ltb (pos_part z) (2 ^ 63) && leb (neg_part z) (2 ^ 63) then some z else none

-- `unwrap_or(i64::MAX)`
abbrev pub or_max : Option ℤ → ℤ
or_max (some z) = z
or_max none = pos (2 ^ 63 - 1)

unfoldable pub next_value : ℤ → ℤ → SequenceState → Option ℤ
next_value start_value increment s =
    if not s.is_called then some start_value else checked (s.last_value +ℤ increment)

-- The value that an advance record reserves up to.
unfoldable pub reserved_to : ℤ → ℤ → ℤ
reserved_to next increment = or_max (checked (next +ℤ or_max (checked (increment *ℤ seq_log_vals))))

module _ (append : ℤ → Option ℕ) where
  -- The step of `nextval` that logs, or takes one of the values reserved before.
  unfoldable pub reserve : Bytes → SequenceState → ℤ → ℤ → Option (Bytes × ℤ)
  reserve b s next increment =
      if leb (pos_part s.log_cnt) 0
      then elim (append (reserved_to next increment)) [
        | none ↦ none
        | some lsn ↦ some (set_page_lsn b lsn, seq_log_vals)
      ]
      else some (b, s.log_cnt +ℤ negsuc 0)

  unfoldable pub nextval : ℤ → ℤ → Bytes → Option (ℤ × Bytes)
  nextval start_value increment b =
      let s = read_state b in
      if not (is_sequence b) then none else elim (next_value start_value increment s) [
        | none ↦ none
        | some next ↦ elim (reserve b s next increment) [
          | none ↦ none
          | some (b', cnt) ↦
              some (
                next,
                write_state b' (record { last_value = next; log_cnt = cnt; is_called = true }),
              )
        ]
      ]

  unfoldable pub setval : Bytes → ℤ → Bool → Option (ℤ × Bytes)
  setval b new_value is_called = if not (is_sequence b) then none else elim (append new_value) [
    | none ↦ none
    | some lsn ↦ some (
      new_value,
      set_page_lsn
          (write_state b
            (record { last_value = new_value; log_cnt = pos 0; is_called = is_called }))
          lsn,
    )
  ]

-- `recovery::redo_seq_advance`, on a page that is allocated
unfoldable pub redo_seq_advance : Bytes → ℤ → ℕ → Bytes
redo_seq_advance b new_last_value record_lsn =
    let p = if is_sequence b then b else init_sequence_page b in
    if leb record_lsn (page_lsn b)
    then b
    else set_page_lsn
        (write_state p (record { last_value = new_last_value; log_cnt = pos 0; is_called = true }))
        record_lsn
