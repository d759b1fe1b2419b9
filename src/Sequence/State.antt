-- ===== src/Sequence/State.antt =====
-- src/sequence.rs: the state is read back from the page, and the rest of the header stays.
use ccdb.Prelude.Bytes.{Bytes, put, splice}
use ccdb.Prelude.Int.{
  IsI64, IsI32, i64_bits, i32_bits, i64_of_bits-i64_bits, i32_of_bits-i32_bits, i64_bits-lt,
  i32_bits-lt,
}
use ccdb.Page.{read_int, write_int, page_lsn}
use ccdb.Page.Fields.{read_int-put, read_int-write_int, read_int-write_int_self}
use ccdb.Sequence.{SequenceState, read_state, write_state, is_sequence}
use ccdb.Prelude.{◌≡◌, inl, not, ◌==◌, arith, refl, ◌∙◌}

-- The values of the state fit their types.
pub record IsState (s : SequenceState) : Type 0 where
  pub value_fits : IsI64 s.last_value
  pub count_fits : IsI32 s.log_cnt

module _ (b : Bytes) (s : SequenceState) where
  value-write_state :
      read_int 8 (write_state b s) 24 ≡ read_int 8 (write_int 8 b 24 (i64_bits s.last_value)) 24
  unfolding write_state
  value-write_state =
      read_int-put 8 _ 36 _ 24 (inl (omega arith))
      ∙ read_int-write_int 8 4 _ 32 24 (i32_bits s.log_cnt) (inl (omega arith))

  count-write_state :
      read_int 4 (write_state b s) 32
      ≡ read_int 4
          (write_int 4 (write_int 8 b 24 (i64_bits s.last_value)) 32 (i32_bits s.log_cnt))
          32
  unfolding write_state
  count-write_state = read_int-put 4 _ 36 _ 32 (inl (omega arith))

  flag-write_state : not (write_state b s 36 == 0) ≡ s.is_called
  unfolding write_state put
  flag-write_state = ground arith

  pub is_sequence-write_state : is_sequence (write_state b s) ≡ is_sequence b
  unfolding write_state put write_int splice
  is_sequence-write_state = refl

  pub page_lsn-write_state : page_lsn (write_state b s) ≡ page_lsn b
  unfolding write_state
  page_lsn-write_state =
      read_int-put 8 _ 36 _ 12 (inl (omega arith))
      ∙ read_int-write_int 8 4 _ 32 12 (i32_bits s.log_cnt) (inl (omega arith))
      ∙ read_int-write_int 8 8 b 24 12 (i64_bits s.last_value) (inl (omega arith))

  -- read_state finds the state that write_state stored on a page, when its values fit their types.
  pub read_state-write_state : IsState s → read_state (write_state b s) ≡ s
  unfolding read_state
  read_state-write_state h = rw (
    value-write_state,
    count-write_state,
    flag-write_state,
    read_int-write_int_self 8 b 24 (i64_bits s.last_value) (i64_bits-lt s.last_value h.value_fits),
    read_int-write_int_self 4 (write_int 8 b 24 (i64_bits s.last_value)) 32 (i32_bits s.log_cnt)
        (i32_bits-lt s.log_cnt h.count_fits),
    i64_of_bits-i64_bits s.last_value h.value_fits,
    i32_of_bits-i32_bits s.log_cnt h.count_fits,
  )
