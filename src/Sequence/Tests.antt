-- ===== src/Sequence/Tests.antt =====
-- src/sequence.rs: the theorems on the page of a new sequence, which starts at 100 in steps of 5.
use ccdb.Prelude.Bytes.{Bytes, put, splice, slice, le_bytes, from_le}
use ccdb.Prelude.Int.{ℤ, pos, ◌+ℤ◌, i64_bits, i64_of_bits, i32_bits, i32_of_bits}
use ccdb.Page.{new, read_int, write_int}
use ccdb.Sequence.{
  SequenceState, read_state, write_state, init_sequence_page, is_sequence, nextval, setval,
  reserved_to, redo_seq_advance, checked, next_value,
}
use ccdb.Sequence.Crash.{logged, nextval-repeats, setval-forgets}
use ccdb.Prelude.{ℕ, ◌≡◌, Option, some, true, false, arith, refl}

abbrev fresh : Bytes
fresh = init_sequence_page (new 3)

-- Every append succeeds, with LSN 17.
abbrev append_ok : ℤ → Option ℕ
append_ok _ = some 17

abbrev called : SequenceState
called = record { last_value = pos 100; log_cnt = pos 32; is_called = true }

fresh-is_sequence : is_sequence fresh ≡ true
unfolding init_sequence_page write_state put write_int splice le_bytes i64_bits i32_bits
fresh-is_sequence = refl

fresh-read_state :
    read_state fresh ≡ record { last_value = pos 0; log_cnt = pos 0; is_called = false }
unfolding init_sequence_page write_state put write_int splice le_bytes i64_bits i32_bits read_state
    read_int slice from_le i64_of_bits i32_of_bits
fresh-read_state = refl

-- 100 is handed out, then 105; after a crash in between, 105 again.
nextval-repeats_example :
    (c : Bytes) × (nextval append_ok (pos 100) (pos 5) fresh
      ≡ some (pos 100, logged fresh 17 (pos 100)))
    × (nextval append_ok (pos 100) (pos 5) (logged fresh 17 (pos 100)) ≡ some (pos 105, c))
    × (nextval append_ok
          (pos 100)
          (pos 5)
          (redo_seq_advance (logged fresh 17 (pos 100)) (reserved_to (pos 100) (pos 5)) 17)
        ≡ some (pos 105, c))
unfolding next_value checked ◌+ℤ◌
nextval-repeats_example =
    nextval-repeats append_ok (pos 100) (pos 5) fresh (pos 100) (pos 105) 17 fresh-is_sequence
      (rw fresh-read_state) (rw fresh-read_state) refl (omega arith) (omega arith, omega arith) refl

setval-forgets_example :
    (c d : Bytes) × (setval append_ok fresh (pos 7) false ≡ some (pos 7, c))
    × (nextval append_ok (pos 100) (pos 5) c ≡ some (pos 100, d))
setval-forgets_example =
    setval-forgets append_ok (pos 100) (pos 5) fresh (pos 7) 17 17 fresh-is_sequence
      (omega arith, omega arith) refl refl
