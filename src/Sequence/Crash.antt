-- ===== src/Sequence/Crash.antt =====
-- src/sequence.rs and the redo of src/recovery.rs: what a sequence hands out after a crash, and after
-- `setval`.
use ccdb.Prelude.Bytes.{Bytes, splice, le_bytes}
use ccdb.Prelude.Int.{ℤ, pos, IsI64, ◌+ℤ◌, pos_part, negsuc}
use ccdb.Page.{page_lsn, set_page_lsn, write_int}
use ccdb.Page.Fields.{read_int-write_int_self, read_int-write_int}
use ccdb.Sequence.{
  SequenceState, read_state, write_state, is_sequence, next_value, reserved_to, reserve, checked,
  nextval, setval, redo_seq_advance, seq_log_vals,
}
use ccdb.Sequence.State.{is_sequence-write_state, page_lsn-write_state, read_state-write_state}
use ccdb.Prelude.{ℕ, ◌<◌, ◌^◌, ◌≡◌, Option, some, true, false, leb, arith, refl, ap, ◌∙◌, inr}

is_sequence-set_page_lsn : (b : Bytes) (lsn : ℕ) → is_sequence (set_page_lsn b lsn) ≡ is_sequence b
unfolding write_int splice le_bytes
is_sequence-set_page_lsn b lsn = refl

flag-set_page_lsn : (b : Bytes) (lsn : ℕ) → set_page_lsn b lsn 36 ≡ b 36
unfolding write_int splice le_bytes
flag-set_page_lsn b lsn = refl

read_state-set_page_lsn : (b : Bytes) (lsn : ℕ) → read_state (set_page_lsn b lsn) ≡ read_state b
unfolding read_state
read_state-set_page_lsn b lsn = rw (
  read_int-write_int 8 8 b 12 24 lsn (inr (omega arith)),
  read_int-write_int 4 8 b 12 32 lsn (inr (omega arith)),
  flag-set_page_lsn b lsn,
)

-- The page after a `nextval` that logged its advance.
abbrev pub logged : Bytes → ℕ → ℤ → Bytes
logged b lsn v =
    write_state (set_page_lsn b lsn)
      (record { last_value = v; log_cnt = seq_log_vals; is_called = true })

module _ (append : ℤ → Option ℕ) (start_value increment : ℤ) where
  -- What `nextval` does on a sequence's page, when there is a next value.
  nextval-some :
      (b c : Bytes) (v cnt : ℤ)
      → is_sequence b ≡ true
      → next_value start_value increment (read_state b) ≡ some v
      → reserve append b (read_state b) v increment ≡ some (c, cnt)
      → nextval append start_value increment b
        ≡ some (v, write_state c (record { last_value = v; log_cnt = cnt; is_called = true }))
  unfolding nextval
  nextval-some b c v cnt q n r = rw (q, n, r, nextval)

  reserve-logs :
      (b : Bytes) (s : SequenceState) (v : ℤ) (lsn : ℕ)
      → leb (pos_part s.log_cnt) 0 ≡ true
      → append (reserved_to v increment) ≡ some lsn
      → reserve append b s v increment ≡ some (set_page_lsn b lsn, seq_log_vals)
  unfolding reserve
  reserve-logs b s v lsn z a = rw (z, a, reserve)

  logged-state :
      (b : Bytes) (lsn : ℕ) (v : ℤ)
      → IsI64 v
      → read_state (logged b lsn v)
        ≡ record { last_value = v; log_cnt = seq_log_vals; is_called = true }
  logged-state b lsn v h =
      read_state-write_state _ _
        (record { value_fits = h; count_fits = (omega arith, omega arith) })

  logged-lsn : (b : Bytes) (lsn : ℕ) (v : ℤ) → lsn < 2 ^ 64 → page_lsn (logged b lsn v) ≡ lsn
  logged-lsn b lsn v h = page_lsn-write_state _ _ ∙ read_int-write_int_self 8 b 12 lsn h

  redo-skipped : (b : Bytes) (v : ℤ) (lsn : ℕ) → page_lsn b ≡ lsn → redo_seq_advance b v lsn ≡ b
  unfolding redo_seq_advance
  redo-skipped b v lsn e = ground (arith, e)

  -- When a nextval logs its advance and there is a value after its own, then if the page it leaves
  -- reaches the disk before a crash, redo leaves that page alone, and the value that the following
  -- nextval handed out before the crash is handed out again after it.
  pub nextval-repeats :
      (b : Bytes) (v w : ℤ) (lsn : ℕ)
      → is_sequence b ≡ true
      → next_value start_value increment (read_state b) ≡ some v
      → leb (pos_part (read_state b).log_cnt) 0 ≡ true
      → append (reserved_to v increment) ≡ some lsn
      → lsn < 2 ^ 64
      → IsI64 v
      → checked (v +ℤ increment) ≡ some w
      → let flushed = logged b lsn v in
        (c : Bytes) × (nextval append start_value increment b ≡ some (v, flushed))
        × (nextval append start_value increment flushed ≡ some (w, c))
        × (nextval append start_value increment
              (redo_seq_advance flushed (reserved_to v increment) lsn)
            ≡ some (w, c))
  unfolding reserve next_value
  nextval-repeats b v w lsn q n z a hl hv hw =
      let flushed = logged b lsn v in
      let q' : is_sequence flushed ≡ true =
        is_sequence-write_state _ _ ∙ is_sequence-set_page_lsn b lsn ∙ q in
      let state = logged-state b lsn v hv in
      let second =
        nextval-some flushed flushed w (seq_log_vals +ℤ negsuc 0) q'
          (ap (next_value start_value increment) state ∙ hw)
          (ap (λ s. reserve append flushed s w increment) state) in
      (
        _,
        nextval-some b (set_page_lsn b lsn) v seq_log_vals q n
            (reserve-logs b (read_state b) v lsn z a),
        second,
        rw (redo-skipped flushed (reserved_to v increment) lsn (logged-lsn b lsn v hl)) second,
      )

  -- On a sequence whose appends succeed, after setval with is_called = false the next value is the
  -- start value, whatever value was set.
  pub setval-forgets :
      (b : Bytes) (n : ℤ) (lsn lsn' : ℕ)
      → is_sequence b ≡ true
      → IsI64 n
      → append n ≡ some lsn
      → append (reserved_to start_value increment) ≡ some lsn'
      → (c d : Bytes) × (setval append b n false ≡ some (n, c))
        × (nextval append start_value increment c ≡ some (start_value, d))
  unfolding setval next_value
  setval-forgets b n lsn lsn' q h a a' =
      let s : SequenceState = record { last_value = n; log_cnt = pos 0; is_called = false } in
      let c = set_page_lsn (write_state b s) lsn in
      let state : read_state c ≡ s =
        read_state-set_page_lsn (write_state b s) lsn
        ∙ read_state-write_state b s
            (record { value_fits = h; count_fits = (omega arith, omega arith) }) in
      let kind : is_sequence c ≡ true =
        is_sequence-set_page_lsn (write_state b s) lsn ∙ is_sequence-write_state b s ∙ q in
      (
        c,
        _,
        rw (q, a),
        nextval-some c (set_page_lsn c lsn') start_value seq_log_vals kind
            (ap (next_value start_value increment) state)
            (ap (λ s. reserve append c s start_value increment) state
              ∙ reserve-logs c s start_value lsn' refl a'),
      )
