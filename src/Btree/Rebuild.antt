-- ===== src/Btree/Rebuild.antt =====
-- src/btree.rs: what a page holds after its entries were inserted again.
use ccdb.Btree.Node.{insert_all}
use ccdb.Prelude.{
  ℕ, List, ◌<◌, ◌≤◌, ◌∷◌, ◌⊎◌, ◌≡◌, ◌-◌, length, ◌+◌, arith, [], ◌≢◌, ◌∙◌, some, inl, subst, refl,
}
use ccdb.Prelude.Bytes.{Bytes, splice, put, length-le_bytes}
use ccdb.Page.{
  place, insert, get_tuple, tuple_count, free_space, free_space_offset, write_int, write_slot,
  slot_pos,
}
use ccdb.Page.Valid.{IsValid, place-count, place-offset, Fits}
use ccdb.Page.Insert.{place-get_new, place-get_old, place-IsValid}

-- The bytes of the header that `insert` leaves alone.
abbrev pub IsFixed : ℕ → Type 0
IsFixed j = (j < 8) ⊎ ((12 ≤ j) × (j < 22))

pub write_int-byte :
    (w : ℕ) (b : Bytes) (p n j : ℕ) → (j < p) ⊎ (p + w ≤ j) → write_int w b p n j ≡ b j
unfolding write_int splice
write_int-byte w b p n j h = ground (arith, h, length-le_bytes w n)

splice-byte : (b : Bytes) (p j : ℕ) (bs : List ℕ) → j < p → splice b p bs j ≡ b j
unfolding splice
splice-byte b p j bs h = ground arith

put-byte : (b : Bytes) (p v j : ℕ) → p ≢ j → put b p v j ≡ b j
unfolding put
put-byte b p v j ne = ground arith

place-byte :
    (b : Bytes) (bytes : List ℕ) (j : ℕ)
    → IsFixed j
    → 24 ≤ free_space_offset b - length bytes
    → place b bytes j ≡ b j
unfolding place write_slot
place-byte b bytes j h room =
    put-byte _ 22 _ j (λ e. ground (arith, h))
    ∙ write_int-byte 2 _ 10 _ j (ground (arith, h))
    ∙ write_int-byte 2 _ 8 _ j (ground (arith, h))
    ∙ write_int-byte 2 _ (slot_pos (tuple_count b) + 2) _ j (inl (ground (arith, h)))
    ∙ write_int-byte 2 _ (slot_pos (tuple_count b)) _ j (inl (ground (arith, h)))
    ∙ splice-byte b (free_space_offset b - length bytes) j bytes (ground (arith, h))

-- What inserting the entries takes of the free space.
unfoldable pub needed : List (List ℕ) → ℕ
needed [] = 0
needed (raw ∷ raws) = length raw + 4 + needed raws

insert-place :
    (p : Bytes) (raw : List ℕ) → Fits p raw → insert p raw ≡ some (tuple_count p, place p raw)
unfolding insert
insert-place p raw fits = ground (arith, fits)

abbrev pub NotEmpty : List (List ℕ) → Type 0
NotEmpty [] = Unit
NotEmpty (raw ∷ raws) = (length raw ≢ 0) × NotEmpty raws

-- The entries are in the slots from `slot` on.
abbrev pub RawsAt : Bytes → ℕ → List (List ℕ) → Type 0
RawsAt p slot [] = Unit
RawsAt p slot (raw ∷ raws) = (get_tuple p slot ≡ some raw) × RawsAt p (slot + 1) raws

-- A page `q` that came from `p` by inserting `raws`.
pub record Appended (p q : Bytes) (raws : List (List ℕ)) : Type 0 where
  pub count : tuple_count q ≡ tuple_count p + length raws
  pub stored : RawsAt q (tuple_count p) raws
  pub kept : (s : ℕ) → s < tuple_count p → get_tuple q s ≡ get_tuple p s
  pub valid : IsValid q
  pub space : free_space q + needed raws ≡ free_space p
  pub header : (j : ℕ) → IsFixed j → q j ≡ p j

pub insert_all-Appended :
    (raws : List (List ℕ)) (p : Bytes)
    → IsValid p
    → NotEmpty raws
    → needed raws ≤ free_space p
    → (q : Bytes) × (insert_all raws p ≡ some q) × Appended p q raws
unfolding insert_all needed
insert_all-Appended [] p v ne room = (
  p,
  refl,
  record {
    count = omega arith;
    stored = tt;
    kept = λ s h. refl;
    valid = v;
    space = omega arith;
    header = λ j h. refl;
  },
)
insert_all-Appended (raw ∷ raws) p v ne room =
    let fits : Fits p raw = omega (arith, v.room, room) in
    let next = place p raw in
    let count = place-count p raw v fits in
    let off = place-offset p raw v fits in
    let done : insert p raw ≡ some (tuple_count p, next) = insert-place p raw fits in
    let (q, e, a) =
      insert_all-Appended raws next (place-IsValid p raw v fits) ne.1
        (omega (arith, count, off, room, v.room)) in
    (
      q,
      ground (arith, done, e),
      record {
        count = omega (arith, a.count, count);
        stored = (
          a.kept (tuple_count p) (omega (arith, count)) ∙ place-get_new p raw v fits ne.0,
          subst (λ n. RawsAt q n raws) count a.stored,
        );
        kept = λ s h. a.kept s (omega (arith, count)) ∙ place-get_old p raw v fits s h;
        valid = a.valid;
        space = omega (arith, a.space, count, off, room, v.room);
        header = λ j h. a.header j h ∙ place-byte p raw j h (omega (arith, room, v.room));
      },
    )
