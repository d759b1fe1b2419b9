-- ===== src/Page/Insert.antt =====
-- src/page.rs: `insert` followed by `get_tuple`.
use ccdb.Prelude.Bytes.{Bytes, slice}
use ccdb.Prelude.{
  ℕ, ◌-◌, ◌<◌, ◌≡◌, ◌≢◌, inl, inr, List, some, none, length, arith, ap, ◌∙◌, ltb, Bool-cases, ◌==◌,
  sym, ◌⊎◌,
}
use ccdb.Page.{insert, get_tuple, place, read_slot, tuple_count, free_space_offset}
use ccdb.Page.Fields.{Apart}
use ccdb.Page.Valid.{
  IsValid, Fits, place-count, place-offset, place-old, place-bytes, place-slot, place-slot_old,
}

-- What `get_tuple` reads at a slot that is in range.
pub get_tuple-live :
    (b : Bytes) (s : ℕ)
    → s < tuple_count b
    → (read_slot b s).1 ≢ 0
    → get_tuple b s ≡ some (slice b (read_slot b s).0 (read_slot b s).1)
unfolding get_tuple
get_tuple-live b s h l = ground (arith, h, l)

pub get_tuple-dead : (b : Bytes) (s : ℕ) → (read_slot b s).1 ≡ 0 → get_tuple b s ≡ none
unfolding get_tuple
get_tuple-dead b s h = ground (arith, h)

-- The same slot with the same bytes behind it gives the same tuple.
pub get_tuple-same :
    (b c : Bytes) (s : ℕ)
    → s < tuple_count b
    → s < tuple_count c
    → read_slot c s ≡ read_slot b s
    → ((read_slot b s).1 ≢ 0
        → slice c (read_slot b s).0 (read_slot b s).1 ≡ slice b (read_slot b s).0 (read_slot b s).1)
    → get_tuple c s ≡ get_tuple b s
get_tuple-same b c s hb hc e h = elim (Bool-cases ((read_slot b s).1 == 0)) [
  | inl y ↦
      let dead : (read_slot b s).1 ≡ 0 = ground (arith, y) in
      get_tuple-dead c s (ap (λ (x : ℕ × ℕ). x.1) e ∙ dead) ∙ sym (get_tuple-dead b s dead)
  | inr n ↦
      let live : (read_slot b s).1 ≢ 0 = ground (arith, n) in
      get_tuple-live c s hc (rw e live) ∙ rw e (ap some (h live)) ∙ sym (get_tuple-live b s hb live)
]

module _ (b : Bytes) (bytes : List ℕ) (v : IsValid b) (fits : Fits b bytes) where
  pub place-get_old : (s : ℕ) → s < tuple_count b → get_tuple (place b bytes) s ≡ get_tuple b s
  place-get_old s h =
      get_tuple-same b (place b bytes) s h (omega (arith, h, place-count b bytes v fits))
        (place-slot_old b bytes v fits s h)
        (λ live. place-old b bytes v fits _ _ (v.inside s h live).0)

  pub place-get_new : length bytes ≢ 0 → get_tuple (place b bytes) (tuple_count b) ≡ some bytes
  place-get_new ne =
      let slot = place-slot b bytes v fits in
      get_tuple-live (place b bytes) (tuple_count b) (omega (arith, place-count b bytes v fits))
        (rw slot ne)
      ∙ rw slot (ap some (place-bytes b bytes v fits))

  -- The slots of the new page: those that were there, and the new one.
  new_slot :
      (s : ℕ)
      → s < tuple_count (place b bytes)
      → (s < tuple_count b) × (read_slot (place b bytes) s ≡ read_slot b s)
        ⊎ (s ≡ tuple_count b)
          × (read_slot (place b bytes) s ≡ (free_space_offset b - length bytes, length bytes))
  new_slot s h = elim (Bool-cases (ltb s (tuple_count b))) [
    | inl y ↦ inl (ground (arith, y), place-slot_old b bytes v fits s (ground (arith, y)))
    | inr n ↦
        let last : s ≡ tuple_count b = ground (arith, n, h, place-count b bytes v fits) in
        inr (last, ap (read_slot (place b bytes)) last ∙ place-slot b bytes v fits)
  ]

  place_disjoint :
      (s t : ℕ)
      → s < tuple_count (place b bytes)
      → t < tuple_count (place b bytes)
      → s ≢ t
      → (read_slot (place b bytes) s).1 ≢ 0
      → (read_slot (place b bytes) t).1 ≢ 0
      → Apart
          (read_slot (place b bytes) s).0
          (read_slot (place b bytes) s).1
          (read_slot (place b bytes) t).0
          (read_slot (place b bytes) t).1
  place_disjoint s t hs ht ne ls lt = elim (new_slot s hs) [
    | inl (s_old, es) ↦ elim (new_slot t ht) [
      | inl (t_old, et) ↦ rw (es, et) (v.disjoint s t s_old t_old ne (rw es at ls) (rw et at lt))
      | inr (_, et) ↦ rw (es, et) (inr (omega (arith, fits, v.inside s s_old (rw es at ls))))
    ]
    | inr (s_new, es) ↦ elim (new_slot t ht) [
      | inl (t_old, et) ↦ rw (es, et) (inl (omega (arith, fits, v.inside t t_old (rw et at lt))))
      | inr (t_new, _) ↦ absurd (ne (s_new ∙ sym t_new))
    ]
  ]

  pub place-IsValid : IsValid (place b bytes)
  place-IsValid =
      let count = place-count b bytes v fits in
      let off = place-offset b bytes v fits in
      record {
        room = omega (arith, count, off, fits);
        top = omega (arith, off, v.top);
        inside = λ s h live. elim (new_slot s h) [
          | inl (lt, e) ↦ rw (e, off) (ground (arith, v.inside s lt (rw e at live)))
          | inr (_, e) ↦ rw (e, off) (omega (arith, fits, v.top))
        ];
        disjoint = place_disjoint;
      }

  -- On a well-formed page with room for it, a tuple that is not empty is inserted: the next slot
  -- reads as the tuple, every other slot reads as before, and the page is well formed.
  pub insert-get :
      length bytes ≢ 0
      → (c : Bytes) × (insert b bytes ≡ some (tuple_count b, c))
        × (get_tuple c (tuple_count b) ≡ some bytes)
        × ((s : ℕ) → s < tuple_count b → get_tuple c s ≡ get_tuple b s)
        × IsValid c
  unfolding insert
  insert-get ne =
      (place b bytes, ground (arith, fits), place-get_new ne, place-get_old, place-IsValid)
