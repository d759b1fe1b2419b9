-- ===== src/Btree/Sorted.antt =====
-- src/btree.rs: a sorted leaf stays sorted when an entry is put into it.
use ccdb.Btree.Rebuild.{needed}
use ccdb.Btree.Codec.{decode_leaf_entry-encode_leaf_entry}
use ccdb.Wal.Fields.{IsRid}
use ccdb.Btree.Entry.{decode_internal_entry_or_leaf_key, encode_leaf_entry}
use ccdb.Btree.Leaf.{Fitting, Sorted, HoldsFrom, Below, matching, matching-Below}
use ccdb.Prelude.Bytes.{Bytes}
use ccdb.Btree.Node.{key_at, merge_from, insert_sorted, merge_entry, fits, reset_page}
use ccdb.Btree.Order.{KeyOrder}
use ccdb.Btree.Key.{Ordering, less, greater, Ordering-cases, equal, less-or_not}
use ccdb.Prelude.{
  List, ℕ, Option, ◌∷◌, some, ◌≡◌, ◌≢◌, [], none, inl, length, true, false, inr, ◌<◌, arith, ◌+◌,
  ◌^◌, refl, ◌∙◌, ap, sym, ◌++◌, ◌≤◌, leb→le,
}
use ccdb.Page.{page_kind, btree_leaf, next_page_id, page_id, page_lsn, free_space, get_tuple}
use ccdb.Wal.{Rid}
use ccdb.Btree.Insertion.{LeafNode, encoded, rebuilt-LeafNode}

-- The entries with the new one before the first greater key.
unfoldable pub place_entry :
    (List ℕ → List ℕ → Option Ordering) → List ℕ → Rid → List (List ℕ × Rid) → List (List ℕ × Rid)
place_entry compare key rid [] = (key, rid) ∷ []
place_entry compare key rid ((k, r) ∷ es) =
    let later = (k, r) ∷ place_entry compare key rid es in
    elim (compare key k) [
      | some less ↦ (key, rid) ∷ (k, r) ∷ es
      | some equal ↦ later
      | some greater ↦ later
      | none ↦ later
    ]

module _ (compare : List ℕ → List ℕ → Option Ordering) (key : List ℕ) (rid : Rid) (k : List ℕ)
    (r : Rid) (es : List (List ℕ × Rid)) where
  pub place_before :
      compare key k ≡ some less
      → place_entry compare key rid ((k, r) ∷ es) ≡ (key, rid) ∷ (k, r) ∷ es
  unfolding place_entry
  place_before e = ground (arith, e)

  pub place_after :
      compare key k ≢ some less
      → place_entry compare key rid ((k, r) ∷ es) ≡ (k, r) ∷ place_entry compare key rid es
  unfolding place_entry
  place_after ne = ground (arith, ne)

some_injective : {a b : Ordering} → some a ≡ some b → a ≡ b
some_injective e = ap (λ o. elim o [ none ↦ less | some a ↦ a ]) e

module _ {compare : List ℕ → List ℕ → Option Ordering} {IsKey : List ℕ → Type 0}
    (order : KeyOrder compare IsKey) where
  key_at-HoldsFrom :
      (p : Bytes) (slot : ℕ) (key : List ℕ) (rid : Rid)
      → page_kind p ≡ btree_leaf
      → get_tuple p slot ≡ some (encode_leaf_entry key rid)
      → length key < 2 ^ 16
      → IsRid rid
      → key_at p slot ≡ some (key, encode_leaf_entry key rid)
  unfolding key_at decode_internal_entry_or_leaf_key
  key_at-HoldsFrom p slot key rid kind e h hr =
      ground (arith, kind, e, decode_leaf_entry-encode_leaf_entry key rid h hr)

  module _ (p : Bytes) (leaf : page_kind p ≡ btree_leaf) (key : List ℕ) (rid : Rid)
      (is_key : IsKey key) where
    merge_from-copies :
        (slot : ℕ) (es : List (List ℕ × Rid))
        → HoldsFrom p slot es
        → Fitting IsKey es
        → merge_from compare p key (encode_leaf_entry key rid) true slot (length es)
          ≡ some (encoded es)
    unfolding merge_from
    merge_from-copies slot [] h f = refl
    merge_from-copies slot ((k, r) ∷ es) h f = ground (
      arith,
      key_at-HoldsFrom p slot k r leaf h.0 f.0.1 f.0.2,
      merge_from-copies (slot + 1) es h.1 f.1,
    )

    merge_from-places :
        (slot : ℕ) (es : List (List ℕ × Rid))
        → HoldsFrom p slot es
        → Fitting IsKey es
        → merge_from compare p key (encode_leaf_entry key rid) false slot (length es)
          ≡ some (encoded (place_entry compare key rid es))
    unfolding merge_from place_entry
    merge_from-places slot [] h f = refl
    merge_from-places slot ((k, r) ∷ es) h f =
        let entry = key_at-HoldsFrom p slot k r leaf h.0 f.0.1 f.0.2 in
        let answered = order.compares key k is_key f.0.0 in
        let copies = merge_from-copies (slot + 1) es h.1 f.1 in
        let places = merge_from-places (slot + 1) es h.1 f.1 in
        elim (Ordering-cases (order.answer key k)) [
          | inl e ↦ ground (arith, entry, answered, e, copies)
          | inr (inl e) ↦ ground (arith, entry, answered, e, places)
          | inr (inr e) ↦ ground (arith, entry, answered, e, places)
        ]

  Below-le :
      (key k : List ℕ) (es : List (List ℕ × Rid))
      → order.answer key k ≡ less
      → Below order k es
      → Below order key es
  Below-le key k [] e b = tt
  Below-le key k ((k', r) ∷ es) e b = (order.less_trans key k k' e b.0, Below-le key k es e b.1)

  Below-place_entry :
      (low key : List ℕ) (rid : Rid) (es : List (List ℕ × Rid))
      → order.answer low key ≢ greater
      → Below order low es
      → Below order low (place_entry compare key rid es)
  unfolding place_entry
  Below-place_entry low key rid [] h b = (h, tt)
  Below-place_entry low key rid ((k, r) ∷ es) h b = elim (less-or_not (compare key k)) [
    | inl e ↦ rw (place_before compare key rid k r es e) (h, b)
    | inr ne ↦
        rw (place_after compare key rid k r es ne) (b.0, Below-place_entry low key rid es h b.1)
  ]

  place_entry-Sorted :
      (key : List ℕ) (rid : Rid) (es : List (List ℕ × Rid))
      → IsKey key
      → Fitting IsKey es
      → Sorted order es
      → Sorted order (place_entry compare key rid es)
  unfolding place_entry
  place_entry-Sorted key rid [] k f s = (tt, tt)
  place_entry-Sorted key rid ((k, r) ∷ es) is_key f s =
      let answered = order.compares key k is_key f.0.0 in
      elim (Ordering-cases (order.answer key k)) [
        | inl e ↦
            rw (place_before compare key rid k r es (answered ∙ ap some e))
              (((λ g. cc (e, g)), Below-le key k es e s.0), s)
        | inr other ↦
            let ne : order.answer key k ≢ less = λ e. ground (arith, other, e) in
            let later : compare key k ≢ some less = λ e. ne (some_injective (sym answered ∙ e)) in
            rw (place_after compare key rid k r es later) (
              Below-place_entry k key rid es (order.flips key k ne) s.0,
              place_entry-Sorted key rid es is_key f.1 s.1,
            )
      ]

  -- The entries of `es` with the new one between two parts of them.
  place_entry-split :
      (key : List ℕ) (rid : Rid) (es : List (List ℕ × Rid))
      → (before after : List (List ℕ × Rid)) × (es ≡ before ++ after)
        × (place_entry compare key rid es ≡ before ++ (key, rid) ∷ after)
  unfolding place_entry
  place_entry-split key rid [] = ([], [], refl, refl)
  place_entry-split key rid ((k, r) ∷ es) = elim (less-or_not (compare key k)) [
    | inl e ↦ ([], (k, r) ∷ es, refl, place_before compare key rid k r es e)
    | inr ne ↦
        let (before, after, parts, placed) = place_entry-split key rid es in
        (
          (k, r) ∷ before,
          after,
          ap (◌∷◌ (k, r)) parts,
          place_after compare key rid k r es ne ∙ ap (◌∷◌ (k, r)) placed,
        )
  ]

  needed-place_entry :
      (key : List ℕ) (rid : Rid) (es : List (List ℕ × Rid))
      → needed (encoded (place_entry compare key rid es))
        ≡ length (encode_leaf_entry key rid) + 4 + needed (encoded es)
  unfolding place_entry needed
  needed-place_entry key rid [] = refl
  needed-place_entry key rid ((k, r) ∷ es) = elim (less-or_not (compare key k)) [
    | inl e ↦ rw (place_before compare key rid k r es e) refl
    | inr ne ↦
        rw (place_after compare key rid k r es ne) (omega (arith, needed-place_entry key rid es))
  ]

  -- Inserting an entry into a sorted leaf that fits has room for it succeeds: the new page is a
  -- leaf that holds the entries with the new one put in at one place, in sorted order, packed, with
  -- the same next page.
  pub insert_sorted-LeafNode :
      (p : Bytes) (es : List (List ℕ × Rid)) (key : List ℕ) (rid : Rid)
      → LeafNode p es
      → Fitting IsKey es
      → Sorted order es
      → IsKey key
      → next_page_id p < 2 ^ 32
      → fits p (length (encode_leaf_entry key rid)) ≡ true
      → (q : Bytes) × (insert_sorted compare p key (encode_leaf_entry key rid) ≡ some q)
        × LeafNode q (place_entry compare key rid es)
        × ((before after : List (List ℕ × Rid)) × (es ≡ before ++ after)
            × (place_entry compare key rid es ≡ before ++ (key, rid) ∷ after))
        × Sorted order (place_entry compare key rid es)
        × (next_page_id q ≡ next_page_id p)
  unfolding insert_sorted merge_entry fits reset_page
  insert_sorted-LeafNode p es key rid node f s is_key next room =
      let space = needed-place_entry key rid es in
      let enough : length (encode_leaf_entry key rid) + 4 ≤ free_space p = leb→le _ _ room in
      let merged = merge_from-places p node.kind key rid is_key 0 es node.stored f in
      let (q, e, node', same) =
        rebuilt-LeafNode (page_id p) (page_lsn p) (next_page_id p) (place_entry compare key rid es)
          next (omega (arith, space, node.packed, enough)) in
      (
        q,
        ground (arith, node.count, merged, node.kind, e),
        node',
        place_entry-split key rid es,
        place_entry-Sorted key rid es is_key f s,
        same,
      )

  pub matching-place_entry :
      (key : List ℕ) (rid : Rid) (es : List (List ℕ × Rid))
      → IsKey key
      → Fitting IsKey es
      → Sorted order es
      → matching compare key (place_entry compare key rid es) ≡ matching compare key es ++ rid ∷ []
  unfolding matching place_entry
  matching-place_entry key rid [] is_key f s =
      ground (arith, order.compares key key is_key is_key, order.same key)
  matching-place_entry key rid ((k, r) ∷ es) is_key f s =
      let self : compare key key ≡ some equal =
        order.compares key key is_key is_key ∙ ap some (order.same key) in
      let rest = matching-place_entry key rid es is_key f.1 s.1 in
      let back = order.compares k key f.0.0 is_key in
      elim (less-or_not (compare key k)) [
        | inl e ↦
            let answered : order.answer key k ≡ less =
              some_injective (sym (order.compares key k is_key f.0.0) ∙ e) in
            let past : order.answer k key ≡ greater = order.converse key k answered in
            let none_left : matching compare key es ≡ [] =
              matching-Below order k key es past is_key s.0 f.1 in
            ground (arith, e, self, none_left, past, back)
        | inr ne ↦ ground (arith, ne, rest)
      ]
