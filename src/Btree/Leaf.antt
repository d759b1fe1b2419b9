-- ===== src/Btree/Leaf.antt =====
-- src/btree.rs: looking up a key in a leaf whose entries are sorted.
use ccdb.Btree.Codec.{decode_leaf_entry-encode_leaf_entry}
use ccdb.Wal.Fields.{IsRid}
use ccdb.Btree.Entry.{encode_leaf_entry}
use ccdb.Btree.Node.{leaf_entry_at, lookup_from, leaf_lookup_eq}
use ccdb.Btree.Order.{KeyOrder}
use ccdb.Page.{get_tuple, tuple_count}
use ccdb.Btree.Key.{Ordering, greater, equal, Ordering-cases, less}
use ccdb.Wal.{Rid}
use ccdb.Prelude.{
  List, ℕ, Option, ◌∷◌, length, some, [], ◌≡◌, ◌<◌, ◌≢◌, none, ◌^◌, ◌+◌, ◌∙◌, ap, inl, refl, inr,
  arith,
}
use ccdb.Prelude.Bytes.{Bytes}

-- The entries from `slot` on, as a leaf stores them.
abbrev pub HoldsFrom : Bytes → ℕ → List (List ℕ × Rid) → Type 0
HoldsFrom p slot [] = Unit
HoldsFrom p slot ((key, rid) ∷ es) =
    (get_tuple p slot ≡ some (encode_leaf_entry key rid)) × HoldsFrom p (slot + 1) es

abbrev pub Fitting : (List ℕ → Type 0) → List (List ℕ × Rid) → Type 0
Fitting IsKey [] = Unit
Fitting IsKey ((key, rid) ∷ es) = (IsKey key × (length key < 2 ^ 16) × IsRid rid) × Fitting IsKey es

-- The row ids of the entries whose keys compare equal.
unfoldable pub matching :
    (List ℕ → List ℕ → Option Ordering) → List ℕ → List (List ℕ × Rid) → List Rid
matching compare target [] = []
matching compare target ((key, rid) ∷ es) =
    let rest = matching compare target es in
    elim (compare key target) [
      | some equal ↦ rid ∷ rest
      | some less ↦ rest
      | some greater ↦ rest
      | none ↦ rest
    ]

module _ {compare : List ℕ → List ℕ → Option Ordering} {IsKey : List ℕ → Type 0}
    (order : KeyOrder compare IsKey) where
  -- No key is greater than a later one.
  abbrev pub Below : List ℕ → List (List ℕ × Rid) → Type 0
  Below key [] = Unit
  Below key ((k, rid) ∷ es) = (order.answer key k ≢ greater) × Below key es

  abbrev pub Sorted : List (List ℕ × Rid) → Type 0
  Sorted [] = Unit
  Sorted ((key, rid) ∷ es) = Below key es × Sorted es

  pub leaf_entry_at-HoldsFrom :
      (p : Bytes) (slot : ℕ) (key : List ℕ) (rid : Rid)
      → get_tuple p slot ≡ some (encode_leaf_entry key rid)
      → length key < 2 ^ 16
      → IsRid rid
      → leaf_entry_at p slot ≡ some (key, rid, encode_leaf_entry key rid)
  unfolding leaf_entry_at
  leaf_entry_at-HoldsFrom p slot key rid e h hr =
      ground (arith, e, decode_leaf_entry-encode_leaf_entry key rid h hr)

  -- Past a greater key there is no match.
  pub matching-Below :
      (key target : List ℕ) (es : List (List ℕ × Rid))
      → order.answer key target ≡ greater
      → IsKey target
      → Below key es
      → Fitting IsKey es
      → matching compare target es ≡ []
  unfolding matching
  matching-Below key target [] g t b f = refl
  matching-Below key target ((k, rid) ∷ es) g t b f =
      let past : compare k target ≡ some greater =
        order.compares k target f.0.0 t ∙ ap some (order.greater_trans key k target g b.0) in
      rw (past, matching) (matching-Below key target es g t b.1 f.1)

  lookup_from-Sorted :
      (p : Bytes) (target : List ℕ) (slot : ℕ) (es : List (List ℕ × Rid))
      → IsKey target
      → HoldsFrom p slot es
      → Fitting IsKey es
      → Sorted es
      → lookup_from compare p target slot (length es) ≡ some (matching compare target es)
  unfolding lookup_from matching
  lookup_from-Sorted p target slot [] t h f s = refl
  lookup_from-Sorted p target slot ((key, rid) ∷ es) t h f s =
      let entry = leaf_entry_at-HoldsFrom p slot key rid h.0 f.0.1 f.0.2 in
      let rest = lookup_from-Sorted p target (slot + 1) es t h.1 f.1 s.1 in
      let answered = order.compares key target f.0.0 t in
      elim (Ordering-cases (order.answer key target)) [
        | inl e ↦ ground (arith, entry, answered, e, rest)
        | inr (inl e) ↦ ground (arith, entry, answered, e, rest)
        | inr (inr e) ↦ ground (arith, entry, answered, e, matching-Below key target es e t s.0 f.1)
      ]

  -- On a leaf whose entries are sorted, leaf_lookup_eq, which stops at the first greater key, gives
  -- the row ids of all entries whose keys compare equal.
  pub leaf_lookup_eq-Sorted :
      (p : Bytes) (target : List ℕ) (es : List (List ℕ × Rid))
      → IsKey target
      → tuple_count p ≡ length es
      → HoldsFrom p 0 es
      → Fitting IsKey es
      → Sorted es
      → leaf_lookup_eq compare p target ≡ some (matching compare target es)
  unfolding leaf_lookup_eq
  leaf_lookup_eq-Sorted p target es t count h f s =
      rw count (lookup_from-Sorted p target 0 es t h f s)
