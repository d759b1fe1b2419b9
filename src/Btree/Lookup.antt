-- ===== src/Btree/Lookup.antt =====
-- src/btree.rs: looking up a key that was just put into a leaf.
use ccdb.Btree.Entry.{encode_leaf_entry}
use ccdb.Btree.Node.{fits, insert_sorted, leaf_lookup_eq}
use ccdb.Wal.Fields.{IsRid}
use ccdb.Btree.Leaf.{Fitting, Sorted, matching, leaf_lookup_eq-Sorted}
use ccdb.Btree.Insertion.{LeafNode}
use ccdb.LockManager.{Rid}
use ccdb.Prelude.Bytes.{Bytes}
use ccdb.Btree.Sorted.{
  place_entry, insert_sorted-LeafNode, matching-place_entry, place_before, place_after,
}
use ccdb.Btree.Order.{KeyOrder}
use ccdb.Btree.Key.{Ordering, less-or_not}
use ccdb.Prelude.{
  List, ℕ, Option, length, ◌<◌, ◌^◌, ◌∷◌, inl, ◌≡◌, true, some, ◌++◌, [], ◌∙◌, ap, inr,
}
use ccdb.Page.{next_page_id}

module _ {compare : List ℕ → List ℕ → Option Ordering} {IsKey : List ℕ → Type 0}
    (order : KeyOrder compare IsKey) where
  Fitting-place_entry :
      (key : List ℕ) (rid : Rid) (es : List (List ℕ × Rid))
      → IsKey key × (length key < 2 ^ 16) × IsRid rid
      → Fitting IsKey es
      → Fitting IsKey (place_entry compare key rid es)
  unfolding place_entry
  Fitting-place_entry key rid [] new f = (new, tt)
  Fitting-place_entry key rid ((k, r) ∷ es) new f = elim (less-or_not (compare key k)) [
    | inl e ↦ rw (place_before compare key rid k r es e) (new, f)
    | inr ne ↦
        rw (place_after compare key rid k r es ne) (f.0, Fitting-place_entry key rid es new f.1)
  ]

  -- Under a lawful order of keys, inserting an entry into a leaf whose entries are sorted and that
  -- fits has room for it succeeds, and looking up its key then gives the row ids that it gave
  -- before and the new one after them.
  pub leaf_lookup_eq-insert_sorted :
      (p : Bytes) (es : List (List ℕ × Rid)) (key : List ℕ) (rid : Rid)
      → LeafNode p es
      → Fitting IsKey es
      → Sorted order es
      → IsKey key
      → length key < 2 ^ 16
      → IsRid rid
      → next_page_id p < 2 ^ 32
      → fits p (length (encode_leaf_entry key rid)) ≡ true
      → (q : Bytes) × (found : List Rid) × (insert_sorted compare p key (encode_leaf_entry key rid)
          ≡ some q)
        × (leaf_lookup_eq compare p key ≡ some found)
        × (leaf_lookup_eq compare q key ≡ some (found ++ rid ∷ []))
  leaf_lookup_eq-insert_sorted p es key rid node f s is_key hk hr next room =
      let (q, e, node', _, s', _) =
        insert_sorted-LeafNode order p es key rid node f s is_key next room in
      let f' = Fitting-place_entry key rid es (is_key, hk, hr) f in
      (
        q,
        matching compare key es,
        e,
        leaf_lookup_eq-Sorted order p key es is_key node.count node.stored f s,
        leaf_lookup_eq-Sorted order q key _ is_key node'.count node'.stored f' s'
            ∙ ap some (matching-place_entry order key rid es is_key f s),
      )
