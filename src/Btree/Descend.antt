-- ===== src/Btree/Descend.antt =====
-- src/btree.rs: walking down a tree ends at the leaf that the separators lead to.
use ccdb.Btree.Codec.{decode_internal_entry-encode_internal_entry}
use ccdb.Btree.Entry.{encode_internal_entry, decode_internal_entry_or_leaf_key}
use ccdb.Btree.Node.{rightmost_le_from, key_at, rightmost_le}
use ccdb.Prelude.Bytes.{Bytes}
use ccdb.Btree.Order.{KeyOrder}
use ccdb.Btree.Key.{Ordering, greater, Ordering-cases}
use ccdb.Prelude.{
  ℕ, List, Option, some, ◌<◌, none, ◌≡◌, ◌+◌, suc, ◌≤◌, arith, zero, length, inl, ◌^◌, inr, refl,
  ◌≢◌, ◌-◌, ◌==◌, if◌then◌else◌, ap, ◌∙◌, ℕ_discrete,
}
use ccdb.Page.{page_id, page_kind, btree_leaf, btree_internal, next_page_id, tuple_count, get_tuple}
use ccdb.Btree.Tree.{Pages, child_for, descend_to_leaf}

-- The slot in front, as the loop of `rightmost_le` carries it.
before : ℕ → Option ℕ
before n = if n == 0 then none else some (n - 1)

module _ (compare : List ℕ → List ℕ → Option Ordering) where
  -- The key in a slot is at most the target, or greater.
  abbrev pub AtMost : Bytes → List ℕ → ℕ → Type 0
  AtMost p target slot =
      (key raw : List ℕ) × (o : Ordering) × (key_at p slot ≡ some (key, raw))
      × (compare key target ≡ some o)
      × (o ≢ greater)

  abbrev pub Greater : Bytes → List ℕ → ℕ → Type 0
  Greater p target slot =
      (key raw : List ℕ) × (key_at p slot ≡ some (key, raw)) × (compare key target ≡ some greater)

  -- The first n keys are at most the target, and the next one, if there is one, is greater.
  pub record IsSplit (p : Bytes) (target : List ℕ) (n : ℕ) : Type 0 where
    pub bound : n ≤ tuple_count p
    pub left : (slot : ℕ) → slot < n → AtMost p target slot
    pub right : n < tuple_count p → Greater p target n

  -- The child behind the first n keys.
  abbrev pub ChildBehind : Bytes → ℕ → ℕ → Type 0
  ChildBehind p n child =
      (n ≡ 0 → child ≡ next_page_id p)
      × ((slot : ℕ)
          → n ≡ slot + 1
          → (key : List ℕ) × (get_tuple p slot ≡ some (encode_internal_entry key child)))

  -- The separators lead from a node to a leaf, h levels down.
  unfoldable pub Leads : ℕ → Pages → ℕ → List ℕ → ℕ → Type 0
  Leads zero st id target leaf = leaf ≡ id
  Leads (suc h) st id target leaf =
      (n child : ℕ) × IsSplit (st.pages id) target n
      × ChildBehind (st.pages id) n child
      × Leads h st child target leaf

before-suc : (n : ℕ) → some n ≡ before (n + 1)
unfolding before
before-suc n = ground arith

module _ {compare : List ℕ → List ℕ → Option Ordering} {IsKey : List ℕ → Type 0}
    (order : KeyOrder compare IsKey) where
  -- Every slot of a node is an entry with a key.
  abbrev Readable : Bytes → Type 0
  Readable p =
      (slot : ℕ)
      → slot < tuple_count p
      → (key raw : List ℕ) × (key_at p slot ≡ some (key, raw)) × IsKey key

  rightmost_le_from-IsSplit :
      (p : Bytes) (target : List ℕ) (slot n : ℕ) (found : Option ℕ)
      → Readable p
      → IsKey target
      → slot + n ≡ tuple_count p
      → found ≡ before slot
      → ((s : ℕ) → s < slot → AtMost compare p target s)
      → (k : ℕ) × (rightmost_le_from compare p target slot n found ≡ some (before k))
        × IsSplit compare p target k
  unfolding rightmost_le_from
  rightmost_le_from-IsSplit p target slot zero found readable t le f h = (
    slot,
    ap some f,
    record { bound = omega arith; left = h; right = λ lt. absurd (omega arith) },
  )
  rightmost_le_from-IsSplit p target slot (suc n) found readable t le f h =
      let (key, raw, e, is_key) = readable slot (omega arith) in
      let answered = order.compares key target is_key t in
      let next : order.answer key target ≢ greater
          → (s : ℕ) → s < slot + 1
          → AtMost compare p target s =
        λ a s lt. elim (ℕ_discrete s slot) [
          | no ne ↦ h s (omega arith)
          | yes same ↦ rw same (key, raw, order.answer key target, e, answered, a)
        ] in
      let go = λ (a : order.answer key target ≢ greater).
        rightmost_le_from-IsSplit p target (slot + 1) n (some slot) readable t (omega arith)
          (before-suc slot) (next a) in
      elim (Ordering-cases (order.answer key target)) [
        | inl a ↦
            let (k, er, split) = go (λ g. cc) in (k, ground (arith, e, answered, a, er), split)
        | inr (inl a) ↦
            let (k, er, split) = go (λ g. cc) in (k, ground (arith, e, answered, a, er), split)
        | inr (inr a) ↦ (
          slot,
          ground (arith, e, answered, a, f),
          record {
            bound = omega arith;
            left = h;
            right = λ _. (key, raw, e, answered ∙ ap some a);
          },
        )
      ]

  -- A tree of this height: a leaf that has its own id, or an internal node whose children are trees.
  unfoldable pub IsTree : ℕ → Pages → ℕ → Type 0
  IsTree zero st id = (page_kind (st.pages id) ≡ btree_leaf) × (page_id (st.pages id) ≡ id)
  IsTree (suc h) st id =
      (page_kind (st.pages id) ≡ btree_internal)
      × IsTree h st (next_page_id (st.pages id))
      × ((slot : ℕ)
          → slot < tuple_count (st.pages id)
          → (key : List ℕ) × (child : ℕ) × (get_tuple (st.pages id) slot
              ≡ some (encode_internal_entry key child))
            × IsKey key
            × (length key < 2 ^ 16)
            × (child < 2 ^ 32)
            × IsTree h st child)

  key_at-internal :
      (p : Bytes) (slot : ℕ) (key : List ℕ) (child : ℕ)
      → page_kind p ≡ btree_internal
      → get_tuple p slot ≡ some (encode_internal_entry key child)
      → length key < 2 ^ 16
      → child < 2 ^ 32
      → key_at p slot ≡ some (key, encode_internal_entry key child)
  unfolding key_at decode_internal_entry_or_leaf_key
  key_at-internal p slot key child kind e h hc =
      ground (arith, kind, e, decode_internal_entry-encode_internal_entry key child h hc)

  child_for-IsTree :
      (h : ℕ) (st : Pages) (id : ℕ) (target : List ℕ)
      → IsTree (suc h) st id
      → IsKey target
      → (n child : ℕ) × (child_for compare (st.pages id) target ≡ some child)
        × IsSplit compare (st.pages id) target n
        × ChildBehind compare (st.pages id) n child
        × IsTree h st child
  unfolding child_for rightmost_le IsTree before
  child_for-IsTree h st id target (kind, first, entries) t =
      let p = st.pages id in
      let readable : Readable p = λ slot lt.
        let (key, child, stored, is_key, hk, hc, below) = entries slot lt in
        (
          key,
          encode_internal_entry key child,
          key_at-internal p slot key child kind stored hk hc,
          is_key,
        ) in
      let (n, e, split) =
        rightmost_le_from-IsSplit p target 0 (tuple_count p) none readable t (omega arith) refl
          (λ s lt. absurd (omega arith)) in
      elim (ℕ_discrete n 0) [
        | yes zero_le ↦ (
          n,
          next_page_id p,
          ground (arith, e, zero_le),
          split,
          ((λ _. refl), λ slot k. absurd (omega (arith, zero_le))),
          first,
        )
        | no some_le ↦
            let (key, child, stored, is_key, hk, hc, below) =
              entries (n - 1) (omega (arith, split.bound, some_le)) in
            (
              n,
              child,
              ground (
                arith,
                e,
                some_le,
                stored,
                decode_internal_entry-encode_internal_entry key child hk hc,
              ),
              split,
              (
                (λ z. absurd (some_le z)),
                λ slot k. let same : slot ≡ n - 1 = omega arith in (key, rw same stored),
              ),
              below,
            )
      ]

  -- On a tree of height h whose entries are readable and whose leaves have their own ids,
  -- descend_to_leaf with fuel h + 1 ends, for any key, at the leaf to which the separators lead: at
  -- each node on the way, the child behind the keys that are at most the target, up to the first
  -- that is greater.
  pub descend_to_leaf-IsTree :
      (h : ℕ) (st : Pages) (root : ℕ) (target : List ℕ)
      → IsTree h st root
      → IsKey target
      → (leaf : ℕ) × (descend_to_leaf compare (suc h) st root target ≡ some leaf)
        × (page_kind (st.pages leaf) ≡ btree_leaf)
        × Leads compare h st root target leaf
  unfolding descend_to_leaf IsTree Leads
  descend_to_leaf-IsTree zero st root target tree t = (root, ground (arith, tree), tree.0, refl)
  descend_to_leaf-IsTree (suc h) st root target tree t =
      let (n, child, e, split, behind, below) = child_for-IsTree h st root target tree t in
      let (leaf, down, kind, leads) = descend_to_leaf-IsTree h st child target below t in
      let here : page_kind (st.pages root) ≡ btree_internal = tree.0 in
      (leaf, ground (arith, here, e, down), kind, (n, child, split, behind, leads))
