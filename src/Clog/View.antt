-- ===== src/Clog/View.antt =====
-- src/clog.rs: what the log says of each transaction, and that `get` and `set` implement it.
use ccdb.Prelude.Eq.{nat_eq}
use ccdb.Prelude.Bits.{two_bits, set_two_bits, set_two_bits-lt, two_bits-set, two_bits-set_ne}
use ccdb.Prelude.Map.{lookup, contains_key, insert, lookup-insert}
use ccdb.Prelude.{
  ℕ, ◌<◌, Bool, some, ◌≡◌, if◌then◌else◌, true, ltb, ◌/◌, Option-cases, inr, inl, Bool-cases, arith,
  refl, none, ◌%◌, ◌*◌, ◌==◌, ==_iff, ◌&&◌, ap, ◌∙◌, sym,
}
use ccdb.Prelude.Bytes.{Bytes, zeros, put}
use ccdb.Clog.{
  in_progress, committed, aborted, ClogFile, Clog, TxnStatus, bit_position, ensure_loaded,
  status_of_bits, loaded_page, txns_per_page, bits_of_status, get, set, insert_set,
}

-- The bytes of a page as the process sees them.
unfoldable pub content_of : ClogFile → Clog → ℕ → Bytes
content_of file c pid = elim (lookup pid c.pages) [
  | some b ↦ b
  | none ↦ if ltb pid c.on_disk_pages then file.content pid else zeros
]

-- The status that the log holds for a transaction.
unfoldable pub view : ClogFile → Clog → ℕ → TxnStatus
view file c t =
    let (off, shift) = bit_position t in
    status_of_bits (two_bits (content_of file c (t / txns_per_page) off) shift)

abbrev pub AllBytes : Bytes → Type 0
AllBytes b = (i : ℕ) → b i < 256

-- Pages hold bytes, and the pages that are on disk can be read.
pub record IsReady (file : ClogFile) (io_ok : ℕ → Bool) (c : Clog) : Type 0 where
  pub bytes : (pid : ℕ) → AllBytes (content_of file c pid)
  pub readable : (pid : ℕ) → pid < c.on_disk_pages → io_ok pid ≡ true

module _ (file : ClogFile) (io_ok : ℕ → Bool) where
  -- A page that is ready to be used can be loaded, and loading changes nothing that is seen.
  pub ensure_loaded_lem :
      (c : Clog) (pid : ℕ)
      → IsReady file io_ok c
      → (c' : Clog) × (ensure_loaded file io_ok c pid ≡ some c')
        × ((i : ℕ) → content_of file c' i ≡ content_of file c i)
        × (loaded_page c' pid ≡ content_of file c pid)
        × (c'.on_disk_pages ≡ c.on_disk_pages)
        × (c'.dirty ≡ c.dirty)
        × ((i : ℕ)
            → loaded_page c i ≡ content_of file c i
            → loaded_page c' i ≡ content_of file c' i)
  unfolding ensure_loaded content_of loaded_page contains_key
  ensure_loaded_lem c pid r = elim (Option-cases (lookup pid c.pages)) [
    | inr (b, e) ↦
        (c, ground arith, λ i. refl, rw (e, loaded_page, content_of), refl, refl, λ i h. h)
    | inl e ↦ elim (Bool-cases (ltb pid c.on_disk_pages)) [
      | inl y ↦ (
        record c { pages = insert pid (file.content pid) c.pages },
        ground (arith, r.readable pid),
        λ i. ground (arith, lookup-insert pid i (file.content pid) c.pages),
        ground (arith, lookup-insert pid pid (file.content pid) c.pages),
        refl,
        refl,
        λ i h. ground (arith, lookup-insert pid i (file.content pid) c.pages),
      )
      | inr n ↦ (
        record c { pages = insert pid zeros c.pages },
        ground arith,
        λ i. ground (arith, lookup-insert pid i zeros c.pages),
        ground (arith, lookup-insert pid pid zeros c.pages),
        refl,
        refl,
        λ i h. ground (arith, lookup-insert pid i zeros c.pages),
      )
    ]
  ]

-- The two bits of a transaction in its page.
unfoldable pub field : Bytes → ℕ → ℕ
field b t = two_bits (b (t % txns_per_page / 4)) (t % 4 * 2)

unfoldable pub store_field : Bytes → ℕ → ℕ → Bytes
store_field b t v =
    put b (t % txns_per_page / 4) (set_two_bits (b (t % txns_per_page / 4)) (t % 4 * 2) v)

two_bits-put :
    (b : Bytes) (o k v o' k' : ℕ)
    → AllBytes b
    → k < 4
    → v < 4
    → k' < 4
    → two_bits (put b o (set_two_bits (b o) (k * 2) v) o') (k' * 2)
      ≡ (if (o == o') && (k' == k) then v else two_bits (b o') (k' * 2))
unfolding put
two_bits-put b o k v o' k' hb hk hv hk' = ground (
  arith,
  two_bits-set (b o) k v (hb o),
  two_bits-set_ne (b o) k v k' (hb o),
  ap b {x = o} {y = o'},
)

-- Storing one field changes that field alone.
field-store_field :
    (b : Bytes) (t u v : ℕ)
    → AllBytes b
    → v < 4
    → field (store_field b t v) u
      ≡ (if t % txns_per_page == u % txns_per_page then v else field b u)
unfolding field store_field put
field-store_field b t u v hb hv = ground (
  arith,
  two_bits-put b (t % txns_per_page / 4) (t % 4) v (u % txns_per_page / 4) (u % 4) hb (omega arith)
      hv (omega arith),
)

store_field-AllBytes : (b : Bytes) (t v : ℕ) → AllBytes b → v < 4 → AllBytes (store_field b t v)
unfolding store_field put
store_field-AllBytes b t v hb hv i =
    ground (arith, hb i, set_two_bits-lt (b (t % txns_per_page / 4)) (t % 4) v (hb _))

status_of_bits-bits_of_status : (s : TxnStatus) → status_of_bits (bits_of_status s) ≡ s
status_of_bits-bits_of_status in_progress = refl
status_of_bits-bits_of_status committed = refl
status_of_bits-bits_of_status aborted = refl

pub view-field :
    (file : ClogFile) (c : Clog) (t : ℕ)
    → view file c t ≡ status_of_bits (field (content_of file c (t / txns_per_page)) t)
unfolding view bit_position field
view-field file c t = refl

status_cell :
    (t u : ℕ) (s : TxnStatus) (f : ℕ)
    → t / txns_per_page ≡ u / txns_per_page
    → status_of_bits (if t % txns_per_page == u % txns_per_page then bits_of_status s else f)
      ≡ (if t == u then s else status_of_bits f)
status_cell t u in_progress f e = ground arith
status_cell t u committed f e = ground arith
status_cell t u aborted f e = ground arith

pub view-same :
    (file : ClogFile) (c c' : Clog)
    → ((i : ℕ) → content_of file c' i ≡ content_of file c i)
    → (u : ℕ) → view file c' u ≡ view file c u
view-same file c c' same u = rw (view-field, view-field, same)

module _ (file : ClogFile) (io_ok : ℕ → Bool) where
  -- On a log whose pages can be read, get answers with the status that the log holds, and changes
  -- no status.
  pub get-view :
      (c : Clog) (t : ℕ)
      → IsReady file io_ok c
      → ((get file io_ok c t).0 ≡ some (view file c t))
        × ((u : ℕ) → view file (get file io_ok c t).1 u ≡ view file c u)
        × IsReady file io_ok (get file io_ok c t).1
  unfolding get bit_position field
  get-view c t r =
      let (c', e, same, here, od, _, _) = ensure_loaded_lem file io_ok c (t / txns_per_page) r in
      rw (e, get)
        (
          rw (view-field, here) refl,
          view-same file c c' same,
          record { bytes = λ pid. rw same (r.bytes pid); readable = rw od r.readable },
        )

  -- The log after `set`, once the page is loaded.
  unfoldable pub stored : Clog → ℕ → TxnStatus → Clog
  stored c t s = record c {
    pages =
        insert (t / txns_per_page)
          (store_field (loaded_page c (t / txns_per_page)) t (bits_of_status s)) c.pages;
    dirty = insert_set (t / txns_per_page) c.dirty;
  }

  pub content_of-stored :
      (c : Clog) (t : ℕ) (s : TxnStatus) (i : ℕ)
      → content_of file (stored c t s) i ≡ (
          if t / txns_per_page == i
          then store_field (loaded_page c (t / txns_per_page)) t (bits_of_status s)
          else content_of file c i)
  unfolding content_of stored
  content_of-stored c t s i = ground (
    arith,
    lookup-insert (t / txns_per_page) i
        (store_field (loaded_page c (t / txns_per_page)) t (bits_of_status s)) c.pages,
  )

  bits_of_status-lt : (s : TxnStatus) → bits_of_status s < 4
  bits_of_status-lt s = ground arith

  view-stored :
      (c : Clog) (t : ℕ) (s : TxnStatus) (u : ℕ)
      → AllBytes (content_of file c (t / txns_per_page))
      → loaded_page c (t / txns_per_page) ≡ content_of file c (t / txns_per_page)
      → view file (stored c t s) u ≡ (if t == u then s else view file c u)
  view-stored c t s u hb here = elim (Bool-cases (t / txns_per_page == u / txns_per_page)) [
    | inl y ↦
        let same = (==_iff _ _).0 y in
        rw
          (
            view-field,
            view-field,
            content_of-stored,
            y,
            here,
            field-store_field _ t u _ hb (bits_of_status-lt s),
            ← same,
          )
          (status_cell t u s _ same)
    | inr n ↦ rw (view-field, view-field, content_of-stored, n) (ground arith)
  ]

  stored-bytes :
      (c : Clog) (t : ℕ) (s : TxnStatus)
      → ((pid : ℕ) → AllBytes (content_of file c pid))
      → loaded_page c (t / txns_per_page) ≡ content_of file c (t / txns_per_page)
      → (pid : ℕ) → AllBytes (content_of file (stored c t s) pid)
  stored-bytes c t s hb here pid =
      rw (content_of-stored, here)
        (elim (Bool-cases (t / txns_per_page == pid)) [
          | inl y ↦ rw y (store_field-AllBytes _ t _ (hb (t / txns_per_page)) (bits_of_status-lt s))
          | inr n ↦ rw n (hb pid)
        ])

  pub set-stored :
      (c c' : Clog) (t : ℕ) (s : TxnStatus)
      → ensure_loaded file io_ok c (t / txns_per_page) ≡ some c'
      → set file io_ok c t s ≡ (some tt, stored c' t s)
  unfolding set stored bit_position store_field
  set-stored c c' t s e = rw (e, set)

  -- On a log whose pages can be read, set succeeds, stores the status of that transaction, and
  -- changes no other transaction, though four share a byte.
  pub set-view :
      (c : Clog) (t : ℕ) (s : TxnStatus)
      → IsReady file io_ok c
      → ((set file io_ok c t s).0 ≡ some tt)
        × ((u : ℕ) → view file (set file io_ok c t s).1 u ≡ (if t == u then s else view file c u))
        × IsReady file io_ok (set file io_ok c t s).1
  unfolding stored
  set-view c t s r =
      let (c', e, same, here, od, _, _) = ensure_loaded_lem file io_ok c (t / txns_per_page) r in
      let here' : loaded_page c' (t / txns_per_page) ≡ content_of file c' (t / txns_per_page) =
        here ∙ sym (same (t / txns_per_page)) in
      let hb : (pid : ℕ) → AllBytes (content_of file c' pid) = λ pid. rw (same pid) (r.bytes pid) in
      rw (set-stored c c' t s e) (
        refl,
        λ u. rw (view-stored c' t s u (hb _) here', view-same file c c' same u),
        record { bytes = stored-bytes c' t s hb here'; readable = rw od r.readable },
      )
