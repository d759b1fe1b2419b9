-- ===== src/Clog/Flush.antt =====
-- src/clog.rs: `flush` makes the log durable.
use ccdb.Prelude.Eq.{nat_eq}
use ccdb.Prelude.Map.{lookup, lookup-insert}
use ccdb.Prelude.Bytes.{Bytes, zeros}
use ccdb.Clog.View.{
  content_of, IsReady, view, view-field, ensure_loaded_lem, set-stored, stored, store_field,
  content_of-stored,
}
use ccdb.Clog.{
  ClogFile, insert_set, flush_pages, flush, Clog, open_clog, write_page, TxnStatus, loaded_page,
  set, txns_per_page, bits_of_status,
}
use ccdb.Prelude.{
  ℕ, List, Bool, false, if◌then◌else◌, ◌≡◌, ◌∷◌, ltb, true, ◌==◌, ◌||◌, arith, refl, [], leb, ◌+◌,
  ◌/◌, ◌∙◌, Bool-cases, inl, inr, sym,
}

abbrev pub is_dirty : ℕ → List ℕ → Bool
is_dirty i [] = false
is_dirty i (pid ∷ pids) = pid == i || is_dirty i pids

-- What a process that opens the file finds on a page.
abbrev pub disk_content : ClogFile → ℕ → Bytes
disk_content file i = if ltb i file.page_count then file.content i else zeros

-- The pages that are not marked dirty are the file's, and those that are marked are loaded.
pub record IsSynced (file : ClogFile) (c : Clog) : Type 0 where
  pub clean : (i : ℕ) → is_dirty i c.dirty ≡ false → content_of file c i ≡ disk_content file i
  pub marked : (i : ℕ) → is_dirty i c.dirty ≡ true → loaded_page c i ≡ content_of file c i
  pub counted : c.on_disk_pages ≡ file.page_count

pub open_clog-IsSynced : (file : ClogFile) → IsSynced file (open_clog file)
unfolding content_of lookup
open_clog-IsSynced file = record { clean = λ i h. refl; marked = λ i h. cc; counted = refl }

is_dirty-insert_set :
    (x i : ℕ) (ys : List ℕ) → is_dirty i (insert_set x ys) ≡ (x == i || is_dirty i ys)
unfolding insert_set
is_dirty-insert_set x i [] = refl
is_dirty-insert_set x i (y ∷ ys) = ground (arith, is_dirty-insert_set x i ys)

disk_content-write_page :
    (file : ClogFile) (pid : ℕ) (b : Bytes) (i : ℕ)
    → disk_content (write_page file pid b) i ≡ (if pid == i then b else disk_content file i)
disk_content-write_page file pid b i = ground arith

flush_pages-disk :
    (io_ok : ℕ → Bool) (pids : List ℕ) (c : Clog) (file : ClogFile) (i : ℕ)
    → (flush_pages io_ok pids c file).0 ≡ true
    → disk_content (flush_pages io_ok pids c file).2 i
      ≡ (if is_dirty i pids then loaded_page c i else disk_content file i)
unfolding flush_pages loaded_page
flush_pages-disk io_ok [] c file i ok = refl
flush_pages-disk io_ok (pid ∷ pids) c file i ok =
    let c' = record c {
      on_disk_pages = if leb c.on_disk_pages pid then pid + 1 else c.on_disk_pages;
    } in
    ground (
      arith,
      flush_pages-disk io_ok pids c' (write_page file pid (loaded_page c pid)) i,
      disk_content-write_page file pid (loaded_page c pid) i,
    )

content_of-reopen :
    (io_ok : ℕ → Bool) (c : Clog) (file : ClogFile) (i : ℕ)
    → IsSynced file c
    → (flush io_ok c file).0 ≡ true
    → let file' = (flush io_ok c file).2 in
      content_of file' (open_clog file') i ≡ content_of file c i
unfolding flush content_of lookup
content_of-reopen io_ok c file i s ok =
    flush_pages-disk io_ok c.dirty c file i ok ∙ elim (Bool-cases (is_dirty i c.dirty)) [
      | inl y ↦ rw y (s.marked i y)
      | inr n ↦ rw n (sym (s.clean i n))
    ]

flush_pages-succeeds :
    (io_ok : ℕ → Bool) (pids : List ℕ) (c : Clog) (file : ClogFile)
    → ((i : ℕ) → is_dirty i pids ≡ true → io_ok i ≡ true)
    → (flush_pages io_ok pids c file).0 ≡ true
unfolding flush_pages
flush_pages-succeeds io_ok [] c file h = refl
flush_pages-succeeds io_ok (pid ∷ pids) c file h =
    rw (h pid (ground arith)) (flush_pages-succeeds io_ok pids _ _ (λ i d. h i (ground arith)))

flush-succeeds :
    (io_ok : ℕ → Bool) (c : Clog) (file : ClogFile)
    → ((i : ℕ) → is_dirty i c.dirty ≡ true → io_ok i ≡ true)
    → (flush io_ok c file).0 ≡ true
unfolding flush
flush-succeeds io_ok c file h = flush_pages-succeeds io_ok c.dirty c file h

-- When the clean pages are those of the file and every dirty page can be written, flush succeeds
-- and a process that opens the file then finds the status of every transaction as the log held it.
pub flush-reopen :
    (io_ok : ℕ → Bool) (c : Clog) (file : ClogFile) (t : ℕ)
    → IsSynced file c
    → ((i : ℕ) → is_dirty i c.dirty ≡ true → io_ok i ≡ true)
    → ((flush io_ok c file).0 ≡ true)
      × (let file' = (flush io_ok c file).2 in view file' (open_clog file') t ≡ view file c t)
flush-reopen io_ok c file t s h =
    let ok = flush-succeeds io_ok c file h in
    (ok, rw (view-field, view-field, content_of-reopen io_ok c file (t / txns_per_page) s ok))

module _ (file : ClogFile) (io_ok : ℕ → Bool) where
  loaded_page-stored :
      (c : Clog) (t : ℕ) (st : TxnStatus) (i : ℕ)
      → loaded_page (stored file io_ok c t st) i ≡ (
          if t / txns_per_page == i
          then store_field (loaded_page c (t / txns_per_page)) t (bits_of_status st)
          else loaded_page c i)
  unfolding loaded_page stored
  loaded_page-stored c t st i = ground (
    arith,
    lookup-insert (t / txns_per_page) i
        (store_field (loaded_page c (t / txns_per_page)) t (bits_of_status st)) c.pages,
  )

  stored-IsSynced :
      (c : Clog) (t : ℕ) (st : TxnStatus)
      → IsSynced file c
      → IsSynced file (stored file io_ok c t st)
  unfolding stored
  stored-IsSynced c t st s = record {
    clean = λ i h. ground (
      arith,
      content_of-stored file io_ok c t st i,
      is_dirty-insert_set (t / txns_per_page) i c.dirty,
      s.clean i,
    );
    marked = λ i h. ground (
      arith,
      content_of-stored file io_ok c t st i,
      loaded_page-stored c t st i,
      is_dirty-insert_set (t / txns_per_page) i c.dirty,
      s.marked i,
    );
    counted = s.counted;
  }

  -- On a log whose pages can be read, set keeps the pages that are not marked dirty equal to the
  -- file, and those that are marked loaded.
  pub set-IsSynced :
      (c : Clog) (t : ℕ) (st : TxnStatus)
      → IsReady file io_ok c
      → IsSynced file c
      → IsSynced file (set file io_ok c t st).1
  set-IsSynced c t st r s =
      let (c', e, same, _, od, dt, keeps) = ensure_loaded_lem file io_ok c (t / txns_per_page) r in
      rw (set-stored file io_ok c c' t st e) (
        stored-IsSynced c' t st (record {
          clean = λ i h. same i ∙ s.clean i (rw dt at h);
          marked = λ i h. keeps i (s.marked i (rw dt at h));
          counted = od ∙ s.counted;
        }))
