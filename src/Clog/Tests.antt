-- ===== src/Clog/Tests.antt =====
-- src/clog.rs: runs of the log over a file of one page, and the theorems at them.
use ccdb.Prelude.Bits.{two_bits}
use ccdb.Prelude.Map.{lookup}
use ccdb.Prelude.{ℕ, ◌≡◌, some, if◌then◌else◌, ◌==◌, true, arith, refl, Bool}
use ccdb.Clog.{ClogFile, Clog, open_clog, get, set, flush, committed, aborted, bit_position}
use ccdb.Clog.View.{IsReady, content_of, view, get-view, set-view}
use ccdb.Clog.Flush.{IsSynced, open_clog-IsSynced, set-IsSynced, flush-reopen}

-- Each byte is 0b00_10_01_01.
abbrev one_page : ClogFile
one_page = record { page_count = 1; content = λ _ _. 37 }

abbrev served : ℕ → Bool
served _ = true

abbrev opened : Clog
opened = open_clog one_page

opened-IsReady : IsReady one_page served opened
unfolding content_of lookup
opened-IsReady = record { bytes = λ pid i. ground arith; readable = λ pid h. refl }

view-opened : view one_page opened 5 ≡ committed
unfolding view content_of lookup bit_position two_bits
view-opened = refl

get-view_example :
    ((get one_page served opened 5).0 ≡ some (view one_page opened 5))
    × ((u : ℕ) → view one_page (get one_page served opened 5).1 u ≡ view one_page opened u)
    × IsReady one_page served (get one_page served opened 5).1
get-view_example = get-view one_page served opened 5 opened-IsReady

-- Transaction 16387 is on a page that the file does not have.
set-view_example :
    ((set one_page served opened 16387 aborted).0 ≡ some tt)
    × ((u : ℕ)
        → view one_page (set one_page served opened 16387 aborted).1 u
          ≡ (if 16387 == u then aborted else view one_page opened u))
    × IsReady one_page served (set one_page served opened 16387 aborted).1
set-view_example = set-view one_page served opened 16387 aborted opened-IsReady

abbrev written : Clog
written = (set one_page served opened 16387 aborted).1

written-IsSynced : IsSynced one_page written
written-IsSynced =
    set-IsSynced one_page served opened 16387 aborted opened-IsReady (open_clog-IsSynced one_page)

flush-reopen_example :
    ((flush served written one_page).0 ≡ true)
    × (let file' = (flush served written one_page).2 in
        view file' (open_clog file') 16387 ≡ view one_page written 16387)
flush-reopen_example = flush-reopen served written one_page 16387 written-IsSynced (λ i d. refl)
