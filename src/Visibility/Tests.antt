-- ===== src/Visibility/Tests.antt =====
-- src/visibility.rs: the theorems on visibility at a manager over the log of src/clog.rs.
use ccdb.Prelude.Bits.{two_bits}
use ccdb.StatusLog.{StatusLog}
use ccdb.Prelude.Map.{lookup, contains_key, insert}
use ccdb.Prelude.{◌≡◌, true, false, arith, refl, []}
use ccdb.Clog.{committed, aborted, bit_position}
use ccdb.Clog.View.{view, content_of}
use ccdb.TransactionManager.{snapshot, begin, commit, allocate_id, register, status, leave, decide}
use ccdb.TransactionManager.Tests.{empty_file, log, running, running-IsReady}
use ccdb.Visibility.Isolation.{sees}
use ccdb.Visibility.Stale.{commit_race, begin_race}

commit_race_example :
    let (s, (cache', tm')) = status log ([], leave log running 1) 1 in
    let done = decide log tm' 1 committed in
    (s ≡ aborted)
    × (view empty_file done.clog 1 ≡ committed)
    × ((status log (cache', done) 1).0 ≡ aborted)
unfolding begin allocate_id register lookup view content_of bit_position two_bits
commit_race_example = commit_race log running [] 1 running-IsReady refl refl

begin_race_example :
    let (id, tm') = allocate_id log running in
    let snap = snapshot log tm' 2 in
    (sees snap (view empty_file tm'.clog) id ≡ false)
    × (sees snap (view empty_file (commit log (register log tm' id) id).clog) id ≡ true)
unfolding begin allocate_id register lookup view content_of bit_position two_bits contains_key
    insert
begin_race_example =
    begin_race log running 2 running-IsReady (ground arith) (ground arith) refl refl
