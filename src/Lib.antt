-- ===== src/Lib.antt =====
-- ccdb: a small relational database in Rust with multi-version concurrency control, a write-ahead
-- log, row locks and a slotted-page store.
--
-- A statement runs in a transaction. The transaction manager hands out ids, keeps the table of active
-- transactions, and records decisions in the commit log; a snapshot is the table and the next id at
-- the time it is taken. A tuple carries the ids of its creator and of its deleter, and the visibility
-- check decides from a snapshot and the statuses whether a reader sees it. Writers of a row exclude
-- each other by the lock manager.
--
-- src/lock_manager.rs: `Lock` is one row's state (`LockState`, `can_grant`, `grant_waiting`);
-- `LockManager` is the sharded table. `lock` is cut where the shard's mutex is free: `lock_start`
-- runs up to the sleep, `lock_timeout` after a sleep that timed out. `unlock_all` takes one shard's
-- mutex after another, and a step of `LockManager.Safety.Step` is one of its rounds, so that the
-- calls of other threads come between any two. A hash map is an association list.
--
-- src/clog.rs: `Clog`. A page is a function from offsets to bytes, the file its number of pages and
-- their contents; a Boolean for each page says whether the system serves it, and failed reads and
-- writes are results. `Clog.Log` is its instance of the interface `StatusLog`.
--
-- src/transaction_manager.rs: `TransactionManager`, over any `StatusLog`. The cache that
-- `status` keeps in thread-local storage is passed along with the manager. Ids are u64: `fetch_add`
-- wraps, and a history lets `begin` run only while it does not.
--
-- src/transaction.rs: `Transaction`, a connection's state beside the manager. The clock is an argument.
--
-- src/visibility.rs: `Visibility`, with what a snapshot sees by the statuses at hand (`Isolation`), what it
-- sees in a history of whole calls (`Abstract`), and what goes wrong between the parts of a call (`Stale`).
--
-- src/wal.rs: `Wal`. A record and the file are lists of bytes, and a hash map in a record is an
-- association list. `read_records` runs on fuel, one more than the file's length, where each round
-- takes four bytes at least. An `i64` is an integer that is stored as its two's complement.
--
-- src/sequence.rs: `Sequence`, over the bytes of a `Page`, with the redo of its record, as
-- `Sequence.redo_seq_advance`. Appending to the log is a parameter.
--
-- src/recovery.rs: `Recovery`, the redo pass of heap, sequence and page records over the pages by
-- id, and `Recovery.Analyze`, the analysis of the log and the records that undo appends.
-- The buffer pool (src/buffer_pool.rs) is only the number of pages and their bytes there.
--
-- src/buffer_pool.rs, src/disk.rs: `BufferPool`, one shard with the file and the two LSN counters of
-- src/wal.rs. Each call is one step, as it runs under the locks of the shard; `BufferPool.Calls` lists the calls and
-- what callers promise (`Allowed`), `BufferPool.Runs` runs them in any order. Callers that break the promise are
-- possible in the source: a page that is recycled while it is pinned is in `BufferPool.Tests`. That the system fails a
-- read, a write or an fsync is part of the state. The counts of pins and of pages are u32 and wrap.
--
-- src/analyzer.rs, src/executor.rs: `Analyzer` has the typed expressions, `Executor` evaluates them
-- (`Evaluate`), orders rows by sort keys (`Sort`) and keeps the states of aggregates (`Aggregate`). The operations of
-- f64 and the shift of a timestamp by an interval, which chrono computes, are parameters; an overflow is a result of
-- its own.
--
-- src/protocol.rs: `Protocol` parses the bodies of the messages of a client.
--
-- src/checkpoint.rs: `Checkpoint`, the file as its bytes.
--
-- src/page.rs: `Page`, the slotted page as a function from offsets to bytes. `Page.Valid` says which
-- pages are well formed.
--
-- src/tuple.rs: `Tuple`. A string is the list of its UTF-8 bytes, a double its 64 bits; which bytes are
-- UTF-8 is a parameter.
--
-- src/btree.rs: `Btree`, over the bytes of a `Page`: `Key`, `Entry`, `Node` (one page), `Tree` and
-- `Insert` (the pages of a pool). The order of doubles is a parameter of `compare_keys`, and the work on nodes
-- takes the comparison as a parameter; `Btree.Order` has the laws that the proofs need of it. The walks
-- over pages run on fuel, one for each page visited. Without fuel there is no result.
--
-- src/lexer.rs: `Lexer`. Text is the list of its code points, and the position is what follows it.
-- `tokenize` runs on fuel, one more than the characters, and running out of fuel is a result of its own.
-- White space and the parsing of doubles are parameters.
--
-- The other loops run over lists, over the sixteen shards or over a number of slots, with no fuel.
--
-- Not modelled: the grammar (src/parser.rs), the resolution of names and the statements
-- (src/analyzer.rs, src/executor.rs), the catalog, what the server sends and calls; condition
-- variables, whose waking is left to the steps, and `wait_for_txn_completion`, which changes no table.
pub mod Prelude
pub mod Analyzer
pub mod Btree
pub mod BufferPool
pub mod Checkpoint
pub mod Clog
pub mod Executor
pub mod Lexer
pub mod Lock
pub mod LockManager
pub mod Page
pub mod Protocol
pub mod Recovery
pub mod Sequence
pub mod StatusLog
pub mod Transaction
pub mod TransactionManager
pub mod Tuple
pub mod Visibility
pub mod Wal
