-- ===== src/Btree.antt =====
-- src/btree.rs: the B+Tree whose nodes are slotted pages. `Key` has the keys and their order, `Entry` the
-- bytes of an entry, `Node` the work on one page, `Tree` the walks over the pages of a pool and
-- `Insert` what changes them. A panic and an error are both `none`.
pub mod Key
pub mod Entry
pub mod Node
pub mod Tree
pub mod Insert
pub mod Codec
pub mod KeyCodec
mod Tests
pub mod Order
pub mod Leaf
pub mod Rebuild
pub mod Reset
pub mod Insertion
pub mod Sorted
pub mod Lookup
pub mod Descend
