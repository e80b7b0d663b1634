-- ===== src/Index.antt =====
-- src/index: the B+ tree of an index.
pub mod Node
pub mod BPlusTree
