-- ===== src/Lsm.antt =====
-- The log-structured merge tree, zenith/storage/lsm.py: the in-memory table (MemTable), the merge
-- of a compaction (Merge), the interface of table files (Tables) and the tree itself (Tree).
pub mod MemTable
pub mod Merge
pub mod Tables
pub mod Tree
