-- ===== src/Sst.antt =====
-- Table files, zenith/storage/sstable.py. A file is its bytes; `finish` makes it from what the
-- writer holds, and the temporary file and its renaming are not modelled. `none` is an exception.
pub mod Writer
pub mod Reader
pub mod Blocks
pub mod Ranges
pub mod Index
pub mod Written
pub mod Opened
pub mod Bounds
pub mod Held
pub mod Answers
pub mod Table
mod Examples
