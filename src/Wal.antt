-- ===== src/Wal.antt =====
-- The write-ahead log, zenith/storage/wal.py: the frame format and the reader of a segment (Frame),
-- and the log with its segments (Log). A frame's time stamp is the bit pattern of its double;
-- `crc32` is zlib's.
pub mod Frame
pub mod Log
