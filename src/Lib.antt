-- ===== src/Lib.antt =====
-- ZenithDB's storage engine: a log-structured merge tree with a write-ahead log, table files and
-- Bloom filters, under zenith/storage/; its transactions, zenith/engine/txn.py; its key-value
-- engine, zenith/engine/kv.py; the core of its document store, zenith/engine/doc.py; and its wire
-- protocol, zenith/protocol/resp.py. (zenith.py at the root is the same code, bundled into one
-- file.)
--
-- The program's parts and their files:
-- - Prelude, Bytes, Bytes/Pack: Python's bytes as lists of numbers, their order, and the struct
--   module on big-endian fields. A float is carried as its bit pattern.
-- - Dict: Python's dict with bytes as keys, in the order of insertion, and sorting by key.
-- - Wal/Frame: zenith/storage/wal.py, the record that WriteAheadLog.append writes (`encode`) and
--   the reading loop (`read_frames`). zlib.crc32 is the parameter `crc32`, any function.
-- - Wal/Log: the WriteAheadLog itself: `open_log` is __init__ on a directory, then `append`,
--   `sync`, `rotate`, `close`, `recover` and `purge_before`. The directory is a list of segments in
--   the order of their file names (that of their numbers below 10^8), and the record keeps how
--   many bytes of the newest one are on disk. `crash_at` is what a crash leaves.
-- - Bloom: zenith/storage/bloom.py. hashlib's SHA-256 is the parameter `sha256`.
-- - Lsm/MemTable, Lsm/Merge, Lsm/Tree: zenith/storage/lsm.py: the memory table, the heap merge of a
--   compaction, and the LSMTree with get, put, delete, scan, flush and compact.
-- - Lsm/Tree/Open: LSMTree.__init__ on the files that it finds (`open_tree`, with the replay of the
--   log) and close.
-- - Lsm/Tables: what the tree asks of table files, a record of operations `TableOps` with laws
--   `TableLaws`. Lsm/Tables/Listed meets them with lists of entries.
-- - Sst: zenith/storage/sstable.py, table files as bytes: `write_entry` and `finish` of SSTableWriter,
--   `open_reader`, `get` and `scan` of SSTableReader, `build` from a flush's entries to the opened
--   reader. `sst_tables` fills the tree's interface with them.
-- - Python: the integers, decimals, whitespace and slices of Python that the protocol uses, sets, and
--   which bytes are UTF-8.
-- - Resp: zenith/protocol/resp.py. Resp/Serializer is RESPSerializer (`encode`), Resp/Parser is
--   RESPParser with its buffer passed along (`feed`, `get_next`, `parse_from`). The UTF-8 codec is
--   the parameter `Utf8` with the laws `Utf8Laws`.
-- - Txn: zenith/engine/txn.py, transactions that buffer their writes, over the tree.
-- - Kv: zenith/engine/kv.py, KeyValueEngine over an abstract store `StoreOps` with laws `StoreLaws`.
--   Kv/Keys has expiry, purges, types and removal (`_is_expired` is `is_expired`,
--   `_purge_key_internal` is `purge_key`, `type` is `key_type`); Kv/Strings, Kv/Hashes, Kv/Lists,
--   Kv/Sets and Kv/SortedSets have the methods of each type under their names, and Kv/Live has ttl,
--   keys, dbsize and flushdb. Kv/Backend fills the interface, and that of scans, `ScanLaws`, with
--   the tree. Floats as times are the parameter `Clock`, as scores the parameter `Floats`, and
--   fnmatch is the parameter `matches`. The abstract views are in Kv/Calls (a double-ended queue),
--   Kv/Edits (a set as a test of membership) and Kv/Scores (scores as a function of the member).
-- - Doc: zenith/engine/doc.py, DocumentStore over the same store: get_nested_field, insert, get,
--   update, delete and count in Doc/Store (`_index_doc` is `index_doc`). The json module is the
--   parameter `Codec`.
--
-- How they interact: LSMTree.put and delete append to the log, then write the memory table, and
-- flush it when it is full; a flush builds a table, rotates the log, and compacts from four tables
-- on; a compaction merges the tables into one and purges the log's older segments. The engine
-- calls the tree for every read and write, and the protocol's values are its callers' arguments.
--
-- State is passed explicitly. A function that raises returns `none`; an operation of the tree
-- returns its state with `done` or `raised`, and one of the engine `returned` or `raises` with its
-- state; the engine tells a ValueError of the store from its other exceptions, since a purge's is
-- passed over by `_is_expired`. The log's times are in microseconds. The file system is the list of segments and the list
-- of tables: a write, an fsync and a removal succeed.
--
-- Fuel: the reading loop of a log takes the file's length, and each frame has a header of 34
-- bytes; the merge takes the count of all entries, and each round takes one. A lookup in a table
-- file takes the length of the data block, of which each entry has a header of 6 bytes; a scan
-- takes the entry count, as the source does; a binary search takes the count of keys. The parser's
-- `depth` is the interpreter's limit on recursion: beyond it, the source raises too.
--
-- Not modelled: the lock (every operation holds it to its end), the sizing of a Bloom filter by
-- logarithms (its results are arguments of `make` and the record `Sizing`), the temporary file of a
-- table and its renaming, digits and blanks of other scripts than ASCII in the lines of the
-- protocol, the JSON that the key-value engine's set makes of values, and the document store's
-- create_index and query, which compare and sort values of any JSON type as Python does. Of the
-- other parts, the text engine scores with logarithms over a regular expression's words, the vector
-- engine computes on floats, and the servers and the command line are sockets, threads and
-- terminal output around the engines. zenith.py is the bundle that tools/bundle.py makes; it repeats
-- the modules under zenith/.
pub mod Prelude
pub mod Bytes
pub mod Python
pub mod Resp
pub mod Wal
pub mod Dict
pub mod Bloom
pub mod Lsm
pub mod Sst
pub mod Txn
pub mod Kv
pub mod Doc
