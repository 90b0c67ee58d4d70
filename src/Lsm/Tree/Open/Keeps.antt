-- ===== src/Lsm/Tree/Open/Keeps.antt =====
-- Every write keeps the tree recoverable: what it shows can be read from the log and the files.
use zenith_db.Prelude.{List}
use zenith_db.Bytes.{Bytes}
use zenith_db.Dict.{Dict}
use zenith_db.Wal.Log
use zenith_db.Wal.Log.{WriteAheadLog, Segment, SyncMode, directory, read_directory}
use zenith_db.Lsm.MemTable
use zenith_db.Lsm.MemTable.{MemTable}
