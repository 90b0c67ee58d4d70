-- ===== src/Lsm/Tree.antt =====
-- LSMTree. The tables are those of its readers, the oldest first. An operation that raises leaves
-- the state that it had reached. The lock is not modelled: every operation holds it to its end.
pub mod View
pub mod Compact
pub mod Flush
pub mod Writes
pub mod Scan
pub mod Open
mod Examples
use mathlib.Core.List.{reverse}
use zenith_db.Prelude.{
  ℕ, zero, ◌+◌, Bool, true, false, not, ◌&&◌, Option, none, some, List, [], ◌∷◌, ◌++◌, map, ltb,
  leb, ◌==◌, if◌then◌else◌, length,
}
use zenith_db.Bytes.{Bytes, bytes_eq}
use zenith_db.Dict
use zenith_db.Dict.{Dict}
use zenith_db.Wal.Frame.{WalOpType, WalFrame}
use zenith_db.Wal.Log
use zenith_db.Wal.Log.{WriteAheadLog}
use zenith_db.Lsm.MemTable
use zenith_db.Lsm.MemTable.{MemTable, tombstone}
use zenith_db.Lsm.Merge.{merge}
use zenith_db.Lsm.Merge.Newest.{live}
use zenith_db.Lsm.Tables.{TableOps, in_range, ranged}

pub data Outcome : Type 0 where
  done raised : Outcome

-- The clock's readings in an operation: the frame's time stamp, and the time of the sync.
pub record Times : Type 0 where
  pub ts : ℕ
  pub now : ℕ

pub record LsmTree (Table : Type 0) : Type 0 where
  pub memtable_size_bytes : ℕ
  pub wal : WriteAheadLog
  pub memtable : MemTable
  pub immutable_memtable : Option MemTable
  pub readers : List Table
  pub next_sst_id : ℕ

-- A lookup in the table that is being flushed, if there is one.
unfoldable pub get_immutable : Option MemTable → Bytes → Option Bytes
get_immutable none key = none
get_immutable (some t) key = MemTable.get t key

module _ (ops : TableOps) where
  -- `for reader in reversed(...)`: the first value found.
  unfoldable pub first_found : Bytes → List ops.Table → Option Bytes
  first_found key [] = none
  first_found key (r ∷ rs) = Dict.or_else (ops.get r key) (first_found key rs)

  -- The newest value of a key, tombstone or not: the tables in memory, then the files from the
  -- newest to the oldest.
  unfoldable pub raw_get : LsmTree ops.Table → Bytes → Option Bytes
  raw_get s key =
      Dict.or_else (MemTable.get s.memtable key) (
        Dict.or_else (get_immutable s.immutable_memtable key) (first_found key (reverse s.readers)))

  -- Each source's value is returned unless it is the tombstone.
  unfoldable pub get : LsmTree ops.Table → Bytes → Option Bytes
  get s key = live (raw_get s key)

  -- The end of `compact`: the old tables are closed and removed, the new one is opened, and the
  -- segments before the current one are purged.
  unfoldable pub finish_compaction : LsmTree ops.Table → List ops.Table → LsmTree ops.Table
  finish_compaction s readers = record s {
    readers = readers;
    wal = (Log.purge_before s.wal s.wal.current_seq).0;
  }

  -- A table without entries leaves no file.
  unfoldable pub write_compacted : LsmTree ops.Table → Dict Bytes → LsmTree ops.Table × Outcome
  write_compacted s [] = (finish_compaction s [], done)
  write_compacted s (e ∷ entries) = elim (ops.build (e ∷ entries)) [
    | none ↦ (s, raised)
    | some t ↦ (finish_compaction s (t ∷ []), done)
  ]

  unfoldable pub compact : LsmTree ops.Table → LsmTree ops.Table × Outcome
  compact s =
      if ltb (length s.readers) 2
      then (s, done)
      else write_compacted (record s { next_sst_id = s.next_sst_id + 1 })
          (merge (map (λ r. ops.scan r none none) (reverse s.readers)))

  -- The frozen table is written; the log rotates; four tables are compacted.
  unfoldable pub write_frozen : LsmTree ops.Table → MemTable → LsmTree ops.Table × Outcome
  write_frozen s frozen = elim (ops.build (MemTable.get_sorted_entries frozen)) [
    | none ↦ (s, raised)
    | some t ↦
        let s : LsmTree ops.Table = record s {
          readers = s.readers ++ t ∷ [];
          wal = Log.rotate s.wal;
          immutable_memtable = none;
        } in
        if leb 4 (length s.readers) then compact s else (s, done)
  ]

  unfoldable pub flush_memtable : LsmTree ops.Table → LsmTree ops.Table × Outcome
  flush_memtable s =
      if MemTable.len s.memtable == 0
      then (s, done)
      else write_frozen
          (record s {
            immutable_memtable = some s.memtable;
            memtable = MemTable.empty s.memtable_size_bytes;
            next_sst_id = s.next_sst_id + 1;
          })
          s.memtable

  -- `flush`: the tables, and then the log.
  unfoldable pub flush : LsmTree ops.Table → LsmTree ops.Table × Outcome
  flush s =
      let (s', outcome) = flush_memtable s in
      elim outcome [ raised ↦ (s', raised) | done ↦ (record s' { wal = Log.sync s'.wal }, done) ]

  module _ (crc32 : Bytes → ℕ) where
    -- What `put` and `delete` do behind the log: the write to memory, and a flush if it is full.
    unfoldable pub write_memory : LsmTree ops.Table → Bytes → Bytes → LsmTree ops.Table × Outcome
    write_memory s key value =
        let s : LsmTree ops.Table = record s { memtable = MemTable.put s.memtable key value } in
        if MemTable.is_full s.memtable then flush_memtable s else (s, done)

    unfoldable pub write :
        LsmTree ops.Table → WalOpType → Bytes → Bytes → Times → LsmTree ops.Table × Outcome
    write s op key value t =
        let (wal, lsn) = Log.append crc32 s.wal op key value t.ts t.now in
        let s : LsmTree ops.Table = record s { wal = wal } in
        elim lsn [ none ↦ (s, raised) | some _ ↦ write_memory s key value ]

    unfoldable pub put : LsmTree ops.Table → Bytes → Bytes → Times → LsmTree ops.Table × Outcome
    put s key value t = write s WalOpType.set key value t

    unfoldable pub delete : LsmTree ops.Table → Bytes → Times → LsmTree ops.Table × Outcome
    delete s key t = write s WalOpType.del key tombstone t

  -- The dictionary that a scan collects, from the oldest table to the memory.
  unfoldable pub scan_tables :
      Option Bytes → Option Bytes → List ops.Table → Dict Bytes → Dict Bytes
  scan_tables start end [] combined = combined
  scan_tables start end (r ∷ rs) combined =
      scan_tables start end rs (Dict.insert_all combined (ops.scan r start end))

  unfoldable pub scan_memory :
      Option Bytes → Option Bytes → Option MemTable → Dict Bytes → Dict Bytes
  scan_memory start end none combined = combined
  scan_memory start end (some t) combined =
      Dict.insert_all combined (ranged start end (MemTable.get_sorted_entries t))

  unfoldable pub scan : LsmTree ops.Table → Option Bytes → Option Bytes → Dict Bytes
  scan s start end =
      let combined = scan_tables start end s.readers [] in
      let combined = scan_memory start end s.immutable_memtable combined in
      let combined = scan_memory start end (some s.memtable) combined in
      Dict.filter (λ k v. not (bytes_eq v tombstone)) (Dict.sort combined)
