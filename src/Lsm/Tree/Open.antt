-- ===== src/Lsm/Tree/Open.antt =====
-- LSMTree.__init__ on the files that it finds, and close. A restart opens the directory that
-- an earlier tree has left.
pub mod Restart
pub mod Keeps
mod Examples
use zenith_db.Prelude.{ℕ, ◌+◌, Option, none, some, List, [], ◌∷◌, ltb, if◌then◌else◌}
use zenith_db.Bytes.{Bytes}
use zenith_db.Wal.Frame.{WalOpType, WalFrame}
use zenith_db.Wal.Log
use zenith_db.Wal.Log.{Segment, SyncMode}
use zenith_db.Lsm.MemTable
use zenith_db.Lsm.MemTable.{MemTable}
use zenith_db.Lsm.Tables.{TableOps}
use zenith_db.Lsm.Tree.{LsmTree, Outcome, done, raised, flush}

-- What `_recover_from_wal` does with a frame.
pub replay_frame : WalOpType → Bytes → Bytes → MemTable → MemTable
replay_frame WalOpType.set key value t = MemTable.put t key value
replay_frame WalOpType.del key value t = MemTable.delete t key
replay_frame WalOpType.expire key value t = t
replay_frame WalOpType.txn_begin key value t = t
replay_frame WalOpType.txn_commit key value t = t
replay_frame WalOpType.txn_rollback key value t = t
replay_frame WalOpType.flush key value t = t

pub replay : MemTable → List WalFrame → MemTable
replay t [] = t
replay t (f ∷ fs) = replay (replay_frame f.op_type f.key f.value t) fs

-- WriteAheadLog's `max_file_size`, which the tree leaves at its default of 32 MB.
abbrev pub default_file_size : ℕ
default_file_size = 33554432

module _ (ops : TableOps) where
  -- The loop of `_load_existing_sstables`, with the greatest number so far: a file is its number and
  -- the table that opening it gives; `none` is an exception, which skips the file.
  pub load_from : ℕ → List (ℕ × Option ops.Table) → List ops.Table × ℕ
  load_from max_id [] = ([], max_id)
  load_from max_id ((sst_id, file) ∷ files) =
      let (readers, last) = load_from (if ltb max_id sst_id then sst_id else max_id) files in
      elim file [ none ↦ (readers, last) | some reader ↦ (reader ∷ readers, last) ]

  pub open_tree :
      (Bytes → ℕ)
      → ℕ
      → SyncMode
      → List Segment
      → List (ℕ × Option ops.Table)
      → ℕ
      → LsmTree ops.Table
  open_tree crc32 memtable_size_bytes mode segments files now =
      let (readers, max_id) = load_from 0 files in
      let (wal, frames) = Log.recover crc32 (Log.open_log default_file_size mode segments now) in
      record {
        memtable_size_bytes = memtable_size_bytes;
        wal = wal;
        memtable = replay (MemTable.empty memtable_size_bytes) frames;
        immutable_memtable = none;
        readers = readers;
        next_sst_id = max_id + 1;
      }

  pub close : LsmTree ops.Table → LsmTree ops.Table × Outcome
  close s =
      let (s', outcome) = flush ops s in
      elim outcome [ raised ↦ (s', raised) | done ↦ (record s' { wal = Log.close s'.wal }, done) ]
