-- ===== src/Lsm/Tree/Open/Restart.antt =====
-- What a restart reads: the log and the table files hold everything that the tree shows.
use mathlib.Core.List.{reverse}
use zenith_db.Prelude.{ℕ, ◌≡◌, refl, ap, ◌∙◌, Option, List}
use zenith_db.Bytes.{Bytes}
use zenith_db.Dict.{or_else}
use zenith_db.Wal.Frame.{WalFrame}
use zenith_db.Wal.Log
use zenith_db.Wal.Log.{WriteAheadLog, Segment, SyncMode, directory, read_directory, recover}
use zenith_db.Wal.Log.Append.{IsClean}
use zenith_db.Wal.Log.Segments.{IsOrdered, directory-open_log, recover-directory}
use zenith_db.Lsm.MemTable
use zenith_db.Lsm.MemTable.{MemTable, tombstone}
use zenith_db.Lsm.Merge.Newest.{live}
use zenith_db.Lsm.Tables.{TableOps}
use zenith_db.Lsm.Tree.{LsmTree, first_found, get}
use zenith_db.Lsm.Tree.View.{raw_get-settled}
use zenith_db.Lsm.Tree.Open.{replay, load_from, open_tree, default_file_size}

module _ (ops : TableOps) (crc32 : Bytes → ℕ) where
  -- What the log's frames and the table files give a reader.
  unfoldable pub durable : LsmTree ops.Table → Bytes → Option Bytes
  durable s k = live (
      or_else
        (MemTable.get (replay (MemTable.empty s.memtable_size_bytes) (recover crc32 s.wal).1) k)
        (first_found ops k (reverse s.readers)))

  -- The log is clean, its segments ascend, and with the files it gives what the tree shows.
  pub record IsRecoverable (s : LsmTree ops.Table) : Type 0 where
    pub clean : IsClean crc32 s.wal
    pub ordered : IsOrdered s.wal
    pub logged : (k : Bytes) → durable s k ≡ get ops s k

  -- A tree that is opened on the log and the table files of a recoverable tree, with any sync mode
  -- and at any time, reads every key as that tree did.
  pub get-open_tree :
      (s : LsmTree ops.Table) (mode : SyncMode) (files : List (ℕ × Option ops.Table)) (now : ℕ)
      → IsRecoverable s
      → (load_from ops 0 files).0 ≡ s.readers
      → (k : Bytes)
      → get ops (open_tree ops crc32 s.memtable_size_bytes mode (directory s.wal) files now) k
        ≡ get ops s k
  unfolding get open_tree durable
  get-open_tree s mode files now w e k =
      let s' = open_tree ops crc32 s.memtable_size_bytes mode (directory s.wal) files now in
      let found : (recover crc32 (Log.open_log default_file_size mode (directory s.wal) now)).1
          ≡ (recover crc32 s.wal).1 =
        recover-directory crc32 _ s.wal (directory-open_log default_file_size mode s.wal now) in
      ap live (raw_get-settled ops s' k refl)
      ∙ ap
          (λ (rs : List ops.Table).
            live (or_else (MemTable.get s'.memtable k) (first_found ops k (reverse rs))))
          e
      ∙ ap
          (λ (fs : List WalFrame). live (
            or_else (MemTable.get (replay (MemTable.empty s.memtable_size_bytes) fs) k)
              (first_found ops k (reverse s.readers))))
          found
      ∙ w.logged k
