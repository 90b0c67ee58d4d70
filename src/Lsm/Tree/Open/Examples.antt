-- ===== src/Lsm/Tree/Open/Examples.antt =====
-- The theorems on restarts at a tree with a table file and an entry in the log.
use zenith_db.Prelude.{ℕ, ◌≡◌, refl, sym, ap, true, none, some, [], ◌∷◌, length}
use zenith_db.Bytes.{Bytes, codes}
use zenith_db.Dict.{Dict}
use zenith_db.Wal.Log.Segments.{purged-Holds}
use zenith_db.Wal.Log.{WriteAheadLog, SyncMode, directory, purge_before}
use zenith_db.Wal.Log.Append.{Holds, IsClean, recover-Holds}
use zenith_db.Lsm.MemTable
use zenith_db.Lsm.MemTable.{MemTable}
use zenith_db.Lsm.Merge.Newest.{live}
use zenith_db.Lsm.Tables.Listed.{listed}
use zenith_db.Lsm.Tree.{LsmTree, Times, get}
use zenith_db.Lsm.Tree.View.{raw_get-settled}
use zenith_db.Lsm.Tree.Open.{replay, load_from, open_tree}
use zenith_db.Lsm.Tree.Open.Restart.{durable, IsRecoverable, get-open_tree}

abbrev crc : Bytes → ℕ
crc s = length s

abbrev log : WriteAheadLog
log = record {
  max_file_size = 1000;
  sync_mode = SyncMode.always;
  older = [];
  current_seq = 2;
  current = [];
  synced = 0;
  next_lsn = 3;
  last_sync_time = 0;
  is_open = true;
}

abbrev file : Dict Bytes
file = (codes "a", codes "1") ∷ (codes "b", codes "2") ∷ []

abbrev tree : LsmTree (Dict Bytes)
tree = record {
  memtable_size_bytes = 30;
  wal = log;
  memtable = MemTable.empty 30;
  immutable_memtable = none;
  readers = file ∷ [];
  next_sst_id = 2;
}

log-Holds : Holds crc log [] []
unfolding purge_before
log-Holds = purged-Holds crc log tt refl

tree-IsRecoverable : IsRecoverable listed crc tree
unfolding IsClean durable get replay
tree-IsRecoverable = record {
  clean = ([], [], log-Holds);
  ordered = tt;
  logged =
      λ k. rw (recover-Holds crc log-Holds) (sym (ap live (raw_get-settled listed tree k refl)));
}

abbrev at : Times
at = record { ts = 5; now = 7 }

get-open_tree_example :
    get listed
      (open_tree listed crc 30 SyncMode.never (directory log) ((1, some file) ∷ (2, none) ∷ []) 9)
      (codes "a")
    ≡ get listed tree (codes "a")
unfolding load_from
get-open_tree_example =
    get-open_tree listed crc tree SyncMode.never ((1, some file) ∷ (2, none) ∷ []) 9
      tree-IsRecoverable refl (codes "a")
