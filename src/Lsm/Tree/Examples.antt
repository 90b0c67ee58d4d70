-- ===== src/Lsm/Tree/Examples.antt =====
-- The tree's theorems at a tree of three tables whose next write flushes and compacts.
use zenith_db.Prelude.{ℕ, ◌≡◌, refl, true, none, some, [], ◌∷◌, if◌then◌else◌, length}
use zenith_db.Bytes.{Bytes, bytes_eq, bytes_lt, codes}
use zenith_db.Bytes.Pack.{pack}
use zenith_db.Dict.{Dict, lookup, insert, sort, filter, IsSorted}
use zenith_db.Wal.Frame.{checksum, encode, op_code}
use zenith_db.Wal.Log.{WriteAheadLog, SyncMode, append, write_payload, sync_by_mode, sync, rotate}
use zenith_db.Lsm.MemTable
use zenith_db.Lsm.MemTable.{MemTable, tombstone}
use zenith_db.Lsm.Merge.{merge}
use zenith_db.Lsm.Tables.{in_range}
use zenith_db.Lsm.Tables.Listed.{listed, listed-IsTable, listed_laws}
use zenith_db.Lsm.Tree.{
  LsmTree, Times, done, get, put, delete, compact, flush_memtable, scan, write, write_memory,
  write_frozen, write_compacted,
}
use zenith_db.Lsm.Tree.View.{IsWell, SameView}
use zenith_db.Lsm.Tree.Compact.{compact-SameView}
use zenith_db.Lsm.Tree.Writes.{get-put_tree, get-delete_tree}
use zenith_db.Lsm.Tree.Scan.{lookup-scan}

abbrev crc : Bytes → ℕ
crc s = length s

abbrev log : WriteAheadLog
log = record {
  max_file_size = 1000;
  sync_mode = SyncMode.always;
  older = [];
  current_seq = 1;
  current = [];
  synced = 0;
  next_lsn = 1;
  last_sync_time = 0;
  is_open = true;
}

abbrev at : Times
at = record { ts = 5; now = 7 }

abbrev old_table : Dict Bytes
old_table = (codes "a", codes "1") ∷ (codes "b", codes "2") ∷ []

abbrev new_table : Dict Bytes
new_table = (codes "b", tombstone) ∷ []

-- A memory that is full after one entry.
abbrev tree : LsmTree (Dict Bytes)
tree = record {
  memtable_size_bytes = 10;
  wal = log;
  memtable = record { max_size_bytes = 10; entries = (codes "c", codes "3") ∷ []; byte_size = 18 };
  immutable_memtable = none;
  readers = old_table ∷ new_table ∷ old_table ∷ [];
  next_sst_id = 4;
}

tree-IsWell : IsWell listed tree
unfolding bytes_lt lookup bytes_eq
tree-IsWell = record {
  settled = refl;
  memory = (refl, tt);
  named = refl;
  tables = (
    listed-IsTable old_table ((refl, tt), (tt, tt)) refl,
    (
      listed-IsTable new_table (tt, tt) refl,
      (listed-IsTable old_table ((refl, tt), (tt, tt)) refl, tt),
    ),
  );
}

put_returns : (put listed crc tree (codes "b") (codes "9") at).1 ≡ done
unfolding put write write_memory append encode checksum op_code pack write_payload sync_by_mode sync
    rotate MemTable.put MemTable.is_full insert bytes_eq flush_memtable MemTable.len write_frozen
    MemTable.get_sorted_entries sort bytes_lt compact merge write_compacted filter MemTable.get
    lookup MemTable.empty
put_returns = refl

get-put_tree_example :
    IsWell listed (put listed crc tree (codes "b") (codes "9") at).0
    × ((j : Bytes)
        → get listed (put listed crc tree (codes "b") (codes "9") at).0 j
          ≡ (if bytes_eq (codes "b") j then some (codes "9") else get listed tree j))
unfolding bytes_eq
get-put_tree_example =
    get-put_tree listed listed_laws crc tree (codes "b") (codes "9") at tree-IsWell (cc) refl
      put_returns

delete_returns : (delete listed crc tree (codes "a") at).1 ≡ done
unfolding delete write write_memory append encode checksum op_code pack write_payload sync_by_mode
    sync rotate MemTable.put MemTable.is_full insert bytes_eq flush_memtable MemTable.len
    write_frozen MemTable.get_sorted_entries sort bytes_lt compact merge write_compacted filter
    MemTable.get lookup MemTable.empty
delete_returns = refl

get-delete_tree_example :
    IsWell listed (delete listed crc tree (codes "a") at).0
    × ((j : Bytes)
        → get listed (delete listed crc tree (codes "a") at).0 j
          ≡ (if bytes_eq (codes "a") j then none else get listed tree j))
get-delete_tree_example =
    get-delete_tree listed listed_laws crc tree (codes "a") at tree-IsWell (cc) delete_returns

compact_returns : (compact listed tree).1 ≡ done
unfolding compact merge write_compacted filter bytes_lt bytes_eq
compact_returns = refl

compact-SameView_example : SameView listed tree (compact listed tree).0
compact-SameView_example = compact-SameView listed listed_laws tree tree-IsWell compact_returns

lookup-scan_example :
    IsSorted (scan listed tree (some (codes "a")) (some (codes "b")))
    × ((j : Bytes)
        → lookup j (scan listed tree (some (codes "a")) (some (codes "b")))
          ≡ (if in_range (some (codes "a")) (some (codes "b")) j then get listed tree j else none))
lookup-scan_example = lookup-scan listed tree (some (codes "a")) (some (codes "b")) tree-IsWell
