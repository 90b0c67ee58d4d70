-- ===== src/Txn/Examples.antt =====
-- The theorems on commits at a transaction of one set and one delete.
use zenith_db.Prelude.{ℕ, ◌≡◌, refl, true, false, none, [], ◌∷◌, length}
use zenith_db.Bytes.{Bytes, bytes_eq, bytes_lt, codes}
use zenith_db.Bytes.Pack.{pack}
use zenith_db.Dict.{Dict, lookup, insert}
use zenith_db.Wal.Frame.{checksum, encode, op_code}
use zenith_db.Wal.Log.{SyncMode, append, write_payload, sync_by_mode, sync, rotate}
use zenith_db.Lsm.MemTable
use zenith_db.Lsm.MemTable.{MemTable, tombstone}
use zenith_db.Lsm.Tables.Listed.{listed, listed-IsTable, listed_laws}
use zenith_db.Lsm.Tree
use zenith_db.Lsm.Tree.{LsmTree, Times, done, put, delete, write, write_memory}
use zenith_db.Lsm.Tree.View.{IsWell}
use zenith_db.Txn.{
  Transaction, exit, value_key, commit, write_all, write_buffered, write_one, mark, and_then,
}
use zenith_db.Txn.{set}
use zenith_db.Txn.Block.{get-exit}
use zenith_db.Txn.Commit.{overlay, get-commit}

abbrev crc : Bytes → ℕ
crc s = length s

abbrev tree : LsmTree (Dict Bytes)
tree = record {
  memtable_size_bytes = 1000;
  wal = record {
    max_file_size = 1000;
    sync_mode = SyncMode.always;
    older = [];
    current_seq = 1;
    current = [];
    synced = 0;
    next_lsn = 1;
    last_sync_time = 0;
    is_open = true;
  };
  memtable = MemTable.empty 1000;
  immutable_memtable = none;
  readers = ((codes "a", codes "1") ∷ []) ∷ [];
  next_sst_id = 2;
}

tree-IsWell : IsWell listed tree
unfolding bytes_lt lookup bytes_eq MemTable.empty
tree-IsWell = record {
  settled = refl;
  memory = tt;
  named = refl;
  tables = (listed-IsTable ((codes "a", codes "1") ∷ []) (tt, tt) refl, tt);
}

abbrev txn : Transaction
txn = record {
  write_buffer = (value_key (codes "k"), codes "v") ∷ (codes "a", tombstone) ∷ [];
  meta_buffer = (codes "__TYPE__:k", codes "string") ∷ [];
  committed = false;
  rolled_back = false;
}

abbrev clock : ℕ → Times
clock i = record { ts = i; now = i }

commit_returns : (commit listed crc clock txn tree).2 ≡ done
unfolding commit write_all write_buffered write_one mark and_then put delete write write_memory
    append encode checksum op_code pack write_payload sync_by_mode sync rotate MemTable.put
    MemTable.is_full insert bytes_eq MemTable.get lookup MemTable.empty
commit_returns = refl

get-commit_example :
    ((commit listed crc clock txn tree).0.committed ≡ true)
    × IsWell listed (commit listed crc clock txn tree).1
    × ((j : Bytes)
        → Tree.get listed (commit listed crc clock txn tree).1 j
          ≡ overlay txn.meta_buffer j (overlay txn.write_buffer j (Tree.get listed tree j)))
unfolding lookup bytes_eq
get-commit_example =
    get-commit listed listed_laws crc clock txn tree tree-IsWell ((refl, (refl, tt)), refl)
      ((refl, tt), refl) commit_returns

get-exit_example :
    IsWell listed (exit listed crc clock false txn tree).1
    × ((j : Bytes)
        → Tree.get listed (exit listed crc clock false txn tree).1 j
          ≡ overlay txn.meta_buffer j (overlay txn.write_buffer j (Tree.get listed tree j)))
    × ((key value : Bytes) → set (exit listed crc clock false txn tree).0 key value ≡ none)
unfolding exit lookup bytes_eq
get-exit_example =
    get-exit listed listed_laws crc clock false txn tree tree-IsWell ((refl, (refl, tt)), refl)
      ((refl, tt), refl) refl commit_returns
