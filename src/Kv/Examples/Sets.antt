-- ===== src/Kv/Examples/Sets.antt =====
-- The theorems on sets and on what hgetall lists, at a tree with a table of sets and of a hash, and
-- at a new set.
use zenith_db.Prelude.{ℕ, ◌≡◌, refl, Bool, true, false, not, ◌&&◌, none, List, [], ◌∷◌, length}
use zenith_db.Bytes.{Bytes, bytes_eq, bytes_lt, codes}
use zenith_db.Dict.{Dict, lookup}
use zenith_db.Python.Sets.{contains}
use zenith_db.Wal.Log.{SyncMode}
use zenith_db.Lsm.MemTable
use zenith_db.Lsm.MemTable.{MemTable}
use zenith_db.Lsm.Tables.Listed.{listed, listed-IsTable, listed_laws}
use zenith_db.Lsm.Merge.Newest.{live}
use zenith_db.Lsm.Tree
use zenith_db.Lsm.Tree.{LsmTree, Times, raw_get, first_found}
use zenith_db.Lsm.Tree.View.{IsWell}
use zenith_db.Python.Utf8.{is_utf8}
use zenith_db.Kv.{Result, returned, raises, StoreOps}
use zenith_db.Kv.Untyped.{QuietRun}
use zenith_db.Kv.Keys.{Engine, is_expired, is_due}
use zenith_db.Kv.Hashes.{hget, hgetall, remove_found}
use zenith_db.Kv.Backend.{tree_store, tree_laws, tree_scans}
use zenith_db.Kv.Sets.{
  smembers, sismember, sunion, sinter, sdiff, sadd, srem, add_members, add_missing,
}
use zenith_db.Kv.Members.{has_member, smembers-sismember, hgetall-hget}
use zenith_db.Kv.Algebra.{in_any, in_all, set_algebra}
use zenith_db.Kv.Edits.{Edit, adding, removing, HasSet}
use zenith_db.Kv.Membership.{run_edits, run_edits_refines, all_edited, edit_counts}
use zenith_db.Bytes.{starts_with}
use zenith_db.Bytes.Pack.{pack}
use zenith_db.Dict.{insert, insert_all, filter, sort}
use zenith_db.Wal.Frame.{checksum, encode, op_code}
use zenith_db.Wal.Log.{append, write_payload, sync_by_mode, sync, rotate}
use zenith_db.Kv.Keys.{
  delete, key_type, purge_key, remove_parts, remove_prefix, remove_all, with_prefix,
}
use zenith_db.Kv.Deletes.{sets, parts_prefix, delete-parts}
use zenith_db.Prelude.{◌++◌}
use zenith_db.Txn.{type_key}
use zenith_db.Prelude.{Option, some, true, inl, inr, Bool-cases}
use zenith_db.Kv.Hashes.{named_from}
use zenith_db.Kv.Live.{keys, matched, delete_each, flushdb}
use zenith_db.Kv.Untyped.{Typed}
use zenith_db.Kv.Emptied.{keys-flushdb}
use zenith_db.Kv.Examples.{store, store-StoreLaws, seconds}

abbrev pub crc : Bytes → ℕ
crc s = length s

abbrev pub times : ℕ → Times
times n = record { ts = n; now = n }

abbrev pub backing : StoreOps
backing = tree_store listed crc times

abbrev entries : Dict Bytes
entries =
    (codes "__H__:h:f", codes "v")
    ∷ (codes "__S__:a:x", codes "1")
    ∷ (codes "__S__:a:y", codes "1")
    ∷ (codes "__S__:b:y", codes "1")
    ∷ (codes "__TYPE__:a", codes "set")
    ∷ []

abbrev pub tree : LsmTree (Dict Bytes)
tree = record {
  memtable_size_bytes = 1000;
  wal = record {
    max_file_size = 1000;
    sync_mode = SyncMode.always;
    older = [];
    current_seq = 1;
    current = [];
    synced = 0;
    next_lsn = 1;
    last_sync_time = 0;
    is_open = true;
  };
  memtable = MemTable.empty 1000;
  immutable_memtable = none;
  readers = entries ∷ [];
  next_sst_id = 2;
}

tree-IsWell : IsWell listed tree
unfolding bytes_lt lookup bytes_eq MemTable.empty
tree-IsWell = record {
  settled = refl;
  memory = tt;
  named = refl;
  tables = (
    listed-IsTable entries
        ((
          (refl, (refl, (refl, (refl, tt)))),
          ((refl, (refl, (refl, tt))), ((refl, (refl, tt)), ((refl, tt), (tt, tt)))),
        ))
        refl,
    tt,
  );
}

abbrev engine : Engine backing seconds
engine = record { lsm = (tree, 0); ttl_heap = [] }

smembers-sismember_example :
    (members : List Bytes) × (smembers backing seconds 5 (codes "a") engine
      ≡ returned members engine)
    × ((m : Bytes)
        → sismember backing seconds 5 (codes "a") m engine ≡ returned (contains m members) engine)
unfolding tree_laws is_due Tree.get Tree.get_immutable raw_get first_found MemTable.get
    MemTable.empty lookup bytes_eq live
smembers-sismember_example =
    smembers-sismember backing seconds (tree_laws listed listed_laws crc times)
      (tree_scans listed listed_laws crc times) 5 (codes "a") engine tree-IsWell refl

hgetall-hget_example :
    (all : Dict Bytes) × (hgetall backing seconds 5 (codes "h") engine ≡ returned all engine)
    × ((field : Bytes)
        → hget backing seconds 5 (codes "h") field engine ≡ returned (lookup field all) engine)
unfolding tree_laws is_due Tree.get Tree.get_immutable raw_get first_found MemTable.get
    MemTable.empty bytes_eq live
hgetall-hget_example =
    hgetall-hget backing seconds (tree_laws listed listed_laws crc times)
      (tree_scans listed listed_laws crc times) 5 (codes "h") engine tree-IsWell
      (unfold lookup in refl)

set_algebra_example :
    (u : List Bytes) × (i : List Bytes) × (d : List Bytes) × (sunion backing seconds 5
        (codes "a" ∷ codes "b" ∷ [])
        engine
      ≡ returned u engine)
    × (sinter backing seconds 5 (codes "a" ∷ codes "b" ∷ []) engine ≡ returned i engine)
    × (sdiff backing seconds 5 (codes "a" ∷ codes "b" ∷ []) engine ≡ returned d engine)
    × ((m : Bytes)
        → (contains m u ≡ in_any backing seconds (codes "a" ∷ codes "b" ∷ []) m engine)
          × (contains m i ≡ in_all backing seconds (codes "a" ∷ codes "b" ∷ []) m engine)
          × (contains m d
              ≡ has_member backing seconds (codes "a") m engine
                && not (in_any backing seconds (codes "b" ∷ []) m engine)))
unfolding tree_laws is_due Tree.get Tree.get_immutable raw_get first_found MemTable.get
    MemTable.empty lookup bytes_eq live
set_algebra_example =
    set_algebra backing seconds (tree_laws listed listed_laws crc times)
      (tree_scans listed listed_laws crc times) 5 (codes "a") (codes "b" ∷ []) engine tree-IsWell
      (refl, (refl, tt))

abbrev fresh : Engine store seconds
fresh = record { lsm = λ k. none; ttl_heap = [] }

abbrev script : List (ℕ × Edit)
script =
    (1, adding (codes "x" ∷ codes "y" ∷ codes "x" ∷ []))
    ∷ (2, removing (codes "x" ∷ codes "z" ∷ []))
    ∷ (3, adding (codes "y" ∷ []))
    ∷ []

abbrev no_member : Bytes → Bool
no_member m = false

abbrev left_by : Result (Engine store seconds) (List ℕ) → Engine store seconds
left_by (returned _ e) = e
left_by (raises _ e) = e

after_script : Engine store seconds
after_script = left_by (run_edits store seconds (codes "s") script fresh)

script_returns :
    run_edits store seconds (codes "s") script fresh ≡ returned (2 ∷ 1 ∷ 0 ∷ []) after_script
unfolding after_script run_edits sadd srem add_members add_missing remove_found is_expired is_due
    bytes_eq
script_returns = refl

fresh-HasSet : HasSet store seconds store-StoreLaws (codes "s") no_member fresh
unfolding store-StoreLaws
fresh-HasSet = record { good = tt; members = λ m. refl; lasting = refl }

abbrev edits : List Edit
edits =
    adding (codes "x" ∷ codes "y" ∷ codes "x" ∷ [])
    ∷ removing (codes "x" ∷ codes "z" ∷ [])
    ∷ adding (codes "y" ∷ [])
    ∷ []

run_edits_refines_example :
    (2 ∷ 1 ∷ 0 ∷ [] ≡ edit_counts edits no_member)
    × HasSet store seconds store-StoreLaws (codes "s") (all_edited edits no_member) after_script
    × ((later : ℕ) (m : Bytes)
        → sismember store seconds later (codes "s") m after_script
          ≡ returned (all_edited edits no_member m) after_script)
run_edits_refines_example =
    run_edits_refines store seconds store-StoreLaws (codes "s") script no_member (2 ∷ 1 ∷ 0 ∷ [])
      fresh after_script fresh-HasSet script_returns

abbrev counted : Result (Engine backing seconds) ℕ → Engine backing seconds
counted (returned _ e) = e
counted (raises _ e) = e

after_delete : Engine backing seconds
after_delete = counted (delete backing seconds (codes "a" ∷ []) engine)

delete_returns : delete backing seconds (codes "a" ∷ []) engine ≡ returned 1 after_delete
unfolding after_delete delete purge_key is_utf8 remove_parts remove_prefix remove_all with_prefix
    starts_with is_due Tree.get Tree.get_immutable raw_get first_found MemTable.get MemTable.empty
    lookup bytes_eq live Tree.scan Tree.scan_tables Tree.scan_memory Tree.delete Tree.write
    Tree.write_memory append encode checksum op_code pack write_payload sync_by_mode sync rotate
    MemTable.put MemTable.is_full insert insert_all filter sort bytes_lt MemTable.get_sorted_entries
delete_returns = refl

delete-parts_example :
    ◌≡◌ {A = ℕ} 1 1
    × IsWell listed after_delete.lsm.0
    × (key_type backing seconds 9 (codes "a") after_delete ≡ returned (codes "none") after_delete)
    × ((j : Bytes) → backing.get after_delete.lsm (parts_prefix sets (codes "a") ++ j) ≡ none)
unfolding tree_laws Tree.get Tree.get_immutable raw_get first_found MemTable.get MemTable.empty
    lookup bytes_eq live
delete-parts_example =
    delete-parts backing seconds (tree_laws listed listed_laws crc times)
      (tree_scans listed listed_laws crc times) 9 sets (codes "a") 1 engine after_delete tree-IsWell
      refl delete_returns

abbrev any_name : Bytes → Bytes → Bool
any_name name pattern = true

abbrev emptied : Result (Engine backing seconds) (Unit {0}) → Engine backing seconds
emptied (returned _ e) = e
emptied (raises _ e) = e

after_flushdb : Engine backing seconds
after_flushdb = emptied (flushdb backing seconds any_name 5 engine)

engine-Typed : Typed backing seconds (tree_laws listed listed_laws crc times) engine
unfolding Tree.get Tree.get_immutable raw_get first_found MemTable.get MemTable.empty lookup
    bytes_eq live
engine-Typed key h = elim (Bool-cases (bytes_eq (codes "a") key)) [
  | inl same ↦
      let bad : ◌≡◌ {A = Option Bytes} (some (codes "set")) (some []) = rw (same, live) at h in cc
  | inr other ↦ let bad : ◌≡◌ {A = Option Bytes} none (some []) = rw (other, live) at h in cc
]

engine-QuietRun :
    QuietRun backing seconds (tree_laws listed listed_laws crc times) 5 (codes "a" ∷ []) engine
unfolding purge_key is_utf8 remove_parts remove_prefix remove_all with_prefix starts_with Tree.get
    Tree.get_immutable raw_get first_found MemTable.get MemTable.empty lookup bytes_eq live
    Tree.scan Tree.scan_tables Tree.scan_memory Tree.delete Tree.write Tree.write_memory append
    encode checksum op_code pack write_payload sync_by_mode sync rotate MemTable.put
    MemTable.is_full insert insert_all filter sort bytes_lt MemTable.get_sorted_entries
engine-QuietRun = (λ s h. cc, λ b s h. tt)

flushdb_returns : flushdb backing seconds any_name 5 engine ≡ returned tt after_flushdb
unfolding after_flushdb flushdb keys matched delete_each is_expired is_due named_from contains
    delete purge_key is_utf8 remove_parts remove_prefix remove_all with_prefix starts_with Tree.get
    Tree.get_immutable raw_get first_found MemTable.get MemTable.empty lookup bytes_eq live
    Tree.scan Tree.scan_tables Tree.scan_memory Tree.delete Tree.write Tree.write_memory append
    encode checksum op_code pack write_payload sync_by_mode sync rotate MemTable.put
    MemTable.is_full insert insert_all filter sort bytes_lt MemTable.get_sorted_entries Tree.flush
    Tree.flush_memtable Tree.write_frozen MemTable.len
flushdb_returns = refl

keys-flushdb_example :
    IsWell listed after_flushdb.lsm.0
    × ((key : Bytes) → backing.get after_flushdb.lsm (type_key key) ≡ none)
    × (keys backing seconds any_name 9 (codes "a") after_flushdb ≡ returned [] after_flushdb)
unfolding tree_laws named_from with_prefix starts_with bytes_eq live lookup Tree.scan
    Tree.scan_tables Tree.scan_memory filter sort insert insert_all bytes_lt
    MemTable.get_sorted_entries MemTable.empty
keys-flushdb_example =
    keys-flushdb backing seconds (tree_laws listed listed_laws crc times)
      (tree_scans listed listed_laws crc times) any_name 5 9 (codes "a") engine after_flushdb
      tree-IsWell engine-Typed engine-QuietRun (λ name. refl) flushdb_returns
