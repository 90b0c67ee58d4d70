-- ===== src/Kv/Backend.antt =====
-- The LSM tree as the engine's store.
use mathlib.Core.Path.{subst}
use zenith_db.Prelude.{
  ℕ, ◌+◌, ◌≡◌, ◌≢◌, refl, ap, ◌∙◌, arith, Bool, false, map, inl, inr, none, some, Bool-cases,
  if◌then◌else◌,
}
use zenith_db.Bytes.{Bytes, bytes_eq}
use zenith_db.Bytes.Order.{bytes_eq→eq}
use mathlib.Core.List.{reverse}
use zenith_db.Dict.{Dict}
use zenith_db.Wal.Frame.{WalOpType}
use zenith_db.Wal.Log
use zenith_db.Lsm.MemTable
use zenith_db.Lsm.MemTable.{tombstone}
use zenith_db.Lsm.Merge.{merge}
use zenith_db.Lsm.Tables.{TableOps, TableLaws}
use zenith_db.Lsm.Tree
use zenith_db.Lsm.Tree.{LsmTree, Outcome, done, raised, Times}
use zenith_db.Lsm.Tree.View.{IsWell}
use zenith_db.Lsm.Tree.Flush.{flush-SameView}
use zenith_db.Lsm.Tree.Scan.{lookup-scan}
use zenith_db.Lsm.Tree.Writes.{get-put_tree, get-delete_tree}
use zenith_db.Kv.{
  Result, returned, raises, Exception, value_error, other_error, StoreOps, StoreLaws, ScanLaws,
  returned_injective,
}

-- The clock's readings in each write of the tree, and the count of writes so far.
module _ (ops : TableOps) (crc32 : Bytes → ℕ) (times : ℕ → Times) where
  abbrev Backend : Type 0
  Backend = LsmTree ops.Table × ℕ

  -- A write that raises behind the log is in a flush: of the table that is still frozen, or else in
  -- the compaction of the tables.
  abbrev unwritten : LsmTree ops.Table → Dict Bytes
  unwritten s = elim s.immutable_memtable [
    | some frozen ↦ MemTable.get_sorted_entries frozen
    | none ↦ merge (map (λ r. ops.scan r none none) (reverse s.readers))
  ]

  abbrev exception : Bool → Exception
  exception b = if b then value_error else other_error

  abbrev of_flush : LsmTree ops.Table → Exception
  of_flush s = exception (ops.refuses (unwritten s))

  -- The log's own exceptions are no ValueError.
  abbrev of_write :
      WalOpType → Bytes → Bytes → LsmTree ops.Table → Times → LsmTree ops.Table → Exception
  of_write op k v s t s' = elim (Log.append crc32 s.wal op k v t.ts t.now).1 [
    | none ↦ other_error
    | some _ ↦ of_flush s'
  ]

  abbrev settled : LsmTree ops.Table → Outcome → Exception → ℕ → Result Backend (Unit {0})
  settled s done x n = returned tt (s, n + 1)
  settled s raised x n = raises x (s, n + 1)

  abbrev put : Bytes → Bytes → Backend → Result Backend (Unit {0})
  put k v b =
      settled (Tree.put ops crc32 b.0 k v (times b.1)).0 (Tree.put ops crc32 b.0 k v (times b.1)).1
        (of_write WalOpType.set k v b.0 (times b.1) (Tree.put ops crc32 b.0 k v (times b.1)).0) b.1

  abbrev remove : Bytes → Backend → Result Backend (Unit {0})
  remove k b =
      settled (Tree.delete ops crc32 b.0 k (times b.1)).0
        (Tree.delete ops crc32 b.0 k (times b.1)).1
        (of_write WalOpType.del k tombstone b.0 (times b.1)
          (Tree.delete ops crc32 b.0 k (times b.1)).0)
        b.1

  abbrev flush_tree : Backend → Result Backend (Unit {0})
  flush_tree b =
      settled (Tree.flush ops b.0).0 (Tree.flush ops b.0).1 (of_flush (Tree.flush ops b.0).0) b.1

  abbrev pub tree_store : StoreOps
  tree_store = record {
    Store = Backend;
    get = λ b k. Tree.get ops b.0 k;
    put = put;
    delete = remove;
    scan = λ b start. Tree.scan ops b.0 (some start) none;
    flush = flush_tree;
  }

  pub settled-returned :
      (s : LsmTree ops.Table) (o : Outcome) (x : Exception) (n : ℕ) (b : Backend)
      → settled s o x n ≡ returned tt b
      → (o ≡ done) × (s ≡ b.0)
  settled-returned s done x n b h =
      let (_, same) = returned_injective h in (refl, ap (λ (x : Backend). x.0) same)
  settled-returned s raised x n b h = cc

pub not_tombstone : (v : Bytes) → v ≢ tombstone → bytes_eq v tombstone ≡ false
not_tombstone v h = elim (Bool-cases (bytes_eq v tombstone)) [
  | inl same ↦ absurd (h (bytes_eq→eq v tombstone same))
  | inr other ↦ other
]

-- What the engine relies on, of a well-formed tree over lawful tables.
unfoldable pub tree_laws :
    (ops : TableOps)
    → TableLaws ops
    → (crc32 : Bytes → ℕ) (times : ℕ → Times) → StoreLaws (tree_store ops crc32 times)
tree_laws ops laws crc32 times = record {
  IsStore = λ b. IsWell ops b.0;
  puts = λ k v b b' w p q h.
      let (o, same) = settled-returned ops crc32 times _ _ _ b.1 b' h in
      subst
        (λ (s : LsmTree ops.Table).
          IsWell ops s
          × ((j : Bytes)
              → Tree.get ops s j ≡ (if bytes_eq k j then some v else Tree.get ops b.0 j)))
        same (get-put_tree ops laws crc32 b.0 k v (times b.1) w p (not_tombstone v q) o);
  deletes = λ k b b' w p h.
      let (o, same) = settled-returned ops crc32 times _ _ _ b.1 b' h in
      subst
        (λ (s : LsmTree ops.Table).
          IsWell ops s
          × ((j : Bytes) → Tree.get ops s j ≡ (if bytes_eq k j then none else Tree.get ops b.0 j)))
        same (get-delete_tree ops laws crc32 b.0 k (times b.1) w p o);
  flushes = λ b b' w h.
      let (o, same) = settled-returned ops crc32 times _ _ _ b.1 b' h in
      let v = flush-SameView ops laws b.0 w o in
      subst
        (λ (s : LsmTree ops.Table).
          IsWell ops s × ((j : Bytes) → Tree.get ops s j ≡ Tree.get ops b.0 j))
        same (v.well, v.views);
}

-- The scans of a well-formed tree meet what the engine relies on.
pub tree_scans :
    (ops : TableOps) (laws : TableLaws ops) (crc32 : Bytes → ℕ) (times : ℕ → Times)
    → ScanLaws (tree_store ops crc32 times) (tree_laws ops laws crc32 times)
unfolding tree_laws
tree_scans ops laws crc32 times = record {
  sorted = λ b start w. (lookup-scan ops b.0 (some start) none w).0;
  listed = λ b start j w. (lookup-scan ops b.0 (some start) none w).1 j ∙ ground arith;
}

-- The tree over lawful tables meets what the engine relies on of reads, writes and scans, and a
-- store of the engine is as well formed as its tree.
pub tree_store-StoreLaws :
    (ops : TableOps) (laws : TableLaws ops) (crc32 : Bytes → ℕ) (times : ℕ → Times)
    → (meets : StoreLaws (tree_store ops crc32 times)) × ScanLaws (tree_store ops crc32 times) meets
      × ((s : LsmTree ops.Table) (writes : ℕ) → meets.IsStore (s, writes) ≡ IsWell ops s)
unfolding tree_laws
tree_store-StoreLaws ops laws crc32 times =
    (tree_laws ops laws crc32 times, tree_scans ops laws crc32 times, λ s writes. refl)
