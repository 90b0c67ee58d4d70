-- ===== src/Lsm/Tree/Flush.antt =====
-- A flush changes nothing that a reader sees.
use mathlib.Core.List.{reverse, reverse-append}
use zenith_db.Prelude.{
  ◌+◌, ◌≡◌, refl, sym, ap, ◌∙◌, Option, none, some, [], ◌∷◌, ◌++◌, inl, inr, Option-cases,
  Bool-cases, leb, ◌==◌, length, All-append,
}
use zenith_db.Bytes.{Bytes}
use zenith_db.Dict.{lookup, or_else}
use zenith_db.Dict.Sorted.{lookup-sort, sort-IsSorted}
use zenith_db.Wal.Log
use zenith_db.Lsm.MemTable
use zenith_db.Lsm.MemTable.{MemTable}
use zenith_db.Lsm.Merge.Newest.{live}
use zenith_db.Lsm.Tables.{TableOps, TableLaws, IsTable}
use zenith_db.Lsm.Tree.{
  LsmTree, done, raised, first_found, get, compact, write_frozen, flush_memtable, flush,
}
use zenith_db.Lsm.Tree.View.{
  Outcome-cases, wal-SameView, IsWell, SameView, SameView-refl, SameView-trans, raw_get-settled,
}
use zenith_db.Lsm.Tree.Compact.{compact-SameView}

module _ (ops : TableOps) (laws : TableLaws ops) where
  -- The tree with the frozen table in a file.
  unfoldable pub flushed : LsmTree ops.Table → ops.Table → LsmTree ops.Table
  flushed s t = record s {
    memtable = MemTable.empty s.memtable_size_bytes;
    next_sst_id = s.next_sst_id + 1;
    readers = s.readers ++ t ∷ [];
    wal = Log.rotate s.wal;
    immutable_memtable = none;
  }

  pub flushed-SameView :
      (s : LsmTree ops.Table) (t : ops.Table)
      → IsWell ops s
      → ops.build (MemTable.get_sorted_entries s.memtable) ≡ some t
      → SameView ops s (flushed s t)
  unfolding flushed get MemTable.get_sorted_entries MemTable.empty MemTable.get first_found lookup
  flushed-SameView s t w ok =
      let es = MemTable.get_sorted_entries s.memtable in
      let (table, holds) =
        laws.built es t ok (sort-IsSorted s.memtable.entries w.memory)
          (lookup-sort [] s.memtable.entries ∙ w.named) in
      record {
        well = record {
          settled = refl;
          memory = tt;
          named = refl;
          tables = All-append (IsTable ops) s.readers (t ∷ []) w.tables (table, tt);
        };
        views = λ k.
            let found : ops.get t k ≡ MemTable.get s.memtable k =
              table.gets k ∙ ap (lookup k) holds ∙ lookup-sort k s.memtable.entries in
            ap live (
              raw_get-settled ops (flushed s t) k refl
              ∙ ap (first_found ops k) (reverse-append s.readers (t ∷ []))
              ∙ ap (λ (o : Option Bytes). or_else o (first_found ops k (reverse s.readers))) found
              ∙ sym (raw_get-settled ops s k w.settled));
      }

  -- A flush that returns, of a well-formed tree, with the compaction that it may start, leaves the
  -- tree well formed, and every read gives what it gave before.
  pub flush_memtable-SameView :
      (s : LsmTree ops.Table)
      → IsWell ops s
      → (flush_memtable ops s).1 ≡ done
      → SameView ops s (flush_memtable ops s).0
  unfolding flush_memtable write_frozen flushed
  flush_memtable-SameView s w h = elim (Bool-cases (MemTable.len s.memtable == 0)) [
    | inl nothing ↦ rw nothing (SameView-refl ops s w)
    | inr some_entries ↦ elim (Option-cases (ops.build (MemTable.get_sorted_entries s.memtable))) [
      | inl bad ↦ let q : raised ≡ done = rw (some_entries, bad, write_frozen) at h in cc
      | inr (t, ok) ↦
          let v = flushed-SameView s t w ok in
          elim (Bool-cases (leb 4 (length (s.readers ++ t ∷ [])))) [
            | inl many ↦
                let h' : (compact ops (flushed s t)).1 ≡ done =
                  rw (some_entries, ok, write_frozen, many) at h in
                rw (some_entries, ok, write_frozen, many)
                  (SameView-trans ops v (compact-SameView ops laws (flushed s t) v.well h'))
            | inr few ↦ rw (some_entries, ok, write_frozen, few) v
          ]
    ]
  ]

  -- The log is synced behind it.
  pub flush-SameView :
      (s : LsmTree ops.Table)
      → IsWell ops s
      → (flush ops s).1 ≡ done
      → SameView ops s (flush ops s).0
  unfolding flush
  flush-SameView s w h = elim (Outcome-cases (flush_memtable ops s).1) [
    | inl bad ↦ let q : raised ≡ done = rw (bad, flush) at h in cc
    | inr ok ↦
        let v = flush_memtable-SameView s w ok in
        rw (ok, flush) (SameView-trans ops v (wal-SameView ops (flush_memtable ops s).0 _ v.well))
  ]
