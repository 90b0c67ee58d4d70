-- ===== src/Lsm/Tree/Compact.antt =====
-- A compaction changes nothing that a reader sees.
use mathlib.Core.Path.{subst}
use mathlib.Core.List.{reverse}
use zenith_db.Prelude.{
  ◌+◌, ◌≡◌, refl, sym, ap, ◌∙◌, Option, none, some, List, [], ◌∷◌, inl, inr, Option-cases,
  Bool-cases, ltb, length, All,
}
use zenith_db.Bytes.{Bytes}
use zenith_db.Dict.{Dict, lookup, IsSorted, or_else}
use zenith_db.Lsm.MemTable
use zenith_db.Lsm.MemTable.{tombstone}
use zenith_db.Lsm.Merge.{merge}
use zenith_db.Lsm.Merge.Pop.{newest}
use zenith_db.Lsm.Merge.Newest.{live, lookup-merge}
use zenith_db.Lsm.Tables.{TableOps, TableLaws, IsTable, IsNamed}
use zenith_db.Lsm.Tree.{
  LsmTree, done, raised, first_found, raw_get, get, finish_compaction, write_compacted, compact,
}
use zenith_db.Lsm.Tree.View.{
  SameView, SameView-refl, IsWell, streams, All-reverse, first_found-newest, streams-AllSorted,
  newest_named, raw_get-settled, live-live, live-or_else,
}

live-none_lem : live none ≡ none
unfolding live
live-none_lem = refl

or_else-none : (o : Option Bytes) → or_else o none ≡ o
or_else-none none = refl
or_else-none (some v) = refl

module _ (ops : TableOps) (laws : TableLaws ops) where
  -- The files of a compacted tree answer as the merged entries.
  compacted-SameView :
      (s : LsmTree ops.Table) (rs : List ops.Table)
      → IsWell ops s
      → All (IsTable ops) rs
      → ((k : Bytes)
          → first_found ops k (reverse rs) ≡ lookup k (merge (streams ops (reverse s.readers))))
      → SameView ops s (finish_compaction ops s rs)
  unfolding finish_compaction get
  compacted-SameView s rs w ts found = record {
    well = record { settled = w.settled; memory = w.memory; named = w.named; tables = ts };
    views = λ k.
        let old = All-reverse ops s.readers w.tables in
        let (_, values) =
          lookup-merge (streams ops (reverse s.readers))
            (streams-AllSorted ops (reverse s.readers) old) in
        ap live (raw_get-settled ops (finish_compaction ops s rs) k w.settled)
        ∙ live-or_else (MemTable.get s.memtable k) _ _ (
            ap live (found k ∙ values k)
            ∙ live-live (newest k (streams ops (reverse s.readers)))
            ∙ ap live (sym (first_found-newest ops k (reverse s.readers) old)))
        ∙ sym (ap live (raw_get-settled ops s k w.settled));
  }

  -- The merged entries, once they are in a file.
  write_compacted-SameView :
      (s : LsmTree ops.Table) (d : Dict Bytes)
      → IsWell ops s
      → merge (streams ops (reverse s.readers)) ≡ d
      → (write_compacted ops s d).1 ≡ done
      → SameView ops s (write_compacted ops s d).0
  unfolding write_compacted first_found lookup
  write_compacted-SameView s [] w e h = compacted-SameView s [] w tt (λ k. sym (ap (lookup k) e))
  write_compacted-SameView s (x ∷ d) w e h = elim (Option-cases (ops.build (x ∷ d))) [
    | inl bad ↦ let q : raised ≡ done = rw (bad, write_compacted) at h in cc
    | inr (t, ok) ↦
        let old = All-reverse ops s.readers w.tables in
        let (sorted, values) =
          lookup-merge (streams ops (reverse s.readers))
            (streams-AllSorted ops (reverse s.readers) old) in
        let named : IsNamed (x ∷ d) =
          ap (lookup []) (sym e)
          ∙ values []
          ∙ ap live (newest_named ops (reverse s.readers) old)
          ∙ live-none_lem in
        let (table, holds) = laws.built (x ∷ d) t ok (subst IsSorted e sorted) named in
        rw (ok, write_compacted)
          (compacted-SameView s (t ∷ []) w (table, tt)
            (λ k. one_table t k ∙ table.gets k ∙ ap (lookup k) (holds ∙ sym e)))
  ]
    where
      one_table : (t : ops.Table) (k : Bytes) → first_found ops k (t ∷ []) ≡ ops.get t k
      one_table t k = or_else-none (ops.get t k)

  -- A compaction that returns, of a well-formed tree, leaves it well formed, and every read gives
  -- what it gave before: whatever tables are merged and whatever tombstones are dropped.
  pub compact-SameView :
      (s : LsmTree ops.Table)
      → IsWell ops s
      → (compact ops s).1 ≡ done
      → SameView ops s (compact ops s).0
  unfolding compact get raw_get
  compact-SameView s w h = elim (Bool-cases (ltb (length s.readers) 2)) [
    | inl few ↦ rw few (SameView-refl ops s w)
    | inr more ↦
        let s1 : LsmTree ops.Table = record s { next_sst_id = s.next_sst_id + 1 } in
        let w1 : IsWell ops s1 = record {
          settled = w.settled;
          memory = w.memory;
          named = w.named;
          tables = w.tables;
        } in
        let v =
          write_compacted-SameView s1 (merge (streams ops (reverse s.readers))) w1 refl
            (rw more at h) in
        rw more (record { well = v.well; views = v.views })
  ]
