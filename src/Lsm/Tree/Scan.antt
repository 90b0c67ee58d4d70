-- ===== src/Lsm/Tree/Scan.antt =====
-- A scan lists what the reads of its range give, in the order of the keys.
use mathlib.Core.Path.{ap₂}
use mathlib.Core.List.{reverse, reverse-append}
use zenith_db.Prelude.{
  ◌≡◌, refl, sym, ap, ◌∙◌, Bool, not, Option, none, some, List, [], ◌∷◌, ◌++◌, arith, if◌then◌else◌,
  All,
}
use zenith_db.Bytes.{Bytes, bytes_eq}
use zenith_db.Dict.{Dict, lookup, IsDict, IsSorted, or_else, if_passes, filter, insert_all, sort}
use zenith_db.Dict.Sorted.{lookup-sort, sort-IsSorted}
use zenith_db.Dict.Filter.{
  IsSorted-IsDict, filter-IsSorted, lookup-filter, insert_all-IsDict, lookup-insert_all,
}
use zenith_db.Lsm.MemTable
use zenith_db.Lsm.MemTable.{MemTable, tombstone}
use zenith_db.Lsm.Merge.Newest.{live}
use zenith_db.Lsm.Tables.{TableOps, IsTable, in_range, ranged, all_entries}
use zenith_db.Lsm.Tree.{LsmTree, first_found, raw_get, get, scan_tables, scan_memory, scan}
use zenith_db.Lsm.Tree.View.{IsWell, raw_get-settled}

-- What a source gives within the range.
abbrev within : Bool → Option Bytes → Option Bytes
within b o = if b then o else none

passes_const : (b : Bool) (o : Option Bytes) → if_passes (λ v. b) o ≡ within b o
passes_const b o = ground arith

lookup-ranged :
    (start end : Option Bytes) (j : Bytes) (d : Dict Bytes)
    → IsSorted d
    → lookup j (ranged start end d) ≡ within (in_range start end j) (lookup j d)
lookup-ranged start end j d h =
    lookup-filter (λ k v. in_range start end k) j d (IsSorted-IsDict d h)
    ∙ passes_const (in_range start end j) (lookup j d)

within-or_else :
    (b : Bool) (o p : Option Bytes) → or_else (within b o) (within b p) ≡ within b (or_else o p)
within-or_else b o p = ground arith

or_else_assoc : (o p q : Option Bytes) → or_else (or_else o p) q ≡ or_else o (or_else p q)
or_else_assoc none p q = refl
or_else_assoc (some v) p q = refl

-- The dictionary without tombstones, at a key.
lookup-live :
    (j : Bytes) (d : Dict Bytes)
    → IsDict d
    → lookup j (filter (λ k v. not (bytes_eq v tombstone)) d) ≡ live (lookup j d)
unfolding live
lookup-live j d h =
    lookup-filter (λ k v. not (bytes_eq v tombstone)) j d h ∙ passes_live (lookup j d)
  where
    passes_live : (o : Option Bytes) → if_passes (λ v. not (bytes_eq v tombstone)) o ≡ live o
    passes_live o = ground arith

live-within : (b : Bool) (o : Option Bytes) → live (within b o) ≡ within b (live o)
unfolding live
live-within b o = ground arith

or_else_nothing : (o : Option Bytes) → or_else o none ≡ o
or_else_nothing none = refl
or_else_nothing (some v) = refl

within-none : (b : Bool) (o : Option Bytes) → o ≡ or_else (within b none) o
within-none b o = ground arith

module _ (ops : TableOps) where
  first_found-append :
      (j : Bytes) (rs : List ops.Table) (r : ops.Table)
      → first_found ops j (rs ++ r ∷ []) ≡ or_else (first_found ops j rs) (ops.get r j)
  unfolding first_found
  first_found-append j [] r = or_else_nothing (ops.get r j)
  first_found-append j (x ∷ rs) r =
      ap (or_else (ops.get x j)) (first_found-append j rs r)
      ∙ sym (or_else_assoc (ops.get x j) (first_found ops j rs) (ops.get r j))

  scan_tables-IsDict :
      (start end : Option Bytes) (rs : List ops.Table) (combined : Dict Bytes)
      → IsDict combined
      → IsDict (scan_tables ops start end rs combined)
  unfolding scan_tables
  scan_tables-IsDict start end [] combined h = h
  scan_tables-IsDict start end (r ∷ rs) combined h =
      scan_tables-IsDict start end rs _ (insert_all-IsDict combined (ops.scan r start end) h)

  lookup-scan_tables :
      (start end : Option Bytes) (j : Bytes) (rs : List ops.Table) (combined : Dict Bytes)
      → All (IsTable ops) rs
      → lookup j (scan_tables ops start end rs combined)
        ≡ or_else
            (within (in_range start end j) (first_found ops j (reverse rs)))
            (lookup j combined)
  unfolding scan_tables
  lookup-scan_tables start end j [] combined h =
      unfold first_found in within-none (in_range start end j) (lookup j combined)
  lookup-scan_tables start end j (r ∷ rs) combined (w, h) =
      let b = in_range start end j in
      let es = ops.scan r start end in
      let sorted : IsSorted es =
        rw (w.scans start end) (filter-IsSorted _ (all_entries ops r) w.sorted) in
      let here : lookup j es ≡ within b (ops.get r j) =
        ap (lookup j) (w.scans start end)
        ∙ lookup-ranged start end j (all_entries ops r) w.sorted
        ∙ ap (within b) (sym (w.gets j)) in
      let older = within b (first_found ops j (reverse rs)) in
      lookup-scan_tables start end j rs (insert_all combined es) h
      ∙ ap (or_else older) (
          lookup-insert_all j combined es (IsSorted-IsDict es sorted)
          ∙ ap (λ (o : Option Bytes). or_else o (lookup j combined)) here)
      ∙ sym (or_else_assoc older (within b (ops.get r j)) (lookup j combined))
      ∙ ap (λ (o : Option Bytes). or_else o (lookup j combined))
          (within-or_else b (first_found ops j (reverse rs)) (ops.get r j)
            ∙ ap (within b) (
                sym (
                  ap (first_found ops j) (reverse-append (r ∷ []) rs)
                  ∙ first_found-append j (reverse rs) r)))

  -- What the tables and the memory give together, before the tombstones are dropped.
  collected : LsmTree ops.Table → Option Bytes → Option Bytes → Dict Bytes
  collected s start end =
      insert_all (scan_tables ops start end s.readers [])
        (ranged start end (sort s.memtable.entries))

  collected-IsDict :
      (s : LsmTree ops.Table) (start end : Option Bytes) → IsDict (collected s start end)
  unfolding collected
  collected-IsDict s start end =
      insert_all-IsDict _ (ranged start end (sort s.memtable.entries))
        (scan_tables-IsDict start end s.readers [] tt)

  lookup-collected :
      (s : LsmTree ops.Table) (start end : Option Bytes) (j : Bytes)
      → IsWell ops s
      → lookup j (collected s start end) ≡ within (in_range start end j) (raw_get ops s j)
  unfolding collected MemTable.get lookup
  lookup-collected s start end j w =
      let b = in_range start end j in
      let mem = sort s.memtable.entries in
      let sorted = sort-IsSorted s.memtable.entries w.memory in
      let ff = first_found ops j (reverse s.readers) in
      lookup-insert_all j (scan_tables ops start end s.readers []) (ranged start end mem)
        (IsSorted-IsDict (ranged start end mem) (filter-IsSorted _ mem sorted))
      ∙ ap₂ or_else
          (lookup-ranged start end j mem sorted ∙ ap (within b) (lookup-sort j s.memtable.entries))
          (lookup-scan_tables start end j s.readers [] w.tables ∙ or_else_nothing (within b ff))
      ∙ within-or_else b (lookup j s.memtable.entries) ff
      ∙ ap (within b) (sym (raw_get-settled ops s j w.settled))

  scan-collected :
      (s : LsmTree ops.Table) (start end : Option Bytes)
      → s.immutable_memtable ≡ none
      → scan ops s start end
        ≡ filter (λ k v. not (bytes_eq v tombstone)) (sort (collected s start end))
  unfolding scan scan_memory collected MemTable.get_sorted_entries
  scan-collected s start end e = rw (e, scan_memory)

  -- A scan of a well-formed tree lists keys in strictly ascending order; a key in the range is
  -- listed with the value that `get` gives, and not listed where `get` gives nothing; a key outside
  -- the range is not listed.
  pub lookup-scan :
      (s : LsmTree ops.Table) (start end : Option Bytes)
      → IsWell ops s
      → IsSorted (scan ops s start end)
        × ((j : Bytes)
            → lookup j (scan ops s start end)
              ≡ (if in_range start end j then get ops s j else none))
  unfolding get
  lookup-scan s start end w =
      let d = collected s start end in
      let sorted = sort-IsSorted d (collected-IsDict s start end) in
      rw (scan-collected s start end w.settled) (
        filter-IsSorted _ (sort d) sorted,
        λ j.
            lookup-live j (sort d) (IsSorted-IsDict (sort d) sorted)
            ∙ ap live (lookup-sort j d ∙ lookup-collected s start end j w)
            ∙ live-within (in_range start end j) (raw_get ops s j),
      )
