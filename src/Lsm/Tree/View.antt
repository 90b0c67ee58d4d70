-- ===== src/Lsm/Tree/View.antt =====
-- The well-formed trees, and what a reader sees of their tables.
use mathlib.Core.Path.{ap₂}
use mathlib.Core.List.{reverse, reverse-append}
use zenith_db.Prelude.{
  ◌≡◌, refl, ◌∙◌, Option, none, some, List, [], ◌∷◌, map, arith, All, All-append,
}
use zenith_db.Bytes.{Bytes}
use zenith_db.Dict.{IsDict, or_else}
use zenith_db.Wal.Log.{WriteAheadLog}
use zenith_db.Lsm.MemTable
use zenith_db.Lsm.MemTable.{MemTable, tombstone}
use zenith_db.Lsm.Merge.{Streams}
use zenith_db.Lsm.Merge.Pop.{newest, AllSorted}
use zenith_db.Lsm.Merge.Newest.{live}
use zenith_db.Lsm.Tables.{TableOps, IsTable, IsNamed}
use zenith_db.Prelude.{◌⊎◌, inl, inr}
use zenith_db.Lsm.Tree.{LsmTree, Outcome, done, raised, first_found, get_immutable, raw_get, get}

-- Dropping tombstones twice is dropping them once.
pub live-live : (o : Option Bytes) → live (live o) ≡ live o
unfolding live
live-live o = ground arith

-- Reading through `live` needs the first source only up to `live` where the rest is nothing.
pub live-or_else :
    (o p q : Option Bytes) → live p ≡ live q → live (or_else o p) ≡ live (or_else o q)
live-or_else none p q h = h
live-or_else (some v) p q h = refl

pub Outcome-cases : (o : Outcome) → (o ≡ raised) ⊎ (o ≡ done)
Outcome-cases raised = inl refl
Outcome-cases done = inr refl

module _ (ops : TableOps) where
  -- Between operations nothing is being flushed, the tables hold sorted entries, and no key is
  -- empty.
  pub record IsWell (s : LsmTree ops.Table) : Type 0 where
    pub settled : s.immutable_memtable ≡ none
    pub memory : IsDict s.memtable.entries
    pub named : IsNamed s.memtable.entries
    pub tables : All (IsTable ops) s.readers

  abbrev pub streams : List ops.Table → Streams
  streams rs = map (λ r. ops.scan r none none) rs

  pub All-reverse : (rs : List ops.Table) → All (IsTable ops) rs → All (IsTable ops) (reverse rs)
  All-reverse [] h = h
  All-reverse (r ∷ rs) (w, h) =
      rw (reverse-append (r ∷ []) rs)
        (All-append (IsTable ops) (reverse rs) (r ∷ []) (All-reverse rs h) (w, tt))

  -- The files' first value is the newest stream's.
  pub first_found-newest :
      (k : Bytes) (rs : List ops.Table)
      → All (IsTable ops) rs
      → first_found ops k rs ≡ newest k (streams rs)
  unfolding first_found newest
  first_found-newest k [] h = refl
  first_found-newest k (r ∷ rs) (w, h) = ap₂ or_else (w.gets k) (first_found-newest k rs h)

  pub streams-AllSorted : (rs : List ops.Table) → All (IsTable ops) rs → AllSorted (streams rs)
  streams-AllSorted [] h = tt
  streams-AllSorted (r ∷ rs) (w, h) = (w.sorted, streams-AllSorted rs h)

  pub newest_named : (rs : List ops.Table) → All (IsTable ops) rs → newest [] (streams rs) ≡ none
  unfolding newest
  newest_named [] h = refl
  newest_named (r ∷ rs) (w, h) = rw (w.named, newest) (newest_named rs h)

  -- A settled tree is read in its memory and then in its files.
  pub raw_get-settled :
      (s : LsmTree ops.Table) (k : Bytes)
      → s.immutable_memtable ≡ none
      → raw_get ops s k
        ≡ or_else (MemTable.get s.memtable k) (first_found ops k (reverse s.readers))
  unfolding raw_get get_immutable
  raw_get-settled s k e = rw (e, get_immutable)

  -- A tree and its successor look alike to a reader, and the successor is well formed.
  pub record SameView (s s' : LsmTree ops.Table) : Type 0 where
    pub well : IsWell s'
    pub views : (k : Bytes) → get ops s' k ≡ get ops s k

  pub SameView-refl : (s : LsmTree ops.Table) → IsWell s → SameView s s
  SameView-refl s w = record { well = w; views = λ k. refl }

  pub SameView-trans : {s t u : LsmTree ops.Table} → SameView s t → SameView t u → SameView s u
  SameView-trans v w = record { well = w.well; views = λ k. w.views k ∙ v.views k }

  -- Only the log differs.
  pub wal-SameView :
      (s : LsmTree ops.Table) (wal : WriteAheadLog) → IsWell s → SameView s (record s { wal = wal })
  unfolding get raw_get
  wal-SameView s wal w = record {
    well = record { settled = w.settled; memory = w.memory; named = w.named; tables = w.tables };
    views = λ k. refl;
  }
