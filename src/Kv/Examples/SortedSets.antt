-- ===== src/Kv/Examples/SortedSets.antt =====
-- The theorems on sorted sets at a new one and at a tree with a table of two members.
use zenith_db.Prelude.{
  ℕ, ◌+◌, ◌≡◌, refl, Option, none, some, [], ◌∷◌, ltb, ◌==◌, arith, inl, inr, Bool-cases,
  if◌then◌else◌,
}
use zenith_db.Bytes.{Bytes, bytes_eq, bytes_lt, codes}
use zenith_db.Dict.{Dict, lookup, IsDict}
use zenith_db.Python.Int.{pos, neg}
use zenith_db.Lsm.MemTable
use zenith_db.Lsm.MemTable.{MemTable}
use zenith_db.Lsm.Tables.Listed.{listed, listed-IsTable, listed_laws}
use zenith_db.Lsm.Merge.Newest.{live}
use zenith_db.Lsm.Tree
use zenith_db.Lsm.Tree.{LsmTree, raw_get, first_found}
use zenith_db.Lsm.Tree.View.{IsWell}
use zenith_db.Kv.{Result, returned, raises}
use zenith_db.Kv.Keys.{Engine, is_expired, is_due}
use zenith_db.Kv.Backend.{tree_laws, tree_scans}
use zenith_db.Kv.SortedSets.{Floats, zadd, zadd_all, zscore, zrange_scores}
use zenith_db.Kv.Scores.{FloatLaws, HasScores, with_scores, new_scores, zscore-zadd}
use zenith_db.Kv.Ordering.{InOrder}
use zenith_db.Kv.Ranking.{zrange-HasScores}
use zenith_db.Kv.Examples.{store, store-StoreLaws, seconds, tick}
use zenith_db.Kv.Examples.Sets.{backing, crc, times, tree}

-- Whole numbers as floats, of one byte each.
abbrev floats : Floats
floats = record {
  Float = ℕ;
  parse = tick;
  print = λ x. x ∷ [];
  equals = λ x y. x == y;
  less = ltb;
  plus = λ x y. x + y;
  nought = 0;
}

floats-FloatLaws : FloatLaws floats
floats-FloatLaws = record {
  parses = λ x. refl;
  prints = λ x h. cc;
  less_asymm = λ x y h. ground arith;
  equals_comm = λ x y. ground arith;
}

abbrev fresh : Engine store seconds
fresh = record { lsm = λ k. none; ttl_heap = [] }

abbrev no_score : Bytes → Option ℕ
no_score m = none

abbrev mapping : Dict ℕ
mapping = (codes "x", 7) ∷ (codes "y", 3) ∷ []

fresh-HasScores : HasScores floats store seconds store-StoreLaws (codes "z") no_score fresh
unfolding store-StoreLaws
fresh-HasScores = record { good = tt; scores = λ m. tt; lasting = refl }

abbrev left_by : Result (Engine store seconds) ℕ → Engine store seconds
left_by (returned _ e) = e
left_by (raises _ e) = e

after_zadd : Engine store seconds
after_zadd = left_by (zadd floats store seconds 5 (codes "z") mapping fresh)

zadd_returns : zadd floats store seconds 5 (codes "z") mapping fresh ≡ returned 2 after_zadd
unfolding after_zadd zadd zadd_all is_expired is_due bytes_eq
zadd_returns = refl

zscore-zadd_example :
    ◌≡◌ {A = ℕ} 2 (new_scores floats mapping no_score)
    × HasScores floats store seconds store-StoreLaws
        (codes "z")
        (with_scores floats mapping no_score)
        after_zadd
    × ((m : Bytes)
        → zscore floats store seconds 9 (codes "z") m after_zadd
          ≡ returned (with_scores floats mapping no_score m) after_zadd)
zscore-zadd_example =
    zscore-zadd floats store seconds store-StoreLaws 5 9 (codes "z") mapping no_score 2 fresh
      after_zadd floats-FloatLaws fresh-HasScores zadd_returns

abbrev entries : Dict Bytes
entries = (codes "__Z__:z:a", 2 ∷ []) ∷ (codes "__Z__:z:b", 1 ∷ []) ∷ []

abbrev scored_tree : LsmTree (Dict Bytes)
scored_tree = record tree { readers = entries ∷ [] }

scored_tree-IsWell : IsWell listed scored_tree
unfolding bytes_lt lookup bytes_eq MemTable.empty
scored_tree-IsWell = record {
  settled = refl;
  memory = tt;
  named = refl;
  tables = (listed-IsTable entries ((refl, tt), (tt, tt)) refl, tt);
}

abbrev engine : Engine backing seconds
engine = record { lsm = (scored_tree, 0); ttl_heap = [] }

abbrev scores : Bytes → Option ℕ
scores m =
    if bytes_eq (codes "a") m then some 2 else if bytes_eq (codes "b") m then some 1 else none

engine-HasScores :
    HasScores floats backing seconds
      (tree_laws listed listed_laws crc times)
      (codes "z")
      scores
      engine
unfolding tree_laws Tree.get Tree.get_immutable raw_get first_found MemTable.get MemTable.empty
    lookup bytes_eq live
engine-HasScores = record {
  good = scored_tree-IsWell;
  scores = λ m. elim (Bool-cases (bytes_eq (codes "a") m)) [
    | inl a ↦ rw (a, live) refl
    | inr other ↦ elim (Bool-cases (bytes_eq (codes "b") m)) [
      | inl b ↦ rw (other, b, live) refl
      | inr neither ↦ rw (other, neither, live) tt
    ]
  ];
  lasting = refl;
}

zrange-HasScores_example :
    (items : Dict ℕ) × (zrange_scores floats backing seconds 5
        (codes "z")
        (pos 0)
        (neg (pos 1))
        engine
      ≡ returned items engine)
    × InOrder floats items
    × IsDict items
    × ((m : Bytes) → lookup m items ≡ scores m)
zrange-HasScores_example =
    zrange-HasScores floats backing seconds (tree_laws listed listed_laws crc times)
      (tree_scans listed listed_laws crc times) 5 (codes "z") scores engine floats-FloatLaws
      engine-HasScores
