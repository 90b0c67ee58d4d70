-- ===== src/Lsm/Tables/Listed.antt =====
-- The simplest tables: the entries themselves. They meet the laws.
use zenith_db.Prelude.{◌≡◌, refl, sym, ap, false, none, some, [], ◌∷◌}
use zenith_db.Bytes.{Bytes}
use zenith_db.Dict.{Dict, lookup, filter, IsSorted}
use zenith_db.Lsm.Tables.{TableOps, TableLaws, IsTable, IsNamed, ranged}

abbrev pub listed : TableOps
listed = record {
  Table = Dict Bytes;
  build = λ d. some d;
  refuses = λ d. false;
  get = λ d k. lookup k d;
  scan = λ d start end. ranged start end d;
}

pub ranged_all : (d : Dict Bytes) → ranged none none d ≡ d
unfolding filter
ranged_all [] = refl
ranged_all ((k, v) ∷ d) = ap (λ (l : Dict Bytes). (k, v) ∷ l) (ranged_all d)

pub listed-IsTable : (d : Dict Bytes) → IsSorted d → IsNamed d → IsTable listed d
listed-IsTable d s n = record {
  sorted = rw (ranged_all d) s;
  named = rw (ranged_all d) n;
  gets = λ k. ap (lookup k) (sym (ranged_all d));
  scans = λ start end. ap (ranged start end) (sym (ranged_all d));
}

pub listed_laws : TableLaws listed
listed_laws = record {
  built = λ d t e s n. let same : d ≡ t = cc in rw (← same) (listed-IsTable d s n, ranged_all d);
}
