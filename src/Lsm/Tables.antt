-- ===== src/Lsm/Tables.antt =====
-- What the tree asks of table files: sstable.py's writer (`build`, from the first entry to the
-- opened file) and reader. `none` is an exception; `refuses` tells whether the one of `build` is a
-- ValueError.
pub mod Listed
use zenith_db.Prelude.{
  ◌≡◌, ◌≢◌, Bool, true, false, not, ◌&&◌, Option, none, some, List, [], ◌∷◌, if◌then◌else◌, is_none,
}
use zenith_db.Bytes.{Bytes, bytes_lt}
use zenith_db.Dict.{Dict, lookup, filter, IsSorted}

pub record TableOps : Type 1 where
  pub Table : Type 0
  pub build : Dict Bytes → Option Table
  pub refuses : Dict Bytes → Bool
  pub get : Table → Bytes → Option Bytes
  pub scan : Table → Option Bytes → Option Bytes → Dict Bytes

-- `start_key is None or k >= start_key`, and `end_key is None or k <= end_key`
abbrev pub not_below : Option Bytes → Bytes → Bool
not_below none k = true
not_below (some start) k = not (bytes_lt k start)

abbrev pub not_above : Option Bytes → Bytes → Bool
not_above none k = true
not_above (some end) k = not (bytes_lt end k)

abbrev pub in_range : Option Bytes → Option Bytes → Bytes → Bool
in_range start end k = not_below start k && not_above end k

-- The entries in a range.
abbrev pub ranged : Option Bytes → Option Bytes → Dict Bytes → Dict Bytes
ranged start end d = filter (λ k v. in_range start end k) d

-- No key is empty.
abbrev pub IsNamed : Dict Bytes → Type 0
IsNamed d = lookup [] d ≡ none

module _ (ops : TableOps) where
  abbrev pub all_entries : ops.Table → Dict Bytes
  all_entries t = ops.scan t none none

  -- A table answers as the sorted entries that it holds.
  pub record IsTable (t : ops.Table) : Type 0 where
    pub sorted : IsSorted (all_entries t)
    pub named : IsNamed (all_entries t)
    pub gets : (k : Bytes) → ops.get t k ≡ lookup k (all_entries t)
    pub scans : (start end : Option Bytes) → ops.scan t start end ≡ ranged start end (all_entries t)

  -- What the tree relies on: a table built from sorted entries without an empty key holds them.
  pub record TableLaws : Type 0 where
    pub built :
        (d : Dict Bytes) (t : ops.Table)
        → ops.build d ≡ some t
        → IsSorted d
        → IsNamed d
        → IsTable t × (all_entries t ≡ d)
