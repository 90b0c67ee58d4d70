-- ===== src/Lsm/MemTable.antt =====
-- MemTable. The size is a natural number: what is taken off was added before (`IsSized`).
pub mod Laws
mod Examples
use zenith_db.Prelude.{ℕ, ◌+◌, ◌-◌, ◌*◌, Bool, Option, none, some, List, [], ◌∷◌, leb, length}
use zenith_db.Bytes.{Bytes, codes}
use zenith_db.Dict
use zenith_db.Dict.{Dict}

-- TOMBSTONE of sstable.py
abbrev pub tombstone : Bytes
tombstone = codes "__ZENITH_TOMBSTONE__"

pub record MemTable : Type 0 where
  pub max_size_bytes : ℕ
  pub entries : Dict Bytes
  pub byte_size : ℕ

unfoldable pub empty : ℕ → MemTable
empty max_size_bytes = record { max_size_bytes = max_size_bytes; entries = []; byte_size = 0 }

unfoldable pub get : MemTable → Bytes → Option Bytes
get t key = Dict.lookup key t.entries

-- What an overwritten value takes off the size.
size_without : MemTable → Bytes → ℕ
unfolding get
size_without t key = elim (get t key) [
  | none ↦ t.byte_size
  | some old ↦ t.byte_size - (length key + length old)
]

unfoldable pub put : MemTable → Bytes → Bytes → MemTable
unfolding size_without
put t key value = record t {
  entries = Dict.insert key value t.entries;
  byte_size = size_without t key + (length key + length value + 16);
}

unfoldable pub delete : MemTable → Bytes → MemTable
delete t key = put t key tombstone

unfoldable pub is_full : MemTable → Bool
is_full t = leb t.max_size_bytes t.byte_size

unfoldable pub get_sorted_entries : MemTable → Dict Bytes
get_sorted_entries t = Dict.sort t.entries

unfoldable pub len : MemTable → ℕ
len t = length t.entries

abbrev pub clear : MemTable → MemTable
clear t = record t { entries = []; byte_size = 0 }
