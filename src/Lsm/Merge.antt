-- ===== src/Lsm/Merge.antt =====
-- The merge of a compaction. The heap of `(key, -index, value, iterator)` is the list of the
-- streams that are left, the newest table's first; the heap's least element is the leftmost one of
-- least key, since a tie on the key goes to the greater index.
pub mod Pop
pub mod Newest
mod Examples
use zenith_db.Prelude.{
  ℕ, zero, suc, ◌+◌, ◌≡◌, Bool, true, false, Option, none, some, List, [], ◌∷◌, if◌then◌else◌,
  length,
}
use zenith_db.Bytes.{Bytes, bytes_eq, bytes_lt}
use zenith_db.Dict.{Dict}
use zenith_db.Lsm.MemTable.{tombstone}

abbrev pub Streams : Type 0
Streams = List (Dict Bytes)

pub record Popped : Type 0 where
  pub key : Bytes
  pub value : Bytes
  pub rest : Streams

-- The first stream against the least of the others.
choose : Bytes → Bytes → Dict Bytes → Streams → Option Popped → Popped
choose k v es ss none = record { key = k; value = v; rest = es ∷ ss }
choose k v es ss (some p) =
    if bytes_lt p.key k
    then record { key = p.key; value = p.value; rest = ((k, v) ∷ es) ∷ p.rest }
    else record { key = k; value = v; rest = es ∷ ss }

-- `heappop`, and the push of what follows in the same stream. A stream that is used up is not in
-- the heap.
pub pop : Streams → Option Popped
unfolding choose
pop [] = none
pop ([] ∷ ss) = pop ss
pop (((k, v) ∷ es) ∷ ss) = some (choose k v es ss (pop ss))

-- `key == last_key`
pub same_key : Option Bytes → Bytes → Bool
same_key none key = false
same_key (some last) key = bytes_eq last key

-- `while heap`, with the last key; what is written to the new table.
pub merge_loop : ℕ → Option Bytes → Streams → Dict Bytes
unfolding same_key
merge_loop zero last streams = []
merge_loop (suc fuel) last streams = elim (pop streams) [
  | none ↦ []
  | some p ↦
      let skip = merge_loop fuel last p.rest in
      let go = merge_loop fuel (some p.key) p.rest in
      if same_key last p.key
      then skip
      else if bytes_eq p.value tombstone
      then go
      else (p.key, p.value) ∷ go
]

pub total : Streams → ℕ
total [] = 0
total (s ∷ ss) = length s + total ss

-- A round takes one entry, so the entries bound the rounds.
unfoldable pub merge : Streams → Dict Bytes
unfolding merge_loop total pop
merge streams = merge_loop (total streams) none streams
