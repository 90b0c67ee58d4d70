-- ===== src/Lsm/MemTable/Laws.antt =====
-- What the in-memory table holds, and how its size grows.
use zenith_db.Prelude.{
  ℕ, ◌+◌, ◌≤◌, ◌≡◌, none, some, [], ◌∷◌, arith, inl, inr, Option-cases, if◌then◌else◌, length,
}
use zenith_db.Bytes.{Bytes, bytes_eq}
use zenith_db.Bytes.Order.{bytes_eq→eq}
use zenith_db.Dict.{Dict, lookup, insert}
use zenith_db.Dict.Laws.{lookup-insert}
use zenith_db.Lsm.MemTable.{MemTable, get, put, size_without}

-- The bytes that the entries take, with 16 for each.
unfoldable pub stored : Dict Bytes → ℕ
stored [] = 0
stored ((k, v) ∷ d) = length k + length v + 16 + stored d

-- The recorded size covers what is stored, so no subtraction falls below zero.
abbrev pub IsSized : MemTable → Type 0
IsSized t = stored t.entries ≤ t.byte_size

pub get-put :
    (t : MemTable) (key other value : Bytes)
    → get (put t key value) other ≡ (if bytes_eq key other then some value else get t other)
unfolding get put
get-put t key other value = lookup-insert key other value t.entries

-- The stored bytes after an insertion, by what was there before.
stored-insert_new :
    (k v : Bytes) (d : Dict Bytes)
    → lookup k d ≡ none
    → stored (insert k v d) ≡ stored d + (length k + length v + 16)
unfolding stored insert lookup
stored-insert_new k v [] h = omega arith
stored-insert_new k v ((j, w) ∷ d) h = ground (arith, stored-insert_new k v d)

stored-insert_old :
    (k v w : Bytes) (d : Dict Bytes)
    → lookup k d ≡ some w
    → stored (insert k v d) + length w ≡ stored d + length v
unfolding stored insert lookup
stored-insert_old k v w [] h = cc
stored-insert_old k v w ((j, u) ∷ d) h = ground (arith, stored-insert_old k v w d)

length-le-stored :
    (k w : Bytes) (d : Dict Bytes) → lookup k d ≡ some w → length k + length w + 16 ≤ stored d
unfolding stored lookup
length-le-stored k w [] h = cc
length-le-stored k w ((j, u) ∷ d) h = ground (arith, length-le-stored k w d, bytes_eq→eq j k)

-- A new key raises the recorded size by exactly what is stored. An overwrite raises it by 16 more
-- than what is stored: the entry's own 16 bytes are not taken off. Either way the size goes on
-- covering what is stored.
pub byte_size-put :
    (t : MemTable) (key value : Bytes)
    → IsSized t
    → ((put t key value).byte_size + stored t.entries
        ≡ t.byte_size
          + stored (put t key value).entries
          + (elim (get t key) [ none ↦ 0 | some _ ↦ 16 ]))
      × IsSized (put t key value)
unfolding put get
byte_size-put t key value h = elim (Option-cases (lookup key t.entries)) [
  | inl new ↦
      rw (new, size_without)
        (
          omega (arith, stored-insert_new key value t.entries new),
          omega (arith, stored-insert_new key value t.entries new),
        )
  | inr (old, e) ↦
      let a = stored-insert_old key value old t.entries e in
      let b = length-le-stored key old t.entries e in
      rw (e, size_without) (omega (arith, a, b), omega (arith, a, b))
]
