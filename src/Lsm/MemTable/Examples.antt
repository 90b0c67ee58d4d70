-- ===== src/Lsm/MemTable/Examples.antt =====
-- The size's theorem at an overwrite.
use zenith_db.Prelude.{◌+◌, ◌≡◌, none, some, [], ◌∷◌, arith}
use zenith_db.Bytes.{codes}
use zenith_db.Lsm.MemTable.{MemTable, get, put}
use zenith_db.Lsm.MemTable.Laws.{stored, IsSized, byte_size-put}

abbrev table : MemTable
table = record { max_size_bytes = 100; entries = (codes "k", codes "old") ∷ []; byte_size = 20 }

table-IsSized : IsSized table
unfolding stored
table-IsSized = omega arith

byte_size-put_example :
    ((put table (codes "k") (codes "newer")).byte_size + stored table.entries
      ≡ table.byte_size
        + stored (put table (codes "k") (codes "newer")).entries
        + (elim (get table (codes "k")) [ none ↦ 0 | some _ ↦ 16 ]))
    × IsSized (put table (codes "k") (codes "newer"))
byte_size-put_example = byte_size-put table (codes "k") (codes "newer") table-IsSized
