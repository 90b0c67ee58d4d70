-- ===== src/Lsm/Merge/Examples.antt =====
-- The merge's theorem at two streams, the newer with a tombstone.
use zenith_db.Prelude.{◌≡◌, refl, [], ◌∷◌}
use zenith_db.Bytes.{Bytes, bytes_lt, codes}
use zenith_db.Dict.{lookup, IsSorted}
use zenith_db.Lsm.MemTable.{tombstone}
use zenith_db.Lsm.Merge.{Streams, merge}
use zenith_db.Lsm.Merge.Pop.{newest, AllSorted}
use zenith_db.Lsm.Merge.Newest.{live, lookup-merge}

abbrev two : Streams
two =
    ((codes "a", tombstone) ∷ (codes "c", codes "3") ∷ [])
    ∷ ((codes "a", codes "1") ∷ (codes "b", codes "2") ∷ [])
    ∷ []

two-AllSorted : AllSorted two
unfolding bytes_lt
two-AllSorted = (((refl, tt), (tt, tt)), (((refl, tt), (tt, tt)), tt))

lookup-merge_example :
    IsSorted (merge two) × ((j : Bytes) → lookup j (merge two) ≡ live (newest j two))
lookup-merge_example = lookup-merge two two-AllSorted
