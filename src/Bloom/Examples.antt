-- ===== src/Bloom/Examples.antt =====
-- The filter's theorems at a filter of two bytes, with a short digest.
use zenith_db.Prelude.{
  ◌≡◌, refl, true, none, some, List, [], ◌∷◌, ◌++◌, All, arith, replicate, length,
}
use zenith_db.Bytes.{Bytes, codes}
use zenith_db.Bloom.{BloomFilter, make, add_all, contains, to_bytes, from_bytes}
use zenith_db.Bloom.Members.{IsFilter, contains-add_all}
use zenith_db.Bloom.Serial.{contains-from_bytes}

abbrev digest : Bytes → Bytes
digest key = replicate 7 0 ++ (length key ∷ (replicate 7 0 ++ 3 ∷ replicate 16 0))

abbrev small : BloomFilter
small = make 10 0 13 3 none

small-IsFilter : IsFilter small
unfolding make
small-IsFilter = record { bytes = omega arith; size = refl; filled = omega arith }

abbrev keys : List Bytes
keys = codes "alpha" ∷ codes "be" ∷ []

contains-add_all_example :
    (bf' : BloomFilter) × (add_all digest small keys ≡ some bf')
    × IsFilter bf'
    × All (λ key. contains digest bf' key ≡ some true) keys
    × ((other : Bytes)
        → contains digest small other ≡ some true
        → contains digest bf' other ≡ some true)
contains-add_all_example = contains-add_all digest small keys small-IsFilter

contains-from_bytes_example :
    (s : Bytes) × (bf' : BloomFilter) × (to_bytes small ≡ some s)
    × (from_bytes s ≡ some bf')
    × IsFilter bf'
    × ((key : Bytes) → contains digest bf' key ≡ contains digest small key)
unfolding make
contains-from_bytes_example = contains-from_bytes digest small small-IsFilter (omega arith)
