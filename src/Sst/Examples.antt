-- ===== src/Sst/Examples.antt =====
-- The theorems on table files at a file of three entries.
use zenith_db.Prelude.{◌≡◌, refl, arith, Option, none, some, [], ◌∷◌, length}
use zenith_db.Bytes.{Bytes, bytes_eq, bytes_lt, codes}
use zenith_db.Bytes.Pack.{pack, unpack}
use zenith_db.Dict.{Dict, lookup, IsSorted}
use zenith_db.Bloom
use zenith_db.Bloom.{BloomFilter}
use zenith_db.Lsm.Tables.{IsNamed, ranged}
use zenith_db.Sst.Writer.{
  Sizing, open_writer, add_row, write_entry, write_entries, index_rows, index_block, footer_block,
  finish,
}
use zenith_db.Sst.Reader
use zenith_db.Sst.Reader.{SstReader, unpack_one, read_rows, open_reader}
use zenith_db.Sst.Held.{build}
use zenith_db.Sst.Table.{get-build, scan-build}

abbrev digest : Bytes → Bytes
digest key = 0 ∷ 0 ∷ 0 ∷ 0 ∷ 0 ∷ 0 ∷ 0 ∷ length key ∷ 0 ∷ 0 ∷ 0 ∷ 0 ∷ 0 ∷ 0 ∷ 0 ∷ 3 ∷ []

abbrev sizing : Sizing
sizing = record { error_rate = 1; bit_count = 16; hash_count = 2 }

abbrev entries : Dict Bytes
entries = (codes "a", codes "1") ∷ (codes "b", []) ∷ (codes "bc", codes "33") ∷ []

abbrev from_some : Option SstReader → SstReader
from_some (some r) = r
from_some none = record {
  file = [];
  index_keys = [];
  index_offsets = [];
  bloom = Bloom.make 1 1 8 1 none;
  entry_count = 0;
  min_key = [];
  max_key = [];
  index_offset = 0;
}

reader : SstReader
reader = from_some (build digest sizing entries)

built : build digest sizing entries ≡ some reader
unfolding reader build open_writer add_row write_entry write_entries index_rows index_block
    footer_block finish open_reader unpack_one read_rows pack unpack bytes_eq Bloom.make Bloom.add
    Bloom.hashes Bloom.set_all Bloom.set_bit Bloom.to_bytes Bloom.from_bytes
built = refl

entries-IsSorted : IsSorted entries
unfolding bytes_lt
entries-IsSorted = ((refl, (refl, tt)), ((refl, tt), (tt, tt)))

entries-IsNamed : IsNamed entries
unfolding lookup bytes_eq
entries-IsNamed = refl

get-build_example : Reader.get digest reader (codes "b") ≡ some (lookup (codes "b") entries)
get-build_example =
    get-build digest sizing entries (omega arith) built entries-IsSorted entries-IsNamed (codes "b")

scan-build_example :
    Reader.scan reader (some (codes "aa")) none ≡ some (ranged (some (codes "aa")) none entries)
scan-build_example =
    scan-build digest sizing entries (some (codes "aa")) none (omega arith) built entries-IsSorted
