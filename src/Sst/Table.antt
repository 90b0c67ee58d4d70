-- ===== src/Sst/Table.antt =====
-- Table files as the tables of a tree.
use zenith_db.Prelude.{◌<◌, ◌≡◌, Option, none, some, []}
use zenith_db.Bytes.{Bytes}
use zenith_db.Dict.{Dict, lookup, IsSorted}
use zenith_db.Lsm.Tables.{TableOps, IsNamed, ranged}
use zenith_db.Sst.Writer.{Sizing, open_writer, refuses}
use zenith_db.Sst.Reader.{
  SstReader, keys_of, offsets_of, open_reader, start_offset, find_from, starts_above, ends_below,
  scan_from, scan_offset,
}
use zenith_db.Sst.Reader
use zenith_db.Sst.Held.{index_interval, build, build-Holds}
use zenith_db.Sst.Answers.{get-Holds, scan-Holds}

module _ (sha256 : Bytes → Bytes) (z : Sizing) where
  -- A table file that was built from entries in ascending order without an empty key answers every
  -- lookup as the entries do, and never raises.
  pub get-build :
      (d : Dict Bytes) {r : SstReader}
      → 0 < z.bit_count
      → build sha256 z d ≡ some r
      → IsSorted d
      → IsNamed d
      → (key : Bytes) → Reader.get sha256 r key ≡ some (lookup key d)
  get-build d h e s n = get-Holds sha256 (build-Holds sha256 z d h e) s n

  -- A scan of a table file that was built from entries in ascending order gives exactly those in
  -- the range, in order, and never raises.
  pub scan-build :
      (d : Dict Bytes) {r : SstReader} (start end : Option Bytes)
      → 0 < z.bit_count
      → build sha256 z d ≡ some r
      → IsSorted d
      → Reader.scan r start end ≡ some (ranged start end d)
  scan-build d start end h e s = scan-Holds sha256 (build-Holds sha256 z d h e) s start end

-- What a caller gets from an operation that never raises on a built table.
abbrev pub flat : Option (Option Bytes) → Option Bytes
flat none = none
flat (some o) = o

abbrev pub listing : Option (Dict Bytes) → Dict Bytes
listing none = []
listing (some d) = d

-- The tree's view of table files.
abbrev pub sst_tables : (Bytes → Bytes) → Sizing → TableOps
sst_tables sha256 z = record {
  Table = SstReader;
  build = build sha256 z;
  refuses = λ d. refuses sha256 (open_writer z index_interval) d;
  get = λ r k. flat (Reader.get sha256 r k);
  scan = λ r start end. listing (Reader.scan r start end);
}
