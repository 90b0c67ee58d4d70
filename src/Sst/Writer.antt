-- ===== src/Sst/Writer.antt =====
-- SSTableWriter.
use zenith_db.Prelude.{
  ℕ, ◌+◌, ◌%◌, ◌==◌, Bool, true, false, Option, none, some, List, [], ◌∷◌, ◌++◌, ltb, if◌then◌else◌,
  ◌>>=◌, length,
}
use zenith_db.Bytes.{Bytes, codes}
use zenith_db.Bytes.Pack.{pack}
use zenith_db.Dict.{Dict}
use zenith_db.Bloom
use zenith_db.Bloom.{BloomFilter}

abbrev pub magic : Bytes
magic = codes "ZSST"

abbrev pub version : ℕ
version = 1

abbrev pub trailer_magic : Bytes
trailer_magic = codes "ZSSTFOOT"

-- What `BloomFilter(capacity=10000, error_rate=0.01)` computes with logarithms: the bit pattern of
-- the rate, the bit count and the hash count.
pub record Sizing : Type 0 where
  pub error_rate : ℕ
  pub bit_count : ℕ
  pub hash_count : ℕ

pub record SstWriter : Type 0 where
  pub index_interval : ℕ
  pub file : Bytes
  pub entry_count : ℕ
  pub index_entries : List (Bytes × ℕ)
  pub bloom : BloomFilter
  pub min_key : Option Bytes
  pub max_key : Option Bytes

unfoldable pub open_writer : Sizing → ℕ → SstWriter
open_writer z index_interval = record {
  index_interval = index_interval;
  file = magic ++ version ∷ [];
  entry_count = 0;
  index_entries = [];
  bloom = Bloom.make 10000 z.error_rate z.bit_count z.hash_count none;
  min_key = none;
  max_key = none;
}

-- `if self._min_key is None: self._min_key = key`
abbrev pub first_key : Option Bytes → Bytes → Option Bytes
first_key none key = some key
first_key (some k) key = some k

-- KeyLen(2B), ValLen(4B)
abbrev pub frame_format : List ℕ
frame_format = 2 ∷ 4 ∷ []

-- Every `index_interval`-th entry has a row in the index.
unfoldable pub add_row : SstWriter → Bytes → List (Bytes × ℕ)
add_row w key =
    if w.entry_count % w.index_interval == 0
    then w.index_entries ++ (key, length w.file) ∷ []
    else w.index_entries

module _ (sha256 : Bytes → Bytes) where
  unfoldable pub write_entry : SstWriter → Bytes → Bytes → Option SstWriter
  write_entry w key value = if ltb 65535 (length key) then none else (do
    bloom ← Bloom.add sha256 w.bloom key
    frame_hdr ← pack frame_format (length key ∷ length value ∷ [])
    some (record w {
      file = w.file ++ (frame_hdr ++ (key ++ value));
      entry_count = w.entry_count + 1;
      index_entries = add_row w key;
      bloom = bloom;
      min_key = first_key w.min_key key;
      max_key = some key;
    }))

  -- Whether the loop below ends by the ValueError of `write_entry`.
  unfoldable pub refuses : SstWriter → Dict Bytes → Bool
  refuses w [] = false
  refuses w ((k, v) ∷ entries) =
      if ltb 65535 (length k)
      then true
      else elim (write_entry w k v) [ none ↦ false | some w' ↦ refuses w' entries ]

  -- `for k, v in entries: writer.write_entry(k, v)`
  unfoldable pub write_entries : SstWriter → Dict Bytes → Option SstWriter
  write_entries w [] = some w
  write_entries w ((k, v) ∷ entries) = do w' ← write_entry w k v; write_entries w' entries

-- KeyLen(2), Offset(8)
abbrev pub index_format : List ℕ
index_format = 2 ∷ 8 ∷ []

unfoldable pub index_rows : List (Bytes × ℕ) → Option Bytes
index_rows [] = some []
index_rows ((k, off) ∷ entries) = do
  row ← pack index_format (length k ∷ off ∷ [])
  rest ← index_rows entries
  some (row ++ (k ++ rest))

unfoldable pub index_block : List (Bytes × ℕ) → Option Bytes
index_block entries = do
  count ← pack (4 ∷ []) (length entries ∷ [])
  rows ← index_rows entries
  some (count ++ rows)

-- ">QQQQ I H"
abbrev pub footer_format : List ℕ
footer_format = 8 ∷ 8 ∷ 8 ∷ 8 ∷ 4 ∷ 2 ∷ []

-- `self._min_key or b""`
abbrev pub or_empty : Option Bytes → Bytes
or_empty none = []
or_empty (some k) = k

unfoldable pub footer_block : List ℕ → Bytes → Bytes → Option Bytes
footer_block fields min_k max_k = do
  footer_hdr ← pack footer_format fields
  max_len ← pack (2 ∷ []) (length max_k ∷ [])
  some (footer_hdr ++ (min_k ++ (max_len ++ max_k)))

-- A writer without entries leaves no file: the inner `none`.
unfoldable pub finish : SstWriter → Option (Option Bytes)
finish w = if w.entry_count == 0 then some none else (do
  index ← index_block w.index_entries
  bloom ← Bloom.to_bytes w.bloom
  footer ←
      footer_block
        (length w.file
          ∷ length index
          ∷ (length w.file + length index)
          ∷ length bloom
          ∷ w.entry_count
          ∷ length (or_empty w.min_key)
          ∷ [])
        (or_empty w.min_key) (or_empty w.max_key)
  trailer ← pack (8 ∷ []) ((length w.file + length index + length bloom) ∷ [])
  some (some (w.file ++ (index ++ (bloom ++ (footer ++ (trailer ++ trailer_magic)))))))
