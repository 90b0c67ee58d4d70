-- ===== src/Sst/Reader.antt =====
-- SSTableReader. A read at a position takes what the file has from there on.
use zenith_db.Prelude.{
  ℕ, zero, suc, ◌+◌, ◌-◌, ◌/◌, ◌==◌, Bool, false, not, ◌||◌, Option, none, some, List, [], ◌∷◌, ltb,
  if◌then◌else◌, ◌>>=◌, length, get_elem?, take, drop,
}
use zenith_db.Bytes.{Bytes, bytes_eq, bytes_lt}
use zenith_db.Bytes.Pack.{unpack}
use zenith_db.Dict.{Dict}
use zenith_db.Bloom
use zenith_db.Bloom.{BloomFilter}
use zenith_db.Sst.Writer.{trailer_magic, frame_format, index_format, footer_format}

pub record SstReader : Type 0 where
  pub file : Bytes
  pub index_keys : List Bytes
  pub index_offsets : List ℕ
  pub bloom : BloomFilter
  pub entry_count : ℕ
  pub min_key : Bytes
  pub max_key : Bytes
  pub index_offset : ℕ

-- `struct.unpack(…)[0]` of a format with one field.
abbrev pub only : List ℕ → Option ℕ
only (n ∷ []) = some n
only _ = none

unfoldable pub unpack_one : ℕ → Bytes → Option ℕ
unpack_one w s = do vs ← unpack (w ∷ []) s; only vs

-- One row of the index, from its two numbers on: the row, and what follows it.
row_of : List ℕ → Bytes → Option ((Bytes × ℕ) × Bytes)
row_of (k_len ∷ off ∷ []) s = some ((take k_len s, off), drop k_len s)
row_of fields s = none

unfoldable pub read_rows : ℕ → Bytes → Option (List (Bytes × ℕ))
unfolding row_of
read_rows zero s = some []
read_rows (suc n) s = do
  fields ← unpack index_format (take 10 s)
  row ← row_of fields (drop 10 s)
  rows ← read_rows n row.1
  some (row.0 ∷ rows)

abbrev pub keys_of : List (Bytes × ℕ) → List Bytes
keys_of [] = []
keys_of ((k, off) ∷ rows) = k ∷ keys_of rows

abbrev pub offsets_of : List (Bytes × ℕ) → List ℕ
offsets_of [] = []
offsets_of ((k, off) ∷ rows) = off ∷ offsets_of rows

-- `_load_metadata` from the footer's fields on; `s` is what follows them in the file.
load_footer : Bytes → List ℕ → Bytes → Option SstReader
load_footer file
      (index_offset ∷ index_size ∷ bloom_offset ∷ bloom_size ∷ entry_count ∷ min_k_len ∷ []) s =
    do
      let after_min = drop min_k_len s
      max_k_len ← unpack_one 2 (take 2 after_min)
      let index = drop index_offset file
      idx_count ← unpack_one 4 (take 4 index)
      rows ← read_rows idx_count (drop 4 index)
      bloom ← Bloom.from_bytes (take bloom_size (drop bloom_offset file))
      some (record {
        file = file;
        index_keys = keys_of rows;
        index_offsets = offsets_of rows;
        bloom = bloom;
        entry_count = entry_count;
        min_key = take min_k_len s;
        max_key = take max_k_len (drop 2 after_min);
        index_offset = index_offset;
      })
load_footer file fields s = none

-- `__init__`
unfoldable pub open_reader : Bytes → Option SstReader
unfolding load_footer
open_reader file = if ltb (length file) 16 then none else (do
  let trailer = take 16 (drop (length file - 16) file)
  footer_offset ← unpack_one 8 (take 8 trailer)
  let footer = drop footer_offset file
  (let loaded = (do
    fields ← unpack footer_format (take 38 footer)
    load_footer file fields (drop 38 footer)) in
      if bytes_eq (drop 8 trailer) trailer_magic then loaded else none))

-- `bisect.bisect_right`: a binary search between `lo` and `hi`.
unfoldable pub bisect_between : ℕ → List Bytes → Bytes → ℕ → ℕ → ℕ
bisect_between zero keys key lo hi = lo
bisect_between (suc fuel) keys key lo hi =
    let mid = (lo + hi) / 2 in
    let left = bisect_between fuel keys key lo mid in
    let right = bisect_between fuel keys key (mid + 1) hi in
    if ltb lo hi
    then (elim (get_elem? keys mid) [
      | none ↦ right
      | some k ↦ if bytes_lt key k then left else right
    ])
    else lo

-- The interval shrinks in each round, so the length bounds the rounds.
unfoldable pub bisect_right : List Bytes → Bytes → ℕ
unfolding bisect_between
bisect_right keys key = bisect_between (length keys) keys key 0 (length keys)

-- The offset of the last indexed key that is not above `key`, or of the first one.
unfoldable pub start_offset : SstReader → Bytes → Option ℕ
start_offset r key = get_elem? r.index_offsets (bisect_right r.index_keys key - 1)

entry_of : List ℕ → ℕ → Bytes → Option ((Bytes × Bytes) × ℕ)
entry_of (klen ∷ vlen ∷ []) pos s =
    let key = take klen s in
    let value = take vlen (drop klen s) in some ((key, value), pos + 6 + length key + length value)
entry_of fields pos s = none

-- The entry at a position, and the position behind it; `none` is the `break` of a short header.
unfoldable pub read_entry : Bytes → ℕ → Option ((Bytes × Bytes) × ℕ)
unfolding entry_of
read_entry file pos =
    let hdr_bytes = take 6 (drop pos file) in
    if ltb (length hdr_bytes) 6
    then none
    else (do fields ← unpack frame_format hdr_bytes; entry_of fields pos (drop 6 (drop pos file)))

-- The loop of `get`.
unfoldable pub find_from : ℕ → Bytes → ℕ → Bytes → ℕ → Option Bytes
find_from zero file limit key pos = none
find_from (suc fuel) file limit key pos =
    if ltb pos limit
    then (elim (read_entry file pos) [
      | none ↦ none
      | some ((k, v), next) ↦
          let rest = find_from fuel file limit key next in
          if bytes_eq k key then some v else if bytes_lt key k then none else rest
    ])
    else none

module _ (sha256 : Bytes → Bytes) where
  -- Every round moves on, so the data block's end bounds the rounds.
  unfoldable pub get : SstReader → Bytes → Option (Option Bytes)
  get r key =
      if length r.min_key == 0 || (bytes_lt key r.min_key || bytes_lt r.max_key key)
      then some none
      else (do
        found ← Bloom.contains sha256 r.bloom key
        (let searched = (do
          start ← start_offset r key
          some (find_from (r.index_offset + 1) r.file r.index_offset key start)) in
            if not found || length r.index_keys == 0 then some none else searched))

-- `start_key is not None and start_key > k`, and `end_key is not None and end_key < k`
abbrev pub starts_above : Option Bytes → Bytes → Bool
starts_above none k = false
starts_above (some start) k = bytes_lt k start

abbrev pub ends_below : Option Bytes → Bytes → Bool
ends_below none k = false
ends_below (some end) k = bytes_lt end k

-- The loop of `scan`, on the count of entries left.
unfoldable pub scan_from : ℕ → Bytes → ℕ → Option Bytes → Option Bytes → ℕ → Dict Bytes
scan_from zero file limit start end pos = []
scan_from (suc n) file limit start end pos =
    if ltb pos limit
    then (elim (read_entry file pos) [
      | none ↦ []
      | some ((k, v), next) ↦
          let rest = scan_from n file limit start end next in
          if starts_above start k then rest else if ends_below end k then [] else (k, v) ∷ rest
    ])
    else []

-- Where a scan starts: at an indexed offset, or behind the 5 bytes of the header.
unfoldable pub scan_offset : SstReader → Option Bytes → Option ℕ
scan_offset r none = some 5
scan_offset r (some start) = if length r.index_keys == 0 then some 5 else start_offset r start

unfoldable pub scan : SstReader → Option Bytes → Option Bytes → Option (Dict Bytes)
scan r start end =
    if r.entry_count == 0 || (starts_above start r.max_key || ends_below end r.min_key)
    then some []
    else (do
      offset ← scan_offset r start
      some (scan_from r.entry_count r.file r.index_offset start end offset))
