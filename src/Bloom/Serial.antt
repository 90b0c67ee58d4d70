-- ===== src/Bloom/Serial.antt =====
-- A filter that is written and read back answers as before.
use zenith_db.Prelude.{
  ℕ, ◌*◌, ◌≡◌, refl, ◌∙◌, some, List, [], ◌∷◌, ◌++◌, arith, length, length-append, take-append,
  drop-append, le→ltb, >>=-eq-some,
}
use zenith_db.Bytes.{Bytes}
use zenith_db.Bytes.Order.{bytes_eq_refl}
use zenith_db.Bytes.Pack.{pack, pack-Fits, layout, Fits, pack-layout, length-layout, unpack-layout}
use zenith_db.Bloom.{
  BloomFilter, byte_count, make, contains, magic, header_format, to_bytes, from_header, from_bytes,
}
use zenith_db.Bloom.Members.{IsFilter, hashes_same}

abbrev pub header_fields : BloomFilter → List ℕ
header_fields bf = bf.capacity ∷ bf.error_rate ∷ bf.m ∷ bf.k ∷ []

from-to :
    (bf : BloomFilter)
    → IsFilter bf
    → Fits header_format (header_fields bf)
    → (s : Bytes) × (to_bytes bf ≡ some s)
      × (from_bytes s ≡ some (make bf.capacity bf.error_rate bf.m bf.k (some bf.bits)))
unfolding to_bytes from_bytes from_header
from-to bf w fits =
    let fields = header_fields bf in
    let h = layout header_format fields in
    let n : length h ≡ 14 = length-layout header_format fields fits in
    (
      magic ++ (h ++ bf.bits),
      rw (pack-layout header_format fields fits),
      rw (
        le→ltb (length (magic ++ (h ++ bf.bits))) 18 (omega (arith, length-append h bf.bits, n)),
        take-append 14 h bf.bits n,
        drop-append 14 h bf.bits n,
        unpack-layout header_format fields fits,
        bytes_eq_refl magic,
      ),
    )

-- A filter whose header fields fit is written, and reading the bytes gives a filter of the same
-- sizes and bits, which answers every membership test as the first one does.
pub contains-from_bytes :
    (sha256 : Bytes → Bytes) (bf : BloomFilter)
    → IsFilter bf
    → Fits header_format (header_fields bf)
    → (s : Bytes) × (bf' : BloomFilter) × (to_bytes bf ≡ some s)
      × (from_bytes s ≡ some bf')
      × IsFilter bf'
      × ((key : Bytes) → contains sha256 bf' key ≡ contains sha256 bf key)
unfolding make contains
contains-from_bytes sha256 bf w fits =
    let (s, written, read) = from-to bf w fits in
    let bf' = make bf.capacity bf.error_rate bf.m bf.k (some bf.bits) in
    let aligned : byte_count bf.m * 8 ≡ bf.m = omega (arith, w.size) in
    (
      s,
      bf',
      written,
      read,
      record { bytes = w.bytes; size = aligned ∙ w.size; filled = rw aligned w.filled },
      λ key. rw (hashes_same sha256 bf bf' key aligned refl),
    )

-- What is written has fields that fit.
pub to_bytes-Fits :
    (bf : BloomFilter) {s : Bytes} → to_bytes bf ≡ some s → Fits header_format (header_fields bf)
unfolding to_bytes
to_bytes-Fits bf h =
    let (header, e, _) = >>=-eq-some (pack header_format (header_fields bf)) _ h in
    pack-Fits header_format (header_fields bf) e
