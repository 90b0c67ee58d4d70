-- ===== src/Bloom.antt =====
-- The Bloom filter, zenith/storage/bloom.py. `sha256` is hashlib's digest of 32 bytes; the float
-- `error_rate` is its 32-bit pattern. The sizing by logarithms in `__init__` is not modelled: the
-- bit count and the hash count that it computes are arguments of `make`.
pub mod Bits
pub mod Members
pub mod Serial
mod Examples
use Prim.Native.Nat.{bit_and, bit_or}
use zenith_db.Prelude.{
  ℕ, zero, suc, ◌+◌, ◌*◌, ◌/◌, ◌%◌, ◌^◌, Bool, true, false, not, ◌&&◌, Option, none, some, List, [],
  ◌∷◌, ◌++◌, max, ltb, ◌==◌, if◌then◌else◌, ◌>>=◌, length, get_elem?, set, take, drop, replicate,
}
use zenith_db.Bytes.{Bytes, bytes_eq, codes}
use zenith_db.Bytes.Pack.{pack, unpack, unbe}

pub record BloomFilter : Type 0 where
  pub capacity : ℕ
  pub error_rate : ℕ
  pub m : ℕ
  pub k : ℕ
  pub bits : Bytes
  pub count : ℕ

-- The end of `__init__`: the bit count is aligned to whole bytes.
abbrev pub byte_count : ℕ → ℕ
byte_count m = (m + 7) / 8

unfoldable pub make : ℕ → ℕ → ℕ → ℕ → Option Bytes → BloomFilter
make capacity error_rate bit_count hash_count bit_array = record {
  capacity = max 1 capacity;
  error_rate = error_rate;
  m = byte_count bit_count * 8;
  k = hash_count;
  bits = elim bit_array [ none ↦ replicate (byte_count bit_count) 0 | some bits ↦ bits ];
  count = 0;
}

-- `for i in range(k): yield (h1 + i * h2) % m`, from `i` on for `n` rounds
positions_from : ℕ → ℕ → ℕ → ℕ → ℕ → List ℕ
positions_from m h1 h2 i zero = []
positions_from m h1 h2 i (suc n) = ((h1 + i * h2) % m) ∷ positions_from m h1 h2 (i + 1) n

-- `bits[pos // 8] |= 1 << (pos % 8)`; `none` is the IndexError
unfoldable pub set_bit : Bytes → ℕ → Option Bytes
set_bit bits pos = do
  byte ← get_elem? bits (pos / 8)
  some (set bits (pos / 8) (bit_or byte (2 ^ (pos % 8))))

-- `bits[pos // 8] & (1 << (pos % 8))`, as a truth value
pub test_bit : Bytes → ℕ → Option Bool
test_bit bits pos = do
  byte ← get_elem? bits (pos / 8)
  some (not (bit_and byte (2 ^ (pos % 8)) == 0))

unfoldable pub set_all : Bytes → List ℕ → Option Bytes
set_all bits [] = some bits
set_all bits (pos ∷ rest) = do bits' ← set_bit bits pos; set_all bits' rest

pub test_all : Bytes → List ℕ → Option Bool
test_all bits [] = some true
test_all bits (pos ∷ rest) = do
  found ← test_bit bits pos
  (let others = test_all bits rest in if found then others else some false)

module _ (sha256 : Bytes → Bytes) where
  -- `_hashes`; `none` is the ZeroDivisionError of `% 0`
  unfoldable pub hashes : BloomFilter → Bytes → Option (List ℕ)
  unfolding positions_from
  hashes bf key =
      let digest = sha256 key in
      let h1 = unbe (take 8 digest) in
      let h2 = unbe (take 8 (drop 8 digest)) in
      if bf.m == 0 && not (bf.k == 0) then none else some (positions_from bf.m h1 h2 0 bf.k)

  unfoldable pub add : BloomFilter → Bytes → Option BloomFilter
  add bf key = do
    positions ← hashes bf key
    bits ← set_all bf.bits positions
    some (record bf { bits = bits; count = bf.count + 1 })

  pub contains : BloomFilter → Bytes → Option Bool
  contains bf key = do positions ← hashes bf key; test_all bf.bits positions

module _ (sha256 : Bytes → Bytes) where
  -- The adds of a writer, one for each key.
  pub add_all : BloomFilter → List Bytes → Option BloomFilter
  add_all bf [] = some bf
  add_all bf (key ∷ keys) = do bf' ← add sha256 bf key; add_all bf' keys

abbrev pub magic : Bytes
magic = codes "ZBLM"

-- ">4sIfIH" behind the magic
abbrev pub header_format : List ℕ
header_format = 4 ∷ 4 ∷ 4 ∷ 2 ∷ []

unfoldable pub to_bytes : BloomFilter → Option Bytes
to_bytes bf = do
  header ← pack header_format (bf.capacity ∷ bf.error_rate ∷ bf.m ∷ bf.k ∷ [])
  some (magic ++ (header ++ bf.bits))

from_header : Bytes → List ℕ → Bytes → Option BloomFilter
from_header mark (capacity ∷ error_rate ∷ m ∷ k ∷ []) bit_bytes =
    if bytes_eq mark magic then some (make capacity error_rate m k (some bit_bytes)) else none
from_header mark fields bit_bytes = none

-- `none` is the ValueError
unfoldable pub from_bytes : Bytes → Option BloomFilter
unfolding from_header
from_bytes bytes = if ltb (length bytes) 18 then none else (do
  fields ← unpack header_format (drop 4 (take 18 bytes))
  from_header (take 4 (take 18 bytes)) fields (drop 18 bytes))
