-- ===== src/Bloom/Members.antt =====
-- No false negatives.
use Prim.Native.Nat.{bit_and}
use zenith_db.Prelude.{
  not, ◌/◌, ◌%◌, ◌^◌, ◌==◌, if◌then◌else◌, none, false, get_elem?-lt, replicate, ℕ, zero, suc, ◌+◌,
  ◌*◌, ◌<◌, ◌≡◌, refl, sym, ap, ◌∙◌, Bool, true, Option, none, some, List, [], ◌∷◌, arith, inl, inr,
  Option-cases, length, All, drop, take,
}
use zenith_db.Bytes.{Bytes, IsBytes}
use zenith_db.Bytes.Pack.{unbe}
use zenith_db.Bloom.{
  test_all, make, byte_count, BloomFilter, positions_from, test_bit, hashes, add, add_all, contains,
}
use zenith_db.Bloom.Bits.{set_all-AllSet, test_all_kept}

-- The bit array has the size that the bit count says.
pub record IsFilter (bf : BloomFilter) : Type 0 where
  pub bytes : IsBytes bf.bits
  pub size : bf.m ≡ length bf.bits * 8
  pub filled : 0 < bf.m

positions_in_range : (m h1 h2 i n : ℕ) → 0 < m → All (λ p. p < m) (positions_from m h1 h2 i n)
unfolding positions_from
positions_in_range m h1 h2 i zero h = tt
positions_in_range m h1 h2 i (suc n) h = (omega arith, positions_in_range m h1 h2 (i + 1) n h)

module _ (sha256 : Bytes → Bytes) where
  hashes_in_range :
      (bf : BloomFilter) (key : Bytes)
      → 0 < bf.m
      → (ps : List ℕ) × (hashes sha256 bf key ≡ some ps) × All (λ p. p < bf.m) ps
  unfolding hashes
  hashes_in_range bf key h =
      let digest = sha256 key in
      let h1 = unbe (take 8 digest) in
      let h2 = unbe (take 8 (drop 8 digest)) in
      (positions_from bf.m h1 h2 0 bf.k, ground arith, positions_in_range bf.m h1 h2 0 bf.k h)

  -- The positions depend on the sizes alone.
  pub hashes_same :
      (bf bf' : BloomFilter) (key : Bytes)
      → bf'.m ≡ bf.m
      → bf'.k ≡ bf.k
      → hashes sha256 bf' key ≡ hashes sha256 bf key
  unfolding hashes
  hashes_same bf bf' key p q = rw (p, q)

  record Grown (bf bf' : BloomFilter) : Type 0 where
    pub filter : IsFilter bf'
    pub kept :
        (other : Bytes)
        → contains sha256 bf other ≡ some true
        → contains sha256 bf' other ≡ some true

  kept_by_bits :
      (bf bf' : BloomFilter) (other : Bytes)
      → bf'.m ≡ bf.m
      → bf'.k ≡ bf.k
      → ((q : ℕ) → test_bit bf.bits q ≡ some true → test_bit bf'.bits q ≡ some true)
      → contains sha256 bf other ≡ some true
      → contains sha256 bf' other ≡ some true
  unfolding contains
  kept_by_bits bf bf' other p q keep h = elim (Option-cases (hashes sha256 bf other)) [
    | inl e ↦ let k : ◌≡◌ {A = Option Bool} none (some true) = rw e at h in cc
    | inr (ps, e) ↦
        rw (hashes_same bf bf' other p q, e) (test_all_kept bf.bits bf'.bits ps keep (rw e at h))
  ]

  -- Of a filter whose array has the size that its bit count says, an add returns a filter of the
  -- same kind that contains the key, and every key that it contained before.
  pub contains-add :
      (bf : BloomFilter) (key : Bytes)
      → IsFilter bf
      → (bf' : BloomFilter) × (add sha256 bf key ≡ some bf')
        × IsFilter bf'
        × (contains sha256 bf' key ≡ some true)
        × ((other : Bytes)
            → contains sha256 bf other ≡ some true
            → contains sha256 bf' other ≡ some true)
  unfolding add contains
  contains-add bf key w =
      let (ps, e, range) = hashes_in_range bf key w.filled in
      let (bits', s) = set_all-AllSet bf.bits ps w.bytes (rw (← w.size) range) in
      let bf' : BloomFilter = record bf { bits = bits'; count = bf.count + 1 } in
      let same : hashes sha256 bf' key ≡ some ps = hashes_same bf bf' key refl refl ∙ e in
      (
        bf',
        rw (e, s.done),
        record {
          bytes = s.bytes;
          size = w.size ∙ ap (λ (n : ℕ). n * 8) (sym s.size);
          filled = w.filled;
        },
        rw same s.on,
        λ other h. kept_by_bits bf bf' other refl refl s.kept h,
      )

  add_all-Grown :
      (bf : BloomFilter) (keys : List Bytes)
      → IsFilter bf
      → (bf' : BloomFilter) × (add_all sha256 bf keys ≡ some bf')
        × Grown bf bf'
        × All (λ key. contains sha256 bf' key ≡ some true) keys
  unfolding add_all
  add_all-Grown bf [] w = (bf, refl, record { filter = w; kept = λ other h. h }, tt)
  add_all-Grown bf (key ∷ keys) w =
      let (bf1, e1, w1, on, keep) = contains-add bf key w in
      let (bf2, e2, g, all) = add_all-Grown bf1 keys w1 in
      (
        bf2,
        rw e1 e2,
        record { filter = g.filter; kept = λ other h. g.kept other (keep other h) },
        (g.kept key on, all),
      )

  -- No false negatives: the adds of any keys all return, and the filter that results contains each
  -- of the keys and whatever the first filter contained.
  pub contains-add_all :
      (bf : BloomFilter) (keys : List Bytes)
      → IsFilter bf
      → (bf' : BloomFilter) × (add_all sha256 bf keys ≡ some bf')
        × IsFilter bf'
        × All (λ key. contains sha256 bf' key ≡ some true) keys
        × ((other : Bytes)
            → contains sha256 bf other ≡ some true
            → contains sha256 bf' other ≡ some true)
  contains-add_all bf keys w =
      let (bf', e, g, all) = add_all-Grown bf keys w in (bf', e, g.filter, all, g.kept)

  test_all_total :
      (bits : Bytes) (ps : List ℕ)
      → All (λ p. p < length bits * 8) ps
      → (b : Bool) × (test_all bits ps ≡ some b)
  unfolding test_all test_bit
  test_all_total bits [] h = (true, refl)
  test_all_total bits (p ∷ ps) (hp, h) =
      let (byte, e) = get_elem?-lt bits (p / 8) (omega arith) in
      let (others, all) = test_all_total bits ps h in
      let on = not (bit_and byte (2 ^ (p % 8)) == 0) in
      (if on then others else false, rw (e, all) (ground arith))

  -- A membership test never raises.
  pub contains-total :
      (bf : BloomFilter) (key : Bytes)
      → IsFilter bf
      → (b : Bool) × (contains sha256 bf key ≡ some b)
  unfolding contains
  contains-total bf key w =
      let (ps, e, range) = hashes_in_range bf key w.filled in
      let (b, all) = test_all_total bf.bits ps (rw (← w.size) range) in (b, rw e all)

All-replicate : (n : ℕ) → IsBytes (replicate n 0)
All-replicate zero = tt
All-replicate (suc n) = (omega arith, All-replicate n)

length-replicate : (n : ℕ) → length {A = ℕ} (replicate n 0) ≡ n
length-replicate zero = refl
length-replicate (suc n) = ap suc (length-replicate n)

-- A new filter of at least one bit.
pub make-IsFilter :
    (capacity error_rate bit_count hash_count : ℕ)
    → 0 < bit_count
    → IsFilter (make capacity error_rate bit_count hash_count none)
unfolding make
make-IsFilter capacity error_rate bit_count hash_count h = record {
  bytes = All-replicate (byte_count bit_count);
  size = ap (λ (n : ℕ). n * 8) (sym (length-replicate (byte_count bit_count)));
  filled = omega arith;
}
