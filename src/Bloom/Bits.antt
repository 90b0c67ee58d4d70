-- ===== src/Bloom/Bits.antt =====
-- Single bits of a byte array.
use Prim.Native.Nat.{bit_and, bit_or}
use zenith_db.Prelude.{
  ℕ, zero, suc, ◌*◌, ◌/◌, ◌%◌, ◌^◌, ◌<◌, ◌≡◌, ◌≢◌, refl, sym, ap, ◌∙◌, Bool, true, false, not, ◌&&◌,
  Option, none, some, List, [], ◌∷◌, arith, ltb, ◌==◌, ==_iff, ==_refl, ltb→lt, ◌⊎◌, if◌then◌else◌,
  ◌>>=◌, inl, inr, Bool-cases, length, get_elem?, set, All, length-set, get_elem?-set_self,
  get_elem?-set_ne, get_elem?-lt, All-set, All-get_elem?,
}
use zenith_db.Bytes.{Bytes, IsBytes}
use zenith_db.Bloom.{set_bit, test_bit, set_all, test_all}

-- A law that evaluation finds true of the `count` numbers up from 0 holds of each of them.
checks : (ℕ → Bool) → ℕ → Bool
checks law zero = true
checks law (suc last) = let before = checks law last in if law last then before else false

checks-at : (law : ℕ → Bool) (count i : ℕ) → i < count → checks law count ≡ true → law i ≡ true
unfolding checks
checks-at law zero i small ok = absurd (omega arith)
checks-at law (suc last) i small ok = ground (arith, checks-at law last i)

abbrev is_set : ℕ → ℕ → Bool
is_set byte i = not (bit_and byte (2 ^ i) == 0)

abbrev bit_law : ℕ → ℕ → ℕ → Bool
bit_law byte i j =
    ltb (bit_or byte (2 ^ i)) 256
    && (if i == j
        then is_set (bit_or byte (2 ^ i)) j
        else if is_set byte j
        then is_set (bit_or byte (2 ^ i)) j
        else true)

table : checks (λ b. checks (λ i. checks (λ j. bit_law b i j) 8) 8) 256 ≡ true
unfolding checks
table = refl

bits_kept :
    (small c t n : Bool)
    → (small && (if c then n else if t then n else true)) ≡ true
    → t ≡ true
    → n ≡ true
bits_kept small c t n h k = ground arith

bits_on :
    (small c t n : Bool)
    → (small && (if c then n else if t then n else true)) ≡ true
    → c ≡ true
    → n ≡ true
bits_on small c t n h k = ground arith

bits_small : (small rest : Bool) → (small && rest) ≡ true → small ≡ true
bits_small small rest h = ground arith

bit_law_all : (b i j : ℕ) → b < 256 → i < 8 → j < 8 → bit_law b i j ≡ true
bit_law_all b i j hb hi hj =
    let of_byte = checks-at (λ b. checks (λ i. checks (λ j. bit_law b i j) 8) 8) 256 b hb table in
    let of_bit = checks-at (λ i. checks (λ j. bit_law b i j) 8) 8 i hi of_byte in
    checks-at (λ j. bit_law b i j) 8 j hj of_bit

-- An in-range bit can be set; it then tests true, and no bit is cleared.
pub record BitSet (bits : Bytes) (pos : ℕ) (bits' : Bytes) : Type 0 where
  pub done : set_bit bits pos ≡ some bits'
  pub bytes : IsBytes bits'
  pub size : length bits' ≡ length bits
  pub on : test_bit bits' pos ≡ some true
  pub kept : (q : ℕ) → test_bit bits q ≡ some true → test_bit bits' q ≡ some true

test_bit_at :
    (bits : Bytes) (q b : ℕ)
    → get_elem? bits (q / 8) ≡ some b
    → test_bit bits q ≡ some (is_set b (q % 8))
unfolding test_bit
test_bit_at bits q b e = rw e

kept_bit :
    (bits : Bytes) (pos b q : ℕ)
    → b < 256
    → get_elem? bits (pos / 8) ≡ some b
    → pos / 8 < length bits
    → test_bit bits q ≡ some true
    → test_bit (set bits (pos / 8) (bit_or b (2 ^ (pos % 8)))) q ≡ some true
kept_bit bits pos b q hb e h on = elim (Bool-cases (pos / 8 == q / 8)) [
  | inl same ↦
      let s : pos / 8 ≡ q / 8 = (==_iff _ _).0 same in
      let new = bit_or b (2 ^ (pos % 8)) in
      let at : get_elem? (set bits (pos / 8) new) (q / 8) ≡ some new =
        ap (get_elem? (set bits (pos / 8) new)) (sym s) ∙ get_elem?-set_self bits (pos / 8) new h in
      let was : some (is_set b (q % 8)) ≡ some true =
        sym (test_bit_at bits q b (ap (get_elem? bits) (sym s) ∙ e)) ∙ on in
      let was' : is_set b (q % 8) ≡ true = cc in
      test_bit_at _ q new at
      ∙ ap some
          (bits_kept _ _ _ _ (bit_law_all b (pos % 8) (q % 8) hb (omega arith) (omega arith)) was')
  | inr other ↦
      let ne : pos / 8 ≢ q / 8 = λ s. let t = (==_iff _ _).1 s in cc in
      unfold test_bit in
      rw (get_elem?-set_ne bits (pos / 8) (q / 8) (bit_or b (2 ^ (pos % 8))) ne) on
]

pub set_bit-BitSet :
    (bits : Bytes) (pos : ℕ)
    → IsBytes bits
    → pos < length bits * 8
    → (bits' : Bytes) × BitSet bits pos bits'
unfolding set_bit
set_bit-BitSet bits pos hb h =
    let small : pos / 8 < length bits = omega arith in
    let (b, e) = get_elem?-lt bits (pos / 8) small in
    let byte : b < 256 = All-get_elem? (λ b. b < 256) bits (pos / 8) hb e in
    let law = bit_law_all b (pos % 8) (pos % 8) byte (omega arith) (omega arith) in
    let new = bit_or b (2 ^ (pos % 8)) in
    (
      set bits (pos / 8) new,
      record {
        done = rw e;
        bytes = All-set (λ b. b < 256) bits (pos / 8) new (ltb→lt new 256 (bits_small _ _ law)) hb;
        size = length-set bits (pos / 8) new;
        on =
            test_bit_at (set bits (pos / 8) new) pos new
              (get_elem?-set_self bits (pos / 8) new small)
            ∙ ap some (bits_on _ _ _ _ law (==_refl (pos % 8)));
        kept = λ q on. kept_bit bits pos b q byte e small on;
      },
    )

-- A run of in-range bits.
pub record AllSet (bits : Bytes) (ps : List ℕ) (bits' : Bytes) : Type 0 where
  pub done : set_all bits ps ≡ some bits'
  pub bytes : IsBytes bits'
  pub size : length bits' ≡ length bits
  pub on : test_all bits' ps ≡ some true
  pub kept : (q : ℕ) → test_bit bits q ≡ some true → test_bit bits' q ≡ some true

pub set_all-AllSet :
    (bits : Bytes) (ps : List ℕ)
    → IsBytes bits
    → All (λ p. p < length bits * 8) ps
    → (bits' : Bytes) × AllSet bits ps bits'
unfolding set_all test_all
set_all-AllSet bits [] hb h =
    (bits, record { done = refl; bytes = hb; size = refl; on = refl; kept = λ q on. on })
set_all-AllSet bits (p ∷ ps) hb (hp, h) =
    let (bits1, one) = set_bit-BitSet bits p hb hp in
    let h' : All (λ p. p < length bits1 * 8) ps = rw one.size h in
    let (bits2, more) = set_all-AllSet bits1 ps one.bytes h' in
    (
      bits2,
      record {
        done = rw one.done more.done;
        bytes = more.bytes;
        size = more.size ∙ one.size;
        on = rw (more.kept p one.on) more.on;
        kept = λ q on. more.kept q (one.kept q on);
      },
    )

-- Bits that are set stay set.
pub test_all_kept :
    (bits bits' : Bytes) (ps : List ℕ)
    → ((q : ℕ) → test_bit bits q ≡ some true → test_bit bits' q ≡ some true)
    → test_all bits ps ≡ some true
    → test_all bits' ps ≡ some true
unfolding test_all
test_all_kept bits bits' [] keep h = refl
test_all_kept bits bits' (p ∷ ps) keep h = elim (test_cases (test_bit bits p) refl) [
  | inl on ↦ rw (keep p on) (test_all_kept bits bits' ps keep (rw on at h))
  | inr off ↦ absurd (off_absurd off h)
]
  where
    test_cases :
        (o : Option Bool)
        → test_bit bits p ≡ o
        → (test_bit bits p ≡ some true) ⊎ (test_bit bits p ≢ some true)
    test_cases none e = inr (λ k. cc)
    test_cases (some true) e = inl e
    test_cases (some false) e = inr (λ k. cc)

    off_absurd :
        test_bit bits p ≢ some true
        → (test_bit bits p >>= λ found. if found then test_all bits ps else some false) ≡ some true
        → ⊥
    off_absurd off h = ground arith
