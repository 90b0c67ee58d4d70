-- ===== src/Kv.antt =====
-- The key-value engine, zenith/engine/kv.py, over an abstract store. Keys, fields and values are
-- UTF-8 bytes; a field's value, a member or a name in the store that is no UTF-8 is not modelled. An
-- operation reads the clock once: `now` stands for each time.time() of a call.
pub mod Keys
pub mod Strings
pub mod Keeps
pub mod Reads
pub mod Counts
pub mod Hashes
pub mod Fields
pub mod Expiry
pub mod Lists
pub mod Meta
pub mod Elements
pub mod Pushes
pub mod Pops
pub mod Window
pub mod Deque
pub mod Ranges
pub mod Calls
pub mod Scans
pub mod Sets
pub mod Members
pub mod Algebra
pub mod Edits
pub mod Additions
pub mod Removals
pub mod Membership
pub mod Deletes
pub mod SortedSets
pub mod Scores
pub mod Ordering
pub mod Ranking
pub mod Live
pub mod Untyped
pub mod Emptied
pub mod Backend
pub mod Examples
use zenith_db.Prelude.{
  ℕ, ◌≡◌, ◌≢◌, refl, ap, Bool, Option, none, some, List, [], ◌∷◌, if◌then◌else◌,
}
use zenith_db.Bytes.{Bytes, bytes_eq, bytes_lt}
use zenith_db.Dict.{Dict, lookup, IsSorted}
use zenith_db.Python.Int.{ℤ}
use zenith_db.Lsm.MemTable.{tombstone}

-- The exceptions of a store that the engine tells apart: a ValueError, and any other.
pub data Exception : Type 0 where
  value_error other_error : Exception

-- What an operation leaves: the state, and its value or its exception.
pub data Result {ℓ κ} (S : Type ℓ) (A : Type κ) : Type (ℓ ⊔ κ) where
  returned : A → S → Result S A
  raises : Exception → S → Result S A

infixl 5 ◌>>=◌ ◌>>◌
abbrev pub ◌>>=◌ {ℓ κ μ} :
    {S : Type ℓ} {A : Type κ} {B : Type μ}
    → (S → Result S A)
    → (A → S → Result S B)
    → S
    → Result S B
(m >>= f) s = elim (m s) [ returned a s' ↦ f a s' | raises x s' ↦ raises x s' ]

abbrev pub ◌>>◌ {ℓ κ μ} :
    {S : Type ℓ} {A : Type κ} {B : Type μ} → (S → Result S A) → (S → Result S B) → S → Result S B
m >> k = m >>= λ _. k

module _ {ℓ κ μ} {S : Type ℓ} {A : Type κ} {B : Type μ} where
  result-inverse :
      (r : Result S A) (f : A → S → Result S B) {b : B} {s' : S}
      → (elim r [ returned a s ↦ f a s | raises x s ↦ raises x s ]) ≡ returned b s'
      → (a : A) × (s : S) × (r ≡ returned a s) × (f a s ≡ returned b s')
  result-inverse (returned a s) f h = (a, s, refl, h)
  result-inverse (raises x s) f h = cc

  -- A chain that returns, step by step.
  pub >>=-returned :
      (m : S → Result S A) (f : A → S → Result S B) (s : S) {b : B} {s' : S}
      → (m >>= f) s ≡ returned b s'
      → (a : A) × (s1 : S) × (m s ≡ returned a s1) × (f a s1 ≡ returned b s')
  >>=-returned m f s h = result-inverse (m s) f h

pub >>=-eq {ℓ κ μ} :
    {S : Type ℓ} {A : Type κ} {B : Type μ} (m : S → Result S A) (f : A → S → Result S B) (s s' : S)
    {a : A}
    → m s ≡ returned a s'
    → (m >>= f) s ≡ f a s'
>>=-eq m f s s' h = ap (λ r. elim r [ returned a s1 ↦ f a s1 | raises x s1 ↦ raises x s1 ]) h

pub returned_injective {ℓ κ} :
    {S : Type ℓ} {A : Type κ} {a b : A} {s t : S} → returned a s ≡ returned b t → (a ≡ b) × (s ≡ t)
returned_injective h = (cc, cc)

-- What the engine asks of its LSMTree.
pub record StoreOps : Type 1 where
  pub Store : Type 0
  pub get : Store → Bytes → Option Bytes
  pub put : Bytes → Bytes → Store → Result Store (Unit {0})
  pub delete : Bytes → Store → Result Store (Unit {0})
  pub scan : Store → Bytes → Dict Bytes
  pub flush : Store → Result Store (Unit {0})

-- What the engine relies on, for keys that are not empty and values that are not the marker of a
-- deletion.
pub record StoreLaws (ops : StoreOps) : Type 1 where
  pub IsStore : ops.Store → Type 0
  pub puts :
      (k v : Bytes) (s s' : ops.Store)
      → IsStore s
      → k ≢ []
      → v ≢ tombstone
      → ops.put k v s ≡ returned tt s'
      → IsStore s' × ((j : Bytes) → ops.get s' j ≡ (if bytes_eq k j then some v else ops.get s j))
  pub deletes :
      (k : Bytes) (s s' : ops.Store)
      → IsStore s
      → k ≢ []
      → ops.delete k s ≡ returned tt s'
      → IsStore s' × ((j : Bytes) → ops.get s' j ≡ (if bytes_eq k j then none else ops.get s j))
  pub flushes :
      (s s' : ops.Store)
      → IsStore s
      → ops.flush s ≡ returned tt s'
      → IsStore s' × ((j : Bytes) → ops.get s' j ≡ ops.get s j)

-- What the engine relies on of a scan: it is in ascending order, and lists what reads give of the
-- keys from its start on.
pub record ScanLaws (ops : StoreOps) (laws : StoreLaws ops) : Type 0 where
  pub sorted : (s : ops.Store) (start : Bytes) → laws.IsStore s → IsSorted (ops.scan s start)
  pub listed :
      (s : ops.Store) (start j : Bytes)
      → laws.IsStore s
      → lookup j (ops.scan s start) ≡ (if bytes_lt j start then none else ops.get s j)

-- Floats as points in time: `float(b.decode("utf-8"))`, where `none` is the ValueError, `str(t)`,
-- `t >= e`, `t + n` and `int(e - t)`.
pub record Clock : Type 1 where
  pub Time : Type 0
  pub parse : Bytes → Option Time
  pub print : Time → Bytes
  pub reached : Time → Time → Bool
  pub after : Time → ℕ → Time
  pub left : Time → Time → ℤ

-- A float that was written is read back.
pub record ClockLaws (clock : Clock) : Type 0 where
  pub parses : (t : clock.Time) → clock.parse (clock.print t) ≡ some t
  pub prints : (t : clock.Time) → clock.print t ≢ tombstone

-- The value of a string: whether it decodes, the `len` of its text, and the `str` of bytes that do
-- not decode.
pub record Texts : Type 0 where
  pub decodes : Bytes → Bool
  pub size : Bytes → ℕ
  pub repr : Bytes → Bytes
