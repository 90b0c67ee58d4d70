-- ===== src/Kv/Scans.antt =====
-- What a scan lists behind a prefix.
use zenith_db.Prelude.{
  ◌≡◌, refl, sym, ap, none-ne-some, ◌∙◌, true, false, none, [], ◌∷◌, ◌++◌, arith, inl, inr,
  Bool-cases, not, length, drop, is_none,
}
use zenith_db.Bytes.{Bytes, bytes_eq, bytes_lt, starts_with}
use zenith_db.Bytes.Order.{bytes_eq-append, bytes_lt→ne, bytes_eq_comm, bytes_eq_refl, bytes_eq→eq}
use zenith_db.Dict.{Dict, lookup, IsDict, IsSorted}
use zenith_db.Dict.Sorted.{lookup-Above, Above-trans}
use zenith_db.Dict.Filter.{IsSorted-IsDict}
use zenith_db.Kv.{StoreOps, StoreLaws, ScanLaws}
use zenith_db.Python.Sets.{contains}
use zenith_db.Kv.Keys.{with_prefix, keys_in}
use zenith_db.Kv.Hashes.{named_from}

-- Keys without a prefix that are not below it are above everything that has it.
starts_with-lt :
    (k p j : Bytes) → bytes_lt k p ≡ false → starts_with k p ≡ false → bytes_lt (p ++ j) k ≡ true
unfolding bytes_lt starts_with
starts_with-lt k [] j h s = cc
starts_with-lt [] (b ∷ p) j h s = cc
starts_with-lt (a ∷ k) (b ∷ p) j h s = ground (arith, starts_with-lt k p j)

starts_with-drop : (k p : Bytes) → starts_with k p ≡ true → p ++ drop (length p) k ≡ k
unfolding starts_with
starts_with-drop k [] h = refl
starts_with-drop [] (b ∷ p) h = cc
starts_with-drop (a ∷ k) (b ∷ p) h = ground (arith, starts_with-drop k p)

-- No key is below a bound.
abbrev pub NotBelow : Bytes → Dict Bytes → Type 0
NotBelow p [] = Unit
NotBelow p ((k, v) ∷ d) = (bytes_lt k p ≡ false) × NotBelow p d

pub lookup-named_from :
    (p j : Bytes) (d : Dict Bytes)
    → NotBelow p d
    → IsSorted d
    → lookup j (named_from p (with_prefix p d)) ≡ lookup (p ++ j) d
unfolding lookup named_from with_prefix
lookup-named_from p j [] n s = refl
lookup-named_from p j ((k, v) ∷ d) (b, n) (a, s) = elim (Bool-cases (starts_with k p)) [
  | inl on ↦
      let same : bytes_eq (drop (length p) k) j ≡ bytes_eq k (p ++ j) =
        rw (← bytes_eq-append p (drop (length p) k) j, starts_with-drop k p on) refl in
      rw (on, same) (ground (arith, lookup-named_from p j d n s))
  | inr off ↦
      let low = starts_with-lt k p j b off in
      rw (off, bytes_eq_comm k (p ++ j), bytes_lt→ne (p ++ j) k low)
        (sym (lookup-Above (p ++ j) d (Above-trans (p ++ j) k d low a)))
]

lookup-with_prefix :
    (p j : Bytes) (d : Dict Bytes)
    → NotBelow p d
    → IsSorted d
    → lookup (p ++ j) (with_prefix p d) ≡ lookup (p ++ j) d
unfolding lookup with_prefix
lookup-with_prefix p j [] n s = refl
lookup-with_prefix p j ((k, v) ∷ d) (b, n) (a, s) = elim (Bool-cases (starts_with k p)) [
  | inl on ↦ rw on (ground (arith, lookup-with_prefix p j d n s))
  | inr off ↦
      let low = starts_with-lt k p j b off in
      rw (off, bytes_eq_comm k (p ++ j), bytes_lt→ne (p ++ j) k low)
        (sym (lookup-Above (p ++ j) d (Above-trans (p ++ j) k d low a)))
]

named_from-IsDict :
    (p : Bytes) (d : Dict Bytes)
    → NotBelow p d
    → IsSorted d
    → IsDict (named_from p (with_prefix p d))
unfolding named_from with_prefix
named_from-IsDict p [] n s = tt
named_from-IsDict p ((k, v) ∷ d) (b, n) (a, s) = elim (Bool-cases (starts_with k p)) [
  | inl on ↦ rw on (
    lookup-named_from p (drop (length p) k) d n s
        ∙ ap (λ (i : Bytes). lookup i d) (starts_with-drop k p on)
        ∙ lookup-Above k d a,
    named_from-IsDict p d n s,
  )
  | inr off ↦ rw off tt
]

lookup-NotBelow :
    (p : Bytes) (d : Dict Bytes)
    → IsDict d
    → ((j : Bytes) → bytes_lt j p ≡ true → lookup j d ≡ none)
    → NotBelow p d
unfolding lookup
lookup-NotBelow p [] u h = tt
lookup-NotBelow p ((k, v) ∷ d) (fresh, u) h = (
  elim (Bool-cases (bytes_lt k p)) [
    | inl low ↦ absurd (none-ne-some {a = v} (sym (h k low) ∙ rw (bytes_eq_refl k) refl))
    | inr e ↦ e
  ],
  lookup-NotBelow p d u (λ j low. elim (Bool-cases (bytes_eq k j)) [
    | inl same ↦ ap (λ (i : Bytes). lookup i d) (sym (bytes_eq→eq k j same)) ∙ fresh
    | inr other ↦ rw other at (h j low)
  ]),
)

bytes_lt-append : (p j : Bytes) → bytes_lt (p ++ j) p ≡ false
unfolding bytes_lt
bytes_lt-append [] j = refl
bytes_lt-append (a ∷ p) j = ground (arith, bytes_lt-append p j)

pub contains-keys_in :
    (j : Bytes) (d : Dict Bytes) → contains j (keys_in d) ≡ not (is_none (lookup j d))
unfolding contains lookup
contains-keys_in j [] = refl
contains-keys_in j ((k, v) ∷ d) = ground (arith, contains-keys_in j d)

module _ (ops : StoreOps) (laws : StoreLaws ops) (scans : ScanLaws ops laws) where
  scan-NotBelow : (s : ops.Store) (p : Bytes) → laws.IsStore s → NotBelow p (ops.scan s p)
  scan-NotBelow s p g =
      lookup-NotBelow p (ops.scan s p) (IsSorted-IsDict (ops.scan s p) (scans.sorted s p g))
        (λ i low. scans.listed s p i g ∙ rw low refl)

  -- What a scan lists behind a prefix is what reads give there.
  pub lookup-scan_named :
      (s : ops.Store) (p j : Bytes)
      → laws.IsStore s
      → lookup j (named_from p (with_prefix p (ops.scan s p))) ≡ ops.get s (p ++ j)
  lookup-scan_named s p j g =
      lookup-named_from p j (ops.scan s p) (scan-NotBelow s p g) (scans.sorted s p g)
      ∙ scans.listed s p (p ++ j) g
      ∙ rw (bytes_lt-append p j) refl

  pub scan_named-IsDict :
      (s : ops.Store) (p : Bytes)
      → laws.IsStore s
      → IsDict (named_from p (with_prefix p (ops.scan s p)))
  scan_named-IsDict s p g =
      named_from-IsDict p (ops.scan s p) (scan-NotBelow s p g) (scans.sorted s p g)

  pub lookup-scan_prefix :
      (s : ops.Store) (p j : Bytes)
      → laws.IsStore s
      → lookup (p ++ j) (with_prefix p (ops.scan s p)) ≡ ops.get s (p ++ j)
  lookup-scan_prefix s p j g =
      lookup-with_prefix p j (ops.scan s p) (scan-NotBelow s p g) (scans.sorted s p g)
      ∙ scans.listed s p (p ++ j) g
      ∙ rw (bytes_lt-append p j) refl
