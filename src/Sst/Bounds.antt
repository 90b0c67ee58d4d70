-- ===== src/Sst/Bounds.antt =====
-- What the least and the greatest key of sorted entries rule out.
use zenith_db.Prelude.{
  ◌≡◌, refl, ◌∙◌, true, Option, none, some, [], ◌∷◌, inl, inr, some_injective, Bool-cases, All,
}
use zenith_db.Bytes.{Bytes, bytes_eq, bytes_lt}
use zenith_db.Bytes.Order.{bytes_lt→ne, bytes_lt_trans, bytes_eq→eq}
use zenith_db.Dict.{Dict, lookup, IsSorted, Above, filter}
use zenith_db.Lsm.Tables.{ranged}
use zenith_db.Sst.Reader.{starts_above}
use zenith_db.Sst.Ranges.{ranged_before}
use zenith_db.Sst.Written.{last_key}

Above-last : (i m : Bytes) (d : Dict Bytes) → Above i d → last_key d ≡ some m → bytes_lt i m ≡ true
Above-last i m [] a h = cc
Above-last i m ((k, v) ∷ []) (l, a) h = rw (← some_injective h) l
Above-last i m (e ∷ (f ∷ d)) (l, a) h = Above-last i m (f ∷ d) a h

-- A key above the last one is not there.
pub lookup-above_last :
    (key m : Bytes) (d : Dict Bytes)
    → IsSorted d
    → last_key d ≡ some m
    → bytes_lt m key ≡ true
    → lookup key d ≡ none
unfolding lookup
lookup-above_last key m [] s h l = refl
lookup-above_last key m ((k, v) ∷ []) s h l =
    let lt : bytes_lt k key ≡ true = rw (some_injective h) l in rw (bytes_lt→ne k key lt)
lookup-above_last key m ((k, v) ∷ (f ∷ d)) (a, s) h l =
    let lt : bytes_lt k key ≡ true = bytes_lt_trans k m key (Above-last k m (f ∷ d) a h) l in
    rw (bytes_lt→ne k key lt) (lookup-above_last key m (f ∷ d) s h l)

starts_above_trans :
    (start : Option Bytes) (k m : Bytes)
    → bytes_lt k m ≡ true
    → starts_above start m ≡ true
    → starts_above start k ≡ true
starts_above_trans none k m l h = cc
starts_above_trans (some start) k m l h = bytes_lt_trans k m start l h

-- A range that starts above the last key is empty.
pub ranged-above_last :
    (start end : Option Bytes) (m : Bytes) (d : Dict Bytes)
    → IsSorted d
    → last_key d ≡ some m
    → starts_above start m ≡ true
    → ranged start end d ≡ []
unfolding filter
ranged-above_last start end m [] s h l = refl
ranged-above_last start end m ((k, v) ∷ []) s h l =
    let lt : starts_above start k ≡ true = rw (some_injective h) l in
    ranged_before start end k v [] lt
ranged-above_last start end m ((k, v) ∷ (f ∷ d)) (a, s) h l =
    ranged_before start end k v (f ∷ d)
      (starts_above_trans start k m (Above-last k m (f ∷ d) a h) l)
    ∙ ranged-above_last start end m (f ∷ d) s h l

-- What holds of each key holds of a key that is found.
pub All-lookup {ℓ} :
    (P : Bytes → Type ℓ) (key : Bytes) (d : Dict Bytes) {v : Bytes}
    → All (λ (e : Bytes × Bytes). P e.0) d
    → lookup key d ≡ some v
    → P key
unfolding lookup
All-lookup P key [] h e = cc
All-lookup P key ((k, w) ∷ d) {v} (p, h) e = elim (Bool-cases (bytes_eq k key)) [
  | inl same ↦ rw (← bytes_eq→eq k key same) p
  | inr other ↦ All-lookup P key d {v = v} h (rw other at e)
]
