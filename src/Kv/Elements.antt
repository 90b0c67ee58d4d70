-- ===== src/Kv/Elements.antt =====
-- The elements of a list in the store.
use mathlib.Core.Path.{subst}
use zenith_db.Prelude.{
  ℕ, suc, ◌<◌, ◌≡◌, ◌≢◌, sym, ap, ◌∙◌, arith, inl, inr, Bool, false, Option, some, List, [], ◌∷◌,
  ◌++◌, Bool-cases, if◌then◌else◌, length,
}
use zenith_db.Bytes.{Bytes, bytes_eq, codes}
use zenith_db.Bytes.Order.{bytes_eq-append, bytes_eq→eq}
use zenith_db.Python.Int.{ℤ, pos, ◌+ℤ◌, +ℤ_zero, +ℤ-step}
use zenith_db.Python.Decimal.{str_int, parse_int, parse_int-str_int}
use zenith_db.Kv.Keys.{element_key}

str_int_injective : (i j : ℤ) → str_int i ≡ str_int j → i ≡ j
str_int_injective i j h =
    let e : some i ≡ some j = sym (parse_int-str_int i) ∙ ap parse_int h ∙ parse_int-str_int j in cc

-- Two indices have two keys.
pub element_key_ne :
    (key : Bytes) (i j : ℤ) → i ≢ j → bytes_eq (element_key key i) (element_key key j) ≡ false
unfolding bytes_eq
element_key_ne key i j h =
    bytes_eq-append key (codes ":" ++ str_int i) (codes ":" ++ str_int j)
    ∙ (elim (Bool-cases (bytes_eq (str_int i) (str_int j))) [
      | inl same ↦ absurd (h (str_int_injective i j (bytes_eq→eq (str_int i) (str_int j) same)))
      | inr other ↦ other
    ])

-- From the index `h` on, the store `f` has the elements `xs`.
abbrev pub Elements : Bytes → ℤ → List Bytes → (Bytes → Option Bytes) → Type 0
Elements key h [] f = Unit
Elements key h (x ∷ xs) f = (f (element_key key h) ≡ some x) × Elements key (h +ℤ pos 1) xs f

-- A store that has the same under these indices has the same elements.
pub Elements-frame :
    (key : Bytes) (h : ℤ) (xs : List Bytes) (f g : Bytes → Option Bytes)
    → ((j : ℕ)
        → j < length xs
        → g (element_key key (h +ℤ pos j)) ≡ f (element_key key (h +ℤ pos j)))
    → Elements key h xs f
    → Elements key h xs g
Elements-frame key h [] f g same hs = tt
Elements-frame key h (x ∷ xs) f g same (here, hs) = (
  subst (λ (i : ℤ). g (element_key key i) ≡ f (element_key key i)) (+ℤ_zero h)
        (same 0 (omega arith))
      ∙ here,
  Elements-frame key (h +ℤ pos 1) xs f g
      (λ j lt.
        subst (λ (i : ℤ). g (element_key key i) ≡ f (element_key key i)) (sym (+ℤ-step h j))
          (same (suc j) (omega (arith, lt))))
      hs,
)

-- A change at an index outside leaves the elements.
pub Elements-other :
    (key : Bytes) (h i : ℤ) (xs : List Bytes) (o : Option Bytes) (f g : Bytes → Option Bytes)
    → ((j : ℕ) → j < length xs → i ≢ h +ℤ pos j)
    → ((k : Bytes) → g k ≡ (if bytes_eq (element_key key i) k then o else f k))
    → Elements key h xs f
    → Elements key h xs g
Elements-other key h i xs o f g outside reads hs =
    Elements-frame key h xs f g
      (λ j lt.
        reads (element_key key (h +ℤ pos j))
        ∙ ap (λ (b : Bool). if b then o else f (element_key key (h +ℤ pos j)))
            (element_key_ne key i (h +ℤ pos j) (outside j lt)))
      hs

pub Elements-append :
    (key : Bytes) (h : ℤ) (xs ys : List Bytes) (f : Bytes → Option Bytes)
    → Elements key h xs f
    → Elements key (h +ℤ pos (length xs)) ys f
    → Elements key h (xs ++ ys) f
Elements-append key h [] ys f hx hy = subst (λ (i : ℤ). Elements key i ys f) (+ℤ_zero h) hy
Elements-append key h (x ∷ xs) ys f (here, hx) hy = (
  here,
  Elements-append key (h +ℤ pos 1) xs ys f hx
      (subst (λ (i : ℤ). Elements key i ys f) (sym (+ℤ-step h (length xs))) hy),
)

pub Elements-parts :
    (key : Bytes) (h : ℤ) (xs ys : List Bytes) (f : Bytes → Option Bytes)
    → Elements key h (xs ++ ys) f
    → Elements key h xs f × Elements key (h +ℤ pos (length xs)) ys f
Elements-parts key h [] ys f hs = (tt, subst (λ (i : ℤ). Elements key i ys f) (sym (+ℤ_zero h)) hs)
Elements-parts key h (x ∷ xs) ys f (here, hs) =
    let (hx, hy) = Elements-parts key (h +ℤ pos 1) xs ys f hs in
    ((here, hx), subst (λ (i : ℤ). Elements key i ys f) (+ℤ-step h (length xs)) hy)
