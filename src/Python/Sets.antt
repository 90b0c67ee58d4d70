-- ===== src/Python/Sets.antt =====
-- Python's `set` of texts, without repetitions, as a list in the order in which its members came.
-- (Python leaves the order of a set open; only `contains` and `len` are asked of one.)
use zenith_db.Prelude.{
  ◌≡◌, refl, ◌∙◌, Bool, true, false, not, ◌&&◌, ◌||◌, List, [], ◌∷◌, arith, inl, inr, Bool-cases,
  if◌then◌else◌,
}
use zenith_db.Bytes.{Bytes, bytes_eq}
use zenith_db.Bytes.Order.{bytes_eq→eq}

-- `x in s`
unfoldable pub contains : Bytes → List Bytes → Bool
contains x [] = false
contains x (y ∷ s) = bytes_eq y x || contains x s

-- `s.add(x)`
unfoldable pub add : List Bytes → Bytes → List Bytes
add [] x = x ∷ []
add (y ∷ s) x = if bytes_eq y x then y ∷ s else y ∷ add s x

-- `s.update(t)`
unfoldable pub update : List Bytes → List Bytes → List Bytes
update s [] = s
update s (x ∷ t) = update (add s x) t

-- `s.intersection_update(t)` where `kept` is true, and `s.difference_update(t)` where it is false.
unfoldable pub restrict : Bool → List Bytes → List Bytes → List Bytes
restrict kept [] t = []
restrict kept (x ∷ s) t =
    let rest = restrict kept s t in
    if contains x t then (if kept then x ∷ rest else rest) else if kept then rest else x ∷ rest

abbrev pub intersection_update : List Bytes → List Bytes → List Bytes
intersection_update s t = restrict true s t

abbrev pub difference_update : List Bytes → List Bytes → List Bytes
difference_update s t = restrict false s t

pub contains-add :
    (x y : Bytes) (s : List Bytes) → contains x (add s y) ≡ contains x s || bytes_eq y x
unfolding contains add
contains-add x y [] = ground arith
contains-add x y (z ∷ s) = elim (Bool-cases (bytes_eq z y)) [
  | inl e ↦ rw (e, bytes_eq→eq z y e) (ground arith)
  | inr e ↦ rw e (ground (arith, contains-add x y s))
]

pub contains-update :
    (x : Bytes) (s t : List Bytes) → contains x (update s t) ≡ contains x s || contains x t
unfolding contains update
contains-update x s [] = ground arith
contains-update x s (y ∷ t) = contains-update x (add s y) t ∙ rw (contains-add x y s) (ground arith)

contains_same : (x y : Bytes) (t : List Bytes) → bytes_eq y x ≡ true → contains x t ≡ contains y t
contains_same x y t h = rw (bytes_eq→eq y x h) refl

pub contains-restrict :
    (kept : Bool) (x : Bytes) (s t : List Bytes)
    → contains x (restrict kept s t)
      ≡ contains x s && (if kept then contains x t else not (contains x t))
unfolding contains restrict
contains-restrict true x [] t = refl
contains-restrict false x [] t = refl
contains-restrict true x (y ∷ s) t =
    ground (arith, contains-restrict true x s t, contains_same x y t)
contains-restrict false x (y ∷ s) t =
    ground (arith, contains-restrict false x s t, contains_same x y t)
