-- ===== src/Bytes/Order.antt =====
-- The order on bytes is total, and its tests decide equality.
use zenith_db.Prelude.{◌≡◌, ◌↔◌, refl, true, false, ◌∷◌, [], ◌++◌, arith, ==_refl}
use zenith_db.Bytes.{Bytes, bytes_eq, bytes_lt}

pub bytes_eq→eq : (s t : Bytes) → bytes_eq s t ≡ true → s ≡ t
unfolding bytes_eq
bytes_eq→eq [] [] h = refl
bytes_eq→eq [] (b ∷ t) h = cc
bytes_eq→eq (a ∷ s) [] h = cc
bytes_eq→eq (a ∷ s) (b ∷ t) h = ground (arith, bytes_eq→eq s t)

pub bytes_eq_refl : (s : Bytes) → bytes_eq s s ≡ true
unfolding bytes_eq
bytes_eq_refl [] = refl
bytes_eq_refl (a ∷ s) = ground (arith, bytes_eq_refl s)

pub bytes_eq_iff : (s t : Bytes) → (bytes_eq s t ≡ true) ↔ (s ≡ t)
bytes_eq_iff s t = (bytes_eq→eq s t, λ e. rw e (bytes_eq_refl t))

pub bytes_eq_comm : (s t : Bytes) → bytes_eq s t ≡ bytes_eq t s
unfolding bytes_eq
bytes_eq_comm [] [] = refl
bytes_eq_comm [] (b ∷ t) = refl
bytes_eq_comm (a ∷ s) [] = refl
bytes_eq_comm (a ∷ s) (b ∷ t) = ground (arith, bytes_eq_comm s t)

pub bytes_lt_irrefl : (s : Bytes) → bytes_lt s s ≡ false
unfolding bytes_lt
bytes_lt_irrefl [] = refl
bytes_lt_irrefl (a ∷ s) = ground (arith, bytes_lt_irrefl s)

pub bytes_lt_trans :
    (s t u : Bytes) → bytes_lt s t ≡ true → bytes_lt t u ≡ true → bytes_lt s u ≡ true
unfolding bytes_lt
bytes_lt_trans s t [] h k = cc
bytes_lt_trans [] t (c ∷ u) h k = refl
bytes_lt_trans (a ∷ s) [] (c ∷ u) h k = cc
bytes_lt_trans (a ∷ s) (b ∷ t) (c ∷ u) h k = ground (arith, bytes_lt_trans s t u)

pub bytes_lt_asymm : (s t : Bytes) → bytes_lt s t ≡ true → bytes_lt t s ≡ false
unfolding bytes_lt
bytes_lt_asymm s [] h = cc
bytes_lt_asymm [] (b ∷ t) h = refl
bytes_lt_asymm (a ∷ s) (b ∷ t) h = ground (arith, bytes_lt_asymm s t)

-- Neither below the other: equal.
pub bytes_lt_connex : (s t : Bytes) → bytes_lt s t ≡ false → bytes_lt t s ≡ false → s ≡ t
unfolding bytes_lt
bytes_lt_connex [] [] h k = refl
bytes_lt_connex [] (b ∷ t) h k = cc
bytes_lt_connex (a ∷ s) [] h k = cc
bytes_lt_connex (a ∷ s) (b ∷ t) h k = ground (arith, bytes_lt_connex s t)

pub bytes_lt→ne : (s t : Bytes) → bytes_lt s t ≡ true → bytes_eq s t ≡ false
unfolding bytes_lt bytes_eq
bytes_lt→ne s [] h = cc
bytes_lt→ne [] (b ∷ t) h = refl
bytes_lt→ne (a ∷ s) (b ∷ t) h = ground (arith, bytes_lt→ne s t)

pub bytes_eq-append : (p s t : Bytes) → bytes_eq (p ++ s) (p ++ t) ≡ bytes_eq s t
unfolding bytes_eq
bytes_eq-append [] s t = refl
bytes_eq-append (c ∷ p) s t = rw (==_refl c) (bytes_eq-append p s t)
