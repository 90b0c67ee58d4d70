-- ===== src/Bytes/Pack.antt =====
-- The `struct` module of Python's standard library, for formats of big-endian unsigned integers:
-- a format is the list of its field widths in bytes (B 1, H 2, I 4, Q 8; a double or a float is
-- its bit pattern). `pack` refuses a value that does not fit its field.
use native.Mathlib.Nat.{pow-suc}
use mathlib.Core.Path.{subst, sym}
use zenith_db.Prelude.{
  ℕ, zero, suc, ◌+◌, ◌*◌, ◌/◌, ◌%◌, ◌^◌, ◌<◌, ◌≡◌, refl, ◌∙◌, Option, none, some, List, [], ◌∷◌,
  ◌++◌, inl, inr, arith, ltb, lt→ltb, ltb→lt, if◌then◌else◌, ◌>>=◌, length, take, drop,
  length-append, take-append, drop-append, append-nil, append_assoc, Bool-cases, Option-cases,
  ltb→le, le→ltb, length-take, All-drop, All-take, take-append-drop,
}
use zenith_db.Bytes.{Bytes, IsBytes}

-- The `w` bytes of a number, the most significant first.
unfoldable pub be : ℕ → ℕ → Bytes
be zero n = []
be (suc w) n = be w (n / 256) ++ (n % 256) ∷ []

unbe_from : ℕ → Bytes → ℕ
unbe_from acc [] = acc
unbe_from acc (b ∷ s) = unbe_from (acc * 256 + b) s

unfoldable pub unbe : Bytes → ℕ
unfolding unbe_from
unbe s = unbe_from 0 s

abbrev pub calcsize : List ℕ → ℕ
calcsize [] = 0
calcsize (w ∷ ws) = w + calcsize ws

-- `none` is `struct.error`
unfoldable pub pack : List ℕ → List ℕ → Option Bytes
unfolding be
pack [] [] = some []
pack (w ∷ ws) (v ∷ vs) =
    if ltb v (256 ^ w) then (do rest ← pack ws vs; some (be w v ++ rest)) else none
pack _ _ = none

unfoldable pub unpack : List ℕ → Bytes → Option (List ℕ)
unfolding unbe
unpack [] [] = some []
unpack [] (b ∷ s) = none
unpack (w ∷ ws) s =
    if ltb (length s) w then none else (do vs ← unpack ws (drop w s); some (unbe (take w s) ∷ vs))

pub length-be : (w n : ℕ) → length (be w n) ≡ w
unfolding be
length-be zero n = refl
length-be (suc w) n =
    omega (arith, length-append (be w (n / 256)) ((n % 256) ∷ []), length-be w (n / 256))

unbe_from-append : (s : Bytes) (b acc : ℕ) → unbe_from acc (s ++ b ∷ []) ≡ unbe_from acc s * 256 + b
unfolding unbe_from
unbe_from-append [] b acc = refl
unbe_from-append (c ∷ s) b acc = unbe_from-append s b (acc * 256 + c)

unbe_from-be : (w n : ℕ) → n < 256 ^ w → unbe_from 0 (be w n) ≡ n
unfolding unbe_from be
unbe_from-be zero n h = omega arith
unbe_from-be (suc w) n h = rw (unbe_from-append (be w (n / 256)) (n % 256) 0) (
    let small : n / 256 < 256 ^ w = omega (arith, pow-suc 256 w) in
    omega (arith, unbe_from-be w (n / 256) small))

pub unbe-be : (w n : ℕ) → n < 256 ^ w → unbe (be w n) ≡ n
unfolding unbe
unbe-be = unbe_from-be

-- The bytes of a record whose values fit their fields.
pub layout : List ℕ → List ℕ → Bytes
layout [] vs = []
layout (w ∷ ws) [] = []
layout (w ∷ ws) (v ∷ vs) = be w v ++ layout ws vs

abbrev pub Fits : List ℕ → List ℕ → Type 0
Fits [] [] = Unit
Fits (w ∷ ws) (v ∷ vs) = (v < 256 ^ w) × Fits ws vs
Fits _ _ = ⊥

pub pack-layout : (ws vs : List ℕ) → Fits ws vs → pack ws vs ≡ some (layout ws vs)
unfolding pack layout
pack-layout [] [] h = refl
pack-layout [] (v ∷ vs) h = absurd h
pack-layout (w ∷ ws) [] h = absurd h
pack-layout (w ∷ ws) (v ∷ vs) (fits, h) = rw (lt→ltb v (256 ^ w) fits, pack-layout ws vs h)

-- `pack` succeeds only on values that fit.
pub pack-Fits : (ws vs : List ℕ) {s : Bytes} → pack ws vs ≡ some s → Fits ws vs
unfolding pack
pack-Fits [] [] h = tt
pack-Fits [] (v ∷ vs) h = cc
pack-Fits (w ∷ ws) [] h = cc
pack-Fits (w ∷ ws) (v ∷ vs) {s} h = elim (Bool-cases (ltb v (256 ^ w))) [
  | inr big ↦ let k : none ≡ some s = rw big at h in cc
  | inl fits ↦ elim (Option-cases (pack ws vs)) [
    | inl bad ↦ let k : none ≡ some s = rw (fits, bad) at h in cc
    | inr (r, e) ↦ (ltb→lt v (256 ^ w) fits, pack-Fits ws vs e)
  ]
]

pub length-layout : (ws vs : List ℕ) → Fits ws vs → length (layout ws vs) ≡ calcsize ws
unfolding layout
length-layout [] [] h = refl
length-layout [] (v ∷ vs) h = absurd h
length-layout (w ∷ ws) [] h = absurd h
length-layout (w ∷ ws) (v ∷ vs) (fits, h) =
    omega (arith, length-append (be w v) (layout ws vs), length-be w v, length-layout ws vs h)

-- Unpacking gives the values back.
pub unpack-layout : (ws vs : List ℕ) → Fits ws vs → unpack ws (layout ws vs) ≡ some vs
unfolding unpack layout
unpack-layout [] [] h = refl
unpack-layout [] (v ∷ vs) h = absurd h
unpack-layout (w ∷ ws) [] h = absurd h
unpack-layout (w ∷ ws) (v ∷ vs) (fits, h) = rw (
  le→ltb (length (be w v ++ layout ws vs)) w
      (omega (arith, length-append (be w v) (layout ws vs), length-be w v)),
  drop-append w (be w v) (layout ws vs) (length-be w v),
  unpack-layout ws vs h,
  take-append w (be w v) (layout ws vs) (length-be w v),
  unbe-be w v fits,
)

be-unbe_from :
    (s : Bytes) (k acc : ℕ) → IsBytes s → be (k + length s) (unbe_from acc s) ≡ be k acc ++ s
unfolding be unbe_from
be-unbe_from [] k acc h = let e : k + 0 ≡ k = omega arith in rw (e, append-nil)
be-unbe_from (b ∷ s) k acc (hb, h) =
    let e : k + suc (length s) ≡ suc k + length s = omega arith in
    let q : (acc * 256 + b) / 256 ≡ acc = omega arith in
    let r : (acc * 256 + b) % 256 ≡ b = omega arith in
    rw e (be-unbe_from s (suc k) (acc * 256 + b) h ∙ be_snoc q r)
  where
    be_snoc :
        (acc * 256 + b) / 256 ≡ acc
        → (acc * 256 + b) % 256 ≡ b
        → be (suc k) (acc * 256 + b) ++ s ≡ be k acc ++ b ∷ s
    be_snoc q r = rw (q, r, append_assoc)

pub be-unbe : (s : Bytes) (w : ℕ) → length s ≡ w → IsBytes s → be w (unbe s) ≡ s
unfolding unbe be
be-unbe s w e h = let z : 0 + length s ≡ w = omega arith in rw (← z) (be-unbe_from s 0 0 h)

unbe_from-lt : (s : Bytes) (acc n : ℕ) → acc < n → IsBytes s → unbe_from acc s < n * 256 ^ length s
unfolding unbe_from
unbe_from-lt [] acc n h _ = omega arith
unbe_from-lt (b ∷ s) acc n h (hb, hs) =
    let e : n * 256 ^ suc (length s) ≡ n * 256 * 256 ^ length s = pow_step in
    rw e (unbe_from-lt s (acc * 256 + b) (n * 256) (omega arith) hs)
  where
    pow_step : n * 256 ^ suc (length s) ≡ n * 256 * 256 ^ length s
    pow_step = rw (pow-suc 256 (length s)) (omega arith)

pub unbe-lt : (s : Bytes) (w : ℕ) → length s ≡ w → IsBytes s → unbe s < 256 ^ w
unfolding unbe
unbe-lt s w e h = rw (← e) (omega (arith, unbe_from-lt s 0 1 (omega arith) h))

-- What `unpack` accepts is exactly the record of the values that it returns.
pub layout-unpack :
    (ws : List ℕ) (s : Bytes) {vs : List ℕ}
    → IsBytes s
    → unpack ws s ≡ some vs
    → Fits ws vs × (layout ws vs ≡ s)
unfolding unpack layout
layout-unpack [] [] {vs = []} hs h = (tt, refl)
layout-unpack [] [] {vs = v ∷ vs} hs h = cc
layout-unpack [] (b ∷ s) hs h = cc
layout-unpack (w ∷ ws) s {vs} hs h = elim (Bool-cases (ltb (length s) w)) [
  | inl short ↦ let k : none ≡ some vs = rw short at h in cc
  | inr enough ↦ elim (Option-cases (unpack ws (drop w s))) [
    | inl bad ↦ let k : none ≡ some vs = rw (enough, bad) at h in cc
    | inr (us, e) ↦
        let k : some (unbe (take w s) ∷ us) ≡ some vs = rw (enough, e) at h in
        let n : length (take w s) ≡ w =
          omega (arith, length-take w s, ltb→le (length s) w enough) in
        let (f, l) = layout-unpack ws (drop w s) (All-drop _ w s hs) e in
        let hd = All-take _ w s hs in
        let same : (unbe (take w s) ∷ us) ≡ vs = cc in
        subst (λ us'. Fits (w ∷ ws) us' × (layout (w ∷ ws) us' ≡ s)) same
          ((unbe-lt (take w s) w n hd, f), rw (be-unbe (take w s) w n hd, l) (take-append-drop w s))
  ]
]

-- What `pack` returns is read back, and has the format's size.
pub unpack-pack :
    (ws vs : List ℕ) {s : Bytes}
    → pack ws vs ≡ some s
    → (unpack ws s ≡ some vs) × (length s ≡ calcsize ws)
unpack-pack ws vs {s} h =
    let fits = pack-Fits ws vs h in
    let both : ◌≡◌ {A = Option Bytes} (some (layout ws vs)) (some s) =
      sym (pack-layout ws vs fits) ∙ h in
    let e : layout ws vs ≡ s = cc in rw (← e) (unpack-layout ws vs fits, length-layout ws vs fits)
