-- ===== src/Python/Decimal.antt =====
-- `str` and `int` on decimal integers. The limit on the digits of a text is not modelled.
use mathlib.Core.List.{cons-ne-nil}
use zenith_db.Prelude.{
  ltb→lt, ltb→le, ◌≢◌, ℕ, zero, suc, ◌+◌, ◌-◌, ◌*◌, ◌/◌, ◌%◌, ◌<◌, ◌≡◌, refl, ◌∙◌, Bool, true,
  false, ◌&&◌, Option, none, some, [], ◌∷◌, arith, inl, inr, Bool-cases, ltb, leb, ◌==◌,
  if◌then◌else◌, ◌>>=◌, All,
}
use zenith_db.Bytes.{Bytes}
use zenith_db.Python.Int.{ℤ, pos, negsuc, neg}
use zenith_db.Python.Text.{is_space, strip, IsSolid, strip_solid}

abbrev pub is_digit : ℕ → Bool
is_digit c = leb 48 c && leb c 57

-- The digits of a number in front of others. A number has fewer digits than its value and one.
digits : ℕ → ℕ → Bytes → Bytes
digits zero n out = out
digits (suc fuel) n out =
    let more = digits fuel (n / 10) ((48 + n % 10) ∷ out) in
    if ltb n 10 then (48 + n % 10) ∷ out else more

-- `str(n)`
unfoldable pub decimal : ℕ → Bytes
unfolding digits
decimal n = digits (n + 1) n []

unfoldable pub str_int : ℤ → Bytes
str_int (pos n) = decimal n
str_int (negsuc n) = 45 ∷ decimal (n + 1)

-- Digits behind a number, with single underscores between digits.
scan : Bytes → ℕ → Bool → Option ℕ
scan [] n after_digit = if after_digit then some n else none
scan (c ∷ s) n after_digit =
    let digit = scan s (n * 10 + (c - 48)) true in
    let underscore = scan s n false in
    if is_digit c then digit else if (c == 95) && after_digit then underscore else none

signed : Bytes → Option ℤ
signed [] = none
signed (c ∷ s) =
    if c == 45
    then (do n ← scan s 0 false; some (neg (pos n)))
    else if c == 43
    then (do n ← scan s 0 false; some (pos n))
    else (do n ← scan (c ∷ s) 0 false; some (pos n))

-- `int(s)`; `none` is the ValueError
unfoldable pub parse_int : Bytes → Option ℤ
unfolding signed scan
parse_int s = signed (strip s)

-- Reading the digits of a number in front of others is reading on from the number.
scan-digits :
    (fuel n : ℕ) (out : Bytes) → n < fuel → scan (digits fuel n out) 0 false ≡ scan out n true
unfolding scan digits
scan-digits zero n out h = absurd (omega arith)
scan-digits (suc fuel) n out h = elim (Bool-cases (ltb n 10)) [
  | inl last ↦
      let d : is_digit (48 + n % 10) ≡ true = ground arith in
      let e : 0 * 10 + (48 + n % 10 - 48) ≡ n = omega (arith, ltb→lt n 10 last) in rw (last, d, e)
  | inr more ↦
      let d : is_digit (48 + n % 10) ≡ true = ground arith in
      let e : n / 10 * 10 + (48 + n % 10 - 48) ≡ n = omega arith in
      rw more (
        scan-digits fuel (n / 10) ((48 + n % 10) ∷ out) (omega (arith, ltb→le n 10 more))
        ∙ rw (d, e))
]

IsDigits : Bytes → Type 0
IsDigits = All (λ c. is_digit c ≡ true)

digits-IsDigits : (fuel n : ℕ) (out : Bytes) → IsDigits out → IsDigits (digits fuel n out)
unfolding digits IsDigits
digits-IsDigits zero n out h = h
digits-IsDigits (suc fuel) n out h =
    let d : is_digit (48 + n % 10) ≡ true = ground arith in
    elim (Bool-cases (ltb n 10)) [
      | inl last ↦ rw last (d, h)
      | inr more ↦ rw more (digits-IsDigits fuel (n / 10) ((48 + n % 10) ∷ out) (d, h))
    ]

digits-ne : (fuel n : ℕ) (out : Bytes) → out ≢ [] → digits fuel n out ≢ []
unfolding digits
digits-ne zero n out h = h
digits-ne (suc fuel) n out h = elim (Bool-cases (ltb n 10)) [
  | inl last ↦ rw last (cons-ne-nil (48 + n % 10) out)
  | inr more ↦ rw more (digits-ne fuel (n / 10) _ (cons-ne-nil (48 + n % 10) out))
]

decimal-ne : (n : ℕ) → decimal n ≢ []
unfolding decimal digits
decimal-ne n =
    let e : n + 1 ≡ suc n = omega arith in
    rw e (elim (Bool-cases (ltb n 10)) [
      | inl last ↦ rw last (cons-ne-nil (48 + n % 10) [])
      | inr more ↦ rw more (digits-ne n (n / 10) _ (cons-ne-nil (48 + n % 10) []))
    ])

decimal-IsDigits : (n : ℕ) → IsDigits (decimal n)
unfolding decimal IsDigits
decimal-IsDigits n = digits-IsDigits (n + 1) n [] tt

scan-decimal : (n : ℕ) → scan (decimal n) 0 false ≡ some n
unfolding decimal scan
scan-decimal n = scan-digits (n + 1) n [] (omega arith)

IsDigits-IsSolid : (s : Bytes) → IsDigits s → IsSolid s
unfolding IsDigits IsSolid is_space
IsDigits-IsSolid [] h = tt
IsDigits-IsSolid (c ∷ s) (d, h) = (ground arith, IsDigits-IsSolid s h)

signed-digits :
    (s : Bytes) (n : ℕ) → IsDigits s → s ≢ [] → scan s 0 false ≡ some n → signed s ≡ some (pos n)
unfolding signed IsDigits
signed-digits [] n d h e = absurd (h refl)
signed-digits (c ∷ s) n (d, _) h e =
    let minus : (c == 45) ≡ false = ground arith in
    let plus : (c == 43) ≡ false = ground arith in rw (minus, plus, e)

-- Reading back what is printed, for any integer.
pub parse_int-str_int : (z : ℤ) → parse_int (str_int z) ≡ some z
unfolding parse_int str_int signed IsSolid is_space
parse_int-str_int (pos n) =
    let ds = decimal-IsDigits n in
    rw (strip_solid (decimal n) (IsDigits-IsSolid (decimal n) ds))
      (signed-digits (decimal n) n ds (decimal-ne n) (scan-decimal n))
parse_int-str_int (negsuc n) =
    let ds = decimal-IsDigits (n + 1) in
    rw
      (
        strip_solid (45 ∷ decimal (n + 1)) (refl, IsDigits-IsSolid (decimal (n + 1)) ds),
        scan-decimal (n + 1),
      )
      (ground arith)

-- A number in digits is read as itself.
pub parse_int-decimal : (n : ℕ) → parse_int (decimal n) ≡ some (pos n)
unfolding str_int
parse_int-decimal n = parse_int-str_int (pos n)

-- What is printed is ASCII, without control characters.
unfoldable pub IsPrinted : Bytes → Type 0
IsPrinted = All (λ c. (31 < c) × (c < 128))

digits-IsPrinted : (s : Bytes) → IsDigits s → IsPrinted s
unfolding IsDigits IsPrinted
digits-IsPrinted [] h = tt
digits-IsPrinted (c ∷ s) (d, h) = (ground arith, digits-IsPrinted s h)

pub decimal-IsPrinted : (n : ℕ) → IsPrinted (decimal n)
decimal-IsPrinted n = digits-IsPrinted (decimal n) (decimal-IsDigits n)

pub str_int-IsPrinted : (z : ℤ) → IsPrinted (str_int z)
unfolding str_int IsPrinted
str_int-IsPrinted (pos n) = decimal-IsPrinted n
str_int-IsPrinted (negsuc n) = (omega arith, decimal-IsPrinted (n + 1))

-- What is printed is digits and a sign.
unfoldable pub IsNumeral : Bytes → Type 0
IsNumeral = All (λ c. (44 < c) × (c < 58))

digits-IsNumeral : (s : Bytes) → IsDigits s → IsNumeral s
unfolding IsDigits IsNumeral
digits-IsNumeral [] h = tt
digits-IsNumeral (c ∷ s) (d, h) = (ground arith, digits-IsNumeral s h)

pub str_int-IsNumeral : (z : ℤ) → IsNumeral (str_int z)
unfolding str_int IsNumeral
str_int-IsNumeral (pos n) = digits-IsNumeral (decimal n) (decimal-IsDigits n)
str_int-IsNumeral (negsuc n) =
    (omega arith, digits-IsNumeral (decimal (n + 1)) (decimal-IsDigits (n + 1)))
