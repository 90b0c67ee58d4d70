-- ===== src/Python/Utf8.antt =====
-- Whether `bytes.decode("utf-8")` takes some bytes, or raises the UnicodeDecodeError.
use zenith_db.Prelude.{
  ℕ, zero, suc, Bool, true, false, ◌&&◌, Option, none, some, [], ◌∷◌, leb, ltb, if◌then◌else◌,
}
use zenith_db.Bytes.{Bytes}

-- After a first byte: how many bytes follow, and the bounds of the next one. No code has two
-- encodings, none is a surrogate, and none is above U+10FFFF.
abbrev lead : ℕ → Option (ℕ × ℕ × ℕ)
lead b =
    if ltb b 128
    then some (0, 0, 0)
    else if ltb b 194
    then none
    else if ltb b 224
    then some (1, 128, 191)
    else if leb b 224
    then some (2, 160, 191)
    else if leb b 236
    then some (2, 128, 191)
    else if leb b 237
    then some (2, 128, 159)
    else if leb b 239
    then some (2, 128, 191)
    else if leb b 240
    then some (3, 144, 191)
    else if leb b 243
    then some (3, 128, 191)
    else if leb b 244
    then some (3, 128, 143)
    else none

-- What follows, where a character still wants some bytes.
pub decodes_after : ℕ → ℕ → ℕ → Bytes → Bool
decodes_after zero low high [] = true
decodes_after (suc n) low high [] = false
decodes_after zero low high (b ∷ s) = elim (lead b) [
  | none ↦ false
  | some (n, low', high') ↦ decodes_after n low' high' s
]
decodes_after (suc n) low high (b ∷ s) = leb low b && leb b high && decodes_after n 128 191 s

unfoldable pub is_utf8 : Bytes → Bool
unfolding decodes_after
is_utf8 s = decodes_after 0 0 0 s
