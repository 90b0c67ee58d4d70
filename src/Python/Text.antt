-- ===== src/Python/Text.antt =====
-- Python's whitespace, `strip` and `split` on ASCII text.
use mathlib.Core.List.{reverse, reverse-append, reverse-reverse}
use zenith_db.Prelude.{
  ℕ, ◌≡◌, refl, Bool, false, ◌&&◌, ◌||◌, List, [], ◌∷◌, ◌++◌, leb, ◌==◌, if◌then◌else◌, All,
  All-append,
}
use zenith_db.Bytes.{Bytes}

-- Tab to carriage return, the four separators, and the blank.
unfoldable pub is_space : ℕ → Bool
is_space c = leb 9 c && leb c 13 || (leb 28 c && leb c 32)

pub lstrip : Bytes → Bytes
lstrip [] = []
lstrip (c ∷ s) = if is_space c then lstrip s else c ∷ s

unfoldable pub strip : Bytes → Bytes
unfolding lstrip is_space
strip s = reverse (lstrip (reverse (lstrip s)))

-- A word that is being read, in front of the words behind it.
close_word : Bytes → List Bytes → List Bytes
close_word [] words = words
close_word (c ∷ w) words = (c ∷ w) ∷ words

split_from : Bytes → Bytes → List Bytes
split_from word [] = close_word word []
split_from word (c ∷ s) =
    let fresh = split_from [] s in
    let more = split_from (word ++ c ∷ []) s in if is_space c then close_word word fresh else more

-- `s.split(chr(sep))`, on the field that is being read.
unfoldable pub split_on : ℕ → Bytes → Bytes → List Bytes
split_on sep field [] = field ∷ []
split_on sep field (c ∷ s) =
    let fresh = split_on sep [] s in
    let more = split_on sep (field ++ c ∷ []) s in if c == sep then field ∷ fresh else more

-- `s.split()`
unfoldable pub split : Bytes → List Bytes
unfolding split_from close_word is_space
split s = split_from [] s

unfoldable pub IsSolid : Bytes → Type 0
IsSolid = All (λ c. is_space c ≡ false)

lstrip_solid : (s : Bytes) → IsSolid s → lstrip s ≡ s
unfolding IsSolid lstrip
lstrip_solid [] h = refl
lstrip_solid (c ∷ s) (p, h) = rw p

reverse-IsSolid : (s : Bytes) → IsSolid s → IsSolid (reverse s)
unfolding IsSolid
reverse-IsSolid [] h = h
reverse-IsSolid (c ∷ s) (p, h) =
    rw (reverse-append (c ∷ []) s)
      (All-append (λ c. is_space c ≡ false) (reverse s) (c ∷ []) (reverse-IsSolid s h) (p, tt))

-- A text without whitespace is stripped of nothing.
pub strip_solid : (s : Bytes) → IsSolid s → strip s ≡ s
unfolding strip
strip_solid s h =
    rw (lstrip_solid s h, lstrip_solid (reverse s) (reverse-IsSolid s h)) (reverse-reverse s)
