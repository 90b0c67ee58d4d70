-- ===== src/Resp/Examples.antt =====
-- The theorems on the protocol at an array with a number, a dict and an error, with the codec of
-- ASCII.
use mathlib.Core.Path.{subst}
use zenith_db.Prelude.{
  ℕ, take, ◌≡◌, ◌++◌, refl, sym, ap, ◌∙◌, arith, Bool, true, false, ◌&&◌, Option, none, some, List,
  [], ◌∷◌, ltb, if◌then◌else◌, inl, inr, Bool-cases, some_injective, none-ne-some,
}
use zenith_db.Bytes.{Bytes, codes}
use zenith_db.Python.Int.{negsuc}
use zenith_db.Python.Decimal.{decimal, str_int}
use zenith_db.Resp.Value.{
  Str, Value, Utf8, Utf8Laws, IsAscii, LacksLf, nil, bool, int, text, items, dict, error, end, item,
  no_entries, entry,
}
use zenith_db.Resp.Serializer.{encode, bulk_text, error_line}
use zenith_db.Resp.Parser.{get_next, feed}
use zenith_db.Resp.RoundTrip.{nesting, IsLine, echo}
use zenith_db.Resp.Waiting.{get_next-take}
use zenith_db.Resp.Stream.{get_next-encode}

abbrev is_ascii : List ℕ → Bool
is_ascii [] = true
is_ascii (c ∷ s) = ltb c 128 && is_ascii s

abbrev only_ascii : List ℕ → Option (List ℕ)
only_ascii s = if is_ascii s then some s else none

abbrev codec : Utf8
codec = record { encode_text = only_ascii; decode = only_ascii; decode_replace = λ b. b }

only_ascii-same : (s : List ℕ) {b : List ℕ} → only_ascii s ≡ some b → s ≡ b
only_ascii-same s {b} h = elim (Bool-cases (is_ascii s)) [
  | inl yes_ ↦ some_injective (rw yes_ at h)
  | inr no_ ↦ absurd (none-ne-some {a = b} (rw no_ at h))
]

false-ne-true : false ≡ true → ⊥
false-ne-true h = cc

is_ascii-append :
    (s t : List ℕ) → is_ascii (s ++ t) ≡ true → (is_ascii s ≡ true) × (is_ascii t ≡ true)
is_ascii-append [] t h = (refl, h)
is_ascii-append (c ∷ s) t h = elim (Bool-cases (ltb c 128)) [
  | inl below ↦ let (a, b) = is_ascii-append s t (rw below at h) in (rw below a, b)
  | inr above ↦ absurd (false-ne-true (rw above at h))
]

IsAscii-is_ascii : (s : List ℕ) → IsAscii s → is_ascii s ≡ true
IsAscii-is_ascii [] h = refl
IsAscii-is_ascii (c ∷ s) (p, h) =
    let below : ltb c 128 ≡ true = ground arith in rw below (IsAscii-is_ascii s h)

only_ascii-splits :
    (s t : Str) {b : Bytes}
    → only_ascii (s ++ t) ≡ some b
    → (x y : Bytes) × (only_ascii s ≡ some x) × (only_ascii t ≡ some y) × (b ≡ x ++ y)
only_ascii-splits s t {b} h = elim (Bool-cases (is_ascii (s ++ t))) [
  | inl whole ↦
      let (p, q) = is_ascii-append s t whole in
      (s, t, rw p refl, rw q refl, sym (only_ascii-same (s ++ t) h))
  | inr other ↦ absurd (none-ne-some {a = b} (rw other at h))
]

codec-Utf8Laws : Utf8Laws codec
codec-Utf8Laws = record {
  decodes =
      λ s h. ap only_ascii (sym (only_ascii-same s h)) ∙ h ∙ ap some (sym (only_ascii-same s h));
  replaces = λ b h. only_ascii-same b h;
  ascii = λ s h. rw (IsAscii-is_ascii s h) refl;
  splits = λ s t h. only_ascii-splits s t h;
  lacks = λ s h lacking. subst LacksLf (only_ascii-same s h) lacking;
}

reply : Value
reply = items (
    item (int (negsuc 6)) (
      item (dict (entry (text (codes "k")) (bool true) no_entries))
        (item (error (codes "no")) end)))

sent : Bytes
sent =
    codes "*3"
    ++ 13 ∷ 10 ∷ codes ":-7"
    ++ 13 ∷ 10 ∷ codes "*2"
    ++ 13 ∷ 10 ∷ codes "$1"
    ++ 13 ∷ 10 ∷ codes "k"
    ++ 13 ∷ 10 ∷ codes ":1"
    ++ 13 ∷ 10 ∷ codes "-ERR no"
    ++ 13 ∷ 10 ∷ []

reply-sent : encode codec reply ≡ some sent
unfolding reply sent encode bulk_text error_line str_int decimal
reply-sent = refl

get_next-encode_example :
    get_next codec 3 (feed sent (codes "+O")) ≡ some (echo codec reply, codes "+O")
unfolding reply nesting IsLine
get_next-encode_example =
    get_next-encode codec codec-Utf8Laws reply 2 (codes "+O") (omega arith)
      (tt, ((tt, tt, tt), ((λ e. omega (arith, e), (λ e. omega (arith, e), tt)), tt))) reply-sent

get_next-take_example : get_next codec 3 (take 20 sent) ≡ some (nil, take 20 sent)
unfolding reply nesting IsLine sent
get_next-take_example =
    get_next-take codec codec-Utf8Laws reply 2 20 (omega arith)
      (tt, ((tt, tt, tt), ((λ e. omega (arith, e), (λ e. omega (arith, e), tt)), tt))) reply-sent
      (omega arith)
