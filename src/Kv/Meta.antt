-- ===== src/Kv/Meta.antt =====
-- The bounds of a list are read as they were written.
use zenith_db.Prelude.{
  ℕ, ◌≡◌, ◌≢◌, refl, ap, ◌∙◌, arith, false, some, List, [], ◌∷◌, ◌++◌, ◌==◌, append-nil,
  append_assoc,
}
use zenith_db.Bytes.{Bytes, codes}
use zenith_db.Lsm.MemTable.{tombstone}
use zenith_db.Python.Int.{ℤ}
use zenith_db.Python.Decimal.{str_int, parse_int-str_int, IsNumeral, str_int-IsNumeral}
use zenith_db.Kv.Keys.{split_colon, list_meta, pair_of}
use zenith_db.Python.Text.{split_on}

split_on-numeral :
    (field s t : Bytes)
    → IsNumeral s
    → split_on 58 field (s ++ 58 ∷ t) ≡ (field ++ s) ∷ split_on 58 [] t
unfolding split_on IsNumeral
split_on-numeral field [] t h = rw (append-nil field) refl
split_on-numeral field (c ∷ s) t ((_, d), h) =
    let other : (c == 58) ≡ false = ground arith in
    rw other (
      split_on-numeral (field ++ c ∷ []) s t h
      ∙ ap (λ (f : Bytes). f ∷ split_on 58 [] t) (append_assoc field (c ∷ []) s))

split_on_last : (field s : Bytes) → IsNumeral s → split_on 58 field s ≡ (field ++ s) ∷ []
unfolding split_on IsNumeral
split_on_last field [] h = rw (append-nil field) refl
split_on_last field (c ∷ s) ((_, d), h) =
    let other : (c == 58) ≡ false = ground arith in
    rw other (
      split_on_last (field ++ c ∷ []) s h
      ∙ ap (λ (f : Bytes). f ∷ []) (append_assoc field (c ∷ []) s))

abbrev pub meta_text : ℤ → ℤ → Bytes
meta_text head tail = str_int head ++ (codes ":" ++ str_int tail)

pub list_meta-text : (head tail : ℤ) → list_meta (some (meta_text head tail)) ≡ (head, tail)
unfolding list_meta split_colon
list_meta-text head tail =
    let fields : split_colon (meta_text head tail) ≡ str_int head ∷ str_int tail ∷ [] =
      split_on-numeral [] (str_int head) (str_int tail) (str_int-IsNumeral head)
      ∙ ap (λ (fs : List Bytes). str_int head ∷ fs)
          (split_on_last [] (str_int tail) (str_int-IsNumeral tail)) in
    rw (fields, pair_of, parse_int-str_int head, parse_int-str_int tail) refl

numeral-ne-tombstone : (s t : Bytes) → IsNumeral s → s ++ 58 ∷ t ≢ tombstone
unfolding IsNumeral
numeral-ne-tombstone [] t h e = let bad : ◌≡◌ {A = ℕ} 58 95 = cc in omega (arith, bad)
numeral-ne-tombstone (c ∷ s) t ((_, d), h) e = let bad : c ≡ 95 = cc in omega (arith, bad, d)

pub meta_text-ne-tombstone : (head tail : ℤ) → meta_text head tail ≢ tombstone
meta_text-ne-tombstone head tail =
    numeral-ne-tombstone (str_int head) (str_int tail) (str_int-IsNumeral head)
