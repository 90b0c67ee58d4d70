-- ===== src/Resp/Arrays.antt =====
-- Reading an array, given that its elements are read.
use mathlib.Core.Path.{subst}
use zenith_db.Prelude.{
  ℕ, suc, ◌+◌, ◌==◌, ◌≡◌, ◌<◌, ◌>>=◌, refl, ap, ◌∙◌, arith, false, Option, some, [], ◌∷◌, ◌++◌,
  length, length-append, append_assoc,
}
use zenith_db.Bytes.{Bytes}
use zenith_db.Python.Int.{ℤ, pos, ◌+ℤ◌, ◌-ℤ◌, pos-sub}
use zenith_db.Python.Decimal.{decimal, parse_int, decimal-IsPrinted, parse_int-decimal}
use zenith_db.Resp.Value.{Value, Values, Utf8, Utf8Laws, items, end, item}
use zenith_db.Resp.Serializer.{crlf, array_head}
use zenith_db.Resp.Parser.{parse_by, parse_from, parse_items, parse_array, Parsed, sequence}
use zenith_db.Resp.Lines.{Tail, Tail-append}
use zenith_db.Resp.Leaves.{Tail-behind, length-line, parse_from-printed}

pub parse_items-item :
    (again : ℤ → Option Parsed) (n o k : ℕ) (v : Value) (found : Option (Values × ℤ))
    → again (pos o) ≡ some (v, pos k)
    → 0 < k
    → parse_items again n (pos (o + k)) ≡ some found
    → parse_items again (suc n) (pos o) ≡ some (do more ← found; some (item v more.0, more.1))
unfolding parse_items ◌+ℤ◌
parse_items-item again n o k v found e p h =
    let ne : (k == 0) ≡ false = ground arith in rw (e, ◌>>=◌, ne, h) refl

module _ (u : Utf8) where
  -- Wherever the bytes `b` stand in a buffer, the value `v` is read.
  abbrev pub Reads : ℕ → Value → Bytes → Type 0
  Reads depth v b =
      (buffer : Bytes) (o : ℕ) (rest : Bytes)
      → Tail buffer o (b ++ rest)
      → parse_from u depth buffer (pos o) ≡ some (v, pos (length b))

  -- The same for the elements of an array.
  abbrev pub ReadsItems : ℕ → ℕ → Values → Bytes → Type 0
  ReadsItems depth n vs b =
      (buffer : Bytes) (o : ℕ) (rest : Bytes)
      → Tail buffer o (b ++ rest)
      → parse_items (parse_from u depth buffer) n (pos o) ≡ some (some (vs, pos (o + length b)))

  pub ReadsItems-end : (depth : ℕ) → ReadsItems depth 0 end []
  unfolding parse_items
  ReadsItems-end depth buffer o rest t = ap (λ (i : ℕ). some (some (end, pos i))) (omega arith)

  pub ReadsItems-item :
      (depth n : ℕ) (v : Value) (vs : Values) (a b : Bytes)
      → Reads depth v a
      → 0 < length a
      → ReadsItems depth n vs b
      → ReadsItems depth (suc n) (item v vs) (a ++ b)
  ReadsItems-item depth n v vs a b one p more buffer o rest t =
      let t' = subst (Tail buffer o) (append_assoc a b rest) t in
      parse_items-item (parse_from u depth buffer) n o (length a) v _ (one buffer o (b ++ rest) t')
        p (more buffer (o + length a) rest (Tail-append buffer o a (b ++ rest) t'))
      ∙ ap (λ (i : ℕ). some (some (item v vs, pos i))) (omega (arith, length-append a b))

  parse_array-items :
      (again : ℤ → Option Parsed) (o h n k : ℕ) (vs : Values)
      → parse_items again n (pos (o + h)) ≡ some (some (vs, pos (o + k)))
      → parse_array again (pos o) (pos h) (pos n) ≡ some (items vs, pos k)
  unfolding parse_array ◌+ℤ◌
  parse_array-items again o h n k vs e =
      let took : pos (o + k) -ℤ pos o ≡ pos k =
        pos-sub (o + k) o (omega arith) ∙ ap pos (omega arith) in
      rw (e, took)

  pub array-line :
      (again : ℤ → Option Parsed) (buffer line full : Bytes) (o h n : ℤ)
      → parse_int line ≡ some n
      → parse_by u again buffer o line full h sequence ≡ parse_array again o h n
  unfolding parse_by
  array-line again buffer line full o h n e = rw (parse_by, e) refl

  pub Reads-array :
      Utf8Laws u
      → (depth n : ℕ) (vs : Values) (b : Bytes) → ReadsItems depth n vs b
      → Reads (suc depth) (items vs) (array_head n ++ b)
  Reads-array laws depth n vs b more buffer o rest t =
      let x : Bytes = decimal n in
      let shape : (array_head n ++ b) ++ rest ≡ 42 ∷ (x ++ (crlf ++ (b ++ rest))) =
        append_assoc (array_head n) b rest
        ∙ ap (λ (l : Bytes). 42 ∷ l) (append_assoc x crlf (b ++ rest)) in
      let t' = subst (Tail buffer o) shape t in
      let size : length x + 3 + length b ≡ length (array_head n ++ b) =
        omega (arith, length-append (array_head n) b, length-line 42 x) in
      parse_from-printed u laws depth buffer o 42 sequence x (b ++ rest) t' (omega arith) refl
        (decimal-IsPrinted n)
      ∙ array-line _ buffer x _ (pos o) _ (pos n) (parse_int-decimal n)
      ∙ parse_array-items (parse_from u depth buffer) o (length x + 3) n (length x + 3 + length b)
          vs
          (more buffer (o + (length x + 3)) rest (Tail-behind buffer o 42 x (b ++ rest) t')
            ∙ ap (λ (i : ℕ). some (some (vs, pos i))) (omega arith))
      ∙ ap (λ (k : ℕ). some (items vs, pos k)) size
