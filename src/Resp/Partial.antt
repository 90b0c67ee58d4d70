-- ===== src/Resp/Partial.antt =====
-- The first bytes of a line, of a bulk string and of an array.
use mathlib.Core.Path.{subst}
use zenith_db.Prelude.{
  ℕ, zero, suc, ◌+◌, ◌-◌, ◌==◌, ◌≡◌, ◌≢◌, ◌<◌, ◌≤◌, ◌>>=◌, refl, ap, ◌∙◌, arith, inl, inr, true,
  false, Option, none, some, [], ◌∷◌, ◌++◌, ltb, ltb→lt, ltb→le, length, length-append, length-take,
  take, take-append_short, take-append_long, append_assoc, Bool-cases,
}
use zenith_db.Bytes.{Bytes}
use zenith_db.Python.Int.{ℤ, pos, ◌+ℤ◌}
use zenith_db.Python.Decimal.{decimal, decimal-IsPrinted, parse_int-decimal}
use zenith_db.Python.Slices.{starts_lf, find_crlf, find_crlf_from}
use zenith_db.Resp.Value.{Value, Utf8, Utf8Laws, LacksLf}
use zenith_db.Resp.Serializer.{crlf, bulk_bytes, array_head}
use zenith_db.Resp.Parser.{
  parse_from, parse_items, parse_array, parse_bulk, Parsed, incomplete, bulk, sequence,
}
use zenith_db.Resp.Lines.{Tail, Tail-append, get_elem?-drop}
use zenith_db.Resp.Leaves.{Tail-behind, parse_from-printed, bulk-line, IsPrinted-LacksLf}
use zenith_db.Resp.Arrays.{Reads, array-line, parse_items-item}

-- No line's end in the first bytes of a line.
find_crlf-take :
    (x : Bytes) (k : ℕ) → LacksLf x → k ≤ length x + 1 → find_crlf (take k (x ++ crlf)) ≡ none
unfolding find_crlf
find_crlf-take x zero h p = refl
find_crlf-take [] (suc zero) h p = refl
find_crlf-take [] (suc (suc k)) h p = absurd (omega arith)
find_crlf-take (c ∷ x) (suc k) (q, h) p =
    let rest = find_crlf-take x k h (omega arith) in
    let no_lf = starts_lf-take x k h (omega arith) in
    elim (Bool-cases (c == 13)) [
      | inl cr ↦ rw (cr, no_lf, rest) refl
      | inr other ↦ rw (other, rest) refl
    ]
  where
    starts_lf-take :
        (x : Bytes) (k : ℕ) → LacksLf x → k ≤ length x + 1 → starts_lf (take k (x ++ crlf)) ≡ false
    starts_lf-take x zero h p = refl
    starts_lf-take [] (suc k) h p = refl
    starts_lf-take (c ∷ x) (suc k) (q, h) p = ground arith

module _ (u : Utf8) where
  -- Wherever a buffer ends with the first bytes of `b`, the data are incomplete.
  abbrev pub Waits : ℕ → Bytes → Type 0
  Waits depth b =
      (buffer : Bytes) (o k : ℕ)
      → k < length b
      → Tail buffer o (take k b)
      → parse_from u depth buffer (pos o) ≡ some incomplete

  -- The same for the elements of an array.
  abbrev pub WaitsItems : ℕ → ℕ → Bytes → Type 0
  WaitsItems depth n b =
      (buffer : Bytes) (o k : ℕ)
      → k < length b
      → Tail buffer o (take k b)
      → parse_items (parse_from u depth buffer) n (pos o) ≡ some none

  parse_from-at_end :
      (depth : ℕ) (buffer : Bytes) (o : ℕ)
      → Tail buffer o []
      → parse_from u (suc depth) buffer (pos o) ≡ some incomplete
  unfolding parse_from
  parse_from-at_end depth buffer o (d, l) =
      let over : ltb o (length buffer) ≡ false = ground arith in rw (over, parse_from) refl

  parse_from-no_end :
      (depth : ℕ) (buffer : Bytes) (o c : ℕ) (s : Bytes)
      → Tail buffer o (c ∷ s)
      → find_crlf (c ∷ s) ≡ none
      → parse_from u (suc depth) buffer (pos o) ≡ some incomplete
  unfolding parse_from find_crlf_from
  parse_from-no_end depth buffer o c s (d, l) h =
      let inside : ltb o (length buffer) ≡ true = ground arith in
      let first = get_elem?-drop buffer o d in
      let found : find_crlf_from buffer (pos o) ≡ none = rw (d, h) refl in
      rw (inside, parse_from, first, found) refl

  -- A line that has not ended.
  pub parse_from-cut :
      (depth : ℕ) (buffer : Bytes) (o c : ℕ) (x : Bytes) (k : ℕ)
      → c ≢ 10
      → LacksLf x
      → k < length (c ∷ (x ++ crlf))
      → Tail buffer o (take k (c ∷ (x ++ crlf)))
      → parse_from u (suc depth) buffer (pos o) ≡ some incomplete
  parse_from-cut depth buffer o c x zero p h q t = parse_from-at_end depth buffer o t
  parse_from-cut depth buffer o c x (suc k) p h q t =
      parse_from-no_end depth buffer o c (take k (x ++ crlf)) t
        (find_crlf-take (c ∷ x) (suc k) (p, h) (omega (arith, length-append x crlf)))

  -- Behind a whole head, it is up to the body.
  Waits-head :
      (depth c : ℕ) (x body : Bytes)
      → c ≢ 10
      → LacksLf x
      → ((buffer : Bytes) (o k : ℕ)
          → k < length body
          → Tail buffer o (c ∷ (x ++ (crlf ++ take k body)))
          → parse_from u (suc depth) buffer (pos o) ≡ some incomplete)
      → Waits (suc depth) ((c ∷ (x ++ crlf)) ++ body)
  Waits-head depth c x body p h behind buffer o k q t =
      let head : Bytes = c ∷ (x ++ crlf) in
      let size = length-append head body in
      elim (Bool-cases (ltb k (length head))) [
        | inl early ↦ parse_from-cut depth buffer o c x k p h (ltb→lt k (length head) early) (
            subst (Tail buffer o)
              (take-append_short k head body (omega (arith, ltb→lt k (length head) early))) t)
        | inr late ↦
            behind buffer o (k - length head) (omega (arith, ltb→le k (length head) late)) (
              subst (Tail buffer o)
                (take-append_long k head body (ltb→le k (length head) late)
                  ∙ ap (λ (l : Bytes). c ∷ l) (append_assoc x crlf (take (k - length head) body)))
                t)
      ]

  parse_bulk-short :
      (buffer : Bytes) (o h n : ℕ)
      → length buffer < o + h + n + 2
      → parse_bulk u buffer (pos o) (pos h) (pos n) ≡ incomplete
  unfolding parse_bulk ◌+ℤ◌
  parse_bulk-short buffer o h n p =
      let short : ltb (length buffer) (o + h + n + 2) ≡ true = ground arith in rw short refl

  pub Waits-bulk : Utf8Laws u → (depth : ℕ) (b : Bytes) → Waits (suc depth) (bulk_bytes b)
  Waits-bulk laws depth b =
      let x : Bytes = decimal (length b) in
      subst (Waits (suc depth)) (ap (λ (l : Bytes). 36 ∷ l) (append_assoc x crlf (b ++ crlf))) (
        Waits-head depth 36 x (b ++ crlf) (omega arith)
          (IsPrinted-LacksLf x (decimal-IsPrinted (length b)))
          (λ buffer o k q t.
            parse_from-printed u laws depth buffer o 36 bulk x (take k (b ++ crlf)) t (omega arith)
              refl (decimal-IsPrinted (length b))
            ∙ bulk-line u laws _ buffer x _ (pos o) _ (pos (length b))
                (parse_int-decimal (length b))
            ∙ ap some (
                parse_bulk-short buffer o (length x + 3) (length b) (
                  let (d, l) = Tail-behind buffer o 36 x (take k (b ++ crlf)) t in
                  omega (arith, l, length-take k (b ++ crlf), length-append b crlf, q)))))

  parse_array-waiting :
      (again : ℤ → Option Parsed) (o h n : ℕ)
      → parse_items again n (pos (o + h)) ≡ some none
      → parse_array again (pos o) (pos h) (pos n) ≡ some incomplete
  unfolding parse_array ◌+ℤ◌
  parse_array-waiting again o h n e = rw e refl

  pub Waits-array :
      Utf8Laws u
      → (depth n : ℕ) (b : Bytes) → WaitsItems depth n b
      → Waits (suc depth) (array_head n ++ b)
  Waits-array laws depth n b waits =
      let x : Bytes = decimal n in
      Waits-head depth 42 x b (omega arith) (IsPrinted-LacksLf x (decimal-IsPrinted n))
        (λ buffer o k q t.
          parse_from-printed u laws depth buffer o 42 sequence x (take k b) t (omega arith) refl
            (decimal-IsPrinted n)
          ∙ array-line u _ buffer x _ (pos o) _ (pos n) (parse_int-decimal n)
          ∙ parse_array-waiting (parse_from u depth buffer) o (length x + 3) n
              (waits buffer (o + (length x + 3)) k q (Tail-behind buffer o 42 x (take k b) t)))

  parse_items-first :
      (again : ℤ → Option Parsed) (n o : ℕ)
      → again (pos o) ≡ some incomplete
      → parse_items again (suc n) (pos o) ≡ some none
  unfolding parse_items
  parse_items-first again n o e = rw (e, ◌>>=◌) refl

  pub WaitsItems-item :
      (depth n : ℕ) (v : Value) (a b : Bytes)
      → Reads u depth v a
      → Waits depth a
      → 0 < length a
      → WaitsItems depth n b
      → WaitsItems depth (suc n) (a ++ b)
  WaitsItems-item depth n v a b reads waits p more buffer o k q t =
      let size = length-append a b in
      let again = parse_from u depth buffer in
      elim (Bool-cases (ltb k (length a))) [
        | inl early ↦
            let lt = ltb→lt k (length a) early in
            parse_items-first again n o (
              waits buffer o k lt
                (subst (Tail buffer o) (take-append_short k a b (omega (arith, lt))) t))
        | inr late ↦
            let le = ltb→le k (length a) late in
            let t' = subst (Tail buffer o) (take-append_long k a b le) t in
            parse_items-item again n o (length a) v none (reads buffer o (take (k - length a) b) t')
              p
              (more buffer (o + length a) (k - length a) (omega (arith, le, q))
                (Tail-append buffer o a (take (k - length a) b) t'))
      ]
