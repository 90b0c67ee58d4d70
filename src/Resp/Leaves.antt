-- ===== src/Resp/Leaves.antt =====
-- Reading one line, and one bulk string.
use mathlib.Core.Path.{subst}
use zenith_db.Prelude.{
  ℕ, suc, ◌+◌, ◌≡◌, ◌≢◌, ◌<◌, refl, sym, ap, ◌∙◌, arith, false, Option, some, [], ◌∷◌, ◌++◌, ltb,
  length, length-append, append_assoc, All_mono,
}
use zenith_db.Bytes.{Bytes, codes}
use zenith_db.Python.Int.{ℤ, pos, negsuc, ◌+ℤ◌, ◌-ℤ◌, pos-sub}
use zenith_db.Python.Decimal.{
  decimal, str_int, parse_int, IsPrinted, decimal-IsPrinted, str_int-IsPrinted, parse_int-str_int,
  parse_int-decimal,
}
use zenith_db.Resp.Value.{Utf8, Utf8Laws, LacksLf, IsAscii, nil, int}
use zenith_db.Resp.Serializer.{crlf, integer, bulk_bytes, null_bulk}
use zenith_db.Resp.Parser.{
  parse_by, parse_from, parse_bulk, payload_of, prefix_of, number_of, Parsed, Prefix, number, bulk,
}
use zenith_db.Resp.Lines.{Tail, Tail-append, slice-Tail, parse_from-line}

pub IsPrinted-LacksLf : (s : Bytes) → IsPrinted s → LacksLf s
unfolding IsPrinted
IsPrinted-LacksLf s h =
    All_mono (λ c. (31 < c) × (c < 128)) (λ c. c ≢ 10) (λ c p e. omega (arith, p.0, e)) s h

IsPrinted-IsAscii : (s : Bytes) → IsPrinted s → IsAscii s
unfolding IsPrinted
IsPrinted-IsAscii s h = All_mono (λ c. (31 < c) × (c < 128)) (λ c. c < 128) (λ c p. p.1) s h

-- The line behind a prefix, in front of a rest.
pub Tail-line :
    (buffer : Bytes) (o c : ℕ) (x rest : Bytes)
    → Tail buffer o ((c ∷ (x ++ crlf)) ++ rest)
    → Tail buffer o (c ∷ (x ++ (crlf ++ rest)))
Tail-line buffer o c x rest h =
    subst (Tail buffer o) (ap (λ (l : Bytes). c ∷ l) (append_assoc x crlf rest)) h

pub length-line : (c : ℕ) (x : Bytes) → length (c ∷ (x ++ crlf)) ≡ length x + 3
length-line c x = omega (arith, length-append x crlf)

pub length-bulk :
    (b : Bytes) → length (bulk_bytes b) ≡ length (decimal (length b)) + 3 + length b + 2
length-bulk b =
    omega (arith, length-append (decimal (length b)) (crlf ++ (b ++ crlf)), length-append b crlf)

-- What stands behind a line's end.
pub Tail-behind :
    (buffer : Bytes) (o c : ℕ) (x y : Bytes)
    → Tail buffer o (c ∷ (x ++ (crlf ++ y)))
    → Tail buffer (o + (length x + 3)) y
Tail-behind buffer o c x y h =
    let t = Tail-append buffer (o + 1 + length x) crlf y (
      Tail-append buffer (o + 1) x (crlf ++ y)
        (Tail-append buffer o (c ∷ []) (x ++ (crlf ++ y)) h)) in
    let e : o + 1 + length x + 2 ≡ o + (length x + 3) = omega arith in
    subst (λ (i : ℕ). Tail buffer i y) e t

minus_one : str_int (negsuc 0) ≡ codes "-1"
unfolding str_int decimal
minus_one = refl

module _ (u : Utf8) (laws : Utf8Laws u) where
  pub decode_replace-printed : (s : Bytes) → IsPrinted s → u.decode_replace s ≡ s
  decode_replace-printed s h =
      laws.replaces s (laws.decodes s (laws.ascii s (IsPrinted-IsAscii s h)))

  -- A printed line behind a prefix.
  pub parse_from-printed :
      (depth : ℕ) (buffer : Bytes) (o c : ℕ) (k : Prefix) (x y : Bytes)
      → Tail buffer o (c ∷ (x ++ (crlf ++ y)))
      → c ≢ 10
      → prefix_of c ≡ k
      → IsPrinted x
      → parse_from u (suc depth) buffer (pos o)
        ≡ parse_by u
            (parse_from u depth buffer)
            buffer
            (pos o)
            x
            (u.decode_replace (c ∷ x))
            (pos (length x + 3))
            k
  parse_from-printed depth buffer o c k x y t p e h =
      parse_from-line u depth buffer o c x y t p (IsPrinted-LacksLf x h)
      ∙ rw (decode_replace-printed x h, e) refl

  number-integer :
      (again : ℤ → Option Parsed) (buffer full : Bytes) (o h n : ℤ)
      → parse_by u again buffer o (str_int n) full h number ≡ some (int n, h)
  unfolding parse_by
  number-integer again buffer full o h n = rw (parse_by, number_of, parse_int-str_int n) refl

  pub parse_from-integer :
      (depth : ℕ) (buffer : Bytes) (o : ℕ) (n : ℤ) (rest : Bytes)
      → Tail buffer o (integer n ++ rest)
      → parse_from u (suc depth) buffer (pos o) ≡ some (int n, pos (length (integer n)))
  parse_from-integer depth buffer o n rest t =
      parse_from-printed depth buffer o 58 number (str_int n) rest
        (Tail-line buffer o 58 (str_int n) rest t) (omega arith) refl (str_int-IsPrinted n)
      ∙ number-integer _ buffer _ (pos o) _ n
      ∙ ap (λ (k : ℕ). some (int n, pos k)) (sym (length-line 58 (str_int n)))

  parse_bulk-bytes :
      (buffer : Bytes) (o h : ℕ) (b rest : Bytes)
      → Tail buffer (o + h) (b ++ (crlf ++ rest))
      → parse_bulk u buffer (pos o) (pos h) (pos (length b))
        ≡ (payload_of u b, pos (h + length b + 2))
  unfolding parse_bulk ◌+ℤ◌
  parse_bulk-bytes buffer o h b rest t =
      let (d, l) = t in
      let room : ltb (length buffer) (o + h + length b + 2) ≡ false =
        ground (arith, l, length-append b (crlf ++ rest)) in
      let part = slice-Tail buffer (o + h) b (crlf ++ rest) t in
      let took : pos (o + h + length b + 2) -ℤ pos o ≡ pos (h + length b + 2) =
        pos-sub (o + h + length b + 2) o (omega arith) ∙ ap pos (omega arith) in
      rw (room, part, took)

  pub bulk-line :
      (again : ℤ → Option Parsed) (buffer line full : Bytes) (o h n : ℤ)
      → parse_int line ≡ some n
      → parse_by u again buffer o line full h bulk ≡ some (parse_bulk u buffer o h n)
  unfolding parse_by
  bulk-line again buffer line full o h n e = rw (parse_by, e) refl

  pub parse_from-bulk :
      (depth : ℕ) (buffer : Bytes) (o : ℕ) (b rest : Bytes)
      → Tail buffer o (bulk_bytes b ++ rest)
      → parse_from u (suc depth) buffer (pos o) ≡ some (payload_of u b, pos (length (bulk_bytes b)))
  parse_from-bulk depth buffer o b rest t =
      let x : Bytes = decimal (length b) in
      let shape : bulk_bytes b ++ rest ≡ 36 ∷ (x ++ (crlf ++ (b ++ (crlf ++ rest)))) =
        ap (λ (l : Bytes). 36 ∷ l) (append_assoc x (crlf ++ (b ++ crlf)) rest)
        ∙ ap (λ (l : Bytes). 36 ∷ (x ++ (crlf ++ l))) (append_assoc b crlf rest) in
      let t' = subst (Tail buffer o) shape t in
      parse_from-printed depth buffer o 36 bulk x (b ++ (crlf ++ rest)) t' (omega arith) refl
        (decimal-IsPrinted (length b))
      ∙ bulk-line _ buffer x _ (pos o) _ (pos (length b)) (parse_int-decimal (length b))
      ∙ ap some (
          parse_bulk-bytes buffer o (length x + 3) b rest
            (Tail-behind buffer o 36 x (b ++ (crlf ++ rest)) t'))
      ∙ ap (λ (k : ℕ). some (payload_of u b, pos k)) (sym (length-bulk b))

  pub parse_from-null :
      (depth : ℕ) (buffer : Bytes) (o : ℕ) (rest : Bytes)
      → Tail buffer o (null_bulk ++ rest)
      → parse_from u (suc depth) buffer (pos o) ≡ some (nil, pos 5)
  unfolding parse_bulk
  parse_from-null depth buffer o rest t =
      parse_from-printed depth buffer o 36 bulk (codes "-1") rest t (omega arith) refl
        (subst IsPrinted minus_one (str_int-IsPrinted (negsuc 0)))
      ∙ bulk-line _ buffer (codes "-1") _ (pos o) (pos 5) (negsuc 0)
          (sym (ap parse_int minus_one) ∙ parse_int-str_int (negsuc 0))
