-- ===== src/Resp/Lines.antt =====
-- A buffer from a position on, and the line that starts there.
use zenith_db.Prelude.{
  ℕ, zero, suc, ◌+◌, ◌-◌, ◌==◌, ◌≡◌, ◌≢◌, refl, sym, ap, ◌∙◌, arith, inl, inr, true, false, some,
  [], ◌∷◌, ◌++◌, ltb, length, length-append, get_elem?, drop, drop-drop, drop-append, take-append,
  Bool-cases,
}
use zenith_db.Bytes.{Bytes}
use zenith_db.Python.Int.{pos, ◌+ℤ◌, ◌-ℤ◌, pos-sub}
use zenith_db.Python.Slices.{slice, starts_lf, find_crlf, find_crlf_from}
use zenith_db.Resp.Value.{LacksLf, Utf8}
use zenith_db.Resp.Serializer.{crlf}
use zenith_db.Resp.Parser.{parse_by, parse_from, prefix_of, line_of, full_line_of}

-- From the position `o` on, the buffer is `s`.
abbrev pub Tail : Bytes → ℕ → Bytes → Type 0
Tail buffer o s = (drop o buffer ≡ s) × (length buffer ≡ o + length s)

pub Tail-whole : (buffer : Bytes) → Tail buffer 0 buffer
Tail-whole buffer = (refl, omega arith)

pub Tail-append :
    (buffer : Bytes) (o : ℕ) (x y : Bytes) → Tail buffer o (x ++ y) → Tail buffer (o + length x) y
Tail-append buffer o x y (d, l) = (
  sym (drop-drop o (length x) buffer)
      ∙ ap (λ (s : Bytes). drop (length x) s) d
      ∙ drop-append (length x) x y refl,
  omega (arith, length-append x y),
)

pub get_elem?-drop :
    (s : Bytes) (o : ℕ) {c : ℕ} {t : Bytes} → drop o s ≡ c ∷ t → get_elem? s o ≡ some c
get_elem?-drop [] zero h = cc
get_elem?-drop [] (suc o) h = cc
get_elem?-drop (x ∷ s) zero h = cc
get_elem?-drop (x ∷ s) (suc o) h = get_elem?-drop s o h

starts_lf-line : (x y : Bytes) → LacksLf x → starts_lf (x ++ (crlf ++ y)) ≡ false
starts_lf-line [] y h = refl
starts_lf-line (c ∷ x) y (p, h) = ground arith

pub find_crlf-line : (x y : Bytes) → LacksLf x → find_crlf (x ++ (crlf ++ y)) ≡ some (length x)
unfolding find_crlf
find_crlf-line [] y h = refl
find_crlf-line (c ∷ x) y (p, h) =
    let rest = find_crlf-line x y h in
    let e : suc (length x) ≡ length x + 1 = omega arith in
    elim (Bool-cases (c == 13)) [
      | inl cr ↦ rw (cr, starts_lf-line x y h, rest, e)
      | inr other ↦ rw (other, rest, e)
    ]

-- What a slice finds.
pub slice-Tail :
    (buffer : Bytes) (o : ℕ) (x y : Bytes)
    → Tail buffer o (x ++ y)
    → slice buffer (pos o) (pos (o + length x)) ≡ x
slice-Tail buffer o x y (d, l) =
    let e : o + length x - o ≡ length x = omega arith in rw (e, d) (take-append (length x) x y refl)

module _ (u : Utf8) where
  -- A line without a line feed in it, up to its end.
  pub parse_from-line :
      (depth : ℕ) (buffer : Bytes) (o c : ℕ) (x y : Bytes)
      → Tail buffer o (c ∷ (x ++ (crlf ++ y)))
      → c ≢ 10
      → LacksLf x
      → parse_from u (suc depth) buffer (pos o)
        ≡ parse_by u
            (parse_from u depth buffer)
            buffer
            (pos o)
            (u.decode_replace x)
            (u.decode_replace (c ∷ x))
            (pos (length x + 3))
            (prefix_of c)
  unfolding parse_from find_crlf_from ◌+ℤ◌
  parse_from-line depth buffer o c x y (d, l) p h =
      let inside : ltb o (length buffer) ≡ true = ground arith in
      let first = get_elem?-drop buffer o d in
      let found : find_crlf_from buffer (pos o) ≡ some (o + suc (length x)) =
        rw (d, find_crlf-line (c ∷ x) y (p, h)) in
      let behind =
        slice-Tail buffer (o + 1) x (crlf ++ y)
          (Tail-append buffer o (c ∷ []) (x ++ (crlf ++ y)) (d, l)) in
      let e : o + suc (length x) ≡ o + 1 + length x = omega arith in
      let line : line_of u buffer (pos o) (o + suc (length x)) ≡ u.decode_replace x =
        rw e (ap u.decode_replace behind) in
      let full : full_line_of u buffer (pos o) (o + suc (length x)) ≡ u.decode_replace (c ∷ x) =
        ap u.decode_replace (slice-Tail buffer o (c ∷ x) (crlf ++ y) (d, l)) in
      let size : pos (o + suc (length x)) -ℤ pos o +ℤ pos 2 ≡ pos (length x + 3) =
        ap (λ z. z +ℤ pos 2) (pos-sub (o + suc (length x)) o (omega arith))
        ∙ ap pos (omega arith) in
      rw (inside, parse_from, first, found, line, full, size)
