-- ===== src/Resp/Waiting.antt =====
-- The parser waits for the rest of what is sent.
use mathlib.Core.Path.{subst}
use zenith_db.Prelude.{
  ℕ, zero, suc, ◌≡◌, ◌≢◌, ◌<◌, ◌≤◌, refl, sym, arith, some, [], ◌∷◌, ◌++◌, ◌>>=◌, >>=-eq-some,
  some_injective, length, take,
}
use zenith_db.Bytes.{Bytes, codes}
use zenith_db.Python.Int.{ℤ, pos}
use zenith_db.Python.Decimal.{str_int, str_int-IsPrinted}
use zenith_db.Resp.Value.{
  Str, Value, Values, Entries, Utf8, Utf8Laws, LacksLf, nil, bool, int, text, raw, items, dict,
  error, object, end, item, no_entries, entry,
}
use zenith_db.Resp.Serializer.{
  crlf, encode, encode_items, encode_flat, of_bool, bulk_text, error_line, count, count_flat,
  integer, null_bulk,
}
use zenith_db.Resp.Parser.{parse_from, get_next, incomplete}
use zenith_db.Resp.Lines.{Tail-whole}
use zenith_db.Resp.Leaves.{IsPrinted-LacksLf}
use zenith_db.Resp.RoundTrip.{
  nesting, nesting_items, nesting_flat, IsLine, IsLineItems, IsLineFlat, echo, encode-ReadsSome,
  error_line-parts, error-LacksLf,
}
use zenith_db.Resp.Partial.{
  Waits, WaitsItems, parse_from-cut, Waits-bulk, Waits-array, WaitsItems-item,
}

module _ (u : Utf8) (laws : Utf8Laws u) where
  Waits-line :
      (depth c : ℕ) (x : Bytes) → c ≢ 10 → LacksLf x → Waits u (suc depth) (c ∷ (x ++ crlf))
  Waits-line depth c x p h buffer o k q t = parse_from-cut u depth buffer o c x k p h q t

  Waits-integer : (depth : ℕ) (n : ℤ) → Waits u (suc depth) (integer n)
  Waits-integer depth n =
      Waits-line depth 58 (str_int n) (omega arith)
        (IsPrinted-LacksLf (str_int n) (str_int-IsPrinted n))

  Waits-null : (depth : ℕ) → Waits u (suc depth) null_bulk
  Waits-null depth =
      Waits-line depth 36 (codes "-1") (omega arith)
        ((λ e. omega (arith, e)), ((λ e. omega (arith, e)), tt))

  Waits-text : (depth : ℕ) (s : Str) (b : Bytes) → bulk_text u s ≡ some b → Waits u (suc depth) b
  unfolding bulk_text
  Waits-text depth s b h =
      let (b', e, w) = >>=-eq-some (u.encode_text s) _ h in
      subst (Waits u (suc depth)) (some_injective w) (Waits-bulk u laws depth b')

  Waits-error :
      (depth : ℕ) (msg : Str) (b : Bytes)
      → LacksLf msg
      → error_line u msg ≡ some b
      → Waits u (suc depth) b
  Waits-error depth msg b clean h =
      let (y, e, shape) = error_line-parts u laws msg b h in
      subst (Waits u (suc depth)) (sym shape) (
        Waits-line depth 45 y (omega arith)
          (laws.lacks (codes "ERR " ++ msg) e (error-LacksLf u laws msg clean)))

  WaitsItems-end : (depth : ℕ) → WaitsItems u depth 0 []
  WaitsItems-end depth buffer o k q t = absurd (omega arith)

  mutual
    unfolding encode nesting IsLine

    encode-Waits :
        (v : Value) (depth : ℕ)
        → nesting v ≤ depth
        → IsLine v
        → (b : Bytes) → encode u v ≡ some b
        → Waits u (suc depth) b
    encode-Waits nil depth d c b h =
        subst (Waits u (suc depth)) (some_injective h) (Waits-null depth)
    encode-Waits (bool t) depth d c b h =
        subst (Waits u (suc depth)) (some_injective h) (Waits-integer depth (of_bool t))
    encode-Waits (int n) depth d c b h =
        subst (Waits u (suc depth)) (some_injective h) (Waits-integer depth n)
    encode-Waits (text s) depth d c b h = Waits-text depth s b h
    encode-Waits (raw s) depth d c b h =
        subst (Waits u (suc depth)) (some_injective h) (Waits-bulk u laws depth s)
    encode-Waits (error msg) depth d c b h = Waits-error depth msg b c h
    encode-Waits (object s) depth d c b h = Waits-text depth s b h
    encode-Waits (items vs) depth d c b h =
        let (b', e, w) = >>=-eq-some (encode_items u vs) _ h in
        subst (Waits u (suc depth)) (some_injective w)
          (Waits-array u laws depth (count vs) b' (encode_items-Waits vs depth d c b' e))
    encode-Waits (dict es) depth d c b h =
        let (b', e, w) = >>=-eq-some (encode_flat u es) _ h in
        subst (Waits u (suc depth)) (some_injective w)
          (Waits-array u laws depth (count_flat es) b' (encode_flat-Waits es depth d c b' e))

    encode_items-Waits :
        (vs : Values) (depth : ℕ)
        → nesting_items vs ≤ depth
        → IsLineItems vs
        → (b : Bytes) → encode_items u vs ≡ some b
        → WaitsItems u depth (count vs) b
    encode_items-Waits end depth d c b h =
        subst (WaitsItems u depth 0) (some_injective h) (WaitsItems-end depth)
    encode_items-Waits (item v vs) zero d c b h = absurd (omega arith)
    encode_items-Waits (item v vs) (suc depth) d (cv, cs) b h =
        let (a, e, h1) = >>=-eq-some (encode u v) _ h in
        let (b', f, w) = >>=-eq-some (encode_items u vs) _ h1 in
        let (one, some_bytes) = encode-ReadsSome u laws v depth (omega arith) cv a e in
        subst (WaitsItems u (suc depth) (suc (count vs))) (some_injective w) (
          WaitsItems-item u (suc depth) (count vs) (echo u v) a b' one
            (encode-Waits v depth (omega arith) cv a e) some_bytes
            (encode_items-Waits vs (suc depth) (omega arith) cs b' f))

    encode_flat-Waits :
        (es : Entries) (depth : ℕ)
        → nesting_flat es ≤ depth
        → IsLineFlat es
        → (b : Bytes) → encode_flat u es ≡ some b
        → WaitsItems u depth (count_flat es) b
    encode_flat-Waits no_entries depth d c b h =
        subst (WaitsItems u depth 0) (some_injective h) (WaitsItems-end depth)
    encode_flat-Waits (entry k v es) zero d c b h = absurd (omega arith)
    encode_flat-Waits (entry k v es) (suc depth) d (ck, cv, cs) b h =
        let (x, e, h1) = >>=-eq-some (encode u k) _ h in
        let (y, f, h2) = >>=-eq-some (encode u v) _ h1 in
        let (z, g, w) = >>=-eq-some (encode_flat u es) _ h2 in
        let (key, key_bytes) = encode-ReadsSome u laws k depth (omega arith) ck x e in
        let (value, value_bytes) = encode-ReadsSome u laws v depth (omega arith) cv y f in
        subst (WaitsItems u (suc depth) (suc (suc (count_flat es)))) (some_injective w) (
          WaitsItems-item u (suc depth) (suc (count_flat es)) (echo u k) x (y ++ z) key
            (encode-Waits k depth (omega arith) ck x e) key_bytes
            (WaitsItems-item u (suc depth) (count_flat es) (echo u v) y z value
              (encode-Waits v depth (omega arith) cv y f) value_bytes
              (encode_flat-Waits es (suc depth) (omega arith) cs z g)))

get_next-incomplete :
    (u : Utf8) (depth : ℕ) (buffer : Bytes)
    → parse_from u depth buffer (pos 0) ≡ some incomplete
    → get_next u depth buffer ≡ some (nil, buffer)
unfolding get_next
get_next-incomplete u depth [] e = refl
get_next-incomplete u depth (c ∷ buffer) e = rw (e, ◌>>=◌) refl

-- Of a value that was sent, without a line feed in the message of an error in it and with arrays
-- nested at most `depth` deep, while only the first bytes have arrived, however they were cut, the
-- parser gives None and keeps all of them.
pub get_next-take :
    (u : Utf8)
    → Utf8Laws u
    → (v : Value) (depth : ℕ) {b : Bytes} (k : ℕ) → nesting v ≤ depth
    → IsLine v
    → encode u v ≡ some b
    → k < length b
    → get_next u (suc depth) (take k b) ≡ some (nil, take k b)
get_next-take u laws v depth {b} k d c h q =
    get_next-incomplete u (suc depth) (take k b)
      (encode-Waits u laws v depth d c b h (take k b) 0 k q (Tail-whole (take k b)))
