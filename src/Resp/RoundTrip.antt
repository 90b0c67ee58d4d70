-- ===== src/Resp/RoundTrip.antt =====
-- What is sent is received as it was meant.
use mathlib.Core.Path.{subst}
use zenith_db.Prelude.{
  ℕ, zero, suc, ◌+◌, ◌≡◌, ◌<◌, ◌≤◌, max, refl, sym, ap, ◌∙◌, arith, Option, some, [], ◌∷◌, ◌++◌,
  >>=-eq-some, some_injective, length,
}
use zenith_db.Bytes.{Bytes, codes}
use zenith_db.Python.Int.{pos}
use zenith_db.Resp.Value.{
  Str, Value, Values, Entries, Utf8, Utf8Laws, LacksLf, nil, bool, int, text, raw, items, dict,
  error, object, end, item, no_entries, entry,
}
use zenith_db.Resp.Serializer.{
  crlf, encode, encode_items, encode_flat, of_bool, bulk_bytes, bulk_text, error_line, count,
  count_flat,
}
use zenith_db.Resp.Parser.{parse_by, payload_of}
use zenith_db.Resp.Lines.{parse_from-line}
use zenith_db.Resp.Leaves.{
  Tail-line, length-line, parse_from-integer, parse_from-bulk, parse_from-null,
}
use zenith_db.Resp.Arrays.{Reads, ReadsItems, ReadsItems-end, ReadsItems-item, Reads-array}

-- How deep arrays are nested in a value.
unfoldable mutual
  pub nesting : Value → ℕ
  nesting (items vs) = nesting_items vs
  nesting (dict es) = nesting_flat es
  nesting _ = 0

  pub nesting_items : Values → ℕ
  nesting_items end = 0
  nesting_items (item v vs) = max (suc (nesting v)) (nesting_items vs)

  pub nesting_flat : Entries → ℕ
  nesting_flat no_entries = 0
  nesting_flat (entry k v es) = max (max (suc (nesting k)) (suc (nesting v))) (nesting_flat es)

-- No message of an error has a line feed in it.
unfoldable mutual
  pub IsLine : Value → Type 0
  IsLine (items vs) = IsLineItems vs
  IsLine (dict es) = IsLineFlat es
  IsLine (error msg) = LacksLf msg
  IsLine _ = Unit

  pub IsLineItems : Values → Type 0
  IsLineItems end = Unit
  IsLineItems (item v vs) = IsLine v × IsLineItems vs

  pub IsLineFlat : Entries → Type 0
  IsLineFlat no_entries = Unit
  IsLineFlat (entry k v es) = IsLine k × IsLine v × IsLineFlat es

module _ (u : Utf8) where
  -- What the other side makes of a value: a bool becomes a number, a dict its keys and values in
  -- turn, bytes a text where they are one, and an error's message starts with ERR.
  unfoldable mutual
    pub echo : Value → Value
    echo nil = nil
    echo (bool b) = int (of_bool b)
    echo (int n) = int n
    echo (text s) = text s
    echo (raw b) = payload_of u b
    echo (items vs) = items (echo_items vs)
    echo (dict es) = items (echo_flat es)
    echo (error msg) = error (codes "ERR " ++ msg)
    echo (object s) = text s

    pub echo_items : Values → Values
    echo_items end = end
    echo_items (item v vs) = item (echo v) (echo_items vs)

    pub echo_flat : Entries → Values
    echo_flat no_entries = end
    echo_flat (entry k v es) = item (echo k) (item (echo v) (echo_flat es))

module _ (u : Utf8) (laws : Utf8Laws u) where
  -- What is sent is read as a value, from at least one byte.
  abbrev pub ReadsSome : ℕ → Value → Option Bytes → Type 0
  ReadsSome depth v o = (b : Bytes) → o ≡ some b → Reads u depth v b × (0 < length b)

  ReadsSome-bulk :
      (depth : ℕ) (b : Bytes) (v : Value)
      → payload_of u b ≡ v
      → ReadsSome (suc depth) v (some (bulk_bytes b))
  ReadsSome-bulk depth b v e s h =
      subst (λ (x : Bytes). Reads u (suc depth) v x × (0 < length x)) (some_injective h)
        (
          λ buffer o rest t.
              parse_from-bulk u laws depth buffer o b rest t
              ∙ ap (λ (r : Value). some (r, pos (length (bulk_bytes b)))) e,
          omega arith,
        )

  payload_of-text : (b : Bytes) (s : Str) → u.decode b ≡ some s → payload_of u b ≡ text s
  unfolding payload_of
  payload_of-text b s h = rw (payload_of, h) refl

  ReadsSome-text : (depth : ℕ) (s : Str) → ReadsSome (suc depth) (text s) (bulk_text u s)
  unfolding bulk_text
  ReadsSome-text depth s b h =
      let (b', e, w) = >>=-eq-some (u.encode_text s) _ h in
      ReadsSome-bulk depth b' (text s) (payload_of-text b' s (laws.decodes s e)) b w

  -- An error's line, and its text.
  pub error_line-parts :
      (msg : Str) (b : Bytes)
      → error_line u msg ≡ some b
      → (y : Bytes) × (u.encode_text (codes "ERR " ++ msg) ≡ some y) × (b ≡ 45 ∷ (y ++ crlf))
  unfolding error_line
  error_line-parts msg b h =
      let (x, y, e1, e2, e) = laws.splits (45 ∷ []) ((codes "ERR " ++ msg) ++ crlf) h in
      let (y', z, f1, f2, f) = laws.splits (codes "ERR " ++ msg) crlf e2 in
      let minus : x ≡ 45 ∷ [] = some_injective (sym e1 ∙ laws.ascii (45 ∷ []) (omega arith, tt)) in
      let newline : z ≡ crlf =
        some_injective (sym f2 ∙ laws.ascii crlf (omega arith, (omega arith, tt))) in
      (
        y',
        f1,
        e
            ∙ ap (λ (l : Bytes). l ++ y) minus
            ∙ ap (λ (l : Bytes). 45 ∷ l) (f ∙ ap (λ (l : Bytes). y' ++ l) newline),
      )

  pub error-LacksLf : (msg : Str) → LacksLf msg → LacksLf (codes "ERR " ++ msg)
  error-LacksLf msg h = (
    λ e. omega (arith, e),
    (λ e. omega (arith, e), (λ e. omega (arith, e), (λ e. omega (arith, e), h))),
  )

  ReadsSome-error :
      (depth : ℕ) (msg : Str)
      → LacksLf msg
      → ReadsSome (suc depth) (error (codes "ERR " ++ msg)) (error_line u msg)
  unfolding parse_by
  ReadsSome-error depth msg clean b h =
      let (y, e, shape) = error_line-parts msg b h in
      subst (λ (x : Bytes). Reads u (suc depth) (error (codes "ERR " ++ msg)) x × (0 < length x))
        (sym shape)
        (
          λ buffer o rest t.
              parse_from-line u depth buffer o 45 y rest (Tail-line buffer o 45 y rest t)
                (omega arith) (laws.lacks (codes "ERR " ++ msg) e (error-LacksLf msg clean))
              ∙ ap (λ (s : Str). some (error s, pos (length y + 3)))
                  (laws.replaces y (laws.decodes (codes "ERR " ++ msg) e))
              ∙ ap (λ (k : ℕ). some (error (codes "ERR " ++ msg), pos k)) (sym (length-line 45 y)),
          omega arith,
        )

  mutual
    unfolding encode echo nesting IsLine

    pub encode-ReadsSome :
        (v : Value) (depth : ℕ)
        → nesting v ≤ depth
        → IsLine v
        → ReadsSome (suc depth) (echo u v) (encode u v)
    encode-ReadsSome nil depth d c b h =
        subst (λ (x : Bytes). Reads u (suc depth) nil x × (0 < length x)) (some_injective h)
          (parse_from-null u laws depth, omega arith)
    encode-ReadsSome (bool t) depth d c b h =
        subst (λ (x : Bytes). Reads u (suc depth) (int (of_bool t)) x × (0 < length x))
          (some_injective h)
          (
            λ buffer o rest g. parse_from-integer u laws depth buffer o (of_bool t) rest g,
            omega arith,
          )
    encode-ReadsSome (int n) depth d c b h =
        subst (λ (x : Bytes). Reads u (suc depth) (int n) x × (0 < length x)) (some_injective h)
          (λ buffer o rest g. parse_from-integer u laws depth buffer o n rest g, omega arith)
    encode-ReadsSome (text s) depth d c b h = ReadsSome-text depth s b h
    encode-ReadsSome (raw s) depth d c b h = ReadsSome-bulk depth s (payload_of u s) refl b h
    encode-ReadsSome (error msg) depth d c b h = ReadsSome-error depth msg c b h
    encode-ReadsSome (object s) depth d c b h = ReadsSome-text depth s b h
    encode-ReadsSome (items vs) depth d c b h =
        let (b', e, w) = >>=-eq-some (encode_items u vs) _ h in
        subst (λ (x : Bytes). Reads u (suc depth) (items (echo_items u vs)) x × (0 < length x))
          (some_injective w)
          (
            Reads-array u laws depth (count vs) (echo_items u vs) b'
                (encode_items-Reads vs depth d c b' e),
            omega arith,
          )
    encode-ReadsSome (dict es) depth d c b h =
        let (b', e, w) = >>=-eq-some (encode_flat u es) _ h in
        subst (λ (x : Bytes). Reads u (suc depth) (items (echo_flat u es)) x × (0 < length x))
          (some_injective w)
          (
            Reads-array u laws depth (count_flat es) (echo_flat u es) b'
                (encode_flat-Reads es depth d c b' e),
            omega arith,
          )

    encode_items-Reads :
        (vs : Values) (depth : ℕ)
        → nesting_items vs ≤ depth
        → IsLineItems vs
        → (b : Bytes) → encode_items u vs ≡ some b
        → ReadsItems u depth (count vs) (echo_items u vs) b
    encode_items-Reads end depth d c b h =
        subst (ReadsItems u depth 0 end) (some_injective h) (ReadsItems-end u depth)
    encode_items-Reads (item v vs) zero d c b h = absurd (omega arith)
    encode_items-Reads (item v vs) (suc depth) d (cv, cs) b h =
        let (a, e, h1) = >>=-eq-some (encode u v) _ h in
        let (b', f, w) = >>=-eq-some (encode_items u vs) _ h1 in
        let (one, some_bytes) = encode-ReadsSome v depth (omega arith) cv a e in
        subst (ReadsItems u (suc depth) (suc (count vs)) (item (echo u v) (echo_items u vs)))
          (some_injective w)
          (ReadsItems-item u (suc depth) (count vs) (echo u v) (echo_items u vs) a b' one some_bytes
            (encode_items-Reads vs (suc depth) (omega arith) cs b' f))

    encode_flat-Reads :
        (es : Entries) (depth : ℕ)
        → nesting_flat es ≤ depth
        → IsLineFlat es
        → (b : Bytes) → encode_flat u es ≡ some b
        → ReadsItems u depth (count_flat es) (echo_flat u es) b
    encode_flat-Reads no_entries depth d c b h =
        subst (ReadsItems u depth 0 end) (some_injective h) (ReadsItems-end u depth)
    encode_flat-Reads (entry k v es) zero d c b h = absurd (omega arith)
    encode_flat-Reads (entry k v es) (suc depth) d (ck, cv, cs) b h =
        let (x, e, h1) = >>=-eq-some (encode u k) _ h in
        let (y, f, h2) = >>=-eq-some (encode u v) _ h1 in
        let (z, g, w) = >>=-eq-some (encode_flat u es) _ h2 in
        let (key, key_bytes) = encode-ReadsSome k depth (omega arith) ck x e in
        let (value, value_bytes) = encode-ReadsSome v depth (omega arith) cv y f in
        let rest = encode_flat-Reads es (suc depth) (omega arith) cs z g in
        subst
          (ReadsItems u (suc depth) (suc (suc (count_flat es)))
            (item (echo u k) (item (echo u v) (echo_flat u es))))
          (some_injective w)
          (ReadsItems-item u (suc depth) (suc (count_flat es)) (echo u k)
            (item (echo u v) (echo_flat u es)) x (y ++ z) key key_bytes
            (ReadsItems-item u (suc depth) (count_flat es) (echo u v) (echo_flat u es) y z value
              value_bytes rest))
