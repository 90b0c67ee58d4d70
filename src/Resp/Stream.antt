-- ===== src/Resp/Stream.antt =====
-- Taking values off the buffer.
use zenith_db.Prelude.{
  ℕ, suc, ◌≡◌, ◌<◌, ◌≤◌, refl, ap, ◌∙◌, arith, true, some, [], ◌∷◌, ◌++◌, ltb, ◌>>=◌, length,
  length-append, drop, drop-append,
}
use zenith_db.Bytes.{Bytes}
use zenith_db.Python.Int.{pos}
use zenith_db.Resp.Value.{Value, Utf8, Utf8Laws}
use zenith_db.Resp.Serializer.{encode}
use zenith_db.Resp.Parser.{parse_from, get_next, feed}
use zenith_db.Resp.Lines.{Tail-whole}
use zenith_db.Resp.RoundTrip.{nesting, IsLine, echo, encode-ReadsSome}

module _ (u : Utf8) where
  pub get_next-parsed :
      (depth : ℕ) (buffer : Bytes) (v : Value) (k : ℕ)
      → parse_from u depth buffer (pos 0) ≡ some (v, pos k)
      → 0 < k
      → 0 < length buffer
      → get_next u depth buffer ≡ some (v, drop k buffer)
  unfolding get_next
  get_next-parsed depth [] v k e p q = absurd (omega arith)
  get_next-parsed depth (c ∷ buffer) v k e p q =
      let took : ltb 0 k ≡ true = ground arith in rw (e, ◌>>=◌, took) refl

  -- A value that was sent, without a line feed in the message of an error in it and with arrays
  -- nested at most `depth` deep, is taken off the front of a buffer as its echo, and exactly its
  -- own bytes are consumed, whatever follows them.
  pub get_next-encode :
      Utf8Laws u
      → (v : Value) (depth : ℕ) {b : Bytes} (rest : Bytes) → nesting v ≤ depth
      → IsLine v
      → encode u v ≡ some b
      → get_next u (suc depth) (feed b rest) ≡ some (echo u v, rest)
  get_next-encode laws v depth {b} rest d c h =
      let (reads, p) = encode-ReadsSome u laws v depth d c b h in
      get_next-parsed (suc depth) (b ++ rest) (echo u v) (length b)
        (reads (b ++ rest) 0 rest (Tail-whole (b ++ rest))) p (omega (arith, length-append b rest))
      ∙ ap (λ (s : Bytes). some (echo u v, s)) (drop-append (length b) b rest refl)
