-- ===== src/Resp/Value.antt =====
-- The Python values that are sent and received, and the UTF-8 codec.
use zenith_db.Prelude.{ℕ, ◌<◌, ◌≡◌, ◌≢◌, Bool, Option, some, List, ◌++◌, All}
use zenith_db.Bytes.{Bytes}
use zenith_db.Python.Int.{ℤ}

-- A `str`: its code points.
abbrev pub Str : Type 0
Str = List ℕ

-- `items` is a list, a tuple or a set in its order of iteration; `error` is an exception with its
-- message; `object` is any other object with its `str`.
mutual
  pub data Value : Type 0 where
    nil : Value
    bool : Bool → Value
    int : ℤ → Value
    text : Str → Value
    raw : Bytes → Value
    items : Values → Value
    dict : Entries → Value
    error : Str → Value
    object : Str → Value

  pub data Values : Type 0 where
    end : Values
    item : Value → Values → Values

  pub data Entries : Type 0 where
    no_entries : Entries
    entry : Value → Value → Entries → Entries

-- `s.encode("utf-8")`, `b.decode("utf-8")` and `b.decode("utf-8", errors="replace")`; `none` is an
-- exception.
pub record Utf8 : Type 0 where
  pub encode_text : Str → Option Bytes
  pub decode : Bytes → Option Str
  pub decode_replace : Bytes → Str

abbrev pub IsAscii : List ℕ → Type 0
IsAscii = All (λ c. c < 128)

abbrev pub LacksLf : List ℕ → Type 0
LacksLf = All (λ c. c ≢ 10)

pub record Utf8Laws (u : Utf8) : Type 0 where
  pub decodes : (s : Str) {b : Bytes} → u.encode_text s ≡ some b → u.decode b ≡ some s
  pub replaces : (b : Bytes) {s : Str} → u.decode b ≡ some s → u.decode_replace b ≡ s
  pub ascii : (s : Str) → IsAscii s → u.encode_text s ≡ some s
  pub splits :
      (s t : Str) {b : Bytes}
      → u.encode_text (s ++ t) ≡ some b
      → (x y : Bytes) × (u.encode_text s ≡ some x) × (u.encode_text t ≡ some y) × (b ≡ x ++ y)
  pub lacks : (s : Str) {b : Bytes} → u.encode_text s ≡ some b → LacksLf s → LacksLf b
