-- ===== src/Resp/Serializer.antt =====
-- RESPSerializer. `none` is the exception of a text without an encoding.
use zenith_db.Prelude.{ℕ, suc, Bool, true, false, Option, none, some, [], ◌∷◌, ◌++◌, ◌>>=◌, length}
use zenith_db.Bytes.{Bytes, codes}
use zenith_db.Python.Int.{ℤ, pos}
use zenith_db.Python.Decimal.{decimal, str_int}
use zenith_db.Resp.Value.{
  Str, Value, Values, Entries, Utf8, nil, bool, int, text, raw, items, dict, error, object, end,
  item, no_entries, entry,
}

abbrev pub crlf : Bytes
crlf = 13 ∷ 10 ∷ []

abbrev pub ok : Bytes
ok = codes "+OK" ++ crlf

abbrev pub ping : Bytes
ping = codes "+PONG" ++ crlf

abbrev pub integer : ℤ → Bytes
integer n = 58 ∷ (str_int n ++ crlf)

-- `bulk_string` of bytes
abbrev pub bulk_bytes : Bytes → Bytes
bulk_bytes b = 36 ∷ (decimal (length b) ++ (crlf ++ (b ++ crlf)))

-- `bulk_string(None)`
abbrev pub null_bulk : Bytes
null_bulk = codes "$-1" ++ crlf

abbrev pub null_array : Bytes
null_array = codes "*-1" ++ crlf

-- The head of an array of some length.
abbrev pub array_head : ℕ → Bytes
array_head n = 42 ∷ (decimal n ++ crlf)

abbrev pub of_bool : Bool → ℤ
of_bool true = pos 1
of_bool false = pos 0

abbrev pub count : Values → ℕ
count end = 0
count (item v vs) = suc (count vs)

-- A dict is sent as its keys and values in turn.
abbrev pub count_flat : Entries → ℕ
count_flat no_entries = 0
count_flat (entry k v es) = suc (suc (count_flat es))

module _ (u : Utf8) where
  unfoldable pub simple_string : Str → Option Bytes
  simple_string s = u.encode_text (43 ∷ (s ++ crlf))

  unfoldable pub error_line : Str → Option Bytes
  error_line msg = u.encode_text (codes "-ERR " ++ (msg ++ crlf))

  -- `bulk_string` of a text
  unfoldable pub bulk_text : Str → Option Bytes
  bulk_text s = do b ← u.encode_text s; some (bulk_bytes b)

  unfoldable mutual
    pub encode : Value → Option Bytes
    encode nil = some null_bulk
    encode (bool b) = some (integer (of_bool b))
    encode (int n) = some (integer n)
    encode (text s) = bulk_text s
    encode (raw b) = some (bulk_bytes b)
    encode (items vs) = do b ← encode_items vs; some (array_head (count vs) ++ b)
    encode (dict es) = do b ← encode_flat es; some (array_head (count_flat es) ++ b)
    encode (error msg) = error_line msg
    encode (object s) = bulk_text s

    pub encode_items : Values → Option Bytes
    encode_items end = some []
    encode_items (item v vs) = do a ← encode v; b ← encode_items vs; some (a ++ b)

    pub encode_flat : Entries → Option Bytes
    encode_flat no_entries = some []
    encode_flat (entry k v es) = do
      a ← encode k
      b ← encode v
      c ← encode_flat es
      some (a ++ (b ++ c))

  -- `array`
  unfoldable pub array : Option Values → Option Bytes
  array none = some null_array
  array (some vs) = encode (items vs)
