-- ===== src/Resp/Parser.antt =====
-- RESPParser. The buffer is passed explicitly; `none` is an exception: `_parse_from` raises where
-- arrays are nested deeper than `depth`, the interpreter's limit on recursion. `int`, `strip` and
-- `split` are those of ASCII lines: the digits and blanks of other scripts are not modelled.
use zenith_db.Prelude.{
  ℕ, zero, suc, ◌==◌, true, false, Option, none, some, List, [], ◌∷◌, ◌++◌, if◌then◌else◌, ◌>>=◌,
  length, drop,
}
use zenith_db.Bytes.{Bytes}
use zenith_db.Python.Int.{ℤ, pos, negsuc, ◌+ℤ◌, ◌-ℤ◌, ltb_ℤ, eq_ℤ, to_ℕ}
use zenith_db.Python.Decimal.{parse_int}
use zenith_db.Python.Text.{strip, split}
use zenith_db.Python.Slices.{index, slice, find_crlf_from}
use zenith_db.Resp.Value.{Str, Value, Values, Utf8, nil, int, text, raw, items, error, end, item}

-- `feed`
abbrev pub feed : Bytes → Bytes → Bytes
feed buffer data_ = buffer ++ data_

-- What a line's first character says.
pub data Prefix : Type 0 where
  simple failure number bulk sequence inline : Prefix

abbrev pub prefix_of : ℕ → Prefix
prefix_of c =
    if c == 43
    then simple
    else if c == 45
    then failure
    else if c == 58
    then number
    else if c == 36
    then bulk
    else if c == 42
    then sequence
    else inline

-- A value, None included, and how much of the buffer it took: 0 for incomplete data.
abbrev pub Parsed : Type 0
Parsed = Value × ℤ

abbrev pub incomplete : Parsed
incomplete = (nil, pos 0)

abbrev pub number_of : Str → Value
number_of line = elim (parse_int line) [ none ↦ int (pos 0) | some n ↦ int n ]

abbrev pub texts : List Str → Values
texts [] = end
texts (s ∷ ss) = item (text s) (texts ss)

-- The loop over an array's elements: the inner `none` is an incomplete element.
unfoldable pub parse_items : (ℤ → Option Parsed) → ℕ → ℤ → Option (Option (Values × ℤ))
parse_items again zero curr_offset = some (some (end, curr_offset))
parse_items again (suc n) curr_offset = again curr_offset >>= λ (p : Parsed).
    elim (eq_ℤ p.1 (pos 0)) [
      | true ↦ some none
      | false ↦ do
        rest ← parse_items again n (curr_offset +ℤ p.1)
        some (do more ← rest; some (item p.0 more.0, more.1))
    ]

unfoldable pub parse_array : (ℤ → Option Parsed) → ℤ → ℤ → ℤ → Option Parsed
parse_array again offset header_len array_len = elim (eq_ℤ array_len (negsuc 0)) [
  | true ↦ some (nil, header_len)
  | false ↦ do
    parsed ← parse_items again (to_ℕ array_len) (offset +ℤ header_len)
    (elim parsed [
      | none ↦ some incomplete
      | some (elements, curr_offset) ↦ some (items elements, curr_offset -ℤ offset)
    ])
]

module _ (u : Utf8) where
  unfoldable pub payload_of : Bytes → Value
  payload_of payload = elim (u.decode payload) [ none ↦ raw payload | some s ↦ text s ]

  -- `line` and `full_line`
  abbrev pub line_of : Bytes → ℤ → ℕ → Str
  line_of buffer offset crlf_pos = u.decode_replace (slice buffer (offset +ℤ pos 1) (pos crlf_pos))

  abbrev pub full_line_of : Bytes → ℤ → ℕ → Str
  full_line_of buffer offset crlf_pos = u.decode_replace (slice buffer offset (pos crlf_pos))

  unfoldable pub parse_bulk : Bytes → ℤ → ℤ → ℤ → Parsed
  parse_bulk buffer offset header_len str_len =
      let total_needed = offset +ℤ header_len +ℤ str_len +ℤ pos 2 in
      let data_start = offset +ℤ header_len in
      let data_end = data_start +ℤ str_len in
      if eq_ℤ str_len (negsuc 0)
      then (nil, header_len)
      else if ltb_ℤ (pos (length buffer)) total_needed
      then incomplete
      else (payload_of (slice buffer data_start data_end), total_needed -ℤ offset)

  -- What follows the search for the line's end.
  unfoldable pub parse_by : (ℤ → Option Parsed) → Bytes → ℤ → Str → Str → ℤ → Prefix → Option Parsed
  parse_by again buffer offset line full_line header_len simple = some (text line, header_len)
  parse_by again buffer offset line full_line header_len failure = some (error line, header_len)
  parse_by again buffer offset line full_line header_len number = some (number_of line, header_len)
  parse_by again buffer offset line full_line header_len bulk = elim (parse_int line) [
    | none ↦ some (nil, header_len)
    | some str_len ↦ some (parse_bulk buffer offset header_len str_len)
  ]
  parse_by again buffer offset line full_line header_len sequence = elim (parse_int line) [
    | none ↦ some (nil, header_len)
    | some array_len ↦ parse_array again offset header_len array_len
  ]
  parse_by again buffer offset line full_line header_len inline =
      some (items (texts (split (strip full_line))), header_len)

  -- `_parse_from`
  unfoldable pub parse_from : ℕ → Bytes → ℤ → Option Parsed
  parse_from zero buffer offset = none
  parse_from (suc depth) buffer offset = elim (ltb_ℤ offset (pos (length buffer))) [
    | false ↦ some incomplete
    | true ↦ do
      c ← index buffer offset
      (elim (find_crlf_from buffer offset) [
        | none ↦ some incomplete
        | some crlf_pos ↦
            parse_by (parse_from depth buffer) buffer offset (line_of buffer offset crlf_pos)
              (full_line_of buffer offset crlf_pos) (pos crlf_pos -ℤ offset +ℤ pos 2) (prefix_of c)
      ])
  ]

  -- `get_next`: the value, and the buffer behind it.
  unfoldable pub get_next : ℕ → Bytes → Option (Value × Bytes)
  get_next depth [] = some (nil, [])
  get_next depth (c ∷ buffer) = parse_from depth (c ∷ buffer) (pos 0) >>= λ (p : Parsed).
      if ltb_ℤ (pos 0) p.1 then some (p.0, drop (to_ℕ p.1) (c ∷ buffer)) else some (nil, c ∷ buffer)
