-- ===== src/Python/Slices.antt =====
-- Python's indices and slices of bytes, which count from the end where they are negative.
use zenith_db.Prelude.{
  ℕ, ◌+◌, ◌-◌, ◌==◌, Bool, false, ◌&&◌, Option, none, some, [], ◌∷◌, ltb, if◌then◌else◌, ◌>>=◌,
  length, get_elem?, take, drop,
}
use zenith_db.Bytes.{Bytes}
use zenith_db.Python.Int.{ℤ, pos, negsuc}

-- A bound of a slice as a position: from the end where it is negative, and at least 0.
abbrev pub from_end : ℕ → ℤ → ℕ
from_end n (pos i) = i
from_end n (negsuc i) = n - (i + 1)

-- `s[i]`; `none` is the IndexError
abbrev pub index : Bytes → ℤ → Option ℕ
index s (pos i) = get_elem? s i
index s (negsuc i) = if ltb i (length s) then get_elem? s (length s - (i + 1)) else none

-- `s[a:b]`
abbrev pub slice : Bytes → ℤ → ℤ → Bytes
slice s a b = take (from_end (length s) b - from_end (length s) a) (drop (from_end (length s) a) s)

abbrev pub starts_lf : Bytes → Bool
starts_lf [] = false
starts_lf (c ∷ s) = c == 10

-- `s.find(b"\r\n")`; `none` is -1
unfoldable pub find_crlf : Bytes → Option ℕ
find_crlf [] = none
find_crlf (c ∷ s) = if (c == 13) && starts_lf s then some 0 else (do k ← find_crlf s; some (k + 1))

-- `s.find(b"\r\n", a)`
unfoldable pub find_crlf_from : Bytes → ℤ → Option ℕ
find_crlf_from s a = do
  k ← find_crlf (drop (from_end (length s) a) s)
  some (from_end (length s) a + k)
