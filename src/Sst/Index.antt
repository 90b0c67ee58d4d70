-- ===== src/Sst/Index.antt =====
-- Where the sparse index lets a search start.
use mathlib.Core.Path.{subst}
use zenith_db.Prelude.{
  ℕ, zero, suc, ◌+◌, ◌-◌, ◌/◌, ◌≤◌, ◌≡◌, refl, ap, ◌∙◌, true, false, Option, some, List, [], ◌∷◌,
  ◌++◌, ◌⊎◌, inl, inr, arith, Bool-cases, ltb, ltb→lt, length, get_elem?, get_elem?-lt, All, drop,
  drop-append_more, length-append, append_assoc,
}
use zenith_db.Bytes.{Bytes, bytes_lt}
use zenith_db.Bytes.Order.{bytes_lt→ne, bytes_lt_trans, bytes_lt_connex}
use zenith_db.Dict.{Dict, lookup, IsSorted, Above}
use zenith_db.Lsm.Tables.{ranged}
use zenith_db.Sst.Reader.{
  SstReader, keys_of, offsets_of, bisect_between, bisect_right, start_offset,
}
use zenith_db.Sst.Blocks.{At, AllFit, block, block-append}
use zenith_db.Sst.Ranges.{ranged_before}

-- Nothing below index `i` says that the key is lower.
Low : List Bytes → Bytes → ℕ → Type 0
Low keys key i =
    (i ≡ 0) ⊎ ((k : Bytes) × (get_elem? keys (i - 1) ≡ some k) × (bytes_lt key k ≡ false))

bisect_between-Low :
    (fuel : ℕ) (keys : List Bytes) (key : Bytes) (lo hi : ℕ)
    → lo ≤ hi
    → hi ≤ length keys
    → Low keys key lo
    → (bisect_between fuel keys key lo hi ≤ length keys)
      × Low keys key (bisect_between fuel keys key lo hi)
unfolding bisect_between Low
bisect_between-Low zero keys key lo hi a b l = (omega arith, l)
bisect_between-Low (suc fuel) keys key lo hi a b l = elim (Bool-cases (ltb lo hi)) [
  | inr stop ↦ rw stop (omega arith, l)
  | inl go ↦
      let lt = ltb→lt lo hi go in
      let mid = (lo + hi) / 2 in
      let (k, e) = get_elem?-lt keys mid (omega arith) in
      elim (Bool-cases (bytes_lt key k)) [
        | inl left ↦
            rw (go, e, left) (bisect_between-Low fuel keys key lo mid (omega arith) (omega arith) l)
        | inr right ↦
            let m : mid + 1 - 1 ≡ mid = omega arith in
            rw (go, e, right)
              (bisect_between-Low fuel keys key (mid + 1) hi (omega arith) b
                (inr (k, rw m e, right)))
      ]
]

bisect_right-Low :
    (keys : List Bytes) (key : Bytes)
    → (bisect_right keys key ≤ length keys) × Low keys key (bisect_right keys key)
unfolding bisect_right Low
bisect_right-Low keys key =
    bisect_between-Low (length keys) keys key 0 (length keys) (omega arith) (omega arith) (inl refl)

-- A key that stands at an offset of the file.
pub record Points (d : Dict Bytes) (k : Bytes) (off : ℕ) : Type 0 where
  pub before : Dict Bytes
  pub value : Bytes
  pub after : Dict Bytes
  pub splits : d ≡ before ++ (k, value) ∷ after
  pub offset : off ≡ 5 + length (block before)

-- The entries from an offset on have all that a search for the key needs.
pub record Start (d : Dict Bytes) (key : Bytes) (off : ℕ) : Type 0 where
  pub before : Dict Bytes
  pub entries : Dict Bytes
  pub splits : d ≡ before ++ entries
  pub offset : off ≡ 5 + length (block before)
  pub passed : All (λ (e : Bytes × Bytes). bytes_lt e.0 key ≡ true) before

All-row :
    (d : Dict Bytes) (rows : List (Bytes × ℕ)) (i : ℕ) {k : Bytes}
    → All (λ (row : Bytes × ℕ). Points d row.0 row.1) rows
    → get_elem? (keys_of rows) i ≡ some k
    → (off : ℕ) × (get_elem? (offsets_of rows) i ≡ some off) × Points d k off
All-row d [] i h e = cc
All-row d ((j, off) ∷ rows) zero {k} (p, h) e =
    let same : j ≡ k = cc in (off, refl, subst (λ (b : Bytes). Points d b off) same p)
All-row d ((j, off) ∷ rows) (suc i) (p, h) e = All-row d rows i h e

-- In sorted entries, those before a key that is not above the other key are below that one.
Above-split :
    (i k v : Bytes) (before after : Dict Bytes)
    → Above i (before ++ (k, v) ∷ after)
    → bytes_lt i k ≡ true
unfolding bytes_lt
Above-split i k v [] after (l, a) = l
Above-split i k v ((j, w) ∷ before) after (l, a) = Above-split i k v before after a

lt_le_trans :
    (i k key : Bytes) → bytes_lt i k ≡ true → bytes_lt key k ≡ false → bytes_lt i key ≡ true
lt_le_trans i k key l h = elim (Bool-cases (bytes_lt k key)) [
  | inl lt ↦ bytes_lt_trans i k key l lt
  | inr ge ↦ rw (← bytes_lt_connex k key ge h) l
]

passed_all :
    (k key v : Bytes) (before after : Dict Bytes)
    → IsSorted (before ++ (k, v) ∷ after)
    → bytes_lt key k ≡ false
    → All (λ (e : Bytes × Bytes). bytes_lt e.0 key ≡ true) before
passed_all k key v [] after s h = tt
passed_all k key v ((i, w) ∷ before) after (a, s) h =
    (lt_le_trans i k key (Above-split i k v before after a) h, passed_all k key v before after s h)

-- The first row points at the first entry.
unfoldable pub StartsAt : List (Bytes × ℕ) → Type 0
StartsAt [] = ⊥
StartsAt ((k, off) ∷ rows) = off ≡ 5

pub start_offset-Start :
    (r : SstReader) (key : Bytes) (d : Dict Bytes) (rows : List (Bytes × ℕ))
    → r.index_keys ≡ keys_of rows
    → r.index_offsets ≡ offsets_of rows
    → IsSorted d
    → StartsAt rows
    → All (λ (row : Bytes × ℕ). Points d row.0 row.1) rows
    → (off : ℕ) × (start_offset r key ≡ some off) × Start d key off
unfolding start_offset StartsAt Low block
start_offset-Start r key d [] p q s z h = absurd z
start_offset-Start r key d ((k0, off0) ∷ rows) p q s z h =
    let rows0 = (k0, off0) ∷ rows in
    let i = bisect_right (keys_of rows0) key in
    elim (bisect_right-Low (keys_of rows0) key).1 [
      | inl least ↦ (
        off0,
        rw (p, q, least) refl,
        record { before = []; entries = d; splits = refl; offset = omega (arith, z); passed = tt },
      )
      | inr (k, at, low) ↦
          let (off, found, point) = All-row d rows0 (i - 1) h at in
          (
            off,
            rw (p, q) found,
            record {
              before = point.before;
              entries = (k, point.value) ∷ point.after;
              splits = point.splits;
              offset = point.offset;
              passed =
                  passed_all k key point.value point.before point.after
                    (subst IsSorted point.splits s) low;
            },
          )
    ]

module _ {d : Dict Bytes} {key : Bytes} {off : ℕ} (w : Start d key off) where
  lookup-passed :
      (before entries : Dict Bytes)
      → All (λ (e : Bytes × Bytes). bytes_lt e.0 key ≡ true) before
      → lookup key (before ++ entries) ≡ lookup key entries
  unfolding lookup
  lookup-passed [] entries h = refl
  lookup-passed ((j, v) ∷ before) entries (l, h) =
      rw (bytes_lt→ne j key l) (lookup-passed before entries h)

  pub lookup-Start : lookup key d ≡ lookup key w.entries
  lookup-Start = ap (lookup key) w.splits ∙ lookup-passed w.before w.entries w.passed

  ranged-passed :
      (end : Option Bytes) (before entries : Dict Bytes)
      → All (λ (e : Bytes × Bytes). bytes_lt e.0 key ≡ true) before
      → ranged (some key) end (before ++ entries) ≡ ranged (some key) end entries
  ranged-passed end [] entries h = refl
  ranged-passed end ((j, v) ∷ before) entries (l, h) =
      ranged_before (some key) end j v (before ++ entries) l ∙ ranged-passed end before entries h

  pub ranged-Start :
      (end : Option Bytes) → ranged (some key) end d ≡ ranged (some key) end w.entries
  ranged-Start end =
      ap (ranged (some key) end) w.splits ∙ ranged-passed end w.before w.entries w.passed

  pub entries-IsSorted : IsSorted d → IsSorted w.entries
  entries-IsSorted s = behind w.before w.entries (subst IsSorted w.splits s)
    where
      behind : (before entries : Dict Bytes) → IsSorted (before ++ entries) → IsSorted entries
      behind [] entries s = s
      behind (e ∷ before) entries (a, s) = behind before entries s

  pub entries-le : length w.entries ≤ length d
  entries-le =
      let e : length d ≡ length (w.before ++ w.entries) = ap length w.splits in
      omega (arith, e, length-append w.before w.entries)

  -- In a file that has the entries behind 5 bytes, a search starts at some of them.
  pub At-Start :
      (file header rest : Bytes) (limit : ℕ)
      → length header ≡ 5
      → file ≡ header ++ (block d ++ rest)
      → limit ≡ 5 + length (block d)
      → AllFit d
      → At file limit off w.entries
  At-Start file header rest limit n e l f =
      let b : block d ≡ block w.before ++ block w.entries =
        ap block w.splits ∙ block-append w.before w.entries in
      let m = length (block w.before) in
      let sum : off ≡ 5 + (m + 0) = omega (arith, w.offset) in
      record {
        behind = rest;
        content =
            ap (λ (k : ℕ). drop k file) sum
            ∙ ap (drop (5 + (m + 0))) e
            ∙ drop-append_more 5 (m + 0) header (block d ++ rest) n
            ∙ ap (λ (s : Bytes). drop (m + 0) (s ++ rest)) b
            ∙ ap (drop (m + 0)) (append_assoc (block w.before) (block w.entries) rest)
            ∙ drop-append_more m 0 (block w.before) (block w.entries ++ rest) refl;
        ends =
            omega
              (arith, w.offset, l, ap length b, length-append (block w.before) (block w.entries));
        fits = behind w.before w.entries (subst AllFit w.splits f);
      }
    where
      behind : (before entries : Dict Bytes) → AllFit (before ++ entries) → AllFit entries
      behind [] entries h = h
      behind (e ∷ before) entries (a, h) = behind before entries h
