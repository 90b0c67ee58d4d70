-- ===== src/Sst/Blocks.antt =====
-- Reading the entries of a data block, from any of them on.
use zenith_db.Prelude.{
  ℕ, zero, suc, ◌+◌, ◌≤◌, ◌<◌, ◌≡◌, refl, sym, ap, ◌∙◌, some, List, [], ◌∷◌, ◌++◌, arith, inl, inr,
  Bool-cases, length, drop, length-append, take-append, drop-append, append_assoc, drop-append_more,
  drop-drop, le→ltb, lt→ltb,
}
use zenith_db.Bytes.{Bytes, bytes_eq, bytes_lt}
use zenith_db.Bytes.Pack.{layout, Fits, length-layout, unpack-layout}
use zenith_db.Dict.{Dict, lookup, IsSorted}
use zenith_db.Dict.Sorted.{Above-trans, lookup-Above}
use zenith_db.Sst.Writer.{frame_format}
use zenith_db.Sst.Reader.{read_entry, find_from}

abbrev pub sizes : Bytes → Bytes → List ℕ
sizes k v = length k ∷ length v ∷ []

-- The sizes of each entry fit their fields.
abbrev pub AllFit : Dict Bytes → Type 0
AllFit [] = Unit
AllFit ((k, v) ∷ d) = Fits frame_format (sizes k v) × AllFit d

-- The bytes of the entries.
unfoldable pub block : Dict Bytes → Bytes
block [] = []
block ((k, v) ∷ d) = layout frame_format (sizes k v) ++ (k ++ (v ++ block d))

pub block-append : (d e : Dict Bytes) → block (d ++ e) ≡ block d ++ block e
unfolding block
block-append [] e = refl
block-append ((k, v) ∷ d) e = simp (block-append d e, append_assoc)

pub length-le-block : (d : Dict Bytes) → AllFit d → length d ≤ length (block d)
unfolding block
length-le-block [] h = omega arith
length-le-block ((k, v) ∷ d) (f, h) = omega (
  arith,
  length-append (layout frame_format (sizes k v)) (k ++ (v ++ block d)),
  length-layout frame_format (sizes k v) f,
  length-append k (v ++ block d),
  length-append v (block d),
  length-le-block d h,
)

-- At a position stand the bytes of some entries, up to the limit.
pub record At (file : Bytes) (limit pos : ℕ) (d : Dict Bytes) : Type 0 where
  pub behind : Bytes
  pub content : drop pos file ≡ block d ++ behind
  pub ends : pos + length (block d) ≡ limit
  pub fits : AllFit d

module _ (file : Bytes) (limit : ℕ) where
  abbrev pub next_pos : ℕ → Bytes → Bytes → ℕ
  next_pos pos k v = pos + 6 + length k + length v

  pub read_entry-At :
      (pos : ℕ) (k v : Bytes) (d : Dict Bytes)
      → At file limit pos ((k, v) ∷ d)
      → (read_entry file pos ≡ some ((k, v), next_pos pos k v))
        × At file limit (next_pos pos k v) d
        × (pos < limit)
  unfolding read_entry block
  read_entry-At pos k v d w =
      let (fit, fits) = w.fits in
      let h = layout frame_format (sizes k v) in
      let n : length h ≡ 6 = length-layout frame_format (sizes k v) fit in
      let sum : next_pos pos k v ≡ pos + (6 + (length k + (length v + 0))) = omega arith in
      let tail = k ++ (v ++ (block d ++ w.behind)) in
      let e : drop pos file ≡ h ++ tail = w.content ∙ simp append_assoc in
      (
        rw (
          e,
          take-append 6 h tail n,
          n,
          unpack-layout frame_format (sizes k v) fit,
          drop-append 6 h tail n,
          take-append (length k) k (v ++ (block d ++ w.behind)) refl,
          drop-append (length k) k (v ++ (block d ++ w.behind)) refl,
          take-append (length v) v (block d ++ w.behind) refl,
        ),
        record {
          behind = w.behind;
          content =
              ap (λ (n : ℕ). drop n file) sum
              ∙ sym (drop-drop pos (6 + (length k + (length v + 0))) file)
              ∙ ap (drop (6 + (length k + (length v + 0)))) e
              ∙ drop-append_more 6 (length k + (length v + 0)) h tail n
              ∙ drop-append_more (length k) (length v + 0) k (v ++ (block d ++ w.behind)) refl
              ∙ drop-append_more (length v) 0 v (block d ++ w.behind) refl;
          ends = omega (
            arith,
            w.ends,
            length-append h (k ++ (v ++ block d)),
            n,
            length-append k (v ++ block d),
            length-append v (block d),
          );
          fits = fits;
        },
        omega (arith, w.ends, length-append h (k ++ (v ++ block d)), n),
      )

  -- A search finds in the entries what a lookup finds.
  pub find_from-lookup :
      (fuel : ℕ) (key : Bytes) (pos : ℕ) (d : Dict Bytes)
      → At file limit pos d
      → IsSorted d
      → limit < pos + fuel
      → find_from fuel file limit key pos ≡ lookup key d
  unfolding find_from lookup block
  find_from-lookup zero key pos d w s h = absurd (omega (arith, w.ends))
  find_from-lookup (suc fuel) key pos [] w s h = rw (le→ltb pos limit (omega (arith, w.ends)))
  find_from-lookup (suc fuel) key pos ((k, v) ∷ d) w (above, s) h =
      let (read, w', lt) = read_entry-At pos k v d w in
      let ih = find_from-lookup fuel key (next_pos pos k v) d w' s (omega arith) in
      rw (lt→ltb pos limit lt, read, find_from)
        (elim (Bool-cases (bytes_eq k key)) [
          | inl same ↦ rw same
          | inr other ↦ elim (Bool-cases (bytes_lt key k)) [
            | inl passed ↦
                rw (other, passed) (sym (lookup-Above key d (Above-trans key k d passed above)))
            | inr later ↦ rw (other, later) ih
          ]
        ])
