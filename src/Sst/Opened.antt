-- ===== src/Sst/Opened.antt =====
-- What the reader finds in a file that the writer has finished.
use zenith_db.Prelude.{
  ℕ, ◌+◌, ◌-◌, ◌==◌, ◌≤◌, ◌≡◌, refl, sym, ap, ◌∙◌, Option, none, some, List, [], ◌∷◌, ◌++◌, inl,
  inr, arith, Bool-cases, Option-cases, >>=-eq-some, some_injective, none-ne-some, length, take,
  drop, length-append, append_assoc, take-append, drop-append, drop-append_more, take_all, le→ltb,
}
use zenith_db.Bytes.{Bytes}
use zenith_db.Bytes.Order.{bytes_eq_refl}
use zenith_db.Bytes.Pack.{pack, unpack-pack}
use zenith_db.Bloom
use zenith_db.Bloom.{BloomFilter}
use zenith_db.Sst.Writer.{
  trailer_magic, SstWriter, index_format, index_rows, index_block, footer_format, or_empty,
  footer_block, finish,
}
use zenith_db.Sst.Reader.{SstReader, unpack_one, read_rows, keys_of, offsets_of, open_reader}

unpack_one-pack : (w v : ℕ) {s : Bytes} → pack (w ∷ []) (v ∷ []) ≡ some s → unpack_one w s ≡ some v
unfolding unpack_one
unpack_one-pack w v h = rw (unpack-pack (w ∷ []) (v ∷ []) h).0

read_rows-index_rows :
    (rows : List (Bytes × ℕ)) (rest : Bytes) {s : Bytes}
    → index_rows rows ≡ some s
    → read_rows (length rows) (s ++ rest) ≡ some rows
unfolding index_rows read_rows
read_rows-index_rows [] rest h = refl
read_rows-index_rows ((k, off) ∷ rows) rest {s} h =
    elim (Option-cases (pack index_format (length k ∷ off ∷ []))) [
      | inl bad ↦ let q : ◌≡◌ {A = Option Bytes} none (some s) = rw bad at h in cc
      | inr (row, e) ↦ elim (Option-cases (index_rows rows)) [
        | inl bad ↦ let q : ◌≡◌ {A = Option Bytes} none (some s) = rw (e, bad) at h in cc
        | inr (more, f) ↦
            let (fields, n) = unpack-pack index_format (length k ∷ off ∷ []) e in
            let q : ◌≡◌ {A = Option Bytes} (some (row ++ (k ++ more))) (some s) = rw (e, f) at h in
            let same : row ++ (k ++ more) ≡ s = cc in
            let ih = read_rows-index_rows rows rest f in
            rw (
              ← same,
              append_assoc row (k ++ more) rest,
              take-append 10 row ((k ++ more) ++ rest) n,
              drop-append 10 row ((k ++ more) ++ rest) n,
              fields,
              append_assoc k more rest,
              take-append (length k) k (more ++ rest) refl,
              drop-append (length k) k (more ++ rest) refl,
              ih,
            )
      ]
    ]

abbrev fields_of : SstWriter → Bytes → Bytes → List ℕ
fields_of w index bloom =
    length w.file
    ∷ length index
    ∷ (length w.file + length index)
    ∷ length bloom
    ∷ w.entry_count
    ∷ length (or_empty w.min_key)
    ∷ []

-- The parts of a finished file.
pub record Parts (w : SstWriter) (file : Bytes) : Type 0 where
  pub index : Bytes
  pub count : Bytes
  pub rows : Bytes
  pub bloom : Bytes
  pub foot : Bytes
  pub footer : Bytes
  pub max_len : Bytes
  pub trailer : Bytes
  pub counts : pack (4 ∷ []) (length w.index_entries ∷ []) ≡ some count
  pub lists : index_rows w.index_entries ≡ some rows
  pub indexes : count ++ rows ≡ index
  pub filters : Bloom.to_bytes w.bloom ≡ some bloom
  pub names : pack footer_format (fields_of w index bloom) ≡ some footer
  pub bounds : pack (2 ∷ []) (length (or_empty w.max_key) ∷ []) ≡ some max_len
  pub feet : footer ++ (or_empty w.min_key ++ (max_len ++ or_empty w.max_key)) ≡ foot
  pub points : pack (8 ∷ []) ((length w.file + length index + length bloom) ∷ []) ≡ some trailer
  pub whole : w.file ++ (index ++ (bloom ++ (foot ++ (trailer ++ trailer_magic)))) ≡ file

pub finish-Parts : (w : SstWriter) {file : Bytes} → finish w ≡ some (some file) → Parts w file
unfolding finish index_block footer_block
finish-Parts w {file} h = elim (Bool-cases (w.entry_count == 0)) [
  | inl nothing ↦
      absurd (none-ne-some (some_injective {a = none} {b = some file} (rw nothing at h)))
  | inr some_entries ↦
      let (index, i, h1) = >>=-eq-some (index_block w.index_entries) _ (rw some_entries at h) in
      let (count, c, i1) = >>=-eq-some (pack (4 ∷ []) (length w.index_entries ∷ [])) _ i in
      let (rows, r, i2) = >>=-eq-some (index_rows w.index_entries) _ i1 in
      let (bloom, b, h2) = >>=-eq-some (Bloom.to_bytes w.bloom) _ h1 in
      let (foot, f, h3) = >>=-eq-some (footer_block (fields_of w index bloom) _ _) _ h2 in
      let (footer, f0, f1) = >>=-eq-some (pack footer_format (fields_of w index bloom)) _ f in
      let (max_len, m, f2) = >>=-eq-some (pack (2 ∷ []) (length (or_empty w.max_key) ∷ [])) _ f1 in
      let (trailer, t, h4) =
        >>=-eq-some (pack (8 ∷ []) ((length w.file + length index + length bloom) ∷ [])) _ h3 in
      record {
        index = index;
        count = count;
        rows = rows;
        bloom = bloom;
        foot = foot;
        footer = footer;
        max_len = max_len;
        trailer = trailer;
        counts = c;
        lists = r;
        indexes = some_injective i2;
        filters = b;
        names = f0;
        bounds = m;
        feet = some_injective f2;
        points = t;
        whole = some_injective (some_injective h4);
      }
]

-- The reader of a finished file, with the filter that its bytes give.
unfoldable pub opened : SstWriter → Bytes → BloomFilter → SstReader
opened w file bloom = record {
  file = file;
  index_keys = keys_of w.index_entries;
  index_offsets = offsets_of w.index_entries;
  bloom = bloom;
  entry_count = w.entry_count;
  min_key = or_empty w.min_key;
  max_key = or_empty w.max_key;
  index_offset = length w.file;
}

module _ {w : SstWriter} {file : Bytes} (p : Parts w file) where
  tail : Bytes
  tail = p.trailer ++ trailer_magic

  trailer_size : length p.trailer ≡ 8
  trailer_size = (unpack-pack (8 ∷ []) _ p.points).1

  -- Where the trailer, the footer, the index and the filter stand.
  at_trailer : (16 ≤ length file) × (drop (length file - 16) file ≡ tail)
  unfolding tail
  at_trailer =
      let front = w.file ++ (p.index ++ (p.bloom ++ p.foot)) in
      let e : file ≡ front ++ tail = sym p.whole ∙ simp append_assoc in
      let n : length file ≡ length front + 16 =
        ap length e
        ∙ omega (
          arith,
          length-append front tail,
          length-append p.trailer trailer_magic,
          trailer_size,
        ) in
      let m : length front ≡ length file - 16 = omega (arith, n) in
      (
        omega (arith, n),
        ap (drop (length file - 16)) e ∙ drop-append (length file - 16) front tail m,
      )

  at_index : drop (length w.file) file ≡ p.index ++ (p.bloom ++ (p.foot ++ tail))
  unfolding tail
  at_index = ap (drop (length w.file)) (sym p.whole) ∙ drop-append (length w.file) w.file _ refl

  at_bloom : drop (length w.file + length p.index) file ≡ p.bloom ++ (p.foot ++ tail)
  unfolding tail
  at_bloom =
      ap (drop (length w.file + length p.index)) (sym p.whole)
      ∙ drop-append_more (length w.file) (length p.index) w.file _ refl
      ∙ drop-append (length p.index) p.index _ refl

  at_footer : drop (length w.file + length p.index + length p.bloom) file ≡ p.foot ++ tail
  unfolding tail
  at_footer =
      let sum : length w.file + length p.index + length p.bloom
          ≡ length w.file + (length p.index + length p.bloom) =
        omega arith in
      ap (λ (n : ℕ). drop n file) sum
      ∙ ap (drop (length w.file + (length p.index + length p.bloom))) (sym p.whole)
      ∙ drop-append_more (length w.file) (length p.index + length p.bloom) w.file _ refl
      ∙ drop-append_more (length p.index) (length p.bloom) p.index _ refl
      ∙ drop-append (length p.bloom) p.bloom _ refl

  -- The footer's fields and what follows them.
  foot_split :
      (take 38 (p.foot ++ tail) ≡ p.footer)
      × (drop 38 (p.foot ++ tail)
          ≡ or_empty w.min_key ++ (p.max_len ++ (or_empty w.max_key ++ tail)))
  foot_split =
      let n : length p.footer ≡ 38 = (unpack-pack footer_format _ p.names).1 in
      let e : p.foot ++ tail
          ≡ p.footer ++ (or_empty w.min_key ++ (p.max_len ++ (or_empty w.max_key ++ tail))) =
        ap (λ (s : Bytes). s ++ tail) (sym p.feet) ∙ simp append_assoc in
      (ap (take 38) e ∙ take-append 38 p.footer _ n, ap (drop 38) e ∙ drop-append 38 p.footer _ n)

  index_split : drop (length w.file) file ≡ p.count ++ (p.rows ++ (p.bloom ++ (p.foot ++ tail)))
  index_split =
      at_index
      ∙ ap (λ (s : Bytes). s ++ (p.bloom ++ (p.foot ++ tail))) (sym p.indexes)
      ∙ append_assoc p.count p.rows _

  -- A finished file is opened, and the reader has what the writer held.
  pub open_reader-opened :
      (bloom : BloomFilter)
      → Bloom.from_bytes p.bloom ≡ some bloom
      → open_reader file ≡ some (opened w file bloom)
  unfolding open_reader opened tail
  open_reader-opened bloom h =
      let (big, trail) = at_trailer in
      let (hdr, behind) = foot_split in
      let min = or_empty w.min_key in
      let max = or_empty w.max_key in
      let two : length p.max_len ≡ 2 = (unpack-pack (2 ∷ []) _ p.bounds).1 in
      let four : length p.count ≡ 4 = (unpack-pack (4 ∷ []) _ p.counts).1 in
      rw (
        le→ltb (length file) 16 big,
        trail,
        take_all 16 tail tail_size,
        take-append 8 p.trailer trailer_magic trailer_size,
        drop-append 8 p.trailer trailer_magic trailer_size,
        bytes_eq_refl trailer_magic,
        unpack_one-pack 8 _ p.points,
        at_footer,
        hdr,
        (unpack-pack footer_format _ p.names).0,
        behind,
        drop-append (length min) min (p.max_len ++ (max ++ tail)) refl,
        take-append (length min) min (p.max_len ++ (max ++ tail)) refl,
        take-append 2 p.max_len (max ++ tail) two,
        drop-append 2 p.max_len (max ++ tail) two,
        unpack_one-pack 2 _ p.bounds,
        index_split,
        take-append 4 p.count (p.rows ++ (p.bloom ++ (p.foot ++ tail))) four,
        drop-append 4 p.count (p.rows ++ (p.bloom ++ (p.foot ++ tail))) four,
        unpack_one-pack 4 _ p.counts,
        read_rows-index_rows w.index_entries (p.bloom ++ (p.foot ++ tail)) p.lists,
        at_bloom,
        take-append (length p.bloom) p.bloom (p.foot ++ tail) refl,
        h,
        take-append (length max) max tail refl,
      )
    where
      tail_size : length tail ≤ 16
      tail_size = omega (arith, length-append p.trailer trailer_magic, trailer_size)
