-- ===== src/Sst/Held.antt =====
-- What a reader holds of the entries that its file was built from.
use mathlib.Core.Path.{subst}
use zenith_db.Prelude.{
  ℕ, ◌+◌, ◌<◌, ◌≡◌, refl, sym, ap, ◌∙◌, true, Option, some, List, [], ◌∷◌, ◌++◌, inl, inr, ◌>>=◌,
  >>=-eq-some, some_injective, none-ne-some, length, length-append, append_assoc, All, All_mono,
}
use zenith_db.Bytes.{Bytes}
use zenith_db.Dict.{Dict}
use zenith_db.Bloom
use zenith_db.Bloom.{BloomFilter}
use zenith_db.Bloom.Members.{IsFilter}
use zenith_db.Bloom.Serial.{contains-from_bytes, to_bytes-Fits}
use zenith_db.Sst.Writer.{
  Sizing, SstWriter, open_writer, write_entries, or_empty, finish, trailer_magic,
}
use zenith_db.Sst.Reader.{SstReader, keys_of, offsets_of, open_reader}
use zenith_db.Sst.Blocks.{AllFit, block}
use zenith_db.Sst.Index.{Points, StartsAt}
use zenith_db.Sst.Written.{
  header, head_key, last_key, Written, open_writer-Written, write_entries-Written,
}
use zenith_db.Sst.Opened.{Parts, opened, finish-Parts, open_reader-opened}

-- `index_interval: int = 16`
abbrev pub index_interval : ℕ
index_interval = 16

module _ (sha256 : Bytes → Bytes) where
  -- The file has the entries, the index points at some of them, the first one included, and the
  -- filter has their keys.
  pub record Holds (d : Dict Bytes) (r : SstReader) : Type 0 where
    pub rows : List (Bytes × ℕ)
    pub rest : Bytes
    pub content : r.file ≡ header ++ (block d ++ rest)
    pub limit : r.index_offset ≡ 5 + length (block d)
    pub fits : AllFit d
    pub keys : r.index_keys ≡ keys_of rows
    pub offsets : r.index_offsets ≡ offsets_of rows
    pub points : All (λ (row : Bytes × ℕ). Points d row.0 row.1) rows
    pub starts : StartsAt rows
    pub counted : r.entry_count ≡ length d
    pub filter : IsFilter r.bloom
    pub members : All (λ (e : Bytes × Bytes). Bloom.contains sha256 r.bloom e.0 ≡ some true) d
    pub least : some r.min_key ≡ head_key d
    pub greatest : some r.max_key ≡ last_key d

module _ (sha256 : Bytes → Bytes) (z : Sizing) where
  -- A new file of the entries, and its reader. Opening a file that is not there raises.
  unfoldable pub build : Dict Bytes → Option SstReader
  build d = do
    w ← write_entries sha256 (open_writer z index_interval) d
    finished ← finish w
    file ← finished
    open_reader file

  cons-ne-nil : (e : Bytes × Bytes) (d : Dict Bytes) → e ∷ d ≡ [] → ⊥
  cons-ne-nil e d h = cc

  some_head :
      (o : Option Bytes) (e : Bytes × Bytes) (d : Dict Bytes)
      → o ≡ head_key (e ∷ d)
      → some (or_empty o) ≡ head_key (e ∷ d)
  some_head o (k, v) d h = rw h

  some_last :
      (o : Option Bytes) (e : Bytes × Bytes) (d : Dict Bytes)
      → o ≡ last_key (e ∷ d)
      → some (or_empty o) ≡ last_key (e ∷ d)
  some_last o (k, v) [] h = rw h
  some_last o e (f ∷ d) h = some_last o f d h

  opened-Holds :
      (e : Bytes × Bytes) (d : Dict Bytes) (w : SstWriter) (file : Bytes)
      → Written sha256 (e ∷ d) w
      → (p : Parts w file) → (r : SstReader) × (open_reader file ≡ some r) × Holds sha256 (e ∷ d) r
  unfolding opened
  opened-Holds e d w file h p =
      let (s, bloom, to, from, good, same) =
        contains-from_bytes sha256 w.bloom h.filter (to_bytes-Fits w.bloom p.filters) in
      let both : s ≡ p.bloom = some_injective (sym to ∙ p.filters) in
      (
        opened w file bloom,
        open_reader-opened p bloom
            (subst (λ (b : Bytes). Bloom.from_bytes b ≡ some bloom) both from),
        record {
          rows = w.index_entries;
          rest = p.index ++ (p.bloom ++ (p.foot ++ (p.trailer ++ trailer_magic)));
          content =
              sym p.whole
              ∙ ap
                  (λ (l : Bytes).
                    l ++ (p.index ++ (p.bloom ++ (p.foot ++ (p.trailer ++ trailer_magic)))))
                  h.content
              ∙ append_assoc header (block (e ∷ d)) _;
          limit = ap length h.content ∙ length-append header (block (e ∷ d));
          fits = h.fits;
          keys = refl;
          offsets = refl;
          points = h.rows;
          starts = elim h.starts [ inl (bad, _) ↦ absurd (cons-ne-nil e d bad) | inr s ↦ s ];
          counted = h.counted;
          filter = good;
          members =
              All_mono (λ (x : Bytes × Bytes). Bloom.contains sha256 w.bloom x.0 ≡ some true)
                (λ (x : Bytes × Bytes). Bloom.contains sha256 bloom x.0 ≡ some true)
                (λ x on. same x.0 ∙ on) (e ∷ d) h.members;
          least = some_head w.min_key e d h.min_key;
          greatest = some_last w.max_key e d h.max_key;
        },
      )

  pub build-Holds :
      (d : Dict Bytes) {r : SstReader} → 0 < z.bit_count → build d ≡ some r → Holds sha256 d r
  unfolding build write_entries open_writer finish
  build-Holds [] {r} h e = absurd (none-ne-some {a = r} e)
  build-Holds (x ∷ d) {r} h e =
      let (w, written, e1) =
        >>=-eq-some (write_entries sha256 (open_writer z index_interval) (x ∷ d)) _ e in
      let (finished, fin, e2) = >>=-eq-some (finish w) _ e1 in
      let (file, has, e3) = >>=-eq-some finished _ e2 in
      let wr =
        write_entries-Written sha256 [] (x ∷ d) (open_writer z index_interval)
          (open_writer-Written sha256 z index_interval h) written in
      let (r', op, holds) = opened-Holds x d w file wr (finish-Parts w (fin ∙ ap some has)) in
      let same : r' ≡ r = some_injective (sym op ∙ e3) in rw (← same) holds
