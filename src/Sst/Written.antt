-- ===== src/Sst/Written.antt =====
-- What a writer holds after some entries.
use zenith_db.Prelude.{
  ℕ, ◌+◌, ◌%◌, ◌==◌, ◌<◌, ◌≡◌, refl, sym, ap, ◌∙◌, true, Option, none, some, List, [], ◌∷◌, ◌++◌,
  ◌⊎◌, inl, inr, arith, Bool-cases, Option-cases, ltb, length, All, All-append, All_mono,
  length-append, append_assoc, append-nil,
}
use zenith_db.Bytes.{Bytes}
use zenith_db.Bytes.Pack.{pack, layout, Fits, pack-Fits, pack-layout}
use zenith_db.Dict.{Dict}
use zenith_db.Bloom
use zenith_db.Bloom.Members.{IsFilter, contains-add, make-IsFilter}
use zenith_db.Sst.Writer.{
  magic, version, Sizing, SstWriter, open_writer, first_key, frame_format, add_row, write_entry,
  write_entries,
}
use zenith_db.Sst.Blocks.{AllFit, block, block-append, sizes}
use zenith_db.Sst.Index.{Points, StartsAt}

abbrev pub header : Bytes
header = magic ++ version ∷ []

abbrev pub head_key : Dict Bytes → Option Bytes
head_key [] = none
head_key ((k, v) ∷ d) = some k

abbrev pub last_key : Dict Bytes → Option Bytes
last_key [] = none
last_key ((k, v) ∷ []) = some k
last_key (e ∷ (f ∷ d)) = last_key (f ∷ d)

last_key-snoc : (d : Dict Bytes) (k v : Bytes) → last_key (d ++ (k, v) ∷ []) ≡ some k
last_key-snoc [] k v = refl
last_key-snoc (e ∷ []) k v = refl
last_key-snoc (e ∷ (f ∷ d)) k v = last_key-snoc (f ∷ d) k v

head_key-snoc :
    (d : Dict Bytes) (k v : Bytes) → head_key (d ++ (k, v) ∷ []) ≡ first_key (head_key d) k
head_key-snoc [] k v = refl
head_key-snoc (e ∷ d) k v = refl

AllFit-append : (d e : Dict Bytes) → AllFit d → AllFit e → AllFit (d ++ e)
AllFit-append [] e h g = g
AllFit-append (x ∷ d) e (f, h) g = (f, AllFit-append d e h g)

module _ (sha256 : Bytes → Bytes) where
  pub record Written (d : Dict Bytes) (w : SstWriter) : Type 0 where
    pub content : w.file ≡ header ++ block d
    pub counted : w.entry_count ≡ length d
    pub fits : AllFit d
    pub rows : All (λ (row : Bytes × ℕ). Points d row.0 row.1) w.index_entries
    pub starts : ((d ≡ []) × (w.index_entries ≡ [])) ⊎ StartsAt w.index_entries
    pub filter : IsFilter w.bloom
    pub members : All (λ (e : Bytes × Bytes). Bloom.contains sha256 w.bloom e.0 ≡ some true) d
    pub min_key : w.min_key ≡ head_key d
    pub max_key : w.max_key ≡ last_key d

  pub open_writer-Written :
      (z : Sizing) (interval : ℕ) → 0 < z.bit_count → Written [] (open_writer z interval)
  unfolding open_writer block
  open_writer-Written z interval h = record {
    content = refl;
    counted = refl;
    fits = tt;
    rows = tt;
    starts = inl (refl, refl);
    filter = make-IsFilter 10000 z.error_rate z.bit_count z.hash_count h;
    members = tt;
    min_key = refl;
    max_key = refl;
  }

  -- The row of an entry that is written at the end of the block.
  new_row :
      (d : Dict Bytes) (k v : Bytes) (off : ℕ)
      → off ≡ 5 + length (block d)
      → Points (d ++ (k, v) ∷ []) k off
  new_row d k v off e = record { before = d; value = v; after = []; splits = refl; offset = e }

  old_rows :
      (d : Dict Bytes) (x : Bytes × Bytes) (rows : List (Bytes × ℕ))
      → All (λ (row : Bytes × ℕ). Points d row.0 row.1) rows
      → All (λ (row : Bytes × ℕ). Points (d ++ x ∷ []) row.0 row.1) rows
  old_rows d x [] h = tt
  old_rows d x ((k, off) ∷ rows) (p, h) = (
    record {
      before = p.before;
      value = p.value;
      after = p.after ++ x ∷ [];
      splits = ap (λ (l : Dict Bytes). l ++ x ∷ []) p.splits ∙ append_assoc p.before _ _;
      offset = p.offset;
    },
    old_rows d x rows h,
  )

  StartsAt-append : (rows more : List (Bytes × ℕ)) → StartsAt rows → StartsAt (rows ++ more)
  unfolding StartsAt
  StartsAt-append [] more h = absurd h
  StartsAt-append (r ∷ rows) more h = h

  module _ {d : Dict Bytes} {w : SstWriter} (h : Written d w) (k v : Bytes) where
    length-file : length w.file ≡ 5 + length (block d)
    length-file = ap length h.content ∙ length-append header (block d)

    add_row-Points : All (λ (row : Bytes × ℕ). Points (d ++ (k, v) ∷ []) row.0 row.1) (add_row w k)
    unfolding add_row
    add_row-Points =
        let old = old_rows d (k, v) w.index_entries h.rows in
        elim (Bool-cases (w.entry_count % w.index_interval == 0)) [
          | inl row ↦ rw row (
              All-append (λ (row : Bytes × ℕ). Points (d ++ (k, v) ∷ []) row.0 row.1)
                w.index_entries ((k, length w.file) ∷ []) old
                (new_row d k v (length w.file) length-file, tt))
          | inr none_here ↦ rw none_here old
        ]

    add_row-StartsAt : StartsAt (add_row w k)
    unfolding add_row StartsAt block
    add_row-StartsAt = elim h.starts [
      | inl (e, f) ↦
          let z : w.entry_count ≡ 0 = h.counted ∙ ap length e in
          let m : (0 % w.index_interval == 0) ≡ true = grind arith in
          let at : length w.file ≡ 5 =
            length-file ∙ ap (λ (l : Dict Bytes). 5 + length (block l)) e in
          rw (z, m, f) at
      | inr s ↦ elim (Bool-cases (w.entry_count % w.index_interval == 0)) [
        | inl row ↦ rw row (StartsAt-append w.index_entries ((k, length w.file) ∷ []) s)
        | inr none_here ↦ rw none_here s
      ]
    ]

    -- The writer behind an entry whose sizes fit, with the filter that has its key.
    after : Bloom.BloomFilter → SstWriter
    after bloom = record w {
      file = w.file ++ (layout frame_format (sizes k v) ++ (k ++ v));
      entry_count = w.entry_count + 1;
      index_entries = add_row w k;
      bloom = bloom;
      min_key = first_key w.min_key k;
      max_key = some k;
    }

    after-Written :
        (bloom : Bloom.BloomFilter)
        → Fits frame_format (sizes k v)
        → IsFilter bloom
        → Bloom.contains sha256 bloom k ≡ some true
        → ((other : Bytes)
            → Bloom.contains sha256 w.bloom other ≡ some true
            → Bloom.contains sha256 bloom other ≡ some true)
        → Written (d ++ (k, v) ∷ []) (after bloom)
    unfolding after block
    after-Written bloom fits good on keep = record {
      content =
          rw (h.content, block-append d ((k, v) ∷ []), append-nil)
            (append_assoc header (block d) (layout frame_format (sizes k v) ++ (k ++ v)));
      counted = omega (arith, h.counted, length-append d ((k, v) ∷ []));
      fits = AllFit-append d ((k, v) ∷ []) h.fits (fits, tt);
      rows = add_row-Points;
      starts = inr add_row-StartsAt;
      filter = good;
      members =
          All-append (λ (e : Bytes × Bytes). Bloom.contains sha256 bloom e.0 ≡ some true) d
            ((k, v) ∷ [])
            (All_mono (λ (e : Bytes × Bytes). Bloom.contains sha256 w.bloom e.0 ≡ some true)
              (λ (e : Bytes × Bytes). Bloom.contains sha256 bloom e.0 ≡ some true) (λ e. keep e.0) d
              h.members)
            (on, tt);
      min_key = ap (λ (o : Option Bytes). first_key o k) h.min_key ∙ sym (head_key-snoc d k v);
      max_key = sym (last_key-snoc d k v);
    }

    write_entry-Written :
        {w' : SstWriter} → write_entry sha256 w k v ≡ some w' → Written (d ++ (k, v) ∷ []) w'
    unfolding write_entry after
    write_entry-Written {w'} e = elim (Bool-cases (ltb 65535 (length k))) [
      | inl long ↦ let q : ◌≡◌ {A = Option SstWriter} none (some w') = rw long at e in cc
      | inr short ↦
          let (bloom, added, good, on, keep) = contains-add sha256 w.bloom k h.filter in
          elim (Option-cases (pack frame_format (sizes k v))) [
            | inl bad ↦
                let q : ◌≡◌ {A = Option SstWriter} none (some w') = rw (short, added, bad) at e in
                cc
            | inr (hdr, ok) ↦
                let fits = pack-Fits frame_format (sizes k v) ok in
                let q : ◌≡◌ {A = Option SstWriter} (some (after bloom)) (some w') =
                  rw (short, added, pack-layout frame_format (sizes k v) fits) at e in
                let same : after bloom ≡ w' = cc in
                rw (← same) (after-Written bloom fits good on keep)
          ]
    ]

  pub write_entries-Written :
      (d e : Dict Bytes) (w : SstWriter) {w' : SstWriter}
      → Written d w
      → write_entries sha256 w e ≡ some w'
      → Written (d ++ e) w'
  unfolding write_entries
  write_entries-Written d [] w {w'} h ok = let same : w ≡ w' = cc in rw (append-nil, ← same) h
  write_entries-Written d ((k, v) ∷ e) w {w'} h ok =
      elim (Option-cases (write_entry sha256 w k v)) [
        | inl bad ↦ let q : ◌≡◌ {A = Option SstWriter} none (some w') = rw bad at ok in cc
        | inr (w1, one) ↦
            let h1 = write_entry-Written h k v one in
            rw (← append_assoc d ((k, v) ∷ []) e)
              (write_entries-Written (d ++ (k, v) ∷ []) e w1 h1 (rw one at ok))
      ]
