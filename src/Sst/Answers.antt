-- ===== src/Sst/Answers.antt =====
-- What a reader answers.
use zenith_db.Prelude.{
  ℕ, ◌+◌, ◌==◌, ◌≡◌, refl, sym, ap, ◌∙◌, true, false, Option, none, some, List, [], ◌∷◌, inl, inr,
  arith, Bool-cases, Option-cases, some_injective, none-ne-some, length,
}
use zenith_db.Bytes.{Bytes, bytes_eq, bytes_lt}
use zenith_db.Dict.{Dict, lookup, IsSorted}
use zenith_db.Dict.Sorted.{Above-trans, lookup-Above}
use zenith_db.Bloom
use zenith_db.Bloom.{BloomFilter}
use zenith_db.Bloom.Members.{contains-total}
use zenith_db.Lsm.Tables.{IsNamed, ranged}
use zenith_db.Sst.Reader.{
  SstReader, keys_of, offsets_of, open_reader, start_offset, find_from, starts_above, ends_below,
  scan_from, scan_offset,
}
use zenith_db.Sst.Reader
use zenith_db.Sst.Blocks.{At, block, find_from-lookup}
use zenith_db.Sst.Ranges.{ranged_end, scan_from-ranged}
use zenith_db.Sst.Index.{
  StartsAt, Start, start_offset-Start, lookup-Start, ranged-Start, entries-IsSorted, entries-le,
  At-Start,
}
use zenith_db.Sst.Written.{header, head_key}
use zenith_db.Sst.Bounds.{lookup-above_last, ranged-above_last, All-lookup}
use zenith_db.Sst.Held.{Holds}

module _ (sha256 : Bytes → Bytes) where
  module _ {d : Dict Bytes} {r : SstReader} (h : Holds sha256 d r) (s : IsSorted d) where
    below_least : (key : Bytes) → bytes_lt key r.min_key ≡ true → lookup key d ≡ none
    below_least key l = of_head d s h.least
      where
        of_head : (d : Dict Bytes) → IsSorted d → some r.min_key ≡ head_key d → lookup key d ≡ none
        of_head [] s e = absurd (none-ne-some (sym e))
        of_head ((k, v) ∷ d) (a, s) e =
            let lt : bytes_lt key k ≡ true = rw (← some_injective e) l in
            lookup-Above key ((k, v) ∷ d) (lt, Above-trans key k d lt a)

    not_a_member :
        (key : Bytes) → Bloom.contains sha256 r.bloom key ≡ some false → lookup key d ≡ none
    not_a_member key out = elim (Option-cases (lookup key d)) [
      | inl e ↦ e
      | inr (v, e) ↦
          let yes' =
            All-lookup (λ k. Bloom.contains sha256 r.bloom k ≡ some true) key d h.members e in
          let clash : false ≡ true = some_injective (sym out ∙ yes') in cc
    ]

    least_named : IsNamed d → (length r.min_key == 0) ≡ false
    unfolding lookup bytes_eq
    least_named n = of_head d n h.least
      where
        of_head :
            (d : Dict Bytes)
            → IsNamed d
            → some r.min_key ≡ head_key d
            → (length r.min_key == 0) ≡ false
        of_head [] n e = absurd (none-ne-some (sym e))
        of_head (([], v) ∷ d) n e = absurd (none-ne-some (sym n))
        of_head ((b ∷ k, v) ∷ d) n e = rw (some_injective e) (ground arith)

    rows_there : (length r.index_keys == 0) ≡ false
    unfolding StartsAt
    rows_there = rw h.keys (of_rows h.rows h.starts)
      where
        of_rows : (rows : List (Bytes × ℕ)) → StartsAt rows → (length (keys_of rows) == 0) ≡ false
        of_rows [] s = absurd s
        of_rows ((k, off) ∷ rows) s = ground arith

    module _ {key : Bytes} {off : ℕ} (w : Start d key off) where
      At-start : At r.file r.index_offset off w.entries
      At-start = At-Start w r.file header h.rest r.index_offset refl h.content h.limit h.fits

      found : find_from (r.index_offset + 1) r.file r.index_offset key off ≡ lookup key d
      found =
          find_from-lookup r.file r.index_offset (r.index_offset + 1) key off w.entries At-start
            (entries-IsSorted w s) (omega arith)
          ∙ sym (lookup-Start w)

      scanned :
          (start end : Option Bytes)
          → scan_from r.entry_count r.file r.index_offset start end off ≡ ranged start end w.entries
      scanned start end =
          scan_from-ranged r.file r.index_offset r.entry_count start end off w.entries At-start
            (entries-IsSorted w s) (omega (arith, h.counted, entries-le w))

    pub get-Holds : IsNamed d → (key : Bytes) → Reader.get sha256 r key ≡ some (lookup key d)
    unfolding Reader.get
    get-Holds n key =
        let named = least_named n in
        elim (Bool-cases (bytes_lt key r.min_key)) [
          | inl low ↦ rw (named, low, below_least key low)
          | inr from_least ↦ elim (Bool-cases (bytes_lt r.max_key key)) [
            | inl high ↦
                rw (
                  named,
                  from_least,
                  high,
                  lookup-above_last key r.max_key d s (sym h.greatest) high,
                )
            | inr to_greatest ↦
                let (b, test) = contains-total sha256 r.bloom key h.filter in
                elim (Bool-cases b) [
                  | inr out ↦ rw (
                    named,
                    from_least,
                    to_greatest,
                    test,
                    out,
                    not_a_member key (test ∙ ap some out),
                  )
                  | inl on ↦
                      let (off, at, w) =
                        start_offset-Start r key d h.rows h.keys h.offsets s h.starts h.points in
                      rw (named, from_least, to_greatest, test, on, rows_there, at, found w)
                ]
          ]
        ]

    entries_there : (r.entry_count == 0) ≡ false
    entries_there = of_head d h.counted h.least
      where
        of_head :
            (d : Dict Bytes)
            → r.entry_count ≡ length d
            → some r.min_key ≡ head_key d
            → (r.entry_count == 0) ≡ false
        of_head [] c e = absurd (none-ne-some (sym e))
        of_head (x ∷ d) c e = rw c (ground arith)

    below_end :
        (start end : Option Bytes) → ends_below end r.min_key ≡ true → ranged start end d ≡ []
    below_end start end l = of_head d s h.least
      where
        of_head :
            (d : Dict Bytes) → IsSorted d → some r.min_key ≡ head_key d → ranged start end d ≡ []
        of_head [] s e = absurd (none-ne-some (sym e))
        of_head ((k, v) ∷ d) (a, s) e = ranged_end start end k v d (rw (← some_injective e) l) a

    scan_offset-Start :
        (start end : Option Bytes)
        → (off : ℕ) × (scan_offset r start ≡ some off)
          × (scan_from r.entry_count r.file r.index_offset start end off ≡ ranged start end d)
    unfolding scan_offset block
    scan_offset-Start none end =
        let w : Start d [] 5 = record {
          before = [];
          entries = d;
          splits = refl;
          offset = refl;
          passed = tt;
        } in
        (5, refl, scanned w none end)
    scan_offset-Start (some key) end =
        let (off, at, w) = start_offset-Start r key d h.rows h.keys h.offsets s h.starts h.points in
        (off, rw rows_there at, scanned w (some key) end ∙ sym (ranged-Start w end))

    pub scan-Holds :
        (start end : Option Bytes) → Reader.scan r start end ≡ some (ranged start end d)
    unfolding Reader.scan
    scan-Holds start end = elim (Bool-cases (starts_above start r.max_key)) [
      | inl high ↦
          rw (entries_there, high, ranged-above_last start end r.max_key d s (sym h.greatest) high)
      | inr within ↦ elim (Bool-cases (ends_below end r.min_key)) [
        | inl low ↦ rw (entries_there, within, low, below_end start end low)
        | inr meets ↦
            let (off, at, all) = scan_offset-Start start end in
            rw (entries_there, within, meets, at, all)
      ]
    ]
