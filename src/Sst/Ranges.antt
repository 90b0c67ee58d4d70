-- ===== src/Sst/Ranges.antt =====
-- A scan from an entry on lists the entries in the range.
use zenith_db.Prelude.{
  ℕ, zero, suc, ◌≤◌, ◌≡◌, refl, sym, ap, ◌∙◌, Bool, true, false, not, ◌&&◌, Option, none, some, [],
  ◌∷◌, arith, inl, inr, Bool-cases, length, le→ltb, lt→ltb,
}
use zenith_db.Bytes.{Bytes, bytes_lt}
use zenith_db.Bytes.Order.{bytes_lt_trans}
use zenith_db.Dict.{Dict, filter, IsSorted, Above}
use zenith_db.Lsm.Tables.{not_below, not_above, in_range, ranged}
use zenith_db.Sst.Reader.{starts_above, ends_below, scan_from}
use zenith_db.Sst.Blocks.{At, block, read_entry-At, next_pos}

not_below_lem : (start : Option Bytes) (k : Bytes) → not_below start k ≡ not (starts_above start k)
not_below_lem none k = refl
not_below_lem (some start) k = refl

not_above_lem : (end : Option Bytes) (k : Bytes) → not_above end k ≡ not (ends_below end k)
not_above_lem none k = refl
not_above_lem (some end) k = refl

ends_below_later :
    (end : Option Bytes) (k j : Bytes)
    → ends_below end k ≡ true
    → bytes_lt k j ≡ true
    → ends_below end j ≡ true
ends_below_later none k j h l = cc
ends_below_later (some end) k j h l = bytes_lt_trans end k j h l

-- Behind the end of the range there is nothing of it.
pub ranged_behind :
    (start end : Option Bytes) (k : Bytes) (d : Dict Bytes)
    → ends_below end k ≡ true
    → Above k d
    → ranged start end d ≡ []
unfolding filter
ranged_behind start end k [] h a = refl
ranged_behind start end k ((j, v) ∷ d) h (l, a) =
    let out : in_range start end j ≡ false =
      rw (not_above_lem end j, ends_below_later end k j h l) (and_false (not_below start j)) in
    rw out (ranged_behind start end k d h a)
  where
    and_false : (b : Bool) → (b && false) ≡ false
    and_false b = ground arith

-- The entries before the start of the range are not in it.
pub ranged_before :
    (start end : Option Bytes) (k v : Bytes) (d : Dict Bytes)
    → starts_above start k ≡ true
    → ranged start end ((k, v) ∷ d) ≡ ranged start end d
unfolding filter
ranged_before start end k v d h =
    let out : in_range start end k ≡ false = rw (not_below_lem start k, h) refl in rw out

pub ranged_end :
    (start end : Option Bytes) (k v : Bytes) (d : Dict Bytes)
    → ends_below end k ≡ true
    → Above k d
    → ranged start end ((k, v) ∷ d) ≡ []
unfolding filter
ranged_end start end k v d h a =
    let out : in_range start end k ≡ false = rw (not_above_lem end k, h) (ground arith) in
    rw out (ranged_behind start end k d h a)

ranged_in :
    (start end : Option Bytes) (k v : Bytes) (d : Dict Bytes)
    → starts_above start k ≡ false
    → ends_below end k ≡ false
    → ranged start end ((k, v) ∷ d) ≡ (k, v) ∷ ranged start end d
unfolding filter
ranged_in start end k v d h g =
    let inside : in_range start end k ≡ true =
      rw (not_below_lem start k, h, not_above_lem end k, g) refl in
    rw inside

pub scan_from-ranged :
    (file : Bytes) (limit n : ℕ) (start end : Option Bytes) (pos : ℕ) (d : Dict Bytes)
    → At file limit pos d
    → IsSorted d
    → length d ≤ n
    → scan_from n file limit start end pos ≡ ranged start end d
unfolding scan_from block filter
scan_from-ranged file limit zero start end pos [] w s h = refl
scan_from-ranged file limit zero start end pos (e ∷ d) w s h = absurd (omega arith)
scan_from-ranged file limit (suc n) start end pos [] w s h =
    rw (le→ltb pos limit (omega (arith, w.ends)))
scan_from-ranged file limit (suc n) start end pos ((k, v) ∷ d) w (above, s) h =
    let (read, w', lt) = read_entry-At file limit pos k v d w in
    let ih =
      scan_from-ranged file limit n start end (next_pos file limit pos k v) d w' s (omega arith) in
    rw (lt→ltb pos limit lt, read, scan_from)
      (elim (Bool-cases (starts_above start k)) [
        | inl before ↦ rw before (ih ∙ sym (ranged_before start end k v d before))
        | inr not_before ↦ elim (Bool-cases (ends_below end k)) [
          | inl past ↦ rw (not_before, past) (sym (ranged_end start end k v d past above))
          | inr inside ↦
              rw (not_before, inside)
                (ap (λ (l : Dict Bytes). (k, v) ∷ l) ih
                  ∙ sym (ranged_in start end k v d not_before inside))
        ]
      ])
