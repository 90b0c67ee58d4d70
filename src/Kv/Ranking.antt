-- ===== src/Kv/Ranking.antt =====
-- What zrange lists of a sorted set, in a store that scans well.
use mathlib.Core.Path.{subst}
use zenith_db.Prelude.{
  ℕ, suc, ◌≡◌, refl, sym, ap, ◌∙◌, Bool, false, Option, none, some, [], ◌∷◌, if◌then◌else◌, length,
  take, take_all, arith, inl, inr, Bool-cases,
}
use zenith_db.Bytes.{Bytes, bytes_eq}
use zenith_db.Bytes.Order.{bytes_eq→eq, bytes_eq_refl}
use zenith_db.Dict.{Dict, lookup, IsDict}
use zenith_db.Python.Int.{ℤ, pos, negsuc, neg, ◌+ℤ◌, ◌-ℤ◌, ltb_ℤ, to_ℕ}
use zenith_db.Kv.{returned, StoreOps, StoreLaws, ScanLaws, Clock, >>=-eq}
use zenith_db.Kv.Keys.{Engine, is_expired, zset_prefix, with_prefix}
use zenith_db.Kv.Reads.{is_expired-lasting}
use zenith_db.Kv.Lists.{clamp_start, clamp_stop}
use zenith_db.Kv.Hashes.{named_from}
use zenith_db.Kv.Scans.{lookup-scan_named, scan_named-IsDict}
use zenith_db.Kv.SortedSets.{Floats, sort_items, scored, sliced, ranked, zrange_scores}
use zenith_db.Kv.Scores.{FloatLaws, Shows, HasScores}
use zenith_db.Kv.Ordering.{InOrder, sort_items-InOrder, sort_items-Sorts, length-sort_items}

module _ (floats : Floats) where
  sliced_whole :
      (k : ℕ) (items : Dict floats.Float)
      → length items ≡ suc k
      → sliced floats (pos 0) (pos k) items ≡ items
  unfolding ◌+ℤ◌ ◌-ℤ◌
  sliced_whole k items h =
      let size : to_ℕ (pos k +ℤ pos 1 -ℤ pos 0) ≡ suc k = ground arith in
      let inside : ltb_ℤ (pos k) (pos 0) ≡ false = ground arith in
      ap (λ (b : Bool). if b then [] else take (to_ℕ (pos k +ℤ pos 1 -ℤ pos 0)) items) inside
      ∙ ap (λ (i : ℕ). take i items) size
      ∙ take_all (suc k) items (omega arith)

  -- From 0 to -1, everything.
  sliced-all :
      (items : Dict floats.Float) (n : ℕ)
      → length items ≡ n
      → sliced floats (clamp_start (pos n) (pos 0)) (clamp_stop (pos n) (negsuc 0)) items ≡ items
  unfolding ◌+ℤ◌ ◌-ℤ◌
  sliced-all [] n h = rw (← h) refl
  sliced-all (x ∷ items) n h =
      let stop : clamp_stop (pos n) (negsuc 0) ≡ pos (length items) =
        last_index (length items) n h in
      ap (λ (i : ℤ). sliced floats (pos 0) i (x ∷ items)) stop
      ∙ sliced_whole (length items) (x ∷ items) refl
    where
      last_index : (k n : ℕ) → suc k ≡ n → clamp_stop (pos n) (negsuc 0) ≡ pos k
      last_index k n h = ground arith

  float_shown :
      (v : Bytes) (o : Option floats.Float)
      → Shows floats (some v) o
      → (x : floats.Float) × (floats.parse v ≡ some x) × (o ≡ some x)
  float_shown v (some x) s = (x, s, refl)
  float_shown v none s = absurd s

  Shows-rest :
      (k j v : Bytes) (d : Dict Bytes) (o : Option floats.Float)
      → lookup k d ≡ none
      → Shows floats (lookup j ((k, v) ∷ d)) o
      → Shows floats (lookup j d) (if bytes_eq k j then none else o)
  unfolding lookup
  Shows-rest k j v d o fresh s = elim (Bool-cases (bytes_eq k j)) [
    | inl same ↦
        let gone : lookup j d ≡ none =
          ap (λ (i : Bytes). lookup i d) (sym (bytes_eq→eq k j same)) ∙ fresh in
        rw (same, gone) tt
    | inr other ↦ rw other (rw other at s)
  ]

  -- What is read of entries that hold scores.
  record ReadScores (d : Dict Bytes) (f : Bytes → Option floats.Float) : Type 0 where
    items : Dict floats.Float
    returns : scored floats d ≡ some items
    once : IsDict items
    shows : (j : Bytes) → lookup j items ≡ f j

  scored-ReadScores :
      (d : Dict Bytes) (f : Bytes → Option floats.Float)
      → IsDict d
      → ((j : Bytes) → Shows floats (lookup j d) (f j))
      → ReadScores d f
  unfolding lookup scored
  scored-ReadScores [] f u s = record {
    items = [];
    returns = refl;
    once = tt;
    shows = λ j. nothing (f j) (s j);
  }
    where
      nothing : (o : Option floats.Float) → Shows floats none o → none ≡ o
      nothing none h = refl
      nothing (some x) h = absurd h
  scored-ReadScores ((k, v) ∷ d) f (fresh, u) s =
      let here : Shows floats (some v) (f k) = rw (bytes_eq_refl k) at (s k) in
      let (x, parsed, shown) = float_shown v (f k) here in
      let rest =
        scored-ReadScores d (λ j. if bytes_eq k j then none else f j) u
          (λ j. Shows-rest k j v d (f j) fresh (s j)) in
      record {
        items = (k, x) ∷ rest.items;
        returns = rw (parsed, rest.returns, scored) refl;
        once = (rest.shows k ∙ rw (bytes_eq_refl k) refl, rest.once);
        shows = λ j. elim (Bool-cases (bytes_eq k j)) [
          | inl same ↦ rw same (sym shown ∙ ap f (bytes_eq→eq k j same))
          | inr other ↦ rw other (rest.shows j ∙ rw other refl)
        ];
      }

  module _ (ops : StoreOps) (clock : Clock) (laws : StoreLaws ops) (scans : ScanLaws ops laws) where
    -- In a well-formed store that scans well, on a key without expiry that has the scores that `f`
    -- gives, zrange from 0 to -1 returns, changes nothing, and lists each member once, with its
    -- score and no other member, in ascending order of scores and of names where scores are equal.
    pub zrange-HasScores :
        (now : clock.Time) (key : Bytes) (f : Bytes → Option floats.Float) (e : Engine ops clock)
        → FloatLaws floats
        → HasScores floats ops clock laws key f e
        → (items : Dict floats.Float) × (zrange_scores floats ops clock now key
              (pos 0)
              (neg (pos 1))
              e
            ≡ returned items e)
          × InOrder floats items
          × IsDict items
          × ((m : Bytes) → lookup m items ≡ f m)
    unfolding zrange_scores ranked
    zrange-HasScores now key f e fl s =
        let p = zset_prefix key in
        let named = named_from p (with_prefix p (ops.scan e.lsm p)) in
        let found =
          scored-ReadScores named f (scan_named-IsDict ops laws scans e.lsm p s.good) (λ j.
            subst (λ (o : Option Bytes). Shows floats o (f j))
              (sym (lookup-scan_named ops laws scans e.lsm p j s.good)) (s.scores j)) in
        let sorts = sort_items-Sorts floats found.items found.once in
        (
          sort_items floats found.items,
          >>=-eq (is_expired ops clock now key) _ e e
                (is_expired-lasting ops clock now key e s.lasting)
              ∙ ap
                  (λ (o : Option (Dict floats.Float)).
                    ranked floats ops clock (pos 0) (neg (pos 1)) o e)
                  found.returns
              ∙ ap (λ (l : Dict floats.Float). returned l e)
                  (sliced-all (sort_items floats found.items) (length found.items)
                    (length-sort_items floats found.items)),
          sort_items-InOrder floats found.items fl,
          sorts.unique,
          λ m. sorts.reads m ∙ found.shows m,
        )
