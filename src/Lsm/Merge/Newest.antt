-- ===== src/Lsm/Merge/Newest.antt =====
-- What a merge keeps: for each key the value of the newest stream, unless that is the tombstone.
use mathlib.Core.Path.{subst}
use zenith_db.Prelude.{
  ℕ, zero, suc, ◌≤◌, ◌≡◌, refl, sym, ap, ◌∙◌, true, false, Option, none, some, [], ◌∷◌, arith, inl,
  inr, Bool-cases, Option-cases, if◌then◌else◌,
}
use zenith_db.Bytes.{Bytes, bytes_eq, bytes_lt}
use zenith_db.Bytes.Order.{bytes_eq→eq, bytes_eq_refl, bytes_lt_connex}
use zenith_db.Dict.{Dict, lookup, Above, IsSorted}
use zenith_db.Dict.Sorted.{lookup-Above, Above-trans}
use zenith_db.Lsm.MemTable.{tombstone}
use zenith_db.Lsm.Merge.{Streams, Popped, pop, same_key, merge_loop, total, merge}
use zenith_db.Lsm.Merge.Pop.{newest, AllSorted, From, AllFrom, pop-none, PopOk, pop-PopOk}

-- A value as a reader sees it: the tombstone is no value.
unfoldable pub live : Option Bytes → Option Bytes
live none = none
live (some v) = if bytes_eq v tombstone then none else some v

-- The keys that a later round may still write.
abbrev Later : Option Bytes → Bytes → Type 0
Later none k = Unit
Later (some last) k = bytes_lt last k ≡ true

abbrev AllAfter : Option Bytes → Dict Bytes → Type 0
AllAfter none d = Unit
AllAfter (some last) d = Above last d

-- The streams go on from the last key.
abbrev GoesOn : Option Bytes → Streams → Type 0
GoesOn none ss = Unit
GoesOn (some last) ss = AllFrom last ss

-- What the loop writes: ascending keys behind the last one, each with its newest value.
record Merged (last : Option Bytes) (ss : Streams) (out : Dict Bytes) : Type 0 where
  sorted : IsSorted out
  after : AllAfter last out
  values : (j : Bytes) → same_key last j ≡ false → lookup j out ≡ live (newest j ss)

From-lookup :
    (l k : Bytes) (d : Dict Bytes) {v : Bytes}
    → From l d
    → lookup k d ≡ some v
    → bytes_lt k l ≡ false
unfolding lookup
From-lookup l k [] f e = cc
From-lookup l k ((j, w) ∷ d) {v} (p, f) e = elim (Bool-cases (bytes_eq j k)) [
  | inl same ↦ rw (← bytes_eq→eq j k same) p
  | inr other ↦ From-lookup l k d f (rw other at e)
]

AllFrom-newest :
    (l k : Bytes) (ss : Streams) {v : Bytes}
    → AllFrom l ss
    → newest k ss ≡ some v
    → bytes_lt k l ≡ false
unfolding newest
AllFrom-newest l k [] f e = cc
AllFrom-newest l k (s ∷ ss) {v} (p, f) e = elim (Option-cases (lookup k s)) [
  | inl n ↦ AllFrom-newest l k ss f (rw (n, newest) at e)
  | inr (u, n) ↦ From-lookup l k s p n
]

Later-of_from :
    (last : Option Bytes) (ss : Streams) (p : Popped)
    → GoesOn last ss
    → PopOk ss p
    → same_key last p.key ≡ false
    → Later last p.key
unfolding same_key
Later-of_from none ss p g w h = tt
Later-of_from (some l) ss p g w h = elim (Bool-cases (bytes_lt l p.key)) [
  | inl e ↦ e
  | inr e ↦
      let same = bytes_lt_connex l p.key e (AllFrom-newest l p.key ss g w.found) in
      let eq : bytes_eq l p.key ≡ true = rw same (bytes_eq_refl p.key) in cc
]

AllAfter-trans :
    (last : Option Bytes) (k : Bytes) (d : Dict Bytes) → Later last k → Above k d → AllAfter last d
AllAfter-trans none k d h a = tt
AllAfter-trans (some l) k d h a = Above-trans l k d h a

AllAfter-cons :
    (last : Option Bytes) (k v : Bytes) (d : Dict Bytes)
    → Later last k
    → AllAfter last d
    → AllAfter last ((k, v) ∷ d)
AllAfter-cons none k v d h a = tt
AllAfter-cons (some l) k v d h a = (h, a)

-- No stream is left.
done-Merged : (last : Option Bytes) (ss : Streams) → pop ss ≡ none → Merged last ss []
unfolding lookup live
done-Merged none ss n = record {
  sorted = tt;
  after = tt;
  values = λ j ne. sym (ap live ((pop-none ss n).0 j));
}
done-Merged (some l) ss n = record {
  sorted = tt;
  after = tt;
  values = λ j ne. sym (ap live ((pop-none ss n).0 j));
}

-- A round whose key was just written or dropped.
skip-Merged :
    (last : Option Bytes) (ss : Streams) (p : Popped) (out : Dict Bytes)
    → PopOk ss p
    → same_key last p.key ≡ true
    → Merged last p.rest out
    → Merged last ss out
unfolding same_key
skip-Merged none ss p out w h m = cc
skip-Merged (some l) ss p out w h m = record {
  sorted = m.sorted;
  after = m.after;
  values = λ j ne.
      m.values j ne
      ∙ ap live
          (w.others j (subst (λ (k : Bytes). bytes_eq k j ≡ false) (bytes_eq→eq l p.key h) ne));
}

skip-GoesOn :
    (last : Option Bytes) (ss : Streams) (p : Popped)
    → PopOk ss p
    → same_key last p.key ≡ true
    → GoesOn last p.rest
unfolding same_key
skip-GoesOn none ss p w h = tt
skip-GoesOn (some l) ss p w h =
    subst (λ (k : Bytes). AllFrom k p.rest) (sym (bytes_eq→eq l p.key h)) w.onward

-- A round that drops a tombstone.
drop-Merged :
    (last : Option Bytes) (ss : Streams) (p : Popped) (out : Dict Bytes)
    → PopOk ss p
    → Later last p.key
    → bytes_eq p.value tombstone ≡ true
    → Merged (some p.key) p.rest out
    → Merged last ss out
unfolding same_key live
drop-Merged last ss p out w later t m = record {
  sorted = m.sorted;
  after = AllAfter-trans last p.key out later m.after;
  values = λ j ne. elim (Bool-cases (bytes_eq p.key j)) [
    | inl same ↦
        subst (λ (k : Bytes). lookup k out ≡ live (newest k ss)) (bytes_eq→eq p.key j same)
          (lookup-Above p.key out m.after ∙ sym (ap live w.found ∙ rw t))
    | inr other ↦ m.values j other ∙ ap live (w.others j other)
  ];
}

-- A round that writes an entry.
write-Merged :
    (last : Option Bytes) (ss : Streams) (p : Popped) (out : Dict Bytes)
    → PopOk ss p
    → Later last p.key
    → bytes_eq p.value tombstone ≡ false
    → Merged (some p.key) p.rest out
    → Merged last ss ((p.key, p.value) ∷ out)
unfolding same_key live lookup
write-Merged last ss p out w later t m = record {
  sorted = (m.after, m.sorted);
  after = AllAfter-cons last p.key p.value out later (AllAfter-trans last p.key out later m.after);
  values = λ j ne. elim (Bool-cases (bytes_eq p.key j)) [
    | inl same ↦ rw same (
        sym (
          ap live (ap (λ (k : Bytes). newest k ss) (sym (bytes_eq→eq p.key j same)) ∙ w.found)
          ∙ rw t))
    | inr other ↦ rw other (m.values j other ∙ ap live (w.others j other))
  ];
}

merge_loop-Merged :
    (fuel : ℕ) (last : Option Bytes) (ss : Streams)
    → total ss ≤ fuel
    → AllSorted ss
    → GoesOn last ss
    → Merged last ss (merge_loop fuel last ss)
unfolding merge_loop lookup live
merge_loop-Merged zero last ss enough hs g = elim (Option-cases (pop ss)) [
  | inl n ↦ done-Merged last ss n
  | inr (p, n) ↦ let w = pop-PopOk ss p hs n in absurd (omega (arith, w.smaller))
]
merge_loop-Merged (suc fuel) last ss enough hs g = elim (Option-cases (pop ss)) [
  | inl n ↦ rw (n, merge_loop) (done-Merged last ss n)
  | inr (p, n) ↦
      let w = pop-PopOk ss p hs n in
      let small : total p.rest ≤ fuel = omega (arith, w.smaller) in
      elim (Bool-cases (same_key last p.key)) [
        | inl same ↦
            let ih =
              merge_loop-Merged fuel last p.rest small w.sorted (skip-GoesOn last ss p w same) in
            rw (n, merge_loop, same) (skip-Merged last ss p _ w same ih)
        | inr fresh ↦
            let ih = merge_loop-Merged fuel (some p.key) p.rest small w.sorted w.onward in
            let later = Later-of_from last ss p g w fresh in
            elim (Bool-cases (bytes_eq p.value tombstone)) [
              | inl gone ↦ rw (n, merge_loop, fresh, gone) (drop-Merged last ss p _ w later gone ih)
              | inr kept ↦
                  rw (n, merge_loop, fresh, kept) (write-Merged last ss p _ w later kept ih)
            ]
      ]
]

-- The merge of sorted streams, the newest first, is sorted, and has for each key the value of the
-- newest stream with that key, or nothing where that value is the tombstone.
pub lookup-merge :
    (ss : Streams)
    → AllSorted ss
    → IsSorted (merge ss) × ((j : Bytes) → lookup j (merge ss) ≡ live (newest j ss))
unfolding merge same_key
lookup-merge ss hs =
    let m = merge_loop-Merged (total ss) none ss (omega arith) hs tt in
    (m.sorted, λ j. m.values j refl)
