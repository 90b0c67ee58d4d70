-- ===== src/Lsm/Merge/Pop.antt =====
-- What a round of the merge takes.
use mathlib.Core.Path.{subst}
use zenith_db.Prelude.{
  ◌+◌, ◌≡◌, refl, ap, true, false, Option, none, some, [], ◌∷◌, arith, inl, inr, Bool-cases,
  Option-cases,
}
use zenith_db.Bytes.{Bytes, bytes_eq, bytes_lt}
use zenith_db.Bytes.Order.{
  bytes_eq_refl, bytes_lt_trans, bytes_lt_irrefl, bytes_lt_asymm, bytes_lt_connex,
}
use zenith_db.Dict.{Dict, lookup, Above, IsSorted, or_else}
use zenith_db.Dict.Sorted.{lookup-Above, Above-trans}
use zenith_db.Lsm.Merge.{Streams, Popped, choose, pop, total}

-- The value of the newest stream that has the key.
unfoldable pub newest : Bytes → Streams → Option Bytes
newest k [] = none
newest k (s ∷ ss) = or_else (lookup k s) (newest k ss)

abbrev pub AllSorted : Streams → Type 0
AllSorted [] = Unit
AllSorted (s ∷ ss) = IsSorted s × AllSorted ss

-- No key is below `k`.
abbrev pub From : Bytes → Dict Bytes → Type 0
From k [] = Unit
From k ((j, v) ∷ d) = (bytes_lt j k ≡ false) × From k d

abbrev pub AllFrom : Bytes → Streams → Type 0
AllFrom k [] = Unit
AllFrom k (s ∷ ss) = From k s × AllFrom k ss

From-self : (k : Bytes) (d : Dict Bytes) → Above k d → From k d
From-self k [] a = tt
From-self k ((j, v) ∷ d) (p, a) = (bytes_lt_asymm k j p, From-self k d a)

not_lt_trans : (i k j : Bytes) → bytes_lt k i ≡ false → bytes_lt j k ≡ false → bytes_lt j i ≡ false
not_lt_trans i k j h l = elim (Bool-cases (bytes_lt j i)) [
  | inr e ↦ e
  | inl e ↦ elim (Bool-cases (bytes_lt i k)) [
    | inl ik ↦ let jk = bytes_lt_trans j i k e ik in cc
    | inr nik ↦
        let same = bytes_lt_connex i k nik h in let jk : bytes_lt j k ≡ true = rw (← same) e in cc
  ]
]

From-trans : (i k : Bytes) (d : Dict Bytes) → bytes_lt k i ≡ false → From k d → From i d
From-trans i k [] h f = tt
From-trans i k ((j, v) ∷ d) h (p, f) = (not_lt_trans i k j h p, From-trans i k d h f)

AllFrom-trans : (i k : Bytes) (ss : Streams) → bytes_lt k i ≡ false → AllFrom k ss → AllFrom i ss
AllFrom-trans i k [] h f = tt
AllFrom-trans i k (s ∷ ss) h (p, f) = (From-trans i k s h p, AllFrom-trans i k ss h f)

-- No round is left when every stream is used up.
pub pop-none :
    (ss : Streams)
    → pop ss ≡ none
    → ((j : Bytes) → newest j ss ≡ none) × ((k : Bytes) → AllFrom k ss) × (total ss ≡ 0)
unfolding pop newest lookup total
pop-none [] h = (λ j. refl, λ k. tt, refl)
pop-none ([] ∷ ss) h = let (a, b, c) = pop-none ss h in (a, λ k. (tt, b k), omega (arith, c))
pop-none (((k, v) ∷ es) ∷ ss) h = cc

-- A round takes the newest value of the least key, and changes no other key.
pub record PopOk (ss : Streams) (p : Popped) : Type 0 where
  pub sorted : AllSorted p.rest
  pub least : AllFrom p.key ss
  pub onward : AllFrom p.key p.rest
  pub found : newest p.key ss ≡ some p.value
  pub others : (j : Bytes) → bytes_eq p.key j ≡ false → newest j p.rest ≡ newest j ss
  pub smaller : total p.rest + 1 ≡ total ss

-- The first stream's entry is taken.
take_first :
    (k v : Bytes) (es : Dict Bytes) (ss : Streams)
    → IsSorted ((k, v) ∷ es)
    → AllSorted ss
    → AllFrom k ss
    → PopOk (((k, v) ∷ es) ∷ ss) (record { key = k; value = v; rest = es ∷ ss })
unfolding newest lookup total
take_first k v es ss (a, h) hs f = record {
  sorted = (h, hs);
  least = ((bytes_lt_irrefl k, From-self k es a), f);
  onward = (From-self k es a, f);
  found = rw (bytes_eq_refl k, newest);
  others = λ j ne. rw (ne, newest);
  smaller = omega arith;
}

-- A later stream's entry is taken, which is below the first one's.
take_later :
    (k v : Bytes) (es : Dict Bytes) (ss : Streams) (q : Popped)
    → IsSorted ((k, v) ∷ es)
    → bytes_lt q.key k ≡ true
    → PopOk ss q
    → PopOk
        (((k, v) ∷ es) ∷ ss)
        (record { key = q.key; value = q.value; rest = ((k, v) ∷ es) ∷ q.rest })
unfolding newest total
take_later k v es ss q (a, h) low w =
    let above : Above q.key ((k, v) ∷ es) = (low, Above-trans q.key k es low a) in
    record {
      sorted = ((a, h), w.sorted);
      least = (From-self q.key ((k, v) ∷ es) above, w.least);
      onward = (From-self q.key ((k, v) ∷ es) above, w.onward);
      found = rw (lookup-Above q.key ((k, v) ∷ es) above, newest) w.found;
      others =
          λ j ne. ap (λ (o : Option Bytes). or_else (lookup j ((k, v) ∷ es)) o) (w.others j ne);
      smaller = omega (arith, w.smaller);
    }

pub pop-PopOk : (ss : Streams) (p : Popped) → AllSorted ss → pop ss ≡ some p → PopOk ss p
unfolding pop choose newest total lookup
pop-PopOk [] p hs e = cc
pop-PopOk ([] ∷ ss) p (_, hs) e =
    let w = pop-PopOk ss p hs e in
    record {
      sorted = w.sorted;
      least = (tt, w.least);
      onward = w.onward;
      found = w.found;
      others = w.others;
      smaller = omega (arith, w.smaller);
    }
pop-PopOk (((k, v) ∷ es) ∷ ss) p (h, hs) e = elim (Option-cases (pop ss)) [
  | inl n ↦
      let e' : some (record { key = k; value = v; rest = es ∷ ss }) ≡ some p = rw n at e in
      subst (PopOk (((k, v) ∷ es) ∷ ss)) (cc) (take_first k v es ss h hs ((pop-none ss n).1 k))
  | inr (q, n) ↦
      let w = pop-PopOk ss q hs n in
      elim (Bool-cases (bytes_lt q.key k)) [
        | inl low ↦
            let e' : some (record { key = q.key; value = q.value; rest = ((k, v) ∷ es) ∷ q.rest })
                ≡ some p =
              rw (n, low) at e in
            subst (PopOk (((k, v) ∷ es) ∷ ss)) (cc) (take_later k v es ss q h low w)
        | inr high ↦
            let e' : some (record { key = k; value = v; rest = es ∷ ss }) ≡ some p =
              rw (n, high) at e in
            subst (PopOk (((k, v) ∷ es) ∷ ss)) (cc)
              (take_first k v es ss h hs (AllFrom-trans k q.key ss high w.least))
      ]
]
