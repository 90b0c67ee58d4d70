-- ===== src/Kv/Scores.antt =====
-- What scores read as after a zadd.
use mathlib.Core.List.{cons-ne-nil}
use mathlib.Core.Path.{subst}
use zenith_db.Prelude.{
  ℕ, ◌+◌, ◌≡◌, ◌≢◌, refl, sym, ap, ◌∙◌, Bool, true, false, Option, none, some, [], ◌∷◌, is_none,
  if◌then◌else◌,
}
use zenith_db.Bytes.{Bytes, bytes_eq, codes}
use zenith_db.Bytes.Order.{bytes_eq-append}
use zenith_db.Dict.{Dict}
use zenith_db.Lsm.MemTable.{tombstone}
use zenith_db.Txn.{type_key, exp_key}
use zenith_db.Kv.{returned, StoreOps, StoreLaws, Clock, >>=-returned, >>=-eq, returned_injective}
use zenith_db.Kv.Keys.{Engine, put, is_expired, zset_prefix}
use zenith_db.Kv.Keeps.{put-returned}
use zenith_db.Kv.Reads.{is_expired-lasting}
use zenith_db.Kv.SortedSets.{Floats, score_key, zadd_all, zadd, float_of, zscore}

-- A float that was written is read back, and the order has no cycles of two.
pub record FloatLaws (floats : Floats) : Type 0 where
  pub parses : (x : floats.Float) → floats.parse (floats.print x) ≡ some x
  pub prints : (x : floats.Float) → floats.print x ≢ tombstone
  pub less_asymm : (x y : floats.Float) → floats.less x y ≡ true → floats.less y x ≡ false
  pub equals_comm : (x y : floats.Float) → floats.equals x y ≡ floats.equals y x

module _ (floats : Floats) where
  -- An entry that holds a score, or none that holds none.
  abbrev pub Shows : Option Bytes → Option floats.Float → Type 0
  Shows none none = Unit
  Shows (some v) (some x) = floats.parse v ≡ some x
  Shows none (some x) = ⊥
  Shows (some v) none = ⊥

  pub Shows-if :
      (b : Bool) (v : Bytes) (x : floats.Float) (o : Option Bytes) (p : Option floats.Float)
      → floats.parse v ≡ some x
      → Shows o p
      → Shows (if b then some v else o) (if b then some x else p)
  Shows-if true v x o p h s = h
  Shows-if false v x o p h s = s

  Shows-is_none : (o : Option Bytes) (p : Option floats.Float) → Shows o p → is_none o ≡ is_none p
  Shows-is_none none none s = refl
  Shows-is_none (some v) (some x) s = refl
  Shows-is_none none (some x) s = absurd s
  Shows-is_none (some v) none s = absurd s

  -- Scores after those of a mapping, and how many members were new.
  abbrev pub with_scores :
      Dict floats.Float → (Bytes → Option floats.Float) → Bytes → Option floats.Float
  with_scores [] f = f
  with_scores ((m, x) ∷ mapping) f = with_scores mapping (λ j. if bytes_eq m j then some x else f j)

  abbrev pub new_scores : Dict floats.Float → (Bytes → Option floats.Float) → ℕ
  new_scores [] f = 0
  new_scores ((m, x) ∷ mapping) f =
      (if is_none (f m) then 1 else 0)
      + new_scores mapping (λ j. if bytes_eq m j then some x else f j)

  module _ (ops : StoreOps) (clock : Clock) (laws : StoreLaws ops) where
    -- The key has the scores that `f` gives, and no expiry.
    pub record HasScores (key : Bytes) (f : Bytes → Option floats.Float) (e : Engine ops clock)
        : Type 0 where
      pub good : laws.IsStore e.lsm
      pub scores : (m : Bytes) → Shows (ops.get e.lsm (score_key key m)) (f m)
      pub lasting : ops.get e.lsm (exp_key key) ≡ none

    put-HasScores :
        (key m : Bytes) (x : floats.Float) (f : Bytes → Option floats.Float)
        (e e' : Engine ops clock)
        → FloatLaws floats
        → HasScores key f e
        → put ops clock (score_key key m) (floats.print x) e ≡ returned tt e'
        → HasScores key (λ j. if bytes_eq m j then some x else f j) e'
    unfolding bytes_eq
    put-HasScores key m x f e e' fl s h =
        let (g, r) =
          put-returned ops clock laws (score_key key m) (floats.print x) e e' (cons-ne-nil _ _)
            (fl.prints x) s.good h in
        record {
          good = g;
          scores = λ j.
              subst (λ (o : Option Bytes). Shows o (if bytes_eq m j then some x else f j))
                (sym (
                  r (score_key key j)
                  ∙ ap
                      (λ (b : Bool).
                        if b then some (floats.print x) else ops.get e.lsm (score_key key j))
                      (bytes_eq-append (zset_prefix key) m j)))
                (Shows-if (bytes_eq m j) (floats.print x) x (ops.get e.lsm (score_key key j)) (f j)
                  (fl.parses x) (s.scores j));
          lasting = r (exp_key key) ∙ s.lasting;
        }

    zadd_all-HasScores :
        (key : Bytes) (mapping : Dict floats.Float) (f : Bytes → Option floats.Float) (n : ℕ)
        (e e' : Engine ops clock)
        → FloatLaws floats
        → HasScores key f e
        → zadd_all floats ops clock key mapping e ≡ returned n e'
        → (n ≡ new_scores mapping f) × HasScores key (with_scores mapping f) e'
    unfolding zadd_all
    zadd_all-HasScores key [] f n e e' fl s h =
        let (number, same) = returned_injective h in (sym number, subst (HasScores key f) same s)
    zadd_all-HasScores key ((m, x) ∷ mapping) f n e e' fl s h =
        let (_, s1, h1, k1) =
          >>=-returned (put ops clock (score_key key m) (floats.print x)) _ e h in
        let (more, s2, h2, k2) = >>=-returned (zadd_all floats ops clock key mapping) _ s1 k1 in
        let (number, same) = returned_injective k2 in
        let w1 = put-HasScores key m x f e s1 fl s h1 in
        let (rest, w2) =
          zadd_all-HasScores key mapping (λ j. if bytes_eq m j then some x else f j) more s1 s2 fl
            w1 h2 in
        (
          sym number
              ∙ ap (λ (b : Bool). (if b then 1 else 0) + more)
                  (Shows-is_none (ops.get e.lsm (score_key key m)) (f m) (s.scores m))
              ∙ ap (λ (k : ℕ). (if is_none (f m) then 1 else 0) + k) rest,
          subst (HasScores key (with_scores ((m, x) ∷ mapping) f)) same w2,
        )

    zadd-HasScores :
        (now : clock.Time) (key : Bytes) (mapping : Dict floats.Float)
        (f : Bytes → Option floats.Float) (n : ℕ) (e e' : Engine ops clock)
        → FloatLaws floats
        → HasScores key f e
        → zadd floats ops clock now key mapping e ≡ returned n e'
        → (n ≡ new_scores mapping f) × HasScores key (with_scores mapping f) e'
    unfolding zadd bytes_eq
    zadd-HasScores now key mapping f n e e' fl s h =
        let start =
          >>=-eq (is_expired ops clock now key) _ e e
            (is_expired-lasting ops clock now key e s.lasting) in
        let (added, s1, h1, k1) =
          >>=-returned (zadd_all floats ops clock key mapping) _ e (sym start ∙ h) in
        let (_, s2, h2, k2) = >>=-returned (put ops clock (type_key key) (codes "zset")) _ s1 k1 in
        let (number, same) = returned_injective k2 in
        let (count, w) = zadd_all-HasScores key mapping f added e s1 fl s h1 in
        let (g, r) =
          put-returned ops clock laws (type_key key) (codes "zset") s1 s2 (cons-ne-nil _ _)
            (λ q. cc) w.good h2 in
        (
          sym number ∙ count,
          subst (HasScores key (with_scores mapping f)) same (record {
            good = g;
            scores = λ m.
                subst (λ (o : Option Bytes). Shows o (with_scores mapping f m))
                  (sym (r (score_key key m))) (w.scores m);
            lasting = r (exp_key key) ∙ w.lasting;
          }),
        )

    float_of-Shows :
        (o : Option Bytes) (p : Option floats.Float) (e : Engine ops clock)
        → Shows o p
        → float_of floats ops clock o e ≡ returned p e
    unfolding float_of
    float_of-Shows none none e s = refl
    float_of-Shows (some v) (some x) e s = rw (s, float_of) refl
    float_of-Shows none (some x) e s = absurd s
    float_of-Shows (some v) none e s = absurd s

    zscore-HasScores :
        (later : clock.Time) (key m : Bytes) (f : Bytes → Option floats.Float)
        (e : Engine ops clock)
        → HasScores key f e
        → zscore floats ops clock later key m e ≡ returned (f m) e
    unfolding zscore
    zscore-HasScores later key m f e s =
        >>=-eq (is_expired ops clock later key) _ e e
          (is_expired-lasting ops clock later key e s.lasting)
        ∙ float_of-Shows (ops.get e.lsm (score_key key m)) (f m) e (s.scores m)

    -- On a key without expiry that has the scores that `f` gives, a zadd that returns counts the
    -- members that were new, the key then has the scores of the mapping, the last one of a member,
    -- and else those of `f`, and zscore reads them at any later time.
    pub zscore-zadd :
        (now later : clock.Time) (key : Bytes) (mapping : Dict floats.Float)
        (f : Bytes → Option floats.Float) (n : ℕ) (e e' : Engine ops clock)
        → FloatLaws floats
        → HasScores key f e
        → zadd floats ops clock now key mapping e ≡ returned n e'
        → (n ≡ new_scores mapping f)
          × HasScores key (with_scores mapping f) e'
          × ((m : Bytes)
              → zscore floats ops clock later key m e' ≡ returned (with_scores mapping f m) e')
    zscore-zadd now later key mapping f n e e' fl s h =
        let (count, w) = zadd-HasScores now key mapping f n e e' fl s h in
        (count, w, λ m. zscore-HasScores later key m (with_scores mapping f) e' w)
