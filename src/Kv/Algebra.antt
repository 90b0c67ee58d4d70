-- ===== src/Kv/Algebra.antt =====
-- Unions, intersections and differences of sets.
use zenith_db.Prelude.{
  ◌≡◌, refl, ap, ◌∙◌, Bool, true, false, not, ◌&&◌, ◌||◌, List, [], ◌∷◌, arith, All,
}
use zenith_db.Bytes.{Bytes}
use zenith_db.Python.Sets.{
  contains, update, contains-update, contains-restrict, intersection_update, difference_update,
}
use zenith_db.Kv.{returned, StoreOps, StoreLaws, ScanLaws, Clock, ◌>>=◌, >>=-eq}
use zenith_db.Kv.Keys.{Engine}
use zenith_db.Kv.Fields.{IsFresh}
use zenith_db.Kv.Sets.{smembers, combine, sunion, sinter, sdiff}
use zenith_db.Kv.Members.{has_member, members_of, smembers-IsFresh, contains-members_of}

module _ (ops : StoreOps) (clock : Clock) where
  -- A member of one of the sets, and of all of them.
  abbrev pub in_any : List Bytes → Bytes → Engine ops clock → Bool
  in_any [] m e = false
  in_any (k ∷ keys) m e = has_member ops clock k m e || in_any keys m e

  abbrev pub in_all : List Bytes → Bytes → Engine ops clock → Bool
  in_all [] m e = true
  in_all (k ∷ keys) m e = has_member ops clock k m e && in_all keys m e

  abbrev pub AllFresh : clock.Time → List Bytes → Engine ops clock → Type 0
  AllFresh now keys e = All (λ k. IsFresh ops clock now k e) keys

  combined :
      (List Bytes → List Bytes → List Bytes)
      → List Bytes
      → List Bytes
      → Engine ops clock
      → List Bytes
  combined step result [] e = result
  combined step result (k ∷ keys) e = combined step (step result (members_of ops clock k e)) keys e

  combine-fresh :
      (now : clock.Time) (step : List Bytes → List Bytes → List Bytes) (result keys : List Bytes)
      (e : Engine ops clock)
      → AllFresh now keys e
      → combine ops clock now step result keys e ≡ returned (combined step result keys e) e
  unfolding combine combined
  combine-fresh now step result [] e h = refl
  combine-fresh now step result (k ∷ keys) e (f, h) =
      >>=-eq (smembers ops clock now k) _ e e (smembers-IsFresh ops clock now k e f)
      ∙ combine-fresh now step (step result (members_of ops clock k e)) keys e h

  first-fresh :
      (now : clock.Time) (step : List Bytes → List Bytes → List Bytes) (k : Bytes)
      (keys : List Bytes) (e : Engine ops clock)
      → AllFresh now (k ∷ keys) e
      → (smembers ops clock now k >>= λ result. combine ops clock now step result keys) e
        ≡ returned (combined step (members_of ops clock k e) keys e) e
  first-fresh now step k keys e (f, h) =
      >>=-eq (smembers ops clock now k) _ e e (smembers-IsFresh ops clock now k e f)
      ∙ combine-fresh now step (members_of ops clock k e) keys e h

  module _ (laws : StoreLaws ops) (scans : ScanLaws ops laws) where
    contains-union :
        (m : Bytes) (result keys : List Bytes) (e : Engine ops clock)
        → laws.IsStore e.lsm
        → contains m (combined update result keys e) ≡ contains m result || in_any keys m e
    unfolding combined
    contains-union m result [] e g = ground arith
    contains-union m result (k ∷ keys) e g =
        contains-union m (update result (members_of ops clock k e)) keys e g
        ∙ rw
            (
              contains-update m result (members_of ops clock k e),
              contains-members_of ops clock laws scans k m e g,
            )
            (ground arith)

    contains-inter :
        (m : Bytes) (result keys : List Bytes) (e : Engine ops clock)
        → laws.IsStore e.lsm
        → contains m (combined intersection_update result keys e)
          ≡ contains m result && in_all keys m e
    unfolding combined
    contains-inter m result [] e g = ground arith
    contains-inter m result (k ∷ keys) e g =
        contains-inter m (intersection_update result (members_of ops clock k e)) keys e g
        ∙ rw
            (
              contains-restrict true m result (members_of ops clock k e),
              contains-members_of ops clock laws scans k m e g,
            )
            (ground arith)

    contains-diff :
        (m : Bytes) (result keys : List Bytes) (e : Engine ops clock)
        → laws.IsStore e.lsm
        → contains m (combined difference_update result keys e)
          ≡ contains m result && not (in_any keys m e)
    unfolding combined
    contains-diff m result [] e g = ground arith
    contains-diff m result (k ∷ keys) e g =
        contains-diff m (difference_update result (members_of ops clock k e)) keys e g
        ∙ rw
            (
              contains-restrict false m result (members_of ops clock k e),
              contains-members_of ops clock laws scans k m e g,
            )
            (ground arith)

    -- In a well-formed store that scans well, of keys that have not expired, sunion, sinter and
    -- sdiff change nothing and return sets: a member of the union is a member of one of the sets, a
    -- member of the intersection one of all, and a member of the difference one of the first set and
    -- of no other.
    pub set_algebra :
        (now : clock.Time) (k : Bytes) (keys : List Bytes) (e : Engine ops clock)
        → laws.IsStore e.lsm
        → AllFresh now (k ∷ keys) e
        → (u : List Bytes) × (i : List Bytes) × (d : List Bytes) × (sunion ops clock now
              (k ∷ keys)
              e
            ≡ returned u e)
          × (sinter ops clock now (k ∷ keys) e ≡ returned i e)
          × (sdiff ops clock now (k ∷ keys) e ≡ returned d e)
          × ((m : Bytes)
              → (contains m u ≡ in_any (k ∷ keys) m e)
                × (contains m i ≡ in_all (k ∷ keys) m e)
                × (contains m d ≡ has_member ops clock k m e && not (in_any keys m e)))
    unfolding sunion sinter sdiff contains
    set_algebra now k keys e g fresh = (
      combined update [] (k ∷ keys) e,
      combined intersection_update (members_of ops clock k e) keys e,
      combined difference_update (members_of ops clock k e) keys e,
      combine-fresh now update [] (k ∷ keys) e fresh,
      first-fresh now intersection_update k keys e fresh,
      first-fresh now difference_update k keys e fresh,
      λ m.
          let here = contains-members_of ops clock laws scans k m e g in
          (
            contains-union m [] (k ∷ keys) e g,
            contains-inter m (members_of ops clock k e) keys e g
                ∙ ap (λ (b : Bool). b && in_all keys m e) here,
            contains-diff m (members_of ops clock k e) keys e g
                ∙ ap (λ (b : Bool). b && not (in_any keys m e)) here,
          ),
    )
