-- ===== src/Kv/Additions.antt =====
-- What sadd leaves of a set.
use mathlib.Core.List.{cons-ne-nil}
use mathlib.Core.Path.{subst}
use zenith_db.Prelude.{
  ℕ, ◌+◌, ◌≡◌, refl, sym, ap, ◌∙◌, Bool, true, false, not, ◌||◌, Option, none, some, List, [], ◌∷◌,
  is_none, if◌then◌else◌, inl, inr, Bool-cases,
}
use zenith_db.Bytes.{Bytes, bytes_eq, codes}
use zenith_db.Bytes.Order.{bytes_eq→eq}
use zenith_db.Txn.{type_key, exp_key}
use zenith_db.Kv.{returned, StoreOps, StoreLaws, Clock, >>=-returned, >>=-eq, returned_injective}
use zenith_db.Kv.Keys.{Engine, put, is_expired}
use zenith_db.Kv.Keeps.{put-returned}
use zenith_db.Kv.Reads.{is_expired-lasting}
use zenith_db.Kv.Sets.{member_key, add_missing, add_members, sadd}
use zenith_db.Kv.Edits.{with_all, count_new, HasSet, put-HasSet, HasSet-same}

module _ (ops : StoreOps) (clock : Clock) (laws : StoreLaws ops) where
  -- One member of `sadd`, by what is found of it.
  add_missing-HasSet :
      (key m : Bytes) (f : Bytes → Bool) (o : Option Bytes) (n : ℕ) (e e' : Engine ops clock)
      → HasSet ops clock laws key f e
      → ops.get e.lsm (member_key key m) ≡ o
      → add_missing ops clock (member_key key m) o e ≡ returned n e'
      → (n ≡ (if f m then 0 else 1)) × HasSet ops clock laws key (λ j. bytes_eq m j || f j) e'
  unfolding add_missing
  add_missing-HasSet key m f none n e e' s q h =
      let fresh : false ≡ f m = ap (λ o. not (is_none o)) (sym q) ∙ s.members m in
      let (_, s1, h1, k1) = >>=-returned (put ops clock (member_key key m) (codes "1")) _ e h in
      let (number, same) = returned_injective k1 in
      (
        sym number ∙ ap (λ (b : Bool). if b then 0 else 1) fresh,
        subst (HasSet ops clock laws key (λ j. bytes_eq m j || f j)) same
            (put-HasSet ops clock laws key m f e s1 s h1),
      )
  add_missing-HasSet key m f (some v) n e e' s q h =
      let there : true ≡ f m = ap (λ o. not (is_none o)) (sym q) ∙ s.members m in
      let (number, same) = returned_injective h in
      (
        sym number ∙ ap (λ (b : Bool). if b then 0 else 1) there,
        subst (HasSet ops clock laws key (λ j. bytes_eq m j || f j)) same (
            HasSet-same ops clock laws key f (λ j. bytes_eq m j || f j) e
              (λ j. elim (Bool-cases (bytes_eq m j)) [
                | inl e1 ↦ rw e1 (ap f (sym (bytes_eq→eq m j e1)) ∙ sym there)
                | inr e2 ↦ rw e2 refl
              ])
              s),
      )

  add_members-HasSet :
      (key : Bytes) (ms : List Bytes) (f : Bytes → Bool) (n : ℕ) (e e' : Engine ops clock)
      → HasSet ops clock laws key f e
      → add_members ops clock key ms e ≡ returned n e'
      → (n ≡ count_new ms f) × HasSet ops clock laws key (with_all ms f) e'
  unfolding add_members
  add_members-HasSet key [] f n e e' s h =
      let (number, same) = returned_injective h in
      (sym number, subst (HasSet ops clock laws key f) same s)
  add_members-HasSet key (m ∷ ms) f n e e' s h =
      let (one, s1, h1, k1) =
        >>=-returned (add_missing ops clock (member_key key m) (ops.get e.lsm (member_key key m))) _
          e h in
      let (more, s2, h2, k2) = >>=-returned (add_members ops clock key ms) _ s1 k1 in
      let (number, same) = returned_injective k2 in
      let (first, w1) =
        add_missing-HasSet key m f (ops.get e.lsm (member_key key m)) one e s1 s refl h1 in
      let (rest, w2) = add_members-HasSet key ms (λ j. bytes_eq m j || f j) more s1 s2 w1 h2 in
      (
        sym number
            ∙ ap (λ (x : ℕ). x + more) first
            ∙ ap (λ (x : ℕ). (if f m then 0 else 1) + x) rest,
        subst (HasSet ops clock laws key (with_all (m ∷ ms) f)) same w2,
      )

  pub sadd-HasSet :
      (now : clock.Time) (key : Bytes) (ms : List Bytes) (f : Bytes → Bool) (n : ℕ)
      (e e' : Engine ops clock)
      → HasSet ops clock laws key f e
      → sadd ops clock now key ms e ≡ returned n e'
      → (n ≡ count_new ms f) × HasSet ops clock laws key (with_all ms f) e'
  unfolding sadd bytes_eq
  sadd-HasSet now key ms f n e e' s h =
      let start =
        >>=-eq (is_expired ops clock now key) _ e e
          (is_expired-lasting ops clock now key e s.lasting) in
      let (added, s1, h1, k1) = >>=-returned (add_members ops clock key ms) _ e (sym start ∙ h) in
      let (_, s2, h2, k2) = >>=-returned (put ops clock (type_key key) (codes "set")) _ s1 k1 in
      let (number, same) = returned_injective k2 in
      let (count, w) = add_members-HasSet key ms f added e s1 s h1 in
      let (g, r) =
        put-returned ops clock laws (type_key key) (codes "set") s1 s2 (cons-ne-nil _ _) (λ q. cc)
          w.good h2 in
      (
        sym number ∙ count,
        subst (HasSet ops clock laws key (with_all ms f)) same (record {
          good = g;
          members = λ m. ap (λ o. not (is_none o)) (r (member_key key m)) ∙ w.members m;
          lasting = r (exp_key key) ∙ w.lasting;
        }),
      )
