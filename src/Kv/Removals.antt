-- ===== src/Kv/Removals.antt =====
-- What srem leaves of a set.
use mathlib.Core.Path.{subst}
use zenith_db.Prelude.{
  ℕ, ◌+◌, ◌≡◌, refl, sym, ap, ◌∙◌, Bool, true, false, not, ◌&&◌, Option, none, some, List, [], ◌∷◌,
  is_none, if◌then◌else◌, inl, inr, Bool-cases,
}
use zenith_db.Bytes.{Bytes, bytes_eq}
use zenith_db.Bytes.Order.{bytes_eq→eq}
use zenith_db.Kv.{returned, StoreOps, StoreLaws, Clock, >>=-returned, returned_injective}
use zenith_db.Kv.Keys.{Engine, remove}
use zenith_db.Kv.Hashes.{remove_found}
use zenith_db.Kv.Sets.{member_key, srem}
use zenith_db.Kv.Edits.{without_all, count_gone, HasSet, remove-HasSet, HasSet-same}

module _ (ops : StoreOps) (clock : Clock) (laws : StoreLaws ops) where
  -- One member of `srem`.
  remove_found-HasSet :
      (key m : Bytes) (f : Bytes → Bool) (o : Option Bytes) (n : ℕ) (e e' : Engine ops clock)
      → HasSet ops clock laws key f e
      → ops.get e.lsm (member_key key m) ≡ o
      → remove_found ops clock (member_key key m) o e ≡ returned n e'
      → (n ≡ (if f m then 1 else 0)) × HasSet ops clock laws key (λ j. not (bytes_eq m j) && f j) e'
  unfolding remove_found
  remove_found-HasSet key m f (some v) n e e' s q h =
      let there : true ≡ f m = ap (λ o. not (is_none o)) (sym q) ∙ s.members m in
      let (_, s1, h1, k1) = >>=-returned (remove ops clock (member_key key m)) _ e h in
      let (number, same) = returned_injective k1 in
      (
        sym number ∙ ap (λ (b : Bool). if b then 1 else 0) there,
        subst (HasSet ops clock laws key (λ j. not (bytes_eq m j) && f j)) same
            (remove-HasSet ops clock laws key m f e s1 s h1),
      )
  remove_found-HasSet key m f none n e e' s q h =
      let fresh : false ≡ f m = ap (λ o. not (is_none o)) (sym q) ∙ s.members m in
      let (number, same) = returned_injective h in
      (
        sym number ∙ ap (λ (b : Bool). if b then 1 else 0) fresh,
        subst (HasSet ops clock laws key (λ j. not (bytes_eq m j) && f j)) same (
            HasSet-same ops clock laws key f (λ j. not (bytes_eq m j) && f j) e
              (λ j. elim (Bool-cases (bytes_eq m j)) [
                | inl e1 ↦ rw e1 (ap f (sym (bytes_eq→eq m j e1)) ∙ sym fresh)
                | inr e2 ↦ rw e2 refl
              ])
              s),
      )

  pub srem-HasSet :
      (key : Bytes) (ms : List Bytes) (f : Bytes → Bool) (n : ℕ) (e e' : Engine ops clock)
      → HasSet ops clock laws key f e
      → srem ops clock key ms e ≡ returned n e'
      → (n ≡ count_gone ms f) × HasSet ops clock laws key (without_all ms f) e'
  unfolding srem
  srem-HasSet key [] f n e e' s h =
      let (number, same) = returned_injective h in
      (sym number, subst (HasSet ops clock laws key f) same s)
  srem-HasSet key (m ∷ ms) f n e e' s h =
      let (one, s1, h1, k1) =
        >>=-returned (remove_found ops clock (member_key key m) (ops.get e.lsm (member_key key m)))
          _ e h in
      let (more, s2, h2, k2) = >>=-returned (srem ops clock key ms) _ s1 k1 in
      let (number, same) = returned_injective k2 in
      let (first, w1) =
        remove_found-HasSet key m f (ops.get e.lsm (member_key key m)) one e s1 s refl h1 in
      let (rest, w2) = srem-HasSet key ms (λ j. not (bytes_eq m j) && f j) more s1 s2 w1 h2 in
      (
        sym number
            ∙ ap (λ (x : ℕ). x + more) first
            ∙ ap (λ (x : ℕ). (if f m then 1 else 0) + x) rest,
        subst (HasSet ops clock laws key (without_all (m ∷ ms) f)) same w2,
      )
