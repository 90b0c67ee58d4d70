-- ===== src/Kv/Emptied.antt =====
-- What flushdb leaves.
use mathlib.Core.Path.{subst}
use zenith_db.Prelude.{
  ℕ, ◌≡◌, refl, sym, ap, ◌∙◌, Bool, true, false, not, inl, inr, Option, none, List, [], ◌∷◌,
  is_none, none-ne-some, Bool-cases, Option-cases,
}
use zenith_db.Bytes.{Bytes, bytes_eq, codes}
use zenith_db.Bytes.Order.{bytes_eq→eq, bytes_eq_refl}
use zenith_db.Dict.{Dict, lookup}
use zenith_db.Python.Sets.{contains}
use zenith_db.Txn.{type_key}
use zenith_db.Kv.{returned, StoreOps, StoreLaws, ScanLaws, Clock, >>=-returned, returned_injective}
use zenith_db.Kv.Keys.{Engine, purge_key, delete, with_prefix, keys_in}
use zenith_db.Kv.Keeps.{Fewer, Fewer-same, Fewer-trans, Keeps-purge_key, lifted-returned}
use zenith_db.Kv.Hashes.{named_from}
use zenith_db.Kv.Scans.{lookup-scan_named, contains-keys_in}
use zenith_db.Kv.Live.{matched, keys, delete_each, flush, flushdb}
use zenith_db.Kv.Untyped.{
  Untyped, Typed, QuietRun, Fewer-Untyped, Fewer-Typed, purge_key-Untyped, matched-Untyped,
}

true-ne-false : true ≡ false → ⊥
true-ne-false h = cc

module _ (ops : StoreOps) (clock : Clock) (laws : StoreLaws ops) where
  delete-Untyped :
      (key : Bytes) (n : ℕ) (e e' : Engine ops clock)
      → laws.IsStore e.lsm
      → Typed ops clock laws e
      → delete ops clock (key ∷ []) e ≡ returned n e'
      → Fewer ops clock laws e e' × Untyped ops clock laws key e'
  unfolding delete
  delete-Untyped key n e e' g t h = elim (Option-cases (ops.get e.lsm (type_key key))) [
    | inl q ↦
        let (_, same) = returned_injective (rw q at h) in
        (Fewer-same ops clock laws e e' g same, subst (Untyped ops clock laws key) same q)
    | inr (v, q) ↦
        let (_, s, h1, k1) = >>=-returned (purge_key ops clock key) _ e (rw q at h) in
        let (_, same) = returned_injective k1 in
        (
          subst (Fewer ops clock laws e) same (Keeps-purge_key ops clock laws key e s tt g h1),
          subst (Untyped ops clock laws key) same (purge_key-Untyped ops clock laws key e s g t h1),
        )
  ]

  delete_each-Untyped :
      (matches : Bytes → Bytes → Bool) (ks : List Bytes) (e e' : Engine ops clock)
      → laws.IsStore e.lsm
      → Typed ops clock laws e
      → delete_each ops clock matches ks e ≡ returned tt e'
      → Fewer ops clock laws e e'
        × ((name : Bytes) → contains name ks ≡ true → Untyped ops clock laws name e')
  unfolding delete_each contains
  delete_each-Untyped matches [] e e' g t h =
      let (_, same) = returned_injective h in
      (Fewer-same ops clock laws e e' g same, λ name c. absurd (true-ne-false (sym c)))
  delete_each-Untyped matches (k ∷ ks) e e' g t h =
      let (n, s, h1, k1) = >>=-returned (delete ops clock (k ∷ [])) _ e h in
      let (f1, gone) = delete-Untyped k n e s g t h1 in
      let (f2, others) =
        delete_each-Untyped matches ks s e' f1.0 (Fewer-Typed ops clock laws e s f1 t) k1 in
      (
        Fewer-trans ops clock laws e s e' f1 f2,
        λ name c. elim (Bool-cases (bytes_eq k name)) [
          | inl here ↦
              subst (λ i. Untyped ops clock laws i e') (bytes_eq→eq k name here)
                (Fewer-Untyped ops clock laws k s e' f2 gone)
          | inr other ↦ others name (rw other at c)
        ],
      )

  flush-reads :
      (matches : Bytes → Bytes → Bool) (e e' : Engine ops clock)
      → laws.IsStore e.lsm
      → flush ops clock matches e ≡ returned tt e'
      → laws.IsStore e'.lsm × ((j : Bytes) → ops.get e'.lsm j ≡ ops.get e.lsm j)
  flush-reads matches e e' g h =
      let (s, h1, same) = lifted-returned ops clock laws e e' (ops.flush e.lsm) h in
      subst (λ (x : ops.Store). laws.IsStore x × ((j : Bytes) → ops.get x j ≡ ops.get e.lsm j)) same
        (laws.flushes e.lsm s g h1)

  nothing_listed : (d : Dict Bytes) → ((j : Bytes) → lookup j d ≡ none) → keys_in d ≡ []
  unfolding lookup
  nothing_listed [] h = refl
  nothing_listed ((k, v) ∷ d) h =
      absurd (none-ne-some {a = v} (sym (h k) ∙ rw (bytes_eq_refl k) refl))

  module _ (scans : ScanLaws ops laws) (matches : Bytes → Bytes → Bool) where
    abbrev pub listed_names : Engine ops clock → Dict Bytes
    listed_names e =
        named_from (codes "__TYPE__:")
          (with_prefix (codes "__TYPE__:") (ops.scan e.lsm (codes "__TYPE__:")))

    keys-Untyped :
        (now : clock.Time) (pattern : Bytes) (e : Engine ops clock)
        → laws.IsStore e.lsm
        → ((key : Bytes) → Untyped ops clock laws key e)
        → keys ops clock matches now pattern e ≡ returned [] e
    unfolding keys matched
    keys-Untyped now pattern e g gone =
        ap (λ (l : List Bytes). matched ops clock matches now pattern l e)
          (nothing_listed _
            (λ j. lookup-scan_named ops laws scans e.lsm (codes "__TYPE__:") j g ∙ gone j))

    -- In a well-formed store that scans well and in which no type's entry is empty, with a pattern
    -- `*` that every name matches, a flushdb that returns, and in which no purge of an expired key
    -- raises a ValueError, leaves the store well formed, and no key with a type: whatever had
    -- expired, no key is listed at any later time, by any pattern.
    pub keys-flushdb :
        (now later : clock.Time) (pattern : Bytes) (e e' : Engine ops clock)
        → laws.IsStore e.lsm
        → Typed ops clock laws e
        → QuietRun ops clock laws now (keys_in (listed_names e)) e
        → ((name : Bytes) → matches name (codes "*") ≡ true)
        → flushdb ops clock matches now e ≡ returned tt e'
        → laws.IsStore e'.lsm
          × ((key : Bytes) → ops.get e'.lsm (type_key key) ≡ none)
          × (keys ops clock matches later pattern e' ≡ returned [] e')
    unfolding flushdb keys
    keys-flushdb now later pattern e e' g t q m h =
        let named = listed_names e in
        let (ks, s1, h1, k1) =
          >>=-returned (matched ops clock matches now (codes "*") (keys_in named)) _ e h in
        let (_, s2, h2, k2) = >>=-returned (delete_each ops clock matches ks) _ s1 k1 in
        let (f1, found) =
          matched-Untyped ops clock laws matches now (codes "*") (keys_in named) ks e s1 g t q m
            h1 in
        let (f2, deleted) =
          delete_each-Untyped matches ks s1 s2 f1.0 (Fewer-Typed ops clock laws e s1 f1 t) h2 in
        let (g3, reads) = flush-reads matches s2 e' f2.0 k2 in
        let gone : (key : Bytes) → Untyped ops clock laws key e' = λ key.
          reads (type_key key) ∙ elim (Option-cases (ops.get e.lsm (type_key key))) [
            | inl absent ↦
                Fewer-Untyped ops clock laws key e s2 (Fewer-trans ops clock laws e s1 s2 f1 f2)
                  absent
            | inr (v, there) ↦
                let listed : contains key (keys_in named) ≡ true =
                  contains-keys_in key named
                  ∙ ap (λ (o : Option Bytes). not (is_none o))
                      (lookup-scan_named ops laws scans e.lsm (codes "__TYPE__:") key g ∙ there) in
                elim (found key listed) [
                  | inl kept ↦ deleted key kept
                  | inr purged ↦ Fewer-Untyped ops clock laws key s1 s2 f2 purged
                ]
          ] in
        (g3, gone, keys-Untyped later pattern e' g3 gone)
