-- ===== src/Kv/Untyped.antt =====
-- Keys lose their types in purges, and in the loop of `keys`.
use mathlib.Core.List.{cons-ne-nil}
use mathlib.Core.Path.{subst}
use zenith_db.Prelude.{
  ◌≡◌, ◌≢◌, refl, sym, ◌∙◌, Bool, true, false, ◌||◌, ◌⊎◌, inl, inr, Option, none, some, List, [],
  ◌∷◌, if◌then◌else◌, none-ne-some, Bool-cases,
}
use zenith_db.Bytes.{Bytes, bytes_eq}
use zenith_db.Bytes.Order.{bytes_eq→eq, bytes_eq_refl}
use zenith_db.Python.Sets.{contains}
use zenith_db.Txn.{type_key, exp_key}
use zenith_db.Python.Utf8.{is_utf8}
use zenith_db.Kv.{
  returned, raises, value_error, StoreOps, StoreLaws, Clock, >>=-returned, returned_injective,
}
use zenith_db.Kv.Keys.{Engine, remove, remove_typed, purge_type, purge_key, is_expired}
use zenith_db.Kv.Keeps.{
  Fewer, Fewer-same, Fewer-trans, Keeps->>=, Keeps-remove, Keeps-remove_parts, Quiet,
  is_expired-Quiet, Fewer-is_expired, remove-returned,
}
use zenith_db.Kv.Live.{matched}

true-ne-false : true ≡ false → ⊥
true-ne-false h = cc

module _ (ops : StoreOps) (clock : Clock) (laws : StoreLaws ops) where
  -- A key without a type, and a store in which no type is empty.
  abbrev pub Untyped : Bytes → Engine ops clock → Type 0
  Untyped key e = ops.get e.lsm (type_key key) ≡ none

  abbrev pub Typed : Engine ops clock → Type 0
  Typed e = (key : Bytes) → ops.get e.lsm (type_key key) ≢ some []

  pub Fewer-Untyped :
      (key : Bytes) (e e' : Engine ops clock)
      → Fewer ops clock laws e e'
      → Untyped key e
      → Untyped key e'
  Fewer-Untyped key e e' (_, l) h = elim (l (type_key key)) [
    | inl same ↦ same ∙ h
    | inr gone ↦ gone
  ]

  pub Fewer-Typed : (e e' : Engine ops clock) → Fewer ops clock laws e e' → Typed e → Typed e'
  Fewer-Typed e e' (_, l) t key h = elim (l (type_key key)) [
    | inl same ↦ t key (sym same ∙ h)
    | inr gone ↦ none-ne-some (sym gone ∙ h)
  ]

  purge_type-Untyped :
      (key : Bytes) (o : Option Bytes) (e e' : Engine ops clock)
      → laws.IsStore e.lsm
      → ops.get e.lsm (type_key key) ≡ o
      → o ≢ some []
      → purge_type ops clock key o e ≡ returned tt e'
      → Untyped key e'
  unfolding purge_key
  purge_type-Untyped key none e e' g q ne h =
      Fewer-Untyped key e e'
        (Keeps-remove ops clock laws (exp_key key) (cons-ne-nil _ _) e e' tt g h) q
  purge_type-Untyped key (some []) e e' g q ne h = absurd (ne refl)
  purge_type-Untyped key (some (c ∷ t)) e e' g q ne raised =
      let h = decoding (is_utf8 (c ∷ t)) raised in
      let (_, s, h1, k1) = >>=-returned (remove ops clock (type_key key)) _ e h in
      let (g1, r) = remove-returned ops clock laws (type_key key) e s (cons-ne-nil _ _) g h1 in
      Fewer-Untyped key s e'
        (Keeps->>= ops clock laws (remove ops clock (exp_key key)) _
          (Keeps-remove ops clock laws (exp_key key) (cons-ne-nil _ _))
          (λ _. Keeps-remove_parts ops clock laws (c ∷ t) key) s e' tt g1 k1)
        (r (type_key key) ∙ rw (bytes_eq_refl (type_key key)) refl)
    where
      decoding :
          (b : Bool)
          → (if b then remove_typed ops clock (c ∷ t) key else raises value_error) e
            ≡ returned tt e'
          → remove_typed ops clock (c ∷ t) key e ≡ returned tt e'
      decoding true k = k
      decoding false k = cc

  pub purge_key-Untyped :
      (key : Bytes) (e e' : Engine ops clock)
      → laws.IsStore e.lsm
      → Typed e
      → purge_key ops clock key e ≡ returned tt e'
      → Untyped key e'
  unfolding purge_key
  purge_key-Untyped key e e' g t h =
      purge_type-Untyped key (ops.get e.lsm (type_key key)) e e' g refl (t key) h

  is_expired-Untyped :
      (now : clock.Time) (key : Bytes) (e e' : Engine ops clock)
      → laws.IsStore e.lsm
      → Typed e
      → Quiet ops clock laws key e
      → is_expired ops clock now key e ≡ returned true e'
      → Untyped key e'
  is_expired-Untyped now key e e' g t q h =
      let (due, r) = is_expired-Quiet ops clock laws now key e e' true q h in
      purge_key-Untyped key e e' g t (
        subst (λ (b : Bool). if b then purge_key ops clock key e ≡ returned tt e' else e ≡ e')
          (sym due) r)

  -- The loop of `keys` over some names, in which no purge raises a ValueError.
  abbrev pub QuietRun : clock.Time → List Bytes → Engine ops clock → Type 0
  QuietRun now [] e = Unit
  QuietRun now (k ∷ names) e =
      Quiet ops clock laws k e
      × ((b : Bool) (s : Engine ops clock)
          → is_expired ops clock now k e ≡ returned b s
          → QuietRun now names s)

  module _ (matches : Bytes → Bytes → Bool) where
    -- After the loop of `keys`, a name is in the list or its type is gone.
    pub matched-Untyped :
        (now : clock.Time) (pattern : Bytes) (names ks : List Bytes) (e e' : Engine ops clock)
        → laws.IsStore e.lsm
        → Typed e
        → QuietRun now names e
        → ((name : Bytes) → matches name pattern ≡ true)
        → matched ops clock matches now pattern names e ≡ returned ks e'
        → Fewer ops clock laws e e'
          × ((name : Bytes)
              → contains name names ≡ true
              → (contains name ks ≡ true) ⊎ Untyped name e')
    unfolding matched contains
    matched-Untyped now pattern [] ks e e' g t q m h =
        let (_, same) = returned_injective h in
        (Fewer-same ops clock laws e e' g same, λ name c. absurd (true-ne-false (sym c)))
    matched-Untyped now pattern (k ∷ names) ks e e' g t (q, qs) m h =
        let (expired, s, h1, k1) = >>=-returned (is_expired ops clock now k) _ e h in
        let (rest, w, h2, k2) = >>=-returned (matched ops clock matches now pattern names) _ s k1 in
        let (shown, same) = returned_injective k2 in
        let f1 = Fewer-is_expired ops clock laws now k e s expired g q h1 in
        let (f2, listed) =
          matched-Untyped now pattern names rest s w f1.0 (Fewer-Typed e s f1 t) (qs expired s h1) m
            h2 in
        (
          subst (Fewer ops clock laws e) same (Fewer-trans ops clock laws e s w f1 f2),
          λ name c.
              subst (λ (l : List Bytes). (contains name l ≡ true) ⊎ Untyped name e') shown
                (subst
                  (λ (x : Engine ops clock).
                    (contains name
                        (if expired then rest else if matches k pattern then k ∷ rest else rest)
                      ≡ true)
                    ⊎ Untyped name x)
                  same (first expired rest s w name f1 f2 h1 (listed name) c)),
        )
      where
        first :
            (b : Bool) (rest : List Bytes) (s w : Engine ops clock) (name : Bytes)
            → Fewer ops clock laws e s
            → Fewer ops clock laws s w
            → is_expired ops clock now k e ≡ returned b s
            → (contains name names ≡ true → (contains name rest ≡ true) ⊎ Untyped name w)
            → bytes_eq k name || contains name names ≡ true
            → (contains name (if b then rest else if matches k pattern then k ∷ rest else rest)
                ≡ true)
              ⊎ Untyped name w
        first true rest s w name f1 f2 h1 l c = elim (Bool-cases (bytes_eq k name)) [
          | inr other ↦ l (rw other at c)
          | inl here ↦ inr (
              subst (λ i. Untyped i w) (bytes_eq→eq k name here)
                (Fewer-Untyped k s w f2 (is_expired-Untyped now k e s g t q h1)))
        ]
        first false rest s w name f1 f2 h1 l c = elim (Bool-cases (bytes_eq k name)) [
          | inl here ↦ inl (rw (m k, contains, here) refl)
          | inr other ↦ elim (l (rw other at c)) [
            | inl there ↦ inl (rw (m k, contains, other) there)
            | inr gone ↦ inr gone
          ]
        ]
