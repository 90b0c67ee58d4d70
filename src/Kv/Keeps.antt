-- ===== src/Kv/Keeps.antt =====
-- Purges and reads keep the store well formed, and at most remove entries on their way.
use mathlib.Core.Path.{subst}
use zenith_db.Prelude.{◌⊎◌, ◌∙◌}
use mathlib.Core.List.{cons-ne-nil}
use zenith_db.Prelude.{
  ℕ, zero, suc, ◌≡◌, ◌≢◌, refl, sym, ap, Bool, true, false, inl, inr, Option, none, some, List, [],
  ◌∷◌, All, Bool-cases, if◌then◌else◌,
}
use zenith_db.Bytes.{Bytes, bytes_eq, starts_with, codes}
use zenith_db.Dict.{Dict}
use zenith_db.Lsm.MemTable.{tombstone}
use zenith_db.Python.Int.{ℤ, pos, ◌+ℤ◌, ◌-ℤ◌, to_ℕ}
use zenith_db.Kv.{
  Result, returned, raises, value_error, other_error, ◌>>=◌, StoreOps, StoreLaws, Clock,
  >>=-returned, returned_injective,
}
use zenith_db.Kv.Keys.{
  Engine, Method, pure, read, put, remove, remove_all, remove_prefix, remove_elements, remove_parts,
  remove_typed, purge_key, purged_by, purge_caught, is_expired, is_due, get_list_meta, with_prefix,
  keys_in, lifted, scan_all, element_key, meta_key, list_meta, remove_list, purge_type,
}
use zenith_db.Python.Utf8.{is_utf8}
use zenith_db.Txn.{value_key, type_key, exp_key}
use zenith_db.Kv.Strings.{get, existing}

false-ne-true : false ≡ true → ⊥
false-ne-true h = cc

module _ (ops : StoreOps) (clock : Clock) (laws : StoreLaws ops) where
  -- A later state: the store is well formed, and every entry stands as it was or is gone.
  abbrev pub Fewer : Engine ops clock → Engine ops clock → Type 0
  Fewer e e' =
      laws.IsStore e'.lsm
      × ((j : Bytes) → (ops.get e'.lsm j ≡ ops.get e.lsm j) ⊎ (ops.get e'.lsm j ≡ none))

  pub Fewer-same : (e e' : Engine ops clock) → laws.IsStore e.lsm → e ≡ e' → Fewer e e'
  Fewer-same e e' g same = subst (Fewer e) same (g, λ j. inl refl)

  pub Fewer-trans : (e s t : Engine ops clock) → Fewer e s → Fewer s t → Fewer e t
  Fewer-trans e s t (_, p) (g, q) = (
    g,
    λ j. elim (q j) [
      | inr gone ↦ inr gone
      | inl kept ↦ elim (p j) [ inl same ↦ inl (kept ∙ same) | inr gone ↦ inr (kept ∙ gone) ]
    ],
  )

  -- Whenever it returns, it has at most removed entries.
  abbrev pub Keeps {ℓ} : {A : Type ℓ} → (Engine ops clock → Result (Engine ops clock) A) → Type ℓ
  Keeps {A = A} m =
      (e e' : Engine ops clock) (a : A) → laws.IsStore e.lsm → m e ≡ returned a e' → Fewer e e'

  Keeps-pure : {A : Type 0} (a : A) → Keeps (pure ops clock a)
  Keeps-pure a e e' b g h = let (_, same) = returned_injective h in Fewer-same e e' g same

  pub Keeps->>= :
      {A B : Type 0} (m : Method ops clock A) (f : A → Method ops clock B)
      → Keeps m
      → ((a : A) → Keeps (f a))
      → Keeps (m >>= f)
  Keeps->>= m f km kf e e' b g h =
      let (a, s, h1, h2) = >>=-returned m f e h in
      let first = km e s a g h1 in Fewer-trans e s e' first (kf a s e' b first.0 h2)

  Keeps-if :
      {A : Type 0} (t : Bool) (m n : Method ops clock A)
      → Keeps m
      → Keeps n
      → Keeps (if t then m else n)
  Keeps-if true m n km kn = km
  Keeps-if false m n km kn = kn

  pub lifted-returned :
      (e e' : Engine ops clock) (r : Result ops.Store (Unit {0}))
      → lifted ops clock e r ≡ returned tt e'
      → (s : ops.Store) × (r ≡ returned tt s) × (s ≡ e'.lsm)
  lifted-returned e e' (returned a s) h =
      let (_, same) = returned_injective h in (s, refl, ap (λ (x : Engine ops clock). x.lsm) same)
  lifted-returned e e' (raises x s) h = cc

  -- What a removal and a write leave.
  pub remove-returned :
      (k : Bytes) (e e' : Engine ops clock)
      → k ≢ []
      → laws.IsStore e.lsm
      → remove ops clock k e ≡ returned tt e'
      → laws.IsStore e'.lsm
        × ((j : Bytes) → ops.get e'.lsm j ≡ (if bytes_eq k j then none else ops.get e.lsm j))
  remove-returned k e e' p g h =
      let (s, h1, same) = lifted-returned e e' (ops.delete k e.lsm) h in
      rw (← same) (laws.deletes k e.lsm s g p h1)

  pub put-returned :
      (k v : Bytes) (e e' : Engine ops clock)
      → k ≢ []
      → v ≢ tombstone
      → laws.IsStore e.lsm
      → put ops clock k v e ≡ returned tt e'
      → laws.IsStore e'.lsm
        × ((j : Bytes) → ops.get e'.lsm j ≡ (if bytes_eq k j then some v else ops.get e.lsm j))
  put-returned k v e e' p q g h =
      let (s, h1, same) = lifted-returned e e' (ops.put k v e.lsm) h in
      rw (← same) (laws.puts k v e.lsm s g p q h1)

  pub Keeps-remove : (k : Bytes) → k ≢ [] → Keeps (remove ops clock k)
  Keeps-remove k p e e' tt g h =
      let (g', r) = remove-returned k e e' p g h in
      (
        g',
        λ j. elim (Bool-cases (bytes_eq k j)) [
          | inl here ↦ inr (r j ∙ rw here refl)
          | inr there ↦ inl (r j ∙ rw there refl)
        ],
      )

  Keeps-read : (k : Bytes) → Keeps (read ops clock k)
  Keeps-read k e e' a g h = let (_, same) = returned_injective h in Fewer-same e e' g same

  Keeps-scan_all : (k : Bytes) → Keeps (scan_all ops clock k)
  Keeps-scan_all k e e' a g h = let (_, same) = returned_injective h in Fewer-same e e' g same

  Keeps-remove_all : (ks : List Bytes) → All (λ k. k ≢ []) ks → Keeps (remove_all ops clock ks)
  unfolding remove_all
  Keeps-remove_all [] p = Keeps-pure tt
  Keeps-remove_all (k ∷ ks) (p, ps) =
      Keeps->>= (remove ops clock k) (λ _. remove_all ops clock ks) (Keeps-remove k p)
        (λ _. Keeps-remove_all ks ps)

  pub starts_with-ne : (k : Bytes) (c : ℕ) (s : Bytes) → starts_with k (c ∷ s) ≡ true → k ≢ []
  unfolding starts_with
  starts_with-ne [] c s h = absurd (false-ne-true h)
  starts_with-ne (a ∷ k) c s h = cons-ne-nil a k

  pub with_prefix-ne :
      (c : ℕ) (s : Bytes) (d : Dict Bytes) → All (λ k. k ≢ []) (keys_in (with_prefix (c ∷ s) d))
  unfolding with_prefix
  with_prefix-ne c s [] = tt
  with_prefix-ne c s ((k, v) ∷ d) = elim (Bool-cases (starts_with k (c ∷ s))) [
    | inl on ↦ rw on (starts_with-ne k c s on, with_prefix-ne c s d)
    | inr off ↦ rw off tt
  ]

  Keeps-remove_prefix : (c : ℕ) (s : Bytes) → Keeps (remove_prefix ops clock (c ∷ s))
  unfolding remove_prefix
  Keeps-remove_prefix c s =
      Keeps->>= (scan_all ops clock (c ∷ s)) _ (Keeps-scan_all (c ∷ s))
        (λ d. Keeps-remove_all (keys_in (with_prefix (c ∷ s) d)) (with_prefix-ne c s d))

  Keeps-remove_elements : (n : ℕ) (key : Bytes) (i : ℤ) → Keeps (remove_elements ops clock n key i)
  unfolding remove_elements
  Keeps-remove_elements zero key i = Keeps-pure tt
  Keeps-remove_elements (suc n) key i =
      Keeps->>= (remove ops clock (element_key key i)) _
        (Keeps-remove (element_key key i) (cons-ne-nil _ _))
        (λ _. Keeps-remove_elements n key (i +ℤ pos 1))

  Keeps-get_list_meta : (key : Bytes) → Keeps (get_list_meta ops clock key)
  unfolding get_list_meta
  Keeps-get_list_meta key =
      Keeps->>= (read ops clock (meta_key key)) _ (Keeps-read (meta_key key))
        (λ o. Keeps-pure (list_meta o))

  Keeps-remove_list : (key : Bytes) → Keeps (remove_list ops clock key)
  unfolding remove_parts
  Keeps-remove_list key = Keeps->>= (get_list_meta ops clock key) _ (Keeps-get_list_meta key) (λ m.
      Keeps->>= (remove_elements ops clock (to_ℕ (m.1 -ℤ m.0)) key m.0) _
        (Keeps-remove_elements (to_ℕ (m.1 -ℤ m.0)) key m.0)
        (λ _. Keeps-remove (meta_key key) (cons-ne-nil _ _)))

  pub Keeps-remove_parts : (t key : Bytes) → Keeps (remove_parts ops clock t key)
  unfolding remove_parts
  Keeps-remove_parts t key =
      Keeps-if (bytes_eq t (codes "string")) _ _ (Keeps-remove (value_key key) (cons-ne-nil _ _)) (
        Keeps-if (bytes_eq t (codes "hash")) _ _ (Keeps-remove_prefix _ _) (
          Keeps-if (bytes_eq t (codes "list")) _ _ (Keeps-remove_list key) (
            Keeps-if (bytes_eq t (codes "set")) _ _ (Keeps-remove_prefix _ _) (
              Keeps-if (bytes_eq t (codes "zset")) _ _ (Keeps-remove_prefix _ _) (Keeps-pure tt)))))

  Keeps-purge_type : (key : Bytes) (o : Option Bytes) → Keeps (purge_type ops clock key o)
  unfolding purge_key
  Keeps-purge_type key none = Keeps-remove (exp_key key) (cons-ne-nil _ _)
  Keeps-purge_type key (some []) = Keeps-remove (exp_key key) (cons-ne-nil _ _)
  Keeps-purge_type key (some (c ∷ t)) =
      Keeps-if (is_utf8 (c ∷ t)) (remove_typed ops clock (c ∷ t) key) (raises value_error)
        (Keeps->>= (remove ops clock (type_key key)) _
          (Keeps-remove (type_key key) (cons-ne-nil _ _))
          (λ _.
            Keeps->>= (remove ops clock (exp_key key)) _
              (Keeps-remove (exp_key key) (cons-ne-nil _ _)) (λ _. Keeps-remove_parts (c ∷ t) key)))
        (λ e e' a g h. let bad : raises value_error e ≡ returned a e' = h in cc)

  pub Keeps-purge_key : (key : Bytes) → Keeps (purge_key ops clock key)
  unfolding purge_key
  Keeps-purge_key key =
      Keeps->>= (read ops clock (type_key key)) _ (Keeps-read (type_key key))
        (λ o. Keeps-purge_type key o)

  -- The purge of a key, if it comes to that, raises no ValueError.
  abbrev pub Quiet : Bytes → Engine ops clock → Type 0
  Quiet key e = (s : Engine ops clock) → purge_key ops clock key e ≢ raises value_error s

  purged_by-quiet :
      (r : Result (Engine ops clock) (Unit {0})) (b : Bool) (s : Engine ops clock)
      → ((t : Engine ops clock) → r ≢ raises value_error t)
      → purged_by ops clock r ≡ returned b s
      → (r ≡ returned tt s) × (b ≡ true)
  purged_by-quiet (returned _ t) b s q h =
      let (shown, same) = returned_injective h in
      (ap (λ (x : Engine ops clock). returned tt x) same, sym shown)
  purged_by-quiet (raises value_error t) b s q h = absurd (q t refl)
  purged_by-quiet (raises other_error t) b s q h = cc

  is_due_or_not :
      (due b : Bool) (key : Bytes) (e s : Engine ops clock)
      → Quiet key e
      → (if due then purge_caught ops clock key else pure ops clock false) e ≡ returned b s
      → (b ≡ due) × (if due then purge_key ops clock key e ≡ returned tt s else e ≡ s)
  is_due_or_not true b key e s q h =
      let (r, shown) = purged_by-quiet (purge_key ops clock key e) b s q h in (shown, r)
  is_due_or_not false b key e s q h = let (shown, same) = returned_injective h in (sym shown, same)

  -- The expiry of a key whose purge is quiet: it tells whether the key was due, and purged it then.
  pub is_expired-Quiet :
      (now : clock.Time) (key : Bytes) (e s : Engine ops clock) (b : Bool)
      → Quiet key e
      → is_expired ops clock now key e ≡ returned b s
      → (b ≡ is_due ops clock now (ops.get e.lsm (exp_key key)))
        × (if is_due ops clock now (ops.get e.lsm (exp_key key))
            then purge_key ops clock key e ≡ returned tt s
            else e ≡ s)
  unfolding is_expired
  is_expired-Quiet now key e s b q h =
      is_due_or_not (is_due ops clock now (ops.get e.lsm (exp_key key))) b key e s q h

  pub Fewer-is_expired :
      (now : clock.Time) (key : Bytes) (e s : Engine ops clock) (b : Bool)
      → laws.IsStore e.lsm
      → Quiet key e
      → is_expired ops clock now key e ≡ returned b s
      → Fewer e s
  Fewer-is_expired now key e s b g q h =
      by_due (is_due ops clock now (ops.get e.lsm (exp_key key)))
        (is_expired-Quiet now key e s b q h).1
    where
      by_due :
          (due : Bool)
          → (if due then purge_key ops clock key e ≡ returned tt s else e ≡ s)
          → Fewer e s
      by_due true r = Keeps-purge_key key e s tt g r
      by_due false same = Fewer-same e s g same

  after_expiry :
      {A : Type 0} (due b : Bool) (key : Bytes) (missing : A) (m : Method ops clock A)
      (e s e' : Engine ops clock) (a : A)
      → laws.IsStore e.lsm
      → Quiet key e
      → b ≡ due
      → (if due then purge_key ops clock key e ≡ returned tt s else e ≡ s)
      → (m e ≡ returned a e' → Fewer e e')
      → (if b then pure ops clock missing else m) s ≡ returned a e'
      → Fewer e e'
  after_expiry true true key missing m e s e' a g q t r f h =
      let (_, same) = returned_injective h in subst (Fewer e) same (Keeps-purge_key key e s tt g r)
  after_expiry true false key missing m e s e' a g q t r f h = absurd (false-ne-true t)
  after_expiry false true key missing m e s e' a g q t r f h = absurd (false-ne-true (sym t))
  after_expiry false false key missing m e s e' a g q t r f h =
      f (ap (λ (x : Engine ops clock). m x) r ∙ h)

  -- Unless the key has expired, a method that removes at most.
  Fewer-unless_expired :
      {A : Type 0} (now : clock.Time) (key : Bytes) (missing : A) (m : Method ops clock A)
      (e e' : Engine ops clock) (a : A)
      → laws.IsStore e.lsm
      → Quiet key e
      → (m e ≡ returned a e' → Fewer e e')
      → (is_expired ops clock now key >>= λ t. if t then pure ops clock missing else m) e
        ≡ returned a e'
      → Fewer e e'
  Fewer-unless_expired now key missing m e e' a g q f h =
      let (b, s, h1, h2) = >>=-returned (is_expired ops clock now key) _ e h in
      let (t, r) = is_expired-Quiet now key e s b q h1 in
      after_expiry (is_due ops clock now (ops.get e.lsm (exp_key key))) b key missing m e s e' a g q
        t r f h2

  Fewer-get :
      (now : clock.Time) (key : Bytes) (e e' : Engine ops clock) (o : Option Bytes)
      → laws.IsStore e.lsm
      → Quiet key e
      → get ops clock now key e ≡ returned o e'
      → Fewer e e'
  unfolding get
  Fewer-get now key e e' o g q h =
      Fewer-unless_expired now key none (read ops clock (value_key key)) e e' o g q
        (λ r. Keeps-read (value_key key) e e' o g r) h

  pub Fewer-existing :
      (now : clock.Time) (key : Bytes) (e e' : Engine ops clock) (o : Option Bytes)
      → laws.IsStore e.lsm
      → Quiet key e
      → existing ops clock now key e ≡ returned o e'
      → Fewer e e'
  unfolding existing
  Fewer-existing now key e e' o g q h =
      Fewer-unless_expired now key none (get ops clock now key) e e' o g q
        (λ r. Fewer-get now key e e' o g q r) h
