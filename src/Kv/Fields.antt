-- ===== src/Kv/Fields.antt =====
-- What the fields of a hash read as after an hset.
use mathlib.Core.Path.{subst}
use mathlib.Core.List.{cons-ne-nil}
use zenith_db.Prelude.{
  ℕ, ◌≡◌, ◌≢◌, refl, sym, ap, ◌∙◌, Bool, false, Option, some, if◌then◌else◌, is_none,
}
use zenith_db.Bytes.{Bytes, bytes_eq, codes}
use zenith_db.Bytes.Order.{bytes_eq_refl, bytes_eq-append}
use zenith_db.Lsm.MemTable.{tombstone}
use zenith_db.Txn.{type_key, exp_key}
use zenith_db.Python.Utf8.{is_utf8}
use zenith_db.Kv.{returned, StoreOps, StoreLaws, Clock, >>=-returned, >>=-eq, returned_injective}
use zenith_db.Kv.Keys.{
  Engine, pure, put, is_expired, is_due, key_type, purge_caught, type_name, hash_prefix,
}
use zenith_db.Kv.Hashes.{field_key, hset, hget}
use zenith_db.Kv.Keeps.{put-returned}

hash-ne-tombstone : codes "hash" ≢ tombstone
hash-ne-tombstone h = cc

module _ (ops : StoreOps) (clock : Clock) where
  -- The key has not expired at a time.
  abbrev pub IsFresh : clock.Time → Bytes → Engine ops clock → Type 0
  IsFresh now key e = is_due ops clock now (ops.get e.lsm (exp_key key)) ≡ false

  pub is_expired-IsFresh :
      (now : clock.Time) (key : Bytes) (e : Engine ops clock)
      → IsFresh now key e
      → is_expired ops clock now key e ≡ returned false e
  unfolding is_expired
  is_expired-IsFresh now key e h =
      ap (λ (b : Bool). (if b then purge_caught ops clock key else pure ops clock false) e) h

  pub hget-IsFresh :
      (now : clock.Time) (key field : Bytes) (e : Engine ops clock)
      → IsFresh now key e
      → hget ops clock now key field e ≡ returned (ops.get e.lsm (field_key key field)) e
  unfolding hget
  hget-IsFresh now key field e h =
      >>=-eq (is_expired ops clock now key) _ e e (is_expired-IsFresh now key e h)

  key_type-IsFresh :
      (now : clock.Time) (key t : Bytes) (e : Engine ops clock)
      → IsFresh now key e
      → ops.get e.lsm (type_key key) ≡ some t
      → key_type ops clock now key e ≡ type_name ops clock (some t) e
  unfolding key_type
  key_type-IsFresh now key t e h g =
      >>=-eq (is_expired ops clock now key) _ e e (is_expired-IsFresh now key e h)
      ∙ ap (λ (o : Option Bytes). type_name ops clock o e) g

module _ (ops : StoreOps) (clock : Clock) (laws : StoreLaws ops) where
  -- In a well-formed store, on a key that has not expired, an hset that returns, of a value that is
  -- not the marker of a deletion, tells whether the field was new, the store
  -- is well formed, the key is a hash, and until it expires the field reads as the value and every
  -- other field as it stood before.
  pub hget-hset :
      (now later : clock.Time) (key field v : Bytes) (n : ℕ) (e e' : Engine ops clock)
      → v ≢ tombstone
      → laws.IsStore e.lsm
      → IsFresh ops clock now key e
      → IsFresh ops clock later key e
      → hset ops clock now key field v e ≡ returned n e'
      → laws.IsStore e'.lsm
        × (n ≡ (if is_none (ops.get e.lsm (field_key key field)) then 1 else 0))
        × (key_type ops clock later key e' ≡ returned (codes "hash") e')
        × ((j : Bytes)
            → hget ops clock later key j e'
              ≡ returned (if bytes_eq field j then some v else ops.get e.lsm (field_key key j)) e')
  unfolding hset bytes_eq key_type is_utf8
  hget-hset now later key field v n e e' ne g fresh still h =
      let start =
        >>=-eq (is_expired ops clock now key) _ e e
          (is_expired-IsFresh ops clock now key e fresh) in
      let (_, s1, h1, k1) =
        >>=-returned (put ops clock (field_key key field) v) _ e (sym start ∙ h) in
      let (_, s2, h2, k2) = >>=-returned (put ops clock (type_key key) (codes "hash")) _ s1 k1 in
      let (number, same) = returned_injective k2 in
      let (g1, r1) =
        put-returned ops clock laws (field_key key field) v e s1 (cons-ne-nil _ _) ne g h1 in
      let (g2, r2) =
        put-returned ops clock laws (type_key key) (codes "hash") s1 s2 (cons-ne-nil _ _)
          hash-ne-tombstone g1 h2 in
      let later_fresh : IsFresh ops clock later key s2 =
        ap (is_due ops clock later) (r2 (exp_key key) ∙ r1 (exp_key key)) ∙ still in
      let shown : (j : Bytes)
          → hget ops clock later key j s2
            ≡ returned (if bytes_eq field j then some v else ops.get e.lsm (field_key key j)) s2 =
        λ j.
          hget-IsFresh ops clock later key j s2 later_fresh
          ∙ ap (λ (o : Option Bytes). returned o s2)
              (r2 (field_key key j)
                ∙ r1 (field_key key j)
                ∙ ap (λ (b : Bool). if b then some v else ops.get e.lsm (field_key key j))
                    (bytes_eq-append (hash_prefix key) field j)) in
      let tag =
        key_type-IsFresh ops clock later key (codes "hash") s2 later_fresh
          (r2 (type_key key) ∙ rw (bytes_eq_refl (type_key key)) refl) in
      (
        subst (λ (x : Engine ops clock). laws.IsStore x.lsm) same g2,
        sym number,
        subst (λ (x : Engine ops clock). key_type ops clock later key x ≡ returned (codes "hash") x)
            same tag,
        λ j.
            subst
              (λ (x : Engine ops clock).
                hget ops clock later key j x
                ≡ returned (if bytes_eq field j then some v else ops.get e.lsm (field_key key j)) x)
              same (shown j),
      )
