-- ===== src/Kv/Reads.antt =====
-- What a string reads as after a set.
use zenith_db.Prelude.{
  ◌≡◌, ◌≢◌, refl, ap, ◌∙◌, Bool, true, false, not, ◌&&◌, Option, none, some, if◌then◌else◌, is_none,
}
use mathlib.Core.List.{cons-ne-nil}
use zenith_db.Bytes.{Bytes, bytes_eq, codes}
use zenith_db.Bytes.Order.{bytes_eq_refl}
use zenith_db.Lsm.MemTable.{tombstone}
use zenith_db.Txn.{value_key, type_key, exp_key}
use zenith_db.Python.Utf8.{is_utf8}
use zenith_db.Kv.{returned, StoreOps, StoreLaws, Clock, >>=-returned, >>=-eq, returned_injective}
use zenith_db.Kv.Keys.{
  Engine, Method, pure, put, remove, persist, is_expired, is_due, key_type, purge_caught, type_name,
  persist_by,
}
use zenith_db.Kv.Strings.{get, set, existing, write_string}
use zenith_db.Kv.Keeps.{put-returned, remove-returned, Quiet, Fewer-existing}

false-ne-true : false ≡ true → ⊥
false-ne-true h = cc

pub string-ne-tombstone : codes "string" ≢ tombstone
string-ne-tombstone h = cc

module _ (ops : StoreOps) (clock : Clock) where
  -- The key holds the string `v` and has no expiry.
  pub record HasString (key v : Bytes) (e : Engine ops clock) : Type 0 where
    pub value : ops.get e.lsm (value_key key) ≡ some v
    pub tag : ops.get e.lsm (type_key key) ≡ some (codes "string")
    pub lasting : ops.get e.lsm (exp_key key) ≡ none

  pub is_expired-lasting :
      (later : clock.Time) (key : Bytes) (e : Engine ops clock)
      → ops.get e.lsm (exp_key key) ≡ none
      → is_expired ops clock later key e ≡ returned false e
  unfolding is_expired is_due
  is_expired-lasting later key e h =
      ap
        (λ (o : Option Bytes).
          (if is_due ops clock later o then purge_caught ops clock key else pure ops clock false) e)
        h

  pub get-HasString :
      (later : clock.Time) (key v : Bytes) (e : Engine ops clock)
      → HasString key v e
      → get ops clock later key e ≡ returned (some v) e
  unfolding get
  get-HasString later key v e h =
      >>=-eq (is_expired ops clock later key) _ e e (is_expired-lasting later key e h.lasting)
      ∙ ap (λ (o : Option Bytes). returned o e) h.value

  key_type-HasString :
      (later : clock.Time) (key v : Bytes) (e : Engine ops clock)
      → HasString key v e
      → key_type ops clock later key e ≡ returned (codes "string") e
  unfolding key_type is_utf8
  key_type-HasString later key v e h =
      >>=-eq (is_expired ops clock later key) _ e e (is_expired-lasting later key e h.lasting)
      ∙ ap (λ (o : Option Bytes). type_name ops clock o e) h.tag

module _ (ops : StoreOps) (clock : Clock) (laws : StoreLaws ops) where
  persist_by-returned :
      (key v : Bytes) (e e' : Engine ops clock) (b : Bool) (o : Option Bytes)
      → laws.IsStore e.lsm
      → ops.get e.lsm (value_key key) ≡ some v
      → ops.get e.lsm (type_key key) ≡ some (codes "string")
      → ops.get e.lsm (exp_key key) ≡ o
      → persist_by ops clock key o e ≡ returned b e'
      → laws.IsStore e'.lsm × HasString ops clock key v e'
  unfolding persist bytes_eq
  persist_by-returned key v e e' b none g hv ht ho h =
      let (_, same) = returned_injective h in
      rw (← same) (g, record { value = hv; tag = ht; lasting = ho })
  persist_by-returned key v e e' b (some _) g hv ht ho h =
      let (tt, s, h1, h2) = >>=-returned (remove ops clock (exp_key key)) _ e h in
      let (_, same) = returned_injective h2 in
      let (g', reads) = remove-returned ops clock laws (exp_key key) e s (cons-ne-nil _ _) g h1 in
      rw (← same) (
        g',
        record {
          value = reads (value_key key) ∙ hv;
          tag = reads (type_key key) ∙ ht;
          lasting = reads (exp_key key) ∙ rw (bytes_eq_refl (exp_key key)) refl;
        },
      )

  pub write_string-returned :
      (now : clock.Time) (key v : Bytes) (e e' : Engine ops clock) (b : Bool)
      → v ≢ tombstone
      → laws.IsStore e.lsm
      → write_string ops clock now key v none e ≡ returned b e'
      → laws.IsStore e'.lsm × HasString ops clock key v e'
  unfolding write_string persist bytes_eq
  write_string-returned now key v e e' b ne g h =
      let (_, s1, h1, k1) = >>=-returned (put ops clock (value_key key) v) _ e h in
      let (_, s2, h2, k2) = >>=-returned (put ops clock (type_key key) (codes "string")) _ s1 k1 in
      let (b', s3, h3, k3) = >>=-returned (persist ops clock key) _ s2 k2 in
      let (_, same) = returned_injective k3 in
      let (g1, r1) = put-returned ops clock laws (value_key key) v e s1 (cons-ne-nil _ _) ne g h1 in
      let (g2, r2) =
        put-returned ops clock laws (type_key key) (codes "string") s1 s2 (cons-ne-nil _ _)
          string-ne-tombstone g1 h2 in
      rw (← same) (
        persist_by-returned key v s2 s3 b' (ops.get s2.lsm (exp_key key)) g2
          (r2 (value_key key) ∙ r1 (value_key key) ∙ rw (bytes_eq_refl (value_key key)) refl)
          (r2 (type_key key) ∙ rw (bytes_eq_refl (type_key key)) refl) refl h3)

  pub passed :
      (t t' : Bool) (m : Method ops clock Bool) (e e' : Engine ops clock)
      → (if t then pure ops clock false else if t' then pure ops clock false else m) e
        ≡ returned true e'
      → m e ≡ returned true e'
  passed true t' m e e' h = let (bad, _) = returned_injective h in absurd (false-ne-true bad)
  passed false true m e e' h = let (bad, _) = returned_injective h in absurd (false-ne-true bad)
  passed false false m e e' h = h

  -- In a well-formed store where the purge of the key, if it comes to that, raises no ValueError,
  -- after a set without expiry that returns True, of a value that is not the marker of a deletion,
  -- whatever it purged on its way and under any of the conditions nx and xx, the store is well
  -- formed, the key reads as the value at any time, and its type is string.
  pub get-set_string :
      (now later : clock.Time) (key v : Bytes) (nx xx : Bool) (e e' : Engine ops clock)
      → v ≢ tombstone
      → laws.IsStore e.lsm
      → Quiet ops clock laws key e
      → set ops clock now key v none nx xx e ≡ returned true e'
      → laws.IsStore e'.lsm
        × (get ops clock later key e' ≡ returned (some v) e')
        × (key_type ops clock later key e' ≡ returned (codes "string") e')
  unfolding set
  get-set_string now later key v nx xx e e' ne g q h =
      let (found, s, h1, k1) = >>=-returned (existing ops clock now key) _ e h in
      let (g1, _) = Fewer-existing ops clock laws now key e s found g q h1 in
      let k2 =
        passed (nx && not (is_none found)) (xx && is_none found)
          (write_string ops clock now key v none) s e' k1 in
      let (g2, has) = write_string-returned now key v s e' true ne g1 k2 in
      (
        g2,
        get-HasString ops clock later key v e' has,
        key_type-HasString ops clock later key v e' has,
      )
