-- ===== src/Kv/Deletes.antt =====
-- What a removal of a hash, a set or a sorted set leaves.
use mathlib.Core.List.{cons-ne-nil}
use mathlib.Core.Path.{subst}
use zenith_db.Prelude.{
  ℕ, ◌≡◌, ◌≢◌, refl, sym, ap, ◌∙◌, Bool, true, false, not, ◌||◌, Option, none, some, List, [], ◌∷◌,
  ◌++◌, arith, All, is_none, if◌then◌else◌,
}
use zenith_db.Bytes.{Bytes, bytes_eq, codes}
use zenith_db.Bytes.Order.{bytes_eq_refl}
use zenith_db.Python.Sets.{contains}
use zenith_db.Txn.{type_key, exp_key}
use zenith_db.Python.Utf8.{is_utf8}
use zenith_db.Kv.{
  returned, ◌>>=◌, StoreOps, StoreLaws, ScanLaws, Clock, >>=-returned, >>=-eq, returned_injective,
}
use zenith_db.Kv.Keys.{
  Engine, remove, remove_all, remove_prefix, remove_parts, purge_type, purge_key, delete, key_type,
  is_expired, type_name, with_prefix, keys_in, hash_prefix, set_prefix, zset_prefix,
}
use zenith_db.Kv.Keeps.{remove-returned, with_prefix-ne}
use zenith_db.Kv.Reads.{is_expired-lasting}
use zenith_db.Kv.Scans.{lookup-scan_prefix, contains-keys_in}

-- The types whose parts stand behind a prefix.
pub data Kind : Type 0 where
  hashes sets sorted_sets : Kind

abbrev pub tag_of : Kind → Bytes
tag_of hashes = codes "hash"
tag_of sets = codes "set"
tag_of sorted_sets = codes "zset"

abbrev pub parts_prefix : Kind → Bytes → Bytes
parts_prefix hashes key = hash_prefix key
parts_prefix sets key = set_prefix key
parts_prefix sorted_sets key = zset_prefix key

module _ (ops : StoreOps) (clock : Clock) (laws : StoreLaws ops) where
  -- Reads after the removal of some keys.
  record Removed (ks : List Bytes) (e e' : Engine ops clock) : Type 0 where
    good : laws.IsStore e'.lsm
    reads : (j : Bytes) → ops.get e'.lsm j ≡ (if contains j ks then none else ops.get e.lsm j)

  twice :
      (b c : Bool) (o : Option Bytes)
      → (if b then none else if c then none else o) ≡ (if c || b then none else o)
  twice b c o = ground arith

  remove_all-Removed :
      (ks : List Bytes) (e e' : Engine ops clock)
      → All (λ k. k ≢ []) ks
      → laws.IsStore e.lsm
      → remove_all ops clock ks e ≡ returned tt e'
      → Removed ks e e'
  unfolding remove_all contains
  remove_all-Removed [] e e' n g h =
      let (_, same) = returned_injective h in
      record {
        good = subst (λ (x : Engine ops clock). laws.IsStore x.lsm) same g;
        reads = λ j. ap (λ (x : Engine ops clock). ops.get x.lsm j) (sym same);
      }
  remove_all-Removed (k ∷ ks) e e' (p, n) g h =
      let (_, s, h1, k1) = >>=-returned (remove ops clock k) _ e h in
      let (g1, r1) = remove-returned ops clock laws k e s p g h1 in
      let rest = remove_all-Removed ks s e' n g1 k1 in
      record {
        good = rest.good;
        reads = λ j.
            rest.reads j
            ∙ ap (λ (o : Option Bytes). if contains j ks then none else o) (r1 j)
            ∙ twice (contains j ks) (bytes_eq k j) (ops.get e.lsm j);
      }

  still_none : (b : Bool) (o : Option Bytes) → o ≡ none → (if b then none else o) ≡ none
  still_none true o h = refl
  still_none false o h = h

  Removed-none :
      (ks : List Bytes) (e e' : Engine ops clock) (j : Bytes)
      → Removed ks e e'
      → ops.get e.lsm j ≡ none
      → ops.get e'.lsm j ≡ none
  Removed-none ks e e' j r h = r.reads j ∙ still_none (contains j ks) (ops.get e.lsm j) h

  module _ (scans : ScanLaws ops laws) where
    -- Nothing is left behind a prefix, and nothing comes up elsewhere.
    record Cleared (p : Bytes) (e e' : Engine ops clock) : Type 0 where
      kept : laws.IsStore e'.lsm
      gone : (j : Bytes) → ops.get e'.lsm (p ++ j) ≡ none
      stays : (j : Bytes) → ops.get e.lsm j ≡ none → ops.get e'.lsm j ≡ none

    unless_there : (o : Option Bytes) → (if not (is_none o) then none else o) ≡ none
    unless_there none = refl
    unless_there (some v) = refl

    remove_prefix-Cleared :
        (c : ℕ) (p : Bytes) (e e' : Engine ops clock)
        → laws.IsStore e.lsm
        → remove_prefix ops clock (c ∷ p) e ≡ returned tt e'
        → Cleared (c ∷ p) e e'
    unfolding remove_prefix
    remove_prefix-Cleared c p e e' g h =
        let found = with_prefix (c ∷ p) (ops.scan e.lsm (c ∷ p)) in
        let r =
          remove_all-Removed (keys_in found) e e'
            (with_prefix-ne ops clock laws c p (ops.scan e.lsm (c ∷ p))) g h in
        record {
          kept = r.good;
          gone = λ j.
              r.reads ((c ∷ p) ++ j)
              ∙ ap (λ (b : Bool). if b then none else ops.get e.lsm ((c ∷ p) ++ j))
                  (contains-keys_in ((c ∷ p) ++ j) found
                    ∙ ap (λ o. not (is_none o))
                        (lookup-scan_prefix ops laws scans e.lsm (c ∷ p) j g))
              ∙ unless_there (ops.get e.lsm ((c ∷ p) ++ j));
          stays = λ j q. Removed-none (keys_in found) e e' j r q;
        }

    remove_parts-Cleared :
        (t : Kind) (key : Bytes) (e e' : Engine ops clock)
        → laws.IsStore e.lsm
        → remove_parts ops clock (tag_of t) key e ≡ returned tt e'
        → Cleared (parts_prefix t key) e e'
    unfolding remove_parts bytes_eq
    remove_parts-Cleared hashes key e e' g h = remove_prefix-Cleared _ _ e e' g h
    remove_parts-Cleared sets key e e' g h = remove_prefix-Cleared _ _ e e' g h
    remove_parts-Cleared sorted_sets key e e' g h = remove_prefix-Cleared _ _ e e' g h

    -- A key of which nothing is left.
    record IsGone (p key : Bytes) (e : Engine ops clock) : Type 0 where
      well : laws.IsStore e.lsm
      parts : (j : Bytes) → ops.get e.lsm (p ++ j) ≡ none
      tag : ops.get e.lsm (type_key key) ≡ none
      lasting : ops.get e.lsm (exp_key key) ≡ none

    purge_type-IsGone :
        (t : Kind) (key : Bytes) (e e' : Engine ops clock)
        → laws.IsStore e.lsm
        → purge_type ops clock key (some (tag_of t)) e ≡ returned tt e'
        → IsGone (parts_prefix t key) key e'
    unfolding purge_key bytes_eq is_utf8
    purge_type-IsGone t key e e' g h =
        let (_, s1, h1, k1) = >>=-returned (remove ops clock (type_key key)) _ e (opened t h) in
        let (_, s2, h2, k2) = >>=-returned (remove ops clock (exp_key key)) _ s1 k1 in
        let (g1, r1) = remove-returned ops clock laws (type_key key) e s1 (cons-ne-nil _ _) g h1 in
        let (g2, r2) = remove-returned ops clock laws (exp_key key) s1 s2 (cons-ne-nil _ _) g1 h2 in
        let c = remove_parts-Cleared t key s2 e' g2 k2 in
        record {
          well = c.kept;
          parts = c.gone;
          tag =
              c.stays (type_key key)
                (r2 (type_key key) ∙ r1 (type_key key) ∙ rw (bytes_eq_refl (type_key key)) refl);
          lasting =
              c.stays (exp_key key) (r2 (exp_key key) ∙ rw (bytes_eq_refl (exp_key key)) refl);
        }
      where
        opened :
            (t : Kind)
            → purge_type ops clock key (some (tag_of t)) e ≡ returned tt e'
            → (remove ops clock (type_key key) >>= λ _.
                  remove ops clock (exp_key key) >>= λ _. remove_parts ops clock (tag_of t) key)
                e
              ≡ returned tt e'
        opened hashes h = h
        opened sets h = h
        opened sorted_sets h = h

    purge_key-IsGone :
        (t : Kind) (key : Bytes) (e e' : Engine ops clock)
        → laws.IsStore e.lsm
        → ops.get e.lsm (type_key key) ≡ some (tag_of t)
        → purge_key ops clock key e ≡ returned tt e'
        → IsGone (parts_prefix t key) key e'
    unfolding purge_key
    purge_key-IsGone t key e e' g q h =
        purge_type-IsGone t key e e' g
          (ap (λ (o : Option Bytes). purge_type ops clock key o e) (sym q) ∙ h)

    key_type-IsGone :
        (later : clock.Time) (p key : Bytes) (e : Engine ops clock)
        → IsGone p key e
        → key_type ops clock later key e ≡ returned (codes "none") e
    unfolding key_type
    key_type-IsGone later p key e h =
        >>=-eq (is_expired ops clock later key) _ e e
          (is_expired-lasting ops clock later key e h.lasting)
        ∙ ap (λ (o : Option Bytes). type_name ops clock o e) h.tag

    -- In a well-formed store that scans well, a delete of a key whose type is hash, set or zset that
    -- returns counts one key, the store is well formed, the key's type reads as none at any time,
    -- and no entry is left behind the prefix of its fields or members.
    pub delete-parts :
        (later : clock.Time) (t : Kind) (key : Bytes) (n : ℕ) (e e' : Engine ops clock)
        → laws.IsStore e.lsm
        → ops.get e.lsm (type_key key) ≡ some (tag_of t)
        → delete ops clock (key ∷ []) e ≡ returned n e'
        → ◌≡◌ {A = ℕ} n 1
          × laws.IsStore e'.lsm
          × (key_type ops clock later key e' ≡ returned (codes "none") e')
          × ((j : Bytes) → ops.get e'.lsm (parts_prefix t key ++ j) ≡ none)
    unfolding delete
    delete-parts later t key n e e' g q h =
        let (_, s, h1, k1) = >>=-returned (purge_key ops clock key) _ e (rw q at h) in
        let (number, same) = returned_injective k1 in
        let gone =
          subst (IsGone (parts_prefix t key) key) same (purge_key-IsGone t key e s g q h1) in
        (sym number, gone.well, key_type-IsGone later (parts_prefix t key) key e' gone, gone.parts)
