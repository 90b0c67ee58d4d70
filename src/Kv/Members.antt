-- ===== src/Kv/Members.antt =====
-- What a set lists and says of its members, in a store that scans well.
use zenith_db.Prelude.{◌≡◌, sym, ap, ◌∙◌, Bool, not, Option, none, List, [], arith, is_none}
use zenith_db.Bytes.{Bytes}
use zenith_db.Dict
use zenith_db.Dict.{lookup, Dict, or_else}
use zenith_db.Dict.Filter.{lookup-insert_all}
use zenith_db.Python.Sets.{contains, update, contains-update}
use zenith_db.Kv.{returned, StoreOps, StoreLaws, ScanLaws, Clock, >>=-eq}
use zenith_db.Kv.Keys.{Engine, is_expired, set_prefix, hash_prefix, keys_in, with_prefix}
use zenith_db.Kv.Hashes.{named_from, hgetall, hget}
use zenith_db.Kv.Fields.{IsFresh, is_expired-IsFresh, hget-IsFresh}
use zenith_db.Kv.Sets.{member_key, smembers, sismember}
use zenith_db.Kv.Scans.{lookup-scan_named, scan_named-IsDict, contains-keys_in}

or_else-none : (o : Option Bytes) → or_else o none ≡ o
or_else-none o = ground arith

module _ (ops : StoreOps) (clock : Clock) where
  -- The store has an entry for the member.
  abbrev pub has_member : Bytes → Bytes → Engine ops clock → Bool
  has_member key m e = not (is_none (ops.get e.lsm (member_key key m)))

  -- What smembers gives of a key that has not expired.
  abbrev pub members_of : Bytes → Engine ops clock → List Bytes
  members_of key e = update [] (
      keys_in (
        named_from (set_prefix key)
          (with_prefix (set_prefix key) (ops.scan e.lsm (set_prefix key)))))

  pub smembers-IsFresh :
      (now : clock.Time) (key : Bytes) (e : Engine ops clock)
      → IsFresh ops clock now key e
      → smembers ops clock now key e ≡ returned (members_of key e) e
  unfolding smembers
  smembers-IsFresh now key e h =
      >>=-eq (is_expired ops clock now key) _ e e (is_expired-IsFresh ops clock now key e h)

  pub sismember-IsFresh :
      (now : clock.Time) (key m : Bytes) (e : Engine ops clock)
      → IsFresh ops clock now key e
      → sismember ops clock now key m e ≡ returned (has_member key m e) e
  unfolding sismember
  sismember-IsFresh now key m e h =
      >>=-eq (is_expired ops clock now key) _ e e (is_expired-IsFresh ops clock now key e h)

  module _ (laws : StoreLaws ops) (scans : ScanLaws ops laws) where
    pub contains-members_of :
        (key m : Bytes) (e : Engine ops clock)
        → laws.IsStore e.lsm
        → contains m (members_of key e) ≡ has_member key m e
    unfolding contains
    contains-members_of key m e g =
        contains-update m [] _
        ∙ contains-keys_in m _
        ∙ ap (λ o. not (is_none o)) (lookup-scan_named ops laws scans e.lsm (set_prefix key) m g)

    -- In a well-formed store that scans well, on a key that has not expired, smembers returns a set
    -- that has exactly the members of which sismember says so, and changes nothing.
    pub smembers-sismember :
        (now : clock.Time) (key : Bytes) (e : Engine ops clock)
        → laws.IsStore e.lsm
        → IsFresh ops clock now key e
        → (members : List Bytes) × (smembers ops clock now key e ≡ returned members e)
          × ((m : Bytes) → sismember ops clock now key m e ≡ returned (contains m members) e)
    smembers-sismember now key e g fresh = (
      members_of key e,
      smembers-IsFresh now key e fresh,
      λ m.
          sismember-IsFresh now key m e fresh
          ∙ ap (λ (b : Bool). returned b e) (sym (contains-members_of key m e g)),
    )

    -- In a well-formed store that scans well, on a key that has not expired, hgetall returns a
    -- dictionary that gives each field what hget gives, and changes nothing.
    pub hgetall-hget :
        (now : clock.Time) (key : Bytes) (e : Engine ops clock)
        → laws.IsStore e.lsm
        → IsFresh ops clock now key e
        → (all : Dict Bytes) × (hgetall ops clock now key e ≡ returned all e)
          × ((field : Bytes) → hget ops clock now key field e ≡ returned (lookup field all) e)
    unfolding hgetall lookup
    hgetall-hget now key e g fresh =
        let named =
          named_from (hash_prefix key)
            (with_prefix (hash_prefix key) (ops.scan e.lsm (hash_prefix key))) in
        (
          Dict.insert_all [] named,
          >>=-eq (is_expired ops clock now key) _ e e
              (is_expired-IsFresh ops clock now key e fresh),
          λ field.
              hget-IsFresh ops clock now key field e fresh
              ∙ ap (λ (o : Option Bytes). returned o e)
                  (sym (
                    lookup-insert_all field [] named
                      (scan_named-IsDict ops laws scans e.lsm (hash_prefix key) g)
                    ∙ or_else-none (lookup field named)
                    ∙ lookup-scan_named ops laws scans e.lsm (hash_prefix key) field g)),
        )
