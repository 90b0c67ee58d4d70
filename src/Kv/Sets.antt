-- ===== src/Kv/Sets.antt =====
-- Sets: an entry `1` for each member. A member is given as its `str`.
use zenith_db.Prelude.{
  ℕ, ◌+◌, Bool, false, not, Option, none, some, List, [], ◌∷◌, ◌++◌, if◌then◌else◌, length, is_none,
}
use zenith_db.Bytes.{Bytes, codes}
use zenith_db.Python.Sets.{update, intersection_update, difference_update}
use zenith_db.Txn.{type_key}
use zenith_db.Kv.{◌>>=◌, StoreOps, Clock}
use zenith_db.Kv.Keys.{
  Method, pure, read, put, scan_all, is_expired, set_prefix, with_prefix, keys_in,
}
use zenith_db.Kv.Hashes.{named_from, remove_found}

abbrev pub member_key : Bytes → Bytes → Bytes
member_key key m = set_prefix key ++ m

module _ (ops : StoreOps) (clock : Clock) where
  -- The entry of a member that is not there yet.
  unfoldable pub add_missing : Bytes → Option Bytes → Method ops clock ℕ
  add_missing k none = put ops clock k (codes "1") >>= λ _. pure ops clock 1
  add_missing k (some _) = pure ops clock 0

  unfoldable pub add_members : Bytes → List Bytes → Method ops clock ℕ
  unfolding add_missing
  add_members key [] = pure ops clock 0
  add_members key (m ∷ members) = read ops clock (member_key key m) >>= λ found.
      add_missing (member_key key m) found >>= λ one.
      add_members key members >>= λ added. pure ops clock (one + added)

  unfoldable pub sadd : clock.Time → Bytes → List Bytes → Method ops clock ℕ
  sadd now key members = is_expired ops clock now key >>= λ _. add_members key members >>= λ added.
      put ops clock (type_key key) (codes "set") >>= λ _. pure ops clock added

  -- It does not ask whether the key has expired.
  unfoldable pub srem : Bytes → List Bytes → Method ops clock ℕ
  unfolding remove_found
  srem key [] = pure ops clock 0
  srem key (m ∷ members) = read ops clock (member_key key m) >>= λ found.
      remove_found ops clock (member_key key m) found >>= λ one.
      srem key members >>= λ count. pure ops clock (one + count)

  unfoldable pub smembers : clock.Time → Bytes → Method ops clock (List Bytes)
  smembers now key = is_expired ops clock now key >>= λ expired.
      scan_all ops clock (set_prefix key) >>= λ entries. pure ops clock (
        if expired
        then []
        else update []
            (keys_in (named_from (set_prefix key) (with_prefix (set_prefix key) entries))))

  unfoldable pub sismember : clock.Time → Bytes → Bytes → Method ops clock Bool
  sismember now key m = is_expired ops clock now key >>= λ expired.
      read ops clock (member_key key m) >>= λ found.
      pure ops clock (if expired then false else not (is_none found))

  unfoldable pub scard : clock.Time → Bytes → Method ops clock ℕ
  scard now key = smembers now key >>= λ members. pure ops clock (length members)

  -- The rest of a union, an intersection or a difference, by what it does with the next set.
  unfoldable pub combine :
      clock.Time
      → (List Bytes → List Bytes → List Bytes)
      → List Bytes
      → List Bytes
      → Method ops clock (List Bytes)
  combine now step result [] = pure ops clock result
  combine now step result (k ∷ keys) =
      smembers now k >>= λ members. combine now step (step result members) keys

  unfoldable pub sunion : clock.Time → List Bytes → Method ops clock (List Bytes)
  sunion now keys = combine now update [] keys

  unfoldable pub sinter : clock.Time → List Bytes → Method ops clock (List Bytes)
  sinter now [] = pure ops clock []
  sinter now (k ∷ keys) = smembers now k >>= λ result. combine now intersection_update result keys

  unfoldable pub sdiff : clock.Time → List Bytes → Method ops clock (List Bytes)
  sdiff now [] = pure ops clock []
  sdiff now (k ∷ keys) = smembers now k >>= λ result. combine now difference_update result keys
