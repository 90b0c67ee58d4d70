-- ===== src/Kv/Hashes.antt =====
-- Hashes. A value is given as its `str`.
use zenith_db.Prelude.{
  ℕ, ◌+◌, Bool, not, Option, none, some, List, [], ◌∷◌, ◌++◌, if◌then◌else◌, length, drop, is_none,
}
use zenith_db.Bytes.{Bytes, codes}
use zenith_db.Dict
use zenith_db.Dict.{Dict}
use zenith_db.Python.Int.{ℤ, ◌+ℤ◌}
use zenith_db.Python.Decimal.{str_int, parse_int}
use zenith_db.Txn.{type_key}
use zenith_db.Kv.{raises, other_error, ◌>>=◌, ◌>>◌, StoreOps, Clock}
use zenith_db.Kv.Keys.{
  Method, pure, read, put, remove, scan_all, is_expired, hash_prefix, with_prefix, keys_in,
}

abbrev pub field_key : Bytes → Bytes → Bytes
field_key key field = hash_prefix key ++ field

-- The names behind a prefix, with their values.
unfoldable pub named_from : Bytes → Dict Bytes → Dict Bytes
named_from prefix [] = []
named_from prefix ((k, v) ∷ d) = (drop (length prefix) k, v) ∷ named_from prefix d

abbrev pub values_in : Dict Bytes → List Bytes
values_in [] = []
values_in ((k, v) ∷ d) = v ∷ values_in d

module _ (ops : StoreOps) (clock : Clock) where
  unfoldable pub hset : clock.Time → Bytes → Bytes → Bytes → Method ops clock ℕ
  hset now key field value = do
    is_expired ops clock now key
    found ← read ops clock (field_key key field)
    put ops clock (field_key key field) value
    put ops clock (type_key key) (codes "hash")
    pure ops clock (if is_none found then 1 else 0)

  unfoldable pub hget : clock.Time → Bytes → Bytes → Method ops clock (Option Bytes)
  hget now key field = do
    expired ← is_expired ops clock now key
    (if expired then pure ops clock none else read ops clock (field_key key field))

  -- `self.lsm.delete(f_key)` of an entry that was found.
  unfoldable pub remove_found : Bytes → Option Bytes → Method ops clock ℕ
  remove_found k none = pure ops clock 0
  remove_found k (some _) = do remove ops clock k; pure ops clock 1

  unfoldable pub hdel : Bytes → List Bytes → Method ops clock ℕ
  unfolding remove_found
  hdel key [] = pure ops clock 0
  hdel key (f ∷ fields) = do
    found ← read ops clock (field_key key f)
    one ← remove_found (field_key key f) found
    count ← hdel key fields
    pure ops clock (one + count)

  unfoldable pub hgetall : clock.Time → Bytes → Method ops clock (Dict Bytes)
  hgetall now key = do
    expired ← is_expired ops clock now key
    entries ← scan_all ops clock (hash_prefix key)
    pure ops clock (
        if expired
        then []
        else Dict.insert_all []
            (named_from (hash_prefix key) (with_prefix (hash_prefix key) entries)))

  unfoldable pub hkeys : clock.Time → Bytes → Method ops clock (List Bytes)
  hkeys now key = do all ← hgetall now key; pure ops clock (keys_in all)

  unfoldable pub hvals : clock.Time → Bytes → Method ops clock (List Bytes)
  hvals now key = do all ← hgetall now key; pure ops clock (values_in all)

  unfoldable pub hexists : clock.Time → Bytes → Bytes → Method ops clock Bool
  hexists now key field = do found ← hget now key field; pure ops clock (not (is_none found))

  unfoldable pub hlen : clock.Time → Bytes → Method ops clock ℕ
  hlen now key = do all ← hgetall now key; pure ops clock (length all)

  pub store_field : clock.Time → Bytes → Bytes → ℤ → Method ops clock ℤ
  store_field now key field new_val = do
    hset now key field (str_int new_val)
    pure ops clock new_val

  pub add_field : clock.Time → Bytes → Bytes → ℤ → Option ℤ → Method ops clock ℤ
  add_field now key field amount none = raises other_error
  add_field now key field amount (some n) = store_field now key field (n +ℤ amount)

  pub add_to_field : clock.Time → Bytes → Bytes → ℤ → Option Bytes → Method ops clock ℤ
  add_to_field now key field amount none = store_field now key field amount
  add_to_field now key field amount (some curr) = add_field now key field amount (parse_int curr)

  unfoldable pub hincrby : clock.Time → Bytes → Bytes → ℤ → Method ops clock ℤ
  unfolding store_field add_field add_to_field
  hincrby now key field amount = do
    curr ← hget now key field
    add_to_field now key field amount curr
