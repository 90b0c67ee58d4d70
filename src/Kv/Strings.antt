-- ===== src/Kv/Strings.antt =====
-- Strings. `set` is given the bytes that it makes of its value.
use zenith_db.Prelude.{
  ℕ, Bool, true, false, not, ◌&&◌, Option, none, some, List, [], ◌∷◌, ◌++◌, if◌then◌else◌, length,
  is_none,
}
use zenith_db.Bytes.{Bytes, codes}
use zenith_db.Dict.{Dict}
use zenith_db.Python.Int.{ℤ, pos, neg, ◌+ℤ◌, ltb_ℤ}
use zenith_db.Python.Decimal.{str_int, parse_int}
use zenith_db.Txn.{value_key, type_key}
use zenith_db.Kv.{raises, other_error, ◌>>=◌, ◌>>◌, StoreOps, Clock, Texts}
use zenith_db.Kv.Keys.{Method, pure, read, put, is_expired, expire, persist}

module _ (ops : StoreOps) (clock : Clock) where
  -- `get`; a text is its bytes.
  unfoldable pub get : clock.Time → Bytes → Method ops clock (Option Bytes)
  get now key = do
    expired ← is_expired ops clock now key
    (if expired then pure ops clock none else read ops clock (value_key key))

  -- `if ex is not None and ex > 0`
  expire_or_persist : clock.Time → Bytes → Option ℤ → Method ops clock Bool
  expire_or_persist now key none = persist ops clock key
  expire_or_persist now key (some seconds) =
      if ltb_ℤ (pos 0) seconds then expire ops clock now key seconds else persist ops clock key

  -- What `set` does once its conditions are met.
  unfoldable pub write_string : clock.Time → Bytes → Bytes → Option ℤ → Method ops clock Bool
  unfolding expire_or_persist
  write_string now key payload ex = do
    put ops clock (value_key key) payload
    put ops clock (type_key key) (codes "string")
    expire_or_persist now key ex
    pure ops clock true

  -- `existing`
  unfoldable pub existing : clock.Time → Bytes → Method ops clock (Option Bytes)
  existing now key = do
    is_exp ← is_expired ops clock now key
    (if is_exp then pure ops clock none else get now key)

  unfoldable pub set : clock.Time → Bytes → Bytes → Option ℤ → Bool → Bool → Method ops clock Bool
  set now key payload ex nx xx = do
    found ← existing now key
    (if nx && not (is_none found)
        then pure ops clock false
        else if xx && is_none found
        then pure ops clock false
        else write_string now key payload ex)

  abbrev pub setnx : clock.Time → Bytes → Bytes → Method ops clock Bool
  setnx now key payload = set now key payload none true false

  unfoldable pub mget : clock.Time → List Bytes → Method ops clock (List (Option Bytes))
  mget now [] = pure ops clock []
  mget now (k ∷ ks) = do v ← get now k; vs ← mget now ks; pure ops clock (v ∷ vs)

  unfoldable pub mset : clock.Time → Dict Bytes → Method ops clock Bool
  mset now [] = pure ops clock true
  mset now ((k, v) ∷ mapping) = set now k v none false false >>= λ _. mset now mapping

  pub store_number : clock.Time → Bytes → ℤ → Method ops clock ℤ
  store_number now key new_val = do
    set now key (str_int new_val) none false false
    pure ops clock new_val

  -- The TypeError of a value that is no number is `raises`.
  pub add_number : clock.Time → Bytes → ℤ → Option ℤ → Method ops clock ℤ
  add_number now key amount none = raises other_error
  add_number now key amount (some n) = store_number now key (n +ℤ amount)

  pub add_to : clock.Time → Bytes → ℤ → Option Bytes → Method ops clock ℤ
  add_to now key amount none = store_number now key amount
  add_to now key amount (some val) = add_number now key amount (parse_int val)

  unfoldable pub incrby : clock.Time → Bytes → ℤ → Method ops clock ℤ
  unfolding add_to add_number store_number
  incrby now key amount = do val ← get now key; add_to now key amount val

  abbrev pub decrby : clock.Time → Bytes → ℤ → Method ops clock ℤ
  decrby now key amount = incrby now key (neg amount)

  module _ (texts : Texts) where
    -- `str(curr)`
    as_text : Option Bytes → Bytes
    as_text none = []
    as_text (some []) = []
    as_text (some (c ∷ curr)) = if texts.decodes (c ∷ curr) then c ∷ curr else texts.repr (c ∷ curr)

    unfoldable pub append : clock.Time → Bytes → Bytes → Method ops clock ℕ
    unfolding as_text
    append now key val_to_append = do
      curr ← get now key
      set now key (as_text curr ++ val_to_append) none false false
      pure ops clock (texts.size (as_text curr ++ val_to_append))

    abbrev value_size : Option Bytes → ℕ
    value_size none = 0
    value_size (some val) = if texts.decodes val then texts.size val else length val

    unfoldable pub strlen : clock.Time → Bytes → Method ops clock ℕ
    strlen now key = do val ← get now key; pure ops clock (value_size val)
