-- ===== src/Kv/Keys.antt =====
-- Types, expiry and removal of keys.
use zenith_db.Prelude.{
  ℕ, zero, suc, ◌+◌, Bool, true, false, Option, none, some, List, [], ◌∷◌, ◌++◌, if◌then◌else◌,
}
use zenith_db.Bytes.{Bytes, bytes_eq, starts_with, codes}
use zenith_db.Dict.{Dict}
use zenith_db.Python.Int.{ℤ, pos, ◌+ℤ◌, ◌-ℤ◌, to_ℕ}
use zenith_db.Python.Decimal.{str_int, parse_int}
use zenith_db.Python.Text.{split_on}
use zenith_db.Python.Utf8.{is_utf8}
use zenith_db.Txn.{value_key, type_key, exp_key}
use zenith_db.Kv.{Result, returned, raises, value_error, other_error, ◌>>=◌, ◌>>◌, StoreOps, Clock}

-- The keys of fields, members and elements, `__H__:{key}:{field}` and so on.
abbrev pub hash_prefix : Bytes → Bytes
hash_prefix key = codes "__H__:" ++ (key ++ codes ":")

abbrev pub set_prefix : Bytes → Bytes
set_prefix key = codes "__S__:" ++ (key ++ codes ":")

abbrev pub zset_prefix : Bytes → Bytes
zset_prefix key = codes "__Z__:" ++ (key ++ codes ":")

abbrev pub element_key : Bytes → ℤ → Bytes
element_key key i = codes "__L__:" ++ (key ++ (codes ":" ++ str_int i))

abbrev pub meta_key : Bytes → Bytes
meta_key key = codes "__LMETA__:" ++ key

-- `s.split(":")`
unfoldable pub split_colon : Bytes → List Bytes
split_colon s = split_on 58 [] s

-- `head, tail = map(int, ….split(":"))`, and (0, 0) after any exception.
pub pair_of : List Bytes → ℤ × ℤ
pair_of (a ∷ b ∷ []) = elim (parse_int a) [
  | none ↦ (pos 0, pos 0)
  | some head ↦ elim (parse_int b) [ none ↦ (pos 0, pos 0) | some tail ↦ (head, tail) ]
]
pair_of fields = (pos 0, pos 0)

unfoldable pub list_meta : Option Bytes → ℤ × ℤ
unfolding pair_of
list_meta none = (pos 0, pos 0)
list_meta (some val) = pair_of (split_colon val)

-- The entries of a scan up to the first one without the prefix.
unfoldable pub with_prefix : Bytes → Dict Bytes → Dict Bytes
with_prefix prefix [] = []
with_prefix prefix ((k, v) ∷ d) =
    let more = with_prefix prefix d in if starts_with k prefix then (k, v) ∷ more else []

abbrev pub keys_in : Dict Bytes → List Bytes
keys_in [] = []
keys_in ((k, v) ∷ d) = k ∷ keys_in d

-- `ttl_heap` has what was pushed, the newest first: nothing takes anything off it.
pub record Engine (ops : StoreOps) (clock : Clock) : Type 0 where
  pub lsm : ops.Store
  pub ttl_heap : List (clock.Time × Bytes)

module _ (ops : StoreOps) (clock : Clock) where
  -- A method: it takes the engine and gives its value or raises.
  abbrev pub Method : Type 0 → Type 0
  Method A = Engine ops clock → Result (Engine ops clock) A

  abbrev pub pure : {A : Type 0} → A → Method A
  pure a e = returned a e

  abbrev pub read : Bytes → Method (Option Bytes)
  read k e = returned (ops.get e.lsm k) e

  abbrev pub scan_all : Bytes → Method (Dict Bytes)
  scan_all start e = returned (ops.scan e.lsm start) e

  -- The store's outcome, inside the engine.
  abbrev pub lifted :
      Engine ops clock → Result ops.Store (Unit {0}) → Result (Engine ops clock) (Unit {0})
  lifted e (returned _ s) = returned tt (record e { lsm = s })
  lifted e (raises x s) = raises x (record e { lsm = s })

  abbrev pub put : Bytes → Bytes → Method (Unit {0})
  put k v e = lifted e (ops.put k v e.lsm)

  abbrev pub remove : Bytes → Method (Unit {0})
  remove k e = lifted e (ops.delete k e.lsm)

  unfoldable pub remove_all : List Bytes → Method (Unit {0})
  remove_all [] = pure tt
  remove_all (k ∷ ks) = remove k >>= λ _. remove_all ks

  unfoldable pub remove_prefix : Bytes → Method (Unit {0})
  remove_prefix prefix = do
    entries ← scan_all prefix
    remove_all (keys_in (with_prefix prefix entries))

  -- `for i in range(head, tail)`, on the count of rounds.
  unfoldable pub remove_elements : ℕ → Bytes → ℤ → Method (Unit {0})
  remove_elements zero key i = pure tt
  remove_elements (suc n) key i =
      remove (element_key key i) >>= λ _. remove_elements n key (i +ℤ pos 1)

  -- `_get_list_meta`
  unfoldable pub get_list_meta : Bytes → Method (ℤ × ℤ)
  get_list_meta key = do val ← read (meta_key key); pure (list_meta val)

  pub remove_list : Bytes → Method (Unit {0})
  remove_list key = get_list_meta key >>= λ (m : ℤ × ℤ).
      remove_elements (to_ℕ (m.1 -ℤ m.0)) key m.0 >>= λ _. remove (meta_key key)

  -- What a key of some type has besides its type and expiry.
  unfoldable pub remove_parts : Bytes → Bytes → Method (Unit {0})
  unfolding remove_list
  remove_parts t key =
      if bytes_eq t (codes "string")
      then remove (value_key key)
      else if bytes_eq t (codes "hash")
      then remove_prefix (hash_prefix key)
      else if bytes_eq t (codes "list")
      then remove_list key
      else if bytes_eq t (codes "set")
      then remove_prefix (set_prefix key)
      else if bytes_eq t (codes "zset")
      then remove_prefix (zset_prefix key)
      else pure tt

  abbrev pub remove_typed : Bytes → Bytes → Method (Unit {0})
  remove_typed t key = do remove (type_key key); remove (exp_key key); remove_parts t key

  -- `if not t_bytes`, and otherwise `t_bytes.decode("utf-8")`
  pub purge_type : Bytes → Option Bytes → Method (Unit {0})
  purge_type key none = remove (exp_key key)
  purge_type key (some []) = remove (exp_key key)
  purge_type key (some (c ∷ t)) =
      if is_utf8 (c ∷ t) then remove_typed (c ∷ t) key else raises value_error

  -- `_purge_key_internal`
  unfoldable pub purge_key : Bytes → Method (Unit {0})
  unfolding purge_type
  purge_key key = do t_bytes ← read (type_key key); purge_type key t_bytes

  -- Whether a time stands in the entry of the expiry and has come.
  unfoldable pub is_due : clock.Time → Option Bytes → Bool
  is_due now none = false
  is_due now (some exp_bytes) = elim (clock.parse exp_bytes) [
    | none ↦ false
    | some exp_ts ↦ clock.reached now exp_ts
  ]

  -- What `_is_expired` makes of a purge: its ValueError is passed over as one of `float` is.
  abbrev pub purged_by : Result (Engine ops clock) (Unit {0}) → Result (Engine ops clock) Bool
  purged_by (returned _ e) = returned true e
  purged_by (raises value_error e) = returned false e
  purged_by (raises other_error e) = raises other_error e

  abbrev pub purge_caught : Bytes → Method Bool
  purge_caught key e = purged_by (purge_key key e)

  -- `_is_expired`
  unfoldable pub is_expired : clock.Time → Bytes → Method Bool
  is_expired now key = do
    exp_bytes ← read (exp_key key)
    (if is_due now exp_bytes then purge_caught key else pure false)

  -- `expire`; a negative count of seconds is 0.
  unfoldable pub expire : clock.Time → Bytes → ℤ → Method Bool
  expire now key seconds =
      let exp_ts = clock.after now (to_ℕ seconds) in
      put (exp_key key) (clock.print exp_ts) >>= λ _ e.
      returned true (record e { ttl_heap = (exp_ts, key) ∷ e.ttl_heap })

  -- `persist`
  pub persist_by : Bytes → Option Bytes → Method Bool
  persist_by key none = pure false
  persist_by key (some _) = do remove (exp_key key); pure true

  unfoldable pub persist : Bytes → Method Bool
  unfolding persist_by
  persist key = do o ← read (exp_key key); persist_by key o

  -- `exists`
  unfoldable pub exists : clock.Time → List Bytes → Method ℕ
  exists now [] = pure 0
  exists now (k ∷ ks) = do
    expired ← is_expired now k
    t_bytes ← read (type_key k)
    count ← exists now ks
    pure (if expired then count else elim t_bytes [ none ↦ count | some _ ↦ count + 1 ])

  -- `delete`
  unfoldable pub delete : List Bytes → Method ℕ
  delete [] = pure 0
  delete (key ∷ keys) = read (type_key key) >>= λ (o : Option Bytes). elim o [
    | none ↦ delete keys
    | some _ ↦ do purge_key key; count ← delete keys; pure (count + 1)
  ]

  -- `type`; an empty entry is as good as none.
  pub type_name : Option Bytes → Method Bytes
  type_name none = pure (codes "none")
  type_name (some []) = pure (codes "none")
  type_name (some (c ∷ t)) = if is_utf8 (c ∷ t) then pure (c ∷ t) else raises value_error

  unfoldable pub key_type : clock.Time → Bytes → Method Bytes
  unfolding type_name
  key_type now key = do
    expired ← is_expired now key
    t_bytes ← read (type_key key)
    (if expired then pure (codes "none") else type_name t_bytes)
