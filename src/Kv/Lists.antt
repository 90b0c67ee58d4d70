-- ===== src/Kv/Lists.antt =====
-- Lists: elements under consecutive indices, from `head` up to `tail`. A value is given as its
-- `str`.
use zenith_db.Prelude.{
  ℕ, zero, suc, Bool, true, false, not, ◌||◌, Option, none, some, List, [], ◌∷◌, ◌++◌,
  if◌then◌else◌,
}
use zenith_db.Bytes.{Bytes, codes}
use zenith_db.Python.Int.{ℤ, pos, ◌+ℤ◌, ◌-ℤ◌, ltb_ℤ, to_ℕ}
use zenith_db.Python.Decimal.{str_int}
use zenith_db.Txn.{type_key}
use zenith_db.Python.Utf8.{is_utf8}
use zenith_db.Kv.{raises, value_error, ◌>>=◌, ◌>>◌, StoreOps, Clock}
use zenith_db.Kv.Keys.{
  Method, pure, read, put, remove, is_expired, meta_key, element_key, get_list_meta,
  remove_elements, delete,
}

-- `val.decode("utf-8") if val else None`
abbrev pub unless_empty : Option Bytes → Option Bytes
unless_empty none = none
unless_empty (some []) = none
unless_empty (some (c ∷ s)) = some (c ∷ s)

-- `max(0, length + start)` of a negative start
abbrev pub clamp_start : ℤ → ℤ → ℤ
clamp_start length start =
    if ltb_ℤ start (pos 0)
    then (if ltb_ℤ (length +ℤ start) (pos 0) then pos 0 else length +ℤ start)
    else start

-- `length + stop` of a negative stop, else `min(length - 1, stop)`
abbrev pub clamp_stop : ℤ → ℤ → ℤ
clamp_stop length stop =
    if ltb_ℤ stop (pos 0)
    then length +ℤ stop
    else if ltb_ℤ stop (length -ℤ pos 1)
    then stop
    else length -ℤ pos 1

-- `start > stop or start >= length`
abbrev pub is_outside : ℤ → ℤ → ℤ → Bool
is_outside length start stop = ltb_ℤ stop start || not (ltb_ℤ start length)

module _ (ops : StoreOps) (clock : Clock) where
  -- `_set_list_meta`
  unfoldable pub set_list_meta : Bytes → ℤ → ℤ → Method ops clock (Unit {0})
  set_list_meta key head tail = do
    put ops clock (meta_key key) (str_int head ++ (codes ":" ++ str_int tail))
    put ops clock (type_key key) (codes "list")

  -- The loops of `lpush` and `rpush`, up to the new head or tail.
  unfoldable pub push_front : Bytes → List Bytes → ℤ → Method ops clock ℤ
  push_front key [] head = pure ops clock head
  push_front key (v ∷ vs) head =
      put ops clock (element_key key (head -ℤ pos 1)) v >>= λ _. push_front key vs (head -ℤ pos 1)

  unfoldable pub push_back : Bytes → List Bytes → ℤ → Method ops clock ℤ
  push_back key [] tail = pure ops clock tail
  push_back key (v ∷ vs) tail =
      put ops clock (element_key key tail) v >>= λ _. push_back key vs (tail +ℤ pos 1)

  unfoldable pub lpush : clock.Time → Bytes → List Bytes → Method ops clock ℤ
  lpush now key values = is_expired ops clock now key >>= λ _.
      get_list_meta ops clock key >>= λ (m : ℤ × ℤ). push_front key values m.0 >>= λ head.
      set_list_meta key head m.1 >>= λ _. pure ops clock (m.1 -ℤ head)

  unfoldable pub rpush : clock.Time → Bytes → List Bytes → Method ops clock ℤ
  rpush now key values = is_expired ops clock now key >>= λ _.
      get_list_meta ops clock key >>= λ (m : ℤ × ℤ). push_back key values m.1 >>= λ tail.
      set_list_meta key m.0 tail >>= λ _. pure ops clock (tail -ℤ m.0)

  -- `val.decode("utf-8")`, of a value that is there
  abbrev pub decoded : Option Bytes → Method ops clock (Option Bytes)
  decoded none = pure ops clock none
  decoded (some val) = if is_utf8 val then pure ops clock (some val) else raises value_error

  -- What `lpop` and `rpop` do with the element at an index, and the new bounds.
  unfoldable pub take_element : Bytes → ℤ → ℤ → ℤ → Method ops clock (Option Bytes)
  take_element key i head tail = read ops clock (element_key key i) >>= λ val.
      remove ops clock (element_key key i) >>= λ _.
      set_list_meta key head tail >>= λ _. decoded (unless_empty val)

  pub lpop_from : Bytes → ℤ × ℤ → Method ops clock (Option Bytes)
  lpop_from key m =
      if ltb_ℤ m.0 m.1 then take_element key m.0 (m.0 +ℤ pos 1) m.1 else pure ops clock none

  pub rpop_from : Bytes → ℤ × ℤ → Method ops clock (Option Bytes)
  rpop_from key m =
      if ltb_ℤ m.0 m.1
      then take_element key (m.1 -ℤ pos 1) m.0 (m.1 -ℤ pos 1)
      else pure ops clock none

  -- Unless the key has expired, the rest of a method on its bounds.
  unfoldable pub with_meta :
      {A : Type 0} → clock.Time → Bytes → A → (ℤ × ℤ → Method ops clock A) → Method ops clock A
  with_meta now key missing rest = is_expired ops clock now key >>= λ expired.
      if expired then pure ops clock missing else (get_list_meta ops clock key >>= rest)

  unfoldable pub lpop : clock.Time → Bytes → Method ops clock (Option Bytes)
  unfolding lpop_from
  lpop now key = with_meta now key none (lpop_from key)

  unfoldable pub rpop : clock.Time → Bytes → Method ops clock (Option Bytes)
  unfolding rpop_from
  rpop now key = with_meta now key none (rpop_from key)

  -- The elements of a range of indices that are there.
  abbrev pub add_item : Option Bytes → List Bytes → List Bytes
  add_item none items = items
  add_item (some val) items = val ∷ items

  unfoldable pub read_elements : ℕ → Bytes → ℤ → Method ops clock (List Bytes)
  read_elements zero key i = pure ops clock []
  read_elements (suc n) key i = read ops clock (element_key key i) >>= λ o. decoded o >>= λ val.
      read_elements n key (i +ℤ pos 1) >>= λ items. pure ops clock (add_item val items)

  pub lrange_from : Bytes → ℤ → ℤ → ℤ × ℤ → Method ops clock (List Bytes)
  lrange_from key start stop m =
      let length = m.1 -ℤ m.0 in
      let first = clamp_start length start in
      let last = clamp_stop length stop in
      if not (ltb_ℤ (pos 0) length) || is_outside length first last
      then pure ops clock []
      else read_elements (to_ℕ (last +ℤ pos 1 -ℤ first)) key (m.0 +ℤ first)

  unfoldable pub lrange : clock.Time → Bytes → ℤ → ℤ → Method ops clock (List Bytes)
  unfolding lrange_from
  lrange now key start stop = with_meta now key [] (lrange_from key start stop)

  pub llen_from : ℤ × ℤ → Method ops clock ℤ
  llen_from m = pure ops clock (if ltb_ℤ (m.1 -ℤ m.0) (pos 0) then pos 0 else m.1 -ℤ m.0)

  unfoldable pub llen : clock.Time → Bytes → Method ops clock ℤ
  unfolding llen_from
  llen now key = with_meta now key (pos 0) llen_from

  abbrev pub first_of : List Bytes → Option Bytes
  first_of [] = none
  first_of (v ∷ items) = some v

  unfoldable pub lindex : clock.Time → Bytes → ℤ → Method ops clock (Option Bytes)
  lindex now key i = lrange now key i i >>= λ items. pure ops clock (first_of items)

  pub lset_from : Bytes → ℤ → Bytes → ℤ × ℤ → Method ops clock Bool
  lset_from key i value m =
      let length = m.1 -ℤ m.0 in
      let at = if ltb_ℤ i (pos 0) then length +ℤ i else i in
      if not (ltb_ℤ (pos 0) length) || (ltb_ℤ at (pos 0) || not (ltb_ℤ at length))
      then pure ops clock false
      else (put ops clock (element_key key (m.0 +ℤ at)) value >>= λ _. pure ops clock true)

  unfoldable pub lset : clock.Time → Bytes → ℤ → Bytes → Method ops clock Bool
  unfolding lset_from
  lset now key i value = with_meta now key false (lset_from key i value)

  -- What `ltrim` keeps: the elements from `first` to `last`.
  pub keep_between : Bytes → ℤ × ℤ → ℤ → ℤ → Method ops clock Bool
  keep_between key m first last = do
    remove_elements ops clock (to_ℕ first) key m.0
    remove_elements ops clock (to_ℕ (m.1 -ℤ (m.0 +ℤ last +ℤ pos 1))) key (m.0 +ℤ last +ℤ pos 1)
    set_list_meta key (m.0 +ℤ first) (m.0 +ℤ last +ℤ pos 1)
    pure ops clock true

  pub ltrim_from : Bytes → ℤ → ℤ → ℤ × ℤ → Method ops clock Bool
  ltrim_from key start stop m =
      let length = m.1 -ℤ m.0 in
      let first = clamp_start length start in
      let last = clamp_stop length stop in
      if not (ltb_ℤ (pos 0) length)
      then pure ops clock true
      else if is_outside length first last
      then (delete ops clock (key ∷ []) >>= λ _. pure ops clock true)
      else keep_between key m first last

  unfoldable pub ltrim : clock.Time → Bytes → ℤ → ℤ → Method ops clock Bool
  unfolding ltrim_from keep_between
  ltrim now key start stop = with_meta now key false (ltrim_from key start stop)
