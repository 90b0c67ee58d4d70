-- ===== src/Doc.antt =====
-- The document store, zenith/engine/doc.py, over the store of the key-value engine. Collections,
-- identifiers and paths are UTF-8 bytes. The json module is the parameter `Codec`.
pub mod Store
pub mod Reads
mod Examples
use zenith_db.Prelude.{
  ℕ, zero, suc, Bool, Option, none, some, List, [], ◌∷◌, if◌then◌else◌, length, get_elem?, leb, ◌-◌,
  ◌>>=◌,
}
use zenith_db.Bytes.{Bytes, bytes_eq}
use zenith_db.Python.Int.{ℤ, pos, negsuc}
use zenith_db.Python.Decimal.{parse_int}
use zenith_db.Python.Text.{split_on}

-- What json.loads gives. A scalar is a string, a number or a boolean.
mutual
  pub data Json (A : Type 0) : Type 0 where
    null : Json A
    scalar : A → Json A
    array : Items A → Json A
    object : Fields A → Json A

  pub data Items (A : Type 0) : Type 0 where
    end : Items A
    item : Json A → Items A → Items A

  pub data Fields (A : Type 0) : Type 0 where
    no_fields : Fields A
    field : Bytes → Json A → Fields A → Fields A

module _ {A : Type 0} where
  -- `curr.get(token)`
  unfoldable pub find : Bytes → Fields A → Option (Json A)
  find token no_fields = none
  find token (field k v fs) = if bytes_eq k token then some v else find token fs

  -- `doc[name] = value`
  unfoldable pub with_field : Bytes → Json A → Fields A → Fields A
  with_field name value no_fields = field name value no_fields
  with_field name value (field k v fs) =
      if bytes_eq k name then field k value fs else field k v (with_field name value fs)

  -- `doc.update(patch)`
  unfoldable pub updated : Fields A → Fields A → Fields A
  updated fs no_fields = fs
  updated fs (field k v patch) = updated (with_field k v fs) patch

  abbrev pub items_of : Items A → List (Json A)
  items_of end = []
  items_of (item v vs) = v ∷ items_of vs

  -- `curr[idx]`, where `none` is the IndexError.
  abbrev pub item_at : List (Json A) → ℤ → Option (Json A)
  item_at vs (pos n) = get_elem? vs n
  item_at vs (negsuc n) = if leb (suc n) (length vs) then get_elem? vs (length vs - suc n) else none

  -- JSON's null is None.
  abbrev pub unless_null : Option (Json A) → Option (Json A)
  unless_null none = none
  unless_null (some null) = none
  unless_null (some v) = some v

  abbrev pub item_by : List (Json A) → Option ℤ → Option (Json A)
  item_by vs none = none
  item_by vs (some i) = item_at vs i

  -- One token of a path.
  unfoldable pub step : Json A → Bytes → Option (Json A)
  step null token = none
  step (scalar a) token = none
  step (array vs) token = unless_null (item_by (items_of vs) (parse_int token))
  step (object fs) token = unless_null (find token fs)

  unfoldable pub follow : Json A → List Bytes → Option (Json A)
  follow curr [] = some curr
  follow curr (token ∷ tokens) = step curr token >>= λ next. follow next tokens

  unfoldable pub get_nested_field : Json A → Bytes → Option (Json A)
  get_nested_field doc path = follow doc (split_on 46 [] path)
