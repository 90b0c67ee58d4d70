-- ===== src/Dict.antt =====
-- Python's `dict` with bytes as keys, in the order of insertion: an overwritten key keeps its
-- place. `sorted` by key is a stable insertion sort.
pub mod Laws
pub mod Sorted
pub mod Filter
use zenith_db.Prelude.{◌≡◌, Bool, true, false, Option, none, some, List, [], ◌∷◌, if◌then◌else◌}
use zenith_db.Bytes.{Bytes, bytes_eq, bytes_lt}

abbrev pub Dict : Type 0 → Type 0
Dict V = List (Bytes × V)

module _ {V : Type 0} where
  -- `d.get(k)`
  unfoldable pub lookup : Bytes → Dict V → Option V
  lookup k [] = none
  lookup k ((j, v) ∷ d) = if bytes_eq j k then some v else lookup k d

  -- `d[k] = v`
  unfoldable pub insert : Bytes → V → Dict V → Dict V
  insert k v [] = (k, v) ∷ []
  insert k v ((j, w) ∷ d) = if bytes_eq j k then (j, v) ∷ d else (j, w) ∷ insert k v d

  insert_sorted : Bytes → V → Dict V → Dict V
  insert_sorted k v [] = (k, v) ∷ []
  insert_sorted k v ((j, w) ∷ d) =
      if bytes_lt j k then (j, w) ∷ insert_sorted k v d else (k, v) ∷ ((j, w) ∷ d)

  -- `sorted(d.items(), key=lambda item: item[0])`
  unfoldable pub sort : Dict V → Dict V
  unfolding insert_sorted
  sort [] = []
  sort ((k, v) ∷ d) = insert_sorted k v (sort d)

  -- No key occurs twice.
  abbrev pub IsDict : Dict V → Type 0
  IsDict [] = Unit
  IsDict ((k, v) ∷ d) = (lookup k d ≡ none) × IsDict d

  -- Every key is above `k`.
  abbrev pub Above : Bytes → Dict V → Type 0
  Above k [] = Unit
  Above k ((j, v) ∷ d) = (bytes_lt k j ≡ true) × Above k d

  -- The keys ascend.
  abbrev pub IsSorted : Dict V → Type 0
  IsSorted [] = Unit
  IsSorted ((k, v) ∷ d) = Above k d × IsSorted d

  -- The entries that pass a test, in order.
  unfoldable pub filter : (Bytes → V → Bool) → Dict V → Dict V
  filter p [] = []
  filter p ((k, v) ∷ d) = let rest = filter p d in if p k v then (k, v) ∷ rest else rest

  -- `for k, v in entries: d[k] = v`
  unfoldable pub insert_all : Dict V → Dict V → Dict V
  insert_all d [] = d
  insert_all d ((k, v) ∷ entries) = insert_all (insert k v d) entries

  -- A value, or the other dictionary's.
  abbrev pub or_else : Option V → Option V → Option V
  or_else none o = o
  or_else (some v) o = some v

  abbrev pub if_passes : (V → Bool) → Option V → Option V
  if_passes p none = none
  if_passes p (some v) = if p v then some v else none
