-- ===== src/Dict/Filter.antt =====
-- Lookup in the entries that pass a test, and in a dictionary that took in others.
use mathlib.Core.Path.{subst}
use zenith_db.Prelude.{
  ◌≡◌, refl, sym, ap, ◌∙◌, Bool, false, none, some, [], ◌∷◌, inl, inr, Bool-cases,
}
use zenith_db.Bytes.{Bytes, bytes_eq}
use zenith_db.Bytes.Order.{bytes_eq→eq, bytes_eq_refl}
use zenith_db.Dict.{
  Dict, lookup, insert, IsDict, Above, IsSorted, filter, insert_all, or_else, if_passes,
}
use zenith_db.Dict.Laws.{lookup-insert, insert-IsDict}
use zenith_db.Dict.Sorted.{lookup-Above}

module _ {V : Type 0} where
  pub IsSorted-IsDict : (d : Dict V) → IsSorted d → IsDict d
  IsSorted-IsDict [] h = tt
  IsSorted-IsDict ((k, v) ∷ d) (a, h) = (lookup-Above k d a, IsSorted-IsDict d h)

  Above-filter : (p : Bytes → V → Bool) (k : Bytes) (d : Dict V) → Above k d → Above k (filter p d)
  unfolding filter
  Above-filter p k [] a = tt
  Above-filter p k ((j, v) ∷ d) (l, a) = elim (Bool-cases (p j v)) [
    | inl e ↦ rw e (l, Above-filter p k d a)
    | inr e ↦ rw e (Above-filter p k d a)
  ]

  pub filter-IsSorted : (p : Bytes → V → Bool) (d : Dict V) → IsSorted d → IsSorted (filter p d)
  unfolding filter
  filter-IsSorted p [] h = tt
  filter-IsSorted p ((k, v) ∷ d) (a, h) = elim (Bool-cases (p k v)) [
    | inl e ↦ rw e (Above-filter p k d a, filter-IsSorted p d h)
    | inr e ↦ rw e (filter-IsSorted p d h)
  ]

  -- At the key of the first entry.
  filter_here :
      (p : Bytes → V → Bool) (k : Bytes) (v : V) (d : Dict V)
      → lookup k (filter p d) ≡ none
      → lookup k (filter p ((k, v) ∷ d)) ≡ if_passes (p k) (some v)
  unfolding filter lookup
  filter_here p k v d gone = elim (Bool-cases (p k v)) [
    | inl e ↦ rw (e, bytes_eq_refl k)
    | inr e ↦ rw e gone
  ]

  filter_there :
      (p : Bytes → V → Bool) (j k : Bytes) (v : V) (d : Dict V)
      → bytes_eq k j ≡ false
      → lookup j (filter p ((k, v) ∷ d)) ≡ lookup j (filter p d)
  unfolding filter lookup
  filter_there p j k v d other = elim (Bool-cases (p k v)) [ inl e ↦ rw (e, other) | inr e ↦ rw e ]

  pub lookup-filter :
      (p : Bytes → V → Bool) (j : Bytes) (d : Dict V)
      → IsDict d
      → lookup j (filter p d) ≡ if_passes (p j) (lookup j d)
  unfolding lookup
  lookup-filter p j [] h = unfold filter in refl
  lookup-filter p j ((k, v) ∷ d) (fresh, h) = elim (Bool-cases (bytes_eq k j)) [
    | inr other ↦ filter_there p j k v d other ∙ rw other (lookup-filter p j d h)
    | inl same ↦
        let gone : lookup k (filter p d) ≡ none =
          lookup-filter p k d h ∙ ap (if_passes (p k)) fresh in
        subst
          (λ (i : Bytes).
            lookup i (filter p ((k, v) ∷ d)) ≡ if_passes (p i) (lookup i ((k, v) ∷ d)))
          (bytes_eq→eq k j same) (filter_here p k v d gone ∙ rw (bytes_eq_refl k))
  ]

  pub insert_all-IsDict : (d entries : Dict V) → IsDict d → IsDict (insert_all d entries)
  unfolding insert_all
  insert_all-IsDict d [] h = h
  insert_all-IsDict d ((k, v) ∷ entries) h =
      insert_all-IsDict (insert k v d) entries (insert-IsDict k v d h)

  pub lookup-insert_all :
      (j : Bytes) (d entries : Dict V)
      → IsDict entries
      → lookup j (insert_all d entries) ≡ or_else (lookup j entries) (lookup j d)
  unfolding insert_all lookup
  lookup-insert_all j d [] h = refl
  lookup-insert_all j d ((k, v) ∷ entries) (fresh, h) =
      lookup-insert_all j (insert k v d) entries h ∙ elim (Bool-cases (bytes_eq k j)) [
        | inl same ↦
            let gone : lookup j entries ≡ none =
              ap (λ (i : Bytes). lookup i entries) (sym (bytes_eq→eq k j same)) ∙ fresh in
            rw (gone, lookup-insert k j v d, same)
        | inr other ↦ rw (lookup-insert k j v d, other)
      ]
