-- ===== src/Dict/Sorted.antt =====
-- Sorting by key keeps every lookup and gives ascending keys.
use zenith_db.Prelude.{
  ◌≡◌, refl, ◌∙◌, true, false, Option, none, some, [], ◌∷◌, arith, inl, inr, Bool-cases,
  if◌then◌else◌,
}
use zenith_db.Bytes.{Bytes, bytes_eq, bytes_lt}
use zenith_db.Bytes.Order.{
  bytes_eq_iff, bytes_eq_refl, bytes_eq_comm, bytes_lt_trans, bytes_lt_connex, bytes_lt→ne,
}
use zenith_db.Dict.{Dict, lookup, insert_sorted, sort, IsDict, Above, IsSorted}

module _ {V : Type 0} where
  pub Above-trans : (i k : Bytes) (d : Dict V) → bytes_lt i k ≡ true → Above k d → Above i d
  Above-trans i k [] h a = tt
  Above-trans i k ((j, v) ∷ d) h (p, a) = (bytes_lt_trans i k j h p, Above-trans i k d h a)

  -- A key below all keys is not there.
  pub lookup-Above : (k : Bytes) (d : Dict V) → Above k d → lookup k d ≡ none
  unfolding lookup
  lookup-Above k [] a = refl
  lookup-Above k ((j, v) ∷ d) (p, a) =
      rw (bytes_eq_comm j k, bytes_lt→ne k j p) (lookup-Above k d a)

  Above-insert_sorted :
      (i k : Bytes) (v : V) (d : Dict V)
      → bytes_lt i k ≡ true
      → Above i d
      → Above i (insert_sorted k v d)
  unfolding insert_sorted
  Above-insert_sorted i k v [] h a = (h, tt)
  Above-insert_sorted i k v ((j, w) ∷ d) h (p, a) = elim (Bool-cases (bytes_lt j k)) [
    | inl low ↦ rw low (p, Above-insert_sorted i k v d h a)
    | inr high ↦ rw high (h, (p, a))
  ]

  lookup-insert_sorted :
      (k j : Bytes) (v : V) (d : Dict V)
      → lookup j (insert_sorted k v d) ≡ (if bytes_eq k j then some v else lookup j d)
  unfolding lookup insert_sorted
  lookup-insert_sorted k j v [] = refl
  lookup-insert_sorted k j v ((i, w) ∷ d) = elim (Bool-cases (bytes_lt i k)) [
    | inl low ↦ rw low (
        ground (
          arith,
          bytes_lt→ne i k low,
          bytes_eq_iff i k,
          bytes_eq_iff i j,
          bytes_eq_iff k j,
          lookup-insert_sorted k j v d,
        ))
    | inr high ↦ rw high
  ]

  -- `sorted` keeps every lookup.
  pub lookup-sort : (j : Bytes) (d : Dict V) → lookup j (sort d) ≡ lookup j d
  unfolding lookup sort
  lookup-sort j [] = refl
  lookup-sort j ((k, v) ∷ d) = lookup-insert_sorted k j v (sort d) ∙ rw (lookup-sort j d)

  insert_sorted-IsSorted :
      (k : Bytes) (v : V) (d : Dict V)
      → lookup k d ≡ none
      → IsSorted d
      → IsSorted (insert_sorted k v d)
  unfolding insert_sorted lookup
  insert_sorted-IsSorted k v [] fresh h = (tt, tt)
  insert_sorted-IsSorted k v ((j, w) ∷ d) fresh (a, h) = elim (Bool-cases (bytes_eq j k)) [
    | inl same ↦ let e : ◌≡◌ {A = Option V} (some w) none = rw same at fresh in cc
    | inr other ↦
        let fresh' : lookup k d ≡ none = rw other at fresh in
        elim (Bool-cases (bytes_lt j k)) [
          | inl low ↦
              rw low (Above-insert_sorted j k v d low a, insert_sorted-IsSorted k v d fresh' h)
          | inr high ↦
              let below : bytes_lt k j ≡ true = lt_of_not k j high other in
              rw high ((below, Above-trans k j d below a), (a, h))
        ]
  ]
    where
      lt_of_not : (k j : Bytes) → bytes_lt j k ≡ false → bytes_eq j k ≡ false → bytes_lt k j ≡ true
      lt_of_not k j high other = elim (Bool-cases (bytes_lt k j)) [
        | inl e ↦ e
        | inr e ↦
            let same : bytes_eq j k ≡ true = rw (bytes_lt_connex j k high e) (bytes_eq_refl k) in cc
      ]

  -- With unique keys, `sorted` gives strictly ascending ones.
  pub sort-IsSorted : (d : Dict V) → IsDict d → IsSorted (sort d)
  unfolding sort
  sort-IsSorted [] h = tt
  sort-IsSorted ((k, v) ∷ d) (fresh, h) =
      insert_sorted-IsSorted k v (sort d) (lookup-sort k d ∙ fresh) (sort-IsSorted d h)
