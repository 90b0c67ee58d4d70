-- ===== src/Dict/Laws.antt =====
-- Lookup after insertion, and what insertion keeps.
use zenith_db.Prelude.{◌≡◌, refl, ◌∙◌, some, [], ◌∷◌, arith, inl, inr, Bool-cases, if◌then◌else◌}
use zenith_db.Bytes.{Bytes, bytes_eq}
use zenith_db.Bytes.Order.{bytes_eq_iff, bytes_eq_comm}
use zenith_db.Dict.{Dict, lookup, insert, IsDict}

module _ {V : Type 0} where
  pub lookup-insert :
      (k j : Bytes) (v : V) (d : Dict V)
      → lookup j (insert k v d) ≡ (if bytes_eq k j then some v else lookup j d)
  unfolding lookup insert
  lookup-insert k j v [] = refl
  lookup-insert k j v ((i, w) ∷ d) =
      ground (arith, bytes_eq_iff k j, bytes_eq_iff i k, bytes_eq_iff i j, lookup-insert k j v d)

  pub insert-IsDict : (k : Bytes) (v : V) (d : Dict V) → IsDict d → IsDict (insert k v d)
  unfolding insert lookup
  insert-IsDict k v [] h = (refl, tt)
  insert-IsDict k v ((j, w) ∷ d) (fresh, h) = elim (Bool-cases (bytes_eq j k)) [
    | inl same ↦ rw same (fresh, h)
    | inr other ↦
        rw other
          (lookup-insert k j v d ∙ (rw (bytes_eq_comm k j, other) fresh), insert-IsDict k v d h)
  ]
