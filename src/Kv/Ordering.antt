-- ===== src/Kv/Ordering.antt =====
-- Sorting the items of a sorted set.
use zenith_db.Prelude.{
  suc, ◌≡◌, refl, ap, ◌∙◌, true, false, Option, none, some, [], ◌∷◌, if◌then◌else◌, length, arith,
  inl, inr, Bool-cases,
}
use zenith_db.Bytes.{Bytes, bytes_eq, bytes_lt}
use zenith_db.Bytes.Order.{bytes_eq_iff, bytes_eq_comm, bytes_lt_asymm}
use zenith_db.Dict.{Dict, lookup, IsDict}
use zenith_db.Kv.SortedSets.{Floats, before, insert_item, sort_items}
use zenith_db.Kv.Scores.{FloatLaws}

module _ (floats : Floats) where
  -- No item is before the one in front of it.
  abbrev pub InOrder : Dict floats.Float → Type 0
  InOrder [] = Unit
  InOrder (x ∷ []) = Unit
  InOrder (x ∷ (y ∷ items)) = (before floats y x ≡ false) × InOrder (y ∷ items)

  before_asymm :
      (x y : Bytes × floats.Float)
      → FloatLaws floats
      → before floats x y ≡ true
      → before floats y x ≡ false
  before_asymm x y fl h = elim (Bool-cases (floats.equals x.1 y.1)) [
    | inl same ↦
        let h' : bytes_lt x.0 y.0 ≡ true = rw same at h in
        rw (fl.equals_comm y.1 x.1, same) (bytes_lt_asymm x.0 y.0 h')
    | inr other ↦
        let h' : floats.less x.1 y.1 ≡ true = rw other at h in
        rw (fl.equals_comm y.1 x.1, other) (fl.less_asymm x.1 y.1 h')
  ]

  insert_behind :
      (y x : Bytes × floats.Float) (items : Dict floats.Float)
      → before floats x y ≡ false
      → InOrder (y ∷ items)
      → InOrder (insert_item floats x items)
      → InOrder (y ∷ insert_item floats x items)
  unfolding insert_item
  insert_behind y x [] h o i = (h, tt)
  insert_behind y x (z ∷ items) h (oz, o) i = elim (Bool-cases (before floats z x)) [
    | inl low ↦ rw low (oz, rw low at i)
    | inr high ↦ rw high (h, rw high at i)
  ]

  tail-InOrder :
      (x : Bytes × floats.Float) (items : Dict floats.Float) → InOrder (x ∷ items) → InOrder items
  tail-InOrder x [] o = tt
  tail-InOrder x (y ∷ items) (_, o) = o

  insert_item-InOrder :
      (x : Bytes × floats.Float) (items : Dict floats.Float)
      → FloatLaws floats
      → InOrder items
      → InOrder (insert_item floats x items)
  unfolding insert_item
  insert_item-InOrder x [] fl o = tt
  insert_item-InOrder x (y ∷ items) fl o = elim (Bool-cases (before floats y x)) [
    | inl low ↦ rw low (
        insert_behind y x items (before_asymm y x fl low) o
          (insert_item-InOrder x items fl (tail-InOrder y items o)))
    | inr high ↦ rw high (high, o)
  ]

  pub sort_items-InOrder :
      (items : Dict floats.Float) → FloatLaws floats → InOrder (sort_items floats items)
  unfolding sort_items
  sort_items-InOrder [] fl = tt
  sort_items-InOrder (x ∷ items) fl =
      insert_item-InOrder x (sort_items floats items) fl (sort_items-InOrder items fl)

  lookup-insert_item :
      (j m : Bytes) (s : floats.Float) (items : Dict floats.Float)
      → lookup m items ≡ none
      → lookup j (insert_item floats (m, s) items)
        ≡ (if bytes_eq m j then some s else lookup j items)
  unfolding lookup insert_item
  lookup-insert_item j m s [] fresh = refl
  lookup-insert_item j m s ((k, v) ∷ items) fresh = elim (Bool-cases (bytes_eq k m)) [
    | inl same ↦ let q : ◌≡◌ {A = Option floats.Float} (some v) none = rw same at fresh in cc
    | inr other ↦
        let fresh' : lookup m items ≡ none = rw other at fresh in
        elim (Bool-cases (before floats (k, v) (m, s))) [
          | inr high ↦ rw high refl
          | inl low ↦ rw low (
              ground (
                arith,
                bytes_eq_iff m j,
                bytes_eq_iff k j,
                bytes_eq_iff k m,
                other,
                lookup-insert_item j m s items fresh',
              ))
        ]
  ]

  insert_item-IsDict :
      (m : Bytes) (s : floats.Float) (items : Dict floats.Float)
      → lookup m items ≡ none
      → IsDict items
      → IsDict (insert_item floats (m, s) items)
  unfolding lookup insert_item
  insert_item-IsDict m s [] fresh u = (refl, tt)
  insert_item-IsDict m s ((k, v) ∷ items) fresh (f, u) = elim (Bool-cases (bytes_eq k m)) [
    | inl same ↦ let q : ◌≡◌ {A = Option floats.Float} (some v) none = rw same at fresh in cc
    | inr other ↦
        let fresh' : lookup m items ≡ none = rw other at fresh in
        elim (Bool-cases (before floats (k, v) (m, s))) [
          | inr high ↦ rw high (rw other fresh', (f, u))
          | inl low ↦ rw low (
            lookup-insert_item k m s items fresh' ∙ rw (bytes_eq_comm m k, other) f,
            insert_item-IsDict m s items fresh' u,
          )
        ]
  ]

  -- The sorted items have the same scores, each member once.
  pub record Sorts (items sorted : Dict floats.Float) : Type 0 where
    pub unique : IsDict sorted
    pub reads : (j : Bytes) → lookup j sorted ≡ lookup j items

  pub sort_items-Sorts :
      (items : Dict floats.Float) → IsDict items → Sorts items (sort_items floats items)
  unfolding lookup sort_items
  sort_items-Sorts [] u = record { unique = tt; reads = λ j. refl }
  sort_items-Sorts ((m, s) ∷ items) (f, u) =
      let rest = sort_items-Sorts items u in
      let fresh = rest.reads m ∙ f in
      record {
        unique = insert_item-IsDict m s (sort_items floats items) fresh rest.unique;
        reads = λ j.
            lookup-insert_item j m s (sort_items floats items) fresh
            ∙ ap (λ (o : Option floats.Float). if bytes_eq m j then some s else o) (rest.reads j);
      }

  length-insert_item :
      (x : Bytes × floats.Float) (items : Dict floats.Float)
      → length (insert_item floats x items) ≡ suc (length items)
  unfolding insert_item
  length-insert_item x [] = refl
  length-insert_item x (y ∷ items) = elim (Bool-cases (before floats y x)) [
    | inl low ↦ rw low (ap suc (length-insert_item x items))
    | inr high ↦ rw high refl
  ]

  pub length-sort_items :
      (items : Dict floats.Float) → length (sort_items floats items) ≡ length items
  unfolding sort_items
  length-sort_items [] = refl
  length-sort_items (x ∷ items) =
      length-insert_item x (sort_items floats items) ∙ ap suc (length-sort_items items)
