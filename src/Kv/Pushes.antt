-- ===== src/Kv/Pushes.antt =====
-- What a list holds after pushes.
use mathlib.Core.List.{cons-ne-nil}
use mathlib.Core.Path.{subst}
use zenith_db.Prelude.{
  ℕ, suc, ◌<◌, ◌≡◌, ◌≢◌, refl, sym, ap, ◌∙◌, true, none, some, List, [], ◌∷◌, ◌++◌, length,
  length-append, append_assoc, append-nil, All, All-append,
}
use zenith_db.Bytes.{Bytes, bytes_eq, codes}
use zenith_db.Bytes.Order.{bytes_eq_refl}
use zenith_db.Lsm.MemTable.{tombstone}
use zenith_db.Python.Int.{ℤ, pos, ◌+ℤ◌, ◌-ℤ◌, ltb_ℤ-ne, +ℤ-lt, +ℤ-step, +ℤ_assoc, -ℤ_step, -ℤ-lt}
use zenith_db.Txn.{type_key, exp_key}
use zenith_db.Python.Utf8.{is_utf8}
use zenith_db.Kv.{returned, StoreOps, StoreLaws, Clock, >>=-returned, returned_injective}
use zenith_db.Kv.Keys.{Engine, put, meta_key, element_key, list_meta}
use zenith_db.Kv.Lists.{set_list_meta, push_front, push_back}
use zenith_db.Kv.Keeps.{put-returned}
use zenith_db.Kv.Meta.{meta_text, list_meta-text, meta_text-ne-tombstone}
use zenith_db.Kv.Elements.{Elements, Elements-frame, Elements-other, Elements-append}

list-ne-tombstone : codes "list" ≢ tombstone
list-ne-tombstone h = cc

-- Texts that a list gives back: a store can hold them, and none is empty.
abbrev pub IsText : Bytes → Type 0
IsText v = (v ≢ tombstone) × (v ≢ []) × (is_utf8 v ≡ true)

abbrev pub Storable : List Bytes → Type 0
Storable = All IsText

-- Each value in front of those before it.
abbrev pub pushed : List Bytes → List Bytes → List Bytes
pushed [] xs = xs
pushed (v ∷ vs) xs = pushed vs (v ∷ xs)

module _ (ops : StoreOps) (clock : Clock) (laws : StoreLaws ops) where
  -- The elements from an index on, which are texts, in a key without expiry.
  pub record ListAt (key : Bytes) (h : ℤ) (xs : List Bytes) (e : Engine ops clock) : Type 0 where
    pub good : laws.IsStore e.lsm
    pub elements : Elements key h xs (ops.get e.lsm)
    pub texts : Storable xs
    pub lasting : ops.get e.lsm (exp_key key) ≡ none

  -- The key holds the list `xs`.
  pub record HasList (key : Bytes) (xs : List Bytes) (e : Engine ops clock) : Type 0 where
    pub head : ℤ
    pub at : ListAt key head xs e
    pub bounds : list_meta (ops.get e.lsm (meta_key key)) ≡ (head, head +ℤ pos (length xs))

  put-ListAt :
      (key v : Bytes) (h i : ℤ) (xs : List Bytes) (e e' : Engine ops clock)
      → ((j : ℕ) → j < length xs → i ≢ h +ℤ pos j)
      → v ≢ tombstone
      → ListAt key h xs e
      → put ops clock (element_key key i) v e ≡ returned tt e'
      → ListAt key h xs e' × (ops.get e'.lsm (element_key key i) ≡ some v)
  unfolding bytes_eq
  put-ListAt key v h i xs e e' out ne l r =
      let (g, reads) =
        put-returned ops clock laws (element_key key i) v e e' (cons-ne-nil _ _) ne l.good r in
      (
        record {
          good = g;
          elements =
              Elements-other key h i xs (some v) (ops.get e.lsm) (ops.get e'.lsm) out reads
                l.elements;
          texts = l.texts;
          lasting = reads (exp_key key) ∙ l.lasting;
        },
        reads (element_key key i) ∙ rw (bytes_eq_refl (element_key key i)) refl,
      )

  pub push_back-ListAt :
      (key : Bytes) (h : ℤ) (xs vs : List Bytes) (t : ℤ) (e e' : Engine ops clock)
      → Storable vs
      → ListAt key h xs e
      → push_back ops clock key vs (h +ℤ pos (length xs)) e ≡ returned t e'
      → ListAt key h (xs ++ vs) e' × (t ≡ h +ℤ pos (length (xs ++ vs)))
  unfolding push_back ◌+ℤ◌
  push_back-ListAt key h xs [] t e e' ok l r =
      let (number, same) = returned_injective r in
      rw (append-nil xs) (subst (ListAt key h xs) same l, sym number)
  push_back-ListAt key h xs (v ∷ vs) t e e' (text, ok) l r =
      let i = h +ℤ pos (length xs) in
      let (_, s, r1, r2) = >>=-returned (put ops clock (element_key key i) v) _ e r in
      let (l1, here) =
        put-ListAt key v h i xs e s
          (λ j lt e. ltb_ℤ-ne (h +ℤ pos j) i (+ℤ-lt h j (length xs) lt) (sym e)) text.0 l r1 in
      let more : ListAt key h (xs ++ v ∷ []) s = record {
        good = l1.good;
        elements = Elements-append key h xs (v ∷ []) (ops.get s.lsm) l1.elements (here, tt);
        texts = All-append IsText xs (v ∷ []) l1.texts (text, tt);
        lasting = l1.lasting;
      } in
      let next : i +ℤ pos 1 ≡ h +ℤ pos (length (xs ++ v ∷ [])) =
        +ℤ_assoc h (pos (length xs)) (pos 1)
        ∙ ap (λ (k : ℕ). h +ℤ pos k) (sym (length-append xs (v ∷ []))) in
      rw (← append_assoc xs (v ∷ []) vs) (
        push_back-ListAt key h (xs ++ v ∷ []) vs t s e' ok more
          (subst (λ (k : ℤ). push_back ops clock key vs k s ≡ returned t e') next r2))

  pub push_front-ListAt :
      (key : Bytes) (h t : ℤ) (xs vs : List Bytes) (h' : ℤ) (e e' : Engine ops clock)
      → Storable vs
      → ListAt key h xs e
      → t ≡ h +ℤ pos (length xs)
      → push_front ops clock key vs h e ≡ returned h' e'
      → ListAt key h' (pushed vs xs) e' × (t ≡ h' +ℤ pos (length (pushed vs xs)))
  unfolding push_front
  push_front-ListAt key h t xs [] h' e e' ok l b r =
      let (number, same) = returned_injective r in rw (← number) (subst (ListAt key h xs) same l, b)
  push_front-ListAt key h t xs (v ∷ vs) h' e e' (text, ok) l b r =
      let i = h -ℤ pos 1 in
      let (_, s, r1, r2) = >>=-returned (put ops clock (element_key key i) v) _ e r in
      let (l1, here) =
        put-ListAt key v h i xs e s (λ j lt e. ltb_ℤ-ne i (h +ℤ pos j) (-ℤ-lt h j) e) text.0 l r1 in
      let more : ListAt key i (v ∷ xs) s = record {
        good = l1.good;
        elements = (
          here,
          subst (λ (k : ℤ). Elements key k xs (ops.get s.lsm)) (sym (-ℤ_step h)) l1.elements,
        );
        texts = (text, l1.texts);
        lasting = l1.lasting;
      } in
      let b' : t ≡ i +ℤ pos (suc (length xs)) =
        b ∙ ap (λ (k : ℤ). k +ℤ pos (length xs)) (sym (-ℤ_step h)) ∙ +ℤ-step i (length xs) in
      push_front-ListAt key i t (v ∷ xs) vs h' s e' ok more b' r2

  pub set_list_meta-HasList :
      (key : Bytes) (h t : ℤ) (xs : List Bytes) (e e' : Engine ops clock)
      → ListAt key h xs e
      → t ≡ h +ℤ pos (length xs)
      → set_list_meta ops clock key h t e ≡ returned tt e'
      → HasList key xs e'
  unfolding set_list_meta bytes_eq
  set_list_meta-HasList key h t xs e e' l b r =
      let (_, s, r1, r2) = >>=-returned (put ops clock (meta_key key) (meta_text h t)) _ e r in
      let (g1, q1) =
        put-returned ops clock laws (meta_key key) (meta_text h t) e s (cons-ne-nil _ _)
          (meta_text-ne-tombstone h t) l.good r1 in
      let (g2, q2) =
        put-returned ops clock laws (type_key key) (codes "list") s e' (cons-ne-nil _ _)
          list-ne-tombstone g1 r2 in
      record {
        head = h;
        at = record {
          good = g2;
          elements =
              Elements-frame key h xs (ops.get e.lsm) (ops.get e'.lsm)
                (λ j lt. q2 (element_key key (h +ℤ pos j)) ∙ q1 (element_key key (h +ℤ pos j)))
                l.elements;
          texts = l.texts;
          lasting = q2 (exp_key key) ∙ q1 (exp_key key) ∙ l.lasting;
        };
        bounds =
            ap list_meta
              (q2 (meta_key key) ∙ q1 (meta_key key) ∙ rw (bytes_eq_refl (meta_key key)) refl)
            ∙ list_meta-text h t
            ∙ ap (λ (k : ℤ). (h, k)) b;
      }
