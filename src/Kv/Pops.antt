-- ===== src/Kv/Pops.antt =====
-- What a list holds after pops, and what it is read as.
use mathlib.Core.List.{cons-ne-nil}
use mathlib.Core.Path.{subst}
use zenith_db.Prelude.{
  ℕ, ◌<◌, ◌≤◌, ◌≡◌, ◌≢◌, refl, sym, ap, ◌∙◌, arith, Bool, Option, if◌then◌else◌, none, some, List,
  [], ◌∷◌, length, take, drop, length-take, take-append-drop,
}
use zenith_db.Bytes.{Bytes, bytes_eq}
use zenith_db.Python.Int.{ℤ, pos, ◌+ℤ◌}
use zenith_db.Txn.{exp_key}
use zenith_db.Kv.{
  returned, raises, value_error, StoreOps, StoreLaws, Clock, >>=-returned, >>=-eq,
  returned_injective,
}
use zenith_db.Kv.Keys.{Engine, Method, pure, remove, element_key, get_list_meta, is_expired}
use zenith_db.Kv.Lists.{
  set_list_meta, take_element, unless_empty, with_meta, read_elements, decoded,
}
use zenith_db.Kv.Keeps.{remove-returned}
use zenith_db.Kv.Reads.{is_expired-lasting}
use zenith_db.Kv.Elements.{Elements, Elements-other, Elements-parts}
use zenith_db.Kv.Pushes.{IsText, Storable, ListAt, HasList, set_list_meta-HasList}

module _ (ops : StoreOps) (clock : Clock) (laws : StoreLaws ops) where
  decoded-IsText :
      (x : Bytes) (e : Engine ops clock)
      → IsText x
      → decoded ops clock (unless_empty (some x)) e ≡ returned (some x) e
  decoded-IsText [] e (_, ne, _) = absurd (ne refl)
  decoded-IsText (c ∷ x) e (_, _, utf8) =
      ap (λ (b : Bool). (if b then pure ops clock (some (c ∷ x)) else raises value_error) e) utf8

  decoded-utf8 :
      (x : Bytes) (e : Engine ops clock)
      → IsText x
      → decoded ops clock (some x) e ≡ returned (some x) e
  decoded-utf8 x e (_, _, utf8) =
      ap (λ (b : Bool). (if b then pure ops clock (some x) else raises value_error) e) utf8

  -- Taking out an element that stands outside what is left.
  pub take_element-HasList :
      (key x : Bytes) (i h t : ℤ) (xs : List Bytes) (e e' : Engine ops clock) (o : Option Bytes)
      → ((j : ℕ) → j < length xs → i ≢ h +ℤ pos j)
      → ListAt ops clock laws key h xs e
      → IsText x
      → ops.get e.lsm (element_key key i) ≡ some x
      → t ≡ h +ℤ pos (length xs)
      → take_element ops clock key i h t e ≡ returned o e'
      → HasList ops clock laws key xs e' × (o ≡ some x)
  unfolding take_element bytes_eq
  take_element-HasList key x i h t xs e e' o out l text here b r =
      let (_, s1, r1, k1) = >>=-returned (remove ops clock (element_key key i)) _ e r in
      let (_, s2, r2, k2) = >>=-returned (set_list_meta ops clock key h t) _ s1 k1 in
      let (same_o, same) = returned_injective (
        sym (decoded-IsText x s2 text)
        ∙ sym (ap (λ (v : Option Bytes). decoded ops clock (unless_empty v) s2) here)
        ∙ k2) in
      let (g, reads) =
        remove-returned ops clock laws (element_key key i) e s1 (cons-ne-nil _ _) l.good r1 in
      let l1 : ListAt ops clock laws key h xs s1 = record {
        good = g;
        elements =
            Elements-other key h i xs none (ops.get e.lsm) (ops.get s1.lsm) out reads l.elements;
        texts = l.texts;
        lasting = reads (exp_key key) ∙ l.lasting;
      } in
      (
        subst (HasList ops clock laws key xs) same
            (set_list_meta-HasList ops clock laws key h t xs s1 s2 l1 b r2),
        sym same_o,
      )

  -- On a key that has not expired, the rest of a method is given the bounds.
  pub with_meta-HasList :
      {A : Type 0} (now : clock.Time) (key : Bytes) (xs : List Bytes) (missing : A)
      (rest : ℤ × ℤ → Method ops clock A) (e : Engine ops clock)
      (l : HasList ops clock laws key xs e)
      → with_meta ops clock now key missing rest e ≡ rest (l.head, l.head +ℤ pos (length xs)) e
  unfolding with_meta get_list_meta
  with_meta-HasList now key xs missing rest e l =
      >>=-eq (is_expired ops clock now key) _ e e
        (is_expired-lasting ops clock now key e l.at.lasting)
      ∙ ap (λ (m : ℤ × ℤ). rest m e) l.bounds

  pub read_elements-Elements :
      (key : Bytes) (h : ℤ) (xs : List Bytes) (e : Engine ops clock)
      → Elements key h xs (ops.get e.lsm)
      → Storable xs
      → read_elements ops clock (length xs) key h e ≡ returned xs e
  unfolding read_elements
  read_elements-Elements key h [] e hs ts = refl
  read_elements-Elements key h (x ∷ xs) e (here, hs) (text, ts) =
      >>=-eq (λ s. decoded ops clock (ops.get s.lsm (element_key key h)) s) _ e e
        (ap (λ (o : Option Bytes). decoded ops clock o e) here ∙ decoded-utf8 x e text)
      ∙ >>=-eq (read_elements ops clock (length xs) key (h +ℤ pos 1)) _ e e
          (read_elements-Elements key (h +ℤ pos 1) xs e hs ts)

  -- The elements from `n` on, and of these the first `m`.
  pub Elements-window :
      (key : Bytes) (h : ℤ) (xs : List Bytes) (n m : ℕ) (f : Bytes → Option Bytes)
      → n ≤ length xs
      → Elements key h xs f
      → Elements key (h +ℤ pos n) (take m (drop n xs)) f
  Elements-window key h xs n m f le hs =
      let (_, behind) =
        Elements-parts key h (take n xs) (drop n xs) f
          (subst (λ (l : List Bytes). Elements key h l f) (sym (take-append-drop n xs)) hs) in
      let size : length (take n xs) ≡ n = omega (arith, length-take n xs, le) in
      let behind' : Elements key (h +ℤ pos n) (drop n xs) f =
        subst (λ (k : ℕ). Elements key (h +ℤ pos k) (drop n xs) f) size behind in
      (Elements-parts key (h +ℤ pos n) (take m (drop n xs)) (drop m (drop n xs)) f (
        subst (λ (l : List Bytes). Elements key (h +ℤ pos n) l f)
          (sym (take-append-drop m (drop n xs))) behind')).0
