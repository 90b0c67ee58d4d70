-- ===== src/Kv/Deque.antt =====
-- The lists of the engine against a double-ended queue.
use mathlib.Core.Path.{subst}
use zenith_db.Prelude.{
  ℕ, suc, ◌≡◌, refl, sym, ap, ◌∙◌, arith, Bool, true, Option, none, some, List, [], ◌∷◌, ◌++◌,
  if◌then◌else◌, ltb, length, length-append,
}
use zenith_db.Bytes.{Bytes}
use zenith_db.Python.Int.{
  ℤ, pos, ◌+ℤ◌, ◌-ℤ◌, ltb_ℤ-ne, +ℤ-lt, +ℤ_zero, +ℤ-step, +ℤ-sub, +ℤ-pred, ltb_ℤ-+ℤ,
}
use zenith_db.Kv.{
  returned, ◌>>=◌, StoreOps, StoreLaws, Clock, >>=-returned, >>=-eq, returned_injective,
}
use zenith_db.Kv.Keys.{Engine, pure, get_list_meta, is_expired}
use zenith_db.Kv.Lists.{
  lpush, rpush, lpop, rpop, lpop_from, rpop_from, push_front, push_back, set_list_meta,
  take_element,
}
use zenith_db.Kv.Reads.{is_expired-lasting}
use zenith_db.Kv.Elements.{Elements, Elements-parts}
use zenith_db.Kv.Pushes.{
  ListAt, HasList, Storable, pushed, push_back-ListAt, push_front-ListAt, set_list_meta-HasList,
}
use zenith_db.Kv.Pops.{take_element-HasList, with_meta-HasList}

abbrev pub pop_first : List Bytes → Option Bytes × List Bytes
pop_first [] = (none, [])
pop_first (x ∷ xs) = (some x, xs)

unfoldable pub pop_last : List Bytes → Option Bytes × List Bytes
pop_last [] = (none, [])
pop_last (x ∷ []) = (some x, [])
pop_last (x ∷ y ∷ xs) = let (o, rest) = pop_last (y ∷ xs) in (o, x ∷ rest)

pop_last-parts :
    (x : Bytes) (xs : List Bytes)
    → (y : Bytes) × (ys : List Bytes) × (pop_last (x ∷ xs) ≡ (some y, ys)) × (x ∷ xs ≡ ys ++ y ∷ [])
unfolding pop_last
pop_last-parts x [] = (x, [], refl, refl)
pop_last-parts x (z ∷ xs) =
    let (y, ys, e, s) = pop_last-parts z xs in
    (y, x ∷ ys, rw e refl, ap (λ (l : List Bytes). x ∷ l) s)

Storable-parts : (xs ys : List Bytes) → Storable (xs ++ ys) → Storable xs × Storable ys
Storable-parts [] ys h = (tt, h)
Storable-parts (x ∷ xs) ys (p, h) = let (hx, hy) = Storable-parts xs ys h in ((p, hx), hy)

module _ (ops : StoreOps) (clock : Clock) (laws : StoreLaws ops) where
  pub rpush-HasList :
      (now : clock.Time) (key : Bytes) (vs xs : List Bytes) (n : ℤ) (e e' : Engine ops clock)
      → Storable vs
      → HasList ops clock laws key xs e
      → rpush ops clock now key vs e ≡ returned n e'
      → HasList ops clock laws key (xs ++ vs) e' × (n ≡ pos (length (xs ++ vs)))
  unfolding rpush get_list_meta
  rpush-HasList now key vs xs n e e' ok l r =
      let h = l.head in
      let start =
        >>=-eq (is_expired ops clock now key) _ e e
          (is_expired-lasting ops clock now key e l.at.lasting) in
      let bounds =
        ap
          (λ (m : ℤ × ℤ).
            (push_back ops clock key vs m.1 >>= λ tail.
            set_list_meta ops clock key m.0 tail >>= λ _. pure ops clock (tail -ℤ m.0))
              e)
          l.bounds in
      let (t, s1, r1, k1) =
        >>=-returned (push_back ops clock key vs (h +ℤ pos (length xs))) _ e
          (sym bounds ∙ sym start ∙ r) in
      let (_, s2, r2, k2) = >>=-returned (set_list_meta ops clock key h t) _ s1 k1 in
      let (number, same) = returned_injective k2 in
      let (l1, b) = push_back-ListAt ops clock laws key h xs vs t e s1 ok l.at r1 in
      (
        subst (HasList ops clock laws key (xs ++ vs)) same
            (set_list_meta-HasList ops clock laws key h t (xs ++ vs) s1 s2 l1 b r2),
        sym number ∙ ap (λ (z : ℤ). z -ℤ h) b ∙ +ℤ-sub h (length (xs ++ vs)),
      )

  pub lpush-HasList :
      (now : clock.Time) (key : Bytes) (vs xs : List Bytes) (n : ℤ) (e e' : Engine ops clock)
      → Storable vs
      → HasList ops clock laws key xs e
      → lpush ops clock now key vs e ≡ returned n e'
      → HasList ops clock laws key (pushed vs xs) e' × (n ≡ pos (length (pushed vs xs)))
  unfolding lpush get_list_meta
  lpush-HasList now key vs xs n e e' ok l r =
      let h = l.head in
      let t = h +ℤ pos (length xs) in
      let start =
        >>=-eq (is_expired ops clock now key) _ e e
          (is_expired-lasting ops clock now key e l.at.lasting) in
      let bounds =
        ap
          (λ (m : ℤ × ℤ).
            (push_front ops clock key vs m.0 >>= λ head.
            set_list_meta ops clock key head m.1 >>= λ _. pure ops clock (m.1 -ℤ head))
              e)
          l.bounds in
      let (h', s1, r1, k1) =
        >>=-returned (push_front ops clock key vs h) _ e (sym bounds ∙ sym start ∙ r) in
      let (_, s2, r2, k2) = >>=-returned (set_list_meta ops clock key h' t) _ s1 k1 in
      let (number, same) = returned_injective k2 in
      let (l1, b) = push_front-ListAt ops clock laws key h t xs vs h' e s1 ok l.at refl r1 in
      (
        subst (HasList ops clock laws key (pushed vs xs)) same
            (set_list_meta-HasList ops clock laws key h' t (pushed vs xs) s1 s2 l1 b r2),
        sym number ∙ ap (λ (z : ℤ). z -ℤ h') b ∙ +ℤ-sub h' (length (pushed vs xs)),
      )

  -- What is left when the bounds are known.
  lpop_at :
      (key : Bytes) (xs : List Bytes) (o : Option Bytes) (h : ℤ) (e e' : Engine ops clock)
      → ListAt ops clock laws key h xs e
      → HasList ops clock laws key xs e
      → (if ltb 0 (length xs)
            then take_element ops clock key h (h +ℤ pos 1) (h +ℤ pos (length xs))
            else pure ops clock none)
          e
        ≡ returned o e'
      → HasList ops clock laws key (pop_first xs).1 e' × (o ≡ (pop_first xs).0)
  lpop_at key [] o h e e' l whole r =
      let (none_is, same) = returned_injective r in
      (subst (HasList ops clock laws key []) same whole, sym none_is)
  lpop_at key (x ∷ xs) o h e e' l whole r =
      let some_left : ltb 0 (suc (length xs)) ≡ true = ground arith in
      let r' =
        subst
          (λ (b : Bool).
            (if b
                then take_element ops clock key h (h +ℤ pos 1) (h +ℤ pos (suc (length xs)))
                else pure ops clock none)
              e
            ≡ returned o e')
          some_left r in
      let (here, behind) = l.elements in
      let (text, texts) = l.texts in
      take_element-HasList ops clock laws key x h (h +ℤ pos 1) (h +ℤ pos (suc (length xs))) xs e e'
        o
        (λ j lt same.
          ltb_ℤ-ne (h +ℤ pos 0) (h +ℤ pos (suc j)) (+ℤ-lt h 0 (suc j) (omega arith))
            (+ℤ_zero h ∙ same ∙ +ℤ-step h j))
        (record { good = l.good; elements = behind; texts = texts; lasting = l.lasting }) text here
        (sym (+ℤ-step h (length xs))) r'

  rpop_at :
      (key : Bytes) (xs : List Bytes) (o : Option Bytes) (h : ℤ) (e e' : Engine ops clock)
      → ListAt ops clock laws key h xs e
      → HasList ops clock laws key xs e
      → (if ltb 0 (length xs)
            then take_element ops clock key
                (h +ℤ pos (length xs) -ℤ pos 1)
                h
                (h +ℤ pos (length xs) -ℤ pos 1)
            else pure ops clock none)
          e
        ≡ returned o e'
      → HasList ops clock laws key (pop_last xs).1 e' × (o ≡ (pop_last xs).0)
  unfolding pop_last
  rpop_at key [] o h e e' l whole r =
      let (none_is, same) = returned_injective r in
      (subst (HasList ops clock laws key []) same whole, sym none_is)
  rpop_at key (x ∷ xs) o h e e' l whole r =
      let some_left : ltb 0 (suc (length xs)) ≡ true = ground arith in
      let (y, ys, popped, shape) = pop_last-parts x xs in
      let size : suc (length xs) ≡ suc (length ys) =
        ap length shape ∙ length-append ys (y ∷ []) ∙ omega arith in
      let i : h +ℤ pos (suc (length xs)) -ℤ pos 1 ≡ h +ℤ pos (length ys) =
        +ℤ-pred h (length xs) ∙ ap (λ (k : ℕ). h +ℤ pos k) (omega (arith, size)) in
      let r' =
        subst (λ (k : ℤ). take_element ops clock key k h k e ≡ returned o e') i
          (subst
            (λ (b : Bool).
              (if b
                  then take_element ops clock key (h +ℤ pos (suc (length xs)) -ℤ pos 1) h
                      (h +ℤ pos (suc (length xs)) -ℤ pos 1)
                  else pure ops clock none)
                e
              ≡ returned o e')
            some_left r) in
      let (front, (here, _)) =
        Elements-parts key h ys (y ∷ []) (ops.get e.lsm)
          (subst (λ (l : List Bytes). Elements key h l (ops.get e.lsm)) shape l.elements) in
      let (texts, (text, _)) = Storable-parts ys (y ∷ []) (subst Storable shape l.texts) in
      rw popped (
        take_element-HasList ops clock laws key y (h +ℤ pos (length ys)) h (h +ℤ pos (length ys)) ys
          e e' o
          (λ j lt same.
            ltb_ℤ-ne (h +ℤ pos j) (h +ℤ pos (length ys)) (+ℤ-lt h j (length ys) lt) (sym same))
          (record { good = l.good; elements = front; texts = texts; lasting = l.lasting }) text here
          refl r')

  pub lpop-HasList :
      (now : clock.Time) (key : Bytes) (xs : List Bytes) (o : Option Bytes)
      (e e' : Engine ops clock)
      → HasList ops clock laws key xs e
      → lpop ops clock now key e ≡ returned o e'
      → HasList ops clock laws key (pop_first xs).1 e' × (o ≡ (pop_first xs).0)
  unfolding lpop
  lpop-HasList now key xs o e e' l r =
      let h = l.head in
      let start = with_meta-HasList ops clock laws now key xs none (lpop_from ops clock key) e l in
      let test =
        ap
          (λ (b : Bool).
            (if b
                then take_element ops clock key h (h +ℤ pos 1) (h +ℤ pos (length xs))
                else pure ops clock none)
              e)
          (ltb_ℤ-+ℤ h (length xs)) in
      lpop_at key xs o h e e' l.at l (sym test ∙ sym start ∙ r)

  pub rpop-HasList :
      (now : clock.Time) (key : Bytes) (xs : List Bytes) (o : Option Bytes)
      (e e' : Engine ops clock)
      → HasList ops clock laws key xs e
      → rpop ops clock now key e ≡ returned o e'
      → HasList ops clock laws key (pop_last xs).1 e' × (o ≡ (pop_last xs).0)
  unfolding rpop
  rpop-HasList now key xs o e e' l r =
      let h = l.head in
      let start = with_meta-HasList ops clock laws now key xs none (rpop_from ops clock key) e l in
      let test =
        ap
          (λ (b : Bool).
            (if b
                then take_element ops clock key (h +ℤ pos (length xs) -ℤ pos 1) h
                    (h +ℤ pos (length xs) -ℤ pos 1)
                else pure ops clock none)
              e)
          (ltb_ℤ-+ℤ h (length xs)) in
      rpop_at key xs o h e e' l.at l (sym test ∙ sym start ∙ r)
