-- ===== src/Kv/Ranges.antt =====
-- What lrange and llen read of a list.
use zenith_db.Prelude.{
  ℕ, ◌+◌, ◌-◌, ◌<◌, ◌≤◌, ◌≡◌, refl, sym, ap, ◌∙◌, arith, inl, inr, Bool, true, false, not, ◌||◌,
  List, [], Bool-cases, if◌then◌else◌, ltb, length, take, drop, length-take, length-drop, All-take,
  All-drop,
}
use zenith_db.Bytes.{Bytes}
use zenith_db.Python.Int.{ℤ, pos, ◌+ℤ◌, ◌-ℤ◌, ltb_ℤ, to_ℕ, +ℤ-sub}
use zenith_db.Kv.{Result, returned, StoreOps, StoreLaws, Clock}
use zenith_db.Kv.Keys.{Engine, pure}
use zenith_db.Kv.Lists.{
  lrange, llen, lrange_from, llen_from, read_elements, clamp_start, clamp_stop, is_outside,
}
use zenith_db.Kv.Pushes.{IsText, ListAt, HasList}
use zenith_db.Kv.Pops.{with_meta-HasList, read_elements-Elements, Elements-window}
use zenith_db.Kv.Window.{window, window_outside, window-take, clamp_bounds}

module _ (ops : StoreOps) (clock : Clock) (laws : StoreLaws ops) where
  -- `lrange` behind the bounds of a list of `n` elements.
  abbrev body : Bytes → ℤ → ℤ → ℤ → ℤ → Engine ops clock → Result (Engine ops clock) (List Bytes)
  body key a b h n =
      if not (ltb_ℤ (pos 0) n) || is_outside n (clamp_start n a) (clamp_stop n b)
      then pure ops clock []
      else read_elements ops clock (to_ℕ (clamp_stop n b +ℤ pos 1 -ℤ clamp_start n a)) key
          (h +ℤ clamp_start n a)

  rounds : (f l : ℕ) → f ≤ l → to_ℕ (pos l +ℤ pos 1 -ℤ pos f) ≡ l + 1 - f
  unfolding ◌+ℤ◌ ◌-ℤ◌
  rounds f l p = ground arith

  body-window :
      (key : Bytes) (a b h : ℤ) (xs : List Bytes) (e : Engine ops clock)
      → ListAt ops clock laws key h xs e
      → body key a b h (pos (length xs)) e ≡ returned (window xs a b) e
  body-window key a b h xs e l =
      let n = length xs in
      elim (Bool-cases (is_outside (pos n) (clamp_start (pos n) a) (clamp_stop (pos n) b))) [
        | inl out ↦
            let none_left : (not (ltb 0 n)
                  || is_outside (pos n) (clamp_start (pos n) a) (clamp_stop (pos n) b))
                ≡ true =
              ap (λ (c : Bool). not (ltb 0 n) || c) out ∙ or_true (not (ltb 0 n)) in
            ap
              (λ (c : Bool).
                (if c
                    then pure ops clock []
                    else read_elements ops clock
                        (to_ℕ (clamp_stop (pos n) b +ℤ pos 1 -ℤ clamp_start (pos n) a)) key
                        (h +ℤ clamp_start (pos n) a))
                  e)
              none_left
            ∙ ap (λ (ys : List Bytes). returned ys e) (sym (window_outside xs a b out))
        | inr within ↦
            let (f, last, ef, el, le, lt) = clamp_bounds n a b within in
            let some_left : (not (ltb 0 n)
                  || is_outside (pos n) (clamp_start (pos n) a) (clamp_stop (pos n) b))
                ≡ false =
              ap (λ (c : Bool). not (ltb 0 n) || c) within ∙ or_false n (omega (arith, lt)) in
            let ys = take (last + 1 - f) (drop f xs) in
            let size : last + 1 - f ≡ length ys =
              omega (arith, length-take (last + 1 - f) (drop f xs), length-drop f xs, lt, le) in
            let same : window xs a b ≡ ys =
              window-take xs a b within
              ∙ ap (λ (z : ℤ). take (to_ℕ (clamp_stop (pos n) b) + 1 - to_ℕ z) (drop (to_ℕ z) xs))
                  ef
              ∙ ap (λ (z : ℤ). take (to_ℕ z + 1 - f) (drop f xs)) el in
            ap
              (λ (c : Bool).
                (if c
                    then pure ops clock []
                    else read_elements ops clock
                        (to_ℕ (clamp_stop (pos n) b +ℤ pos 1 -ℤ clamp_start (pos n) a)) key
                        (h +ℤ clamp_start (pos n) a))
                  e)
              some_left
            ∙ ap
                (λ (z : ℤ).
                  read_elements ops clock (to_ℕ (clamp_stop (pos n) b +ℤ pos 1 -ℤ z)) key (h +ℤ z)
                    e)
                ef
            ∙ ap
                (λ (z : ℤ). read_elements ops clock (to_ℕ (z +ℤ pos 1 -ℤ pos f)) key (h +ℤ pos f) e)
                el
            ∙ ap (λ (k : ℕ). read_elements ops clock k key (h +ℤ pos f) e) (rounds f last le ∙ size)
            ∙ read_elements-Elements ops clock laws key (h +ℤ pos f) ys e
                (Elements-window ops clock laws key h xs f (last + 1 - f) (λ k. ops.get e.lsm k)
                  (omega (arith, le, lt)) l.elements)
                (All-take IsText (last + 1 - f) (drop f xs) (All-drop IsText f xs l.texts))
            ∙ ap (λ (l : List Bytes). returned l e) (sym same)
      ]
    where
      or_true : (c : Bool) → (c || true) ≡ true
      or_true true = refl
      or_true false = refl

      or_false : (n : ℕ) → 0 < n → (not (ltb 0 n) || false) ≡ false
      or_false n p = ground arith

  pub lrange-HasList :
      (now : clock.Time) (key : Bytes) (a b : ℤ) (xs : List Bytes) (e : Engine ops clock)
      → HasList ops clock laws key xs e
      → lrange ops clock now key a b e ≡ returned (window xs a b) e
  unfolding lrange
  lrange-HasList now key a b xs e l =
      with_meta-HasList ops clock laws now key xs [] (lrange_from ops clock key a b) e l
      ∙ ap (λ (z : ℤ). body key a b l.head z e) (+ℤ-sub l.head (length xs))
      ∙ body-window key a b l.head xs e l.at

  pub llen-HasList :
      (now : clock.Time) (key : Bytes) (xs : List Bytes) (e : Engine ops clock)
      → HasList ops clock laws key xs e
      → llen ops clock now key e ≡ returned (pos (length xs)) e
  unfolding llen
  llen-HasList now key xs e l =
      with_meta-HasList ops clock laws now key xs (pos 0) (llen_from ops clock) e l
      ∙ ap (λ (z : ℤ). returned (if ltb_ℤ z (pos 0) then pos 0 else z) e)
          (+ℤ-sub l.head (length xs))
      ∙ ap (λ (c : Bool). returned (if c then pos 0 else pos (length xs)) e) (not_below (length xs))
    where
      not_below : (n : ℕ) → ltb n 0 ≡ false
      not_below n = ground arith
