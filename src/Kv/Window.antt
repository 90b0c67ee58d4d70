-- ===== src/Kv/Window.antt =====
-- The elements between two indices, counted from the end where these are negative.
use zenith_db.Prelude.{
  ℕ, suc, ◌+◌, ◌-◌, ◌<◌, ◌≤◌, ◌≡◌, refl, sym, ap, ◌∙◌, arith, inl, inr, Bool, true, false, not,
  ◌&&◌, List, [], ◌∷◌, Bool-cases, if◌then◌else◌, ltb, leb, length, take, drop, take_all, drop_all,
  leb→le, leb→lt, ltb→lt, ltb→le,
}
use zenith_db.Bytes.{Bytes}
use zenith_db.Python.Int.{ℤ, pos, negsuc, ◌+ℤ◌, ◌-ℤ◌, ltb_ℤ, to_ℕ}
use zenith_db.Kv.Lists.{clamp_start, clamp_stop, is_outside}

abbrev pub resolve : ℕ → ℤ → ℤ
resolve n (pos i) = pos i
resolve n (negsuc i) = pos n +ℤ negsuc i

abbrev pub is_between : ℤ → ℤ → ℕ → Bool
is_between lo hi j = not (ltb_ℤ (pos j) lo) && not (ltb_ℤ hi (pos j))

-- The elements whose index, counted from `j` on, is between two bounds.
unfoldable pub between : ℤ → ℤ → ℕ → List Bytes → List Bytes
between lo hi j [] = []
between lo hi j (x ∷ xs) =
    let rest = between lo hi (j + 1) xs in if is_between lo hi j then x ∷ rest else rest

-- `lrange`, on a list.
abbrev pub window : List Bytes → ℤ → ℤ → List Bytes
window xs start stop = between (resolve (length xs) start) (resolve (length xs) stop) 0 xs

between-take :
    (lo hi : ℤ) (f l j : ℕ) (xs : List Bytes)
    → f ≤ j
    → ((i : ℕ) → i < j + length xs → is_between lo hi i ≡ (leb f i && leb i l))
    → between lo hi j xs ≡ take (l + 1 - j) xs
unfolding between
between-take lo hi f l j [] p h = sym (take_all (l + 1 - j) [] (omega arith))
between-take lo hi f l j (x ∷ xs) p h =
    let here = h j (omega arith) in
    let low : leb f j ≡ true = ground arith in
    let rest = between-take lo hi f l (j + 1) xs (omega arith) (λ i q. h i (omega (arith, q))) in
    elim (Bool-cases (leb j l)) [
      | inl within ↦
          let e : l + 1 - j ≡ suc (l + 1 - (j + 1)) = omega (arith, leb→le j l within) in
          rw (here, low, within, rest, e) refl
      | inr past ↦
          let e : l + 1 - j ≡ 0 = omega (arith, leb→lt j l past) in
          let e' : l + 1 - (j + 1) ≡ 0 = omega (arith, leb→lt j l past) in
          rw (here, low, past, rest, e, e') refl
    ]

between-window :
    (lo hi : ℤ) (f l j : ℕ) (xs : List Bytes)
    → j ≤ f
    → ((i : ℕ) → i < j + length xs → is_between lo hi i ≡ (leb f i && leb i l))
    → between lo hi j xs ≡ take (l + 1 - f) (drop (f - j) xs)
unfolding between
between-window lo hi f l j [] p h =
    let e : drop {A = Bytes} (f - j) [] ≡ [] = drop_all (f - j) [] (omega arith) in
    rw e (sym (take_all (l + 1 - f) [] (omega arith)))
between-window lo hi f l j (x ∷ xs) p h = elim (Bool-cases (ltb j f)) [
  | inl early ↦
      let lt = ltb→lt j f early in
      let off : leb f j ≡ false = ground arith in
      let e : f - j ≡ suc (f - (j + 1)) = omega (arith, lt) in
      rw (h j (omega arith), off, e)
        (between-window lo hi f l (j + 1) xs (omega (arith, lt)) (λ i q. h i (omega (arith, q))))
  | inr now ↦
      let same : j ≡ f = omega (arith, ltb→le j f now, p) in
      let e : f - j ≡ 0 = omega (arith, same) in
      between-take lo hi f l j (x ∷ xs) (omega (arith, same)) h
      ∙ rw e (ap (λ (k : ℕ). take (l + 1 - k) (x ∷ xs)) same)
]

between-empty :
    (lo hi : ℤ) (j : ℕ) (xs : List Bytes)
    → ((i : ℕ) → i < j + length xs → is_between lo hi i ≡ false)
    → between lo hi j xs ≡ []
unfolding between
between-empty lo hi j [] h = refl
between-empty lo hi j (x ∷ xs) h =
    rw (h j (omega arith)) (between-empty lo hi (j + 1) xs (λ i p. h i (omega (arith, p))))

-- Outside the list, nothing is between the bounds.
outside-between :
    (n i : ℕ) (start stop : ℤ)
    → i < n
    → is_outside (pos n) (clamp_start (pos n) start) (clamp_stop (pos n) stop) ≡ true
    → is_between (resolve n start) (resolve n stop) i ≡ false
unfolding ◌+ℤ◌ ◌-ℤ◌
outside-between n i (pos a) (pos b) p h = ground arith
outside-between n i (pos a) (negsuc b) p h = ground arith
outside-between n i (negsuc a) (pos b) p h = ground arith
outside-between n i (negsuc a) (negsuc b) p h = ground arith

inside-between :
    (n i : ℕ) (start stop : ℤ)
    → i < n
    → is_outside (pos n) (clamp_start (pos n) start) (clamp_stop (pos n) stop) ≡ false
    → is_between (resolve n start) (resolve n stop) i
      ≡ (leb (to_ℕ (clamp_start (pos n) start)) i && leb i (to_ℕ (clamp_stop (pos n) stop)))
unfolding ◌+ℤ◌ ◌-ℤ◌
inside-between n i (pos a) (pos b) p h = ground arith
inside-between n i (pos a) (negsuc b) p h = ground arith
inside-between n i (negsuc a) (pos b) p h = ground arith
inside-between n i (negsuc a) (negsuc b) p h = ground arith

pub window_outside :
    (xs : List Bytes) (start stop : ℤ)
    → is_outside
        (pos (length xs))
        (clamp_start (pos (length xs)) start)
        (clamp_stop (pos (length xs)) stop)
      ≡ true
    → window xs start stop ≡ []
window_outside xs start stop h =
    between-empty (resolve (length xs) start) (resolve (length xs) stop) 0 xs
      (λ i p. outside-between (length xs) i start stop (omega (arith, p)) h)

pub window-take :
    (xs : List Bytes) (start stop : ℤ)
    → is_outside
        (pos (length xs))
        (clamp_start (pos (length xs)) start)
        (clamp_stop (pos (length xs)) stop)
      ≡ false
    → window xs start stop
      ≡ take
          (to_ℕ (clamp_stop (pos (length xs)) stop)
            + 1
            - to_ℕ (clamp_start (pos (length xs)) start))
          (drop (to_ℕ (clamp_start (pos (length xs)) start)) xs)
window-take xs start stop h =
    between-window (resolve (length xs) start) (resolve (length xs) stop)
      (to_ℕ (clamp_start (pos (length xs)) start)) (to_ℕ (clamp_stop (pos (length xs)) stop)) 0 xs
      (omega arith) (λ i p. inside-between (length xs) i start stop (omega (arith, p)) h)
    ∙ ap
        (λ (k : ℕ).
          take
            (to_ℕ (clamp_stop (pos (length xs)) stop)
              + 1
              - to_ℕ (clamp_start (pos (length xs)) start))
            (drop k xs))
        (omega arith)

start_low : (n : ℕ) (a : ℤ) → ltb_ℤ (clamp_start (pos n) a) (pos 0) ≡ false
unfolding ◌+ℤ◌ ◌-ℤ◌
start_low n (pos a) = ground arith
start_low n (negsuc a) = ground arith

stop_high : (n : ℕ) (b : ℤ) → ltb_ℤ (clamp_stop (pos n) b) (pos n) ≡ true
unfolding ◌+ℤ◌ ◌-ℤ◌
stop_high n (pos b) = ground arith
stop_high n (negsuc b) = ground arith

-- Where the bounds are within a list, they are indices.
pub clamp_bounds :
    (n : ℕ) (start stop : ℤ)
    → is_outside (pos n) (clamp_start (pos n) start) (clamp_stop (pos n) stop) ≡ false
    → (f l : ℕ) × (clamp_start (pos n) start ≡ pos f)
      × (clamp_stop (pos n) stop ≡ pos l)
      × (f ≤ l)
      × (l < n)
clamp_bounds n start stop h =
    within (clamp_start (pos n) start) (clamp_stop (pos n) stop) (start_low n start)
      (stop_high n stop) h
  where
    within :
        (a b : ℤ)
        → ltb_ℤ a (pos 0) ≡ false
        → ltb_ℤ b (pos n) ≡ true
        → is_outside (pos n) a b ≡ false
        → (f l : ℕ) × (a ≡ pos f) × (b ≡ pos l) × (f ≤ l) × (l < n)
    within (pos f) (pos l) p q r = (f, l, refl, refl, ground arith, ground arith)
    within (pos f) (negsuc l) p q r = absurd (ground arith)
    within (negsuc f) b p q r = absurd (ground arith)
