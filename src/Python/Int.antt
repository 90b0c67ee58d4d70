-- ===== src/Python/Int.antt =====
-- Python's `int`, with the sums and orders that the program uses.
use zenith_db.Prelude.{
  ℕ, suc, ◌+◌, ◌-◌, ◌≤◌, ◌<◌, ◌≡◌, ◌≢◌, sym, ap, ◌∙◌, Bool, true, false, arith, ltb, ◌==◌,
  if◌then◌else◌,
}

-- `negsuc n` is -(n + 1).
pub data ℤ : Type 0 where
  pos negsuc : ℕ → ℤ

-- `m - n` of two natural numbers
abbrev pub diff : ℕ → ℕ → ℤ
diff m n = if ltb m n then negsuc (n - m - 1) else pos (m - n)

abbrev pub neg : ℤ → ℤ
neg (pos n) = diff 0 n
neg (negsuc n) = pos (n + 1)

infixl 65 ◌+ℤ◌ ◌-ℤ◌
unfoldable pub ◌+ℤ◌ : ℤ → ℤ → ℤ
pos m +ℤ pos n = pos (m + n)
pos m +ℤ negsuc n = diff m (n + 1)
negsuc m +ℤ pos n = diff n (m + 1)
negsuc m +ℤ negsuc n = negsuc (m + n + 1)

unfoldable pub ◌-ℤ◌ : ℤ → ℤ → ℤ
a -ℤ b = a +ℤ neg b

-- `a < b`
abbrev pub ltb_ℤ : ℤ → ℤ → Bool
ltb_ℤ (pos m) (pos n) = ltb m n
ltb_ℤ (pos m) (negsuc n) = false
ltb_ℤ (negsuc m) (pos n) = true
ltb_ℤ (negsuc m) (negsuc n) = ltb n m

-- `a == b`
abbrev pub eq_ℤ : ℤ → ℤ → Bool
eq_ℤ (pos m) (pos n) = m == n
eq_ℤ (negsuc m) (negsuc n) = m == n
eq_ℤ _ _ = false

-- `max(0, a)`, also the rounds of `range(a)`
abbrev pub to_ℕ : ℤ → ℕ
to_ℕ (pos n) = n
to_ℕ (negsuc n) = 0

pub pos-sub : (m n : ℕ) → n ≤ m → pos m -ℤ pos n ≡ pos (m - n)
unfolding ◌-ℤ◌ ◌+ℤ◌
pos-sub m n h = ground arith

pub +ℤ_cancel : (a b : ℤ) → a +ℤ b -ℤ b ≡ a
unfolding ◌-ℤ◌ ◌+ℤ◌
+ℤ_cancel a b = ground arith

pub +ℤ_assoc : (a b c : ℤ) → a +ℤ b +ℤ c ≡ a +ℤ (b +ℤ c)
unfolding ◌+ℤ◌
+ℤ_assoc a b c = ground arith

pub +ℤ-lt : (a : ℤ) (m n : ℕ) → m < n → ltb_ℤ (a +ℤ pos m) (a +ℤ pos n) ≡ true
unfolding ◌+ℤ◌
+ℤ-lt a m n h = ground arith

pub ltb_ℤ_irrefl : (a : ℤ) → ltb_ℤ a a ≡ false
ltb_ℤ_irrefl a = ground arith

pub ltb_ℤ-ne : (a b : ℤ) → ltb_ℤ a b ≡ true → a ≢ b
ltb_ℤ-ne a b h e = let bad : true ≡ false = sym h ∙ ap (λ x. ltb_ℤ x b) e ∙ ltb_ℤ_irrefl b in cc

pub +ℤ_zero : (a : ℤ) → a +ℤ pos 0 ≡ a
unfolding ◌+ℤ◌
+ℤ_zero a = ground arith

pub +ℤ_comm : (a b : ℤ) → a +ℤ b ≡ b +ℤ a
unfolding ◌+ℤ◌
+ℤ_comm a b = ground arith

pub -ℤ_step : (a : ℤ) → a -ℤ pos 1 +ℤ pos 1 ≡ a
unfolding ◌-ℤ◌ ◌+ℤ◌
-ℤ_step a = ground arith

pub +ℤ-sub : (a : ℤ) (n : ℕ) → a +ℤ pos n -ℤ a ≡ pos n
unfolding ◌-ℤ◌ ◌+ℤ◌
+ℤ-sub a n = ground arith

pub +ℤ-step : (a : ℤ) (n : ℕ) → a +ℤ pos 1 +ℤ pos n ≡ a +ℤ pos (suc n)
unfolding ◌+ℤ◌
+ℤ-step a n = ground arith

pub -ℤ-lt : (a : ℤ) (n : ℕ) → ltb_ℤ (a -ℤ pos 1) (a +ℤ pos n) ≡ true
unfolding ◌-ℤ◌ ◌+ℤ◌
-ℤ-lt a n = ground arith

pub ltb_ℤ-+ℤ : (a : ℤ) (n : ℕ) → ltb_ℤ a (a +ℤ pos n) ≡ ltb 0 n
unfolding ◌+ℤ◌
ltb_ℤ-+ℤ a n = ground arith

pub +ℤ-pred : (a : ℤ) (n : ℕ) → a +ℤ pos (suc n) -ℤ pos 1 ≡ a +ℤ pos n
unfolding ◌-ℤ◌ ◌+ℤ◌
+ℤ-pred a n = ground arith
