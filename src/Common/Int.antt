-- ===== src/Common/Int.antt =====
-- Signed counters: `negsuc n` is -(n + 1).
use Prim.Native.Nat.{ℕ, zero, suc, ◌+◌, ◌-◌}
use mathlib.Core.Path.{◌≡◌, refl}
use native.Mathlib.Omega.{arith}
use learning_c.Common.Tests.{leb, ltb, if◌then◌else◌}
use mathlib.Core.Bool.{Bool, true, false}

pub data ℤ : Type 0 where
  pos : ℕ → ℤ
  negsuc : ℕ → ℤ

-- `n++` and `n--`
abbrev pub increment : ℤ → ℤ
increment (pos n) = pos (suc n)
increment (negsuc zero) = pos 0
increment (negsuc (suc n)) = negsuc n

abbrev pub decrement : ℤ → ℤ
decrement (pos zero) = negsuc 0
decrement (pos (suc n)) = pos n
decrement (negsuc n) = negsuc (suc n)

abbrev pub is_zero : ℤ → Bool
is_zero (pos zero) = true
is_zero (pos (suc n)) = false
is_zero (negsuc n) = false

pub decrement-increment : (n : ℤ) → decrement (increment n) ≡ n
decrement-increment (pos n) = refl
decrement-increment (negsuc zero) = refl
decrement-increment (negsuc (suc n)) = refl

-- The difference of two natural numbers, sums, and the order.
abbrev pub difference : ℕ → ℕ → ℤ
difference a b = if leb b a then pos (a - b) else negsuc (b - suc a)

infixl 60 ◌+ℤ◌
abbrev pub ◌+ℤ◌ : ℤ → ℤ → ℤ
pos a +ℤ pos b = pos (a + b)
pos a +ℤ negsuc b = difference a (suc b)
negsuc a +ℤ pos b = difference b (suc a)
negsuc a +ℤ negsuc b = negsuc (suc (a + b))

abbrev pub negate : ℤ → ℤ
negate (pos n) = difference 0 n
negate (negsuc n) = pos (suc n)

abbrev pub ltbℤ : ℤ → ℤ → Bool
ltbℤ (pos a) (pos b) = ltb a b
ltbℤ (pos a) (negsuc b) = false
ltbℤ (negsuc a) (pos b) = true
ltbℤ (negsuc a) (negsuc b) = ltb b a

pub ltbℤ_trans : (a b c : ℤ) → ltbℤ b a ≡ false → ltbℤ c b ≡ false → ltbℤ c a ≡ false
ltbℤ_trans (pos a) (pos b) (pos c) h k = ground arith
ltbℤ_trans (pos a) (pos b) (negsuc c) h k = absurd (ground arith)
ltbℤ_trans (pos a) (negsuc b) c h k = absurd (ground arith)
ltbℤ_trans (negsuc a) (pos b) (pos c) h k = refl
ltbℤ_trans (negsuc a) (pos b) (negsuc c) h k = absurd (ground arith)
ltbℤ_trans (negsuc a) (negsuc b) (pos c) h k = refl
ltbℤ_trans (negsuc a) (negsuc b) (negsuc c) h k = ground arith

pub ltbℤ_asymm : (a b : ℤ) → ltbℤ a b ≡ true → ltbℤ b a ≡ false
ltbℤ_asymm (pos a) (pos b) h = ground arith
ltbℤ_asymm (pos a) (negsuc b) h = absurd (ground arith)
ltbℤ_asymm (negsuc a) (pos b) h = refl
ltbℤ_asymm (negsuc a) (negsuc b) h = ground arith

pub ltbℤ_refl : (a : ℤ) → ltbℤ a a ≡ false
ltbℤ_refl (pos a) = ground arith
ltbℤ_refl (negsuc a) = ground arith
