-- ===== src/Base/Int.antt =====
-- Integers over the native numbers, for JavaScript's numbers that may be negative.
use Prim.Native.Nat.{ℕ, suc, ◌+◌, ◌-◌, ◌%◌}
use mathlib.Core.Path.{◌≡◌}
use native.Mathlib.Omega.{arith}
use package.dmp.Base.Tests.{leb, if◌then◌else◌}

-- `negsuc n` is -(n + 1).
pub data ℤ : Type 0 where
  pos : ℕ → ℤ
  negsuc : ℕ → ℤ

abbrev pos_part : ℤ → ℕ
pos_part (pos n) = n
pos_part (negsuc n) = 0

abbrev neg_part : ℤ → ℕ
neg_part (pos n) = 0
neg_part (negsuc n) = suc n

-- The difference of two numbers.
infixl 65 ◌⊖◌ ◌+ℤ◌
unfoldable pub ◌⊖◌ : ℕ → ℕ → ℤ
a ⊖ b = if leb b a then pos (a - b) else negsuc (b - a - 1)

unfoldable pub ◌+ℤ◌ : ℤ → ℤ → ℤ
unfolding ◌⊖◌
a +ℤ b = (pos_part a + pos_part b) ⊖ (neg_part a + neg_part b)

-- `Math.abs(i)`
abbrev pub magnitude : ℤ → ℕ
magnitude i = pos_part i + neg_part i

-- `-i`
abbrev pub negated : ℤ → ℤ
negated i = neg_part i ⊖ pos_part i

-- The 32-bit word of an integer, as the operators on bits read it.
abbrev pub word_of : ℤ → ℕ
word_of (pos n) = n % 4294967296
word_of (negsuc n) = 4294967295 - n % 4294967296

pub next-⊖ : (k n : ℕ) → (k ⊖ n) +ℤ pos 1 ≡ suc k ⊖ n
unfolding ◌⊖◌ ◌+ℤ◌
next-⊖ k n = ground arith

pub add-⊖ : (a k n : ℕ) → pos a +ℤ (k ⊖ n) ≡ (a + k) ⊖ n
unfolding ◌⊖◌ ◌+ℤ◌
add-⊖ a k n = ground arith
