-- ===== src/Base/Int.antt =====
-- Signed integers over the native numbers, and `i64`: the sums that wrap and the casts from and to
-- `u64`.
use Prim.Native.Nat.{ℕ, suc, ◌+◌, ◌-◌, ◌%◌, ◌^◌, ◌≤◌, ◌<◌}
use mathlib.Core.Path.{◌≡◌}
use mathlib.Core.Logic.{◌⊎◌}
use mathlib.Core.Bool.{Bool}
use native.Mathlib.Omega.{arith}
use rperf3_rs.Base.Tests.{ltb, leb, if◌then◌else◌}

-- `negsuc n` is -(n + 1).
pub data ℤ : Type 0 where
  pos : ℕ → ℤ
  negsuc : ℕ → ℤ

abbrev pub pos_part : ℤ → ℕ
pos_part (pos n) = n
pos_part (negsuc n) = 0

abbrev pub neg_part : ℤ → ℕ
neg_part (pos n) = 0
neg_part (negsuc n) = suc n

abbrev pub sub_ℕ : ℕ → ℕ → ℤ
sub_ℕ a b = if leb b a then pos (a - b) else negsuc (b - a - 1)

infixl 65 ◌+ℤ◌ ◌-ℤ◌
infix 50 ◌≤ℤ◌
unfoldable pub ◌+ℤ◌ : ℤ → ℤ → ℤ
a +ℤ b = sub_ℕ (pos_part a + pos_part b) (neg_part a + neg_part b)

unfoldable pub ◌-ℤ◌ : ℤ → ℤ → ℤ
a -ℤ b = sub_ℕ (pos_part a + neg_part b) (neg_part a + pos_part b)

abbrev pub ◌≤ℤ◌ : ℤ → ℤ → Type 0
a ≤ℤ b = pos_part a + neg_part b ≤ pos_part b + neg_part a

-- `a < b` on i64, as a test.
abbrev pub ltb_ℤ : ℤ → ℤ → Bool
ltb_ℤ a b = ltb (pos_part a + neg_part b) (pos_part b + neg_part a)

unfoldable pub min_ℤ : ℤ → ℤ → ℤ
min_ℤ a b = if ltb_ℤ b a then b else a

-- The value of 64 bits as an `i64` (`as i64` of a u64 or usize), and the bits of a value (`as u64`).
unfoldable pub as_i64 : ℕ → ℤ
as_i64 w = if ltb (w % 2 ^ 64) (2 ^ 63) then pos (w % 2 ^ 64) else negsuc (2 ^ 64 - w % 2 ^ 64 - 1)

unfoldable pub bits64 : ℤ → ℕ
bits64 (pos n) = n % 2 ^ 64
bits64 (negsuc n) = 2 ^ 64 - 1 - n % 2 ^ 64

-- `+` and `-` on i64
unfoldable pub add_i64 : ℤ → ℤ → ℤ
add_i64 a b = as_i64 (bits64 (a +ℤ b))

unfoldable pub sub_i64 : ℤ → ℤ → ℤ
sub_i64 a b = as_i64 (bits64 (a -ℤ b))

pub +ℤ_parts :
    (a b : ℤ)
    → pos_part (a +ℤ b) + neg_part a + neg_part b ≡ neg_part (a +ℤ b) + pos_part a + pos_part b
unfolding ◌+ℤ◌
+ℤ_parts a b = ground arith

pub -ℤ_parts :
    (a b : ℤ)
    → pos_part (a -ℤ b) + neg_part a + pos_part b ≡ neg_part (a -ℤ b) + pos_part a + neg_part b
unfolding ◌-ℤ◌
-ℤ_parts a b = ground arith

-- A number is not positive and negative at once.
pub one_part : (a : ℤ) → (pos_part a ≡ 0) ⊎ (neg_part a ≡ 0)
one_part a = ground arith

pub ℤ_of_parts : (a b : ℤ) → a ≤ℤ b → b ≤ℤ a → a ≡ b
ℤ_of_parts a b h k = ground arith

-- In the range of an i64 the wrap is none.
pub record IsI64 (a : ℤ) : Type 0 where
  pub above : pos_part a < 2 ^ 63
  pub below : neg_part a ≤ 2 ^ 63

pub as_i64-bits64 : (a : ℤ) → IsI64 a → as_i64 (bits64 a) ≡ a
unfolding as_i64 bits64
as_i64-bits64 a v = ground arith

pub as_i64-IsI64 : (w : ℕ) → IsI64 (as_i64 w)
unfolding as_i64
as_i64-IsI64 w = ground arith

pub as_i64_small : (w : ℕ) → w < 2 ^ 63 → as_i64 w ≡ pos w
unfolding as_i64
as_i64_small w h = ground arith

pub bits64_pos : (a : ℤ) → IsI64 a → neg_part a ≡ 0 → bits64 a ≡ pos_part a
unfolding bits64
bits64_pos a v h = ground arith

module _ (a b : ℤ) where
  pub add_i64_parts :
      pos_part a + pos_part b < 2 ^ 63
      → neg_part a + neg_part b ≤ 2 ^ 63
      → pos_part (add_i64 a b) + neg_part a + neg_part b
        ≡ neg_part (add_i64 a b) + pos_part a + pos_part b
  unfolding add_i64 as_i64 bits64 ◌+ℤ◌
  add_i64_parts h k = ground arith

  pub sub_i64_parts :
      pos_part a + neg_part b < 2 ^ 63
      → neg_part a + pos_part b ≤ 2 ^ 63
      → pos_part (sub_i64 a b) + neg_part a + pos_part b
        ≡ neg_part (sub_i64 a b) + pos_part a + neg_part b
  unfolding sub_i64 as_i64 bits64 ◌-ℤ◌
  sub_i64_parts h k = ground arith

  pub min_ℤ_cases : ((min_ℤ a b ≡ a) × (a ≤ℤ b)) ⊎ ((min_ℤ a b ≡ b) × (b ≤ℤ a))
  unfolding min_ℤ
  min_ℤ_cases = ground arith
