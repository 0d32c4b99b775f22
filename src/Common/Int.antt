-- ===== src/Common/Int.antt =====
-- Go's signed integers. A value of type `int`, `int64` or `time.Duration` is an integer ℤ;
-- `wrap64` is the two's complement wrap-around of 64 bits, which every sum goes through.
use Prim.Native.Nat.{ℕ, suc, ◌+◌, ◌-◌, ◌*◌, ◌%◌, ◌^◌, ◌≤◌, ◌<◌}
use mathlib.Core.Path.{◌≡◌}
use mathlib.Core.Bool.{Bool}
use native.Mathlib.Omega.{arith}
use lan_file_share.Common.Tests.{ltb, leb, if◌then◌else◌}

-- `negsuc n` is -(n + 1).
pub data ℤ : Type 0 where
  pos : ℕ → ℤ
  negsuc : ℕ → ℤ

abbrev pub pos_part : ℤ → ℕ
pos_part (pos n) = n
pos_part (negsuc n) = 0

abbrev pub neg_part : ℤ → ℕ
neg_part (pos n) = 0
neg_part (negsuc n) = suc n

-- a - b, as an integer.
abbrev pub sub_ℕ : ℕ → ℕ → ℤ
sub_ℕ a b = if leb b a then pos (a - b) else negsuc (b - a - 1)

infixl 65 ◌+ℤ◌ ◌-ℤ◌
infixl 70 ◌*ℤ◌
infix 50 ◌≤ℤ◌ ◌<ℤ◌
unfoldable pub ◌+ℤ◌ : ℤ → ℤ → ℤ
a +ℤ b = sub_ℕ (pos_part a + pos_part b) (neg_part a + neg_part b)

unfoldable pub ◌-ℤ◌ : ℤ → ℤ → ℤ
a -ℤ b = sub_ℕ (pos_part a + neg_part b) (neg_part a + pos_part b)

unfoldable pub ◌*ℤ◌ : ℤ → ℤ → ℤ
a *ℤ b =
    sub_ℕ (pos_part a * pos_part b + neg_part a * neg_part b)
      (pos_part a * neg_part b + neg_part a * pos_part b)

abbrev pub ◌≤ℤ◌ : ℤ → ℤ → Type 0
a ≤ℤ b = pos_part a + neg_part b ≤ pos_part b + neg_part a

abbrev pub ◌<ℤ◌ : ℤ → ℤ → Type 0
a <ℤ b = pos_part a + neg_part b < pos_part b + neg_part a

abbrev pub ltb_ℤ : ℤ → ℤ → Bool
ltb_ℤ a b = ltb (pos_part a + neg_part b) (pos_part b + neg_part a)

abbrev pub leb_ℤ : ℤ → ℤ → Bool
leb_ℤ a b = leb (pos_part a + neg_part b) (pos_part b + neg_part a)

-- The sign bit is set from 2^63 on.
unfoldable pub wrap64 : ℤ → ℤ
wrap64 (pos n) = let m = n % 2 ^ 64 in if ltb m (2 ^ 63) then pos m else negsuc (2 ^ 64 - 1 - m)
wrap64 (negsuc n) = let m = n % 2 ^ 64 in if ltb m (2 ^ 63) then negsuc m else pos (2 ^ 64 - 1 - m)

-- The same for int32.
unfoldable pub wrap32 : ℤ → ℤ
wrap32 (pos n) = let m = n % 2 ^ 32 in if ltb m (2 ^ 31) then pos m else negsuc (2 ^ 32 - 1 - m)
wrap32 (negsuc n) = let m = n % 2 ^ 32 in if ltb m (2 ^ 31) then negsuc m else pos (2 ^ 32 - 1 - m)

-- The values of an int32.
abbrev pub Fits32 : ℤ → Type 0
Fits32 z = (pos_part z < 2 ^ 31) × (neg_part z ≤ 2 ^ 31)

-- int64 (or int) addition and subtraction.
unfoldable pub add64 : ℤ → ℤ → ℤ
add64 a b = wrap64 (a +ℤ b)

unfoldable pub sub64 : ℤ → ℤ → ℤ
sub64 a b = wrap64 (a -ℤ b)

unfoldable pub mul64 : ℤ → ℤ → ℤ
mul64 a b = wrap64 (a *ℤ b)

-- The bits of an integer as an unsigned number: what the wrapping operations keep of it.
unfoldable pub bits64 : ℤ → ℕ
bits64 (pos n) = n % 2 ^ 64
bits64 (negsuc n) = 2 ^ 64 - 1 - n % 2 ^ 64

-- The values of an int64.
abbrev pub Fits64 : ℤ → Type 0
Fits64 z = (pos_part z < 2 ^ 63) × (neg_part z ≤ 2 ^ 63)

pub wrap64-Fits64 : (z : ℤ) → Fits64 (wrap64 z)
unfolding wrap64
wrap64-Fits64 (pos n) = ground arith
wrap64-Fits64 (negsuc n) = ground arith

-- One law for each operation lets `omega` work with the operations shut.
pub +ℤ_parts :
    (a b : ℤ)
    → pos_part (a +ℤ b) + neg_part a + neg_part b ≡ neg_part (a +ℤ b) + pos_part a + pos_part b
unfolding ◌+ℤ◌
+ℤ_parts a b = ground arith

pub -ℤ_parts :
    (a b : ℤ)
    → pos_part (a -ℤ b) + neg_part a + pos_part b ≡ neg_part (a -ℤ b) + pos_part a + neg_part b
unfolding ◌-ℤ◌
-ℤ_parts a b = ground arith

pub bits64-add64 : (a b : ℤ) → bits64 (add64 a b) ≡ (bits64 a + bits64 b) % 2 ^ 64
unfolding bits64 add64 wrap64 ◌+ℤ◌
bits64-add64 (pos m) (pos n) = ground arith
bits64-add64 (pos m) (negsuc n) = ground arith
bits64-add64 (negsuc m) (pos n) = ground arith
bits64-add64 (negsuc m) (negsuc n) = ground arith

pub bits64-sub64 : (a b : ℤ) → bits64 (sub64 a b) ≡ (bits64 a + 2 ^ 64 - bits64 b) % 2 ^ 64
unfolding bits64 sub64 wrap64 ◌-ℤ◌
bits64-sub64 (pos m) (pos n) = ground arith
bits64-sub64 (pos m) (negsuc n) = ground arith
bits64-sub64 (negsuc m) (pos n) = ground arith
bits64-sub64 (negsuc m) (negsuc n) = ground arith

pub bits64-lt : (a : ℤ) → bits64 a < 2 ^ 64
unfolding bits64
bits64-lt (pos n) = omega arith
bits64-lt (negsuc n) = omega arith

pub bits64-wrap64 : (a : ℤ) → bits64 (wrap64 a) ≡ bits64 a
unfolding bits64 wrap64
bits64-wrap64 (pos n) = ground arith
bits64-wrap64 (negsuc n) = ground arith

-- Two int64 values with the same bits are equal.
pub eq_of_bits64 : (a b : ℤ) → Fits64 a → Fits64 b → bits64 a ≡ bits64 b → a ≡ b
unfolding bits64
eq_of_bits64 (pos m) (pos n) h k e = ground arith
eq_of_bits64 (pos m) (negsuc n) h k e = ground arith
eq_of_bits64 (negsuc m) (pos n) h k e = ground arith
eq_of_bits64 (negsuc m) (negsuc n) h k e = ground arith

pub add64-Fits64 : (a b : ℤ) → Fits64 (add64 a b)
unfolding add64
add64-Fits64 a b = wrap64-Fits64 (a +ℤ b)

-- Within the range of int64 the sums are exact.
pub add64_exact : (a b : ℕ) → a + b < 2 ^ 63 → add64 (pos a) (pos b) ≡ pos (a + b)
unfolding add64 ◌+ℤ◌ wrap64
add64_exact a b h = ground arith

pub sub64_exact : (a b : ℕ) → b ≤ a → a < 2 ^ 63 → sub64 (pos a) (pos b) ≡ pos (a - b)
unfolding sub64 ◌-ℤ◌ wrap64
sub64_exact a b h k = ground arith
