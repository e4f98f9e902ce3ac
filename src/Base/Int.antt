-- ===== src/Base/Int.antt =====
-- Signed integers over the native numbers, and the conversions of C between the integer types.
use Prim.Native.Nat.{ℕ, suc, ◌+◌, ◌-◌, ◌%◌, ◌^◌, ◌≤◌}
use mathlib.Core.Bool.{Bool, true, false}
use utsavbalar_linux_kernel.Base.Tests.{ltb, leb, ◌==◌, if◌then◌else◌}

-- `negsuc n` is -(n + 1).
pub data ℤ : Type 0 where
  pos : ℕ → ℤ
  negsuc : ℕ → ℤ

abbrev pub pos_part : ℤ → ℕ
pos_part (pos n) = n
pos_part (negsuc n) = 0

abbrev pub neg_part : ℤ → ℕ
neg_part (pos n) = 0
neg_part (negsuc n) = suc n

-- a - b, as an integer.
abbrev pub sub_ℕ : ℕ → ℕ → ℤ
sub_ℕ a b = if leb b a then pos (a - b) else negsuc (b - a - 1)

infixl 65 ◌+ℤ◌ ◌-ℤ◌
infix 50 ◌≤ℤ◌ ◌<ℤ◌
unfoldable pub ◌+ℤ◌ : ℤ → ℤ → ℤ
a +ℤ b = sub_ℕ (pos_part a + pos_part b) (neg_part a + neg_part b)

unfoldable pub ◌-ℤ◌ : ℤ → ℤ → ℤ
a -ℤ b = sub_ℕ (pos_part a + neg_part b) (neg_part a + pos_part b)

abbrev pub ◌≤ℤ◌ : ℤ → ℤ → Type 0
a ≤ℤ b = pos_part a + neg_part b ≤ pos_part b + neg_part a

abbrev pub ◌<ℤ◌ : ℤ → ℤ → Type 0
a <ℤ b = suc (pos_part a + neg_part b) ≤ pos_part b + neg_part a

abbrev pub ltb_ℤ : ℤ → ℤ → Bool
ltb_ℤ a b = ltb (pos_part a + neg_part b) (pos_part b + neg_part a)

abbrev pub leb_ℤ : ℤ → ℤ → Bool
leb_ℤ a b = leb (pos_part a + neg_part b) (pos_part b + neg_part a)

-- The test `x < 0` of the sources.
abbrev pub is_neg : ℤ → Bool
is_neg (pos _) = false
is_neg (negsuc _) = true

-- The conversion of a signed integer to `size_t`, 64 bits wide.
abbrev pub to_size_t : ℤ → ℕ
to_size_t (pos n) = n % 2 ^ 64
to_size_t (negsuc n) = 2 ^ 64 - 1 - n % 2 ^ 64

-- The conversion to `loff_t`: 64 bits, in two's complement.
abbrev pub to_loff_t : ℤ → ℤ
to_loff_t x = let w = to_size_t x in if ltb w (2 ^ 63) then pos w else negsuc (2 ^ 64 - 1 - w)

-- The number that the low 32 bits stand for as an `int`.
abbrev pub signed32 : ℕ → ℤ
signed32 w = if ltb w (2 ^ 31) then pos w else negsuc (2 ^ 32 - 1 - w)

-- The conversion of a `size_t` to `int`.
abbrev pub to_int : ℕ → ℤ
to_int n = signed32 (n % 2 ^ 32)

-- The test `!x` of the sources.
abbrev pub eq_zero : ℤ → Bool
eq_zero (pos n) = n == 0
eq_zero (negsuc _) = false

-- One more, in a 32-bit counter.
abbrev pub inc32 : ℕ → ℕ
inc32 n = (n + 1) % 2 ^ 32
