-- ===== src/Base/Int.antt =====
-- Signed integers over the native numbers, for C's `int` status codes and differences.
use wpi_operating_systems.Base.Tests.{leb, ltb, if◌then◌else◌}
use Prim.Native.Nat.{ℕ, ◌-◌}
use mathlib.Core.Bool.{Bool}

-- `negsuc n` is -(n + 1).
pub data ℤ : Type 0 where
  pos : ℕ → ℤ
  negsuc : ℕ → ℤ

abbrev pub sub_ℕ : ℕ → ℕ → ℤ
sub_ℕ a b = if leb b a then pos (a - b) else negsuc (b - a - 1)

-- The value of a 32-bit pattern read as an `int` in two's complement.
abbrev pub to_int32 : ℕ → ℤ
to_int32 w = if ltb w 0x8000_0000 then pos w else negsuc (0xffff_ffff - w)

abbrev pub is_neg : ℤ → Bool
is_neg (pos n) = Bool.false
is_neg (negsuc n) = Bool.true
