-- ===== src/Prelude/Int.antt =====
-- Go's int64 where it may be negative, over the native numbers: `negsuc n` is -(n + 1).
use Prim.Native.Nat.{ℕ, ◌+◌, ◌-◌, ◌%◌, ◌^◌}
use mathlib.Core.Bool.{Bool, false}
use raft_recovery.Prelude.Tests.{leb, ltb, if◌then◌else◌}

pub data ℤ : Type 0 where
  pos : ℕ → ℤ
  negsuc : ℕ → ℤ

-- a - b, as an integer.
abbrev pub sub_ℕ : ℕ → ℕ → ℤ
sub_ℕ a b = if leb b a then pos (a - b) else negsuc (b - a - 1)

-- The integer a plus the number n.
abbrev pub add_ℕ : ℤ → ℕ → ℤ
add_ℕ (pos a) n = pos (a + n)
add_ℕ (negsuc a) n = sub_ℕ n (a + 1)

-- n ≤ a, as a test.
abbrev pub leb_ℤ : ℕ → ℤ → Bool
leb_ℤ n (pos a) = leb n a
leb_ℤ n (negsuc a) = false

-- Go's fixed widths as words in two's complement: the conversions to int32 and int64, and the one from
-- int32 to int, which repeats the sign.
abbrev pub int32 : ℕ → ℕ
int32 n = n % 2 ^ 32

abbrev pub int64 : ℕ → ℕ
int64 n = n % 2 ^ 64

abbrev pub sign_extend : ℕ → ℕ
sign_extend n = if ltb n (2 ^ 31) then n else n + 2 ^ 64 - 2 ^ 32
