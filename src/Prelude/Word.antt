-- ===== src/Prelude/Word.antt =====
-- Go's `int64` (also `int`, `time.Duration`): a value is its bit pattern, a number below 2 ^ 64, and
-- the patterns from 2 ^ 63 on stand for the negative numbers.
use Prim.Native.Nat.{ℕ, ◌+◌, ◌-◌, ◌/◌, ◌%◌, ◌<◌}
use mathlib.Core.Path.{◌≡◌}
use mathlib.Core.Bool.{Bool, true}
use native.Mathlib.Omega.{arith}
use value_rpc.Prelude.Tests.{ltb, leb, if◌then◌else◌}

abbrev pub two63 : ℕ
two63 = 0x8000000000000000

abbrev pub two64 : ℕ
two64 = 0x10000000000000000

abbrev pub minus_one : ℕ
minus_one = 0xffffffffffffffff

abbrev pub add64 : ℕ → ℕ → ℕ
add64 a b = (a + b) % two64

abbrev pub sub64 : ℕ → ℕ → ℕ
sub64 a b = (a + two64 - b) % two64

abbrev pub neg64 : ℕ → ℕ
neg64 a = (two64 - a) % two64

abbrev pub is_neg : ℕ → Bool
is_neg a = leb two63 a

-- `a < b` and `a <= b` on signed values: flipping the sign bit orders the patterns.
abbrev pub slt : ℕ → ℕ → Bool
slt a b = ltb (add64 a two63) (add64 b two63)

abbrev pub sle : ℕ → ℕ → Bool
sle a b = leb (add64 a two63) (add64 b two63)

-- `a / 2`, which rounds towards zero.
abbrev pub half64 : ℕ → ℕ
half64 a = if is_neg a then neg64 (neg64 a / 2) else a / 2

pub sle_zero : (a : ℕ) → a < two63 → sle a 0 ≡ true → a ≡ 0
sle_zero a h e = ground arith

pub slt_small : (a b : ℕ) → a < two63 → b < two63 → slt a b ≡ ltb a b
slt_small a b h k = ground arith
