-- ===== src/Prelude/Words.antt =====
-- Go's `int64` as a bit pattern below 2 ^ 64, with its wrap-around written out.
use Prim.Native.Nat.{ℕ, ◌+◌, ◌-◌, ◌/◌, ◌%◌, ◌^◌}
use mathlib.Core.Bool.{Bool}
use opentelemetry_collector.Prelude.Tests.{ltb, leb, if◌then◌else◌}

abbrev pub int64_mod : ℕ
int64_mod = 2 ^ 64

-- a + b and a - b
abbrev pub add64 : ℕ → ℕ → ℕ
add64 a b = (a + b) % 2 ^ 64

abbrev pub sub64 : ℕ → ℕ → ℕ
sub64 a b = (a + 2 ^ 64 - b) % 2 ^ 64

-- The sign bit.
abbrev pub is_neg : ℕ → Bool
is_neg a = leb (2 ^ 63) a

-- a < b and a <= b as signed numbers: flipping the sign bit turns one order into the other
abbrev pub slt : ℕ → ℕ → Bool
slt a b = ltb ((a + 2 ^ 63) % 2 ^ 64) ((b + 2 ^ 63) % 2 ^ 64)

abbrev pub sle : ℕ → ℕ → Bool
sle a b = leb ((a + 2 ^ 63) % 2 ^ 64) ((b + 2 ^ 63) % 2 ^ 64)

-- slices.Max and slices.Min of two values
abbrev pub max64 : ℕ → ℕ → ℕ
max64 a b = if slt a b then b else a

abbrev pub min64 : ℕ → ℕ → ℕ
min64 a b = if slt b a then b else a

-- a / 1000, which truncates towards zero
abbrev pub div1000 : ℕ → ℕ
div1000 a = if is_neg a then (2 ^ 64 - (2 ^ 64 - a) / 1000) % 2 ^ 64 else a / 1000
