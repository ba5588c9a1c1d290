-- ===== src/Shared/Words.antt =====
-- Machine integers: unsigned ones are numbers with the wrap-around written out, an int64 is its
-- 64-bit two's-complement pattern.
use Prim.Native.Nat.{ℕ, ◌+◌, ◌*◌, ◌%◌, ◌^◌}
use mathlib.Core.Bool.{Bool}
use zuul.Shared.Tests.{ltb}

abbrev pub u64_mod : ℕ
u64_mod = 2 ^ 64

abbrev pub u32_mod : ℕ
u32_mod = 2 ^ 32

-- x++ on a uint64
abbrev pub inc64 : ℕ → ℕ
inc64 x = (x + 1) % u64_mod

-- uint32(x)
abbrev pub u32 : ℕ → ℕ
u32 x = x % u32_mod

-- Addition and multiplication of int64 patterns.
abbrev pub add64 : ℕ → ℕ → ℕ
add64 a b = (a + b) % u64_mod

abbrev pub mul64 : ℕ → ℕ → ℕ
mul64 a b = (a * b) % u64_mod

-- a < b on int64 patterns: flipping the sign bit turns the signed order into the unsigned one.
abbrev pub signed_ltb : ℕ → ℕ → Bool
signed_ltb a b = ltb ((a + 2 ^ 63) % u64_mod) ((b + 2 ^ 63) % u64_mod)
