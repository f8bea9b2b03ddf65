-- ===== src/Prelude/Int32.antt =====
-- `i32` as the bit pattern of its two's complement, a number below 2 ^ 32, with the wrap-around of a
-- release build.
use Prim.Native.Nat.{ℕ, ◌+◌, ◌-◌, ◌%◌, ◌^◌}
use mathlib.Core.Bool.{Bool, ◌||◌}
use defiads.Prelude.Tests.{◌==◌}

abbrev pub i32_mod : ℕ
i32_mod = 2 ^ 32

-- -1
abbrev pub minus_one : ℕ
minus_one = i32_mod - 1

abbrev pub i32_add : ℕ → ℕ → ℕ
i32_add a b = (a + b) % i32_mod

abbrev pub i32_sub : ℕ → ℕ → ℕ
i32_sub a b = (a + i32_mod - b) % i32_mod

-- `c.abs() == 1`
abbrev pub abs_is_one : ℕ → Bool
abs_is_one c = c == 1 || c == minus_one
