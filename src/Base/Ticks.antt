-- ===== src/Base/Ticks.antt =====
-- `uint32_t` arithmetic and the signed comparison of ticks, with the wrap-around written out.
use Prim.Native.Nat.{ℕ, ◌+◌, ◌-◌, ◌%◌, ◌^◌, ◌<◌}
use mathlib.Core.Path.{◌≡◌}
use mathlib.Core.Bool.{Bool, ◌||◌}
use native.Mathlib.Omega.{arith}
use vrtos.Base.Tests.{ltb, leb, ◌==◌}

abbrev pub add32 : ℕ → ℕ → ℕ
add32 a b = (a + b) % 2 ^ 32

abbrev pub sub32 : ℕ → ℕ → ℕ
sub32 a b = (a + 2 ^ 32 - b) % 2 ^ 32

-- `(int32_t) (a - b) <= 0`, `< 0` and `>= 0`.
unfoldable pub signed_le : ℕ → ℕ → Bool
signed_le a b = sub32 a b == 0 || leb (2 ^ 31) (sub32 a b)

unfoldable pub signed_lt : ℕ → ℕ → Bool
signed_lt a b = leb (2 ^ 31) (sub32 a b)

unfoldable pub signed_ge : ℕ → ℕ → Bool
signed_ge a b = ltb (sub32 a b) (2 ^ 31)

-- Two times that are less than 2^31 ticks apart are compared through their low 32 bits as they are
-- on the unbounded clock.
pub signed_le_of_near :
    (x y : ℕ) → x < y + 2 ^ 31 → y < x + 2 ^ 31 → signed_le (x % 2 ^ 32) (y % 2 ^ 32) ≡ leb x y
unfolding signed_le
signed_le_of_near x y h k = ground arith

pub signed_lt_of_near :
    (x y : ℕ) → x < y + 2 ^ 31 → y < x + 2 ^ 31 → signed_lt (x % 2 ^ 32) (y % 2 ^ 32) ≡ ltb x y
unfolding signed_lt
signed_lt_of_near x y h k = ground arith

pub signed_ge_of_near :
    (x y : ℕ) → x < y + 2 ^ 31 → y < x + 2 ^ 31 → signed_ge (x % 2 ^ 32) (y % 2 ^ 32) ≡ leb y x
unfolding signed_ge
signed_ge_of_near x y h k = ground arith
