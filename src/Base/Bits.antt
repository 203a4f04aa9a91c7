-- ===== src/Base/Bits.antt =====
-- The 8-bit map of ready priorities. Its laws are checked at every value.
use Prim.Native.Nat.{ℕ, zero, suc, ◌-◌, ◌^◌, ◌<◌, bit_and, bit_or, bit_xor}
use mathlib.Core.Path.{◌≡◌, refl}
use mathlib.Core.Bool.{Bool, true, false, not, ◌&&◌, ◌||◌}
use native.Mathlib.Omega.{arith}
use vrtos.Base.Tests.{◌==◌, ltb}

-- `map & (1U << i)` as a condition, `map | (1U << i)` and `map & ~(1U << i)`.
unfoldable pub has_bit : ℕ → ℕ → Bool
has_bit m i = not (bit_and m (2 ^ i) == 0)

unfoldable pub set_bit : ℕ → ℕ → ℕ
set_bit m i = bit_or m (2 ^ i)

unfoldable pub clear_bit : ℕ → ℕ → ℕ
clear_bit m i = bit_and m (2 ^ 32 - 1 - 2 ^ i)

-- `bits & ~mask`, on 32 bits.
abbrev pub without : ℕ → ℕ → ℕ
without bits mask = bit_and bits (bit_xor (2 ^ 32 - 1) mask)

abbrev same : Bool → Bool → Bool
same true b = b
same false b = not b

same-eq : (a b : Bool) → same a b ≡ true → a ≡ b
same-eq true b h = ground arith
same-eq false b h = ground arith

-- The test passes at each number under the limit.
passes : (ℕ → Bool) → ℕ → Bool
passes test zero = true
passes test (suc n) = passes test n && test n

passes-each : (test : ℕ → Bool) (n x : ℕ) → x < n → passes test n ≡ true → test x ≡ true
unfolding passes
passes-each test zero x under all = absurd (omega arith)
passes-each test (suc n) x under all = ground (arith, passes-each test n x)

-- A test that passes for every map and every two priorities.
abbrev table : (ℕ → ℕ → ℕ → Bool) → Bool
table t = passes (λ m. passes (λ i. passes (t m i) 8) 8) 256

table_sound :
    (t : ℕ → ℕ → ℕ → Bool) (m i j : ℕ) → table t ≡ true → m < 256 → i < 8 → j < 8 → t m i j ≡ true
table_sound t m i j h hm hi hj = passes-each (t m i) 8 j hj (
    passes-each (λ i. passes (t m i) 8) 8 i hi
      (passes-each (λ m. passes (λ i. passes (t m i) 8) 8) 256 m hm h))

abbrev set_test : ℕ → ℕ → ℕ → Bool
set_test m i j = ltb (set_bit m i) 256 && same (has_bit (set_bit m i) j) (j == i || has_bit m j)

abbrev clear_test : ℕ → ℕ → ℕ → Bool
clear_test m i j =
    ltb (clear_bit m i) 256 && same (has_bit (clear_bit m i) j) (not (j == i) && has_bit m j)

set_table : table set_test ≡ true
unfolding passes has_bit set_bit
set_table = refl

clear_table : table clear_test ≡ true
unfolding passes has_bit clear_bit
clear_table = refl

module _ (m i j : ℕ) (hm : m < 256) (hi : i < 8) (hj : j < 8) where
  pub has_bit-set_bit : (set_bit m i < 256) × (has_bit (set_bit m i) j ≡ (j == i || has_bit m j))
  has_bit-set_bit =
      let h = table_sound set_test m i j set_table hm hi hj in
      (ground arith, same-eq (has_bit (set_bit m i) j) (j == i || has_bit m j) (ground arith))

  pub has_bit-clear_bit :
      (clear_bit m i < 256) × (has_bit (clear_bit m i) j ≡ (not (j == i) && has_bit m j))
  has_bit-clear_bit =
      let h = table_sound clear_test m i j clear_table hm hi hj in
      (
        ground arith,
        same-eq (has_bit (clear_bit m i) j) (not (j == i) && has_bit m j) (ground arith),
      )

-- No bit is set in the empty map.
pub has_bit-zero : (i : ℕ) → i < 8 → has_bit 0 i ≡ false
unfolding passes has_bit
has_bit-zero i h =
    same-eq (has_bit 0 i) false (passes-each (λ i. same (has_bit 0 i) false) 8 i h refl)
