-- ===== src/Base/Masks.antt =====
-- `a & (2^w - 1)` as a remainder, and positions in a circle of `size` slots.
use Prim.Native.Nat.{
  ℕ, zero, suc, ◌+◌, ◌-◌, ◌*◌, ◌/◌, ◌%◌, ◌^◌, ◌≤◌, ◌<◌, min, digits, bit_and, bit_and-bitwise,
}
use mathlib.Core.Path.{◌≡◌, sym, ap, ◌∙◌}
use mathlib.Core.Logic.{◌≢◌}
use native.Mathlib.Omega.{arith, div_any}
use native.Mathlib.Nat.{
  le_refl, mod-lt, mod-eq_of_lt, mul-add-mod_self_left, zero-mod, one-le-pow, pow-succ',
}

-- The lowest digit apart from the others.
mod-double : (x m : ℕ) → 0 < m → x / 2 % m * 2 + x % 2 ≡ x % (2 * m)
mod-double x m positive = sym (
    ap (λ v. v % (2 * m)) whole
    ∙ mul-add-mod_self_left (2 * m) (x / 2 / m) low
    ∙ mod-eq_of_lt small)
  where
    low : ℕ
    low = x / 2 % m * 2 + x % 2

    below : x / 2 % m < m
    below = mod-lt (x / 2) positive

    whole : x ≡ 2 * m * (x / 2 / m) + low
    whole = grind (arith, div_any (x / 2) m)

    small : low < 2 * m
    small = omega (arith, below)

low_digits : (n k a : ℕ) → a ≤ n → digits (λ _. 0) min n a (2 ^ k - 1) ≡ a % 2 ^ k
low_digits zero k zero le = sym (zero-mod (2 ^ k))
low_digits zero k (suc a) le = absurd (omega arith)
low_digits (suc n) k zero le = sym (zero-mod (2 ^ k))
low_digits (suc n) zero (suc a) le = ground (arith, low_digits n zero (suc a / 2) (omega arith))
low_digits (suc n) (suc k) (suc a) le =
    rw (half, odd, low_digits n k (suc a / 2) (omega arith), pow-succ' 2 k)
      (ground (arith, mod-double (suc a) (2 ^ k) (one-le-pow k 2 (omega arith))))
  where
    half : (2 ^ suc k - 1) / 2 ≡ 2 ^ k - 1
    half = omega (arith, pow-succ' 2 k, one-le-pow k 2 (omega arith))

    odd : (2 ^ suc k - 1) % 2 ≡ 1
    odd = omega (arith, pow-succ' 2 k, one-le-pow k 2 (omega arith))

-- A mask of the `k` lowest bits.
pub bit_and-low : (k a : ℕ) → bit_and a (2 ^ k - 1) ≡ a % 2 ^ k
bit_and-low k a = simp bit_and-bitwise (low_digits a k a (le_refl a))

-- Fewer than `size` steps apart, two positions differ.
pub mod-apart : (size a b : ℕ) → 0 < size → a < b → b < a + size → a % size ≢ b % size
mod-apart size a b positive lt near e = grind (arith, div_any a size, div_any b size)
