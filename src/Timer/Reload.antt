-- ===== src/Timer/Reload.antt =====
-- The loop of `rtos_timer_tick` that finds the next expiry of a periodic timer.
use vrtos.Base.{
  ℕ, zero, suc, ◌+◌, ◌-◌, ◌*◌, ◌/◌, ◌%◌, ◌^◌, ◌≤◌, ◌<◌, ◌≡◌, ◌∙◌, ap, true, false, some, arith,
  add32, signed_le, signed_le_of_near,
}
use native.Mathlib.Omega.{div_any}
use native.Mathlib.Nat.{mod-lt}
use vrtos.Timer.{reload, reload_rounds}

-- With an expiry at time `x`, the clock at `y` less than 2^31 ticks behind it, and `k` whole periods
-- between them: the loop ends after `k + 1` rounds with the first time behind `y` that is a whole
-- number of periods behind `x`.
pub reload_first :
    (f k period x y : ℕ)
    → 0 < period
    → period < 2 ^ 31
    → x + k * period ≤ y
    → y < x + suc k * period
    → y < x + 2 ^ 31
    → k < f
    → reload f period (y % 2 ^ 32) (x % 2 ^ 32) ≡ some ((x + suc k * period) % 2 ^ 32)
unfolding reload
reload_first zero k period x y positive short due next near enough = absurd (omega arith)
reload_first (suc f) zero period x y positive short due next near enough =
    rw (sum, late) (ap some (ap (λ v. v % 2 ^ 32) one))
  where
    sum : add32 (x % 2 ^ 32) period ≡ (x + period) % 2 ^ 32
    sum = omega arith

    one : x + period ≡ x + suc zero * period
    one = grind arith

    late : signed_le ((x + period) % 2 ^ 32) (y % 2 ^ 32) ≡ false
    late = signed_le_of_near (x + period) y (grind arith) (grind arith) ∙ ground (arith, one)
reload_first (suc f) (suc k) period x y positive short due next near enough =
    rw (sum, early)
      (reload_first f k period (x + period) y positive short (grind arith) (grind arith)
          (omega arith) (omega arith)
        ∙ ap some (ap (λ v. v % 2 ^ 32) moved))
  where
    sum : add32 (x % 2 ^ 32) period ≡ (x + period) % 2 ^ 32
    sum = omega arith

    moved : (x + period) + suc k * period ≡ x + suc (suc k) * period
    moved = grind arith

    reached : x + period ≤ y
    reached = grind arith

    early : signed_le ((x + period) % 2 ^ 32) (y % 2 ^ 32) ≡ true
    early =
        signed_le_of_near (x + period) y (omega (arith, reached)) (omega arith)
        ∙ ground (arith, reached)

small_quotient : (k p d : ℕ) → 0 < p → k * p ≤ d → d < 2 ^ 31 → k < reload_rounds
small_quotient k p d positive le small = grind arith

-- With a period of 1 to 2^31 - 1 ticks and an expiry at `x`, the clock at `y`, not before it and less
-- than 2^31 ticks behind it: the loop ends, with the first time behind `y` that is a whole number
-- of periods behind `x`.
pub reload-ends :
    (period x y : ℕ)
    → 0 < period
    → period < 2 ^ 31
    → x ≤ y
    → y < x + 2 ^ 31
    → let expiry = x + suc ((y - x) / period) * period in
      (reload reload_rounds period (y % 2 ^ 32) (x % 2 ^ 32) ≡ some (expiry % 2 ^ 32))
      × (y < expiry)
      × (expiry ≤ y + period)
reload-ends period x y positive short due near = (
  reload_first reload_rounds k period x y positive short under over near
      (small_quotient k period (y - x) positive whole (omega (arith, near))),
  over,
  grind arith,
)
  where
    k : ℕ
    k = (y - x) / period

    split : period * k + (y - x) % period ≡ y - x
    split = div_any (y - x) period

    left : (y - x) % period < period
    left = mod-lt (y - x) positive

    whole : k * period ≤ y - x
    whole = grind arith

    under : x + k * period ≤ y
    under = omega (arith, whole, due)

    over : y < x + suc k * period
    over = grind arith
