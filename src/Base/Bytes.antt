-- ===== src/Base/Bytes.antt =====
-- Memory as a function from addresses to bytes, and `memcpy` in it.
use Prim.Native.Nat.{ℕ, zero, suc, ◌+◌, ◌-◌, ◌≤◌}
use mathlib.Core.Path.{◌≡◌, refl}
use mathlib.Core.Logic.{◌⊎◌}
use mathlib.Core.Bool.{◌&&◌}
use mathlib.Core.List.{List, [], ◌∷◌}
use native.Mathlib.Omega.{arith}
use vrtos.Base.Tests.{ltb, leb, if◌then◌else◌}

-- `memcpy(dst, src, n)`, where the two regions do not overlap.
pub memcpy : ℕ → ℕ → ℕ → (ℕ → ℕ) → ℕ → ℕ
memcpy dst src n bytes a = if leb dst a && ltb a (dst + n) then bytes (src + (a - dst)) else bytes a

-- The `n` bytes from an address on.
abbrev pub read_bytes : (ℕ → ℕ) → ℕ → ℕ → List ℕ
read_bytes bytes a zero = []
read_bytes bytes a (suc n) = bytes a ∷ read_bytes bytes (a + 1) n

-- Two regions do not overlap.
abbrev pub Disjoint : ℕ → ℕ → ℕ → ℕ → Type 0
Disjoint a n b k = (a + n ≤ b) ⊎ (b + k ≤ a)

-- A copy leaves what stands outside its destination.
pub read_bytes-memcpy_outside :
    (dst src n : ℕ) (bytes : ℕ → ℕ) (a k : ℕ)
    → Disjoint a k dst n
    → read_bytes (memcpy dst src n bytes) a k ≡ read_bytes bytes a k
unfolding memcpy
read_bytes-memcpy_outside dst src n bytes a zero d = refl
read_bytes-memcpy_outside dst src n bytes a (suc k) d =
    ground (arith, read_bytes-memcpy_outside dst src n bytes (a + 1) k)

-- A copy puts the bytes of its source into its destination.
read_bytes-memcpy_from :
    (dst src n : ℕ) (bytes : ℕ → ℕ) (i k : ℕ)
    → i + k ≤ n
    → read_bytes (memcpy dst src n bytes) (dst + i) k ≡ read_bytes bytes (src + i) k
unfolding memcpy
read_bytes-memcpy_from dst src n bytes i zero le = refl
read_bytes-memcpy_from dst src n bytes i (suc k) le =
    ground (arith, read_bytes-memcpy_from dst src n bytes (i + 1) k)

pub read_bytes-memcpy :
    (dst src n : ℕ) (bytes : ℕ → ℕ)
    → read_bytes (memcpy dst src n bytes) dst n ≡ read_bytes bytes src n
read_bytes-memcpy dst src n bytes = ground (arith, read_bytes-memcpy_from dst src n bytes 0 n)
