-- ===== src/Utils/RingBuffer/Circle.antt =====
-- The bytes of the ring buffer from a position on, around the end of its memory.
use vrtos.Base.{
  ℕ, zero, suc, ◌+◌, ◌-◌, ◌*◌, ◌%◌, ◌^◌, ◌≤◌, ◌<◌, ◌≡◌, refl, sym, ◌∙◌, Bool-cases, inl, inr, ap,
  ap₂, true, false, List, [], ◌∷◌, ◌++◌, append-nil, append_assoc, arith, length, ltb, update,
  update_self, update_ne, bit_and, bit_and-low, mod-apart, add32, sub32,
}
use native.Mathlib.Nat.{
  pow-suc, mod-eq-sub-mod, mod-add-mod, mod-eq_of_lt, mul-add-mod_self_left, one-le-pow,
}
use vrtos.Utils.RingBuffer.{write_bytes, take_bytes}

-- The `n` bytes from position `p` on, in a circle of `size`.
abbrev pub circle : ℕ → (ℕ → ℕ) → ℕ → ℕ → List ℕ
circle size buf p zero = []
circle size buf p (suc n) = buf (p % size) ∷ circle size buf (p + 1) n

module _ (size : ℕ) (positive : 0 < size) where
  circle-update :
      (buf : ℕ → ℕ) (p q x n : ℕ)
      → p + n ≤ q
      → q < p + size
      → circle size (update buf (q % size) x) p n ≡ circle size buf p n
  circle-update buf p q x zero below near = refl
  circle-update buf p q x (suc n) below near =
      ap₂ ◌∷◌
        (update_ne buf (q % size) (p % size) x (mod-apart size p q positive (omega arith) near))
        (circle-update buf (p + 1) q x n (omega arith) (omega arith))

  circle-suc :
      (buf : ℕ → ℕ) (p n : ℕ)
      → circle size buf p (suc n) ≡ circle size buf p n ++ buf ((p + n) % size) ∷ []
  circle-suc buf p zero = ap (λ v. buf (v % size) ∷ []) (omega arith)
  circle-suc buf p (suc n) = ap (◌∷◌ (buf (p % size))) (
      circle-suc buf (p + 1) n
      ∙ ap (λ v. circle size buf (p + 1) n ++ buf (v % size) ∷ []) (omega arith))

  mod-suc_both : (a b : ℕ) → a % size ≡ b % size → (a + 1) % size ≡ (b + 1) % size
  mod-suc_both a b e =
      sym (mod-add-mod a size 1) ∙ ap (λ v. (v + 1) % size) e ∙ mod-add-mod b size 1

-- The position that the code computes.
pub position : (w a i : ℕ) → a + i < 2 ^ 32 → bit_and (add32 a i) (2 ^ w - 1) ≡ (a + i) % 2 ^ w
position w a i small = bit_and-low w (add32 a i) ∙ ap (λ v. v % 2 ^ w) (omega (arith, small))

pub write_bytes-circle :
    (w head i p n : ℕ) (xs : List ℕ) (buf : ℕ → ℕ)
    → (head + i) % 2 ^ w ≡ (p + n) % 2 ^ w
    → n + length xs < 2 ^ w
    → head + i + length xs < 2 ^ 32
    → circle (2 ^ w) (write_bytes (2 ^ w - 1) head i xs buf) p (n + length xs)
      ≡ circle (2 ^ w) buf p n ++ xs
unfolding write_bytes
write_bytes-circle w head i p n [] buf at room small =
    ap (circle (2 ^ w) buf p) (omega arith) ∙ sym (append-nil (circle (2 ^ w) buf p n))
write_bytes-circle w head i p n (x ∷ xs) buf at room small =
    ap₂ (λ b m. circle (2 ^ w) (write_bytes (2 ^ w - 1) head (i + 1) xs b) p m) same (omega arith)
    ∙ write_bytes-circle w head (i + 1) p (suc n) xs buf₁ later (omega (arith, room))
        (omega (arith, small))
    ∙ ap (λ ys. ys ++ xs)
        (circle-suc (2 ^ w) positive buf₁ p n ∙ ap₂ (λ ys y. ys ++ y ∷ []) old new)
    ∙ append_assoc (circle (2 ^ w) buf p n) (x ∷ []) xs
  where
    positive : 0 < 2 ^ w
    positive = one-le-pow w 2 (omega arith)

    buf₁ : ℕ → ℕ
    buf₁ = update buf ((p + n) % 2 ^ w) x

    same : update buf (bit_and (add32 head i) (2 ^ w - 1)) x ≡ buf₁
    same = ap (λ a. update buf a x) (position w head i (omega (arith, small)) ∙ at)

    later : (head + (i + 1)) % 2 ^ w ≡ (p + suc n) % 2 ^ w
    later =
        ap (λ v. v % 2 ^ w) (omega arith)
        ∙ mod-suc_both (2 ^ w) positive (head + i) (p + n) at
        ∙ ap (λ v. v % 2 ^ w) (omega arith)

    old : circle (2 ^ w) buf₁ p n ≡ circle (2 ^ w) buf p n
    old = circle-update (2 ^ w) positive buf p (p + n) x n (omega arith) (omega (arith, room))

    new : buf₁ ((p + n) % 2 ^ w) ≡ x
    new = update_self buf ((p + n) % 2 ^ w) x

pub take_bytes-circle :
    (w tail i n : ℕ) (buf : ℕ → ℕ)
    → tail + i + n < 2 ^ 32
    → take_bytes (2 ^ w - 1) tail i n buf ≡ circle (2 ^ w) buf (tail + i) n
unfolding take_bytes
take_bytes-circle w tail i zero buf small = refl
take_bytes-circle w tail i (suc n) buf small =
    ap₂ ◌∷◌ (ap buf (position w tail i (omega (arith, small)))) (
      take_bytes-circle w tail (i + 1) n buf (omega (arith, small))
      ∙ ap (λ v. circle (2 ^ w) buf v n) (omega arith))

power_sum : (a b : ℕ) → 2 ^ (a + b) ≡ 2 ^ a * 2 ^ b
power_sum a zero = grind arith
power_sum a (suc b) =
    ap (λ v. 2 ^ v) shift ∙ pow-suc 2 (a + b) ∙ grind (arith, power_sum a b, pow-suc 2 b)
  where
    shift : a + suc b ≡ suc (a + b)
    shift = omega arith

-- A power of 2 up to 2^31 divides 2^32.
pub power_divides : (w : ℕ) → w ≤ 31 → 2 ^ 32 ≡ 2 ^ w * 2 ^ (32 - w)
power_divides w le = ap (λ v. 2 ^ v) whole ∙ power_sum w (32 - w)
  where
    whole : 32 ≡ w + (32 - w)
    whole = omega (arith, le)

times_less : (a q : ℕ) → 0 < q → a * q ≡ a * (q - 1) + a
times_less a zero positive = absurd (omega arith)
times_less a (suc q) positive = grind arith

-- The number of bytes from the position `tail` to the one `n` further on.
pub steps_between :
    (size q tail n : ℕ)
    → 2 ^ 32 ≡ size * q
    → 0 < q
    → size ≤ 2 ^ 31
    → tail < size
    → n < size
    → sub32 ((tail + n) % size) tail % size ≡ n
steps_between size q tail n whole some_q small at room = elim (Bool-cases (ltb (tail + n) size)) [
  | inl e ↦ rw (mod-eq_of_lt (inside e), straight e) (mod-eq_of_lt room)
  | inr e ↦
      rw (around e, back e)
        (ap (λ v. v % size) rest ∙ mul-add-mod_self_left size (q - 1) n ∙ mod-eq_of_lt room)
]
  where
    inside : ltb (tail + n) size ≡ true → tail + n < size
    inside e = ground arith

    straight : ltb (tail + n) size ≡ true → sub32 (tail + n) tail ≡ n
    straight e = omega (arith, small, room)

    beyond : ltb (tail + n) size ≡ false → size ≤ tail + n
    beyond e = ground arith

    around : ltb (tail + n) size ≡ false → (tail + n) % size ≡ tail + n - size
    around e = mod-eq-sub-mod (beyond e) ∙ mod-eq_of_lt (omega (arith, beyond e, at, room))

    back : ltb (tail + n) size ≡ false → sub32 (tail + n - size) tail ≡ 2 ^ 32 + n - size
    back e = omega (arith, beyond e, small, room, at)

    rest : 2 ^ 32 + n - size ≡ size * (q - 1) + n
    rest = omega (arith, whole, times_less size q some_q, room)
