-- ===== src/Utils/RingBuffer/Fifo.antt =====
-- The ring buffer against the list of the bytes that it holds.
use vrtos.Base.{
  ℕ, ◌+◌, ◌-◌, ◌%◌, ◌^◌, ◌≤◌, ◌<◌, ◌≡◌, refl, sym, ◌∙◌, ap, ap₂, subst, true, false, List, [], ◌++◌,
  arith, length, length-append, ltb, if◌then◌else◌, bit_and, bit_and-low, add32, sub32,
}
use native.Mathlib.Nat.{pow-le-pow_right, mod-add-mod, mod-eq_of_lt, one-le-pow, mod-lt}
use vrtos.Utils.RingBuffer.{RingBuffer, count, free, write_bytes, write, take_bytes, read}
use vrtos.Utils.RingBuffer.Circle.{
  circle, position, write_bytes-circle, take_bytes-circle, power_divides, steps_between,
}

-- A buffer of `2 ^ w` bytes holds the bytes `xs`, one fewer than its size at most.
pub record Holds (w : ℕ) (rb : RingBuffer) (xs : List ℕ) : Type 0 where
  pub width : w ≤ 31
  pub mask : rb.mask ≡ 2 ^ w - 1
  pub tail : rb.tail < 2 ^ w
  pub head : rb.head ≡ (rb.tail + length xs) % 2 ^ w
  pub room : length xs < 2 ^ w
  pub bytes : circle (2 ^ w) rb.buf rb.tail (length xs) ≡ xs

pub count-Holds : (w : ℕ) (rb : RingBuffer) (xs : List ℕ) → Holds w rb xs → count rb ≡ length xs
unfolding count
count-Holds w rb xs h =
    rw (h.mask, h.head)
      (bit_and-low w (sub32 ((rb.tail + length xs) % 2 ^ w) rb.tail)
        ∙ steps_between (2 ^ w) (2 ^ (32 - w)) rb.tail (length xs) (power_divides w h.width)
            (one-le-pow (32 - w) 2 (omega arith)) (pow-le-pow_right (omega arith) h.width) h.tail
            h.room)

plus_zero : (a : ℕ) → a + 0 ≡ a
plus_zero a = omega arith

regroup : (a b c : ℕ) → a + b + c ≡ a + (b + c)
regroup a b c = omega arith

-- Bytes that fit are written, behind those that the buffer holds.
pub write-Holds :
    (w : ℕ) (rb : RingBuffer) (ys xs : List ℕ)
    → Holds w rb ys
    → length ys + length xs < 2 ^ w
    → ((write xs rb).1 ≡ true) × Holds w (write xs rb).0 (ys ++ xs)
unfolding write free
write-Holds w rb ys xs h fits = rw fit (
  refl,
  record {
    width = h.width;
    mask = h.mask;
    tail = h.tail;
    head = moved ∙ ap (λ v. (rb.tail + v) % 2 ^ w) (sym total);
    room = rw total fits;
    bytes = ap (circle (2 ^ w) written rb.tail) total ∙ whole;
  },
)
  where
    n : ℕ
    n = length ys

    small : 2 ^ w ≤ 2 ^ 31
    small = pow-le-pow_right (omega arith) h.width

    positive : 0 < 2 ^ w
    positive = one-le-pow w 2 (omega arith)

    total : length (ys ++ xs) ≡ n + length xs
    total = length-append ys xs

    fit : ltb (sub32 rb.mask (count rb)) (length xs) ≡ false
    fit =
        ap₂ (λ m c. ltb (sub32 m c) (length xs)) h.mask (count-Holds w rb ys h)
        ∙ ground (arith, small, fits)

    written : ℕ → ℕ
    written = write_bytes rb.mask rb.head 0 xs rb.buf

    head_small : rb.head < 2 ^ w
    head_small = subst (λ v. v < 2 ^ w) (sym h.head) (mod-lt (rb.tail + n) positive)

    start : (rb.head + 0) % 2 ^ w ≡ (rb.tail + n) % 2 ^ w
    start = ap (λ v. v % 2 ^ w) (plus_zero rb.head) ∙ mod-eq_of_lt head_small ∙ h.head

    whole : circle (2 ^ w) written rb.tail (n + length xs) ≡ ys ++ xs
    whole =
        ap (λ m. circle (2 ^ w) (write_bytes m rb.head 0 xs rb.buf) rb.tail (n + length xs)) h.mask
        ∙ write_bytes-circle w rb.head 0 rb.tail n xs rb.buf start fits
            (omega (arith, head_small, small, fits))
        ∙ ap (λ zs. zs ++ xs) h.bytes

    moved : bit_and (add32 rb.head (length xs)) rb.mask ≡ (rb.tail + (n + length xs)) % 2 ^ w
    moved =
        ap (bit_and (add32 rb.head (length xs))) h.mask
        ∙ position w rb.head (length xs) (omega (arith, head_small, small, fits))
        ∙ ap (λ v. (v + length xs) % 2 ^ w) h.head
        ∙ mod-add-mod (rb.tail + n) (2 ^ w) (length xs)
        ∙ ap (λ v. v % 2 ^ w) (regroup rb.tail n (length xs))

-- A buffer of 2^w bytes, w up to 31, that holds `ys`, and bytes `xs` that fit beside them with one
-- byte to spare: the write succeeds, and a read of as many bytes or more then gives the bytes of `ys`,
-- those of `xs`, and their number, in this order; the buffer holds nothing after it.
pub read-write :
    (w max_len : ℕ) (rb : RingBuffer) (ys xs : List ℕ)
    → Holds w rb ys
    → length ys + length xs < 2 ^ w
    → length ys + length xs ≤ max_len
    → let (rb₁, written) = write xs rb in
      let (rb₂, bytes, number) = read max_len rb₁ in
      (written ≡ true) × (bytes ≡ ys ++ xs) × (number ≡ length ys + length xs) × Holds w rb₂ []
unfolding read
read-write w max_len rb ys xs h fits enough = rw all (
  added.0,
  ap (λ m. take_bytes m rb₁.tail 0 (length zs) rb₁.buf) k.mask
      ∙ take_bytes-circle w rb₁.tail 0 (length zs) rb₁.buf (omega (arith, k.tail, k.room, small))
      ∙ ap (λ p. circle (2 ^ w) rb₁.buf p (length zs)) (plus_zero rb₁.tail)
      ∙ k.bytes,
  total,
  record {
    width = k.width;
    mask = k.mask;
    tail = tail_small;
    head = head;
    room = positive;
    bytes = refl;
  },
)
  where
    zs : List ℕ
    zs = ys ++ xs

    rb₁ : RingBuffer
    rb₁ = (write xs rb).0

    added : ((write xs rb).1 ≡ true) × Holds w rb₁ zs
    added = write-Holds w rb ys xs h fits

    k : Holds w rb₁ zs
    k = added.1

    total : length zs ≡ length ys + length xs
    total = length-append ys xs

    small : 2 ^ w ≤ 2 ^ 31
    small = pow-le-pow_right (omega arith) h.width

    positive : 0 < 2 ^ w
    positive = one-le-pow w 2 (omega arith)

    all : (if ltb max_len (count rb₁) then max_len else count rb₁) ≡ length zs
    all =
        ap (λ c. if ltb max_len c then max_len else c) (count-Holds w rb₁ zs k)
        ∙ ground (arith, total, enough)

    tail : bit_and (add32 rb₁.tail (length zs)) rb₁.mask ≡ (rb₁.tail + length zs) % 2 ^ w
    tail =
        ap (bit_and (add32 rb₁.tail (length zs))) k.mask
        ∙ position w rb₁.tail (length zs) (omega (arith, k.tail, k.room, small))

    tail_small : bit_and (add32 rb₁.tail (length zs)) rb₁.mask < 2 ^ w
    tail_small = subst (λ v. v < 2 ^ w) (sym tail) (mod-lt (rb₁.tail + length zs) positive)

    head : rb₁.head ≡ (bit_and (add32 rb₁.tail (length zs)) rb₁.mask + 0) % 2 ^ w
    head =
        k.head
        ∙ sym tail
        ∙ sym (mod-eq_of_lt tail_small)
        ∙ ap (λ v. v % 2 ^ w) (sym (plus_zero (bit_and (add32 rb₁.tail (length zs)) rb₁.mask)))
