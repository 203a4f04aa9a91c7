-- ===== src/Utils/RingBuffer/Partial.antt =====
-- `ring_buffer_read` of src/utils/ring_buffer.c when it takes a part of the bytes.
use vrtos.Base.{
  ℕ, zero, suc, ◌+◌, ◌%◌, ◌^◌, ◌≤◌, ◌<◌, ◌≡◌, refl, sym, ◌∙◌, ap, ap₂, subst, List, [], ◌∷◌, ◌++◌,
  arith, length, length-append, ltb, if◌then◌else◌, bit_and, add32, sub32, true, false,
}
use native.Mathlib.Nat.{pow-le-pow_right, mod-add-mod, mod-eq_of_lt, one-le-pow, mod-lt}
use vrtos.Utils.RingBuffer.{RingBuffer, count, free, take_bytes, read, write}
use vrtos.Utils.RingBuffer.Circle.{circle, position, take_bytes-circle}
use vrtos.Utils.RingBuffer.Fifo.{Holds, count-Holds}

-- The bytes from a position on depend on where it is in the circle only.
circle-mod :
    (size : ℕ) (buf : ℕ → ℕ) (p q n : ℕ)
    → p % size ≡ q % size
    → circle size buf p n ≡ circle size buf q n
circle-mod size buf p q zero e = refl
circle-mod size buf p q (suc n) e = ap₂ ◌∷◌ (ap buf e) (
    circle-mod size buf (p + 1) (q + 1) n
      (sym (mod-add-mod p size 1) ∙ ap (λ v. (v + 1) % size) e ∙ mod-add-mod q size 1))

-- The first bytes, and those behind them.
circle-split :
    (size : ℕ) (buf : ℕ → ℕ) (p : ℕ) (xs ys : List ℕ)
    → circle size buf p (length xs + length ys) ≡ xs ++ ys
    → (circle size buf p (length xs) ≡ xs) × (circle size buf (p + length xs) (length ys) ≡ ys)
circle-split size buf p [] ys e =
    let none_before : p + 0 ≡ p = omega arith in
    let all : 0 + length ys ≡ length ys = omega arith in
    (
      refl,
      ap (λ v. circle size buf v (length ys)) none_before
          ∙ ap (λ n. circle size buf p n) (sym all)
          ∙ e,
    )
circle-split size buf p (x ∷ xs) ys e =
    let more : suc (length xs + length ys) ≡ suc (length xs) + length ys = omega arith in
    let e' : circle size buf p (suc (length xs + length ys)) ≡ x ∷ (xs ++ ys) =
      ap (λ n. circle size buf p n) more ∙ e in
    let behind : p + suc (length xs) ≡ p + 1 + length xs = omega arith in
    let first : buf (p % size) ≡ x = cc in
    let rest : circle size buf (p + 1) (length xs + length ys) ≡ xs ++ ys = cc in
    let (a, b) = circle-split size buf (p + 1) xs ys rest in
    (ap₂ ◌∷◌ first a, ap (λ v. circle size buf v (length ys)) behind ∙ b)

-- A read of some of the bytes gives the first ones, and leaves the others.
pub read-Holds :
    (w : ℕ) (rb : RingBuffer) (xs ys : List ℕ)
    → Holds w rb (xs ++ ys)
    → let (rb', bytes, number) = read (length xs) rb in
      (bytes ≡ xs) × (number ≡ length xs) × Holds w rb' ys
unfolding read
read-Holds w rb xs ys h = rw all (
  ap (λ m. take_bytes m rb.tail 0 n rb.buf) h.mask
      ∙ take_bytes-circle w rb.tail 0 n rb.buf (omega (arith, h.tail, h.room, small, total))
      ∙ ap (λ p. circle (2 ^ w) rb.buf p n) none_before
      ∙ split.0,
  refl,
  record {
    width = h.width;
    mask = h.mask;
    tail = subst (λ v. v < 2 ^ w) (sym moved) (mod-lt (rb.tail + n) positive);
    head =
        h.head
        ∙ ap (λ v. v % 2 ^ w) (ap (λ k. rb.tail + k) total ∙ regroup)
        ∙ sym (mod-add-mod (rb.tail + n) (2 ^ w) (length ys))
        ∙ ap (λ v. (v + length ys) % 2 ^ w) (sym moved);
    room = omega (arith, h.room, total);
    bytes =
        circle-mod (2 ^ w) rb.buf (bit_and (add32 rb.tail n) rb.mask) (rb.tail + n) (length ys)
          (ap (λ v. v % 2 ^ w) moved ∙ mod-eq_of_lt (mod-lt (rb.tail + n) positive))
        ∙ split.1;
  },
)
  where
    n : ℕ
    n = length xs

    small : 2 ^ w ≤ 2 ^ 31
    small = pow-le-pow_right (omega arith) h.width

    positive : 0 < 2 ^ w
    positive = one-le-pow w 2 (omega arith)

    none_before : rb.tail + 0 ≡ rb.tail
    none_before = omega arith

    regroup : rb.tail + (n + length ys) ≡ rb.tail + n + length ys
    regroup = omega arith

    total : length (xs ++ ys) ≡ length xs + length ys
    total = length-append xs ys

    all : (if ltb (length xs) (count rb) then length xs else count rb) ≡ length xs
    all =
        ap (λ c. if ltb (length xs) c then length xs else c) (count-Holds w rb (xs ++ ys) h)
        ∙ ground (arith, total)

    moved : bit_and (add32 rb.tail n) rb.mask ≡ (rb.tail + n) % 2 ^ w
    moved =
        ap (bit_and (add32 rb.tail n)) h.mask
        ∙ position w rb.tail n (omega (arith, h.tail, h.room, small, total))

    split :
        (circle (2 ^ w) rb.buf rb.tail n ≡ xs)
        × (circle (2 ^ w) rb.buf (rb.tail + n) (length ys) ≡ ys)
    split =
        circle-split (2 ^ w) rb.buf rb.tail xs ys
          (ap (λ k. circle (2 ^ w) rb.buf rb.tail k) (sym total) ∙ h.bytes)

-- A read of an empty buffer gives nothing.
pub read-empty :
    (w max_len : ℕ) (rb : RingBuffer)
    → Holds w rb []
    → let (rb', bytes, number) = read max_len rb in (number ≡ 0) × Holds w rb' []
unfolding read
read-empty w max_len rb h =
    let nothing : count rb ≡ 0 = count-Holds w rb [] h in
    let all : (if ltb max_len (count rb) then max_len else count rb) ≡ 0 =
      ground (arith, nothing) in
    let all' : (if ltb 0 (count rb) then 0 else count rb) ≡ 0 = ground (arith, nothing) in
    rw all (refl, rw all' at (read-Holds w rb [] [] h).2)

-- Bytes that do not fit are not written, and nothing changes.
pub write-full :
    (w : ℕ) (rb : RingBuffer) (ys xs : List ℕ)
    → Holds w rb ys
    → 2 ^ w ≤ length ys + length xs
    → write xs rb ≡ (rb, false)
unfolding write free
write-full w rb ys xs h full =
    let small : 2 ^ w ≤ 2 ^ 31 = pow-le-pow_right (omega arith) h.width in
    let no_room : ltb (sub32 rb.mask (count rb)) (length xs) ≡ true =
      ap₂ (λ m c. ltb (sub32 m c) (length xs)) h.mask (count-Holds w rb ys h)
      ∙ ground (arith, small, full, h.room) in
    rw no_room refl
