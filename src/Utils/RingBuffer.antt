-- ===== src/Utils/RingBuffer.antt =====
-- The ring buffer of the log and the trace, src/utils/ring_buffer.c: one writer, one reader, and a size
-- that is a power of 2. A position in `buf` is a number of bytes from its start.
pub mod Circle
pub mod Fifo
pub mod Partial
use vrtos.Base.{
  ℕ, zero, suc, ◌+◌, ◌-◌, Bool, true, false, List, [], ◌∷◌, length, ltb, ◌==◌, if◌then◌else◌,
  update, bit_and, add32, sub32,
}

pub record RingBuffer : Type 0 where
  pub buf : ℕ → ℕ
  pub mask : ℕ
  pub head : ℕ
  pub tail : ℕ

-- `ring_buffer_init` with the memory `buf`
unfoldable pub init : (ℕ → ℕ) → ℕ → RingBuffer
init buf size = record { buf = buf; mask = sub32 size 1; head = 0; tail = 0 }

-- `ring_buffer_count`, `ring_buffer_free`, `ring_buffer_is_empty`
unfoldable pub count : RingBuffer → ℕ
count rb = bit_and (sub32 rb.head rb.tail) rb.mask

unfoldable pub free : RingBuffer → ℕ
free rb = sub32 rb.mask (count rb)

unfoldable pub is_empty : RingBuffer → Bool
is_empty rb = rb.head == rb.tail

-- `buf[(head + i) & mask] = src[i]` for the bytes from `i` on.
unfoldable pub write_bytes : ℕ → ℕ → ℕ → List ℕ → (ℕ → ℕ) → ℕ → ℕ
write_bytes mask head i [] buf = buf
write_bytes mask head i (x ∷ xs) buf =
    write_bytes mask head (i + 1) xs (update buf (bit_and (add32 head i) mask) x)

-- `ring_buffer_write` of the bytes `xs`
unfoldable pub write : List ℕ → RingBuffer → RingBuffer × Bool
write xs rb =
    let len = length xs in
    if ltb (free rb) len then (rb, false) else (
      record rb {
        buf = write_bytes rb.mask rb.head 0 xs rb.buf;
        head = bit_and (add32 rb.head len) rb.mask;
      },
      true,
    )

-- `dst[i] = buf[(tail + i) & mask]` for `n` bytes from `i` on.
unfoldable pub take_bytes : ℕ → ℕ → ℕ → ℕ → (ℕ → ℕ) → List ℕ
take_bytes mask tail i zero buf = []
take_bytes mask tail i (suc n) buf =
    buf (bit_and (add32 tail i) mask) ∷ take_bytes mask tail (i + 1) n buf

-- `ring_buffer_read`: the buffer, the bytes, and the number of them.
unfoldable pub read : ℕ → RingBuffer → RingBuffer × List ℕ × ℕ
read max_len rb =
    let available = count rb in
    let to_read = if ltb max_len available then max_len else available in
    (
      record rb { tail = bit_and (add32 rb.tail to_read) rb.mask },
      take_bytes rb.mask rb.tail 0 to_read rb.buf,
      to_read,
    )
