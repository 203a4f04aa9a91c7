-- ===== src/Sync/Queue/Slots.antt =====
-- The circular storage of a queue against the list of the items that it holds. Slots are numbered
-- from the start of the storage.
use vrtos.Base.{
  ℕ, zero, suc, ◌+◌, ◌*◌, ◌^◌, ◌<◌, ◌≤◌, ◌≡◌, ◌≢◌, ◌⊎◌, inl, inr, true, false, refl, sym, ap, ap₂,
  ◌∙◌, List, [], ◌∷◌, ◌++◌, arith, leb, ◌==◌, if◌then◌else◌, Bool-cases, ==-eq, read_bytes, memcpy,
  Disjoint, read_bytes-memcpy, read_bytes-memcpy_outside, add32,
}
use vrtos.Sync.Queue.{mul32}

-- The slot behind a slot, and the one `n` slots on.
abbrev pub next_slot : ℕ → ℕ → ℕ
next_slot len k = if suc k == len then 0 else suc k

abbrev pub slot_after : ℕ → ℕ → ℕ → ℕ
slot_after len zero k = k
slot_after len (suc n) k = slot_after len n (next_slot len k)

pub slot_after-suc : (len n k : ℕ) → slot_after len (suc n) k ≡ next_slot len (slot_after len n k)
slot_after-suc len zero k = refl
slot_after-suc len (suc n) k = slot_after-suc len n (next_slot len k)

pub next_slot-lt : (len k : ℕ) → k < len → next_slot len k < len
next_slot-lt len k lt = ground arith

pub slot_after-lt : (len n k : ℕ) → k < len → slot_after len n k < len
slot_after-lt len zero k lt = lt
slot_after-lt len (suc n) k lt = slot_after-lt len n (next_slot len k) (next_slot-lt len k lt)

-- Fewer than `len` slots on, the number is `n` more, or that less the number of the slots.
slot_after-cases :
    (len n k : ℕ)
    → k < len
    → n ≤ len
    → (slot_after len n k ≡ k + n) ⊎ (slot_after len n k + len ≡ k + n)
slot_after-cases len zero k lt le = inl (omega arith)
slot_after-cases len (suc n) k lt le =
    ground (arith, slot_after-cases len n k, slot_after-suc len n k)

slot_after-ne : (len n k : ℕ) → k < len → suc n < len → slot_after len (suc n) k ≢ k
slot_after-ne len n k lt le e = ground (arith, slot_after-cases len (suc n) k lt)

-- A multiple stays apart from another.
slot_apart : (size j k : ℕ) → j < k → j * size + size ≤ k * size
slot_apart size j k lt = grind arith

suc_slot : (size k : ℕ) → suc k * size ≡ k * size + size
suc_slot size k = grind arith

apart : (buffer size j k : ℕ) → j ≢ k → Disjoint (buffer + j * size) size (buffer + k * size) size
apart buffer size j k ne = ground (arith, slot_apart size j k, slot_apart size k j)

module _ (buffer size len : ℕ) where
  -- The `n` items from slot `k` on.
  abbrev pub contents : (ℕ → ℕ) → ℕ → ℕ → List (List ℕ)
  contents bytes zero k = []
  contents bytes (suc n) k =
      read_bytes bytes (buffer + k * size) size ∷ contents bytes n (next_slot len k)

  pub contents-outside :
      (bytes : ℕ → ℕ) (dst src : ℕ) (n k : ℕ)
      → Disjoint buffer (len * size) dst size
      → k < len
      → contents (memcpy dst src size bytes) n k ≡ contents bytes n k
  contents-outside bytes dst src zero k d lt = refl
  contents-outside bytes dst src (suc n) k d lt =
      ap₂ ◌∷◌
        (read_bytes-memcpy_outside dst src size bytes (buffer + k * size) size
          (ground (arith, slot_apart size k len)))
        (contents-outside bytes dst src n (next_slot len k) d (next_slot-lt len k lt))

  -- Writing the slot behind `n` items adds an item to them.
  pub contents-put :
      (bytes : ℕ → ℕ) (src n k w : ℕ)
      → k < len
      → n < len
      → slot_after len n k ≡ w
      → contents (memcpy (buffer + w * size) src size bytes) (suc n) k
        ≡ contents bytes n k ++ read_bytes bytes src size ∷ []
  contents-put bytes src zero k w lt le e =
      rw e (ap (λ x. x ∷ []) (read_bytes-memcpy (buffer + w * size) src size bytes))
  contents-put bytes src (suc n) k w lt le e =
      ap₂ ◌∷◌
        (read_bytes-memcpy_outside (buffer + w * size) src size bytes (buffer + k * size) size
          (apart buffer size k w (λ same. slot_after-ne len n k lt le (e ∙ sym same))))
        (contents-put bytes src n (next_slot len k) w (next_slot-lt len k lt) (omega arith) e)

-- A queue at `buffer` with room for `len` items of `size` bytes holds `items`, the oldest first, from
-- slot `first` on; neither a pointer nor the end of the storage wraps.
pub record Circular (bytes : ℕ → ℕ) (buffer size len read_ptr write_ptr count : ℕ)
    (items : List (List ℕ)) : Type 0 where
  pub first : ℕ
  pub in_range : first < len
  pub sized : 0 < size
  pub room : buffer + len * size < 2 ^ 32
  pub fits : count ≤ len
  pub read : read_ptr ≡ buffer + first * size
  pub write : write_ptr ≡ buffer + slot_after len count first * size
  pub holds : contents buffer size len bytes count first ≡ items

pub len_small : (buffer size len : ℕ) → 0 < size → buffer + len * size < 2 ^ 32 → len < 2 ^ 32
len_small buffer size len sized room = omega (arith, room, at_least)
  where
    at_least : len ≤ len * size
    at_least = grind arith

-- Both pointers move from slot to slot.
pub advance_lem :
    (buffer size len k : ℕ)
    → k < len
    → 0 < size
    → buffer + len * size < 2 ^ 32
    → (if leb (add32 buffer (mul32 len size)) (add32 (buffer + k * size) size)
        then buffer
        else add32 (buffer + k * size) size)
      ≡ buffer + next_slot len k * size
advance_lem buffer size len k lt sized room = elim (Bool-cases (suc k == len)) [
  | inl e ↦ rw (end, step, e) (rw (at_end (==-eq (suc k) len e)) (omega arith))
  | inr e ↦ rw (end, step, e) (rw (before_end (ground (arith, e))) (omega (arith, suc_slot size k)))
]
  where
    inside : k * size + size ≤ len * size
    inside = slot_apart size k len lt

    end : add32 buffer (mul32 len size) ≡ buffer + len * size
    end = omega arith

    step : add32 (buffer + k * size) size ≡ buffer + k * size + size
    step = omega (arith, inside)

    at_end : suc k ≡ len → leb (buffer + len * size) (buffer + k * size + size) ≡ true
    at_end e =
        let whole : len * size ≡ k * size + size = ap (λ n. n * size) (sym e) ∙ suc_slot size k in
        ground arith

    before_end : suc k < len → leb (buffer + len * size) (buffer + k * size + size) ≡ false
    before_end l =
        let more = slot_apart size (suc k) len l in let this = suc_slot size k in ground arith
