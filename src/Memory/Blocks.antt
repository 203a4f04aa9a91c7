-- ===== src/Memory/Blocks.antt =====
-- The blocks that the bump allocator of src/core/memory.c gives out over a sequence of calls.
use vrtos.Base.{
  ℕ, ◌+◌, ◌-◌, ◌%◌, ◌^◌, ◌<◌, ◌≤◌, ◌≡◌, refl, subst, sym, inl, inr, Option, none, some, List, [],
  ◌∷◌, arith, ltb, Bool-cases, add32, All,
}
use vrtos.State.{Sys, total_heap_size}
use vrtos.Memory.{align8_up, malloc}

-- A size is rounded up to a multiple of 8, by less than 8.
pub align8_up-bounds :
    (n : ℕ) → n ≤ 2 ^ 32 - 8 → (n ≤ align8_up n) × (align8_up n < n + 8) × (align8_up n % 8 ≡ 0)
unfolding align8_up
align8_up-bounds n small = (omega (arith, small), omega (arith, small), omega arith)

keep : ℕ → Option ℕ → List (ℕ × ℕ) → List (ℕ × ℕ)
keep n none rest = rest
keep n (some a) rest = (a, n) ∷ rest

-- The addresses and sizes of the blocks that a sequence of calls gets, the refused ones left out.
unfoldable pub blocks : List ℕ → Sys → List (ℕ × ℕ)
unfolding keep
blocks [] s = []
blocks (n ∷ ns) s = let (s', block) = malloc n s in keep n block (blocks ns s')

-- One behind the other from `low` on, none beyond `high`, each a multiple of 8 away from `base`.
abbrev pub IsPacked : ℕ → ℕ → ℕ → List (ℕ × ℕ) → Type 0
IsPacked base low high [] = low ≤ high
IsPacked base low high ((a, n) ∷ bs) =
    (low ≤ a) × (a % 8 ≡ base % 8) × IsPacked base (a + n) high bs

IsPacked-lower :
    (base low low' high : ℕ) (bs : List (ℕ × ℕ))
    → low' ≤ low
    → IsPacked base low high bs
    → IsPacked base low' high bs
IsPacked-lower base low low' high [] le p = omega arith
IsPacked-lower base low low' high ((a, n) ∷ bs) le p = (omega (arith, p.0), p.1, p.2)

-- Blocks of sizes up to 2^31 come one behind the other, without overlap, inside the heap and each a multiple of 8
-- bytes away from its start, wherever that is, when the index of the allocator is a multiple of 8 inside
-- the heap at first.
pub blocks-IsPacked :
    (ns : List ℕ) (s : Sys)
    → All (λ n. n ≤ 2 ^ 31) ns
    → s.heap_index % 8 ≡ 0
    → s.heap_index ≤ total_heap_size
    → IsPacked s.heap_base
        (s.heap_base + s.heap_index)
        (s.heap_base + total_heap_size)
        (blocks ns s)
unfolding blocks keep malloc
blocks-IsPacked [] s small aligned inside = omega (arith, inside)
blocks-IsPacked (n ∷ ns) s small aligned inside =
    elim (Bool-cases (ltb total_heap_size (add32 s.heap_index (align8_up n)))) [
      | inl full ↦
          let refused : malloc n s ≡ (s, none) = rw full refl in
          pack refused (blocks-IsPacked ns s small.1 aligned inside)
      | inr fits ↦
          let given : malloc n s
              ≡ (record s { heap_index = next }, some (s.heap_base + s.heap_index)) =
            rw fits refl in
          pack given (
            omega arith,
            omega (arith, aligned),
            IsPacked-lower s.heap_base (s.heap_base + next) (s.heap_base + s.heap_index + n)
                (s.heap_base + total_heap_size) (blocks ns (record s { heap_index = next }))
                (omega (arith, rounded, small.0, inside))
                (blocks-IsPacked ns (record s { heap_index = next }) small.1
                  (omega (arith, rounded, small.0, inside, aligned)) (ground arith)),
          )
    ]
  where
    Packed : List (ℕ × ℕ) → Type 0
    Packed bs = IsPacked s.heap_base (s.heap_base + s.heap_index) (s.heap_base + total_heap_size) bs

    pack :
        {r : Sys × Option ℕ}
        → malloc n s ≡ r
        → Packed (keep n r.1 (blocks ns r.0))
        → Packed (keep n (malloc n s).1 (blocks ns (malloc n s).0))
    pack e p = subst (λ r. Packed (keep n r.1 (blocks ns r.0))) (sym e) p

    next : ℕ
    next = add32 s.heap_index (align8_up n)

    rounded : (n ≤ align8_up n) × (align8_up n < n + 8) × (align8_up n % 8 ≡ 0)
    rounded = align8_up-bounds n (omega (arith, small.0))
