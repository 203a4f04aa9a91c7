-- ===== src/Tests/Heap.antt =====
-- The theorems on the allocator, on small systems.
use vrtos.Base.{◌+◌, refl, arith, [], ◌∷◌}
use vrtos.State.{total_heap_size}
use vrtos.Memory.Blocks.{blocks, IsPacked, blocks-IsPacked}
use vrtos.Tests.{blank}

blocks-IsPacked_example :
    IsPacked 536870916 536870916 (536870916 + total_heap_size) (blocks (13 ∷ 9000 ∷ 40 ∷ []) blank)
blocks-IsPacked_example =
    blocks-IsPacked (13 ∷ 9000 ∷ 40 ∷ []) blank (omega arith, (omega arith, (omega arith, tt))) refl
      (omega arith)
