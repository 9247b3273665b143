-- ===== src/BlockAlloc/Classes.antt =====
-- lib/dynamic_allocator.c: the class of a size.
use fos_educational_os_proje.Base.{ℕ, ◌-◌, ◌^◌, ◌≤◌, ◌<◌, ◌≡◌, arith, ◌⊎◌}
use fos_educational_os_proje.BlockAlloc.{class_of, size_log2}

-- For a size from 1 to 2048 bytes, the class that alloc_block computes is one of those from 2 ^ 3
-- to 2 ^ 11, its blocks hold the size, and it is the least such class.
pub size_log2-least :
    (size : ℕ)
    → 0 < size
    → size ≤ 2048
    → (3 ≤ size_log2 size)
      × (size_log2 size ≤ 11)
      × (size ≤ 2 ^ size_log2 size)
      × ((size_log2 size ≡ 3) ⊎ (2 ^ (size_log2 size - 1) < size))
unfolding size_log2 class_of
size_log2-least size pos top = ground arith
