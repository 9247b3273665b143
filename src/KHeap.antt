-- ===== src/KHeap.antt =====
-- kern/mem/kheap.c: the kernel heap's page allocator. Free regions are kept in a list sorted by
-- falling size, allocated ones in a list with the newest first. A `struct Bulk` is a record with
-- the address of its node; the order of a list stands for its `next` and `prev` links.
pub mod Cover
pub mod Inv
pub mod Alloc
pub mod Tiled
pub mod Reserve
pub mod Free
mod Start
mod Gap
mod Merge
mod Returned
mod Lower
mod Kfree
mod Tests
use fos_educational_os_proje.Base.{
  ℕ, zero, suc, ◌+◌, ◌-◌, ◌%◌, ◌^◌, ◌/◌, Bool, true, false, ◌||◌, ◌&&◌, Option, none, some, List,
  [], ◌∷◌, ◌==◌, ltb, leb, if◌then◌else◌,
}
use fos_educational_os_proje.Base.Monad.{M, pure, ◌>>=◌, ◌>>◌, gets, modify, panic, assert}

abbrev pub page_size : ℕ
page_size = 4096

abbrev pub kernel_heap_start : ℕ
kernel_heap_start = 0xF6000000

-- (uint32)-PAGE_SIZE
abbrev pub kernel_heap_max : ℕ
kernel_heap_max = 0xFFFFF000

abbrev pub dyn_alloc_max_size : ℕ
dyn_alloc_max_size = 0x2000000

abbrev pub dyn_alloc_max_block_size : ℕ
dyn_alloc_max_block_size = 2048

abbrev pub null : ℕ
null = 0

-- sums and differences of uint32
abbrev pub add32 : ℕ → ℕ → ℕ
add32 a b = (a + b) % 2 ^ 32

abbrev pub sub32 : ℕ → ℕ → ℕ
sub32 a b = (a + 2 ^ 32 - b) % 2 ^ 32

abbrev pub round_down : ℕ → ℕ → ℕ
round_down a n = a - a % n

abbrev pub round_up : ℕ → ℕ → ℕ
round_up a n = round_down (sub32 (add32 a n) 1) n

pub record Bulk : Type 0 where
  pub node : ℕ
  pub start : ℕ
  pub size : ℕ

-- What the page allocator calls: the block allocator (lib/dynamic_allocator.c), which serves the
-- nodes and the small requests, and the frame manager (kern/mem/memory_manager.c). `L` is their
-- state; `allocate_frame` gives `none` for E_NO_MEM, and `map_frame` gives false for it.
pub record Below (L : Type 0) : Type 0 where
  pub alloc_block : ℕ → M L ℕ
  pub free_block : ℕ → M L (Unit {0})
  pub allocate_frame : M L (Option ℕ)
  pub map_frame : (frame va : ℕ) → M L Bool
  pub free_frame : ℕ → M L (Unit {0})
  pub unmap_frame : ℕ → M L (Unit {0})

pub record KHeap (L : Type 0) : Type 0 where
  pub bulks : List Bulk
  pub bulks_allocated : List Bulk
  pub alloc_start : ℕ
  pub alloc_break : ℕ
  pub locked : Bool
  pub low : L

-- Before the first bulk that is not larger.
unfoldable pub insert_bulk_desc : Bulk → List Bulk → List Bulk
insert_bulk_desc b [] = b ∷ []
insert_bulk_desc b (c ∷ cs) = if ltb b.size c.size then c ∷ insert_bulk_desc b cs else b ∷ c ∷ cs

-- Takes the node of `b` out of the list that holds it.
unfoldable pub remove_bulk : Bulk → List Bulk → List Bulk
remove_bulk b [] = []
remove_bulk b (c ∷ cs) = if c.node == b.node then cs else c ∷ remove_bulk b cs

-- The first bulk that passes a test.
unfoldable pub find_bulk : (Bulk → Bool) → List Bulk → Option Bulk
find_bulk test [] = none
find_bulk test (c ∷ cs) = if test c then some c else find_bulk test cs

-- `end` of a bulk, as the code computes it
abbrev pub bulk_end : Bulk → ℕ
bulk_end b = add32 b.start b.size

-- The scan of merge_bulks: the last bulk that ends where the freed region starts, and the last one
-- that starts where it ends.
unfoldable pub neighbours :
    (start size : ℕ) → (abl ba3d : Option Bulk) → List Bulk → Option Bulk × Option Bulk
neighbours start size abl ba3d [] = (abl, ba3d)
neighbours start size abl ba3d (c ∷ cs) =
    neighbours start size (if bulk_end c == start then some c else abl)
      (if c.start == add32 start size then some c else ba3d) cs

-- The search for an exact fit is made only if the first, largest, bulk is large enough.
unfoldable pub exact_fit : ℕ → List Bulk → Option Bulk
exact_fit needed [] = none
exact_fit needed (b ∷ bs) =
    if leb needed b.size then find_bulk (λ c. c.size == needed) (b ∷ bs) else none
