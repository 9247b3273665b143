-- ===== src/UHeap.antt =====
-- lib/uheap.c: the heap of a user program. The lists of free regions are those of the kernel heap's page
-- allocator, whose names KHeap has; `allocation_sizes` is a function of the page's index, which is 0 for
-- a page where no region starts.
mod Scan
mod Twice
mod Tests
use fos_educational_os_proje.Base.{
  ℕ, zero, suc, ◌+◌, ◌-◌, ◌*◌, ◌%◌, ◌^◌, ◌/◌, Bool, true, false, not, ◌||◌, ◌&&◌, Option, none,
  some, List, [], ◌∷◌, ◌==◌, ltb, leb, if◌then◌else◌, update,
}
use fos_educational_os_proje.Base.Monad.{M, pure, ◌>>=◌, ◌>>◌, gets, modify, panic}
use fos_educational_os_proje.Base.Int.{ℤ, pos, negsuc, is_neg, is_nonpos, pos_part}
use fos_educational_os_proje.KHeap.{
  Bulk, page_size, null, add32, sub32, round_up, dyn_alloc_max_size, dyn_alloc_max_block_size,
  insert_bulk_desc, remove_bulk, find_bulk, neighbours,
}

abbrev pub user_heap_start : ℕ
user_heap_start = 0x80000000

abbrev pub user_heap_max : ℕ
user_heap_max = 0xA0000000

-- static struct Bulk free_nodes[2048]
abbrev pub free_nodes_size : ℕ
free_nodes_size = 2048

-- Whether a result is E_SHARED_MEM_NOT_EXISTS, which is -16.
abbrev pub is_not_exists : ℤ → Bool
is_not_exists (pos n) = false
is_not_exists (negsuc n) = n == 15

pub record UHeap (L : Type 0) : Type 0 where
  pub first_time_flag : Bool
  pub bulks : List Bulk
  pub allocation_sizes : ℕ → ℕ
  pub free_nodes_index : ℕ
  pub page_alloc_start : ℕ
  pub page_alloc_break : ℕ
  pub low : L

-- What the heap calls: the block allocator of lib/dynamic_allocator.c, and the kernel. `L` is their state,
-- and a name of a shared variable is its address.
pub record Below (L : Type 0) : Type 0 where
  pub initialize_dynamic_allocator : (da_start da_end : ℕ) → M L (Unit {0})
  pub dyn_alloc_end : L → ℕ
  pub alloc_block : ℕ → M L ℕ
  pub free_block : ℕ → M L (Unit {0})
  pub sys_allocate_user_mem : (va size : ℕ) → M L (Unit {0})
  pub sys_free_user_mem : (va size : ℕ) → M L (Unit {0})
  pub sys_getenvid : L → ℕ
  pub sys_size_of_shared_object : (owner name : ℕ) → M L ℤ
  pub sys_create_shared_object : (name size : ℕ) → Bool → (va : ℕ) → M L ℤ
  pub sys_get_shared_object : (owner name va : ℕ) → M L ℤ

abbrev pub index_of : ℕ → ℕ
index_of va = (va - user_heap_start) / page_size

-- The scan of free, down from the page before `n`: the end of the last region that is allocated.
unfoldable pub scan_break : (n : ℕ) → (allocation_sizes : ℕ → ℕ) → (new_brk : ℕ) → ℕ
scan_break zero sizes new_brk = new_brk
scan_break (suc i) sizes new_brk =
    let below = scan_break i sizes new_brk in
    if sizes i == 0 then below else add32 (user_heap_start + i * page_size) (sizes i)

-- The first, largest, region, if it is larger than what is needed.
unfoldable pub worst_fit : ℕ → List Bulk → Option Bulk
worst_fit needed [] = none
worst_fit needed (b ∷ bs) = if ltb needed b.size then some b else none

module _ {L : Type 0} where
  abbrev pub lifted : {A : Type 0} → UHeap L → Option (A × L) → Option (A × UHeap L)
  lifted h none = none
  lifted h (some (a, l)) = some (a, record h { low = l })

  abbrev pub lift : {A : Type 0} → M L A → M (UHeap L) A
  lift m h = lifted h (m h.low)

  abbrev pub set_size : (va size : ℕ) → UHeap L → UHeap L
  set_size va size h = record h { allocation_sizes = update h.allocation_sizes (index_of va) size }

  -- What becomes of the neighbours of a region that is freed.
  unfoldable pub merge_found : (start size : ℕ) → Option Bulk × Option Bulk → M (UHeap L) (Unit {0})
  merge_found start size (some before, some after) = modify (λ h. record h {
    bulks =
        insert_bulk_desc (record before { size = add32 before.size (add32 size after.size) })
          (remove_bulk after (remove_bulk before h.bulks));
  })
  merge_found start size (some before, none) = modify (λ h. record h {
    bulks =
        insert_bulk_desc (record before { size = add32 before.size size })
          (remove_bulk before h.bulks);
  })
  merge_found start size (none, some after) = modify (λ h. record h {
    bulks =
        insert_bulk_desc (record after { start = start; size = add32 after.size size })
          (remove_bulk after h.bulks);
  })
  merge_found start size (none, none) = λ h.
      if leb free_nodes_size h.free_nodes_index
      then none
      else some (
        tt,
        record h {
          free_nodes_index = h.free_nodes_index + 1;
          bulks =
              insert_bulk_desc (record { node = h.free_nodes_index; start = start; size = size })
                h.bulks;
        },
      )

  unfoldable pub merge_bulks : (start size : ℕ) → M (UHeap L) (Unit {0})
  merge_bulks start size h = merge_found start size (neighbours start size none none h.bulks) h

module _ {L : Type 0} (B : Below L) where
  unfoldable pub uheap_init : M (UHeap L) (Unit {0})
  uheap_init h =
      if h.first_time_flag
      then (do
        lift (B.initialize_dynamic_allocator user_heap_start (user_heap_start + dyn_alloc_max_size))
        modify (λ g. record g {
          page_alloc_start = add32 (B.dyn_alloc_end g.low) page_size;
          page_alloc_break = add32 (B.dyn_alloc_end g.low) page_size;
          first_time_flag = false;
        }))
          h
      else some (tt, h)

  -- The region at `va` is marked in the kernel, and its size is kept.
  unfoldable pub give_region : (va size : ℕ) → M (UHeap L) ℕ
  give_region va size = do
    lift (B.sys_allocate_user_mem va size)
    modify (set_size va size)
    pure va

  unfoldable pub extend_break : ℕ → M (UHeap L) ℕ
  extend_break needed h =
      if ltb h.page_alloc_break h.page_alloc_start
        || ltb (sub32 user_heap_max h.page_alloc_break) needed
        || ltb user_heap_max (add32 h.page_alloc_break needed)
      then some (null, h)
      else (do
        va ← give_region h.page_alloc_break needed
        modify (λ g. record g { page_alloc_break = add32 g.page_alloc_break needed })
        pure va)
          h

  unfoldable pub take_worst : ℕ → Option Bulk → M (UHeap L) ℕ
  take_worst needed none = extend_break needed
  take_worst needed (some b) = do
    modify (λ h. record h {
      bulks =
          insert_bulk_desc (record b { start = add32 b.start needed; size = sub32 b.size needed })
            (remove_bulk b h.bulks);
    })
    give_region b.start needed

  unfoldable pub take_exact : ℕ → Option Bulk → M (UHeap L) ℕ
  take_exact needed none = gets (λ h. worst_fit needed h.bulks) >>= take_worst needed
  take_exact needed (some b) = do
    modify (λ h. record h { bulks = remove_bulk b h.bulks })
    give_region b.start needed

  unfoldable pub user_page_alloc_custom_fit : ℕ → M (UHeap L) ℕ
  user_page_alloc_custom_fit needed =
      gets (λ h. find_bulk (λ c. c.size == needed) h.bulks) >>= take_exact needed

  unfoldable pub malloc : ℕ → M (UHeap L) ℕ
  malloc size = do
    uheap_init
    if size == 0
        then pure null
        else (if leb size dyn_alloc_max_block_size
            then lift (B.alloc_block size)
            else user_page_alloc_custom_fit (round_up size page_size))

  -- The rest of free, for a region of the page allocator.
  unfoldable pub free_region : (va size : ℕ) → M (UHeap L) (Unit {0})
  free_region va size = do
    modify (set_size va 0)
    merge_bulks va size
    modify (λ h. record h {
      page_alloc_break =
          scan_break (index_of h.page_alloc_break) h.allocation_sizes h.page_alloc_start;
    })
    lift (B.sys_free_user_mem va size)

  unfoldable pub free : ℕ → M (UHeap L) (Unit {0})
  free va h =
      if (va == null) || ltb va user_heap_start || leb user_heap_max va
      then some (tt, h)
      else (if ltb va h.page_alloc_start
          then lift (B.free_block va) h
          else (if h.allocation_sizes (index_of va) == 0
              then some (tt, h)
              else free_region va (h.allocation_sizes (index_of va)) h))

  unfoldable pub smalloc : (name size : ℕ) → Bool → M (UHeap L) ℕ
  smalloc name size is_writable = uheap_init >>= λ u. (if size == 0 then pure null else sized)
    where
      created : ℕ → ℤ → M (UHeap L) ℕ
      created va id =
          if is_neg id
          then (do lift (B.sys_free_user_mem va (round_up size page_size)); pure null)
          else pure va

      placed : ℕ → M (UHeap L) ℕ
      placed va =
          if va == null
          then pure null
          else (do id ← lift (B.sys_create_shared_object name size is_writable va); created va id)

      absent : ℤ → M (UHeap L) ℕ
      absent found =
          if is_not_exists found
          then (user_page_alloc_custom_fit (round_up size page_size) >>= placed)
          else pure null

      sized : M (UHeap L) ℕ
      sized = do
        me ← gets (λ h. B.sys_getenvid h.low)
        found ← lift (B.sys_size_of_shared_object me name)
        absent found

  unfoldable pub sget : (owner name : ℕ) → M (UHeap L) ℕ
  sget owner name = uheap_init >>= λ u. (lift (B.sys_size_of_shared_object owner name) >>= sized)
    where
      got : ℕ → ℕ → ℤ → M (UHeap L) ℕ
      got size va id =
          if is_neg id
          then (do lift (B.sys_free_user_mem va (round_up size page_size)); pure null)
          else pure va

      placed : ℕ → ℕ → M (UHeap L) ℕ
      placed size va =
          if va == null
          then pure null
          else (do id ← lift (B.sys_get_shared_object owner name va); got size va id)

      sized : ℤ → M (UHeap L) ℕ
      sized size =
          if is_nonpos size
          then pure null
          else (user_page_alloc_custom_fit (round_up (pos_part size) page_size)
              >>= placed (pos_part size))
