-- ===== src/KHeap/Free.antt =====
-- kern/mem/kheap.c: merge_bulks, the lowering of the break, and kfree.
use fos_educational_os_proje.Base.{
  ℕ, zero, suc, ◌+◌, ◌/◌, Bool, true, false, ◌||◌, Option, none, some, ◌==◌, ltb, leb,
  if◌then◌else◌, length,
}
use fos_educational_os_proje.Base.Monad.{M, pure, ◌>>=◌, ◌>>◌, gets, modify, panic}
use fos_educational_os_proje.KHeap.{
  Bulk, Below, KHeap, page_size, null, add32, kernel_heap_start, kernel_heap_max, bulk_end,
  dyn_alloc_max_size, insert_bulk_desc, remove_bulk, find_bulk, neighbours,
}
use fos_educational_os_proje.KHeap.Alloc.{bulk_size, lift, acquire_kheap_lock, release_kheap_lock}

module _ {L : Type 0} (B : Below L) where
  unfoldable pub unmap_pages : (fuel va end_va : ℕ) → M L (Unit {0})
  unmap_pages zero va end_va = panic
  unmap_pages (suc fuel) va end_va = elim (ltb va end_va) [
    | true ↦ (do B.unmap_frame va; unmap_pages fuel (add32 va page_size) end_va)
    | false ↦ pure tt
  ]

  -- Which neighbours are free, and what becomes of the three regions.
  unfoldable pub merge_found : (start size : ℕ) → Option Bulk × Option Bulk → M (KHeap L) (Unit {0})
  merge_found start size (some abl, some ba3d) = do
    modify (λ h. record h {
      bulks =
          insert_bulk_desc (record abl { size = add32 abl.size (add32 size ba3d.size) })
            (remove_bulk ba3d (remove_bulk abl h.bulks));
    })
    lift (B.free_block ba3d.node)
  merge_found start size (some abl, none) = modify (λ h. record h {
    bulks = insert_bulk_desc (record abl { size = add32 abl.size size }) (remove_bulk abl h.bulks);
  })
  merge_found start size (none, some ba3d) = modify (λ h. record h {
    bulks =
        insert_bulk_desc (record ba3d { start = start; size = add32 ba3d.size size })
          (remove_bulk ba3d h.bulks);
  })
  merge_found start size (none, none) = do
    n ← lift (B.alloc_block bulk_size)
    if n == null
        then panic
        else modify (λ h. record h {
          bulks = insert_bulk_desc (record { node = n; start = start; size = size }) h.bulks;
        })

  unfoldable pub merge_bulks : (start size : ℕ) → M (KHeap L) (Unit {0})
  merge_bulks start size h = merge_found start size (neighbours start size none none h.bulks) h

  -- One round of the loop that lowers the break: whether a free bulk ended there.
  unfoldable pub lower_once : M (KHeap L) Bool
  lower_once h = elim (find_bulk (λ c. bulk_end c == h.alloc_break) h.bulks) [
    | none ↦ some (false, h)
    | some top ↦
        (do
          modify (λ g. record g { bulks = remove_bulk top g.bulks; alloc_break = top.start })
          lift (B.free_block top.node)
          pure true)
          h
  ]

  unfoldable pub lower_break : (fuel : ℕ) → M (KHeap L) (Unit {0})
  lower_break zero = panic
  lower_break (suc fuel) = do
    again ← lower_once
    elim again [ true ↦ lower_break fuel | false ↦ pure tt ]

  -- A round takes a bulk off the list.
  unfoldable pub lower_break_all : M (KHeap L) (Unit {0})
  lower_break_all h = lower_break (length h.bulks + 1) h

  -- What kfree does with the allocated region that it found.
  unfoldable pub free_region : Bulk → M (KHeap L) (Unit {0})
  free_region b = do
    lift (unmap_pages (b.size / page_size + 2) b.start (bulk_end b))
    modify (λ h. record h { bulks_allocated = remove_bulk b h.bulks_allocated })
    lift (B.free_block b.node)
    merge_bulks b.start b.size
    lower_break_all

  unfoldable pub free_pages : ℕ → M (KHeap L) (Unit {0})
  free_pages va h = elim (find_bulk (λ c. c.start == va) h.bulks_allocated) [
    | none ↦ none
    | some b ↦ free_region b h
  ]

  -- An address between the two regions reaches the end of the function.
  unfoldable pub kfree : ℕ → M (KHeap L) (Unit {0})
  kfree va = do
    acquire_kheap_lock
    alloc_start ← gets (λ h. h.alloc_start)
    if va == null
        then release_kheap_lock
        else if ltb va kernel_heap_start || leb kernel_heap_max va
        then panic
        else if ltb va (kernel_heap_start + dyn_alloc_max_size)
        then (do lift (B.free_block va); release_kheap_lock)
        else if leb alloc_start va
        then (do free_pages va; release_kheap_lock)
        else pure tt
