-- ===== src/KHeap/Alloc.antt =====
-- kern/mem/kheap.c: map_frame_range, page_alloc_custom_fit and kmalloc.
use fos_educational_os_proje.Base.{
  ℕ, zero, suc, ◌+◌, ◌/◌, Bool, true, false, ◌||◌, Option, none, some, List, [], ◌∷◌, ◌==◌, ltb,
  leb, if◌then◌else◌, Yields, yields,
}
use fos_educational_os_proje.Base.Monad.{M, pure, ◌>>=◌, ◌>>◌, modify, panic, and_then}
use fos_educational_os_proje.KHeap.{
  Bulk, Below, KHeap, page_size, null, add32, sub32, round_up, kernel_heap_max,
  dyn_alloc_max_block_size, insert_bulk_desc, remove_bulk, exact_fit,
}

-- sizeof(struct Bulk): four words
abbrev pub bulk_size : ℕ
bulk_size = 16

module _ {L : Type 0} where
  -- A call of what lies below.
  abbrev pub lifted : {A : Type 0} → KHeap L → Option (A × L) → Option (A × KHeap L)
  lifted h none = none
  lifted h (some (a, l)) = some (a, record h { low = l })

  abbrev pub lift : {A : Type 0} → M L A → M (KHeap L) A
  lift m h = lifted h (m h.low)

  pub bind_lift :
      {A C : Type 0} {P : A × L → Type 0} {Q : C × KHeap L → Type 0} {o : Option (A × L)}
      (f : A → M (KHeap L) C) (h : KHeap L)
      → Yields P o
      → ((a : A) (l : L) → P (a, l) → Yields Q (f a (record h { low = l })))
      → Yields Q (and_then (lifted h o) f)
  bind_lift f h (yields r p) k = k r.0 r.1 p

  unfoldable pub acquire_kheap_lock : M (KHeap L) (Unit {0})
  acquire_kheap_lock h = if h.locked then none else some (tt, record h { locked = true })

  unfoldable pub release_kheap_lock : M (KHeap L) (Unit {0})
  release_kheap_lock h = if h.locked then some (tt, record h { locked = false }) else none

module _ {L : Type 0} (B : Below L) where
  unfoldable pub map_allocated : Option ℕ → ℕ → M L Bool
  map_allocated none va = pure false
  map_allocated (some fi) va = do
    ok ← B.map_frame fi va
    if ok then pure true else (do B.free_frame fi; pure false)

  -- One frame for the page at `va`; false is E_NO_MEM.
  unfoldable pub map_page : ℕ → M L Bool
  map_page va = do fi ← B.allocate_frame; map_allocated fi va

  unfoldable pub map_pages : (fuel va end_va : ℕ) → M L Bool
  map_pages zero va end_va = panic
  map_pages (suc fuel) va end_va = elim (ltb va end_va) [
    | true ↦ do
      ok ← map_page va
      elim ok [ true ↦ map_pages fuel (add32 va page_size) end_va | false ↦ pure false ]
    | false ↦ pure true
  ]

  -- One round for each page, and one for the test that ends the loop.
  unfoldable pub map_frame_range : (va_start size : ℕ) → M L Bool
  map_frame_range va_start size = map_pages (size / page_size + 2) va_start (add32 va_start size)

  -- The loop of the break's extension, over the offset.
  unfoldable pub extend_pages : (fuel va i needed : ℕ) → M L Bool
  extend_pages zero va i needed = panic
  extend_pages (suc fuel) va i needed = elim (ltb i needed) [
    | true ↦ do
      ok ← map_page (add32 va i)
      elim ok [ true ↦ extend_pages fuel va (i + page_size) needed | false ↦ pure false ]
    | false ↦ pure true
  ]

  -- A node for the allocated region, in front of the list.
  unfoldable pub record_allocated : (va size : ℕ) → M (KHeap L) (Unit {0})
  record_allocated va size = do
    n ← lift (B.alloc_block bulk_size)
    modify (λ h. record h {
      bulks_allocated = record { node = n; start = va; size = size } ∷ h.bulks_allocated;
    })

  unfoldable pub take_exact : ℕ → Bulk → M (KHeap L) ℕ
  take_exact needed b = do
    modify (λ h. record h { bulks = remove_bulk b h.bulks })
    ok ← lift (map_frame_range b.start needed)
    if ok then (do record_allocated b.start needed; pure b.start) else pure null

  unfoldable pub take_worst : ℕ → Bulk → M (KHeap L) ℕ
  take_worst needed b = do
    modify (λ h. record h {
      bulks =
          insert_bulk_desc (record b { start = add32 b.start needed; size = sub32 b.size needed })
            (remove_bulk b h.bulks);
    })
    ok ← lift (map_frame_range b.start needed)
    if ok then (do record_allocated b.start needed; pure b.start) else pure null

  unfoldable pub extend_break : ℕ → M (KHeap L) ℕ
  extend_break needed h =
      if ltb h.alloc_break h.alloc_start
        || (ltb (sub32 kernel_heap_max h.alloc_break) needed
            || ltb kernel_heap_max (add32 h.alloc_break needed))
      then some (null, h)
      else (do
        ok ← lift (extend_pages (needed / page_size + 2) h.alloc_break 0 needed)
        if ok
            then (do
              record_allocated h.alloc_break needed
              modify (λ g. record g { alloc_break = add32 g.alloc_break needed })
              pure h.alloc_break)
            else pure null)
          h

  unfoldable pub worst_or_extend : ℕ → List Bulk → M (KHeap L) ℕ
  worst_or_extend needed [] = extend_break needed
  worst_or_extend needed (b ∷ bs) =
      if ltb needed b.size then take_worst needed b else extend_break needed

  unfoldable pub page_alloc_custom_fit : ℕ → M (KHeap L) ℕ
  page_alloc_custom_fit needed h = elim (exact_fit needed h.bulks) [
    | some b ↦ take_exact needed b h
    | none ↦ worst_or_extend needed h.bulks h
  ]

  unfoldable pub kmalloc : ℕ → M (KHeap L) ℕ
  kmalloc size = do
    acquire_kheap_lock
    ptr ←
        if size == 0
        then pure null
        else if leb size dyn_alloc_max_block_size
        then lift (B.alloc_block size)
        else page_alloc_custom_fit (round_up size page_size)
    release_kheap_lock
    pure ptr
