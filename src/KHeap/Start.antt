-- ===== src/KHeap/Start.antt =====
-- kern/mem/kheap.c: kheap_init.
use fos_educational_os_proje.Base.{ℕ, Bool, ◌+◌, ◌-◌, ◌≡◌, ◌<◌, false, [], Yields, yields, arith}
use fos_educational_os_proje.Base.Monad.{M, ◌>>◌, modify}
use fos_educational_os_proje.KHeap.{KHeap, page_size, kernel_heap_start, dyn_alloc_max_size, add32}
use fos_educational_os_proje.KHeap.Alloc.{lift, bind_lift}
use fos_educational_os_proje.KHeap.Cover.{inside}
use fos_educational_os_proje.KHeap.Inv.{IsTiled}

module _ {L : Type 0} where
  -- `initialize` is initialize_dynamic_allocator, and `dyn_alloc_end` what it leaves in dynAllocEnd. The
  -- strategy is custom fit.
  unfoldable pub kheap_init :
      (initialize : ℕ → ℕ → M L (Unit {0})) → (dyn_alloc_end : L → ℕ) → M (KHeap L) (Unit {0})
  kheap_init initialize dyn_alloc_end = do
    modify (λ h. record h { locked = false })
    lift (initialize kernel_heap_start (kernel_heap_start + dyn_alloc_max_size))
    modify (λ h. record h { alloc_start = add32 (dyn_alloc_end h.low) page_size })
    modify (λ h. record h { alloc_break = h.alloc_start })

  -- kheap_init of a heap without regions, where the block allocator is initialized and ends where it was told
  -- to: it returns, and the heap is tiled.
  pub kheap_init-IsTiled :
      (live : L → ℕ → Bool) (initialize : ℕ → ℕ → M L (Unit {0})) (dyn_alloc_end : L → ℕ)
      (h : KHeap L)
      → h.bulks ≡ []
      → h.bulks_allocated ≡ []
      → Yields
          (λ r. dyn_alloc_end r.1 ≡ kernel_heap_start + dyn_alloc_max_size)
          (initialize kernel_heap_start (kernel_heap_start + dyn_alloc_max_size) h.low)
      → Yields (λ r. IsTiled live r.1) (kheap_init initialize dyn_alloc_end h)
  unfolding kheap_init
  kheap_init-IsTiled live initialize dyn_alloc_end h e f ok =
      bind_lift _ (record h { locked = false }) ok
        λ u l at. yields _ (record {
          tiled = λ a. rw (e, f) (empty a (add32 (dyn_alloc_end l) page_size));
          free_fits = rw e tt;
          used_fits = rw f tt;
          sorted = rw e tt;
          once = λ p. rw (e, f) (omega arith);
          nodes_live = λ p pos. absurd (no (rw (e, f) at pos));
          start_pos = omega (arith, at);
          start_le = omega arith;
          break_le = omega (arith, at);
        })
    where
      empty : (a s : ℕ) → 0 + 0 ≡ inside a s (s - s)
      empty a s = ground arith

      no : 0 < 0 + 0 → ⊥
      no l = omega arith
