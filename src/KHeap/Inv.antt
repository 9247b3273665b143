-- ===== src/KHeap/Inv.antt =====
-- The invariant of the page allocator of kern/mem/kheap.c, and what it relies on below it.
use fos_educational_os_proje.Base.{
  ℕ, zero, suc, ◌+◌, ◌-◌, ◌*◌, ◌≤◌, ◌<◌, ◌≡◌, refl, ◌≢◌, Bool, true, false, Option, none, some,
  arith, Yields, yields, ltb, Bool-cases, inl, inr,
}
use fos_educational_os_proje.Base.Monad.{bind_lem, mono}
use fos_educational_os_proje.KHeap.{Bulk, Below, KHeap, kernel_heap_max, null, add32, page_size}
use fos_educational_os_proje.KHeap.Alloc.{
  bulk_size, map_allocated, map_page, map_pages, extend_pages,
}
use fos_educational_os_proje.KHeap.Free.{unmap_pages}
use fos_educational_os_proje.KHeap.Cover.{inside, cover, nodes_at, All, Sorted}

module _ {L : Type 0} (live : L → ℕ → Bool) where
  abbrev pub Keeps : L → L → Type 0
  Keeps l l' = (p : ℕ) → live l p ≡ true → live l' p ≡ true

  -- `Ready n l`: from the state `l` of what lies below, `n` more calls that take memory (alloc_block,
  -- allocate_frame and map_frame) find it. `live` says which blocks are given out. A state that is
  -- not ready, such as one whose memory is used up, need not serve any call.
  pub record Reliable (Ready : ℕ → L → Type 0) (B : Below L) : Type 0 where
    pub fewer : (m n : ℕ) (l : L) → m ≤ n → Ready n l → Ready m l
    pub alloc_ok :
        (n : ℕ) (l : L)
        → Ready (suc n) l
        → Yields
            (λ r.
              (r.0 ≢ null)
              × (live l r.0 ≡ false)
              × (live r.1 r.0 ≡ true)
              × Keeps l r.1
              × Ready n r.1)
            (B.alloc_block bulk_size l)
    pub free_ok :
        (n p : ℕ) (l : L)
        → Ready n l
        → live l p ≡ true
        → Yields
            (λ r. ((q : ℕ) → q ≢ p → live l q ≡ true → live r.1 q ≡ true) × Ready n r.1)
            (B.free_block p l)
    pub frame_ok :
        (n : ℕ) (l : L)
        → Ready (suc n) l
        → Yields (λ r. (r.0 ≢ none) × Keeps l r.1 × Ready n r.1) (B.allocate_frame l)
    pub map_ok :
        (n f va : ℕ) (l : L)
        → Ready (suc n) l
        → Yields (λ r. (r.0 ≡ true) × Keeps l r.1 × Ready n r.1) (B.map_frame f va l)
    pub unmap_ok :
        (n va : ℕ) (l : L)
        → Ready n l
        → Yields (λ r. Keeps l r.1 × Ready n r.1) (B.unmap_frame va l)

  -- A region that lies between the start and the break, and is not empty.
  abbrev pub Fits : ℕ → ℕ → Bulk → Type 0
  Fits lo hi b = (lo ≤ b.start) × (0 < b.size) × (b.start + b.size ≤ hi)

  pub record IsTiled (h : KHeap L) : Type 0 where
    -- each address up to the break lies in one region, free or allocated
    pub tiled :
        (a : ℕ)
        → cover a h.bulks + cover a h.bulks_allocated
          ≡ inside a h.alloc_start (h.alloc_break - h.alloc_start)
    pub free_fits : All (Fits h.alloc_start h.alloc_break) h.bulks
    pub used_fits : All (Fits h.alloc_start h.alloc_break) h.bulks_allocated
    pub sorted : Sorted h.bulks
    -- a node serves one bulk, and is a block in use
    pub once : (p : ℕ) → nodes_at p h.bulks + nodes_at p h.bulks_allocated ≤ 1
    pub nodes_live :
        (p : ℕ) → 0 < nodes_at p h.bulks + nodes_at p h.bulks_allocated → live h.low p ≡ true
    pub start_pos : 0 < h.alloc_start
    pub start_le : h.alloc_start ≤ h.alloc_break
    pub break_le : h.alloc_break ≤ kernel_heap_max

  -- The lock is not part of the invariant.
  pub locked-IsTiled : (h : KHeap L) (k : Bool) → IsTiled h → IsTiled (record h { locked = k })
  locked-IsTiled h k i = record {
    tiled = i.tiled;
    free_fits = i.free_fits;
    used_fits = i.used_fits;
    sorted = i.sorted;
    once = i.once;
    nodes_live = i.nodes_live;
    start_pos = i.start_pos;
    start_le = i.start_le;
    break_le = i.break_le;
  }

  module _ {Ready : ℕ → L → Type 0} {B : Below L} (sure : Reliable Ready B) where
    map_allocated_ok :
        (n : ℕ) (l l₁ : L) (fi : Option ℕ) (va : ℕ)
        → fi ≢ none
        → Keeps l l₁
        → Ready (suc n) l₁
        → Yields (λ r. (r.0 ≡ true) × Keeps l r.1 × Ready n r.1) (map_allocated B fi va l₁)
    unfolding map_allocated
    map_allocated_ok n l l₁ none va ne k room = absurd (ne refl)
    map_allocated_ok n l l₁ (some f) va ne k room =
        bind_lem (sure.map_ok n f va l₁ room)
          λ ok l₂ p. rw p.0 (yields _ (refl, (λ q h. p.1 q (k q h)), p.2))

    map_page_ok :
        (n va : ℕ) (l : L)
        → Ready (suc (suc n)) l
        → Yields (λ r. (r.0 ≡ true) × Keeps l r.1 × Ready n r.1) (map_page B va l)
    unfolding map_page
    map_page_ok n va l room =
        bind_lem (sure.frame_ok (suc n) l room) λ fi l₁ p. map_allocated_ok n l l₁ fi va p.0 p.1 p.2

    -- The loop ends within its rounds, and every page is mapped.
    pub map_pages_ok :
        (n fuel va end_va : ℕ) (l : L)
        → end_va ≤ va + (fuel - 1) * page_size
        → 0 < fuel
        → end_va ≤ kernel_heap_max
        → Ready (2 * fuel + n) l
        → Yields (λ r. (r.0 ≡ true) × Keeps l r.1 × Ready n r.1) (map_pages B fuel va end_va l)
    unfolding map_pages
    map_pages_ok n zero va end_va l near pos top room = absurd (omega arith)
    map_pages_ok n (suc fuel) va end_va l near pos top room = elim (Bool-cases (ltb va end_va)) [
      | inl t ↦
          rw (t, map_pages)
            (bind_lem (map_page_ok (2 * fuel + n) va l (sure.fewer _ _ l (omega arith) room))
              λ ok l₁ p. rw p.0 (
                mono
                  (map_pages_ok n fuel (add32 va page_size) end_va l₁ (ground arith) (ground arith)
                    top p.2)
                  λ r k. (k.0, (λ q h. k.1 q (p.1 q h)), k.2)))
      | inr t ↦ rw (t, map_pages) (yields _ (refl, (λ q h. h), sure.fewer _ _ l (omega arith) room))
    ]

    pub extend_pages_ok :
        (n fuel va i needed : ℕ) (l : L)
        → needed ≤ i + (fuel - 1) * page_size
        → 0 < fuel
        → Ready (2 * fuel + n) l
        → Yields (λ r. (r.0 ≡ true) × Keeps l r.1 × Ready n r.1) (extend_pages B fuel va i needed l)
    unfolding extend_pages
    extend_pages_ok n zero va i needed l near pos room = absurd (omega arith)
    extend_pages_ok n (suc fuel) va i needed l near pos room = elim (Bool-cases (ltb i needed)) [
      | inl t ↦
          rw (t, extend_pages)
            (bind_lem
              (map_page_ok (2 * fuel + n) (add32 va i) l (sure.fewer _ _ l (omega arith) room))
              λ ok l₁ p. rw p.0 (
                mono
                  (extend_pages_ok n fuel va (i + page_size) needed l₁ (ground arith) (ground arith)
                    p.2)
                  λ r k. (k.0, (λ q h. k.1 q (p.1 q h)), k.2)))
      | inr t ↦
          rw (t, extend_pages) (yields _ (refl, (λ q h. h), sure.fewer _ _ l (omega arith) room))
    ]

    pub unmap_pages_ok :
        (n fuel va end_va : ℕ) (l : L)
        → end_va ≤ va + (fuel - 1) * page_size
        → 0 < fuel
        → end_va ≤ kernel_heap_max
        → Ready n l
        → Yields (λ r. Keeps l r.1 × Ready n r.1) (unmap_pages B fuel va end_va l)
    unfolding unmap_pages
    unmap_pages_ok n zero va end_va l near pos top room = absurd (omega arith)
    unmap_pages_ok n (suc fuel) va end_va l near pos top room = elim (Bool-cases (ltb va end_va)) [
      | inl t ↦
          rw (t, unmap_pages)
            (bind_lem (sure.unmap_ok n va l room) λ u l₁ p.
              mono
                (unmap_pages_ok n fuel (add32 va page_size) end_va l₁ (ground arith) (ground arith)
                  top p.1)
                λ r k. ((λ q h. k.0 q (p.0 q h)), k.1))
      | inr t ↦ rw (t, unmap_pages) (yields _ ((λ q h. h), room))
    ]
