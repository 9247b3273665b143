-- ===== src/KHeap/Reserve.antt =====
-- kern/mem/kheap.c: page_alloc_custom_fit keeps the heap tiled, and gives out a region that no
-- allocated one overlaps.
use fos_educational_os_proje.Base.{
  ℕ, suc, ◌+◌, ◌*◌, ◌/◌, ◌^◌, ◌≤◌, ◌<◌, ◌≡◌, refl, sym, ◌∙◌, ◌≢◌, ◌⊎◌, inl, inr, Bool, true, false,
  Option, none, some, List, [], ◌∷◌, ◌||◌, arith, Yields, yields, ltb, Bool-cases, Option-cases,
  false≢true,
}
use fos_educational_os_proje.Base.Monad.{M, and_then}
use fos_educational_os_proje.KHeap.{
  Bulk, Below, KHeap, kernel_heap_max, null, add32, sub32, page_size, exact_fit,
}
use fos_educational_os_proje.KHeap.Alloc.{
  bind_lift, lifted, bulk_size, map_frame_range, record_allocated, take_exact, take_worst,
  extend_break, worst_or_extend, page_alloc_custom_fit,
}
use fos_educational_os_proje.KHeap.Cover.{
  inside, cover, All, In, here, All-In, exact_fit-In, no_fit,
}
use fos_educational_os_proje.KHeap.Inv.{
  Keeps, Reliable, Fits, IsTiled, map_pages_ok, extend_pages_ok,
}
use fos_educational_os_proje.KHeap.Tiled.{Gave, IsTiled-exact, IsTiled-worst, IsTiled-extend}

module _ {L : Type 0} (live : L → ℕ → Bool) where
  -- What page_alloc_custom_fit leaves: null and the heap as it was, where each free region is too
  -- small and the end of the heap too near; or else a heap in which the region
  -- from the address is allocated besides the earlier ones.
  abbrev pub Reserved : ℕ → KHeap L → ℕ × KHeap L → Type 0
  Reserved needed h (va, h') =
      IsTiled live h'
      × (((va ≡ null)
            × (h' ≡ h)
            × All (λ b. b.size < needed) h.bulks
            × (kernel_heap_max < h.alloc_break + needed))
          ⊎ ((va ≢ null)
              × ((a : ℕ)
                  → cover a h'.bulks_allocated ≡ inside a va needed + cover a h.bulks_allocated)))

  fresh : (l l₁ l₂ : L) (n : ℕ) → Keeps live l l₁ → Gave live n l₁ l₂ → Gave live n l l₂
  fresh l l₁ l₂ n k g = (unseen (live l n) refl, g.1, λ p h. g.2 p (k p h))
    where
      unseen : (b : Bool) → live l n ≡ b → live l n ≡ false
      unseen true e = absurd (false≢true (sym g.0 ∙ k n e))
      unseen false e = e

  module _ {Ready : ℕ → L → Type 0} {B : Below L} (sure : Reliable live Ready B) (m : ℕ) where
    -- The block allocator and the frame manager can serve a frame and its place for each page of
    -- the region, a node, and `m` calls more.
    abbrev pub Enough : ℕ → KHeap L → Type 0
    Enough needed h = Ready (2 * (needed / page_size + 2) + suc m) h.low

    -- The region is reserved, the break is at most as much further, the lock is as before, and `m`
    -- calls more can be served.
    abbrev pub Served : ℕ → KHeap L → ℕ × KHeap L → Type 0
    Served needed h r =
        Reserved needed h r
        × (r.1.locked ≡ h.locked)
        × (r.1.alloc_break ≤ h.alloc_break + needed)
        × Ready m r.1.low

    -- A new node in front of the allocated ones; what the rest of the code does with that heap.
    record_ok :
        {Q : ℕ × KHeap L → Type 0} (g : KHeap L) (va size : ℕ) (k : M (KHeap L) ℕ)
        → Ready (suc m) g.low
        → ((n : ℕ) (l' : L)
            → Gave live n g.low l'
            → Ready m l'
            → Yields Q (
                k (record g {
                  bulks_allocated =
                      record { node = n; start = va; size = size } ∷ g.bulks_allocated;
                  low = l';
                })))
        → Yields Q (and_then (record_allocated B va size g) (λ _. k))
    unfolding record_allocated
    record_ok {Q} g va size k room next =
        go (B.alloc_block bulk_size g.low) (sure.alloc_ok m g.low room)
      where
        go :
            (o : Option (ℕ × L))
            → Yields
                (λ r.
                  (r.0 ≢ null)
                  × (live g.low r.0 ≡ false)
                  × (live r.1 r.0 ≡ true)
                  × Keeps live g.low r.1
                  × Ready m r.1)
                o
            → Yields Q (
                and_then
                  (and_then (lifted g o) (λ n s. some (
                    tt,
                    record s {
                      bulks_allocated =
                          record { node = n; start = va; size = size } ∷ s.bulks_allocated;
                    },
                  )))
                  (λ _. k))
        go o (yields r p) = next r.0 r.1 (p.1, p.2, p.3) p.4

    mapped_ok :
        {Q : ℕ × KHeap L → Type 0} (h g : KHeap L) (b : Bulk) (needed : ℕ)
        (k : Bool → M (KHeap L) ℕ)
        → IsTiled live h
        → In b h.bulks
        → needed ≤ b.size
        → Ready (2 * (needed / page_size + 2) + suc m) g.low
        → ((l₁ : L)
            → Keeps live g.low l₁
            → Ready (suc m) l₁
            → Yields Q (k true (record g { low = l₁ })))
        → Yields Q (and_then (lifted g (map_frame_range B b.start needed g.low)) k)
    unfolding map_frame_range
    mapped_ok h g b needed k inv i le room next =
        let fits = All-In (Fits live h.alloc_start h.alloc_break) i inv.free_fits in
        bind_lift k g
          (map_pages_ok live sure (suc m) (needed / page_size + 2) b.start (add32 b.start needed)
            g.low (omega (arith, fits, inv.break_le)) (omega arith)
            (omega (arith, fits, inv.break_le)) room)
          λ ok l₁ p. rw p.0 (next l₁ p.1 p.2)

    take_exact_ok :
        (h : KHeap L) (b : Bulk) (needed : ℕ)
        → IsTiled live h
        → In b h.bulks
        → b.size ≡ needed
        → Enough needed h
        → Yields (Served needed h) (take_exact B needed b h)
    unfolding take_exact
    take_exact_ok h b needed inv i e room =
        let fits = All-In (Fits live h.alloc_start h.alloc_break) i inv.free_fits in
        mapped_ok h _ b needed _ inv i (omega arith) room λ l₁ k one.
          record_ok _ b.start needed _ one λ n l₂ gave left. yields _ (
            (
              IsTiled-exact live h b needed n l₂ inv i e (fresh h.low l₁ l₂ n k gave),
              inr (omega (arith, fits, inv.start_pos), λ a. refl),
            ),
            refl,
            omega arith,
            left,
          )

    take_worst_ok :
        (h : KHeap L) (b : Bulk) (needed : ℕ)
        → IsTiled live h
        → In b h.bulks
        → 0 < needed
        → needed < b.size
        → Enough needed h
        → Yields (Served needed h) (take_worst B needed b h)
    unfolding take_worst
    take_worst_ok h b needed inv i pos lt room =
        let fits = All-In (Fits live h.alloc_start h.alloc_break) i inv.free_fits in
        mapped_ok h _ b needed _ inv i (omega arith) room λ l₁ k one.
          record_ok _ b.start needed _ one λ n l₂ gave left. yields _ (
            (
              IsTiled-worst live h b needed n l₂ inv i pos lt (fresh h.low l₁ l₂ n k gave),
              inr (omega (arith, fits, inv.start_pos), λ a. refl),
            ),
            refl,
            omega arith,
            left,
          )

    extend_break_ok :
        (h : KHeap L) (needed : ℕ)
        → IsTiled live h
        → 0 < needed
        → needed < 2 ^ 32
        → All (λ b. b.size < needed) h.bulks
        → Enough needed h
        → Yields (Served needed h) (extend_break B needed h)
    unfolding extend_break
    extend_break_ok h needed inv pos top small room = elim (Bool-cases full) [
      | inl t ↦ rw t (
          yields _ (
            (inv, inl (refl, refl, small, ground (arith, inv.start_le, inv.break_le))),
            refl,
            omega arith,
            sure.fewer _ _ h.low (omega arith) room,
          ))
      | inr t ↦ rw t (
          bind_lift _ h
            (extend_pages_ok live sure (suc m) (needed / page_size + 2) h.alloc_break 0 needed h.low
              (omega arith) (omega arith) room)
            λ ok l₁ p. rw p.0 (
              record_ok (record h { low = l₁ }) h.alloc_break needed _ p.2
                λ n l₂ gave left. yields _ (
                  (
                    IsTiled-extend live h needed n l₂ inv pos (ground (arith, inv.break_le))
                        (fresh h.low l₁ l₂ n p.1 gave),
                    inr (omega (arith, inv.start_pos, inv.start_le), λ a. refl),
                  ),
                  refl,
                  ground (arith, inv.break_le),
                  left,
                )))
    ]
      where
        full : Bool
        full =
            ltb h.alloc_break h.alloc_start
            || (ltb (sub32 kernel_heap_max h.alloc_break) needed
                || ltb kernel_heap_max (add32 h.alloc_break needed))

    worst_or_extend_ok :
        (h : KHeap L) (needed : ℕ) (bs : List Bulk)
        → h.bulks ≡ bs
        → exact_fit needed bs ≡ none
        → IsTiled live h
        → 0 < needed
        → needed < 2 ^ 32
        → Enough needed h
        → Yields (Served needed h) (worst_or_extend B needed bs h)
    unfolding worst_or_extend
    worst_or_extend_ok h needed [] e absent inv pos top room =
        extend_break_ok h needed inv pos top (rw e tt) room
    worst_or_extend_ok h needed (b ∷ bs) e absent inv pos top room =
        elim (Bool-cases (ltb needed b.size)) [
          | inl t ↦ rw t (take_worst_ok h b needed inv (rw e here) pos (ground arith) room)
          | inr t ↦
              let small = no_fit needed b bs (rw e at inv.sorted) absent t in
              rw t (extend_break_ok h needed inv pos top (rw e small) room)
        ]

    -- On a tiled heap, where what lies below can serve two calls for each page of the size, four
    -- more for its rounding, one for a node and `m` others, page_alloc_custom_fit returns for each
    -- size of 32 bits but 0: null, with nothing changed, where each free region is too small and the
    -- end of the heap too near; or else an address such that the region of that size from it is
    -- allocated besides the earlier ones. The heap stays tiled, so no two regions overlap, its lock
    -- is as before, its break is at most the size further, and `m` calls can still be served.
    pub page_alloc-Reserved :
        (h : KHeap L) (needed : ℕ)
        → IsTiled live h
        → 0 < needed
        → needed < 2 ^ 32
        → Enough needed h
        → Yields (Served needed h) (page_alloc_custom_fit B needed h)
    unfolding page_alloc_custom_fit
    page_alloc-Reserved h needed inv pos top room = elim (Option-cases (exact_fit needed h.bulks)) [
      | inl t ↦
          rw (t, page_alloc_custom_fit)
            (worst_or_extend_ok h needed h.bulks refl t inv pos top room)
      | inr (b, t) ↦
          let f = exact_fit-In needed h.bulks t in
          rw (t, page_alloc_custom_fit) (take_exact_ok h b needed inv f.0 f.1 room)
    ]
