-- ===== src/KHeap/Kfree.antt =====
-- kern/mem/kheap.c: kfree gives back an allocated region and keeps the heap tiled.
use fos_educational_os_proje.Base.{
  ℕ, zero, suc, ◌/◌, length, ◌||◌, ◌+◌, ◌≤◌, ◌<◌, ◌≡◌, refl, sym, ◌∙◌, inl, inr, Bool, true, false,
  List, ◌==◌, ltb, leb, if◌then◌else◌, arith, ==_iff, false≢true, Yields, yields, Option-cases,
}
use fos_educational_os_proje.Base.Monad.{M, pure, bind_lem, mono}
use fos_educational_os_proje.KHeap.{
  Bulk, KHeap, Below, null, kernel_heap_max, remove_bulk, bulk_end, find_bulk, page_size,
  kernel_heap_start, dyn_alloc_max_size,
}
use fos_educational_os_proje.KHeap.Alloc.{bind_lift, acquire_kheap_lock, release_kheap_lock}
use fos_educational_os_proje.KHeap.Free.{
  lower_once, lower_break, lower_break_all, free_region, free_pages, kfree,
}
use fos_educational_os_proje.KHeap.Cover.{
  inside, cover, nodes_at, weigh-In, find-In, find-none, In, All-In, weigh-remove,
}
use fos_educational_os_proje.KHeap.Inv.{Fits, IsTiled, Reliable, locked-IsTiled, unmap_pages_ok}
use fos_educational_os_proje.KHeap.Returned.{Returned, merge_bulks_ok}
use fos_educational_os_proje.KHeap.Gap.{IsGap-removed}
use fos_educational_os_proje.KHeap.Lower.{length-remove, lowered}

stands : (n w u : ℕ) → (if n == n then 1 else 0) ≤ w → 0 < w + u
stands n w u le = ground arith

stands_last : (n u w : ℕ) → (if n == n then 1 else 0) ≤ w → 0 < u + w
stands_last n u w le = ground arith

module _ {L : Type 0} (live : L → ℕ → Bool) where
  -- A freed region: the heap is tiled, and the region is allocated no more.
  abbrev pub Returns : ℕ → KHeap L → Unit {0} × KHeap L → Type 0
  Returns va h (u, r) =
      IsTiled live r
      × (c : Bulk) × In c h.bulks_allocated
      × (c.start ≡ va)
      × ((a : ℕ) → cover a r.bulks_allocated + inside a va c.size ≡ cover a h.bulks_allocated)

module _ {L : Type 0} (live : L → ℕ → Bool) {Ready : ℕ → L → Type 0} {B : Below L}
    (sure : Reliable live Ready B) where
  -- Whether one more round may find a bulk, and then the list is shorter.
  lower_once_ok :
      (h : KHeap L)
      → IsTiled live h
      → Ready 0 h.low
      → Yields
          (λ r.
            Returned live h (tt, r.1)
            × Ready 0 r.1.low
            × (r.0 ≡ true → length r.1.bulks < length h.bulks))
          (lower_once B h)
  unfolding lower_once
  lower_once_ok h inv ready =
      elim (Option-cases (find_bulk (λ c. bulk_end c == h.alloc_break) h.bulks)) [
        | inl e ↦
            rw (e, lower_once) (yields _ ((inv, refl, refl), ready, λ t. absurd (false≢true t)))
        | inr (b, e) ↦
            let (i, t) = find-In (λ c. bulk_end c == h.alloc_break) h.bulks e in
            let at = weigh-In (λ d. if d.node == b.node then 1 else 0) i in
            rw (e, lower_once)
              (bind_lift _ (record h { bulks = remove_bulk b h.bulks; alloc_break = b.start })
                (sure.free_ok 0 b.node h.low ready (inv.nodes_live b.node (stands b.node _ _ at)))
                λ u l freed. yields _ (
                  (
                    lowered live h b l inv i ((==_iff (bulk_end b) h.alloc_break).0 t) freed.0,
                    refl,
                    refl,
                  ),
                  freed.1,
                  λ _. length-remove i,
                ))
      ]

  lower_break_ok :
      (fuel : ℕ) (h : KHeap L)
      → length h.bulks < fuel
      → IsTiled live h
      → Ready 0 h.low
      → Yields (Returned live h) (lower_break B fuel h)
  unfolding lower_break
  lower_break_ok zero h lt inv ready = absurd (omega arith)
  lower_break_ok (suc fuel) h lt inv ready =
      bind_lem (lower_once_ok h inv ready)
        λ again s ((i, a, k), on, more). next (λ s. lower_break_ok fuel s) again s i on a k more
    where
      next :
          ((s : KHeap L)
            → length s.bulks < fuel
            → IsTiled live s
            → Ready 0 s.low
            → Yields (Returned live s) (lower_break B fuel s))
          → (again : Bool) (s : KHeap L) → IsTiled live s
          → Ready 0 s.low
          → s.bulks_allocated ≡ h.bulks_allocated
          → s.locked ≡ h.locked
          → (again ≡ true → length s.bulks < length h.bulks)
          → Yields (Returned live h) (
              (elim again as (λ _. M (KHeap L) (Unit {0})) [
                | true ↦ lower_break B fuel
                | false ↦ pure tt
              ])
                s)
      next loop true s i on a k more =
          mono (loop s (omega (arith, more refl)) i on) λ r q. (q.0, q.1 ∙ a, q.2 ∙ k)
      next loop false s i on a k more = yields _ (i, a, k)

  free_region_ok :
      (h : KHeap L) (b : Bulk)
      → IsTiled live h
      → In b h.bulks_allocated
      → Ready 1 h.low
      → Yields
          (λ r.
            IsTiled live r.1
            × (r.1.bulks_allocated ≡ remove_bulk b h.bulks_allocated)
            × (r.1.locked ≡ h.locked))
          (free_region B b h)
  unfolding free_region lower_break_all
  free_region_ok h b inv i ready =
      bind_lift _ h
        (unmap_pages_ok live sure 1 (b.size / page_size + 2) b.start (bulk_end b) h.low
          (omega (arith, fits, inv.break_le)) (omega arith) (omega (arith, fits, inv.break_le))
          ready)
        λ u l (k, on).
          bind_lift _ (record h { bulks_allocated = remove_bulk b h.bulks_allocated; low = l })
            (sure.free_ok 1 b.node l on (
              k b.node (
                inv.nodes_live b.node (
                  stands_last b.node (nodes_at b.node h.bulks) _
                    (weigh-In (λ d. if d.node == b.node then 1 else 0) i)))))
            λ u l' (freed, room).
              bind_lem
                (merge_bulks_ok live b.start b.size sure _
                  (IsGap-removed live h b l' inv i (λ q ne a. freed q ne (k q a))) room)
                λ u s ((tiled, used, lock), left).
                  mono (lower_break_ok (length s.bulks + 1) s (omega arith) tiled left)
                    λ r q. (q.0, q.1 ∙ used, q.2 ∙ lock)
    where
      fits : Fits live h.alloc_start h.alloc_break b
      fits = All-In (Fits live h.alloc_start h.alloc_break) i inv.used_fits

  covered :
      (h : KHeap L) (c : Bulk) (a va : ℕ) (used : List Bulk)
      → IsTiled live h
      → In c h.bulks_allocated
      → used ≡ remove_bulk c h.bulks_allocated
      → c.start ≡ va
      → cover a used + inside a va c.size ≡ cover a h.bulks_allocated
  covered h c a va used inv j e at =
      rw (e, ← at)
        (omega
          (arith, weigh-remove (λ d. inside a d.start d.size) j (omega (arith, inv.once c.node))))

  free_pages_ok :
      (va : ℕ) (h : KHeap L) (b : Bulk)
      → IsTiled live h
      → In b h.bulks_allocated
      → b.start ≡ va
      → Ready 1 h.low
      → Yields (λ r. Returns live va h r × (r.1.locked ≡ h.locked)) (free_pages B va h)
  unfolding free_pages
  free_pages_ok va h b inv i e ready =
      elim (Option-cases (find_bulk (λ c. c.start == va) h.bulks_allocated)) [
        | inl n ↦ absurd (
            false≢true (
              sym (
                All-In (λ c. (c.start == va) ≡ false) i
                  (find-none (λ c. c.start == va) h.bulks_allocated n))
              ∙ (==_iff b.start va).1 e))
        | inr (c, f) ↦
            let (j, t) = find-In (λ c. c.start == va) h.bulks_allocated f in
            let at : c.start ≡ va = (==_iff c.start va).0 t in
            rw (f, free_pages)
              (mono (free_region_ok h c inv j ready) λ r (tiled, used, lock).
                ((tiled, c, j, at, λ a. covered h c a va r.1.bulks_allocated inv j used at), lock))
      ]

  -- kfree of the start of an allocated region, on a tiled heap whose lock is free and whose pages
  -- start behind the blocks, where what lies below can serve one more block: it returns with the lock free and the heap tiled, and some allocated region that
  -- starts there is allocated no more, while the other allocated regions are as before.
  pub kfree-Returns :
      (va : ℕ) (h : KHeap L) (b : Bulk)
      → IsTiled live h
      → h.locked ≡ false
      → kernel_heap_start + dyn_alloc_max_size ≤ h.alloc_start
      → In b h.bulks_allocated
      → b.start ≡ va
      → Ready 1 h.low
      → Yields (λ r. Returns live va h r × (r.1.locked ≡ false)) (kfree B va h)
  unfolding kfree acquire_kheap_lock release_kheap_lock
  kfree-Returns va h b inv free low i e ready = rw free (
      rw (null_no, start_no, block_no, pages_yes)
        (bind_lem
          (free_pages_ok va (record h { locked = true }) b (locked-IsTiled live h true inv) i e
            ready)
          λ u s (q, lock).
            rw lock (yields _ ((locked-IsTiled live s false q.0, q.1, q.2, q.3, q.4), refl))))
    where
      fits : Fits live h.alloc_start h.alloc_break b
      fits = All-In (Fits live h.alloc_start h.alloc_break) i inv.used_fits

      null_no : (va == null) ≡ false
      null_no = ground (arith, e, fits, low)

      start_no : (ltb va kernel_heap_start || leb kernel_heap_max va) ≡ false
      start_no = ground (arith, e, fits, low, inv.break_le)

      block_no : ltb va (kernel_heap_start + dyn_alloc_max_size) ≡ false
      block_no = ground (arith, e, fits, low)

      pages_yes : leb h.alloc_start va ≡ true
      pages_yes = ground (arith, e, fits)
