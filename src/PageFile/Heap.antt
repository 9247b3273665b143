-- ===== src/PageFile/Heap.antt =====
-- kern/disk/pagefile_manager.c over kern/mem/kheap.c: kmalloc of a page from a tiled kernel heap with room does what
-- the page file relies on.
use fos_educational_os_proje.Base.{
  ℕ, suc, ◌+◌, ◌-◌, ◌*◌, ◌≤◌, ◌≡◌, refl, ◌≢◌, ◌⊎◌, Bool, true, false, Option, none, some, ltb,
  ==-ne, ◌==◌, if◌then◌else◌, arith, inl, inr, Yields, yields,
}
use fos_educational_os_proje.Base.Monad.{M, bind_lem}
use fos_educational_os_proje.Base.Int.{ℤ, pos}
use fos_educational_os_proje.KHeap.{KHeap, Below, kernel_heap_max, null, page_size}
use fos_educational_os_proje.KHeap.Alloc.{acquire_kheap_lock, release_kheap_lock, kmalloc}
use fos_educational_os_proje.KHeap.Cover.{inside, cover}
use fos_educational_os_proje.KHeap.Inv.{Reliable, IsTiled, locked-IsTiled}
use fos_educational_os_proje.KHeap.Free.{kfree}
use fos_educational_os_proje.PageFile.{Below as PageFileBelow}
use fos_educational_os_proje.PageFile.Inv.{InFile, Reliable as PageFileReliable}
use fos_educational_os_proje.KHeap.Reserve.{Reserved, page_alloc-Reserved}

module _ {L : Type 0} (live : L → ℕ → Bool) (Ready : ℕ → L → Type 0) where
  -- An address that lies in an allocated region.
  abbrev in_use : KHeap L → ℕ → Bool
  in_use h p = ltb 0 (cover p h.bulks_allocated)

  -- The kernel heap can give `n` pages: it is tiled and its lock is free, there is room behind its
  -- break, and the block allocator and the frame manager can serve the seven calls of each page.
  abbrev HasPages : ℕ → KHeap L → Type 0
  HasPages n h =
      IsTiled live h
      × (h.locked ≡ false)
      × (h.alloc_break + n * page_size ≤ kernel_heap_max)
      × Ready (7 * n) h.low

  -- What the page file relies on of kmalloc.
  abbrev PageGiven : ℕ → KHeap L → ℕ × KHeap L → Type 0
  PageGiven n h r =
      (r.0 ≢ null)
      × (in_use h r.0 ≡ false)
      × (in_use r.1 r.0 ≡ true)
      × ((q : ℕ) → in_use h q ≡ true → in_use r.1 q ≡ true)
      × HasPages n r.1

  inside-start : (a : ℕ) → inside a a page_size ≡ 1
  inside-start a = ground arith

  inside-le : (a s n : ℕ) → inside a s n ≤ 1
  inside-le a s n = ground arith

  given :
      (n : ℕ) (h : KHeap L) (r : ℕ × KHeap L)
      → h.alloc_break + suc n * page_size ≤ kernel_heap_max
      → Reserved live page_size h r
      → (r.1.locked ≡ true)
      → r.1.alloc_break ≤ h.alloc_break + page_size
      → Ready (7 * n) r.1.low
      → PageGiven n h (r.0, record r.1 { locked = false })
  given n h r room (tiled, inl (z, same, small, full)) locked low ready = absurd (omega arith)
  given n h r room (tiled, inr (ne, more)) locked low ready = (
    ne,
    unused,
    used,
    (λ q u. kept q u),
    (locked-IsTiled live r.1 false tiled, refl, omega arith, ready),
  )
    where
      once : cover r.0 r.1.bulks_allocated ≤ 1
      once = omega (
        arith,
        tiled.tiled r.0,
        inside-le r.0 r.1.alloc_start (r.1.alloc_break - r.1.alloc_start),
      )

      unused : in_use h r.0 ≡ false
      unused = ground (arith, once, more r.0, inside-start r.0)

      used : in_use r.1 r.0 ≡ true
      used = ground (arith, more r.0, inside-start r.0)

      kept : (q : ℕ) → in_use h q ≡ true → in_use r.1 q ≡ true
      kept q u = ground (arith, more q)

  module _ {B : Below L} (sure : Reliable live Ready B) where
    -- kmalloc of a page, where the heap can give one more: it returns an address that was in no
    -- allocated region and is in one now, what was allocated still is, and the heap can give one
    -- page less than before.
    kmalloc-PageGiven :
        (n : ℕ) (h : KHeap L) → HasPages (suc n) h → Yields (PageGiven n h) (kmalloc B page_size h)
    unfolding kmalloc acquire_kheap_lock release_kheap_lock
    kmalloc-PageGiven n h (tiled, free, room, ready) = rw free (
        bind_lem
          (page_alloc-Reserved live sure (7 * n) (record h { locked = true }) page_size
            (locked-IsTiled live h true tiled) (omega arith) (omega arith)
            (sure.fewer _ _ h.low (omega arith) ready))
          λ p g (got, held, low, left).
            rw held (yields _ (given n (record h { locked = true }) (p, g) room got held low left)))

-- The driver of the disk, whose state is `S`: what it does on the sectors of the page file.
record Driver {D S : Type 0} (contents : S → ℕ → D) : Type 0 where
  ide_read : ℕ → M S (ℤ × D)
  ide_write : ℕ → D → M S ℤ
  read_ok :
      (x : ℕ) (s : S)
      → InFile x
      → Yields
          (λ r.
            (r.0.0 ≡ pos 0) × (r.0.1 ≡ contents s x) × ((y : ℕ) → contents r.1 y ≡ contents s y))
          (ide_read x s)
  write_ok :
      (x : ℕ) (d : D) (s : S)
      → InFile x
      → Yields
          (λ r.
            (r.0 ≡ pos 0)
            × (contents r.1 x ≡ d)
            × ((y : ℕ) → (y + 8 ≤ x) ⊎ (x + 8 ≤ y) → contents r.1 y ≡ contents s y))
          (ide_write x d s)

module _ {D S L : Type 0} (contents : S → ℕ → D) (driver : Driver contents) (B : Below L) where
  abbrev on_heap : {A C : Type 0} → (A → C) → S → Option (A × KHeap L) → Option (C × (KHeap L × S))
  on_heap f s none = none
  on_heap f s (some (a, h)) = some (f a, (h, s))

  abbrev on_disk : {A : Type 0} → KHeap L → Option (A × S) → Option (A × (KHeap L × S))
  on_disk h none = none
  on_disk h (some (a, s)) = some (a, (h, s))

  -- The page file above the kernel heap and the disk.
  abbrev above : PageFileBelow D (KHeap L × S)
  above = record {
    kmalloc = λ (h, s). on_heap (λ p. if p == null then none else some p) s (kmalloc B page_size h);
    kfree = λ p (h, s). on_heap (λ u. u) s (kfree B p h);
    ide_read = λ x (h, s). on_disk h (driver.ide_read x s);
    ide_write = λ x d (h, s). on_disk h (driver.ide_write x d s);
  }

  heap_yields :
      {A C : Type 0} {P : A × KHeap L → Type 0} {Q : C × (KHeap L × S) → Type 0} (f : A → C) (s : S)
      {o : Option (A × KHeap L)}
      → Yields P o
      → ((a : A) (h : KHeap L) → P (a, h) → Q (f a, (h, s)))
      → Yields Q (on_heap f s o)
  heap_yields f s (yields r p) k = yields _ (k r.0 r.1 p)

  disk_yields :
      {A : Type 0} {P : A × S → Type 0} {Q : A × (KHeap L × S) → Type 0} (h : KHeap L)
      {o : Option (A × S)}
      → Yields P o
      → ((a : A) (s : S) → P (a, s) → Q (a, (h, s)))
      → Yields Q (on_disk h o)
  disk_yields h (yields r p) k = yields _ (k r.0 r.1 p)

  -- Over the kernel heap of kern/mem/kheap.c, the page file has what it relies on, as long as the
  -- heap has pages to give.
  above-Reliable :
      (live : L → ℕ → Bool) (Ready : ℕ → L → Type 0)
      → Reliable live Ready B
      → PageFileReliable
          (λ l p. in_use live Ready l.0 p)
          (λ l x. contents l.1 x)
          (λ n l. HasPages live Ready n l.0)
          above
  above-Reliable live Ready sure = record {
    fewer = λ m n l le (tiled, free, room, ready).
        (tiled, free, omega arith, sure.fewer _ _ (l.0).low (omega arith) ready);
    kmalloc_ok = λ n l has.
        heap_yields _ l.1 (kmalloc-PageGiven live Ready sure n l.0 has)
          λ p h (ne, unused, used, kept, left).
            (p, rw (==-ne p null ne) refl, ne, unused, used, kept, (λ x. refl), left);
    write_ok = λ x d l inside.
        disk_yields l.0 (driver.write_ok x d l.1 inside)
          λ c s (ok, now, spared). (ok, now, spared, λ q u. u);
    read_ok = λ x l inside.
        disk_yields l.0 (driver.read_ok x l.1 inside)
          λ c s (ok, got, same). (ok, got, same, λ q u. u);
  }
