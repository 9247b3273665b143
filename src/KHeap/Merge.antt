-- ===== src/KHeap/Merge.antt =====
-- kern/mem/kheap.c: merge_bulks returns the region that is in no list to the free ones.
use fos_educational_os_proje.Base.{ℕ, ◌+◌, ◌≤◌, ◌≡◌, sym, ◌∙◌, ap, Bool, ◌==◌, if◌then◌else◌, arith}
use fos_educational_os_proje.KHeap.{
  Bulk, KHeap, kernel_heap_max, add32, insert_bulk_desc, remove_bulk, bulk_end,
}
use fos_educational_os_proje.KHeap.Cover.{
  inside, nodes_at, In, All-In, weigh-insert, weigh-remove, All-insert, All-remove, insert-Sorted,
  remove-Sorted,
}
use fos_educational_os_proje.KHeap.Inv.{Fits, IsTiled}
use fos_educational_os_proje.KHeap.Tiled.{Gave, fresh_once, fresh_live}
use fos_educational_os_proje.KHeap.Gap.{IsGap}

-- Two regions one after the other are one.
pub inside-join :
    (a s t k n : ℕ)
    → s + k ≡ t
    → t + n ≤ kernel_heap_max
    → inside a s (add32 k n) ≡ inside a s k + inside a t n
inside-join a s t k n e le = ground arith

pub ends_at : (s k t : ℕ) → add32 s k ≡ t → s + k ≤ kernel_heap_max → s + k ≡ t
ends_at s k t e le = omega arith

module _ {L : Type 0} (live : L → ℕ → Bool) (start size : ℕ) where
  -- The region goes to the end of the free one before it.
  pub merged_before :
      (h : KHeap L) (b : Bulk)
      → IsGap live start size h
      → In b h.bulks
      → bulk_end b ≡ start
      → IsTiled live (record h {
        bulks = insert_bulk_desc (record b { size = add32 b.size size }) (remove_bulk b h.bulks);
      })
  merged_before h b g i e = record {
    tiled = λ a. omega (
      arith,
      g.tiled a,
      weigh-insert (λ c. inside a c.start c.size) whole (remove_bulk b h.bulks),
      weigh-remove (λ c. inside a c.start c.size) i single,
      inside-join a b.start start b.size size touch (omega (arith, g.gap_fits, g.break_le)),
    );
    free_fits =
        All-insert (Fits live h.alloc_start h.alloc_break) whole (remove_bulk b h.bulks)
          (omega (arith, fits, g.gap_fits, g.break_le, touch))
          (All-remove (Fits live h.alloc_start h.alloc_break) b h.bulks g.free_fits);
    used_fits = g.used_fits;
    sorted = insert-Sorted whole (remove_bulk b h.bulks) (remove-Sorted b h.bulks g.sorted);
    once = λ p. omega (arith, g.once p, nodes p);
    nodes_live = λ p pos. g.nodes_live p (omega (arith, pos, nodes p));
    start_pos = g.start_pos;
    start_le = g.start_le;
    break_le = g.break_le;
  }
    where
      whole : Bulk
      whole = record b { size = add32 b.size size }

      single : nodes_at b.node h.bulks ≤ 1
      single = omega (arith, g.once b.node)

      fits : Fits live h.alloc_start h.alloc_break b
      fits = All-In (Fits live h.alloc_start h.alloc_break) i g.free_fits

      touch : b.start + b.size ≡ start
      touch = ends_at b.start b.size start e (omega (arith, fits, g.break_le))

      nodes :
          (p : ℕ) → nodes_at p (insert_bulk_desc whole (remove_bulk b h.bulks)) ≡ nodes_at p h.bulks
      nodes p = omega (
        arith,
        weigh-insert (λ c. if c.node == p then 1 else 0) whole (remove_bulk b h.bulks),
        weigh-remove (λ c. if c.node == p then 1 else 0) i single,
      )

  -- The region goes to the front of the free one behind it.
  pub merged_behind :
      (h : KHeap L) (b : Bulk)
      → IsGap live start size h
      → In b h.bulks
      → b.start ≡ add32 start size
      → IsTiled live (record h {
        bulks =
            insert_bulk_desc
              (record b { start = start; size = add32 b.size size })
              (remove_bulk b h.bulks);
      })
  merged_behind h b g i e = record {
    tiled = λ a. omega (
      arith,
      g.tiled a,
      weigh-insert (λ c. inside a c.start c.size) whole (remove_bulk b h.bulks),
      weigh-remove (λ c. inside a c.start c.size) i single,
      join a,
    );
    free_fits =
        All-insert (Fits live h.alloc_start h.alloc_break) whole (remove_bulk b h.bulks)
          (omega (arith, fits, g.gap_fits, g.break_le, touch))
          (All-remove (Fits live h.alloc_start h.alloc_break) b h.bulks g.free_fits);
    used_fits = g.used_fits;
    sorted = insert-Sorted whole (remove_bulk b h.bulks) (remove-Sorted b h.bulks g.sorted);
    once = λ p. omega (arith, g.once p, nodes p);
    nodes_live = λ p pos. g.nodes_live p (omega (arith, pos, nodes p));
    start_pos = g.start_pos;
    start_le = g.start_le;
    break_le = g.break_le;
  }
    where
      whole : Bulk
      whole = record b { start = start; size = add32 b.size size }

      single : nodes_at b.node h.bulks ≤ 1
      single = omega (arith, g.once b.node)

      fits : Fits live h.alloc_start h.alloc_break b
      fits = All-In (Fits live h.alloc_start h.alloc_break) i g.free_fits

      touch : start + size ≡ b.start
      touch = ends_at start size b.start (sym e) (omega (arith, g.gap_fits, g.break_le))

      swap : (k n : ℕ) → add32 k n ≡ add32 n k
      swap k n = omega arith

      join :
          (a : ℕ)
          → inside a start (add32 b.size size) ≡ inside a start size + inside a b.start b.size
      join a =
          ap (inside a start) (swap b.size size)
          ∙ inside-join a start b.start size b.size touch (omega (arith, fits, g.break_le))

      nodes :
          (p : ℕ) → nodes_at p (insert_bulk_desc whole (remove_bulk b h.bulks)) ≡ nodes_at p h.bulks
      nodes p = omega (
        arith,
        weigh-insert (λ c. if c.node == p then 1 else 0) whole (remove_bulk b h.bulks),
        weigh-remove (λ c. if c.node == p then 1 else 0) i single,
      )

  -- The region stands alone, with a new node.
  pub alone :
      (h : KHeap L) (n : ℕ) (l : L)
      → IsGap live start size h
      → Gave live n h.low l
      → IsTiled live (record h {
        bulks = insert_bulk_desc (record { node = n; start = start; size = size }) h.bulks;
        low = l;
      })
  alone h n l g gave = record {
    tiled =
        λ a. omega (arith, g.tiled a, weigh-insert (λ c. inside a c.start c.size) whole h.bulks);
    free_fits =
        All-insert (Fits live h.alloc_start h.alloc_break) whole h.bulks g.gap_fits g.free_fits;
    used_fits = g.used_fits;
    sorted = insert-Sorted whole h.bulks g.sorted;
    once = λ p.
        fresh_once n p (nodes_at p h.bulks + nodes_at p h.bulks_allocated) (new p) (live h.low)
          gave.0 (le p) (g.once p) (g.nodes_live p);
    nodes_live = λ p.
        fresh_live n p (nodes_at p h.bulks + nodes_at p h.bulks_allocated) (new p) (live h.low)
          (live l) gave.1 (le p) (g.nodes_live p) (gave.2 p);
    start_pos = g.start_pos;
    start_le = g.start_le;
    break_le = g.break_le;
  }
    where
      whole : Bulk
      whole = record { node = n; start = start; size = size }

      new : ℕ → ℕ
      new p = nodes_at p (insert_bulk_desc whole h.bulks) + nodes_at p h.bulks_allocated

      le :
          (p : ℕ)
          → new p ≤ (if n == p then 1 else 0) + (nodes_at p h.bulks + nodes_at p h.bulks_allocated)
      le p = omega (arith, weigh-insert (λ c. if c.node == p then 1 else 0) whole h.bulks)
