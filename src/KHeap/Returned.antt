-- ===== src/KHeap/Returned.antt =====
-- kern/mem/kheap.c: merge_bulks on all its ways keeps the heap tiled.
use fos_educational_os_proje.Base.{
  ℕ, ◌+◌, ◌≤◌, ◌<◌, ◌≡◌, refl, sym, ◌≢◌, Bool, Option, none, some, ◌==◌, if◌then◌else◌, arith,
  ==-ne, Yields, yields,
}
use mathlib.Core.Option.{none-ne-some}
use fos_educational_os_proje.KHeap.{
  Bulk, KHeap, Below, null, add32, insert_bulk_desc, remove_bulk, bulk_end, neighbours,
}
use fos_educational_os_proje.KHeap.Alloc.{bind_lift, lifted}
use fos_educational_os_proje.KHeap.Free.{merge_found, merge_bulks}
use fos_educational_os_proje.KHeap.Cover.{
  inside, nodes_at, weigh-In, In, All-In, weigh-insert, weigh-remove, All-insert, All-remove,
  insert-Sorted, remove-Sorted,
}
use fos_educational_os_proje.KHeap.Inv.{Fits, IsTiled, Reliable}
use fos_educational_os_proje.KHeap.Merge.{inside-join, ends_at, merged_before, merged_behind, alone}
use fos_educational_os_proje.KHeap.Gap.{
  IsGap, Freed, spared, Before, Behind, In-remove, neighbours_ok,
}

-- A call of what lies below that ends an operation.
pub lifted_ok :
    {L A : Type 0} {P : A × L → Type 0} {Q : A × KHeap L → Type 0} {o : Option (A × L)}
    (h : KHeap L)
    → Yields P o
    → ((a : A) (l : L) → P (a, l) → Q (a, record h { low = l }))
    → Yields Q (lifted h o)
lifted_ok h (yields r p) k = yields _ (k r.0 r.1 p)

module _ {L : Type 0} (live : L → ℕ → Bool) where
  -- The heap is tiled, the allocated regions are as before, and so is the lock.
  abbrev pub Returned : KHeap L → Unit {0} × KHeap L → Type 0
  Returned h (u, r) =
      IsTiled live r × (r.bulks_allocated ≡ h.bulks_allocated) × (r.locked ≡ h.locked)

module _ {L : Type 0} (live : L → ℕ → Bool) (start size : ℕ) where
  -- The region joins the free ones on both sides, and the node of the second becomes free.
  merged_both :
      (h : KHeap L) (b c : Bulk) (l : L)
      → IsGap live start size h
      → In b h.bulks
      → In c h.bulks
      → bulk_end b ≡ start
      → c.start ≡ add32 start size
      → Freed live c.node h.low l
      → IsTiled live (record h {
        bulks =
            insert_bulk_desc
              (record b { size = add32 b.size (add32 size c.size) })
              (remove_bulk c (remove_bulk b h.bulks));
        low = l;
      })
  merged_both h b c l g i j e f freed = record {
    tiled = λ a. omega (
      arith,
      g.tiled a,
      weigh-insert (λ c. inside a c.start c.size) whole (remove_bulk c (remove_bulk b h.bulks)),
      weigh-remove (λ c. inside a c.start c.size) i single,
      weigh-remove (λ c. inside a c.start c.size) rest single_rest,
      inside-join a b.start start b.size (add32 size c.size) touch
          (omega (arith, fits_c, next, g.break_le)),
      inside-join a start c.start size c.size next (omega (arith, fits_c, g.break_le)),
    );
    free_fits =
        All-insert (Fits live h.alloc_start h.alloc_break) whole
          (remove_bulk c (remove_bulk b h.bulks))
          (omega (arith, fits, fits_c, g.gap_fits, g.break_le, touch, next))
          (All-remove (Fits live h.alloc_start h.alloc_break) c (remove_bulk b h.bulks)
            (All-remove (Fits live h.alloc_start h.alloc_break) b h.bulks g.free_fits));
    used_fits = g.used_fits;
    sorted =
        insert-Sorted whole (remove_bulk c (remove_bulk b h.bulks))
          (remove-Sorted c (remove_bulk b h.bulks) (remove-Sorted b h.bulks g.sorted));
    once = λ p. omega (arith, g.once p, nodes p);
    nodes_live = λ p pos.
        spared live c.node p (nodes_at p h.bulks + nodes_at p h.bulks_allocated)
          (nodes_at p (insert_bulk_desc whole (remove_bulk c (remove_bulk b h.bulks)))
            + nodes_at p h.bulks_allocated)
          h.low l (omega (arith, nodes p)) (g.once p) (g.nodes_live p) freed pos;
    start_pos = g.start_pos;
    start_le = g.start_le;
    break_le = g.break_le;
  }
    where
      whole : Bulk
      whole = record b { size = add32 b.size (add32 size c.size) }

      single : nodes_at b.node h.bulks ≤ 1
      single = omega (arith, g.once b.node)

      fits : Fits live h.alloc_start h.alloc_break b
      fits = All-In (Fits live h.alloc_start h.alloc_break) i g.free_fits

      fits_c : Fits live h.alloc_start h.alloc_break c
      fits_c = All-In (Fits live h.alloc_start h.alloc_break) j g.free_fits

      touch : b.start + b.size ≡ start
      touch = ends_at b.start b.size start e (omega (arith, fits, g.break_le))

      next : start + size ≡ c.start
      next = ends_at start size c.start (sym f) (omega (arith, g.gap_fits, g.break_le))

      apart : b.start ≢ c.start
      apart q = omega (arith, q, touch, next, fits, g.gap_fits)

      rest : In c (remove_bulk b h.bulks)
      rest = In-remove i j apart single

      single_rest : nodes_at c.node (remove_bulk b h.bulks) ≤ 1
      single_rest =
          omega
            (arith, g.once c.node, weigh-remove (λ d. if d.node == c.node then 1 else 0) i single)

      nodes :
          (p : ℕ)
          → (if c.node == p then 1 else 0)
              + nodes_at p (insert_bulk_desc whole (remove_bulk c (remove_bulk b h.bulks)))
            ≡ nodes_at p h.bulks
      nodes p = omega (
        arith,
        weigh-insert (λ c. if c.node == p then 1 else 0) whole
            (remove_bulk c (remove_bulk b h.bulks)),
        weigh-remove (λ c. if c.node == p then 1 else 0) i single,
        weigh-remove (λ c. if c.node == p then 1 else 0) rest single_rest,
      )

  stands : (n w u : ℕ) → (if n == n then 1 else 0) ≤ w → 0 < w + u
  stands n w u le = ground arith

  module _ {Ready : ℕ → L → Type 0} {B : Below L} (sure : Reliable live Ready B) where
    less : (h : KHeap L) → Ready 1 h.low → Ready 0 h.low
    less h = sure.fewer 0 1 h.low (omega arith)

    merge_found_ok :
        (h : KHeap L) (x y : Option Bulk)
        → IsGap live start size h
        → Before start h.bulks x
        → Behind (add32 start size) h.bulks y
        → Ready 1 h.low
        → Yields (λ r. Returned live h r × Ready 0 r.1.low) (merge_found B start size (x, y) h)
    unfolding merge_found
    merge_found_ok h (some b) (some c) g f k room =
        let (i, e) = f b refl in
        let (j, q) = k c refl in
        lifted_ok
          (record h {
            bulks =
                insert_bulk_desc (record b { size = add32 b.size (add32 size c.size) })
                  (remove_bulk c (remove_bulk b h.bulks));
          })
          (sure.free_ok 1 c.node h.low room (
            g.nodes_live c.node
              (stands c.node _ _ (weigh-In (λ d. if d.node == c.node then 1 else 0) j))))
          λ u l freed. (
            (merged_both h b c l g i j e q freed.0, refl, refl),
            sure.fewer 0 1 l (omega arith) freed.1,
          )
    merge_found_ok h (some b) none g f k room =
        let (i, e) = f b refl in
        yields _ ((merged_before live start size h b g i e, refl, refl), less h room)
    merge_found_ok h none (some c) g f k room =
        let (j, q) = k c refl in
        yields _ ((merged_behind live start size h c g j q, refl, refl), less h room)
    merge_found_ok h none none g f k room = bind_lift _ h (sure.alloc_ok 0 h.low room) λ n l gave.
        rw (==-ne n null gave.0)
          (yields _ ((alone live start size h n l g (gave.1, gave.2, gave.3), refl, refl), gave.4))

    pub merge_bulks_ok :
        (h : KHeap L)
        → IsGap live start size h
        → Ready 1 h.low
        → Yields (λ r. Returned live h r × Ready 0 r.1.low) (merge_bulks B start size h)
    unfolding merge_bulks
    merge_bulks_ok h g room =
        let (f, k) =
          neighbours_ok start size h.bulks h.bulks none none (λ c i. i)
            (λ c e. absurd (none-ne-some c e)) (λ c e. absurd (none-ne-some c e)) in
        merge_found_ok h (neighbours start size none none h.bulks).0
          (neighbours start size none none h.bulks).1 g f k room
