-- ===== src/KHeap/Lower.antt =====
-- kern/mem/kheap.c: the lowering of the break, and kfree, keep the heap tiled.
use fos_educational_os_proje.Base.{
  ℕ, length, ◌+◌, ◌-◌, ◌≤◌, ◌<◌, ◌≡◌, refl, inl, inr, Bool, true, false, List, [], ◌∷◌, ◌==◌, leb,
  if◌then◌else◌, arith, Bool-cases, ==_iff,
}
use fos_educational_os_proje.KHeap.{Bulk, KHeap, remove_bulk, bulk_end}
use fos_educational_os_proje.KHeap.Cover.{
  inside, nodes_at, weigh-In, here, there, All, In, All-In, weigh-remove, All-remove, remove-Sorted,
}
use fos_educational_os_proje.KHeap.Inv.{Fits, IsTiled}
use fos_educational_os_proje.KHeap.Merge.{ends_at}
use fos_educational_os_proje.KHeap.Gap.{Freed, spared}

All-of : {P : Bulk → Type 0} (bs : List Bulk) → ((c : Bulk) → In c bs → P c) → All P bs
All-of [] f = tt
All-of (b ∷ bs) f = (f b here, All-of bs (λ c i. f c (there i)))

pub length-remove : {b : Bulk} {bs : List Bulk} → In b bs → length (remove_bulk b bs) < length bs
unfolding remove_bulk
length-remove {b} (here {bs}) = rw ((==_iff b.node b.node).1 refl) (omega arith)
length-remove {b} (there {c} {bs} i) = elim (Bool-cases (c.node == b.node)) [
  | inl t ↦ rw t (omega arith)
  | inr t ↦ rw t (omega (arith, length-remove i))
]

-- Regions that no address has in common lie one after the other.
below_top :
    (s k t n hi : ℕ)
    → 0 < k
    → s + k ≤ hi
    → t + n ≡ hi
    → ((a : ℕ) → inside a t n + inside a s k ≤ 1)
    → s + k ≤ t
below_top s k t n hi pos le top once = elim (Bool-cases (leb (s + k) t)) [
  | inl y ↦ ground arith
  | inr y ↦ absurd (elim (Bool-cases (leb s t)) [
    | inl z ↦ at_top s k t n hi pos le top y z (once t)
    | inr z ↦ at_start s k t n hi pos le top z (once s)
  ])
]
  where
    at_top :
        (s k t n hi : ℕ)
        → 0 < k
        → s + k ≤ hi
        → t + n ≡ hi
        → leb (s + k) t ≡ false
        → leb s t ≡ true
        → inside t t n + inside t s k ≤ 1
        → ⊥
    at_top s k t n hi pos le top y z o = ground arith

    at_start :
        (s k t n hi : ℕ)
        → 0 < k
        → s + k ≤ hi
        → t + n ≡ hi
        → leb s t ≡ false
        → inside s t n + inside s s k ≤ 1
        → ⊥
    at_start s k t n hi pos le top z o = ground arith

-- The region up to a lower break.
inside-shrink :
    (a lo s n hi : ℕ)
    → lo ≤ s
    → s + n ≡ hi
    → inside a lo (hi - lo) ≡ inside a lo (s - lo) + inside a s n
inside-shrink a lo s n hi le e = ground arith

module _ {L : Type 0} (live : L → ℕ → Bool) where
  pub lowered :
      (h : KHeap L) (b : Bulk) (l : L)
      → IsTiled live h
      → In b h.bulks
      → bulk_end b ≡ h.alloc_break
      → Freed live b.node h.low l
      → IsTiled live (record h { bulks = remove_bulk b h.bulks; alloc_break = b.start; low = l })
  lowered h b l inv i e freed = record {
    tiled = λ a. omega (
      arith,
      inv.tiled a,
      weigh-remove (λ c. inside a c.start c.size) i single,
      inside-shrink a h.alloc_start b.start b.size h.alloc_break fits.0 top,
    );
    free_fits = All-of (remove_bulk b h.bulks) (λ c j.
        fit c
          (All-In (Fits live h.alloc_start h.alloc_break) j
            (All-remove (Fits live h.alloc_start h.alloc_break) b h.bulks inv.free_fits))
          (λ a. omega (
            arith,
            inv.tiled a,
            weigh-remove (λ c. inside a c.start c.size) i single,
            weigh-In (λ c. inside a c.start c.size) j,
            one a h.alloc_start (h.alloc_break - h.alloc_start),
          )));
    used_fits = All-of h.bulks_allocated (λ c j.
        fit c (All-In (Fits live h.alloc_start h.alloc_break) j inv.used_fits) (λ a. omega (
          arith,
          inv.tiled a,
          weigh-remove (λ c. inside a c.start c.size) i single,
          weigh-In (λ c. inside a c.start c.size) j,
          one a h.alloc_start (h.alloc_break - h.alloc_start),
        )));
    sorted = remove-Sorted b h.bulks inv.sorted;
    once = λ p. omega (arith, inv.once p, gone p);
    nodes_live = λ p pos.
        spared live b.node p (nodes_at p h.bulks + nodes_at p h.bulks_allocated)
          (nodes_at p (remove_bulk b h.bulks) + nodes_at p h.bulks_allocated) h.low l
          (omega (arith, gone p)) (inv.once p) (inv.nodes_live p) freed pos;
    start_pos = inv.start_pos;
    start_le = fits.0;
    break_le = omega (arith, fits, inv.break_le);
  }
    where
      single : nodes_at b.node h.bulks ≤ 1
      single = omega (arith, inv.once b.node)

      fits : Fits live h.alloc_start h.alloc_break b
      fits = All-In (Fits live h.alloc_start h.alloc_break) i inv.free_fits

      top : b.start + b.size ≡ h.alloc_break
      top = ends_at b.start b.size h.alloc_break e (omega (arith, fits, inv.break_le))

      one : (a s n : ℕ) → inside a s n ≤ 1
      one a s n = ground arith

      fit :
          (c : Bulk)
          → Fits live h.alloc_start h.alloc_break c
          → ((a : ℕ) → inside a b.start b.size + inside a c.start c.size ≤ 1)
          → Fits live h.alloc_start b.start c
      fit c f o = (f.0, f.1, below_top c.start c.size b.start b.size h.alloc_break f.1 f.2 top o)

      gone :
          (p : ℕ)
          → (if b.node == p then 1 else 0) + nodes_at p (remove_bulk b h.bulks) ≡ nodes_at p h.bulks
      gone p = weigh-remove (λ c. if c.node == p then 1 else 0) i single
