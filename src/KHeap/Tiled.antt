-- ===== src/KHeap/Tiled.antt =====
-- kern/mem/kheap.c: the heap stays tiled where a free region, a part of one, or the break moves to
-- the allocated regions.
use fos_educational_os_proje.Base.{
  ℕ, zero, suc, ◌+◌, ◌≤◌, ◌<◌, ◌≡◌, refl, subst, inl, inr, Bool, true, false, ◌∷◌, ◌==◌,
  if◌then◌else◌, arith, Bool-cases, ==_iff,
}
use fos_educational_os_proje.KHeap.{
  Bulk, KHeap, kernel_heap_max, add32, sub32, insert_bulk_desc, remove_bulk,
}
use fos_educational_os_proje.KHeap.Cover.{
  inside, cover, nodes_at, In, All-In, All-map, weigh-insert, weigh-remove, All-insert, All-remove,
  insert-Sorted, remove-Sorted, inside-split, inside-grow,
}
use fos_educational_os_proje.KHeap.Inv.{Keeps, Fits, IsTiled}

-- One more node where a block was not in use leaves each node serving one bulk.
pub fresh_once :
    (n p c c' : ℕ) (used : ℕ → Bool)
    → used n ≡ false
    → c' ≤ (if n == p then 1 else 0) + c
    → c ≤ 1
    → (0 < c → used p ≡ true)
    → c' ≤ 1
fresh_once n p c c' used out le one lives = elim (Bool-cases (n == p)) [
  | inl t ↦
      let e : n ≡ p = (==_iff n p).0 t in
      let zero_c : c ≡ 0 = not_pos c (λ pos. ground (arith, lives pos)) in ground arith
  | inr t ↦ ground arith
]
  where
    not_pos : (c : ℕ) → (0 < c → ⊥) → c ≡ 0
    not_pos zero h = refl
    not_pos (suc c) h = absurd (h (omega arith))

pub fresh_live :
    (n p c c' : ℕ) (old new : ℕ → Bool)
    → new n ≡ true
    → c' ≤ (if n == p then 1 else 0) + c
    → (0 < c → old p ≡ true)
    → (old p ≡ true → new p ≡ true)
    → 0 < c'
    → new p ≡ true
fresh_live n p c c' old new got le lives keep pos = elim (Bool-cases (n == p)) [
  | inl t ↦ subst (λ q. new q ≡ true) ((==_iff n p).0 t) got
  | inr t ↦ keep (lives (ground arith))
]

module _ {L : Type 0} (live : L → ℕ → Bool) where
  -- What the block allocator did when it gave out the node `n`.
  abbrev pub Gave : ℕ → L → L → Type 0
  Gave n l l' = (live l n ≡ false) × (live l' n ≡ true) × Keeps live l l'

  -- A free bulk of the size that is needed becomes an allocated one.
  pub IsTiled-exact :
      (h : KHeap L) (b : Bulk) (needed n : ℕ) (l' : L)
      → IsTiled live h
      → In b h.bulks
      → b.size ≡ needed
      → Gave n h.low l'
      → IsTiled live (record h {
        bulks = remove_bulk b h.bulks;
        bulks_allocated = record { node = n; start = b.start; size = needed } ∷ h.bulks_allocated;
        low = l';
      })
  IsTiled-exact h b needed n l' inv i e gave = record {
    tiled = λ a.
        let w : inside a b.start needed + cover a (remove_bulk b h.bulks) ≡ cover a h.bulks =
          rw (← e) (weigh-remove (λ c. inside a c.start c.size) i (single b.node)) in
        omega (arith, inv.tiled a);
    free_fits = All-remove (Fits live h.alloc_start h.alloc_break) b h.bulks inv.free_fits;
    used_fits =
        (rw (← e) (All-In (Fits live h.alloc_start h.alloc_break) i inv.free_fits), inv.used_fits);
    sorted = remove-Sorted b h.bulks inv.sorted;
    once = λ p.
        fresh_once n p (old p) (new p) (live h.low) gave.0 (le p) (inv.once p) (inv.nodes_live p);
    nodes_live = λ p.
        fresh_live n p (old p) (new p) (live h.low) (live l') gave.1 (le p) (inv.nodes_live p)
          (gave.2 p);
    start_pos = inv.start_pos;
    start_le = inv.start_le;
    break_le = inv.break_le;
  }
    where
      single : (p : ℕ) → nodes_at p h.bulks ≤ 1
      single p = omega (arith, inv.once p)

      old : ℕ → ℕ
      old p = nodes_at p h.bulks + nodes_at p h.bulks_allocated

      new : ℕ → ℕ
      new p =
          nodes_at p (remove_bulk b h.bulks)
          + ((if n == p then 1 else 0) + nodes_at p h.bulks_allocated)

      le : (p : ℕ) → new p ≤ (if n == p then 1 else 0) + old p
      le p = omega (arith, weigh-remove (λ c. if c.node == p then 1 else 0) i (single b.node))

  -- The front of a larger free bulk becomes an allocated one, and the rest stays free.
  pub IsTiled-worst :
      (h : KHeap L) (b : Bulk) (needed n : ℕ) (l' : L)
      → IsTiled live h
      → In b h.bulks
      → 0 < needed
      → needed < b.size
      → Gave n h.low l'
      → IsTiled live (record h {
        bulks =
            insert_bulk_desc
              (record b { start = add32 b.start needed; size = sub32 b.size needed })
              (remove_bulk b h.bulks);
        bulks_allocated = record { node = n; start = b.start; size = needed } ∷ h.bulks_allocated;
        low = l';
      })
  IsTiled-worst h b needed n l' inv i pos lt gave = record {
    tiled = λ a. omega (
      arith,
      inv.tiled a,
      split a,
      weigh-insert (λ c. inside a c.start c.size) rest (remove_bulk b h.bulks),
      weigh-remove (λ c. inside a c.start c.size) i (single b.node),
    );
    free_fits =
        All-insert (Fits live h.alloc_start h.alloc_break) rest (remove_bulk b h.bulks)
          (omega (arith, inv.break_le, fits))
          (All-remove (Fits live h.alloc_start h.alloc_break) b h.bulks inv.free_fits);
    used_fits = (omega (arith, fits), inv.used_fits);
    sorted = insert-Sorted rest (remove_bulk b h.bulks) (remove-Sorted b h.bulks inv.sorted);
    once = λ p.
        fresh_once n p (old p) (new p) (live h.low) gave.0 (le p) (inv.once p) (inv.nodes_live p);
    nodes_live = λ p.
        fresh_live n p (old p) (new p) (live h.low) (live l') gave.1 (le p) (inv.nodes_live p)
          (gave.2 p);
    start_pos = inv.start_pos;
    start_le = inv.start_le;
    break_le = inv.break_le;
  }
    where
      single : (p : ℕ) → nodes_at p h.bulks ≤ 1
      single p = omega (arith, inv.once p)

      rest : Bulk
      rest = record b { start = add32 b.start needed; size = sub32 b.size needed }

      fits : Fits live h.alloc_start h.alloc_break b
      fits = All-In (Fits live h.alloc_start h.alloc_break) i inv.free_fits

      split :
          (a : ℕ)
          → inside a b.start b.size
            ≡ inside a b.start needed + inside a (add32 b.start needed) (sub32 b.size needed)
      split a = inside-split a b.start b.size needed lt (omega (arith, inv.break_le, fits))

      old : ℕ → ℕ
      old p = nodes_at p h.bulks + nodes_at p h.bulks_allocated

      new : ℕ → ℕ
      new p =
          nodes_at p (insert_bulk_desc rest (remove_bulk b h.bulks))
          + ((if n == p then 1 else 0) + nodes_at p h.bulks_allocated)

      le : (p : ℕ) → new p ≤ (if n == p then 1 else 0) + old p
      le p = omega (
        arith,
        weigh-insert (λ c. if c.node == p then 1 else 0) rest (remove_bulk b h.bulks),
        weigh-remove (λ c. if c.node == p then 1 else 0) i (single b.node),
      )

  -- The region behind the break becomes an allocated one.
  pub IsTiled-extend :
      (h : KHeap L) (needed n : ℕ) (l' : L)
      → IsTiled live h
      → 0 < needed
      → h.alloc_break + needed ≤ kernel_heap_max
      → Gave n h.low l'
      → IsTiled live (record h {
        bulks_allocated =
            record { node = n; start = h.alloc_break; size = needed } ∷ h.bulks_allocated;
        alloc_break = add32 h.alloc_break needed;
        low = l';
      })
  IsTiled-extend h needed n l' inv pos room gave = record {
    tiled = λ a.
        omega
          (arith, inv.tiled a, inside-grow a h.alloc_start h.alloc_break needed inv.start_le room);
    free_fits = All-map h.bulks (λ c f. grown c f) inv.free_fits;
    used_fits =
        (omega (arith, inv.start_le), All-map h.bulks_allocated (λ c f. grown c f) inv.used_fits);
    sorted = inv.sorted;
    once = λ p.
        fresh_once n p (old p) (new p) (live h.low) gave.0 (le p) (inv.once p) (inv.nodes_live p);
    nodes_live = λ p.
        fresh_live n p (old p) (new p) (live h.low) (live l') gave.1 (le p) (inv.nodes_live p)
          (gave.2 p);
    start_pos = inv.start_pos;
    start_le = omega (arith, inv.start_le);
    break_le = omega arith;
  }
    where
      grown :
          (c : Bulk)
          → Fits live h.alloc_start h.alloc_break c
          → Fits live h.alloc_start (add32 h.alloc_break needed) c
      grown c f = omega arith

      old : ℕ → ℕ
      old p = nodes_at p h.bulks + nodes_at p h.bulks_allocated

      new : ℕ → ℕ
      new p = nodes_at p h.bulks + ((if n == p then 1 else 0) + nodes_at p h.bulks_allocated)

      le : (p : ℕ) → new p ≤ (if n == p then 1 else 0) + old p
      le p = omega arith
