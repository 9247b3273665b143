-- ===== src/UHeap/Twice.antt =====
-- lib/uheap.c: free lowers the break and leaves the region in the list of free ones.
use fos_educational_os_proje.Base.{
  ℕ, ◌+◌, ◌≤◌, ◌<◌, ◌≡◌, ◌≢◌, refl, sym, subst, ◌∙◌, ap, false, ◌||◌, Option, none, some, [], ◌∷◌,
  ◌==◌, ltb, leb, update, update_self, update-ne, arith, Yields, yields, Bool-cases, inl, inr,
  ==_iff, ==-ne, false≢true,
}
use fos_educational_os_proje.Base.Monad.{M, pure, ◌>>=◌, ◌>>◌, and_then, bind_lem, mono}
use fos_educational_os_proje.KHeap.{
  Bulk, null, add32, sub32, insert_bulk_desc, remove_bulk, find_bulk, neighbours,
}
use fos_educational_os_proje.UHeap.{
  UHeap, Below, user_heap_start, user_heap_max, free_nodes_size, index_of, scan_break, lifted,
  set_size, merge_found, merge_bulks, worst_fit, give_region, extend_break, take_worst, take_exact,
  user_page_alloc_custom_fit, free_region, free,
}
use fos_educational_os_proje.UHeap.Scan.{scan_break-last}

module _ {L : Type 0} where
  bind_lift :
      {A C : Type 0} {P : A × L → Type 0} {Q : C × UHeap L → Type 0} {o : Option (A × L)}
      (f : A → M (UHeap L) C) (h : UHeap L)
      → Yields P o
      → ((a : A) (l : L) → Yields Q (f a (record h { low = l })))
      → Yields Q (and_then (lifted h o) f)
  bind_lift f h (yields r p) k = k r.0 r.1

  lift_lem :
      {A : Type 0} {P : A × L → Type 0} {Q : A × UHeap L → Type 0} {o : Option (A × L)}
      (h : UHeap L)
      → Yields P o
      → ((a : A) (l : L) → Q (a, record h { low = l }))
      → Yields Q (lifted h o)
  lift_lem h (yields r p) k = yields _ (k r.0 r.1)

  -- The calls of the kernel that mark and free user memory return.
  pub record Returns (B : Below L) : Type 0 where
    pub allocate_ok :
        (va size : ℕ) (l : L) → Yields (λ r. Unit {0}) (B.sys_allocate_user_mem va size l)
    pub free_ok : (va size : ℕ) (l : L) → Yields (λ r. Unit {0}) (B.sys_free_user_mem va size l)

  -- A heap with nothing allocated and nothing free, and room for `n` bytes.
  pub record IsFresh (n : ℕ) (h : UHeap L) : Type 0 where
    pub no_bulks : h.bulks ≡ []
    pub at_start : h.page_alloc_break ≡ h.page_alloc_start
    pub no_sizes : (i : ℕ) → h.allocation_sizes i ≡ 0
    pub nodes_left : h.free_nodes_index < free_nodes_size
    pub above : user_heap_start ≤ h.page_alloc_start
    pub room : h.page_alloc_start + n ≤ user_heap_max

  module _ {B : Below L} (sure : Returns B) where
    give_region_lem :
        (va size : ℕ) (h : UHeap L)
        → Yields
            (λ (a, g). (a ≡ va) × ((l : L) × (g ≡ set_size va size (record h { low = l }))))
            (give_region B va size h)
    unfolding give_region
    give_region_lem va size h =
        bind_lift _ h (sure.allocate_ok va size h.low) (λ u l. yields _ (refl, (l, refl)))

    -- An allocation with no free region.
    abbrev Extended : ℕ → UHeap L → ℕ × UHeap L → Type 0
    Extended n h (va, g) =
        (va ≡ h.page_alloc_break)
        × (g.bulks ≡ h.bulks)
        × (g.page_alloc_start ≡ h.page_alloc_start)
        × (g.free_nodes_index ≡ h.free_nodes_index)
        × (g.allocation_sizes ≡ update h.allocation_sizes (index_of h.page_alloc_break) n)

    extend_break_lem :
        (n : ℕ) (h : UHeap L)
        → h.page_alloc_start ≤ h.page_alloc_break
        → h.page_alloc_break + n ≤ user_heap_max
        → Yields (Extended n h) (extend_break B n h)
    unfolding extend_break
    extend_break_lem n h l m = rw (room h.page_alloc_start h.page_alloc_break l m) (
        bind_lem (give_region_lem h.page_alloc_break n h) (λ a g (q, (l, e)). yields _ (
          q,
          ap UHeap.bulks e,
          ap UHeap.page_alloc_start e,
          ap UHeap.free_nodes_index e,
          ap UHeap.allocation_sizes e,
        )))
      where
        room :
            (s b : ℕ)
            → s ≤ b
            → b + n ≤ user_heap_max
            → (ltb b s || ltb (sub32 user_heap_max b) n || ltb user_heap_max (add32 b n)) ≡ false
        room s b l m = ground arith

    alloc-empty :
        (n : ℕ) (h : UHeap L)
        → h.bulks ≡ []
        → h.page_alloc_start ≤ h.page_alloc_break
        → h.page_alloc_break + n ≤ user_heap_max
        → Yields (Extended n h) (user_page_alloc_custom_fit B n h)
    unfolding user_page_alloc_custom_fit take_exact take_worst find_bulk worst_fit
    alloc-empty n h e l m = rw (no_exact, no_worst) (extend_break_lem n h l m)
      where
        no_exact : find_bulk (λ c. c.size == n) h.bulks ≡ none
        no_exact = subst (λ k. find_bulk (λ c. c.size == n) k ≡ none) (sym e) refl

        no_worst : worst_fit n h.bulks ≡ none
        no_worst = subst (λ k. worst_fit n k ≡ none) (sym e) refl

    alloc-exact :
        (n : ℕ) (b : Bulk) (h : UHeap L)
        → h.bulks ≡ b ∷ []
        → b.size ≡ n
        → Yields
            (λ (va, g).
              (va ≡ b.start)
              × (g.bulks ≡ [])
              × (g.page_alloc_start ≡ h.page_alloc_start)
              × (g.page_alloc_break ≡ h.page_alloc_break))
            (user_page_alloc_custom_fit B n h)
    unfolding user_page_alloc_custom_fit take_exact find_bulk remove_bulk
    alloc-exact n b h e z = rw exact (
        mono (give_region_lem b.start n _) (λ r (q, (l, w)).
          (q, ap UHeap.bulks w ∙ alone, ap UHeap.page_alloc_start w, ap UHeap.page_alloc_break w)))
      where
        exact : find_bulk (λ c. c.size == n) h.bulks ≡ some b
        exact =
            subst (λ k. find_bulk (λ c. c.size == n) k ≡ some b) (sym e)
              (rw ((==_iff b.size n).1 z) refl)

        alone : remove_bulk b h.bulks ≡ []
        alone = subst (λ k. remove_bulk b k ≡ []) (sym e) (rw ((==_iff b.node b.node).1 refl) refl)

    merge-empty :
        (va n : ℕ) (h : UHeap L)
        → h.bulks ≡ []
        → h.free_nodes_index < free_nodes_size
        → merge_bulks va n h
          ≡ some (
            tt,
            record h {
              free_nodes_index = h.free_nodes_index + 1;
              bulks = record { node = h.free_nodes_index; start = va; size = n } ∷ [];
            },
          )
    unfolding merge_bulks merge_found neighbours insert_bulk_desc
    merge-empty va n h e l = rw (apart) (
        rw (room h.free_nodes_index l) (
          ap (λ k. some (tt, record h { free_nodes_index = h.free_nodes_index + 1; bulks = k }))
            first))
      where
        apart : neighbours va n none none h.bulks ≡ (none, none)
        apart = subst (λ k. neighbours va n none none k ≡ (none, none)) (sym e) refl

        first :
            insert_bulk_desc (record { node = h.free_nodes_index; start = va; size = n }) h.bulks
            ≡ record { node = h.free_nodes_index; start = va; size = n } ∷ []
        first =
            subst
              (λ k.
                insert_bulk_desc (record { node = h.free_nodes_index; start = va; size = n }) k
                ≡ record { node = h.free_nodes_index; start = va; size = n } ∷ [])
              (sym e) refl

        room : (i : ℕ) → i < free_nodes_size → leb free_nodes_size i ≡ false
        room i l = ground arith

    free_region_lem :
        (va n : ℕ) (h : UHeap L)
        → h.bulks ≡ []
        → h.free_nodes_index < free_nodes_size
        → ((i : ℕ) → update h.allocation_sizes (index_of va) 0 i ≡ 0)
        → Yields
            (λ r.
              (r.1.bulks ≡ record { node = h.free_nodes_index; start = va; size = n } ∷ [])
              × (r.1.page_alloc_start ≡ h.page_alloc_start)
              × (r.1.page_alloc_break ≡ h.page_alloc_start))
            (free_region B va n h)
    unfolding free_region
    free_region_lem va n h e l zeros =
        rw (merge-empty va n (set_size va 0 h) e l)
          (lift_lem after (sure.free_ok va n h.low) (λ u k. (refl, refl, lowered)))
      where
        after : UHeap L
        after = record h {
          allocation_sizes = update h.allocation_sizes (index_of va) 0;
          free_nodes_index = h.free_nodes_index + 1;
          bulks = record { node = h.free_nodes_index; start = va; size = n } ∷ [];
          page_alloc_break =
              scan_break (index_of h.page_alloc_break) (update h.allocation_sizes (index_of va) 0)
                h.page_alloc_start;
        }

        lowered :
            scan_break
              (index_of h.page_alloc_break)
              (update h.allocation_sizes (index_of va) 0)
              h.page_alloc_start
            ≡ h.page_alloc_start
        lowered =
            elim (scan_break-last (index_of h.page_alloc_break)
              (update h.allocation_sizes (index_of va) 0) h.page_alloc_start) [
                | inl (unused, q) ↦ q
                | inr (i, b, ne, unused, q) ↦ absurd (ne (zeros i))
              ]

    free-Extended :
        (n va : ℕ) (h g : UHeap L)
        → 0 < n
        → IsFresh n h
        → Extended n h (va, g)
        → Yields
            (λ r.
              (r.1.bulks ≡ record { node = g.free_nodes_index; start = va; size = n } ∷ [])
              × (r.1.page_alloc_start ≡ h.page_alloc_start)
              × (r.1.page_alloc_break ≡ h.page_alloc_start))
            (free B va g)
    unfolding free
    free-Extended n va h g p fresh (q, bulks, start, nodes, sizes) =
        let there : va ≡ h.page_alloc_start = q ∙ fresh.at_start in
        let size : g.allocation_sizes (index_of va) ≡ n = kept (sym q) sizes in
        rw
          (
            inside va (omega (arith, fresh.above)) (omega (arith, fresh.room)),
            not_below va g.page_alloc_start (omega arith),
            size,
            ==-ne n 0 (λ z. omega arith),
          )
          (subst
            (λ k.
              Yields
                (λ r.
                  (r.1.bulks ≡ record { node = g.free_nodes_index; start = va; size = n } ∷ [])
                  × (r.1.page_alloc_start ≡ k)
                  × (r.1.page_alloc_break ≡ k))
                (free_region B va n g))
            start
            (free_region_lem va n g (bulks ∙ fresh.no_bulks) (omega (arith, fresh.nodes_left))
              (zeros (sym q) sizes fresh.no_sizes)))
      where
        kept :
            h.page_alloc_break ≡ va
            → g.allocation_sizes ≡ update h.allocation_sizes (index_of h.page_alloc_break) n
            → g.allocation_sizes (index_of va) ≡ n
        kept q w =
            subst (λ k. g.allocation_sizes (index_of k) ≡ n) q
              (ap (λ k. k (index_of h.page_alloc_break)) w
                ∙ update_self h.allocation_sizes (index_of h.page_alloc_break) n)

        zeros :
            h.page_alloc_break ≡ va
            → g.allocation_sizes ≡ update h.allocation_sizes (index_of h.page_alloc_break) n
            → ((i : ℕ) → h.allocation_sizes i ≡ 0)
            → (i : ℕ) → update g.allocation_sizes (index_of va) 0 i ≡ 0
        zeros q w z i = elim (Bool-cases (i == index_of va)) [
          | inl t ↦
              subst (λ k. update g.allocation_sizes (index_of va) 0 k ≡ 0)
                (sym ((==_iff i (index_of va)).0 t))
                (update_self g.allocation_sizes (index_of va) 0)
          | inr f ↦
              let ne : i ≢ index_of va = λ e. false≢true (sym f ∙ (==_iff i (index_of va)).1 e) in
              update-ne g.allocation_sizes (index_of va) 0 i ne
              ∙ ap (λ k. k i) w
              ∙ update-ne h.allocation_sizes (index_of h.page_alloc_break) n i
                  (λ e. ne (e ∙ ap index_of q))
              ∙ z i
        ]

        inside :
            (va : ℕ)
            → user_heap_start ≤ va
            → va < user_heap_max
            → ((va == null) || ltb va user_heap_start || leb user_heap_max va) ≡ false
        inside va l m = ground arith

        not_below : (va s : ℕ) → s ≤ va → ltb va s ≡ false
        not_below va s l = ground arith

-- `n` bytes taken and freed, then `n` bytes and `m` bytes taken.
unfoldable pub two_after_free : {L : Type 0} → Below L → ℕ → ℕ → M (UHeap L) (ℕ × ℕ)
two_after_free B n m = do
  va ← user_page_alloc_custom_fit B n
  free B va
  first ← user_page_alloc_custom_fit B n
  second ← user_page_alloc_custom_fit B m
  pure (first, second)

-- In a heap with nothing allocated and nothing free, whose break is at its start, with room for
-- `n` bytes and for `m` bytes, `n` not 0, and where the calls of the kernel return: after `n`
-- bytes are taken and freed, the next `n` bytes and the `m` bytes after them are both given out at
-- the start of the heap.
pub free-twice :
    (L : Type 0) (B : Below L) (n m : ℕ) (h : UHeap L)
    → Returns B
    → 0 < n
    → IsFresh n h
    → h.page_alloc_start + m ≤ user_heap_max
    → Yields
        (λ r. (r.0.0 ≡ h.page_alloc_start) × (r.0.1 ≡ h.page_alloc_start))
        (two_after_free B n m h)
unfolding two_after_free
free-twice L B n m h sure p fresh room =
    bind_lem
      (alloc-empty sure n h fresh.no_bulks (omega (arith, fresh.at_start))
        (omega (arith, fresh.at_start, fresh.room)))
      (λ va g x. bind_lem (free-Extended sure n va h g p fresh x) (λ u k (bulks, start, brk).
        bind_lem (alloc-exact sure n _ k bulks refl) (λ first j (q, none_left, start', brk').
          bind_lem (alloc-empty sure m j none_left (omega arith) (omega arith))
            (λ second i y. yields _ (q ∙ x.0 ∙ fresh.at_start, y.0 ∙ brk' ∙ brk)))))
