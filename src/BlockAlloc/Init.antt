-- ===== src/BlockAlloc/Init.antt =====
-- lib/dynamic_allocator.c: initialize_dynamic_allocator sets up the invariant.
use fos_educational_os_proje.Base.{
  ℕ, zero, suc, ◌+◌, ◌*◌, ◌%◌, ◌^◌, ◌/◌, ◌≤◌, ◌<◌, ◌≡◌, refl, sym, ◌∙◌, Bool, true, false, List, [],
  ◌∷◌, ltb, leb, if◌then◌else◌, get_or, replicate, has, count_all, arith, Bool-cases, inl, inr,
  false≢true, Yields, yields,
}
use fos_educational_os_proje.BlockAlloc.{
  BlockAlloc, range_pages, page_size, page_of, pages_from, initialize_dynamic_allocator,
  dyn_alloc_max_size,
}
use fos_educational_os_proje.BlockAlloc.Runs.{free_in}
use fos_educational_os_proje.BlockAlloc.Inv.{
  given_out, PagesFree, IsBlockAlloc, is_block, has-is_block, block-split,
}

pages_above : (n i k : ℕ) → k < i → has k (pages_from n i) ≡ false
unfolding pages_from
pages_above zero i k lt = refl
pages_above (suc n) i k lt = ground (arith, pages_above n (i + 1) k)

pages_from-PagesFree :
    (bs : ℕ → ℕ) (a b n i : ℕ)
    → ((p : ℕ) → bs p ≡ 0)
    → a + (n + i) * page_size ≤ b
    → n + i ≤ dyn_alloc_max_size / page_size
    → PagesFree bs a b (pages_from n i)
unfolding pages_from
pages_from-PagesFree bs a b zero i z le top = tt
pages_from-PagesFree bs a b (suc n) i z le top = (
  z i,
  omega arith,
  omega arith,
  pages_above n (i + 1) i (omega arith),
  pages_from-PagesFree bs a b n (i + 1) z (omega arith) (omega arith),
)

no_element : (n i x : ℕ) → has x (get_or (replicate n []) i []) ≡ false
no_element zero i x = refl
no_element (suc n) zero x = refl
no_element (suc n) (suc i) x = no_element n i x

free_in-zero :
    (qs : List (List ℕ)) (xs : List ℕ) → ((x : ℕ) → count_all x qs ≡ 0) → free_in qs xs ≡ 0
free_in-zero qs [] z = refl
free_in-zero qs (x ∷ xs) z = omega (arith, z x, free_in-zero qs xs z)

either : (b : Bool) (k : ℕ) → k ≡ 0 → (if b then 0 else k) ≡ 0
either true k z = refl
either false k z = z

module _ {L : Type 0} where
  none_given : (s : BlockAlloc L) → ((p : ℕ) → s.block_size p ≡ 0) → (x : ℕ) → given_out s x ≡ false
  none_given s z x = elim (Bool-cases (is_block s x)) [
    | inl t ↦
        absurd (omega (arith, block-split s (page_of s x) x (has-is_block s x t), z (page_of s x)))
    | inr f ↦ rw f refl
  ]

  abbrev pub initial : (da_start da_end : ℕ) → BlockAlloc L → BlockAlloc L
  initial da_start da_end d = record d {
    start = da_start;
    stop = da_end;
    free_block_lists = replicate 9 [];
    free_pages_list = pages_from (range_pages da_start da_end) 0;
    block_size = λ p. if ltb p (range_pages da_start da_end) then 0 else d.block_size p;
    num_of_free_blocks =
        λ p. if ltb p (range_pages da_start da_end) then 0 else d.num_of_free_blocks p;
  }

  pub initial-IsBlockAlloc :
      (da_start da_end : ℕ) (d : BlockAlloc L)
      → 0 < da_start
      → da_end ≤ da_start + dyn_alloc_max_size
      → da_start + dyn_alloc_max_size < 2 ^ 32
      → da_start ≤ da_end
      → ((p : ℕ) → d.block_size p ≡ 0)
      → ((p : ℕ) → d.num_of_free_blocks p ≡ 0)
      → IsBlockAlloc (initial da_start da_end d)
  initial-IsBlockAlloc da_start da_end d pos top low le zs ns = record {
    nine = refl;
    sized = λ p. inl (sizes p);
    in_range = λ p q. absurd (omega (arith, sizes p));
    member = λ i x h. absurd (false≢true (sym (no_element 9 i x) ∙ h));
    once = λ x. omega arith;
    counted = λ p.
        either (ltb p n) (d.num_of_free_blocks p) (ns p)
        ∙ sym (free_in-zero (replicate 9 []) _ (λ x. omega arith));
    pages =
        pages_from-PagesFree (initial da_start da_end d).block_size da_start da_end n 0 sizes
          (omega arith) (omega arith);
    start_pos = pos;
  }
    where
      n : ℕ
      n = range_pages da_start da_end

      sizes : (p : ℕ) → (initial da_start da_end d).block_size p ≡ 0
      sizes p = either (ltb p n) (d.block_size p) (zs p)

  -- initialize_dynamic_allocator of a range that does not start at 0, does not end before its
  -- start, is not larger than 32 MB and starts more than 32 MB below the end of the address space
  -- (where the sum in its assertion would wrap around), with the information on all pages zero before: it returns,
  -- the invariant of the block allocator holds, and no block is given out.
  pub initialize-IsBlockAlloc :
      (da_start da_end : ℕ) (d : BlockAlloc L)
      → 0 < da_start
      → da_end ≤ da_start + dyn_alloc_max_size
      → da_start + dyn_alloc_max_size < 2 ^ 32
      → da_start ≤ da_end
      → ((p : ℕ) → d.block_size p ≡ 0)
      → ((p : ℕ) → d.num_of_free_blocks p ≡ 0)
      → Yields
          (λ r. IsBlockAlloc r.1 × ((x : ℕ) → given_out r.1 x ≡ false))
          (initialize_dynamic_allocator da_start da_end d)
  unfolding initialize_dynamic_allocator
  initialize-IsBlockAlloc da_start da_end d pos top low le zs ns =
      rw (fits da_end ((da_start + dyn_alloc_max_size) % 2 ^ 32) (omega arith)) (
        yields (tt, initial da_start da_end d)
          (
            initial-IsBlockAlloc da_start da_end d pos top low le zs ns,
            none_given (initial da_start da_end d)
                (λ p. either (ltb p (range_pages da_start da_end)) (d.block_size p) (zs p)),
          ))
    where
      fits : (a b : ℕ) → a ≤ b → leb a b ≡ true
      fits a b le = ground arith
