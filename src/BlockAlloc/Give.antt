-- ===== src/BlockAlloc/Give.antt =====
-- lib/dynamic_allocator.c: alloc_block on all its ways.
use fos_educational_os_proje.Base.{
  ℕ, zero, suc, ◌+◌, ◌-◌, ◌*◌, ◌/◌, ◌^◌, ◌≤◌, ◌<◌, ◌≡◌, refl, sym, subst, ◌∙◌, ap, ◌≢◌, Bool, true,
  false, ◌&&◌, ◌||◌, Option, none, some, List, [], ◌∷◌, ◌==◌, ltb, leb, if◌then◌else◌, get_or, set,
  count_all, arith, Bool-cases, inl, inr, ◌⊎◌, ==_iff, ==-ne, Yields, yields, lt→ltb,
}
use native.Mathlib.Nat.{pow-le-pow_right, le-div_iff_mul-le}
use fos_educational_os_proje.Base.Monad.{M, and_then}
use fos_educational_os_proje.BlockAlloc.{
  BlockAlloc, Pages, page_size, page_of, run, dyn_alloc_max_size, lifted, take_block, take_first,
  take_larger, split_page, to_page_va, alloc_class, alloc_block, size_log2, log2_max_size,
  get_block_size,
}
use fos_educational_os_proje.BlockAlloc.Classes.{size_log2-least}
use fos_educational_os_proje.BlockAlloc.Runs.{get_or-set_self}
use fos_educational_os_proje.BlockAlloc.Inv.{
  is_block, has-is_block, given_out, PagesFree, IsBlockAlloc, block-inside,
}
use fos_educational_os_proje.BlockAlloc.Alloc.{
  has_first, pow_pos, taken, taken-count, taken-IsBlockAlloc,
}
use fos_educational_os_proje.BlockAlloc.Split.{split, split-IsBlockAlloc, split-unused, split-keeps}

and_zero : (b : Bool) (n : ℕ) → 0 < n → (b && (n == 0)) ≡ false
and_zero b n h = ground arith

and_keep : (b : Bool) (n m : ℕ) → m ≤ n → (b && (n == 0)) ≡ true → (b && (m == 0)) ≡ true
and_keep b n m le h = ground arith

and_true : (b : Bool) (n : ℕ) → b ≡ true → n ≡ 0 → (b && (n == 0)) ≡ true
and_true b n e z = rw (e, z) refl

not_large : (n : ℕ) → n ≤ 2048 → ltb (2 ^ log2_max_size) n ≡ false
not_large n le = ground arith

later : (i j : ℕ) → i ≤ j → (i == j) ≡ false → i + 1 ≤ j
later i j le f = ground arith

grows : (i : ℕ) → 2 ^ (i + 3) ≤ 2 ^ (i + 1 + 3)
grows i = pow-le-pow_right {n = 2} (omega arith) {i = i + 3} {j = i + 1 + 3} (omega arith)

list-cases : (q : List ℕ) → (q ≡ []) ⊎ ((b : ℕ) × (r : List ℕ) × (q ≡ b ∷ r))
list-cases [] = inl refl
list-cases (b ∷ q) = inr (b, q, refl)

run_first : (a s n : ℕ) → 0 < n → run a s n ≡ a ∷ run (a + s) s (n - 1)
unfolding run
run_first a s zero pos = absurd (omega arith)
run_first a s (suc n) pos = let e : n ≡ suc n - 1 = omega arith in ap (λ k. a ∷ run (a + s) s k) e

module _ {L : Type 0} where
  -- A block was given out that was not given out before and holds the size; those that were given
  -- out still are, and the invariant holds.
  pub record Allocated (size : ℕ) (d : BlockAlloc L) (b : ℕ) (d' : BlockAlloc L) : Type 0 where
    pub inv : IsBlockAlloc d'
    pub nonnull : b ≢ 0
    pub fresh : given_out d b ≡ false
    pub now : given_out d' b ≡ true
    pub keeps : (x : ℕ) → given_out d x ≡ true → given_out d' x ≡ true
    pub room : size ≤ get_block_size b d'

  in_page :
      (d : BlockAlloc L) (x : ℕ)
      → IsBlockAlloc d
      → is_block d x ≡ true
      → 0 < d.block_size (page_of d x)
      → get_block_size x d ≡ d.block_size (page_of d x)
  unfolding get_block_size
  in_page d x inv h pos =
      let i = block-inside d (page_of d x) x (has-is_block d x h) in
      let r = inv.in_range (page_of d x) pos in
      rw (within x d.start d.stop (omega (arith, i)) (omega (arith, i, r))) refl
    where
      within : (x a b : ℕ) → a ≤ x → x < b → (ltb x a || leb b x) ≡ false
      within x a b lo hi = ground arith

  pub taken-Allocated :
      (size idx b : ℕ) (q : List ℕ) (d : BlockAlloc L)
      → idx < 9
      → size ≤ 2 ^ (idx + 3)
      → get_or d.free_block_lists idx [] ≡ b ∷ q
      → IsBlockAlloc d
      → Allocated size d b (taken idx b q d)
  taken-Allocated size idx b q d lt le e inv = record {
    inv = inv';
    nonnull =
        λ z. omega (arith, inv.start_pos, block-inside d (page_of d b) b (has-is_block d b m.0), z);
    fresh = and_zero (is_block d b) (count_all b d.free_block_lists) (omega (arith, c b, self));
    now = and_true (is_block d b) _ m.0 (omega (arith, c b, self, inv.once b));
    keeps =
        λ x g. and_keep (is_block d x) (count_all x d.free_block_lists) _ (omega (arith, c x)) g;
    room =
        omega (
          arith,
          in_page (taken idx b q d) b inv' m.0 (omega (arith, m.1, pow_pos (idx + 3))),
          m.1,
        );
  }
    where
      inv' : IsBlockAlloc (taken idx b q d)
      inv' = taken-IsBlockAlloc idx b q d lt e inv

      m : (is_block d b ≡ true) × (d.block_size (page_of d b) ≡ 2 ^ (idx + 3))
      m = inv.member idx b (rw e (has_first b q))

      self : ◌≡◌ {A = ℕ} (if b == b then 1 else 0) 1
      self = rw ((==_iff b b).1 refl) refl

      c :
          (x : ℕ)
          → count_all x d.free_block_lists
            ≡ (if b == x then 1 else 0) + count_all x (set d.free_block_lists idx q)
      c x = taken-count idx b q d x (omega (arith, inv.nine)) e

  -- What the pages below give: a page for each request.
  abbrev pub Backed : Pages L → Type 0
  Backed P =
      ((va : ℕ) (l : L) → Yields (λ r. Unit {0}) (P.get_page va l))
      × ((va : ℕ) (l : L) → Yields (λ r. Unit {0}) (P.return_page va l))

  pub bind_lift :
      {A C : Type 0} {P : A × L → Type 0} {Q : C × BlockAlloc L → Type 0} {o : Option (A × L)}
      (f : A → M (BlockAlloc L) C) (d : BlockAlloc L)
      → Yields P o
      → ((a : A) (l : L) → Yields Q (f a (record d { low = l })))
      → Yields Q (and_then (lifted d o) f)
  bind_lift f d (yields r p) k = k r.0 r.1

  take_first_lem :
      (idx p b : ℕ) (q : List ℕ) (d : BlockAlloc L)
      → get_or d.free_block_lists idx [] ≡ b ∷ q
      → page_of d b ≡ p
      → take_first idx p d ≡ some (b, taken idx b q d)
  unfolding take_first
  take_first_lem idx p b q d e g =
      subst (λ k. take_first idx k d ≡ some (b, taken idx b q d)) g (rw (e, take_first) refl)

  after_split :
      (size idx p : ℕ) (ps : List ℕ) (l : L) (d : BlockAlloc L)
      → idx < 9
      → size ≤ 2 ^ (idx + 3)
      → get_or d.free_block_lists idx [] ≡ []
      → PagesFree d.block_size d.start d.stop (p ∷ ps)
      → IsBlockAlloc d
      → Yields (λ r. Allocated size d r.0 r.1) (take_first idx p (split idx p ps l d))
  after_split size idx p ps l d lt le e free inv =
      rw (take_first_lem idx p va rest d₁ here (omega arith)) (
        yields (va, taken idx va rest d₁)
          (record {
            inv = a.inv;
            nonnull = a.nonnull;
            fresh = not_before;
            now = a.now;
            keeps = λ x g. a.keeps x (split-keeps idx p ps l d lt e inv free x g);
            room = a.room;
          }))
    where
      va : ℕ
      va = d.start + p * page_size

      rest : List ℕ
      rest = run (va + 2 ^ (idx + 3)) (2 ^ (idx + 3)) (page_size / 2 ^ (idx + 3) - 1)

      d₁ : BlockAlloc L
      d₁ = split idx p ps l d

      some_blocks : 0 < page_size / 2 ^ (idx + 3)
      some_blocks = (le-div_iff_mul-le (pow_pos (idx + 3))).1 (
          omega
            (arith, pow-le-pow_right {n = 2} (omega arith) {i = idx + 3} {j = 12} (omega arith)))

      here : get_or d₁.free_block_lists idx [] ≡ va ∷ rest
      here =
          get_or-set_self idx _ [] d.free_block_lists (omega (arith, inv.nine))
          ∙ run_first _ _ _ some_blocks

      a : Allocated size d₁ va (taken idx va rest d₁)
      a =
          taken-Allocated size idx va rest d₁ lt le here
            (split-IsBlockAlloc idx p ps l d lt e inv free)

      not_before : given_out d va ≡ false
      not_before = rw (split-unused idx p ps l d lt e inv free va (omega arith)) refl

  pub split_page-Allocated :
      (P : Pages L) (size idx p : ℕ) (ps : List ℕ) (d : BlockAlloc L)
      → Backed P
      → idx < 9
      → size ≤ 2 ^ (idx + 3)
      → get_or d.free_block_lists idx [] ≡ []
      → d.free_pages_list ≡ p ∷ ps
      → IsBlockAlloc d
      → Yields (λ r. Allocated size d r.0 r.1) (split_page P idx (2 ^ (idx + 3)) p ps d)
  unfolding split_page to_page_va
  split_page-Allocated P size idx p ps d back lt le e f inv =
      rw (lt→ltb p (dyn_alloc_max_size / page_size) free.2) (
        bind_lift _ (record d { free_pages_list = ps }) (back.0 (d.start + p * page_size) d.low)
          λ u l. rw e (after_split size idx p ps l d lt le e free inv))
    where
      free : PagesFree d.block_size d.start d.stop (p ∷ ps)
      free = rw f at inv.pages

  -- No class of `n` from `i` on has a free block.
  abbrev pub Empty : BlockAlloc L → (n i : ℕ) → Type 0
  Empty d n i = (j : ℕ) → i ≤ j → j < n + i → get_or d.free_block_lists j [] ≡ []

  take_larger-Allocated :
      (size n i : ℕ) (d : BlockAlloc L)
      → n + i ≤ 9
      → size ≤ 2 ^ (i + 3)
      → IsBlockAlloc d
      → ((take_larger n i d ≡ none) × Empty d n i)
        ⊎ Yields (λ r. Allocated size d r.0 r.1) (take_larger n i d)
  unfolding take_larger take_block
  take_larger-Allocated size zero i d lt le inv = inl (refl, λ j a b. absurd (omega arith))
  take_larger-Allocated size (suc n) i d lt le inv =
      elim (list-cases (get_or d.free_block_lists i [])) [
        | inl e ↦
            rw (e, take_larger)
              (elim (take_larger-Allocated size n (i + 1) d (omega arith) (omega (arith, grows i))
                inv) [
                  | inl (r, all) ↦ inl (
                    r,
                    λ j a b. elim (Bool-cases (i == j)) [
                      | inl t ↦
                          subst (λ k. get_or d.free_block_lists k [] ≡ []) ((==_iff i j).0 t) e
                      | inr f ↦ all j (later i j a f) (omega arith)
                    ],
                  )
                  | inr y ↦ inr y
                ])
        | inr (b, q, e) ↦
            rw (e, take_larger)
              (inr (yields _ (taken-Allocated size i b q d (omega arith) le e inv)))
      ]

  -- What alloc_block leaves: it stops where no page is free and no class that holds the size has a
  -- free block; and else it gives out a block.
  abbrev pub Outcome : (size idx : ℕ) → BlockAlloc L → Option (ℕ × BlockAlloc L) → Type 0
  Outcome size idx d o =
      ((o ≡ none) × (d.free_pages_list ≡ []) × Empty d (9 - idx) idx)
      ⊎ Yields (λ r. Allocated size d r.0 r.1) o

  alloc_class-Outcome :
      (P : Pages L) (size idx : ℕ) (d : BlockAlloc L) (blocks pages : List ℕ)
      → Backed P
      → idx < 9
      → size ≤ 2 ^ (idx + 3)
      → IsBlockAlloc d
      → get_or d.free_block_lists idx [] ≡ blocks
      → d.free_pages_list ≡ pages
      → Outcome size idx d (alloc_class P idx (2 ^ (idx + 3)) blocks pages d)
  unfolding alloc_class take_block
  alloc_class-Outcome P size idx d (b ∷ q) pages back lt le inv e f =
      inr (yields _ (taken-Allocated size idx b q d lt le e inv))
  alloc_class-Outcome P size idx d [] (p ∷ ps) back lt le inv e f =
      inr (split_page-Allocated P size idx p ps d back lt le e f inv)
  alloc_class-Outcome P size idx d [] [] back lt le inv e f =
      elim (take_larger-Allocated size (8 - idx) (idx + 1) d (omega arith)
        (omega (arith, grows idx)) inv) [
          | inl (r, all) ↦ inl (
            r,
            f,
            λ j a b. elim (Bool-cases (idx == j)) [
              | inl t ↦ subst (λ k. get_or d.free_block_lists k [] ≡ []) ((==_iff idx j).0 t) e
              | inr g ↦ all j (later idx j a g) (omega arith)
            ],
          )
          | inr y ↦ inr y
        ]

  -- alloc_block of a size from 1 to 2048 bytes, where the invariant holds and get_page and
  -- return_page return: either it panics, and then there is no free page and no free block of the
  -- size's class or a larger one; or it returns a block that is not null, was not given out before
  -- and is now, whose size is at least the one asked for; all blocks that were given out still
  -- are, and the invariant holds.
  pub alloc_block-Outcome :
      (P : Pages L) (size : ℕ) (d : BlockAlloc L)
      → Backed P
      → 0 < size
      → size ≤ 2048
      → IsBlockAlloc d
      → Outcome size (size_log2 size - 3) d (alloc_block P size d)
  unfolding alloc_block
  alloc_block-Outcome P size d back pos top inv =
      let l = size_log2-least size pos top in
      let same : size_log2 size - 3 + 3 ≡ size_log2 size = omega (arith, l.0) in
      rw (not_large size top) (
        rw (==-ne size 0 (λ z. omega arith)) (
          subst
            (λ k. Outcome size (size_log2 size - 3) d (
              alloc_class P (size_log2 size - 3) (2 ^ k)
                (get_or d.free_block_lists (size_log2 size - 3) []) d.free_pages_list d))
            same
            (alloc_class-Outcome P size (size_log2 size - 3) d _ _ back (omega (arith, l.0, l.1))
              (subst (λ k. size ≤ 2 ^ k) (sym same) l.2) inv refl refl)))
