-- ===== src/BlockAlloc/Free.antt =====
-- lib/dynamic_allocator.c: free_block takes back a block that was given out.
use fos_educational_os_proje.Base.{
  ℕ, ◌+◌, ◌-◌, ◌*◌, ◌/◌, ◌^◌, ◌≤◌, ◌<◌, ◌≡◌, refl, sym, subst, ◌∙◌, ap, ◌≢◌, Bool, true, false,
  ◌&&◌, ◌||◌, [], ◌∷◌, ◌==◌, ltb, leb, if◌then◌else◌, get_or, set, length-set, has, update,
  update_self, update-ne, count_all, arith, Bool-cases, inl, inr, ==_iff, ==-ne, Yields, yields,
  lt→ltb,
}
use fos_educational_os_proje.Base.Monad.{mono}
use native.Mathlib.Nat.{pow-le-pow_right}
use fos_educational_os_proje.BlockAlloc.{
  BlockAlloc, Pages, page_size, page_of, inc16, dyn_alloc_max_size, to_page_va, take_blocks,
  release_page, insert_block, free_block, floor_log2, log2_min_size,
}
use fos_educational_os_proje.BlockAlloc.Runs.{
  free_in, free_in-one_more, free_in-le, count_all-set, get_or-set_self, get_or-set_ne,
}
use fos_educational_os_proje.BlockAlloc.Inv.{
  blocks, is_block, has-is_block, given_out, given-parts, given-joined, IsBlockAlloc, block-inside,
  block-page_of, block-split, log2_pow,
}
use fos_educational_os_proje.BlockAlloc.Alloc.{
  bit_one, bit_zero, pow_pos, ne_of, blocks-Distinct, blocks-le,
}
use fos_educational_os_proje.BlockAlloc.Give.{Backed, bind_lift}
use fos_educational_os_proje.BlockAlloc.Release.{
  released, left, released-IsBlockAlloc, released-keeps, released-unused,
}

unused : (b : Bool) (n : ℕ) → b ≡ false → (b && (n == 0)) ≡ false
unused b n e = rw e refl

not_given : (b : Bool) (n : ℕ) → 0 < n → (b && (n == 0)) ≡ false
not_given b n h = ground arith

module _ {L : Type 0} where
  -- The block `va` in front of the list of its class.
  abbrev pub inserted : (idx va : ℕ) → BlockAlloc L → BlockAlloc L
  inserted idx va d = record d {
    free_block_lists = set d.free_block_lists idx (va ∷ get_or d.free_block_lists idx []);
    num_of_free_blocks =
        update d.num_of_free_blocks (page_of d va) (inc16 (d.num_of_free_blocks (page_of d va)));
  }

  module _ (idx va : ℕ) (d : BlockAlloc L) (lt : idx < 9) (inv : IsBlockAlloc d)
      (size : d.block_size (page_of d va) ≡ 2 ^ (idx + 3)) (mine : is_block d va ≡ true)
      (out : count_all va d.free_block_lists ≡ 0) where
    abbrev d' : BlockAlloc L
    d' = inserted idx va d

    counts :
        (x : ℕ)
        → count_all x d'.free_block_lists
          ≡ (if va == x then 1 else 0) + count_all x d.free_block_lists
    counts x =
        let s =
          count_all-set x idx (va ∷ get_or d.free_block_lists idx []) d.free_block_lists
            (omega (arith, inv.nine)) in
        omega arith

    inserted_once : (x : ℕ) → count_all x d'.free_block_lists ≤ 1
    inserted_once x = elim (Bool-cases (va == x)) [
      | inl t ↦
          let z : count_all x d.free_block_lists ≡ 0 =
            subst (λ k. count_all k d.free_block_lists ≡ 0) ((==_iff va x).0 t) out in
          omega (arith, counts x, bit_one t)
      | inr f ↦ omega (arith, counts x, bit_zero f, inv.once x)
    ]

    inserted_counted : (k : ℕ) → d'.num_of_free_blocks k ≡ free_in d'.free_block_lists (blocks d k)
    inserted_counted k = elim (Bool-cases (k == page_of d va)) [
      | inl t ↦
          subst (λ j. d'.num_of_free_blocks j ≡ free_in d'.free_block_lists (blocks d j))
            (sym ((==_iff k (page_of d va)).0 t))
            (update_self d.num_of_free_blocks (page_of d va) _
              ∙ omega (
                arith,
                more (page_of d va),
                bit_one (has-is_block d va mine),
                inv.counted (page_of d va),
                free_in-le d.free_block_lists (blocks d (page_of d va)) inv.once,
                blocks-le d (page_of d va),
              ))
      | inr f ↦
          let ne = ne_of k (page_of d va) f in
          update-ne d.num_of_free_blocks (page_of d va) _ k ne
          ∙ omega (arith, inv.counted k, more k, bit_zero (other k ne))
    ]
      where
        more :
            (k : ℕ)
            → free_in d'.free_block_lists (blocks d k)
              ≡ (if has va (blocks d k) then 1 else 0) + free_in d.free_block_lists (blocks d k)
        more k =
            free_in-one_more va d.free_block_lists d'.free_block_lists (blocks d k) counts
              (blocks-Distinct d inv k)

        other : (k : ℕ) → k ≢ page_of d va → has va (blocks d k) ≡ false
        other k ne = elim (Bool-cases (has va (blocks d k))) [
          | inl t ↦ absurd (ne (sym (block-page_of d k va t)))
          | inr f ↦ f
        ]

    inserted_member :
        (i x : ℕ)
        → has x (get_or d'.free_block_lists i []) ≡ true
        → (is_block d x ≡ true) × (d.block_size (page_of d x) ≡ 2 ^ (i + 3))
    inserted_member i x h = elim (Bool-cases (idx == i)) [
      | inl t ↦
          let same = (==_iff idx i).0 t in
          let m : has x (va ∷ get_or d.free_block_lists idx []) ≡ true =
            subst (λ q. has x q ≡ true)
              (get_or-set_self idx _ [] d.free_block_lists (omega (arith, inv.nine)))
              (subst (λ j. has x (get_or d'.free_block_lists j []) ≡ true) (sym same) h) in
          subst (λ j. (is_block d x ≡ true) × (d.block_size (page_of d x) ≡ 2 ^ (j + 3))) same
            (elim (Bool-cases (x == va)) [
              | inl u ↦
                  subst (λ y. (is_block d y ≡ true) × (d.block_size (page_of d y) ≡ 2 ^ (idx + 3)))
                    (sym ((==_iff x va).0 u)) (mine, size)
              | inr u ↦ inv.member idx x (rw u at m)
            ])
      | inr f ↦ inv.member i x (
          subst (λ q. has x q ≡ true) (get_or-set_ne idx i _ [] d.free_block_lists (ne_of idx i f))
            h)
    ]

    pub inserted-IsBlockAlloc : IsBlockAlloc d'
    inserted-IsBlockAlloc = record {
      nine = length-set d.free_block_lists idx _ ∙ inv.nine;
      sized = inv.sized;
      in_range = inv.in_range;
      member = inserted_member;
      once = inserted_once;
      counted = inserted_counted;
      pages = inv.pages;
      start_pos = inv.start_pos;
    }

    pub inserted-keeps : (x : ℕ) → x ≢ va → given_out d x ≡ true → given_out d' x ≡ true
    inserted-keeps x ne g =
        let parts = given-parts (is_block d x) (count_all x d.free_block_lists) g in
        given-joined (is_block d x) (count_all x d'.free_block_lists) parts.0
          (omega (arith, counts x, parts.1, bit_zero (==-ne va x (λ e. ne (sym e)))))

    pub inserted_back : 0 < count_all va d'.free_block_lists
    inserted_back = omega (arith, counts va, bit_one ((==_iff va va).1 refl))

  -- The block is no longer given out, each other one still is, and the invariant holds.
  abbrev pub Freed : ℕ → BlockAlloc L → BlockAlloc L → Type 0
  Freed va d d' =
      IsBlockAlloc d'
      × (given_out d' va ≡ false)
      × ((x : ℕ) → x ≢ va → given_out d x ≡ true → given_out d' x ≡ true)

  release_page_lem :
      (P : Pages L) (idx p size : ℕ) (d : BlockAlloc L)
      → Backed P
      → (lt : idx < 9) (inv : IsBlockAlloc d) → (e : d.block_size p ≡ 2 ^ (idx + 3))
      → (full : d.num_of_free_blocks p ≡ page_size / d.block_size p)
      → Yields
          (λ r. (l : L) × (r.1 ≡ released idx p (left idx p d lt inv e full).0 l d))
          (release_page P idx size p
            (take_blocks (blocks d p) (get_or d.free_block_lists idx []))
            d)
  unfolding release_page to_page_va
  release_page_lem P idx p size d back lt inv e full = rw ((left idx p d lt inv e full).1) (
      rw
        (lt→ltb p (dyn_alloc_max_size / page_size)
          (inv.in_range p (omega (arith, e, pow_pos (idx + 3)))).1)
        (bind_lift _
          (record d {
            free_block_lists = set d.free_block_lists idx (left idx p d lt inv e full).0;
          })
          (back.1 (d.start + p * page_size) d.low) λ u l. yields _ (l, refl)))

  insert_block-Freed :
      (P : Pages L) (idx va : ℕ) (d : BlockAlloc L)
      → Backed P
      → idx < 9
      → IsBlockAlloc d
      → d.block_size (page_of d va) ≡ 2 ^ (idx + 3)
      → is_block d va ≡ true
      → count_all va d.free_block_lists ≡ 0
      → Yields
          (λ r. Freed va d r.1)
          (insert_block P idx (d.block_size (page_of d va)) (page_of d va) va d)
  unfolding insert_block
  insert_block-Freed P idx va d back lt inv size mine out =
      elim (Bool-cases
        (inc16 (d.num_of_free_blocks (page_of d va)) == page_size / d.block_size (page_of d va))) [
          | inl t ↦
              let inv₁ = inserted-IsBlockAlloc idx va d lt inv size mine out in
              let full =
                update_self d.num_of_free_blocks (page_of d va) _
                ∙ (==_iff _ (page_size / d.block_size (page_of d va))).0 t in
              let d₁ = inserted idx va d in
              let own : get_or d₁.free_block_lists idx [] ≡ va ∷ get_or d.free_block_lists idx [] =
                get_or-set_self idx _ [] d.free_block_lists (omega (arith, inv.nine)) in
              rw t (
                mono
                  (release_page_lem P idx (page_of d va) (d.block_size (page_of d va)) d₁ back lt
                    inv₁ size full)
                  λ r (l, e). subst (Freed va d) (sym e) (
                    released-IsBlockAlloc idx (page_of d va) d₁ lt inv₁ size full l,
                    unused _ _ (released-unused idx (page_of d va) d₁ lt inv₁ size full l va refl),
                    λ x ne g.
                        released-keeps idx (page_of d va) d₁ lt inv₁ size full l x
                          (inserted-keeps idx va d lt inv size mine out x ne g),
                  ))
          | inr f ↦ rw f (
              yields _ (
                inserted-IsBlockAlloc idx va d lt inv size mine out,
                not_given (is_block d va) _ (inserted_back idx va d lt inv size mine out),
                inserted-keeps idx va d lt inv size mine out,
              ))
        ]

  -- free_block of a block that is given out, where the invariant holds and get_page and
  -- return_page return: it returns, the block is not given out any more, each other block that was
  -- given out still is, and the invariant holds, also when the page of the block became free.
  pub free_block-Freed :
      (P : Pages L) (va : ℕ) (d : BlockAlloc L)
      → Backed P
      → IsBlockAlloc d
      → given_out d va ≡ true
      → Yields (λ r. Freed va d r.1) (free_block P va d)
  unfolding free_block
  free_block-Freed P va d back inv g =
      let parts = given-parts (is_block d va) (count_all va d.free_block_lists) g in
      let here = has-is_block d va parts.0 in
      let pos = block-split d (page_of d va) va here in
      elim (inv.sized (page_of d va)) [
        | inl z ↦ absurd (omega arith)
        | inr (i, lt, e) ↦
            let inside = block-inside d (page_of d va) va here in
            let r = inv.in_range (page_of d va) pos in
            rw (within va d.start d.stop (omega (arith, inside)) (omega (arith, inside, r))) (
              rw (large (d.block_size (page_of d va)) (omega (arith, e, eight i)))
                (rw (class i lt e) (insert_block-Freed P i va d back lt inv e parts.0 parts.1)))
      ]
    where
      within : (x a b : ℕ) → a ≤ x → x < b → (ltb x a || leb b x) ≡ false
      within x a b lo hi = ground arith

      large : (n : ℕ) → 8 ≤ n → ltb n (2 ^ log2_min_size) ≡ false
      large n le = ground arith

      eight : (i : ℕ) → 8 ≤ 2 ^ (i + 3)
      eight i = pow-le-pow_right {n = 2} (omega arith) {i = 3} {j = i + 3} (omega arith)

      class :
          (i : ℕ)
          → i < 9
          → d.block_size (page_of d va) ≡ 2 ^ (i + 3)
          → floor_log2 16 (d.block_size (page_of d va)) - log2_min_size ≡ i
      class i lt e = omega (arith, ap (floor_log2 16) e, log2_pow i lt)
