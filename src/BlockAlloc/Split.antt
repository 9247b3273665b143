-- ===== src/BlockAlloc/Split.antt =====
-- lib/dynamic_allocator.c: a free page that is cut into blocks of a class keeps the invariant.
use fos_educational_os_proje.Base.{
  ℕ, ◌+◌, ◌*◌, ◌/◌, ◌^◌, ◌≤◌, ◌<◌, ◌≡◌, refl, sym, subst, ◌∙◌, ap, ◌≢◌, Bool, true, false, ◌&&◌,
  List, [], ◌∷◌, ◌==◌, get_or, set, length-set, has, update, update_self, update-ne, Distinct,
  count, count_all, arith, Bool-cases, inl, inr, ==_iff, false≢true,
}
use fos_educational_os_proje.BlockAlloc.{BlockAlloc, page_size, page_of, run}
use fos_educational_os_proje.BlockAlloc.Runs.{
  free_in, free_in-agree, free_in-full, length-run, run-Distinct, count_all-set, get_or-set_self,
  get_or-set_ne, count_has, count_out, count-Distinct,
}
use fos_educational_os_proje.BlockAlloc.Inv.{
  blocks, is_block, has-is_block, PagesFree, PagesFree-update, IsBlockAlloc, block-page_of,
  block-is_block, block-split, given_out, count_all-some,
}
use fos_educational_os_proje.BlockAlloc.Alloc.{pow_pos, ne_of}

module _ {L : Type 0} where
  -- The page `p` with all its blocks in the list of their class.
  abbrev pub split : (idx p : ℕ) → List ℕ → L → BlockAlloc L → BlockAlloc L
  split idx p ps l d = record d {
    free_pages_list = ps;
    low = l;
    block_size = update d.block_size p (2 ^ (idx + 3));
    num_of_free_blocks = update d.num_of_free_blocks p (page_size / 2 ^ (idx + 3));
    free_block_lists =
        set d.free_block_lists idx
          (run (d.start + p * page_size) (2 ^ (idx + 3)) (page_size / 2 ^ (idx + 3)));
  }

  module _ (idx p : ℕ) (ps : List ℕ) (l : L) (d : BlockAlloc L) (lt : idx < 9)
      (e : get_or d.free_block_lists idx [] ≡ []) (inv : IsBlockAlloc d)
      (free : PagesFree d.block_size d.start d.stop (p ∷ ps)) where
    abbrev d' : BlockAlloc L
    d' = split idx p ps l d

    abbrev news : List ℕ
    news = run (d.start + p * page_size) (2 ^ (idx + 3)) (page_size / 2 ^ (idx + 3))

    own_blocks : blocks d' p ≡ news
    own_blocks = rw (update_self d.block_size p (2 ^ (idx + 3))) refl

    other_blocks : (k : ℕ) → k ≢ p → blocks d' k ≡ blocks d k
    other_blocks k ne = rw (update-ne d.block_size p (2 ^ (idx + 3)) k ne) refl

    news-page_of : (x : ℕ) → has x news ≡ true → page_of d x ≡ p
    news-page_of x h = block-page_of d' p x (rw own_blocks h)

    -- An element of an old list is a block of another page.
    old_page : (i x : ℕ) → has x (get_or d.free_block_lists i []) ≡ true → page_of d x ≢ p
    old_page i x h q =
        let z : d.block_size (page_of d x) ≡ 0 = subst (λ k. d.block_size k ≡ 0) (sym q) free.0 in
        omega (arith, pow_pos (i + 3), (inv.member i x h).1, z)

    counts :
        (x : ℕ) → count_all x d'.free_block_lists ≡ count x news + count_all x d.free_block_lists
    counts x =
        let s = count_all-set x idx news d.free_block_lists (omega (arith, inv.nine)) in
        let t = ap (count x) e in omega arith

    new_alone : (x : ℕ) → has x news ≡ true → count_all x d.free_block_lists ≡ 0
    new_alone x h = elim (Bool-cases (count_all x d.free_block_lists == 0)) [
      | inl t ↦ (==_iff _ 0).0 t
      | inr f ↦
          let (i, m) = count_all-some x d.free_block_lists (pos _ f) in
          absurd (old_page i x m (news-page_of x h))
    ]
      where
        pos : (n : ℕ) → (n == 0) ≡ false → 0 < n
        pos n f = ground arith

    news-Distinct : Distinct news
    news-Distinct = run-Distinct _ _ _ (pow_pos (idx + 3))

    split_once : (x : ℕ) → count_all x d'.free_block_lists ≤ 1
    split_once x = elim (Bool-cases (has x news)) [
      | inl t ↦ omega (arith, counts x, new_alone x t, count-Distinct x news news-Distinct)
      | inr f ↦ omega (arith, counts x, count_out x news f, inv.once x)
    ]

    split_counted : (k : ℕ) → d'.num_of_free_blocks k ≡ free_in d'.free_block_lists (blocks d' k)
    split_counted k = elim (Bool-cases (k == p)) [
      | inl t ↦
          subst (λ j. d'.num_of_free_blocks j ≡ free_in d'.free_block_lists (blocks d' j))
            (sym ((==_iff k p).0 t))
            (update_self d.num_of_free_blocks p _
              ∙ sym (
                  ap (free_in d'.free_block_lists) own_blocks
                  ∙ free_in-full d'.free_block_lists news
                      (λ x h. omega (arith, split_once x, counts x, count_has x news h))
                  ∙ length-run _ _ _))
      | inr f ↦
          let ne = ne_of k p f in
          update-ne d.num_of_free_blocks p _ k ne
          ∙ inv.counted k
          ∙ sym (
              ap (free_in d'.free_block_lists) (other_blocks k ne)
              ∙ free_in-agree d.free_block_lists d'.free_block_lists (blocks d k) (same k ne))
    ]
      where
        same :
            (k : ℕ)
            → k ≢ p
            → (x : ℕ) → has x (blocks d k) ≡ true
            → count_all x d'.free_block_lists ≡ count_all x d.free_block_lists
        same k ne x h = elim (Bool-cases (has x news)) [
          | inl t ↦ absurd (ne (sym (block-page_of d k x h) ∙ news-page_of x t))
          | inr f ↦ omega (arith, counts x, count_out x news f)
        ]

    split_member :
        (i x : ℕ)
        → has x (get_or d'.free_block_lists i []) ≡ true
        → (is_block d' x ≡ true) × (d'.block_size (page_of d x) ≡ 2 ^ (i + 3))
    split_member i x h = elim (Bool-cases (idx == i)) [
      | inl t ↦
          let same = (==_iff idx i).0 t in
          let m : has x news ≡ true =
            subst (λ q. has x q ≡ true)
              (get_or-set_self idx news [] d.free_block_lists (omega (arith, inv.nine)))
              (subst (λ j. has x (get_or d'.free_block_lists j []) ≡ true) (sym same) h) in
          (
            block-is_block d' p x (subst (λ q. has x q ≡ true) (sym own_blocks) m),
            ap d'.block_size (news-page_of x m)
                ∙ update_self d.block_size p _
                ∙ ap (λ j. 2 ^ (j + 3)) same,
          )
      | inr f ↦
          let m : has x (get_or d.free_block_lists i []) ≡ true =
            subst (λ q. has x q ≡ true)
              (get_or-set_ne idx i news [] d.free_block_lists (ne_of idx i f)) h in
          let ne = old_page i x m in
          (
            block-is_block d' (page_of d x) x (
                subst (λ q. has x q ≡ true) (sym (other_blocks (page_of d x) ne))
                  (has-is_block d x (inv.member i x m).0)),
            update-ne d.block_size p _ (page_of d x) ne ∙ (inv.member i x m).1,
          )
    ]

    pub split-IsBlockAlloc : IsBlockAlloc d'
    split-IsBlockAlloc = record {
      nine = length-set d.free_block_lists idx news ∙ inv.nine;
      sized = λ k. elim (Bool-cases (k == p)) [
        | inl t ↦ inr (idx, lt, rw ((==_iff k p).0 t) (update_self d.block_size p _))
        | inr f ↦ rw (update-ne d.block_size p (2 ^ (idx + 3)) k (ne_of k p f)) (inv.sized k)
      ];
      in_range = λ k pos. elim (Bool-cases (k == p)) [
        | inl t ↦ rw ((==_iff k p).0 t) (free.1, free.2)
        | inr f ↦
            inv.in_range k (rw (update-ne d.block_size p (2 ^ (idx + 3)) k (ne_of k p f)) at pos)
      ];
      member = split_member;
      once = split_once;
      counted = split_counted;
      pages = PagesFree-update d.block_size d.start d.stop p _ ps free.3 free.4;
      start_pos = inv.start_pos;
    }

    -- The page had no blocks before.
    pub split-unused : (x : ℕ) → page_of d x ≡ p → is_block d x ≡ false
    split-unused x q = elim (Bool-cases (is_block d x)) [
      | inl t ↦
          let pos = block-split d (page_of d x) x (has-is_block d x t) in
          let z : d.block_size (page_of d x) ≡ 0 = subst (λ k. d.block_size k ≡ 0) (sym q) free.0 in
          absurd (omega arith)
      | inr f ↦ f
    ]

    pub split-keeps : (x : ℕ) → given_out d x ≡ true → given_out d' x ≡ true
    split-keeps x g = elim (Bool-cases (page_of d x == p)) [
      | inl t ↦ absurd (
          false≢true (
            sym (split-unused x ((==_iff (page_of d x) p).0 t))
            ∙ (parts (is_block d x) (count_all x d.free_block_lists) g).0))
      | inr f ↦
          let ne = ne_of (page_of d x) p f in
          let there =
            has-is_block d x (parts (is_block d x) (count_all x d.free_block_lists) g).0 in
          let is' =
            block-is_block d' (page_of d x) x
              (subst (λ q. has x q ≡ true) (sym (other_blocks (page_of d x) ne)) there) in
          joined (is_block d' x) (count_all x d'.free_block_lists) is' (
            counts x
            ∙ omega (arith, out x ne, (parts (is_block d x) (count_all x d.free_block_lists) g).1))
    ]
      where
        parts : (b : Bool) (n : ℕ) → (b && (n == 0)) ≡ true → (b ≡ true) × (n ≡ 0)
        parts b n h = ground arith

        joined : (b : Bool) (n : ℕ) → b ≡ true → n ≡ 0 → (b && (n == 0)) ≡ true
        joined b n e z = rw (e, z) refl

        out : (x : ℕ) → page_of d x ≢ p → count x news ≡ 0
        out x ne = elim (Bool-cases (has x news)) [
          | inl t ↦ absurd (ne (news-page_of x t))
          | inr f ↦ count_out x news f
        ]
