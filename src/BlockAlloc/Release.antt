-- ===== src/BlockAlloc/Release.antt =====
-- lib/dynamic_allocator.c: a page of which all blocks are free goes back to the free pages.
use fos_educational_os_proje.Base.{
  ℕ, zero, suc, ◌+◌, ◌*◌, ◌/◌, ◌^◌, ◌<◌, ◌≡◌, refl, sym, subst, ◌∙◌, ap, ◌≢◌, Bool, true, false,
  some, List, [], ◌∷◌, ◌++◌, ◌==◌, if◌then◌else◌, get_or, set, length, length-set, has, update,
  update_self, update-ne, append-out, Distinct, count, count_all, arith, Bool-cases, inl, inr,
  ==_iff, ==-ne, false≢true,
}
use fos_educational_os_proje.BlockAlloc.{
  BlockAlloc, page_size, page_of, run, take_out, take_blocks, floor_log2,
}
use fos_educational_os_proje.BlockAlloc.Runs.{
  free_in, free_in-agree, free_in-all, length-run, count_all-set, get_or-set_self, get_or-set_ne,
  count_has, count_out,
}
use fos_educational_os_proje.BlockAlloc.Inv.{
  blocks, is_block, has-is_block, given_out, given-parts, given-joined, PagesFree, PagesFree-update,
  IsBlockAlloc, block-page_of, block-is_block, block-split, count_all-some, log2_pow,
}
use fos_educational_os_proje.BlockAlloc.Alloc.{
  has-cons, bit_one, bit_zero, pow_pos, ne_of, blocks-Distinct,
}

count_pos : (x : ℕ) (q : List ℕ) → 0 < count x q → has x q ≡ true
count_pos x q pos = elim (Bool-cases (has x q)) [
  | inl t ↦ t
  | inr f ↦ absurd (omega (arith, count_out x q f))
]

take_out_lem :
    (e : ℕ) (q : List ℕ)
    → has e q ≡ true
    → (r : List ℕ) × (take_out e q ≡ some r)
      × ((x : ℕ) → count x q ≡ (if e == x then 1 else 0) + count x r)
unfolding take_out
take_out_lem e [] h = absurd (false≢true h)
take_out_lem e (y ∷ q) h = elim (Bool-cases (y == e)) [
  | inl t ↦ rw t (q, refl, λ x. rw ((==_iff y e).0 t) refl)
  | inr f ↦
      let (r, s, c) = take_out_lem e q (in_rest f) in
      rw (f, s) (y ∷ r, refl, λ x. omega (arith, c x))
]
  where
    in_rest : (y == e) ≡ false → has e q ≡ true
    in_rest f = ground arith

bit_of :
    (x b : ℕ) (bs : List ℕ)
    → has b bs ≡ false
    → (if b == x then 1 else 0) + (if has x bs then 1 else 0) ≡ (if has x (b ∷ bs) then 1 else 0)
bit_of x b bs out = elim (Bool-cases (b == x)) [
  | inl t ↦
      let e : b ≡ x = (==_iff b x).0 t in
      let gone : has x bs ≡ false = subst (λ k. has k bs ≡ false) e out in
      let here : (x == b) ≡ true = (==_iff x b).1 (sym e) in rw (t, gone, here) refl
  | inr f ↦
      let away : (x == b) ≡ false = ==-ne x b (λ e. ne_of b x f (sym e)) in
      rw (f, away) (omega arith)
]

bits : {a b : Bool} → a ≡ true → b ≡ true → ◌≡◌ {A = ℕ} (if a then 1 else 0) (if b then 1 else 0)
bits e f = rw (e, f) refl

-- The blocks leave the list, and nothing else does.
take_blocks_lem :
    (bs q : List ℕ)
    → Distinct bs
    → ((x : ℕ) → has x bs ≡ true → has x q ≡ true)
    → (r : List ℕ) × (take_blocks bs q ≡ some r)
      × ((x : ℕ) → count x q ≡ (if has x bs then 1 else 0) + count x r)
unfolding take_blocks
take_blocks_lem [] q d h = (q, refl, λ x. omega arith)
take_blocks_lem (b ∷ bs) q d h =
    let (r, s, c) = take_out_lem b q (h b (first b bs)) in
    let (r', s', c') = take_blocks_lem bs r d.1 (still r c) in
    rw (s, take_blocks) (r', s', λ x. all x r r' (c x) (c' x))
  where
    first : (b : ℕ) (bs : List ℕ) → has b (b ∷ bs) ≡ true
    first b bs = ground arith

    still :
        (r : List ℕ)
        → ((x : ℕ) → count x q ≡ (if b == x then 1 else 0) + count x r)
        → (x : ℕ) → has x bs ≡ true
        → has x r ≡ true
    still r c x m =
        let there = count_has x q (h x (has-cons x b bs m)) in
        count_pos x r (omega (arith, c x, there, bit_of x b bs d.0, bits m (has-cons x b bs m)))

    all :
        (x : ℕ) (r r' : List ℕ)
        → count x q ≡ (if b == x then 1 else 0) + count x r
        → count x r ≡ (if has x bs then 1 else 0) + count x r'
        → count x q ≡ (if has x (b ∷ bs) then 1 else 0) + count x r'
    all x r r' e f = omega (arith, e, f, bit_of x b bs d.0)

get_or-in : (i : ℕ) (qs : List (List ℕ)) (x : ℕ) → has x (get_or qs i []) ≡ true → i < length qs
get_or-in i [] x h = absurd (false≢true h)
get_or-in zero (q ∷ qs) x h = omega arith
get_or-in (suc i) (q ∷ qs) x h = omega (arith, get_or-in i qs x h)

count_all-has : (x i : ℕ) (qs : List (List ℕ)) → has x (get_or qs i []) ≡ true → 0 < count_all x qs
count_all-has x i [] h = absurd (false≢true h)
count_all-has x zero (q ∷ qs) h = omega (arith, count_has x q h)
count_all-has x (suc i) (q ∷ qs) h = omega (arith, count_all-has x i qs h)

PagesFree-append :
    (bs : ℕ → ℕ) (a b p : ℕ) (ps : List ℕ)
    → has p ps ≡ false
    → PagesFree bs a b ps
    → PagesFree bs a b (p ∷ [])
    → PagesFree bs a b (ps ++ p ∷ [])
PagesFree-append bs a b p [] out h one = one
PagesFree-append bs a b p (k ∷ ps) out h one = (
  h.0,
  h.1,
  h.2,
  append-out k ps (p ∷ []) h.3 (apart p k ps out),
  PagesFree-append bs a b p ps (rest p k ps out) h.4 one,
)
  where
    apart : (p k : ℕ) (ps : List ℕ) → has p (k ∷ ps) ≡ false → has k (p ∷ []) ≡ false
    apart p k ps o = ground arith

    rest : (p k : ℕ) (ps : List ℕ) → has p (k ∷ ps) ≡ false → has p ps ≡ false
    rest p k ps o = ground arith

free_in-none : (qs : List (List ℕ)) (a : ℕ) → free_in qs (run a 0 (page_size / 0)) ≡ 0
unfolding run
free_in-none qs a = refl

module _ {L : Type 0} where
  -- The page `p` back among the free pages, with `r` left in the list of its class.
  abbrev pub released : (idx p : ℕ) → List ℕ → L → BlockAlloc L → BlockAlloc L
  released idx p r l d = record d {
    free_block_lists = set d.free_block_lists idx r;
    block_size = update d.block_size p 0;
    num_of_free_blocks = update d.num_of_free_blocks p 0;
    free_pages_list = d.free_pages_list ++ p ∷ [];
    low = l;
  }

  module _ (idx p : ℕ) (d : BlockAlloc L) (lt : idx < 9) (inv : IsBlockAlloc d)
      (size : d.block_size p ≡ 2 ^ (idx + 3))
      (full : d.num_of_free_blocks p ≡ page_size / d.block_size p) where
    abbrev own : List ℕ
    own = get_or d.free_block_lists idx []

    all_free : (x : ℕ) → has x (blocks d p) ≡ true → count_all x d.free_block_lists ≡ 1
    all_free x h =
        free_in-all d.free_block_lists (blocks d p) x inv.once
          (sym (inv.counted p) ∙ full ∙ sym (length-run _ _ _)) h

    -- All blocks of the page stand in the list of the class of the page.
    all_own : (x : ℕ) → has x (blocks d p) ≡ true → has x own ≡ true
    all_own x h =
        let (i, m) = count_all-some x d.free_block_lists (omega (arith, all_free x h)) in
        let s : 2 ^ (i + 3) ≡ 2 ^ (idx + 3) =
          sym (inv.member i x m).1 ∙ ap d.block_size (block-page_of d p x h) ∙ size in
        subst (λ k. has x (get_or d.free_block_lists k []) ≡ true)
          (same_class i idx (in_lists i x m) lt s) m
      where
        same_class : (i j : ℕ) → i < 9 → j < 9 → 2 ^ (i + 3) ≡ 2 ^ (j + 3) → i ≡ j
        same_class i j a b e = omega (arith, log2_pow i a, log2_pow j b, ap (floor_log2 16) e)

        in_lists : (i x : ℕ) → has x (get_or d.free_block_lists i []) ≡ true → i < 9
        in_lists i x m = omega (arith, inv.nine, get_or-in i d.free_block_lists x m)

    pub left :
        (r : List ℕ) × (take_blocks (blocks d p) own ≡ some r)
        × ((x : ℕ) → count x own ≡ (if has x (blocks d p) then 1 else 0) + count x r)
    left = take_blocks_lem (blocks d p) own (blocks-Distinct d inv p) all_own

    module _ (l : L) where
      abbrev d' : BlockAlloc L
      d' = released idx p left.0 l d

      counts :
          (x : ℕ)
          → count_all x d.free_block_lists
            ≡ (if has x (blocks d p) then 1 else 0) + count_all x d'.free_block_lists
      counts x =
          let s = count_all-set x idx left.0 d.free_block_lists (omega (arith, inv.nine)) in
          omega (arith, left.2 x)

      -- Nothing of the page is left in the lists, and the rest is as it was.
      other_page : (x : ℕ) → 0 < count_all x d'.free_block_lists → has x (blocks d p) ≡ false
      other_page x pos = elim (Bool-cases (has x (blocks d p))) [
        | inl t ↦ absurd (omega (arith, counts x, all_free x t, bit_one t))
        | inr f ↦ f
      ]

      other_blocks : (k : ℕ) → k ≢ p → blocks d' k ≡ blocks d k
      other_blocks k ne = rw (update-ne d.block_size p 0 k ne) refl

      old_member :
          (i x : ℕ)
          → has x (get_or d'.free_block_lists i []) ≡ true
          → has x (get_or d.free_block_lists i []) ≡ true
      old_member i x h = elim (Bool-cases (idx == i)) [
        | inl t ↦
            let same = (==_iff idx i).0 t in
            let m : has x left.0 ≡ true =
              subst (λ q. has x q ≡ true)
                (get_or-set_self idx left.0 [] d.free_block_lists (omega (arith, inv.nine)))
                (subst (λ j. has x (get_or d'.free_block_lists j []) ≡ true) (sym same) h) in
            subst (λ j. has x (get_or d.free_block_lists j []) ≡ true) same
              (count_pos x own (omega (arith, left.2 x, count_has x left.0 m)))
        | inr f ↦
            subst (λ q. has x q ≡ true)
              (get_or-set_ne idx i left.0 [] d.free_block_lists (ne_of idx i f)) h
      ]

      not_page :
          (x : ℕ) → is_block d x ≡ true → 0 < count_all x d'.free_block_lists → page_of d x ≢ p
      not_page x h pos q =
          let out = other_page x pos in
          let here = subst (λ k. has x (blocks d k) ≡ true) q (has-is_block d x h) in
          false≢true (sym out ∙ here)

      keeps_block : (x : ℕ) → is_block d x ≡ true → page_of d x ≢ p → is_block d' x ≡ true
      keeps_block x h ne =
          block-is_block d' (page_of d x) x
            (subst (λ q. has x q ≡ true) (sym (other_blocks (page_of d x) ne)) (has-is_block d x h))

      released_member :
          (i x : ℕ)
          → has x (get_or d'.free_block_lists i []) ≡ true
          → (is_block d' x ≡ true) × (d'.block_size (page_of d x) ≡ 2 ^ (i + 3))
      released_member i x h =
          let m = inv.member i x (old_member i x h) in
          let ne = not_page x m.0 (count_all-has x i d'.free_block_lists h) in
          (keeps_block x m.0 ne, update-ne d.block_size p 0 (page_of d x) ne ∙ m.1)

      released_counted :
          (k : ℕ) → d'.num_of_free_blocks k ≡ free_in d'.free_block_lists (blocks d' k)
      released_counted k = elim (Bool-cases (k == p)) [
        | inl t ↦
            subst (λ j. d'.num_of_free_blocks j ≡ free_in d'.free_block_lists (blocks d' j))
              (sym ((==_iff k p).0 t))
              (update_self d.num_of_free_blocks p 0
                ∙ sym (
                    ap
                      (λ s.
                        free_in d'.free_block_lists
                          (run (d.start + p * page_size) s (page_size / s)))
                      (update_self d.block_size p 0)
                    ∙ free_in-none d'.free_block_lists (d.start + p * page_size)))
        | inr f ↦
            let ne = ne_of k p f in
            update-ne d.num_of_free_blocks p 0 k ne
            ∙ inv.counted k
            ∙ sym (
                ap (free_in d'.free_block_lists) (other_blocks k ne)
                ∙ free_in-agree d.free_block_lists d'.free_block_lists (blocks d k) (same k ne))
      ]
        where
          same :
              (k : ℕ)
              → k ≢ p
              → (x : ℕ) → has x (blocks d k) ≡ true
              → count_all x d'.free_block_lists ≡ count_all x d.free_block_lists
          same k ne x h = elim (Bool-cases (has x (blocks d p))) [
            | inl t ↦ absurd (ne (sym (block-page_of d k x h) ∙ block-page_of d p x t))
            | inr f ↦ omega (arith, counts x, bit_zero f)
          ]

      split_pos : 0 < d.block_size p
      split_pos = omega (arith, size, pow_pos (idx + 3))

      not_listed : (ps : List ℕ) → PagesFree d.block_size d.start d.stop ps → has p ps ≡ false
      not_listed [] h = refl
      not_listed (k ∷ ps) h =
          let rest = not_listed ps h.4 in
          let ne : (p == k) ≡ false =
            ==-ne p k (λ e. zero_not (subst (λ j. d.block_size j ≡ 0) (sym e) h.0)) in
          rw (ne, rest) refl
        where
          zero_not : d.block_size p ≡ 0 → ⊥
          zero_not z = omega (arith, split_pos)

      pub released-IsBlockAlloc : IsBlockAlloc d'
      released-IsBlockAlloc = record {
        nine = length-set d.free_block_lists idx left.0 ∙ inv.nine;
        sized = λ k. elim (Bool-cases (k == p)) [
          | inl t ↦ inl (rw ((==_iff k p).0 t) (update_self d.block_size p 0))
          | inr f ↦ rw (update-ne d.block_size p 0 k (ne_of k p f)) (inv.sized k)
        ];
        in_range = λ k pos. elim (Bool-cases (k == p)) [
          | inl t ↦
              let z : d'.block_size k ≡ 0 = rw ((==_iff k p).0 t) (update_self d.block_size p 0) in
              absurd (omega arith)
          | inr f ↦ inv.in_range k (rw (update-ne d.block_size p 0 k (ne_of k p f)) at pos)
        ];
        member = released_member;
        once = λ x. omega (arith, inv.once x, counts x);
        counted = released_counted;
        pages =
            PagesFree-append d'.block_size d.start d.stop p d.free_pages_list
              (not_listed d.free_pages_list inv.pages)
              (PagesFree-update d.block_size d.start d.stop p 0 d.free_pages_list
                (not_listed d.free_pages_list inv.pages) inv.pages)
              (
                update_self d.block_size p 0,
                (inv.in_range p split_pos).0,
                (inv.in_range p split_pos).1,
                refl,
                tt,
              );
        start_pos = inv.start_pos;
      }

      pub released-keeps : (x : ℕ) → given_out d x ≡ true → given_out d' x ≡ true
      released-keeps x g =
          let parts = given-parts (is_block d x) (count_all x d.free_block_lists) g in
          let ne : page_of d x ≢ p = λ q.
            let h = subst (λ k. has x (blocks d k) ≡ true) q (has-is_block d x parts.0) in
            omega (arith, all_free x h, parts.1) in
          given-joined (is_block d' x) (count_all x d'.free_block_lists) (keeps_block x parts.0 ne)
            (omega (arith, counts x, parts.1))

      pub released-unused : (x : ℕ) → page_of d x ≡ p → is_block d' x ≡ false
      released-unused x q = elim (Bool-cases (is_block d' x)) [
        | inl t ↦
            let pos = block-split d' (page_of d x) x (has-is_block d' x t) in
            let z : d'.block_size (page_of d x) ≡ 0 = rw q (update_self d.block_size p 0) in
            absurd (omega arith)
        | inr f ↦ f
      ]
