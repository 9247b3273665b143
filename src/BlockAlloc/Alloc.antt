-- ===== src/BlockAlloc/Alloc.antt =====
-- lib/dynamic_allocator.c: alloc_block gives out a block that was free and is large enough.
use fos_educational_os_proje.Base.{
  ℕ, ◌+◌, ◌*◌, ◌/◌, ◌^◌, ◌≤◌, ◌<◌, ◌≡◌, refl, sym, subst, ◌∙◌, ap, ◌≢◌, Bool, true, false, List, [],
  ◌∷◌, ◌==◌, if◌then◌else◌, get_or, set, length, length-set, has, update, update_self, update-ne,
  Distinct, count, count_all, arith, Bool-cases, inl, inr, ==_iff, false≢true,
}
use native.Mathlib.Nat.{div-le_self, one-le-pow}
use fos_educational_os_proje.BlockAlloc.{BlockAlloc, page_size, page_of, run, dec16}
use fos_educational_os_proje.BlockAlloc.Runs.{
  free_in, free_in-one_more, free_in-le, length-run, run-Distinct, count_all-set, get_or-set_self,
  get_or-set_ne,
}
use fos_educational_os_proje.BlockAlloc.Inv.{blocks, has-is_block, IsBlockAlloc, block-page_of}

pub pow_pos : (n : ℕ) → 0 < 2 ^ n
pow_pos n = one-le-pow n 2 (omega arith)

pub bit_one : {h : Bool} → h ≡ true → ◌≡◌ {A = ℕ} (if h then 1 else 0) 1
bit_one e = rw e refl

pub bit_zero : {h : Bool} → h ≡ false → ◌≡◌ {A = ℕ} (if h then 1 else 0) 0
bit_zero e = rw e refl

pub has_first : (b : ℕ) (q : List ℕ) → has b (b ∷ q) ≡ true
has_first b q = ground arith

run_none : (a : ℕ) → Distinct (run a 0 (page_size / 0))
unfolding run
run_none a = tt

pub has-cons : (x b : ℕ) (q : List ℕ) → has x q ≡ true → has x (b ∷ q) ≡ true
has-cons x b q h = ground arith

pub ne_of : (a b : ℕ) → (a == b) ≡ false → a ≢ b
ne_of a b f e = false≢true (sym f ∙ (==_iff a b).1 e)

taken-member :
    (idx b : ℕ) (q : List ℕ) (qs : List (List ℕ)) (i x : ℕ)
    → idx < length qs
    → get_or qs idx [] ≡ b ∷ q
    → has x (get_or (set qs idx q) i []) ≡ true
    → has x (get_or qs i []) ≡ true
taken-member idx b q qs i x lt e h = elim (Bool-cases (idx == i)) [
  | inl t ↦
      let there =
        subst (λ k. has x (get_or (set qs idx q) k []) ≡ true) (sym ((==_iff idx i).0 t)) h in
      let in_rest : has x q ≡ true = rw (get_or-set_self idx q [] qs lt) at there in
      subst (λ k. has x (get_or qs k []) ≡ true) ((==_iff idx i).0 t)
        (rw e (has-cons x b q in_rest))
  | inr f ↦ rw (get_or-set_ne idx i q [] qs (ne_of idx i f)) at h
]

module _ {L : Type 0} where
  -- The list of the class `idx` without its first element.
  abbrev pub taken : (idx b : ℕ) → List ℕ → BlockAlloc L → BlockAlloc L
  taken idx b q d = record d {
    free_block_lists = set d.free_block_lists idx q;
    num_of_free_blocks =
        update d.num_of_free_blocks (page_of d b) (dec16 (d.num_of_free_blocks (page_of d b)));
  }

  pub taken-count :
      (idx b : ℕ) (q : List ℕ) (d : BlockAlloc L) (x : ℕ)
      → idx < length d.free_block_lists
      → get_or d.free_block_lists idx [] ≡ b ∷ q
      → count_all x d.free_block_lists
        ≡ (if b == x then 1 else 0) + count_all x (set d.free_block_lists idx q)
  taken-count idx b q d x lt e =
      let s = count_all-set x idx q d.free_block_lists lt in let t = ap (count x) e in omega arith

  pub blocks-Distinct : (d : BlockAlloc L) → IsBlockAlloc d → (p : ℕ) → Distinct (blocks d p)
  blocks-Distinct d inv p = elim (inv.sized p) [
    | inl z ↦ rw (z, blocks) (run_none _)
    | inr (i, lt, e) ↦ run-Distinct _ (d.block_size p) _ (rw e (pow_pos (i + 3)))
  ]

  pub blocks-le : (d : BlockAlloc L) (p : ℕ) → length (blocks d p) ≤ page_size
  blocks-le d p =
      rw (length-run (d.start + p * page_size) (d.block_size p) (page_size / d.block_size p))
        (div-le_self page_size (d.block_size p))

  taken-counted :
      (idx b : ℕ) (q : List ℕ) (d : BlockAlloc L)
      → idx < 9
      → get_or d.free_block_lists idx [] ≡ b ∷ q
      → IsBlockAlloc d
      → (p : ℕ)
      → (taken idx b q d).num_of_free_blocks p ≡ free_in (set d.free_block_lists idx q) (blocks d p)
  taken-counted idx b q d lt e inv p = elim (Bool-cases (p == page_of d b)) [
    | inl t ↦
        subst
          (λ k.
            (taken idx b q d).num_of_free_blocks k
            ≡ free_in (set d.free_block_lists idx q) (blocks d k))
          (sym ((==_iff p (page_of d b)).0 t))
          (update_self d.num_of_free_blocks (page_of d b) _
            ∙ omega (
              arith,
              more (page_of d b),
              bit_one own,
              inv.counted (page_of d b),
              free_in-le d.free_block_lists (blocks d (page_of d b)) inv.once,
              blocks-le d (page_of d b),
            ))
    | inr f ↦
        update-ne d.num_of_free_blocks (page_of d b) _ p (ne_of p (page_of d b) f)
        ∙ omega (arith, inv.counted p, more p, bit_zero (other p (ne_of p (page_of d b) f)))
  ]
    where
      more :
          (k : ℕ)
          → free_in d.free_block_lists (blocks d k)
            ≡ (if has b (blocks d k) then 1 else 0)
              + free_in (set d.free_block_lists idx q) (blocks d k)
      more k =
          free_in-one_more b (set d.free_block_lists idx q) d.free_block_lists (blocks d k)
            (λ x. taken-count idx b q d x (omega (arith, inv.nine)) e) (blocks-Distinct d inv k)

      own : has b (blocks d (page_of d b)) ≡ true
      own = has-is_block d b (inv.member idx b (rw e (has_first b q))).0

      other : (k : ℕ) → k ≢ page_of d b → has b (blocks d k) ≡ false
      other k ne = elim (Bool-cases (has b (blocks d k))) [
        | inl t ↦ absurd (ne (sym (block-page_of d k b t)))
        | inr f ↦ f
      ]

  pub taken-IsBlockAlloc :
      (idx b : ℕ) (q : List ℕ) (d : BlockAlloc L)
      → idx < 9
      → get_or d.free_block_lists idx [] ≡ b ∷ q
      → IsBlockAlloc d
      → IsBlockAlloc (taken idx b q d)
  taken-IsBlockAlloc idx b q d lt e inv = record {
    nine = length-set d.free_block_lists idx q ∙ inv.nine;
    sized = inv.sized;
    in_range = inv.in_range;
    member = λ i x h.
        inv.member i x (taken-member idx b q d.free_block_lists i x (omega (arith, inv.nine)) e h);
    once = λ x. omega (arith, inv.once x, taken-count idx b q d x (omega (arith, inv.nine)) e);
    counted = taken-counted idx b q d lt e inv;
    pages = inv.pages;
    start_pos = inv.start_pos;
  }
