-- ===== src/BlockAlloc/Inv.antt =====
-- lib/dynamic_allocator.c: the invariant of the block allocator, and which blocks are given out.
use fos_educational_os_proje.Base.{
  ℕ, zero, suc, ◌+◌, ◌*◌, ◌/◌, ◌^◌, ◌≤◌, ◌<◌, ◌≡◌, refl, sym, ◌∙◌, Bool, true, false, ◌&&◌, List,
  [], ◌∷◌, ◌==◌, leb, get_or, length, has, count_all, arith, Bool-cases, inl, inr, ◌⊎◌, ==_iff,
  false≢true, update, update-ne, ne_of_has, out-append,
}
use native.Mathlib.Nat.{div-mul-le_self}
use fos_educational_os_proje.BlockAlloc.{
  BlockAlloc, page_size, page_of, run, floor_log2, dyn_alloc_max_size,
}
use fos_educational_os_proje.BlockAlloc.Runs.{free_in, count_out, run-above, run-below}

pub has_first : (b : ℕ) → has b (b ∷ []) ≡ true
has_first b = ground arith

pub given-parts : (b : Bool) (n : ℕ) → (b && (n == 0)) ≡ true → (b ≡ true) × (n ≡ 0)
given-parts b n h = ground arith

pub given-joined : (b : Bool) (n : ℕ) → b ≡ true → n ≡ 0 → (b && (n == 0)) ≡ true
given-joined b n e z = rw (e, z) refl

-- Free pages are distinct, not split, and lie in the range from `start` to `stop`.
abbrev pub PagesFree : (block_size : ℕ → ℕ) → (start stop : ℕ) → List ℕ → Type 0
PagesFree block_size start stop [] = Unit
PagesFree block_size start stop (p ∷ ps) =
    (block_size p ≡ 0)
    × (start + (p + 1) * page_size ≤ stop)
    × (p < dyn_alloc_max_size / page_size)
    × (has p ps ≡ false)
    × PagesFree block_size start stop ps

module _ {L : Type 0} where
  -- The addresses of the blocks of a page; a page that is not split has none.
  abbrev pub blocks : BlockAlloc L → ℕ → List ℕ
  blocks d p = run (d.start + p * page_size) (d.block_size p) (page_size / d.block_size p)

  abbrev pub is_block : BlockAlloc L → ℕ → Bool
  is_block d x = leb d.start x && has x (blocks d (page_of d x))

  -- A block that is in no free list.
  abbrev pub given_out : BlockAlloc L → ℕ → Bool
  given_out d x = is_block d x && (count_all x d.free_block_lists == 0)

  pub record IsBlockAlloc (d : BlockAlloc L) : Type 0 where
    pub nine : length d.free_block_lists ≡ 9
    pub sized :
        (p : ℕ) → (d.block_size p ≡ 0) ⊎ ((i : ℕ) × (i < 9) × (d.block_size p ≡ 2 ^ (i + 3)))
    pub in_range :
        (p : ℕ)
        → 0 < d.block_size p
        → (d.start + (p + 1) * page_size ≤ d.stop) × (p < dyn_alloc_max_size / page_size)
    -- the free lists hold blocks of their class, each once
    pub member :
        (i x : ℕ)
        → has x (get_or d.free_block_lists i []) ≡ true
        → (is_block d x ≡ true) × (d.block_size (page_of d x) ≡ 2 ^ (i + 3))
    pub once : (x : ℕ) → count_all x d.free_block_lists ≤ 1
    pub counted : (p : ℕ) → d.num_of_free_blocks p ≡ free_in d.free_block_lists (blocks d p)
    pub pages : PagesFree d.block_size d.start d.stop d.free_pages_list
    pub start_pos : 0 < d.start

  pub has-is_block :
      (d : BlockAlloc L) (x : ℕ) → is_block d x ≡ true → has x (blocks d (page_of d x)) ≡ true
  has-is_block d x h = ground arith

  -- A block of the page `p` lies in the page.
  pub block-inside :
      (d : BlockAlloc L) (p x : ℕ)
      → has x (blocks d p) ≡ true
      → (d.start + p * page_size ≤ x) × (x < d.start + (p + 1) * page_size)
  unfolding run
  block-inside d p x h = elim (size-cases (d.block_size p)) [
    | inl z ↦ absurd (none_there (rw z at h))
    | inr pos ↦
        let lo =
          run-above (d.start + p * page_size) (d.block_size p) (page_size / d.block_size p) x h in
        let hi =
          run-below (d.start + p * page_size) (d.block_size p) (page_size / d.block_size p) x h in
        (lo, omega (arith, hi, div-mul-le_self page_size (d.block_size p)))
  ]
    where
      size-cases : (n : ℕ) → (n ≡ 0) ⊎ (0 < n)
      size-cases zero = inl refl
      size-cases (suc n) = inr (omega arith)

      none_there : has x (run (d.start + p * page_size) 0 (page_size / 0)) ≡ true → ⊥
      none_there e = false≢true e

  -- A page with a block is split.
  pub block-split : (d : BlockAlloc L) (p x : ℕ) → has x (blocks d p) ≡ true → 0 < d.block_size p
  unfolding run
  block-split d p x h = elim (Bool-cases (d.block_size p == 0)) [
    | inl t ↦ absurd (none_there (rw ((==_iff (d.block_size p) 0).0 t) at h))
    | inr f ↦ pos (d.block_size p) f
  ]
    where
      none_there : has x (run (d.start + p * page_size) 0 (page_size / 0)) ≡ true → ⊥
      none_there e = false≢true e

      pos : (n : ℕ) → (n == 0) ≡ false → 0 < n
      pos n f = ground arith

  pub block-page_of : (d : BlockAlloc L) (p x : ℕ) → has x (blocks d p) ≡ true → page_of d x ≡ p
  block-page_of d p x h = omega (arith, block-inside d p x h)

  pub block-is_block :
      (d : BlockAlloc L) (p x : ℕ) → has x (blocks d p) ≡ true → is_block d x ≡ true
  block-is_block d p x h = rw (block-page_of d p x h) (rw h (above (block-inside d p x h).0))
    where
      above : d.start + p * page_size ≤ x → (leb d.start x && true) ≡ true
      above le = ground arith

-- An element that is counted stands in one of the lists.
pub count_all-some :
    (x : ℕ) (qs : List (List ℕ)) → 0 < count_all x qs → (i : ℕ) × (has x (get_or qs i []) ≡ true)
count_all-some x [] h = absurd (omega arith)
count_all-some x (q ∷ qs) h = elim (Bool-cases (has x q)) [
  | inl t ↦ (0, t)
  | inr f ↦ let (i, m) = count_all-some x qs (omega (arith, count_out x q f)) in (suc i, m)
]

pub log2_pow : (i : ℕ) → i < 9 → floor_log2 16 (2 ^ (i + 3)) ≡ i + 3
unfolding floor_log2
log2_pow zero lt = refl
log2_pow (suc zero) lt = refl
log2_pow (suc (suc zero)) lt = refl
log2_pow (suc (suc (suc zero))) lt = refl
log2_pow (suc (suc (suc (suc zero)))) lt = refl
log2_pow (suc (suc (suc (suc (suc zero))))) lt = refl
log2_pow (suc (suc (suc (suc (suc (suc zero)))))) lt = refl
log2_pow (suc (suc (suc (suc (suc (suc (suc zero))))))) lt = refl
log2_pow (suc (suc (suc (suc (suc (suc (suc (suc zero)))))))) lt = refl
log2_pow (suc (suc (suc (suc (suc (suc (suc (suc (suc i))))))))) lt = absurd (omega arith)

pub PagesFree-update :
    (bs : ℕ → ℕ) (a b p v : ℕ) (ps : List ℕ)
    → has p ps ≡ false
    → PagesFree bs a b ps
    → PagesFree (update bs p v) a b ps
PagesFree-update bs a b p v [] out h = tt
PagesFree-update bs a b p v (k ∷ ps) out h =
    let o = out-append p (k ∷ []) ps out in
    (
      update-ne bs p v k (λ e. ne_of_has p k (k ∷ []) o.0 (has_first k) (sym e)) ∙ h.0,
      h.1,
      h.2,
      h.3,
      PagesFree-update bs a b p v ps o.1 h.4,
    )
