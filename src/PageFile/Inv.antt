-- ===== src/PageFile/Inv.antt =====
-- kern/disk/pagefile_manager.c: the invariant of the page file's directories, tables and frames.
use fos_educational_os_proje.Base.{
  ℕ, suc, arith, ◌+◌, ◌*◌, ◌≤◌, ◌<◌, ◌≡◌, sym, ◌∙◌, ap, ◌≢◌, ◌⊎◌, inl, inr, Bool, true, false,
  Option, none, some, List, ◌==◌, if◌then◌else◌, update, update_self, update-ne, Bool-cases, ==_iff,
  false≢true, has, Distinct, Yields,
}
use fos_educational_os_proje.Base.Int.{pos}
use fos_educational_os_proje.PageFile.{
  Below, PageFile, sector_of, pages_per_file, page_file_start_sector, sector_per_page, pdx, ptx,
}

-- The disk frame of a page, 0 where it has none.
abbrev pub entry_in : (ℕ → ℕ → ℕ) → ℕ → ℕ → ℕ
entry_in w t i = if t == 0 then 0 else w t i

module _ {D L : Type 0} where
  abbrev pub table_of : PageFile D L → ℕ → ℕ → ℕ
  table_of s e va = entry_in s.word (s.env e).disk_env_pgdir (pdx va)

  abbrev pub dfn_of : PageFile D L → ℕ → ℕ → ℕ
  dfn_of s e va = entry_in s.word (table_of s e va) (ptx va)

abbrev pub page_at : {D : Type 0} → (ℕ → D) → ℕ → Option D
page_at c dfn = if dfn == 0 then none else some (c (sector_of dfn))

-- A sector from which a page of the page file lies on the disk.
abbrev pub InFile : ℕ → Type 0
InFile x = x + sector_per_page ≤ page_file_start_sector + pages_per_file * sector_per_page

pub sector_of-InFile : (dfn : ℕ) → dfn < pages_per_file → InFile (sector_of dfn)
sector_of-InFile dfn lt = omega arith

-- What the calls below rely on: which pages of the kernel heap are in use, and what the disk holds from a
-- sector.
module _ {D L : Type 0} (live : L → ℕ → Bool) (contents : L → ℕ → D) where
  -- `Ready n l`: from the state `l` of what lies below, kmalloc of a page gives `n` more pages. A state
  -- that is not ready need not serve any call of kmalloc.
  pub record Reliable (Ready : ℕ → L → Type 0) (B : Below D L) : Type 0 where
    pub fewer : (m n : ℕ) (l : L) → m ≤ n → Ready n l → Ready m l
    pub kmalloc_ok :
        (n : ℕ) (l : L)
        → Ready (suc n) l
        → Yields
            (λ r.
              (p : ℕ) × (r.0 ≡ some p)
              × (p ≢ 0)
              × (live l p ≡ false)
              × (live r.1 p ≡ true)
              × ((q : ℕ) → live l q ≡ true → live r.1 q ≡ true)
              × ((x : ℕ) → contents r.1 x ≡ contents l x)
              × Ready n r.1)
            (B.kmalloc l)
    pub write_ok :
        (x : ℕ) (d : D) (l : L)
        → InFile x
        → Yields
            (λ r.
              (r.0 ≡ pos 0)
              × (contents r.1 x ≡ d)
              × ((y : ℕ) → (y + 8 ≤ x) ⊎ (x + 8 ≤ y) → contents r.1 y ≡ contents l y)
              × ((q : ℕ) → live l q ≡ true → live r.1 q ≡ true))
            (B.ide_write x d l)
    pub read_ok :
        (x : ℕ) (l : L)
        → InFile x
        → Yields
            (λ r.
              (r.0.0 ≡ pos 0)
              × (r.0.1 ≡ contents l x)
              × ((y : ℕ) → contents r.1 y ≡ contents l y)
              × ((q : ℕ) → live l q ≡ true → live r.1 q ≡ true))
            (B.ide_read x l)

module _ {D L : Type 0} (contents : L → ℕ → D) where
  -- The page file as a map from the pages of the processes to their contents.
  abbrev pub stored : PageFile D L → ℕ → ℕ → Option D
  stored s e va = page_at (contents s.low) (dfn_of s e va)

-- The pages that hold numbers of disk frames, with the free list: each frame of the file is free or stands
-- in one entry.
pub record IsOwned (leafs : ℕ → Bool) (w : ℕ → ℕ → ℕ) (free : List ℕ) : Type 0 where
  pub range : (t i : ℕ) → leafs t ≡ true → w t i < pages_per_file
  pub taken : (t i : ℕ) → leafs t ≡ true → w t i ≢ 0 → has (w t i) free ≡ false
  pub once :
      (t i u j : ℕ)
      → leafs t ≡ true
      → leafs u ≡ true
      → w t i ≢ 0
      → w t i ≡ w u j
      → (t ≡ u) × (i ≡ j)
  pub free_once : Distinct free
  pub free_range : (f : ℕ) → has f free ≡ true → (f ≢ 0) × (f < pages_per_file)
  pub covers :
      (f : ℕ)
      → f ≢ 0
      → f < pages_per_file
      → (has f free ≡ true) ⊎ ((t : ℕ) × (i : ℕ) × (leafs t ≡ true) × (w t i ≡ f))

-- The directories: a process has its own, and each has its own tables, all pages in use.
pub record IsLinked (used dirs leafs : ℕ → Bool) (dir : ℕ → ℕ) (w : ℕ → ℕ → ℕ) : Type 0 where
  pub apart : (p : ℕ) → dirs p ≡ true → leafs p ≡ false
  pub dirs_live : (p : ℕ) → dirs p ≡ true → used p ≡ true
  pub leafs_live : (p : ℕ) → leafs p ≡ true → used p ≡ true
  pub dirs_real : dirs 0 ≡ false
  pub leafs_real : leafs 0 ≡ false
  pub dir_of : (e : ℕ) → dir e ≢ 0 → dirs (dir e) ≡ true
  pub dir_once : (e f : ℕ) → dir e ≢ 0 → dir e ≡ dir f → e ≡ f
  pub table_of : (d i : ℕ) → dirs d ≡ true → w d i ≢ 0 → leafs (w d i) ≡ true
  pub table_once :
      (d i c j : ℕ) → dirs d ≡ true → dirs c ≡ true → w d i ≢ 0 → w d i ≡ w c j → (d ≡ c) × (i ≡ j)

-- Which pages of the kernel heap are disk page directories, and which hold the numbers of disk frames.
module _ {D L : Type 0} (live : L → ℕ → Bool) where
  pub record IsKept (s : PageFile D L) : Type 0 where
    pub dirs : ℕ → Bool
    pub leafs : ℕ → Bool
    pub linked : IsLinked (live s.low) dirs leafs (λ e. (s.env e).disk_env_pgdir) s.word
    pub owned : IsOwned leafs s.word s.disk_free_frame_list

abbrev pub poked : (ℕ → ℕ → ℕ) → ℕ → ℕ → ℕ → ℕ → ℕ → ℕ
poked w p i v = update w p (update (w p) i v)

pub poked_here : (w : ℕ → ℕ → ℕ) (p i v : ℕ) → poked w p i v p i ≡ v
poked_here w p i v = ap (λ f. f i) (update_self w p (update (w p) i v)) ∙ update_self (w p) i v

pub poked_other : (w : ℕ → ℕ → ℕ) (p i v q j : ℕ) → q ≢ p → poked w p i v q j ≡ w q j
poked_other w p i v q j ne = ap (λ f. f j) (update-ne w p (update (w p) i v) q ne)

-- A word after a write of one: the word that was written, or as before.
pub poked_cases :
    (w : ℕ → ℕ → ℕ) (p i v q j : ℕ)
    → ((q ≡ p) × (j ≡ i) × (poked w p i v q j ≡ v))
      ⊎ ((q ≡ p → j ≡ i → ⊥) × (poked w p i v q j ≡ w q j))
poked_cases w p i v q j = elim (Bool-cases (q == p)) [
  | inl t ↦ at_page ((==_iff q p).0 t)
  | inr n ↦
      let ne : q ≢ p = λ e. false≢true (sym n ∙ (==_iff q p).1 e) in
      inr (λ e _. ne e, poked_other w p i v q j ne)
]
  where
    at_page :
        q ≡ p
        → ((q ≡ p) × (j ≡ i) × (poked w p i v q j ≡ v))
          ⊎ ((q ≡ p → j ≡ i → ⊥) × (poked w p i v q j ≡ w q j))
    at_page e = elim (Bool-cases (j == i)) [
      | inl t ↦ let ej : j ≡ i = (==_iff j i).0 t in inl (e, ej, rw (e, ej) (poked_here w p i v))
      | inr n ↦
          let ne : j ≢ i = λ k. false≢true (sym n ∙ (==_iff j i).1 k) in
          inr (
            λ _ k. ne k,
            rw e (ap (λ f. f j) (update_self w p (update (w p) i v)) ∙ update-ne (w p) i v j ne),
          )
    ]
