-- ===== src/BlockAlloc/Tests.antt =====
-- Two pages, of which the first is cut into two blocks.
use fos_educational_os_proje.Base.{
  ℕ, ◌+◌, ◌≡◌, refl, [], ◌∷◌, some, update, arith, Yields, yields, ◌⊎◌, false, ◌<◌, ◌≤◌, ◌^◌, ◌-◌,
}
use fos_educational_os_proje.BlockAlloc.{
  pages_from, Pages, BlockAlloc, run, initialize_dynamic_allocator, alloc_block, free_block,
  size_log2,
}
use fos_educational_os_proje.BlockAlloc.Classes.{size_log2-least}
use fos_educational_os_proje.BlockAlloc.Inv.{IsBlockAlloc, given_out}
use fos_educational_os_proje.BlockAlloc.Init.{
  initial, initial-IsBlockAlloc, initialize-IsBlockAlloc,
}
use fos_educational_os_proje.BlockAlloc.Alloc.{taken, taken-IsBlockAlloc}
use fos_educational_os_proje.BlockAlloc.Split.{split, split-IsBlockAlloc}
use fos_educational_os_proje.BlockAlloc.Give.{Outcome, alloc_block-Outcome, Backed}
use fos_educational_os_proje.BlockAlloc.Free.{Freed, free_block-Freed}

abbrev all_pages : Pages ℕ
all_pages = record { get_page = λ va l. some (tt, l + 1); return_page = λ va l. some (tt, l + 1) }

all_pages-Backed : Backed all_pages
all_pages-Backed = (λ va l. yields _ tt, λ va l. yields _ tt)

abbrev zeroed : BlockAlloc ℕ
zeroed = record {
  start = 0;
  stop = 0;
  free_block_lists = [];
  free_pages_list = [];
  block_size = λ p. 0;
  num_of_free_blocks = λ p. 0;
  low = 0;
}

initialize-IsBlockAlloc_example :
    Yields
      (λ r. IsBlockAlloc r.1 × ((x : ℕ) → given_out r.1 x ≡ false))
      (initialize_dynamic_allocator 4096 12288 zeroed)
initialize-IsBlockAlloc_example =
    initialize-IsBlockAlloc 4096 12288 zeroed (omega arith) (omega arith) (omega arith)
      (omega arith) (λ p. refl) (λ p. refl)

abbrev two_pages : BlockAlloc ℕ
two_pages = initial 4096 12288 zeroed

two_pages-IsBlockAlloc : IsBlockAlloc two_pages
two_pages-IsBlockAlloc =
    initial-IsBlockAlloc 4096 12288 zeroed (omega arith) (omega arith) (omega arith) (omega arith)
      (λ p. refl) (λ p. refl)

size_log2-least_example :
    (3 ≤ size_log2 100)
    × (size_log2 100 ≤ 11)
    × (100 ≤ 2 ^ size_log2 100)
    × ((size_log2 100 ≡ 3) ⊎ (2 ^ (size_log2 100 - 1) < 100))
size_log2-least_example = size_log2-least 100 (omega arith) (omega arith)

alloc_block-Outcome_example :
    Outcome 1500 (size_log2 1500 - 3) two_pages (alloc_block all_pages 1500 two_pages)
alloc_block-Outcome_example =
    alloc_block-Outcome all_pages 1500 two_pages all_pages-Backed (omega arith) (omega arith)
      two_pages-IsBlockAlloc

-- The first page cut into two blocks of 2 KB, of which the first is taken.
abbrev cut : BlockAlloc ℕ
cut = split 8 0 (1 ∷ []) 1 two_pages

abbrev one_taken : BlockAlloc ℕ
one_taken = taken 8 4096 (6144 ∷ []) cut

one_taken-IsBlockAlloc : IsBlockAlloc one_taken
unfolding run pages_from
one_taken-IsBlockAlloc = taken-IsBlockAlloc 8 4096 (6144 ∷ []) cut (omega arith) refl (
    split-IsBlockAlloc 8 0 (1 ∷ []) 1 two_pages (omega arith) refl two_pages-IsBlockAlloc
      (two_pages-IsBlockAlloc.pages))

free_block-Freed_example :
    Yields (λ r. Freed 4096 one_taken r.1) (free_block all_pages 4096 one_taken)
unfolding run update
free_block-Freed_example =
    free_block-Freed all_pages 4096 one_taken all_pages-Backed one_taken-IsBlockAlloc refl
