-- ===== src/BlockAlloc.antt =====
-- lib/dynamic_allocator.c: blocks of a power of two bytes, cut from pages. The free lists hold
-- addresses of blocks, a page is its index in pageBlockInfoArr, and `low` is the state of the pages
-- below, which the kernel and the user programs provide each in their own way.
pub mod Classes
pub mod Init
pub mod Runs
pub mod Inv
pub mod Alloc
pub mod Split
pub mod Give
pub mod Release
pub mod Free
mod Tests
use fos_educational_os_proje.Base.{
  ℕ, zero, suc, ◌+◌, ◌-◌, ◌*◌, ◌/◌, ◌%◌, ◌^◌, Bool, true, false, not, ◌&&◌, ◌||◌, Option, none,
  some, List, [], ◌∷◌, ◌++◌, ◌==◌, ltb, leb, if◌then◌else◌, get_or, set, replicate, update,
}
use fos_educational_os_proje.Base.Monad.{M, pure, ◌>>=◌, ◌>>◌, gets, modify, assert, panic}

abbrev pub page_size : ℕ
page_size = 4096

abbrev pub log2_min_size : ℕ
log2_min_size = 3

abbrev pub log2_max_size : ℕ
log2_max_size = 11

abbrev pub dyn_alloc_max_size : ℕ
dyn_alloc_max_size = 0x2000000

-- get_page and return_page.
pub record Pages (L : Type 0) : Type 0 where
  pub get_page : ℕ → M L (Unit {0})
  pub return_page : ℕ → M L (Unit {0})

pub record BlockAlloc (L : Type 0) : Type 0 where
  pub start : ℕ
  pub stop : ℕ
  pub free_block_lists : List (List ℕ)
  pub free_pages_list : List ℕ
  pub block_size : ℕ → ℕ
  pub num_of_free_blocks : ℕ → ℕ
  pub low : L

abbrev pub inc16 : ℕ → ℕ
inc16 n = (n + 1) % 2 ^ 16

abbrev pub dec16 : ℕ → ℕ
dec16 n = (n + 2 ^ 16 - 1) % 2 ^ 16

-- The indices of the pages from `i` on.
unfoldable pub pages_from : (count i : ℕ) → List ℕ
pages_from zero i = []
pages_from (suc n) i = i ∷ pages_from n (i + 1)

-- Takes an element out of a list; LIST_REMOVE of one that is not in it would break the links.
unfoldable pub take_out : ℕ → List ℕ → Option (List ℕ)
take_out e [] = none
take_out e (x ∷ q) =
    if x == e then some q else elim (take_out e q) [ none ↦ none | some r ↦ some (x ∷ r) ]

-- The addresses of `count` blocks from `a` on.
unfoldable pub run : (a size count : ℕ) → List ℕ
run a size zero = []
run a size (suc n) = a ∷ run (a + size) size n

-- The loop for the class of a size, from `log2` on.
unfoldable pub class_of : (fuel log2 size : ℕ) → ℕ
class_of zero log2 size = log2
class_of (suc n) log2 size =
    let more = class_of n (log2 + 1) size in
    if ltb (2 ^ log2) size && leb log2 log2_max_size then more else log2

-- log2 of alloc_block; nine rounds lead past the largest class.
unfoldable pub size_log2 : ℕ → ℕ
size_log2 size =
    let l = class_of 9 log2_min_size size in if ltb log2_max_size l then log2_max_size else l

-- log2 of free_block, of a block size of 16 bits.
unfoldable pub floor_log2 : (fuel n : ℕ) → ℕ
floor_log2 zero n = 0
floor_log2 (suc k) n = let rest = floor_log2 k (n / 2) in if n / 2 == 0 then 0 else 1 + rest

-- The removal of the blocks of a page from the list of its class.
unfoldable pub take_blocks : List ℕ → List ℕ → Option (List ℕ)
take_blocks [] q = some q
take_blocks (b ∷ bs) q = elim (take_out b q) [ none ↦ none | some r ↦ take_blocks bs r ]

-- The number of pages of a range, with the difference of uint32.
abbrev pub range_pages : (da_start da_end : ℕ) → ℕ
range_pages da_start da_end = (da_end + 2 ^ 32 - da_start) % 2 ^ 32 / page_size

module _ {L : Type 0} where
  abbrev pub lifted : {A : Type 0} → BlockAlloc L → Option (A × L) → Option (A × BlockAlloc L)
  lifted d none = none
  lifted d (some (a, l)) = some (a, record d { low = l })

  abbrev pub lift : {A : Type 0} → M L A → M (BlockAlloc L) A
  lift m d = lifted d (m d.low)

  -- the index of the page of an address
  abbrev pub page_of : BlockAlloc L → ℕ → ℕ
  page_of d va = (va - d.start) / page_size

  unfoldable pub to_page_va : ℕ → M (BlockAlloc L) ℕ
  to_page_va p d =
      if ltb p (dyn_alloc_max_size / page_size) then some (d.start + p * page_size, d) else none

  unfoldable pub to_page_info : ℕ → M (BlockAlloc L) ℕ
  to_page_info va d =
      if ltb va d.start || leb (dyn_alloc_max_size / page_size) (page_of d va)
      then none
      else some (page_of d va, d)

  unfoldable pub initialize_dynamic_allocator : (da_start da_end : ℕ) → M (BlockAlloc L) (Unit {0})
  initialize_dynamic_allocator da_start da_end d =
      if leb da_end ((da_start + dyn_alloc_max_size) % 2 ^ 32)
      then some (
        tt,
        record d {
          start = da_start;
          stop = da_end;
          free_block_lists = replicate 9 [];
          free_pages_list = pages_from (range_pages da_start da_end) 0;
          block_size = λ p. if ltb p (range_pages da_start da_end) then 0 else d.block_size p;
          num_of_free_blocks =
              λ p. if ltb p (range_pages da_start da_end) then 0 else d.num_of_free_blocks p;
        },
      )
      else none

  unfoldable pub get_block_size : ℕ → BlockAlloc L → ℕ
  get_block_size va d = if ltb va d.start || leb d.stop va then 0 else d.block_size (page_of d va)

  -- LIST_REMOVE of the first element `b` of the list `idx`, of which `q` is the rest.
  unfoldable pub take_block : (idx b : ℕ) → List ℕ → M (BlockAlloc L) ℕ
  take_block idx b q d = some (
    b,
    record d {
      free_block_lists = set d.free_block_lists idx q;
      num_of_free_blocks =
          update d.num_of_free_blocks (page_of d b) (dec16 (d.num_of_free_blocks (page_of d b)));
    },
  )

  -- The same for a page `p` that has just been split.
  unfoldable pub take_first : (idx p : ℕ) → M (BlockAlloc L) ℕ
  take_first idx p d = elim (get_or d.free_block_lists idx []) [
    | [] ↦ none
    | b ∷ q ↦ some (
      b,
      record d {
        free_block_lists = set d.free_block_lists idx q;
        num_of_free_blocks = update d.num_of_free_blocks p (dec16 (d.num_of_free_blocks p));
      },
    )
  ]

  -- The first larger class with a free block; `count` classes from `i` on are left.
  unfoldable pub take_larger : (count i : ℕ) → M (BlockAlloc L) ℕ
  take_larger zero i d = none
  take_larger (suc n) i d = elim (get_or d.free_block_lists i []) [
    | [] ↦ take_larger n (i + 1) d
    | b ∷ q ↦ take_block i b q d
  ]

  module _ (P : Pages L) where
    -- A free page becomes blocks of the class, and the first of them is taken.
    unfoldable pub split_page : (idx size p : ℕ) → List ℕ → M (BlockAlloc L) ℕ
    split_page idx size p ps = do
      modify (λ d. record d { free_pages_list = ps })
      page_va ← to_page_va p
      lift (P.get_page page_va)
      modify (λ d. record d {
        block_size = update d.block_size p size;
        num_of_free_blocks = update d.num_of_free_blocks p (page_size / size);
      })
      modify (λ d. record d {
        free_block_lists =
            set d.free_block_lists idx
              (get_or d.free_block_lists idx [] ++ run page_va size (page_size / size));
      })
      take_first idx p

    unfoldable pub alloc_class : (idx size : ℕ) → (blocks pages : List ℕ) → M (BlockAlloc L) ℕ
    alloc_class idx size (b ∷ q) pages = take_block idx b q
    alloc_class idx size [] (p ∷ ps) = split_page idx size p ps
    alloc_class idx size [] [] = take_larger (8 - idx) (idx + 1)

    -- The bytes of a block, which alloc_block clears in a new page, are not part of the state.
    unfoldable pub alloc_block : ℕ → M (BlockAlloc L) ℕ
    alloc_block size d =
        if ltb (2 ^ log2_max_size) size
        then none
        else if size == 0
        then some (0, d)
        else alloc_class (size_log2 size - log2_min_size) (2 ^ size_log2 size)
            (get_or d.free_block_lists (size_log2 size - log2_min_size) []) d.free_pages_list d

    unfoldable pub release_page : (idx size p : ℕ) → Option (List ℕ) → M (BlockAlloc L) (Unit {0})
    release_page idx size p none = panic
    release_page idx size p (some q) = do
      modify (λ d. record d { free_block_lists = set d.free_block_lists idx q })
      page_va ← to_page_va p
      lift (P.return_page page_va)
      modify (λ d. record d {
        block_size = update d.block_size p 0;
        num_of_free_blocks = update d.num_of_free_blocks p 0;
        free_pages_list = d.free_pages_list ++ p ∷ [];
      })

    -- With the block back in its list; a page of which all blocks are free goes back.
    unfoldable pub insert_block : (idx size p va : ℕ) → M (BlockAlloc L) (Unit {0})
    insert_block idx size p va d =
        let lists = set d.free_block_lists idx (va ∷ get_or d.free_block_lists idx []) in
        let n = inc16 (d.num_of_free_blocks p) in
        let d' = record d {
          free_block_lists = lists;
          num_of_free_blocks = update d.num_of_free_blocks p n;
        } in
        if n == page_size / size
        then release_page idx size p
            (take_blocks (run (d.start + p * page_size) size (page_size / size))
              (get_or lists idx []))
            d'
        else some (tt, d')

    -- A page that has no blocks gives an index below the array of lists.
    unfoldable pub free_block : ℕ → M (BlockAlloc L) (Unit {0})
    free_block va d =
        if ltb va d.start || leb d.stop va
        then none
        else if ltb (d.block_size (page_of d va)) (2 ^ log2_min_size)
        then none
        else insert_block (floor_log2 16 (d.block_size (page_of d va)) - log2_min_size)
            (d.block_size (page_of d va)) (page_of d va) va d
