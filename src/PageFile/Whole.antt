-- ===== src/PageFile/Whole.antt =====
-- kern/disk/pagefile_manager.c: empty pages, the update of a page, the counts, the table file, and the end of
-- a process's pages on disk.
use fos_educational_os_proje.Base.{
  ℕ, zero, suc, ◌+◌, ◌*◌, ◌%◌, ◌^◌, Bool, true, false, ◌&&◌, ◌||◌, Option, none, some, ◌==◌, ltb,
  leb, if◌then◌else◌, update, length,
}
use fos_educational_os_proje.Base.Int.{ℤ, pos}
use fos_educational_os_proje.Base.Layout.{
  user_heap_start, user_heap_max, user_top, ustacktop, ustackbottom,
}
use fos_educational_os_proje.Base.Monad.{M, pure, ◌>>=◌, ◌>>◌, gets, modify, panic, assert}
use fos_educational_os_proje.KHeap.{sub32, round_down}
use fos_educational_os_proje.Frames.{Entry, slot, is_present, ◌∪◌, ◌∖◌, get_page_table}
use fos_educational_os_proje.PageFile.{
  Below, PageFile, pdx, ptx, kernel_base, page_size, lift, load, store, clear_page, set_env,
  on_frames, free_disk_frame, claim_page, claim_frame, get_disk_page_directory, get_disk_page_table,
  pf_add_env_page, write_disk_page, read_disk_page, write_claimed, is_modified,
  e_no_page_file_space, e_table_not_exist_in_pf, e_no_vm,
}

abbrev in_grown_stack : ℕ → ℕ → Bool
in_grown_stack pages va =
    ltb ustackbottom va && ltb va (sub32 ustacktop (pages * page_size % 2 ^ 32))

-- An entry that the page file may add on its own: a page of the user heap or of the user stack.
abbrev addable : ℕ → Bool
addable va =
    (leb user_heap_start va && ltb va user_heap_max) || (leb ustackbottom va && ltb va ustacktop)

module _ {D L : Type 0} where
  unfoldable pub claimed_status : Option ℕ → M (PageFile D L) ℤ
  claimed_status none = pure e_no_page_file_space
  claimed_status (some dfn) = pure (pos 0)

  abbrev set_entry : ℕ → Entry → PageFile D L → PageFile D L
  set_entry x e s = record s { frames = record s.frames { entry = update s.frames.entry x e } }

  abbrev count_added : ℕ → M (PageFile D L) (Unit {0})
  count_added e =
      modify
        (λ s. set_env e (record (s.env e) { n_new_page_added = (s.env e).n_new_page_added + 1 }) s)

  unfoldable pub pf_calculate_free_frames : M (PageFile D L) ℕ
  pf_calculate_free_frames = gets (λ s. length s.disk_free_frame_list)

  -- The entries in use, `n` of them from `i`.
  unfoldable pub count_entries : (t i n : ℕ) → PageFile D L → ℕ
  count_entries t i zero s = 0
  count_entries t i (suc n) s = (if s.word t i == 0 then 0 else 1) + count_entries t (i + 1) n s

  unfoldable pub count_tables : (d i n : ℕ) → PageFile D L → ℕ
  count_tables d i zero s = 0
  count_tables d i (suc n) s =
      (if s.word d i == 0 then 0 else count_entries (s.word d i) 0 1024 s)
      + count_tables d (i + 1) n s

  unfoldable pub pf_calculate_allocated_pages : ℕ → M (PageFile D L) ℕ
  pf_calculate_allocated_pages e = do
    d ← gets (λ s. (s.env e).disk_env_pgdir)
    load d 0
    gets (count_tables d 0 (pdx user_top))

  -- `n` entries from `i` become 0, and their frames free.
  unfoldable pub free_entries : (t i n : ℕ) → PageFile D L → PageFile D L
  free_entries t i zero s = s
  free_entries t i (suc n) s =
      free_entries t (i + 1) n
        (free_disk_frame (s.word t i) (record s { word = update s.word t (update (s.word t) i 0) }))

  unfoldable pub pf_remove_env_all_tables : ℕ → PageFile D L → PageFile D L
  pf_remove_env_all_tables e s =
      if (s.env e).disk_env_tabledir == 0
      then s
      else free_entries (s.env e).disk_env_tabledir 0 (pdx user_top) s

  unfoldable pub pf_remove_env_table : (e va : ℕ) → PageFile D L → PageFile D L
  pf_remove_env_table e va s =
      if (s.env e).disk_env_tabledir == 0
      then s
      else free_entries (s.env e).disk_env_tabledir (pdx va) 1 s

  unfoldable pub new_table_directory : ℕ → Option ℕ → M (PageFile D L) ℤ
  new_table_directory e none = pure e_no_vm
  new_table_directory e (some p) = do
    modify (λ s. set_env e (record (s.env e) { disk_env_tabledir = p }) s)
    modify (clear_page p)
    pure (pos 0)

module _ {D L : Type 0} (B : Below D L) (ptr_zero_page : D) where
  unfoldable pub pf_add_empty_env_page :
      (e va : ℕ) → (initialize_by_zero : Bool) → M (PageFile D L) ℤ
  pf_add_empty_env_page e va false = claim_page B e va >>= claimed_status
  pf_add_empty_env_page e va true = do
    grown ← gets (λ s. in_grown_stack (s.env e).init_num_stack_pages va)
    if grown then count_added e else pure tt
    pf_add_env_page B e va ptr_zero_page

  unfoldable pub added_for_update : ℕ → ℤ → M (PageFile D L) (Unit {0})
  added_for_update e (pos n) = count_added e
  added_for_update e _ = panic

  -- A page without an entry gets one.
  unfoldable pub ensure_entry : (e va t : ℕ) → M (PageFile D L) (Unit {0})
  ensure_entry e va t = do
    dfn ← (if t == 0 then pure 0 else load t (ptx va))
    if dfn == 0
        then (if addable va then pf_add_empty_env_page e va false >>= added_for_update e else panic)
        else pure tt

  -- The page is written from its own address, marked present meanwhile.
  unfoldable pub write_present : (e va dfn : ℕ) → Option ℕ → M (PageFile D L) ℤ
  write_present e va dfn none = panic
  write_present e va dfn (some t) = do
    old ← gets (λ s. s.frames.entry (slot t va))
    modify (set_entry (slot t va) (record old { bits = old.bits ∪ is_present }))
    content ← gets (λ s. s.memory (round_down va page_size))
    r ← write_disk_page B dfn content
    modify (set_entry (slot t va) (record old { bits = old.bits ∖ is_modified }))
    modify (λ s. set_env e (record (s.env e) { n_page_out = (s.env e).n_page_out + 1 }) s)
    pure r

  unfoldable pub pf_update_env_page : ℕ → ℕ → M (PageFile D L) ℤ
  pf_update_env_page e va = do
    assert (ltb va kernel_base)
    get_disk_page_directory B e
    dir ← gets (λ s. (s.env e).disk_env_pgdir)
    t ← get_disk_page_table B dir va false
    ensure_entry e va t
    u ← get_disk_page_table B dir va false
    dfn ← load u (ptx va)
    pgdir ← gets (λ s. (s.env e).env_page_directory)
    on_frames (get_page_table pgdir va) >>= write_present e va dfn

  -- One table of the process: its frames are freed, and the table itself.
  unfoldable pub free_table : (d i t : ℕ) → M (PageFile D L) (Unit {0})
  free_table d i t =
      if t == 0 then pure tt else (do modify (free_entries t 0 1024); store d i 0; lift (B.kfree t))

  unfoldable pub free_tables : (d i n : ℕ) → M (PageFile D L) (Unit {0})
  free_tables d i zero = pure tt
  free_tables d i (suc n) = do t ← load d i; free_table d i t; free_tables d (i + 1) n

  unfoldable pub free_table_directory : (e d : ℕ) → M (PageFile D L) (Unit {0})
  free_table_directory e d = if d == 0 then pure tt else (do
    modify (pf_remove_env_all_tables e)
    lift (B.kfree d)
    modify (λ s. set_env e (record (s.env e) { disk_env_tabledir = 0 }) s))

  unfoldable pub pf_free_env : ℕ → M (PageFile D L) (Unit {0})
  pf_free_env e = do
    d ← gets (λ s. (s.env e).disk_env_pgdir)
    free_tables d 0 (pdx user_top)
    lift (B.kfree d)
    modify (λ s. set_env e (record (s.env e) { disk_env_pgdir = 0 }) s)
    td ← gets (λ s. (s.env e).disk_env_tabledir)
    free_table_directory e td

  unfoldable pub get_disk_table_directory : ℕ → M (PageFile D L) ℤ
  get_disk_table_directory e = do
    d ← gets (λ s. (s.env e).disk_env_tabledir)
    if d == 0 then lift B.kmalloc >>= new_table_directory e else pure (pos 0)

  -- `d` is what the table's address in the kernel points to.
  unfoldable pub pf_write_env_table : ℕ → ℕ → D → M (PageFile D L) ℤ
  pf_write_env_table e va d = do
    assert (ltb va kernel_base)
    get_disk_table_directory e
    td ← gets (λ s. (s.env e).disk_env_tabledir)
    claim_frame td (pdx va) >>= write_claimed B d

  -- The table goes to the address `to`.
  unfoldable pub pf_read_env_table : (e va to : ℕ) → M (PageFile D L) ℤ
  pf_read_env_table e va to = do
    td ← gets (λ s. (s.env e).disk_env_tabledir)
    dfn ← (if td == 0 then pure 0 else load td (pdx va))
    if dfn == 0 then pure e_table_not_exist_in_pf else read_disk_page B dfn to
