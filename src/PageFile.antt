-- ===== src/PageFile.antt =====
-- kern/disk/pagefile_manager.c: the page file, which keeps the pages of the processes on disk.
--
-- `D` is the content of a page and `L` the state below: the disk's controller and the kernel heap. A disk
-- frame is its number. The words of the disk's page directories, page tables and table directories, which are
-- pages of the kernel heap, stand in one store by page and index; an entry of a directory, which the code
-- keeps as a physical address with PERM_PRESENT, is the table's address. The members of the disk's FrameInfo
-- array but its list, and dfllock, are not state here.
mod Pages
mod Linked
mod Lookup
mod Inv
mod Claim
mod Found
mod Add
mod Remove
mod Read
mod Whole
mod Start
mod Heap
mod Tests
use fos_educational_os_proje.Base.{
  ℕ, zero, suc, ◌+◌, ◌*◌, ◌/◌, ◌%◌, ◌-◌, ◌^◌, Bool, true, false, Option, none, some, List, [], ◌∷◌,
  ◌==◌, ltb, if◌then◌else◌, update,
}
use fos_educational_os_proje.Base.Int.{ℤ, pos, negsuc}
use fos_educational_os_proje.Base.Monad.{M, pure, ◌>>=◌, ◌>>◌, gets, modify, panic, assert}
use fos_educational_os_proje.Frames.{Frames, Perms, perm_modified, no_bits, pt_set_page_permissions}

abbrev pub kernel_base : ℕ
kernel_base = 0xF0000000

abbrev pub page_size : ℕ
page_size = 4096

abbrev pub page_file_start_sector : ℕ
page_file_start_sector = 40960

abbrev pub sector_per_page : ℕ
sector_per_page = 8

abbrev pub pages_per_file : ℕ
pages_per_file = 133120

abbrev pub e_no_page_file_space : ℤ
e_no_page_file_space = negsuc 7

abbrev pub e_page_not_exist_in_pf : ℤ
e_page_not_exist_in_pf = negsuc 8

abbrev pub e_table_not_exist_in_pf : ℤ
e_table_not_exist_in_pf = negsuc 9

abbrev pub e_no_vm : ℤ
e_no_vm = negsuc 19

-- PDX and PTX
abbrev pub pdx : ℕ → ℕ
pdx va = va / 4194304 % 1024

abbrev pub ptx : ℕ → ℕ
ptx va = va / 4096 % 1024

-- Members of struct Env.
pub record DiskEnv : Type 0 where
  pub env_page_directory : ℕ
  pub disk_env_pgdir : ℕ
  pub disk_env_tabledir : ℕ
  pub init_num_stack_pages : ℕ
  pub n_new_page_added : ℕ
  pub n_page_in : ℕ
  pub n_page_out : ℕ

-- What the page file calls: kmalloc of a page (`none` for NULL), kfree, and the disk's driver for the
-- eight sectors from a sector, with its status.
pub record Below (D L : Type 0) : Type 0 where
  pub kmalloc : M L (Option ℕ)
  pub kfree : ℕ → M L (Unit {0})
  pub ide_read : ℕ → M L (ℤ × D)
  pub ide_write : ℕ → D → M L ℤ

-- `memory` is what the pages of the current address space hold, by the address of the page.
pub record PageFile (D L : Type 0) : Type 0 where
  pub disk_free_frame_list : List ℕ
  pub word : ℕ → ℕ → ℕ
  pub env : ℕ → DiskEnv
  pub memory : ℕ → D
  pub frames : Frames
  pub low : L

module _ {D L : Type 0} where
  abbrev pub lifted : {A : Type 0} → PageFile D L → Option (A × L) → Option (A × PageFile D L)
  lifted s none = none
  lifted s (some (a, l)) = some (a, record s { low = l })

  abbrev pub lift : {A : Type 0} → M L A → M (PageFile D L) A
  lift m s = lifted s (m s.low)

  abbrev pub on_frames_result :
      {A : Type 0} → PageFile D L → Option (A × Frames) → Option (A × PageFile D L)
  on_frames_result s none = none
  on_frames_result s (some (a, f)) = some (a, record s { frames = f })

  abbrev pub on_frames : {A : Type 0} → M Frames A → M (PageFile D L) A
  on_frames m s = on_frames_result s (m s.frames)

  -- A read and a write of a word; through NULL, a fault of the kernel.
  unfoldable pub load : ℕ → ℕ → M (PageFile D L) ℕ
  load p i s = if p == 0 then none else some (s.word p i, s)

  abbrev pub poke : ℕ → ℕ → ℕ → PageFile D L → PageFile D L
  poke p i v s = record s { word = update s.word p (update (s.word p) i v) }

  unfoldable pub store : ℕ → ℕ → ℕ → M (PageFile D L) (Unit {0})
  store p i v s = if p == 0 then none else some (tt, poke p i v s)

  -- memset(p, 0, PAGE_SIZE)
  abbrev pub clear_page : ℕ → PageFile D L → PageFile D L
  clear_page p s = record s { word = update s.word p (λ i. 0) }

  abbrev pub set_env : ℕ → DiskEnv → PageFile D L → PageFile D L
  set_env e d s = record s { env = update s.env e d }

  -- `n` frames from `i`
  unfoldable pub insert_disk_frames : (i n : ℕ) → PageFile D L → PageFile D L
  insert_disk_frames i zero s = s
  insert_disk_frames i (suc n) s =
      insert_disk_frames (i + 1) n (record s { disk_free_frame_list = i ∷ s.disk_free_frame_list })

  unfoldable pub initialize_disk_page_file : PageFile D L → PageFile D L
  initialize_disk_page_file s =
      insert_disk_frames 1 (pages_per_file - 1) (record s { disk_free_frame_list = [] })

  unfoldable pub allocate_first : List ℕ → M (PageFile D L) (Option ℕ)
  allocate_first [] s = some (none, s)
  allocate_first (f ∷ q) s = some (some f, record s { disk_free_frame_list = q })

  -- `none` for E_NO_PAGE_FILE_SPACE
  unfoldable pub allocate_disk_frame : M (PageFile D L) (Option ℕ)
  allocate_disk_frame s = allocate_first s.disk_free_frame_list s

  unfoldable pub free_disk_frame : ℕ → PageFile D L → PageFile D L
  free_disk_frame dfn s =
      if dfn == 0 then s else record s { disk_free_frame_list = dfn ∷ s.disk_free_frame_list }

  unfoldable pub new_directory : ℕ → Option ℕ → M (PageFile D L) ℤ
  new_directory e none = pure e_no_vm
  new_directory e (some p) = do
    modify (λ s. set_env e (record (s.env e) { disk_env_pgdir = p }) s)
    modify (clear_page p)
    pure (pos 0)

  -- The table is 0 where kmalloc gives NULL.
  unfoldable pub new_table : ℕ → ℕ → Option ℕ → M (PageFile D L) ℕ
  new_table dir va none = pure 0
  new_table dir va (some p) = do store dir (pdx va) p; modify (clear_page p); pure p

  unfoldable pub claim_new : ℕ → ℕ → Option ℕ → M (PageFile D L) (Option ℕ)
  claim_new t i none = pure none
  claim_new t i (some dfn) = do store t i dfn; pure (some dfn)

  -- The disk frame of an entry, a free one where it has none; `none` for E_NO_PAGE_FILE_SPACE.
  unfoldable pub claim_frame : ℕ → ℕ → M (PageFile D L) (Option ℕ)
  claim_frame t i = do
    dfn ← load t i
    if dfn == 0 then allocate_disk_frame >>= claim_new t i else pure (some dfn)

  -- The rest of pf_remove_env_page, with the table `t`.
  unfoldable pub remove_entry : (va t : ℕ) → M (PageFile D L) (Unit {0})
  remove_entry va t =
      if t == 0
      then pure tt
      else (do dfn ← load t (ptx va); store t (ptx va) 0; modify (free_disk_frame dfn))

-- PERM_MODIFIED
abbrev pub is_modified : Perms
is_modified perm_modified = true
is_modified _ = false

-- The end of pf_read_env_page, with the status of the read.
unfoldable pub finish_read : {D L : Type 0} → ℕ → (va : ℕ) → ℤ → M (PageFile D L) ℤ
finish_read e va c = do
  dir ← gets (λ s. (s.env e).env_page_directory)
  on_frames (pt_set_page_permissions dir va no_bits is_modified)
  modify (λ s. set_env e (record (s.env e) { n_page_in = (s.env e).n_page_in + 1 }) s)
  pure c

abbrev pub sector_of : ℕ → ℕ
sector_of dfn = (page_file_start_sector + dfn * sector_per_page) % 2 ^ 32

abbrev pub is_zero : ℤ → Bool
is_zero (pos n) = n == 0
is_zero (negsuc n) = false

module _ {D L : Type 0} (B : Below D L) where
  unfoldable pub read_disk_page : (dfn va : ℕ) → M (PageFile D L) ℤ
  read_disk_page dfn va = do
    r ← lift (B.ide_read (sector_of dfn))
    modify (λ s. record s { memory = update s.memory va (r.1) })
    pure (r.0)

  unfoldable pub write_disk_page : ℕ → D → M (PageFile D L) ℤ
  write_disk_page dfn d = do r ← lift (B.ide_write (sector_of dfn) d); assert (is_zero r); pure r

  -- Each call passes the member disk_env_pgdir, which takes the directory.
  unfoldable pub get_disk_page_directory : ℕ → M (PageFile D L) ℤ
  get_disk_page_directory e = do
    dir ← gets (λ s. (s.env e).disk_env_pgdir)
    if dir == 0 then lift B.kmalloc >>= new_directory e else pure (pos 0)

  -- The table that the call sets, 0 for NULL. No call looks at the status.
  unfoldable pub get_disk_page_table : ℕ → ℕ → (create : Bool) → M (PageFile D L) ℕ
  get_disk_page_table dir va create = do
    t ← load dir (pdx va)
    if t == 0 then (if create then lift B.kmalloc >>= new_table dir va else pure 0) else pure t

  -- The part that pf_add_empty_env_page and pf_add_env_page share.
  unfoldable pub claim_page : ℕ → ℕ → M (PageFile D L) (Option ℕ)
  claim_page e va = do
    assert (ltb va kernel_base)
    get_disk_page_directory e
    dir ← gets (λ s. (s.env e).disk_env_pgdir)
    t ← get_disk_page_table dir va true
    claim_frame t (ptx va)

  unfoldable pub write_claimed : D → Option ℕ → M (PageFile D L) ℤ
  write_claimed d none = pure e_no_page_file_space
  write_claimed d (some dfn) = write_disk_page dfn d

  -- `d` is what dataSrc, an address of the kernel, points to.
  unfoldable pub pf_add_env_page : ℕ → ℕ → D → M (PageFile D L) ℤ
  pf_add_env_page e va d = claim_page e va >>= write_claimed d

  -- The table in which the page is looked up, 0 where there is none.
  unfoldable pub find_table : ℕ → ℕ → M (PageFile D L) ℕ
  find_table e va = do
    dir ← gets (λ s. (s.env e).disk_env_pgdir)
    if dir == 0 then pure 0 else get_disk_page_table dir va false

  unfoldable pub pf_remove_env_page : ℕ → ℕ → M (PageFile D L) (Unit {0})
  pf_remove_env_page e va = find_table e va >>= remove_entry va

  -- A page that has the disk frame `dfn`.
  unfoldable pub read_found : ℕ → (va dfn : ℕ) → M (PageFile D L) ℤ
  read_found e va dfn = read_disk_page dfn va >>= finish_read e va

  unfoldable pub read_entry : ℕ → (va dfn : ℕ) → M (PageFile D L) ℤ
  read_entry e va dfn = if dfn == 0 then pure e_page_not_exist_in_pf else read_found e va dfn

  unfoldable pub read_table : ℕ → (va t : ℕ) → M (PageFile D L) ℤ
  read_table e va t =
      if t == 0 then pure e_page_not_exist_in_pf else load t (ptx va) >>= read_entry e va

  -- From the start of the page.
  unfoldable pub pf_read_env_page : ℕ → ℕ → M (PageFile D L) ℤ
  pf_read_env_page e a = let va = a - a % page_size in find_table e va >>= read_table e va
