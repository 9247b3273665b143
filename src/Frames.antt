-- ===== src/Frames.antt =====
-- kern/mem/memory_manager.c and kern/mem/paging_helpers.c: physical frames and page tables.
--
-- A frame is its number, a page directory and a page table are named by a number too, and the entries of
-- all tables stand in one store: the entry of the address `va` in the table `t` is at `slot t va`. So
-- directories that link the same table (the kernel's part of each) share its entries. The twelve low bits
-- of an entry are a function from the bits. The map of the whole memory at KERNEL_BASE, which is written at
-- boot without counting and which no operation here changes, is not among the entries. Locks, the TLB and the contents of pages are not state here.
mod Sums
mod Inv
mod Alloc
mod Drop
pub mod Unmap
mod Address
pub mod Chunk
mod Map
mod Create
mod Boot
mod Flaws
mod Tests
use fos_educational_os_proje.Base.{
  ℕ, zero, suc, ◌+◌, ◌-◌, ◌*◌, ◌/◌, ◌%◌, ◌^◌, Bool, true, false, not, ◌&&◌, ◌||◌, Option, none,
  some, List, [], ◌∷◌, ◌==◌, ltb, if◌then◌else◌, update,
}
use fos_educational_os_proje.Base.Monad.{M, pure, gets, modify, panic, assert, ◌>>=◌, ◌>>◌}

-- inc/mmu.h: the bits of an entry below the frame's number, from the lowest.
pub data Bit : Type 0 where
  perm_present : Bit
  perm_writeable : Bit
  perm_user : Bit
  pte_pwt : Bit
  pte_pcd : Bit
  perm_used : Bit
  perm_modified : Bit
  bit_7 : Bit
  bit_8 : Bit
  perm_buffered : Bit
  perm_uhpage : Bit
  bit_11 : Bit

abbrev pub Perms : Type 0
Perms = Bit → Bool

-- PERM_AVAILABLE, and the sets of bits that the code writes
abbrev pub is_available : Perms
is_available perm_buffered = true
is_available perm_uhpage = true
is_available bit_11 = true
is_available _ = false

abbrev pub is_present : Perms
is_present perm_present = true
is_present _ = false

abbrev pub is_used : Perms
is_used perm_used = true
is_used _ = false

abbrev pub no_bits : Perms
no_bits b = false

infixl 20 ◌∪◌ ◌∩◌ ◌∖◌
abbrev pub ◌∪◌ : Perms → Perms → Perms
(p ∪ q) b = p b || q b

abbrev pub ◌∩◌ : Perms → Perms → Perms
(p ∩ q) b = p b && q b

abbrev pub ◌∖◌ : Perms → Perms → Perms
(p ∖ q) b = p b && not (q b)

-- An entry of a page table: the number of a frame, and the bits.
pub record Entry : Type 0 where
  pub frame : ℕ
  pub bits : Perms

abbrev pub empty_entry : Entry
empty_entry = record { frame = 0; bits = no_bits }

-- An entry of a page directory: none, a table that is not present, or a table.
pub data TableLink : Type 0 where
  no_table : TableLink
  away : ℕ → TableLink
  in_memory : ℕ → TableLink

pub record Frames : Type 0 where
  pub number_of_frames : ℕ
  pub free_frame_list : List ℕ
  pub modified_frame_list : List ℕ
  -- the members of struct FrameInfo
  pub references : ℕ → ℕ
  pub is_buffered : ℕ → Bool
  pub va : ℕ → ℕ
  -- the directories' entries, and the tables'
  pub link : ℕ → TableLink
  pub pd_used : ℕ → Bool
  pub entry : ℕ → Entry
  -- the kernel's directory, `ptr_page_directory`
  pub ptr_page_directory : ℕ

abbrev pub page_size : ℕ
page_size = 4096

-- PDX and PTX
unfoldable pub link_of : ℕ → ℕ → ℕ
link_of dir va = dir * 1024 + va / 4194304 % 1024

unfoldable pub slot : ℕ → ℕ → ℕ
slot table va = table * 1024 + va / page_size % 1024

unfoldable pub initialize_frame_info : ℕ → Frames → Frames
initialize_frame_info f s = record s {
  references = update s.references f 0;
  is_buffered = update s.is_buffered f false;
  va = update s.va f 0;
}

-- The loops of initialize_paging over `n` frames from `i`.
unfoldable pub reserve_frames : ℕ → ℕ → Frames → Frames
reserve_frames i zero s = s
reserve_frames i (suc n) s =
    reserve_frames (i + 1) n (record s { references = update s.references i 1 })

unfoldable pub insert_frames : ℕ → ℕ → Frames → Frames
insert_frames i zero s = s
insert_frames i (suc n) s =
    insert_frames (i + 1) n
      (record (initialize_frame_info i s) { free_frame_list = i ∷ s.free_frame_list })

abbrev pub phys_io_mem : ℕ
phys_io_mem = 655360

abbrev pub phys_extended_mem : ℕ
phys_extended_mem = 1048576

-- ROUNDUP(a, PAGE_SIZE)
unfoldable pub round_up : ℕ → ℕ
round_up a = (a + 4095) / page_size * page_size

-- `free_mem` is the physical address of `ptr_free_mem`, the end of what boot took.
unfoldable pub initialize_paging : ℕ → Frames → Frames
initialize_paging free_mem s =
    let none_free = record s { free_frame_list = []; modified_frame_list = [] } in
    let low =
      insert_frames 3 (round_up phys_io_mem / page_size - 3) (reserve_frames 0 3 none_free) in
    let hole =
      reserve_frames (phys_io_mem / page_size)
        (phys_extended_mem / page_size - phys_io_mem / page_size) low in
    let kernel =
      reserve_frames (phys_extended_mem / page_size)
        (round_up free_mem / page_size - phys_extended_mem / page_size) hole in
    insert_frames (round_up free_mem / page_size)
      (s.number_of_frames - round_up free_mem / page_size) kernel

unfoldable pub allocate_first : List ℕ → M Frames ℕ
allocate_first [] s = none
allocate_first (f ∷ q) s = some (f, initialize_frame_info f (record s { free_frame_list = q }))

unfoldable pub allocate_frame : M Frames ℕ
allocate_frame s = allocate_first s.free_frame_list s

unfoldable pub free_frame : ℕ → Frames → Frames
unfolding initialize_frame_info
free_frame f s = record (initialize_frame_info f s) { free_frame_list = f ∷ s.free_frame_list }

-- `--references`, at the 16 bits of the member
unfoldable pub decrement_references : ℕ → Frames → Frames
decrement_references f s =
    let r = (s.references f + 65535) % 2 ^ 16 in
    let s' = record s { references = update s.references f r } in
    if r == 0 then free_frame f s' else s'

-- The table of an address. One that is not present goes to fault_handler(NULL), which reads its trap
-- frame and cannot go on.
abbrev pub table_of : TableLink → M Frames (Option ℕ)
table_of no_table s = some (none, s)
table_of (away t) s = none
table_of (in_memory t) s = some (some t, s)

unfoldable pub get_page_table : ℕ → ℕ → M Frames (Option ℕ)
get_page_table dir va s = table_of (s.link (link_of dir va)) s

-- memset(ptr_page_table, 0, PAGE_SIZE)
unfoldable pub clear_table : ℕ → (ℕ → Entry) → ℕ → Entry
clear_table t e x = if x / 1024 == t then empty_entry else e x

unfoldable pub to_frame_info : ℕ → M Frames ℕ
to_frame_info ppn = do n ← gets Frames.number_of_frames; assert (ltb ppn n); pure ppn

-- An entry that stands for a frame: a page that is mapped or buffered.
abbrev pub is_held : Entry → Bool
is_held e = not (e.frame == 0) || (e.bits perm_present || e.bits perm_buffered)

-- The table and the frame of an address.
unfoldable pub get_frame_info : ℕ → ℕ → M Frames (Option ℕ × Option ℕ)
get_frame_info dir va s = (get_page_table dir va >>= in_table) s
  where
    in_table : Option ℕ → M Frames (Option ℕ × Option ℕ)
    in_table none = pure (none, none)
    in_table (some t) = λ s.
        if is_held (s.entry (slot t va))
        then (do f ← to_frame_info (s.entry (slot t va)).frame; pure (some t, some f)) s
        else some ((some t, none), s)

-- What unmap_frame does with the frame it found.
abbrev pub drop_frame : ℕ → ℕ → ℕ → Frames → Frames
drop_frame t va f s =
    let s' = decrement_references f s in
    record s' {
      va = update s'.va f 0;
      entry =
          update s'.entry (slot t va)
            (record { frame = 0; bits = (s'.entry (slot t va)).bits ∩ is_available });
    }

unfoldable pub unmap_frame : ℕ → ℕ → M Frames (Unit {0})
unmap_frame dir va = get_frame_info dir va >>= drop
  where
    drop : Option ℕ × Option ℕ → M Frames (Unit {0})
    drop (some t, some f) = modify (drop_frame t va f)
    drop _ = pure tt

-- The end of map_frame.
abbrev pub add_frame : ℕ → ℕ → ℕ → Perms → Frames → Frames
add_frame t f va perm s = record s {
  references = update s.references f ((s.references f + 1) % 2 ^ 16);
  va = update s.va f va;
  entry =
      update s.entry (slot t va) (record {
        frame = f;
        bits = (s.entry (slot t va)).bits ∩ is_available ∪ perm ∪ is_present;
      });
}

-- map_frame, once there is a table.
unfoldable pub map_in : ℕ → ℕ → ℕ → ℕ → Perms → M Frames (Unit {0})
map_in t dir f va perm s =
    if (s.entry (slot t va)).bits perm_present
    then if (s.entry (slot t va)).frame == f
      then some (tt, s)
      else (unmap_frame dir va >> modify (add_frame t f va perm)) s
    else some (tt, add_frame t f va perm s)

-- `kmalloc` is kmalloc(PAGE_SIZE): the number of a table, or none for NULL.
module _ (kmalloc : M Frames (Option ℕ)) where
  unfoldable pub create_page_table : ℕ → ℕ → M Frames ℕ
  create_page_table dir va = kmalloc >>= linked
    where
      linked : Option ℕ → M Frames ℕ
      linked none = panic
      linked (some t) = do
        modify (λ s. record s {
          link = update s.link (link_of dir va) (in_memory t);
          pd_used = update s.pd_used (link_of dir va) false;
        })
        modify (λ s. record s { entry = clear_table t s.entry })
        pure t

  unfoldable pub map_frame : ℕ → ℕ → ℕ → Perms → M Frames (Unit {0})
  map_frame dir f va perm = do t ← get_page_table dir va >>= or_new; map_in t dir f va perm
    where
      or_new : Option ℕ → M Frames ℕ
      or_new none = create_page_table dir va
      or_new (some t) = pure t

  -- `false` stands for 1, the page was mapped before. `set_to_zero` is not state here.
  unfoldable pub alloc_page : ℕ → ℕ → Perms → M Frames Bool
  alloc_page dir va perms = get_frame_info dir va >>= fresh
    where
      fresh : Option ℕ × Option ℕ → M Frames Bool
      fresh (t, some f) = pure false
      fresh (t, none) = do f ← allocate_frame; map_frame dir f va perms; pure true

  unfoldable pub loadtime_map_frame : ℕ → ℕ → ℕ → Perms → M Frames (Unit {0})
  loadtime_map_frame dir f va perm = do
    l ← gets (λ s. s.link (link_of dir va))
    t ← table l
    modify (λ s. record s {
      references = update s.references f ((s.references f + 1) % 2 ^ 16);
      entry = update s.entry (slot t va) (record { frame = f; bits = perm ∪ is_present });
    })
    where
      table : TableLink → M Frames ℕ
      table no_table = create_page_table dir va
      table (away t) = pure t
      table (in_memory t) = pure t

unfoldable pub pt_set_page_permissions : ℕ → ℕ → Perms → Perms → M Frames (Unit {0})
pt_set_page_permissions dir va permissions_to_set permissions_to_clear =
    get_page_table dir va >>= set_bits
  where
    set_bits : Option ℕ → M Frames (Unit {0})
    set_bits none = panic
    set_bits (some t) = modify (λ s. record s {
      entry = update s.entry (slot t va) (record {
        frame = (s.entry (slot t va)).frame;
        bits = (s.entry (slot t va)).bits ∪ permissions_to_set ∖ permissions_to_clear;
      });
    })

-- `none` for -1
unfoldable pub pt_get_page_permissions : ℕ → ℕ → M Frames (Option Perms)
pt_get_page_permissions dir va = get_page_table dir va >>= bits
  where
    bits : Option ℕ → M Frames (Option Perms)
    bits none = pure none
    bits (some t) = gets (λ s. some (s.entry (slot t va)).bits)

unfoldable pub num_of_references : ℕ → M Frames ℕ
num_of_references ppn = do f ← to_frame_info ppn; gets (λ s. s.references f)

-- `kfree` is kfree of the table. The directory of the argument is not read.
unfoldable pub del_page_table : (ℕ → M Frames (Unit {0})) → ℕ → ℕ → M Frames (Unit {0})
del_page_table kfree page_dir va = do
  dir ← gets Frames.ptr_page_directory
  t ← get_page_table dir va
  delete dir t
  where
    delete : ℕ → Option ℕ → M Frames (Unit {0})
    delete dir none = pure tt
    delete dir (some t) = do
      kfree t
      modify (λ s. record s { link = update s.link (link_of s.ptr_page_directory va) no_table })

unfoldable pub pd_is_table_used : ℕ → ℕ → Frames → Bool
pd_is_table_used dir va s = s.pd_used (link_of dir va)

unfoldable pub pd_set_table_unused : ℕ → ℕ → Frames → Frames
pd_set_table_unused dir va s = record s { pd_used = update s.pd_used (link_of dir va) false }

unfoldable pub pd_clear_page_dir_entry : ℕ → ℕ → Frames → Frames
pd_clear_page_dir_entry dir va s = record s {
  link = update s.link (link_of dir va) no_table;
  pd_used = update s.pd_used (link_of dir va) false;
}

-- struct freeFramesCounters
pub record FreeFramesCounters : Type 0 where
  pub free_buffered : ℕ
  pub free_not_buffered : ℕ
  pub modified : ℕ

abbrev pub count_if : (ℕ → Bool) → List ℕ → ℕ
count_if p [] = 0
count_if p (f ∷ fs) = (if p f then 1 else 0) + count_if p fs

unfoldable pub calculate_available_frames : Frames → FreeFramesCounters
calculate_available_frames s = record {
  free_buffered = count_if s.is_buffered s.free_frame_list;
  free_not_buffered = count_if (λ f. not (s.is_buffered f)) s.free_frame_list;
  modified = count_if (λ f. true) s.modified_frame_list;
}
