-- ===== src/Trap.antt =====
-- kern/trap/fault_handler.c and kern/trap/syscall.c: the checks of a page fault, and the system calls on the
-- memory of a process. A process is the address of its struct Env.
mod Checks
mod Tests
use fos_educational_os_proje.Base.{
  ℕ, ◌+◌, ◌-◌, ◌*◌, ◌/◌, ◌%◌, ◌^◌, Bool, true, false, not, ◌&&◌, ◌||◌, Option, none, some, ◌==◌,
  ltb, leb, if◌then◌else◌, update,
}
use fos_educational_os_proje.Base.Int.{ℤ, pos, negsuc}
use fos_educational_os_proje.Base.Layout.{user_heap_start, user_heap_max, user_top, ustacktop}
use fos_educational_os_proje.Base.Monad.{M, pure, ◌>>=◌, ◌>>◌, gets, modify, panic, assert}
use fos_educational_os_proje.KHeap.{add32, kernel_heap_max}
use fos_educational_os_proje.Frames.{
  Frames, Perms, Bit, TableLink, no_table, away, in_memory, perm_present, perm_writeable, perm_user,
  perm_uhpage, pte_pwt, pte_pcd, perm_used, perm_modified, bit_7, bit_8, link_of, page_size,
  create_page_table, pt_get_page_permissions, alloc_page, unmap_frame,
}
use fos_educational_os_proje.Frames.Chunk.{allocate_user_mem, free_user_mem}

abbrev pub null : ℕ
null = 0

-- The globals of the handler, the counters of the processes, and what the handler reads.
pub record Faults : Type 0 where
  pub last_eip : ℕ
  pub before_last_eip : ℕ
  pub last_fault_va : ℕ
  pub before_last_fault_va : ℕ
  pub num_repeated_fault : ℕ
  pub last_faulted_env : ℕ
  pub table_faults_counter : ℕ → ℕ
  pub page_faults_counter : ℕ → ℕ
  pub env_page_directory : ℕ → ℕ
  pub kstack : ℕ → ℕ
  pub cpu_stack : ℕ
  pub cpu_proc : ℕ
  pub frames : Frames

-- struct Trapframe: the members that the handler reads.
pub record Trapframe : Type 0 where
  pub tf_eip : ℕ
  pub tf_cs : ℕ

-- How a call of fault_handler ends: after table_fault_handler, with the end of the process, or with the call of
-- the handler of page faults.
pub data Verdict : Type 0 where
  table_made exited page_fault : Verdict

abbrev pub on_frames_result : {A : Type 0} → Faults → Option (A × Frames) → Option (A × Faults)
on_frames_result s none = none
on_frames_result s (some (a, f)) = some (a, record s { frames = f })

abbrev pub on_frames : {A : Type 0} → M Frames A → M Faults A
on_frames m s = on_frames_result s (m s.frames)

-- The third repetition of a fault by one process is a panic.
unfoldable pub note_repeated : ℕ → M Faults (Unit {0})
note_repeated va s =
    if (s.last_fault_va == va) && (s.last_faulted_env == s.cpu_proc)
    then (if s.num_repeated_fault + 1 == 3
        then none
        else some (tt, record s { num_repeated_fault = s.num_repeated_fault + 1 }))
    else some (
      tt,
      record s {
        before_last_fault_va = s.last_fault_va;
        before_last_eip = s.last_eip;
        num_repeated_fault = 0;
      },
    )

unfoldable pub note_fault : ℕ → Trapframe → M Faults (Unit {0})
note_fault va tf = do
  note_repeated va
  modify (λ s. record s { last_eip = tf.tf_eip; last_fault_va = va; last_faulted_env = s.cpu_proc })

abbrev pub is_user_trap : Trapframe → Bool
is_user_trap tf = tf.tf_cs % 4 == 3

abbrev pub on_stack_page : (stack va : ℕ) → Bool
on_stack_page stack va = leb stack va && ltb va (add32 stack page_size)

-- The overflow of a stack of the kernel or of its heap, and the underflow of the user's stack.
unfoldable pub check_stacks : (user_trap : Bool) → ℕ → M Faults (Unit {0})
check_stacks false va = do
  p ← gets (λ s. s.cpu_proc)
  stack ← gets (λ s. s.kstack p)
  assert (not (not (p == null) && on_stack_page stack va))
  cpu ← gets (λ s. s.cpu_stack)
  assert (not (on_stack_page cpu va))
  assert (ltb va kernel_heap_max)
check_stacks true va = assert (not (leb ustacktop va && ltb va user_top))

-- A pointer to an unmarked page of the user heap, to the kernel, or to a page that is read-only.
abbrev pub is_invalid : ℕ → Perms → Bool
is_invalid va perms =
    ((leb user_heap_start va && ltb va user_heap_max) && not (perms perm_uhpage))
    || (leb ustacktop va || (perms perm_present && not (perms perm_writeable)))

-- PERM_PRESENT of the directory's entry
abbrev pub is_table_present : TableLink → Bool
is_table_present (in_memory t) = true
is_table_present _ = false

-- A page that is present was reached without the right to.
unfoldable pub count_page_fault : (present : Bool) → (p : ℕ) → M Faults Verdict
count_page_fault true p = panic
count_page_fault false p = do
  modify (λ s. record s {
    page_faults_counter = update s.page_faults_counter p (s.page_faults_counter p + 1);
  })
  pure page_fault

unfoldable pub handle_present : (user_trap : Bool) → (p va : ℕ) → Option Perms → M Faults Verdict
handle_present user_trap p va none = panic
handle_present user_trap p va (some perms) =
    if user_trap && is_invalid va perms
    then pure exited
    else count_page_fault (perms perm_present) p

module _ (kmalloc : M Frames (Option ℕ)) where
  unfoldable pub table_fault_handler : (p va : ℕ) → M Faults Verdict
  table_fault_handler p va = do
    modify (λ s. record s {
      table_faults_counter = update s.table_faults_counter p (s.table_faults_counter p + 1);
    })
    dir ← gets (λ s. s.env_page_directory p)
    on_frames (create_page_table kmalloc dir va)
    pure table_made

  unfoldable pub handle_fault : (user_trap : Bool) → (p va : ℕ) → M Faults Verdict
  handle_fault user_trap p va = do
    dir ← gets (λ s. s.env_page_directory p)
    present ← gets (λ s. is_table_present (s.frames.link (link_of dir va)))
    if present
        then on_frames (pt_get_page_permissions dir va) >>= handle_present user_trap p va
        else table_fault_handler p va

  unfoldable pub check_fault : ℕ → Trapframe → M Faults Verdict
  check_fault va tf = do
    check_stacks (is_user_trap tf) va
    p ← gets (λ s. s.cpu_proc)
    assert (not (p == null))
    handle_fault (is_user_trap tf) p va

  -- Up to the flush of the TLB; `va` is what the register CR2 holds.
  unfoldable pub fault_handler : ℕ → Trapframe → M Faults Verdict
  fault_handler va tf = do note_fault va tf; check_fault va tf

abbrev pub e_inval : ℤ
e_inval = negsuc 2

abbrev pub e_bad_env : ℤ
e_bad_env = negsuc 1

-- Of the bits of `perm` besides PERM_AVAILABLE and PERM_WRITEABLE, PERM_USER alone is set.
abbrev pub appropriate : Perms → Bool
appropriate perm =
    perm perm_user
    && (not (perm perm_present)
        && (not (perm pte_pwt)
            && (not (perm pte_pcd)
                && (not (perm perm_used)
                    && (not (perm perm_modified) && (not (perm bit_7) && not (perm bit_8)))))))

-- The range of a system call on the user heap.
abbrev pub is_illegal : (va size : ℕ) → Bool
is_illegal va size =
    (va == 0)
    || (leb user_heap_max va
        || (ltb va user_heap_start
            || (leb user_heap_max (add32 va size) || ltb (add32 va size) user_heap_start)))

-- How a system call on the user heap ends: `none` is the end of the process.
unfoldable pub sys_allocate_user_mem :
    M Frames (Option ℕ) → ℕ → (va size : ℕ) → M Faults (Option (Unit {0}))
sys_allocate_user_mem kmalloc p va size = if is_illegal va size then pure none else (do
  dir ← gets (λ s. s.env_page_directory p)
  on_frames (allocate_user_mem kmalloc dir va size)
  pure (some tt))

unfoldable pub sys_free_user_mem :
    (pf_remove_env_page env_page_ws_invalidate : ℕ → M Frames (Unit {0}))
    → ℕ
    → (va size : ℕ) → M Faults (Option (Unit {0}))
sys_free_user_mem pf_remove_env_page env_page_ws_invalidate p va size =
    if is_illegal va size then pure none else (do
      dir ← gets (λ s. s.env_page_directory p)
      on_frames (free_user_mem pf_remove_env_page env_page_ws_invalidate dir va size)
      pure (some tt))

unfoldable pub sys_unmap_frame : (p va : ℕ) → M Faults ℤ
sys_unmap_frame p va =
    if p == null
    then pure e_bad_env
    else if leb user_top va || not (va % page_size == 0)
    then pure e_inval
    else (do dir ← gets (λ s. s.env_page_directory p); on_frames (unmap_frame dir va); pure (pos 0))

unfoldable pub sys_allocate_page : M Frames (Option ℕ) → (p va : ℕ) → Perms → M Faults ℤ
sys_allocate_page kmalloc p va perm =
    if p == null
    then pure e_bad_env
    else if leb user_top va || not (va % page_size == 0)
    then pure e_inval
    else if not (appropriate perm)
    then pure e_inval
    else (do
      dir ← gets (λ s. s.env_page_directory p)
      on_frames (alloc_page kmalloc dir va perm)
      pure (pos 0))
