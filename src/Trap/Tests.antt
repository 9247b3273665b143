-- ===== src/Trap/Tests.antt =====
-- A fault at a marked page of the user heap, in a process with one page table.
use fos_educational_os_proje.Base.{
  ℕ, ◌≡◌, ◌↔◌, inl, refl, true, false, Option, none, some, [], arith, Yields,
}
use fos_educational_os_proje.Base.Monad.{M}
use fos_educational_os_proje.Frames.{Frames, in_memory, Perms, perm_uhpage}
use fos_educational_os_proje.Trap.{Faults, Trapframe, page_fault, fault_handler}
use fos_educational_os_proje.Trap.Checks.{IsPlaceable, fault_handler-IsPlaceable}

abbrev marked : Perms
marked perm_uhpage = true
marked _ = false

abbrev no_kmalloc : M Frames (Option ℕ)
no_kmalloc s = some (none, s)

abbrev before : Faults
before = record {
  last_eip = 0;
  before_last_eip = 0;
  last_fault_va = 0x80001000;
  before_last_fault_va = 0;
  num_repeated_fault = 1;
  last_faulted_env = 5;
  table_faults_counter = λ p. 0;
  page_faults_counter = λ p. 0;
  env_page_directory = λ p. 1;
  kstack = λ p. 0xF0010000;
  cpu_stack = 0xF0000000;
  cpu_proc = 5;
  frames = record {
    number_of_frames = 8;
    free_frame_list = [];
    modified_frame_list = [];
    references = λ f. 0;
    is_buffered = λ f. false;
    va = λ f. 0;
    link = λ x. in_memory 2;
    pd_used = λ x. false;
    entry = λ x. record { frame = 0; bits = marked };
    ptr_page_directory = 1;
  };
}

abbrev user_trap : Trapframe
user_trap = record { tf_eip = 0x800020; tf_cs = 0x1B }

fault_handler-IsPlaceable_example :
    Yields (λ r. r.0 ≡ page_fault) (fault_handler no_kmalloc 0x80002000 user_trap before)
    ↔ IsPlaceable 0x80002000 marked
fault_handler-IsPlaceable_example =
    fault_handler-IsPlaceable no_kmalloc 0x80002000 2 user_trap before refl (omega arith) refl
      (inl (omega arith)) refl
