-- ===== src/Base/Layout.antt =====
-- inc/memlayout.h: the user's part of the address space.
use Prim.Native.Nat.{ℕ, ◌+◌, ◌-◌, ◌*◌, ◌/◌, ◌%◌, ◌^◌}

abbrev pub user_heap_start : ℕ
user_heap_start = 0x80000000

abbrev pub user_heap_max : ℕ
user_heap_max = 0xA0000000

abbrev pub user_top : ℕ
user_top = 0xEEC00000

abbrev pub ustacktop : ℕ
ustacktop = user_top - 2 * 4096

-- sizeof(struct WorkingSetElement) * USER_TOP is taken at 32 bits.
abbrev pub ustackbottom : ℕ
ustackbottom = user_heap_max + 24 * user_top % 2 ^ 32 / 4096
