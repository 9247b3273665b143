-- ===== src/Frames/Address.antt =====
-- kern/mem/kheap.c: kheap_virtual_address, kheap_physical_address, get_page and return_page, over the frames
-- and the page tables. The lock of the heap, which the first two hold meanwhile, is not state here.
use fos_educational_os_proje.Base.{
  ℕ, ◌+◌, ◌*◌, ◌/◌, ◌%◌, ◌^◌, ◌≤◌, ◌<◌, ◌≡◌, ap, Bool, true, false, ◌&&◌, ◌||◌, Option, none, some,
  ◌==◌, ltb, leb, if◌then◌else◌, ==-ne, lt→ltb, arith,
}
use fos_educational_os_proje.Base.Monad.{M, pure, gets, ◌>>=◌, ◌>>◌}
use fos_educational_os_proje.KHeap.{kernel_heap_max, round_down}
use fos_educational_os_proje.Frames.{
  Frames, Perms, perm_writeable, alloc_page, unmap_frame, perm_present, in_memory, slot, link_of,
  page_size, get_page_table, to_frame_info,
}
use fos_educational_os_proje.Frames.Unmap.{get_page_table-linked}

-- The bounds of the two regions of the kernel heap.
pub record Limits : Type 0 where
  pub dyn_alloc_start : ℕ
  pub dyn_alloc_end : ℕ
  pub page_alloc_start : ℕ

abbrev pub in_region : Limits → ℕ → Bool
in_region lim va =
    (leb lim.dyn_alloc_start va && ltb va lim.dyn_alloc_end)
    || (leb lim.page_alloc_start va && ltb va kernel_heap_max)

unfoldable pub kheap_virtual_address : Limits → ℕ → M Frames ℕ
kheap_virtual_address lim pa = to_frame_info (pa / page_size) >>= address
  where
    address : ℕ → M Frames ℕ
    address f = do
      base ← gets (λ s. s.va f)
      if base == 0
          then pure 0
          else (if in_region lim base then pure ((base + pa % page_size) % 2 ^ 32) else pure 0)

unfoldable pub kheap_physical_address : Limits → ℕ → M Frames ℕ
kheap_physical_address lim va =
    if in_region lim va
    then (gets Frames.ptr_page_directory >>= λ dir. (get_page_table dir va >>= address))
    else pure 0
  where
    address : Option ℕ → M Frames ℕ
    address none = pure 0
    address (some t) = do
      e ← gets (λ s. s.entry (slot t va))
      if e.bits perm_present then pure ((e.frame * page_size + va % page_size) % 2 ^ 32) else pure 0

abbrev pub is_writeable : Perms
is_writeable perm_writeable = true
is_writeable _ = false

-- get_page and return_page of kern/mem/kheap.c, which serve the block allocator; a page that is there already
-- stays.
unfoldable pub get_page : M Frames (Option ℕ) → ℕ → M Frames (Unit {0})
get_page kmalloc va = do
  dir ← gets Frames.ptr_page_directory
  alloc_page kmalloc dir (round_down va page_size) is_writeable
  pure tt

unfoldable pub return_page : ℕ → M Frames (Unit {0})
return_page va = do dir ← gets Frames.ptr_page_directory; unmap_frame dir (round_down va page_size)

-- For an address of 32 bits in a region of the kernel heap, on a page that is not the first of
-- memory and starts in a region too, with at most 2 ^ 20 frames, where the kernel's directory
-- links a table in which the address is present with a frame that exists, whose member `va` is the
-- page's address: kheap_virtual_address of the result of kheap_physical_address is the address
-- again, and the state is as before.
pub physical-virtual :
    (lim : Limits) (va t : ℕ) (s : Frames)
    → va < 2 ^ 32
    → s.number_of_frames ≤ 1048576
    → in_region lim va ≡ true
    → in_region lim (va / page_size * page_size) ≡ true
    → 0 < va / page_size
    → s.link (link_of s.ptr_page_directory va) ≡ in_memory t
    → (s.entry (slot t va)).bits perm_present ≡ true
    → (s.entry (slot t va)).frame < s.number_of_frames
    → s.va (s.entry (slot t va)).frame ≡ va / page_size * page_size
    → (kheap_physical_address lim va >>= kheap_virtual_address lim) s ≡ some (va, s)
unfolding kheap_physical_address kheap_virtual_address to_frame_info
physical-virtual lim va t s l n inside base pos e p r b = rw inside (
    rw (get_page_table-linked s.ptr_page_directory va t s e) (
      rw p (
        rw (frame_back (s.entry (slot t va)).frame va (omega arith)) (
          rw (lt→ltb _ _ r) (
            rw b (
              rw (==-ne (va / page_size * page_size) 0 (λ z. omega arith)) (
                rw base (
                  ap (λ k. some (k, s))
                    (whole (s.entry (slot t va)).frame va (omega arith) l)))))))))
  where
    frame_back :
        (f va : ℕ) → f < 1048576 → (f * page_size + va % page_size) % 2 ^ 32 / page_size ≡ f
    frame_back f va l = omega arith

    whole :
        (f va : ℕ)
        → f < 1048576
        → va < 2 ^ 32
        → (va / page_size * page_size + (f * page_size + va % page_size) % 2 ^ 32 % page_size)
            % 2 ^ 32
          ≡ va
    whole f va l m = omega arith
