-- ===== src/Frames/Tests.antt =====
-- Runs of the frame manager at concrete states, and the theorems applied to them.
use fos_educational_os_proje.Base.{
  ℕ, ◌/◌, ◌<◌, ◌≡◌, refl, ◌≢◌, Bool, true, false, Option, none, some, [], ◌∷◌, ◌==◌, has, Yields,
  yields, not, Bool-cases, inl, inr, false≢true, sym, ◌∙◌, if◌then◌else◌, arith, subst, ◌*◌, ◌⊎◌,
  ◌+◌, ◌≤◌,
}
use fos_educational_os_proje.Base.Monad.{M, pure, ◌>>=◌}
use fos_educational_os_proje.Frames.{
  Frames, Entry, Bit, no_table, in_memory, is_held, slot, link_of, empty_entry, is_present,
  map_frame, unmap_frame, alloc_page, get_frame_info, del_page_table, initialize_paging, round_up,
  page_size, no_bits,
}
use fos_educational_os_proje.Frames.Sums.{uses}
use fos_educational_os_proje.Frames.Inv.{IsCounted}
use fos_educational_os_proje.Frames.Unmap.{unmap_frame-Counted}
use fos_educational_os_proje.Frames.Map.{Mapped}
use fos_educational_os_proje.Frames.Create.{map_frame-Mapped, alloc_page-Counted, linked}
use fos_educational_os_proje.Frames.Boot.{initialize_paging-Counted, is_usable, own_at_boot}
use fos_educational_os_proje.Frames.Address.{
  Limits, kheap_virtual_address, kheap_physical_address, physical-virtual,
}
use fos_educational_os_proje.Frames.Chunk.{
  allocate_user_mem, Unheld, Marks, allocate_user_mem-Marks,
}
use fos_educational_os_proje.Frames.Flaws.{del_page_table-kept, unmap_frame-buffered}

-- Four frames: 0 is reserved, 1 and 2 are free, 3 stands at the address 4096 of the table 7.
abbrev own : ℕ → ℕ
own f = if f == 0 then 1 else 0

abbrev example_bits : Bit → Bool
example_bits = is_present

abbrev example : Frames
example = record {
  number_of_frames = 4;
  free_frame_list = 1 ∷ 2 ∷ [];
  modified_frame_list = [];
  references = λ f. if f == 0 then 1 else (if f == 3 then 1 else 0);
  is_buffered = λ f. false;
  va = λ f. 0;
  link = λ l. if l == 1024 then in_memory 7 else (if l == 0 then in_memory 8 else no_table);
  pd_used = λ l. false;
  entry = λ x. if x == 7169 then record { frame = 3; bits = is_present } else empty_entry;
  ptr_page_directory = 0;
}

abbrev no_memory : M Frames (Option ℕ)
no_memory = pure none

at_slot :
    (x : ℕ) (v : Entry)
    → (x == 7169) ≡ false
    → is_held (if x == 7169 then v else empty_entry) ≡ false
at_slot x v n = rw n refl

module _ (bits : Bit → Bool) where
  abbrev with_bits : Frames
  with_bits = record example {
    entry = λ x. if x == 7169 then record { frame = 3; bits = bits } else empty_entry;
  }

  with_bits-Counted : IsCounted own (λ f. false) with_bits
  unfolding uses
  with_bits-Counted = record {
    slots = 7169 ∷ [];
    slots_once = (refl, tt);
    covers = λ x h. elim (Bool-cases (x == 7169)) [
      | inl t ↦ rw t refl
      | inr n ↦ absurd (false≢true (sym (at_slot x (record { frame = 3; bits = bits }) n) ∙ h))
    ];
    in_range = λ x h. in_four x;
    counted = λ f. ground arith;
    small = λ f. ground arith;
    free_once = (refl, (refl, tt));
    unreferenced = λ f l. ground arith;
    free_range = λ f h. ground arith;
    free_apart = λ f h. refl;
  }
    where
      in_four :
          (x : ℕ) → (if x == 7169 then record { frame = 3; bits = bits } else empty_entry).frame < 4
      in_four x = elim (Bool-cases (x == 7169)) [
        | inl t ↦ rw t (omega arith)
        | inr n ↦ rw n (omega arith)
      ]

example-Counted : IsCounted own (λ f. false) example
example-Counted = with_bits-Counted is_present

unmap_frame-Counted_example :
    Yields
      (λ r.
        IsCounted own (λ f. false) r.1
        × (is_held (r.1.entry (slot 7 4096)) ≡ false)
        × ((y : ℕ) → y ≢ slot 7 4096 → r.1.entry y ≡ example.entry y))
      (unmap_frame 1 4096 example)
unfolding slot link_of
unmap_frame-Counted_example =
    unmap_frame-Counted own (λ f. false) 1 4096 7 example example-Counted refl refl

-- the frame 3, mapped a second time at the address 8192
map_frame-Mapped_example :
    Yields
      (λ r. Mapped own (λ f. false) 1 3 8192 r.1)
      (map_frame no_memory 1 3 8192 no_bits example)
unfolding slot link_of
map_frame-Mapped_example =
    map_frame-Mapped no_memory own (λ f. false) 1 3 8192 no_bits example example-Counted
      (linked 7 refl (refl, λ p. refl)) (omega arith) (omega arith) refl

alloc_page-Counted_example :
    Yields
      (λ (fresh, r).
        (fresh ≡ not (is_held (example.entry (slot 7 8192))))
        × IsCounted own (λ f. false) r
        × ((u : ℕ) × (r.link (link_of 1 8192) ≡ in_memory u)
            × (is_held (r.entry (slot u 8192)) ≡ true)))
      (alloc_page no_memory 1 8192 no_bits example)
unfolding slot link_of
alloc_page-Counted_example =
    alloc_page-Counted no_memory own (λ f. false) 1 8192 7 no_bits example example-Counted refl
      (refl, λ p. refl) (omega arith)

-- 300 frames, the kernel's end at the frame 256, and nothing mapped
abbrev at_boot : Frames
at_boot = record example { number_of_frames = 300; entry = λ x. empty_entry }

initialize_paging-Counted_example :
    IsCounted
      (own_at_boot at_boot.references (round_up 1048576 / page_size) 300)
      (λ f. false)
      (initialize_paging 1048576 at_boot)
    × ((f : ℕ)
        → (f < 300)
        → has f (initialize_paging 1048576 at_boot).free_frame_list
          ≡ is_usable (round_up 1048576 / page_size) f)
unfolding round_up
initialize_paging-Counted_example =
    initialize_paging-Counted 1048576 at_boot (omega arith) (omega arith) (λ x. refl)
      (λ f. ground arith)

del_page_table-kept_example :
    Yields
      (λ r.
        (r.1.link (link_of 1 4096) ≡ example.link (link_of 1 4096))
        × (r.1.link (link_of 0 4096) ≡ no_table))
      (del_page_table (λ t. pure tt) 1 4096 example)
unfolding link_of
del_page_table-kept_example =
    del_page_table-kept (λ t. pure tt) 1 4096 8 example (λ e. omega arith) refl
      (yields (tt, example) (refl, refl))

unmap_frame-buffered_example :
    Yields
      (λ r. get_frame_info 1 4096 r.1 ≡ some ((some 7, some 0), r.1))
      (unmap_frame 1 4096 (with_bits (λ b. true)))
unfolding slot link_of
unmap_frame-buffered_example =
    unmap_frame-buffered own (λ f. false) 1 4096 7 (with_bits (λ b. true))
      (with_bits-Counted (λ b. true)) refl refl

-- the frame 3 at the second page of the kernel heap's page region
abbrev with_heap : Frames
with_heap = record example {
  va = λ f. if f == 3 then 0xF8001000 else 0;
  link = λ l. if l == 992 then in_memory 8 else no_table;
  entry = λ x. if x == 8193 then record { frame = 3; bits = is_present } else empty_entry;
}

abbrev limits : Limits
limits = record {
  dyn_alloc_start = 0xF6000000;
  dyn_alloc_end = 0xF7FFF000;
  page_alloc_start = 0xF8000000;
}

physical-virtual_example :
    (kheap_physical_address limits 0xF8001004 >>= kheap_virtual_address limits) with_heap
    ≡ some (0xF8001004, with_heap)
unfolding slot link_of
physical-virtual_example =
    physical-virtual limits 0xF8001004 8 with_heap (omega arith) (omega arith) refl refl
      (omega arith) refl refl (omega arith) refl

two_pages-Unheld : Unheld 1 (λ q. 7) 2 2 example
unfolding slot link_of
two_pages-Unheld q l m = elim (two q l m) [
  | inl e ↦
      subst
        (λ k.
          (example.link (link_of 1 (k * page_size)) ≡ in_memory 7)
          × (is_held (example.entry (slot 7 (k * page_size))) ≡ false))
        (sym e) (refl, refl)
  | inr e ↦
      subst
        (λ k.
          (example.link (link_of 1 (k * page_size)) ≡ in_memory 7)
          × (is_held (example.entry (slot 7 (k * page_size))) ≡ false))
        (sym e) (refl, refl)
]
  where
    two : (q : ℕ) → 2 ≤ q → q < 2 + 2 → (q ≡ 2) ⊎ (q ≡ 3)
    two q l m = ground arith

-- the pages 2 and 3 of the directory 1
allocate_user_mem-Marks_example :
    Yields
      (λ r. Marks own (λ f. false) (λ q. 7) 2 2 example r.1)
      (allocate_user_mem no_memory 1 8192 8192 example)
allocate_user_mem-Marks_example =
    allocate_user_mem-Marks no_memory own (λ f. false) 1 (λ q. 7) 2 2 example (omega arith)
      example-Counted two_pages-Unheld
