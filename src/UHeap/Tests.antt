-- ===== src/UHeap/Tests.antt =====
-- Runs of the user heap over a block allocator and a kernel that do nothing.
use fos_educational_os_proje.Base.{ℕ, ◌≡◌, refl, false, some, [], arith, Yields, yields}
use fos_educational_os_proje.Base.Int.{pos}
use fos_educational_os_proje.UHeap.{UHeap, Below}
use fos_educational_os_proje.UHeap.Twice.{Returns, two_after_free, free-twice}

abbrev idle : Below ℕ
idle = record {
  initialize_dynamic_allocator = λ a b l. some (tt, l);
  dyn_alloc_end = λ l. 0x82000000;
  alloc_block = λ n l. some (0x80000000, l);
  free_block = λ p l. some (tt, l);
  sys_allocate_user_mem = λ va n l. some (tt, l);
  sys_free_user_mem = λ va n l. some (tt, l);
  sys_getenvid = λ l. 1;
  sys_size_of_shared_object = λ o n l. some (pos 0, l);
  sys_create_shared_object = λ n z w va l. some (pos 0, l);
  sys_get_shared_object = λ o n va l. some (pos 0, l);
}

idle-Returns : Returns idle
idle-Returns = record { allocate_ok = λ va n l. yields _ tt; free_ok = λ va n l. yields _ tt }

abbrev fresh : UHeap ℕ
fresh = record {
  first_time_flag = false;
  bulks = [];
  allocation_sizes = λ i. 0;
  free_nodes_index = 0;
  page_alloc_start = 0x82001000;
  page_alloc_break = 0x82001000;
  low = 0;
}

free-twice_example :
    Yields (λ r. (r.0.0 ≡ 0x82001000) × (r.0.1 ≡ 0x82001000)) (two_after_free idle 8192 4096 fresh)
free-twice_example =
    free-twice ℕ idle 8192 4096 fresh idle-Returns (omega arith)
      (record {
        no_bulks = refl;
        at_start = refl;
        no_sizes = λ i. refl;
        nodes_left = omega arith;
        above = omega arith;
        room = omega arith;
      })
      (omega arith)
