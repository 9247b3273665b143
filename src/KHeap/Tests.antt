-- ===== src/KHeap/Tests.antt =====
-- The page allocator over 64 blocks and frames, on a heap of three pages.
use fos_educational_os_proje.Base.{
  ℕ, ◌+◌, ◌≤◌, ◌≡◌, ◌≢◌, refl, [], ◌∷◌, none, some, Bool, true, false, ◌&&◌, if◌then◌else◌, ltb,
  leb, lt→ltb, arith, Yields, yields,
}
use fos_educational_os_proje.KHeap.{Below, KHeap}
use fos_educational_os_proje.KHeap.Alloc.{page_alloc_custom_fit}
use fos_educational_os_proje.KHeap.Inv.{Reliable, IsTiled}
use fos_educational_os_proje.KHeap.Free.{kfree}
use fos_educational_os_proje.KHeap.Cover.{here}
use fos_educational_os_proje.KHeap.Kfree.{Returns, kfree-Returns}
use fos_educational_os_proje.KHeap.Reserve.{Served, page_alloc-Reserved}

-- The blocks and frames 1 to `l` are given out, of 64; an allocator without a block panics.
abbrev counter : Below ℕ
counter = record {
  alloc_block = λ size l. if ltb l 64 then some (l + 1, l + 1) else none;
  free_block = λ p l. some (tt, l);
  allocate_frame = λ l. if ltb l 64 then some (some (l + 1), l + 1) else some (none, l);
  map_frame = λ f va l. some (true, l);
  free_frame = λ f l. some (tt, l);
  unmap_frame = λ va l. some (tt, l);
}

abbrev given_out : ℕ → ℕ → Bool
given_out l p = ltb 0 p && leb p l

abbrev Room : ℕ → ℕ → Type 0
Room n l = n + l ≤ 64

grows : (l p : ℕ) → given_out l p ≡ true → given_out (l + 1) p ≡ true
grows l p h = ground arith

some_ne : (n : ℕ) → some n ≢ none
some_ne n e = ground arith

counter-Reliable : Reliable given_out Room counter
counter-Reliable = record {
  fewer = λ m n l le r. omega arith;
  alloc_ok = λ n l r.
      rw (lt→ltb l 64 (omega arith))
        (yields _ (omega arith, ground arith, ground arith, grows l, omega arith));
  free_ok = λ n p l r h. yields _ ((λ q ne g. g), r);
  frame_ok =
      λ n l r. rw (lt→ltb l 64 (omega arith)) (yields _ (some_ne (l + 1), grows l, omega arith));
  map_ok = λ n f va l r. yields _ (refl, (λ p h. h), omega arith);
  unmap_ok = λ n va l r. yields _ ((λ p h. h), r);
}

abbrev base : ℕ
base = 0xF8001000

-- One page in use, and two that are free behind it.
abbrev heap : KHeap ℕ
heap = record {
  bulks = record { node = 2; start = base + 4096; size = 8192 } ∷ [];
  bulks_allocated = record { node = 1; start = base; size = 4096 } ∷ [];
  alloc_start = base;
  alloc_break = base + 12288;
  locked = true;
  low = 2;
}

heap-IsTiled : IsTiled given_out heap
heap-IsTiled = record {
  tiled = λ a. ground arith;
  free_fits = ((omega arith, omega arith, omega arith), tt);
  used_fits = ((omega arith, omega arith, omega arith), tt);
  sorted = (tt, tt);
  once = λ p. ground arith;
  nodes_live = λ p h. ground arith;
  start_pos = omega arith;
  start_le = omega arith;
  break_le = omega arith;
}

unlocked-IsTiled : IsTiled given_out (record heap { locked = false })
unlocked-IsTiled = record {
  tiled = heap-IsTiled.tiled;
  free_fits = heap-IsTiled.free_fits;
  used_fits = heap-IsTiled.used_fits;
  sorted = heap-IsTiled.sorted;
  once = heap-IsTiled.once;
  nodes_live = heap-IsTiled.nodes_live;
  start_pos = heap-IsTiled.start_pos;
  start_le = heap-IsTiled.start_le;
  break_le = heap-IsTiled.break_le;
}

page_alloc-Reserved_example :
    Yields (Served given_out counter-Reliable 3 4096 heap) (page_alloc_custom_fit counter 4096 heap)
page_alloc-Reserved_example =
    page_alloc-Reserved given_out counter-Reliable 3 heap 4096 heap-IsTiled (omega arith)
      (omega arith) (omega arith)

kfree-Returns_example :
    Yields
      (λ r. Returns given_out base (record heap { locked = false }) r × (r.1.locked ≡ false))
      (kfree counter base (record heap { locked = false }))
kfree-Returns_example =
    kfree-Returns given_out counter-Reliable base (record heap { locked = false })
      (record { node = 1; start = base; size = 4096 }) unlocked-IsTiled refl (omega arith) here refl
      (omega arith)
