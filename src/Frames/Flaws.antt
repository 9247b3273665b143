-- ===== src/Frames/Flaws.antt =====
-- kern/mem/memory_manager.c and kern/mem/paging_helpers.c: where the code leaves more than it means to.
use fos_educational_os_proje.Base.{
  ℕ, ◌<◌, ◌≡◌, sym, subst, ◌∙◌, ◌≢◌, Bool, true, some, update, update_self, update-ne, arith,
  Yields, yields, ap,
}
use fos_educational_os_proje.Base.Monad.{M, bind_lem}
use fos_educational_os_proje.Frames.{
  Frames, Entry, no_table, in_memory, is_held, slot, link_of, get_frame_info, unmap_frame,
  del_page_table, perm_buffered,
}
use fos_educational_os_proje.Frames.Inv.{IsCounted}
use fos_educational_os_proje.Frames.Drop.{left_over}
use fos_educational_os_proje.Frames.Unmap.{
  unmapped, unmap_frame-unmapped, get_page_table-linked, get_frame_info-held, unmapped-link,
  unmapped-written, unmapped-frames,
}

link_of-injective : (d d' va : ℕ) → link_of d va ≡ link_of d' va → d ≡ d'
unfolding link_of
link_of-injective d d' va e = omega arith

-- del_page_table of another directory than the kernel's, where the kernel's directory links a
-- table for the address and kfree returns without changing the directories: it returns, the entry
-- of the directory that was named is as before, and the entry of the kernel's directory is
-- cleared.
pub del_page_table-kept :
    (kfree : ℕ → M Frames (Unit {0})) (page_dir va t : ℕ) (s : Frames)
    → page_dir ≢ s.ptr_page_directory
    → s.link (link_of s.ptr_page_directory va) ≡ in_memory t
    → Yields
        (λ r. (r.1.link ≡ s.link) × (r.1.ptr_page_directory ≡ s.ptr_page_directory))
        (kfree t s)
    → Yields
        (λ r.
          (r.1.link (link_of page_dir va) ≡ s.link (link_of page_dir va))
          × (r.1.link (link_of s.ptr_page_directory va) ≡ no_table))
        (del_page_table kfree page_dir va s)
unfolding del_page_table
del_page_table-kept kfree page_dir va t s ne e freed =
    rw (get_page_table-linked s.ptr_page_directory va t s e) (
      bind_lem freed (λ u r (l, d). yields _ (
        subst
            (λ k.
              update r.link (link_of k va) no_table (link_of page_dir va)
              ≡ s.link (link_of page_dir va))
            (sym d)
            (update-ne r.link (link_of s.ptr_page_directory va) no_table (link_of page_dir va)
                (λ q. ne (link_of-injective page_dir s.ptr_page_directory va q))
              ∙ ap (λ k. k (link_of page_dir va)) l),
        subst
            (λ k.
              update r.link (link_of k va) no_table (link_of s.ptr_page_directory va) ≡ no_table)
            (sym d) (update_self r.link (link_of s.ptr_page_directory va) no_table),
      )))

-- unmap_frame of an address whose table is in memory and whose entry is marked as buffered, where
-- the frames are counted: it returns, and get_frame_info of the address then gives frame 0, since
-- the buffered bit is one of the bits that stay.
pub unmap_frame-buffered :
    (own : ℕ → ℕ) (hand : ℕ → Bool) (dir va t : ℕ) (s : Frames)
    → IsCounted own hand s
    → s.link (link_of dir va) ≡ in_memory t
    → (s.entry (slot t va)).bits perm_buffered ≡ true
    → Yields (λ r. get_frame_info dir va r.1 ≡ some ((some t, some 0), r.1)) (unmap_frame dir va s)
unmap_frame-buffered own hand dir va t s i e b =
    let w = unmapped-written va t s (buffered_held b) in
    rw (unmap_frame-unmapped dir va t s i e) (
      yields _ (
        subst
          (λ k. get_frame_info dir va (unmapped t va s) ≡ some ((some t, some k), unmapped t va s))
          (ap Entry.frame w)
          (get_frame_info-held dir va t (unmapped t va s)
            (ap (λ k. k (link_of dir va)) (unmapped-link va t s) ∙ e)
            (subst (λ k. is_held k ≡ true) (sym w) (left_held b))
            (subst (λ k. k.frame < (unmapped t va s).number_of_frames) (sym w)
              (subst (λ k. 0 < k) (sym (unmapped-frames va t s))
                (some_frame (i.in_range (slot t va) (buffered_held b))))))))
  where
    buffered_held :
        (s.entry (slot t va)).bits perm_buffered ≡ true → is_held (s.entry (slot t va)) ≡ true
    buffered_held b = rw b (ground arith)

    left_held :
        (s.entry (slot t va)).bits perm_buffered ≡ true → is_held (left_over s (slot t va)) ≡ true
    left_held b = rw b (ground arith)

    some_frame : {f n : ℕ} → f < n → 0 < n
    some_frame l = omega arith
