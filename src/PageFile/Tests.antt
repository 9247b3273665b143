-- ===== src/PageFile/Tests.antt =====
-- A page file on a fresh disk: a process's page that goes to the disk, comes back, and is removed.
use fos_educational_os_proje.Base.{
  ℕ, suc, ◌+◌, ◌≤◌, ◌<◌, ◌≡◌, refl, ◌≢◌, ◌⊎◌, inl, inr, Bool, true, false, Option, none, some, [],
  leb, ltb, lt→ltb, if◌then◌else◌, update, update_self, update-ne, arith, Yields, yields, has, ◌↔◌,
}
use fos_educational_os_proje.Base.Monad.{yielded}
use fos_educational_os_proje.Base.Int.{ℤ, pos}
use fos_educational_os_proje.Frames.{in_memory, empty_entry, link_of}
use fos_educational_os_proje.PageFile.{
  Below, PageFile, initialize_disk_page_file, insert_disk_frames, claim_page,
  get_disk_page_directory, new_directory, get_disk_page_table, new_table, claim_frame, claim_new,
  load, store, allocate_disk_frame, allocate_first, write_claimed, write_disk_page, pages_per_file,
  pf_add_env_page, pf_remove_env_page, pf_read_env_page,
}
use fos_educational_os_proje.PageFile.Inv.{Reliable, IsKept}
use fos_educational_os_proje.PageFile.Start.{initialize_disk_page_file-IsKept}
use fos_educational_os_proje.PageFile.Add.{Added, pf_add_env_page-Added}
use fos_educational_os_proje.PageFile.Remove.{Removed, pf_remove_env_page-Removed}
use fos_educational_os_proje.PageFile.Read.{pf_read_env_page-pf_add_env_page}

-- The sectors, and the last page that kmalloc gave out, of 64.
record Low : Type 0 where
  sectors : ℕ → ℕ
  last : ℕ

abbrev below : Below ℕ Low
below = record {
  kmalloc = λ l.
      if ltb l.last 64
      then some (some (suc l.last), record l { last = suc l.last })
      else some (none, l);
  kfree = λ p l. some (tt, l);
  ide_read = λ x l. some ((pos 0, l.sectors x), l);
  ide_write = λ x d l. some (pos 0, record l { sectors = update l.sectors x d });
}

abbrev live : Low → ℕ → Bool
live l p = leb p l.last

abbrev contents : Low → ℕ → ℕ
contents l x = l.sectors x

abbrev Room : ℕ → Low → Type 0
Room n l = n + l.last ≤ 64

reliable : Reliable live contents Room below
reliable = record {
  fewer = λ m n l le r. omega arith;
  kmalloc_ok = λ n l r. rw (lt→ltb l.last 64 (omega arith)) (
      yields _ (
        suc l.last,
        refl,
        suc_ne l.last,
        new l.last,
        now l.last,
        (λ q e. grown q l.last e),
        (λ x. refl),
        omega arith,
      ));
  write_ok = λ x d l f.
      yields _ (
        refl,
        update_self l.sectors x d,
        (λ y a. update-ne l.sectors x d y (apart x y a)),
        λ q e. e,
      );
  read_ok = λ x l f. yields _ (refl, refl, (λ y. refl), λ q e. e);
}
  where
    suc_ne : (n : ℕ) → suc n ≢ 0
    suc_ne n e = omega arith

    new : (n : ℕ) → leb (suc n) n ≡ false
    new n = ground arith

    now : (n : ℕ) → leb (suc n) (suc n) ≡ true
    now n = ground arith

    grown : (q n : ℕ) → leb q n ≡ true → leb q (suc n) ≡ true
    grown q n e = ground arith

    apart : (x y : ℕ) → (y + 8 ≤ x) ⊎ (x + 8 ≤ y) → y ≢ x
    apart x y (inl l) e = omega arith
    apart x y (inr l) e = omega arith

abbrev blank : PageFile ℕ Low
blank = record {
  disk_free_frame_list = [];
  word = λ p i. 0;
  env = λ e. record {
    env_page_directory = 1;
    disk_env_pgdir = 0;
    disk_env_tabledir = 0;
    init_num_stack_pages = 1;
    n_new_page_added = 0;
    n_page_in = 0;
    n_page_out = 0;
  };
  memory = λ a. 0;
  frames = record {
    number_of_frames = 8;
    free_frame_list = [];
    modified_frame_list = [];
    references = λ f. 0;
    is_buffered = λ f. false;
    va = λ f. 0;
    link = λ x. in_memory 2;
    pd_used = λ x. false;
    entry = λ x. empty_entry;
    ptr_page_directory = 1;
  };
  low = record { sectors = λ x. 0; last = 0 };
}

abbrev fresh : PageFile ℕ Low
fresh = initialize_disk_page_file blank

fresh-Room : Room 2 fresh.low
unfolding initialize_disk_page_file insert_disk_frames
fresh-Room = omega arith

fresh-IsKept : IsKept live fresh
fresh-IsKept = (initialize_disk_page_file-IsKept live blank (λ e. refl)).0

initialize_disk_page_file-IsKept_example :
    IsKept live fresh
    × ((f : ℕ) → (has f fresh.disk_free_frame_list ≡ true) ↔ ((f ≢ 0) × (f < pages_per_file)))
initialize_disk_page_file-IsKept_example = initialize_disk_page_file-IsKept live blank (λ e. refl)

pf_add_env_page-Added_example :
    Yields (Added live contents 5 0x800000 77 fresh) (pf_add_env_page below 5 0x800000 77 fresh)
pf_add_env_page-Added_example =
    pf_add_env_page-Added live contents reliable 5 0x800000 77 fresh (omega arith) fresh-IsKept
      fresh-Room

-- the state after the write
abbrev end_of : Option (ℤ × PageFile ℕ Low) → PageFile ℕ Low
end_of none = blank
end_of (some (c, r)) = r

abbrev written : PageFile ℕ Low
written = end_of (pf_add_env_page below 5 0x800000 77 fresh)

writes : pf_add_env_page below 5 0x800000 77 fresh ≡ some (pos 0, written)
unfolding pf_add_env_page claim_page get_disk_page_directory new_directory get_disk_page_table
    new_table claim_frame claim_new load store allocate_disk_frame allocate_first write_claimed
    write_disk_page initialize_disk_page_file insert_disk_frames update
writes = refl

written-link :
    written.frames.link (link_of (written.env 5).env_page_directory 0x800000) ≡ in_memory 2
unfolding pf_add_env_page claim_page get_disk_page_directory new_directory get_disk_page_table
    new_table claim_frame claim_new load store allocate_disk_frame allocate_first write_claimed
    write_disk_page initialize_disk_page_file insert_disk_frames update
written-link = refl

written-IsKept : IsKept live written
written-IsKept =
    (yielded
      (pf_add_env_page-Added live contents reliable 5 0x800000 77 fresh (omega arith) fresh-IsKept
        fresh-Room)
      writes).0

pf_read_env_page-pf_add_env_page_example :
    Yields
      (λ q. (q.0 ≡ pos 0) × (q.1.memory 0x800000 ≡ 77))
      (pf_read_env_page below 5 0x800000 written)
pf_read_env_page-pf_add_env_page_example =
    pf_read_env_page-pf_add_env_page live contents reliable 5 0x800000 2 77 fresh written
      (omega arith) fresh-IsKept fresh-Room writes written-link

pf_remove_env_page-Removed_example :
    Yields
      (λ r. Removed live contents 5 0x800000 written r.1)
      (pf_remove_env_page below 5 0x800000 written)
pf_remove_env_page-Removed_example =
    pf_remove_env_page-Removed live contents below 5 0x800000 written (omega arith) written-IsKept
