-- ===== src/PageFile/Read.antt =====
-- kern/disk/pagefile_manager.c: pf_read_env_page brings back what a page held when it went to the disk.
use fos_educational_os_proje.Base.{
  ℕ, ◌+◌, ◌-◌, ◌%◌, ◌<◌, ◌≡◌, refl, sym, subst, ◌∙◌, ap, ◌≢◌, ◌⊎◌, inl, inr, Bool, true, none, some,
  false≢true, ==-ne, update, update_self, Yields, yields, arith,
}
use mathlib.Core.Option.{none-ne-some, some-injective}
use fos_educational_os_proje.Base.Int.{ℤ, pos, is_neg}
use fos_educational_os_proje.Base.Monad.{bind_lem, mono, yielded}
use fos_educational_os_proje.Frames.{link_of, in_memory, pt_set_page_permissions}
use fos_educational_os_proje.Frames.Unmap.{get_page_table-linked}
use fos_educational_os_proje.PageFile.{
  Below, PageFile, pdx, ptx, page_size, pages_per_file, kernel_base, sector_of, read_disk_page,
  read_found, finish_read, read_entry, read_table, pf_add_env_page, pf_read_env_page,
  e_page_not_exist_in_pf,
}
use fos_educational_os_proje.PageFile.Inv.{
  entry_in, table_of, dfn_of, page_at, stored, sector_of-InFile, Reliable, IsKept,
}
use fos_educational_os_proje.PageFile.Lookup.{
  frame_of, page_at-same, frame_of-real, null_cases, page_at-none, page_at-some,
}
use fos_educational_os_proje.PageFile.Linked.{IsLinked-same}
use fos_educational_os_proje.PageFile.Pages.{update_cases}
use fos_educational_os_proje.PageFile.Found.{lift_lem}
use fos_educational_os_proje.PageFile.Add.{dfn_of-range, pf_add_env_page-Added}
use fos_educational_os_proje.PageFile.Remove.{find_table_lem, table_cases, load_real}

-- The member disk_env_pgdir is as before where nPageIn counts a page.
same_dir :
    {D L : Type 0} (s : PageFile D L) (e f : ℕ)
    → (update s.env e (record (s.env e) { n_page_in = (s.env e).n_page_in + 1 }) f).disk_env_pgdir
      ≡ (s.env f).disk_env_pgdir
same_dir s e f =
    elim (update_cases s.env e (record (s.env e) { n_page_in = (s.env e).n_page_in + 1 }) f) [
      | inl (q, v) ↦ ap (λ d. d.disk_env_pgdir) v ∙ ap (λ x. (s.env x).disk_env_pgdir) (sym q)
      | inr (q, v) ↦ ap (λ d. d.disk_env_pgdir) v
    ]

module _ {D L : Type 0} (live : L → ℕ → Bool) (contents : L → ℕ → D) where
  -- What pf_read_env_page leaves of a page at `va`, the start of its page.
  abbrev pub ReadPage : ℕ → ℕ → PageFile D L → ℤ × PageFile D L → Type 0
  ReadPage e va s (c, r) =
      IsKept live r
      × ((f v : ℕ) → stored contents r f v ≡ stored contents s f v)
      × (((stored contents s e va ≡ none) × (c ≡ e_page_not_exist_in_pf) × (r ≡ s))
          ⊎ ((c ≡ pos 0)
              × (stored contents s e va ≡ some (r.memory va))
              × ((r.env e).n_page_in ≡ (s.env e).n_page_in + 1)))

  module _ {Ready : ℕ → L → Type 0} {B : Below D L} (sure : Reliable live contents Ready B) where
    -- The state after the page came from the disk, and the one after the change of its permissions.
    abbrev loaded : ℕ → D → L → PageFile D L → PageFile D L
    loaded va d m s = record s { low = m; memory = update s.memory va d }

    read_disk_page_ok :
        (dfn va : ℕ) (s : PageFile D L)
        → dfn < pages_per_file
        → Yields
            (λ r.
              (m : L) × (r.0 ≡ pos 0)
              × (r.1 ≡ loaded va (contents s.low (sector_of dfn)) m s)
              × ((y : ℕ) → contents m y ≡ contents s.low y)
              × ((q : ℕ) → live s.low q ≡ true → live m q ≡ true))
            (read_disk_page B dfn va s)
    unfolding read_disk_page
    read_disk_page_ok dfn va s lt =
        lift_lem _ s (sure.read_ok (sector_of dfn) s.low (sector_of-InFile dfn lt))
          λ c m r. yields _ (m, r.0, ap (λ d. loaded va d m s) r.1, r.2, r.3)

    finish_ok :
        (e va t : ℕ) (m : L) (s : PageFile D L)
        → IsKept live s
        → dfn_of s e va ≢ 0
        → s.frames.link (link_of (s.env e).env_page_directory va) ≡ in_memory t
        → ((y : ℕ) → contents m y ≡ contents s.low y)
        → ((q : ℕ) → live s.low q ≡ true → live m q ≡ true)
        → Yields
            (ReadPage e va s)
            (finish_read e va (pos 0) (loaded va (contents s.low (sector_of (dfn_of s e va))) m s))
    unfolding finish_read pt_set_page_permissions
    finish_ok e va t m s k n linked disk more =
        rw (get_page_table-linked (s.env e).env_page_directory va t s.frames linked) (
          yields _ (
            record {
              dirs = k.dirs;
              leafs = k.leafs;
              linked = IsLinked-same more (λ c i a. refl) (λ f. same_dir s e f) k.linked;
              owned = k.owned;
            },
            (λ f v.
                page_at-same (contents s.low) (contents m) _ (dfn_of s f v)
                  (ap (λ d. frame_of s.word d v) (same_dir s e f)) (λ n. disk _)),
            inr (
              refl,
              page_at-some (contents s.low) _ n ∙ ap some (sym (update_self s.memory va _)),
              ap (λ d. d.n_page_in) (update_self s.env e _),
            ),
          ))

    read_found_ok :
        (e va t : ℕ) (s : PageFile D L)
        → IsKept live s
        → dfn_of s e va ≢ 0
        → s.frames.link (link_of (s.env e).env_page_directory va) ≡ in_memory t
        → Yields (ReadPage e va s) (read_found B e va (dfn_of s e va) s)
    unfolding read_found
    read_found_ok e va t s k n linked =
        bind_lem (read_disk_page_ok (dfn_of s e va) va s (dfn_of-range live contents s k e va n))
          λ c s₁ (m, ok, eq, disk, more).
            subst (λ x. Yields (ReadPage e va s) (finish_read e va x s₁)) (sym ok)
              (subst (λ x. Yields (ReadPage e va s) (finish_read e va (pos 0) x)) (sym eq)
                (finish_ok e va t m s k n linked disk more))

    read_entry_ok :
        (e va t : ℕ) (s : PageFile D L)
        → IsKept live s
        → s.frames.link (link_of (s.env e).env_page_directory va) ≡ in_memory t
        → Yields (ReadPage e va s) (read_entry B e va (dfn_of s e va) s)
    unfolding read_entry
    read_entry_ok e va t s k linked = elim (null_cases (dfn_of s e va)) [
      | inl z ↦
          subst (λ g. Yields (ReadPage e va s) (read_entry B e va g s)) (sym z)
            (yields _
              (k, (λ f v. refl), inl (page_at-none (contents s.low) (dfn_of s e va) z, refl, refl)))
      | inr n ↦ rw (==-ne (dfn_of s e va) 0 n) (read_found_ok e va t s k n linked)
    ]

    read_table_ok :
        (e va t : ℕ) (s : PageFile D L)
        → IsKept live s
        → s.frames.link (link_of (s.env e).env_page_directory va) ≡ in_memory t
        → Yields (ReadPage e va s) (read_table B e va (table_of s e va) s)
    unfolding read_table
    read_table_ok e va t s k linked = elim (table_cases e va s) [
      | inl (z, y) ↦
          subst (λ u. Yields (ReadPage e va s) (read_table B e va u s)) (sym z)
            (yields _
              (k, (λ f v. refl), inl (page_at-none (contents s.low) (dfn_of s e va) y, refl, refl)))
      | inr (real, w, at) ↦
          subst (λ u. Yields (ReadPage e va s) (read_table B e va u s)) (sym at)
            (rw (==-ne (s.word (s.env e).disk_env_pgdir (pdx va)) 0 w) (
              rw (load_real (s.word (s.env e).disk_env_pgdir (pdx va)) (ptx va) s w) (
                subst (λ g. Yields (ReadPage e va s) (read_entry B e va g s))
                  (frame_of-real s.word _ va real w) (read_entry_ok e va t s k linked))))
    ]

    -- pf_read_env_page, where the invariant holds and the process has a page table for the
    -- address: the invariant and all stored pages are as before; either the page is not stored
    -- and the result is E_PAGE_NOT_EXIST_IN_PF with nothing changed, or the result is 0, memory
    -- holds what is stored, and nPageIn counts one more.
    pub pf_read_env_page-ReadPage :
        (e a t : ℕ) (s : PageFile D L)
        → IsKept live s
        → s.frames.link (link_of (s.env e).env_page_directory (a - a % page_size)) ≡ in_memory t
        → Yields (ReadPage e (a - a % page_size) s) (pf_read_env_page B e a s)
    unfolding pf_read_env_page
    pf_read_env_page-ReadPage e a t s k linked =
        rw (find_table_lem B e (a - a % page_size) s)
          (read_table_ok e (a - a % page_size) t s k linked)

    start_of_page :
        (s : PageFile D L) (e va : ℕ)
        → stored contents s e (va - va % page_size) ≡ stored contents s e va
    start_of_page s e va =
        let p : pdx (va - va % 4096) ≡ pdx va = omega arith in
        let t : ptx (va - va % 4096) ≡ ptx va = omega arith in
        ap
          (λ i.
            page_at (contents s.low)
              (entry_in s.word (entry_in s.word (s.env e).disk_env_pgdir i) (ptx (va - va % 4096))))
          p
        ∙ ap
            (λ i.
              page_at (contents s.low)
                (entry_in s.word (entry_in s.word (s.env e).disk_env_pgdir (pdx va)) i))
            t

    -- Where pf_add_env_page of an address below KERNEL_BASE returned 0, under the invariant of the
    -- page file, where kmalloc could give two pages more and the disk's driver does what is relied
    -- on, and the process has a page
    -- table for the address: pf_read_env_page of the address returns 0, and the page in memory
    -- holds what was written.
    pub pf_read_env_page-pf_add_env_page :
        (e va t : ℕ) (d : D) (s r : PageFile D L)
        → va < kernel_base
        → IsKept live s
        → Ready 2 s.low
        → pf_add_env_page B e va d s ≡ some (pos 0, r)
        → r.frames.link (link_of (r.env e).env_page_directory (va - va % page_size)) ≡ in_memory t
        → Yields
            (λ q. (q.0 ≡ pos 0) × (q.1.memory (va - va % page_size) ≡ d))
            (pf_read_env_page B e va r)
    pf_read_env_page-pf_add_env_page e va t d s r l k room run linked =
        let (k', others, end) =
          yielded (pf_add_env_page-Added live contents sure e va d s l k room) run in
        mono (pf_read_env_page-ReadPage e va t r k' linked) λ q (k'', same, back).
          let there : stored contents r e va ≡ some d = elim end [
            | inl x ↦ x.1
            | inr x ↦ absurd (false≢true (ap is_neg x.0))
          ] in
          elim back [
            | inl x ↦ absurd (none-ne-some d (sym x.0 ∙ start_of_page r e va ∙ there))
            | inr x ↦ (x.0, some-injective _ d (sym x.1 ∙ start_of_page r e va ∙ there))
          ]
