-- ===== src/PageFile/Add.antt =====
-- kern/disk/pagefile_manager.c: pf_add_env_page gives a page its frame and writes it, and spares all others.
use fos_educational_os_proje.Base.{
  ℕ, ◌^◌, ◌<◌, ◌≡◌, refl, sym, subst, ◌∙◌, ap, ◌≢◌, ◌⊎◌, inl, inr, Bool, true, List, [], ◌∷◌,
  Option, none, some, lt→ltb, arith, ==_iff, ==-ne, Yields, yields,
}
use fos_educational_os_proje.Base.Int.{ℤ, pos}
use fos_educational_os_proje.Base.Monad.{and_then, bind_lem, mono}
use fos_educational_os_proje.PageFile.{
  Below, PageFile, pdx, ptx, sector_of, kernel_base, load, store, pages_per_file, claim_new,
  claim_frame, claim_page, allocate_disk_frame, allocate_first, write_disk_page, write_claimed,
  pf_add_env_page, e_no_page_file_space,
}
use fos_educational_os_proje.PageFile.Inv.{
  dfn_of, page_at, stored, sector_of-InFile, Reliable, IsKept, IsOwned,
}
use fos_educational_os_proje.PageFile.Linked.{IsLinked-same}
use fos_educational_os_proje.PageFile.Claim.{IsOwned-claim, has_first}
use fos_educational_os_proje.PageFile.Lookup.{
  Other, frame_of-once, dir_word, frame_of-poked, frame_of-others, frame_of-real, null_cases,
  sector_of-apart, parts, page_at-same, page_at-some, page_at-none, not_other,
}
use fos_educational_os_proje.PageFile.Found.{directory_ok, table_ok, lift_lem}

module _ {D L : Type 0} (live : L → ℕ → Bool) (contents : L → ℕ → D) where
  -- The page has a frame, or there is none left for it; the other pages keep theirs.
  abbrev Claimed : ℕ → ℕ → PageFile D L → Option ℕ × PageFile D L → Type 0
  Claimed e va s (o, r) =
      IsKept live r
      × ((x : ℕ) → contents r.low x ≡ contents s.low x)
      × ((f v : ℕ) → Other e va f v → dfn_of r f v ≡ dfn_of s f v)
      × (((d : ℕ) × (o ≡ some d) × (d ≢ 0) × (dfn_of r e va ≡ d))
          ⊎ ((o ≡ none)
              × (s.disk_free_frame_list ≡ [])
              × (dfn_of s e va ≡ 0)
              × (dfn_of r e va ≡ 0)))

  claim_new_ok :
      (e va : ℕ) (s : PageFile D L) (q : List ℕ)
      → va < 2 ^ 32
      → (k : IsKept live s) → (s.env e).disk_env_pgdir ≢ 0
      → (w : s.word (s.env e).disk_env_pgdir (pdx va) ≢ 0)
      → s.word (s.word (s.env e).disk_env_pgdir (pdx va)) (ptx va) ≡ 0
      → s.disk_free_frame_list ≡ q
      → Yields (Claimed e va s) (
          and_then
            (allocate_first q s)
            (claim_new (s.word (s.env e).disk_env_pgdir (pdx va)) (ptx va)))
  unfolding allocate_first claim_new store
  claim_new_ok e va s [] l k real w absent free =
      let zero_dfn = frame_of-real s.word _ va real w ∙ absent in
      yields _ (k, (λ x. refl), (λ f v o. refl), inr (refl, free, zero_dfn, zero_dfn))
  claim_new_ok e va s (g ∷ q) l k real w absent free = rw (==-ne _ 0 w) (
      yields _ (
        record {
          dirs = k.dirs;
          leafs = k.leafs;
          linked =
              IsLinked-same (λ q u. u) (λ c i a. dir_word k.linked _ (ptx va) g c i table a)
                (λ f. refl) k.linked;
          owned = IsOwned-claim _ (ptx va) g q table absent owned;
        },
        (λ x. refl),
        (λ f v o. frame_of-others k.linked e va g f v real w l o),
        inl (
          g,
          refl,
          (owned.free_range g (has_first g q)).0,
          frame_of-poked k.linked e va g real w,
        ),
      ))
    where
      table : k.leafs (s.word (s.env e).disk_env_pgdir (pdx va)) ≡ true
      table = k.linked.table_of _ (pdx va) (k.linked.dir_of e real) w

      owned : IsOwned k.leafs s.word (g ∷ q)
      owned = subst (IsOwned k.leafs s.word) free k.owned

  claim_frame_ok :
      (e va : ℕ) (s : PageFile D L)
      → va < 2 ^ 32
      → IsKept live s
      → (s.env e).disk_env_pgdir ≢ 0
      → s.word (s.env e).disk_env_pgdir (pdx va) ≢ 0
      → Yields (Claimed e va s) (claim_frame (s.word (s.env e).disk_env_pgdir (pdx va)) (ptx va) s)
  unfolding claim_frame load allocate_disk_frame
  claim_frame_ok e va s l k real w = rw (==-ne _ 0 w) (elim (null_cases held) [
    | inl z ↦
        rw ((==_iff held 0).1 z) (claim_new_ok e va s s.disk_free_frame_list l k real w z refl)
    | inr n ↦ rw (==-ne held 0 n) (
        yields _
          (k, (λ x. refl), (λ f v o. refl), inl (held, refl, n, frame_of-real s.word _ va real w)))
  ])
    where
      held : ℕ
      held = s.word (s.word (s.env e).disk_env_pgdir (pdx va)) (ptx va)

  through :
      (e va : ℕ) (s s' : PageFile D L) (r : Option ℕ × PageFile D L)
      → s'.disk_free_frame_list ≡ s.disk_free_frame_list
      → ((f v : ℕ) → dfn_of s' f v ≡ dfn_of s f v)
      → ((x : ℕ) → contents s'.low x ≡ contents s.low x)
      → Claimed e va s' r
      → Claimed e va s r
  through e va s s' r free same disk (k, c, others, end) = (
    k,
    (λ x. c x ∙ disk x),
    (λ f v o. others f v o ∙ same f v),
    elim end [ inl i ↦ inl i | inr (a, b, z, z') ↦ inr (a, sym free ∙ b, sym (same e va) ∙ z, z') ],
  )

  -- What pf_add_env_page leaves.
  abbrev pub Added : ℕ → ℕ → D → PageFile D L → ℤ × PageFile D L → Type 0
  Added e va d s (c, r) =
      IsKept live r
      × ((f v : ℕ) → Other e va f v → stored contents r f v ≡ stored contents s f v)
      × (((c ≡ pos 0) × (stored contents r e va ≡ some d))
          ⊎ ((c ≡ e_no_page_file_space)
              × (s.disk_free_frame_list ≡ [])
              × (stored contents s e va ≡ none)
              × (stored contents r e va ≡ none)))

  pub dfn_of-range :
      (s : PageFile D L)
      → IsKept live s
      → (e va : ℕ) → dfn_of s e va ≢ 0
      → dfn_of s e va < pages_per_file
  dfn_of-range s k e va n =
      let (dn, d, wn, t, r) = parts k.linked e va n in
      subst (λ g. g < pages_per_file) (sym r) (k.owned.range _ (ptx va) t)

  module _ {Ready : ℕ → L → Type 0} {B : Below D L} (sure : Reliable live contents Ready B) where
    claim_page_ok :
        (e va : ℕ) (s : PageFile D L)
        → va < kernel_base
        → IsKept live s
        → Ready 2 s.low
        → Yields (Claimed e va s) (claim_page B e va s)
    unfolding claim_page
    claim_page_ok e va s l k room = rw (lt→ltb va kernel_base l) (
        bind_lem (directory_ok live contents sure e s k room)
          λ c s₁ ((k₁, real, (free₁, same₁, disk₁)), one).
            bind_lem (table_ok live contents sure e va s₁ k₁ real one)
              λ t s₂ ((k₂, leaf, tn, word), env₂, (free₂, same₂, disk₂)).
                mono
                  (subst (λ u. Yields (Claimed e va s₂) (claim_frame u (ptx va) s₂)) word
                    (claim_frame_ok e va s₂ (omega arith) k₂
                      (subst (λ v. (v e).disk_env_pgdir ≢ 0) (sym env₂) real)
                      (λ z. tn (sym word ∙ z))))
                  (λ r c.
                    through e va s s₂ r (free₂ ∙ free₁) (λ f v. same₂ f v ∙ same₁ f v)
                      (λ x. disk₂ x ∙ disk₁ x) c))

    write_claimed_ok :
        (e va : ℕ) (d : D) (s : PageFile D L) (o : Option ℕ) (r : PageFile D L)
        → va < 2 ^ 32
        → Claimed e va s (o, r)
        → Yields (Added e va d s) (write_claimed B d o r)
    unfolding write_claimed write_disk_page
    write_claimed_ok e va d s o r l (k, disk, others, inr (on, free, z, z')) = rw on (
        yields _ (
          k,
          (λ f v p.
              page_at-same (contents s.low) (contents r.low) _ _ (others f v p) (λ _. disk _)),
          inr (refl, free, page_at-none (contents s.low) _ z, page_at-none (contents r.low) _ z'),
        ))
    write_claimed_ok e va d s o r l (k, disk, others, inl (g, os, gn, at)) = rw os (
        lift_lem _ r (sure.write_ok (sector_of g) d r.low (sector_of-InFile g range))
          λ c m (ok, written, spared, kept). rw ok (
            yields _ (
              record {
                dirs = k.dirs;
                leafs = k.leafs;
                linked = IsLinked-same kept (λ c i a. refl) (λ f. refl) k.linked;
                owned = k.owned;
              },
              (λ f v p. page_at-same (contents s.low) (contents m) _ _ (others f v p) (λ n.
                  spared _ (
                    sector_of-apart g (dfn_of s f v) range (in_range f v (others f v p) n)
                      (apart f v p n))
                  ∙ disk _)),
              inl (
                refl,
                ap (page_at (contents m)) at ∙ page_at-some (contents m) g gn ∙ ap some written,
              ),
            )))
      where
        range : g < pages_per_file
        range = subst (λ h. h < pages_per_file) at (dfn_of-range r k e va (λ z. gn (sym at ∙ z)))

        in_range :
            (f v : ℕ)
            → dfn_of r f v ≡ dfn_of s f v
            → dfn_of s f v ≢ 0
            → dfn_of s f v < pages_per_file
        in_range f v q n =
            subst (λ h. h < pages_per_file) q (dfn_of-range r k f v (λ z. n (sym q ∙ z)))

        apart : (f v : ℕ) → Other e va f v → dfn_of s f v ≢ 0 → g ≢ dfn_of s f v
        apart f v p n q =
            not_other
              (frame_of-once k.linked k.owned e va f v l p.0 (λ z. gn (sym at ∙ z))
                (at ∙ q ∙ sym (others f v p)))
              p.1

    -- pf_add_env_page of an address below KERNEL_BASE, where the invariant of the page file holds,
    -- kmalloc can give two pages more, and the disk's driver does what is relied on: it returns,
    -- the invariant holds, and the stored pages of all other addresses and processes are as before. Either the result is 0
    -- and the page is stored with the new content, or it is E_NO_PAGE_FILE_SPACE, the free list
    -- was empty, and the page is stored neither before nor after.
    pub pf_add_env_page-Added :
        (e va : ℕ) (d : D) (s : PageFile D L)
        → va < kernel_base
        → IsKept live s
        → Ready 2 s.low
        → Yields (Added e va d s) (pf_add_env_page B e va d s)
    unfolding pf_add_env_page
    pf_add_env_page-Added e va d s l k room =
        bind_lem (claim_page_ok e va s l k room)
          λ o r c. write_claimed_ok e va d s o r (omega arith) c
