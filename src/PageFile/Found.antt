-- ===== src/PageFile/Found.antt =====
-- kern/disk/pagefile_manager.c: the directory and the table of a page are found or made, and no page's disk frame changes.
use fos_educational_os_proje.Base.{
  ℕ, arith, ◌≡◌, refl, sym, subst, ◌∙◌, ap, ◌≢◌, ◌⊎◌, inl, inr, Bool, true, false, ◌==◌, Option,
  some, if◌then◌else◌, false≢true, ==_iff, ==-ne, update, update_self, update-ne, Yields, yields,
}
use fos_educational_os_proje.Base.Monad.{M, and_then, mono}
use fos_educational_os_proje.PageFile.{
  Below, DiskEnv, PageFile, lifted, pdx, ptx, load, store, new_directory, get_disk_page_directory,
  new_table, get_disk_page_table,
}
use fos_educational_os_proje.PageFile.Inv.{dfn_of, Reliable, IsKept, poked, poked_here, poked_other}
use fos_educational_os_proje.PageFile.Pages.{
  Gave, IsOwned-same, IsOwned-fresh, out_of, ne_by, update_cases,
}
use fos_educational_os_proje.PageFile.Linked.{
  table_word, IsLinked-directory, IsLinked-table, IsLinked-same,
}
use fos_educational_os_proje.PageFile.Lookup.{
  frame_of, frame_of-same, entry_in-real, entry_in-null, null_cases,
}

pub lift_lem :
    {D L A C : Type 0} {P : A × L → Type 0} {Q : C × PageFile D L → Type 0} {o : Option (A × L)}
    (f : A → M (PageFile D L) C) (s : PageFile D L)
    → Yields P o
    → ((a : A) (l : L) → P (a, l) → Yields Q (f a (record s { low = l })))
    → Yields Q (and_then (lifted s o) f)
lift_lem f s (yields r p) k = k r.0 r.1 p

-- The member disk_env_pgdir of the processes after a write to one process.
pub pgdir_at :
    (env : ℕ → DiskEnv) (e : ℕ) (d : DiskEnv)
    → (f : ℕ)
    → (update env e d f).disk_env_pgdir ≡ update (λ f. (env f).disk_env_pgdir) e d.disk_env_pgdir f
unfolding update
pgdir_at env e d f = at (f == e)
  where
    at :
        (b : Bool)
        → (if b then d else env f).disk_env_pgdir
          ≡ (if b then d.disk_env_pgdir else (env f).disk_env_pgdir)
    at true = refl
    at false = refl

module _ {D L : Type 0} (live : L → ℕ → Bool) (contents : L → ℕ → D) where
  -- The same disk frames of all pages, the same free ones, and the same disk.
  abbrev pub Alike : PageFile D L → PageFile D L → Type 0
  Alike s r =
      (r.disk_free_frame_list ≡ s.disk_free_frame_list)
      × ((f v : ℕ) → dfn_of r f v ≡ dfn_of s f v)
      × ((x : ℕ) → contents r.low x ≡ contents s.low x)

  module _ {Ready : ℕ → L → Type 0} {B : Below D L} (sure : Reliable live contents Ready B) where
    made_directory :
        (e : ℕ) (s : PageFile D L) (p : ℕ) (l : L)
        → IsKept live s
        → (s.env e).disk_env_pgdir ≡ 0
        → p ≢ 0
        → Gave p (live s.low) (live l)
        → ((x : ℕ) → contents l x ≡ contents s.low x)
        → Yields
            (λ r.
              (IsKept live r.1 × ((r.1.env e).disk_env_pgdir ≢ 0) × Alike s r.1) × (r.1.low ≡ l))
            (new_directory e (some p) (record s { low = l }))
    unfolding new_directory
    made_directory e s p l k absent ne g c = yields _ (
      (
        record {
          dirs = update k.dirs p true;
          leafs = k.leafs;
          linked =
              IsLinked-same (λ q u. u) (λ d i a. refl) (pgdir_at s.env e _)
                (IsLinked-directory e p ne absent g k.linked);
          owned = IsOwned-same (λ t i a. leaf_word t i a) k.owned;
        },
        (λ z. ne (sym new_dir ∙ z)),
        (refl, (λ f v. same f v), c),
      ),
      refl,
    )
      where
        new_dir : (update s.env e (record (s.env e) { disk_env_pgdir = p }) e).disk_env_pgdir ≡ p
        new_dir =
            ap (λ d. d.disk_env_pgdir)
              (update_self s.env e (record (s.env e) { disk_env_pgdir = p }))

        leaf_word : (t i : ℕ) → k.leafs t ≡ true → update s.word p (λ i. 0) t i ≡ s.word t i
        leaf_word t i a =
            ap (λ f. f i)
              (update-ne s.word p (λ i. 0) t
                (ne_by k.leafs t p a (out_of p k.linked.leafs_live g.0)))

        dir_word : (d i : ℕ) → k.dirs d ≡ true → update s.word p (λ i. 0) d i ≡ s.word d i
        dir_word d i a =
            ap (λ f. f i)
              (update-ne s.word p (λ i. 0) d (ne_by k.dirs d p a (out_of p k.linked.dirs_live g.0)))

        same :
            (f v : ℕ)
            → frame_of
                (update s.word p (λ i. 0))
                (update s.env e (record (s.env e) { disk_env_pgdir = p }) f).disk_env_pgdir
                v
              ≡ frame_of s.word (s.env f).disk_env_pgdir v
        same f v = elim (update_cases s.env e (record (s.env e) { disk_env_pgdir = p }) f) [
          | inl (q, u) ↦
              ap (λ d. frame_of (update s.word p (λ i. 0)) d.disk_env_pgdir v) u
              ∙ entry_in-null (update s.word p (λ i. 0)) _ (ptx v) (
                  entry_in-real (update s.word p (λ i. 0)) p (pdx v) ne
                  ∙ ap (λ f. f (pdx v)) (update_self s.word p (λ i. 0)))
              ∙ sym (
                  entry_in-null s.word _ (ptx v) (
                    entry_in-null s.word _ (pdx v) (ap (λ f. (s.env f).disk_env_pgdir) q ∙ absent)))
          | inr (q, u) ↦
              ap (λ d. frame_of (update s.word p (λ i. 0)) d.disk_env_pgdir v) u
              ∙ frame_of-same k.linked (update s.word p (λ i. 0)) (s.env f).disk_env_pgdir
                  (k.linked.dir_of f) (λ i a. inl (dir_word _ i a)) leaf_word v
        ]

    pub directory_ok :
        (e : ℕ) (s : PageFile D L)
        → IsKept live s
        → Ready 2 s.low
        → Yields
            (λ r.
              (IsKept live r.1 × ((r.1.env e).disk_env_pgdir ≢ 0) × Alike s r.1) × Ready 1 r.1.low)
            (get_disk_page_directory B e s)
    unfolding get_disk_page_directory
    directory_ok e s k room = elim (null_cases (s.env e).disk_env_pgdir) [
      | inl z ↦ rw ((==_iff (s.env e).disk_env_pgdir 0).1 z) (
          lift_lem (new_directory e) s (sure.kmalloc_ok 1 s.low room) λ o l r. rw (r.1) (
            mono (made_directory e s r.0 l k z r.2 (r.3, r.4, r.5) r.6)
              λ q (x, at). (x, subst (Ready 1) (sym at) r.7)))
      | inr n ↦ rw (==-ne _ 0 n) (
          yields _
            ((k, n, (refl, (λ f v. refl), λ x. refl)), sure.fewer 1 2 s.low (omega arith) room))
    ]

    -- The table that get_disk_page_table gives, when it may create one.
    abbrev pub TableFound : ℕ → ℕ → PageFile D L → ℕ × PageFile D L → Type 0
    TableFound e va s (t, r) =
        ((k : IsKept live r) × (k.leafs t ≡ true)
          × (t ≢ 0)
          × (r.word (r.env e).disk_env_pgdir (pdx va) ≡ t))
        × (r.env ≡ s.env)
        × Alike s r

    made_table :
        (e va : ℕ) (s : PageFile D L) (p : ℕ) (l : L) (k : IsKept live s)
        → (s.env e).disk_env_pgdir ≢ 0
        → s.word (s.env e).disk_env_pgdir (pdx va) ≡ 0
        → p ≢ 0
        → Gave p (live s.low) (live l)
        → ((x : ℕ) → contents l x ≡ contents s.low x)
        → Yields
            (TableFound e va s)
            (new_table (s.env e).disk_env_pgdir va (some p) (record s { low = l }))
    unfolding new_table store
    made_table e va s p l k real absent ne g c = rw (==-ne (s.env e).disk_env_pgdir 0 real) (
        yields _ (
          (
            record {
              dirs = k.dirs;
              leafs = update k.leafs p true;
              linked = IsLinked-table d (pdx va) p ne at absent g k.linked;
              owned = IsOwned-fresh p (out_of p k.linked.leafs_live g.0) zeros leaf_word k.owned;
            },
            update_self k.leafs p true,
            ne,
            there,
          ),
          refl,
          (
            refl,
            (λ f v.
                frame_of-same k.linked w' (s.env f).disk_env_pgdir (k.linked.dir_of f)
                  (λ i a. word_of (s.env f).disk_env_pgdir i a) leaf_word v),
            c,
          ),
        ))
      where
        d : ℕ
        d = (s.env e).disk_env_pgdir

        w' : ℕ → ℕ → ℕ
        w' = update (poked s.word d (pdx va) p) p (λ i. 0)

        at : k.dirs d ≡ true
        at = k.linked.dir_of e real

        zeros : (i : ℕ) → w' p i ≡ 0
        zeros i = ap (λ f. f i) (update_self (poked s.word d (pdx va) p) p (λ i. 0))

        away : (c : ℕ) → k.dirs c ≡ true → c ≢ p
        away c a = ne_by k.dirs c p a (out_of p k.linked.dirs_live g.0)

        leaf_word : (t i : ℕ) → k.leafs t ≡ true → w' t i ≡ s.word t i
        leaf_word t i a =
            ap (λ f. f i)
              (update-ne (poked s.word d (pdx va) p) p (λ i. 0) t
                (ne_by k.leafs t p a (out_of p k.linked.leafs_live g.0)))
            ∙ poked_other s.word d (pdx va) p t i
                (λ z. false≢true (sym (k.linked.apart d at) ∙ subst (λ q. k.leafs q ≡ true) z a))

        word_of :
            (c i : ℕ)
            → k.dirs c ≡ true
            → (w' c i ≡ s.word c i) ⊎ ((s.word c i ≡ 0) × ((x : ℕ) → w' (w' c i) x ≡ 0))
        word_of c i a = elim (table_word s.word d (pdx va) p c i (away c a)) [
          | inl x ↦ inr (rw (x.0, x.1) absent, λ y. ap (λ t. w' t y) x.2 ∙ zeros y)
          | inr x ↦ inl x.1
        ]

        there : w' d (pdx va) ≡ p
        there =
            ap (λ f. f (pdx va)) (update-ne (poked s.word d (pdx va) p) p (λ i. 0) d (away d at))
            ∙ poked_here s.word d (pdx va) p

    pub table_ok :
        (e va : ℕ) (s : PageFile D L)
        → IsKept live s
        → (s.env e).disk_env_pgdir ≢ 0
        → Ready 1 s.low
        → Yields (TableFound e va s) (get_disk_page_table B (s.env e).disk_env_pgdir va true s)
    unfolding get_disk_page_table load
    table_ok e va s k real room =
        rw (==-ne (s.env e).disk_env_pgdir 0 real)
          (elim (null_cases (s.word (s.env e).disk_env_pgdir (pdx va))) [
            | inl z ↦ rw ((==_iff (s.word (s.env e).disk_env_pgdir (pdx va)) 0).1 z) (
                lift_lem (new_table (s.env e).disk_env_pgdir va) s (sure.kmalloc_ok 0 s.low room)
                  λ o l r. rw (r.1) (made_table e va s r.0 l k real z r.2 (r.3, r.4, r.5) r.6))
            | inr n ↦ rw (==-ne _ 0 n) (
                yields _ (
                  (k, k.linked.table_of _ (pdx va) (k.linked.dir_of e real) n, n, refl),
                  refl,
                  (refl, (λ f v. refl), λ x. refl),
                ))
          ])
