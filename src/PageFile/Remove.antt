-- ===== src/PageFile/Remove.antt =====
-- kern/disk/pagefile_manager.c: pf_remove_env_page takes a page off the disk, and spares all others.
use fos_educational_os_proje.Base.{
  ℕ, ◌^◌, ◌<◌, ◌≡◌, refl, sym, subst, ◌∙◌, ap, ◌≢◌, ◌⊎◌, inl, inr, Bool, true, false, ◌∷◌, ◌==◌,
  none, some, if◌then◌else◌, ==_iff, ==-ne, Yields, yields,
}
use fos_educational_os_proje.PageFile.{
  Below, PageFile, poke, pdx, ptx, load, store, free_disk_frame, find_table, remove_entry,
  get_disk_page_table, pf_remove_env_page,
}
use fos_educational_os_proje.PageFile.Inv.{
  table_of, dfn_of, page_at, stored, IsKept, IsLinked, poked, poked_cases,
}
use fos_educational_os_proje.PageFile.Pages.{IsOwned-same}
use fos_educational_os_proje.PageFile.Linked.{IsLinked-same}
use fos_educational_os_proje.PageFile.Claim.{IsOwned-cut}
use fos_educational_os_proje.PageFile.Lookup.{
  frame_of, Other, dir_word, frame_of-poked, frame_of-others, frame_of-real, null_cases,
  entry_in-real, entry_in-null, page_at-none,
}

-- The look at the table changes nothing.
existing_table :
    {D L : Type 0} (B : Below D L) (d va : ℕ) (s : PageFile D L)
    → d ≢ 0
    → get_disk_page_table B d va false s ≡ some (s.word d (pdx va), s)
unfolding get_disk_page_table load
existing_table B d va s n = rw (==-ne d 0 n) (elim (null_cases (s.word d (pdx va))) [
  | inl z ↦ rw ((==_iff (s.word d (pdx va)) 0).1 z) (ap (λ t. some (t, s)) (sym z))
  | inr m ↦ rw (==-ne (s.word d (pdx va)) 0 m) refl
])

pub find_table_lem :
    {D L : Type 0} (B : Below D L) (e va : ℕ) (s : PageFile D L)
    → find_table B e va s ≡ some (table_of s e va, s)
unfolding find_table
find_table_lem B e va s = elim (null_cases (s.env e).disk_env_pgdir) [
  | inl z ↦ rw ((==_iff (s.env e).disk_env_pgdir 0).1 z) refl
  | inr n ↦
      rw (==-ne (s.env e).disk_env_pgdir 0 n) (existing_table B (s.env e).disk_env_pgdir va s n)
]

-- A page's table is there, or the page has no frame.
pub table_cases :
    {D L : Type 0} (e va : ℕ) (s : PageFile D L)
    → ((table_of s e va ≡ 0) × (dfn_of s e va ≡ 0))
      ⊎ (((s.env e).disk_env_pgdir ≢ 0)
          × (s.word (s.env e).disk_env_pgdir (pdx va) ≢ 0)
          × (table_of s e va ≡ s.word (s.env e).disk_env_pgdir (pdx va)))
table_cases e va s = elim (null_cases (s.env e).disk_env_pgdir) [
  | inl z ↦ missing (entry_in-null s.word (s.env e).disk_env_pgdir (pdx va) z)
  | inr n ↦ elim (null_cases (s.word (s.env e).disk_env_pgdir (pdx va))) [
    | inl z ↦ missing (entry_in-real s.word _ (pdx va) n ∙ z)
    | inr m ↦ inr (n, m, entry_in-real s.word _ (pdx va) n)
  ]
]
  where
    missing :
        table_of s e va ≡ 0
        → ((table_of s e va ≡ 0) × (dfn_of s e va ≡ 0))
          ⊎ (((s.env e).disk_env_pgdir ≢ 0)
              × (s.word (s.env e).disk_env_pgdir (pdx va) ≢ 0)
              × (table_of s e va ≡ s.word (s.env e).disk_env_pgdir (pdx va)))
    missing z = inl (z, entry_in-null s.word (table_of s e va) (ptx va) z)

pub load_real :
    {D L : Type 0} (t i : ℕ) (s : PageFile D L) → t ≢ 0 → load t i s ≡ some (s.word t i, s)
unfolding load
load_real t i s n = rw (==-ne t 0 n) refl

store_real :
    {D L : Type 0} (t i v : ℕ) (s : PageFile D L) → t ≢ 0 → store t i v s ≡ some (tt, poke t i v s)
unfolding store
store_real t i v s n = rw (==-ne t 0 n) refl

-- A zero written over a zero.
same_zero : (w : ℕ → ℕ → ℕ) (t i c j : ℕ) → w t i ≡ 0 → poked w t i 0 c j ≡ w c j
same_zero w t i c j z = elim (poked_cases w t i 0 c j) [
  | inl x ↦ x.2 ∙ sym (rw (x.0, x.1) z)
  | inr x ↦ x.1
]

module _ {D L : Type 0} (live : L → ℕ → Bool) (contents : L → ℕ → D) where
  -- What pf_remove_env_page leaves.
  abbrev pub Removed : ℕ → ℕ → PageFile D L → PageFile D L → Type 0
  Removed e va s r =
      IsKept live r
      × ((f v : ℕ) → Other e va f v → stored contents r f v ≡ stored contents s f v)
      × (stored contents r e va ≡ none)
      × (r.disk_free_frame_list ≡ (
          if dfn_of s e va == 0
          then s.disk_free_frame_list
          else dfn_of s e va ∷ s.disk_free_frame_list))

  cut_ok :
      (e va : ℕ) (s : PageFile D L) (k : IsKept live s)
      → va < 2 ^ 32
      → (s.env e).disk_env_pgdir ≢ 0
      → s.word (s.env e).disk_env_pgdir (pdx va) ≢ 0
      → Removed e va s (
          free_disk_frame
            (s.word (s.word (s.env e).disk_env_pgdir (pdx va)) (ptx va))
            (poke (s.word (s.env e).disk_env_pgdir (pdx va)) (ptx va) 0 s))
  unfolding free_disk_frame
  cut_ok e va s k l real w = elim (null_cases held) [
    | inl z ↦ rw ((==_iff held 0).1 z) (
      record {
        dirs = k.dirs;
        leafs = k.leafs;
        linked = linked;
        owned = IsOwned-same (λ c i a. same_zero s.word t (ptx va) c i z) k.owned;
      },
      others,
      gone,
      rw ((==_iff _ 0).1 (at ∙ z)) refl,
    )
    | inr n ↦ rw (==-ne held 0 n) (
      record {
        dirs = k.dirs;
        leafs = k.leafs;
        linked = linked;
        owned = IsOwned-cut t (ptx va) table n k.owned;
      },
      others,
      gone,
      rw (==-ne _ 0 (λ z. n (sym at ∙ z))) (ap (λ g. g ∷ s.disk_free_frame_list) (sym at)),
    )
  ]
    where
      t : ℕ
      t = s.word (s.env e).disk_env_pgdir (pdx va)

      held : ℕ
      held = s.word t (ptx va)

      table : k.leafs t ≡ true
      table = k.linked.table_of _ (pdx va) (k.linked.dir_of e real) w

      linked :
          IsLinked
            (live s.low)
            k.dirs
            k.leafs
            (λ f. (s.env f).disk_env_pgdir)
            (poked s.word t (ptx va) 0)
      linked =
          IsLinked-same (λ q u. u) (λ c i a. dir_word k.linked t (ptx va) 0 c i table a) (λ f. refl)
            k.linked

      at : dfn_of s e va ≡ held
      at = frame_of-real s.word _ va real w

      others :
          (f v : ℕ)
          → Other e va f v
          → page_at
              (contents s.low)
              (frame_of (poked s.word t (ptx va) 0) (s.env f).disk_env_pgdir v)
            ≡ stored contents s f v
      others f v o = ap (page_at (contents s.low)) (frame_of-others k.linked e va 0 f v real w l o)

      gone :
          page_at
            (contents s.low)
            (frame_of (poked s.word t (ptx va) 0) (s.env e).disk_env_pgdir va)
          ≡ none
      gone = page_at-none (contents s.low) _ (frame_of-poked k.linked e va 0 real w)

  entry_at :
      (e va : ℕ) (s : PageFile D L) (t : ℕ)
      → t ≢ 0
      → Removed e va s (free_disk_frame (s.word t (ptx va)) (poke t (ptx va) 0 s))
      → Yields (λ r. Removed e va s r.1) (remove_entry va t s)
  unfolding remove_entry
  entry_at e va s t n r =
      rw (==-ne t 0 n)
        (rw (load_real t (ptx va) s n) (rw (store_real t (ptx va) 0 s n) (yields _ r)))

  remove_entry_ok :
      (e va : ℕ) (s : PageFile D L) (k : IsKept live s)
      → va < 2 ^ 32
      → Yields (λ r. Removed e va s r.1) (remove_entry va (table_of s e va) s)
  unfolding remove_entry
  remove_entry_ok e va s k l = elim (table_cases e va s) [
    | inl (z, y) ↦
        subst (λ t. Yields (λ r. Removed e va s r.1) (remove_entry va t s)) (sym z)
          (yields _ (
            k,
            (λ f v o. refl),
            page_at-none (contents s.low) (dfn_of s e va) y,
            rw ((==_iff (dfn_of s e va) 0).1 y) refl,
          ))
    | inr (real, w, at) ↦
        subst (λ t. Yields (λ r. Removed e va s r.1) (remove_entry va t s)) (sym at)
          (entry_at e va s (s.word (s.env e).disk_env_pgdir (pdx va)) w (cut_ok e va s k l real w))
  ]

  -- pf_remove_env_page of an address of 32 bits, where the invariant of the page file holds: it
  -- returns, the invariant holds, the page is not stored, the stored pages of all other addresses
  -- and processes are as before, and the free list has the page's disk frame in front, where it
  -- had one.
  pub pf_remove_env_page-Removed :
      (B : Below D L) (e va : ℕ) (s : PageFile D L)
      → va < 2 ^ 32
      → IsKept live s
      → Yields (λ r. Removed e va s r.1) (pf_remove_env_page B e va s)
  unfolding pf_remove_env_page
  pf_remove_env_page-Removed B e va s l k =
      rw (find_table_lem B e va s) (remove_entry_ok e va s k l)
