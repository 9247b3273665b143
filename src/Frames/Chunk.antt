-- ===== src/Frames/Chunk.antt =====
-- kern/mem/chunk_operations.c: marking and freeing the pages of the user heap. `free_user_mem` calls the page
-- file and the working set of the process, which are parameters.
use fos_educational_os_proje.Base.{
  ℕ, zero, suc, ◌+◌, ◌*◌, ◌/◌, ◌^◌, ◌≤◌, ◌<◌, ◌≡◌, ◌≢◌, refl, sym, subst, ◌∙◌, ap, Bool, true,
  false, Option, none, some, ◌==◌, ltb, update, update_self, update-ne, Yields, yields, Bool-cases,
  inl, inr, ==_iff, false≢true, lt→ltb, arith,
}
use fos_educational_os_proje.Base.Monad.{M, pure, modify, panic, ◌>>=◌, ◌>>◌, mono}
use fos_educational_os_proje.KHeap.{add32, round_up, round_down}
use fos_educational_os_proje.Frames.{
  Frames, Entry, Perms, perm_uhpage, in_memory, is_held, slot, link_of, page_size, no_bits,
  get_page_table, create_page_table, pt_set_page_permissions, unmap_frame,
}
use fos_educational_os_proje.Frames.Sums.{uses-empty}
use fos_educational_os_proje.Frames.Inv.{IsCounted, with_slot, entry_set}
use fos_educational_os_proje.Frames.Unmap.{get_page_table-linked}

abbrev pub is_uhpage : Perms
is_uhpage perm_uhpage = true
is_uhpage _ = false

-- The entry PERM_UHPAGE.
abbrev pub marked : Entry
marked = record { frame = 0; bits = is_uhpage }

module _ (kmalloc : M Frames (Option ℕ)) where
  unfoldable pub mark_page : ℕ → ℕ → M Frames (Unit {0})
  mark_page dir cur = do
    t ← get_page_table dir cur >>= or_new
    modify (λ s. record s { entry = update s.entry (slot t cur) marked })
    where
      or_new : Option ℕ → M Frames ℕ
      or_new none = create_page_table kmalloc dir cur
      or_new (some t) = pure t

  unfoldable pub mark_pages : (fuel : ℕ) → ℕ → (cur end_va : ℕ) → M Frames (Unit {0})
  mark_pages zero dir cur end_va = panic
  mark_pages (suc fuel) dir cur end_va = elim (ltb cur end_va) [
    | true ↦ (do mark_page dir cur; mark_pages fuel dir (add32 cur page_size) end_va)
    | false ↦ pure tt
  ]

  -- A round for each whole page of the size, two for pages at the ends, and one for the test that ends
  -- the loop.
  unfoldable pub allocate_user_mem : ℕ → (va size : ℕ) → M Frames (Unit {0})
  allocate_user_mem dir va size =
      mark_pages (size / page_size + 3) dir (round_down va page_size)
        (round_up (add32 va size) page_size)

module _ (pf_remove_env_page env_page_ws_invalidate : ℕ → M Frames (Unit {0})) where
  unfoldable pub free_pages : (fuel : ℕ) → ℕ → (v end_va : ℕ) → M Frames (Unit {0})
  free_pages zero dir v end_va = panic
  free_pages (suc fuel) dir v end_va = elim (ltb v end_va) [
    | true ↦ do
      pt_set_page_permissions dir v no_bits is_uhpage
      pf_remove_env_page v
      env_page_ws_invalidate v
      unmap_frame dir v
      free_pages fuel dir (add32 v page_size) end_va
    | false ↦ pure tt
  ]

  unfoldable pub free_user_mem : ℕ → (va size : ℕ) → M Frames (Unit {0})
  free_user_mem dir va size =
      free_pages (size / page_size + 3) dir (round_down va page_size)
        (round_up (add32 va size) page_size)

-- The `k` pages from the page `p` have tables, `tab` of each address, and stand for no frame.
abbrev pub Unheld : ℕ → (ℕ → ℕ) → ℕ → ℕ → Frames → Type 0
Unheld dir tab p k s =
    (q : ℕ)
    → p ≤ q
    → q < p + k
    → (s.link (link_of dir (q * page_size)) ≡ in_memory (tab q))
      × (is_held (s.entry (slot (tab q) (q * page_size))) ≡ false)

-- Entries that were marked stay so, and the frames are counted.
abbrev pub Marks : (ℕ → ℕ) → (ℕ → Bool) → (ℕ → ℕ) → ℕ → ℕ → Frames → Frames → Type 0
Marks own hand tab p k s r =
    IsCounted own hand r
    × ((q : ℕ) → p ≤ q → q < p + k → r.entry (slot (tab q) (q * page_size)) ≡ marked)
    × ((y : ℕ) → s.entry y ≡ marked → r.entry y ≡ marked)

mark_entry : (s : Frames) (x y : ℕ) → s.entry y ≡ marked → update s.entry x marked y ≡ marked
mark_entry s x y e = elim (Bool-cases (y == x)) [
  | inl t ↦
      subst (λ k. update s.entry x marked k ≡ marked) (sym ((==_iff y x).0 t))
        (update_self s.entry x marked)
  | inr n ↦ update-ne s.entry x marked y (λ q. false≢true (sym n ∙ (==_iff y x).1 q)) ∙ e
]

mark_unheld :
    (s : Frames) (x y : ℕ)
    → is_held (s.entry y) ≡ false
    → is_held (update s.entry x marked y) ≡ false
mark_unheld s x y e = elim (Bool-cases (y == x)) [
  | inl t ↦
      subst (λ k. is_held (update s.entry x marked k) ≡ false) (sym ((==_iff y x).0 t))
        (ap is_held (update_self s.entry x marked))
  | inr n ↦
      ap is_held (update-ne s.entry x marked y (λ q. false≢true (sym n ∙ (==_iff y x).1 q))) ∙ e
]

marked-IsCounted :
    {own : ℕ → ℕ} {hand : ℕ → Bool} (s : Frames) (x : ℕ)
    → IsCounted own hand s
    → is_held (s.entry x) ≡ false
    → IsCounted own hand (record s { entry = update s.entry x marked })
marked-IsCounted s x i n =
    let (j, mem) = with_slot s x i in
    entry_set s _ x marked j mem refl refl (λ h. absurd (false≢true h))
      (λ g. omega (arith, uses-empty (s.entry x) g n, uses-empty marked g refl)) i.small i.free_once
      (λ g l. i.unreferenced g l) (λ g m. (i.free_range g m, i.free_apart g m))

mark_pages-Marks :
    {own : ℕ → ℕ} {hand : ℕ → Bool} (kmalloc : M Frames (Option ℕ)) (dir : ℕ) (tab : ℕ → ℕ)
    (k p fuel : ℕ) (s : Frames)
    → k < fuel
    → (p + k) * page_size < 2 ^ 32
    → IsCounted own hand s
    → Unheld dir tab p k s
    → Yields
        (λ r. Marks own hand tab p k s r.1)
        (mark_pages kmalloc fuel dir (p * page_size) ((p + k) * page_size) s)
unfolding mark_pages mark_page
mark_pages-Marks kmalloc dir tab k p zero s l m i u = absurd (no l)
  where
    no : k < 0 → ⊥
    no l = omega arith
mark_pages-Marks kmalloc dir tab zero p (suc fuel) s l m i u =
    rw (stop p, mark_pages) (yields _ (i, (λ q a b. absurd (between q a b)), λ y e. e))
  where
    stop : (p : ℕ) → ltb (p * page_size) ((p + 0) * page_size) ≡ false
    stop p = ground arith

    between : (q : ℕ) → p ≤ q → q < p + 0 → ⊥
    between q a b = omega arith
mark_pages-Marks {own = own} {hand = hand} kmalloc dir tab (suc k) p (suc fuel) s l m i u =
    let here = u p (omega arith) (omega arith) in
    let x = slot (tab p) (p * page_size) in
    let s' : Frames = record s { entry = update s.entry x marked } in
    rw (lt→ltb (p * page_size) ((p + suc k) * page_size) (omega arith), mark_pages)
      (rw (get_page_table-linked dir (p * page_size) (tab p) s here.0) (
        rw (next p m, last p k)
          (mono
            (mark_pages-Marks kmalloc dir tab k (p + 1) fuel s' (omega arith) (omega arith)
              (marked-IsCounted s x i here.1)
              (λ q a b.
                let v = u q (omega arith) (omega arith) in
                (v.0, mark_unheld s x (slot (tab q) (q * page_size)) v.1)))
            (λ r (c, all, kept). (
              c,
              (λ q a b. elim (Bool-cases (q == p)) [
                | inl t ↦
                    subst (λ j. r.1.entry (slot (tab j) (j * page_size)) ≡ marked)
                      (sym ((==_iff q p).0 t)) (kept x (update_self s.entry x marked))
                | inr n ↦
                    all q (above q a (λ e. false≢true (sym n ∙ (==_iff q p).1 e))) (omega arith)
              ]),
              λ y e. kept y (mark_entry s x y e),
            )))))
  where
    next :
        (p : ℕ)
        → (p + suc k) * page_size < 2 ^ 32
        → add32 (p * page_size) page_size ≡ (p + 1) * page_size
    next p m = omega arith

    last : (p k : ℕ) → (p + suc k) * page_size ≡ (p + 1 + k) * page_size
    last p k = omega arith

    above : (q : ℕ) → p ≤ q → q ≢ p → p + 1 ≤ q
    above q a ne = omega arith

-- allocate_user_mem of the `k` pages from the page `p`, which end at least a page below 2 ^ 32,
-- where the frames are counted, and each of these pages has a table in memory with an entry that
-- stands for no frame: it returns, the frames are counted, the entry of each of the pages is
-- PERM_UHPAGE, and entries that were PERM_UHPAGE before still are.
pub allocate_user_mem-Marks :
    (kmalloc : M Frames (Option ℕ)) (own : ℕ → ℕ) (hand : ℕ → Bool) (dir : ℕ) (tab : ℕ → ℕ)
    (p k : ℕ) (s : Frames)
    → (p + k + 1) * page_size < 2 ^ 32
    → IsCounted own hand s
    → Unheld dir tab p k s
    → Yields
        (λ r. Marks own hand tab p k s r.1)
        (allocate_user_mem kmalloc dir (p * page_size) (k * page_size) s)
unfolding allocate_user_mem
allocate_user_mem-Marks kmalloc own hand dir tab p k s m i u =
    rw (first p, end_va p k m)
      (mark_pages-Marks kmalloc dir tab k p (k * page_size / page_size + 3) s (omega arith)
        (omega arith) i u)
  where
    first : (p : ℕ) → round_down (p * page_size) page_size ≡ p * page_size
    first p = omega arith

    end_va :
        (p k : ℕ)
        → (p + k + 1) * page_size < 2 ^ 32
        → round_up (add32 (p * page_size) (k * page_size)) page_size ≡ (p + k) * page_size
    end_va p k m = omega arith
