-- ===== src/PageFile/Lookup.antt =====
-- kern/disk/pagefile_manager.c: the disk frame of a page, from the directory through the table.
use fos_educational_os_proje.Base.{
  ℕ, ◌+◌, ◌/◌, ◌^◌, ◌<◌, ◌≤◌, ◌≡◌, refl, sym, subst, ◌∙◌, ap, ◌≢◌, ◌⊎◌, inl, inr, Bool, true, none,
  some, List, ◌==◌, false≢true, arith, Bool-cases, ==_iff, ==-ne,
}
use fos_educational_os_proje.PageFile.{pages_per_file, pdx, ptx, sector_of}
use fos_educational_os_proje.PageFile.Inv.{
  entry_in, page_at, IsOwned, IsLinked, poked, poked_other, poked_here, poked_cases,
}

pub entry_in-real : (w : ℕ → ℕ → ℕ) (t i : ℕ) → t ≢ 0 → entry_in w t i ≡ w t i
entry_in-real w t i n = rw (==-ne t 0 n) refl

pub entry_in-null : (w : ℕ → ℕ → ℕ) (t i : ℕ) → t ≡ 0 → entry_in w t i ≡ 0
entry_in-null w t i e = rw ((==_iff t 0).1 e) refl

pub null_cases : (t : ℕ) → (t ≡ 0) ⊎ (t ≢ 0)
null_cases t = elim (Bool-cases (t == 0)) [
  | inl e ↦ inl ((==_iff t 0).0 e)
  | inr n ↦ inr (λ e. false≢true (sym n ∙ (==_iff t 0).1 e))
]

entry_in-held : (w : ℕ → ℕ → ℕ) (t i : ℕ) → entry_in w t i ≢ 0 → t ≢ 0
entry_in-held w t i n e = n (entry_in-null w t i e)

abbrev pub frame_of : (ℕ → ℕ → ℕ) → ℕ → ℕ → ℕ
frame_of w d va = entry_in w (entry_in w d (pdx va)) (ptx va)

pub frame_of-real :
    (w : ℕ → ℕ → ℕ) (d va : ℕ)
    → d ≢ 0
    → w d (pdx va) ≢ 0
    → frame_of w d va ≡ w (w d (pdx va)) (ptx va)
frame_of-real w d va n m =
    let e = entry_in-real w d (pdx va) n in
    entry_in-real w _ (ptx va) (λ z. m (sym e ∙ z)) ∙ ap (λ t. w t (ptx va)) e

-- An address of another page, or of another process.
abbrev pub Other : (e va f v : ℕ) → Type 0
Other e va f v = (v < 2 ^ 32) × ((f ≢ e) ⊎ (v / 4096 ≢ va / 4096))

pub page_lem :
    (va v : ℕ) → va < 2 ^ 32 → v < 2 ^ 32 → pdx va ≡ pdx v → ptx va ≡ ptx v → v / 4096 ≡ va / 4096
page_lem va v l m p q = omega arith

pub not_other : {e f p q : ℕ} → (f ≡ e) × (p ≡ q) → (f ≢ e) ⊎ (p ≢ q) → ⊥
not_other (a, b) (inl n) = n a
not_other (a, b) (inr n) = n b

module _ {used dirs leafs : ℕ → Bool} {dir : ℕ → ℕ} {w : ℕ → ℕ → ℕ}
    (k : IsLinked used dirs leafs dir w) where
  pub table_lem : (d i : ℕ) → dirs d ≡ true → entry_in w d i ≢ 0 → leafs (entry_in w d i) ≡ true
  table_lem d i a n =
      let e = entry_in-real w d i (entry_in-held w d i n) in
      subst (λ t. leafs t ≡ true) (sym e) (k.table_of d i a (λ z. n (e ∙ z)))

  -- A change that spares the entries, and the tables' addresses but where one that was absent becomes a
  -- table of zeros.
  pub frame_of-same :
      (w' : ℕ → ℕ → ℕ) (d : ℕ)
      → (d ≢ 0 → dirs d ≡ true)
      → ((i : ℕ) → dirs d ≡ true → (w' d i ≡ w d i) ⊎ ((w d i ≡ 0) × ((x : ℕ) → w' (w' d i) x ≡ 0)))
      → ((t i : ℕ) → leafs t ≡ true → w' t i ≡ w t i)
      → (va : ℕ) → frame_of w' d va ≡ frame_of w d va
  frame_of-same w' d into tables entries va = elim (null_cases d) [
    | inl z ↦
        entry_in-null w' _ (ptx va) (entry_in-null w' d (pdx va) z)
        ∙ sym (entry_in-null w _ (ptx va) (entry_in-null w d (pdx va) z))
    | inr n ↦ elim (tables (pdx va) (into n)) [
      | inl q ↦
          let same : entry_in w' d (pdx va) ≡ entry_in w d (pdx va) =
            entry_in-real w' d (pdx va) n ∙ q ∙ sym (entry_in-real w d (pdx va) n) in
          ap (λ t. entry_in w' t (ptx va)) same
          ∙ at_table n (entry_in w d (pdx va)) (table_lem d (pdx va) (into n))
      | inr (q, zeros) ↦
          let old = entry_in-null w _ (ptx va) (entry_in-real w d (pdx va) n ∙ q) in
          ap (λ t. entry_in w' t (ptx va)) (entry_in-real w' d (pdx va) n)
          ∙ empty (w' d (pdx va)) zeros
          ∙ sym old
    ]
  ]
    where
      at_table :
          d ≢ 0
          → (t : ℕ) → (t ≢ 0 → leafs t ≡ true)
          → entry_in w' t (ptx va) ≡ entry_in w t (ptx va)
      at_table n t leaf = elim (null_cases t) [
        | inl z ↦ entry_in-null w' t (ptx va) z ∙ sym (entry_in-null w t (ptx va) z)
        | inr m ↦
            entry_in-real w' t (ptx va) m
            ∙ entries t (ptx va) (leaf m)
            ∙ sym (entry_in-real w t (ptx va) m)
      ]

      empty : (t : ℕ) → ((x : ℕ) → w' t x ≡ 0) → entry_in w' t (ptx va) ≡ 0
      empty t zeros = elim (null_cases t) [
        | inl z ↦ entry_in-null w' t (ptx va) z
        | inr m ↦ entry_in-real w' t (ptx va) m ∙ zeros (ptx va)
      ]

  -- The directory and the table of a page that has a frame.
  pub parts :
      (e va : ℕ)
      → frame_of w (dir e) va ≢ 0
      → (dir e ≢ 0)
        × (dirs (dir e) ≡ true)
        × (w (dir e) (pdx va) ≢ 0)
        × (leafs (w (dir e) (pdx va)) ≡ true)
        × (frame_of w (dir e) va ≡ w (w (dir e) (pdx va)) (ptx va))
  parts e va n =
      let tn = entry_in-held w _ (ptx va) n in
      let dn = entry_in-held w (dir e) (pdx va) tn in
      let de = entry_in-real w (dir e) (pdx va) dn in
      let wn : w (dir e) (pdx va) ≢ 0 = λ z. tn (de ∙ z) in
      let d = k.dir_of e dn in
      (
        dn,
        d,
        wn,
        k.table_of (dir e) (pdx va) d wn,
        entry_in-real w _ (ptx va) tn ∙ ap (λ t. w t (ptx va)) de,
      )

  -- Two pages with a disk frame in common are the same page of the same process.
  pub frame_of-once :
      {free : List ℕ} (o : IsOwned leafs w free) (e va f v : ℕ)
      → va < 2 ^ 32
      → v < 2 ^ 32
      → frame_of w (dir e) va ≢ 0
      → frame_of w (dir e) va ≡ frame_of w (dir f) v
      → (f ≡ e) × (v / 4096 ≡ va / 4096)
  frame_of-once o e va f v l m n q =
      let (dn, d, wn, t, r) = parts e va n in
      let (dn', d', wn', t', r') = parts f v (λ z. n (q ∙ z)) in
      let (st, sp) = o.once _ (ptx va) _ (ptx v) t t' (λ z. n (r ∙ z)) (sym r ∙ q ∙ r') in
      let (sd, sx) = k.table_once (dir e) (pdx va) (dir f) (pdx v) d d' wn st in
      (sym (k.dir_once e f dn sd), page_lem va v l m sx sp)

  -- A write to a table spares the directories.
  pub dir_word : (t j x c i : ℕ) → leafs t ≡ true → dirs c ≡ true → poked w t j x c i ≡ w c i
  dir_word t j x c i a b =
      poked_other w t j x c i
        (λ z. false≢true (sym (k.apart c b) ∙ subst (λ q. leafs q ≡ true) (sym z) a))

  -- After a write to the entry of a page: its frame, and those of the others.
  pub frame_of-poked :
      (e va x : ℕ)
      → dir e ≢ 0
      → w (dir e) (pdx va) ≢ 0
      → frame_of (poked w (w (dir e) (pdx va)) (ptx va) x) (dir e) va ≡ x
  frame_of-poked e va x dn wn =
      let d = k.dir_of e dn in
      let w' = poked w (w (dir e) (pdx va)) (ptx va) x in
      let same : w' (dir e) (pdx va) ≡ w (dir e) (pdx va) =
        dir_word _ (ptx va) x (dir e) (pdx va) (k.table_of (dir e) (pdx va) d wn) d in
      frame_of-real w' (dir e) va dn (λ z. wn (sym same ∙ z))
      ∙ ap (λ t. w' t (ptx va)) same
      ∙ poked_here w (w (dir e) (pdx va)) (ptx va) x

  pub frame_of-others :
      (e va x f v : ℕ)
      → dir e ≢ 0
      → w (dir e) (pdx va) ≢ 0
      → va < 2 ^ 32
      → Other e va f v
      → frame_of (poked w (w (dir e) (pdx va)) (ptx va) x) (dir f) v ≡ frame_of w (dir f) v
  frame_of-others e va x f v dn wn l o = elim (null_cases (dir f)) [
    | inl z ↦ both (entry_in-null w' (dir f) (pdx v) z) (entry_in-null w (dir f) (pdx v) z)
    | inr n ↦ elim (null_cases (w (dir f) (pdx v))) [
      | inl z ↦
          both (entry_in-real w' (dir f) (pdx v) n ∙ same n ∙ z)
            (entry_in-real w (dir f) (pdx v) n ∙ z)
      | inr m ↦
          frame_of-real w' (dir f) v n (λ z. m (sym (same n) ∙ z))
          ∙ ap (λ t. w' t (ptx v)) (same n)
          ∙ spared n m
          ∙ sym (frame_of-real w (dir f) v n m)
    ]
  ]
    where
      w' : ℕ → ℕ → ℕ
      w' = poked w (w (dir e) (pdx va)) (ptx va) x

      both :
          entry_in w' (dir f) (pdx v) ≡ 0
          → entry_in w (dir f) (pdx v) ≡ 0
          → frame_of w' (dir f) v ≡ frame_of w (dir f) v
      both a b = entry_in-null w' _ (ptx v) a ∙ sym (entry_in-null w _ (ptx v) b)

      same : dir f ≢ 0 → w' (dir f) (pdx v) ≡ w (dir f) (pdx v)
      same n =
          dir_word _ (ptx va) x (dir f) (pdx v) (k.table_of (dir e) (pdx va) (k.dir_of e dn) wn)
            (k.dir_of f n)

      spared :
          dir f ≢ 0
          → w (dir f) (pdx v) ≢ 0
          → w' (w (dir f) (pdx v)) (ptx v) ≡ w (w (dir f) (pdx v)) (ptx v)
      spared n m =
          elim (poked_cases w (w (dir e) (pdx va)) (ptx va) x (w (dir f) (pdx v)) (ptx v)) [
            | inl (q, j, _) ↦
                let (sd, sx) =
                  k.table_once (dir f) (pdx v) (dir e) (pdx va) (k.dir_of f n) (k.dir_of e dn) m
                    q in
                let se : f ≡ e = k.dir_once f e n sd in
                absurd (not_other (se, page_lem va v l o.0 (sym sx) (sym j)) o.1)
            | inr (_, q) ↦ q
          ]

-- Disk frames do not overlap on the disk.
pub sector_of-apart :
    (f g : ℕ)
    → f < pages_per_file
    → g < pages_per_file
    → f ≢ g
    → (sector_of g + 8 ≤ sector_of f) ⊎ (sector_of f + 8 ≤ sector_of g)
sector_of-apart f g l m n = ground arith

pub page_at-some : {D : Type 0} (c : ℕ → D) (g : ℕ) → g ≢ 0 → page_at c g ≡ some (c (sector_of g))
page_at-some c g n = rw (==-ne g 0 n) refl

pub page_at-none : {D : Type 0} (c : ℕ → D) (g : ℕ) → g ≡ 0 → page_at c g ≡ none
page_at-none c g e = rw ((==_iff g 0).1 e) refl

pub page_at-same :
    {D : Type 0} (c c' : ℕ → D) (g h : ℕ)
    → g ≡ h
    → (h ≢ 0 → c' (sector_of h) ≡ c (sector_of h))
    → page_at c' g ≡ page_at c h
page_at-same c c' g h e same = ap (page_at c') e ∙ elim (null_cases h) [
  | inl z ↦ page_at-none c' h z ∙ sym (page_at-none c h z)
  | inr n ↦ page_at-some c' h n ∙ ap some (same n) ∙ sym (page_at-some c h n)
]
