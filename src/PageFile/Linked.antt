-- ===== src/PageFile/Linked.antt =====
-- kern/disk/pagefile_manager.c: a new directory and a new table keep each process's own directory and each
-- directory's own tables.
use fos_educational_os_proje.Base.{
  ℕ, ◌≡◌, sym, subst, ◌∙◌, ap, ◌≢◌, ◌⊎◌, inl, inr, Bool, true, update, update_self, update-ne,
}
use fos_educational_os_proje.PageFile.Inv.{IsLinked, poked, poked_cases}
use fos_educational_os_proje.PageFile.Pages.{update_cases, out_of, ne_by, Gave}

-- The set with one page more.
with_page : (b : ℕ → Bool) (p q : ℕ) → update b p true q ≡ true → (q ≡ p) ⊎ (b q ≡ true)
with_page b p q a = elim (update_cases b p true q) [
  | inl (e, v) ↦ inl e
  | inr (e, v) ↦ inr (sym v ∙ a)
]

pub IsLinked-directory :
    {used used' dirs leafs : ℕ → Bool} {dir : ℕ → ℕ} {w : ℕ → ℕ → ℕ} (e p : ℕ)
    → p ≢ 0
    → dir e ≡ 0
    → Gave p used used'
    → IsLinked used dirs leafs dir w
    → IsLinked used' (update dirs p true) leafs (update dir e p) (update w p (λ i. 0))
IsLinked-directory {used = used} {dirs = dirs} {leafs = leafs} {dir = dir} {w = w} e p ne absent g
      k =
    record {
      apart = λ q d. elim (with_page dirs p q d) [
        | inl m ↦ rw m (out_of p k.leafs_live g.0)
        | inr m ↦ k.apart q m
      ];
      dirs_live =
          λ q d. elim (with_page dirs p q d) [ inl m ↦ rw m g.1 | inr m ↦ g.2 q (k.dirs_live q m) ];
      leafs_live = λ q t. g.2 q (k.leafs_live q t);
      dirs_real = update-ne dirs p true 0 (λ z. ne (sym z)) ∙ k.dirs_real;
      leafs_real = k.leafs_real;
      dir_of = λ f n. elim (update_cases dir e p f) [
        | inl (q, v) ↦ rw v (update_self dirs p true)
        | inr (q, v) ↦ rw v (
            update-ne dirs p true (dir f) (λ z. new_dir (dir f) (k.dir_of f (rw (← v) n)) z)
            ∙ k.dir_of f (rw (← v) n))
      ];
      dir_once = λ f h n q. elim (update_cases dir e p f) [
        | inl (a, v) ↦ elim (update_cases dir e p h) [
          | inl (b, u) ↦ a ∙ sym b
          | inr (b, u) ↦ absurd (stray h (sym u ∙ sym q ∙ v))
        ]
        | inr (a, v) ↦ elim (update_cases dir e p h) [
          | inl (b, u) ↦ absurd (stray f (sym v ∙ q ∙ u))
          | inr (b, u) ↦ k.dir_once f h (rw (← v) n) (sym v ∙ q ∙ u)
        ]
      ];
      table_of = λ d i a n. elim (with_page dirs p d a) [
        | inl m ↦ absurd (n (zeros d i m))
        | inr m ↦ rw (same d i m) (k.table_of d i m (rw (← same d i m) n))
      ];
      table_once = λ d i c j a b n q. elim (with_page dirs p d a) [
        | inl m ↦ absurd (n (zeros d i m))
        | inr m ↦ elim (with_page dirs p c b) [
          | inl o ↦ absurd (n (q ∙ zeros c j o))
          | inr o ↦
              k.table_once d i c j m o (rw (← same d i m) n) (sym (same d i m) ∙ q ∙ same c j o)
        ]
      ];
    }
  where
    new_dir : (q : ℕ) → dirs q ≡ true → q ≢ p
    new_dir q d = ne_by dirs q p d (out_of p k.dirs_live g.0)

    stray : (h : ℕ) → dir h ≡ p → ⊥
    stray h q = new_dir (dir h) (k.dir_of h (λ z. ne (sym q ∙ z))) q

    zeros : (d i : ℕ) → d ≡ p → update w p (λ i. 0) d i ≡ 0
    zeros d i q =
        subst (λ h. update w p (λ i. 0) h i ≡ 0) (sym q) (ap (λ f. f i) (update_self w p (λ i. 0)))

    same : (d i : ℕ) → dirs d ≡ true → update w p (λ i. 0) d i ≡ w d i
    same d i a = ap (λ f. f i) (update-ne w p (λ i. 0) d (new_dir d a))

-- A word of a directory after a new table was linked.
pub table_word :
    (w : ℕ → ℕ → ℕ) (d i p c j : ℕ)
    → c ≢ p
    → ((c ≡ d) × (j ≡ i) × (update (poked w d i p) p (λ i. 0) c j ≡ p))
      ⊎ ((c ≡ d → j ≡ i → ⊥) × (update (poked w d i p) p (λ i. 0) c j ≡ w c j))
table_word w d i p c j ne =
    let out = ap (λ f. f j) (update-ne (poked w d i p) p (λ i. 0) c ne) in
    elim (poked_cases w d i p c j) [
      | inl x ↦ inl (x.0, x.1, out ∙ x.2)
      | inr x ↦ inr (x.0, out ∙ x.1)
    ]

pub IsLinked-table :
    {used used' dirs leafs : ℕ → Bool} {dir : ℕ → ℕ} {w : ℕ → ℕ → ℕ} (d i p : ℕ)
    → p ≢ 0
    → dirs d ≡ true
    → w d i ≡ 0
    → Gave p used used'
    → IsLinked used dirs leafs dir w
    → IsLinked used' dirs (update leafs p true) dir (update (poked w d i p) p (λ i. 0))
IsLinked-table {used = used} {used' = used'} {dirs = dirs} {leafs = leafs} {dir = dir} {w = w} d i p
      ne at absent g k =
    record {
      apart = λ q a. update-ne leafs p true q (new_dir q a) ∙ k.apart q a;
      dirs_live = λ q a. g.2 q (k.dirs_live q a);
      leafs_live = λ q t. elim (with_page leafs p q t) [
        | inl m ↦ rw m g.1
        | inr m ↦ g.2 q (k.leafs_live q m)
      ];
      dirs_real = k.dirs_real;
      leafs_real = update-ne leafs p true 0 (λ z. ne (sym z)) ∙ k.leafs_real;
      dir_of = k.dir_of;
      dir_once = k.dir_once;
      table_of = λ c j a n. elim (new_word c j a) [
        | inl m ↦ rw m.2 (update_self leafs p true)
        | inr m ↦ rw m.1 (
            update-ne leafs p true (w c j) (old_table c j a (rw (← m.1) n))
            ∙ k.table_of c j a (rw (← m.1) n))
      ];
      table_once = λ c j b h m o n q. elim (new_word c j m) [
        | inl x ↦ elim (new_word b h o) [
          | inl y ↦ (x.0 ∙ sym y.0, x.1 ∙ sym y.1)
          | inr y ↦ absurd (stray b h o (sym y.1 ∙ sym q ∙ x.2))
        ]
        | inr x ↦ elim (new_word b h o) [
          | inl y ↦ absurd (stray c j m (sym x.1 ∙ q ∙ y.2))
          | inr y ↦ k.table_once c j b h m o (rw (← x.1) n) (sym x.1 ∙ q ∙ y.1)
        ]
      ];
    }
  where
    new_dir : (q : ℕ) → dirs q ≡ true → q ≢ p
    new_dir q a = ne_by dirs q p a (out_of p k.dirs_live g.0)

    old_table : (c j : ℕ) → dirs c ≡ true → w c j ≢ 0 → w c j ≢ p
    old_table c j a n = ne_by leafs (w c j) p (k.table_of c j a n) (out_of p k.leafs_live g.0)

    stray : (c j : ℕ) → dirs c ≡ true → w c j ≡ p → ⊥
    stray c j a q = old_table c j a (λ z. ne (sym q ∙ z)) q

    new_word :
        (c j : ℕ)
        → dirs c ≡ true
        → ((c ≡ d) × (j ≡ i) × (update (poked w d i p) p (λ i. 0) c j ≡ p))
          ⊎ ((c ≡ d → j ≡ i → ⊥) × (update (poked w d i p) p (λ i. 0) c j ≡ w c j))
    new_word c j a = table_word w d i p c j (new_dir c a)

-- The words of the directories as before.
pub IsLinked-same :
    {used used' dirs leafs : ℕ → Bool} {dir dir' : ℕ → ℕ} {w w' : ℕ → ℕ → ℕ}
    → ((q : ℕ) → used q ≡ true → used' q ≡ true)
    → ((d i : ℕ) → dirs d ≡ true → w' d i ≡ w d i)
    → ((e : ℕ) → dir' e ≡ dir e)
    → IsLinked used dirs leafs dir w
    → IsLinked used' dirs leafs dir' w'
IsLinked-same {dirs = dirs} {leafs = leafs} more same e k = record {
  apart = k.apart;
  dirs_live = λ q a. more q (k.dirs_live q a);
  leafs_live = λ q a. more q (k.leafs_live q a);
  dirs_real = k.dirs_real;
  leafs_real = k.leafs_real;
  dir_of = λ f n. rw (e f) (k.dir_of f (λ z. n (e f ∙ z)));
  dir_once = λ f h n q. k.dir_once f h (λ z. n (e f ∙ z)) (sym (e f) ∙ q ∙ e h);
  table_of = λ d i a n. rw (same d i a) (k.table_of d i a (rw (← same d i a) n));
  table_once = λ d i c j a b n q.
      k.table_once d i c j a b (rw (← same d i a) n) (sym (same d i a) ∙ q ∙ same c j b);
}
