-- ===== src/PageFile/Claim.antt =====
-- kern/disk/pagefile_manager.c: an entry that takes a free disk frame, and one that gives its frame back.
use fos_educational_os_proje.Base.{
  ℕ, ◌≡◌, refl, sym, subst, ◌∙◌, ◌≢◌, ◌⊎◌, inl, inr, Bool, true, false, List, ◌∷◌, ◌==◌, has,
  false≢true, arith, Bool-cases, ==_iff,
}
use fos_educational_os_proje.PageFile.Inv.{IsOwned, poked, poked_here, poked_cases}

pub has_first : (f : ℕ) (q : List ℕ) → has f (f ∷ q) ≡ true
has_first f q = ground arith

has_rest : (f g : ℕ) (q : List ℕ) → has f q ≡ true → has f (g ∷ q) ≡ true
has_rest f g q m = ground arith

out_rest : (f g : ℕ) (q : List ℕ) → has f (g ∷ q) ≡ false → has f q ≡ false
out_rest f g q m = ground arith

in_cons : (f g : ℕ) (q : List ℕ) → has f (g ∷ q) ≡ true → (f ≡ g) ⊎ (has f q ≡ true)
in_cons f g q m = elim (Bool-cases (f == g)) [
  | inl t ↦ inl ((==_iff f g).0 t)
  | inr n ↦ inr (ground arith)
]

out_cons : (f g : ℕ) (q : List ℕ) → f ≢ g → has f q ≡ false → has f (g ∷ q) ≡ false
out_cons f g q n m = ground arith

pub IsOwned-claim :
    {leafs : ℕ → Bool} {w : ℕ → ℕ → ℕ} (t i f : ℕ) (q : List ℕ)
    → leafs t ≡ true
    → w t i ≡ 0
    → IsOwned leafs w (f ∷ q)
    → IsOwned leafs (poked w t i f) q
IsOwned-claim {leafs = leafs} {w = w} t i f q at absent o = record {
  range = λ u j a. elim (poked_cases w t i f u j) [
    | inl x ↦ rw (x.2) (o.free_range f (has_first f q)).1
    | inr x ↦ rw (x.1) (o.range u j a)
  ];
  taken = λ u j a n. elim (poked_cases w t i f u j) [
    | inl x ↦ rw (x.2) o.free_once.0
    | inr x ↦ rw (x.1) (out_rest (w u j) f q (o.taken u j a (rw (← x.1) n)))
  ];
  once = λ u j v k a b n e. elim (poked_cases w t i f u j) [
    | inl x ↦ elim (poked_cases w t i f v k) [
      | inl y ↦ (x.0 ∙ sym y.0, x.1 ∙ sym y.1)
      | inr y ↦ absurd (stray v k b (sym y.1 ∙ sym e ∙ x.2))
    ]
    | inr x ↦ elim (poked_cases w t i f v k) [
      | inl y ↦ absurd (stray u j a (sym x.1 ∙ e ∙ y.2))
      | inr y ↦ o.once u j v k a b (rw (← x.1) n) (sym x.1 ∙ e ∙ y.1)
    ]
  ];
  free_once = o.free_once.1;
  free_range = λ g m. o.free_range g (has_rest g f q m);
  covers = λ g n r. elim (o.covers g n r) [
    | inl m ↦ elim (in_cons g f q m) [
      | inl e ↦ inr (t, i, at, poked_here w t i f ∙ sym e)
      | inr m' ↦ inl m'
    ]
    | inr (u, j, a, e) ↦ elim (poked_cases w t i f u j) [
      | inl x ↦ absurd (n (sym e ∙ rw (x.0, x.1) absent))
      | inr x ↦ inr (u, j, a, x.1 ∙ e)
    ]
  ];
}
  where
    stray : (u j : ℕ) → leafs u ≡ true → w u j ≡ f → ⊥
    stray u j a e = false≢true (
        sym (o.taken u j a (λ z. (o.free_range f (has_first f q)).0 (sym e ∙ z)))
        ∙ subst (λ k. has k (f ∷ q) ≡ true) (sym e) (has_first f q))

pub IsOwned-cut :
    {leafs : ℕ → Bool} {w : ℕ → ℕ → ℕ} {free : List ℕ} (t i : ℕ)
    → leafs t ≡ true
    → w t i ≢ 0
    → IsOwned leafs w free
    → IsOwned leafs (poked w t i 0) (w t i ∷ free)
IsOwned-cut {leafs = leafs} {w = w} {free = free} t i at held o = record {
  range = λ u j a. elim (poked_cases w t i 0 u j) [
    | inl x ↦ rw (x.2) (omega arith)
    | inr x ↦ rw (x.1) (o.range u j a)
  ];
  taken = λ u j a n. elim (poked_cases w t i 0 u j) [
    | inl x ↦ absurd (n x.2)
    | inr x ↦
        subst (λ k. has k (w t i ∷ free) ≡ false) (sym x.1)
          (out_cons (w u j) (w t i) free
            (λ e. let s = o.once u j t i a at (rw (← x.1) n) e in x.0 s.0 s.1)
            (o.taken u j a (rw (← x.1) n)))
  ];
  once = λ u j v k a b n e. elim (poked_cases w t i 0 u j) [
    | inl x ↦ absurd (n x.2)
    | inr x ↦ elim (poked_cases w t i 0 v k) [
      | inl y ↦ absurd (n (e ∙ y.2))
      | inr y ↦ o.once u j v k a b (rw (← x.1) n) (sym x.1 ∙ e ∙ y.1)
    ]
  ];
  free_once = (o.taken t i at held, o.free_once);
  free_range = λ g m. elim (in_cons g (w t i) free m) [
    | inl e ↦ rw e (held, o.range t i at)
    | inr m' ↦ o.free_range g m'
  ];
  covers = λ g n r. elim (o.covers g n r) [
    | inl m ↦ inl (has_rest g (w t i) free m)
    | inr (u, j, a, e) ↦ elim (poked_cases w t i 0 u j) [
      | inl x ↦
          let same : w u j ≡ w t i = rw (x.0, x.1) refl in
          inl (subst (λ k. has k (w t i ∷ free) ≡ true) (sym same ∙ e) (has_first (w t i) free))
      | inr x ↦ inr (u, j, a, x.1 ∙ e)
    ]
  ];
}
