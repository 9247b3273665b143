-- ===== src/PageFile/Pages.antt =====
-- kern/disk/pagefile_manager.c: a new directory and a new table keep the invariant and every page's frame.
use fos_educational_os_proje.Base.{
  ℕ, List, ◌≡◌, sym, subst, ◌∙◌, ◌≢◌, ◌⊎◌, inl, inr, Bool, true, false, ◌==◌, update, update_self,
  update-ne, Bool-cases, ==_iff, false≢true, arith,
}
use fos_educational_os_proje.PageFile.Inv.{IsOwned}

pub update_cases {ℓ} :
    {A : Type ℓ} (f : ℕ → A) (p : ℕ) (v : A) (q : ℕ)
    → ((q ≡ p) × (update f p v q ≡ v)) ⊎ ((q ≢ p) × (update f p v q ≡ f q))
update_cases f p v q = elim (Bool-cases (q == p)) [
  | inl t ↦
      let e : q ≡ p = (==_iff q p).0 t in
      inl (e, subst (λ k. update f p v k ≡ v) (sym e) (update_self f p v))
  | inr n ↦
      let ne : q ≢ p = λ e. false≢true (sym n ∙ (==_iff q p).1 e) in inr (ne, update-ne f p v q ne)
]

-- A page that was not in use is no directory and holds no frame's number.
pub out_of :
    {used here : ℕ → Bool} (p : ℕ)
    → ((q : ℕ) → here q ≡ true → used q ≡ true)
    → used p ≡ false
    → here p ≡ false
out_of {here = here} p into n = elim (Bool-cases (here p)) [
  | inl t ↦ absurd (false≢true (sym n ∙ into p t))
  | inr f ↦ f
]

pub ne_by : (b : ℕ → Bool) (p q : ℕ) → b p ≡ true → b q ≡ false → p ≢ q
ne_by b p q t f e = false≢true (sym f ∙ subst (λ k. b k ≡ true) e t)

-- What kmalloc did when it gave out the page `p`.
abbrev pub Gave : ℕ → (ℕ → Bool) → (ℕ → Bool) → Type 0
Gave p used used' = (used p ≡ false) × (used' p ≡ true) × ((q : ℕ) → used q ≡ true → used' q ≡ true)

-- The words of the entries as before.
pub IsOwned-same :
    {leafs : ℕ → Bool} {w w' : ℕ → ℕ → ℕ} {free : List ℕ}
    → ((t i : ℕ) → leafs t ≡ true → w' t i ≡ w t i)
    → IsOwned leafs w free
    → IsOwned leafs w' free
IsOwned-same {leafs = leafs} same o = record {
  range = λ t i a. rw (same t i a) (o.range t i a);
  taken = λ t i a n. rw (same t i a) (o.taken t i a (rw (← same t i a) n));
  once = λ t i u j a b n e.
      o.once t i u j a b (rw (← same t i a) n) (sym (same t i a) ∙ e ∙ same u j b);
  free_once = o.free_once;
  free_range = o.free_range;
  covers = λ f n r. elim (o.covers f n r) [
    | inl h ↦ inl h
    | inr (t, i, a, e) ↦ inr (t, i, a, same t i a ∙ e)
  ];
}

-- A new page of zeros.
pub IsOwned-fresh :
    {leafs : ℕ → Bool} {w w' : ℕ → ℕ → ℕ} {free : List ℕ} (p : ℕ)
    → leafs p ≡ false
    → ((i : ℕ) → w' p i ≡ 0)
    → ((t i : ℕ) → leafs t ≡ true → w' t i ≡ w t i)
    → IsOwned leafs w free
    → IsOwned (update leafs p true) w' free
IsOwned-fresh {leafs = leafs} {w = w} {w' = w'} p out none_there same o = record {
  range = λ t i a. elim (old t a) [
    | inl q ↦ rw q (rw (none_there i) (omega arith))
    | inr m ↦ rw (same t i m) (o.range t i m)
  ];
  taken = λ t i a n. elim (old t a) [
    | inl q ↦ absurd (n (rw q (none_there i)))
    | inr m ↦ rw (same t i m) (o.taken t i m (rw (← same t i m) n))
  ];
  once = λ t i u j a b n e. elim (old t a) [
    | inl q ↦ absurd (n (rw q (none_there i)))
    | inr m ↦ elim (old u b) [
      | inl q ↦ absurd (n (e ∙ rw q (none_there j)))
      | inr k ↦ o.once t i u j m k (rw (← same t i m) n) (sym (same t i m) ∙ e ∙ same u j k)
    ]
  ];
  free_once = o.free_once;
  free_range = o.free_range;
  covers = λ f n r. elim (o.covers f n r) [
    | inl h ↦ inl h
    | inr (t, i, a, e) ↦
        inr (t, i, update-ne leafs p true t (ne_by leafs t p a out) ∙ a, same t i a ∙ e)
  ];
}
  where
    old : (t : ℕ) → update leafs p true t ≡ true → (t ≡ p) ⊎ (leafs t ≡ true)
    old t a = elim (update_cases leafs p true t) [
      | inl (q, v) ↦ inl q
      | inr (q, v) ↦ inr (sym v ∙ a)
    ]
