-- ===== src/KHeap/Cover.antt =====
-- The lists of bulks of kern/mem/kheap.c: what an insertion, a removal and a search do to any sum
-- over the list and to any predicate of its elements.
use fos_educational_os_proje.Base.{
  ℕ, ◌+◌, ◌-◌, ◌^◌, ◌≤◌, ◌<◌, ◌≡◌, refl, subst, Bool, true, false, ◌&&◌, none, some, List, [], ◌∷◌,
  ◌==◌, ltb, leb, if◌then◌else◌, arith, Bool-cases, inl, inr, ==_iff,
}
use fos_educational_os_proje.KHeap.{
  Bulk, insert_bulk_desc, remove_bulk, find_bulk, exact_fit, add32, sub32, kernel_heap_max,
}

-- 1 where the address lies in the region.
abbrev pub inside : ℕ → (start size : ℕ) → ℕ
inside a start size = if leb start a && ltb a (start + size) then 1 else 0

abbrev pub weigh : (Bulk → ℕ) → List Bulk → ℕ
weigh f [] = 0
weigh f (b ∷ bs) = f b + weigh f bs

-- How many of the regions hold the address.
abbrev pub cover : ℕ → List Bulk → ℕ
cover a bs = weigh (λ b. inside a b.start b.size) bs

-- How many of the bulks have their node there.
abbrev pub nodes_at : ℕ → List Bulk → ℕ
nodes_at p bs = weigh (λ b. if b.node == p then 1 else 0) bs

abbrev pub All : (Bulk → Type 0) → List Bulk → Type 0
All P [] = Unit
All P (b ∷ bs) = P b × All P bs

-- Falling sizes.
abbrev pub Sorted : List Bulk → Type 0
Sorted [] = Unit
Sorted (b ∷ bs) = All (λ c. c.size ≤ b.size) bs × Sorted bs

pub data In (b : Bulk) : List Bulk → Type 0 where
  here : {bs : List Bulk} → In b (b ∷ bs)
  there : {c : Bulk} {bs : List Bulk} → In b bs → In b (c ∷ bs)

pub All-In : (P : Bulk → Type 0) {b : Bulk} {bs : List Bulk} → In b bs → All P bs → P b
All-In P here h = h.0
All-In P (there i) h = All-In P i h.1

pub All-map :
    {P Q : Bulk → Type 0} (bs : List Bulk) → ((b : Bulk) → P b → Q b) → All P bs → All Q bs
All-map [] f h = tt
All-map (b ∷ bs) f h = (f b h.0, All-map bs f h.1)

pub weigh-In : (f : Bulk → ℕ) {b : Bulk} {bs : List Bulk} → In b bs → f b ≤ weigh f bs
weigh-In f here = omega arith
weigh-In f (there i) = omega (arith, weigh-In f i)

pub weigh-insert :
    (f : Bulk → ℕ) (b : Bulk) (bs : List Bulk) → weigh f (insert_bulk_desc b bs) ≡ f b + weigh f bs
unfolding insert_bulk_desc
weigh-insert f b [] = refl
weigh-insert f b (c ∷ cs) = ground (arith, weigh-insert f b cs)

pub All-insert :
    (P : Bulk → Type 0) (b : Bulk) (bs : List Bulk) → P b → All P bs → All P (insert_bulk_desc b bs)
unfolding insert_bulk_desc
All-insert P b [] p h = (p, tt)
All-insert P b (c ∷ cs) p h = elim (Bool-cases (ltb b.size c.size)) [
  | inl t ↦ rw t (h.0, All-insert P b cs p h.1)
  | inr t ↦ rw t (p, h)
]

pub All-remove :
    (P : Bulk → Type 0) (b : Bulk) (bs : List Bulk) → All P bs → All P (remove_bulk b bs)
unfolding remove_bulk
All-remove P b [] h = tt
All-remove P b (c ∷ cs) h = elim (Bool-cases (c.node == b.node)) [
  | inl t ↦ rw t h.1
  | inr t ↦ rw t (h.0, All-remove P b cs h.1)
]

-- insert_bulk_desc into a list of falling sizes gives a list of falling sizes.
pub insert-Sorted : (b : Bulk) (bs : List Bulk) → Sorted bs → Sorted (insert_bulk_desc b bs)
unfolding insert_bulk_desc
insert-Sorted b [] s = (tt, tt)
insert-Sorted b (c ∷ cs) s = elim (Bool-cases (ltb b.size c.size)) [
  | inl t ↦ rw t (All-insert (λ d. d.size ≤ c.size) b cs (ground arith) s.0, insert-Sorted b cs s.1)
  | inr t ↦
      let le : c.size ≤ b.size = ground arith in rw t ((le, All-map cs (λ d q. omega arith) s.0), s)
]

pub remove-Sorted : (b : Bulk) (bs : List Bulk) → Sorted bs → Sorted (remove_bulk b bs)
unfolding remove_bulk
remove-Sorted b [] s = tt
remove-Sorted b (c ∷ cs) s = elim (Bool-cases (c.node == b.node)) [
  | inl t ↦ rw t s.1
  | inr t ↦ rw t (All-remove (λ d. d.size ≤ c.size) b cs s.0, remove-Sorted b cs s.1)
]

-- Of a list in which its node stands once, a bulk is taken out and nothing else.
pub weigh-remove :
    (f : Bulk → ℕ) {b : Bulk} {bs : List Bulk}
    → In b bs
    → nodes_at b.node bs ≤ 1
    → f b + weigh f (remove_bulk b bs) ≡ weigh f bs
unfolding remove_bulk
weigh-remove f {b} here once = ground arith
weigh-remove f {b} (there {c} {bs} i) once =
    let at = weigh-In (λ d. if d.node == b.node then 1 else 0) i in ground (arith, weigh-remove f i)

pub find-In :
    (test : Bulk → Bool) (bs : List Bulk) {b : Bulk}
    → find_bulk test bs ≡ some b
    → In b bs × (test b ≡ true)
unfolding find_bulk
find-In test [] h = cc
find-In test (c ∷ cs) {b} h = elim (Bool-cases (test c)) [
  | inl t ↦
      let e : c ≡ b = cc (rw t at h) in subst (λ d. In d (c ∷ cs) × (test d ≡ true)) e (here, t)
  | inr t ↦ let r = find-In test cs (rw t at h) in (there r.0, r.1)
]

pub find-none :
    (test : Bulk → Bool) (bs : List Bulk) → find_bulk test bs ≡ none → All (λ b. test b ≡ false) bs
unfolding find_bulk
find-none test [] h = tt
find-none test (c ∷ cs) h = elim (Bool-cases (test c)) [
  | inl t ↦ cc (rw t at h)
  | inr t ↦ (t, find-none test cs (rw t at h))
]

-- A region is its front and the rest of it.
pub inside-split :
    (a start size k : ℕ)
    → k < size
    → start + size < 2 ^ 32
    → inside a start size ≡ inside a start k + inside a (add32 start k) (sub32 size k)
inside-split a start size k lt fit = ground arith

-- The region up to the break, and the region behind it.
pub inside-grow :
    (a start break k : ℕ)
    → start ≤ break
    → break + k ≤ kernel_heap_max
    → inside a start (add32 break k - start) ≡ inside a start (break - start) + inside a break k
inside-grow a start break k le fit = ground arith

pub exact_fit-In :
    (needed : ℕ) (bs : List Bulk) {b : Bulk}
    → exact_fit needed bs ≡ some b
    → In b bs × (b.size ≡ needed)
unfolding exact_fit
exact_fit-In needed [] h = cc
exact_fit-In needed (c ∷ cs) {b} h = elim (Bool-cases (leb needed c.size)) [
  | inl t ↦
      let f = find-In (λ d. d.size == needed) (c ∷ cs) (rw t at h) in
      (f.0, (==_iff b.size needed).0 f.1)
  | inr t ↦ cc (rw t at h)
]

-- Where no size is exact and the largest is not above it, each region is too small.
pub no_fit :
    (needed : ℕ) (c : Bulk) (cs : List Bulk)
    → Sorted (c ∷ cs)
    → exact_fit needed (c ∷ cs) ≡ none
    → ltb needed c.size ≡ false
    → All (λ b. b.size < needed) (c ∷ cs)
unfolding exact_fit
no_fit needed c cs s h f = elim (Bool-cases (leb needed c.size)) [
  | inl t ↦
      let ne = find-none (λ d. d.size == needed) (c ∷ cs) (rw t at h) in
      absurd (not_exact needed c.size f t ne.0)
  | inr t ↦ let lt : c.size < needed = ground arith in (lt, All-map cs (λ d q. omega arith) s.0)
]
  where
    not_exact : (n k : ℕ) → ltb n k ≡ false → leb n k ≡ true → (k == n) ≡ false → ⊥
    not_exact n k a b d = ground arith
