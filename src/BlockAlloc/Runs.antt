-- ===== src/BlockAlloc/Runs.antt =====
-- lib/dynamic_allocator.c: the blocks of a page, and how many of them are free.
use fos_educational_os_proje.Base.{
  ℕ, zero, suc, ◌+◌, ◌*◌, ◌≤◌, ◌<◌, ◌≡◌, refl, sym, ap, ◌≢◌, true, false, List, [], ◌∷◌, ◌==◌,
  if◌then◌else◌, get_or, set, length, has, Distinct, count, count_all, arith, Bool-cases, inl, inr,
  ==_iff, false≢true,
}
use native.Mathlib.Nat.{suc-mul}
use fos_educational_os_proje.BlockAlloc.{run}

-- How many of the addresses are in the lists.
abbrev pub free_in : List (List ℕ) → List ℕ → ℕ
free_in qs [] = 0
free_in qs (x ∷ xs) = count_all x qs + free_in qs xs

pub free_in-one_more :
    (b : ℕ) (qs rs : List (List ℕ)) (xs : List ℕ)
    → ((x : ℕ) → count_all x rs ≡ (if b == x then 1 else 0) + count_all x qs)
    → Distinct xs
    → free_in rs xs ≡ (if has b xs then 1 else 0) + free_in qs xs
free_in-one_more b qs rs [] more d = refl
free_in-one_more b qs rs (x ∷ xs) more d = elim (Bool-cases (b == x)) [
  | inl t ↦
      let e : b ≡ x = (==_iff b x).0 t in
      let out : has b xs ≡ false = rw e d.0 in
      let rest = free_in-one_more b qs rs xs more d.1 in
      rw (more x) (rw t (omega (arith, rw out at rest)))
  | inr f ↦ rw (more x) (rw f (omega (arith, free_in-one_more b qs rs xs more d.1)))
]

pub free_in-le :
    (qs : List (List ℕ)) (xs : List ℕ) → ((x : ℕ) → count_all x qs ≤ 1) → free_in qs xs ≤ length xs
free_in-le qs [] once = omega arith
free_in-le qs (x ∷ xs) once = omega (arith, once x, free_in-le qs xs once)

-- All of them are free where as many are in the lists as there are.
pub free_in-all :
    (qs : List (List ℕ)) (xs : List ℕ) (y : ℕ)
    → ((x : ℕ) → count_all x qs ≤ 1)
    → free_in qs xs ≡ length xs
    → has y xs ≡ true
    → count_all y qs ≡ 1
free_in-all qs [] y once all h = absurd (false≢true h)
free_in-all qs (x ∷ xs) y once all h =
    let le : free_in qs xs ≤ length xs = free_in-le qs xs once in
    elim (Bool-cases (y == x)) [
      | inl t ↦ rw ((==_iff y x).0 t) (omega (arith, once x))
      | inr f ↦ free_in-all qs xs y once (omega (arith, once x)) (rw f at h)
    ]

pub length-run : (a s n : ℕ) → length (run a s n) ≡ n
unfolding run
length-run a s zero = refl
length-run a s (suc n) = ap suc (length-run (a + s) s n)

pub run-above : (a s n x : ℕ) → has x (run a s n) ≡ true → a ≤ x
unfolding run
run-above a s zero x h = absurd (false≢true h)
run-above a s (suc n) x h = elim (Bool-cases (x == a)) [
  | inl t ↦ omega (arith, (==_iff x a).0 t)
  | inr f ↦ omega (arith, run-above (a + s) s n x (rw f at h))
]

pub run-below : (a s n x : ℕ) → has x (run a s n) ≡ true → x + s ≤ a + n * s
unfolding run
run-below a s zero x h = absurd (false≢true h)
run-below a s (suc n) x h = elim (Bool-cases (x == a)) [
  | inl t ↦ rw suc-mul (omega (arith, (==_iff x a).0 t))
  | inr f ↦ rw suc-mul (omega (arith, run-below (a + s) s n x (rw f at h)))
]

run-out : (a s n x : ℕ) → x < a → has x (run a s n) ≡ false
run-out a s n x lt = elim (Bool-cases (has x (run a s n))) [
  | inl t ↦ absurd (omega (arith, run-above a s n x t))
  | inr f ↦ f
]

pub run-Distinct : (a s n : ℕ) → 0 < s → Distinct (run a s n)
unfolding run
run-Distinct a s zero pos = tt
run-Distinct a s (suc n) pos = (run-out (a + s) s n a (omega arith), run-Distinct (a + s) s n pos)

-- The counts of lists of which one changes.
pub count_all-set :
    (x i : ℕ) (q : List ℕ) (qs : List (List ℕ))
    → i < length qs
    → count_all x (set qs i q) + count x (get_or qs i []) ≡ count x q + count_all x qs
count_all-set x i q [] lt = absurd (omega arith)
count_all-set x zero q (r ∷ qs) lt = omega arith
count_all-set x (suc i) q (r ∷ qs) lt = omega (arith, count_all-set x i q qs (omega arith))

pub get_or-set_self :
    {A : Type 0} (i : ℕ) (q d : A) (qs : List A) → i < length qs → get_or (set qs i q) i d ≡ q
get_or-set_self i q d [] lt = absurd (omega arith)
get_or-set_self zero q d (r ∷ qs) lt = refl
get_or-set_self (suc i) q d (r ∷ qs) lt = get_or-set_self i q d qs (omega arith)

pub get_or-set_ne :
    {A : Type 0} (i j : ℕ) (q d : A) (qs : List A) → i ≢ j → get_or (set qs i q) j d ≡ get_or qs j d
get_or-set_ne i j q d [] ne = refl
get_or-set_ne zero zero q d (r ∷ qs) ne = absurd (ne refl)
get_or-set_ne zero (suc j) q d (r ∷ qs) ne = refl
get_or-set_ne (suc i) zero q d (r ∷ qs) ne = refl
get_or-set_ne (suc i) (suc j) q d (r ∷ qs) ne = get_or-set_ne i j q d qs (λ e. ne (ap suc e))

pub count_has : (x : ℕ) (q : List ℕ) → has x q ≡ true → 0 < count x q
count_has x [] h = absurd (false≢true h)
count_has x (y ∷ q) h = elim (Bool-cases (x == y)) [
  | inl t ↦ rw ((==_iff y x).1 (sym ((==_iff x y).0 t))) (omega arith)
  | inr f ↦ omega (arith, count_has x q (rw f at h))
]

pub count_out : (x : ℕ) (q : List ℕ) → has x q ≡ false → count x q ≡ 0
count_out x [] h = refl
count_out x (y ∷ q) h = ground (arith, count_out x q)

pub count-Distinct : (x : ℕ) (q : List ℕ) → Distinct q → count x q ≤ 1
count-Distinct x [] d = omega arith
count-Distinct x (y ∷ q) d = elim (Bool-cases (y == x)) [
  | inl t ↦ rw t (omega (arith, count_out x q (rw ((==_iff y x).0 t) at d.0)))
  | inr f ↦ rw f (omega (arith, count-Distinct x q d.1))
]

pub free_in-agree :
    (qs rs : List (List ℕ)) (xs : List ℕ)
    → ((x : ℕ) → has x xs ≡ true → count_all x rs ≡ count_all x qs)
    → free_in rs xs ≡ free_in qs xs
free_in-agree qs rs [] h = refl
free_in-agree qs rs (x ∷ xs) h =
    let here = h x (ground arith) in
    let rest = free_in-agree qs rs xs (λ y m. h y (ground arith)) in omega arith

pub free_in-full :
    (qs : List (List ℕ)) (xs : List ℕ)
    → ((x : ℕ) → has x xs ≡ true → count_all x qs ≡ 1)
    → free_in qs xs ≡ length xs
free_in-full qs [] h = refl
free_in-full qs (x ∷ xs) h =
    let here = h x (ground arith) in
    let rest = free_in-full qs xs (λ y m. h y (ground arith)) in omega arith
