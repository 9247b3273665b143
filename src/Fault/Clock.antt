-- ===== src/Fault/Clock.antt =====
-- kern/trap/fault_handler.c: the victims of the clock and of the modified clock. The working set is
-- the list of its pages, the hand (page_last_WS_element) is a place in it, and the used and
-- modified bits are functions of the page.
use fos_educational_os_proje.Base.Monad.{mono}
use fos_educational_os_proje.Base.{
  ℕ, zero, suc, ◌+◌, ◌≤◌, ◌<◌, ◌≡◌, Bool, true, false, not, ◌&&◌, Option, none, some, List, [], ◌∷◌,
  ◌==◌, if◌then◌else◌, update, update_self, length, get_or, has, false≢true, ==_iff, refl, ◌∙◌, ap,
  subst, arith, Bool-cases, inl, inr, Yields, yields,
}

-- LIST_NEXT, and LIST_FIRST where it is null
unfoldable pub advance : List ℕ → ℕ → ℕ
advance ws hand = if hand + 1 == length ws then 0 else hand + 1

-- The place of the victim, which is the hand, and the used bits that are left.
unfoldable pub clock_victim :
    (fuel : ℕ) → List ℕ → (hand : ℕ) → (used : ℕ → Bool) → Option (ℕ × (ℕ → Bool))
clock_victim zero ws hand used = none
clock_victim (suc n) ws hand used =
    let page = get_or ws hand 0 in
    let rest = clock_victim n ws (advance ws hand) (update used page false) in
    if used page then rest else some (hand, used)

-- The first and the third loop of the modified clock, once around.
unfoldable pub look_around : (rounds : ℕ) → List ℕ → (test : ℕ → Bool) → (hand : ℕ) → Option ℕ
look_around zero ws test hand = none
look_around (suc n) ws test hand =
    let rest = look_around n ws test (advance ws hand) in
    if test (get_or ws hand 0) then some hand else rest

-- The second loop, which clears the used bits on its way.
unfoldable pub look_and_clear :
    (rounds : ℕ) → List ℕ → (hand : ℕ) → (used : ℕ → Bool) → Option ℕ × (ℕ → Bool)
look_and_clear zero ws hand used = (none, used)
look_and_clear (suc n) ws hand used =
    let page = get_or ws hand 0 in
    let rest = look_and_clear n ws (advance ws hand) (update used page false) in
    if used page then rest else (some hand, used)

abbrev pub or_else : Option ℕ → ℕ → ℕ
or_else none d = d
or_else (some v) d = v

-- Without a victim so far: the third loop, and after it the hand, to which the loop came back.
unfoldable pub third_loop :
    List ℕ → (hand : ℕ) → (modified : ℕ → Bool) → Option ℕ × (ℕ → Bool) → ℕ × (ℕ → Bool)
third_loop ws hand modified (some v, used) = (v, used)
third_loop ws hand modified (none, used) =
    (or_else (look_around (length ws) ws (λ p. not (used p) && not (modified p)) hand) hand, used)

unfoldable pub second_loop :
    List ℕ → (hand : ℕ) → (used modified : ℕ → Bool) → Option ℕ → ℕ × (ℕ → Bool)
second_loop ws hand used modified (some v) = (v, used)
second_loop ws hand used modified none =
    third_loop ws hand modified (look_and_clear (length ws) ws hand used)

-- The place of the victim of the modified clock and the used bits that are left; none is the panic
-- of an empty working set.
unfoldable pub modified_clock_victim :
    List ℕ → (hand : ℕ) → (used modified : ℕ → Bool) → Option (ℕ × (ℕ → Bool))
modified_clock_victim [] hand used modified = none
modified_clock_victim (p ∷ ws) hand used modified = some (
    second_loop (p ∷ ws) hand used modified
      (look_around (length (p ∷ ws)) (p ∷ ws) (λ a. not (used a) && not (modified a)) hand))

abbrev count_used : (ℕ → Bool) → List ℕ → ℕ
count_used used [] = 0
count_used used (p ∷ ws) = (if used p then 1 else 0) + count_used used ws

count_used-le : (used : ℕ → Bool) (ws : List ℕ) → count_used used ws ≤ length ws
count_used-le used [] = omega arith
count_used-le used (p ∷ ws) = ground (arith, count_used-le used ws)

bit_cleared : (used : ℕ → Bool) (a p : ℕ) → update used a false p ≡ true → used p ≡ true
unfolding update
bit_cleared used a p h = ground arith

cleared-le :
    (used : ℕ → Bool) (a : ℕ) (ws : List ℕ)
    → count_used (update used a false) ws ≤ count_used used ws
cleared-le used a [] = omega arith
cleared-le used a (p ∷ ws) = elim (Bool-cases (update used a false p)) [
  | inl t ↦ rw t (rw (bit_cleared used a p t) (omega (arith, cleared-le used a ws)))
  | inr f ↦ rw f (omega (arith, cleared-le used a ws))
]

cleared-lt :
    (used : ℕ → Bool) (ws : List ℕ) (i : ℕ)
    → i < length ws
    → used (get_or ws i 0) ≡ true
    → count_used (update used (get_or ws i 0) false) ws < count_used used ws
cleared-lt used [] i lt h = absurd (omega arith)
cleared-lt used (p ∷ ws) zero lt h =
    rw (update_self used p false) (rw h (omega (arith, cleared-le used p ws)))
cleared-lt used (p ∷ ws) (suc i) lt h =
    let a = get_or ws i 0 in
    elim (Bool-cases (update used a false p)) [
      | inl t ↦
          rw t (rw (bit_cleared used a p t) (omega (arith, cleared-lt used ws i (omega arith) h)))
      | inr f ↦ rw f (omega (arith, cleared-lt used ws i (omega arith) h))
    ]

advance-lt : (ws : List ℕ) (i : ℕ) → i < length ws → advance ws i < length ws
unfolding advance
advance-lt ws i lt = ground arith

-- The hand after `k` moves, and the pages that it passed.
abbrev pub place : List ℕ → (hand : ℕ) → (k : ℕ) → ℕ
place ws hand zero = hand
place ws hand (suc k) = place ws (advance ws hand) k

abbrev pub passed : List ℕ → (hand : ℕ) → (k : ℕ) → List ℕ
passed ws hand zero = []
passed ws hand (suc k) = get_or ws hand 0 ∷ passed ws (advance ws hand) k

-- The victim is where the hand comes to rest after some moves, at most once around. Each page that
-- it passed was used, and has lost its used bit; no other used bit has changed; and the used bit
-- of the victim is clear: it was clear, or the hand passed the page before.
abbrev pub SecondChance : (bound : ℕ) → List ℕ → ℕ → (ℕ → Bool) → ℕ × (ℕ → Bool) → Type 0
SecondChance bound ws hand used (v, left) =
    (v < length ws)
    × (k : ℕ) × (k ≤ bound)
    × (v ≡ place ws hand k)
    × ((p : ℕ) → has p (passed ws hand k) ≡ true → used p ≡ true)
    × ((p : ℕ) → left p ≡ (used p && not (has p (passed ws hand k))))
    × (left (get_or ws v 0) ≡ false)

one_more :
    (ws : List ℕ) (hand n : ℕ) (used : ℕ → Bool) (r : ℕ × (ℕ → Bool))
    → used (get_or ws hand 0) ≡ true
    → SecondChance n ws (advance ws hand) (update used (get_or ws hand 0) false) r
    → SecondChance (suc n) ws hand used r
unfolding update
one_more ws hand n used r t (inside, k, le, at, was, left, clear) =
    (inside, suc k, omega arith, at, (λ p h. earlier p (was p) h), (λ p. left p ∙ same p), clear)
  where
    a : ℕ
    a = get_or ws hand 0

    rest : List ℕ
    rest = passed ws (advance ws hand) k

    earlier :
        (p : ℕ)
        → (has p rest ≡ true → (if p == a then false else used p) ≡ true)
        → has p (a ∷ rest) ≡ true
        → used p ≡ true
    earlier p f h = elim (Bool-cases (p == a)) [
      | inl e ↦ ap used ((==_iff p a).0 e) ∙ t
      | inr n ↦ bit_cleared used a p (f (later n h))
    ]
      where
        later : (p == a) ≡ false → has p (a ∷ rest) ≡ true → has p rest ≡ true
        later n h = ground arith

    same :
        (p : ℕ)
        → ((if p == a then false else used p) && not (has p rest))
          ≡ (used p && not (has p (a ∷ rest)))
    same p = ground arith

at_rest :
    (n : ℕ) (ws : List ℕ) (hand : ℕ) (used : ℕ → Bool)
    → hand < length ws
    → used (get_or ws hand 0) ≡ false
    → SecondChance n ws hand used (hand, used)
at_rest n ws hand used lt f =
    (lt, 0, omega arith, refl, (λ p h. absurd (false≢true h)), (λ p. kept p), f)
  where
    kept : (p : ℕ) → used p ≡ (used p && true)
    kept p = ground arith

clock-SecondChance :
    (n : ℕ) (ws : List ℕ) (hand : ℕ) (used : ℕ → Bool)
    → count_used used ws ≤ n
    → hand < length ws
    → Yields (SecondChance n ws hand used) (clock_victim (suc n) ws hand used)
unfolding clock_victim
clock-SecondChance zero ws hand used room lt = elim (Bool-cases (used (get_or ws hand 0))) [
  | inl t ↦ absurd (omega (arith, cleared-lt used ws hand lt t))
  | inr f ↦ rw f (yields _ (at_rest 0 ws hand used lt f))
]
clock-SecondChance (suc n) ws hand used room lt = elim (Bool-cases (used (get_or ws hand 0))) [
  | inl t ↦
      rw (t, clock_victim)
        (mono
          (clock-SecondChance n ws (advance ws hand) (update used (get_or ws hand 0) false)
            (omega (arith, cleared-lt used ws hand lt t)) (advance-lt ws hand lt))
          λ r c. one_more ws hand n used r t c)
  | inr f ↦ rw (f, clock_victim) (yields _ (at_rest (suc n) ws hand used lt f))
]

-- The clock with its hand at a page of the working set finds its victim within one round more than
-- the set has pages. The victim, a page of the set, is where the hand comes to rest after at most
-- as many moves as the set has pages. Each page that the hand passed was used and has lost its
-- used bit, and no other used bit has changed; the victim's bit is clear, so it was clear before
-- or the hand has passed the page.
pub clock_victim-SecondChance :
    (ws : List ℕ) (hand : ℕ) (used : ℕ → Bool)
    → hand < length ws
    → Yields (SecondChance (length ws) ws hand used) (clock_victim (length ws + 1) ws hand used)
clock_victim-SecondChance ws hand used lt =
    subst (λ n. Yields (SecondChance (length ws) ws hand used) (clock_victim n ws hand used))
      (one_round (length ws))
      (clock-SecondChance (length ws) ws hand used (count_used-le used ws) lt)
  where
    one_round : (n : ℕ) → suc n ≡ n + 1
    one_round n = omega arith
