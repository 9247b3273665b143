-- ===== src/Sched/Picks.antt =====
-- kern/cpu/sched.c: what the priority round robin scheduler chooses.
use fos_educational_os_proje.Base.{
  count, count_all, ℕ, zero, suc, ◌+◌, ◌<◌, ◌≡◌, refl, ap, ◌≢◌, true, false, not, ◌&&◌, some, List,
  [], ◌∷◌, ◌++◌, ◌==◌, if◌then◌else◌, get_or, set, length, arith, Bool-cases, inl, inr, ◌⊎◌, ==_iff,
  lt→ltb, update_self, Yields, yields,
}
use fos_educational_os_proje.Base.Monad.{assert-true}
use fos_educational_os_proje.Sched.{Ptr, null, is_ready, Sched, enqueue, dequeue, enqueue_ready}
use fos_educational_os_proje.Sched.Prirr.{pick_ready, requeue, take_next, fos_scheduler_prirr}

-- dequeue takes the last element: what was inserted first.
pub dequeue-last : (q : List Ptr) (x : Ptr) → dequeue (q ++ x ∷ []) ≡ (x, q)
unfolding dequeue
dequeue-last [] x = refl
dequeue-last (y ∷ []) x = refl
dequeue-last (y ∷ z ∷ q) x = rw (dequeue-last (z ∷ q) x) refl

pub dequeue-count :
    (p x : Ptr) (q : List Ptr)
    → let (e, r) = dequeue (x ∷ q) in (if e == p then 1 else 0) + count p r ≡ count p (x ∷ q)
unfolding dequeue
dequeue-count p x [] = refl
dequeue-count p x (y ∷ q) = omega (arith, dequeue-count p y q)

-- Every process of `q` is a process.
abbrev pub NoNull : List Ptr → Type 0
NoNull [] = Unit
NoNull (x ∷ q) = (x ≢ null) × NoNull q

abbrev pub AllNoNull : List (List Ptr) → Type 0
AllNoNull [] = Unit
AllNoNull (q ∷ qs) = NoNull q × AllNoNull qs

pub dequeue-NoNull : (x : Ptr) (q : List Ptr) → NoNull (x ∷ q) → (dequeue (x ∷ q)).0 ≢ null
unfolding dequeue
dequeue-NoNull x [] h = h.0
dequeue-NoNull x (y ∷ q) h = dequeue-NoNull y q h.1

pick-count :
    (p : Ptr) (qs : List (List Ptr))
    → p ≢ null
    → AllNoNull qs
    → let (e, rs) = pick_ready qs in (if e == p then 1 else 0) + count_all p rs ≡ count_all p qs
unfolding pick_ready
pick-count p [] ne h = ground arith
pick-count p ([] ∷ qs) ne h = omega (arith, pick-count p qs ne h.1)
pick-count p ((x ∷ q) ∷ qs) ne h = omega (arith, dequeue-count p x q)

pub dequeue-split :
    (x : Ptr) (q : List Ptr) → x ∷ q ≡ (dequeue (x ∷ q)).1 ++ (dequeue (x ∷ q)).0 ∷ []
unfolding dequeue
dequeue-split x [] = refl
dequeue-split x (y ∷ q) = ap (λ r. x ∷ r) (dequeue-split y q)

-- `e` waits longest in the first queue that is not empty, or is null where all are empty.
abbrev pub FromFirst : Ptr → List (List Ptr) → Type 0
FromFirst e [] = e ≡ null
FromFirst e (q ∷ qs) =
    ((q ≡ []) × FromFirst e qs) ⊎ ((r : List Ptr) × (q ≡ r ++ e ∷ []) × (e ≢ null))

pick-FromFirst : (qs : List (List Ptr)) → AllNoNull qs → FromFirst (pick_ready qs).0 qs
unfolding pick_ready
pick-FromFirst [] h = refl
pick-FromFirst ([] ∷ qs) h = inl (refl, pick-FromFirst qs h.1)
pick-FromFirst ((x ∷ q) ∷ qs) h =
    inr ((dequeue (x ∷ q)).1, dequeue-split x q, dequeue-NoNull x q h.0)

-- The ready queues once the current process, if it is ready, is back in its own.
abbrev pub waiting : Sched → List (List Ptr)
waiting s =
    if not (s.proc == null) && is_ready (s.env s.proc).env_status
    then set s.env_ready_queues (s.env s.proc).priority
        (s.proc ∷ get_or s.env_ready_queues (s.env s.proc).priority [])
    else s.env_ready_queues

AllNoNull-set :
    (qs : List (List Ptr)) (i : ℕ) (e : Ptr)
    → e ≢ null
    → AllNoNull qs
    → AllNoNull (set qs i (e ∷ get_or qs i []))
AllNoNull-set [] i e ne h = tt
AllNoNull-set (q ∷ qs) zero e ne h = ((ne, h.0), h.1)
AllNoNull-set (q ∷ qs) (suc i) e ne h = (h.0, AllNoNull-set qs i e ne h.1)

AllNoNull-waiting : (s : Sched) → AllNoNull s.env_ready_queues → AllNoNull (waiting s)
AllNoNull-waiting s h =
    elim (Bool-cases (not (s.proc == null) && is_ready (s.env s.proc).env_status)) [
      | inl t ↦
          rw t (AllNoNull-set s.env_ready_queues (s.env s.proc).priority s.proc (ground arith) h)
      | inr t ↦ rw t h
    ]

-- A ready process has the index of a queue for its priority.
abbrev pub CurrentFits : Sched → Type 0
CurrentFits s =
    is_ready (s.env s.proc).env_status ≡ true → (s.env s.proc).priority < length s.env_ready_queues

requeue-waiting :
    (s : Sched)
    → CurrentFits s
    → requeue s.proc s ≡ some (tt, record s { env_ready_queues = waiting s })
unfolding requeue enqueue_ready enqueue
requeue-waiting s fits =
    elim (Bool-cases (not (s.proc == null) && is_ready (s.env s.proc).env_status)) [
      | inl t ↦
          let lt : (s.env s.proc).priority < length s.env_ready_queues = fits (ground arith) in
          let ne : (s.proc == null) ≡ false = ground arith in rw t (rw (lt→ltb _ _ lt) (rw ne refl))
      | inr t ↦ rw t refl
    ]

-- What the choice leaves: the process that waits longest in the first queue that is not empty,
-- with its starvation counter cleared; and every other process where it was.
abbrev pub Chosen : Sched → Ptr × Sched → Type 0
Chosen s (e, s') =
    FromFirst e (waiting s)
    × ((p : Ptr)
        → p ≢ null
        → (if e == p then 1 else 0) + count_all p s'.env_ready_queues ≡ count_all p (waiting s))
    × (e ≢ null → (s'.env e).starvcounteer ≡ 0)

take_next-Chosen :
    (s : Sched)
    → AllNoNull (waiting s)
    → Yields (Chosen s) (take_next (record s { env_ready_queues = waiting s }))
unfolding take_next
take_next-Chosen s h = elim (Bool-cases ((pick_ready (waiting s)).0 == null)) [
  | inl t ↦ rw t (
      yields _ (
        pick-FromFirst (waiting s) h,
        λ p ne. pick-count p (waiting s) ne h,
        λ ne. absurd (ne ((==_iff _ null).0 t)),
      ))
  | inr t ↦ rw t (
      yields _ (
        pick-FromFirst (waiting s) h,
        λ p ne. pick-count p (waiting s) ne h,
        λ ne. ap (λ v. v.starvcounteer) (update_self s.env _ _),
      ))
]

-- fos_scheduler_PRIRR, called with the lock held, where no queue holds null and a current process
-- that is ready has the index of a queue for its priority: it returns. A current process that is
-- ready first goes back to its queue. The result waits longest in the first queue that is not
-- empty, or is null where all are empty; it leaves its queue, every other process stays in the
-- queues, and its starvation counter is 0.
pub prirr-Chosen :
    (s : Sched)
    → s.locked ≡ true
    → AllNoNull s.env_ready_queues
    → CurrentFits s
    → Yields (Chosen s) (fos_scheduler_prirr s)
unfolding fos_scheduler_prirr
prirr-Chosen s held h fits =
    assert-true s _ held (rw (requeue-waiting s fits) (take_next-Chosen s (AllNoNull-waiting s h)))
