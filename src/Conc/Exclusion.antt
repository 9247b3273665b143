-- ===== src/Conc/Exclusion.antt =====
-- kern/conc/sleeplock.c: in all interleavings, one process at most is inside the lock, and no sleeper is forgotten.
use fos_educational_os_proje.Base.{
  ◌≡◌, arith, refl, sym, ◌∙◌, subst, ◌≢◌, true, false, ◌∷◌, false≢true, if◌then◌else◌, has,
  update_self, Bool-cases, inl, inr, ap,
}
use fos_educational_os_proje.Base.Monad.{Yields-some, yielded}
use fos_educational_os_proje.Sched.{Ptr, null, Sched}
use fos_educational_os_proje.Conc.Held.{acquire_sleeplock-Acquired}
use fos_educational_os_proje.Conc.Interleaved.{
  asleep, woken, is_asleep, inside, is_inside, System, with_sys, moved, after, Step, attempt,
  resume, leave, Reach, begin, later, Inv, initial,
}
use fos_educational_os_proje.Conc.Entered.{resumed-Acquired, released, entered-Inv, left-Inv}

Step-Inv : {s t : System} → Step s t → Inv s → Inv t
Step-Inv {s} (attempt p sys {slept} {k} at ne proc free none_held e) i =
    let r =
      yielded
        (acquire_sleeplock-Acquired s.lock.locked s.lock.pid (with_sys sys s).c
          (λ z. ne (sym proc ∙ z)) i.guard free none_held)
        e in
    entered-Inv s.lock.locked s p slept k refl i ne (ap is_inside at) r.0 r.1
      (subst (λ j. k.c.queue ≡ (if s.lock.locked then j ∷ s.lock.c.queue else s.lock.c.queue)) proc
        r.3)
      r.4
Step-Inv {s} (resume p sys {slept} {k} at ne proc held one off e) i =
    let r =
      yielded
        (resumed-Acquired p s.lock.locked s.lock.pid (with_sys sys s).c (λ z. ne (sym proc ∙ z))
          i.guard held one off)
        e in
    entered-Inv s.lock.locked s p slept k refl i ne (ap is_inside at) r.0 r.1
      (subst (λ j. k.c.queue ≡ (if s.lock.locked then j ∷ s.lock.c.queue else s.lock.c.queue)) proc
        r.2)
      r.3
Step-Inv {s} (leave p sys {k} at proc free fits e) i =
    let r = yielded (released (with_sys sys s) i.guard i.chan free i.real fits) e in
    left-Inv s p k i at r.0 r.1 r.2 λ x. omega (arith, r.3 x)

Reach-Inv :
    {chan : Ptr} {sys : Sched} {s : System} → chan ≢ null → Reach (initial chan sys) s → Inv s
Reach-Inv ne begin = record {
  guard = refl;
  chan = ne;
  real = tt;
  sleepers = λ p m. absurd (false≢true m);
  queued = λ p m. absurd (false≢true (ap is_asleep m));
  free = λ _. (refl, λ p. refl);
  held = λ l. absurd (false≢true l);
}
Reach-Inv ne (later r st) = Step-Inv st (Reach-Inv ne r)

-- From a lock that nobody has used, on a channel that is not null, after any sequence of calls by
-- any processes, interleaved at their switches, in which a process calls acquire_sleeplock only when
-- it is outside the lock and release_sleeplock only when it is inside, with any state of the
-- scheduler in which the caller runs, the lock of the queues is free at a call, a call of
-- acquire_sleeplock starts with no spin lock held, a sleep ends with the lock of the queues held
-- and no other, and, where a process leaves, the priority of each sleeper has a queue: two
-- processes that are inside the lock are the same process. (release_sleeplock does not look who
-- calls it, so a call by a process that is outside is not covered.)
pub mutual_exclusion :
    (chan : Ptr) (sys : Sched) (s : System)
    → chan ≢ null
    → Reach (initial chan sys) s
    → (p q : Ptr) → s.place p ≡ inside
    → s.place q ≡ inside
    → p ≡ q
mutual_exclusion chan sys s ne r p q a b = elim (Bool-cases s.lock.locked) [
  | inl t ↦
      let (o, owns, only) = (Reach-Inv ne r).held t in
      only p (ap is_inside a) ∙ sym (only q (ap is_inside b))
  | inr f ↦ absurd (false≢true (sym (((Reach-Inv ne r).free f).1 p) ∙ ap is_inside a))
]

-- From a lock that nobody has used, on a channel that is not null, in any state that such calls
-- reach, each process releasing only what it holds, where nobody is inside the lock: the lock is
-- free, no process is still asleep, so each sleeper was put into a ready queue by a release, and
-- each woken process, once the scheduler runs it with the lock of the queues held and no other,
-- takes the lock in one step.
pub no_lost_wakeup :
    (chan : Ptr) (sys : Sched) (s : System)
    → chan ≢ null
    → Reach (initial chan sys) s
    → ((p : Ptr) → is_inside (s.place p) ≡ false)
    → (s.lock.locked ≡ false)
      × ((p : Ptr) → s.place p ≢ asleep)
      × ((p : Ptr) (now : Sched)
          → s.place p ≡ woken
          → p ≢ null
          → now.proc ≡ p
          → now.locked ≡ true
          → now.ncli ≡ 1
          → now.interrupts ≡ false
          → (t : System) × Step s t × (t.place p ≡ inside))
no_lost_wakeup chan sys s ne r nobody = (
  unheld,
  (λ p m. false≢true (subst (λ k. has p k ≡ true) (i.free unheld).0 (i.queued p m))),
  λ p now at real proc held one off.
      let (r', e, y) = Yields-some (
        resumed-Acquired p s.lock.locked s.lock.pid (with_sys now s).c (λ z. real (sym proc ∙ z))
          i.guard held one off) in
      (
        moved p (after r'.0) r'.1 s,
        resume p now at real proc held one off e,
        update_self s.place p (after r'.0) ∙ ap after (y.0 ∙ unheld),
      ),
)
  where
    i : Inv s
    i = Reach-Inv ne r

    unheld : s.lock.locked ≡ false
    unheld = elim (Bool-cases s.lock.locked) [
      | inl t ↦
          let (o, owns, only) = i.held t in absurd (false≢true (sym (nobody o) ∙ ap is_inside owns))
      | inr f ↦ f
    ]
