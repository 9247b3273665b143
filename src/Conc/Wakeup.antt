-- ===== src/Conc/Wakeup.antt =====
-- kern/conc/channel.c: a wakeup moves processes from the channel to the ready queues.
use fos_educational_os_proje.Base.{
  count, count_all, ◌&&◌, Bool, some, ℕ, zero, suc, ◌+◌, ◌<◌, ◌≡◌, refl, sym, ◌∙◌, ◌≢◌, subst, ap,
  true, false, List, [], ◌∷◌, ◌==◌, if◌then◌else◌, update_self, length, arith, Yields, yields,
  get_or, set, length-set, ==-ne,
}
use fos_educational_os_proje.Base.Monad.{bind_lem, mono}
use fos_educational_os_proje.Sched.{
  Ptr, null, Sched, ready, dequeue, cli, acquire_qlock, release_qlock, set_status,
}
use fos_educational_os_proje.Sched.Helpers.{insert_ready-eq, keep_priority}
use fos_educational_os_proje.Sched.Picks.{NoNull, dequeue-count, dequeue-NoNull}
use fos_educational_os_proje.Conc.{
  Chan, set_channel, make_ready, take_sleeper, wake_loop, wakeup_all,
}

count-set :
    (x p i : ℕ) (qs : List (List Ptr))
    → i < length qs
    → count_all x (set qs i (p ∷ get_or qs i [])) ≡ (if p == x then 1 else 0) + count_all x qs
count-set x p i [] lt = absurd (omega arith)
count-set x p zero (q ∷ qs) lt = omega arith
count-set x p (suc i) (q ∷ qs) lt = omega (arith, count-set x p i qs (omega arith))

-- A step that woke the process `p`, or that left all as it was for `woken` = 0 of them.
pub record Woke (p : Ptr) (c d : Chan) : Type 0 where
  pub queue : d.queue ≡ c.queue
  pub locked : d.sys.locked ≡ c.sys.locked
  pub guard : d.guard ≡ c.guard
  pub priority : (q : Ptr) → (d.sys.env q).priority ≡ (c.sys.env q).priority
  pub queues : length d.sys.env_ready_queues ≡ length c.sys.env_ready_queues
  pub moved :
      (x : Ptr)
      → count_all x d.sys.env_ready_queues
        ≡ (if p == x then 1 else 0) + count_all x c.sys.env_ready_queues
  pub status : (d.sys.env p).env_status ≡ ready
  pub channel : (d.sys.env p).channel ≡ null
  pub ncli : d.sys.ncli ≡ c.sys.ncli
  pub interrupts : d.sys.interrupts ≡ c.sys.interrupts

pub make_ready-Woke :
    (p : Ptr) (c : Chan)
    → c.sys.locked ≡ true
    → p ≢ null
    → (c.sys.env p).priority < length c.sys.env_ready_queues
    → Yields (λ r. Woke p c r.1) (make_ready p c)
unfolding make_ready
make_ready-Woke p c held ne fits =
    let s₂ = set_channel p null (set_status p ready c.sys) in
    let fits₂ : (s₂.env p).priority < length s₂.env_ready_queues = rw (keep₂ p) fits in
    rw (insert_ready-eq p s₂ held ne fits₂) (
      yields _ (record {
        queue = refl;
        locked = refl;
        guard = refl;
        priority = λ q. keep_priority s₂.env p q _ refl ∙ keep₂ q;
        queues = length-set c.sys.env_ready_queues _ _;
        moved = λ x. count-set x p (s₂.env p).priority c.sys.env_ready_queues fits₂;
        status = ap (λ v. v.env_status) (update_self s₂.env p _);
        channel =
            ap (λ v. v.channel) (update_self s₂.env p _)
            ∙ ap (λ v. v.channel) (update_self (set_status p ready c.sys).env p _);
        ncli = refl;
        interrupts = refl;
      }))
  where
    keep₂ :
        (q : Ptr)
        → ((set_channel p null (set_status p ready c.sys)).env q).priority ≡ (c.sys.env q).priority
    keep₂ q =
        keep_priority (set_status p ready c.sys).env p q _ refl ∙ keep_priority c.sys.env p q _ refl

-- Each sleeper's priority is the index of a ready queue.
abbrev pub AllFit : Sched → List Ptr → Type 0
AllFit s [] = Unit
AllFit s (p ∷ q) = ((s.env p).priority < length s.env_ready_queues) × AllFit s q

AllFit-keep :
    (s t : Sched) (q : List Ptr)
    → ((p : Ptr) → (t.env p).priority ≡ (s.env p).priority)
    → length t.env_ready_queues ≡ length s.env_ready_queues
    → AllFit s q
    → AllFit t q
AllFit-keep s t [] keep len h = tt
AllFit-keep s t (p ∷ q) keep len h = (omega (arith, keep p), AllFit-keep s t q keep len h.1)

pub dequeue-AllFit :
    (s : Sched) (x : Ptr) (q : List Ptr)
    → AllFit s (x ∷ q)
    → ((s.env (dequeue (x ∷ q)).0).priority < length s.env_ready_queues)
      × AllFit s (dequeue (x ∷ q)).1
unfolding dequeue
dequeue-AllFit s x [] h = h
dequeue-AllFit s x (y ∷ q) h = let r = dequeue-AllFit s y q h.1 in (r.0, (h.0, r.1))

dequeue-rest : (x : Ptr) (q : List Ptr) → NoNull (x ∷ q) → NoNull (dequeue (x ∷ q)).1
unfolding dequeue
dequeue-rest x [] h = tt
dequeue-rest x (y ∷ q) h = (h.0, dequeue-rest y q h.1)

pub length-dequeue : (x : Ptr) (q : List Ptr) → length (dequeue (x ∷ q)).1 ≡ length q
unfolding dequeue
length-dequeue x [] = refl
length-dequeue x (y ∷ q) = ap suc (length-dequeue y q)

-- The channel is empty, and each of its processes stands in a ready queue besides those before.
pub record WokeAll (c d : Chan) : Type 0 where
  pub queue : d.queue ≡ []
  pub guard : d.guard ≡ c.guard
  pub locked : d.sys.locked ≡ c.sys.locked
  pub ncli : d.sys.ncli ≡ c.sys.ncli
  pub interrupts : d.sys.interrupts ≡ c.sys.interrupts
  pub moved :
      (x : Ptr)
      → count_all x d.sys.env_ready_queues ≡ count x c.queue + count_all x c.sys.env_ready_queues

wake_loop-WokeAll :
    (fuel : ℕ) (c : Chan) (q : List Ptr)
    → length q < fuel
    → c.sys.locked ≡ true
    → NoNull q
    → AllFit c.sys q
    → Yields (λ r. WokeAll (record c { queue = q }) r.1) (wake_loop fuel (record c { queue = q }))
unfolding wake_loop take_sleeper dequeue
wake_loop-WokeAll zero c q room held real fits = absurd (omega arith)
wake_loop-WokeAll (suc n) c [] room held real fits =
    yields (tt, record c { queue = [] })
      (record {
        queue = refl;
        guard = refl;
        locked = refl;
        ncli = refl;
        interrupts = refl;
        moved = λ x. omega arith;
      })
wake_loop-WokeAll (suc n) c (x ∷ q) room held real fits = rw (==-ne p null ne) (
    bind_lem (make_ready-Woke p (record c { queue = r }) held ne f.0) λ u d w.
      mono
        (subst
          (λ k.
            Yields (λ t. WokeAll (record d { queue = k }) t.1)
              (wake_loop n (record d { queue = k })))
          (sym w.queue)
          (wake_loop-WokeAll n d r (omega (arith, length-dequeue x q)) (w.locked ∙ held)
            (dequeue-rest x q real) (AllFit-keep c.sys d.sys r w.priority w.queues f.1)))
        λ t a. record {
          queue = a.queue;
          guard = a.guard ∙ w.guard;
          locked = a.locked ∙ w.locked;
          ncli = a.ncli ∙ w.ncli;
          interrupts = a.interrupts ∙ w.interrupts;
          moved =
              λ y. omega (arith, a.moved y, w.moved y, dequeue-count y x q, ap (count y) w.queue);
        })
  where
    p : Ptr
    p = (dequeue (x ∷ q)).0

    r : List Ptr
    r = (dequeue (x ∷ q)).1

    ne : p ≢ null
    ne = dequeue-NoNull x q real

    f : ((c.sys.env p).priority < length c.sys.env_ready_queues) × AllFit c.sys r
    f = dequeue-AllFit c.sys x q fits

-- The release of the lock of the queues, after its acquire and what lies between.
pub release_qlock_lem :
    (s : Sched) (n : ℕ)
    → s.locked ≡ true
    → s.ncli ≡ suc n
    → s.interrupts ≡ false
    → release_qlock s
      ≡ some (tt, record s { locked = false; ncli = n; interrupts = (n == 0) && s.intena })
unfolding release_qlock
release_qlock_lem s n held depth off = rw held (rw depth (rw off refl))

-- A CPU that holds a lock has its interrupts off, and a further lock leaves them so.
abbrev pub InLock : Sched → Sched → Type 0
InLock s t = (n : ℕ) → s.ncli ≡ suc n → (t.ncli ≡ suc n) × (t.interrupts ≡ false)

pub popped : (s : Sched) (b : Bool) (n : ℕ) → s.ncli ≡ suc n → ((s.ncli == 0) && b) ≡ false
popped s b n e = rw e (rw (==-ne (suc n) 0 (λ z. omega arith)) refl)

pub wakeup_all_lem :
    (c : Chan)
    → c.chan ≢ null
    → c.sys.locked ≡ false
    → NoNull c.queue
    → AllFit c.sys c.queue
    → Yields
        (λ r.
          (r.1.queue ≡ [])
          × (r.1.guard ≡ c.guard)
          × (r.1.sys.locked ≡ false)
          × ((x : Ptr)
              → count_all x r.1.sys.env_ready_queues
                ≡ count x c.queue + count_all x c.sys.env_ready_queues)
          × InLock c.sys r.1.sys)
        (wakeup_all c)
unfolding wakeup_all acquire_qlock release_qlock
wakeup_all_lem c ch free real fits = rw (==-ne c.chan null ch) (
    rw free (
      bind_lem
        (wake_loop-WokeAll (length c.queue + 1)
          (record c { sys = record (cli c.sys) { locked = true } }) c.queue (omega arith) refl real
          fits)
        λ u d w.
          rw (release_qlock_lem d.sys c.sys.ncli w.locked w.ncli w.interrupts) (
            yields _ (w.queue, w.guard, refl, w.moved, λ n e. (e, popped c.sys d.sys.intena n e)))))

-- wakeup_all of a channel that is not null, with the lock of the queues free, where each sleeper
-- is not null and has the index of a ready queue for its priority: it returns, no sleeper is left
-- in the channel, each stands in the ready queues once more for each time it slept there, all
-- others as often as before, and the lock is free again.
pub wakeup_all-WokeAll :
    (c : Chan)
    → c.chan ≢ null
    → c.sys.locked ≡ false
    → NoNull c.queue
    → AllFit c.sys c.queue
    → Yields
        (λ r.
          (r.1.queue ≡ [])
          × (r.1.sys.locked ≡ false)
          × ((x : Ptr)
              → count_all x r.1.sys.env_ready_queues
                ≡ count x c.queue + count_all x c.sys.env_ready_queues))
        (wakeup_all c)
wakeup_all-WokeAll c ch free real fits =
    mono (wakeup_all_lem c ch free real fits) λ r (q, g, l, m, i). (q, l, m)
