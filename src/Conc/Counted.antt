-- ===== src/Conc/Counted.antt =====
-- kern/conc/ksemaphore.c: a negative counter counts the processes that sleep on the semaphore.
use fos_educational_os_proje.Base.{
  ℕ, zero, suc, ◌-◌, ◌<◌, ◌≡◌, refl, ◌≢◌, sym, ◌∙◌, ap, Bool, true, false, Option, some, List, [],
  ◌∷◌, ==-ne, ==_iff, ◌==◌, ◌&&◌, if◌then◌else◌, update, length, arith, Yields, yields,
}
use fos_educational_os_proje.Base.Int.{ℤ, pos, negsuc, neg_part, inc, dec, is_neg}
use fos_educational_os_proje.Base.Monad.{pure, ◌>>◌, and_then, bind_lem, assert-eq}
use fos_educational_os_proje.Sched.{
  Ptr, null, Sched, blocked, is_running, set_status, dequeue, enqueue, cli, acquire_qlock,
  release_qlock,
}
use fos_educational_os_proje.Sched.Helpers.{sched}
use fos_educational_os_proje.Sched.Picks.{NoNull, dequeue-NoNull}
use fos_educational_os_proje.Conc.{
  Chan, set_channel, acquire_guard, release_guard, go_to_sleep, take_sleeper, wakeup_one,
}
use fos_educational_os_proje.Conc.Semaphore.{
  Ksemaphore, on_chan, on_chan_result, wait_ksemaphore, signal_ksemaphore,
}
use fos_educational_os_proje.Conc.Wakeup.{
  AllFit, InLock, popped, release_qlock_lem, make_ready-Woke, dequeue-AllFit, length-dequeue,
}

pub wakeup_one_lem :
    (c : Chan) (q : List Ptr)
    → c.chan ≢ null
    → c.sys.locked ≡ false
    → NoNull q
    → AllFit c.sys q
    → Yields
        (λ r.
          (length r.1.queue ≡ length q - 1)
          × (r.1.guard ≡ c.guard)
          × (r.1.sys.locked ≡ false)
          × InLock c.sys r.1.sys)
        (wakeup_one (record c { queue = q }))
unfolding wakeup_one take_sleeper dequeue acquire_qlock release_qlock
wakeup_one_lem c [] ch free real fits =
    rw (==-ne c.chan null ch)
      (rw free (yields _ (omega arith, refl, refl, λ n e. (e, popped c.sys _ n e))))
wakeup_one_lem c (x ∷ q) ch free real fits = rw (==-ne c.chan null ch) (
    rw free (
      rw (==-ne _ null ne) (
        bind_lem (make_ready-Woke (dequeue (x ∷ q)).0 woken refl ne f.0) λ u d w.
          rw (release_qlock_lem d.sys c.sys.ncli w.locked w.ncli w.interrupts) (
            yields _ (
              ap length w.queue ∙ length-dequeue x q ∙ omega arith,
              w.guard,
              refl,
              λ n e. (e, popped c.sys d.sys.intena n e),
            )))))
  where
    ne : (dequeue (x ∷ q)).0 ≢ null
    ne = dequeue-NoNull x q real

    woken : Chan
    woken = record c { sys = record (cli c.sys) { locked = true }; queue = (dequeue (x ∷ q)).1 }

    f :
        ((c.sys.env (dequeue (x ∷ q)).0).priority < length c.sys.env_ready_queues)
        × AllFit c.sys (dequeue (x ∷ q)).1
    f = dequeue-AllFit c.sys x q fits

sched_returns :
    (s : Sched)
    → s.proc ≢ null
    → s.locked ≡ true
    → s.ncli ≡ 1
    → s.interrupts ≡ false
    → is_running (s.env s.proc).env_status ≡ false
    → sched s ≡ some (tt, s)
unfolding sched
sched_returns s ne held depth off st =
    rw (==-ne s.proc null ne) (assert-eq s _ held ∙ rw depth (rw st (rw off refl)))

pub go_to_sleep_lem :
    (c : Chan)
    → c.sys.proc ≢ null
    → c.sys.locked ≡ false
    → c.guard ≡ true
    → c.sys.ncli ≡ 1
    → Yields
        (λ r. (r.1.queue ≡ c.sys.proc ∷ c.queue) × (r.1.guard ≡ false) × (r.1.sys.locked ≡ true))
        (go_to_sleep c)
unfolding go_to_sleep acquire_qlock release_guard enqueue update
go_to_sleep_lem c ne free held depth = rw (==-ne c.sys.proc null ne) (
    rw free (
      rw held (
        rw (sched_returns s₂ ne refl depth (popped c.sys _ 0 depth) blocked_now)
          (yields _ (refl, refl, refl)))))
  where
    s₂ : Sched
    s₂ = set_channel c.sys.proc c.chan (
        set_status c.sys.proc blocked (record (cli c.sys) {
          locked = true;
          ncli = c.sys.ncli;
          interrupts = (c.sys.ncli == 0) && (cli c.sys).intena;
        }))

    blocked_now : is_running (s₂.env c.sys.proc).env_status ≡ false
    blocked_now = rw ((==_iff c.sys.proc c.sys.proc).1 refl) refl

bind_chan :
    {A B : Type 0} {P : A × Chan → Type 0} {Q : B × Ksemaphore → Type 0} {o : Option (A × Chan)}
    (f : A → Ksemaphore → Option (B × Ksemaphore)) (k : Ksemaphore)
    → Yields P o
    → ((a : A) (d : Chan) → P (a, d) → Yields Q (f a (record k { c = d })))
    → Yields Q (and_then (on_chan_result k o) f)
bind_chan f k (yields r p) g = g r.0 r.1 p

result_chan :
    {A : Type 0} {P : A × Chan → Type 0} {Q : A × Ksemaphore → Type 0} {o : Option (A × Chan)}
    (k : Ksemaphore)
    → Yields P o
    → ((a : A) (d : Chan) → P (a, d) → Q (a, record k { c = d }))
    → Yields Q (on_chan_result k o)
result_chan k (yields r p) g = yields _ (g r.0 r.1 p)

-- The semaphore with the counter `z`, and one sleeper for each count below 0.
abbrev pub IsCounted : Ksemaphore → Type 0
IsCounted k = length k.c.queue ≡ neg_part k.count

-- The release of the guard by a CPU that holds it.
release_guard_lem :
    (c : Chan) (n : ℕ)
    → c.guard ≡ true
    → c.sys.ncli ≡ suc n
    → c.sys.interrupts ≡ false
    → Yields
        (λ r. (r.1.queue ≡ c.queue) × (r.1.guard ≡ false) × (r.1.sys.locked ≡ c.sys.locked))
        (release_guard c)
unfolding release_guard
release_guard_lem c n held depth off = rw held (rw depth (rw off (yields _ (refl, refl, refl))))

wake_and_release :
    (z : ℤ) (c : Chan) (n : ℕ)
    → c.chan ≢ null
    → c.guard ≡ true
    → c.sys.locked ≡ false
    → c.sys.ncli ≡ suc n
    → NoNull c.queue
    → AllFit c.sys c.queue
    → length c.queue - 1 ≡ neg_part z
    → Yields
        (λ r. (r.1.count ≡ z) × IsCounted r.1 × (r.1.c.guard ≡ false) × (r.1.c.sys.locked ≡ false))
        ((on_chan wakeup_one >> on_chan release_guard) (record { count = z; c = c }))
wake_and_release z c n ch g free depth real fits h =
    bind_chan (λ _. on_chan release_guard) (record { count = z; c = c })
      (wakeup_one_lem c c.queue ch free real fits)
      λ u d p.
        let (deep, off) = p.3 n depth in
        result_chan (record { count = z; c = d }) (release_guard_lem d n (p.1 ∙ g) deep off)
          λ v e q. (refl, ap length q.0 ∙ p.0 ∙ h, q.1, q.2 ∙ p.2)

-- The channel after acquire_guard.
abbrev pub acquired : Chan → Chan
acquired c = record c { guard = true; sys = cli c.sys }

-- signal_ksemaphore of a semaphore whose channel is not null, whose lock and the lock of the
-- queues are free, where each sleeper is not null and has the index of a ready queue for its
-- priority, and a negative counter counts the sleepers: it returns, the counter is one higher,
-- still counts the sleepers where it is negative, and both locks are free again.
pub signal_ksemaphore-IsCounted :
    (z : ℤ) (c : Chan)
    → c.chan ≢ null
    → c.guard ≡ false
    → c.sys.locked ≡ false
    → NoNull c.queue
    → AllFit c.sys c.queue
    → IsCounted (record { count = z; c = c })
    → Yields
        (λ r.
          (r.1.count ≡ inc z) × IsCounted r.1 × (r.1.c.guard ≡ false) × (r.1.c.sys.locked ≡ false))
        (signal_ksemaphore (record { count = z; c = c }))
unfolding signal_ksemaphore acquire_guard release_guard
signal_ksemaphore-IsCounted (pos n) c ch g free real fits h = rw g (yields _ (refl, h, refl, free))
signal_ksemaphore-IsCounted (negsuc zero) c ch g free real fits h =
    rw g
      (wake_and_release (pos 0) (acquired c) c.sys.ncli ch refl free refl real fits (omega arith))
signal_ksemaphore-IsCounted (negsuc (suc n)) c ch g free real fits h =
    rw g (
      wake_and_release (negsuc n) (acquired c) c.sys.ncli ch refl free refl real fits (omega arith))

-- What wait_ksemaphore leaves: the counter is one lower and counts the sleepers where it is
-- negative, and the guard is free. A caller that sleeps is the last that came to the channel.
abbrev pub Waited : ℤ → Chan → Bool × Ksemaphore → Type 0
Waited z c (slept, k) =
    (k.count ≡ dec z)
    × IsCounted k
    × (k.c.guard ≡ false)
    × (slept ≡ is_neg (dec z))
    × (k.c.queue ≡ (if slept then c.sys.proc ∷ c.queue else c.queue))

sleep_counted :
    (z y : ℤ) (c : Chan)
    → c.sys.proc ≢ null
    → c.guard ≡ true
    → c.sys.locked ≡ false
    → c.sys.ncli ≡ 1
    → z ≡ dec y
    → is_neg z ≡ true
    → suc (length c.queue) ≡ neg_part z
    → Yields (Waited y c) ((on_chan go_to_sleep >> pure true) (record { count = z; c = c }))
sleep_counted z y c ne g free depth e neg h =
    bind_chan (λ _. pure true) (record { count = z; c = c }) (go_to_sleep_lem c ne free g depth)
      λ u d p. yields _ (e, ap length p.0 ∙ h, p.1, sym neg ∙ ap is_neg e, p.0)

-- wait_ksemaphore by a process that is not null, on a CPU that holds no spin lock (ncli is 0), of a
-- semaphore whose lock and the lock of the queues are free, where a negative counter counts the
-- sleepers: it comes to the switch or to its
-- end, the counter is one lower, and still counts the sleepers where it is negative. The caller
-- sleeps where the counter is negative then, at the head of the channel's queue, and else the
-- queue is as before; the lock of the semaphore is free.
pub wait_ksemaphore-IsCounted :
    (z : ℤ) (c : Chan)
    → c.sys.proc ≢ null
    → c.guard ≡ false
    → c.sys.locked ≡ false
    → c.sys.ncli ≡ 0
    → IsCounted (record { count = z; c = c })
    → Yields (Waited z c) (wait_ksemaphore (record { count = z; c = c }))
unfolding wait_ksemaphore acquire_guard release_guard
wait_ksemaphore-IsCounted (pos zero) c ne g free none_held h = rw g (
    sleep_counted (negsuc 0) (pos 0) (acquired c) ne refl free (ap suc none_held) refl refl
      (ap suc h))
wait_ksemaphore-IsCounted (pos (suc n)) c ne g free none_held h =
    rw g (yields _ (refl, h, refl, refl, refl))
wait_ksemaphore-IsCounted (negsuc n) c ne g free none_held h = rw g (
    sleep_counted (negsuc (suc n)) (negsuc n) (acquired c) ne refl free (ap suc none_held) refl refl
      (ap suc h))
