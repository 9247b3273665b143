-- ===== src/Conc/Held.antt =====
-- kern/conc/sleeplock.c: one attempt to acquire a sleep lock, held or free.
use fos_educational_os_proje.Base.{
  ℕ, suc, ap, ◌≡◌, refl, ◌≢◌, Bool, true, false, Option, ◌∷◌, ==-ne, if◌then◌else◌, Yields, yields,
}
use fos_educational_os_proje.Base.Monad.{pure, and_then}
use fos_educational_os_proje.Sched.{null}
use fos_educational_os_proje.Conc.{Chan, acquire_guard, release_guard}
use fos_educational_os_proje.Conc.Sleeplock.{
  Sleeplock, on_chan_result, claim_or_sleep, acquire_sleeplock,
}
use fos_educational_os_proje.Conc.Counted.{acquired, go_to_sleep_lem}

-- The lock is held afterwards, by the one that held it where there was one, and else by the caller.
-- The caller sleeps, at the head of the channel's queue, where the lock was held. The guard is free.
abbrev pub Acquired : (was : Bool) → (owner : ℕ) → Chan → (id : ℕ) → Bool × Sleeplock → Type 0
Acquired was owner c id (slept, k) =
    (slept ≡ was)
    × (k.locked ≡ true)
    × (k.pid ≡ (if was then owner else id))
    × (k.c.queue ≡ (if was then c.sys.proc ∷ c.queue else c.queue))
    × (k.c.guard ≡ false)

pub bind_chan :
    {A B : Type 0} {P : A × Chan → Type 0} {Q : B × Sleeplock → Type 0} {o : Option (A × Chan)}
    (f : A → Sleeplock → Option (B × Sleeplock)) (k : Sleeplock)
    → Yields P o
    → ((a : A) (d : Chan) → P (a, d) → Yields Q (f a (record k { c = d })))
    → Yields Q (and_then (on_chan_result k o) f)
bind_chan f k (yields r p) g = g r.0 r.1 p

-- acquire_sleeplock by a process that is not null, on a CPU that holds no spin lock (ncli is 0),
-- where the lock's guard and the lock of the queues are free: it comes to the switch or to its end. A lock that was held stays with its
-- owner, and the caller sleeps at the head of the channel's queue; one that was free is held by
-- the caller, and the queue is as before. The guard is free.
pub acquire_sleeplock-Acquired :
    (was : Bool) (owner : ℕ) (c : Chan)
    → c.sys.proc ≢ null
    → c.guard ≡ false
    → c.sys.locked ≡ false
    → c.sys.ncli ≡ 0
    → Yields
        (Acquired was owner c (c.sys.env c.sys.proc).env_id)
        (acquire_sleeplock (record { locked = was; pid = owner; c = c }))
unfolding acquire_sleeplock acquire_guard claim_or_sleep release_guard
acquire_sleeplock-Acquired true owner c ne g free none_held = rw g (
    bind_chan (λ _. pure true) (record { locked = true; pid = owner; c = acquired c })
      (go_to_sleep_lem (acquired c) ne free refl (ap suc none_held))
      λ u d p. yields _ (refl, refl, refl, p.0, p.1))
acquire_sleeplock-Acquired false owner c ne g free none_held =
    rw g (rw (==-ne c.sys.proc null ne) (yields _ (refl, refl, refl, refl, refl)))
