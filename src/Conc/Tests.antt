-- ===== src/Conc/Tests.antt =====
-- Two processes that sleep on a channel, on a semaphore or on a sleep lock.
use fos_educational_os_proje.Base.{
  ℕ, ◌≢◌, ◌≡◌, ◌+◌, refl, [], ◌∷◌, true, false, arith, Yields, update_self, update, Bool, Option,
  none, some,
}
use fos_educational_os_proje.Sched.Helpers.{sched, sched_insert_ready}
use fos_educational_os_proje.Sched.{
  Sched, enqueue_ready, enqueue, dequeue, acquire_qlock, release_qlock, blocked, prirr,
}
use fos_educational_os_proje.Base.{count, count_all}
use fos_educational_os_proje.Conc.{
  Chan, take_sleeper, make_ready, go_to_sleep, wakeup_all, wake_loop, acquire_guard, release_guard,
}
use fos_educational_os_proje.Conc.Wakeup.{wakeup_all-WokeAll}
use fos_educational_os_proje.Conc.Semaphore.{wait_ksemaphore, signal_ksemaphore}
use fos_educational_os_proje.Conc.Sleeplock.{
  Sleeplock, acquire_sleeplock, claim_or_sleep, release_sleeplock,
}
use fos_educational_os_proje.Conc.Interleaved.{
  Step, is_inside, System, Reach, begin, later, attempt, leave, initial, moved, left_by, with_sys,
  asleep, woken, inside,
}
use fos_educational_os_proje.Conc.Exclusion.{mutual_exclusion, no_lost_wakeup}
use fos_educational_os_proje.Conc.Held.{Acquired, acquire_sleeplock-Acquired}
use fos_educational_os_proje.Conc.Counted.{
  IsCounted, Waited, signal_ksemaphore-IsCounted, wait_ksemaphore-IsCounted,
}
use fos_educational_os_proje.Base.Int.{negsuc}

abbrev sleepers : Chan
sleepers = record {
  sys = record {
    env = λ p. record {
      env_id = p;
      env_status = blocked;
      priority = 1;
      channel = 100;
      starvcounteer = 0;
      n_clocks = 0;
    };
    env_new_queue = [];
    env_ready_queues = [] ∷ (9 ∷ []) ∷ [];
    env_exit_queue = [];
    proc = 5;
    locked = false;
    stopped = false;
    quantums = 10 ∷ 10 ∷ [];
    clock_quantum = 10;
    starv_threshold = 5;
    ticks = 0;
    method = prirr;
    ncli = 1;
    intena = true;
    interrupts = false;
  };
  queue = 7 ∷ 8 ∷ [];
  guard = true;
  chan = 100;
}

wakeup_all-WokeAll_example :
    Yields
      (λ r.
        (r.1.queue ≡ [])
        × (r.1.sys.locked ≡ false)
        × ((x : ℕ)
            → count_all x r.1.sys.env_ready_queues
              ≡ count x sleepers.queue + count_all x sleepers.sys.env_ready_queues))
      (wakeup_all sleepers)
wakeup_all-WokeAll_example =
    wakeup_all-WokeAll sleepers (omega arith) refl (omega arith, (omega arith, tt))
      (omega arith, (omega arith, tt))

abbrev unguarded : Chan
unguarded = record sleepers {
  guard = false;
  sys = record sleepers.sys { ncli = 0; interrupts = true };
}

signal_ksemaphore-IsCounted_example :
    Yields
      (λ r.
        (r.1.count ≡ negsuc 0) × IsCounted r.1 × (r.1.c.guard ≡ false) × (r.1.c.sys.locked ≡ false))
      (signal_ksemaphore (record { count = negsuc 1; c = unguarded }))
signal_ksemaphore-IsCounted_example =
    signal_ksemaphore-IsCounted (negsuc 1) unguarded (omega arith) refl refl
      (omega arith, (omega arith, tt)) (omega arith, (omega arith, tt)) refl

wait_ksemaphore-IsCounted_example :
    Yields
      (Waited (negsuc 1) unguarded)
      (wait_ksemaphore (record { count = negsuc 1; c = unguarded }))
wait_ksemaphore-IsCounted_example =
    wait_ksemaphore-IsCounted (negsuc 1) unguarded (omega arith) refl refl refl refl

acquire_sleeplock-Acquired_example :
    Yields
      (Acquired true 7 unguarded 5)
      (acquire_sleeplock (record { locked = true; pid = 7; c = unguarded }))
acquire_sleeplock-Acquired_example =
    acquire_sleeplock-Acquired true 7 unguarded (omega arith) refl refl refl

-- a scheduler in which the process `p` runs
abbrev runs : ℕ → Sched
runs p = record unguarded.sys { proc = p }

-- process 5 inside the lock, then 6 asleep, then 5 gone with 6 made ready
abbrev entered : System
entered =
    moved 5 inside
      (record {
        locked = true;
        pid = 5;
        c = record { sys = runs 5; queue = []; guard = false; chan = 100 };
      })
      (initial 100 (runs 5))

enters : Reach (initial 100 (runs 5)) entered
unfolding acquire_sleeplock acquire_guard claim_or_sleep release_guard
enters = later begin (attempt 5 (runs 5) refl (omega arith) refl refl refl refl)

-- the state of the scheduler that one call leaves, and a state to read it from when a call stops
abbrev lock_after : Option (Bool × Sleeplock) → Sleeplock
lock_after none = entered.lock
lock_after (some (b, k)) = k

abbrev end_of : Option (Unit {0} × Sleeplock) → Sleeplock
end_of none = entered.lock
end_of (some (b, k)) = k

abbrev waiting : System
waiting = moved 6 asleep (lock_after (acquire_sleeplock (with_sys (runs 6) entered))) entered

waits : Reach (initial 100 (runs 5)) waiting
unfolding update acquire_sleeplock acquire_guard claim_or_sleep release_guard go_to_sleep
    acquire_qlock sched enqueue
waits = later enters (attempt 6 (runs 6) refl (omega arith) refl refl refl refl)

abbrev left : System
left = left_by 5 (end_of (release_sleeplock (with_sys (runs 5) waiting))) waiting

mutual_exclusion_example : ◌≡◌ {A = ℕ} 5 5
mutual_exclusion_example =
    mutual_exclusion 100 (runs 5) entered (omega arith) enters 5 5 (update_self _ 5 inside)
      (update_self _ 5 inside)

leaves : Reach (initial 100 (runs 5)) left
unfolding update release_sleeplock acquire_guard release_guard wakeup_all wake_loop acquire_qlock
    release_qlock take_sleeper make_ready sched_insert_ready acquire_sleeplock claim_or_sleep
    go_to_sleep sched enqueue dequeue enqueue_ready
leaves = later waits (leave 5 (runs 5) refl refl refl (omega arith, tt) refl)

nobody_inside : (p : ℕ) → is_inside (left.place p) ≡ false
unfolding update
nobody_inside p = ground arith

no_lost_wakeup_example :
    (left.lock.locked ≡ false)
    × ((p : ℕ) → left.place p ≢ asleep)
    × ((p : ℕ) (now : Sched)
        → left.place p ≡ woken
        → p ≢ 0
        → now.proc ≡ p
        → now.locked ≡ true
        → now.ncli ≡ 1
        → now.interrupts ≡ false
        → (t : System) × Step left t × (t.place p ≡ inside))
no_lost_wakeup_example = no_lost_wakeup 100 (runs 5) left (omega arith) leaves nobody_inside
