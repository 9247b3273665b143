-- ===== src/Conc.antt =====
-- kern/conc: channels, sleep locks and semaphores. They work on the state of the scheduler's queues;
-- a switch away from the process is where `sleep` ends its first half and the second half begins.
pub mod Sleeplock
pub mod Semaphore
pub mod Wakeup
pub mod Counted
pub mod Held
pub mod Interleaved
mod Roused
mod Entered
pub mod Exclusion
mod Tests
use fos_educational_os_proje.Base.{
  ℕ, zero, suc, ◌+◌, Bool, true, false, not, Option, none, some, List, [], ◌∷◌, ◌==◌, if◌then◌else◌,
  update, length,
}
use fos_educational_os_proje.Base.Monad.{M, pure, ◌>>=◌, ◌>>◌, gets, modify, assert, panic}
use fos_educational_os_proje.Sched.{
  Ptr, null, Status, ready, blocked, Env, Sched, enqueue, dequeue, set_env, set_status, cli,
  end_cli, acquire_qlock, release_qlock,
}
use fos_educational_os_proje.Sched.Helpers.{sched, sched_insert_ready}

-- The scheduler's state, the queue of one channel (at the address `chan`), and whether this CPU
-- holds the lock that guards it.
pub record Chan : Type 0 where
  pub sys : Sched
  pub queue : List Ptr
  pub guard : Bool
  pub chan : Ptr

abbrev pub on_sys_result : {A : Type 0} → Chan → Option (A × Sched) → Option (A × Chan)
on_sys_result c none = none
on_sys_result c (some (a, s)) = some (a, record c { sys = s })

abbrev pub on_sys : {A : Type 0} → M Sched A → M Chan A
on_sys m c = on_sys_result c (m c.sys)

unfoldable pub acquire_guard : M Chan (Unit {0})
acquire_guard c = if c.guard then none else some (tt, record c { guard = true; sys = cli c.sys })

unfoldable pub release_guard : M Chan (Unit {0})
release_guard c =
    if c.guard
    then on_sys_result (record c { guard = false }) (end_cli c.sys.ncli c.sys.interrupts c.sys)
    else none

abbrev pub set_channel : Ptr → Ptr → Sched → Sched
set_channel p ch s = set_env p (record (s.env p) { channel = ch }) s

-- sleep up to the switch to the scheduler: the process stands in the channel's queue, blocked, the
-- guard is free, and the lock of the queues is held for the scheduler.
unfoldable pub go_to_sleep : M Chan (Unit {0})
go_to_sleep = do
  p ← gets (λ c. c.sys.proc)
  assert (not (p == null))
  on_sys acquire_qlock
  release_guard
  modify (λ c. record c { sys = set_channel p c.chan (set_status p blocked c.sys) })
  modify (λ c. record c { queue = enqueue p c.queue })
  on_sys sched

-- sleep after the switch, when `p` runs again with the lock of the queues held.
unfoldable pub back_from_sleep : Ptr → M Chan (Unit {0})
back_from_sleep p = do
  on_sys release_qlock
  acquire_guard
  modify (λ c. record c { sys = set_channel p null c.sys })

-- A process that leaves the channel's queue.
unfoldable pub make_ready : Ptr → M Chan (Unit {0})
make_ready p = do
  modify (λ c. record c { sys = set_channel p null (set_status p ready c.sys) })
  on_sys (sched_insert_ready p)

-- A wakeup of no channel does nothing.
abbrev pub with_channel : M Chan (Unit {0}) → M Chan (Unit {0})
with_channel m c = if c.chan == null then some (tt, c) else m c

unfoldable pub take_sleeper : M Chan Ptr
take_sleeper c = some ((dequeue c.queue).0, record c { queue = (dequeue c.queue).1 })

unfoldable pub wakeup_one : M Chan (Unit {0})
wakeup_one = with_channel do
  on_sys acquire_qlock
  p ← take_sleeper
  if p == null then pure tt else make_ready p
  on_sys release_qlock

abbrev pub wake_step : (was_last : Bool) → Ptr → (rest : M Chan (Unit {0})) → M Chan (Unit {0})
wake_step true p rest = pure tt
wake_step false p rest = do make_ready p; rest

-- The loop ends with the queue: each round takes one element.
unfoldable pub wake_loop : (fuel : ℕ) → M Chan (Unit {0})
wake_loop zero = panic
wake_loop (suc n) = do p ← take_sleeper; wake_step (p == null) p (wake_loop n)

unfoldable pub wakeup_all : M Chan (Unit {0})
wakeup_all =
    with_channel do
      on_sys acquire_qlock
      n ← gets (λ c. length c.queue)
      wake_loop (n + 1)
      on_sys release_qlock
