-- ===== src/Conc/Interleaved.antt =====
-- kern/conc/sleeplock.c: the calls of many processes on one sleep lock, interleaved in any order.
use fos_educational_os_proje.Base.{
  ◌≡◌, ◌≢◌, Bool, true, false, not, ◌&&◌, ◌==◌, if◌then◌else◌, some, [], has, count_all, update,
}
use fos_educational_os_proje.Sched.{Ptr, null, Sched}
use fos_educational_os_proje.Sched.Picks.{NoNull}
use fos_educational_os_proje.Conc.Sleeplock.{
  Sleeplock, acquire_sleeplock, acquire_resumed, release_sleeplock,
}
use fos_educational_os_proje.Conc.Wakeup.{AllFit}

-- Where a process stands: before acquire_sleeplock, blocked in its sleep, woken from it (it stands
-- in a ready queue until the scheduler runs it), or between the return of acquire_sleeplock and the
-- end of its release_sleeplock.
pub data Place : Type 0 where
  outside asleep woken inside : Place

abbrev pub is_asleep : Place → Bool
is_asleep asleep = true
is_asleep _ = false

abbrev pub is_inside : Place → Bool
is_inside inside = true
is_inside _ = false

-- The lock, its channel's address, and the places of the processes.
pub record System : Type 0 where
  pub lock : Sleeplock
  pub chan : Ptr
  pub place : Ptr → Place

-- The lock as a call finds it: the state of the scheduler is any that the processes left.
abbrev pub with_sys : Sched → System → Sleeplock
with_sys sys s = record s.lock { c = record s.lock.c { sys = sys; chan = s.chan } }

-- The state after a call of `p` that left it at a place.
abbrev pub moved : Ptr → Place → Sleeplock → System → System
moved p at k s = record { lock = k; chan = s.chan; place = update s.place p at }

abbrev pub after : Bool → Place
after true = asleep
after false = inside

-- The places after a call of release_sleeplock: a sleeper is woken if the call left it in a ready
-- queue, and sleeps on otherwise.
abbrev pub in_ready_queue : Ptr → Sched → Bool
in_ready_queue p sys = not (count_all p sys.env_ready_queues == 0)

abbrev pub roused : Sched → (Ptr → Place) → Ptr → Place
roused sys place p = if is_asleep (place p) && in_ready_queue p sys then woken else place p

abbrev pub left_by : Ptr → Sleeplock → System → System
left_by p k s = moved p outside k (record s { place = roused k.c.sys s.place })

-- One call, up to its switch or its end. A process calls acquire_sleeplock only when it is outside,
-- and release_sleeplock only when it is inside: that is the callers' discipline, which the code does
-- not check. A call starts with the lock of the queues free, and acquire_sleeplock with no spin
-- lock held; a woken process resumes when the scheduler runs it, with that lock held, its only one.
pub data Step (s : System) : System → Type 0 where
  attempt :
      (p : Ptr) (sys : Sched) {slept : Bool} {k : Sleeplock}
      → s.place p ≡ outside
      → p ≢ null
      → sys.proc ≡ p
      → sys.locked ≡ false
      → sys.ncli ≡ 0
      → acquire_sleeplock (with_sys sys s) ≡ some (slept, k)
      → Step s (moved p (after slept) k s)
  resume :
      (p : Ptr) (sys : Sched) {slept : Bool} {k : Sleeplock}
      → s.place p ≡ woken
      → p ≢ null
      → sys.proc ≡ p
      → sys.locked ≡ true
      → sys.ncli ≡ 1
      → sys.interrupts ≡ false
      → acquire_resumed p (with_sys sys s) ≡ some (slept, k)
      → Step s (moved p (after slept) k s)
  leave :
      (p : Ptr) (sys : Sched) {k : Sleeplock}
      → s.place p ≡ inside
      → sys.proc ≡ p
      → sys.locked ≡ false
      → AllFit sys s.lock.c.queue
      → release_sleeplock (with_sys sys s) ≡ some (tt, k)
      → Step s (left_by p k s)

pub data Reach (start : System) : System → Type 0 where
  begin : Reach start start
  later : {s t : System} → Reach start s → Step s t → Reach start t

-- A lock that is free has nobody inside and nobody in its channel; one that is held has one process
-- inside. The channel holds the processes that sleep, and no others.
pub record Inv (s : System) : Type 0 where
  pub guard : s.lock.c.guard ≡ false
  pub chan : s.chan ≢ null
  pub real : NoNull s.lock.c.queue
  pub sleepers : (p : Ptr) → has p s.lock.c.queue ≡ true → s.place p ≡ asleep
  pub queued : (p : Ptr) → s.place p ≡ asleep → has p s.lock.c.queue ≡ true
  pub free :
      s.lock.locked ≡ false → (s.lock.c.queue ≡ []) × ((p : Ptr) → is_inside (s.place p) ≡ false)
  pub held :
      s.lock.locked ≡ true
      → (o : Ptr) × (s.place o ≡ inside) × ((p : Ptr) → is_inside (s.place p) ≡ true → p ≡ o)

-- A lock that nobody has used.
abbrev pub initial : Ptr → Sched → System
initial chan sys = record {
  lock = record {
    locked = false;
    pid = 0;
    c = record { sys = sys; queue = []; guard = false; chan = chan };
  };
  chan = chan;
  place = λ p. outside;
}
