-- ===== src/Sched.antt =====
-- kern/cpu/sched_helpers.c and kern/cpu/sched.c: the process queues and the schedulers. A queue is
-- the list of its elements (the module Queue proves that of the list macros); an environment is its
-- address, and the fields that the schedulers use stand in `env`.
pub mod Helpers
pub mod Prirr
pub mod Clock
pub mod Picks
pub mod Exit
mod Tests
use fos_educational_os_proje.Base.{
  ℕ, zero, suc, ◌&&◌, ◌+◌, ◌-◌, ◌%◌, ◌^◌, Bool, true, false, Option, none, some, List, [], ◌∷◌,
  ◌==◌, ltb, if◌then◌else◌, update, get_or, set, length,
}
use fos_educational_os_proje.Base.Monad.{M, pure, ◌>>=◌, ◌>>◌, gets, modify, assert, panic}

abbrev pub Ptr : Type 0
Ptr = ℕ

abbrev pub null : Ptr
null = 0

pub data Status : Type 0 where
  free ready running blocked new exit killed unknown : Status

abbrev pub is_ready : Status → Bool
is_ready ready = true
is_ready _ = false

abbrev pub is_new : Status → Bool
is_new new = true
is_new _ = false

abbrev pub is_exit : Status → Bool
is_exit exit = true
is_exit _ = false

abbrev pub is_running : Status → Bool
is_running running = true
is_running _ = false

-- scheduler_method
pub data Method : Type 0 where
  rr mlfq bsd prirr : Method

-- struct Env: what the queues and the schedulers read and write. `priority` is an index of a queue.
pub record Env : Type 0 where
  pub env_id : ℕ
  pub env_status : Status
  pub priority : ℕ
  pub channel : Ptr
  pub starvcounteer : ℕ
  pub n_clocks : ℕ

-- ProcessQueues, the current process of the CPU and the globals of the schedulers. `locked` says
-- that this CPU holds `qlock`; `stopped` that the scheduler's status is SCH_STOPPED. `ncli`, `intena`
-- and `interrupts` (the flag FL_IF) are the CPU's.
pub record Sched : Type 0 where
  pub env : Ptr → Env
  pub env_new_queue : List Ptr
  pub env_ready_queues : List (List Ptr)
  pub env_exit_queue : List Ptr
  pub proc : Ptr
  pub locked : Bool
  pub stopped : Bool
  pub quantums : List ℕ
  pub clock_quantum : ℕ
  pub starv_threshold : ℕ
  pub ticks : ℕ
  pub method : Method
  pub ncli : ℕ
  pub intena : Bool
  pub interrupts : Bool

-- enqueue inserts at the head, dequeue takes from the tail.
unfoldable pub enqueue : Ptr → List Ptr → List Ptr
enqueue e q = if e == null then q else e ∷ q

unfoldable pub dequeue : List Ptr → Ptr × List Ptr
dequeue [] = (null, [])
dequeue (x ∷ []) = (x, [])
dequeue (x ∷ y ∷ q) = let (e, r) = dequeue (y ∷ q) in (e, x ∷ r)

-- LIST_REMOVE of an element; of one that the list does not hold the macro breaks the links.
unfoldable pub remove_from_queue : Ptr → List Ptr → Option (List Ptr)
remove_from_queue e [] = none
remove_from_queue e (x ∷ q) =
    if x == e then some q else elim (remove_from_queue e q) [ none ↦ none | some r ↦ some (x ∷ r) ]

unfoldable pub find_env_in_queue : (Ptr → Env) → ℕ → List Ptr → Ptr
find_env_in_queue env id [] = null
find_env_in_queue env id (x ∷ q) = if (env x).env_id == id then x else find_env_in_queue env id q

abbrev pub set_env : Ptr → Env → Sched → Sched
set_env p e s = record s { env = update s.env p e }

abbrev pub set_status : Ptr → Status → Sched → Sched
set_status p st s = set_env p (record (s.env p) { env_status = st }) s

-- The pushcli of acquire_kspinlock.
abbrev pub cli : Sched → Sched
cli s = record s {
  interrupts = false;
  intena = if s.ncli == 0 then s.interrupts else s.intena;
  ncli = suc s.ncli;
}

-- The popcli of release_kspinlock, with `ncli` and `interrupts` of the state. It panics where the
-- interrupts are on, or without a pushcli.
abbrev pub end_cli : (ncli : ℕ) → (interrupts : Bool) → M Sched (Unit {0})
end_cli n true s = none
end_cli zero false s = none
end_cli (suc n) false s = some (tt, record s { ncli = n; interrupts = (n == 0) && s.intena })

unfoldable pub acquire_qlock : M Sched (Unit {0})
acquire_qlock s = if s.locked then none else some (tt, record (cli s) { locked = true })

unfoldable pub release_qlock : M Sched (Unit {0})
release_qlock s =
    if s.locked then end_cli s.ncli s.interrupts (record s { locked = false }) else none

-- The ready queue `i`; an index past the last queue is a fault.
unfoldable pub enqueue_ready : ℕ → Ptr → M Sched (Unit {0})
enqueue_ready i e s =
    if ltb i (length s.env_ready_queues)
    then some (
      tt,
      record s {
        env_ready_queues = set s.env_ready_queues i (enqueue e (get_or s.env_ready_queues i []));
      },
    )
    else none
