-- ===== src/Sched/Clock.antt =====
-- kern/cpu/sched.c: the aging of waiting processes and the rest of the clock interrupt.
use fos_educational_os_proje.Base.{
  ℕ, zero, suc, ◌+◌, ◌-◌, ◌%◌, ◌^◌, Bool, true, false, not, ◌&&◌, List, [], ◌∷◌, ◌==◌, ltb,
  if◌then◌else◌, get_or, length,
}
use fos_educational_os_proje.Base.Monad.{M, pure, ◌>>=◌, ◌>>◌, gets, modify, assert}
use fos_educational_os_proje.Sched.{
  Ptr, null, ready, Sched, Method, prirr, set_env, set_status, acquire_qlock, release_qlock,
}
use fos_educational_os_proje.Sched.Helpers.{env_set_priority, sched}

abbrev pub is_prirr : Method → Bool
is_prirr prirr = true
is_prirr _ = false

-- yield (kern/proc/user_environment.c); what runs between the switch and the release is not seen.
unfoldable pub yield : M Sched (Unit {0})
yield = do
  acquire_qlock
  p ← gets (λ s. s.proc)
  assert (not (p == null))
  modify (set_status p ready)
  sched
  release_qlock

unfoldable pub count_clock : Ptr → Sched → Sched
count_clock p s = set_env p (record (s.env p) { n_clocks = ((s.env p).n_clocks + 1) % 2 ^ 32 }) s

module _ (slot : ℕ → Ptr) where
  -- One element of a ready queue: a counter past the threshold moves it up by one queue.
  unfoldable pub age_env : Ptr → M Sched (Unit {0})
  age_env e = do
    modify (λ s.
        set_env e (record (s.env e) { starvcounteer = ((s.env e).starvcounteer + 1) % 2 ^ 32 }) s)
    v ← gets (λ s. s.env e)
    t ← gets (λ s. s.starv_threshold)
    if ltb t v.starvcounteer && ltb 0 v.priority
        then env_set_priority slot v.env_id (v.priority - 1)
        else pure tt

  -- LIST_FOREACH_SAFE: the next element is read before the body runs, and the body takes only the
  -- current one out of the queue, so the elements are those that the queue had at the start.
  unfoldable pub age_queue : List Ptr → M Sched (Unit {0})
  age_queue [] = pure tt
  age_queue (e ∷ q) = do age_env e; age_queue q

  unfoldable pub age_queues : (count i : ℕ) → M Sched (Unit {0})
  age_queues zero i = pure tt
  age_queues (suc n) i = do
    q ← gets (λ s. get_or s.env_ready_queues i [])
    age_queue q
    age_queues n (i + 1)

  -- Without update_WS_time_stamps, which the module Fault models.
  unfoldable pub clock_interrupt_handler : M Sched (Unit {0})
  clock_interrupt_handler = do
    m ← gets (λ s. s.method)
    n ← gets (λ s. length s.env_ready_queues)
    if is_prirr m then age_queues n 0 else pure tt
    modify (λ s. record s { ticks = s.ticks + 1 })
    p ← gets (λ s. s.proc)
    if p == null then pure tt else (do modify (count_clock p); yield)
