-- ===== src/Sched/Helpers.antt =====
-- kern/cpu/sched_helpers.c: the operations on the NEW, READY and EXIT queues.
use fos_educational_os_proje.Base.{
  ℕ, zero, suc, Bool, true, false, not, ◌||◌, Option, none, some, List, [], ◌∷◌, ◌==◌, ltb,
  if◌then◌else◌, update, get_or, set, length, ◌≡◌, ◌≢◌, ◌<◌, refl, ap, ◌∙◌, arith, update_self,
  lt→ltb, ==-ne, ==_iff, sym, Bool-cases, inl, inr,
}
use fos_educational_os_proje.Base.Monad.{M, pure, ◌>>=◌, ◌>>◌, gets, modify, assert, assert-eq}
use fos_educational_os_proje.Sched.{
  Ptr, null, Status, ready, new, exit, unknown, is_ready, is_new, is_exit, is_running, Env, Sched,
  enqueue, dequeue, remove_from_queue, find_env_in_queue, set_env, set_status, acquire_qlock,
  release_qlock, enqueue_ready,
}

abbrev pub holding_qlock : M Sched (Unit {0})
holding_qlock s = assert s.locked s

unfoldable pub sched_insert_ready : Ptr → M Sched (Unit {0})
sched_insert_ready e = do
  holding_qlock
  assert (not (e == null))
  modify (set_status e ready)
  i ← gets (λ s. (s.env e).priority)
  enqueue_ready i e

-- A write to one process that spares its priority spares all priorities.
pub keep_priority :
    (env : Ptr → Env) (p q : Ptr) (v : Env)
    → v.priority ≡ (env p).priority
    → (update env p v q).priority ≡ (env q).priority
unfolding update
keep_priority env p q v e = elim (Bool-cases (q == p)) [
  | inl t ↦ rw t (e ∙ ap (λ r. (env r).priority) (sym ((==_iff q p).0 t)))
  | inr t ↦ rw t refl
]

-- Where its assertions hold, sched_insert_ready puts the process at the head of the queue of its
-- priority.
pub insert_ready-eq :
    (e : Ptr) (s : Sched)
    → s.locked ≡ true
    → e ≢ null
    → (s.env e).priority < length s.env_ready_queues
    → sched_insert_ready e s
      ≡ some (
        tt,
        record (set_status e ready s) {
          env_ready_queues =
              set s.env_ready_queues
                (s.env e).priority
                (e ∷ get_or s.env_ready_queues (s.env e).priority []);
        },
      )
unfolding sched_insert_ready enqueue_ready enqueue
insert_ready-eq e s held ne fits =
    assert-eq s _ held ∙ assert-eq {b = not (e == null)} s _ (ground arith) ∙ placed
  where
    i : ℕ
    i = (s.env e).priority

    same : (update s.env e (record (s.env e) { env_status = ready }) e).priority ≡ i
    same = ap (λ v. v.priority) (update_self s.env e _)

    placed :
        enqueue_ready
          (update s.env e (record (s.env e) { env_status = ready }) e).priority
          e
          (set_status e ready s)
        ≡ some (
          tt,
          record (set_status e ready s) {
            env_ready_queues = set s.env_ready_queues i (e ∷ get_or s.env_ready_queues i []);
          },
        )
    placed = rw same (rw (lt→ltb i _ fits, ==-ne e null ne) refl)

-- Searches the queues from `qs` on for the id; the first that has it loses the element `e`.
unfoldable pub remove_first : (Ptr → Env) → Ptr → List (List Ptr) → Option (Bool × List (List Ptr))
remove_first env e [] = some (false, [])
remove_first env e (q ∷ qs) =
    if find_env_in_queue env (env e).env_id q == null
    then elim (remove_first env e qs) [ none ↦ none | some (b, rs) ↦ some (b, q ∷ rs) ]
    else elim (remove_from_queue e q) [ none ↦ none | some r ↦ some (true, r ∷ qs) ]

unfoldable pub take_out : Ptr → Bool × List (List Ptr) → Sched → Sched
take_out e (true, qs) s = set_status e unknown (record s { env_ready_queues = qs })
take_out e (false, qs) s = s

unfoldable pub sched_remove_ready : Ptr → M Sched (Unit {0})
sched_remove_ready e = do
  holding_qlock
  assert (not (e == null))
  st ← gets (λ s. (s.env e).env_status)
  assert (is_ready st)
  (λ s. elim (remove_first s.env e s.env_ready_queues) [
    | none ↦ none
    | some r ↦ some (tt, take_out e r s)
  ])

unfoldable pub sched_insert_new : Ptr → M Sched (Unit {0})
sched_insert_new e = do
  holding_qlock
  assert (not (e == null))
  modify (set_status e new)
  modify (λ s. record s { env_new_queue = enqueue e s.env_new_queue })

unfoldable pub sched_remove_new : Ptr → M Sched (Unit {0})
sched_remove_new e = do
  holding_qlock
  assert (not (e == null))
  st ← gets (λ s. (s.env e).env_status)
  assert (is_new st)
  (λ s. elim (remove_from_queue e s.env_new_queue) [
    | none ↦ none
    | some q ↦ some (tt, set_status e unknown (record s { env_new_queue = q }))
  ])

-- Page buffering is off (fault_handler_init), so no buffers are cleaned.
unfoldable pub sched_insert_exit : Ptr → M Sched (Unit {0})
sched_insert_exit e = do
  holding_qlock
  assert (not (e == null))
  modify (set_status e exit)
  modify (λ s. record s { env_exit_queue = enqueue e s.env_exit_queue })

unfoldable pub sched_remove_exit : Ptr → M Sched (Unit {0})
sched_remove_exit e = do
  holding_qlock
  assert (not (e == null))
  st ← gets (λ s. (s.env e).env_status)
  assert (is_exit st)
  (λ s. elim (remove_from_queue e s.env_exit_queue) [
    | none ↦ none
    | some q ↦ some (tt, set_status e unknown (record s { env_exit_queue = q }))
  ])

unfoldable pub sched_new_env : Ptr → M Sched (Unit {0})
sched_new_env e = do acquire_qlock; assert (not (e == null)); sched_insert_new e; release_qlock

-- The result says whether control passes to fos_scheduler, which does not come back here.
unfoldable pub run_found : Ptr → M Sched Bool
run_found e = do
  sched_remove_new e
  sched_insert_ready e
  s ← gets (λ s. s.stopped)
  release_qlock
  pure s

unfoldable pub sched_run_env : ℕ → M Sched Bool
sched_run_env id = do
  acquire_qlock
  e ← (λ s. some (find_env_in_queue s.env id s.env_new_queue, s))
  if e == null then (do release_qlock; pure false) else run_found e

-- The loop of sched_run_all, as often as the NEW queue is long.
unfoldable pub run_new : ℕ → M Sched (Unit {0})
run_new zero = pure tt
run_new (suc n) = do
  e ← (λ s.
      some ((dequeue s.env_new_queue).0, record s { env_new_queue = (dequeue s.env_new_queue).1 }))
  sched_insert_ready e
  run_new n

-- Control then passes to fos_scheduler; a scheduler that runs already is a panic.
unfoldable pub sched_run_all : M Sched (Unit {0})
sched_run_all = do
  acquire_qlock
  n ← gets (λ s. length s.env_new_queue)
  run_new n
  release_qlock
  st ← gets (λ s. s.stopped)
  assert st

-- The checks of sched (kern/proc/user_environment.c) before it switches to the scheduler.
unfoldable pub sched : M Sched (Unit {0})
sched = do
  p ← gets (λ s. s.proc)
  assert (not (p == null))
  holding_qlock
  n ← gets (λ s. s.ncli)
  assert (n == 1)
  st ← gets (λ s. (s.env p).env_status)
  assert (not (is_running st))
  fl_if ← gets (λ s. s.interrupts)
  assert (not fl_if)

unfoldable pub sched_set_starv_thresh : ℕ → M Sched (Unit {0})
sched_set_starv_thresh t = do assert (not (t == 0)); modify (λ s. record s { starv_threshold = t })

-- `slot` is the address of the element of `envs` that ENVX gives for an id. The result of envid2env
-- without `checkperm`: null is E_BAD_ENV.
abbrev pub is_free : Status → Bool
is_free Status.free = true
is_free _ = false

module _ (slot : ℕ → Ptr) where
  unfoldable pub envid2env : ℕ → Sched → Option Ptr
  envid2env id s =
      if id == 0
      then some s.proc
      else if is_free (s.env (slot id)).env_status || not ((s.env (slot id)).env_id == id)
      then none
      else some (slot id)

  unfoldable pub change_priority : Ptr → ℕ → M Sched (Unit {0})
  change_priority e p = do
    st ← gets (λ s. (s.env e).env_status)
    if is_ready st
        then (do
          sched_remove_ready e
          modify (λ s. set_env e (record (s.env e) { priority = p; starvcounteer = 0 }) s)
          sched_insert_ready e)
        else modify (λ s. set_env e (record (s.env e) { priority = p }) s)

  unfoldable pub find_env_or_panic : ℕ → M Sched Ptr
  find_env_or_panic id s = elim (envid2env id s) [ none ↦ none | some e ↦ some (e, s) ]

  -- A priority below 0 or past the last queue is a panic.
  unfoldable pub env_set_priority : (env_id priority : ℕ) → M Sched (Unit {0})
  env_set_priority id p = do
    acquire_qlock
    e ← find_env_or_panic id
    n ← gets (λ s. length s.env_ready_queues)
    assert (ltb p n)
    change_priority e p
    release_qlock
