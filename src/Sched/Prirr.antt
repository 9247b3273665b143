-- ===== src/Sched/Prirr.antt =====
-- kern/cpu/sched.c: the initialisation and the choice of the round robin and of the priority round
-- robin scheduler. kclock_set_quantum is the field `clock_quantum`.
use fos_educational_os_proje.Base.{
  ℕ, true, not, ◌&&◌, some, List, [], ◌∷◌, ◌==◌, if◌then◌else◌, get_or, set, replicate,
}
use fos_educational_os_proje.Base.Monad.{M, pure, ◌>>=◌, ◌>>◌, gets, modify, assert}
use fos_educational_os_proje.Sched.{
  Ptr, null, is_ready, Sched, rr, prirr, dequeue, set_env, acquire_qlock, release_qlock,
  enqueue_ready,
}
use fos_educational_os_proje.Sched.Helpers.{holding_qlock, sched_set_starv_thresh}

unfoldable pub sched_init_rr : ℕ → M Sched (Unit {0})
sched_init_rr quantum = do
  acquire_qlock
  release_qlock
  modify (λ s. record s {
    env_ready_queues = [] ∷ [];
    quantums = quantum ∷ [];
    clock_quantum = quantum;
    stopped = true;
    method = rr;
  })

-- The lock is taken to delete the old queues, and again to clear the new ones.
unfoldable pub sched_init_prirr : (num quantum starv_thresh : ℕ) → M Sched (Unit {0})
sched_init_prirr num quantum starv_thresh = do
  assert (not (quantum == 0))
  if num == 0 then sched_init_rr quantum else (do
    acquire_qlock
    release_qlock
    modify (λ s. record s {
      env_ready_queues = replicate num [];
      quantums = replicate num quantum;
      clock_quantum = quantum;
    })
    sched_set_starv_thresh starv_thresh
    modify (λ s. record s { stopped = true; method = prirr }))

-- The first queue that is not empty loses its last element.
unfoldable pub pick_ready : List (List Ptr) → Ptr × List (List Ptr)
pick_ready [] = (null, [])
pick_ready ([] ∷ qs) = let (e, rs) = pick_ready qs in (e, [] ∷ rs)
pick_ready ((x ∷ q) ∷ qs) = let (e, r) = dequeue (x ∷ q) in (e, r ∷ qs)

unfoldable pub requeue : Ptr → M Sched (Unit {0})
requeue e s =
    if not (e == null) && is_ready (s.env e).env_status
    then enqueue_ready (s.env e).priority e s
    else some (tt, s)

unfoldable pub take_next : M Sched Ptr
take_next s =
    let (e, qs) = pick_ready s.env_ready_queues in
    if e == null
    then some (e, record s { env_ready_queues = qs })
    else some (
      e,
      record (set_env e (record (s.env e) { starvcounteer = 0 }) s) {
        env_ready_queues = qs;
        clock_quantum = get_or s.quantums 0 0;
      },
    )

unfoldable pub fos_scheduler_prirr : M Sched Ptr
fos_scheduler_prirr = do holding_qlock; elast ← gets (λ s. s.proc); requeue elast; take_next

-- Round robin puts the current process back whatever its status is.
unfoldable pub fos_scheduler_rr : M Sched Ptr
fos_scheduler_rr = do
  holding_qlock
  cur ← gets (λ s. s.proc)
  if cur == null then pure tt else enqueue_ready 0 cur
  (λ s.
      let (e, q) = dequeue (get_or s.env_ready_queues 0 []) in
      some (
        e,
        record s {
          env_ready_queues = set s.env_ready_queues 0 q;
          clock_quantum = get_or s.quantums 0 0;
        },
      ))
