-- ===== src/Sched/Tests.antt =====
-- Three processes in the queues of the priority scheduler, and the theorems at them.
use fos_educational_os_proje.Base.{
  ℕ, ◌≡◌, refl, [], ◌∷◌, none, some, true, false, arith, Yields, update,
}
use fos_educational_os_proje.Sched.{
  Status, ready, new, Env, Sched, prirr, find_env_in_queue, dequeue, enqueue_ready, enqueue,
}
use fos_educational_os_proje.Sched.Prirr.{fos_scheduler_prirr, requeue, take_next, pick_ready}
use fos_educational_os_proje.Sched.Exit.{sched_exit_env, sched_exit_env-new}
use fos_educational_os_proje.Sched.Picks.{Chosen, prirr-Chosen}

abbrev process : ℕ → Status → ℕ → Env
process id st p = record {
  env_id = id;
  env_status = st;
  priority = p;
  channel = 0;
  starvcounteer = 3;
  n_clocks = 0;
}

-- The process 1 runs and is ready again; 2 and 3 wait, 4 is new.
abbrev state : Sched
state = record {
  env = update (update (λ p. process p ready 1) 4 (process 4 new 0)) 1 (process 1 ready 0);
  env_new_queue = 4 ∷ [];
  env_ready_queues = [] ∷ (3 ∷ 2 ∷ []) ∷ [];
  env_exit_queue = [];
  proc = 1;
  locked = true;
  stopped = false;
  quantums = 10 ∷ 10 ∷ [];
  clock_quantum = 10;
  starv_threshold = 5;
  ticks = 0;
  method = prirr;
  ncli = 1;
  intena = true;
  interrupts = false;
}

-- The current process is alone in the first queue and is chosen again.
runs_itself :
    fos_scheduler_prirr state
    ≡ some (
      1,
      record state {
        env = update state.env 1 (record (state.env 1) { starvcounteer = 0 });
        clock_quantum = 10;
      },
    )
unfolding fos_scheduler_prirr requeue take_next pick_ready enqueue_ready enqueue dequeue update
runs_itself = refl

prirr-Chosen_example : Yields (Chosen state) (fos_scheduler_prirr state)
unfolding update
prirr-Chosen_example =
    prirr-Chosen state refl (tt, ((omega arith, (omega arith, tt)), tt)) (λ e. omega arith)

sched_exit_env-new_example : sched_exit_env 4 state ≡ none
unfolding update find_env_in_queue
sched_exit_env-new_example = sched_exit_env-new 4 state (omega arith)
