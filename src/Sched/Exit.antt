-- ===== src/Sched/Exit.antt =====
-- kern/cpu/sched_helpers.c: sched_exit_env, and a process that it cannot exit.
use fos_educational_os_proje.Base.{
  ℕ, ◌≡◌, refl, ◌≢◌, Bool, true, false, not, Option, none, some, List, [], ◌∷◌, ◌==◌, if◌then◌else◌,
  arith, Bool-cases, inl, inr,
}
use fos_educational_os_proje.Base.Monad.{M, pure, ◌>>=◌, ◌>>◌, gets, assert, and_then}
use fos_educational_os_proje.Sched.{
  Ptr, null, Env, Sched, remove_from_queue, cli, release_qlock, find_env_in_queue,
}
use fos_educational_os_proje.Sched.Helpers.{sched, sched_remove_new, sched_insert_exit}

-- The scan of the NEW queue: each element with the id is removed, and the loop goes on. Where it
-- ends, LIST_FOREACH has left null in `ptr_env`; the result is `found`.
unfoldable pub exit_new : ℕ → List Ptr → M Sched Bool
exit_new id [] s = some (false, s)
exit_new id (e ∷ q) s =
    if (s.env e).env_id == id
    then ((do sched_remove_new e; exit_new id q; pure true) s)
    else exit_new id q s

-- The first ready queue with the id; the scan stops at the element.
unfoldable pub exit_ready : (Ptr → Env) → ℕ → List (List Ptr) → Option (Ptr × List (List Ptr))
exit_ready env id [] = some (null, [])
exit_ready env id (q ∷ qs) =
    if find_env_in_queue env id q == null
    then elim (exit_ready env id qs) [ none ↦ none | some (e, rs) ↦ some (e, q ∷ rs) ]
    else elim (remove_from_queue (find_env_in_queue env id q) q) [
      | none ↦ none
      | some r ↦ some (find_env_in_queue env id q, r ∷ qs)
    ]

unfoldable pub leave_ready : ℕ → M Sched Ptr
leave_ready id s = elim (exit_ready s.env id s.env_ready_queues) [
  | none ↦ none
  | some (e, qs) ↦ some (e, record s { env_ready_queues = qs })
]

-- The process with the id among the ready ones, or else the current one; null where it is neither.
unfoldable pub found_elsewhere : ℕ → Ptr → M Sched Ptr
found_elsewhere id e s =
    if not (e == null)
    then some (e, s)
    else if (s.env s.proc).env_id == id
    then some (s.proc, s)
    else some (null, s)

unfoldable pub finish_exit : ℕ → Ptr → M Sched (Unit {0})
finish_exit id e = do
  sched_insert_exit e
  cur ← gets (λ s. (s.env s.proc).env_id)
  if cur == id then sched else pure tt

unfoldable pub acquire_unless_held : M Sched Bool
acquire_unless_held s =
    if s.locked then some (true, s) else some (false, record (cli s) { locked = true })

unfoldable pub release_unless_held : Bool → M Sched (Unit {0})
release_unless_held held = if held then pure tt else release_qlock

unfoldable pub exit_not_new : ℕ → M Sched (Unit {0})
exit_not_new id = do
  e ← leave_ready id
  p ← gets (λ s. s.proc)
  assert (not (p == null))
  e ← found_elsewhere id e
  if e == null then pure tt else finish_exit id e

-- One that the NEW queue held goes on with the null that its scan left.
unfoldable pub exit_was_new : ℕ → M Sched (Unit {0})
exit_was_new id = do p ← gets (λ s. s.proc); assert (not (p == null)); finish_exit id null

unfoldable pub sched_exit_env : ℕ → M Sched (Unit {0})
sched_exit_env id = do
  held ← acquire_unless_held
  q ← gets (λ s. s.env_new_queue)
  found ← exit_new id q
  if found then exit_was_new id else exit_not_new id
  release_unless_held held

-- The code stops, or it goes on with `true`.
abbrev TrueOrStops : Option (Bool × Sched) → Type 0
TrueOrStops none = Unit
TrueOrStops (some (b, s)) = b ≡ true

then_true :
    (o : Option (Unit {0} × Sched)) (m : M Sched Bool)
    → TrueOrStops (and_then o (λ _. m >> pure true))
then_true none m = tt
then_true (some (u, s)) m = after (m s)
  where
    after : (o : Option (Bool × Sched)) → TrueOrStops (and_then o (λ _. pure true))
    after none = tt
    after (some r) = refl

exit_new-found :
    (id : ℕ) (q : List Ptr) (s : Sched)
    → find_env_in_queue s.env id q ≢ null
    → TrueOrStops (exit_new id q s)
unfolding exit_new find_env_in_queue
exit_new-found id [] s h = absurd (h refl)
exit_new-found id (e ∷ q) s h = elim (Bool-cases ((s.env e).env_id == id)) [
  | inl t ↦ rw t (then_true (sched_remove_new e s) (exit_new id q))
  | inr t ↦ rw t (exit_new-found id q s (rw t at h))
]

exit_was_new-none : (id : ℕ) (s : Sched) → exit_was_new id s ≡ none
unfolding exit_was_new finish_exit sched_insert_exit
exit_was_new-none id s = ground arith

exit_found-none :
    (id : ℕ) (held : Bool) (o : Option (Bool × Sched))
    → TrueOrStops o
    → and_then o
        (λ found. (if found then exit_was_new id else exit_not_new id) >> release_unless_held held)
      ≡ none
exit_found-none id held none h = refl
exit_found-none id held (some (b, s)) h = rw h (rw (exit_was_new-none id s))

-- sched_exit_env of the id of a process in the NEW queue does not return: the scan of that queue
-- has no `break`, its variable ends as null, and the assertion of sched_insert_exit fails.
pub sched_exit_env-new :
    (id : ℕ) (s : Sched)
    → find_env_in_queue s.env id s.env_new_queue ≢ null
    → sched_exit_env id s ≡ none
unfolding sched_exit_env acquire_unless_held
sched_exit_env-new id s h = elim (Bool-cases s.locked) [
  | inl t ↦
      rw t (
        exit_found-none id true _
          (exit_new-found id s.env_new_queue (record s { locked = true }) h))
  | inr t ↦ rw t (
      exit_found-none id false _
        (exit_new-found id s.env_new_queue (record (cli s) { locked = true }) h))
]
