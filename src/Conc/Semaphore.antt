-- ===== src/Conc/Semaphore.antt =====
-- kern/conc/ksemaphore.c: the counter of a semaphore against the queue of its channel.
use fos_educational_os_proje.Base.{Bool, true, false, Option, none, some, if◌then◌else◌}
use fos_educational_os_proje.Base.Int.{ℤ, inc, dec, is_neg, is_nonpos}
use fos_educational_os_proje.Base.Monad.{M, pure, ◌>>=◌, ◌>>◌, gets, modify}
use fos_educational_os_proje.Sched.{Ptr}
use fos_educational_os_proje.Conc.{
  Chan, acquire_guard, release_guard, go_to_sleep, back_from_sleep, wakeup_one,
}

-- struct ksemaphore: its lock and channel stand in `c`.
pub record Ksemaphore : Type 0 where
  pub count : ℤ
  pub c : Chan

abbrev pub on_chan_result : {A : Type 0} → Ksemaphore → Option (A × Chan) → Option (A × Ksemaphore)
on_chan_result k none = none
on_chan_result k (some (a, d)) = some (a, record k { c = d })

abbrev pub on_chan : {A : Type 0} → M Chan A → M Ksemaphore A
on_chan m k = on_chan_result k (m k.c)

-- wait_ksemaphore up to the switch in `sleep`, or to its end: the result says whether it slept.
unfoldable pub wait_ksemaphore : M Ksemaphore Bool
wait_ksemaphore = do
  on_chan acquire_guard
  modify (λ k. record k { count = dec k.count })
  n ← gets (λ k. k.count)
  if is_neg n then (do on_chan go_to_sleep; pure true) else (do on_chan release_guard; pure false)

-- wait_ksemaphore from the switch back to the process `p` on.
unfoldable pub wait_resumed : Ptr → M Ksemaphore (Unit {0})
wait_resumed p = do on_chan (back_from_sleep p); on_chan release_guard

unfoldable pub signal_ksemaphore : M Ksemaphore (Unit {0})
signal_ksemaphore = do
  on_chan acquire_guard
  modify (λ k. record k { count = inc k.count })
  n ← gets (λ k. k.count)
  if is_nonpos n then on_chan wakeup_one else pure tt
  on_chan release_guard
