-- ===== src/Conc/Sleeplock.antt =====
-- kern/conc/sleeplock.c: a lock whose holder may sleep, over a channel.
use fos_educational_os_proje.Base.{
  ℕ, Bool, true, false, not, ◌&&◌, Option, none, some, ◌==◌, if◌then◌else◌,
}
use fos_educational_os_proje.Base.Monad.{M, pure, ◌>>=◌, ◌>>◌, gets, modify, assert}
use fos_educational_os_proje.Sched.{Ptr, null}
use fos_educational_os_proje.Conc.{
  Chan, acquire_guard, release_guard, go_to_sleep, back_from_sleep, wakeup_all,
}

-- struct sleeplock: its guard and channel stand in `c`.
pub record Sleeplock : Type 0 where
  pub locked : Bool
  pub pid : ℕ
  pub c : Chan

abbrev pub on_chan_result : {A : Type 0} → Sleeplock → Option (A × Chan) → Option (A × Sleeplock)
on_chan_result k none = none
on_chan_result k (some (a, d)) = some (a, record k { c = d })

abbrev pub on_chan : {A : Type 0} → M Chan A → M Sleeplock A
on_chan m k = on_chan_result k (m k.c)

abbrev pub caller_id : Sleeplock → ℕ
caller_id k = (k.c.sys.env k.c.sys.proc).env_id

-- One test of the loop of acquire_sleeplock, the guard held: a lock that is held sends the caller
-- to sleep (the result is true), a free one is claimed.
unfoldable pub claim_or_sleep : M Sleeplock Bool
claim_or_sleep k =
    if k.locked
    then (do on_chan go_to_sleep; pure true) k
    else (do
      p ← gets (λ j. j.c.sys.proc)
      assert (not (p == null))
      modify (λ j. record j { locked = true; pid = caller_id j })
      on_chan release_guard
      pure false)
        k

unfoldable pub acquire_sleeplock : M Sleeplock Bool
acquire_sleeplock = do on_chan acquire_guard; claim_or_sleep

-- The process `p` runs again after its sleep, and tests once more.
unfoldable pub acquire_resumed : Ptr → M Sleeplock Bool
acquire_resumed p = do on_chan (back_from_sleep p); claim_or_sleep

unfoldable pub release_sleeplock : M Sleeplock (Unit {0})
release_sleeplock = do
  on_chan acquire_guard
  modify (λ k. record k { locked = false; pid = 0 })
  on_chan wakeup_all
  on_chan release_guard

unfoldable pub holding_sleeplock : M Sleeplock Bool
holding_sleeplock = do
  on_chan acquire_guard
  p ← gets (λ j. j.c.sys.proc)
  r ← gets (λ k. k.locked && (k.pid == caller_id k))
  on_chan release_guard
  pure r
