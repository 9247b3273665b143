-- ===== src/Spin.antt =====
-- kern/cpu/cpu.c: pushcli and popcli, and kern/conc/kspinlock.c: spin locks, on one CPU. `interrupts` is the flag
-- FL_IF. The call stack that a lock records is not state here.
mod Balance
mod Tests
use fos_educational_os_proje.Base.{
  ℕ, ◌+◌, ◌-◌, Bool, true, false, not, ◌&&◌, Option, none, some, List, [], ◌∷◌, ◌==◌, if◌then◌else◌,
}
use fos_educational_os_proje.Base.Monad.{M, pure, ◌>>=◌, ◌>>◌, gets, modify, assert, panic}

abbrev pub null : ℕ
null = 0

-- struct cpu, and its address `self`.
pub record Cpu : Type 0 where
  pub ncli : ℕ
  pub intena : Bool
  pub interrupts : Bool
  pub self : ℕ

unfoldable pub pushcli : M Cpu (Unit {0})
pushcli c = some (
  tt,
  record c {
    interrupts = false;
    intena = if c.ncli == 0 then c.interrupts else c.intena;
    ncli = c.ncli + 1;
  },
)

-- A popcli with interrupts on, or without a pushcli, is a panic.
unfoldable pub popcli : M Cpu (Unit {0})
popcli c =
    if c.interrupts
    then none
    else if c.ncli == 0
    then none
    else some (tt, record c { ncli = c.ncli - 1; interrupts = (c.ncli - 1 == 0) && c.intena })

-- struct kspinlock: `cpu` is null where no CPU holds it.
pub record Kspinlock : Type 0 where
  pub locked : Bool
  pub cpu : ℕ

-- A lock, and the CPU that calls.
pub record Held : Type 0 where
  pub lock : Kspinlock
  pub here : Cpu

abbrev pub on_cpu_result : {A : Type 0} → Held → Option (A × Cpu) → Option (A × Held)
on_cpu_result h none = none
on_cpu_result h (some (a, c)) = some (a, record h { here = c })

abbrev pub on_cpu : {A : Type 0} → M Cpu A → M Held A
on_cpu m h = on_cpu_result h (m h.here)

abbrev pub init_kspinlock : Kspinlock
init_kspinlock = record { locked = false; cpu = null }

unfoldable pub holding_kspinlock : M Held Bool
holding_kspinlock = do
  on_cpu pushcli
  r ← gets (λ h. h.lock.locked && (h.lock.cpu == h.here.self))
  on_cpu popcli
  pure r

-- Up to the first exchange: true where the lock was held, and the loop goes on.
unfoldable pub acquire_kspinlock : M Held Bool
acquire_kspinlock = do
  mine ← holding_kspinlock
  assert (not mine)
  on_cpu pushcli
  was ← gets (λ h. h.lock.locked)
  if was then pure true else (do
    modify (λ h. record h { lock = record { locked = true; cpu = h.here.self } })
    pure false)

unfoldable pub release_kspinlock : M Held (Unit {0})
release_kspinlock = do
  mine ← holding_kspinlock
  assert mine
  modify (λ h. record h { lock = record { locked = false; cpu = null } })
  on_cpu popcli
