-- ===== src/Conc/Roused.antt =====
-- kern/conc/sleeplock.c: which places a call of release_sleeplock leaves of the sleepers.
use fos_educational_os_proje.Base.{
  ◌≡◌, refl, ◌<◌, Bool, true, false, ◌&&◌, List, [], ◌∷◌, if◌then◌else◌, false≢true, has, count, ap,
  arith,
}
use fos_educational_os_proje.Sched.{Ptr, Sched}
use fos_educational_os_proje.Conc.Interleaved.{
  Place, outside, asleep, woken, inside, is_inside, is_asleep, in_ready_queue, roused,
}

-- A process that stands in a list counts in it.
pub counted : (x : Ptr) (q : List Ptr) → has x q ≡ true → 0 < count x q
counted x [] h = absurd (false≢true h)
counted x (y ∷ q) h = ground (arith, counted x q)

pub roused-inside :
    (sys : Sched) (f : Ptr → Place) (x : Ptr) → is_inside (roused sys f x) ≡ is_inside (f x)
roused-inside sys f x = at (f x) (in_ready_queue x sys)
  where
    at : (a : Place) (b : Bool) → is_inside (if is_asleep a && b then woken else a) ≡ is_inside a
    at asleep true = refl
    at asleep false = refl
    at outside b = refl
    at woken b = refl
    at inside b = refl

-- One that sleeps on was asleep, and the call left it in no ready queue.
pub roused-asleep :
    (sys : Sched) (f : Ptr → Place) (x : Ptr)
    → roused sys f x ≡ asleep
    → (f x ≡ asleep) × (in_ready_queue x sys ≡ false)
roused-asleep sys f x = at (f x) (in_ready_queue x sys)
  where
    at :
        (a : Place) (b : Bool)
        → (if is_asleep a && b then woken else a) ≡ asleep
        → (a ≡ asleep) × (b ≡ false)
    at asleep true e = absurd (false≢true (ap is_asleep e))
    at asleep false e = (refl, refl)
    at outside b e = absurd (false≢true (ap is_asleep e))
    at woken b e = absurd (false≢true (ap is_asleep e))
    at inside b e = absurd (false≢true (ap is_asleep e))
