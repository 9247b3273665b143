-- ===== src/Spin/Tests.antt =====
-- Calls of pushcli and popcli, nested, with interrupts on.
use fos_educational_os_proje.Base.{◌≡◌, ◌≢◌, refl, true, false, [], ◌∷◌, Yields}
use fos_educational_os_proje.Spin.{Cpu}
use fos_educational_os_proje.Spin.Balance.{push, pop, run, run-matched}

abbrev idle : Cpu
idle = record { ncli = 0; intena = false; interrupts = true; self = 9 }

run-matched_example :
    Yields
      (λ r. (r.1.ncli ≡ 0) × (r.1.interrupts ≡ true) × (idle.ncli ≢ 0 → r.1.intena ≡ false))
      (run (push ∷ push ∷ pop ∷ push ∷ pop ∷ pop ∷ []) idle)
run-matched_example =
    run-matched (push ∷ push ∷ pop ∷ push ∷ pop ∷ pop ∷ []) idle refl (λ n. absurd (n refl))
