-- ===== src/Spin/Balance.antt =====
-- kern/cpu/cpu.c: calls of pushcli and popcli that match leave the interrupts as they were.
use fos_educational_os_proje.Base.{
  ℕ, zero, suc, ◌+◌, ◌-◌, ◌≡◌, refl, ◌≢◌, Bool, true, false, ◌&&◌, List, [], ◌∷◌, ◌==◌,
  if◌then◌else◌, arith, Yields, yields, ==-ne, ==_iff, Bool-cases, inl, inr, ◌⊎◌, sym, subst, ◌∙◌,
  false≢true,
}
use fos_educational_os_proje.Base.Monad.{M, pure, ◌>>◌, bind_lem, mono}
use fos_educational_os_proje.Spin.{Cpu, pushcli, popcli}

pub data Call : Type 0 where
  push pop : Call

-- The calls in order.
abbrev pub run : List Call → M Cpu (Unit {0})
run [] = pure tt
run (push ∷ cs) = pushcli >> run cs
run (pop ∷ cs) = popcli >> run cs

-- Each popcli undoes an earlier pushcli, of `d` that stand open, and at the end none stands open.
abbrev pub matched : ℕ → List Call → Bool
matched d [] = d == 0
matched d (push ∷ cs) = matched (suc d) cs
matched zero (pop ∷ cs) = false
matched (suc d) (pop ∷ cs) = matched d cs

-- `d` calls of pushcli deep, from a CPU with the count `n`, the flag `on` and the member intena `was`.
record Deep (n : ℕ) (on was : Bool) (self d : ℕ) (c : Cpu) : Type 0 where
  count : c.ncli ≡ d + n
  flag : c.interrupts ≡ (if d + n == 0 then on else false)
  saved : d + n ≢ 0 → c.intena ≡ (if n == 0 then on else was)
  same : c.self ≡ self

Deep-push :
    (n : ℕ) (on was : Bool) (self d : ℕ) (c : Cpu)
    → Deep n on was self d c
    → Yields (λ r. Deep n on was self (suc d) r.1) (pushcli c)
unfolding pushcli
Deep-push n on was self d c k = yields _ (record {
  count = omega (arith, k.count);
  flag = rw (==-ne (suc d + n) 0 (pos_sum d n)) refl;
  saved = λ z. at (Bool-cases (d + n == 0));
  same = k.same;
})
  where
    pos_sum : (d n : ℕ) → suc d + n ≢ 0
    pos_sum d n e = omega arith

    none_open : (d n : ℕ) → (d + n == 0) ≡ true → n ≡ 0
    none_open d n t = ground arith

    at :
        ((d + n == 0) ≡ true) ⊎ ((d + n == 0) ≡ false)
        → (if c.ncli == 0 then c.interrupts else c.intena) ≡ (if n == 0 then on else was)
    at (inl t) = rw (k.count, t, (==_iff n 0).1 (none_open d n t)) (k.flag ∙ rw t refl)
    at (inr f) = rw (k.count, f) (k.saved (λ z. false≢true (sym f ∙ (==_iff (d + n) 0).1 z)))

Deep-pop :
    (n : ℕ) (on was : Bool) (self d : ℕ) (c : Cpu)
    → Deep n on was self (suc d) c
    → Yields (λ r. Deep n on was self d r.1) (popcli c)
unfolding popcli
Deep-pop n on was self d c k = rw off (
    rw (k.count, ==-ne (suc d + n) 0 (pos_sum d n))
      (yields _ (record {
        count = less d n;
        flag = at (Bool-cases (d + n == 0));
        saved = λ z. k.saved (pos_sum d n);
        same = k.same;
      })))
  where
    pos_sum : (d n : ℕ) → suc d + n ≢ 0
    pos_sum d n e = omega arith

    less : (d n : ℕ) → suc d + n - 1 ≡ d + n
    less d n = omega arith

    off : c.interrupts ≡ false
    off = k.flag ∙ rw (==-ne (suc d + n) 0 (pos_sum d n)) refl

    none_open : (d n : ℕ) → (d + n == 0) ≡ true → n ≡ 0
    none_open d n t = ground arith

    at :
        ((d + n == 0) ≡ true) ⊎ ((d + n == 0) ≡ false)
        → ((suc d + n - 1 == 0) && c.intena) ≡ (if d + n == 0 then on else false)
    at (inl t) =
        rw (less d n, t) (k.saved (pos_sum d n) ∙ rw ((==_iff n 0).1 (none_open d n t)) refl)
    at (inr f) = rw (less d n, f) refl

run-Deep :
    (n : ℕ) (on was : Bool) (self : ℕ) (cs : List Call) (d : ℕ) (c : Cpu)
    → matched d cs ≡ true
    → Deep n on was self d c
    → Yields (λ r. Deep n on was self 0 r.1) (run cs c)
run-Deep n on was self [] d c m k =
    yields _ (subst (λ j. Deep n on was self j c) ((==_iff d 0).0 m) k)
run-Deep n on was self (push ∷ cs) d c m k =
    bind_lem (Deep-push n on was self d c k) λ u e j. run-Deep n on was self cs (suc d) e m j
run-Deep n on was self (pop ∷ cs) zero c m k = absurd (false≢true m)
run-Deep n on was self (pop ∷ cs) (suc d) c m k =
    bind_lem (Deep-pop n on was self d c k) λ u e j. run-Deep n on was self cs d e m j

-- A sequence of calls of pushcli and popcli in which each popcli undoes an earlier pushcli and
-- none is left, on a CPU whose interrupts are off if its count is not 0: it returns, and the count
-- and the interrupts are as before, and so is intena where the count was not 0.
pub run-matched :
    (cs : List Call) (c : Cpu)
    → matched 0 cs ≡ true
    → (c.ncli ≢ 0 → c.interrupts ≡ false)
    → Yields
        (λ r.
          (r.1.ncli ≡ c.ncli)
          × (r.1.interrupts ≡ c.interrupts)
          × (c.ncli ≢ 0 → r.1.intena ≡ c.intena))
        (run cs c)
run-matched cs c m off = mono (run-Deep c.ncli c.interrupts c.intena c.self cs 0 c m start) λ r k. (
  k.count ∙ sum c.ncli,
  k.flag ∙ sym start.flag,
  λ n. k.saved (λ z. n (sym (sum c.ncli) ∙ z)) ∙ rw (==-ne c.ncli 0 n) refl,
)
  where
    sum : (n : ℕ) → 0 + n ≡ n
    sum n = omega arith

    start : Deep c.ncli c.interrupts c.intena c.self 0 c
    start = record {
      count = sym (sum c.ncli);
      flag = rw (sum c.ncli) (elim (Bool-cases (c.ncli == 0)) [
        | inl t ↦ rw t refl
        | inr f ↦ rw f (off (λ z. false≢true (sym f ∙ (==_iff c.ncli 0).1 z)))
      ]);
      saved = λ n. sym (rw (==-ne c.ncli 0 (λ z. n (sum c.ncli ∙ z))) refl);
      same = refl;
    }
