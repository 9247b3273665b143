-- ===== src/Str/Digits.antt =====
-- lib/string.c: strtol reads back what ltostr wrote.
use fos_educational_os_proje.Base.{
  ℕ, zero, suc, ◌+◌, ◌-◌, ◌*◌, ◌/◌, ◌%◌, ◌^◌, ◌≤◌, ◌<◌, ◌≡◌, refl, sym, ◌∙◌, ap, subst, Bool, true,
  false, some, List, [], ◌∷◌, ◌++◌, ◌==◌, leb, arith, Bool-cases, inl, inr, ==_iff, ==-ne, lt→ltb,
  Yields, yields, ltb-cases,
}
use fos_educational_os_proje.Base.Int.{ℤ, pos, negsuc}
use mathlib.Core.List.{reverse, reverse-cons}
use fos_educational_os_proje.Str.{
  skip_blanks, take_sign, take_base, digit, digits, to_long, negated, strtol, last_digits, decimal,
  ltostr,
}

-- Each byte is one of '0' to '9'.
abbrev pub AllDigits : List ℕ → Type 0
AllDigits [] = Unit
AllDigits (c ∷ s) = (48 ≤ c) × (c ≤ 57) × AllDigits s

AllDigits-append : (s t : List ℕ) → AllDigits s → AllDigits t → AllDigits (s ++ t)
AllDigits-append [] t hs ht = ht
AllDigits-append (c ∷ s) t hs ht = (hs.0, hs.1, AllDigits-append s t hs.2 ht)

AllDigits-reverse : (s : List ℕ) → AllDigits s → AllDigits (reverse s)
AllDigits-reverse [] h = tt
AllDigits-reverse (c ∷ s) h =
    subst AllDigits (sym (reverse-cons c s))
      (AllDigits-append (reverse s) (c ∷ []) (AllDigits-reverse s h.2) (h.0, h.1, tt))

last_digits-AllDigits : (n v : ℕ) → AllDigits (last_digits n v)
unfolding last_digits
last_digits-AllDigits zero v = tt
last_digits-AllDigits (suc n) v = elim (Bool-cases (v / 10 == 0)) [
  | inl t ↦ rw t (omega arith, omega arith, tt)
  | inr f ↦ rw f (omega arith, omega arith, last_digits-AllDigits n (v / 10))
]

-- The value that the digits add up to, as the loop of strtol counts it.
abbrev value : List ℕ → ℕ → ℕ
value [] v = v
value (c ∷ s) v = value s ((v * 10 + (c - 48)) % 2 ^ 32)

value-append : (s t : List ℕ) (v : ℕ) → value (s ++ t) v ≡ value t (value s v)
value-append [] t v = refl
value-append (c ∷ s) t v = value-append s t _

digit-decimal : (c : ℕ) → 48 ≤ c → c ≤ 57 → digit c ≡ some (c - 48)
unfolding digit
digit-decimal c lo hi = ground arith

digits-value : (s : List ℕ) (v : ℕ) → AllDigits s → digits 10 s v ≡ (value s v, [])
unfolding digits
digits-value [] v h = refl
digits-value (c ∷ s) v h = rw (digit-decimal c h.0 h.1) (rw (small c h.1) (digits-value s _ h.2))
  where
    small : (c : ℕ) → c ≤ 57 → leb 10 (c - 48) ≡ false
    small c le = ground arith

last_digits-value : (n v : ℕ) → v < n → v < 2 ^ 32 → value (reverse (last_digits n v)) 0 ≡ v
unfolding last_digits
last_digits-value zero v lt fit = absurd (omega arith)
last_digits-value (suc n) v lt fit = elim (Bool-cases (v / 10 == 0)) [
  | inl t ↦ rw t (omega (arith, (==_iff (v / 10) 0).0 t))
  | inr f ↦ rw f (
      rw (reverse-cons (v % 10 + 48) (last_digits n (v / 10))) (
        value-append (reverse (last_digits n (v / 10))) _ 0
        ∙ ap (value ((v % 10 + 48) ∷ [])) (last_digits-value n (v / 10) (less f) (omega arith))
        ∙ omega arith))
]
  where
    less : (v / 10 == 0) ≡ false → v / 10 < n
    less f = ground arith

skip_blanks-digits : (s : List ℕ) → AllDigits s → skip_blanks s ≡ s
unfolding skip_blanks
skip_blanks-digits [] h = refl
skip_blanks-digits (c ∷ s) h =
    rw (==-ne c 32 (omega (arith, h.0)), ==-ne c 9 (omega (arith, h.0))) refl

take_sign-digits : (s : List ℕ) → AllDigits s → take_sign s ≡ (false, s)
unfolding take_sign
take_sign-digits [] h = refl
take_sign-digits (c ∷ s) h =
    rw (==-ne c 43 (omega (arith, h.0)), ==-ne c 45 (omega (arith, h.0))) refl

take_base-ten : (s : List ℕ) → take_base s 10 ≡ (10, s)
unfolding take_base
take_base-ten s = refl

-- What strtol reads behind the blanks and the sign.
strtol-digits :
    (s t : List ℕ) (neg : Bool)
    → AllDigits t
    → take_sign (skip_blanks s) ≡ (neg, t)
    → strtol s 10 ≡ (to_long (negated neg (value t 0)), [])
unfolding strtol
strtol-digits s t neg h e = rw e (rw (take_base-ten t) (rw (digits-value t 0 h) refl))

decimal-AllDigits : (n : ℕ) → AllDigits (decimal n)
unfolding decimal
decimal-AllDigits n = AllDigits-reverse _ (last_digits-AllDigits (n + 1) n)

decimal-value : (n : ℕ) → n < 2 ^ 32 → value (decimal n) 0 ≡ n
unfolding decimal
decimal-value n fit = last_digits-value (n + 1) n (omega arith) fit

signed : (s : List ℕ) → take_sign (skip_blanks (45 ∷ s)) ≡ (true, s)
unfolding take_sign skip_blanks
signed s = refl

-- A long other than -2 ^ 31.
abbrev pub IsLong : ℤ → Type 0
IsLong (pos n) = n < 2 ^ 31
IsLong (negsuc n) = n < 2 ^ 31 - 1

long_pos : (n : ℕ) → n < 2 ^ 31 → to_long (negated false n) ≡ pos n
long_pos n lt = rw (lt→ltb n (2 ^ 31) lt) refl

long_neg : (n : ℕ) → n < 2 ^ 31 - 1 → to_long (negated true (n + 1)) ≡ negsuc n
long_neg n lt = elim (ltb-cases ((2 ^ 32 - (n + 1)) % 2 ^ 32) (2 ^ 31)) [
  | inl (t, small) ↦ absurd (omega arith)
  | inr (t, ge) ↦ rw t (ap negsuc (omega arith))
]

-- ltostr writes each long but -2 ^ 31, and strtol at base 10 reads that long back from what it
-- wrote, to the end of the string.
pub strtol-ltostr : (z : ℤ) → IsLong z → Yields (λ s. strtol s 10 ≡ (z, [])) (ltostr z)
unfolding ltostr
strtol-ltostr (pos n) fit = yields (decimal n) (
    strtol-digits (decimal n) (decimal n) false (decimal-AllDigits n) (
      ap take_sign (skip_blanks-digits (decimal n) (decimal-AllDigits n))
      ∙ take_sign-digits (decimal n) (decimal-AllDigits n))
    ∙ ap (λ v. (to_long (negated false v), [])) (decimal-value n (omega arith))
    ∙ ap (λ z. (z, [])) (long_pos n fit))
strtol-ltostr (negsuc n) fit = rw (==-ne n (2 ^ 31 - 1) (omega arith)) (
    yields (45 ∷ decimal (n + 1)) (
      strtol-digits (45 ∷ decimal (n + 1)) (decimal (n + 1)) true (decimal-AllDigits (n + 1))
        (signed _)
      ∙ ap (λ v. (to_long (negated true v), [])) (decimal-value (n + 1) (omega arith))
      ∙ ap (λ z. (z, [])) (long_neg n fit)))
