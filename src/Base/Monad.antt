-- ===== src/Base/Monad.antt =====
-- Code that changes a state and may stop: `none` is a panic, a failed assertion or a fault.
use fos_educational_os_proje.Base.Tests.{if◌then◌else◌, Yields, yields}
use mathlib.Core.Path.{◌≡◌, refl, subst}
use mathlib.Core.Bool.{Bool, true}
use mathlib.Core.Option.{Option, none, some}

abbrev pub M : Type 0 → Type 0 → Type 0
M S A = S → Option (A × S)

module _ {S : Type 0} where
  abbrev pub pure : {A : Type 0} → A → M S A
  pure a s = some (a, s)

  abbrev pub and_then : {A B : Type 0} → Option (A × S) → (A → M S B) → Option (B × S)
  and_then none f = none
  and_then (some (a, t)) f = f a t

  infixl 5 ◌>>=◌ ◌>>◌
  abbrev pub ◌>>=◌ : {A B : Type 0} → M S A → (A → M S B) → M S B
  ◌>>=◌ m f s = and_then (m s) f

  abbrev pub ◌>>◌ : {A B : Type 0} → M S A → M S B → M S B
  ◌>>◌ m k s = and_then (m s) (λ _. k)

  -- the current state, and a change of it
  abbrev pub gets : {A : Type 0} → (S → A) → M S A
  gets f s = some (f s, s)

  abbrev pub modify : (S → S) → M S (Unit {0})
  modify f s = some (tt, f s)

  abbrev pub panic : {A : Type 0} → M S A
  panic s = none

  abbrev pub assert : Bool → M S (Unit {0})
  assert b s = if b then some (tt, s) else none

  -- A step that yields, and what follows it.
  pub bind_lem :
      {A B : Type 0} {P : A × S → Type 0} {Q : B × S → Type 0} {o : Option (A × S)} {f : A → M S B}
      → Yields P o
      → ((a : A) (s : S) → P (a, s) → Yields Q (f a s))
      → Yields Q (and_then o f)
  bind_lem (yields r p) k = k r.0 r.1 p

  pub assert-true :
      {B : Type 0} {Q : B × S → Type 0} {b : Bool} (s : S) (k : M S B)
      → b ≡ true
      → Yields Q (k s)
      → Yields Q (and_then (assert b s) (λ _. k))
  assert-true s k e y = rw e y

  pub assert-eq :
      {B : Type 0} {b : Bool} (s : S) (k : Unit {0} → M S B)
      → b ≡ true
      → and_then (assert b s) k ≡ k tt s
  assert-eq s k e = rw e refl

pub mono {ℓ} :
    {A : Type ℓ} {P Q : A → Type 0} {o : Option A} → Yields P o → ((a : A) → P a → Q a) → Yields Q o
mono (yields a p) f = yields a (f a p)

-- What yields a value is that value.
pub Yields-some {ℓ} :
    {A : Type ℓ} {P : A → Type 0} {o : Option A} → Yields P o → (a : A) × (o ≡ some a) × P a
Yields-some (yields a p) = (a, refl, p)

-- What a call that yields its result says of that result.
pub yielded {ℓ} :
    {A : Type ℓ} {P : A → Type 0} {o : Option A} {a : A} → Yields P o → o ≡ some a → P a
yielded {P = P} {a = a} y e =
    let (b, q, p) = Yields-some y in let same : b ≡ a = cc in subst P same p
