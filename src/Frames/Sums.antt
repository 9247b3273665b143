-- ===== src/Frames/Sums.antt =====
-- kern/mem/memory_manager.c: how many entries of page tables name a frame.
use fos_educational_os_proje.Base.{
  ℕ, ◌+◌, ◌≤◌, ◌≡◌, refl, sym, subst, ◌∙◌, ◌≢◌, true, false, ◌&&◌, List, [], ◌∷◌, ◌==◌,
  if◌then◌else◌, update, update_self, update-ne, has, Distinct, arith, Bool-cases, inl, inr, ==_iff,
  ==-ne, false≢true,
}
use fos_educational_os_proje.Frames.{Entry, is_held}

-- 1 when the entry stands for the frame, else 0.
unfoldable pub uses : Entry → ℕ → ℕ
uses e f = if is_held e && (e.frame == f) then 1 else 0

abbrev pub users : (ℕ → Entry) → ℕ → List ℕ → ℕ
users e f [] = 0
users e f (x ∷ xs) = uses (e x) f + users e f xs

pub uses-held : (e : Entry) (f : ℕ) → is_held e ≡ true → e.frame ≡ f → uses e f ≡ 1
unfolding uses
uses-held e f h q = rw (h, (==_iff e.frame f).1 q) refl

pub uses-other : (e : Entry) (f : ℕ) → f ≢ e.frame → uses e f ≡ 0
unfolding uses
uses-other e f ne = elim (Bool-cases (is_held e)) [
  | inl t ↦ rw (t, ==-ne e.frame f (λ q. ne (sym q))) refl
  | inr n ↦ rw n refl
]

pub uses-empty : (e : Entry) (f : ℕ) → is_held e ≡ false → uses e f ≡ 0
unfolding uses
uses-empty e f n = rw n refl

pub users-out :
    (e : ℕ → Entry) (x : ℕ) (v : Entry) (f : ℕ) (xs : List ℕ)
    → has x xs ≡ false
    → users (update e x v) f xs ≡ users e f xs
users-out e x v f [] o = refl
users-out e x v f (y ∷ ys) o =
    rw (update-ne e x v y (head_ne o), users-out e x v f ys (tail_out o)) refl
  where
    head_ne : has x (y ∷ ys) ≡ false → y ≢ x
    head_ne o q = false≢true (sym o ∙ first ((==_iff x y).1 (sym q)))
      where
        first : (x == y) ≡ true → has x (y ∷ ys) ≡ true
        first t = rw t refl

    tail_out : has x (y ∷ ys) ≡ false → has x ys ≡ false
    tail_out o = ground arith

-- Changing the entry of a listed slot changes the number of users by the entry's part.
pub users-in :
    (e : ℕ → Entry) (x : ℕ) (v : Entry) (f : ℕ) (xs : List ℕ)
    → Distinct xs
    → has x xs ≡ true
    → users (update e x v) f xs + uses (e x) f ≡ users e f xs + uses v f
users-in e x v f [] d h = absurd (false≢true h)
users-in e x v f (y ∷ ys) (out, d) h = elim (Bool-cases (x == y)) [
  | inl t ↦
      let q = (==_iff x y).0 t in
      subst
        (λ k.
          (uses (update e x v k) f + users (update e x v) f ys) + uses (e x) f
          ≡ (uses (e k) f + users e f ys) + uses v f)
        q
        (rw (update_self e x v, users-out e x v f ys (subst (λ k. has k ys ≡ false) (sym q) out))
          (omega arith))
  | inr n ↦
      let rest = users-in e x v f ys d (later n h) in
      rw (update-ne e x v y (λ q. false≢true (sym n ∙ (==_iff x y).1 (sym q)))) (omega arith)
]
  where
    later : (x == y) ≡ false → has x (y ∷ ys) ≡ true → has x ys ≡ true
    later n h = ground arith

-- A listed slot whose entry stands for the frame is one of its users.
pub users-listed :
    (e : ℕ → Entry) (x f : ℕ) (xs : List ℕ) → has x xs ≡ true → uses (e x) f ≤ users e f xs
users-listed e x f [] h = absurd (false≢true h)
users-listed e x f (y ∷ ys) h = elim (Bool-cases (x == y)) [
  | inl t ↦ subst (λ k. uses (e x) f ≤ uses (e k) f + users e f ys) ((==_iff x y).0 t) (omega arith)
  | inr n ↦ let rest = users-listed e x f ys (later n h) in omega arith
]
  where
    later : (x == y) ≡ false → has x (y ∷ ys) ≡ true → has x ys ≡ true
    later n h = ground arith

-- A change of entries that none stands for is not seen.
pub users-same :
    (e e' : ℕ → Entry) (f : ℕ) (xs : List ℕ)
    → ((x : ℕ) → uses (e' x) f ≡ uses (e x) f)
    → users e' f xs ≡ users e f xs
users-same e e' f [] same = refl
users-same e e' f (x ∷ xs) same = rw (same x, users-same e e' f xs same) refl
