-- ===== src/Str/Compare.antt =====
-- lib/string.c: strcmp tells strings apart.
use fos_educational_os_proje.Base.{
  ℕ, ◌≡◌, refl, ◌≢◌, ap, List, [], ◌∷◌, ◌==◌, arith, Bool-cases, inl, inr, ==_iff, ==-ne, leb-cases,
  false≢true, sym, ◌∙◌, subst,
}
use mathlib.Core.Logic.{◌↔◌}
use fos_educational_os_proje.Base.Int.{pos, pos_part, is_neg}
use fos_educational_os_proje.Str.{diff, strcmp}

-- No byte is the null that ends a string.
abbrev pub IsString : List ℕ → Type 0
IsString [] = Unit
IsString (c ∷ s) = (c ≢ 0) × IsString s

diff-zero : (a b : ℕ) → diff a b ≡ pos 0 → a ≡ b
diff-zero a b h = elim (leb-cases b a) [
  | inl (t, le) ↦ omega (arith, ap pos_part (rw t at h))
  | inr (t, lt) ↦ absurd (false≢true (sym (ap is_neg (rw t at h))))
]

diff_self : (a : ℕ) → diff a a ≡ pos 0
diff_self a = elim (leb-cases a a) [
  | inl (t, le) ↦ rw t (ap pos (omega arith))
  | inr (t, lt) ↦ absurd (omega arith)
]

pub strcmp_self : (p : List ℕ) → strcmp p p ≡ pos 0
unfolding strcmp
strcmp_self [] = diff_self 0
strcmp_self (c ∷ p) = rw ((==_iff c c).1 refl) (strcmp_self p)

strcmp-equal : (p q : List ℕ) → IsString p → IsString q → strcmp p q ≡ pos 0 → p ≡ q
unfolding strcmp
strcmp-equal [] [] sp sq h = refl
strcmp-equal [] (d ∷ q) sp sq h = absurd (sq.0 (sym (diff-zero 0 d h)))
strcmp-equal (c ∷ p) [] sp sq h = absurd (sp.0 (diff-zero c 0 (rw (==-ne c 0 sp.0) at h)))
strcmp-equal (c ∷ p) (d ∷ q) sp sq h = elim (Bool-cases (c == d)) [
  | inl t ↦
      let e : c ≡ d = (==_iff c d).0 t in
      let r : p ≡ q = strcmp-equal p q sp.1 sq.1 (rw t at h) in cc
  | inr f ↦
      let e : c ≡ d = diff-zero c d (rw f at h) in absurd (false≢true (sym f ∙ (==_iff c d).1 e))
]

-- strcmp of two strings without a null byte is 0 where the strings are equal, and only there.
pub strcmp_iff : (p q : List ℕ) → IsString p → IsString q → (strcmp p q ≡ pos 0) ↔ (p ≡ q)
strcmp_iff p q sp sq =
    (strcmp-equal p q sp sq, λ e. subst (λ r. strcmp p r ≡ pos 0) e (strcmp_self p))
