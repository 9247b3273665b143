-- ===== src/UHeap/Scan.antt =====
-- lib/uheap.c: the break that free leaves.
use fos_educational_os_proje.Base.{
  ℕ, zero, suc, ◌+◌, ◌*◌, ◌≤◌, ◌<◌, ◌≡◌, refl, sym, subst, ◌∙◌, ◌⊎◌, inl, inr, ◌==◌, ==_iff, ◌≢◌,
  false≢true, arith, Bool-cases,
}
use fos_educational_os_proje.KHeap.{page_size, add32}
use fos_educational_os_proje.UHeap.{scan_break, user_heap_start}

-- No region starts at the pages from `i` to `n`.
abbrev pub NoneFrom : (sizes : ℕ → ℕ) → (i n : ℕ) → Type 0
NoneFrom sizes i n = (j : ℕ) → i ≤ j → j < n → sizes j ≡ 0

-- The scan of free over the pages below `n`: either no region starts at one of them and the break
-- becomes the value it began with; or the break becomes the end of the region that starts at the
-- last page below `n` where one starts.
pub scan_break-last :
    (n : ℕ) (sizes : ℕ → ℕ) (new_brk : ℕ)
    → (NoneFrom sizes 0 n × (scan_break n sizes new_brk ≡ new_brk))
      ⊎ ((i : ℕ) × (i < n)
          × (sizes i ≢ 0)
          × NoneFrom sizes (i + 1) n
          × (scan_break n sizes new_brk ≡ add32 (user_heap_start + i * page_size) (sizes i)))
unfolding scan_break
scan_break-last zero sizes new_brk = inl (λ j l m. absurd (no j m), refl)
  where
    no : (j : ℕ) → j < 0 → ⊥
    no j m = omega arith
scan_break-last (suc n) sizes new_brk = elim (Bool-cases (sizes n == 0)) [
  | inl z ↦ elim (scan_break-last n sizes new_brk) [
    | inl (none_there, e) ↦ inl (more 0 none_there ((==_iff (sizes n) 0).0 z), rw z e)
    | inr (i, l, ne, none_there, e) ↦
        inr (i, omega arith, ne, more (i + 1) none_there ((==_iff (sizes n) 0).0 z), rw z e)
  ]
  | inr f ↦ inr (
    n,
    omega arith,
    (λ q. false≢true (sym f ∙ (==_iff (sizes n) 0).1 q)),
    (λ j l m. absurd (between j l m)),
    rw f refl,
  )
]
  where
    between : (j : ℕ) → n + 1 ≤ j → j < suc n → ⊥
    between j l m = omega arith

    more : (i : ℕ) → NoneFrom sizes i n → sizes n ≡ 0 → NoneFrom sizes i (suc n)
    more i below z j l m = elim (Bool-cases (j == n)) [
      | inl t ↦ subst (λ k. sizes k ≡ 0) (sym ((==_iff j n).0 t)) z
      | inr o ↦ below j l (less j (λ q. false≢true (sym o ∙ (==_iff j n).1 q)) m)
    ]
      where
        less : (j : ℕ) → j ≢ n → j < suc n → j < n
        less j ne m = omega arith
