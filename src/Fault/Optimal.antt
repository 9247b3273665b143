-- ===== src/Fault/Optimal.antt =====
-- kern/trap/fault_handler.c, get_optimal_num_faults: the page whose next reference is farthest.
use fos_educational_os_proje.Base.{
  ℕ, suc, ◌+◌, ◌≤◌, ◌<◌, ◌≡◌, refl, sym, ◌∙◌, subst, true, false, some, List, [], ◌∷◌, ◌==◌, ltb,
  ltb-cases, if◌then◌else◌, length, get_elem?, arith, Bool-cases, inl, inr, ◌⊎◌, ==_iff,
}
use fos_educational_os_proje.Fault.{int_max, next_distance, farthest}

next_distance-le :
    (page : ℕ) (refs : List ℕ) (d : ℕ)
    → d + length refs ≤ int_max
    → next_distance page refs d ≤ int_max
unfolding next_distance
next_distance-le page [] d le = omega arith
next_distance-le page (r ∷ refs) d le = elim (Bool-cases (r == page)) [
  | inl t ↦ rw t (omega arith)
  | inr f ↦ rw f (next_distance-le page refs (d + 1) (omega arith))
]

-- No page of the list is next referenced after the distance `d`.
abbrev pub NoFarther : List ℕ → ℕ → List ℕ → Type 0
NoFarther refs d [] = Unit
NoFarther refs d (p ∷ ws) = (next_distance p refs 0 ≤ d) × NoFarther refs d ws

all_near : (refs ws : List ℕ) → length refs ≤ int_max → NoFarther refs int_max ws
all_near refs [] le = tt
all_near refs (p ∷ ws) le = (next_distance-le p refs 0 (omega arith), all_near refs ws le)

all_near_of :
    (refs ws : List ℕ) (d : ℕ) → length refs ≤ int_max → (d == int_max) ≡ true → NoFarther refs d ws
all_near_of refs ws d le far =
    subst (λ k. NoFarther refs k ws) (sym ((==_iff d int_max).0 far)) (all_near refs ws le)

-- The page at the place `j` is past `best`, and no page of the list is farther.
pub record Farthest (refs ws : List ℕ) (best j : ℕ) : Type 0 where
  pub page : ℕ
  pub at : get_elem? ws j ≡ some page
  pub past : best < next_distance page refs 0
  pub none_farther : NoFarther refs (next_distance page refs 0) ws

farthest-nil : (refs : List ℕ) (i best v : ℕ) → farthest refs [] i best v ≡ v
unfolding farthest
farthest-nil refs i best v = refl

farthest-closer :
    (refs ws : List ℕ) (p i best v : ℕ)
    → ltb best (next_distance p refs 0) ≡ true
    → farthest refs (p ∷ ws) i best v ≡ (
        if next_distance p refs 0 == int_max
        then i
        else farthest refs ws (i + 1) (next_distance p refs 0) i)
unfolding farthest
farthest-closer refs ws p i best v t = rw t refl

farthest-keep :
    (refs ws : List ℕ) (p i best v : ℕ)
    → ltb best (next_distance p refs 0) ≡ false
    → farthest refs (p ∷ ws) i best v
      ≡ (if best == int_max then v else farthest refs ws (i + 1) best v)
unfolding farthest
farthest-keep refs ws p i best v t = rw t refl

farthest-Farthest :
    (refs ws : List ℕ) (i best v : ℕ)
    → length refs ≤ int_max
    → ((farthest refs ws i best v ≡ v) × NoFarther refs best ws)
      ⊎ ((j : ℕ) × (farthest refs ws i best v ≡ i + j) × Farthest refs ws best j)
farthest-Farthest refs [] i best v le = inl (farthest-nil refs i best v, tt)
farthest-Farthest refs (p ∷ ws) i best v le = elim (ltb-cases best (next_distance p refs 0)) [
  | inl (t, lt) ↦
      rw (farthest-closer refs ws p i best v t)
        (elim (Bool-cases (next_distance p refs 0 == int_max)) [
          | inl far ↦ rw far (
              inr (
                0,
                omega arith,
                record {
                  page = p;
                  at = refl;
                  past = lt;
                  none_farther = (omega arith, all_near_of refs ws _ le far);
                },
              ))
          | inr near ↦
              rw near (elim (farthest-Farthest refs ws (i + 1) (next_distance p refs 0) i le) [
                | inl (r, all) ↦ inr (
                  0,
                  r ∙ omega arith,
                  record { page = p; at = refl; past = lt; none_farther = (omega arith, all) },
                )
                | inr (j, r, f) ↦ inr (
                  suc j,
                  r ∙ omega arith,
                  record {
                    page = f.page;
                    at = f.at;
                    past = omega (arith, f.past);
                    none_farther = (omega (arith, f.past), f.none_farther);
                  },
                )
              ])
        ])
  | inr (t, ge) ↦ rw (farthest-keep refs ws p i best v t) (elim (Bool-cases (best == int_max)) [
    | inl far ↦ rw far (inl (refl, (ge, all_near_of refs ws best le far)))
    | inr near ↦ rw near (elim (farthest-Farthest refs ws (i + 1) best v le) [
      | inl (r, all) ↦ inl (r, (ge, all))
      | inr (j, r, f) ↦ inr (
        suc j,
        r ∙ omega arith,
        record {
          page = f.page;
          at = f.at;
          past = f.past;
          none_farther = (omega (arith, f.past), f.none_farther);
        },
      )
    ])
  ])
]

next_distance-pos : (page : ℕ) (refs : List ℕ) (d : ℕ) → 0 < next_distance page refs d
unfolding next_distance
next_distance-pos page [] d = omega arith
next_distance-pos page (r ∷ refs) d = elim (Bool-cases (r == page)) [
  | inl t ↦ rw t (omega arith)
  | inr f ↦ rw f (next_distance-pos page refs (d + 1))
]

-- The victim of the optimal replacement, in a working set that is not empty, with at most as many
-- references left as the largest int: a page of the set such that no page of the set has its next
-- reference later than it, a page without one counting as the farthest.
pub farthest_victim-Farthest :
    (refs ws : List ℕ) (p : ℕ)
    → length refs ≤ int_max
    → Farthest refs (p ∷ ws) 0 (farthest refs (p ∷ ws) 0 0 0)
farthest_victim-Farthest refs ws p le = elim (farthest-Farthest refs (p ∷ ws) 0 0 0 le) [
  | inl (r, all) ↦ absurd (omega (arith, all.0, next_distance-pos p refs 0))
  | inr (j, r, f) ↦ subst (Farthest refs (p ∷ ws) 0) (omega (arith, r)) f
]
