-- ===== src/Fault/Lru.antt =====
-- kern/trap/fault_handler.c, the replacement by LRU aging, and what a quantum does to the stamps.
use fos_educational_os_proje.Base.{
  ℕ, zero, suc, ◌+◌, ◌^◌, ◌≤◌, ◌<◌, ◌≡◌, refl, sym, ◌∙◌, ◌≢◌, ap, subst, false≢true, Bool, true,
  false, Option, none, some, List, [], ◌∷◌, ltb-cases, update, update-ne, get_elem?, has, Distinct,
  arith, inl, inr, ◌⊎◌, out-append,
}
use mathlib.Core.Option.{some-injective}
use fos_educational_os_proje.Fault.{
  Element, max_stamp, least_stamp, lru_victim, aged, update_ws_time_stamps,
}

none≢some {ℓ} : {A : Type ℓ} {a : A} → none ≢ some a
none≢some {A = A} h = false≢true (ap is_some h)
  where
    is_some : Option A → Bool
    is_some none = false
    is_some (some b) = true

abbrev pub AllFrom : ℕ → List Element → Type 0
AllFrom m [] = Unit
AllFrom m (e ∷ ws) = (m ≤ e.time_stamp) × AllFrom m ws

AllFrom-le : (m n : ℕ) (ws : List Element) → m ≤ n → AllFrom n ws → AllFrom m ws
AllFrom-le m n [] le h = tt
AllFrom-le m n (e ∷ ws) le h = (omega arith, AllFrom-le m n ws le h.1)

-- The loop has found the element `e` at the place `j`, below `m` and not above any other.
pub record Found (ws : List Element) (m j : ℕ) : Type 0 where
  pub e : Element
  pub at : get_elem? ws j ≡ some e
  pub below : e.time_stamp < m
  pub least : AllFrom e.time_stamp ws

least_stamp-Found :
    (ws : List Element) (i m : ℕ) (v : Option ℕ)
    → ((least_stamp ws i m v ≡ v) × AllFrom m ws)
      ⊎ ((j : ℕ) × (least_stamp ws i m v ≡ some (i + j)) × Found ws m j)
unfolding least_stamp
least_stamp-Found [] i m v = inl (refl, tt)
least_stamp-Found (e ∷ ws) i m v = elim (ltb-cases e.time_stamp m) [
  | inl (t, lt) ↦ rw t (elim (least_stamp-Found ws (i + 1) e.time_stamp (some i)) [
    | inl (r, all) ↦ inr (
      0,
      r ∙ ap some (omega arith),
      record { e = e; at = refl; below = lt; least = (omega arith, all) },
    )
    | inr (j, r, f) ↦ inr (
      suc j,
      r ∙ ap some (omega arith),
      record {
        e = f.e;
        at = f.at;
        below = omega (arith, f.below);
        least = (omega (arith, f.below), f.least);
      },
    )
  ])
  | inr (t, le) ↦ rw t (elim (least_stamp-Found ws (i + 1) m v) [
    | inl (r, all) ↦ inl (r, (le, all))
    | inr (j, r, f) ↦ inr (
      suc j,
      r ∙ ap some (omega arith),
      record { e = f.e; at = f.at; below = f.below; least = (omega (arith, f.below), f.least) },
    )
  ])
]

-- lru_victim of any working set: either each stamp is at least 0xFFFFFFFF and there is no victim,
-- so the code panics, or the victim is an element with a smaller stamp, and no stamp of the set is
-- below it.
pub lru_victim-Found :
    (ws : List Element)
    → ((lru_victim ws ≡ none) × AllFrom max_stamp ws)
      ⊎ ((j : ℕ) × (lru_victim ws ≡ some j) × Found ws max_stamp j)
unfolding lru_victim
lru_victim-Found ws = elim (least_stamp-Found ws 0 max_stamp none) [
  | inl h ↦ inl h
  | inr (j, r, f) ↦ inr (j, r ∙ ap some (omega arith), f)
]

abbrev pub all_pages : List Element → List ℕ
all_pages [] = []
all_pages (e ∷ ws) = e.virtual_address ∷ all_pages ws

-- The aging of each element by the used bits that the page table had at the start.
abbrev pub age_all : (ℕ → Bool) → List Element → List Element
age_all used [] = []
age_all used (e ∷ ws) =
    record e { time_stamp = aged (used e.virtual_address) e.time_stamp } ∷ age_all used ws

ne_of_head : (a b : ℕ) → has a (b ∷ []) ≡ false → a ≢ b
ne_of_head a b out = ground arith

age_all-update :
    (used : ℕ → Bool) (a : ℕ) (ws : List Element)
    → has a (all_pages ws) ≡ false
    → age_all (update used a false) ws ≡ age_all used ws
age_all-update used a [] out = refl
age_all-update used a (e ∷ ws) out =
    let o = out-append a (e.virtual_address ∷ []) (all_pages ws) out in
    rw
      (
        update-ne used a false e.virtual_address (λ q. ne_of_head a e.virtual_address o.0 (sym q)),
        age_all-update used a ws o.1,
      )
      refl

update_ws-age_all :
    (ws : List Element) (used : ℕ → Bool)
    → Distinct (all_pages ws)
    → update_ws_time_stamps ws used ≡ age_all used ws
unfolding update_ws_time_stamps
update_ws-age_all [] used d = refl
update_ws-age_all (e ∷ ws) used d =
    ap (λ r. record e { time_stamp = aged (used e.virtual_address) e.time_stamp } ∷ r)
      (update_ws-age_all ws (update used e.virtual_address false) d.1
        ∙ age_all-update used e.virtual_address ws d.0)

AllFrom-age :
    (used : ℕ → Bool) (m k : ℕ) (ws : List Element) (o : Element)
    → AllFrom m (age_all used ws)
    → get_elem? ws k ≡ some o
    → m ≤ aged (used o.virtual_address) o.time_stamp
AllFrom-age used m k [] o all h = absurd (none≢some h)
AllFrom-age used m zero (e ∷ ws) o all h =
    subst (λ z. m ≤ aged (used z.virtual_address) z.time_stamp) (some-injective _ _ h) all.0
AllFrom-age used m (suc k) (e ∷ ws) o all h = AllFrom-age used m k ws o all.1 h

get-age :
    (used : ℕ → Bool) (j : ℕ) (ws : List Element) (e : Element)
    → get_elem? (age_all used ws) j ≡ some e
    → (o : Element) × (get_elem? ws j ≡ some o)
      × (aged (used o.virtual_address) o.time_stamp ≡ e.time_stamp)
get-age used j [] e h = absurd (none≢some h)
get-age used zero (o ∷ ws) e h = (o, refl, ap (λ z. z.time_stamp) (some-injective _ _ h))
get-age used (suc j) (o ∷ ws) e h = get-age used j ws e h

-- In a working set of distinct pages, where the page of the element `o`, whose stamp has 32 bits,
-- was not used since the last aging: after update_WS_time_stamps the replacement by LRU finds a
-- victim, and the victim's page was not used since the last aging either.
pub lru_victim-update :
    (ws : List Element) (used : ℕ → Bool) (k : ℕ) (o : Element)
    → Distinct (all_pages ws)
    → get_elem? ws k ≡ some o
    → o.time_stamp < 2 ^ 32
    → used o.virtual_address ≡ false
    → (j : ℕ) × (v : Element) × (lru_victim (update_ws_time_stamps ws used) ≡ some j)
      × (get_elem? ws j ≡ some v)
      × (used v.virtual_address ≡ false)
unfolding aged
lru_victim-update ws used k o d at bound idle =
    rw (update_ws-age_all ws used d) (elim (lru_victim-Found (age_all used ws)) [
      | inl (r, all) ↦ absurd (omega (arith, low, AllFrom-age used max_stamp k ws o all at))
      | inr (j, r, f) ↦
          let (v, got, stamp) = get-age used j ws f.e f.at in
          (
            j,
            v,
            r,
            got,
            aged-used (used v.virtual_address) v.time_stamp
                (omega (arith, low, stamp, AllFrom-age used f.e.time_stamp k ws o f.least at)),
          )
    ])
  where
    low : aged (used o.virtual_address) o.time_stamp < 2 ^ 31
    low = rw idle (omega arith)

    aged-used : (u : Bool) (t : ℕ) → aged u t < 2 ^ 31 → u ≡ false
    aged-used true t lt = absurd (omega arith)
    aged-used false t lt = refl
