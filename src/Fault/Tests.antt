-- ===== src/Fault/Tests.antt =====
-- Working sets of two and three pages.
use fos_educational_os_proje.Base.{
  ℕ, ◌≡◌, ◌==◌, ◌⊎◌, refl, List, [], ◌∷◌, none, some, Bool, false, arith, get_elem?, length, ◌+◌,
  Yields,
}
use fos_educational_os_proje.Fault.{
  Element, max_stamp, lru_victim, update_ws_time_stamps, next_distance, farthest, faults_of,
  load_page, pages_of, copy_ws, get_optimal_num_faults,
}
use fos_educational_os_proje.Fault.Clock.{clock_victim, SecondChance, clock_victim-SecondChance}
use fos_educational_os_proje.Fault.Lru.{AllFrom, Found, lru_victim-Found, lru_victim-update}
use fos_educational_os_proje.Fault.Optimal.{Farthest, farthest_victim-Farthest}

abbrev elements : List Element
elements =
    record { virtual_address = 0; time_stamp = 9 }
    ∷ record { virtual_address = 4096; time_stamp = 5 }
    ∷ record { virtual_address = 8192; time_stamp = 2 }
    ∷ []

abbrev used_page : ℕ → Bool
used_page a = a == 8192

-- Two places, both pages of the set are used again.
optimal_run : get_optimal_num_faults elements 2 (4100 ∷ 8200 ∷ 4096 ∷ 12 ∷ []) ≡ 2
unfolding get_optimal_num_faults faults_of load_page pages_of copy_ws farthest next_distance
optimal_run = refl

lru_victim-Found_example :
    ((lru_victim elements ≡ none) × AllFrom max_stamp elements)
    ⊎ ((j : ℕ) × (lru_victim elements ≡ some j) × Found elements max_stamp j)
lru_victim-Found_example = lru_victim-Found elements

lru_victim-update_example :
    (j : ℕ) × (v : Element) × (lru_victim (update_ws_time_stamps elements used_page) ≡ some j)
    × (get_elem? elements j ≡ some v)
    × (used_page v.virtual_address ≡ false)
lru_victim-update_example =
    lru_victim-update elements used_page 0 (record { virtual_address = 0; time_stamp = 9 })
      (refl, (refl, (refl, tt))) refl (omega arith) refl

farthest_victim-Farthest_example :
    Farthest (3 ∷ 2 ∷ 1 ∷ []) (1 ∷ 2 ∷ []) 0 (farthest (3 ∷ 2 ∷ 1 ∷ []) (1 ∷ 2 ∷ []) 0 0 0)
farthest_victim-Farthest_example =
    farthest_victim-Farthest (3 ∷ 2 ∷ 1 ∷ []) (2 ∷ []) 1 (omega arith)

abbrev pages : List ℕ
pages = 0 ∷ 8192 ∷ 4096 ∷ []

-- The hand stands at a page that was used; the next one was not.
clock_victim-SecondChance_example :
    Yields
      (SecondChance (length pages) pages 1 used_page)
      (clock_victim (length pages + 1) pages 1 used_page)
clock_victim-SecondChance_example = clock_victim-SecondChance pages 1 used_page (omega arith)
