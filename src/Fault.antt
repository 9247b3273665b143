-- ===== src/Fault.antt =====
-- The replacement of pages: kern/trap/fault_handler.c and update_WS_time_stamps of
-- kern/cpu/sched.c. The working set is the list of its elements in order, and the used bits of the
-- page table are a function of the page.
pub mod Lru
pub mod Optimal
pub mod Clock
mod Tests
use fos_educational_os_proje.Base.{
  ℕ, zero, suc, ◌+◌, ◌-◌, ◌*◌, ◌^◌, ◌/◌, Bool, true, false, Option, none, some, List, [], ◌∷◌, ◌++◌,
  ◌==◌, ltb, if◌then◌else◌, update, length, set, has,
}

-- struct WorkingSetElement
pub record Element : Type 0 where
  pub virtual_address : ℕ
  pub time_stamp : ℕ

abbrev pub max_stamp : ℕ
max_stamp = 2 ^ 32 - 1

-- The loop for the smallest time stamp; `i` is the place of the first element left, and `least` and
-- `victim` are what the loop has found.
unfoldable pub least_stamp : List Element → (i least : ℕ) → (victim : Option ℕ) → Option ℕ
least_stamp [] i least victim = victim
least_stamp (e ∷ ws) i least victim =
    if ltb e.time_stamp least
    then least_stamp ws (i + 1) e.time_stamp (some i)
    else least_stamp ws (i + 1) least victim

-- The place of the victim of the replacement by LRU aging; none is the panic.
unfoldable pub lru_victim : List Element → Option ℕ
lru_victim ws = least_stamp ws 0 max_stamp none

-- The shift to the right, and the used bit at the leftmost place, which the shift has left at 0.
unfoldable pub aged : (used : Bool) → (time_stamp : ℕ) → ℕ
aged used s = s / 2 + (if used then 2 ^ 31 else 0)

-- update_WS_time_stamps: the used bits are cleared one after the other.
unfoldable pub update_ws_time_stamps : List Element → (used : ℕ → Bool) → List Element
update_ws_time_stamps [] used = []
update_ws_time_stamps (e ∷ ws) used =
    record e { time_stamp = aged (used e.virtual_address) e.time_stamp }
    ∷ update_ws_time_stamps ws (update used e.virtual_address false)

abbrev pub int_max : ℕ
int_max = 2147483647

-- The number of references up to the next one to `page`, from `d` on; int_max for no such one.
unfoldable pub next_distance : (page : ℕ) → (refs : List ℕ) → (d : ℕ) → ℕ
next_distance page [] d = int_max
next_distance page (r ∷ refs) d = if r == page then d + 1 else next_distance page refs (d + 1)

-- The loop for the page with the farthest next reference. It stops at a page without one.
unfoldable pub farthest : (refs ws : List ℕ) → (i best victim : ℕ) → ℕ
farthest refs [] i best victim = victim
farthest refs (p ∷ ws) i best victim =
    let d = next_distance p refs 0 in
    let b = if ltb best d then d else best in
    let v = if ltb best d then i else victim in
    let rest = farthest refs ws (i + 1) b v in if b == int_max then v else rest

-- The working set after a miss: a place is left, or the victim's place is taken.
unfoldable pub load_page : (max_size page : ℕ) → (refs ws : List ℕ) → List ℕ
load_page max_size page refs ws =
    if ltb (length ws) max_size then ws ++ (page ∷ []) else set ws (farthest refs ws 0 0 0) page

-- The loop over the references, which are addresses of pages here (rounded down).
unfoldable pub faults_of : (max_size : ℕ) → (ws refs : List ℕ) → ℕ
faults_of max_size ws [] = 0
faults_of max_size ws (r ∷ refs) =
    let hit = has r ws in
    let rest = faults_of max_size (if hit then ws else load_page max_size r refs ws) refs in
    if hit then rest else 1 + rest

-- ROUNDDOWN of each reference to its page
unfoldable pub pages_of : List ℕ → List ℕ
pages_of [] = []
pages_of (r ∷ refs) = (r / 4096) * 4096 ∷ pages_of refs

-- The elements of the initial working set that the copy has room for.
unfoldable pub copy_ws : (room : ℕ) → List Element → List ℕ
copy_ws zero ws = []
copy_ws (suc n) [] = []
copy_ws (suc n) (e ∷ ws) = e.virtual_address ∷ copy_ws n ws

unfoldable pub get_optimal_num_faults : List Element → (max_size : ℕ) → (refs : List ℕ) → ℕ
get_optimal_num_faults ws max_size refs = faults_of max_size (copy_ws max_size ws) (pages_of refs)
