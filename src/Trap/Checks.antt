-- ===== src/Trap/Checks.antt =====
-- kern/trap/fault_handler.c: which faults of a user reach the handler of page faults, and kern/trap/syscall.c:
-- what the calls on the user heap may change.
use fos_educational_os_proje.Base.{
  ℕ, ◌+◌, ◌<◌, ◌≤◌, ◌≡◌, refl, sym, subst, ◌∙◌, ap, ◌≢◌, ◌↔◌, ◌⊎◌, inl, inr, Bool, true, false,
  ◌&&◌, Option, none, some, ◌==◌, ltb, leb, if◌then◌else◌, arith, Bool-cases, ==-ne, false≢true,
  Yields, yields,
}
use mathlib.Core.Option.{none-ne-some}
use fos_educational_os_proje.Base.Layout.{user_heap_start, user_heap_max, user_top, ustacktop}
use fos_educational_os_proje.Base.Monad.{M, Yields-some, yielded, pure}
use fos_educational_os_proje.Frames.{
  Frames, Perms, in_memory, perm_present, perm_uhpage, link_of, slot, pt_get_page_permissions,
}
use fos_educational_os_proje.Frames.Unmap.{get_page_table-linked}
use fos_educational_os_proje.Trap.{
  Faults, Trapframe, Verdict, page_fault, exited, null, is_user_trap, is_invalid, note_repeated,
  note_fault, check_stacks, count_page_fault, handle_present, handle_fault, check_fault,
  fault_handler,
}

-- The address of a page that a user's fault may bring in: below the top of the stack, not present, and marked
-- where it lies in the user heap.
abbrev pub IsPlaceable : ℕ → Perms → Type 0
IsPlaceable va perms =
    (va < ustacktop)
    × (perms perm_present ≡ false)
    × (user_heap_start ≤ va → va < user_heap_max → perms perm_uhpage ≡ true)

valid-IsPlaceable :
    (va : ℕ) (perms : Perms)
    → is_invalid va perms ≡ false
    → perms perm_present ≡ false
    → IsPlaceable va perms
valid-IsPlaceable va perms e p = ground arith

IsPlaceable-valid : (va : ℕ) (perms : Perms) → IsPlaceable va perms → is_invalid va perms ≡ false
IsPlaceable-valid va perms (l, p, h) = ground arith

is_page_fault : Verdict → Bool
is_page_fault page_fault = true
is_page_fault _ = false

-- The end of the handler, for the page's bits.
abbrev Reaches : Option (Verdict × Faults) → Type 0
Reaches o = Yields (λ r. r.0 ≡ page_fault) o

not_exited : {s : Faults} → Reaches (some (exited, s)) → ⊥
unfolding is_page_fault
not_exited y = false≢true (ap is_page_fault (yielded y refl))

not_none : Reaches none → ⊥
not_none y = let (a, e, p) = Yields-some y in none-ne-some a e

counted :
    (p va : ℕ) (perms : Perms) (b : Bool) (s : Faults)
    → perms perm_present ≡ b
    → is_invalid va perms ≡ false
    → Reaches (count_page_fault b p s) ↔ IsPlaceable va perms
unfolding count_page_fault
counted p va perms true s e v = ((λ y. absurd (not_none y)), λ q. absurd (false≢true (sym q.1 ∙ e)))
counted p va perms false s e v = ((λ y. valid-IsPlaceable va perms v e), λ q. yields _ refl)

handled :
    (p va : ℕ) (perms : Perms) (s : Faults)
    → Reaches (handle_present true p va (some perms) s) ↔ IsPlaceable va perms
unfolding handle_present
handled p va perms s = at (is_invalid va perms) refl
  where
    at :
        (b : Bool)
        → is_invalid va perms ≡ b
        → Reaches ((if true && b then pure exited else count_page_fault (perms perm_present) p) s)
          ↔ IsPlaceable va perms
    at true e = (
      (λ y. absurd (not_exited y)),
      λ q. absurd (false≢true (sym (IsPlaceable-valid va perms q) ∙ e)),
    )
    at false e = counted p va perms (perms perm_present) s refl e

-- The faults are counted, and nothing else changes.
abbrev Noted : Faults → Faults → Type 0
Noted s r =
    (r.cpu_proc ≡ s.cpu_proc)
    × (r.frames ≡ s.frames)
    × (r.env_page_directory ≡ s.env_page_directory)

-- The fault is the third of one process at one address.
abbrev pub is_third : ℕ → Faults → Bool
is_third va s =
    ((s.last_fault_va == va) && (s.last_faulted_env == s.cpu_proc))
    && (s.num_repeated_fault + 1 == 3)

note_fault_ok :
    (va : ℕ) (tf : Trapframe) (s : Faults)
    → is_third va s ≡ false
    → Yields (λ r. Noted s r.1) (note_fault va tf s)
unfolding note_fault note_repeated
note_fault_ok va tf s e =
    elim (Bool-cases ((s.last_fault_va == va) && (s.last_faulted_env == s.cpu_proc))) [
      | inl a ↦
          let b : (s.num_repeated_fault + 1 == 3) ≡ false = second _ _ a e in
          rw (a, b) (yields _ (refl, refl, refl))
      | inr a ↦ rw a (yields _ (refl, refl, refl))
    ]
  where
    second : (a b : Bool) → a ≡ true → (a && b) ≡ false → b ≡ false
    second a b t e = ground arith

check_fault_ok :
    (kmalloc : M Frames (Option ℕ)) (va t : ℕ) (tf : Trapframe) (s : Faults)
    → is_user_trap tf ≡ true
    → s.cpu_proc ≢ null
    → (va < ustacktop) ⊎ (user_top ≤ va)
    → s.frames.link (link_of (s.env_page_directory s.cpu_proc) va) ≡ in_memory t
    → Reaches (check_fault kmalloc va tf s) ↔ IsPlaceable va (s.frames.entry (slot t va)).bits
unfolding check_fault check_stacks handle_fault pt_get_page_permissions
check_fault_ok kmalloc va t tf s user real at linked = rw user (
    rw (outside va at) (
      rw (==-ne s.cpu_proc null real) (
        rw linked (
          rw (get_page_table-linked (s.env_page_directory s.cpu_proc) va t s.frames linked)
            (handled s.cpu_proc va _ s)))))
  where
    outside :
        (va : ℕ)
        → (va < ustacktop) ⊎ (user_top ≤ va)
        → (leb ustacktop va && ltb va user_top) ≡ false
    outside va (inl l) = ground arith
    outside va (inr l) = ground arith

-- fault_handler of a fault from user mode, with a current process, which is not the third in a row
-- of that process at that address, at an address outside the gap from USTACKTOP to USER_TOP whose
-- page table is in memory: it comes to the handler of page faults exactly where the address is
-- below USTACKTOP, its page is not present, and, in the user heap, it is marked.
pub fault_handler-IsPlaceable :
    (kmalloc : M Frames (Option ℕ)) (va t : ℕ) (tf : Trapframe) (s : Faults)
    → is_user_trap tf ≡ true
    → s.cpu_proc ≢ null
    → is_third va s ≡ false
    → (va < ustacktop) ⊎ (user_top ≤ va)
    → s.frames.link (link_of (s.env_page_directory s.cpu_proc) va) ≡ in_memory t
    → Yields (λ r. r.0 ≡ page_fault) (fault_handler kmalloc va tf s)
      ↔ IsPlaceable va (s.frames.entry (slot t va)).bits
unfolding fault_handler
fault_handler-IsPlaceable kmalloc va t tf s user real third at linked =
    let (r, e, (cpu, frames, dirs)) = Yields-some (note_fault_ok va tf s third) in
    rw e (
      subst
        (λ f.
          Yields (λ r. r.0 ≡ page_fault) (check_fault kmalloc va tf r.1)
          ↔ IsPlaceable va (f.entry (slot t va)).bits)
        frames
        (check_fault_ok kmalloc va t tf r.1 user (λ z. real (sym cpu ∙ z)) at
          (subst (λ f. f.link (link_of (r.1.env_page_directory r.1.cpu_proc) va) ≡ in_memory t)
            (sym frames)
            (subst (λ d. s.frames.link (link_of (d r.1.cpu_proc) va) ≡ in_memory t) (sym dirs)
              (subst (λ p. s.frames.link (link_of (s.env_page_directory p) va) ≡ in_memory t)
                (sym cpu) linked)))))
