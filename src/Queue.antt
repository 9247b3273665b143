-- ===== src/Queue.antt =====
-- inc/queue.h: the intrusive doubly linked list macros over explicit link fields. An element is
-- its address, `Links` holds the `prev_next_info` of every element, and a macro's panic is `none`.
-- `___ptr_next`, which LIST_FOREACH alone writes, is not kept.
pub mod Linked
pub mod Refine
pub mod Remove
pub mod Concat
mod Tests
use fos_educational_os_proje.Base.{
  ℕ, ◌+◌, ◌-◌, ◌%◌, ◌^◌, Bool, Option, none, some, ◌==◌, if◌then◌else◌, update,
}

abbrev pub Ptr : Type 0
Ptr = ℕ

abbrev pub null : Ptr
null = 0

-- LIST_ENTRY of each element
pub record Links : Type 0 where
  pub next : Ptr → Ptr
  pub prev : Ptr → Ptr

-- LIST_HEAD
pub record Head : Type 0 where
  pub first : Ptr
  pub last : Ptr
  pub size : ℕ

abbrev pub set_next : Ptr → Ptr → Links → Links
set_next p q l = record l { next = update l.next p q }

abbrev pub set_prev : Ptr → Ptr → Links → Links
set_prev p q l = record l { prev = update l.prev p q }

-- `size` is a uint32
abbrev pub size_inc : ℕ → ℕ
size_inc n = (n + 1) % 2 ^ 32

abbrev pub size_dec : ℕ → ℕ
size_dec n = (n + 2 ^ 32 - 1) % 2 ^ 32

unfoldable pub list_empty : Head → Bool
list_empty h = h.first == null

unfoldable pub list_init : Head
list_init = record { first = null; last = null; size = 0 }

unfoldable pub insert_head : Head → Ptr → Links → Option (Head × Links)
insert_head h e l =
    if e == null
    then none
    else let l₁ = set_next e h.first l in
      let l₂ = if h.first == null then l₁ else set_prev h.first e l₁ in
      let last = if h.first == null then e else h.last in
      some (record { first = e; last = last; size = size_inc h.size }, set_prev e null l₂)

unfoldable pub insert_tail : Head → Ptr → Links → Option (Head × Links)
insert_tail h e l =
    if e == null
    then none
    else let l₁ = set_prev e h.last l in
      let l₂ = if h.last == null then l₁ else set_next h.last e l₁ in
      let first = if h.last == null then e else h.first in
      some (record { first = first; last = e; size = size_inc h.size }, set_next e null l₂)

unfoldable pub insert_after : Head → (listelm elm : Ptr) → Links → Option (Head × Links)
insert_after h p e l =
    if p == null
    then none
    else if e == null
    then none
    else let l₁ = set_next e (l.next p) l in
      let l₂ = if l₁.next e == null then l₁ else set_prev (l₁.next p) e l₁ in
      let l₃ = set_prev e p (set_next p e l₂) in
      let last = if l₃.next e == null then e else h.last in
      some (record { first = h.first; last = last; size = size_inc h.size }, l₃)

unfoldable pub insert_before : Head → (listelm elm : Ptr) → Links → Option (Head × Links)
insert_before h p e l =
    if p == null
    then none
    else if e == null
    then none
    else let l₁ = set_next e p (set_prev e (l.prev p) l) in
      let first = if l₁.prev p == null then e else h.first in
      let l₂ = if l₁.prev p == null then l₁ else set_next (l₁.prev p) e l₁ in
      some (record { first = first; last = h.last; size = size_inc h.size }, set_prev p e l₂)

unfoldable pub remove : Head → Ptr → Links → Option (Head × Links)
remove h e l =
    if e == null
    then none
    else let last = if l.next e == null then l.prev e else h.last in
      let l₁ = if l.next e == null then l else set_prev (l.next e) (l.prev e) l in
      let first = if l₁.prev e == null then l₁.next e else h.first in
      let l₂ = if l₁.prev e == null then l₁ else set_next (l₁.prev e) (l₁.next e) l₁ in
      some (
        record { first = first; last = last; size = size_dec h.size },
        set_prev e null (set_next e null l₂),
      )

-- The two heads after LIST_CONCAT. Where the first list is empty, the second keeps its head; where
-- neither is, LIST_INIT clears `size` of the second before it is added.
unfoldable pub list_concat : (h₁ h₂ : Head) → Links → Head × Head × Links
list_concat h₁ h₂ l =
    if h₁.first == null
    then (record { first = h₂.first; last = h₂.last; size = (h₁.size + h₂.size) % 2 ^ 32 }, h₂, l)
    else if h₂.first == null
    then (record h₁ { size = (h₁.size + h₂.size) % 2 ^ 32 }, h₂, l)
    else (
      record { first = h₁.first; last = h₂.last; size = (h₁.size + 0) % 2 ^ 32 },
      record { first = null; last = null; size = 0 },
      set_prev h₂.first h₁.last (set_next h₁.last h₂.first l),
    )
