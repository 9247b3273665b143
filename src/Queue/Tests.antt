-- ===== src/Queue/Tests.antt =====
-- The list macros run on three elements, and the theorems on them at those elements.
use fos_educational_os_proje.Base.{◌≡◌, refl, [], ◌∷◌, ◌++◌, arith, update, Yields}
use fos_educational_os_proje.Queue.{
  null, Links, Head, insert_head, insert_tail, remove, list_concat,
}
use fos_educational_os_proje.Queue.Linked.{Holds}
use fos_educational_os_proje.Queue.Refine.{Leaves, insert_head-cons, insert_tail-append}
use fos_educational_os_proje.Queue.Remove.{remove-drop}
use fos_educational_os_proje.Queue.Concat.{Joined, list_concat-undercounts}

-- 10 and 20 form one list, 30 another.
abbrev links : Links
links = record { next = λ a. update (λ _. 0) 10 20 a; prev = λ a. update (λ _. 0) 20 10 a }

abbrev two : Head
two = record { first = 10; last = 20; size = 2 }

abbrev one : Head
one = record { first = 30; last = 30; size = 1 }

two-Holds : Holds links two (10 ∷ 20 ∷ [])
unfolding update
two-Holds = record {
  linked = (omega arith, refl, refl, (omega arith, refl, refl, tt));
  distinct = (refl, (refl, tt));
  first = refl;
  last = refl;
  size = refl;
}

one-Holds : Holds links one (30 ∷ [])
unfolding update
one-Holds = record {
  linked = (omega arith, refl, refl, tt);
  distinct = (refl, tt);
  first = refl;
  last = refl;
  size = refl;
}

insert_head-cons_example :
    Yields (Leaves (30 ∷ 10 ∷ 20 ∷ []) (30 ∷ 10 ∷ 20 ∷ []) links) (insert_head two 30 links)
insert_head-cons_example = insert_head-cons links two 30 (10 ∷ 20 ∷ []) (omega arith) refl two-Holds

insert_tail-append_example :
    Yields (Leaves ((10 ∷ 20 ∷ []) ++ 30 ∷ []) (30 ∷ 10 ∷ 20 ∷ []) links) (insert_tail two 30 links)
insert_tail-append_example =
    insert_tail-append links two 30 (10 ∷ 20 ∷ []) (omega arith) refl two-Holds

remove-drop_example :
    Yields
      (λ r. Leaves (10 ∷ []) (10 ∷ 20 ∷ []) links r × (r.1.next 20 ≡ null) × (r.1.prev 20 ≡ null))
      (remove two 20 links)
remove-drop_example = remove-drop links two 20 (10 ∷ []) [] two-Holds

list_concat-undercounts_example : Joined links two (10 ∷ 20 ∷ 30 ∷ []) (list_concat two one links)
list_concat-undercounts_example =
    list_concat-undercounts links two one 10 30 (20 ∷ []) [] two-Holds one-Holds
      (refl, (refl, (refl, tt)))
