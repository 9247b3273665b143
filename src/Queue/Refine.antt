-- ===== src/Queue/Refine.antt =====
-- The insertions at both ends of inc/queue.h against sequences of elements.
use fos_educational_os_proje.Base.{
  ◌≡◌, refl, sym, ◌∙◌, ◌≢◌, false, List, [], ◌∷◌, ◌++◌, arith, ==-ne, has, length-append, ne_of_has,
  update-ne, update_self, Yields, yields,
}
use fos_educational_os_proje.Queue.{Ptr, null, Links, Head, insert_head, insert_tail}
use fos_educational_os_proje.Queue.Linked.{
  last_or, Linked, Holds, Linked-set_next_out, Linked-set_prev_out, Linked-set_prev_first,
  Linked-set_next_last, Linked-append, Distinct-snoc, last_or-append, has-last_or,
}

-- The links of every element outside `xs` are as before.
abbrev pub SameOutside : List Ptr → Links → Links → Type 0
SameOutside xs l g = (a : Ptr) → has a xs ≡ false → (g.next a ≡ l.next a) × (g.prev a ≡ l.prev a)

-- What a macro leaves when it ran: the list `ys`, and the links outside `touched` as they were.
abbrev pub Leaves : List Ptr → List Ptr → Links → Head × Links → Type 0
Leaves ys touched l r = Holds r.1 r.0 ys × SameOutside touched l r.1

pub last-ne-null :
    (l : Links) (b q x : Ptr) (xs : List Ptr) → Linked l b (x ∷ xs) q → last_or x xs ≢ null
last-ne-null l b q x [] s = s.0
last-ne-null l b q x (y ∷ xs) s = last-ne-null l x q y xs s.3

-- LIST_INSERT_HEAD of an element that is not null and not in the list, where the head and the
-- links hold the list `xs`: it returns, the head and the links then hold the element in front of
-- `xs`, and no link outside of these elements has changed.
pub insert_head-cons :
    (l : Links) (h : Head) (e : Ptr) (xs : List Ptr)
    → e ≢ null
    → has e xs ≡ false
    → Holds l h xs
    → Yields (Leaves (e ∷ xs) (e ∷ xs) l) (insert_head h e l)
unfolding insert_head
insert_head-cons l h e [] ne out held = rw (==-ne e null ne) (
    rw held.first (
      yields _ (
        record {
          linked = (ne, update_self _ e _, update_self _ e _, tt);
          distinct = (refl, tt);
          first = refl;
          last = refl;
          size = omega (arith, held.size);
        },
        λ a o. (update-ne _ e _ a (ground arith), update-ne _ e _ a (ground arith)),
      )))
insert_head-cons l h e (x ∷ xs) ne out held = rw (==-ne e null ne) (
    rw held.first (
      rw (==-ne x null held.linked.0) (
        yields _ (
          record {
            linked = (
              ne,
              update_self _ e _,
              update_self _ e _,
              Linked-set_prev_out _ e null e null (x ∷ xs) out (
                  Linked-set_prev_first _ null null e x xs held.distinct
                    (Linked-set_next_out l null null e x (x ∷ xs) out held.linked)),
            );
            distinct = (out, held.distinct);
            first = refl;
            last = held.last;
            size = omega (arith, held.size);
          },
          λ a o. (
            update-ne _ e _ a (ground arith),
            rw (update-ne _ e null a (ground arith)) (update-ne _ x e a (ground arith)),
          ),
        ))))

-- LIST_INSERT_TAIL of an element that is not null and not in the list, where the head and the
-- links hold the list `xs`: it returns, the head and the links then hold `xs` with the element
-- behind it, and no link outside of these elements has changed.
pub insert_tail-append :
    (l : Links) (h : Head) (e : Ptr) (xs : List Ptr)
    → e ≢ null
    → has e xs ≡ false
    → Holds l h xs
    → Yields (Leaves (xs ++ e ∷ []) (e ∷ xs) l) (insert_tail h e l)
unfolding insert_tail
insert_tail-append l h e [] ne out held = rw (==-ne e null ne) (
    rw held.last (
      yields _ (
        record {
          linked = (ne, update_self _ e _, update_self _ e _, tt);
          distinct = (refl, tt);
          first = refl;
          last = refl;
          size = omega (arith, held.size);
        },
        λ a o. (update-ne _ e _ a (ground arith), update-ne _ e _ a (ground arith)),
      )))
insert_tail-append l h e (x ∷ xs) ne out held = rw (==-ne e null ne) (
    rw held.last (
      rw (==-ne (last_or x xs) null (last-ne-null l null null x xs held.linked)) (
        yields _ (
          record {
            linked =
                Linked-append _ null null (x ∷ xs) (e ∷ [])
                  (Linked-set_next_out _ null e e null (x ∷ xs) out (
                    Linked-set_next_last _ null null e x xs held.distinct
                      (Linked-set_prev_out l null null e _ (x ∷ xs) out held.linked)))
                  (ne, update_self _ e _, update_self _ e _, tt);
            distinct = Distinct-snoc e (x ∷ xs) out held.distinct;
            first = held.first;
            last = sym (last_or-append null (x ∷ xs) (e ∷ []));
            size = omega (arith, held.size, length-append xs (e ∷ []));
          },
          λ a o. (
            update-ne _ e null a (ground arith) ∙ update-ne _ (last_or x xs) e a (away a o),
            update-ne _ e _ a (ground arith),
          ),
        ))))
  where
    away : (a : Ptr) → has a (e ∷ x ∷ xs) ≡ false → a ≢ last_or x xs
    away a o = ne_of_has a (last_or x xs) (x ∷ xs) (ground arith) (has-last_or x xs)
