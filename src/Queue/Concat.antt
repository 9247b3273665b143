-- ===== src/Queue/Concat.antt =====
-- LIST_CONCAT of inc/queue.h: it joins the links, and miscounts.
use fos_educational_os_proje.Base.{
  ◌≡◌, refl, sym, subst, ◌+◌, ◌∙◌, ◌≢◌, List, [], ◌∷◌, ◌++◌, arith, ==-ne, Distinct, ◌%◌, ◌^◌,
  Distinct,
}
use fos_educational_os_proje.Queue.{Ptr, null, Links, Head, set_next, set_prev, list_concat}
use fos_educational_os_proje.Queue.Linked.{
  first_or, last_or, Linked, Holds, Linked-set_next_out, Linked-set_prev_out, Linked-set_prev_first,
  Linked-set_next_last, Linked-append, last_or-append, has-last_or, Distinct-apart,
  Distinct-apart_left,
}

-- What the macro leaves of two lists that are not empty.
abbrev pub Joined : (l : Links) (h : Head) → List Ptr → Head × Head × Links → Type 0
Joined l h zs (h', g', l') =
    Linked l' null zs null
    × (h'.first ≡ first_or null zs)
    × (h'.last ≡ last_or null zs)
    × (h'.size ≡ h.size)
    × (g'.first ≡ null)

list_concat-both :
    (l : Links) (h g : Head)
    → h.first ≢ null
    → g.first ≢ null
    → list_concat h g l ≡ (
      record { first = h.first; last = g.last; size = (h.size + 0) % 2 ^ 32 },
      record { first = null; last = null; size = 0 },
      set_prev g.first h.last (set_next h.last g.first l),
    )
unfolding list_concat
list_concat-both l h g p q = rw (==-ne h.first null p, ==-ne g.first null q) refl

-- LIST_CONCAT of two lists that are not empty and share no element: the links of the first head go
-- through the elements of both, in order, and the second head has no first element; but `size`
-- stays that of the first list alone.
pub list_concat-undercounts :
    (l : Links) (h g : Head) (x y : Ptr) (xs ys : List Ptr)
    → Holds l h (x ∷ xs)
    → Holds l g (y ∷ ys)
    → Distinct ((x ∷ xs) ++ (y ∷ ys))
    → Joined l h ((x ∷ xs) ++ (y ∷ ys)) (list_concat h g l)
list_concat-undercounts l h g x y xs ys a b d =
    let zs = (x ∷ xs) ++ (y ∷ ys) in
    let p = last_or x xs in
    let s = Linked-set_next_last l null null y x xs a.distinct a.linked in
    let t =
      Linked-set_next_out l null null p y (y ∷ ys)
        (Distinct-apart p (x ∷ xs) (y ∷ ys) d (has-last_or x xs)) b.linked in
    subst (Joined l h ((x ∷ xs) ++ (y ∷ ys)))
      (sym (list_concat-both l h g (rw a.first a.linked.0) (rw b.first b.linked.0)))
      (
        subst (λ f. Linked (set_prev f h.last (set_next h.last f l)) null zs null) (sym b.first)
            (subst (λ q. Linked (set_prev y q (set_next q y l)) null zs null) (sym a.last)
              (Linked-append _ null null (x ∷ xs) (y ∷ ys)
                (Linked-set_prev_out _ null y y p (x ∷ xs)
                  (Distinct-apart_left y (x ∷ xs) (y ∷ ys) d (ground arith)) s)
                (Linked-set_prev_first _ null null p y ys b.distinct t))),
        a.first,
        b.last ∙ sym (last_or-append null (x ∷ xs) (y ∷ ys)),
        omega (arith, a.size),
        refl,
      )

-- Where the first list is empty, its head takes the second's elements and count.
pub list_concat-empty :
    (l : Links) (h g : Head) (ys : List Ptr)
    → Holds l h []
    → Holds l g ys
    → let (h', g', l') = list_concat h g l in Holds l' h' ys
unfolding list_concat
list_concat-empty l h g ys a b = rw a.first (record {
  linked = b.linked;
  distinct = b.distinct;
  first = b.first;
  last = b.last;
  size = omega (arith, a.size, b.size);
})
