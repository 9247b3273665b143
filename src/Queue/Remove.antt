-- ===== src/Queue/Remove.antt =====
-- LIST_REMOVE of inc/queue.h against sequences of elements.
use fos_educational_os_proje.Base.{
  ◌≡◌, refl, sym, ◌∙◌, ◌≢◌, false, List, [], ◌∷◌, ◌++◌, arith, ◌==◌, ==-ne, Bool-cases, inl, inr,
  has, if◌then◌else◌, length-append, out-append, subst, ne_of_has, Distinct, update, update-ne,
  update_self, Yields, yields, Option, some,
}
use fos_educational_os_proje.Queue.{Ptr, null, Links, Head, set_next, set_prev, size_dec, remove}
use fos_educational_os_proje.Queue.Linked.{
  first_or, last_or, Linked, Holds, Linked-set_next_out, Linked-set_prev_out, Linked-set_prev_first,
  Linked-set_next_last, Linked-append, Linked-left, Linked-right, last_or-append, has-last_or,
  Distinct-left, Distinct-right, Distinct-apart, Distinct-apart_left, Distinct-drop, Distinct-gone,
}
use fos_educational_os_proje.Queue.Refine.{SameOutside, Leaves, last-ne-null}

-- The rest of the macro, once the links behind the element are set.
abbrev remove_links : Links → Head → (p n e : Ptr) → Option (Head × Links)
remove_links l₁ h p n e = some (
  record {
    first = if l₁.prev e == null then l₁.next e else h.first;
    last = if n == null then p else h.last;
    size = size_dec h.size;
  },
  set_prev e null
      (set_next e null (if l₁.prev e == null then l₁ else set_next (l₁.prev e) (l₁.next e) l₁)),
)

-- The neighbours `p` and `n`, where there are any, point at each other.
joined : (p n : Ptr) → Links → Links
joined p n l =
    let l₁ = if n == null then l else set_prev n p l in if p == null then l₁ else set_next p n l₁

-- What LIST_REMOVE leaves of an element whose neighbours are known.
abbrev bridged : Head → (p e n : Ptr) → Links → Head × Links
bridged h p e n l = (
  record {
    first = if p == null then n else h.first;
    last = if n == null then p else h.last;
    size = size_dec h.size;
  },
  set_prev e null (set_next e null (joined p n l)),
)

remove-bridged :
    (l : Links) (h : Head) (p e n : Ptr)
    → e ≢ null
    → l.prev e ≡ p
    → l.next e ≡ n
    → n ≢ e
    → remove h e l ≡ some (bridged h p e n l)
unfolding remove joined
remove-bridged l h p e n ne hp hn apart = rw (==-ne e null ne) (rw hn (rw hp split))
  where
    still : update l.prev n p e ≡ p
    still = update-ne l.prev n p e (λ q. apart (sym q)) ∙ hp

    split :
        remove_links (if n == null then l else set_prev n p l) h p n e ≡ some (bridged h p e n l)
    split = elim (Bool-cases (n == null)) [
      | inl t ↦ rw t (rw (hp, hn) refl)
      | inr t ↦ rw t (rw (still, hn) refl)
    ]

module _ (p n : Ptr) (l : Links) where
  joined_none : p ≡ null → n ≡ null → joined p n l ≡ l
  unfolding joined
  joined_none hp hn = rw (hp, hn) refl

  joined_front : p ≡ null → n ≢ null → joined p n l ≡ set_prev n p l
  unfolding joined
  joined_front hp hn = rw (hp, ==-ne n null hn) refl

  joined_back : p ≢ null → n ≡ null → joined p n l ≡ set_next p n l
  unfolding joined
  joined_back hp hn = rw (==-ne p null hp, hn) refl

  joined_both : p ≢ null → n ≢ null → joined p n l ≡ set_next p n (set_prev n p l)
  unfolding joined
  joined_both hp hn = rw (==-ne p null hp, ==-ne n null hn) refl

moved : {g m : Links} (b q : Ptr) (xs : List Ptr) → g ≡ m → Linked m b xs q → Linked g b xs q
moved b q xs e t = subst (λ k. Linked k b xs q) (sym e) t

-- The links left of the element, with their new successor.
joined_left :
    (l : Links) (e : Ptr) (ys zs : List Ptr)
    → Distinct (ys ++ e ∷ zs)
    → Linked l null (ys ++ e ∷ zs) null
    → Linked (joined (last_or null ys) (first_or null zs) l) null ys (first_or null zs)
joined_left l e [] zs d s = tt
joined_left l e (y ∷ ys) [] d s =
    let left = Linked-left l null null (y ∷ ys) (e ∷ []) s in
    moved _ _ (y ∷ ys) (joined_back (last_or y ys) null l (last-ne-null l null e y ys left) refl)
      (Linked-set_next_last l null e null y ys (Distinct-left (y ∷ ys) (e ∷ []) d) left)
joined_left l e (y ∷ ys) (z ∷ zs) d s =
    let left = Linked-left l null null (y ∷ ys) (e ∷ z ∷ zs) s in
    let right = Linked-right l null null (y ∷ ys) (e ∷ z ∷ zs) s in
    moved _ _ (y ∷ ys) (joined_both (last_or y ys) z l (last-ne-null l null e y ys left) right.3.0)
      (Linked-set_next_last _ null e z y ys (Distinct-left (y ∷ ys) (e ∷ z ∷ zs) d) (
        Linked-set_prev_out l null e z _ (y ∷ ys)
          (Distinct-apart_left z (y ∷ ys) (e ∷ z ∷ zs) d (ground arith)) left))

-- The links right of it, with their new predecessor.
joined_right :
    (l : Links) (e : Ptr) (ys zs : List Ptr)
    → Distinct (ys ++ e ∷ zs)
    → Linked l null (ys ++ e ∷ zs) null
    → Linked (joined (last_or null ys) (first_or null zs) l) (last_or null ys) zs null
joined_right l e ys [] d s = tt
joined_right l e [] (z ∷ zs) d s =
    moved _ _ (z ∷ zs) (joined_front null z l refl s.3.0)
      (Linked-set_prev_first l e null null z zs d.1 s.3)
joined_right l e (y ∷ ys) (z ∷ zs) d s =
    let left = Linked-left l null null (y ∷ ys) (e ∷ z ∷ zs) s in
    let right = Linked-right l null null (y ∷ ys) (e ∷ z ∷ zs) s in
    let apart = Distinct-apart (last_or y ys) (y ∷ ys) (e ∷ z ∷ zs) d (has-last_or y ys) in
    moved _ _ (z ∷ zs) (joined_both (last_or y ys) z l (last-ne-null l null e y ys left) right.3.0)
      (Linked-set_next_out _ (last_or y ys) null (last_or y ys) z (z ∷ zs)
        (out-append (last_or y ys) (e ∷ []) (z ∷ zs) apart).1
        (Linked-set_prev_first l e null (last_or y ys) z zs
          (Distinct-right (y ∷ ys) (e ∷ z ∷ zs) d).1 right.3))

away : (a y : Ptr) (ys zs : List Ptr) → has a ((y ∷ ys) ++ zs) ≡ false → a ≢ last_or y ys
away a y ys zs o =
    ne_of_has a (last_or y ys) (y ∷ ys) (out-append a (y ∷ ys) zs o).0 (has-last_or y ys)

-- Joining the neighbours writes to no link outside the list.
joined_same :
    (l : Links) (e : Ptr) (ys zs : List Ptr)
    → Linked l null (ys ++ e ∷ zs) null
    → SameOutside (ys ++ e ∷ zs) l (joined (last_or null ys) (first_or null zs) l)
joined_same l e [] [] s a o = rw (joined_none null null l refl refl) (refl, refl)
joined_same l e [] (z ∷ zs) s a o =
    rw (joined_front null z l refl s.3.0) (refl, update-ne l.prev z null a (ground arith))
joined_same l e (y ∷ ys) [] s a o =
    let left = Linked-left l null null (y ∷ ys) (e ∷ []) s in
    rw (joined_back (last_or y ys) null l (last-ne-null l null e y ys left) refl)
      (update-ne l.next (last_or y ys) null a (away a y ys (e ∷ []) o), refl)
joined_same l e (y ∷ ys) (z ∷ zs) s a o =
    let left = Linked-left l null null (y ∷ ys) (e ∷ z ∷ zs) s in
    let right = Linked-right l null null (y ∷ ys) (e ∷ z ∷ zs) s in
    rw (joined_both (last_or y ys) z l (last-ne-null l null e y ys left) right.3.0) (
      update-ne l.next (last_or y ys) z a (away a y ys (e ∷ z ∷ zs) o),
      update-ne l.prev z (last_or y ys) a
          (ne_of_has a z (e ∷ z ∷ zs) (out-append a (y ∷ ys) (e ∷ z ∷ zs) o).1 (ground arith)),
    )

first-ne : (e : Ptr) (zs : List Ptr) → e ≢ null → has e zs ≡ false → first_or null zs ≢ e
first-ne e [] ne out = λ q. ne (sym q)
first-ne e (z ∷ zs) ne out = ground arith

first_joined :
    (l : Links) (h : Head) (e : Ptr) (ys zs : List Ptr)
    → Holds l h (ys ++ e ∷ zs)
    → (if last_or null ys == null then first_or null zs else h.first) ≡ first_or null (ys ++ zs)
first_joined l h e [] zs held = refl
first_joined l h e (y ∷ ys) zs held =
    rw
      (==-ne (last_or y ys) null
        (last-ne-null l null e y ys (Linked-left l null null (y ∷ ys) (e ∷ zs) held.linked)))
      held.first

last_joined :
    (l : Links) (h : Head) (e : Ptr) (ys zs : List Ptr)
    → Holds l h (ys ++ e ∷ zs)
    → (if first_or null zs == null then last_or null ys else h.last) ≡ last_or null (ys ++ zs)
last_joined l h e ys [] held = sym (last_or-append null ys [])
last_joined l h e ys (z ∷ zs) held =
    rw (==-ne z null (Linked-right l null null ys (e ∷ z ∷ zs) held.linked).3.0)
      (held.last ∙ last_or-append null ys (e ∷ z ∷ zs) ∙ sym (last_or-append null ys (z ∷ zs)))

-- LIST_REMOVE of an element of the list that the head and the links hold: it returns, the head and
-- the links hold the list without the element, the links of the element are null, and no link
-- outside the list has changed.
pub remove-drop :
    (l : Links) (h : Head) (e : Ptr) (ys zs : List Ptr)
    → Holds l h (ys ++ e ∷ zs)
    → Yields
        (λ r. Leaves (ys ++ zs) (ys ++ e ∷ zs) l r × (r.1.next e ≡ null) × (r.1.prev e ≡ null))
        (remove h e l)
remove-drop l h e ys zs held =
    let s = Linked-right l null null ys (e ∷ zs) held.linked in
    let d = Distinct-right ys (e ∷ zs) held.distinct in
    let out = Distinct-gone e ys zs held.distinct in
    rw
      (remove-bridged l h (last_or null ys) e (first_or null zs) s.0 s.1 s.2
        (first-ne e zs s.0 d.0))
      (yields _ (
        (
          record {
            linked = Linked-set_prev_out _ null null e null (ys ++ zs) out (
                Linked-set_next_out _ null null e null (ys ++ zs) out (
                  Linked-append _ null null ys zs (joined_left l e ys zs held.distinct held.linked)
                    (joined_right l e ys zs held.distinct held.linked)));
            distinct = Distinct-drop e ys zs held.distinct;
            first = first_joined l h e ys zs held;
            last = last_joined l h e ys zs held;
            size = omega (arith, held.size, length-append ys zs, length-append ys (e ∷ zs));
          },
          same,
        ),
        update_self _ e null,
        update_self _ e null,
      ))
  where
    same : SameOutside (ys ++ e ∷ zs) l (bridged h (last_or null ys) e (first_or null zs) l).1
    same a o =
        let ne = ne_of_has a e (e ∷ zs) (out-append a ys (e ∷ zs) o).1 (ground arith) in
        let j = joined_same l e ys zs held.linked a o in
        (update-ne _ e null a ne ∙ j.0, update-ne _ e null a ne ∙ j.1)
