-- ===== src/Queue/Linked.antt =====
-- What the links of inc/queue.h's lists say of a sequence of elements, and how one write to a link
-- field changes that.
use fos_educational_os_proje.Base.{
  ◌%◌, ◌^◌, ◌≡◌, refl, ◌∙◌, ◌≢◌, true, false, List, [], ◌∷◌, ◌++◌, arith, has, has-append,
  ne_of_has, out-append, ==_iff, ◌==◌, Bool-cases, inl, inr, sym, false≢true, Distinct, length,
  update, update-ne,
}
use fos_educational_os_proje.Queue.{Ptr, null, Links, Head, set_next, set_prev}

abbrev pub first_or : Ptr → List Ptr → Ptr
first_or q [] = q
first_or q (x ∷ xs) = x

abbrev pub last_or : Ptr → List Ptr → Ptr
last_or b [] = b
last_or b (x ∷ xs) = last_or x xs

-- Each element of `xs` points at its neighbours; `b` stands before the first, `q` behind the last.
abbrev pub Linked : Links → Ptr → List Ptr → Ptr → Type 0
Linked l b [] q = Unit
Linked l b (x ∷ xs) q = (x ≢ null) × (l.prev x ≡ b) × (l.next x ≡ first_or q xs) × Linked l x xs q

-- The list with head `h` holds the elements `xs`, in order.
pub record Holds (l : Links) (h : Head) (xs : List Ptr) : Type 0 where
  pub linked : Linked l null xs null
  pub distinct : Distinct xs
  pub first : h.first ≡ first_or null xs
  pub last : h.last ≡ last_or null xs
  pub size : h.size ≡ length xs % 2 ^ 32

pub last_or-append : (b : Ptr) (xs ys : List Ptr) → last_or b (xs ++ ys) ≡ last_or (last_or b xs) ys
last_or-append b [] ys = refl
last_or-append b (x ∷ xs) ys = last_or-append x xs ys

pub first_or-append :
    (q : Ptr) (xs ys : List Ptr) → first_or q (xs ++ ys) ≡ first_or (first_or q ys) xs
first_or-append q [] ys = refl
first_or-append q (x ∷ xs) ys = refl

pub Linked-append :
    (l : Links) (b q : Ptr) (xs ys : List Ptr)
    → Linked l b xs (first_or q ys)
    → Linked l (last_or b xs) ys q
    → Linked l b (xs ++ ys) q
Linked-append l b q [] ys s t = t
Linked-append l b q (x ∷ []) ys s t = (s.0, s.1, s.2, t)
Linked-append l b q (x ∷ y ∷ xs) ys s t = (s.0, s.1, s.2, Linked-append l x q (y ∷ xs) ys s.3 t)

pub Linked-left :
    (l : Links) (b q : Ptr) (xs ys : List Ptr)
    → Linked l b (xs ++ ys) q
    → Linked l b xs (first_or q ys)
Linked-left l b q [] ys s = tt
Linked-left l b q (x ∷ []) ys s = (s.0, s.1, s.2, tt)
Linked-left l b q (x ∷ y ∷ xs) ys s = (s.0, s.1, s.2, Linked-left l x q (y ∷ xs) ys s.3)

pub Linked-right :
    (l : Links) (b q : Ptr) (xs ys : List Ptr)
    → Linked l b (xs ++ ys) q
    → Linked l (last_or b xs) ys q
Linked-right l b q [] ys s = s
Linked-right l b q (x ∷ xs) ys s = Linked-right l x q xs ys s.3

-- A change that spares the elements of `xs` leaves them linked.
pub Linked-frame :
    (l g : Links) (b q : Ptr) (xs : List Ptr)
    → ((a : Ptr) → has a xs ≡ true → (g.next a ≡ l.next a) × (g.prev a ≡ l.prev a))
    → Linked l b xs q
    → Linked g b xs q
Linked-frame l g b q [] same s = tt
Linked-frame l g b q (x ∷ xs) same s =
    let e = same x (ground arith) in
    (s.0, e.1 ∙ s.1, e.0 ∙ s.2, Linked-frame l g x q xs (λ a i. same a (ground (arith))) s.3)

pub Linked-set_next_out :
    (l : Links) (b q p v : Ptr) (xs : List Ptr)
    → has p xs ≡ false
    → Linked l b xs q
    → Linked (set_next p v l) b xs q
unfolding update
Linked-set_next_out l b q p v [] out s = tt
Linked-set_next_out l b q p v (x ∷ xs) out s =
    (s.0, s.1, ground arith, Linked-set_next_out l x q p v xs (ground arith) s.3)

pub Linked-set_prev_out :
    (l : Links) (b q p v : Ptr) (xs : List Ptr)
    → has p xs ≡ false
    → Linked l b xs q
    → Linked (set_prev p v l) b xs q
unfolding update
Linked-set_prev_out l b q p v [] out s = tt
Linked-set_prev_out l b q p v (x ∷ xs) out s =
    (s.0, ground arith, s.2, Linked-set_prev_out l x q p v xs (ground arith) s.3)

pub has-last_or : (y : Ptr) (xs : List Ptr) → has (last_or y xs) (y ∷ xs) ≡ true
has-last_or y [] = ground arith
has-last_or y (x ∷ xs) = ground (arith, has-last_or x xs)

-- A write to the last element's `next` changes what stands behind the list.
pub Linked-set_next_last :
    (l : Links) (b q v x : Ptr) (xs : List Ptr)
    → Distinct (x ∷ xs)
    → Linked l b (x ∷ xs) q
    → Linked (set_next (last_or x xs) v l) b (x ∷ xs) v
unfolding update
Linked-set_next_last l b q v x [] d s = (s.0, s.1, ground arith, tt)
Linked-set_next_last l b q v x (y ∷ xs) d s = (
  s.0,
  s.1,
  update-ne l.next _ v x (ne_of_has x (last_or y xs) (y ∷ xs) d.0 (has-last_or y xs)) ∙ s.2,
  Linked-set_next_last l x q v y xs d.1 s.3,
)

-- A write to the first element's `prev` changes what stands before the list.
pub Linked-set_prev_first :
    (l : Links) (b q v x : Ptr) (xs : List Ptr)
    → Distinct (x ∷ xs)
    → Linked l b (x ∷ xs) q
    → Linked (set_prev x v l) v (x ∷ xs) q
unfolding update
Linked-set_prev_first l b q v x xs d s =
    (s.0, ground arith, s.2, Linked-set_prev_out l x q x v xs d.0 s.3)

pub null-not-has : (l : Links) (b q : Ptr) (xs : List Ptr) → Linked l b xs q → has null xs ≡ false
null-not-has l b q [] s = refl
null-not-has l b q (x ∷ xs) s = ground (arith, null-not-has l x q xs s.3)

pub Distinct-left : (xs ys : List Ptr) → Distinct (xs ++ ys) → Distinct xs
Distinct-left [] ys d = tt
Distinct-left (x ∷ xs) ys d = (ground (arith, has-append x xs ys), Distinct-left xs ys d.1)

pub Distinct-right : (xs ys : List Ptr) → Distinct (xs ++ ys) → Distinct ys
Distinct-right [] ys d = d
Distinct-right (x ∷ xs) ys d = Distinct-right xs ys d.1

pub Distinct-snoc :
    (e : Ptr) (xs : List Ptr) → has e xs ≡ false → Distinct xs → Distinct (xs ++ e ∷ [])
Distinct-snoc e [] out d = (refl, tt)
Distinct-snoc e (x ∷ xs) out d =
    (ground (arith, has-append x xs (e ∷ [])), Distinct-snoc e xs (ground arith) d.1)

-- What stands in one half of a list without repetition does not stand in the other.
pub Distinct-apart :
    (a : Ptr) (xs ys : List Ptr) → Distinct (xs ++ ys) → has a xs ≡ true → has a ys ≡ false
Distinct-apart a [] ys d i = cc
Distinct-apart a (x ∷ xs) ys d i = elim (Bool-cases (a == x)) [
  | inl e ↦ rw ((==_iff a x).0 e) (ground (arith, has-append x xs ys))
  | inr ne ↦ Distinct-apart a xs ys d.1 (ground arith)
]

pub Distinct-apart_left :
    (a : Ptr) (xs ys : List Ptr) → Distinct (xs ++ ys) → has a ys ≡ true → has a xs ≡ false
Distinct-apart_left a xs ys d i = elim (Bool-cases (has a xs)) [
  | inl t ↦ absurd (false≢true (sym (Distinct-apart a xs ys d t) ∙ i))
  | inr t ↦ t
]

pub Distinct-drop : (e : Ptr) (xs ys : List Ptr) → Distinct (xs ++ e ∷ ys) → Distinct (xs ++ ys)
Distinct-drop e [] ys d = d.1
Distinct-drop e (x ∷ xs) ys d =
    (ground (arith, has-append x xs (e ∷ ys), has-append x xs ys), Distinct-drop e xs ys d.1)

pub Distinct-gone :
    (e : Ptr) (xs ys : List Ptr) → Distinct (xs ++ e ∷ ys) → has e (xs ++ ys) ≡ false
Distinct-gone e [] ys d = d.0
Distinct-gone e (x ∷ xs) ys d =
    let ne = ne_of_has x e (e ∷ ys) (out-append x xs (e ∷ ys) d.0).1 (ground arith) in
    ground (arith, Distinct-gone e xs ys d.1)
