-- ===== src/Frames/Alloc.antt =====
-- kern/mem/memory_manager.c: allocate_frame takes a frame of the free list in hand.
use fos_educational_os_proje.Base.{
  ℕ, ◌^◌, ◌<◌, ◌≡◌, refl, sym, subst, ◌∙◌, ◌≢◌, Bool, true, ◌||◌, some, List, [], ◌∷◌, ◌==◌, update,
  update-ne, has, Distinct, length, arith, inl, inr, ◌⊎◌, ==_iff, Yields, yields, ne_of_has, ap,
}
use fos_educational_os_proje.Frames.{Frames, allocate_frame, allocate_first, initialize_frame_info}
use fos_educational_os_proje.Frames.Inv.{IsCounted}

-- A write of the same value, or two at one point.
update-same : (h : ℕ → ℕ) (p v a : ℕ) → h p ≡ v → update h p v a ≡ h a
unfolding update
update-same h p v a e = ground arith

has_head : (f : ℕ) (q : List ℕ) → has f (f ∷ q) ≡ true
has_head f q = ground arith

List-cases : (q : List ℕ) → (q ≡ []) ⊎ ((f : ℕ) × (t : List ℕ) × (q ≡ f ∷ t))
List-cases [] = inl refl
List-cases (f ∷ t) = inr (f, t, refl)

abbrev pub Allocated : (ℕ → ℕ) → (ℕ → Bool) → Frames → ℕ × Frames → Type 0
Allocated own hand s (f, t) =
    (has f s.free_frame_list ≡ true)
    × (f < s.number_of_frames)
    × (t.entry ≡ s.entry)
    × (t.link ≡ s.link)
    × (t.number_of_frames ≡ s.number_of_frames)
    × IsCounted own (update hand f true) t

taken-IsCounted :
    (own : ℕ → ℕ) (hand : ℕ → Bool) (f : ℕ) (q : List ℕ) (s : Frames)
    → s.free_frame_list ≡ f ∷ q
    → IsCounted own hand s
    → IsCounted own
        (update hand f true)
        (initialize_frame_info f (record s { free_frame_list = q }))
unfolding initialize_frame_info update
taken-IsCounted own hand f q s e i =
    let z : s.references f ≡ 0 = zero_refs in
    record {
      slots = i.slots;
      slots_once = i.slots_once;
      covers = i.covers;
      in_range = i.in_range;
      counted = λ g. update-same s.references f 0 g z ∙ i.counted g;
      small = λ g. subst (λ k. k < 2 ^ 16) (sym (update-same s.references f 0 g z)) (i.small g);
      free_once = once.1;
      unreferenced = λ g l.
          ap (λ k. k == 0) (update-same s.references f 0 g z)
          ∙ i.unreferenced g l
          ∙ ap (λ k. has g k || hand g) e
          ∙ moved g;
      free_range = λ g m. i.free_range g (there g m);
      free_apart = λ g m. update-ne hand f true g (apart g m) ∙ i.free_apart g (there g m);
    }
  where
    once : Distinct (f ∷ q)
    once = subst Distinct e i.free_once

    mem : has f s.free_frame_list ≡ true
    mem = subst (λ k. has f k ≡ true) (sym e) (has_head f q)

    zero_refs : s.references f ≡ 0
    zero_refs = (==_iff (s.references f) 0).0 (i.unreferenced f (i.free_range f mem) ∙ rw mem refl)

    there : (g : ℕ) → has g q ≡ true → has g s.free_frame_list ≡ true
    there g m = subst (λ k. has g k ≡ true) (sym e) later
      where
        later : has g (f ∷ q) ≡ true
        later = ground arith

    apart : (g : ℕ) → has g q ≡ true → g ≢ f
    apart g m r = ne_of_has f g q once.0 m (sym r)

    moved : (g : ℕ) → (has g (f ∷ q) || hand g) ≡ (has g q || update hand f true g)
    moved g = ground arith

pub allocate_frame-first :
    (f : ℕ) (q : List ℕ) (s : Frames)
    → s.free_frame_list ≡ f ∷ q
    → allocate_frame s ≡ some (f, initialize_frame_info f (record s { free_frame_list = q }))
unfolding allocate_frame allocate_first
allocate_frame-first f q s e =
    subst
      (λ k.
        allocate_first k s ≡ some (f, initialize_frame_info f (record s { free_frame_list = q })))
      (sym e) refl

-- allocate_frame, where the frames are counted and the free list is not empty: it returns a frame
-- of the free list, the tables are as before, and the frames are counted with the returned one in
-- hand, so it is in the free list no more.
pub allocate_frame-Allocated :
    (own : ℕ → ℕ) (hand : ℕ → Bool) (s : Frames)
    → IsCounted own hand s
    → (0 < length s.free_frame_list)
    → Yields (Allocated own hand s) (allocate_frame s)
unfolding initialize_frame_info
allocate_frame-Allocated own hand s i p = elim (List-cases s.free_frame_list) [
  | inl e ↦ absurd (none_left (subst (λ k. 0 < length k) e p))
  | inr (f, q, e) ↦ rw (allocate_frame-first f q s e) (
      yields _ (
        member f q e,
        i.free_range f (member f q e),
        refl,
        refl,
        refl,
        taken-IsCounted own hand f q s e i,
      ))
]
  where
    none_left : 0 < 0 → ⊥
    none_left p = omega arith

    member : (f : ℕ) (q : List ℕ) → s.free_frame_list ≡ f ∷ q → has f s.free_frame_list ≡ true
    member f q e = subst (λ k. has f k ≡ true) (sym e) (has_head f q)
