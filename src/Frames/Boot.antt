-- ===== src/Frames/Boot.antt =====
-- kern/mem/memory_manager.c: initialize_paging leaves the frames counted.
use fos_educational_os_proje.Base.{
  ℕ, zero, suc, ◌+◌, ◌-◌, ◌/◌, ◌^◌, ◌≤◌, ◌<◌, ◌≡◌, refl, sym, subst, ◌∙◌, ◌≢◌, Bool, true, false,
  if◌then◌else◌, ◌&&◌, ◌||◌, [], ◌∷◌, ◌==◌, ltb, leb, update, update_self, update-ne, has, Distinct,
  arith, Bool-cases, inl, inr, ◌⊎◌, ==_iff, ==-ne, false≢true,
}
use fos_educational_os_proje.Frames.{
  Frames, is_held, reserve_frames, insert_frames, initialize_frame_info, initialize_paging,
  round_up, page_size,
}
use fos_educational_os_proje.Frames.Inv.{IsCounted}

-- The frames that initialize_paging makes free: the base memory after the first three, and what follows
-- the kernel's end `r`.
abbrev pub is_usable : ℕ → ℕ → Bool
is_usable r f = (leb 3 f && ltb f 160) || leb r f

-- The references that the kernel holds of the frames for itself after initialize_paging: one of
-- each frame that is not usable. `w` is what stood before, which is left of numbers past the last frame.
abbrev pub reserved_once : ℕ → ℕ → ℕ
reserved_once r f = if is_usable r f then 0 else 1

abbrev pub own_at_boot : (w : ℕ → ℕ) → (r number_of_frames f : ℕ) → ℕ
own_at_boot w r n f = if ltb f n then reserved_once r f else w f

-- The frames below `i` have one reference unless usable, and those are the free ones; the references
-- of the others are still `w`.
record SortedUpto (w : ℕ → ℕ) (r i : ℕ) (s : Frames) : Type 0 where
  below : (f : ℕ) → has f s.free_frame_list ≡ true → f < i
  once : Distinct s.free_frame_list
  sorted : (f : ℕ) → f < i → s.references f ≡ reserved_once r f
  free : (f : ℕ) → f < i → has f s.free_frame_list ≡ is_usable r f
  rest : (f : ℕ) → i ≤ f → s.references f ≡ w f
  small : (f : ℕ) → s.references f < 2 ^ 16

update-small : (h : ℕ → ℕ) (f v g : ℕ) → h g < 2 ^ 16 → v < 2 → update h f v g < 2 ^ 16
unfolding update
update-small h f v g l m = ground arith

or_below : (f i : ℕ) → f < i + 1 → (f ≡ i) ⊎ (f < i)
or_below f i l = elim (Bool-cases (f == i)) [
  | inl t ↦ inl ((==_iff f i).0 t)
  | inr n ↦ inr (less (λ q. false≢true (sym n ∙ (==_iff f i).1 q)))
]
  where
    less : f ≢ i → f < i
    less ne = omega arith

out_above :
    {w : ℕ → ℕ} (r i : ℕ) (s : Frames) → SortedUpto w r i s → has i s.free_frame_list ≡ false
out_above r i s u = elim (Bool-cases (has i s.free_frame_list)) [
  | inl t ↦ absurd (irrefl (u.below i t))
  | inr n ↦ n
]
  where
    irrefl : i < i → ⊥
    irrefl l = omega arith

reserved :
    {w : ℕ → ℕ} (r i : ℕ) (s : Frames)
    → is_usable r i ≡ false
    → SortedUpto w r i s
    → SortedUpto w r (i + 1) (record s { references = update s.references i 1 })
reserved r i s n u = record {
  below = λ f m. up f (u.below f m);
  once = u.once;
  sorted = λ f l. elim (or_below f i l) [
    | inl q ↦
        subst (λ k. update s.references i 1 k ≡ reserved_once r k) (sym q)
          (update_self s.references i 1 ∙ rw n refl)
    | inr b ↦ rw (update-ne s.references i 1 f (apart f b)) (u.sorted f b)
  ];
  free = λ f l. elim (or_below f i l) [
    | inl q ↦
        subst (λ k. has k s.free_frame_list ≡ is_usable r k) (sym q) (out_above r i s u ∙ sym n)
    | inr b ↦ u.free f b
  ];
  rest = λ f l. update-ne s.references i 1 f (past f l) ∙ u.rest f (omega arith);
  small = λ f. update-small s.references i 1 f (u.small f) (omega arith);
}
  where
    up : (f : ℕ) → f < i → f < i + 1
    up f l = omega arith

    apart : (f : ℕ) → f < i → f ≢ i
    apart f l q = omega arith

    past : (f : ℕ) → i + 1 ≤ f → f ≢ i
    past f l q = omega arith

inserted :
    {w : ℕ → ℕ} (r i : ℕ) (s : Frames)
    → is_usable r i ≡ true
    → SortedUpto w r i s
    → SortedUpto w r
        (i + 1)
        (record (initialize_frame_info i s) { free_frame_list = i ∷ s.free_frame_list })
unfolding initialize_frame_info
inserted r i s y u = record {
  below = λ f m. first f m;
  once = (out_above r i s u, u.once);
  sorted = λ f l. elim (or_below f i l) [
    | inl q ↦
        subst (λ k. update s.references i 0 k ≡ reserved_once r k) (sym q)
          (update_self s.references i 0 ∙ rw y refl)
    | inr b ↦ rw (update-ne s.references i 0 f (apart f b)) (u.sorted f b)
  ];
  free = λ f l. elim (or_below f i l) [
    | inl q ↦ subst (λ k. has k (i ∷ s.free_frame_list) ≡ is_usable r k) (sym q) (self ∙ sym y)
    | inr b ↦ rw (==-ne f i (apart f b)) (u.free f b)
  ];
  rest = λ f l. update-ne s.references i 0 f (past f l) ∙ u.rest f (omega arith);
  small = λ f. update-small s.references i 0 f (u.small f) (omega arith);
}
  where
    self : has i (i ∷ s.free_frame_list) ≡ true
    self = ground arith

    apart : (f : ℕ) → f < i → f ≢ i
    apart f l q = omega arith

    past : (f : ℕ) → i + 1 ≤ f → f ≢ i
    past f l q = omega arith

    first : (f : ℕ) → has f (i ∷ s.free_frame_list) ≡ true → f < i + 1
    first f m = elim (Bool-cases (f == i)) [
      | inl q ↦ at_end f ((==_iff f i).0 q)
      | inr n ↦ up f (u.below f (later f n m))
    ]
      where
        at_end : (f : ℕ) → f ≡ i → f < i + 1
        at_end f q = omega arith

        up : (f : ℕ) → f < i → f < i + 1
        up f l = omega arith

        later :
            (f : ℕ)
            → (f == i) ≡ false
            → has f (i ∷ s.free_frame_list) ≡ true
            → has f s.free_frame_list ≡ true
        later f n m = ground arith

reserve_frames-Sorted :
    {w : ℕ → ℕ} (r n i : ℕ) (s : Frames)
    → ((f : ℕ) → i ≤ f → f < i + n → is_usable r f ≡ false)
    → SortedUpto w r i s
    → SortedUpto w r (i + n) (reserve_frames i n s)
unfolding reserve_frames
reserve_frames-Sorted {w = w} r zero i s y u = subst (λ k. SortedUpto w r k s) (shift i) u
  where
    shift : (i : ℕ) → i ≡ i + 0
    shift i = omega arith
reserve_frames-Sorted {w = w} r (suc n) i s y u =
    subst (λ k. SortedUpto w r k (reserve_frames i (suc n) s)) (shift n i)
      (reserve_frames-Sorted r n (i + 1) _ (λ f l m. y f (omega arith) (omega arith))
        (reserved r i s (y i (omega arith) (omega arith)) u))
  where
    shift : (n i : ℕ) → (i + 1) + n ≡ i + suc n
    shift n i = omega arith

reserve_frames-kept :
    (n i : ℕ) (s : Frames)
    → ((reserve_frames i n s).entry ≡ s.entry)
      × ((reserve_frames i n s).number_of_frames ≡ s.number_of_frames)
unfolding reserve_frames
reserve_frames-kept zero i s = (refl, refl)
reserve_frames-kept (suc n) i s = reserve_frames-kept n (i + 1) _

insert_frames-Sorted :
    {w : ℕ → ℕ} (r n i : ℕ) (s : Frames)
    → ((f : ℕ) → i ≤ f → f < i + n → is_usable r f ≡ true)
    → SortedUpto w r i s
    → SortedUpto w r (i + n) (insert_frames i n s)
unfolding insert_frames
insert_frames-Sorted {w = w} r zero i s y u = subst (λ k. SortedUpto w r k s) (shift i) u
  where
    shift : (i : ℕ) → i ≡ i + 0
    shift i = omega arith
insert_frames-Sorted {w = w} r (suc n) i s y u =
    subst (λ k. SortedUpto w r k (insert_frames i (suc n) s)) (shift n i)
      (insert_frames-Sorted r n (i + 1) _ (λ f l m. y f (omega arith) (omega arith))
        (inserted r i s (y i (omega arith) (omega arith)) u))
  where
    shift : (n i : ℕ) → (i + 1) + n ≡ i + suc n
    shift n i = omega arith

insert_frames-kept :
    (n i : ℕ) (s : Frames)
    → ((insert_frames i n s).entry ≡ s.entry)
      × ((insert_frames i n s).number_of_frames ≡ s.number_of_frames)
unfolding insert_frames initialize_frame_info
insert_frames-kept zero i s = (refl, refl)
insert_frames-kept (suc n) i s = insert_frames-kept n (i + 1) _

base_usable : (r f : ℕ) → 3 ≤ f → f < 160 → is_usable r f ≡ true
base_usable r f l m = ground arith

high_usable : (r f : ℕ) → r ≤ f → is_usable r f ≡ true
high_usable r f l = ground arith

low_reserved : (r f : ℕ) → f < 3 → 256 ≤ r → is_usable r f ≡ false
low_reserved r f l m = ground arith

hole_reserved : (r f : ℕ) → 160 ≤ f → f < r → is_usable r f ≡ false
hole_reserved r f l m = ground arith

-- initialize_paging, with the number of the first frame after the kernel's end.
abbrev none_free : Frames → Frames
none_free s = record s { free_frame_list = []; modified_frame_list = [] }

abbrev base : Frames → Frames
base s = insert_frames 3 157 (reserve_frames 0 3 (none_free s))

abbrev hole : Frames → Frames
hole s = reserve_frames 160 96 (base s)

abbrev boot : ℕ → Frames → Frames
boot r s = insert_frames r (s.number_of_frames - r) (reserve_frames 256 (r - 256) (hole s))

boot-Sorted :
    (r : ℕ) (s : Frames)
    → 256 ≤ r
    → r ≤ s.number_of_frames
    → ((f : ℕ) → s.references f < 2 ^ 16)
    → SortedUpto s.references r s.number_of_frames (boot r s)
boot-Sorted r s l m small =
    let s3 : SortedUpto s.references r (0 + 3) _ =
      reserve_frames-Sorted r 3 0 (none_free s) (λ f p q. low_reserved r f (omega arith) l) start in
    let s160 : SortedUpto s.references r (3 + 157) _ =
      insert_frames-Sorted r 157 3 _ (λ f p q. base_usable r f p (omega arith)) s3 in
    let s256 : SortedUpto s.references r (160 + 96) _ =
      reserve_frames-Sorted r 96 160 _ (λ f p q. hole_reserved r f p (omega arith)) s160 in
    let sr =
      reserve_frames-Sorted r (r - 256) 256 (hole s)
        (λ f p q. hole_reserved r f (omega arith) (omega arith)) s256 in
    subst (λ k. SortedUpto s.references r k (boot r s)) (to_end m)
      (insert_frames-Sorted r (s.number_of_frames - r) r _ (λ f p q. high_usable r f p)
        (subst (λ k. SortedUpto s.references r k (reserve_frames 256 (r - 256) (hole s))) (to_r l)
          sr))
  where
    start : SortedUpto s.references r 0 (none_free s)
    start = record {
      below = λ f h. absurd (false≢true h);
      once = tt;
      sorted = λ f h. absurd (no h);
      free = λ f h. absurd (no h);
      rest = λ f h. refl;
      small = small;
    }
      where
        no : {f : ℕ} → f < 0 → ⊥
        no h = omega arith

    to_r : 256 ≤ r → 256 + (r - 256) ≡ r
    to_r l = omega arith

    to_end : r ≤ s.number_of_frames → r + (s.number_of_frames - r) ≡ s.number_of_frames
    to_end m = omega arith

boot-kept :
    (r : ℕ) (s : Frames)
    → ((boot r s).entry ≡ s.entry) × ((boot r s).number_of_frames ≡ s.number_of_frames)
boot-kept r s =
    let (a, a') =
      insert_frames-kept (s.number_of_frames - r) r (reserve_frames 256 (r - 256) (hole s)) in
    let (b, b') = reserve_frames-kept (r - 256) 256 (hole s) in
    let (c, c') = reserve_frames-kept 96 160 (base s) in
    let (d, d') = insert_frames-kept 157 3 (reserve_frames 0 3 (none_free s)) in
    let (e, e') = reserve_frames-kept 3 0 (none_free s) in
    (a ∙ b ∙ c ∙ d ∙ e, a' ∙ b' ∙ c' ∙ d' ∙ e')

end_frame : (free_mem : ℕ) → 1048576 ≤ free_mem → 256 ≤ round_up free_mem / page_size
unfolding round_up
end_frame free_mem l = omega arith

-- initialize_paging, where the kernel ends at or above 1 MB and within the frames, no entry stands
-- for a frame, and the references are numbers of 16 bits: the free frames are the frames 3 to 159
-- and those from the kernel's end on; each other frame has one reference, so that the frames are
-- counted with none in hand. The frames 1 and 2, which hold the zero page and the temporary page,
-- are reserved with frame 0, though the comment in the code says that all base memory but frame 0
-- is free.
pub initialize_paging-Counted :
    (free_mem : ℕ) (s : Frames)
    → (1048576 ≤ free_mem)
    → (round_up free_mem / page_size ≤ s.number_of_frames)
    → ((x : ℕ) → is_held (s.entry x) ≡ false)
    → ((f : ℕ) → s.references f < 2 ^ 16)
    → IsCounted
        (own_at_boot s.references (round_up free_mem / page_size) s.number_of_frames)
        (λ f. false)
        (initialize_paging free_mem s)
      × ((f : ℕ)
          → (f < s.number_of_frames)
          → has f (initialize_paging free_mem s).free_frame_list
            ≡ is_usable (round_up free_mem / page_size) f)
unfolding initialize_paging round_up
initialize_paging-Counted free_mem s l m unheld small = (
  record {
    slots = [];
    slots_once = tt;
    covers = λ x h. absurd (false≢true (sym (none_held x) ∙ h));
    in_range = λ x h. absurd (false≢true (sym (none_held x) ∙ h));
    counted = λ f. value f ∙ plus_none (own_at_boot s.references r s.number_of_frames f);
    small = u.small;
    free_once = u.once;
    unreferenced = λ f b.
        none_of f (within f b)
        ∙ sym (u.free f (within f b))
        ∙ or_no (has f (boot r s).free_frame_list);
    free_range = λ f h. subst (λ k. f < k) (sym kept.1) (u.below f h);
    free_apart = λ f h. refl;
  },
  u.free,
)
  where
    r : ℕ
    r = round_up free_mem / page_size

    u : SortedUpto s.references r s.number_of_frames (boot r s)
    u = boot-Sorted r s (end_frame free_mem l) m small

    kept : ((boot r s).entry ≡ s.entry) × ((boot r s).number_of_frames ≡ s.number_of_frames)
    kept = boot-kept r s

    none_held : (x : ℕ) → is_held ((boot r s).entry x) ≡ false
    none_held x = subst (λ k. is_held (k x) ≡ false) (sym kept.0) (unheld x)

    within : (f : ℕ) → f < (boot r s).number_of_frames → f < s.number_of_frames
    within f b = subst (λ k. f < k) kept.1 b

    value : (f : ℕ) → (boot r s).references f ≡ own_at_boot s.references r s.number_of_frames f
    value f = elim (Bool-cases (ltb f s.number_of_frames)) [
      | inl t ↦ rw t (u.sorted f (ground arith))
      | inr t ↦ rw t (u.rest f (ground arith))
    ]

    plus_none : (n : ℕ) → n ≡ n + 0
    plus_none n = omega arith

    none_of : (f : ℕ) → f < s.number_of_frames → ((boot r s).references f == 0) ≡ is_usable r f
    none_of f l = elim (Bool-cases (is_usable r f)) [
      | inl t ↦ rw (u.sorted f l, t) refl
      | inr t ↦ rw (u.sorted f l, t) refl
    ]

    or_no : (b : Bool) → b ≡ (b || false)
    or_no b = ground arith
