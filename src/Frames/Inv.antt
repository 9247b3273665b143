-- ===== src/Frames/Inv.antt =====
-- kern/mem/memory_manager.c: the invariant of the frames. The references of a frame are the entries that
-- stand for it and what the kernel holds of it by other means, and the free frames are those without any.
use fos_educational_os_proje.Base.{
  ℕ, ◌+◌, ◌^◌, ◌<◌, ◌≡◌, sym, subst, ◌∙◌, Bool, true, false, ◌||◌, List, ◌∷◌, ◌==◌, update,
  update_self, update-ne, has, Distinct, arith, Bool-cases, inl, inr, ==_iff, false≢true,
}
use fos_educational_os_proje.Frames.{Frames, Entry, is_held}
use fos_educational_os_proje.Frames.Sums.{uses, users, users-in, uses-empty}

-- `own` counts the references that are not entries (frames reserved at boot), `hand` are the frames that
-- were allocated and not mapped yet.
pub record IsCounted (own : ℕ → ℕ) (hand : ℕ → Bool) (s : Frames) : Type 0 where
  -- the slots in use: all entries that stand for a frame are at one of them
  pub slots : List ℕ
  pub slots_once : Distinct slots
  pub covers : (x : ℕ) → is_held (s.entry x) ≡ true → has x slots ≡ true
  pub in_range : (x : ℕ) → is_held (s.entry x) ≡ true → (s.entry x).frame < s.number_of_frames
  pub counted : (f : ℕ) → s.references f ≡ own f + users s.entry f slots
  pub small : (f : ℕ) → s.references f < 2 ^ 16
  pub free_once : Distinct s.free_frame_list
  -- a frame without references is free or in hand, not both, and no other is
  pub unreferenced :
      (f : ℕ)
      → (f < s.number_of_frames)
      → (s.references f == 0) ≡ (has f s.free_frame_list || hand f)
  pub free_range : (f : ℕ) → has f s.free_frame_list ≡ true → f < s.number_of_frames
  pub free_apart : (f : ℕ) → has f s.free_frame_list ≡ true → hand f ≡ false

-- A list of slots in use can be made to hold any slot.
pub with_slot :
    {own : ℕ → ℕ} {hand : ℕ → Bool} (s : Frames) (x : ℕ)
    → IsCounted own hand s
    → (i : IsCounted own hand s) × (has x i.slots ≡ true)
with_slot s x i = elim (Bool-cases (has x i.slots)) [
  | inl t ↦ (i, t)
  | inr f ↦ elim (Bool-cases (is_held (s.entry x))) [
    | inl h ↦ (i, i.covers x h)
    | inr n ↦ (
      record {
        slots = x ∷ i.slots;
        slots_once = (f, i.slots_once);
        covers = λ y h. later y (i.covers y h);
        in_range = i.in_range;
        counted = λ g. i.counted g ∙ omega (arith, none_more g n);
        small = i.small;
        free_once = i.free_once;
        unreferenced = i.unreferenced;
        free_range = i.free_range;
        free_apart = i.free_apart;
      },
      first,
    )
  ]
]
  where
    later : (y : ℕ) → has y i.slots ≡ true → has y (x ∷ i.slots) ≡ true
    later y h = ground arith

    first : has x (x ∷ i.slots) ≡ true
    first = ground arith

    none_more : (g : ℕ) → is_held (s.entry x) ≡ false → uses (s.entry x) g ≡ 0
    none_more g n = uses-empty (s.entry x) g n

-- A write of one entry, with the references that follow it.
pub entry_set :
    {own : ℕ → ℕ} {hand hand' : ℕ → Bool} (s t : Frames) (x : ℕ) (v : Entry)
    → (i : IsCounted own hand s) → has x i.slots ≡ true
    → (t.entry ≡ update s.entry x v)
    → (t.number_of_frames ≡ s.number_of_frames)
    → (is_held v ≡ true → v.frame < s.number_of_frames)
    → ((g : ℕ) → t.references g + uses (s.entry x) g ≡ s.references g + uses v g)
    → ((g : ℕ) → t.references g < 2 ^ 16)
    → Distinct t.free_frame_list
    → ((g : ℕ)
        → (g < s.number_of_frames)
        → (t.references g == 0) ≡ (has g t.free_frame_list || hand' g))
    → ((g : ℕ) → has g t.free_frame_list ≡ true → (g < s.number_of_frames) × (hand' g ≡ false))
    → IsCounted own hand' t
entry_set {own = own} s t x v i mem e n ok refs small once unref free = record {
  slots = i.slots;
  slots_once = i.slots_once;
  covers = λ y h. covered y (subst (λ k. is_held (k y) ≡ true) e h);
  in_range = λ y h.
      subst (λ k. (t.entry y).frame < k) (sym n)
        (subst (λ k. (k y).frame < s.number_of_frames) (sym e)
          (ranged y (subst (λ k. is_held (k y) ≡ true) e h)));
  counted = λ g.
      subst (λ k. t.references g ≡ own g + users k g i.slots) (sym e)
        (omega (arith, refs g, i.counted g, users-in s.entry x v g i.slots i.slots_once mem));
  small = small;
  free_once = once;
  unreferenced = λ g l. unref g (subst (λ k. g < k) n l);
  free_range = λ g m. subst (λ k. g < k) (sym n) (free g m).0;
  free_apart = λ g m. (free g m).1;
}
  where
    covered : (y : ℕ) → is_held (update s.entry x v y) ≡ true → has y i.slots ≡ true
    covered y h = elim (Bool-cases (y == x)) [
      | inl q ↦ subst (λ k. has k i.slots ≡ true) (sym ((==_iff y x).0 q)) mem
      | inr f ↦ i.covers y (
          subst (λ k. is_held k ≡ true)
            (update-ne s.entry x v y (λ q. false≢true (sym f ∙ (==_iff y x).1 q))) h)
    ]

    ranged :
        (y : ℕ)
        → is_held (update s.entry x v y) ≡ true
        → (update s.entry x v y).frame < s.number_of_frames
    ranged y h = elim (Bool-cases (y == x)) [
      | inl q ↦ at_slot y ((==_iff y x).0 q) h
      | inr f ↦
          let u = update-ne s.entry x v y (λ q. false≢true (sym f ∙ (==_iff y x).1 q)) in
          subst (λ k. k.frame < s.number_of_frames) (sym u)
            (i.in_range y (subst (λ k. is_held k ≡ true) u h))
    ]
      where
        at_slot :
            (y : ℕ)
            → y ≡ x
            → is_held (update s.entry x v y) ≡ true
            → (update s.entry x v y).frame < s.number_of_frames
        at_slot y q h =
            let u = subst (λ k. update s.entry x v k ≡ v) (sym q) (update_self s.entry x v) in
            subst (λ k. k.frame < s.number_of_frames) (sym u)
              (ok (subst (λ k. is_held k ≡ true) u h))
