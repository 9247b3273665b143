-- ===== src/Frames/Unmap.antt =====
-- kern/mem/memory_manager.c: get_frame_info and unmap_frame.
use fos_educational_os_proje.Base.{
  ℕ, ◌+◌, ◌%◌, ◌^◌, ◌<◌, ◌≡◌, refl, sym, subst, ◌∙◌, ◌≢◌, Bool, true, false, none, some, ◌==◌,
  if◌then◌else◌, update, update_self, update-ne, has, Bool-cases, inl, inr, ==-ne, Yields, yields,
  lt→ltb,
}
use fos_educational_os_proje.Frames.{
  Frames, in_memory, is_held, slot, link_of, initialize_frame_info, free_frame,
  decrement_references, get_page_table, to_frame_info, get_frame_info, drop_frame, unmap_frame,
  perm_buffered,
}
use fos_educational_os_proje.Frames.Inv.{IsCounted, with_slot}
use fos_educational_os_proje.Frames.Drop.{dropped-IsCounted, left_over, left_over-empty}

pub get_page_table-linked :
    (dir va t : ℕ) (s : Frames)
    → s.link (link_of dir va) ≡ in_memory t
    → get_page_table dir va s ≡ some (some t, s)
unfolding get_page_table
get_page_table-linked dir va t s e = rw (get_page_table, e) refl

pub get_frame_info-held :
    (dir va t : ℕ) (s : Frames)
    → s.link (link_of dir va) ≡ in_memory t
    → is_held (s.entry (slot t va)) ≡ true
    → (s.entry (slot t va)).frame < s.number_of_frames
    → get_frame_info dir va s ≡ some ((some t, some (s.entry (slot t va)).frame), s)
unfolding get_frame_info to_frame_info
get_frame_info-held dir va t s e h l =
    rw (get_page_table-linked dir va t s e) (rw h (rw (lt→ltb _ _ l) refl))

pub get_frame_info-none :
    (dir va t : ℕ) (s : Frames)
    → s.link (link_of dir va) ≡ in_memory t
    → is_held (s.entry (slot t va)) ≡ false
    → get_frame_info dir va s ≡ some ((some t, none), s)
unfolding get_frame_info
get_frame_info-none dir va t s e h = rw (get_page_table-linked dir va t s e) (rw h refl)

-- unmap_frame's result in the state `s`, for an address whose table is `t`.
abbrev pub unmapped : ℕ → ℕ → Frames → Frames
unmapped t va s =
    if is_held (s.entry (slot t va)) then drop_frame t va (s.entry (slot t va)).frame s else s

pub unmap_frame-unmapped :
    {own : ℕ → ℕ} {hand : ℕ → Bool} (dir va t : ℕ) (s : Frames)
    → IsCounted own hand s
    → s.link (link_of dir va) ≡ in_memory t
    → unmap_frame dir va s ≡ some (tt, unmapped t va s)
unfolding unmap_frame
unmap_frame-unmapped dir va t s i e = elim (Bool-cases (is_held (s.entry (slot t va)))) [
  | inl h ↦ rw (get_frame_info-held dir va t s e h (i.in_range (slot t va) h)) (rw h refl)
  | inr n ↦ rw (get_frame_info-none dir va t s e n) (rw n refl)
]

pub unmapped-IsCounted :
    {own : ℕ → ℕ} {hand : ℕ → Bool} (va t : ℕ) (s : Frames)
    → IsCounted own hand s
    → (s.entry (slot t va)).bits perm_buffered ≡ false
    → IsCounted own hand (unmapped t va s)
unmapped-IsCounted va t s i b = elim (Bool-cases (is_held (s.entry (slot t va)))) [
  | inl h ↦
      let (j, mem) = with_slot s (slot t va) i in
      rw h (dropped-IsCounted s j (slot t va) _ mem h refl b t va refl)
  | inr n ↦ rw n i
]

decrement-entry : (f : ℕ) (s : Frames) → (decrement_references f s).entry ≡ s.entry
unfolding decrement_references free_frame initialize_frame_info
decrement-entry f s = elim (Bool-cases ((s.references f + 65535) % 2 ^ 16 == 0)) [
  | inl t ↦ rw t refl
  | inr n ↦ rw n refl
]

decrement-link : (f : ℕ) (s : Frames) → (decrement_references f s).link ≡ s.link
unfolding decrement_references free_frame initialize_frame_info
decrement-link f s = elim (Bool-cases ((s.references f + 65535) % 2 ^ 16 == 0)) [
  | inl t ↦ rw t refl
  | inr n ↦ rw n refl
]

decrement-frames :
    (f : ℕ) (s : Frames) → (decrement_references f s).number_of_frames ≡ s.number_of_frames
unfolding decrement_references free_frame initialize_frame_info
decrement-frames f s = elim (Bool-cases ((s.references f + 65535) % 2 ^ 16 == 0)) [
  | inl t ↦ rw t refl
  | inr n ↦ rw n refl
]

pub unmapped-frames :
    (va t : ℕ) (s : Frames) → (unmapped t va s).number_of_frames ≡ s.number_of_frames
unmapped-frames va t s = elim (Bool-cases (is_held (s.entry (slot t va)))) [
  | inl h ↦ rw h (decrement-frames (s.entry (slot t va)).frame s)
  | inr n ↦ rw n refl
]

pub unmapped-written :
    (va t : ℕ) (s : Frames)
    → is_held (s.entry (slot t va)) ≡ true
    → (unmapped t va s).entry (slot t va) ≡ left_over s (slot t va)
unmapped-written va t s h = rw h (
    rw (decrement-entry (s.entry (slot t va)).frame s)
      (update_self s.entry (slot t va) (left_over s (slot t va))))

pub unmapped-link : (va t : ℕ) (s : Frames) → (unmapped t va s).link ≡ s.link
unmapped-link va t s = elim (Bool-cases (is_held (s.entry (slot t va)))) [
  | inl h ↦ rw h (decrement-link _ s)
  | inr n ↦ rw n refl
]

pub unmapped-empty :
    (va t : ℕ) (s : Frames)
    → (s.entry (slot t va)).bits perm_buffered ≡ false
    → is_held ((unmapped t va s).entry (slot t va)) ≡ false
unmapped-empty va t s b = elim (Bool-cases (is_held (s.entry (slot t va)))) [
  | inl h ↦ rw h (
      rw (decrement-entry (s.entry (slot t va)).frame s) (
        subst (λ k. is_held k ≡ false)
          (sym (update_self s.entry (slot t va) (left_over s (slot t va))))
          (left_over-empty s (slot t va) b)))
  | inr n ↦ rw n n
]

pub unmapped-others :
    (va t : ℕ) (s : Frames) (y : ℕ) → y ≢ slot t va → (unmapped t va s).entry y ≡ s.entry y
unmapped-others va t s y ne = elim (Bool-cases (is_held (s.entry (slot t va)))) [
  | inl h ↦
      rw h
        (rw (decrement-entry (s.entry (slot t va)).frame s) (update-ne s.entry (slot t va) _ y ne))
  | inr n ↦ rw n refl
]

-- What unmapping leaves of another frame.
pub unmapped-frame :
    (va t f : ℕ) (s : Frames)
    → f ≢ (s.entry (slot t va)).frame
    → ((unmapped t va s).references f ≡ s.references f)
      × ((unmapped t va s).number_of_frames ≡ s.number_of_frames)
      × (has f (unmapped t va s).free_frame_list ≡ has f s.free_frame_list)
unfolding decrement_references free_frame initialize_frame_info
unmapped-frame va t f s ne = elim (Bool-cases (is_held (s.entry (slot t va)))) [
  | inl h ↦ elim (Bool-cases ((s.references (s.entry (slot t va)).frame + 65535) % 2 ^ 16 == 0)) [
    | inl z ↦ rw h (
        rw z (
          update-ne (update s.references _ _) _ 0 f ne ∙ update-ne s.references _ _ f ne,
          refl,
          rw (==-ne f _ ne) refl,
        ))
    | inr z ↦ rw h (rw z (update-ne s.references _ _ f ne, refl, refl))
  ]
  | inr n ↦ rw n (refl, refl, refl)
]

-- unmap_frame of an address whose table is in memory and whose entry is not marked as buffered,
-- where the frames are counted: it returns, the frames are counted (the references of the frame
-- that was there are one less, and it is free when none are left), the entry stands for no frame,
-- and all other entries are as before.
pub unmap_frame-Counted :
    (own : ℕ → ℕ) (hand : ℕ → Bool) (dir va t : ℕ) (s : Frames)
    → IsCounted own hand s
    → s.link (link_of dir va) ≡ in_memory t
    → (s.entry (slot t va)).bits perm_buffered ≡ false
    → Yields
        (λ r.
          IsCounted own hand r.1
          × (is_held (r.1.entry (slot t va)) ≡ false)
          × ((y : ℕ) → y ≢ slot t va → r.1.entry y ≡ s.entry y))
        (unmap_frame dir va s)
unmap_frame-Counted own hand dir va t s i e b =
    rw (unmap_frame-unmapped dir va t s i e)
      (yields _ (unmapped-IsCounted va t s i b, unmapped-empty va t s b, unmapped-others va t s))
