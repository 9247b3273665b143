-- ===== src/Frames/Map.antt =====
-- kern/mem/memory_manager.c: map_frame keeps the frames counted, in a table that is there or a new one.
use fos_educational_os_proje.Base.{
  ℕ, ◌+◌, ◌%◌, ◌^◌, ◌<◌, ◌≡◌, refl, sym, subst, ◌∙◌, ◌≢◌, Bool, true, false, ◌&&◌, ◌||◌, not, ◌==◌,
  update, update_self, update-ne, has, arith, Bool-cases, inl, inr, ==_iff, ==-ne, false≢true,
  Yields, yields, ap,
}
use fos_educational_os_proje.Frames.{
  Frames, Entry, Perms, in_memory, is_held, slot, link_of, is_available, is_present, ◌∩◌, ◌∪◌,
  add_frame, map_in, perm_present, perm_buffered,
}
use fos_educational_os_proje.Frames.Sums.{uses, users-listed, uses-empty, uses-held, uses-other}
use fos_educational_os_proje.Frames.Inv.{IsCounted, with_slot, entry_set}
use fos_educational_os_proje.Frames.Unmap.{
  unmapped, unmap_frame-unmapped, unmapped-IsCounted, unmapped-empty, unmapped-link, unmapped-frame,
}

-- The entry that map_frame writes.
abbrev pub mapped_entry : Frames → ℕ → ℕ → Perms → Entry
mapped_entry s x f perm = record {
  frame = f;
  bits = (s.entry x).bits ∩ is_available ∪ perm ∪ is_present;
}

mapped-held : (s : Frames) (x f : ℕ) (perm : Perms) → is_held (mapped_entry s x f perm) ≡ true
mapped-held s x f perm =
    held_bits (not (f == 0)) ((s.entry x).bits perm_present) (perm perm_present)
      ((mapped_entry s x f perm).bits perm_buffered)
  where
    held_bits : (a b p q : Bool) → (a || ((((b && false) || p) || true) || q)) ≡ true
    held_bits a b p q = ground arith

inc_lem : (r : ℕ) → r < 65535 → (r + 1) % 2 ^ 16 ≡ r + 1
inc_lem r l = omega arith

update-inc-le : (h : ℕ → ℕ) (f g : ℕ) → h g < 2 ^ 16 → h f < 65535 → update h f (h f + 1) g < 2 ^ 16
unfolding update
update-inc-le h f g l m = ground arith

pub IsCounted-hand :
    {own : ℕ → ℕ} (hand hand' : ℕ → Bool) (s : Frames)
    → ((g : ℕ) → g < s.number_of_frames → hand' g ≡ hand g)
    → IsCounted own hand s
    → IsCounted own hand' s
IsCounted-hand hand hand' s same i = record {
  slots = i.slots;
  slots_once = i.slots_once;
  covers = i.covers;
  in_range = i.in_range;
  counted = i.counted;
  small = i.small;
  free_once = i.free_once;
  unreferenced =
      λ g l. i.unreferenced g l ∙ ap (λ k. has g s.free_frame_list || k) (sym (same g l));
  free_range = i.free_range;
  free_apart = λ g m. same g (i.free_range g m) ∙ i.free_apart g m;
}

added-IsCounted :
    {own : ℕ → ℕ} {hand : ℕ → Bool} (t f va : ℕ) (perm : Perms) (s : Frames)
    → IsCounted own hand s
    → is_held (s.entry (slot t va)) ≡ false
    → f < s.number_of_frames
    → s.references f < 65535
    → has f s.free_frame_list ≡ false
    → IsCounted own (update hand f false) (add_frame t f va perm s)
added-IsCounted {hand = hand} t f va perm s i n l m out =
    let x = slot t va in
    let (j, mem) = with_slot s x i in
    rw (inc_lem (s.references f) m) (
      entry_set s _ x (mapped_entry s x f perm) j mem refl refl (λ h. l) (λ g. balance x n g)
        (λ g. update-inc-le s.references f g (i.small g) m) i.free_once (λ g b. unref g b)
        (λ g e. (i.free_range g e, update-ne hand f false g (apart g e) ∙ i.free_apart g e)))
  where
    balance :
        (x : ℕ)
        → is_held (s.entry x) ≡ false
        → (g : ℕ)
        → update s.references f (s.references f + 1) g + uses (s.entry x) g
          ≡ s.references g + uses (mapped_entry s x f perm) g
    balance x e0 g = elim (Bool-cases (g == f)) [
      | inl e ↦
          let q = (==_iff g f).0 e in
          subst
            (λ k.
              update s.references f (s.references f + 1) k + uses (s.entry x) k
              ≡ s.references k + uses (mapped_entry s x f perm) k)
            (sym q)
            (omega (
              arith,
              update_self s.references f (s.references f + 1),
              uses-empty (s.entry x) f e0,
              uses-held (mapped_entry s x f perm) f (mapped-held s x f perm) refl,
            ))
      | inr e ↦
          let ne : g ≢ f = λ q. false≢true (sym e ∙ (==_iff g f).1 q) in
          omega (
            arith,
            update-ne s.references f (s.references f + 1) g ne,
            uses-empty (s.entry x) g e0,
            uses-other (mapped_entry s x f perm) g ne,
          )
    ]

    apart : (g : ℕ) → has g s.free_frame_list ≡ true → g ≢ f
    apart g e q = false≢true (sym out ∙ subst (λ k. has k s.free_frame_list ≡ true) q e)

    unref :
        (g : ℕ)
        → g < s.number_of_frames
        → (update s.references f (s.references f + 1) g == 0)
          ≡ (has g s.free_frame_list || update hand f false g)
    unref g b = elim (Bool-cases (g == f)) [
      | inl e ↦
          subst
            (λ k.
              (update s.references f (s.references f + 1) k == 0)
              ≡ (has k s.free_frame_list || update hand f false k))
            (sym ((==_iff g f).0 e))
            (rw
              (
                update_self s.references f (s.references f + 1),
                out,
                update_self hand f false,
                ==-ne (s.references f + 1) 0 (λ z. omega arith),
              )
              refl)
      | inr e ↦
          let ne : g ≢ f = λ q. false≢true (sym e ∙ (==_iff g f).1 q) in
          rw (update-ne s.references f (s.references f + 1) g ne, update-ne hand f false g ne)
            (i.unreferenced g b)
    ]

-- An entry that is present or stands for no frame, and is not buffered.
abbrev pub IsPlain : Entry → Type 0
IsPlain e = (e.bits perm_buffered ≡ false) × (e.bits perm_present ≡ false → e.frame ≡ 0)

plain-empty : (e : Entry) → IsPlain e → e.bits perm_present ≡ false → is_held e ≡ false
plain-empty e (b, z) n = rw (n, b, z n) refl

pub present-held : (e : Entry) → e.bits perm_present ≡ true → is_held e ≡ true
present-held e p = rw p (ground arith)

-- A frame that some entry stands for is not in hand.
held-hand :
    {own : ℕ → ℕ} {hand : ℕ → Bool} (s : Frames) (x : ℕ)
    → IsCounted own hand s
    → is_held (s.entry x) ≡ true
    → hand (s.entry x).frame ≡ false
held-hand {hand = hand} s x i h =
    let used : 0 < s.references f = omega (
      arith,
      i.counted f,
      users-listed s.entry x f i.slots (i.covers x h),
      uses-held (s.entry x) f h refl,
    ) in
    second _ _ (sym (i.unreferenced f (i.in_range x h)) ∙ ==-ne (s.references f) 0 (positive used))
  where
    f : ℕ
    f = (s.entry x).frame

    second : (a b : Bool) → (a || b) ≡ false → b ≡ false
    second a b o = ground arith

    positive : 0 < s.references f → s.references f ≢ 0
    positive p z = omega arith

-- The frame `f` stands at the address `va` of the table that `dir` links, and has left the hand.
abbrev pub Mapped : (ℕ → ℕ) → (ℕ → Bool) → ℕ → ℕ → ℕ → Frames → Type 0
Mapped own hand dir f va s =
    (t : ℕ) × (s.link (link_of dir va) ≡ in_memory t)
    × ((s.entry (slot t va)).frame ≡ f)
    × ((s.entry (slot t va)).bits perm_present ≡ true)
    × IsCounted own (update hand f false) s

added-Mapped :
    {own : ℕ → ℕ} {hand : ℕ → Bool} (dir t f va : ℕ) (perm : Perms) (s : Frames)
    → IsCounted own hand s
    → s.link (link_of dir va) ≡ in_memory t
    → is_held (s.entry (slot t va)) ≡ false
    → f < s.number_of_frames
    → s.references f < 65535
    → has f s.free_frame_list ≡ false
    → Mapped own hand dir f va (add_frame t f va perm s)
added-Mapped dir t f va perm s i e n l m out =
    let w = update_self s.entry (slot t va) (mapped_entry s (slot t va) f perm) in
    (
      t,
      e,
      ap Entry.frame w,
      subst (λ k. k.bits perm_present ≡ true) (sym w)
          (bit ((s.entry (slot t va)).bits perm_present) (perm perm_present)),
      added-IsCounted t f va perm s i n l m out,
    )
  where
    bit : (a p : Bool) → (((a && false) || p) || true) ≡ true
    bit a p = ground arith

pub map_in-Mapped :
    {own : ℕ → ℕ} {hand : ℕ → Bool} (dir t f va : ℕ) (perm : Perms) (s : Frames)
    → IsCounted own hand s
    → s.link (link_of dir va) ≡ in_memory t
    → IsPlain (s.entry (slot t va))
    → f < s.number_of_frames
    → s.references f < 65535
    → has f s.free_frame_list ≡ false
    → Yields (λ r. Mapped own hand dir f va r.1) (map_in t dir f va perm s)
unfolding map_in
map_in-Mapped {own = own} {hand = hand} dir t f va perm s i e plain l m out =
    elim (Bool-cases ((s.entry (slot t va)).bits perm_present)) [
      | inl p ↦ elim (Bool-cases ((s.entry (slot t va)).frame == f)) [
        | inl q ↦ rw p (
            rw q (
              yields _ (
                t,
                e,
                (==_iff _ f).0 q,
                p,
                IsCounted-hand hand (update hand f false) s
                    (λ g b. same g (
                      subst (λ k. hand k ≡ false) ((==_iff _ f).0 q)
                        (held-hand s (slot t va) i (present-held (s.entry (slot t va)) p))))
                    i,
              )))
        | inr n ↦
            let ne : f ≢ (s.entry (slot t va)).frame =
              λ q. false≢true (sym n ∙ (==_iff _ f).1 (sym q)) in
            let (refs, count, free) = unmapped-frame va t f s ne in
            rw p (
              rw n (
                rw (unmap_frame-unmapped dir va t s i e) (
                  yields _ (
                    added-Mapped dir t f va perm (unmapped t va s)
                      (unmapped-IsCounted va t s i plain.0)
                      (ap (λ k. k (link_of dir va)) (unmapped-link va t s) ∙ e)
                      (unmapped-empty va t s plain.0) (subst (λ k. f < k) (sym count) l)
                      (subst (λ k. k < 65535) (sym refs) m) (free ∙ out)))))
      ]
      | inr n ↦ rw n (
          yields _ (
            added-Mapped dir t f va perm s i e (plain-empty (s.entry (slot t va)) plain n) l m out))
    ]
  where
    same : (g : ℕ) → hand f ≡ false → update hand f false g ≡ hand g
    same g h = elim (Bool-cases (g == f)) [
      | inl e ↦
          subst (λ k. update hand f false k ≡ hand k) (sym ((==_iff g f).0 e))
            (update_self hand f false ∙ sym h)
      | inr n ↦ update-ne hand f false g (λ q. false≢true (sym n ∙ (==_iff g f).1 q))
    ]
