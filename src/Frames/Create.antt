-- ===== src/Frames/Create.antt =====
-- kern/mem/memory_manager.c: map_frame and create_page_table, and paging_helpers.c: alloc_page.
use fos_educational_os_proje.Base.{
  ℕ, ◌+◌, ◌*◌, ◌/◌, ◌%◌, ◌<◌, ◌≡◌, refl, sym, subst, ◌∙◌, ◌≢◌, Bool, true, false, ◌||◌, not, Option,
  none, some, ◌==◌, update, update_self, update-ne, has, length, arith, Bool-cases, inl, inr, ◌⊎◌,
  ==_iff, false≢true, Yields, yields, ap,
}
use fos_educational_os_proje.Base.Monad.{M, bind_lem}
use fos_educational_os_proje.Frames.{
  Frames, Entry, Perms, TableLink, no_table, in_memory, is_held, slot, link_of, map_frame,
  create_page_table, clear_table, empty_entry, get_page_table, perm_buffered, alloc_page,
}
use fos_educational_os_proje.Frames.Sums.{uses, users-same, uses-empty}
use fos_educational_os_proje.Frames.Inv.{IsCounted}
use fos_educational_os_proje.Frames.Alloc.{allocate_frame-Allocated}
use fos_educational_os_proje.Frames.Unmap.{
  get_page_table-linked, get_frame_info-held, get_frame_info-none,
}
use fos_educational_os_proje.Frames.Map.{
  map_in-Mapped, IsCounted-hand, present-held, Mapped, IsPlain,
}

clear_table-in : (t va : ℕ) (e : ℕ → Entry) → clear_table t e (slot t va) ≡ empty_entry
unfolding clear_table slot
clear_table-in t va e = rw ((==_iff ((t * 1024 + va / 4096 % 1024) / 1024) t).1 (omega arith)) refl

-- What kmalloc of a page gives create_page_table: a page that is no table in use, so that none of its
-- words is an entry that stands for a frame. The frames stay counted, and `f` as it was.
abbrev pub TableGiven : (ℕ → ℕ) → (ℕ → Bool) → ℕ → Option ℕ × Frames → Type 0
TableGiven own hand f (o, s) =
    (t : ℕ) × (o ≡ some t)
    × ((x : ℕ) → x / 1024 ≡ t → is_held (s.entry x) ≡ false)
    × IsCounted own hand s
    × (f < s.number_of_frames)
    × (s.references f < 65535)
    × (has f s.free_frame_list ≡ false)

cleared-held :
    (t x : ℕ) (e : ℕ → Entry)
    → ((x : ℕ) → x / 1024 ≡ t → is_held (e x) ≡ false)
    → (clear_table t e x ≡ e x) ⊎ ((is_held (clear_table t e x) ≡ false) × (is_held (e x) ≡ false))
unfolding clear_table
cleared-held t x e unused = elim (Bool-cases (x / 1024 == t)) [
  | inl q ↦ inr (rw q refl, unused x ((==_iff _ t).0 q))
  | inr n ↦ inl (rw n refl)
]

cleared-IsCounted :
    {own : ℕ → ℕ} {hand : ℕ → Bool} (t : ℕ) (s : Frames)
    → ((x : ℕ) → x / 1024 ≡ t → is_held (s.entry x) ≡ false)
    → IsCounted own hand s
    → IsCounted own hand (record s { entry = clear_table t s.entry })
cleared-IsCounted t s unused i = record {
  slots = i.slots;
  slots_once = i.slots_once;
  covers = λ x h. i.covers x (subst (λ k. is_held k ≡ true) (kept x h) h);
  in_range = λ x h.
      subst (λ k. k.frame < s.number_of_frames) (sym (kept x h))
        (i.in_range x (subst (λ k. is_held k ≡ true) (kept x h) h));
  counted = λ f.
      i.counted f
      ∙ omega (arith, users-same s.entry (clear_table t s.entry) f i.slots (λ x. same x f));
  small = i.small;
  free_once = i.free_once;
  unreferenced = i.unreferenced;
  free_range = i.free_range;
  free_apart = i.free_apart;
}
  where
    kept : (x : ℕ) → is_held (clear_table t s.entry x) ≡ true → clear_table t s.entry x ≡ s.entry x
    kept x h = elim (cleared-held t x s.entry unused) [
      | inl q ↦ q
      | inr (n, m) ↦ absurd (false≢true (sym n ∙ h))
    ]

    same : (x f : ℕ) → uses (clear_table t s.entry x) f ≡ uses (s.entry x) f
    same x f = elim (cleared-held t x s.entry unused) [
      | inl q ↦ ap (λ k. uses k f) q
      | inr (n, m) ↦ uses-empty _ f n ∙ sym (uses-empty _ f m)
    ]

relinked-IsCounted :
    {own : ℕ → ℕ} {hand : ℕ → Bool} (l : ℕ → TableLink) (u : ℕ → Bool) (s : Frames)
    → IsCounted own hand s
    → IsCounted own hand (record s { link = l; pd_used = u })
relinked-IsCounted l u s i = record {
  slots = i.slots;
  slots_once = i.slots_once;
  covers = i.covers;
  in_range = i.in_range;
  counted = i.counted;
  small = i.small;
  free_once = i.free_once;
  unreferenced = i.unreferenced;
  free_range = i.free_range;
  free_apart = i.free_apart;
}

-- The address has a table with a plain entry, or none and kmalloc gives one.
pub data TableReady (kmalloc : M Frames (Option ℕ)) (own : ℕ → ℕ) (hand : ℕ → Bool) (dir f va : ℕ)
    (s : Frames) : Type 0 where
  linked :
      (t : ℕ)
      → s.link (link_of dir va) ≡ in_memory t
      → IsPlain (s.entry (slot t va))
      → TableReady kmalloc own hand dir f va s
  created :
      s.link (link_of dir va) ≡ no_table
      → Yields (TableGiven own hand f) (kmalloc s)
      → TableReady kmalloc own hand dir f va s

created_table :
    {own : ℕ → ℕ} {hand : ℕ → Bool} (kmalloc : M Frames (Option ℕ)) (dir f va : ℕ) (s : Frames)
    → Yields (TableGiven own hand f) (kmalloc s)
    → Yields
        (λ (t, r).
          (r.link (link_of dir va) ≡ in_memory t)
          × (r.entry (slot t va) ≡ empty_entry)
          × IsCounted own hand r
          × (f < r.number_of_frames)
          × (r.references f < 65535)
          × (has f r.free_frame_list ≡ false))
        (create_page_table kmalloc dir va s)
unfolding create_page_table
created_table kmalloc dir f va s y = bind_lem y (λ o r (t, e, unused, i, l, m, out). rw e (
    yields _ (
      update_self r.link (link_of dir va) (in_memory t),
      clear_table-in t va r.entry,
      relinked-IsCounted _ _ _ (cleared-IsCounted t r unused i),
      l,
      m,
      out,
    )))

pub get_page_table-none :
    (dir va : ℕ) (s : Frames)
    → s.link (link_of dir va) ≡ no_table
    → get_page_table dir va s ≡ some (none, s)
unfolding get_page_table
get_page_table-none dir va s e = rw (get_page_table, e) refl

-- map_frame of a frame that exists, is not in the free list and has fewer than 65535 references,
-- where the frames are counted, and the address has a table whose entry is present or empty and
-- not buffered, or else has none and kmalloc gives an unused page with the frames counted and that
-- frame as it was: it returns, the directory links a table in which the address is present and
-- stands for the frame, the frame is in hand no more, and the frames are counted, whichever frame
-- was there before.
pub map_frame-Mapped :
    (kmalloc : M Frames (Option ℕ)) (own : ℕ → ℕ) (hand : ℕ → Bool) (dir f va : ℕ) (perm : Perms)
    (s : Frames)
    → IsCounted own hand s
    → TableReady kmalloc own hand dir f va s
    → f < s.number_of_frames
    → s.references f < 65535
    → has f s.free_frame_list ≡ false
    → Yields (λ r. Mapped own hand dir f va r.1) (map_frame kmalloc dir f va perm s)
unfolding map_frame
map_frame-Mapped kmalloc own hand dir f va perm s i (linked t e plain) l m out =
    rw (get_page_table-linked dir va t s e) (map_in-Mapped dir t f va perm s i e plain l m out)
map_frame-Mapped kmalloc own hand dir f va perm s i (created e y) l m out =
    rw (get_page_table-none dir va s e) (
      bind_lem (created_table kmalloc dir f va s y) (λ t r (e', empty, j, l', m', out').
        map_in-Mapped dir t f va perm r j e'
          (ap (λ k. k.bits perm_buffered) empty, λ p. ap Entry.frame empty) l' m' out'))

in_hand :
    {own : ℕ → ℕ} {hand : ℕ → Bool} (f : ℕ) (s : Frames)
    → IsCounted own hand s
    → hand f ≡ true
    → f < s.number_of_frames
    → (s.references f < 65535) × (has f s.free_frame_list ≡ false)
in_hand {hand = hand} f s i h l = (
  small (
      (==_iff (s.references f) 0).0
        (i.unreferenced f l ∙ rw h (or_true (has f s.free_frame_list)))),
  out,
)
  where
    small : s.references f ≡ 0 → s.references f < 65535
    small z = omega arith

    or_true : (b : Bool) → (b || true) ≡ true
    or_true b = ground arith

    out : has f s.free_frame_list ≡ false
    out = elim (Bool-cases (has f s.free_frame_list)) [
      | inl t ↦ absurd (false≢true (sym (i.free_apart f t) ∙ h))
      | inr n ↦ n
    ]

-- alloc_page of an address whose table is in memory, with an entry that is present or empty and
-- not buffered, where the frames are counted and the free list is not empty: it returns that the
-- page is new where the entry stood for no frame, and else that it was mapped; in both cases the
-- entry of the address then stands for a frame and the frames are counted, with the same frames in
-- hand.
pub alloc_page-Counted :
    (kmalloc : M Frames (Option ℕ)) (own : ℕ → ℕ) (hand : ℕ → Bool) (dir va t : ℕ) (perms : Perms)
    (s : Frames)
    → IsCounted own hand s
    → s.link (link_of dir va) ≡ in_memory t
    → IsPlain (s.entry (slot t va))
    → (0 < length s.free_frame_list)
    → Yields
        (λ (fresh, r).
          (fresh ≡ not (is_held (s.entry (slot t va))))
          × IsCounted own hand r
          × ((u : ℕ) × (r.link (link_of dir va) ≡ in_memory u)
              × (is_held (r.entry (slot u va)) ≡ true)))
        (alloc_page kmalloc dir va perms s)
unfolding alloc_page
alloc_page-Counted kmalloc own hand dir va t perms s i e plain p =
    elim (Bool-cases (is_held (s.entry (slot t va)))) [
      | inl h ↦
          rw (get_frame_info-held dir va t s e h (i.in_range (slot t va) h))
            (yields _ (rw h refl, i, (t, e, h)))
      | inr n ↦ rw (get_frame_info-none dir va t s e n) (
          bind_lem (allocate_frame-Allocated own hand s i p)
            (λ f r (free, l, entry, link, count, j).
              let (m, out) =
                in_hand f r j (update_self hand f true) (subst (λ k. f < k) (sym count) l) in
              bind_lem
                (map_frame-Mapped kmalloc own (update hand f true) dir f va perms r j
                  (linked t (ap (λ k. k (link_of dir va)) link ∙ e)
                    (subst (λ k. IsPlain (k (slot t va))) (sym entry) plain))
                  (subst (λ k. f < k) (sym count) l) m out)
                (λ u r' (t', e', named, now, j'). yields _ (
                  rw n refl,
                  IsCounted-hand _ hand r' (λ g b. restored f g (i.free_apart f free)) j',
                  (t', e', present-held (r'.entry (slot t' va)) now),
                ))))
    ]
  where
    restored : (f g : ℕ) → hand f ≡ false → hand g ≡ update (update hand f true) f false g
    restored f g h = elim (Bool-cases (g == f)) [
      | inl q ↦
          subst (λ k. hand k ≡ update (update hand f true) f false k) (sym ((==_iff g f).0 q))
            (h ∙ sym (update_self (update hand f true) f false))
      | inr n ↦
          let ne : g ≢ f = λ q. false≢true (sym n ∙ (==_iff g f).1 q) in
          sym (update-ne (update hand f true) f false g ne ∙ update-ne hand f true g ne)
    ]
