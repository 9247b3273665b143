-- ===== src/Frames/Drop.antt =====
-- kern/mem/memory_manager.c: dropping an entry and a reference keeps the frames counted.
use fos_educational_os_proje.Base.{
  ℕ, zero, suc, ◌+◌, ◌-◌, ◌%◌, ◌^◌, ◌≤◌, ◌<◌, ◌≡◌, refl, sym, subst, ◌∙◌, ◌≢◌, Bool, true, false,
  ◌&&◌, ◌||◌, ◌∷◌, ◌==◌, if◌then◌else◌, update, update_self, update-ne, has, arith, Bool-cases, inl,
  inr, ◌⊎◌, ==_iff, ==-ne, false≢true, ap,
}
use fos_educational_os_proje.Frames.{
  Frames, Entry, is_held, slot, is_available, ◌∩◌, initialize_frame_info, free_frame,
  decrement_references, drop_frame, perm_buffered,
}
use fos_educational_os_proje.Frames.Sums.{uses, users-listed, uses-empty, uses-held, uses-other}
use fos_educational_os_proje.Frames.Inv.{IsCounted, entry_set}

pub dec_lem : (r : ℕ) → 0 < r → r < 2 ^ 16 → (r + 65535) % 2 ^ 16 ≡ r - 1
dec_lem r p l = omega arith

update-pred-zero : (h : ℕ → ℕ) (f g : ℕ) → 1 < h f → (update h f (h f - 1) g == 0) ≡ (h g == 0)
unfolding update
update-pred-zero h f g p = elim (Bool-cases (g == f)) [
  | inl t ↦
      subst (λ k. ((if k == f then h f - 1 else h k) == 0) ≡ (h k == 0)) (sym ((==_iff g f).0 t))
        (at_point p)
  | inr n ↦ rw n refl
]
  where
    at_point : 1 < h f → ((if f == f then h f - 1 else h f) == 0) ≡ (h f == 0)
    at_point p =
        rw
          (
            (==_iff f f).1 refl,
            ==-ne (h f - 1) 0 (λ q. omega arith),
            ==-ne (h f) 0 (λ q. omega arith),
          )
          refl

update-twice : (h : ℕ → ℕ) (f g : ℕ) → update (update h f 0) f 0 g ≡ update h f 0 g
unfolding update
update-twice h f g = ground arith

update-zero : (h : ℕ → ℕ) (f g : ℕ) → (update h f 0 g == 0) ≡ ((g == f) || (h g == 0))
unfolding update
update-zero h f g = ground arith

decrement-last :
    (f : ℕ) (s : Frames)
    → s.references f ≡ 1
    → decrement_references f s ≡ free_frame f (record s { references = update s.references f 0 })
unfolding decrement_references
decrement-last f s e = subst (λ k. last k) (sym e) refl
  where
    last : ℕ → Type 0
    last k =
        (if (k + 65535) % 2 ^ 16 == 0
          then free_frame f (record s { references = update s.references f ((k + 65535) % 2 ^ 16) })
          else record s { references = update s.references f ((k + 65535) % 2 ^ 16) })
        ≡ free_frame f (record s { references = update s.references f 0 })

decrement-more :
    (f : ℕ) (s : Frames)
    → (1 < s.references f)
    → (s.references f < 2 ^ 16)
    → decrement_references f s
      ≡ record s { references = update s.references f (s.references f - 1) }
unfolding decrement_references
decrement-more f s p l =
    rw (dec_lem (s.references f) (omega arith) l, ==-ne (s.references f - 1) 0 (λ q. omega arith))
      refl

-- The entry that unmap_frame leaves: the bits that are free for software.
abbrev pub left_over : Frames → ℕ → Entry
left_over s x = record { frame = 0; bits = (s.entry x).bits ∩ is_available }

no_bit : (p b : Bool) → b ≡ false → ((p && false) || (b && true)) ≡ false
no_bit p b e = ground arith

pub left_over-empty :
    (s : Frames) (x : ℕ) → (s.entry x).bits perm_buffered ≡ false → is_held (left_over s x) ≡ false
left_over-empty s x b = no_bit _ _ b

module _ {own : ℕ → ℕ} {hand : ℕ → Bool} (s : Frames) (i : IsCounted own hand s) (x f : ℕ)
    (mem : has x i.slots ≡ true) (held : is_held (s.entry x) ≡ true) (names : (s.entry x).frame ≡ f)
    (plain : (s.entry x).bits perm_buffered ≡ false) where
  one_user : 0 < s.references f
  one_user =
      omega (
        arith,
        i.counted f,
        users-listed s.entry x f i.slots mem,
        uses-held (s.entry x) f held names,
      )

  balance :
      (g : ℕ)
      → update s.references f (s.references f - 1) g + uses (s.entry x) g
        ≡ s.references g + uses (left_over s x) g
  balance g = elim (Bool-cases (g == f)) [
    | inl t ↦
        let q = (==_iff g f).0 t in
        subst
          (λ k.
            update s.references f (s.references f - 1) k + uses (s.entry x) k
            ≡ s.references k + uses (left_over s x) k)
          (sym q)
          (omega (
            arith,
            update_self s.references f (s.references f - 1),
            one_user,
            uses-held (s.entry x) f held names,
            uses-empty (left_over s x) f (left_over-empty s x plain),
          ))
    | inr n ↦
        let ne : g ≢ f = λ q. false≢true (sym n ∙ (==_iff g f).1 q) in
        omega (
          arith,
          update-ne s.references f (s.references f - 1) g ne,
          uses-other (s.entry x) g (λ q. ne (q ∙ names)),
          uses-empty (left_over s x) g (left_over-empty s x plain),
        )
  ]

  less : (g : ℕ) → update s.references f (s.references f - 1) g ≤ s.references g
  unfolding update
  less g = ground arith

  f_range : f < s.number_of_frames
  f_range = subst (λ k. k < s.number_of_frames) names (i.in_range x held)

  not_free : (g : ℕ) → has g s.free_frame_list ≡ true → g ≢ f
  not_free g m q = positive one_user (==_zero f (subst (λ k. has k s.free_frame_list ≡ true) q m))
    where
      positive : 0 < s.references f → s.references f ≡ 0 → ⊥
      positive p z = omega arith

      ==_zero : (f : ℕ) → has f s.free_frame_list ≡ true → s.references f ≡ 0
      ==_zero f m = (==_iff (s.references f) 0).0 (i.unreferenced f (i.free_range f m) ∙ rw m refl)

  not_hand : hand f ≡ false
  not_hand =
      second _ _
        (sym (i.unreferenced f f_range) ∙ ==-ne (s.references f) 0 (λ z. positive one_user z))
    where
      positive : 0 < s.references f → s.references f ≡ 0 → ⊥
      positive p z = omega arith

      second : (a b : Bool) → (a || b) ≡ false → b ≡ false
      second a b o = ground arith

  dropped-more :
      (1 < s.references f)
      → IsCounted own hand (record s {
        references = update s.references f (s.references f - 1);
        va = update s.va f 0;
        entry = update s.entry x (left_over s x);
      })
  dropped-more p =
      entry_set s _ x (left_over s x) i mem refl refl
        (λ h. absurd (false≢true (sym (left_over-empty s x plain) ∙ h))) balance
        (λ g. omega (arith, less g, i.small g)) i.free_once
        (λ g l. update-pred-zero s.references f g p ∙ i.unreferenced g l)
        (λ g m. (i.free_range g m, i.free_apart g m))

  dropped-last :
      (s.references f ≡ 1)
      → IsCounted own hand (record s {
        free_frame_list = f ∷ s.free_frame_list;
        references = update (update s.references f 0) f 0;
        is_buffered = update s.is_buffered f false;
        va = update (update s.va f 0) f 0;
        entry = update s.entry x (left_over s x);
      })
  dropped-last e =
      entry_set s _ x (left_over s x) i mem refl refl
        (λ h. absurd (false≢true (sym (left_over-empty s x plain) ∙ h)))
        (λ g. omega (arith, twice g, balance g)) (λ g. omega (arith, twice g, less g, i.small g))
        (fresh, i.free_once)
        (λ g l.
          ap (λ k. k == 0) (update-twice s.references f g)
          ∙ update-zero s.references f g
          ∙ joined g (i.unreferenced g l))
        (λ g m. free_or g m)
    where
      pred_zero : s.references f ≡ 1 → 0 ≡ s.references f - 1
      pred_zero e = omega arith

      twice :
          (g : ℕ)
          → update (update s.references f 0) f 0 g ≡ update s.references f (s.references f - 1) g
      twice g = update-twice s.references f g ∙ ap (λ k. update s.references f k g) (pred_zero e)

      joined :
          (g : ℕ)
          → (s.references g == 0) ≡ (has g s.free_frame_list || hand g)
          → ((g == f) || (s.references g == 0)) ≡ (((g == f) || has g s.free_frame_list) || hand g)
      joined g u = rw u (ground arith)

      free_or :
          (g : ℕ)
          → ((g == f) || has g s.free_frame_list) ≡ true
          → (g < s.number_of_frames) × (hand g ≡ false)
      free_or g m = elim (Bool-cases (g == f)) [
        | inl t ↦
            let q = sym ((==_iff g f).0 t) in
            (subst (λ k. k < s.number_of_frames) q f_range, subst (λ k. hand k ≡ false) q not_hand)
        | inr n ↦
            let m' : has g s.free_frame_list ≡ true = ground arith in
            (i.free_range g m', i.free_apart g m')
      ]

      fresh : has f s.free_frame_list ≡ false
      fresh = elim (Bool-cases (has f s.free_frame_list)) [
        | inl t ↦ absurd (not_free f t refl)
        | inr n ↦ n
      ]

  pub dropped-IsCounted : (t va : ℕ) → (slot t va ≡ x) → IsCounted own hand (drop_frame t va f s)
  unfolding free_frame initialize_frame_info
  dropped-IsCounted t va e = elim (last-cases (s.references f) one_user) [
    | inl q ↦ rw (e, decrement-last f s q) (dropped-last q)
    | inr p ↦ rw (e, decrement-more f s p (i.small f)) (dropped-more p)
  ]
    where
      last-cases : (n : ℕ) → 0 < n → (n ≡ 1) ⊎ (1 < n)
      last-cases zero p = elim p [ ]
      last-cases (suc zero) p = inl refl
      last-cases (suc (suc n)) p = inr (omega arith)
