-- ===== src/PageFile/Start.antt =====
-- kern/disk/pagefile_manager.c: initialize_disk_page_file puts each frame of the file on the free list once.
use fos_educational_os_proje.Base.{
  ℕ, zero, suc, ◌+◌, ◌-◌, ◌<◌, ◌≡◌, refl, sym, subst, ◌∙◌, ◌≢◌, ◌↔◌, inl, inr, Bool, true, false,
  List, [], ◌∷◌, ◌==◌, has, Distinct, arith, ==_iff, Bool-cases, false≢true,
}
use fos_educational_os_proje.PageFile.{
  PageFile, insert_disk_frames, initialize_disk_page_file, pages_per_file,
}
use fos_educational_os_proje.PageFile.Inv.{IsKept}

-- The list of the frames from 1 up to `i`, the last in front.
record Filled (i : ℕ) (q : List ℕ) : Type 0 where
  below : (f : ℕ) → has f q ≡ true → (f ≢ 0) × (f < i)
  all : (f : ℕ) → f ≢ 0 → f < i → has f q ≡ true
  once : Distinct q

step : (i : ℕ) (q : List ℕ) → i ≢ 0 → Filled i q → Filled (i + 1) (i ∷ q)
step i q n k = record {
  below = λ f m. elim (Bool-cases (f == i)) [
    | inl t ↦ ((λ z. n (sym ((==_iff f i).0 t) ∙ z)), omega (arith, (==_iff f i).0 t))
    | inr o ↦ let b = k.below f (rest f i q o m) in (b.0, omega (arith, b.1))
  ];
  all = λ f z l. elim (Bool-cases (f == i)) [
    | inl t ↦ front f i q t
    | inr o ↦ later f i q (k.all f z (below_last f i o l))
  ];
  once = (fresh, k.once);
}
  where
    rest : (f i : ℕ) (q : List ℕ) → (f == i) ≡ false → has f (i ∷ q) ≡ true → has f q ≡ true
    rest f i q o m = ground arith

    front : (f i : ℕ) (q : List ℕ) → (f == i) ≡ true → has f (i ∷ q) ≡ true
    front f i q t = ground arith

    later : (f i : ℕ) (q : List ℕ) → has f q ≡ true → has f (i ∷ q) ≡ true
    later f i q m = ground arith

    below_last : (f i : ℕ) → (f == i) ≡ false → f < i + 1 → f < i
    below_last f i o l = ground arith

    fresh : has i q ≡ false
    fresh = elim (Bool-cases (has i q)) [ inl m ↦ absurd (no_less i (k.below i m).1) | inr m ↦ m ]
      where
        no_less : (i : ℕ) → i < i → ⊥
        no_less i l = omega arith

module _ {D L : Type 0} where
  insert_disk_frames-Filled :
      (i n : ℕ) (s : PageFile D L)
      → i ≢ 0
      → Filled i s.disk_free_frame_list
      → Filled (i + n) (insert_disk_frames i n s).disk_free_frame_list
        × ((insert_disk_frames i n s).env ≡ s.env)
  unfolding insert_disk_frames
  insert_disk_frames-Filled i zero s n k =
      (subst (λ j. Filled j s.disk_free_frame_list) (sum i) k, refl)
    where
      sum : (i : ℕ) → i ≡ i + 0
      sum i = omega arith
  insert_disk_frames-Filled i (suc m) s n k =
      let r =
        insert_disk_frames-Filled (i + 1) m
          (record s { disk_free_frame_list = i ∷ s.disk_free_frame_list }) (λ z. pos_next i z)
          (step i _ n k) in
      (
        subst (λ j. Filled j (insert_disk_frames i (suc m) s).disk_free_frame_list) (sum i m) r.0,
        r.1,
      )
    where
      sum : (i m : ℕ) → i + 1 + m ≡ i + suc m
      sum i m = omega arith

      pos_next : (i : ℕ) → i + 1 ≢ 0
      pos_next i e = omega arith

  -- initialize_disk_page_file, where no process has a disk page directory: the invariant of the
  -- page file holds, and the free list holds the frames from 1 up to PAGES_PER_FILE and no others.
  pub initialize_disk_page_file-IsKept :
      (live : L → ℕ → Bool) (s : PageFile D L)
      → ((e : ℕ) → (s.env e).disk_env_pgdir ≡ 0)
      → IsKept live (initialize_disk_page_file s)
        × ((f : ℕ)
            → (has f (initialize_disk_page_file s).disk_free_frame_list ≡ true)
              ↔ ((f ≢ 0) × (f < pages_per_file)))
  unfolding initialize_disk_page_file
  initialize_disk_page_file-IsKept live s no_dir =
      let (k, env) =
        insert_disk_frames-Filled 1 (pages_per_file - 1) (record s { disk_free_frame_list = [] })
          (omega arith) empty in
      (
        record {
          dirs = λ p. false;
          leafs = λ p. false;
          linked = record {
            apart = λ p a. refl;
            dirs_live = λ p a. absurd (false≢true a);
            leafs_live = λ p a. absurd (false≢true a);
            dirs_real = refl;
            leafs_real = refl;
            dir_of = λ e n. absurd (n (subst (λ v. (v e).disk_env_pgdir ≡ 0) (sym env) (no_dir e)));
            dir_once =
                λ e f n q. absurd (n (subst (λ v. (v e).disk_env_pgdir ≡ 0) (sym env) (no_dir e)));
            table_of = λ d i a. absurd (false≢true a);
            table_once = λ d i c j a. absurd (false≢true a);
          };
          owned = record {
            range = λ t i a. absurd (false≢true a);
            taken = λ t i a. absurd (false≢true a);
            once = λ t i u j a. absurd (false≢true a);
            free_once = k.once;
            free_range = k.below;
            covers = λ f n l. inl (k.all f n l);
          };
        },
        λ f. (k.below f, λ r. k.all f r.0 r.1),
      )
    where
      empty : Filled 1 []
      empty = record {
        below = λ f m. absurd (false≢true m);
        all = λ f z l. absurd (z (zero_of f l));
        once = tt;
      }
        where
          zero_of : (f : ℕ) → f < 1 → f ≡ 0
          zero_of f l = omega arith
