-- ===== src/Share/Created.antt =====
-- kern/mem/shared_memory_manager.c: what create_shared_object makes is found and mapped by
-- get_shared_object.
use fos_educational_os_proje.Base.{
  ℕ, zero, suc, ◌+◌, ◌*◌, lt→ltb, ◌%◌, ◌^◌, ◌≤◌, ◌<◌, ◌≡◌, ◌≢◌, refl, sym, subst, ◌∙◌, ap, Bool,
  true, ◌&&◌, Option, none, some, List, [], ◌∷◌, ◌==◌, get_or, set, replicate, length, length-set,
  arith, Yields, yields, Bool-cases, Option-cases, inl, inr, ==_iff, ==-ne, false≢true,
}
use fos_educational_os_proje.Base.Monad.{M, ◌>>◌, and_then, bind_lem, mono}
use fos_educational_os_proje.Base.Int.{ℤ, pos}
use fos_educational_os_proje.Str.{strcmp, strncpy}
use fos_educational_os_proje.Str.Compare.{IsString, strcmp_self}
use fos_educational_os_proje.KHeap.{page_size, null, add32, round_up}
use fos_educational_os_proje.BlockAlloc.Runs.{get_or-set_self, get_or-set_ne}
use fos_educational_os_proje.Share.{
  Share, Shares, Below, before_null, is_zero, find_share, first_named, reference_first, frames_num,
  change_first, lifted, share_size, pointer_size, to_int, needed_pages, alloc_share, fill_frame,
  fill_frames, insert_share, create_shared_object, map_stored, get_shared_object,
  size_of_shared_object, e_shared_mem_exists,
}

-- A name of less than 64 bytes is kept whole.
kept_name :
    (name : List ℕ) (n : ℕ) → IsString name → length name < n → before_null (strncpy name n) ≡ name
unfolding strncpy
kept_name [] zero s l = absurd (no l)
  where
    no : length {A = ℕ} [] < 0 → ⊥
    no l = omega arith
kept_name [] (suc n) s l = refl
kept_name (c ∷ name) zero s l = absurd (no l)
  where
    no : length (c ∷ name) < 0 → ⊥
    no l = omega arith
kept_name (c ∷ name) (suc n) (ne, s) l =
    rw (==-ne c 0 ne) (ap (λ k. c ∷ k) (kept_name name n s (omega arith)))

-- The frames of the storage that are set below `i`.
abbrev pub Stored : ℕ → List (Option ℕ) → Type 0
Stored i fs = (j : ℕ) → j < i → get_or fs j none ≢ none

set-Stored :
    (i f : ℕ) (fs : List (Option ℕ))
    → i < length fs
    → Stored i fs
    → Stored (i + 1) (set fs i (some f))
set-Stored i f fs l s j m = elim (Bool-cases (i == j)) [
  | inl t ↦
      subst (λ k. get_or (set fs i (some f)) k none ≢ none) ((==_iff i j).0 t)
        (λ e. some_none (sym (get_or-set_self i (some f) none fs l) ∙ e))
  | inr n ↦
      let ne : i ≢ j = λ q. false≢true (sym n ∙ (==_iff i j).1 q) in
      λ e. s j (omega arith) (sym (get_or-set_ne i j (some f) none fs ne) ∙ e)
]
  where
    some_none : some f ≢ none
    some_none e = ground arith

-- A size from a byte to 2 GB less a page has pages, and pointers to them of 2 MB at most; as an int
-- it is itself, and get_shared_object counts the same pages.
some_pages : (size : ℕ) → 0 < size → size + page_size ≤ 2 ^ 31 → 0 < pointer_size * frames_num size
some_pages size positive small = omega arith

few_pages : (size : ℕ) → size + page_size ≤ 2 ^ 31 → pointer_size * frames_num size ≤ 2 ^ 21
few_pages size small = omega arith

pub to_int-small : (a : ℕ) → a < 2 ^ 31 → to_int a ≡ pos a
unfolding to_int
to_int-small a lt = rw (lt→ltb a (2 ^ 31) lt) refl

needed_pages-frames_num :
    (size : ℕ) → size + page_size ≤ 2 ^ 31 → needed_pages (to_int size) ≡ frames_num size
unfolding needed_pages
needed_pages-frames_num size small =
    rw (to_int-small size (omega arith))
      (rw (to_int-small (round_up size page_size) (omega arith)) refl)

-- The object that alloc_share makes.
abbrev made : ℕ → List ℕ → ℕ → Bool → Share
made owner name size is_writable = record {
  id = 0;
  owner_id = owner;
  name = before_null (strncpy name 64);
  size = to_int size;
  references = 1;
  is_writable = is_writable;
  frames_storage = replicate (frames_num size) none;
}

length-replicate : {A : Type 0} (n : ℕ) (a : A) → length (replicate n a) ≡ n
length-replicate zero a = refl
length-replicate (suc n) a = ap suc (length-replicate n a)

module _ {L : Type 0} where
  bind_lift :
      {A C : Type 0} {P : A × L → Type 0} {Q : C × Shares L → Type 0} {o : Option (A × L)}
      (f : A → M (Shares L) C) (h : Shares L)
      → Yields P o
      → ((a : A) (l : L) → P (a, l) → Yields Q (f a (record h { low = l })))
      → Yields Q (and_then (lifted h o) f)
  bind_lift f h (yields r p) k = k r.0 r.1 p

  -- `Ready n l`: from the state `l` of what lies below, `n` more calls of it find the memory they take.
  -- A request of kmalloc is one for at least a byte, and for 2 MB at most, which the pointers to the
  -- frames of the largest object take. A state that is not ready need not serve any call.
  pub record Works (Ready : ℕ → L → Type 0) (B : Below L) : Type 0 where
    pub fewer : (m n : ℕ) (l : L) → m ≤ n → Ready n l → Ready m l
    pub kmalloc_ok :
        (k n : ℕ) (l : L)
        → 0 < n
        → n ≤ 2 ^ 21
        → Ready (suc k) l
        → Yields (λ r. (r.0 ≢ null) × Ready k r.1) (B.kmalloc n l)
    pub allocate_ok :
        (k : ℕ) (l : L)
        → Ready (suc k) l
        → Yields (λ r. (r.0 ≢ none) × Ready k r.1) (B.allocate_frame l)
    pub map_ok :
        (k f va : ℕ) (w : Bool) (l : L)
        → Ready (suc k) l
        → Yields (λ r. (r.0 ≡ true) × Ready k r.1) (B.map_frame f va w l)

  -- The object is at the head of the list, with its name and all its frames.
  abbrev pub Made : ℕ → List ℕ → ℕ → Bool → ℕ → List Share → ℤ × Shares L → Type 0
  Made owner name size w va shrs (id, h) =
      (id ≡ pos (va % 2 ^ 31))
      × ((fs : List (Option ℕ)) × (h.shares_list
            ≡ record (made owner name size w) { id = va % 2 ^ 31; frames_storage = fs } ∷ shrs)
          × Stored (frames_num size) fs)

  module _ {Ready : ℕ → L → Type 0} {B : Below L} (sure : Works Ready B) where
    fill_frame_lem :
        (k i va : ℕ) (o : Option ℕ) (shr : Share) (shrs : List Share) (h : Shares L)
        → o ≢ none
        → h.shares_list ≡ shr ∷ shrs
        → i < length shr.frames_storage
        → Stored i shr.frames_storage
        → Ready (suc k) h.low
        → Yields
            (λ r.
              (r.0 ≡ true)
              × ((fs : List (Option ℕ)) × (r.1.shares_list
                    ≡ record shr { frames_storage = fs } ∷ shrs)
                  × (length fs ≡ length shr.frames_storage)
                  × Stored (i + 1) fs)
              × Ready k r.1.low)
            (fill_frame B i va o h)
    unfolding fill_frame
    fill_frame_lem k i va none shr shrs h ne e l s ready = absurd (ne refl)
    fill_frame_lem k i va (some f) shr shrs h ne e l s ready =
        bind_lift _ h (sure.map_ok k f va true h.low ready) λ ok m (good, left). rw good (
          yields _ (
            refl,
            (
              set shr.frames_storage i (some f),
              ap (change_first (λ k. record k { frames_storage = set k.frames_storage i (some f) }))
                  e,
              length-set shr.frames_storage i (some f),
              set-Stored i f shr.frames_storage l s,
            ),
            left,
          ))

    fill_frames_lem :
        (k n i va : ℕ) (shr : Share) (shrs : List Share) (h : Shares L)
        → h.shares_list ≡ shr ∷ shrs
        → i + n ≤ length shr.frames_storage
        → Stored i shr.frames_storage
        → Ready (2 * n + k) h.low
        → Yields
            (λ r.
              (r.0 ≡ true)
              × ((fs : List (Option ℕ)) × (r.1.shares_list
                    ≡ record shr { frames_storage = fs } ∷ shrs)
                  × Stored (i + n) fs)
              × Ready k r.1.low)
            (fill_frames B n i va h)
    unfolding fill_frames
    fill_frames_lem k zero i va shr shrs h e l s ready = yields _ (
      refl,
      (shr.frames_storage, e, λ j m. s j (omega arith)),
      sure.fewer k (2 * 0 + k) h.low (omega arith) ready,
    )
    fill_frames_lem k (suc n) i va shr shrs h e l s ready =
        bind_lift _ h
          (sure.allocate_ok (suc (2 * n + k)) h.low (sure.fewer _ _ h.low (omega arith) ready))
          λ o m (got, one).
            bind_lem
              (fill_frame_lem (2 * n + k) i va o shr shrs (record h { low = m }) got e (omega arith)
                s one)
              λ ok g (good, (fs, at, len, t), left). rw good (
                mono
                  (fill_frames_lem k n (i + 1) (add32 va page_size)
                    (record shr { frames_storage = fs }) shrs g at (omega (arith, len)) t left)
                  λ r (done, (gs, q, u), end). (done, (gs, q, λ j m. u j (omega arith)), end))

    map_stored_lem :
        (k n i va : ℕ) (shr : Share) (h : Shares L)
        → Stored (i + n) shr.frames_storage
        → Ready (n + k) h.low
        → Yields (λ r. (r.0 ≡ true) × (r.1.shares_list ≡ h.shares_list)) (map_stored B n i va shr h)
    unfolding map_stored
    map_stored_lem k zero i va shr h s ready = yields _ (refl, refl)
    map_stored_lem k (suc n) i va shr h s ready =
        elim (Option-cases (get_or shr.frames_storage i none)) [
          | inl e ↦ absurd (s i (omega arith) e)
          | inr (f, e) ↦ rw e (
              bind_lift _ h
                (sure.map_ok (n + k) f va shr.is_writable h.low
                  (sure.fewer _ _ h.low (omega arith) ready))
                λ ok l (good, left). rw good (
                  map_stored_lem k n (i + 1) (add32 va page_size) shr (record h { low = l })
                    (λ j m. s j (omega arith)) left))
        ]

    alloc_share_lem :
        (k owner : ℕ) (name : List ℕ) (size : ℕ) (w : Bool) (h : Shares L)
        → 0 < size
        → size + page_size ≤ 2 ^ 31
        → Ready (suc (suc k)) h.low
        → Yields
            (λ r.
              (r.0 ≡ some (made owner name size w))
              × (r.1.shares_list ≡ h.shares_list)
              × Ready k r.1.low)
            (alloc_share B owner name size w h)
    unfolding alloc_share
    alloc_share_lem k owner name size w h positive small ready =
        bind_lift _ h (sure.kmalloc_ok (suc k) share_size h.low (omega arith) (omega arith) ready)
          λ shr l (ne, one). rw (==-ne shr null ne) (
            bind_lift _ (record h { low = l })
              (sure.kmalloc_ok k (pointer_size * frames_num size) l (some_pages size positive small)
                (few_pages size small) one)
              λ st l' (ne', left). rw (==-ne st null ne') (yields _ (refl, refl, left)))

    -- What creation takes: two requests of kmalloc, and two calls for each page.
    create_lem :
        (k owner : ℕ) (name : List ℕ) (size : ℕ) (w : Bool) (va : ℕ) (h : Shares L)
        → find_share owner name h.shares_list ≡ none
        → 0 < size
        → size + page_size ≤ 2 ^ 31
        → Ready (2 * frames_num size + k + 2) h.low
        → Yields
            (λ r. Made owner name size w va h.shares_list r × Ready k r.1.low)
            (create_shared_object B owner name size w va h)
    unfolding create_shared_object insert_share
    create_lem k owner name size w va h e positive small ready = rw e (
        bind_lem
          (alloc_share_lem (2 * frames_num size + k) owner name size w h positive small
            (sure.fewer _ _ h.low (omega arith) ready))
          λ o g (q, l, left). rw q (
            bind_lem
              (fill_frames_lem k (frames_num size) 0 va
                (record (made owner name size w) { id = va % 2 ^ 31 }) h.shares_list _
                (ap (λ k. record (made owner name size w) { id = va % 2 ^ 31 } ∷ k) l)
                (omega (arith, length-replicate {A = Option ℕ} (frames_num size) none))
                (λ j m. absurd (below_zero j m)) left)
              λ u k (good, (fs, r, s), end).
                rw good (yields _ ((refl, (fs, r, λ j m. s j (omega arith))), end))))
      where
        below_zero : (j : ℕ) → j < 0 → ⊥
        below_zero j m = omega arith

-- The name of the object is the name it was made with.
matched :
    (owner : ℕ) (name : List ℕ)
    → IsString name
    → length name < 64
    → ((owner == owner) && is_zero (strcmp (before_null (strncpy name 64)) name)) ≡ true
matched owner name t l =
    rw (kept_name name 64 t l, strcmp_self name, (==_iff owner owner).1 refl) refl

matches_made :
    (owner : ℕ) (name : List ℕ)
    → IsString name
    → length name < 64
    → ((owner == owner) && is_zero (strcmp name (before_null (strncpy name 64)))) ≡ true
matches_made owner name t l =
    rw (kept_name name 64 t l, strcmp_self name, (==_iff owner owner).1 refl) refl

-- create_shared_object of a name of less than 64 bytes that its owner has not shared yet, and then
-- get_shared_object of that name, of a size from one byte to 2 GB less a page, where what lies below
-- can serve three calls for each page and two more: both return, the result is the masked address of creation, and find_share of the name
-- gives an object with the size asked for, two references, and a frame stored for each of its
-- pages.
pub create_get_lem :
    (L : Type 0) (Ready : ℕ → L → Type 0) (B : Below L) (owner : ℕ) (name : List ℕ) (size : ℕ)
    (w : Bool) (va there : ℕ) (h : Shares L)
    → Works Ready B
    → 0 < size
    → size + page_size ≤ 2 ^ 31
    → Ready (3 * frames_num size + 2) h.low
    → IsString name
    → (length name < 64)
    → find_share owner name h.shares_list ≡ none
    → Yields
        (λ (id, g).
          (id ≡ pos (va % 2 ^ 31))
          × ((shr : Share) × (find_share owner name g.shares_list ≡ some shr)
              × (shr.size ≡ pos size)
              × (shr.references ≡ 2)
              × Stored (frames_num size) shr.frames_storage))
        ((create_shared_object B owner name size w va >> get_shared_object B owner name there) h)
unfolding get_shared_object first_named reference_first find_share
create_get_lem L Ready B owner name size w va there h sure positive small ready t l e =
    bind_lem
      (create_lem sure (frames_num size + 0) owner name size w va h e positive small
        (sure.fewer _ _ h.low (omega arith) ready))
      λ id g ((q, (fs, r, s)), left). rw (head_first g fs r) (
        rw (needed_pages-frames_num size small) (
          bind_lem
            (map_stored_lem sure 0 (frames_num size) 0 there _ _ (λ j m. s j (omega arith)) left)
            λ u k (good, same). rw good (
              yields _ (
                refl,
                (_, found k fs (same ∙ second g fs r), to_int-small size (omega arith), refl, s),
              ))))
  where
    object : List (Option ℕ) → Share
    object fs = record (made owner name size w) { id = va % 2 ^ 31; frames_storage = fs }

    head_first :
        (g : Shares L) (fs : List (Option ℕ))
        → g.shares_list ≡ object fs ∷ h.shares_list
        → first_named owner name g.shares_list ≡ some (object fs)
    head_first g fs r =
        subst (λ k. first_named owner name k ≡ some (object fs)) (sym r)
          (rw (matched owner name t l) refl)

    second :
        (g : Shares L) (fs : List (Option ℕ))
        → g.shares_list ≡ object fs ∷ h.shares_list
        → reference_first owner name g.shares_list
          ≡ record (object fs) { references = 2 } ∷ h.shares_list
    second g fs r =
        subst
          (λ k.
            reference_first owner name k ≡ record (object fs) { references = 2 } ∷ h.shares_list)
          (sym r) (rw (matched owner name t l) refl)

    found :
        (k : Shares L) (fs : List (Option ℕ))
        → k.shares_list ≡ record (object fs) { references = 2 } ∷ h.shares_list
        → find_share owner name k.shares_list ≡ some (record (object fs) { references = 2 })
    found k fs r =
        subst (λ i. find_share owner name i ≡ some (record (object fs) { references = 2 })) (sym r)
          (rw (matches_made owner name t l) refl)

-- create_shared_object of a name of less than 64 bytes that its owner has not shared yet, and then
-- once more of the same name, the first of a size from one byte to 2 GB less a page, where what
-- lies below can serve two calls for each page of it and two more: the second call returns E_SHARED_MEM_EXISTS, and the size of the object stays the one of
-- the first.
pub create-exists :
    (L : Type 0) (Ready : ℕ → L → Type 0) (B : Below L) (owner : ℕ) (name : List ℕ) (size size' : ℕ)
    (w w' : Bool) (va va' : ℕ) (h : Shares L)
    → Works Ready B
    → 0 < size
    → size + page_size ≤ 2 ^ 31
    → Ready (2 * frames_num size + 2) h.low
    → IsString name
    → (length name < 64)
    → find_share owner name h.shares_list ≡ none
    → Yields
        (λ (id, g).
          (id ≡ e_shared_mem_exists) × (size_of_shared_object owner name g.shares_list ≡ pos size))
        ((create_shared_object B owner name size w va
            >> create_shared_object B owner name size' w' va')
          h)
unfolding create_shared_object find_share size_of_shared_object
create-exists L Ready B owner name size size' w w' va va' h sure positive small ready t l e =
    bind_lem
      (create_lem sure 0 owner name size w va h e positive small
        (sure.fewer _ _ h.low (omega arith) ready))
      λ id g ((q, (fs, r, s)), left).
        rw (found g fs r) (yields _ (refl, rw (found g fs r) (to_int-small size (omega arith))))
  where
    found :
        (k : Shares L) (fs : List (Option ℕ))
        → k.shares_list
          ≡ record (made owner name size w) { id = va % 2 ^ 31; frames_storage = fs }
            ∷ h.shares_list
        → find_share owner name k.shares_list
          ≡ some (record (made owner name size w) { id = va % 2 ^ 31; frames_storage = fs })
    found k fs r =
        subst
          (λ i.
            find_share owner name i
            ≡ some (record (made owner name size w) { id = va % 2 ^ 31; frames_storage = fs }))
          (sym r) (rw (matches_made owner name t l) refl)
