-- ===== src/KHeap/Gap.antt =====
-- kern/mem/kheap.c: the heap of kfree between the removal of a region from the allocated ones and its return to
-- the free ones.
use fos_educational_os_proje.Base.{
  ℕ, ◌+◌, ◌-◌, ◌≤◌, ◌<◌, ◌≡◌, refl, sym, subst, ◌∙◌, ◌≢◌, Bool, true, false, Option, some, List, [],
  ◌∷◌, ◌==◌, if◌then◌else◌, arith, ==_iff, false≢true,
}
use mathlib.Core.Option.{some-injective}
use fos_educational_os_proje.KHeap.{
  Bulk, KHeap, kernel_heap_max, add32, remove_bulk, bulk_end, neighbours,
}
use fos_educational_os_proje.KHeap.Cover.{
  inside, cover, nodes_at, weigh, weigh-In, All, In, here, there, All-In, weigh-remove, All-remove,
  Sorted,
}
use fos_educational_os_proje.KHeap.Inv.{Fits, IsTiled}

-- The bulks that are found where a region ends, and where the next one starts.
abbrev pub Before : ℕ → List Bulk → Option Bulk → Type 0
Before start bs o = (c : Bulk) → o ≡ some c → In c bs × (bulk_end c ≡ start)

abbrev pub Behind : ℕ → List Bulk → Option Bulk → Type 0
Behind end bs o = (c : Bulk) → o ≡ some c → In c bs × (c.start ≡ end)

pick :
    {P : Bulk → Type 0} (test : Bool) (b : Bulk) (o : Option Bulk)
    → (test ≡ true → P b)
    → ((c : Bulk) → o ≡ some c → P c)
    → (c : Bulk) → (if test then some b else o) ≡ some c
    → P c
pick {P} true b o f g c e = subst P (some-injective b c e) (f refl)
pick false b o f g c e = g c e

pub neighbours_ok :
    (start size : ℕ) (all bs : List Bulk) (abl ba3d : Option Bulk)
    → ((c : Bulk) → In c bs → In c all)
    → Before start all abl
    → Behind (add32 start size) all ba3d
    → Before start all (neighbours start size abl ba3d bs).0
      × Behind (add32 start size) all (neighbours start size abl ba3d bs).1
unfolding neighbours
neighbours_ok start size all [] abl ba3d into f g = (f, g)
neighbours_ok start size all (b ∷ bs) abl ba3d into f g =
    neighbours_ok start size all bs _ _ (λ c i. into c (there i))
      (pick (bulk_end b == start) b abl (λ t. (into b here, (==_iff _ start).0 t)) f)
      (pick (b.start == add32 start size) b ba3d (λ t. (into b here, (==_iff b.start _).0 t)) g)

other :
    (n m w : ℕ)
    → (if m == m then 1 else 0) ≤ w
    → (if n == m then 1 else 0) + w ≤ 1
    → (n == m) ≡ false
other n m w at once = ground arith

rest_once : (n m w : ℕ) → (if n == m then 1 else 0) + w ≤ 1 → w ≤ 1
rest_once n m w once = omega arith

-- A bulk with another start stays where one is removed.
pub In-remove :
    {b c : Bulk} {bs : List Bulk}
    → In b bs
    → In c bs
    → b.start ≢ c.start
    → nodes_at b.node bs ≤ 1
    → In c (remove_bulk b bs)
unfolding remove_bulk
In-remove here here ne once = absurd (ne refl)
In-remove {b} (here {bs = bs}) (there j) ne once = rw ((==_iff b.node b.node).1 refl) j
In-remove {b} {c} (there {bs = bs} i) here ne once =
    let at = weigh-In (λ d. if d.node == b.node then 1 else 0) i in
    rw (other c.node b.node (weigh (λ d. if d.node == b.node then 1 else 0) bs) at once) here
In-remove {b} {c} (there {c = x} {bs = bs} i) (there j) ne once =
    let at = weigh-In (λ d. if d.node == b.node then 1 else 0) i in
    rw (other x.node b.node (weigh (λ d. if d.node == b.node then 1 else 0) bs) at once)
      (there (In-remove i j ne (rest_once x.node b.node _ once)))

module _ {L : Type 0} (live : L → ℕ → Bool) where
  -- A tiled heap but for one region, which is neither free nor allocated.
  pub record IsGap (start size : ℕ) (h : KHeap L) : Type 0 where
    pub tiled :
        (a : ℕ)
        → cover a h.bulks + cover a h.bulks_allocated + inside a start size
          ≡ inside a h.alloc_start (h.alloc_break - h.alloc_start)
    pub gap_fits : (h.alloc_start ≤ start) × (0 < size) × (start + size ≤ h.alloc_break)
    pub free_fits : All (Fits live h.alloc_start h.alloc_break) h.bulks
    pub used_fits : All (Fits live h.alloc_start h.alloc_break) h.bulks_allocated
    pub sorted : Sorted h.bulks
    pub once : (p : ℕ) → nodes_at p h.bulks + nodes_at p h.bulks_allocated ≤ 1
    pub nodes_live :
        (p : ℕ) → 0 < nodes_at p h.bulks + nodes_at p h.bulks_allocated → live h.low p ≡ true
    pub start_pos : 0 < h.alloc_start
    pub start_le : h.alloc_start ≤ h.alloc_break
    pub break_le : h.alloc_break ≤ kernel_heap_max

  -- What free_block of a node leaves.
  abbrev pub Freed : ℕ → L → L → Type 0
  Freed n l l' = (q : ℕ) → q ≢ n → live l q ≡ true → live l' q ≡ true

  -- A node that no bulk has any more.
  pub spared :
      (n p c c' : ℕ) (l l' : L)
      → (if n == p then 1 else 0) + c' ≤ c
      → c ≤ 1
      → (0 < c → live l p ≡ true)
      → Freed n l l'
      → 0 < c'
      → live l' p ≡ true
  spared n p c c' l l' le one lives freed pos =
      let ne : (n == p) ≡ false = apart n p c c' le one pos in
      freed p (λ e. false≢true (sym ne ∙ (==_iff n p).1 (sym e))) (lives (more n p c c' le pos))
    where
      apart :
          (n p c c' : ℕ) → (if n == p then 1 else 0) + c' ≤ c → c ≤ 1 → 0 < c' → (n == p) ≡ false
      apart n p c c' le one pos = ground arith

      more : (n p c c' : ℕ) → (if n == p then 1 else 0) + c' ≤ c → 0 < c' → 0 < c
      more n p c c' le pos = omega arith

  pub IsGap-removed :
      (h : KHeap L) (b : Bulk) (l : L)
      → IsTiled live h
      → In b h.bulks_allocated
      → Freed b.node h.low l
      → IsGap b.start b.size
          (record h { bulks_allocated = remove_bulk b h.bulks_allocated; low = l })
  IsGap-removed h b l inv i freed = record {
    tiled = λ a. omega (arith, inv.tiled a, weigh-remove (λ c. inside a c.start c.size) i single);
    gap_fits = All-In (Fits live h.alloc_start h.alloc_break) i inv.used_fits;
    free_fits = inv.free_fits;
    used_fits =
        All-remove (Fits live h.alloc_start h.alloc_break) b h.bulks_allocated inv.used_fits;
    sorted = inv.sorted;
    once = λ p. omega (arith, gone p, inv.once p);
    nodes_live = λ p pos.
        spared b.node p (nodes_at p h.bulks + nodes_at p h.bulks_allocated)
          (nodes_at p h.bulks + nodes_at p (remove_bulk b h.bulks_allocated)) h.low l
          (omega (arith, gone p)) (inv.once p) (inv.nodes_live p) freed pos;
    start_pos = inv.start_pos;
    start_le = inv.start_le;
    break_le = inv.break_le;
  }
    where
      single : nodes_at b.node h.bulks_allocated ≤ 1
      single = omega (arith, inv.once b.node)

      gone :
          (p : ℕ)
          → (if b.node == p then 1 else 0) + nodes_at p (remove_bulk b h.bulks_allocated)
            ≡ nodes_at p h.bulks_allocated
      gone p = weigh-remove (λ c. if c.node == p then 1 else 0) i single
