-- ===== src/Share.antt =====
-- kern/mem/shared_memory_manager.c: the shared objects. The name of an object is the string in its field;
-- a frame of its storage that is not set is `none`. The lock of the list is not modelled.
mod Created
mod Tests
use fos_educational_os_proje.Base.{
  ℕ, zero, suc, ◌+◌, ◌-◌, ◌*◌, ◌%◌, ◌^◌, ◌/◌, ltb, Bool, true, false, ◌||◌, ◌&&◌, Option, none,
  some, List, [], ◌∷◌, ◌==◌, if◌then◌else◌, get_or, set, replicate,
}
use fos_educational_os_proje.Base.Monad.{M, pure, ◌>>=◌, ◌>>◌, gets, modify, panic}
use fos_educational_os_proje.Base.Int.{ℤ, pos, negsuc}
use fos_educational_os_proje.Str.{strcmp, strncpy}
use fos_educational_os_proje.KHeap.{page_size, null, round_up, add32}

-- E_NO_SHARE, E_SHARED_MEM_EXISTS and E_SHARED_MEM_NOT_EXISTS
abbrev pub e_no_share : ℤ
e_no_share = negsuc 13

abbrev pub e_shared_mem_exists : ℤ
e_shared_mem_exists = negsuc 14

abbrev pub e_shared_mem_not_exists : ℤ
e_shared_mem_not_exists = negsuc 15

abbrev pub is_zero : ℤ → Bool
is_zero (pos n) = n == 0
is_zero (negsuc n) = false

-- The bytes of a field before its null.
abbrev pub before_null : List ℕ → List ℕ
before_null [] = []
before_null (c ∷ s) = if c == 0 then [] else c ∷ before_null s

pub record Share : Type 0 where
  pub id : ℕ
  pub owner_id : ℕ
  pub name : List ℕ
  pub size : ℤ
  pub references : ℕ
  pub is_writable : Bool
  pub frames_storage : List (Option ℕ)

pub record Shares (L : Type 0) : Type 0 where
  pub shares_list : List Share
  pub low : L

-- What lies below: the kernel heap and the frame manager, with the directory of the calling process.
pub record Below (L : Type 0) : Type 0 where
  pub kmalloc : ℕ → M L ℕ
  pub kfree : ℕ → M L (Unit {0})
  -- `none` for a status below 0
  pub allocate_frame : M L (Option ℕ)
  -- PERM_USER, and PERM_WRITEABLE when the flag is set; false for a status below 0
  pub map_frame : (frame va : ℕ) → (is_writable : Bool) → M L Bool

abbrev pub matches : ℕ → List ℕ → Share → Bool
matches owner name shr = (shr.owner_id == owner) && is_zero (strcmp name shr.name)

unfoldable pub find_share : ℕ → List ℕ → List Share → Option Share
find_share owner name [] = none
find_share owner name (shr ∷ shrs) =
    if matches owner name shr then some shr else find_share owner name shrs

abbrev pub size_of : Option Share → ℤ
size_of none = e_shared_mem_not_exists
size_of (some shr) = shr.size

unfoldable pub size_of_shared_object : ℕ → List ℕ → List Share → ℤ
size_of_shared_object owner name shrs = size_of (find_share owner name shrs)

-- The pages of a size of uint32.
abbrev pub frames_num : ℕ → ℕ
frames_num size = round_up size page_size / page_size

-- A number of uint32 as an int, and back.
unfoldable pub to_int : ℕ → ℤ
to_int a = if ltb a (2 ^ 31) then pos a else negsuc (2 ^ 32 - 1 - a)

abbrev pub to_uint : ℤ → ℕ
to_uint (pos n) = n
to_uint (negsuc n) = 2 ^ 32 - 1 - n

abbrev pub negated : ℕ → ℤ
negated zero = pos 0
negated (suc n) = negsuc n

-- The quotient of ints, which drops the fraction.
abbrev pub div_int : ℤ → ℕ → ℤ
div_int (pos n) d = pos (n / d)
div_int (negsuc n) d = negated (suc n / d)

-- The pages of a size of int, as get_shared_object counts them: ROUNDUP gives an int, and so does its
-- quotient, which is then a uint32.
unfoldable pub needed_pages : ℤ → ℕ
needed_pages size = to_uint (div_int (to_int (round_up (to_uint size) page_size)) page_size)

-- sizeof(struct Share) and sizeof(struct FrameInfo*)
abbrev pub share_size : ℕ
share_size = 96

abbrev pub pointer_size : ℕ
pointer_size = 4

-- A change of the object at the head of the list.
abbrev pub change_first : (Share → Share) → List Share → List Share
change_first f [] = []
change_first f (shr ∷ shrs) = f shr ∷ shrs

-- The search of get_shared_object, which compares the names the other way round.
unfoldable pub first_named : ℕ → List ℕ → List Share → Option Share
first_named owner name [] = none
first_named owner name (shr ∷ shrs) =
    if (shr.owner_id == owner) && is_zero (strcmp shr.name name)
    then some shr
    else first_named owner name shrs

-- The first object that matches has one more reference.
unfoldable pub reference_first : ℕ → List ℕ → List Share → List Share
reference_first owner name [] = []
reference_first owner name (shr ∷ shrs) =
    if (shr.owner_id == owner) && is_zero (strcmp shr.name name)
    then record shr { references = shr.references + 1 } ∷ shrs
    else shr ∷ reference_first owner name shrs

module _ {L : Type 0} where
  abbrev pub lifted : {A : Type 0} → Shares L → Option (A × L) → Option (A × Shares L)
  lifted h none = none
  lifted h (some (a, l)) = some (a, record h { low = l })

  abbrev pub lift : {A : Type 0} → M L A → M (Shares L) A
  lift m h = lifted h (m h.low)

module _ {L : Type 0} (B : Below L) where
  -- The object is written through the address that kmalloc gives, whatever it is: a null address faults.
  unfoldable pub alloc_share : ℕ → List ℕ → ℕ → Bool → M (Shares L) (Option Share)
  alloc_share owner name size is_writable = lift (B.kmalloc share_size) >>= filled
    where
      stored : ℕ → ℕ → M (Shares L) (Option Share)
      stored shr storage =
          if storage == null
          then (do lift (B.kfree shr); pure none)
          else pure (
              some (record {
                id = 0;
                owner_id = owner;
                name = before_null (strncpy name 64);
                size = to_int size;
                references = 1;
                is_writable = is_writable;
                frames_storage = replicate (frames_num size) none;
              }))

      filled : ℕ → M (Shares L) (Option Share)
      filled shr =
          if shr == null
          then panic
          else (lift (B.kmalloc (pointer_size * frames_num size)) >>= stored shr)

  -- A round of the loop of create_shared_object, with the frame that it got.
  unfoldable pub fill_frame : (i va : ℕ) → Option ℕ → M (Shares L) Bool
  fill_frame i va none = pure false
  fill_frame i va (some f) = do
    ok ← lift (B.map_frame f va true)
    if ok
        then (do
          modify (λ h. record h {
            shares_list =
                change_first
                  (λ shr. record shr { frames_storage = set shr.frames_storage i (some f) })
                  h.shares_list;
          })
          pure true)
        else pure false

  -- The loop of create_shared_object: `n` pages are left, `i` are done. False ends it early.
  unfoldable pub fill_frames : (n i va : ℕ) → M (Shares L) Bool
  fill_frames zero i va = pure true
  fill_frames (suc n) i va = do
    f ← lift B.allocate_frame
    ok ← fill_frame i va f
    elim ok [ true ↦ fill_frames n (i + 1) (add32 va page_size) | false ↦ pure false ]

  -- LIST_INSERT_HEAD, the ID and the loop.
  unfoldable pub insert_share : ℕ → ℕ → Option Share → M (Shares L) ℤ
  insert_share size va none = pure e_no_share
  insert_share size va (some shr) = do
    modify (λ h. record h { shares_list = record shr { id = va % 2 ^ 31 } ∷ h.shares_list })
    ok ← fill_frames (frames_num size) 0 va
    pure (if ok then pos (va % 2 ^ 31) else e_no_share)

  unfoldable pub create_shared_object : ℕ → List ℕ → ℕ → Bool → ℕ → M (Shares L) ℤ
  create_shared_object owner name size is_writable va =
      gets (λ h. find_share owner name h.shares_list) >>= found
    where
      found : Option Share → M (Shares L) ℤ
      found (some shr) = pure e_shared_mem_exists
      found none = alloc_share owner name size is_writable >>= insert_share size va

  -- The loop of get_shared_object over the frames that are stored. False ends it early.
  unfoldable pub map_stored : (n i va : ℕ) → Share → M (Shares L) Bool
  map_stored zero i va shr = pure true
  map_stored (suc n) i va shr = stored (get_or shr.frames_storage i none) >>= λ ok. elim ok [
    | true ↦ map_stored n (i + 1) (add32 va page_size) shr
    | false ↦ pure false
  ]
    where
      stored : Option ℕ → M (Shares L) Bool
      stored none = panic
      stored (some f) = lift (B.map_frame f va shr.is_writable)

  unfoldable pub get_shared_object : ℕ → List ℕ → ℕ → M (Shares L) ℤ
  get_shared_object owner name va = do
    shared ← gets (λ h. first_named owner name h.shares_list)
    modify (λ h. record h { shares_list = reference_first owner name h.shares_list })
    found shared
    where
      found : Option Share → M (Shares L) ℤ
      found none = pure e_shared_mem_not_exists
      found (some shr) = do
        ok ← map_stored (needed_pages shr.size) 0 va shr
        pure (if ok then pos shr.id else e_shared_mem_not_exists)
