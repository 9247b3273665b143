-- ===== src/Share/Tests.antt =====
-- Shared objects over a kernel heap and a frame manager that give 64 pieces of memory.
use fos_educational_os_proje.Base.{
  ℕ, suc, ◌+◌, ◌%◌, ◌^◌, ◌≤◌, ◌≡◌, ◌≢◌, ◌==◌, ==-ne, ltb, lt→ltb, if◌then◌else◌, refl, true, false,
  none, some, List, [], ◌∷◌, arith, Yields, yields,
}
use fos_educational_os_proje.Base.Monad.{◌>>◌}
use fos_educational_os_proje.Base.Int.{pos}
use fos_educational_os_proje.Share.{
  Share, Shares, Below, find_share, frames_num, create_shared_object, get_shared_object,
  size_of_shared_object, e_shared_mem_exists,
}
use fos_educational_os_proje.Share.Created.{Works, Stored, create_get_lem, create-exists}

abbrev counter : Below ℕ
counter = record {
  kmalloc = λ n l. if n == 0 then some (0, l) else if ltb l 64 then some (suc l, suc l) else none;
  kfree = λ p l. some (tt, l);
  allocate_frame = λ l. if ltb l 64 then some (some (suc l), suc l) else some (none, l);
  map_frame = λ f va w l. some (true, l);
}

abbrev Room : ℕ → ℕ → Type 0
Room n l = n + l ≤ 64

some_ne : (n : ℕ) → some n ≢ none
some_ne n e = ground arith

suc_ne : (n : ℕ) → suc n ≢ 0
suc_ne n e = omega arith

counter-Works : Works Room counter
counter-Works = record {
  fewer = λ m n l le r. omega arith;
  kmalloc_ok = λ k n l some_bytes few r.
      rw (==-ne n 0 (λ e. omega arith))
        (rw (lt→ltb l 64 (omega arith)) (yields _ (suc_ne l, omega arith)));
  allocate_ok = λ k l r. rw (lt→ltb l 64 (omega arith)) (yields _ (some_ne (suc l), omega arith));
  map_ok = λ k f va w l r. yields _ (refl, omega arith);
}

abbrev no_shares : Shares ℕ
no_shares = record { shares_list = []; low = 0 }

-- the name "ab"
abbrev ab : List ℕ
ab = 97 ∷ 98 ∷ []

create_get_lem_example :
    Yields
      (λ (id, g).
        (id ≡ pos (0x82001000 % 2 ^ 31))
        × ((shr : Share) × (find_share 7 ab g.shares_list ≡ some shr)
            × (shr.size ≡ pos 5000)
            × (shr.references ≡ 2)
            × Stored (frames_num 5000) shr.frames_storage))
      ((create_shared_object counter 7 ab 5000 true 0x82001000
          >> get_shared_object counter 7 ab 0x82003000)
        no_shares)
unfolding find_share
create_get_lem_example =
    create_get_lem ℕ Room counter 7 ab 5000 true 0x82001000 0x82003000 no_shares counter-Works
      (omega arith) (omega arith) (omega arith) ((λ e. omega arith), ((λ e. omega arith), tt))
      (omega arith) refl

create-exists_example :
    Yields
      (λ (id, g).
        (id ≡ e_shared_mem_exists) × (size_of_shared_object 7 ab g.shares_list ≡ pos 5000))
      ((create_shared_object counter 7 ab 5000 true 0x82001000
          >> create_shared_object counter 7 ab 100 false 0x82005000)
        no_shares)
unfolding find_share
create-exists_example =
    create-exists ℕ Room counter 7 ab 5000 100 true false 0x82001000 0x82005000 no_shares
      counter-Works (omega arith) (omega arith) (omega arith)
      ((λ e. omega arith), ((λ e. omega arith), tt)) (omega arith) refl
