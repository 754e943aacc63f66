-- ===== src/Allocator/Eligible.antt =====
-- The guard that internal/allocator/fifo.go and binpack.go share: three `continue` tests that a
-- GPU has to pass before it hosts a job, and the condition that they stand for.
use gpu_scheduler.Common.{
  ◌≡◌, ◌⊎◌, Bool, true, false, not, ◌&&◌, ◌||◌, ℤ, pos, ◌≤ℤ◌, ◌<ℤ◌, ltb_ℤ, eqb_ℤ, arith,
  if◌then◌else◌, List, [], keep, keep-passes, keep-nil, All, All-map,
}
use gpu_scheduler.Types.{Gpu, available_memory_mb}

-- The tests in the order of the code, `true` where no `continue` is taken.
unfoldable pub has_room : Bool → ℤ → Gpu → Bool
has_room shared need g =
    if not g.is_healthy || (not shared && ltb_ℤ (pos 0) g.allocated_pods)
    then false
    else if ltb_ℤ (pos 0) g.total_memory_mb && eqb_ℤ (available_memory_mb g) (pos 0)
    then false
    else if ltb_ℤ (available_memory_mb g) need
    then false
    else true

-- A GPU can host a job of `need` MB.
pub record IsEligible (shared : Bool) (need : ℤ) (g : Gpu) : Type 0 where
  pub healthy : g.is_healthy ≡ true
  pub exclusive : (shared ≡ true) ⊎ (g.allocated_pods ≤ℤ pos 0)
  pub not_full :
      (g.total_memory_mb ≤ℤ pos 0)
      ⊎ (available_memory_mb g <ℤ pos 0)
      ⊎ (pos 0 <ℤ available_memory_mb g)
  pub fits : need ≤ℤ available_memory_mb g

pub IsEligible-of_has_room :
    (shared : Bool) (need : ℤ) (g : Gpu) → has_room shared need g ≡ true → IsEligible shared need g
unfolding has_room
IsEligible-of_has_room shared need g h = ground arith

pub not-IsEligible :
    (shared : Bool) (need : ℤ) (g : Gpu)
    → has_room shared need g ≡ false
    → ¬ IsEligible shared need g
unfolding has_room
not-IsEligible shared need g h e = ground arith

-- The GPUs of a node that pass the guard, in their order.
abbrev pub eligible : Bool → ℤ → List Gpu → List Gpu
eligible shared need = keep (has_room shared need)

pub eligible-IsEligible :
    (shared : Bool) (need : ℤ) (gs : List Gpu)
    → All (IsEligible shared need) (eligible shared need gs)
eligible-IsEligible shared need gs =
    All-map (λ g. has_room shared need g ≡ true) (IsEligible shared need) (eligible shared need gs)
      (IsEligible-of_has_room shared need) (keep-passes (has_room shared need) gs)

pub none_eligible :
    (shared : Bool) (need : ℤ) (gs : List Gpu)
    → eligible shared need gs ≡ []
    → All (λ g. ¬ IsEligible shared need g) gs
none_eligible shared need gs h =
    All-map (λ g. has_room shared need g ≡ false) (λ g. ¬ IsEligible shared need g) gs
      (not-IsEligible shared need) (keep-nil (has_room shared need) gs h)
