-- ===== src/Registry/RoundTrip.antt =====
-- internal/gpu/registry.go: MarkGPUAllocatedForPod and MarkMIGAllocatedForPod against ReleasePod.
use gpu_scheduler.Common.{
  ◌≡◌, refl, subst, true, ◌++◌, Memᴰ, Memᴰ_middle, All-map, sym, ◌∙◌, ℤ, pos, ◌+ℤ◌, ◌≤ℤ◌, int_laws,
  parts_of_eq, eq_of_parts, List, [], ◌∷◌, String, eq_iff, All, none, Option-cases, inl, inr, false,
}
use gpu_scheduler.Common.Dict.{
  Dict, lookup, lookup_or, lookup_or-insert, insert, lookup-insert, sum_values, at_key,
  sum_values-insert, sum_values-erase,
}
use gpu_scheduler.Registry.{
  Registry, AllocationEntry, reserve, track, cut, pod_key, mark_gpu_allocated_for_pod,
  mark_mig_allocated_for_pod, release_pod, get_reserved_memory, get_pod_count,
}
use gpu_scheduler.Registry.Accounting.{
  IsBalanced, held, held_count, mark_gpu-IsBalanced, with_tables-allocations,
}
use gpu_scheduler.Registry.Release.{
  release_pod-IsBalanced, set_mig_on-keeps, release_entries-allocations,
}
use gpu_scheduler.Registry.MigRelease.{FreeOn, release_pod-freed}
use gpu_scheduler.Registry.History.{mark_mig-IsBalanced}

-- One mark for a pod.
pub data Mark : Type 0 where
  gpu_mark mig_mark : String → String → ℤ → Mark

unfoldable pub mark_for : Registry → String → String → Mark → Registry
mark_for r namespace name (gpu_mark node gpu memory) =
    mark_gpu_allocated_for_pod r node gpu memory namespace name
mark_for r namespace name (mig_mark node uuid memory) =
    mark_mig_allocated_for_pod r node uuid memory namespace name

unfoldable pub mark_all_for : Registry → String → String → List Mark → Registry
mark_all_for r namespace name [] = r
mark_all_for r namespace name (m ∷ ms) =
    mark_all_for (mark_for r namespace name m) namespace name ms

abbrev pub IsOwing : Mark → Type 0
IsOwing (gpu_mark node gpu memory) = pos 0 ≤ℤ memory
IsOwing (mig_mark node uuid memory) = pos 0 ≤ℤ memory

mark_for-IsBalanced :
    (r : Registry) (namespace name : String) (m : Mark)
    → IsOwing m
    → IsBalanced r
    → IsBalanced (mark_for r namespace name m)
unfolding mark_for
mark_for-IsBalanced r namespace name (gpu_mark node gpu memory) h b =
    mark_gpu-IsBalanced r node gpu memory namespace name h b
mark_for-IsBalanced r namespace name (mig_mark node uuid memory) h b =
    mark_mig-IsBalanced r node uuid memory namespace name h b

pub mark_all_for-IsBalanced :
    (r : Registry) (namespace name : String) (ms : List Mark)
    → All IsOwing ms
    → IsBalanced r
    → IsBalanced (mark_all_for r namespace name ms)
unfolding mark_all_for
mark_all_for-IsBalanced r namespace name [] h b = b
mark_all_for-IsBalanced r namespace name (m ∷ ms) h b =
    mark_all_for-IsBalanced (mark_for r namespace name m) namespace name ms h.1
      (mark_for-IsBalanced r namespace name m h.0 b)

-- Two tables of allocations differ at one pod only, by what they sum up to.
abbrev OnlyAt : String → Dict (List AllocationEntry) → Dict (List AllocationEntry) → Type 0
OnlyAt key d d' =
    (f : List AllocationEntry → ℤ)
    → sum_values f d' +ℤ at_key f (lookup key d) ≡ sum_values f d +ℤ at_key f (lookup key d')

insert-OnlyAt :
    (key : String) (v : List AllocationEntry) (d : Dict (List AllocationEntry))
    → OnlyAt key d (insert key v d)
insert-OnlyAt key v d f =
    rw (lookup-insert key key v d) (rw ((eq_iff key key).1 refl) (sum_values-insert f key v d))

OnlyAt-trans :
    (key : String) (d e g : Dict (List AllocationEntry))
    → OnlyAt key d e
    → OnlyAt key e g
    → OnlyAt key d g
OnlyAt-trans key d e g h k f =
    eq_of_parts _ _ (omega (int_laws, parts_of_eq (h f), parts_of_eq (k f)))

mark_for-OnlyAt :
    (r : Registry) (namespace name : String) (m : Mark)
    → OnlyAt
        (pod_key namespace name)
        r.pod_allocations
        (mark_for r namespace name m).pod_allocations
unfolding mark_for mark_gpu_allocated_for_pod mark_mig_allocated_for_pod cut track reserve
mark_for-OnlyAt r namespace name (gpu_mark node gpu memory) =
    rw (with_tables-allocations r node) (insert-OnlyAt (pod_key namespace name) _ r.pod_allocations)
mark_for-OnlyAt r namespace name (mig_mark node uuid memory) =
    let same = (set_mig_on-keeps node uuid false r).2 in
    rw same (insert-OnlyAt (pod_key namespace name) _ r.pod_allocations)

mark_all_for-OnlyAt :
    (r : Registry) (namespace name : String) (ms : List Mark)
    → OnlyAt
        (pod_key namespace name)
        r.pod_allocations
        (mark_all_for r namespace name ms).pod_allocations
unfolding mark_all_for
mark_all_for-OnlyAt r namespace name [] = λ f. refl
mark_all_for-OnlyAt r namespace name (m ∷ ms) =
    let r' = mark_for r namespace name m in
    OnlyAt-trans (pod_key namespace name) r.pod_allocations r'.pod_allocations _
      (mark_for-OnlyAt r namespace name m) (mark_all_for-OnlyAt r' namespace name ms)

release-sum :
    (r : Registry) (namespace name : String) (f : List AllocationEntry → ℤ)
    → sum_values f (release_pod r namespace name).pod_allocations
        +ℤ at_key f (lookup (pod_key namespace name) r.pod_allocations)
      ≡ sum_values f r.pod_allocations
unfolding release_pod
release-sum r namespace name f =
    elim (Option-cases (lookup (pod_key namespace name) r.pod_allocations)) [
      | inl e ↦ rw (e, release_pod, at_key) (eq_of_parts _ _ (omega int_laws))
      | inr (es, e) ↦
          let same = release_entries-allocations r es in
          let sums = rw e at (sum_values-erase f (pod_key namespace name) r.pod_allocations) in
          rw (e, release_pod) (rw same sums)
    ]

-- What full GPUs hold, after the marks and the release.
pub holdings-release :
    (r : Registry) (namespace name : String) (ms : List Mark)
    → IsBalanced r
    → lookup (pod_key namespace name) r.pod_allocations ≡ none
    → All IsOwing ms
    → let r' = release_pod (mark_all_for r namespace name ms) namespace name in
      ((node gpu : String)
        → (get_reserved_memory r' node gpu ≡ get_reserved_memory r node gpu)
          × (get_pod_count r' node gpu ≡ get_pod_count r node gpu))
      × IsBalanced r'
holdings-release r namespace name ms b fresh owing =
    let marked = mark_all_for r namespace name ms in
    let b' =
      release_pod-IsBalanced marked namespace name
        (mark_all_for-IsBalanced r namespace name ms owing b) in
    let sums : (f : List AllocationEntry → ℤ)
        → sum_values f (release_pod marked namespace name).pod_allocations
          ≡ sum_values f r.pod_allocations =
      λ f. eq_of_parts _ _ (
        omega (
          int_laws,
          parts_of_eq (release-sum marked namespace name f),
          parts_of_eq (rw fresh at (mark_all_for-OnlyAt r namespace name ms f)),
        )) in
    (
      λ node gpu. (
        b'.reserved node gpu ∙ sums (held node gpu) ∙ sym (b.reserved node gpu),
        b'.counted node gpu ∙ sums (held_count node gpu) ∙ sym (b.counted node gpu),
      ),
      b',
    )

-- A pod's entries include one.
abbrev Tracked : Registry → String → String → AllocationEntry → Type 0
Tracked r namespace name e = Memᴰ e (lookup_or [] (pod_key namespace name) r.pod_allocations)

Memᴰ-append : (e : AllocationEntry) (xs ys : List AllocationEntry) → Memᴰ e xs → Memᴰ e (xs ++ ys)
Memᴰ-append e [] ys h = elim h [ ]
Memᴰ-append e (x ∷ xs) ys (Memᴰ.head same) = Memᴰ.head same
Memᴰ-append e (x ∷ xs) ys (Memᴰ.tail h) = Memᴰ.tail (Memᴰ-append e xs ys h)

-- The entry that a mark appends.
abbrev entry_of : Mark → AllocationEntry
entry_of (gpu_mark node gpu memory) = record {
  node_name = node;
  gpu_uuid = gpu;
  memory_mb = memory;
  is_mig = false;
}
entry_of (mig_mark node uuid memory) = record {
  node_name = node;
  gpu_uuid = uuid;
  memory_mb = memory;
  is_mig = true;
}

mark_for-entries :
    (r : Registry) (namespace name : String) (m : Mark)
    → lookup_or [] (pod_key namespace name) (mark_for r namespace name m).pod_allocations
      ≡ lookup_or [] (pod_key namespace name) r.pod_allocations ++ entry_of m ∷ []
unfolding mark_for mark_gpu_allocated_for_pod mark_mig_allocated_for_pod cut track reserve
mark_for-entries r namespace name (gpu_mark node gpu memory) =
    let key = pod_key namespace name in
    rw (with_tables-allocations r node)
      (lookup_or-insert key key [] _ r.pod_allocations ∙ rw ((eq_iff key key).1 refl) refl)
mark_for-entries r namespace name (mig_mark node uuid memory) =
    let key = pod_key namespace name in
    let same = (set_mig_on-keeps node uuid false r).2 in
    rw same (lookup_or-insert key key [] _ r.pod_allocations ∙ rw ((eq_iff key key).1 refl) refl)

mark_all-Tracked :
    (r : Registry) (namespace name : String) (ms : List Mark) (e : AllocationEntry)
    → Tracked r namespace name e
    → Tracked (mark_all_for r namespace name ms) namespace name e
unfolding mark_all_for
mark_all-Tracked r namespace name [] e h = h
mark_all-Tracked r namespace name (m ∷ ms) e h =
    mark_all-Tracked (mark_for r namespace name m) namespace name ms e
      (subst (Memᴰ e) (sym (mark_for-entries r namespace name m)) (Memᴰ-append e _ _ h))

all-Tracked :
    (r : Registry) (namespace name : String) (ms : List Mark)
    → All (λ m. Tracked (mark_all_for r namespace name ms) namespace name (entry_of m)) ms
unfolding mark_all_for
all-Tracked r namespace name [] = tt
all-Tracked r namespace name (m ∷ ms) =
    let r' = mark_for r namespace name m in
    (
      mark_all-Tracked r' namespace name ms (entry_of m) (
          subst (Memᴰ (entry_of m)) (sym (mark_for-entries r namespace name m)) (
            Memᴰ_middle (lookup_or [] (pod_key namespace name) r.pod_allocations) [] (entry_of m))),
      all-Tracked r' namespace name ms,
    )

-- The MIG instances of a mark are available, all that carry its uuid on its node if that is known.
abbrev pub IsFreed : Registry → Mark → Type 0
IsFreed r (gpu_mark node gpu memory) = Unit
IsFreed r (mig_mark node uuid memory) = FreeOn uuid (lookup node r.nodes)

Tracked-IsFreed :
    (r : Registry) (namespace name : String) (m : Mark)
    → Tracked r namespace name (entry_of m)
    → IsFreed (release_pod r namespace name) m
Tracked-IsFreed r namespace name (gpu_mark node gpu memory) h = tt
Tracked-IsFreed r namespace name (mig_mark node uuid memory) h =
    release_pod-freed r namespace name (entry_of (mig_mark node uuid memory)) refl h

-- Any marks for a pod that has no allocation, of memory of at least 0 each, in a registry whose
-- books balance, are undone by the release of the pod: every GPU has the reserved memory and the
-- pod count that it had before, the books balance, and every MIG instance that was marked is
-- available, if its node is still known.
pub mark_all-release :
    (r : Registry) (namespace name : String) (ms : List Mark)
    → IsBalanced r
    → lookup (pod_key namespace name) r.pod_allocations ≡ none
    → All IsOwing ms
    → let r' = release_pod (mark_all_for r namespace name ms) namespace name in
      (((node gpu : String)
          → (get_reserved_memory r' node gpu ≡ get_reserved_memory r node gpu)
            × (get_pod_count r' node gpu ≡ get_pod_count r node gpu))
        × IsBalanced r')
      × All (IsFreed r') ms
mark_all-release r namespace name ms b fresh owing =
    let marked = mark_all_for r namespace name ms in
    (
      holdings-release r namespace name ms b fresh owing,
      All-map (λ m. Tracked marked namespace name (entry_of m))
          (IsFreed (release_pod marked namespace name)) ms (Tracked-IsFreed marked namespace name)
          (all-Tracked r namespace name ms),
    )
