-- ===== src/Registry/History.antt =====
-- internal/gpu/registry.go: the calls that change the registry, as sequences of steps, and the books of
-- the registry over them.
use gpu_scheduler.Common.{
  ◌≡◌, refl, Bool, true, false, List, [], ◌∷◌, String, ℤ, pos, ◌≤ℤ◌, int_laws, parts_of_eq,
  eq_of_parts, arith, All,
}
use gpu_scheduler.Common.Dict.{lookup, lookup2}
use gpu_scheduler.Agent.{GpuReport}
use gpu_scheduler.Registry.{
  AllocationEntry, Registry, new_registry, update_from_report, remove_stale, remove_stale_nodes,
  set_mig_on, set_first_mig_on, mark_mig_allocated, release_mig, release_gpu, track, pod_key,
  mark_gpu_allocated_for_pod, mark_mig_allocated_for_pod, release_pod, get_reserved_memory,
  get_pod_count,
}
use gpu_scheduler.Registry.Accounting.{
  IsBalanced, cut-IsBalanced, held, held_count, held-append, held_count-append, sum-track,
  nonneg-track, mark_gpu-IsBalanced,
}
use gpu_scheduler.Registry.Release.{release_pod-IsBalanced, set_mig_on-keeps}

-- One call of a method that changes the registry.
pub data Op : Type 0 where
  report : GpuReport → ℤ → Op
  expire : ℤ → ℤ → Op
  mark_mig free_mig : String → String → Op
  free_gpu : String → String → ℤ → Op
  mark_gpu_for mark_mig_for : String → String → ℤ → String → String → Op
  free_pod : String → String → Op

unfoldable pub step : Registry → Op → Registry
step r (report rep now) = update_from_report r rep now
step r (expire threshold now) = remove_stale_nodes r threshold now
step r (mark_mig node uuid) = mark_mig_allocated r node uuid
step r (free_mig node uuid) = release_mig r node uuid
step r (free_gpu node gpu memory) = release_gpu r node gpu memory
step r (mark_gpu_for node gpu memory namespace name) =
    mark_gpu_allocated_for_pod r node gpu memory namespace name
step r (mark_mig_for node uuid memory namespace name) =
    mark_mig_allocated_for_pod r node uuid memory namespace name
step r (free_pod namespace name) = release_pod r namespace name

unfoldable pub run : Registry → List Op → Registry
run r [] = r
run r (op ∷ ops) = run (step r op) ops

-- The memory a call asks for is at least 0.
abbrev pub AsksMemory : Op → Type 0
AsksMemory (mark_gpu_for node gpu memory namespace name) = pos 0 ≤ℤ memory
AsksMemory (mark_mig_for node uuid memory namespace name) = pos 0 ≤ℤ memory
AsksMemory (report rep now) = Unit
AsksMemory (expire threshold now) = Unit
AsksMemory (mark_mig node uuid) = Unit
AsksMemory (free_mig node uuid) = Unit
AsksMemory (free_gpu node gpu memory) = Unit
AsksMemory (free_pod namespace name) = Unit

-- The three tables that the books are about.
abbrev pub SameBooks : Registry → Registry → Type 0
SameBooks r s =
    (s.reservations ≡ r.reservations)
    × (s.pod_count_per_gpu ≡ r.pod_count_per_gpu)
    × (s.pod_allocations ≡ r.pod_allocations)

pub SameBooks-IsBalanced : (r s : Registry) → SameBooks r s → IsBalanced r → IsBalanced s
unfolding get_reserved_memory get_pod_count
SameBooks-IsBalanced r s (res, cnt, all) b = record {
  reserved = λ n g. rw (res, all) (b.reserved n g);
  counted = λ n g. rw (cnt, all) (b.counted n g);
  nonneg = rw all b.nonneg;
  paired = λ n. rw (res, cnt) (b.paired n);
}

pub report-SameBooks :
    (r : Registry) (rep : GpuReport) (now : ℤ) → SameBooks r (update_from_report r rep now)
unfolding update_from_report
report-SameBooks r rep now = (refl, refl, refl)

first_mig-SameBooks :
    (node uuid : String) (free : Bool) (r : Registry)
    → SameBooks r (set_first_mig_on node uuid free r)
unfolding set_first_mig_on
first_mig-SameBooks node uuid free r = ground arith

release_gpu-SameBooks :
    (r : Registry) (node gpu : String) (memory : ℤ) → SameBooks r (release_gpu r node gpu memory)
unfolding release_gpu
release_gpu-SameBooks r node gpu memory = ground arith

-- An entry for a MIG instance counts for no GPU.
track_mig-IsBalanced :
    (r : Registry) (node uuid key : String) (memory : ℤ)
    → pos 0 ≤ℤ memory
    → IsBalanced r
    → IsBalanced (
        track r key
          (record { node_name = node; gpu_uuid = uuid; memory_mb = memory; is_mig = true }))
unfolding track get_reserved_memory get_pod_count
track_mig-IsBalanced r node uuid key memory fits b =
    let e : AllocationEntry = record {
      node_name = node;
      gpu_uuid = uuid;
      memory_mb = memory;
      is_mig = true;
    } in
    record {
      reserved = λ n g. eq_of_parts _ _ (
          omega (
            int_laws,
            parts_of_eq (b.reserved n g),
            parts_of_eq (
                sum-track (held n g) key e r.pod_allocations refl
                  (λ xs. held-append n g xs (e ∷ []))),
          ));
      counted = λ n g. eq_of_parts _ _ (
          omega (
            int_laws,
            parts_of_eq (b.counted n g),
            parts_of_eq (
                sum-track (held_count n g) key e r.pod_allocations refl
                  (λ xs. held_count-append n g xs (e ∷ []))),
          ));
      nonneg = nonneg-track key e r.pod_allocations fits b.nonneg;
      paired = b.paired;
    }

pub mark_mig-IsBalanced :
    (r : Registry) (node uuid : String) (memory : ℤ) (namespace name : String)
    → pos 0 ≤ℤ memory
    → IsBalanced r
    → IsBalanced (mark_mig_allocated_for_pod r node uuid memory namespace name)
unfolding mark_mig_allocated_for_pod
mark_mig-IsBalanced r node uuid memory namespace name fits b = cut-IsBalanced uuid _ (
    track_mig-IsBalanced (set_mig_on node uuid false r) node uuid (pod_key namespace name) memory
      fits
      (SameBooks-IsBalanced r (set_mig_on node uuid false r) (set_mig_on-keeps node uuid false r)
        b))

remove_stale-IsBalanced :
    (seen : List (String × ℤ)) (threshold now : ℤ) (r : Registry)
    → IsBalanced r
    → IsBalanced (remove_stale seen threshold now r)
unfolding remove_stale
remove_stale-IsBalanced [] threshold now r b = b
remove_stale-IsBalanced ((node, t) ∷ seen) threshold now r b =
    remove_stale-IsBalanced seen threshold now _ (SameBooks-IsBalanced r _ (ground arith) b)

step-IsBalanced : (r : Registry) (op : Op) → AsksMemory op → IsBalanced r → IsBalanced (step r op)
unfolding step mark_mig_allocated release_mig remove_stale_nodes
step-IsBalanced r (report rep now) h b = SameBooks-IsBalanced r _ (report-SameBooks r rep now) b
step-IsBalanced r (expire threshold now) h b = remove_stale-IsBalanced r.last_seen threshold now r b
step-IsBalanced r (mark_mig node uuid) h b =
    SameBooks-IsBalanced r _ (first_mig-SameBooks node uuid false r) b
step-IsBalanced r (free_mig node uuid) h b =
    SameBooks-IsBalanced r _ (first_mig-SameBooks node uuid true r) b
step-IsBalanced r (free_gpu node gpu memory) h b =
    SameBooks-IsBalanced r _ (release_gpu-SameBooks r node gpu memory) b
step-IsBalanced r (mark_gpu_for node gpu memory namespace name) h b =
    mark_gpu-IsBalanced r node gpu memory namespace name h b
step-IsBalanced r (mark_mig_for node uuid memory namespace name) h b =
    mark_mig-IsBalanced r node uuid memory namespace name h b
step-IsBalanced r (free_pod namespace name) h b = release_pod-IsBalanced r namespace name b

run-IsBalanced :
    (r : Registry) (ops : List Op) → All AsksMemory ops → IsBalanced r → IsBalanced (run r ops)
unfolding run
run-IsBalanced r [] h b = b
run-IsBalanced r (op ∷ ops) h b = run-IsBalanced (step r op) ops h.1 (step-IsBalanced r op h.0 b)

pub new-IsBalanced : IsBalanced new_registry
unfolding new_registry get_reserved_memory get_pod_count lookup2 lookup
new-IsBalanced = record {
  reserved = λ n g. refl;
  counted = λ n g. refl;
  nonneg = tt;
  paired = λ n. refl;
}

-- From the empty registry, after any list of calls whose marks ask for memory of at least 0: on
-- every GPU the reserved memory and the pod count are the sums over the tracked allocations that
-- are no MIG instances, every tracked memory is at least 0, and a node has a table of reservations
-- exactly if it has one of pod counts.
pub history-IsBalanced : (ops : List Op) → All AsksMemory ops → IsBalanced (run new_registry ops)
history-IsBalanced ops h = run-IsBalanced new_registry ops h new-IsBalanced
