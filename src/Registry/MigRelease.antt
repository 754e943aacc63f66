-- ===== src/Registry/MigRelease.antt =====
-- internal/gpu/registry.go: the MIG instances that ReleasePod makes available again.
use gpu_scheduler.Common.{
  ◌≡◌, refl, sym, ap, ◌∙◌, subst, ◌⊎◌, inl, inr, true, false, Option, none, some, List, [], ◌∷◌,
  String, eq_str, eq_iff, ℤ, All, Memᴰ, Bool-cases, Option-cases, if◌then◌else◌, arith,
}
use gpu_scheduler.Common.Dict.{lookup, lookup_or, lookup-insert}
use gpu_scheduler.Agent.{MigInstance, GpuInfo}
use gpu_scheduler.Registry.{
  Registry, NodeGpus, AllocationEntry, set_instances, set_mig, set_mig_on, free_entry,
  release_entry, release_entries, release_pod, pod_key, cut, unreserve,
}

-- Every instance of a GPU that carries the uuid is available.
abbrev pub FreeInstances : String → List MigInstance → Type 0
FreeInstances uuid = All (λ m. (eq_str m.uuid uuid ≡ false) ⊎ (m.is_available ≡ true))

abbrev pub FreeGpus : String → List GpuInfo → Type 0
FreeGpus uuid = All (λ g. FreeInstances uuid g.mig_instances)

-- The same on a node, if it is known.
abbrev pub FreeOn : String → Option NodeGpus → Type 0
FreeOn uuid none = Unit
FreeOn uuid (some n) = FreeGpus uuid n.gpus

instances-freed :
    (uuid : String) (ms : List MigInstance) → FreeInstances uuid (set_instances uuid true ms)
unfolding set_instances
instances-freed uuid [] = tt
instances-freed uuid (m ∷ ms) = (one m, instances-freed uuid ms)
  where
    one :
        (m : MigInstance)
        → let m' = if eq_str m.uuid uuid then record m { is_available = true } else m in
          (eq_str m'.uuid uuid ≡ false) ⊎ (m'.is_available ≡ true)
    one m = elim (Bool-cases (eq_str m.uuid uuid)) [
      | inl e ↦ rw e (inr refl)
      | inr e ↦ rw e (inl e)
    ]

instances-kept :
    (uuid other : String) (ms : List MigInstance)
    → FreeInstances uuid ms
    → FreeInstances uuid (set_instances other true ms)
unfolding set_instances
instances-kept uuid other [] h = tt
instances-kept uuid other (m ∷ ms) h = (one m h.0, instances-kept uuid other ms h.1)
  where
    one :
        (m : MigInstance)
        → (eq_str m.uuid uuid ≡ false) ⊎ (m.is_available ≡ true)
        → let m' = if eq_str m.uuid other then record m { is_available = true } else m in
          (eq_str m'.uuid uuid ≡ false) ⊎ (m'.is_available ≡ true)
    one m k = elim (Bool-cases (eq_str m.uuid other)) [ inl e ↦ rw e (inr refl) | inr e ↦ rw e k ]

gpus-freed : (uuid : String) (gs : List GpuInfo) → FreeGpus uuid (set_mig uuid true gs)
unfolding set_mig
gpus-freed uuid [] = tt
gpus-freed uuid (g ∷ gs) = (instances-freed uuid g.mig_instances, gpus-freed uuid gs)

gpus-kept :
    (uuid other : String) (gs : List GpuInfo)
    → FreeGpus uuid gs
    → FreeGpus uuid (set_mig other true gs)
unfolding set_mig
gpus-kept uuid other [] h = tt
gpus-kept uuid other (g ∷ gs) h =
    (instances-kept uuid other g.mig_instances h.0, gpus-kept uuid other gs h.1)

set_mig_on-freed :
    (node uuid : String) (r : Registry)
    → FreeOn uuid (lookup node (set_mig_on node uuid true r).nodes)
unfolding set_mig_on
set_mig_on-freed node uuid r = elim (Option-cases (lookup node r.nodes)) [
  | inl e ↦ rw (e, set_mig_on) (rw e tt)
  | inr (n, e) ↦
      rw (e, set_mig_on)
        (rw (lookup-insert node node (record n { gpus = set_mig uuid true n.gpus }) r.nodes)
          (rw ((eq_iff node node).1 refl) (gpus-freed uuid n.gpus)))
]

set_mig_on-kept :
    (node uuid at other : String) (r : Registry)
    → FreeOn uuid (lookup node r.nodes)
    → FreeOn uuid (lookup node (set_mig_on at other true r).nodes)
unfolding set_mig_on
set_mig_on-kept node uuid at other r h = elim (Option-cases (lookup at r.nodes)) [
  | inl e ↦ rw (e, set_mig_on) h
  | inr (n, e) ↦
      rw (e, set_mig_on)
        (rw (lookup-insert at node (record n { gpus = set_mig other true n.gpus }) r.nodes)
          (elim (Bool-cases (eq_str at node)) [
            | inl t ↦
                let there : FreeOn uuid (some n) =
                  subst (FreeOn uuid) (ap (λ k. lookup k r.nodes) (sym ((eq_iff at node).0 t)) ∙ e)
                    h in
                rw t (gpus-kept uuid other n.gpus there)
            | inr t ↦ rw t h
          ]))
]

unreserve-nodes :
    (r : Registry) (node gpu : String) (memory : ℤ) → (unreserve r node gpu memory).nodes ≡ r.nodes
unfolding unreserve
unreserve-nodes r node gpu memory = ground arith

release_entry-kept :
    (node uuid : String) (r : Registry) (e : AllocationEntry)
    → FreeOn uuid (lookup node r.nodes)
    → FreeOn uuid (lookup node (release_entry r e).nodes)
unfolding release_entry cut free_entry
release_entry-kept node uuid r e h = elim (Bool-cases e.is_mig) [
  | inl m ↦ rw (m, free_entry) (set_mig_on-kept node uuid e.node_name e.gpu_uuid r h)
  | inr m ↦ elim (Option-cases (lookup e.node_name r.reservations)) [
    | inl n ↦ rw (m, n, free_entry) h
    | inr (t, n) ↦
        rw (m, n, free_entry) (rw (unreserve-nodes r e.node_name e.gpu_uuid e.memory_mb) h)
  ]
]

release_entries-kept :
    (node uuid : String) (r : Registry) (es : List AllocationEntry)
    → FreeOn uuid (lookup node r.nodes)
    → FreeOn uuid (lookup node (release_entries r es).nodes)
unfolding release_entries
release_entries-kept node uuid r [] h = h
release_entries-kept node uuid r (e ∷ es) h =
    release_entries-kept node uuid (release_entry r e) es (release_entry-kept node uuid r e h)

release_entries-freed :
    (r : Registry) (e : AllocationEntry) (es : List AllocationEntry)
    → e.is_mig ≡ true
    → Memᴰ e es
    → FreeOn e.gpu_uuid (lookup e.node_name (release_entries r es).nodes)
unfolding release_entries release_entry cut free_entry
release_entries-freed r e [] m h = elim h [ ]
release_entries-freed r e (x ∷ es) m (Memᴰ.head same) =
    release_entries-kept e.node_name e.gpu_uuid (release_entry r x) es (
      subst
        (λ (y : AllocationEntry). FreeOn e.gpu_uuid (lookup e.node_name (release_entry r y).nodes))
        same (rw (m, free_entry) (set_mig_on-freed e.node_name e.gpu_uuid r)))
release_entries-freed r e (x ∷ es) m (Memᴰ.tail h) =
    release_entries-freed (release_entry r x) e es m h

-- The release of a pod makes every MIG instance available that the pod has, on a known node.
pub release_pod-freed :
    (r : Registry) (namespace name : String) (e : AllocationEntry)
    → e.is_mig ≡ true
    → Memᴰ e (lookup_or [] (pod_key namespace name) r.pod_allocations)
    → FreeOn e.gpu_uuid (lookup e.node_name (release_pod r namespace name).nodes)
unfolding release_pod
release_pod-freed r namespace name e m h =
    elim (Option-cases (lookup (pod_key namespace name) r.pod_allocations)) [
      | inl n ↦ elim (rw (n, lookup_or) at h) [ ]
      | inr (es, n) ↦ rw (n, release_pod) (release_entries-freed r e es m (rw (n, lookup_or) at h))
    ]
