-- ===== src/Registry/Find/Laws.antt =====
-- internal/gpu/registry.go: FindAvailableFullGPU, and the reservation of what it finds.
use gpu_scheduler.Common.{
  ◌≡◌, refl, ap, true, false, ◌&&◌, List, [], ◌∷◌, String, ℤ, pos, ◌≤ℤ◌, ◌-ℤ◌, int_laws, int_tests,
  parts_of_eq, eq_of_parts, eq_str, eq_iff, arith, Memᴰ, All, All-append, All-map, Bool-cases, inl,
  inr,
}
use mathlib.Core.List.Memᴰ
use gpu_scheduler.Common.Dict.{Dict}
use gpu_scheduler.Agent.{GpuInfo}
use gpu_scheduler.Registry.{NodeGpus, Registry, mark_gpu_allocated_for_pod}
use gpu_scheduler.Registry.Accounting.{IsBalanced, mark_gpu-reserved}
use gpu_scheduler.Registry.Find.{
  GpuCandidate, free_mb, candidate, is_candidate, full_of_node, full_of_nodes,
  find_available_full_gpu,
}

-- A full GPU that can take `least` MB: no MIG device, healthy, and with the memory left after
-- what the agent reports and what is reserved.
pub record IsFree (r : Registry) (least : ℤ) (node : String) (g : GpuInfo) : Type 0 where
  pub whole : g.mig_enabled ≡ false
  pub healthy : g.is_healthy ≡ true
  pub room : least ≤ℤ free_mb r node g

IsFree-of_candidate :
    (r : Registry) (least : ℤ) (node : String) (g : GpuInfo)
    → is_candidate r least node g ≡ true
    → IsFree r least node g
unfolding is_candidate
IsFree-of_candidate r least node g h = record {
  whole = ground arith;
  healthy = ground arith;
  room = grind (arith, int_tests);
}

candidate_of_IsFree :
    (r : Registry) (least : ℤ) (node : String) (g : GpuInfo)
    → IsFree r least node g
    → is_candidate r least node g ≡ true
unfolding is_candidate
candidate_of_IsFree r least node g f = grind (arith, int_tests, f.whole, f.healthy, f.room)

module _ (r : Registry) (least : ℤ) where
  -- The GPU that a candidate of one node stands for.
  OnNode : String → List GpuInfo → GpuCandidate → Type 0
  OnNode node gs c = (g : GpuInfo) × Memᴰ g gs × IsFree r least node g × (c ≡ candidate r node g)

  OnNodes : Dict NodeGpus → GpuCandidate → Type 0
  OnNodes d c = (node : String) × (n : NodeGpus) × Memᴰ (node, n) d × OnNode node n.gpus c

  full_of_node_sound :
      (node : String) (gs : List GpuInfo) → All (OnNode node gs) (full_of_node r least node gs)
  unfolding full_of_node OnNode
  full_of_node_sound node [] = tt
  full_of_node_sound node (g ∷ gs) =
      let later =
        All-map (OnNode node gs) (OnNode node (g ∷ gs)) (full_of_node r least node gs)
          (λ c (x, m, f, e). (x, Memᴰ.tail m, f, e)) (full_of_node_sound node gs) in
      elim (Bool-cases (is_candidate r least node g)) [
        | inl e ↦ rw e ((g, Memᴰ.head refl, IsFree-of_candidate r least node g e, refl), later)
        | inr e ↦ rw e later
      ]

  full_of_nodes_sound : (d : Dict NodeGpus) → All (OnNodes d) (full_of_nodes r least d)
  unfolding full_of_nodes OnNodes
  full_of_nodes_sound [] = tt
  full_of_nodes_sound ((node, n) ∷ d) =
      All-append (OnNodes ((node, n) ∷ d)) (full_of_node r least node n.gpus)
        (full_of_nodes r least d)
        (All-map (OnNode node n.gpus) (OnNodes ((node, n) ∷ d)) (full_of_node r least node n.gpus)
          (λ c o. (node, n, Memᴰ.head refl, o)) (full_of_node_sound node n.gpus))
        (All-map (OnNodes d) (OnNodes ((node, n) ∷ d)) (full_of_nodes r least d)
          (λ c (k, v, m, o). (k, v, Memᴰ.tail m, o)) (full_of_nodes_sound d))

  full_of_node_complete :
      (node : String) (g : GpuInfo) (gs : List GpuInfo)
      → IsFree r least node g
      → Memᴰ g gs
      → Memᴰ (candidate r node g) (full_of_node r least node gs)
  unfolding full_of_node
  full_of_node_complete node g [] f m = elim m [ ]
  full_of_node_complete node g (x ∷ gs) f (Memᴰ.head e) =
      rw (← e) (rw (candidate_of_IsFree r least node g f) (Memᴰ.head refl))
  full_of_node_complete node g (x ∷ gs) f (Memᴰ.tail m) =
      elim (Bool-cases (is_candidate r least node x)) [
        | inl e ↦ rw e (Memᴰ.tail (full_of_node_complete node g gs f m))
        | inr e ↦ rw e (full_of_node_complete node g gs f m)
      ]

  full_of_nodes_complete :
      (node : String) (n : NodeGpus) (g : GpuInfo) (d : Dict NodeGpus)
      → IsFree r least node g
      → Memᴰ (node, n) d
      → Memᴰ g n.gpus
      → Memᴰ (candidate r node g) (full_of_nodes r least d)
  unfolding full_of_nodes
  full_of_nodes_complete node n g [] f i m = elim i [ ]
  full_of_nodes_complete node n g ((k, v) ∷ d) f (Memᴰ.head e) m =
      let same : (node ≡ k) × (n ≡ v) = (ap (λ p. p.0) e, ap (λ p. p.1) e) in
      rw (← same.0, ← same.1)
        (Memᴰ.append_left (full_of_nodes r least d) (full_of_node_complete node g n.gpus f m))
  full_of_nodes_complete node n g ((k, v) ∷ d) f (Memᴰ.tail i) m =
      Memᴰ.append_right (full_of_node r least k v.gpus) (full_of_nodes_complete node n g d f i m)

-- A candidate for `least` MB: it is what the search shows of a GPU of a known node that is no MIG
-- device, is healthy, and has `least` MB left after what its agent reports and what is reserved.
pub record IsListed (r : Registry) (least : ℤ) (c : GpuCandidate) : Type 0 where
  pub node : String
  pub known : NodeGpus
  pub gpu : GpuInfo
  pub is_known : Memᴰ (node, known) r.nodes
  pub on_node : Memᴰ gpu known.gpus
  pub free : IsFree r least node gpu
  pub shown : c ≡ candidate r node gpu

pub find_full-IsListed :
    (r : Registry) (least : ℤ) → All (IsListed r least) (find_available_full_gpu r least)
unfolding find_available_full_gpu OnNodes OnNode
find_full-IsListed r least =
    All-map (OnNodes r least r.nodes) (IsListed r least) (full_of_nodes r least r.nodes)
      (λ c (node, n, i, (g, m, f, e)). record {
        node = node;
        known = n;
        gpu = g;
        is_known = i;
        on_node = m;
        free = f;
        shown = e;
      })
      (full_of_nodes_sound r least r.nodes)

-- The search for a full GPU, over any registry and any memory: every candidate it lists is listed
-- rightly (`IsListed`), and every GPU of a known node that is whole, healthy and has the memory is
-- listed.
pub find_full_exact :
    (r : Registry) (least : ℤ)
    → All (IsListed r least) (find_available_full_gpu r least)
      × ((node : String) (n : NodeGpus) (g : GpuInfo)
          → Memᴰ (node, n) r.nodes
          → Memᴰ g n.gpus
          → IsFree r least node g
          → Memᴰ (candidate r node g) (find_available_full_gpu r least))
unfolding find_available_full_gpu
find_full_exact r least = (
  find_full-IsListed r least,
  λ node n g i m f. full_of_nodes_complete r least node n g r.nodes f i m,
)

-- Marking `least` MB of a GPU that has them free, in a registry whose books balance, leaves its
-- free memory at 0 or more, and lower by exactly that much.
pub mark_within_free :
    (r : Registry) (least : ℤ) (node : String) (g : GpuInfo) (namespace name : String)
    → IsBalanced r
    → IsFree r least node g
    → (pos 0 ≤ℤ free_mb (mark_gpu_allocated_for_pod r node g.uuid least namespace name) node g)
      × (free_mb (mark_gpu_allocated_for_pod r node g.uuid least namespace name) node g
          ≡ free_mb r node g -ℤ least)
unfolding free_mb
mark_within_free r least node g namespace name b f =
    let own : (eq_str node node && eq_str g.uuid g.uuid) ≡ true =
      ground (arith, eq_iff node node, eq_iff g.uuid g.uuid) in
    let more = rw own at (mark_gpu-reserved r node g.uuid least namespace name node g.uuid b) in
    let lower : free_mb (mark_gpu_allocated_for_pod r node g.uuid least namespace name) node g
        ≡ free_mb r node g -ℤ least =
      eq_of_parts _ _ (omega (int_laws, parts_of_eq more)) in
    (omega (int_laws, f.room, parts_of_eq lower), lower)
