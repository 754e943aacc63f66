-- ===== src/Manager/RoundTrip.antt =====
-- internal/gpu/manager.go: Allocate against Release.
use gpu_scheduler.Common.{
  ◌≡◌, refl, sym, ap, ap₂, subst, ◌⊎◌, inl, inr, true, false, Option, none, some, List, [], ◌∷◌,
  String, eq_str, eq_iff, ℤ, pos, ◌-ℤ◌, eqb_ℤ, ltb_ℤ, int_laws, eq_of_parts, All, Bool-cases,
  if◌then◌else◌,
}
use gpu_scheduler.Common.Dict.{Dict, lookup, insert, erase, lookup_or}
use gpu_scheduler.Types.{Gpu, NodeInfo, available_memory_mb}
use gpu_scheduler.Manager.{
  Allocation, Manager, ManagerError, insufficient_memory, find_gpu, find_on, charge, charge_first,
  charge_on, allocate, give_back_gpus, give_back_nodes, give_back_all, release,
}

module _ (id : String) where
  -- No GPU of a list has the id, or of a node.
  abbrev pub Absent : List Gpu → Type 0
  Absent = All (λ g. eq_str g.id id ≡ false)

  -- Exactly one GPU has the id.
  abbrev pub Once : List Gpu → Type 0
  Once [] = ⊥
  Once (g ∷ gs) = ((eq_str g.id id ≡ true) × Absent gs) ⊎ ((eq_str g.id id ≡ false) × Once gs)

  abbrev pub OnceIn : Dict NodeInfo → Type 0
  OnceIn [] = ⊥
  OnceIn ((name, n) ∷ nodes) =
      (Once n.gpus × All (λ x. Absent x.1.gpus) nodes) ⊎ (Absent n.gpus × OnceIn nodes)

  pub find-Absent : (gs : List Gpu) → Absent gs → find_gpu id gs ≡ none
  unfolding find_gpu
  find-Absent [] h = refl
  find-Absent (g ∷ gs) h = rw (h.0) (find-Absent gs h.1)

  find-Once : (gs : List Gpu) → Once gs → (g : Gpu) × (find_gpu id gs ≡ some g) × (g.id ≡ id)
  unfolding find_gpu
  find-Once [] h = absurd h
  find-Once (g ∷ gs) (inl (e, a)) = (g, rw e refl, (eq_iff g.id id).0 e)
  find-Once (g ∷ gs) (inr (e, o)) = let (x, f, s) = find-Once gs o in (x, rw e f, s)

  module _ (memory : ℤ) (some_memory : eqb_ℤ memory (pos 0) ≡ false) where
    give_back-Absent : (gs : List Gpu) → Absent gs → give_back_gpus id memory gs ≡ gs
    unfolding give_back_gpus
    give_back-Absent [] h = refl
    give_back-Absent (g ∷ gs) h = rw (h.0) (ap (◌∷◌ g) (give_back-Absent gs h.1))

    charged_back :
        (g : Gpu)
        → (record (charge memory g) { used_memory_mb = (charge memory g).used_memory_mb -ℤ memory })
          ≡ g
    unfolding charge
    charged_back g =
        rw some_memory
          (ap (λ (u : ℤ). record g { used_memory_mb = u }) (eq_of_parts _ _ (omega int_laws)))

    head_back :
        (g : Gpu)
        → eq_str g.id id ≡ true
        → (if eq_str (charge memory g).id id
            then record (charge memory g) {
              used_memory_mb = (charge memory g).used_memory_mb -ℤ memory;
            }
            else charge memory g)
          ≡ g
    unfolding charge
    head_back g e = rw e (charged_back g)

    give_back-charge :
        (gs : List Gpu) → Once gs → give_back_gpus id memory (charge_first id memory gs) ≡ gs
    unfolding give_back_gpus charge_first
    give_back-charge [] h = absurd h
    give_back-charge (g ∷ gs) (inl (e, a)) =
        rw (e, give_back_gpus) (ap₂ (λ x xs. x ∷ xs) (head_back g e) (give_back-Absent gs a))
    give_back-charge (g ∷ gs) (inr (e, o)) =
        rw (e, give_back_gpus) (rw e (ap (◌∷◌ g) (give_back-charge gs o)))

    nodes-Absent :
        (nodes : Dict NodeInfo)
        → All (λ x. Absent x.1.gpus) nodes
        → give_back_nodes id memory nodes ≡ nodes
    unfolding give_back_nodes
    nodes-Absent [] h = refl
    nodes-Absent ((name, n) ∷ nodes) h =
        ap₂ (λ (gs : List Gpu) (rest : Dict NodeInfo). (name, record n { gpus = gs }) ∷ rest)
          (give_back-Absent n.gpus h.0) (nodes-Absent nodes h.1)

    nodes-charge :
        (nodes : Dict NodeInfo)
        → OnceIn nodes
        → give_back_nodes id memory (charge_on id memory nodes) ≡ nodes
    unfolding give_back_nodes charge_on
    nodes-charge [] h = absurd h
    nodes-charge ((name, n) ∷ nodes) (inl (o, a)) =
        let (g, f, s) = find-Once n.gpus o in
        rw (f, give_back_nodes)
          (ap₂ (λ (gs : List Gpu) (rest : Dict NodeInfo). (name, record n { gpus = gs }) ∷ rest)
            (give_back-charge n.gpus o) (nodes-Absent nodes a))
    nodes-charge ((name, n) ∷ nodes) (inr (a, o)) =
        rw (find-Absent n.gpus a, give_back_nodes)
          (ap₂ (λ (gs : List Gpu) (rest : Dict NodeInfo). (name, record n { gpus = gs }) ∷ rest)
            (give_back-Absent n.gpus a) (nodes-charge nodes o))

  find_on-OnceIn :
      (nodes : Dict NodeInfo)
      → OnceIn nodes
      → (n : NodeInfo) × (g : Gpu) × (find_on id nodes ≡ some (n, g)) × (g.id ≡ id)
  unfolding find_on
  find_on-OnceIn [] h = absurd h
  find_on-OnceIn ((name, n) ∷ nodes) (inl (o, a)) =
      let (g, f, s) = find-Once n.gpus o in (n, g, rw (f, find_on) refl, s)
  find_on-OnceIn ((name, n) ∷ nodes) (inr (a, o)) =
      let (m, g, f, s) = find_on-OnceIn nodes o in (m, g, rw (find-Absent n.gpus a, find_on) f, s)

insert-lookup :
    (job : String) (v : List Allocation) (d : Dict (List Allocation))
    → lookup job d ≡ none
    → (lookup job (insert job v d) ≡ some v) × (erase job (insert job v d) ≡ d)
unfolding lookup insert erase
insert-lookup job v [] h =
    let own : eq_str job job ≡ true = (eq_iff job job).1 refl in (rw own refl, rw own refl)
insert-lookup job v ((j, w) ∷ d) h = elim (Bool-cases (eq_str j job)) [
  | inl e ↦ absurd (cc (rw e at h))
  | inr e ↦
      let (l, r) = insert-lookup job v d (rw e at h) in
      (rw (e, lookup) (rw e l), rw (e, erase) (rw e (ap (◌∷◌ (j, w)) r)))
]

-- The manager after a memory is taken for a job that held nothing.
abbrev pub taken : Manager → String → String → ℤ → Gpu → NodeInfo → Manager
taken m job id memory g n = record {
  nodes = charge_on id memory m.nodes;
  allocations =
      insert job
        (record { job_id = job; gpu_id = g.id; node_name = n.name; memory_mb = memory } ∷ [])
        m.allocations;
}

abbrev after : Dict NodeInfo → Dict (List Allocation) → Manager × Option ManagerError
after nodes held = (record { nodes = nodes; allocations = held }, none)

pub taken_back :
    (m : Manager) (job id : String) (memory : ℤ) (g : Gpu) (n : NodeInfo)
    → lookup job m.allocations ≡ none
    → eqb_ℤ memory (pos 0) ≡ false
    → OnceIn id m.nodes
    → g.id ≡ id
    → release (taken m job id memory g n) job ≡ (m, none)
unfolding release give_back_all
taken_back m job id memory g n free some_memory once same =
    let a : Allocation = record {
      job_id = job;
      gpu_id = g.id;
      node_name = n.name;
      memory_mb = memory;
    } in
    let (l, r) = insert-lookup job (a ∷ []) m.allocations free in
    let back : give_back_nodes g.id memory (charge_on id memory m.nodes) ≡ m.nodes =
      subst (λ i. give_back_nodes i memory (charge_on id memory m.nodes) ≡ m.nodes) (sym same)
        (nodes-charge id memory some_memory m.nodes once) in
    rw (l, release) (ap₂ after back r)

pub after_allocate :
    (m : Manager) (job id : String) (memory : ℤ) (g : Gpu) (n : NodeInfo)
    → find_on id m.nodes ≡ some (n, g)
    → lookup job m.allocations ≡ none
    → allocate m job id memory ≡ (
        if ltb_ℤ (available_memory_mb g) memory
        then (m, some insufficient_memory)
        else (taken m job id memory g n, none))
unfolding allocate
after_allocate m job id memory g n found free = rw (found, allocate) (rw (free, lookup_or) refl)

-- A job that holds nothing asks for memory, not 0, on a GPU that stands in one place of the nodes.
-- Then Allocate refuses for too little memory and changes nothing, or it allocates, and Release
-- puts the manager back as it was.
pub allocate-release :
    (m : Manager) (job id : String) (memory : ℤ)
    → lookup job m.allocations ≡ none
    → eqb_ℤ memory (pos 0) ≡ false
    → OnceIn id m.nodes
    → (allocate m job id memory ≡ (m, some insufficient_memory))
      ⊎ ((m' : Manager) × (allocate m job id memory ≡ (m', none)) × (release m' job ≡ (m, none)))
allocate-release m job id memory free some_memory once =
    let (n, g, f, s) = find_on-OnceIn id m.nodes once in
    let made = after_allocate m job id memory g n f free in
    elim (Bool-cases (ltb_ℤ (available_memory_mb g) memory)) [
      | inl e ↦ inl (rw e at made)
      | inr e ↦ inr (
        taken m job id memory g n,
        rw e at made,
        taken_back m job id memory g n free some_memory once s,
      )
    ]
