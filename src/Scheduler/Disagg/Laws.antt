-- ===== src/Scheduler/Disagg/Laws.antt =====
-- internal/scheduler/watcher.go: selectDisaggFullGPUCandidate.
use gpu_scheduler.Common.{
  ◌≡◌, refl, ap, sym, ◌∙◌, true, false, Option, none, some, List, [], ◌∷◌, ◌++◌, String, eq_iff, ℤ,
  pos, ◌≤ℤ◌, ltb_ℤ, keep, keep-All, keep-passes, keep-nil, keep-Memᴰ, Memᴰ, subst, ◌≢◌, ltb_ℤ-true,
  ltb_ℤ-false, ◌<ℤ◌, if◌then◌else◌, All, All-map, All-Memᴰ, All-append, All-append_left,
  All-append_right, All-of_forall, Bool-cases, List-cases, arith, ◌⊎◌, inl, inr,
}
use gpu_scheduler.Types.{Gpu, NodeInfo, available_memory_mb}
use gpu_scheduler.Scheduler.Disagg.{
  FullGpuCandidate, full_gpu, is_open, open_of_node, collect_candidates, least_free, select_best,
  on_node, select_best_for_node, select_preferred, select_full_gpu,
}

-- A GPU that a disaggregated pod can have for itself.
pub record IsOpen (need : ℤ) (g : Gpu) : Type 0 where
  pub healthy : g.is_healthy ≡ true
  pub not_mps : g.is_mps ≡ false
  pub unused : g.allocated_pods ≤ℤ pos 0
  pub fits : need ≤ℤ available_memory_mb g

IsOpen-of_test : (need : ℤ) (g : Gpu) → is_open need g ≡ true → IsOpen need g
unfolding is_open
IsOpen-of_test need g h = ground arith

not-IsOpen : (need : ℤ) (g : Gpu) → is_open need g ≡ false → ¬ IsOpen need g
unfolding is_open
not-IsOpen need g h o = ground arith

-- A candidate that is an open GPU of one of the nodes.
pub record IsOffered (need : ℤ) (nodes : List NodeInfo) (c : FullGpuCandidate) : Type 0 where
  pub node : NodeInfo
  pub gpu : Gpu
  pub known : Memᴰ node nodes
  pub owned : Memᴰ gpu node.gpus
  pub opened : IsOpen need gpu
  pub made : c ≡ full_gpu node gpu

-- What holds of all open GPUs of the nodes.
abbrev pub OfOpen : ℤ → (FullGpuCandidate → Type 0) → List NodeInfo → Type 0
OfOpen need P = All (λ n. All (λ g. IsOpen need g → P (full_gpu n g)) n.gpus)

module _ (need : ℤ) where
  open_of_node-IsOffered :
      (nodes : List NodeInfo) (n : NodeInfo) (gs : List Gpu)
      → Memᴰ n nodes
      → ((g : Gpu) → Memᴰ g gs → Memᴰ g n.gpus)
      → All (IsOffered need nodes) (open_of_node need n gs)
  unfolding open_of_node
  open_of_node-IsOffered nodes n [] m sub = tt
  open_of_node-IsOffered nodes n (g ∷ gs) m sub =
      let rest = open_of_node-IsOffered nodes n gs m (λ x k. sub x (Memᴰ.tail k)) in
      elim (Bool-cases (is_open need g)) [
        | inl e ↦ rw e (
          record {
            node = n;
            gpu = g;
            known = m;
            owned = sub g (Memᴰ.head refl);
            opened = IsOpen-of_test need g e;
            made = refl;
          },
          rest,
        )
        | inr e ↦ rw e rest
      ]

  open_of_node_complete :
      (P : FullGpuCandidate → Type 0) (n : NodeInfo) (gs : List Gpu)
      → All P (open_of_node need n gs)
      → All (λ g. IsOpen need g → P (full_gpu n g)) gs
  unfolding open_of_node
  open_of_node_complete P n [] h = tt
  open_of_node_complete P n (g ∷ gs) h = elim (Bool-cases (is_open need g)) [
    | inl e ↦ let h' = (rw e at h) in (λ _. h'.0, open_of_node_complete P n gs h'.1)
    | inr e ↦ (λ o. absurd (not-IsOpen need g e o), open_of_node_complete P n gs (rw e at h))
  ]

  collect-IsOffered :
      (all nodes : List NodeInfo)
      → ((n : NodeInfo) → Memᴰ n nodes → Memᴰ n all)
      → All (IsOffered need all) (collect_candidates nodes need)
  unfolding collect_candidates
  collect-IsOffered all [] sub = tt
  collect-IsOffered all (n ∷ nodes) sub =
      All-append (IsOffered need all) (open_of_node need n n.gpus) (collect_candidates nodes need)
        (open_of_node-IsOffered all n n.gpus (sub n (Memᴰ.head refl)) (λ g m. m))
        (collect-IsOffered all nodes (λ x k. sub x (Memᴰ.tail k)))

  collect_complete :
      (P : FullGpuCandidate → Type 0) (nodes : List NodeInfo)
      → All P (collect_candidates nodes need)
      → OfOpen need P nodes
  unfolding collect_candidates
  collect_complete P [] h = tt
  collect_complete P (n ∷ nodes) h =
      let here = open_of_node need n n.gpus in
      let later = collect_candidates nodes need in
      (
        open_of_node_complete P n n.gpus (All-append_left P here later h),
        collect_complete P nodes (All-append_right P here later h),
      )

-- No more memory is left over than on another candidate.
abbrev pub NoFreer : FullGpuCandidate → FullGpuCandidate → Type 0
NoFreer best c = best.free_memory_mb ≤ℤ c.free_memory_mb

least_free-All :
    (P : FullGpuCandidate → Type 0) (c : FullGpuCandidate) (cs : List FullGpuCandidate)
    → All P (c ∷ cs)
    → P (least_free c cs)
unfolding least_free
least_free-All P c [] h = h.0
least_free-All P c (d ∷ cs) h = elim (Bool-cases (ltb_ℤ d.free_memory_mb c.free_memory_mb)) [
  | inl e ↦ rw e (least_free-All P d cs h.1)
  | inr e ↦ rw e (least_free-All P c cs (h.0, h.1.1))
]

under_both :
    (c d : FullGpuCandidate)
    → let w : FullGpuCandidate = if ltb_ℤ d.free_memory_mb c.free_memory_mb then d else c in
      (w.free_memory_mb ≤ℤ c.free_memory_mb) × (w.free_memory_mb ≤ℤ d.free_memory_mb)
under_both c d = elim (Bool-cases (ltb_ℤ d.free_memory_mb c.free_memory_mb)) [
  | inl e ↦
      let lt : d.free_memory_mb <ℤ c.free_memory_mb =
        ltb_ℤ-true d.free_memory_mb c.free_memory_mb e in
      rw e (omega (arith, lt), omega arith)
  | inr e ↦
      let le : c.free_memory_mb ≤ℤ d.free_memory_mb =
        ltb_ℤ-false d.free_memory_mb c.free_memory_mb e in
      rw e (omega arith, omega (arith, le))
]

least_free-NoFreer :
    (c : FullGpuCandidate) (cs : List FullGpuCandidate) → All (NoFreer (least_free c cs)) (c ∷ cs)
unfolding least_free
least_free-NoFreer c [] = (omega arith, tt)
least_free-NoFreer c (d ∷ cs) =
    let w : FullGpuCandidate = if ltb_ℤ d.free_memory_mb c.free_memory_mb then d else c in
    let best : All (NoFreer (least_free w cs)) (w ∷ cs) = least_free-NoFreer w cs in
    let under : (w.free_memory_mb ≤ℤ c.free_memory_mb) × (w.free_memory_mb ≤ℤ d.free_memory_mb) =
      under_both c d in
    (omega (arith, best.0, under.0), (omega (arith, best.0, under.1), best.1))

abbrev Elsewhere : List FullGpuCandidate → String → Type 0
Elsewhere cs name = All (λ d. d.node_name ≢ name) cs

-- The best of the candidates on the first of the preferred nodes that has any, or else of all.
abbrev ChoiceOf : List FullGpuCandidate → List String → FullGpuCandidate → Type 0
ChoiceOf cs names x =
    ((before : List String) × (after : List String) × (names ≡ before ++ x.node_name ∷ after)
      × All (Elsewhere cs) before
      × All (λ d. d.node_name ≡ x.node_name → NoFreer x d) cs)
    ⊎ (All (Elsewhere cs) names × All (NoFreer x) cs)

ChoiceOf-skip :
    (cs : List FullGpuCandidate) (name : String) (names : List String) (x : FullGpuCandidate)
    → Elsewhere cs name
    → ChoiceOf cs names x
    → ChoiceOf cs (name ∷ names) x
ChoiceOf-skip cs name names x away (inl (before, after, split, skipped, least)) =
    inl (name ∷ before, after, ap (◌∷◌ name) split, (away, skipped), least)
ChoiceOf-skip cs name names x away (inr (skipped, least)) = inr ((away, skipped), least)

abbrev Chosen : List FullGpuCandidate → List String → Type 0
Chosen cs names =
    (x : FullGpuCandidate) × (select_preferred cs names ≡ some x) × Memᴰ x cs × ChoiceOf cs names x

not_on_node : (name : String) (d : FullGpuCandidate) → on_node name d ≡ false → d.node_name ≢ name
not_on_node name d e same = ground (arith, eq_iff d.node_name name)

select_preferred-Chosen :
    (c : FullGpuCandidate) (cs : List FullGpuCandidate) (names : List String)
    → Chosen (c ∷ cs) names
unfolding select_preferred select_best_for_node select_best
select_preferred-Chosen c cs [] = (
  least_free c cs,
  refl,
  least_free-All (λ x. Memᴰ x (c ∷ cs)) c cs
      (All-of_forall (λ x. Memᴰ x (c ∷ cs)) (c ∷ cs) (λ x m. m)),
  inr (tt, least_free-NoFreer c cs),
)
select_preferred-Chosen c cs (name ∷ names) = elim (List-cases (keep (on_node name) (c ∷ cs))) [
  | inl e ↦
      let (x, chosen, m, choice) = select_preferred-Chosen c cs names in
      let away : Elsewhere (c ∷ cs) name =
        All-map (λ d. on_node name d ≡ false) _ (c ∷ cs) (not_on_node name)
          (keep-nil (on_node name) (c ∷ cs) e) in
      (
        x,
        rw (e, select_preferred, select_best_for_node) chosen,
        m,
        ChoiceOf-skip (c ∷ cs) name names x away choice,
      )
  | inr (k, ks, e) ↦
      let x = least_free k ks in
      let member : All (λ d. Memᴰ d (c ∷ cs)) (k ∷ ks) =
        subst (All (λ d. Memᴰ d (c ∷ cs))) e (keep-Memᴰ (on_node name) (c ∷ cs)) in
      let here : All (λ d. on_node name d ≡ true) (k ∷ ks) =
        subst (All (λ d. on_node name d ≡ true)) e (keep-passes (on_node name) (c ∷ cs)) in
      let at : x.node_name ≡ name =
        (eq_iff x.node_name name).0 (least_free-All (λ d. on_node name d ≡ true) k ks here) in
      let least : All (λ d. on_node name d ≡ true → NoFreer x d) (c ∷ cs) =
        keep-All (on_node name) (NoFreer x) (c ∷ cs)
          (subst (All (NoFreer x)) (sym e) (least_free-NoFreer k ks)) in
      (
        x,
        rw (e, select_preferred, select_best_for_node) refl,
        least_free-All (λ d. Memᴰ d (c ∷ cs)) k ks member,
        inl (
          [],
          names,
          ap (λ n. n ∷ names) (sym at),
          tt,
          All-map (λ d. on_node name d ≡ true → NoFreer x d) _ (c ∷ cs)
              (λ d f same. f ((eq_iff d.node_name name).1 (same ∙ at))) least,
        ),
      )
]

-- No open GPU of the nodes is on a node of a name.
abbrev pub NoneOn : ℤ → List NodeInfo → String → Type 0
NoneOn need nodes name = OfOpen need (λ d. d.node_name ≢ name) nodes

-- What the choice of a full GPU may answer.
abbrev pub FullGpuChoice : List NodeInfo → List String → ℤ → Option FullGpuCandidate → Type 0
FullGpuChoice nodes names need none = OfOpen need (λ _. ⊥) nodes
FullGpuChoice nodes names need (some x) =
    IsOffered need nodes x
    × (((before : List String) × (after : List String) × (names ≡ before ++ x.node_name ∷ after)
          × All (NoneOn need nodes) before
          × OfOpen need (λ d. d.node_name ≡ x.node_name → NoFreer x d) nodes)
        ⊎ (All (NoneOn need nodes) names × OfOpen need (NoFreer x) nodes))

away_all :
    (need : ℤ) (nodes : List NodeInfo) (names : List String)
    → All (Elsewhere (collect_candidates nodes need)) names
    → All (NoneOn need nodes) names
away_all need nodes names =
    All-map (Elsewhere (collect_candidates nodes need)) (NoneOn need nodes) names
      (λ name h. collect_complete need (λ d. d.node_name ≢ name) nodes h)

from_candidates :
    (need : ℤ) (nodes : List NodeInfo) (names : List String) (cs : List FullGpuCandidate)
    (x : FullGpuCandidate)
    → collect_candidates nodes need ≡ cs
    → Memᴰ x cs
    → ChoiceOf cs names x
    → FullGpuChoice nodes names need (some x)
from_candidates need nodes names cs x e m choice =
    let found = collect_candidates nodes need in
    (
      All-Memᴰ (IsOffered need nodes) found (collect-IsOffered need nodes nodes (λ n k. k))
          (subst (Memᴰ x) (sym e) m),
      told (subst (λ l. ChoiceOf l names x) (sym e) choice),
    )
  where
    told :
        ChoiceOf (collect_candidates nodes need) names x
        → ((before : List String) × (after : List String) × (names ≡ before ++ x.node_name ∷ after)
            × All (NoneOn need nodes) before
            × OfOpen need (λ d. d.node_name ≡ x.node_name → NoFreer x d) nodes)
          ⊎ (All (NoneOn need nodes) names × OfOpen need (NoFreer x) nodes)
    told (inl (before, after, split, skipped, least)) = inl (
      before,
      after,
      split,
      away_all need nodes before skipped,
      collect_complete need _ nodes least,
    )
    told (inr (skipped, least)) =
        inr (away_all need nodes names skipped, collect_complete need _ nodes least)

-- The full GPU for a disaggregated pod, over any nodes, preferred nodes and memory: an open GPU
-- (healthy, no MPS, unused, with the memory) of one of the nodes. It is on the first of the
-- preferred nodes that has an open GPU, with least free memory of those there; or, where none of
-- the preferred nodes has one, with least free memory of all open GPUs. There is no answer only if
-- no GPU is open.
pub select_full_gpu_lem :
    (nodes : List NodeInfo) (names : List String) (need : ℤ)
    → FullGpuChoice nodes names need (select_full_gpu nodes names need)
unfolding select_full_gpu
select_full_gpu_lem nodes names need = elim (List-cases (collect_candidates nodes need)) [
  | inl e ↦
      let empty : All (λ _. ⊥) (collect_candidates nodes need) = rw e tt in
      rw (e, select_full_gpu) (collect_complete need (λ _. ⊥) nodes empty)
  | inr (c, cs, e) ↦
      let (x, chosen, m, choice) = select_preferred-Chosen c cs names in
      rw (e, select_full_gpu) (rw chosen (from_candidates need nodes names (c ∷ cs) x e m choice))
]
