-- ===== src/Allocator/Fifo/Laws.antt =====
-- internal/allocator/fifo.go: Schedule.
use gpu_scheduler.Common.{
  ◌≡◌, refl, ap, ◌⊎◌, inl, inr, Bool, none, some, List, [], ◌∷◌, ◌++◌, ℤ, All, Bool-cases, Outcome,
}
use gpu_scheduler.Types.{Job, Gpu, NodeInfo}
use gpu_scheduler.Allocator.Errors.{no_gpu}
use gpu_scheduler.Allocator.Eligible.{has_room, IsEligible, IsEligible-of_has_room, not-IsEligible}
use gpu_scheduler.Allocator.Fifo.{first_gpu, first_fit, scheduled, schedule}

-- `x` is the first element of `xs` with `P`.
pub record IsFirst {ℓ κ} {A : Type ℓ} (P : A → Type κ) (x : A) (xs : List A) : Type (ℓ ⊔ κ) where
  pub before : List A
  pub after : List A
  pub split : xs ≡ before ++ x ∷ after
  pub skipped : All (λ y. ¬ P y) before
  pub holds : P x

IsFirst-head {ℓ κ} :
    {A : Type ℓ} (P : A → Type κ) (x : A) (xs : List A) → P x → IsFirst P x (x ∷ xs)
IsFirst-head P x xs h = record { before = []; after = xs; split = refl; skipped = tt; holds = h }

IsFirst-tail {ℓ κ} :
    {A : Type ℓ} (P : A → Type κ) (x y : A) (xs : List A)
    → ¬ P y
    → IsFirst P x xs
    → IsFirst P x (y ∷ xs)
IsFirst-tail P x y xs n f = record {
  before = y ∷ f.before;
  after = f.after;
  split = ap (◌∷◌ y) f.split;
  skipped = (n, f.skipped);
  holds = f.holds;
}

module _ (shared : Bool) (need : ℤ) where
  abbrev pub Hosts : NodeInfo → Type 0
  Hosts node = (g : Gpu) × IsFirst (IsEligible shared need) g node.gpus

  first_gpu_cases :
      (gs : List Gpu)
      → ((g : Gpu) × (first_gpu shared need gs ≡ some g) × IsFirst (IsEligible shared need) g gs)
        ⊎ ((first_gpu shared need gs ≡ none) × All (λ g. ¬ IsEligible shared need g) gs)
  unfolding first_gpu
  first_gpu_cases [] = inr (refl, tt)
  first_gpu_cases (g ∷ gs) = elim (Bool-cases (has_room shared need g)) [
    | inl e ↦ inl (g, rw e, IsFirst-head _ g gs (IsEligible-of_has_room shared need g e))
    | inr e ↦
        let n = not-IsEligible shared need g e in
        elim (first_gpu_cases gs) [
          | inl (x, p, f) ↦ inl (x, rw e p, IsFirst-tail _ x g gs n f)
          | inr (p, a) ↦ inr (rw e p, (n, a))
        ]
  ]

  abbrev pub Barren : NodeInfo → Type 0
  Barren node = All (λ g. ¬ IsEligible shared need g) node.gpus

  abbrev pub FirstFit : List NodeInfo → NodeInfo × Gpu → Type 0
  FirstFit nodes (node, g) =
      (before : List NodeInfo) × (after : List NodeInfo) × (nodes ≡ before ++ node ∷ after)
      × All Barren before
      × IsFirst (IsEligible shared need) g node.gpus

  first_fit_cases :
      (nodes : List NodeInfo)
      → ((r : NodeInfo × Gpu) × (first_fit shared need nodes ≡ some r) × FirstFit nodes r)
        ⊎ ((first_fit shared need nodes ≡ none) × All Barren nodes)
  unfolding first_fit
  first_fit_cases [] = inr (refl, tt)
  first_fit_cases (node ∷ nodes) = elim (first_gpu_cases node.gpus) [
    | inl (g, p, f) ↦ inl ((node, g), rw (p, first_fit), ([], nodes, refl, tt, f))
    | inr (p, a) ↦ elim (first_fit_cases nodes) [
      | inl ((n, g), q, (before, after, split, skipped, f)) ↦ inl (
        (n, g),
        rw (p, first_fit) q,
        (node ∷ before, after, ap (◌∷◌ node) split, (a, skipped), f),
      )
      | inr (q, b) ↦ inr (rw (p, first_fit) q, (a, b))
    ]
  ]

-- FIFO scheduling of a job over at least one node: it succeeds with the first eligible GPU of the
-- first node that has one, under that node's name, or fails with the memory that was asked for,
-- and then no GPU of any node is eligible.
pub schedule-FirstFit :
    (job : Job) (node : NodeInfo) (nodes : List NodeInfo) (now : ℤ)
    → Outcome
        (λ r.
          (c : NodeInfo × Gpu) × FirstFit job.shared job.memory_mb (node ∷ nodes) c
          × (r ≡ scheduled job now c.0 c.1))
        (λ e. (e ≡ no_gpu job.memory_mb) × All (Barren job.shared job.memory_mb) (node ∷ nodes))
        (schedule (some job) (node ∷ nodes) now)
unfolding schedule
schedule-FirstFit job node nodes now =
    elim (first_fit_cases job.shared job.memory_mb (node ∷ nodes)) [
      | inl (c, p, f) ↦ rw (p, schedule) (c, f, refl)
      | inr (p, a) ↦ rw (p, schedule) (refl, a)
    ]
