-- ===== src/Allocator/Routing/Laws.antt =====
-- internal/allocator/routing.go and allocator.go: the choice of a pool and of a device in it.
use gpu_scheduler.Common.{
  ap, All-map, ltb_ℤ, ltb_ℤ-true, eq_of_parts, ◌<ℤ◌, ◌≤ℤ◌, Result-cases, List-cases, Outcome-map,
  ◌≡◌, ◌≢◌, refl, ◌⊎◌, inl, inr, Bool, true, false, some, List, [], ◌∷◌, ℤ, pos, eqb_ℤ, arith, Memᴰ,
  Permᴰ, All, All-Permᴰ, Bool-cases, Outcome, IsStrictWeak, Ordered, SortSlice, length-Permᴰ,
  if◌then◌else◌, All-of_forall, All-Memᴰ, sym, subst,
}
use mathlib.Core.List.Permᴰ
use gpu_scheduler.Types.{Job, SchedulingResult}
use gpu_scheduler.Registry.{Registry}
use gpu_scheduler.Registry.Find.{
  MigCandidate, GpuCandidate, find_available_mig, find_available_mps_gpu,
  find_available_non_mps_gpu,
}
use gpu_scheduler.Allocator.Routing.{
  PoolPreference, pool_mig, pool_full, pool_auto, RoutingError, JobClassification, fits_before,
  mig_key, gpu_key, head, select_best_mig, select_best_full_gpu, result_of, allocate_from_mig,
  from_candidates, allocate_from_full_gpu, try_pool, auto_select_pool, get_other_pool,
  preferred_pool, allocate_classified,
}

fits_before-IsStrictWeak :
    {A : Type 0} (key : A → ℤ × ℤ) (shared : Bool)
    → IsStrictWeak (λ a b. fits_before shared (key a) (key b))
unfolding fits_before
fits_before-IsStrictWeak key true = record {
  asymm = λ a b h. ground (arith, h);
  split = λ a b c h. ground (arith, h);
}
fits_before-IsStrictWeak key false = record {
  asymm = λ a b h. ground (arith, h);
  split = λ a b c h. ground (arith, h);
}

-- The element that comes first in the order of `less`: no element of the list is less.
abbrev pub IsBest : {A : Type 0} → (A → A → Bool) → List A → A → Type 0
IsBest less xs best = Memᴰ best xs × All (λ x. less x best ≡ false) xs

-- The head of a sorted list that is not empty.
sort-head :
    {A : Type 0} (sorter : SortSlice) (less : A → A → Bool) (x : A) (xs : List A)
    → IsStrictWeak less
    → (best : A) × (head (sorter.sort_slice A less (x ∷ xs)) ≡ some best)
      × IsBest less (x ∷ xs) best
sort-head {A} sorter less x xs w =
    go (sorter.sort_slice A less (x ∷ xs)) (sorter.sort_slice-Permᴰ A less (x ∷ xs))
      (sorter.sort_slice-Ordered A less (x ∷ xs) w)
  where
    go :
        (ys : List A)
        → Permᴰ (x ∷ xs) ys
        → Ordered less ys
        → (best : A) × (head ys ≡ some best) × IsBest less (x ∷ xs) best
    go [] p o = absurd (cc (length-Permᴰ p))
    go (y ∷ ys) p o =
        let irrefl : less y y ≡ false = elim (Bool-cases (less y y)) [
          | inl e ↦ w.asymm y y e
          | inr e ↦ e
        ] in
        (
          y,
          refl,
          (
            All-Memᴰ (λ z. Memᴰ z (x ∷ xs)) (y ∷ ys)
                (All-Permᴰ (λ z. Memᴰ z (x ∷ xs)) p
                  (All-of_forall (λ z. Memᴰ z (x ∷ xs)) (x ∷ xs) (λ z m. m)))
                (Memᴰ.head refl),
            All-Permᴰ (λ z. less z y ≡ false) (Permᴰ.symm p) (irrefl, o.0),
          ),
        )

-- The device with the least memory, and of those with as much the one with the fewest pods, or the
-- most for a shared pod: none of the list fits better.
abbrev pub FitsNoWorse : Bool → ℤ × ℤ → ℤ × ℤ → Type 0
FitsNoWorse true (m, p) (n, q) = (m <ℤ n) ⊎ ((m ≡ n) × (q ≤ℤ p))
FitsNoWorse false (m, p) (n, q) = (m <ℤ n) ⊎ ((m ≡ n) × (p ≤ℤ q))

abbrev pub BestFits : {A : Type 0} → (A → ℤ × ℤ) → Bool → List A → A → Type 0
BestFits key shared xs best = Memᴰ best xs × All (λ x. FitsNoWorse shared (key best) (key x)) xs

fits_no_worse :
    (shared : Bool) (a b : ℤ × ℤ) → fits_before shared b a ≡ false → FitsNoWorse shared a b
unfolding fits_before
fits_no_worse true (m, p) (n, q) h = elim (Bool-cases (ltb_ℤ m n)) [
  | inl l ↦ inl (ltb_ℤ-true m n l)
  | inr l ↦ inr (eq_of_parts m n (ground (arith, h, l)), ground (arith, h, l))
]
fits_no_worse false (m, p) (n, q) h = elim (Bool-cases (ltb_ℤ m n)) [
  | inl l ↦ inl (ltb_ℤ-true m n l)
  | inr l ↦ inr (eq_of_parts m n (ground (arith, h, l)), ground (arith, h, l))
]

best_fits :
    {A : Type 0} (key : A → ℤ × ℤ) (shared : Bool) (xs : List A) (best : A)
    → IsBest (λ a b. fits_before shared (key a) (key b)) xs best
    → BestFits key shared xs best
best_fits key shared xs best (m, h) = (
  m,
  All-map (λ x. fits_before shared (key x) (key best) ≡ false)
      (λ x. FitsNoWorse shared (key best) (key x)) xs
      (λ x k. fits_no_worse shared (key best) (key x) k) h,
)

module _ (r : Registry) (memory : ℤ) (job : Job) (shared : Bool) (now : ℤ) where
  -- The full GPUs that are open to the pod: those with MPS for a shared pod, and those with no MPS
  -- and no pod for any other.
  abbrev pub open_gpus : List GpuCandidate
  open_gpus =
      if shared then find_available_mps_gpu r memory else find_available_non_mps_gpu r memory

  -- The result places the pod on the best-fitting device of a pool.
  abbrev pub IsFrom : PoolPreference → SchedulingResult → Type 0
  IsFrom pool_mig res =
      (c : MigCandidate) × BestFits mig_key shared (find_available_mig r memory) c
      × (res ≡ result_of job now c.node_name c.mig_uuid true)
  IsFrom pool_full res =
      (c : GpuCandidate) × BestFits gpu_key shared open_gpus c
      × (res ≡ result_of job now c.node_name c.gpu_uuid false)
  IsFrom pool_auto res = ⊥

  -- The pool has no device for the pod.
  abbrev pub IsExhausted : PoolPreference → Type 0
  IsExhausted pool_mig = find_available_mig r memory ≡ []
  IsExhausted pool_full = open_gpus ≡ []
  IsExhausted pool_auto = Unit

  from_mig_lem :
      (sorter : SortSlice)
      → Outcome
          (IsFrom pool_mig)
          (λ e. IsExhausted pool_mig)
          (allocate_from_mig sorter r memory job shared now)
  unfolding allocate_from_mig select_best_mig
  from_mig_lem sorter = elim (List-cases (find_available_mig r memory)) [
    | inl p ↦ rw (p, allocate_from_mig) refl
    | inr (x, xs, p) ↦
        let (best, h, b) =
          sort-head sorter (λ a b. fits_before shared (mig_key a) (mig_key b)) x xs
            (fits_before-IsStrictWeak mig_key shared) in
        rw (p, h, allocate_from_mig)
          (
            best,
            subst (λ l. BestFits mig_key shared l best) (sym p)
                (best_fits mig_key shared (x ∷ xs) best b),
            refl,
          )
  ]

  best_gpu_lem :
      (sorter : SortSlice) (x : GpuCandidate) (xs : List GpuCandidate)
      → Outcome
          (λ res.
            (c : GpuCandidate) × BestFits gpu_key shared (x ∷ xs) c
            × (res ≡ result_of job now c.node_name c.gpu_uuid false))
          (λ e. ⊥)
          (from_candidates sorter (x ∷ xs) job shared now)
  unfolding from_candidates select_best_full_gpu
  best_gpu_lem sorter x xs =
      let (best, h, b) =
        sort-head sorter (λ a b. fits_before shared (gpu_key a) (gpu_key b)) x xs
          (fits_before-IsStrictWeak gpu_key shared) in
      rw (h, from_candidates) (best, best_fits gpu_key shared (x ∷ xs) best b, refl)

  full_of :
      (Q : RoutingError → Type 0) (sorter : SortSlice) (x : GpuCandidate) (xs : List GpuCandidate)
      → open_gpus ≡ x ∷ xs
      → Outcome (IsFrom pool_full) Q (from_candidates sorter (x ∷ xs) job shared now)
  full_of Q sorter x xs p =
      Outcome-map _ _ _ _ (from_candidates sorter (x ∷ xs) job shared now)
        (λ res (c, b, e). (c, subst (λ l. BestFits gpu_key shared l c) (sym p) b, e))
        (λ e n. absurd n) (best_gpu_lem sorter x xs)

module _ (sorter : SortSlice) (r : Registry) (memory : ℤ) (job : Job) (now : ℤ) where
  from_full_lem :
      (shared : Bool)
      → Outcome
          (IsFrom r memory job shared now pool_full)
          (λ e. IsExhausted r memory job shared now pool_full)
          (allocate_from_full_gpu sorter r memory job shared now)
  unfolding allocate_from_full_gpu
  from_full_lem true = elim (List-cases (find_available_mps_gpu r memory)) [
    | inl p ↦ rw (p, allocate_from_full_gpu) refl
    | inr (x, xs, p) ↦
        rw (p, allocate_from_full_gpu) (full_of r memory job true now _ sorter x xs p)
  ]
  from_full_lem false = elim (List-cases (find_available_non_mps_gpu r memory)) [
    | inl p ↦ rw (p, allocate_from_full_gpu) refl
    | inr (x, xs, p) ↦
        rw (p, allocate_from_full_gpu) (full_of r memory job false now _ sorter x xs p)
  ]

  try_pool_lem :
      (pool : PoolPreference) (shared : Bool)
      → pool ≢ pool_auto
      → Outcome
          (IsFrom r memory job shared now pool)
          (λ e. IsExhausted r memory job shared now pool)
          (try_pool sorter r pool memory job shared now)
  unfolding try_pool
  try_pool_lem pool_mig shared n = from_mig_lem r memory job shared now sorter
  try_pool_lem pool_full shared n = from_full_lem shared
  try_pool_lem pool_auto shared n = absurd (n refl)

preferred-not-auto :
    (r : Registry) (pool : PoolPreference) (memory : ℤ) → preferred_pool r pool memory ≢ pool_auto
unfolding preferred_pool auto_select_pool
preferred-not-auto r pool_mig memory h = absurd (cc h)
preferred-not-auto r pool_full memory h = absurd (cc h)
preferred-not-auto r pool_auto memory h = elim (List-cases (find_available_mig r memory)) [
  | inl p ↦ absurd (cc (rw (p, auto_select_pool) at h))
  | inr (x, xs, p) ↦ absurd (cc (rw (p, auto_select_pool) at h))
]

other-not-auto : (pool : PoolPreference) → get_other_pool pool ≢ pool_auto
unfolding get_other_pool
other-not-auto pool_mig h = absurd (cc h)
other-not-auto pool_full h = absurd (cc h)
other-not-auto pool_auto h = absurd (cc h)

-- The memory a pod is routed by: its annotation's, or the job's where that is 0.
abbrev pub memory_of : JobClassification → Job → ℤ
memory_of class job =
    if eqb_ℤ class.memory_request_mb (pos 0) then job.memory_mb else class.memory_request_mb

-- The same, by the code's own choice of the pools.
route_pool :
    (sorter : SortSlice) (r : Registry) (class : JobClassification) (job : Job) (shared : Bool)
    (now : ℤ)
    → let memory = memory_of class job in
      let pool = preferred_pool r class.pool memory in
      Outcome
        (λ res.
          IsFrom r memory job shared now pool res
          ⊎ ((class.strict_mode ≡ false)
              × IsExhausted r memory job shared now pool
              × IsFrom r memory job shared now (get_other_pool pool) res))
        (λ e.
          IsExhausted r memory job shared now pool
          × ((class.strict_mode ≡ true)
              ⊎ IsExhausted r memory job shared now (get_other_pool pool)))
        (allocate_classified sorter r class job shared now)
unfolding allocate_classified
route_pool sorter r class job shared now =
    let memory = memory_of class job in
    let pool = preferred_pool r class.pool memory in
    let other = get_other_pool pool in
    let tried =
      try_pool_lem sorter r memory job now pool shared (preferred-not-auto r class.pool memory) in
    let fell = try_pool_lem sorter r memory job now other shared (other-not-auto pool) in
    elim (Result-cases (try_pool sorter r pool memory job shared now)) [
      | inl (a, p) ↦ rw (p, allocate_classified) (inl (rw p at tried))
      | inr (e, p) ↦ elim (Bool-cases class.strict_mode) [
        | inl s ↦ rw (p, s, allocate_classified) (rw p at tried, inl refl)
        | inr s ↦ elim (Result-cases (try_pool sorter r other memory job shared now)) [
          | inl (a, q) ↦ rw (p, s, q, allocate_classified) (inr (refl, rw p at tried, rw q at fell))
          | inr (e', q) ↦ rw (p, s, q, allocate_classified) (rw p at tried, inr (rw q at fell))
        ]
      ]
    ]

-- The pool that is tried first: the one that the class names, and with none named the MIG pool if
-- it has an instance that is large enough.
abbrev pub TriesFirst : Registry → PoolPreference → ℤ → PoolPreference → Type 0
TriesFirst r pool_mig memory pool = pool ≡ pool_mig
TriesFirst r pool_full memory pool = pool ≡ pool_full
TriesFirst r pool_auto memory pool =
    ((pool ≡ pool_mig) × (find_available_mig r memory ≢ []))
    ⊎ ((pool ≡ pool_full) × (find_available_mig r memory ≡ []))

preferred-TriesFirst :
    (r : Registry) (named : PoolPreference) (memory : ℤ)
    → TriesFirst r named memory (preferred_pool r named memory)
unfolding preferred_pool auto_select_pool
preferred-TriesFirst r pool_mig memory = refl
preferred-TriesFirst r pool_full memory = refl
preferred-TriesFirst r pool_auto memory = elim (List-cases (find_available_mig r memory)) [
  | inl p ↦ inr (rw (p, auto_select_pool) refl, p)
  | inr (x, xs, p) ↦ inl (rw (p, auto_select_pool) refl, λ h. cc (p, h))
]

-- The pool that is tried second.
abbrev pub TriesSecond : PoolPreference → PoolPreference → Type 0
TriesSecond first second =
    ((first ≡ pool_mig) × (second ≡ pool_full)) ⊎ ((first ≡ pool_full) × (second ≡ pool_mig))

other-TriesSecond :
    (pool : PoolPreference) → pool ≢ pool_auto → TriesSecond pool (get_other_pool pool)
unfolding get_other_pool
other-TriesSecond pool_mig n = inl (refl, refl)
other-TriesSecond pool_full n = inr (refl, refl)
other-TriesSecond pool_auto n = absurd (n refl)

-- Routing a classified job, with any sort, registry and class. The pool tried first is the one that
-- the class names, or with none named the MIG pool if it has an open instance that is large enough
-- and else the full one; the pool tried second is the other of the two. On success the result names
-- a device of the first pool or, if the class is not strict and the first has none, of the second:
-- one with the least free memory of the pool's open devices, and of those with as much one with the
-- fewest pods, for a shared pod the most. On an error the first pool has no device, and the class is
-- strict or the second has none either.
pub route_best_fit :
    (sorter : SortSlice) (r : Registry) (class : JobClassification) (job : Job) (shared : Bool)
    (now : ℤ)
    → let memory = memory_of class job in
      (first second : PoolPreference) × TriesFirst r class.pool memory first
      × TriesSecond first second
      × Outcome
          (λ res.
            IsFrom r memory job shared now first res
            ⊎ ((class.strict_mode ≡ false)
                × IsExhausted r memory job shared now first
                × IsFrom r memory job shared now second res))
          (λ e.
            IsExhausted r memory job shared now first
            × ((class.strict_mode ≡ true) ⊎ IsExhausted r memory job shared now second))
          (allocate_classified sorter r class job shared now)
route_best_fit sorter r class job shared now =
    let memory = memory_of class job in
    let first = preferred_pool r class.pool memory in
    (
      first,
      get_other_pool first,
      preferred-TriesFirst r class.pool memory,
      other-TriesSecond first (preferred-not-auto r class.pool memory),
      route_pool sorter r class job shared now,
    )

IsFrom-devices :
    (r : Registry) (memory : ℤ) (job : Job) (shared : Bool) (now : ℤ) (pool : PoolPreference)
    (res : SchedulingResult)
    → IsFrom r memory job shared now pool res
    → res.gpu_ids ≢ []
IsFrom-devices r memory job shared now pool_mig res (c, b, e) none_given =
    cc (ap (λ (x : SchedulingResult). x.gpu_ids) e, none_given)
IsFrom-devices r memory job shared now pool_full res (c, b, e) none_given =
    cc (ap (λ (x : SchedulingResult). x.gpu_ids) e, none_given)
IsFrom-devices r memory job shared now pool_auto res h none_given = absurd h

-- A result of the routing names a device.
pub route-devices :
    (sorter : SortSlice) (r : Registry) (class : JobClassification) (job : Job) (shared : Bool)
    (now : ℤ)
    → Outcome
        (λ res. res.gpu_ids ≢ [])
        (λ _. Unit {0})
        (allocate_classified sorter r class job shared now)
route-devices sorter r class job shared now =
    let memory = memory_of class job in
    let pool = preferred_pool r class.pool memory in
    Outcome-map _ _ _ _ (allocate_classified sorter r class job shared now) (named memory pool)
      (λ _ _. tt) (route_pool sorter r class job shared now)
  where
    named :
        (memory : ℤ) (pool : PoolPreference) (res : SchedulingResult)
        → IsFrom r memory job shared now pool res
          ⊎ ((class.strict_mode ≡ false)
              × IsExhausted r memory job shared now pool
              × IsFrom r memory job shared now (get_other_pool pool) res)
        → res.gpu_ids ≢ []
    named memory pool res (inl h) = IsFrom-devices r memory job shared now pool res h
    named memory pool res (inr (s, e, h)) =
        IsFrom-devices r memory job shared now (get_other_pool pool) res h
